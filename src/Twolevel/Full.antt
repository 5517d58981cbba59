-- ===== src/Twolevel/Full.antt =====
-- What twolevel_insert of nvmevirt/twolevel.c does with a new key when its leaf is full.
use virtkv.Twolevel.{
  Table, LeafEntry, in_leaf, uint_max, lower_bound, insert_pair, insert_in, twolevel_find,
}
use virtkv.Twolevel.Reload.{
  count_of, key_at, all_pairs, pairs_with, twolevel_reload, twolevel_insert,
}
use virtkv.Twolevel.Dealt.{ppa_at, IsRising}
use virtkv.Twolevel.Sort.{IsSort, Rises-at, count-append}
use virtkv.Twolevel.Bulk.{Holds}
use virtkv.Twolevel.Redeal.{twolevel_reload_lem}
use virtkv.Twolevel.Pairs.{
  In, In-at, at-In, In-append, In-left, In-right, Distinct, Distinct-append, all_pairs-Stands,
  Stands-all_pairs, all_pairs-Distinct,
}
use virtkv.Twolevel.Find.{IsTable, Maps, find-Stands, find-absent, find-cases, first_of}
use virtkv.Twolevel.Fresh.{missing-absent, if_false, twolevel_insert-room}
use virtkv.Twolevel.Search.{lower_bound-Splits}
use mathlib.Core.Path.{subst}
use virtkv.Common.{
  ℕ, Bool, List, [], ◌∷◌, ◌++◌, ◌+◌, ◌-◌, ◌*◌, ◌≡◌, ◌≢◌, ◌<◌, ◌==◌, ◌>>=◌, not, ok, none, suc, u32,
  if◌then◌else◌, arith, inl, inr, true, refl, sym, ap, ◌∙◌, Returns, Outcome, ℕ_discrete,
}

module _ (sort : List LeafEntry → List LeafEntry) (law : IsSort sort) (t : Table)
    (valid : IsTable t) (hidx ppa : ℕ) (small : hidx < uint_max)
    (missing : twolevel_find t hidx ≡ ok (uint_max, none)) where
  with_new : pairs_with t hidx ppa ≡ all_pairs t.leaves t.cnt 0 ++ ((hidx, ppa) ∷ [])
  unfolding pairs_with
  with_new =
      if_false (hidx == uint_max) (all_pairs t.leaves t.cnt 0)
        (all_pairs t.leaves t.cnt 0 ++ ((hidx, ppa) ∷ [])) (ground (arith, small))

  key : hidx ≢ uint_max
  key e = omega (arith, small, e)

  new_pairs : List LeafEntry
  new_pairs = all_pairs t.leaves t.cnt 0 ++ ((hidx, ppa) ∷ [])

  new_pairs-Distinct : Distinct new_pairs
  unfolding new_pairs
  new_pairs-Distinct =
      Distinct-append (all_pairs t.leaves t.cnt 0) ((hidx, ppa) ∷ [])
        (all_pairs-Distinct t t.cnt 0 valid (omega arith)) ((λ v h. h), tt)
        (λ k v w a b. elim b [
          | inl (same, _) ↦
              let (i, j, stands, _, _) = Stands-all_pairs k v t a in
              missing-absent t hidx valid key missing i j stands.0 stands.1 (stands.2 ∙ sym same)
          | inr h ↦ h
        ])

  -- A pair of the table has a key below UINT_MAX.
  new_pairs-below : (k v : ℕ) → In new_pairs k v → k < uint_max
  unfolding new_pairs
  new_pairs-below k v there =
      elim (In-append k v (all_pairs t.leaves t.cnt 0) ((hidx, ppa) ∷ []) there) [
        | inl old ↦
            let (i, j, (inside, slots, here), _, used) = Stands-all_pairs k v t old in
            let up = valid.upper i j inside slots (λ e. used (sym here ∙ e)) in
            let top = valid.sorted i (t.cnt - 1) (omega (arith, inside)) (omega (arith, inside)) in
            omega (arith, up, top, valid.last, here, used)
        | inr (inl (same, _)) ↦ rw (sym same) small
        | inr (inr h) ↦ absurd h
      ]

  sorted-IsRising : IsRising (sort new_pairs)
  sorted-IsRising = (
    λ p there. new_pairs-below (key_at (sort new_pairs) p) (ppa_at (sort new_pairs) p) (
        law.no_others new_pairs (key_at (sort new_pairs) p) (ppa_at (sort new_pairs) p)
          (at-In (sort new_pairs) p there)),
    λ p q order there.
        Rises-at (sort new_pairs) p q (law.ordered new_pairs new_pairs-Distinct) order there,
  )

  -- What is found in a table that has the sorted pairs.
  Holds-Maps : (t' : Table) (k v : ℕ) → Holds (sort new_pairs) t' → In new_pairs k v → Maps t' k v
  Holds-Maps t' k v holds there =
      let (p, inside, same_key, same_ppa) =
        In-at (sort new_pairs) k v (law.kept new_pairs k v there) in
      rw (sym same_key, sym same_ppa) (holds.1 p inside)

  Holds-new : (t' : Table) → Holds (sort new_pairs) t' → Maps t' hidx ppa
  unfolding new_pairs
  Holds-new t' holds =
      Holds-Maps t' hidx ppa holds
        (In-right hidx ppa (all_pairs t.leaves t.cnt 0) ((hidx, ppa) ∷ []) (inl (refl, refl)))

  Holds-old :
      (t' : Table) (other p : ℕ)
      → Holds (sort new_pairs) t'
      → other ≢ uint_max
      → other ≢ hidx
      → Maps t other p
      → Maps t' other p
  unfolding new_pairs
  Holds-old t' other p holds other_key apart (found, returned, same) =
      elim (find-cases t valid other other_key) [
        | inl (i, j, here) ↦
            let e = find-Stands t valid other other_key i j here in
            let ppa_here : (t.leaves i).ppa j ≡ p = ap first_of (sym e ∙ returned) ∙ same in
            Holds-Maps t' other p holds (
              In-left other p (all_pairs t.leaves t.cnt 0) ((hidx, ppa) ∷ [])
                (all_pairs-Stands other p t i j valid other_key here ppa_here))
        | inr absent ↦
            let e = find-absent t valid other other_key absent in
            let none_here : uint_max ≡ p = ap first_of (sym e ∙ returned) ∙ same in
            (
              (uint_max, none),
              holds.2 other other_key (λ q inside at_q.
                  elim (In-append (key_at (sort new_pairs) q) (ppa_at (sort new_pairs) q)
                    (all_pairs t.leaves t.cnt 0) ((hidx, ppa) ∷ [])
                    (law.no_others new_pairs (key_at (sort new_pairs) q) (ppa_at (sort new_pairs) q)
                      (at-In (sort new_pairs) q inside))) [
                        | inl old ↦
                            let (i, j, stands, _, _) =
                              Stands-all_pairs (key_at (sort new_pairs) q)
                                (ppa_at (sort new_pairs) q) t old in
                            absent i j stands.0 stands.1 (stands.2 ∙ at_q)
                        | inr (inl (is_new, _)) ↦ apart (sym at_q ∙ sym is_new)
                        | inr (inr h) ↦ h
                      ]),
              none_here,
            )
      ]

  abbrev counted : Table
  counted = record t { cached_cnt = u32 (t.cached_cnt + 1) }

  counted-IsTable : IsTable counted
  counted-IsTable = record {
    filled = valid.filled;
    room = valid.room;
    sorted = valid.sorted;
    last = valid.last;
    leaf = valid.leaf;
    upper = valid.upper;
    lower = valid.lower;
    unset = valid.unset;
  }

  counted-pairs : pairs_with counted hidx ppa ≡ new_pairs
  unfolding new_pairs pairs_with
  counted-pairs = with_new

  new_pairs-count : count_of (sort new_pairs) ≡ suc (count_of (all_pairs t.leaves t.cnt 0))
  unfolding new_pairs
  new_pairs-count = law.count new_pairs ∙ count-append (all_pairs t.leaves t.cnt 0) (hidx, ppa)

  reloads :
      count_of (all_pairs t.leaves t.cnt 0) < t.cnt * in_leaf
      → Returns
          (λ t'. Holds (sort new_pairs) t' × (t'.cached_cnt ≡ u32 (t.cached_cnt + 1)))
          (twolevel_reload sort counted hidx ppa)
  reloads space =
      let reloaded =
        twolevel_reload_lem sort counted hidx ppa counted-IsTable (omega arith)
          (rw counted-pairs (omega (arith, new_pairs-count)))
          (rw counted-pairs (omega (arith, new_pairs-count, space)))
          (rw counted-pairs sorted-IsRising) in
      subst
        (λ es.
          Returns (λ t'. Holds (sort es) t' × (t'.cached_cnt ≡ u32 (t.cached_cnt + 1)))
            (twolevel_reload sort counted hidx ppa))
        counted-pairs reloaded

if_true : {A : Type 0} (b : Bool) (x y : A) → b ≡ true → (if b then x else y) ≡ x
if_true b x y e = rw e refl

-- A full leaf has the table dealt out again.
insert_pair-full :
    (full : Table → Outcome Table) (t : Table) (hidx ppa i : ℕ)
    → lower_bound t hidx ≡ ok i
    → (t.leaves i).hidx (in_leaf - 1) ≢ uint_max
    → insert_pair full t hidx ppa ≡ full (record t { cached_cnt = u32 (t.cached_cnt + 1) })
unfolding insert_pair lower_bound
insert_pair-full full t hidx ppa i leads taken =
    let t' : Table = record t { cached_cnt = u32 (t.cached_cnt + 1) } in
    let body : ℕ → Outcome Table = λ k.
      if not ((t'.leaves k).hidx (in_leaf - 1) == uint_max)
      then full t'
      else ok (insert_in t' k hidx ppa) in
    let is_full : (not ((t.leaves i).hidx (in_leaf - 1) == uint_max)) ≡ true =
      ground (arith, taken) in
    ap (λ found. found >>= body) leads
    ∙ if_true (not ((t.leaves i).hidx (in_leaf - 1) == uint_max)) (full t')
        (ok (insert_in t' i hidx ppa)) is_full

-- In a valid table that has fewer pairs than its leaves have slots, where twolevel_find does not find a key, and
-- with a sort that puts the pairs in the order of their keys, twolevel_insert of the key returns a valid table
-- with one more cached pair, in which twolevel_find returns the new ppa for the key and for each other key the
-- ppa that it did before.
pub twolevel_insert-new :
    (sort : List LeafEntry → List LeafEntry) (t : Table) (hidx ppa : ℕ)
    → IsSort sort
    → IsTable t
    → count_of (all_pairs t.leaves t.cnt 0) < t.cnt * in_leaf
    → hidx < uint_max
    → twolevel_find t hidx ≡ ok (uint_max, none)
    → Returns
        (λ t'.
          IsTable t'
          × (t'.cached_cnt ≡ u32 (t.cached_cnt + 1))
          × Maps t' hidx ppa
          × ((other p : ℕ) → other ≢ uint_max → other ≢ hidx → Maps t other p → Maps t' other p))
        (twolevel_insert sort t hidx ppa uint_max)
unfolding twolevel_insert
twolevel_insert-new sort t hidx ppa law valid space small missing =
    let (i, leads, _) = lower_bound-Splits t hidx valid.sorted in
    elim (ℕ_discrete ((t.leaves i).hidx (in_leaf - 1)) uint_max) [
      | yes free ↦ twolevel_insert-room sort t hidx ppa i valid small missing leads free
      | no taken ↦
          let (t', reloaded, (holds, counted)) =
            reloads sort law t valid hidx ppa small missing space in
          (
            t',
            insert_pair-full (λ t2. twolevel_reload sort t2 hidx ppa) t hidx ppa i leads taken
                ∙ reloaded,
            (
              holds.0,
              counted,
              Holds-new sort law t valid hidx ppa small missing t' holds,
              λ other p. Holds-old sort law t valid hidx ppa small missing t' other p holds,
            ),
          )
    ]
