-- ===== src/Twolevel/Bulk.antt =====
-- What twolevel_bulk_insert of nvmevirt/twolevel.c makes of an empty table.
use virtkv.Twolevel.{Table, LeafEntry, in_leaf, in_root, uint_max, pos_of, twolevel_find}
use virtkv.Twolevel.Reload.{count_of, key_at, twolevel_bulk_insert}
use virtkv.Twolevel.Roots.{before_leaf, before_leaf-IsDeal, new_roots-AreRoots, new_roots-nothing}
use virtkv.Twolevel.Dealt.{
  ppa_at, IsRising, IsDeal, Dealt, AreRoots, bulk_loop-Dealt, in_leaf-key, behind_leaf-key, locate,
  root_below, roots-sorted,
}
use virtkv.Twolevel.Find.{IsTable, Stands, Maps, find-Stands, find-absent}
use virtkv.Common.{
  bug, [], refl, ℕ, List, ◌+◌, ◌-◌, ◌*◌, ◌/◌, ◌%◌, ◌≡◌, ◌≢◌, ◌≤◌, ◌<◌, ok, some, none, suc, ltb,
  arith, Bool-cases, inl, inr, sym, ap, ◌∙◌, Returns, ℕ_discrete,
}

module _ (es : List LeafEntry) (num : ℕ) (from : ℕ → ℕ) (rising : IsRising es)
    (deal : IsDeal es num from) (t : Table) (cnt : t.cnt ≡ num)
    (roots : AreRoots es num from t.entries)
    (dealt : Dealt es num from t.leaves (count_of es)) where
  -- A used slot of a leaf holds one of the pairs that belong to it.
  used_slot :
      (i j : ℕ)
      → i < num
      → j < in_leaf
      → (t.leaves i).hidx j ≢ uint_max
      → (from i + j < from (suc i))
        × (from i + j < count_of es)
        × ((t.leaves i).hidx j ≡ key_at es (from i + j))
  used_slot i j inside slots is_used =
      let end = deal.rising (suc i) num inside in
      elim (Bool-cases (ltb (from i + j) (from (suc i)))) [
        | inl own ↦
            let own' : from i + j < from (suc i) = ground (arith, own) in
            let there : from i + j < count_of es = omega (arith, own', end, deal.end) in
            (own', there, (dealt.0 i j inside own' there).0)
        | inr out ↦ absurd (is_used (dealt.1 i j inside slots (inl (ground (arith, out)))))
      ]

  Dealt-IsTable : 0 < num → num ≤ in_root → IsTable t
  Dealt-IsTable positive room = record {
    filled = rw cnt positive;
    room = rw cnt room;
    sorted = λ i j order inside. elim (ℕ_discrete i j) [
      | yes same ↦ rw same (omega arith)
      | no apart ↦
          roots-sorted es num from t.entries rising deal roots i j (omega (arith, order, apart))
            (omega (arith, inside, cnt))
    ];
    last = rw cnt (roots.1 (num - 1) (omega (arith, positive)));
    leaf = λ i inside j m order slots is_used.
        let (own, there, key) = used_slot i m (omega (arith, inside, cnt)) slots is_used in
        let r = rising.1 (from i + j) (from i + m) (omega (arith, order)) there in
        let top = rising.0 (from i + m) there in
        let key_j =
          (dealt.0 i j (omega (arith, inside, cnt)) (omega (arith, own, order))
            (omega (arith, there, order))).0 in
        (λ e. omega (arith, e, key_j, r, top), λ e. omega (arith, e, key_j, key, r));
    upper = λ i j inside slots is_used.
        let i_in : i < num = omega (arith, inside, cnt) in
        let (own, there, key) = used_slot i j i_in slots is_used in
        rw key (in_leaf-key es num from t.entries rising deal roots i (from i + j) i_in own there);
    lower = λ h i j order inside slots is_used.
        let i_in : i < num = omega (arith, inside, cnt) in
        let (own, there, key) = used_slot i j i_in slots is_used in
        let up = deal.rising (suc h) i order in
        rw key (
          behind_leaf-key es num from t.entries rising deal roots h (from i + j)
            (omega (arith, order, i_in)) (omega (arith, up)) there);
    unset = λ i j more is_free slots.
        let b = root_below es num from t.entries rising deal roots i (omega (arith, more, cnt)) in
        absurd (omega (arith, b, is_free));
  }

  -- Each pair stands in the slot that it was dealt to.
  Dealt-Stands :
      (p : ℕ)
      → p < count_of es
      → (i j : ℕ) × Stands t (key_at es p) i j × ((t.leaves i).ppa j ≡ ppa_at es p)
  Dealt-Stands p there =
      let (i, inside, low, high) = locate es num from deal p num (omega (arith, there, deal.end)) in
      let wide = deal.width i in
      let at_p : from i + (p - from i) ≡ p = omega (arith, low) in
      let held =
        dealt.0 i (p - from i) inside (omega (arith, at_p, high)) (omega (arith, at_p, there)) in
      (
        i,
        p - from i,
        (rw cnt inside, omega (arith, high, wide), held.0 ∙ ap (key_at es) at_p),
        held.1 ∙ ap (ppa_at es) at_p,
      )

-- The table has the pairs and no others.
abbrev pub Holds : List LeafEntry → Table → Type 0
Holds es t =
    IsTable t
    × ((p : ℕ) → p < count_of es → Maps t (key_at es p) (ppa_at es p))
    × ((hidx : ℕ)
        → hidx ≢ uint_max
        → ((p : ℕ) → p < count_of es → key_at es p ≢ hidx)
        → twolevel_find t hidx ≡ ok (uint_max, none))

pub Dealt-Holds :
    (es : List LeafEntry) (num : ℕ) (from : ℕ → ℕ) (rising : IsRising es)
    (deal : IsDeal es num from) (t : Table)
    → t.cnt ≡ num
    → AreRoots es num from t.entries
    → Dealt es num from t.leaves (count_of es)
    → 0 < num
    → num ≤ in_root
    → Holds es t
Dealt-Holds es num from rising deal t cnt roots dealt positive room =
    let valid = Dealt-IsTable es num from rising deal t cnt roots dealt positive room in
    (
      valid,
      λ p there.
          let (i, j, stands, ppa) =
            Dealt-Stands es num from rising deal t cnt roots dealt p there in
          let key = rising.0 p there in
          (
            ((t.leaves i).ppa j, some (pos_of i j)),
            find-Stands t valid (key_at es p) (λ f. omega (arith, f, key)) i j stands,
            ppa,
          ),
      λ hidx key absent. find-absent t valid hidx key (λ i j inside slots here.
          let (_, there, held) =
            used_slot es num from rising deal t cnt roots dealt i j (omega (arith, inside, cnt))
              slots (λ f. key (sym here ∙ f)) in
          absent (from i + j) there (sym held ∙ here)),
    )

-- On leaves that are empty, for up to as many pairs as they have slots, whose sorted keys rise from above 0 to
-- below UINT_MAX, twolevel_bulk_insert returns a valid table in which twolevel_find returns the ppa of each pair
-- for its key, and UINT_MAX and no position for all other keys.
pub twolevel_bulk_insert_lem :
    (sort : List LeafEntry → List LeafEntry) (t : Table) (e : List LeafEntry)
    → 0 < t.cnt
    → t.cnt ≤ in_root
    → 0 < count_of (sort e)
    → count_of (sort e) ≤ t.cnt * in_leaf
    → IsRising (sort e)
    → ((p : ℕ) → p < count_of (sort e) → 0 < key_at (sort e) p)
    → ((i j : ℕ) → i < t.cnt → j < in_leaf → (t.leaves i).hidx j ≡ uint_max)
    → Returns (Holds (sort e)) (twolevel_bulk_insert sort t e)
unfolding twolevel_bulk_insert
twolevel_bulk_insert_lem sort t e some_leaves room some_pairs few rising positive empty =
    let es = sort e in
    let num = t.cnt in
    let from = before_leaf (count_of es / num) (count_of es % num) in
    let deal = before_leaf-IsDeal es num some_leaves some_pairs few in
    let zero_from : from 0 + 0 ≡ 0 = omega (arith, deal.start) in
    let (keys, dealt_out, roots) = new_roots-AreRoots es num t.entries some_leaves some_pairs in
    let (t', returned, (dealt, cnt, entries)) =
      bulk_loop-Dealt es num from keys rising deal roots positive sort (suc (count_of es + num)) es
        0 0 (record t { entries = keys }) some_leaves
        (omega (arith, zero_from, deal.rising 0 1 (omega arith)))
        (
          omega (arith, zero_from),
          λ q. ap (key_at es) (omega (arith, zero_from)),
          λ q. ap (ppa_at es) (omega (arith, zero_from)),
        )
        (omega arith)
        (
          λ h j h_in own below. absurd (omega (arith, below, zero_from)),
          λ h j h_in j_in out. empty h j h_in j_in,
        ) in
    let roots' : AreRoots es num from t'.entries = rw entries roots in
    rw dealt_out
      (t', returned, Dealt-Holds es num from rising deal t' cnt roots' dealt some_leaves room)

-- twolevel_bulk_insert of no pairs into a table of two leaves or more reads the key before the first pair.
pub twolevel_bulk_insert-nothing :
    (sort : List LeafEntry → List LeafEntry) (t : Table) (e : List LeafEntry)
    → sort e ≡ []
    → 2 ≤ t.cnt
    → twolevel_bulk_insert sort t e ≡ bug
unfolding twolevel_bulk_insert
twolevel_bulk_insert-nothing sort t e nothing two =
    rw (nothing, new_roots-nothing t.cnt t.entries two) refl
