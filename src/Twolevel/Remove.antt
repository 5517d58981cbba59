-- ===== src/Twolevel/Remove.antt =====
-- A table after a pair of it was deleted (twolevel_insert of UINT_MAX at a position, nvmevirt/twolevel.c).
use virtkv.Twolevel.{
  Table, Leaf, LeafEntry, twolevel_find, delete_at, set_leaf, moved_up, in_leaf, in_root, uint_max,
  pos_of,
}
use virtkv.Twolevel.Reload.{twolevel_insert}
use virtkv.Twolevel.Find.{
  IsLeaf, IsTable, Stands, Maps, Maps-transfer, find-absent, found-Stands, leaf_of-pos_of,
  slot_of-pos_of,
}
use virtkv.Twolevel.Change.{IsTable-leaf, at_update}
use virtkv.Common.{
  ℕ, List, ◌+◌, ◌-◌, ◌≡◌, ◌≢◌, ◌<◌, ◌==◌, ok, suc, some, none, ltb, leb, if◌then◌else◌, arith,
  Bool-cases, inl, inr, true, false, refl, sym, ap, ◌∙◌, Returns, ℕ_discrete, u32, ◌^◌,
}

-- Where the slot `m` of the leaf was before the slot `first` was removed.
abbrev source_of : (first m : ℕ) → ℕ
source_of first m = if leb first m then m + 1 else m

abbrev target_of : (first m : ℕ) → ℕ
target_of first m = if ltb first m then m - 1 else m

module _ (first m : ℕ) (a : ℕ → ℕ) where
  moved_up-last : m ≡ in_leaf - 1 → moved_up first a m ≡ uint_max
  moved_up-last h = ground arith

  moved_up-source : suc m < in_leaf → moved_up first a m ≡ a (source_of first m)
  moved_up-source h = elim (Bool-cases (leb first m)) [
    | inl behind ↦
        let inside : ltb m (in_leaf - 1) ≡ true = ground arith in rw (behind, inside) refl
    | inr before ↦
        let not_last : (m == in_leaf - 1) ≡ false = ground arith in rw (before, not_last) refl
  ]

  moved_up-target :
      first < in_leaf → m < in_leaf → m ≢ first → moved_up first a (target_of first m) ≡ a m
  moved_up-target first_slot slots other = elim (Bool-cases (ltb first m)) [
    | inl behind ↦
        let from : leb first (m - 1) ≡ true = ground arith in
        let inside : ltb (m - 1) (in_leaf - 1) ≡ true = ground arith in
        let back : (m - 1) + 1 ≡ m = ground arith in rw (behind, from, inside, back) refl
    | inr before ↦
        let not_from : leb first m ≡ false = ground arith in
        let not_last : (m == in_leaf - 1) ≡ false = ground arith in
        rw (before, not_from, not_last) refl
  ]

module _ (l : Leaf) (is_leaf : IsLeaf l) (first : ℕ) where
  abbrev pub removed_leaf : Leaf
  removed_leaf = record { hidx = moved_up first l.hidx; ppa = moved_up first l.ppa }

  -- A used slot holds what the slot behind it, or itself, held before.
  removed-source :
      (m : ℕ)
      → m < in_leaf
      → removed_leaf.hidx m ≢ uint_max
      → (suc m < in_leaf)
        × (removed_leaf.hidx m ≡ l.hidx (source_of first m))
        × (removed_leaf.ppa m ≡ l.ppa (source_of first m))
  removed-source m slots used = elim (ℕ_discrete m (in_leaf - 1)) [
    | yes last ↦ absurd (used (moved_up-last first m l.hidx last))
    | no other ↦
        let inside : suc m < in_leaf = ground arith in
        (inside, moved_up-source first m l.hidx inside, moved_up-source first m l.ppa inside)
  ]

  removed-IsLeaf : IsLeaf removed_leaf
  removed-IsLeaf j m order slots used =
      let (inside, key, _) = removed-source m slots used in
      let key_j = moved_up-source first j l.hidx (omega (arith, order, inside)) in
      let old =
        is_leaf (source_of first j) (source_of first m) (ground (arith, order))
          (ground (arith, inside)) (λ e. used (key ∙ e)) in
      (λ e. old.0 (sym key_j ∙ e), λ e. old.1 (sym key_j ∙ e ∙ key))

  -- The key of the slot is gone.
  removed-gone :
      (m : ℕ)
      → first < in_leaf
      → l.hidx first ≢ uint_max
      → m < in_leaf
      → removed_leaf.hidx m ≢ l.hidx first
  removed-gone m first_slot first_used slots same =
      let used : removed_leaf.hidx m ≢ uint_max = λ e. first_used (sym same ∙ e) in
      let (inside, key, _) = removed-source m slots used in
      elim (Bool-cases (leb first m)) [
        | inl behind ↦
            let moved : source_of first m ≡ m + 1 = rw behind refl in
            let here : l.hidx (m + 1) ≡ l.hidx first = ap l.hidx (sym moved) ∙ sym key ∙ same in
            let apart =
              is_leaf first (m + 1) (ground arith) (omega (arith, inside))
                (λ e. first_used (sym here ∙ e)) in
            apart.1 (sym here)
        | inr before ↦
            let kept : source_of first m ≡ m = rw before refl in
            let here : l.hidx m ≡ l.hidx first = ap l.hidx (sym kept) ∙ sym key ∙ same in
            let apart = is_leaf m first (ground arith) first_slot first_used in apart.1 here
      ]

module _ (t : Table) (valid : IsTable t) (i j : ℕ) (inside : i < t.cnt) (slots : j < in_leaf) where
  abbrev pub removed : Table
  removed =
      set_leaf (record t { cached_cnt = u32 (t.cached_cnt + 2 ^ 32 - 1) }) i
        (removed_leaf (t.leaves i) (valid.leaf i inside) j)

  removed-IsTable : IsTable removed
  removed-IsTable =
      let l = t.leaves i in
      let is_leaf = valid.leaf i inside in
      IsTable-leaf t valid (u32 (t.cached_cnt + 2 ^ 32 - 1)) i (removed_leaf l is_leaf j) inside
        (removed-IsLeaf l is_leaf j)
        (λ m h used.
          let (k, key, _) = removed-source l is_leaf j m h used in
          (source_of j m, ground (arith, k), sym key))

  delete_at-pos_of : delete_at t (pos_of i j) ≡ removed
  unfolding delete_at
  delete_at-pos_of =
      let small : i < in_root = omega (arith, inside, valid.room) in
      rw (leaf_of-pos_of i j small slots, slot_of-pos_of i j small slots, delete_at) refl

  -- Each other key still stands in the table, with its ppa.
  removed-goes :
      (other : ℕ)
      → other ≢ (t.leaves i).hidx j
      → (h m : ℕ) → Stands t other h m
      → (h' m' : ℕ) × Stands removed other h' m' × ((removed.leaves h').ppa m' ≡ (t.leaves h).ppa m)
  removed-goes other apart h m (h_in, m_in, here) =
      let l = t.leaves i in
      let leaf = removed_leaf l (valid.leaf i inside) j in
      let (m', k, key, ppa) =
        at_update
          (λ x. (m' : ℕ) × (m' < in_leaf) × (x.hidx m' ≡ other) × (x.ppa m' ≡ (t.leaves h).ppa m))
          t.leaves i leaf h
          (λ e.
            let same : (t.leaves i).hidx m ≡ other = rw (sym e) here in
            let away : m ≢ j = λ f. apart (sym same ∙ ap l.hidx f) in
            (
              target_of j m,
              ground (arith, m_in),
              moved_up-target j m l.hidx slots m_in away ∙ same,
              moved_up-target j m l.ppa slots m_in away ∙ rw e refl,
            ))
          (λ e. (m, m_in, here, refl)) in
      (h, m', (h_in, k, key), ppa)

  removed-comes :
      (other h m : ℕ)
      → other ≢ uint_max
      → Stands removed other h m
      → (h' m' : ℕ) × Stands t other h' m'
  removed-comes other h m key (h_in, m_in, here) =
      let leaf = removed_leaf (t.leaves i) (valid.leaf i inside) j in
      let (m', k, old) =
        at_update
          (λ x. x.hidx m ≡ other → (m' : ℕ) × (m' < in_leaf) × ((t.leaves h).hidx m' ≡ other))
          t.leaves i leaf h
          (λ e same.
            let (k, old, _) =
              removed-source (t.leaves i) (valid.leaf i inside) j m m_in
                (λ f. key (sym same ∙ f)) in
            (source_of j m, ground (arith, k), rw e (sym old ∙ same)))
          (λ e same. (m, m_in, same)) here in
      (h, m', (h_in, k, old))

  -- The key stands nowhere any more.
  removed-absent :
      (t.leaves i).hidx j ≢ uint_max
      → (h m : ℕ) → h < t.cnt
      → m < in_leaf
      → (removed.leaves h).hidx m ≢ (t.leaves i).hidx j
  removed-absent used h m h_in m_in =
      let leaf = removed_leaf (t.leaves i) (valid.leaf i inside) j in
      at_update (λ x. x.hidx m ≢ (t.leaves i).hidx j) t.leaves i leaf h
        (λ e. removed-gone (t.leaves i) (valid.leaf i inside) j m slots used m_in)
        (λ e same.
          let up = valid.upper h m h_in m_in in
          let low = valid.lower i h m in
          let up_i = valid.upper i j inside slots used in
          let low_h = valid.lower h i j in
          absurd (ground (arith, e, same, used, up, low, up_i, low_h)))

-- In a valid table, where twolevel_find returns a ppa and its position for a key, twolevel_insert of UINT_MAX at
-- that position returns a valid table in which twolevel_find returns UINT_MAX and no position for the key, and
-- for each other key the ppa that it did before.
pub twolevel_insert-delete :
    (sort : List LeafEntry → List LeafEntry) (t : Table) (hidx old pos : ℕ)
    → IsTable t
    → hidx ≢ uint_max
    → twolevel_find t hidx ≡ ok (old, some pos)
    → Returns
        (λ t'.
          IsTable t'
          × (twolevel_find t' hidx ≡ ok (uint_max, none))
          × ((other ppa : ℕ)
              → other ≢ uint_max
              → other ≢ hidx
              → Maps t other ppa
              → Maps t' other ppa))
        (twolevel_insert sort t hidx uint_max pos)
unfolding twolevel_insert
twolevel_insert-delete sort t hidx old pos valid key found =
    let (i, j, here, at_pos, read) = found-Stands t hidx old pos valid key found in
    let (i_in, slots, same) = here in
    let small : i < in_root = omega (arith, i_in, valid.room) in
    let inside : (pos_of i j == uint_max) ≡ false = ground (arith, small, slots) in
    let after = removed-IsTable t valid i j i_in slots in
    let t' = removed t valid i j i_in slots in
    rw (at_pos, inside)
      (
        t',
        ap ok (delete_at-pos_of t valid i j i_in slots),
        (
          after,
          find-absent t' after hidx key (λ h m h_in m_in e.
              removed-absent t valid i j i_in slots (λ f. key (sym same ∙ f)) h m h_in m_in
                (e ∙ sym same)),
          λ other ppa other_key apart.
              Maps-transfer t t' other ppa valid after other_key
                (removed-goes t valid i j i_in slots other (λ e. apart (e ∙ same)))
                (λ h m. removed-comes t valid i j i_in slots other h m other_key),
        ),
      )
