-- ===== src/Twolevel/Find.antt =====
-- What is found in a table (twolevel_find of nvmevirt/twolevel.c).
use virtkv.Twolevel.{
  Table, Leaf, find_slot, twolevel_find, in_leaf, in_root, uint_max, pos_of, leaf_of, slot_of,
}
use virtkv.Twolevel.Search.{IsSorted, Splits, lower_bound-Splits}
use virtkv.Common.{
  ℕ, Option, Option-cases, ltb, ◌⊎◌, ◌+◌, ◌-◌, ◌≡◌, ◌≢◌, ◌≤◌, ◌<◌, ◌==◌, ok, zero, suc, some, none,
  arith, Bool-cases, inl, inr, false, refl, sym, ap, ◌∙◌, bug, stuck, Returns, Outcome, ℕ_discrete,
}

-- The used slots come first, and no key stands twice.
abbrev pub IsLeaf : Leaf → Type 0
IsLeaf l =
    (j m : ℕ)
    → j < m
    → m < in_leaf
    → l.hidx m ≢ uint_max
    → (l.hidx j ≢ uint_max) × (l.hidx j ≢ l.hidx m)

find_slot-hit :
    (keys : ℕ → ℕ) (hidx n j s : ℕ)
    → hidx ≢ uint_max
    → j ≤ s
    → s < j + n
    → keys s ≡ hidx
    → ((m : ℕ) → j ≤ m → m < s → (keys m ≢ uint_max) × (keys m ≢ hidx))
    → find_slot keys hidx n j ≡ some s
unfolding find_slot
find_slot-hit keys hidx zero j s used from to here before = absurd (omega (arith, from, to))
find_slot-hit keys hidx (suc n) j s used from to here before = elim (ℕ_discrete j s) [
  | yes same ↦ ground arith
  | no other ↦
      let b = before j (omega (arith, from)) (ground arith) in
      let rest =
        find_slot-hit keys hidx n (suc j) s used (ground arith) (ground arith) here
          (λ m h k. before m (ground arith) k) in
      ground arith
]

find_slot-miss :
    (keys : ℕ → ℕ) (hidx n j : ℕ)
    → ((m : ℕ) → j ≤ m → m < j + n → keys m ≢ hidx)
    → find_slot keys hidx n j ≡ none
unfolding find_slot
find_slot-miss keys hidx zero j not_there = refl
find_slot-miss keys hidx (suc n) j not_there =
    let h = not_there j (omega arith) (omega arith) in
    let rest =
      find_slot-miss keys hidx n (suc j) (λ m h k. not_there m (ground arith) (ground arith)) in
    ground arith

pub leaf_of-pos_of : (i j : ℕ) → i < in_root → j < in_leaf → leaf_of (pos_of i j) ≡ i
leaf_of-pos_of i j hi hj = omega (arith, hi, hj)

pub slot_of-pos_of : (i j : ℕ) → i < in_root → j < in_leaf → slot_of i (pos_of i j) ≡ j
slot_of-pos_of i j hi hj = omega (arith, hi, hj)

find_slot-some :
    (keys : ℕ → ℕ) (hidx n j s : ℕ)
    → find_slot keys hidx n j ≡ some s
    → (j ≤ s) × (s < j + n) × (keys s ≡ hidx)
unfolding find_slot
find_slot-some keys hidx zero j s e = absurd (cc)
find_slot-some keys hidx (suc n) j s e = elim (Bool-cases (keys j == hidx)) [
  | inl same ↦ let at_j : some j ≡ some s = cc in ground arith
  | inr other ↦ elim (Bool-cases (keys j == uint_max)) [
    | inl free ↦ absurd (cc)
    | inr used ↦
        let (from, to, key) = find_slot-some keys hidx n (suc j) s (cc) in
        (ground arith, ground arith, key)
  ]
]

-- The keys of the leaf `i` are above the root keys of the leaves before it, and not above its own. A leaf
-- before the last one that has no root key yet is empty.
pub record IsTable (t : Table) : Type 0 where
  pub filled : 0 < t.cnt
  pub room : t.cnt ≤ in_root
  pub sorted : IsSorted t
  pub last : t.entries (t.cnt - 1) ≡ uint_max
  pub leaf : (i : ℕ) → i < t.cnt → IsLeaf (t.leaves i)
  pub upper :
      (i j : ℕ)
      → i < t.cnt
      → j < in_leaf
      → (t.leaves i).hidx j ≢ uint_max
      → (t.leaves i).hidx j ≤ t.entries i
  pub lower :
      (h i j : ℕ)
      → h < i
      → i < t.cnt
      → j < in_leaf
      → (t.leaves i).hidx j ≢ uint_max
      → t.entries h < (t.leaves i).hidx j
  pub unset :
      (i j : ℕ)
      → suc i < t.cnt
      → t.entries i ≡ uint_max
      → j < in_leaf
      → (t.leaves i).hidx j ≡ uint_max

-- The key stands in the slot `j` of the leaf `i`.
abbrev pub Stands : Table → (hidx i j : ℕ) → Type 0
Stands t hidx i j = (i < t.cnt) × (j < in_leaf) × ((t.leaves i).hidx j ≡ hidx)

module _ (t : Table) (valid : IsTable t) (hidx : ℕ) (key : hidx ≢ uint_max) where
  -- The search for a key that stands in the leaf `i` ends there.
  Splits-Stands : (i j r : ℕ) → Stands t hidx i j → Splits t.entries t.cnt hidx r → r ≡ i
  Splits-Stands i j r (in_table, in_slots, here) (bound, below, above) =
      let up = valid.upper i j in_table in_slots in
      let low = valid.lower r i j in let b = below i in let a = above r in ground arith

  pub find-Stands :
      (i j : ℕ)
      → Stands t hidx i j
      → twolevel_find t hidx ≡ ok ((t.leaves i).ppa j, some (pos_of i j))
  unfolding twolevel_find
  find-Stands i j stands =
      let (r, returned, splits) = lower_bound-Splits t hidx valid.sorted in
      let same = Splits-Stands i j r stands splits in
      let slot =
        find_slot-hit (t.leaves i).hidx hidx in_leaf 0 j key (omega arith) (omega (arith, stands))
          stands.2 (λ m h k. let l = valid.leaf i stands.0 m j k stands.1 in ground arith) in
      let here : (i == t.cnt) ≡ false = ground (arith, stands.0) in
      rw (returned, same, here, slot) refl

  pub find-absent :
      ((i j : ℕ) → i < t.cnt → j < in_leaf → (t.leaves i).hidx j ≢ hidx)
      → twolevel_find t hidx ≡ ok (uint_max, none)
  unfolding twolevel_find
  find-absent absent =
      let (r, returned, splits) = lower_bound-Splits t hidx valid.sorted in
      elim (Bool-cases (r == t.cnt)) [
        | inl none_there ↦ rw (returned, none_there) refl
        | inr there ↦
            let inside : r < t.cnt = ground (arith, splits.0) in
            let slot =
              find_slot-miss (t.leaves r).hidx hidx in_leaf 0 (λ m h k. absent r m inside k) in
            rw (returned, there, slot) refl
      ]

  -- What twolevel_find returns is where the key stands, or the key stands nowhere.
  pub find-cases :
      ((i j : ℕ) × Stands t hidx i j)
      ⊎ ((i j : ℕ) → i < t.cnt → j < in_leaf → (t.leaves i).hidx j ≢ hidx)
  find-cases =
      let (r, returned, splits) = lower_bound-Splits t hidx valid.sorted in
      elim (Option-cases (find_slot (t.leaves r).hidx hidx in_leaf 0)) [
        | inl nowhere ↦ inr (λ i j h k here.
            let same = Splits-Stands i j r (h, k, here) splits in
            let slot =
              find_slot-hit (t.leaves i).hidx hidx in_leaf 0 j key (omega arith) (omega (arith, k))
                here (λ m h' k'. let l = valid.leaf i h m j k' k in ground arith) in
            absurd (cc))
        | inr (j, there) ↦
            let (from, to, here) = find_slot-some (t.leaves r).hidx hidx in_leaf 0 j there in
            elim (Bool-cases (ltb r t.cnt)) [
              | inl inside ↦ inl (r, j, (ground arith, to, here))
              | inr outside ↦ inr (λ i m h k key_there.
                  let same = Splits-Stands i m r (h, k, key_there) splits in absurd (ground arith))
            ]
      ]

-- In a valid table, twolevel_find of a key that stands in a slot returns the ppa of the slot and its position,
-- and of a key that stands nowhere UINT_MAX and no position.
pub twolevel_find_lem :
    (t : Table) (hidx : ℕ)
    → IsTable t
    → hidx ≢ uint_max
    → ((i j : ℕ)
        → Stands t hidx i j
        → twolevel_find t hidx ≡ ok ((t.leaves i).ppa j, some (pos_of i j)))
      × (((i j : ℕ) → i < t.cnt → j < in_leaf → (t.leaves i).hidx j ≢ hidx)
          → twolevel_find t hidx ≡ ok (uint_max, none))
twolevel_find_lem t hidx valid key = (find-Stands t valid hidx key, find-absent t valid hidx key)

-- twolevel_find returns this ppa, at whatever position.
abbrev pub Maps : Table → (hidx ppa : ℕ) → Type 0
Maps t hidx ppa = Returns (λ found. found.0 ≡ ppa) (twolevel_find t hidx)

abbrev pub first_of : Outcome (ℕ × Option ℕ) → ℕ
first_of (ok found) = found.0
first_of bug = uint_max
first_of stuck = uint_max

-- The position that was found, with 0 for none.
abbrev position_of : Outcome (ℕ × Option ℕ) → ℕ
position_of (ok (ppa, some pos)) = pos
position_of _ = 0

-- A found position is that of a slot in which the key stands.
pub found-Stands :
    (t : Table) (hidx ppa pos : ℕ)
    → IsTable t
    → hidx ≢ uint_max
    → twolevel_find t hidx ≡ ok (ppa, some pos)
    → (i j : ℕ) × Stands t hidx i j × (pos ≡ pos_of i j) × ((t.leaves i).ppa j ≡ ppa)
found-Stands t hidx ppa pos valid key found = elim (find-cases t valid hidx key) [
  | inl (i, j, here) ↦
      let e = sym found ∙ find-Stands t valid hidx key i j here in
      (i, j, here, ap position_of e, sym (ap first_of e))
  | inr absent ↦ let e = sym found ∙ find-absent t valid hidx key absent in absurd (cc)
]

-- A key that stands in the one table with the ppa of the other is found with it in both.
pub Maps-transfer :
    (t t' : Table) (hidx ppa : ℕ)
    → IsTable t
    → IsTable t'
    → hidx ≢ uint_max
    → ((i j : ℕ)
        → Stands t hidx i j
        → (i' j' : ℕ) × Stands t' hidx i' j' × ((t'.leaves i').ppa j' ≡ (t.leaves i).ppa j))
    → ((i j : ℕ) → Stands t' hidx i j → (i' j' : ℕ) × Stands t hidx i' j')
    → Maps t hidx ppa
    → Maps t' hidx ppa
Maps-transfer t t' hidx ppa valid valid' key go back (found, returned, same) =
    elim (find-cases t valid hidx key) [
      | inl (i, j, here) ↦
          let (i', j', here', kept) = go i j here in
          let e = find-Stands t valid hidx key i j here in
          let whole : found.0 ≡ (t.leaves i).ppa j = ap first_of (sym returned ∙ e) in
          (
            ((t'.leaves i').ppa j', some (pos_of i' j')),
            find-Stands t' valid' hidx key i' j' here',
            kept ∙ sym whole ∙ same,
          )
      | inr absent ↦
          let e = find-absent t valid hidx key absent in
          let whole : found.0 ≡ uint_max = ap first_of (sym returned ∙ e) in
          (
            (uint_max, none),
            find-absent t' valid' hidx key (λ i j h k here.
                let (i', j', old) = back i j (h, k, here) in
                absurd (absent i' j' old.0 old.1 old.2)),
            sym whole ∙ same,
          )
    ]
