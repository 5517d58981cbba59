-- ===== src/Twolevel/Change.antt =====
-- A table after a pair of it was overwritten or deleted (twolevel_insert with a position, nvmevirt/twolevel.c).
use virtkv.Twolevel.{
  Table, Leaf, LeafEntry, twolevel_find, twolevel_direct_read, write_at, set_leaf, in_leaf, in_root,
  uint_max, pos_of,
}
use virtkv.Twolevel.Reload.{twolevel_insert}
use virtkv.Twolevel.Find.{
  IsLeaf, IsTable, find-Stands, find-absent, find-cases, found-Stands, leaf_of-pos_of,
  slot_of-pos_of,
}
use virtkv.Common.{
  ℕ, List, ◌≡◌, ◌≢◌, ◌≤◌, ◌<◌, ◌==◌, ok, some, arith, Bool-cases, inl, inr, false, refl, sym, ap,
  ◌∙◌, Returns, ℕ_discrete, update,
}

-- What holds of the new element and of the old ones holds of an array with the new element in it.
pub at_update :
    {A : Type 0} (P : A → Type 0) (a : ℕ → A) (i : ℕ) (v : A) (j : ℕ)
    → (j ≡ i → P v)
    → (j ≢ i → P (a j))
    → P (update a i v j)
at_update P a i v j here there = elim (Bool-cases (j == i)) [
  | inl same ↦ rw same (here (ground arith))
  | inr other ↦ rw other (there (ground arith))
]

pub update-here : {A : Type 0} (a : ℕ → A) (i : ℕ) (v : A) → update a i v i ≡ v
update-here a i v = at_update (λ x. x ≡ v) a i v i (λ e. refl) (λ e. absurd (e refl))

pub update-away : {A : Type 0} (a : ℕ → A) (i : ℕ) (v : A) (j : ℕ) → j ≢ i → update a i v j ≡ a j
update-away a i v j away = at_update (λ x. x ≡ a j) a i v j (λ e. absurd (away e)) (λ e. refl)

module _ (t : Table) (valid : IsTable t) (n i : ℕ) (l : Leaf) where
  -- A leaf is replaced by one that has none but its keys.
  pub IsTable-leaf :
      i < t.cnt
      → IsLeaf l
      → ((j : ℕ)
          → j < in_leaf
          → l.hidx j ≢ uint_max
          → (m : ℕ) × (m < in_leaf) × ((t.leaves i).hidx m ≡ l.hidx j))
      → IsTable (set_leaf (record t { cached_cnt = n }) i l)
  IsTable-leaf inside is_leaf old = record {
    filled = valid.filled;
    room = valid.room;
    sorted = valid.sorted;
    last = valid.last;
    leaf = λ h k. at_update IsLeaf t.leaves i l h (λ e. is_leaf) (λ e. valid.leaf h k);
    upper = λ h j k slots.
        at_update (λ x. x.hidx j ≢ uint_max → x.hidx j ≤ t.entries h) t.leaves i l h
          (λ e used.
            let (m, m_slots, same) = old j slots used in
            let u = valid.upper h m k m_slots in ground (arith, e, same, u))
          (λ e. valid.upper h j k slots);
    lower = λ g h j above k slots.
        at_update (λ x. x.hidx j ≢ uint_max → t.entries g < x.hidx j) t.leaves i l h
          (λ e used.
            let (m, m_slots, same) = old j slots used in
            let u = valid.lower g h m above k m_slots in ground (arith, e, same, u))
          (λ e. valid.lower g h j above k slots);
    unset = λ h j k free slots.
        at_update (λ x. x.hidx j ≡ uint_max) t.leaves i l h
          (λ e. elim (ℕ_discrete (l.hidx j) uint_max) [
            | yes unused ↦ unused
            | no used ↦
                let (m, m_slots, same) = old j slots used in
                let u = valid.unset h m k free m_slots in absurd (ground (arith, e, same, u))
          ])
          (λ e. valid.unset h j k free slots);
  }

module _ (t : Table) (valid : IsTable t) (i j ppa : ℕ) where
  abbrev pub overwritten : Table
  overwritten = set_leaf t i (record (t.leaves i) { ppa = update (t.leaves i).ppa j ppa })

  pub overwritten-IsTable : i < t.cnt → IsTable overwritten
  overwritten-IsTable inside =
      IsTable-leaf t valid t.cached_cnt i
        (record (t.leaves i) { ppa = update (t.leaves i).ppa j ppa }) inside (valid.leaf i inside)
        (λ m slots used. (m, slots, refl))

  -- The keys stay where they are.
  overwritten-hidx : (h m : ℕ) → (overwritten.leaves h).hidx m ≡ (t.leaves h).hidx m
  overwritten-hidx h m =
      at_update (λ x. x.hidx m ≡ (t.leaves h).hidx m) t.leaves i
        (record (t.leaves i) { ppa = update (t.leaves i).ppa j ppa }) h (λ e. rw e refl) (λ e. refl)

  overwritten-other :
      (h m : ℕ) → (h ≡ i → m ≢ j) → (overwritten.leaves h).ppa m ≡ (t.leaves h).ppa m
  overwritten-other h m apart =
      at_update (λ x. x.ppa m ≡ (t.leaves h).ppa m) t.leaves i
        (record (t.leaves i) { ppa = update (t.leaves i).ppa j ppa }) h
        (λ e.
          at_update (λ x. x ≡ (t.leaves h).ppa m) (t.leaves i).ppa j ppa m
            (λ here. absurd (apart e here)) (λ other. rw e refl))
        (λ e. refl)

  overwritten-here : (overwritten.leaves i).ppa j ≡ ppa
  overwritten-here =
      at_update (λ x. x.ppa j ≡ ppa) t.leaves i
        (record (t.leaves i) { ppa = update (t.leaves i).ppa j ppa }) i
        (λ e.
          at_update (λ x. x ≡ ppa) (t.leaves i).ppa j ppa j (λ here. refl)
            (λ other. absurd (other refl)))
        (λ e. absurd (e refl))

  pub overwritten-find :
      (other : ℕ)
      → i < t.cnt
      → j < in_leaf
      → other ≢ uint_max
      → other ≢ (t.leaves i).hidx j
      → twolevel_find overwritten other ≡ twolevel_find t other
  overwritten-find other inside slots key apart = elim (find-cases t valid other key) [
    | inl (h, m, here) ↦
        let stays = overwritten-hidx h m in
        rw
          (
            find-Stands overwritten (overwritten-IsTable inside) other key h m
                (here.0, here.1, stays ∙ here.2),
            find-Stands t valid other key h m here,
            overwritten-other h m (λ e f. apart (sym here.2 ∙ rw (e, f) refl)),
          )
          refl
    | inr absent ↦
        find-absent overwritten (overwritten-IsTable inside) other key
          (λ h m k k' here. absent h m k k' (sym (overwritten-hidx h m) ∙ here))
        ∙ sym (find-absent t valid other key absent)
  ]

direct_read-pos_of :
    (t : Table) (i j : ℕ)
    → i < in_root
    → j < in_leaf
    → twolevel_direct_read t (pos_of i j) ≡ (t.leaves i).ppa j
unfolding twolevel_direct_read
direct_read-pos_of t i j inside slots =
    rw (leaf_of-pos_of i j inside slots, slot_of-pos_of i j inside slots, twolevel_direct_read) refl

write_at-pos_of :
    (t : Table) (valid : IsTable t) (i j ppa : ℕ)
    → i < in_root
    → j < in_leaf
    → write_at t (pos_of i j) ppa ≡ overwritten t valid i j ppa
unfolding write_at
write_at-pos_of t valid i j ppa inside slots =
    rw (leaf_of-pos_of i j inside slots, slot_of-pos_of i j inside slots, write_at) refl

-- In a valid table, where twolevel_find returns a ppa and its position for a key, twolevel_direct_read of the
-- position is that ppa, and twolevel_insert of a new ppa there, which is not UINT_MAX, returns a valid table in
-- which twolevel_find returns the new ppa and the same position, and for each other key what it did before.
pub twolevel_insert-overwrite :
    (sort : List LeafEntry → List LeafEntry) (t : Table) (hidx old pos new : ℕ)
    → IsTable t
    → hidx ≢ uint_max
    → new ≢ uint_max
    → twolevel_find t hidx ≡ ok (old, some pos)
    → (twolevel_direct_read t pos ≡ old)
      × Returns
          (λ t'.
            IsTable t'
            × (twolevel_find t' hidx ≡ ok (new, some pos))
            × ((other : ℕ)
                → other ≢ uint_max
                → other ≢ hidx
                → twolevel_find t' other ≡ twolevel_find t other))
          (twolevel_insert sort t hidx new pos)
unfolding twolevel_insert
twolevel_insert-overwrite sort t hidx old pos new valid key new_used found =
    let (i, j, here, at_pos, read) = found-Stands t hidx old pos valid key found in
    let small : i < in_root = omega (arith, here.0, valid.room) in
    let inside : (pos_of i j == uint_max) ≡ false = ground (arith, small, here.1) in
    let used : (new == uint_max) ≡ false = ground arith in
    let after = overwritten-IsTable t valid i j new here.0 in
    rw at_pos (
      direct_read-pos_of t i j small here.1 ∙ read,
      rw (inside, used)
          (
            overwritten t valid i j new,
            ap ok (write_at-pos_of t valid i j new small here.1),
            (
              after,
              find-Stands (overwritten t valid i j new) after hidx key i j
                    (here.0, here.1, overwritten-hidx t valid i j new i j ∙ here.2)
                  ∙ ap (λ p. ok (p, some (pos_of i j))) (overwritten-here t valid i j new),
              λ other other_key apart.
                  overwritten-find t valid i j new other here.0 here.1 other_key
                    (λ e. apart (e ∙ here.2)),
            ),
          ),
    )
