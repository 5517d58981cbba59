-- ===== src/Twolevel/Fresh.antt =====
-- What twolevel_insert of nvmevirt/twolevel.c does with a key that the table has not.
use virtkv.Twolevel.{
  Table, LeafEntry, twolevel_find, insert_pair, insert_in, fill_slot, lower_bound, in_leaf,
  uint_max, pos_of,
}
use virtkv.Twolevel.Reload.{twolevel_insert, twolevel_reload}
use virtkv.Twolevel.Search.{Splits, lower_bound-Splits}
use virtkv.Twolevel.Find.{IsTable, Maps, Maps-transfer, find-Stands, find-cases}
use virtkv.Twolevel.Insert.{with_pair, fill_slot-IsFirst, inserted}
use virtkv.Twolevel.Room.{
  inserted-IsTable, inserted-Stands, inserted-ppa, inserted-goes, inserted-comes,
}
use virtkv.Common.{
  ℕ, Bool, List, ◌+◌, ◌-◌, ◌≡◌, ◌≢◌, ◌≤◌, ◌<◌, ◌==◌, ◌&&◌, ◌||◌, not, ok, some, none, leb,
  if◌then◌else◌, arith, Bool-cases, inl, inr, false, refl, sym, ap, ◌∙◌, ◌>>=◌, Returns, Outcome,
  u32,
}

pub insert_in-inserted :
    (t : Table) (n hidx ppa i s : ℕ)
    → fill_slot (t.leaves i) hidx ppa in_leaf 0 ≡ with_pair (t.leaves i) hidx ppa s
    → insert_in (record t { cached_cnt = n }) i hidx ppa ≡ inserted t n hidx ppa i s
unfolding insert_in
insert_in-inserted t n hidx ppa i s filled =
    elim (Bool-cases
      (not (i == t.cnt - 1) && (leb (t.entries i) hidx || t.entries i == uint_max))) [
        | inl yes_raise ↦ rw (yes_raise, filled) refl
        | inr not_raise ↦ rw (not_raise, filled) refl
      ]

pub lower_bound-at :
    (t : Table) (hidx i : ℕ)
    → IsTable t
    → hidx ≤ uint_max
    → lower_bound t hidx ≡ ok i
    → (i < t.cnt) × Splits t.entries t.cnt hidx i
lower_bound-at t hidx i valid small leads =
    let (r, returned, splits) = lower_bound-Splits t hidx valid.sorted in
    let same : r ≡ i = cc in
    let above = splits.1 (t.cnt - 1) in
    rw (sym same) (ground (arith, valid.filled, valid.last, splits.0, above, small), splits)

-- A key that is not found stands nowhere.
pub missing-absent :
    (t : Table) (hidx : ℕ)
    → IsTable t
    → hidx ≢ uint_max
    → twolevel_find t hidx ≡ ok (uint_max, none)
    → (i j : ℕ) → i < t.cnt
    → j < in_leaf
    → (t.leaves i).hidx j ≢ hidx
missing-absent t hidx valid key missing = elim (find-cases t valid hidx key) [
  | inl (i, j, here) ↦ let found = find-Stands t valid hidx key i j here in absurd (cc)
  | inr absent ↦ absent
]

pub if_false : {A : Type 0} (b : Bool) (x y : A) → b ≡ false → (if b then x else y) ≡ y
if_false b x y e = rw e refl

-- A leaf with a free slot takes the pair.
pub insert_pair-insert_in :
    (full : Table → Outcome Table) (t : Table) (hidx ppa i : ℕ)
    → lower_bound t hidx ≡ ok i
    → (t.leaves i).hidx (in_leaf - 1) ≡ uint_max
    → insert_pair full t hidx ppa
      ≡ ok (insert_in (record t { cached_cnt = u32 (t.cached_cnt + 1) }) i hidx ppa)
unfolding insert_pair lower_bound
insert_pair-insert_in full t hidx ppa i leads free =
    let t' : Table = record t { cached_cnt = u32 (t.cached_cnt + 1) } in
    let body : ℕ → Outcome Table = λ k.
      if not ((t'.leaves k).hidx (in_leaf - 1) == uint_max)
      then full t'
      else ok (insert_in t' k hidx ppa) in
    ap (λ found. found >>= body) leads
    ∙ if_false (not ((t.leaves i).hidx (in_leaf - 1) == uint_max)) (full t')
        (ok (insert_in t' i hidx ppa)) (ground (arith, free))

-- In a valid table, where twolevel_find does not find a key, and the leaf to which __lower_bound leads has a
-- free slot, twolevel_insert of the key returns a valid table with one more cached pair, in which twolevel_find
-- returns the new ppa for the key and for each other key the ppa that it did before.
pub twolevel_insert-room :
    (sort : List LeafEntry → List LeafEntry) (t : Table) (hidx ppa i : ℕ)
    → IsTable t
    → hidx < uint_max
    → twolevel_find t hidx ≡ ok (uint_max, none)
    → lower_bound t hidx ≡ ok i
    → (t.leaves i).hidx (in_leaf - 1) ≡ uint_max
    → Returns
        (λ t'.
          IsTable t'
          × (t'.cached_cnt ≡ u32 (t.cached_cnt + 1))
          × Maps t' hidx ppa
          × ((other p : ℕ) → other ≢ uint_max → other ≢ hidx → Maps t other p → Maps t' other p))
        (twolevel_insert sort t hidx ppa uint_max)
unfolding twolevel_insert
twolevel_insert-room sort t hidx ppa i valid small missing leads free =
    let key : hidx ≢ uint_max = λ e. omega (arith, small, e) in
    let (inside, splits) = lower_bound-at t hidx i valid (omega (arith, small)) leads in
    let (s, s_bound, filled, first) =
      fill_slot-IsFirst (t.leaves i) hidx ppa in_leaf 0 (in_leaf - 1) (omega arith) (omega arith)
        free in
    let slots : s < in_leaf = omega (arith, s_bound) in
    let n = u32 (t.cached_cnt + 1) in
    let absent = missing-absent t hidx valid key missing in
    let new : (m : ℕ) → m < in_leaf → (t.leaves i).hidx m ≢ hidx = λ m. absent i m inside in
    let t' = inserted t n hidx ppa i s in
    let after = inserted-IsTable t valid n hidx ppa i s inside key splits slots first new in
    let has_ppa = inserted-ppa t valid n hidx ppa i s inside key splits slots first new in
    let here = inserted-Stands t valid n hidx ppa i s inside key splits slots first new in
    (
      t',
      insert_pair-insert_in (λ t2. twolevel_reload sort t2 hidx ppa) t hidx ppa i leads free
          ∙ ap ok (insert_in-inserted t n hidx ppa i s filled),
      (
        after,
        refl,
        (
          (ppa, some (pos_of i s)),
          find-Stands t' after hidx key i s here ∙ ap (λ x. ok (x, some (pos_of i s))) has_ppa,
          refl,
        ),
        λ other p other_key apart.
            Maps-transfer t t' other p valid after other_key
              (inserted-goes t valid n hidx ppa i s inside key splits slots first new other
                other_key)
              (inserted-comes t valid n hidx ppa i s inside key splits slots first new other apart),
      ),
    )
