-- ===== src/Twolevel/Tests.antt =====
-- The two-level table at small inputs.
use virtkv.Twolevel.{
  Table, LeafEntry, twolevel_find, twolevel_direct_read, twolevel_init, insert_in, write_at,
  lower_bound, uint_max, pos_of,
}
use virtkv.Twolevel.Sorting.{sorted_by_key, sorted_by_key-IsSort}
use virtkv.Twolevel.Full.{twolevel_insert-new}
use virtkv.Twolevel.Reload.{count_of, all_pairs, twolevel_insert}
use virtkv.Twolevel.Find.{IsTable, Maps, twolevel_find_lem}
use virtkv.Twolevel.Change.{twolevel_insert-overwrite}
use virtkv.Twolevel.Remove.{twolevel_insert-delete}
use virtkv.Twolevel.History.{initial, added, changed, Means, Edited-Means}
use virtkv.Twolevel.Reload.{key_at, twolevel_bulk_insert}
use virtkv.Twolevel.Dealt.{ppa_at}
use virtkv.Twolevel.Bulk.{twolevel_bulk_insert_lem, twolevel_bulk_insert-nothing}
use virtkv.Common.{
  ◌*◌, ◌+◌, [], ◌∷◌, suc, zero, List, bug, ◌<◌, ◌≢◌, ℕ, List, ◌≡◌, ◌≢◌, ◌==◌, ok, none, some,
  if◌then◌else◌, arith, refl, Returns, update,
}

-- The keys 5 and 3 in the first of two leaves.
abbrev pair_table : Table
pair_table = record {
  cnt = 2;
  entries = λ i. if i == 0 then 5 else uint_max;
  leaves = λ i. record {
    hidx = λ j. if i == 0 then (if j == 0 then 5 else if j == 1 then 3 else uint_max) else uint_max;
    ppa = λ j. if j == 0 then 70 else 71;
  };
  cached_cnt = 2;
}

pair_table-IsTable : IsTable pair_table
pair_table-IsTable = record {
  filled = omega arith;
  room = omega arith;
  sorted = λ i j order inside. ground arith;
  last = refl;
  leaf = λ i inside j m order slots used. (λ e. ground arith, λ e. ground arith);
  upper = λ i j inside slots used. ground arith;
  lower = λ h i j order inside slots used. ground arith;
  unset = λ i j more free slots. ground arith;
}

unsorted : List LeafEntry → List LeafEntry
unsorted es = es

find_example : twolevel_find pair_table 3 ≡ ok (71, some (pos_of 0 1))
find_example =
    (twolevel_find_lem pair_table 3 pair_table-IsTable (λ e. omega (arith, e))).0 0 1
      (omega arith, omega arith, refl)

pair_table-found : twolevel_find pair_table 3 ≡ ok (71, some (pos_of 0 1))
unfolding twolevel_find
pair_table-found = refl

overwrite_example :
    (twolevel_direct_read pair_table (pos_of 0 1) ≡ 71)
    × Returns
        (λ t'.
          IsTable t'
          × (twolevel_find t' 3 ≡ ok (99, some (pos_of 0 1)))
          × ((other : ℕ)
              → other ≢ uint_max
              → other ≢ 3
              → twolevel_find t' other ≡ twolevel_find pair_table other))
        (twolevel_insert unsorted pair_table 3 99 (pos_of 0 1))
overwrite_example =
    twolevel_insert-overwrite unsorted pair_table 3 71 (pos_of 0 1) 99 pair_table-IsTable
      (λ e. omega (arith, e)) (λ e. omega (arith, e)) pair_table-found

delete_example :
    Returns
      (λ t'.
        IsTable t'
        × (twolevel_find t' 3 ≡ ok (uint_max, none))
        × ((other ppa : ℕ)
            → other ≢ uint_max
            → other ≢ 3
            → Maps pair_table other ppa
            → Maps t' other ppa))
      (twolevel_insert unsorted pair_table 3 uint_max (pos_of 0 1))
delete_example =
    twolevel_insert-delete unsorted pair_table 3 71 (pos_of 0 1) pair_table-IsTable
      (λ e. omega (arith, e)) pair_table-found

-- The first of two leaves is full.
abbrev full_table : Table
full_table = record {
  cnt = 2;
  entries = λ i. if i == 0 then 16 else uint_max;
  leaves = λ i. record { hidx = λ j. if i == 0 then 2 * j + 2 else uint_max; ppa = λ j. j + 50 };
  cached_cnt = 8;
}

full_table-IsTable : IsTable full_table
full_table-IsTable = record {
  filled = omega arith;
  room = omega arith;
  sorted = λ i j order inside. ground arith;
  last = refl;
  leaf = λ i inside j m order slots used. (λ e. ground arith, λ e. ground arith);
  upper = λ i j inside slots used. ground arith;
  lower = λ h i j order inside slots used. ground arith;
  unset = λ i j more free slots. ground arith;
}

full_table-missing : twolevel_find full_table 5 ≡ ok (uint_max, none)
unfolding twolevel_find
full_table-missing = refl

full_table-count : count_of (all_pairs full_table.leaves 2 0) ≡ 8
unfolding all_pairs
full_table-count = refl

-- The key 5 belongs to the full leaf.
new_example :
    Returns
      (λ t'.
        IsTable t'
        × (t'.cached_cnt ≡ 9)
        × Maps t' 5 44
        × ((other p : ℕ)
            → other ≢ uint_max
            → other ≢ 5
            → Maps full_table other p
            → Maps t' other p))
      (twolevel_insert sorted_by_key full_table 5 44 uint_max)
new_example =
    twolevel_insert-new sorted_by_key full_table 5 44 sorted_by_key-IsSort full_table-IsTable
      (omega (arith, full_table-count)) (omega arith) full_table-missing

abbrev blank : Table
blank = record {
  cnt = 0;
  entries = λ i. 0;
  leaves = λ i. record { hidx = λ j. 0; ppa = λ j. 0 };
  cached_cnt = 0;
}

abbrev one_pair : Table
one_pair = insert_in (record (twolevel_init blank) { cached_cnt = 1 }) 0 5 70

-- The key 5 comes into a new table and gets another ppa.
edited_example :
    Means (write_at one_pair (pos_of 0 0) 90) (update (update (λ hidx. uint_max) 5 70) 5 90)
unfolding twolevel_init twolevel_insert twolevel_find lower_bound insert_in write_at all_pairs
edited_example =
    Edited-Means sorted_by_key (write_at one_pair (pos_of 0 0) 90)
      (update (update (λ hidx. uint_max) 5 70) 5 90) sorted_by_key-IsSort
      (changed one_pair (write_at one_pair (pos_of 0 0) 90) (update (λ hidx. uint_max) 5 70) 5 70
        (pos_of 0 0) 90
        (added (twolevel_init blank) one_pair (λ hidx. uint_max) 5 70 (initial blank) (omega arith)
          (omega arith) refl refl)
        (λ e. omega (arith, e)) refl refl)

abbrev pairs : List LeafEntry
pairs = (3, 71) ∷ ((5, 70) ∷ [])

pairs-key : (p : ℕ) → p < 2 → key_at pairs p < uint_max
pairs-key zero there = omega arith
pairs-key (suc zero) there = omega arith
pairs-key (suc (suc p)) there = absurd (omega (arith, there))

pairs-positive : (p : ℕ) → p < 2 → 0 < key_at pairs p
pairs-positive zero there = omega arith
pairs-positive (suc zero) there = omega arith
pairs-positive (suc (suc p)) there = absurd (omega (arith, there))

pairs-order : (p q : ℕ) → p < q → q < 2 → key_at pairs p < key_at pairs q
pairs-order zero zero order there = absurd (omega (arith, order))
pairs-order zero (suc zero) order there = omega arith
pairs-order (suc p) (suc zero) order there = absurd (omega (arith, order))
pairs-order (suc p) zero order there = absurd (omega (arith, order))
pairs-order p (suc (suc q)) order there = absurd (omega (arith, there))

-- Two leaves with nothing in them.
abbrev bare : Table
bare = record blank { cnt = 2; leaves = λ i. record { hidx = λ j. uint_max; ppa = λ j. uint_max } }

bulk_example :
    Returns
      (λ t'.
        IsTable t'
        × ((p : ℕ) → p < 2 → Maps t' (key_at pairs p) (ppa_at pairs p))
        × ((hidx : ℕ)
            → hidx ≢ uint_max
            → ((p : ℕ) → p < 2 → key_at pairs p ≢ hidx)
            → twolevel_find t' hidx ≡ ok (uint_max, none)))
      (twolevel_bulk_insert unsorted bare pairs)
unfolding unsorted
bulk_example =
    twolevel_bulk_insert_lem unsorted bare pairs (omega arith) (omega arith) (omega arith)
      (omega arith) (pairs-key, pairs-order) pairs-positive (λ i j inside slots. refl)

nothing_example : twolevel_bulk_insert unsorted bare [] ≡ bug
unfolding unsorted
nothing_example = twolevel_bulk_insert-nothing unsorted bare [] refl (omega arith)
