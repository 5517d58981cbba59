-- ===== src/Twolevel.antt =====
-- The two-level table of a section of the mapping (nvmevirt/twolevel.c), which the FTL keeps without
-- ORIGINAL: grains of 64 bytes, and below a root one leaf for each further grain of the section.
pub mod Reload
pub mod Roots
pub mod Dealt
pub mod Bulk
pub mod Reinsert
pub mod Redeal
pub mod Pairs
pub mod Full
pub mod Sort
pub mod Sorting
pub mod Search
pub mod Change
pub mod Remove
pub mod Find
pub mod Insert
pub mod Room
pub mod Fresh
pub mod Initial
pub mod History
pub mod Tests
use virtkv.Common.{
  ℕ, Bool, List, Option, Outcome, [], ◌∷◌, ◌++◌, ◌+◌, ◌-◌, ◌*◌, ◌/◌, ◌%◌, ◌^◌, ◌==◌, ◌&&◌, ◌||◌,
  not, true, false, none, some, ok, bug, stuck, zero, suc, ltb, leb, u32, update, if◌then◌else◌,
  nvmev_assert, ◌>>◌, ◌>>=◌,
}

abbrev pub grained_unit : ℕ
grained_unit = 64

abbrev pub entry_size : ℕ
entry_size = 8

abbrev pub root_g : ℕ
root_g = 4

abbrev pub orig_glen : ℕ
orig_glen = root_g + 2

abbrev pub epp : ℕ
epp = (4096 / grained_unit - root_g) * grained_unit / entry_size

abbrev pub in_leaf : ℕ
in_leaf = grained_unit / entry_size

abbrev pub in_root : ℕ
in_root = epp / entry_size

abbrev pub uint_max : ℕ
uint_max = 2 ^ 32 - 1

-- sizeof(struct root), sizeof(struct leaf)
abbrev pub size_of_root : ℕ
size_of_root = 4 + 4 * in_root

abbrev pub size_of_leaf : ℕ
size_of_leaf = 8 * in_leaf

-- `struct leaf`.
pub record Leaf : Type 0 where
  pub hidx : ℕ → ℕ
  pub ppa : ℕ → ℕ

-- `struct root` with the leaves behind it, and `cached_cnt` of the section.
pub record Table : Type 0 where
  pub cnt : ℕ
  pub entries : ℕ → ℕ
  pub leaves : ℕ → Leaf
  pub cached_cnt : ℕ

-- `struct leaf_e`: hidx, ppa.
abbrev pub LeafEntry : Type 0
LeafEntry = ℕ × ℕ

abbrev pub empty_leaf : Leaf → Leaf
empty_leaf l = record {
  hidx = λ j. if ltb j in_leaf then uint_max else l.hidx j;
  ppa = λ j. if ltb j in_leaf then uint_max else l.ppa j;
}

pub twolevel_init : Table → Table
twolevel_init t = record t {
  cnt = orig_glen - root_g;
  entries = λ i. if ltb i in_root then uint_max else t.entries i;
  leaves = λ i. if ltb i in_root then empty_leaf (t.leaves i) else t.leaves i;
}

pub twolevel_expand : Table → Table
twolevel_expand t = record t { cnt = u32 (t.cnt + 1) }

-- The loop of `__lower_bound`, for the range from `left` to below `hi`, which is `right + 1`. The last round
-- is the one that finds the range empty.
pub bound_loop : ℕ → (ℕ → ℕ) → (hidx left hi : ℕ) → Outcome ℕ
bound_loop zero entries hidx left hi = stuck
bound_loop (suc fuel) entries hidx left hi =
    let mid = left + (hi - 1 - left) / 2 in
    let upper = bound_loop fuel entries hidx (mid + 1) hi in
    let lower = bound_loop fuel entries hidx left mid in
    if ltb left hi then (if ltb (entries mid) hidx then upper else lower) else ok left

pub lower_bound : Table → ℕ → Outcome ℕ
unfolding bound_loop
lower_bound t hidx = bound_loop (suc t.cnt) t.entries hidx 0 t.cnt

-- The loop over the keys of a leaf, with `n` slots to go from the slot `j` on.
pub find_slot : (keys : ℕ → ℕ) (hidx n j : ℕ) → Option ℕ
find_slot keys hidx zero j = none
find_slot keys hidx (suc n) j =
    let rest = find_slot keys hidx n (suc j) in
    if keys j == hidx then some j else if keys j == uint_max then none else rest

-- Where the ppa of the slot `j` of the leaf `i` stands in the memory of the table.
abbrev pub pos_of : (i j : ℕ) → ℕ
pos_of i j = u32 (size_of_root + size_of_leaf * i + 4 * in_leaf + j * 4)

abbrev pub found_in : Leaf → ℕ → Option ℕ → ℕ × Option ℕ
found_in l i none = (uint_max, none)
found_in l i (some j) = (l.ppa j, some (pos_of i j))

-- `twolevel_find`: the ppa, and the position if there is one.
pub twolevel_find : Table → ℕ → Outcome (ℕ × Option ℕ)
unfolding lower_bound find_slot
twolevel_find t hidx = do
  i ← lower_bound t hidx
  if i == t.cnt
      then ok (uint_max, none)
      else ok (found_in (t.leaves i) i (find_slot (t.leaves i).hidx hidx in_leaf 0))

abbrev pub set_leaf : Table → ℕ → Leaf → Table
set_leaf t i l = record t { leaves = update t.leaves i l }

-- The leaf of a position, and the slot of a position in the leaf `i`.
abbrev pub leaf_of : ℕ → ℕ
leaf_of pos = pos / grained_unit - root_g

abbrev pub slot_of : (i pos : ℕ) → ℕ
slot_of i pos = (pos - (size_of_root + size_of_leaf * i) - 32) / 4

-- The elements behind the slot `first` move up; the last slot is free then.
abbrev pub moved_up : (first : ℕ) (a : ℕ → ℕ) → ℕ → ℕ
moved_up first a j =
    if leb first j && ltb j (in_leaf - 1)
    then a (j + 1)
    else if j == in_leaf - 1
    then uint_max
    else a j

-- A pair leaves its leaf.
pub delete_at : Table → (pos : ℕ) → Table
delete_at t pos =
    let i = leaf_of pos in
    let l = t.leaves i in
    let first = slot_of i pos in
    set_leaf (record t { cached_cnt = u32 (t.cached_cnt + 2 ^ 32 - 1) }) i
      (record { hidx = moved_up first l.hidx; ppa = moved_up first l.ppa })

-- `twolevel_direct_read` of a ppa, at the position of a ppa.
pub twolevel_direct_read : Table → (pos : ℕ) → ℕ
twolevel_direct_read t pos = (t.leaves (leaf_of pos)).ppa (slot_of (leaf_of pos) pos)

-- memcpy(ptr + pos, &ppa, sizeof(ppa)), at the position of a ppa.
pub write_at : Table → (pos ppa : ℕ) → Table
write_at t pos ppa =
    let i = leaf_of pos in
    let l = t.leaves i in set_leaf t i (record l { ppa = update l.ppa (slot_of i pos) ppa })

-- The first free slot gets the pair, with `n` slots to go from the slot `j` on.
pub fill_slot : Leaf → (hidx ppa n j : ℕ) → Leaf
fill_slot l hidx ppa zero j = l
fill_slot l hidx ppa (suc n) j =
    let rest = fill_slot l hidx ppa n (suc j) in
    if l.hidx j == uint_max
    then record { hidx = update l.hidx j hidx; ppa = update l.ppa j ppa }
    else rest

-- The end of `twolevel_insert`, for a leaf that has room.
pub insert_in : Table → (i hidx ppa : ℕ) → Table
unfolding fill_slot
insert_in t i hidx ppa =
    let raise = not (i == t.cnt - 1) && (leb (t.entries i) hidx || t.entries i == uint_max) in
    let t' = if raise then record t { entries = update t.entries i hidx } else t in
    set_leaf t' i (fill_slot (t.leaves i) hidx ppa in_leaf 0)

-- `twolevel_insert` without a position, where `full` is what happens at a full leaf.
pub insert_pair : (Table → Outcome Table) → Table → (hidx ppa : ℕ) → Outcome Table
unfolding lower_bound insert_in
insert_pair full t hidx ppa = do
  let t' = record t { cached_cnt = u32 (t.cached_cnt + 1) }
  i ← lower_bound t' hidx
  if not ((t'.leaves i).hidx (in_leaf - 1) == uint_max)
      then full t'
      else ok (insert_in t' i hidx ppa)
