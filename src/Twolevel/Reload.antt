-- ===== src/Twolevel/Reload.antt =====
-- What a full leaf of the two-level table leads to (nvmevirt/twolevel.c): the pairs of all leaves are dealt out
-- again. Also twolevel_insert, which may do so, and twolevel_bulk_insert.
use virtkv.Twolevel.{
  in_leaf, uint_max, Leaf, Table, LeafEntry, set_leaf, delete_at, write_at, insert_pair,
}
use virtkv.Common.{
  ℕ, List, Outcome, [], ◌∷◌, ◌++◌, ◌+◌, ◌-◌, ◌/◌, ◌%◌, ◌^◌, ◌==◌, ok, bug, stuck, zero, suc, ltb,
  leb, u32, update, if◌then◌else◌, nvmev_assert, ◌>>◌, ◌>>=◌,
}

-- The pairs of a leaf, up to its first free slot.
unfoldable pub leaf_pairs : Leaf → (n j : ℕ) → List LeafEntry
leaf_pairs l zero j = []
leaf_pairs l (suc n) j =
    let rest = leaf_pairs l n (suc j) in
    if l.hidx j == uint_max then [] else (l.hidx j, l.ppa j) ∷ rest

-- The pairs of `n` leaves from the leaf `i` on.
unfoldable pub all_pairs : (ℕ → Leaf) → (n i : ℕ) → List LeafEntry
unfolding leaf_pairs
all_pairs leaves zero i = []
all_pairs leaves (suc n) i = leaf_pairs (leaves i) in_leaf 0 ++ all_pairs leaves n (suc i)

abbrev pub count_of : List LeafEntry → ℕ
count_of [] = 0
count_of (x ∷ xs) = suc (count_of xs)

-- leaves[i].hidx, with 0 behind the end of the array.
abbrev pub key_at : List LeafEntry → ℕ → ℕ
key_at [] i = 0
key_at (x ∷ xs) zero = x.0
key_at (x ∷ xs) (suc i) = key_at xs i

-- The loop of `__new_roots`, with `n` roots to go. `taken` is `key_index`, the keys of the roots before;
-- at 0 keys the key before the first one would be read.
unfoldable pub new_roots_loop :
    List LeafEntry → (n i taken keys_per_leaf extra : ℕ) → (ℕ → ℕ) → Outcome (ℕ → ℕ)
new_roots_loop es zero i taken per extra keys = ok keys
new_roots_loop es (suc n) i taken per extra keys =
    let taken' = if ltb 0 extra then taken + per + 1 else taken + per in
    let last = if n == 0 then uint_max else key_at es (taken' - 1) in
    let rest = new_roots_loop es n (suc i) taken' per (extra - 1) (update keys i last) in
    if n == 0 then rest else nvmev_assert (ltb 0 taken') >> rest

-- `__new_roots`, which divides by the number of leaves.
unfoldable pub new_roots : List LeafEntry → (num_leaves : ℕ) → (ℕ → ℕ) → Outcome (ℕ → ℕ)
unfolding new_roots_loop
new_roots es num keys = do
  nvmev_assert (ltb 0 num)
  nvmev_assert (leb (count_of es % num) num)
  new_roots_loop es num 0 0 (count_of es / num) (count_of es % num) keys

-- What a reload clears of a leaf: the slots before its first free one.
unfoldable pub clear_slots : Leaf → (n j : ℕ) → Leaf
clear_slots l zero j = l
clear_slots l (suc n) j =
    let rest =
      clear_slots (record { hidx = update l.hidx j uint_max; ppa = update l.ppa j uint_max }) n
        (suc j) in
    if l.hidx j == uint_max then l else rest

-- The pairs that a reload deals out: all that there are, and the new one, if there is one.
unfoldable pub pairs_with : Table → (hidx ppa : ℕ) → List LeafEntry
unfolding all_pairs
pairs_with t hidx ppa =
    let old = all_pairs t.leaves t.cnt 0 in
    if hidx == uint_max then old else old ++ ((hidx, ppa) ∷ [])

module _ (sort : List LeafEntry → List LeafEntry) where
  -- The pairs go back into the table one after the other; a full leaf fails an assertion.
  unfoldable pub reinsert : List LeafEntry → Table → Outcome Table
  unfolding insert_pair
  reinsert [] t = ok t
  reinsert (e ∷ es) t = insert_pair (λ t'. bug) t e.0 e.1 >>= λ t'. reinsert es t'

  -- `twolevel_reload`, with the new pair, if there is one.
  unfoldable pub twolevel_reload : Table → (hidx ppa : ℕ) → Outcome Table
  unfolding pairs_with new_roots reinsert clear_slots
  twolevel_reload t hidx ppa = do
    let es = sort (pairs_with t hidx ppa)
    let cleared : ℕ → Leaf =
        λ i. if ltb i t.cnt then clear_slots (t.leaves i) in_leaf 0 else t.leaves i
    keys ← new_roots es t.cnt t.entries
    t' ← reinsert es (record t {
      entries = keys;
      leaves = cleared;
      cached_cnt = u32 (t.cached_cnt + 2 ^ 32 - count_of es % 2 ^ 32);
    })
    nvmev_assert (t'.cached_cnt == t.cached_cnt)
    ok t'

  -- `twolevel_insert`.
  unfoldable pub twolevel_insert : Table → (hidx ppa pos : ℕ) → Outcome Table
  unfolding twolevel_reload delete_at write_at
  twolevel_insert t hidx ppa pos =
      if pos == uint_max
      then insert_pair (λ t'. twolevel_reload t' hidx ppa) t hidx ppa
      else if ppa == uint_max
      then ok (delete_at t pos)
      else ok (write_at t pos ppa)

  -- The loop of `twolevel_bulk_insert`: the pairs `es` are to come, into the slots from `idx` on of the leaf
  -- `i`. A slot behind the leaf is a fault.
  unfoldable pub bulk_loop :
      ℕ → (keys : ℕ → ℕ) → List LeafEntry → (i idx : ℕ) → Table → Outcome Table
  bulk_loop zero keys es i idx t = stuck
  bulk_loop (suc fuel) keys [] i idx t = ok t
  bulk_loop (suc fuel) keys (e ∷ es) i idx t =
      let l = t.leaves i in
      let put : Leaf = record { hidx = update l.hidx idx e.0; ppa = update l.ppa idx e.1 } in
      let here = bulk_loop fuel keys es i (suc idx) (set_leaf t i put) in
      let next = bulk_loop fuel keys (e ∷ es) (suc i) 0 t in
      if leb e.0 (keys i)
      then (nvmev_assert (ltb 0 e.0) >> nvmev_assert (ltb idx in_leaf) >> here)
      else next

  -- `twolevel_bulk_insert`. Each round writes a pair or goes on to the next leaf.
  unfoldable pub twolevel_bulk_insert : Table → List LeafEntry → Outcome Table
  unfolding new_roots bulk_loop
  twolevel_bulk_insert t e = do
    let es = sort e
    keys ← new_roots es t.cnt t.entries
    bulk_loop (suc (count_of es + t.cnt)) keys es 0 0 (record t { entries = keys })
