-- ===== src/Twolevel/History.antt =====
-- Tables that are made by calls of nvmevirt/twolevel.c, and the maps from keys to ppas that they stand for.
use virtkv.Twolevel.{Table, LeafEntry, twolevel_init, twolevel_find, in_leaf, uint_max}
use virtkv.Twolevel.Reload.{count_of, all_pairs, twolevel_insert}
use virtkv.Twolevel.Find.{IsTable, Maps}
use virtkv.Twolevel.Change.{twolevel_insert-overwrite, at_update}
use virtkv.Twolevel.Remove.{twolevel_insert-delete}
use virtkv.Twolevel.Full.{twolevel_insert-new}
use virtkv.Twolevel.Sort.{IsSort}
use virtkv.Twolevel.Initial.{twolevel_init-IsTable}
use virtkv.Common.{
  ◌*◌, ℕ, List, ◌≡◌, ◌≢◌, ◌<◌, ok, some, none, refl, sym, ◌∙◌, Returns, Outcome, ℕ_discrete, update,
}

-- The table and the map after twolevel_init and any calls of twolevel_insert: of a key that is not found, while
-- there are fewer pairs than slots, and of a new ppa at the position where the key is found (UINT_MAX deletes it).
pub data Edited (sort : List LeafEntry → List LeafEntry) : Table → (ℕ → ℕ) → Type 0 where
  initial : (t : Table) → Edited sort (twolevel_init t) (λ hidx. uint_max)
  added :
      (t t' : Table) (m : ℕ → ℕ) (hidx ppa : ℕ)
      → Edited sort t m
      → count_of (all_pairs t.leaves t.cnt 0) < t.cnt * in_leaf
      → hidx < uint_max
      → twolevel_find t hidx ≡ ok (uint_max, none)
      → twolevel_insert sort t hidx ppa uint_max ≡ ok t'
      → Edited sort t' (update m hidx ppa)
  changed :
      (t t' : Table) (m : ℕ → ℕ) (hidx old pos new : ℕ)
      → Edited sort t m
      → hidx ≢ uint_max
      → twolevel_find t hidx ≡ ok (old, some pos)
      → twolevel_insert sort t hidx new pos ≡ ok t'
      → Edited sort t' (update m hidx new)

-- The table is valid, and twolevel_find returns for each key the value of the map.
abbrev pub Means : Table → (ℕ → ℕ) → Type 0
Means t m = IsTable t × ((hidx : ℕ) → hidx ≢ uint_max → Maps t hidx (m hidx))

-- What the call returned is what is known to come of it.
returned : {P : Table → Type 0} {o : Outcome Table} (t : Table) → Returns P o → o ≡ ok t → P t
returned {P} t (t', e, p) here = let same : t ≡ t' = cc in rw same p

Means-update :
    (t t' : Table) (m : ℕ → ℕ) (hidx ppa : ℕ)
    → IsTable t'
    → Means t m
    → Maps t' hidx ppa
    → ((other p : ℕ) → other ≢ uint_max → other ≢ hidx → Maps t other p → Maps t' other p)
    → Means t' (update m hidx ppa)
Means-update t t' m hidx ppa valid (_, old) here others = (
  valid,
  λ k key.
      at_update (Maps t' k) m hidx ppa k (λ same. rw same here)
        (λ away. others k (m k) key away (old k key)),
)

-- With a sort that puts the pairs in the order of their keys, a table that twolevel_init and calls of
-- twolevel_insert make, each of a key that is not found into a table with fewer pairs than slots, or at the
-- position where twolevel_find found its key, is valid, and twolevel_find returns for each key the ppa that was
-- set last, or UINT_MAX if there is none.
pub Edited-Means :
    (sort : List LeafEntry → List LeafEntry) (t : Table) (m : ℕ → ℕ)
    → IsSort sort
    → Edited sort t m
    → Means t m
Edited-Means sort _ _ law (initial t) =
    let (valid, missing) = twolevel_init-IsTable t in
    (valid, λ hidx key. ((uint_max, none), missing hidx key, refl))
Edited-Means sort _ _ law (added t t' m hidx ppa before space small missing call) =
    let old = Edited-Means sort t m law before in
    let (valid, _, here, others) =
      returned t' (twolevel_insert-new sort t hidx ppa law old.0 space small missing) call in
    Means-update t t' m hidx ppa valid old here others
Edited-Means sort _ _ law (changed t t' m hidx pre pos new before key found call) =
    let old = Edited-Means sort t m law before in
    elim (ℕ_discrete new uint_max) [
      | yes deleted ↦
          let (valid, gone, others) =
            returned t' (twolevel_insert-delete sort t hidx pre pos old.0 key found)
              (rw (sym deleted) call) in
          Means-update t t' m hidx new valid old ((uint_max, none), gone, sym deleted) others
      | no used ↦
          let (_, over) = twolevel_insert-overwrite sort t hidx pre pos new old.0 key used found in
          let (valid, here, others) = returned t' over call in
          Means-update t t' m hidx new valid old ((new, some pos), here, refl)
            (λ other p other_key away (v, e, same). (v, others other other_key away ∙ e, same))
    ]
