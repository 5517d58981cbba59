-- ===== src/Twolevel/Initial.antt =====
-- The table after twolevel_init of nvmevirt/twolevel.c.
use virtkv.Twolevel.{Table, twolevel_init, twolevel_find, in_leaf, in_root, uint_max}
use virtkv.Twolevel.Find.{IsTable, find-absent}
use virtkv.Common.{ℕ, ◌≡◌, ◌≢◌, ◌<◌, ok, none, ltb, arith, true, refl, sym, ◌∙◌}

module _ (t : Table) where
  initial-hidx : (i j : ℕ) → i < 2 → j < in_leaf → ((twolevel_init t).leaves i).hidx j ≡ uint_max
  unfolding twolevel_init
  initial-hidx i j inside slots =
      let root : ltb i in_root ≡ true = ground (arith, inside) in
      let leaf : ltb j in_leaf ≡ true = ground (arith, slots) in rw (root, leaf) refl

  initial-entries : (i : ℕ) → i < 2 → (twolevel_init t).entries i ≡ uint_max
  unfolding twolevel_init
  initial-entries i inside =
      let root : ltb i in_root ≡ true = ground (arith, inside) in rw root refl

  initial-cnt : (twolevel_init t).cnt ≡ 2
  unfolding twolevel_init
  initial-cnt = refl

  initial-IsTable : IsTable (twolevel_init t)
  initial-IsTable = record {
    filled = rw initial-cnt (omega arith);
    room = rw initial-cnt (omega arith);
    sorted = λ i j order j_in.
        let j_two : j < 2 = omega (arith, j_in, initial-cnt) in
        rw (initial-entries i (omega (arith, order, j_two)), initial-entries j j_two) (omega arith);
    last = rw initial-cnt (initial-entries 1 (omega arith));
    leaf = λ i i_in j m order slots used.
        absurd (used (initial-hidx i m (omega (arith, i_in, initial-cnt)) slots));
    upper = λ i j i_in slots used.
        absurd (used (initial-hidx i j (omega (arith, i_in, initial-cnt)) slots));
    lower = λ h i j order i_in slots used.
        absurd (used (initial-hidx i j (omega (arith, i_in, initial-cnt)) slots));
    unset = λ i j more free slots. initial-hidx i j (omega (arith, more, initial-cnt)) slots;
  }

-- Over any memory, twolevel_init leaves a valid table in which twolevel_find finds no key.
pub twolevel_init-IsTable :
    (t : Table)
    → IsTable (twolevel_init t)
      × ((hidx : ℕ) → hidx ≢ uint_max → twolevel_find (twolevel_init t) hidx ≡ ok (uint_max, none))
twolevel_init-IsTable t = (
  initial-IsTable t,
  λ hidx key. find-absent (twolevel_init t) (initial-IsTable t) hidx key (λ i j i_in slots here.
      key (sym here ∙ initial-hidx t i j (omega (arith, i_in, initial-cnt t)) slots)),
)
