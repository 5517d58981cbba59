-- ===== src/Twolevel/Search.antt =====
-- The search for a leaf by its root key (__lower_bound of nvmevirt/twolevel.c).
use virtkv.Twolevel.{Table, bound_loop, lower_bound}
use virtkv.Common.{
  ℕ, ◌+◌, ◌-◌, ◌/◌, ◌≤◌, ◌<◌, zero, suc, ltb, arith, Bool-cases, inl, inr, refl, Returns,
}

-- The root keys from the first to the last do not fall.
abbrev pub IsSorted : Table → Type 0
IsSorted t = (i j : ℕ) → i ≤ j → j < t.cnt → t.entries i ≤ t.entries j

-- The leaves before `r` have keys below `hidx`, those from `r` on have not.
abbrev pub Splits : (entries : ℕ → ℕ) (cnt hidx r : ℕ) → Type 0
Splits entries cnt hidx r =
    (r ≤ cnt)
    × ((i : ℕ) → i < r → entries i < hidx)
    × ((i : ℕ) → r ≤ i → i < cnt → hidx ≤ entries i)

bound_loop-Splits :
    (entries : ℕ → ℕ) (cnt hidx fuel left hi : ℕ)
    → ((i j : ℕ) → i ≤ j → j < cnt → entries i ≤ entries j)
    → hi - left < fuel
    → left ≤ hi
    → hi ≤ cnt
    → ((i : ℕ) → i < left → entries i < hidx)
    → ((i : ℕ) → hi ≤ i → i < cnt → hidx ≤ entries i)
    → Returns (Splits entries cnt hidx) (bound_loop fuel entries hidx left hi)
unfolding bound_loop
bound_loop-Splits entries cnt hidx zero left hi sorted fuel order inside below above =
    absurd (omega (arith, fuel))
bound_loop-Splits entries cnt hidx (suc n) left hi sorted fuel order inside below above =
    let mid = left + (hi - 1 - left) / 2 in
    elim (Bool-cases (ltb left hi)) [
      | inl more ↦ elim (Bool-cases (ltb (entries mid) hidx)) [
        | inl less ↦
            rw (more, less)
              (bound_loop-Splits entries cnt hidx n (mid + 1) hi sorted (ground arith)
                (ground arith) inside (λ i h. let s = sorted i mid in ground arith) above)
        | inr not_less ↦
            rw (more, not_less)
              (bound_loop-Splits entries cnt hidx n left mid sorted (ground arith) (ground arith)
                (ground arith) below (λ i h k. let s = sorted mid i in ground arith))
      ]
      | inr none ↦
          rw none
            (left, refl, (omega (arith, order, inside), below, λ i h k. above i (ground arith) k))
    ]

-- __lower_bound on root keys that do not fall returns the first leaf whose key is not below hidx, or the
-- number of leaves if there is none.
pub lower_bound-Splits :
    (t : Table) (hidx : ℕ) → IsSorted t → Returns (Splits t.entries t.cnt hidx) (lower_bound t hidx)
unfolding lower_bound
lower_bound-Splits t hidx sorted =
    bound_loop-Splits t.entries t.cnt hidx (suc t.cnt) 0 t.cnt sorted (omega arith) (omega arith)
      (omega arith) (λ i h. absurd (omega (arith, h))) (λ i h k. absurd (omega (arith, h, k)))
