-- ===== src/Common/Masks.antt =====
-- Masks of the lowest bits, as C writes a remainder by a power of two.
use native.Mathlib.Nat.{div-add-mod, mod-lt, mod-eq_of_lt, mul-add-mod_self_left}
use Prim.Native.Nat.{
  ℕ, zero, suc, ◌+◌, ◌*◌, ◌/◌, ◌%◌, ◌≤◌, ◌<◌, min, digits, bit_and, bit_and-bitwise,
}
use mathlib.Core.Path.{◌≡◌, refl, ◌∙◌, sym, ap}
use native.Mathlib.Omega.{arith}

-- The number with the `k` lowest bits.
mask : ℕ → ℕ
mask zero = 0
mask (suc k) = 2 * mask k + 1

-- The digits of the conjunction of `a` and `b`, `n` of them.
abbrev conj : ℕ → ℕ → ℕ → ℕ
conj n a b = digits (λ b. zero) min n a b

conj_none : (n a : ℕ) → conj n a 0 ≡ 0
conj_none zero a = refl
conj_none (suc n) zero = refl
conj_none (suc n) (suc a) = omega (arith, conj_none n (suc a / 2))

-- A remainder by an even number, from that of the half.
mod_even : (a m : ℕ) → a % (2 * m + 1 + 1) ≡ a / 2 % (m + 1) * 2 + a % 2
mod_even a m =
    let r : a / 2 % (m + 1) < m + 1 = mod-lt (a / 2) (omega arith) in
    let e : a ≡ (2 * m + 1 + 1) * (a / 2 / (m + 1)) + (a / 2 % (m + 1) * 2 + a % 2) =
      omega (arith, div-add-mod (a / 2) (m + 1)) in
    let s : a / 2 % (m + 1) * 2 + a % 2 < 2 * m + 1 + 1 = omega arith in
    ap (λ (t : ℕ). t % (2 * m + 1 + 1)) e
    ∙ (mul-add-mod_self_left (2 * m + 1 + 1) _ _ ∙ mod-eq_of_lt s)

conj-mask : (k n a : ℕ) → a ≤ n → conj n a (mask k) ≡ a % (mask k + 1)
unfolding mask
conj-mask zero n a h = omega (arith, conj_none n a)
conj-mask (suc k) zero zero h = sym (mod-eq_of_lt (omega arith))
conj-mask (suc k) zero (suc a) h = absurd (omega arith)
conj-mask (suc k) (suc n) zero h = sym (mod-eq_of_lt (omega arith))
conj-mask (suc k) (suc n) (suc a) h =
    let half : (2 * mask k + 1) / 2 ≡ mask k = omega arith in
    let odd : (2 * mask k + 1) % 2 ≡ 1 = omega arith in
    let rest : conj n (suc a / 2) (mask k) ≡ suc a / 2 % (mask k + 1) =
      conj-mask k n (suc a / 2) (omega arith) in
    rw (half, odd, rest) (omega (arith, mod_even (suc a) (mask k)))

pub bit_and_seven : (a : ℕ) → bit_and a 7 ≡ a % 8
unfolding mask
bit_and_seven a = (λ i. bit_and-bitwise a 7 i) ∙ conj-mask 3 a a (omega arith)

-- The mask of ten bits.
pub bit_and_1023 : (a : ℕ) → bit_and a 1023 ≡ a % 1024
unfolding mask
bit_and_1023 a = (λ i. bit_and-bitwise a 1023 i) ∙ conj-mask 10 a a (omega arith)
