-- ===== src/Ftl/Address/Digits.antt =====
-- Mixed-radix numbers: the page index of nvmevirt/demand_ftl.c has the digits channel, LUN, block
-- and page.
use native.Mathlib.Nat.{
  mod-lt, div-eq_of_lt-le, div-lt_iff_lt-mul, div-add-mod, mul-add-mod_self_left, mod-eq_of_lt,
}
use virtkv.Common.{ℕ, ◌<◌, ◌*◌, ◌%◌, ◌/◌, ◌+◌, arith, ◌≡◌, suc, sym, zero, ap}

pub digit : (d q r : ℕ) → r < d → ((d * q + r) / d ≡ q) × ((d * q + r) % d ≡ r)
digit d q r h =
    (div-eq_of_lt-le d (omega arith) (omega arith), rw mul-add-mod_self_left (mod-eq_of_lt h))

pub digit_bound : (d q r n : ℕ) → r < d → q < n → d * q + r < d * n
digit_bound d q r n h k = grind arith

pub pos_left : (x y : ℕ) {i : ℕ} → i < x * y → 0 < x
pos_left zero y h = absurd (omega arith)
pos_left (suc x) y h = omega arith

-- A number below a product, divided by one factor, lies below the other.
pub quotient_lt : (x y i : ℕ) → i < x * y → i / x < y
quotient_lt x y i h = (div-lt_iff_lt-mul (pos_left x y h)).1 (omega arith)

pub remainder_lt : (x y i : ℕ) {j : ℕ} → j < x * y → i % x < x
remainder_lt x y i h = mod-lt i (pos_left x y h)

-- The page index of four digits.
module _ (p b u : ℕ) where
  abbrev pub index : ℕ → ℕ → ℕ → ℕ → ℕ
  index ch lun blk pg = p * (b * (u * ch + lun) + blk) + pg

  pub index_digits :
      (ch lun blk pg : ℕ)
      → pg < p
      → blk < b
      → lun < u
      → (index ch lun blk pg / (p * b * u) ≡ ch)
        × (index ch lun blk pg % (p * b * u) / (p * b) ≡ lun)
        × (index ch lun blk pg % (p * b) / p ≡ blk)
        × (index ch lun blk pg % p ≡ pg)
  index_digits ch lun blk pg hp hb hu =
      let r2 : p * blk + pg < p * b = digit_bound p blk pg b hp hb in
      let r1 : p * b * lun + (p * blk + pg) < p * b * u =
        digit_bound (p * b) lun (p * blk + pg) u r2 hu in
      let e1 : index ch lun blk pg ≡ p * b * u * ch + (p * b * lun + (p * blk + pg)) =
        omega arith in
      let e2 : index ch lun blk pg ≡ p * b * (u * ch + lun) + (p * blk + pg) = omega arith in
      (
        rw e1 (digit (p * b * u) ch (p * b * lun + (p * blk + pg)) r1).0,
        rw (e1, (digit (p * b * u) ch (p * b * lun + (p * blk + pg)) r1).1)
            (digit (p * b) lun (p * blk + pg) r2).0,
        rw (e2, (digit (p * b) (u * ch + lun) (p * blk + pg) r2).1) (digit p blk pg hp).0,
        (digit p (b * (u * ch + lun) + blk) pg hp).1,
      )

  mod_part : (d m i : ℕ) → i % (d * m) % d ≡ i % d
  mod_part d m i = sym (
      rw (mul-add-mod_self_left d (m * (i / (d * m))) (i % (d * m))) at
        (ap (λ (t : ℕ). t % d) whole))
    where
      whole : i ≡ d * (m * (i / (d * m))) + i % (d * m)
      whole = omega (arith, div-add-mod i (d * m))

  -- Each number is the page index of its digits.
  pub index_of_digits :
      (i : ℕ) → index (i / (p * b * u)) (i % (p * b * u) / (p * b)) (i % (p * b) / p) (i % p) ≡ i
  index_of_digits i = omega (
    arith,
    div-add-mod i (p * b * u),
    div-add-mod (i % (p * b * u)) (p * b),
    div-add-mod (i % (p * b)) p,
    mod_part (p * b) u i,
    mod_part p b i,
  )
