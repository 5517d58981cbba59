-- ===== src/Ssd/Ppa.antt =====
-- `struct ppa` (nvmevirt/ssd.h): a physical page address as bit fields and as one 64-bit number.
use virtkv.Common.{ℕ, ◌-◌, ◌+◌, ◌%◌, ◌/◌, ◌^◌, Bool, ◌<◌, ◌≡◌, ◌*◌, not, arith, true, ◌==◌, ◌↔◌}

abbrev pub page_bits : ℕ
page_bits = 16

abbrev pub blk_bits : ℕ
blk_bits = 16

abbrev pub pl_bits : ℕ
pl_bits = 8

abbrev pub lun_bits : ℕ
lun_bits = 8

abbrev pub ch_bits : ℕ
ch_bits = 8

abbrev pub rsb_bits : ℕ
rsb_bits = 64 - (blk_bits + page_bits + pl_bits + lun_bits + ch_bits)

-- The view `g` of the union.
pub record Ppa : Type 0 where
  pub pg : ℕ
  pub blk : ℕ
  pub pl : ℕ
  pub lun : ℕ
  pub ch : ℕ
  pub rsv : ℕ

-- The view `ppa`: the first bit field is the lowest.
pub encode : Ppa → ℕ
encode p =
    p.pg
    + 2 ^ page_bits
      * (p.blk
          + 2 ^ blk_bits
            * (p.pl + 2 ^ pl_bits * (p.lun + 2 ^ lun_bits * (p.ch + 2 ^ ch_bits * p.rsv))))

pub decode : ℕ → Ppa
decode n = record {
  pg = n % 2 ^ 16;
  blk = n / 2 ^ 16 % 2 ^ 16;
  pl = n / 2 ^ 32 % 2 ^ 8;
  lun = n / 2 ^ 40 % 2 ^ 8;
  ch = n / 2 ^ 48 % 2 ^ 8;
  rsv = n / 2 ^ 56 % 2 ^ 8;
}

-- The field `blk_in_ssd` of the view `h`: block, plane, lun and channel as one number.
pub blk_in_ssd : Ppa → ℕ
blk_in_ssd p = encode p / 2 ^ page_bits % 2 ^ (blk_bits + pl_bits + lun_bits + ch_bits)

abbrev pub unmapped_ppa : ℕ
unmapped_ppa = 2 ^ 64 - 1

-- `mapped_ppa` (nvmevirt/demand_ftl.c).
unfoldable pub mapped_ppa : Ppa → Bool
unfolding encode
mapped_ppa p = not (encode p == unmapped_ppa)

-- Each field holds what its bits can.
pub record InFields (p : Ppa) : Type 0 where
  pub pg_fits : p.pg < 2 ^ page_bits
  pub blk_fits : p.blk < 2 ^ blk_bits
  pub pl_fits : p.pl < 2 ^ pl_bits
  pub lun_fits : p.lun < 2 ^ lun_bits
  pub ch_fits : p.ch < 2 ^ ch_bits
  pub rsv_fits : p.rsv < 2 ^ rsb_bits

-- The address whose fields fit is read back from its number.
decode-encode : (p : Ppa) → InFields p → decode (encode p) ≡ p
unfolding encode decode
decode-encode p f = ground arith

-- Every 64-bit number is the number of an address whose fields fit, the one that it is read as.
encode-decode : (n : ℕ) → n < 2 ^ 64 → InFields (decode n) × (encode (decode n) ≡ n)
unfolding encode decode
encode-decode n h = omega arith

-- An address whose fields fit and whose reserved byte is 0 is never taken for "unmapped".
mapped_ppa_of_free : (p : Ppa) → InFields p → p.rsv ≡ 0 → mapped_ppa p ≡ true
unfolding mapped_ppa
mapped_ppa_of_free p f e = ground arith

-- `blk_in_ssd` tells blocks apart: it is the same for two addresses exactly if their channels, LUNs,
-- planes and blocks are.
pub blk_in_ssd_iff :
    (a b : Ppa)
    → InFields a
    → InFields b
    → (blk_in_ssd a ≡ blk_in_ssd b)
      ↔ ((a.ch ≡ b.ch) × (a.lun ≡ b.lun) × (a.pl ≡ b.pl) × (a.blk ≡ b.blk))
unfolding blk_in_ssd encode
blk_in_ssd_iff a b f g =
    (λ e. omega (arith, e, block a f, block b g), λ e. omega (arith, e, block a f, block b g))
  where
    block :
        (p : Ppa)
        → InFields p
        → blk_in_ssd p ≡ p.blk + 2 ^ 16 * (p.pl + 2 ^ 8 * (p.lun + 2 ^ 8 * p.ch))
    block p h = ground arith
