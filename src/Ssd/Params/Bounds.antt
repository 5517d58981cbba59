-- ===== src/Ssd/Params/Bounds.antt =====
-- The numbers of `ssd_init_params` (nvmevirt/ssd.c) fit their C types, and the addresses of the
-- disk the bit fields of `struct ppa` (nvmevirt/ssd.h).
use virtkv.Ssd.Params.Capacity.{ssd_init_params-ok, div_round_up_bounds}
use virtkv.Ssd.Params.{
  SsdParams, fill_params, config_blk_size, block_geometry, ssd_init_params, nand_channels,
}
use native.Mathlib.Nat.{le_of_mul-le-mul_left, mul-le-mul_right, div-le_self, mul-div-le}
use virtkv.Common.{ℕ, ◌≤◌, ◌<◌, ◌^◌, arith, ◌*◌, ◌≡◌, ok, ◌/◌, ◌+◌, dec_lt, ap}

-- The products of two `int` fields do not overflow, page numbers fit a `ppa_t` of 32 bits and stay
-- below its mark for "unmapped", each coordinate and the
-- count behind the last fit its bit field (a block number itself does), and there are fewer channels
-- than pages in one, which `ppa_to_struct` relies on.
pub record IsAddressable (p : SsdParams) : Type 0 where
  pub int_pages : p.pgs_per_pl < 2 ^ 31
  pub int_blocks : p.blks_per_lun < 2 ^ 31
  pub int_luns : p.tt_luns < 2 ^ 31
  pub pages : p.tt_pgs < 2 ^ 32
  pub ch_bits : p.nchs < 2 ^ 8
  pub lun_bits : p.luns_per_ch < 2 ^ 8
  pub blk_bits : p.blks_per_pl ≤ 2 ^ 16
  pub pg_bits : p.pgs_per_blk < 2 ^ 16
  pub few_chs : p.nchs ≤ p.luns_per_ch * p.pgs_per_blk

blocks_bound :
    (c n k b : ℕ)
    → c ≤ 2 ^ 39
    → n * k ≡ 8
    → n * (c / n) ≤ c
    → b * (1048576 * k) < c / n + 1048576 * k
    → b ≤ 65536
blocks_bound c n k b h e le lt = elim (dec_lt 65536 b) [
  | yes big ↦ absurd (
      omega
        (arith, lt, share, mul-le-mul_right (1048576 * k) (let b' : 65537 ≤ b = omega arith in b')))
  | no small ↦ omega arith
]
  where
    some : 0 < n
    some = grind arith

    share : c / n ≤ 68719476736 * k
    share = le_of_mul-le-mul_left {k = n} (omega (arith, ap (λ (t : ℕ). 68719476736 * t) e)) some

fits :
    (blks nchs : ℕ)
    → blks ≤ 65536
    → nchs ≤ 8
    → IsAddressable (fill_params config_blk_size blks nchs)
unfolding fill_params
fits blks nchs h k = grind arith

-- Up to 512 GiB the parameters that `ssd_init_params` sets fit their types and bit fields.
pub ssd_init_params-IsAddressable :
    (capacity nparts : ℕ) (p : SsdParams)
    → capacity ≤ 2 ^ 39
    → ssd_init_params capacity nparts ≡ ok p
    → IsAddressable p
unfolding fill_params block_geometry
ssd_init_params-IsAddressable capacity nparts p h e =
    let (_, _, q, r) = ssd_init_params-ok capacity nparts p e in
    let part : capacity / nparts ≤ capacity = div-le_self capacity nparts in
    let few : nand_channels / nparts ≤ 8 = div-le_self 8 nparts in
    let some_chs : 0 < nand_channels / nparts = grind arith in
    let round =
      div_round_up_bounds (capacity / nparts) (1048576 * (nand_channels / nparts)) (omega arith)
        (omega arith) in
    let blocks : (block_geometry (capacity / nparts) (nand_channels / nparts)).1 ≤ 65536 =
      blocks_bound capacity nparts (nand_channels / nparts) _ h q (mul-div-le capacity nparts)
        round.1 in
    rw r (fits _ (nand_channels / nparts) blocks few)
