-- ===== src/Ssd/Params/Capacity.antt =====
-- `ssd_init_params` (nvmevirt/ssd.c) lays out what is asked for.
use native.Mathlib.Nat.{div-add-mod, mod-eq_of_lt}
use virtkv.Ssd.Params.{
  SsdParams, fill_params, ssd_init_params, config_blk_size, block_geometry, nand_channels,
}
use native.Mathlib.Nat.{div-le_self, div-add-mod}
use virtkv.Common.{
  ℕ, ◌+◌, ◌*◌, ◌/◌, ◌<◌, ◌≤◌, ◌≡◌, ok, arith, ◌^◌, div_round_up, ◌%◌, dec_lt, ◌≢◌, ◌↔◌,
}

-- How the counts of a disk hang together, which the address arithmetic of the FTL relies on.
pub record IsGeometry (p : SsdParams) : Type 0 where
  pub pl : p.pgs_per_pl ≡ p.pgs_per_blk * p.blks_per_pl
  pub lun : p.pgs_per_lun ≡ p.pgs_per_pl * p.pls_per_lun
  pub ch : p.pgs_per_ch ≡ p.pgs_per_lun * p.luns_per_ch
  pub all : p.tt_pgs ≡ p.pgs_per_ch * p.nchs
  pub blk : p.pgs_per_blk ≡ p.pgs_per_oneshotpg * p.oneshotpgs_per_blk
  pub line : p.pgs_per_line ≡ p.luns_per_ch * p.nchs * p.pgs_per_blk
  pub one_plane : p.pls_per_lun ≡ 1
  pub lines : p.tt_lines * p.pgs_per_line ≡ p.tt_pgs
  pub sectors : p.tt_secs * p.secsz ≡ p.tt_pgs * p.pgsz
  pub flash : p.flashpgs_per_blk * p.pgs_per_flashpg ≡ p.pgs_per_blk

fill_params-IsGeometry : (blks nchs : ℕ) → IsGeometry (fill_params config_blk_size blks nchs)
unfolding fill_params
fill_params-IsGeometry blks nchs = omega arith

pub div_round_up_bounds :
    (n d : ℕ) → 0 < d → n + d ≤ 2 ^ 64 → (n ≤ div_round_up n d * d) × (div_round_up n d * d < n + d)
div_round_up_bounds n d h w = grind (arith, div-add-mod)

parts_le : (n : ℕ) → 8 % n ≡ 0 → n ≤ 8
parts_le n e = elim (dec_lt 8 n) [
  | yes big ↦ absurd (omega (arith, mod-eq_of_lt {n = 8} {m = n} big))
  | no small ↦ omega arith
]

-- What a successful run returns.
pub ssd_init_params-ok :
    (capacity nparts : ℕ) (p : SsdParams)
    → ssd_init_params capacity nparts ≡ ok p
    → (0 < nparts)
      × (nparts ≤ 8)
      × (nparts * (nand_channels / nparts) ≡ 8)
      × (p
          ≡ fill_params config_blk_size
              (block_geometry (capacity / nparts) (nand_channels / nparts)).1
              (nand_channels / nparts))
unfolding ssd_init_params block_geometry
ssd_init_params-ok capacity nparts p e = ground (arith, parts_le nparts, div-add-mod 8 nparts)

-- The disk that `ssd_init_params` lays out for less than 2 ^ 48 bytes has the consistent geometry, holds the capacity of its
-- partition, and exceeds it by less than a line.
pub ssd_init_params-capacity :
    (capacity nparts : ℕ) (p : SsdParams)
    → capacity < 2 ^ 48
    → ssd_init_params capacity nparts ≡ ok p
    → IsGeometry p
      × (capacity / nparts ≤ p.tt_pgs * p.pgsz)
      × (p.tt_pgs * p.pgsz < capacity / nparts + p.pgs_per_line * p.pgsz)
unfolding fill_params block_geometry
ssd_init_params-capacity capacity nparts p h e =
    let (_, _, q, r) = ssd_init_params-ok capacity nparts p e in
    let part : capacity / nparts ≤ capacity = div-le_self capacity nparts in
    let some_chs : 0 < nand_channels / nparts = grind arith in
    let few : nand_channels / nparts ≤ 8 = div-le_self 8 nparts in
    let round =
      div_round_up_bounds (capacity / nparts) (1048576 * (nand_channels / nparts)) (omega arith)
        (omega arith) in
    rw r (fill_params-IsGeometry _ _, omega (arith, round), omega (arith, round))

given_parts :
    (capacity nparts : ℕ)
    → nparts ≢ 0
    → nand_channels % nparts ≡ 0
    → ssd_init_params capacity nparts
      ≡ ok (
          fill_params
            (block_geometry (capacity / nparts) (nand_channels / nparts)).0
            (block_geometry (capacity / nparts) (nand_channels / nparts)).1
            (nand_channels / nparts))
unfolding ssd_init_params
given_parts capacity nparts h k = ground arith

-- `ssd_init_params` succeeds exactly if the number of partitions divides the eight channels; no other assertion of
-- its body can fail in this configuration.
ssd_init_params_succeeds :
    (capacity nparts : ℕ)
    → ((p : SsdParams) × (ssd_init_params capacity nparts ≡ ok p))
      ↔ ((nparts ≢ 0) × (nand_channels % nparts ≡ 0))
unfolding ssd_init_params
ssd_init_params_succeeds capacity nparts =
    (λ r. ground (arith, r.1), λ h. (_, given_parts capacity nparts h.0 h.1))
