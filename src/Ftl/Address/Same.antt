-- ===== src/Ftl/Address/Same.antt =====
-- Grains, flash pages and the end of a line (nvmevirt/demand_ftl.c and demand_ftl.h).
use virtkv.Ftl.Address.Digits.{digit}
use virtkv.Ftl.Address.Peek.{next_line, next_wordline_of_line}
use virtkv.Ftl.Address.Walk.{
  place, NextPlace, next_page, wordline, next_channel, next_lun_of_line, step_end,
}
use virtkv.Ftl.Address.RoundTrip.{OnDisk}
use virtkv.Ssd.Params.Capacity.{IsGeometry}
use virtkv.Ssd.Ppa.{Ppa, InFields, blk_in_ssd_iff}
use virtkv.Ssd.Params.{SsdParams}
use virtkv.Ftl.Address.{
  is_same_flash_page, last_pg_in_line, grain_per_page, SsdParams, ppa_to_pga, Ppa, g_idx, g_offset,
  last_pg_in_wordline, last_pg_in_ch, last_pg_in_lun, last_pg_in_blk,
}
use virtkv.Common.{
  ℕ, ◌<◌, ◌≡◌, ◌↔◌, true, ◌/◌, ◌+◌, arith, bit_and_seven, ◌%◌, ◌≢◌, inl, ℕ_discrete, ◌*◌, inr, refl,
}

-- PPA_TO_PGA makes a grain of a page number and an offset in the page exactly if G_IDX and G_OFFSET of
-- the grain are that page number and that offset.
ppa_to_pga_iff :
    (ppa offset grain : ℕ)
    → offset < grain_per_page
    → (ppa_to_pga ppa offset ≡ grain) ↔ ((ppa ≡ g_idx grain) × (offset ≡ g_offset grain))
ppa_to_pga_iff ppa offset grain h = ground (arith, bit_and_seven grain)

-- Two addresses whose fields fit are in the same flash page exactly if they agree in channel, LUN, plane and block,
-- and their pages in the flash page of the block.
is_same_flash_page_iff :
    (spp : SsdParams) (a b : Ppa)
    → InFields a
    → InFields b
    → (is_same_flash_page spp a b ≡ true) ↔ (
        (a.ch ≡ b.ch)
        × (a.lun ≡ b.lun)
        × (a.pl ≡ b.pl)
        × (a.blk ≡ b.blk)
        × (a.pg / spp.pgs_per_flashpg ≡ b.pg / spp.pgs_per_flashpg))
unfolding is_same_flash_page
is_same_flash_page_iff spp a b f g =
    (λ h. ground (arith, blk_in_ssd_iff a b f g), λ e. ground (arith, blk_in_ssd_iff a b f g))

-- A page from which a step stays in its block is not the last place.
not_last :
    (spp : SsdParams) (p q : Ppa)
    → NextPlace spp p q
    → q.blk ≡ p.blk
    → place spp p + 1 ≢ spp.pgs_per_line
not_last spp p q n same e = elim n.steps [
  | inl (_, _, lt) ↦ omega arith
  | inr (next, _, _) ↦ omega arith
]

module _ (spp : SsdParams) (p : Ppa) (g : IsGeometry spp) (o : OnDisk spp p) where
  whole_wordlines : p.pg + 1 ≡ spp.pgs_per_blk → (p.pg + 1) % spp.pgs_per_oneshotpg ≡ 0
  whole_wordlines e =
      let k : p.pg + 1 ≡ spp.pgs_per_oneshotpg * spp.oneshotpgs_per_blk + 0 =
        omega (arith, g.blk) in
      rw k (digit spp.pgs_per_oneshotpg spp.oneshotpgs_per_blk 0 (wordline spp g p o)).1

  last_place :
      p.pg + 1 ≡ spp.pgs_per_blk
      → p.ch + 1 ≡ spp.nchs
      → p.lun + 1 ≡ spp.luns_per_ch
      → place spp p + 1 ≡ spp.pgs_per_line
  last_place e c l = elim (next_line spp g p o (whole_wordlines e) c l e).steps [
    | inl (same, _, _) ↦ omega arith
    | inr (_, _, last) ↦ last
  ]

  ends_of_last :
      place spp p + 1 ≡ spp.pgs_per_line
      → ((p.pg + 1) % spp.pgs_per_oneshotpg ≡ 0)
        × (p.ch + 1 ≡ spp.nchs)
        × (p.lun + 1 ≡ spp.luns_per_ch)
        × (p.pg + 1 ≡ spp.pgs_per_blk)
  ends_of_last e = elim (ℕ_discrete ((p.pg + 1) % spp.pgs_per_oneshotpg) 0) [
    | no within ↦ absurd (not_last spp p _ (next_page spp g p o within) refl e)
    | yes z ↦ elim (ℕ_discrete (p.ch + 1) spp.nchs) [
      | no c ↦ absurd (not_last spp p _ (next_channel spp g p o z (omega (arith, o.ch_in))) refl e)
      | yes c ↦ elim (ℕ_discrete (p.lun + 1) spp.luns_per_ch) [
        | no l ↦
            absurd
              (not_last spp p _ (next_lun_of_line spp g p o z c (omega (arith, o.lun_in))) refl e)
        | yes l ↦ elim (ℕ_discrete (p.pg + 1) spp.pgs_per_blk) [
          | no b ↦ absurd (not_last spp p _ (next_wordline_of_line spp g p o z c l b) refl e)
          | yes b ↦ (z, c, l, b)
        ]
      ]
    ]
  ]

-- On the pages of a disk with consistent geometry `last_pg_in_line` tells the last place of a line, in the order of `peek_next_page`.
last_pg_in_line_iff :
    (spp : SsdParams) (p : Ppa)
    → IsGeometry spp
    → OnDisk spp p
    → (last_pg_in_line spp p ≡ true) ↔ (place spp p + 1 ≡ spp.pgs_per_line)
unfolding last_pg_in_line last_pg_in_wordline last_pg_in_ch last_pg_in_lun last_pg_in_blk
last_pg_in_line_iff spp p g o = (
  λ h.
      last_place spp p g o (ground (arith, o.pg_in)) (ground (arith, o.ch_in))
        (ground (arith, o.lun_in)),
  λ e.
      let (z, c, l, b) = ends_of_last spp p g o e in
      let (last, _) = step_end spp.pgs_per_oneshotpg p.pg (wordline spp g p o) z in ground arith,
)
