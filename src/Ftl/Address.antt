-- ===== src/Ftl/Address.antt =====
-- The address arithmetic of nvmevirt/demand_ftl.c: pages by coordinates and by index, grains, and
-- the order in which the pages of a line are written.
pub mod Digits
pub mod RoundTrip
pub mod Walk
pub mod Peek
pub mod Same
pub mod Returns
use virtkv.Ssd.Ppa.{blk_in_ssd, Ppa, page_bits, lun_bits, ch_bits, blk_bits}
use virtkv.Ssd.Params.{pagesize, SsdParams}
use Prim.Native.Nat.{bit_and}
use virtkv.Common.{
  ℕ, ◌*◌, ◌/◌, ◌+◌, Outcome, Bool, u32, if◌then◌else◌, ltb, ◌%◌, ◌==◌, ◌&&◌, ◌>>◌, nvmev_assert,
  leb, ◌-◌, ◌^◌, ok, false, not,
}

abbrev pub grained_unit : ℕ
grained_unit = 512

abbrev pub grain_per_page : ℕ
grain_per_page = pagesize / grained_unit

-- PPA_TO_PGA, G_IDX and G_OFFSET of nvmevirt/demand_ftl.h. The mask of G_OFFSET is one less than a
-- power of two, so it is the remainder.
abbrev pub ppa_to_pga : ℕ → ℕ → ℕ
ppa_to_pga ppa offset = ppa * grain_per_page + offset

abbrev pub g_idx : ℕ → ℕ
g_idx grain = grain / grain_per_page

abbrev pub g_offset : ℕ → ℕ
g_offset grain = bit_and grain (grain_per_page - 1)

-- `ppa2pgidx`: the index of a page, as a `ppa_t` of 32 bits.
unfoldable pub ppa2pgidx : SsdParams → Ppa → Outcome ℕ
ppa2pgidx spp ppa = do
  let pgidx = u32 (
      ppa.ch * spp.pgs_per_ch
      + ppa.lun * spp.pgs_per_lun
      + ppa.pl * spp.pgs_per_pl
      + ppa.blk * spp.pgs_per_blk
      + ppa.pg)
  nvmev_assert (ltb pgidx spp.tt_pgs)
  ok pgidx

-- `ppa_to_struct`: each coordinate is stored in its bit field.
unfoldable pub ppa_to_struct : SsdParams → ℕ → Outcome Ppa
ppa_to_struct spp ppa = do
  nvmev_assert (ltb ppa spp.tt_pgs)
  ok (record {
    ch = ppa / spp.pgs_per_ch % spp.pgs_per_ch % 2 ^ ch_bits;
    lun = ppa % spp.pgs_per_ch / spp.pgs_per_lun % 2 ^ lun_bits;
    pl = 0;
    blk = ppa % spp.pgs_per_lun / spp.pgs_per_blk % 2 ^ blk_bits;
    pg = ppa % spp.pgs_per_blk % 2 ^ page_bits;
    rsv = 0;
  })

-- `valid_ppa`; no coordinate is negative.
pub valid_ppa : SsdParams → Ppa → Bool
valid_ppa spp ppa =
    if leb spp.nchs ppa.ch
    then false
    else if leb spp.luns_per_ch ppa.lun
    then false
    else if leb spp.pls_per_lun ppa.pl
    then false
    else if leb spp.blks_per_pl ppa.blk
    then false
    else not (leb spp.pgs_per_blk ppa.pg)

-- The divisions of `ppa_to_struct` fault on a zero divisor; `IsGeometry` with a page rules it out.
pub last_pg_in_wordline : SsdParams → Ppa → Bool
last_pg_in_wordline spp ppa = ppa.pg % spp.pgs_per_oneshotpg == spp.pgs_per_oneshotpg - 1

pub last_pg_in_ch : SsdParams → Ppa → Bool
last_pg_in_ch spp ppa = ppa.ch == spp.nchs - 1

pub last_pg_in_lun : SsdParams → Ppa → Bool
last_pg_in_lun spp ppa = ppa.lun == spp.luns_per_ch - 1

pub last_pg_in_blk : SsdParams → Ppa → Bool
last_pg_in_blk spp ppa = ppa.pg == spp.pgs_per_blk - 1

pub last_pg_in_line : SsdParams → Ppa → Bool
unfolding last_pg_in_wordline last_pg_in_ch last_pg_in_lun last_pg_in_blk
last_pg_in_line spp ppa =
    last_pg_in_wordline spp ppa
    && last_pg_in_ch spp ppa
    && last_pg_in_lun spp ppa
    && last_pg_in_blk spp ppa

-- `is_same_flash_page`.
pub is_same_flash_page : SsdParams → Ppa → Ppa → Bool
is_same_flash_page spp a b =
    blk_in_ssd a == blk_in_ssd b && a.pg / spp.pgs_per_flashpg == b.pg / spp.pgs_per_flashpg

-- The increments of `peek_next_page`, one after the other: each goes on only if the one before came
-- to the end of its range. A bit field wraps at its width.
abbrev next_wordline : SsdParams → Ppa → Ppa
next_wordline spp p =
    let pg = (p.pg + spp.pgs_per_oneshotpg) % 2 ^ page_bits in
    if pg == spp.pgs_per_blk
    then record p { pg = 0; lun = 0; blk = (p.blk + 1) % 2 ^ blk_bits }
    else record p { pg = pg; lun = 0 }

abbrev next_lun : SsdParams → Ppa → Outcome Ppa
next_lun spp p = do
  nvmev_assert (ltb p.lun spp.luns_per_ch)
  let lun = (p.lun + 1) % 2 ^ lun_bits
  ok (
      if lun == spp.luns_per_ch
      then next_wordline spp (record p { ch = 0 })
      else record p { ch = 0; lun = lun })

abbrev next_ch : SsdParams → Ppa → Outcome Ppa
next_ch spp p = do
  nvmev_assert (ltb p.ch spp.nchs)
  let ch = (p.ch + 1) % 2 ^ ch_bits
  if ch == spp.nchs then next_lun spp p else ok (record p { ch = ch })

unfoldable pub peek_next_page : SsdParams → Ppa → Outcome Ppa
peek_next_page spp p =
    let pg = (p.pg + 1) % 2 ^ page_bits in
    if pg % spp.pgs_per_oneshotpg == 0
    then next_ch spp
        (record p { pg = (pg + 2 ^ page_bits - spp.pgs_per_oneshotpg) % 2 ^ page_bits })
    else ok (record p { pg = pg })
