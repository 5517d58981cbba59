-- ===== src/Cache/Sections.antt =====
-- The sections of the mapping table (nvmevirt/cache.c) cover the grains of the disk.
use native.Mathlib.Nat.{div-le_self}
use virtkv.Ssd.Params.Bounds.{ssd_init_params-IsAddressable}
use virtkv.Ssd.Params.Capacity.{ssd_init_params-ok}
use virtkv.Ftl.Address.{grain_per_page, grained_unit}
use virtkv.Cache.{
  init_cache, epp, cache_get_ht, idx2lpa, cache_hit, idx_of, HtSection, grain_per_page, ok, Cache,
  offset, false, stuck, leb, true, update, cache_hidx_to_grain, Option, in_memory, read_mapping,
  some,
}
use virtkv.Ssd.Params.{fill_params, SsdParams, config_blk_size, ssd_init_params, nand_channels}
use virtkv.Common.{
  ℕ, ◌<◌, ◌≤◌, ◌^◌, ◌+◌, ◌≡◌, ◌*◌, ◌↔◌, ok, ◌/◌, false, arith, stuck, bit_and_1023, leb, ◌==◌, true,
  refl, update, Option, none, u32, u64,
}

-- IDX and OFFSET give back the section and the offset below 1024 that IDX2LPA and the offset make a
-- hash index of, and only those.
idx2lpa_iff :
    (idx off hidx : ℕ)
    → off < epp
    → (idx2lpa idx + off ≡ hidx) ↔ ((idx ≡ idx_of hidx) × (off ≡ offset hidx))
idx2lpa_iff idx off hidx h = ground (arith, bit_and_1023 hidx)

table_fits :
    (b n : ℕ)
    → b ≤ 2 ^ 16
    → n ≤ 8
    → let t = (fill_params config_blk_size b n).tt_pgs in
      (t * grain_per_page < 2 ^ 31) × (t * grain_per_page / epp * epp ≡ t * grain_per_page)
unfolding fill_params
table_fits b n h k = (grind arith, omega arith)

table_of_disk :
    (capacity nparts : ℕ) (p : SsdParams)
    → capacity ≤ 2 ^ 39
    → ssd_init_params capacity nparts ≡ ok p
    → (p.tt_pgs * grain_per_page < 2 ^ 31)
      × (p.tt_pgs * grain_per_page / epp * epp ≡ p.tt_pgs * grain_per_page)
unfolding fill_params
table_of_disk capacity nparts p h e =
    let (_, _, _, r) = ssd_init_params-ok capacity nparts p e in
    let b = (ssd_init_params-IsAddressable capacity nparts p h e).blk_bits in
    rw r (table_fits _ (nand_channels / nparts) (rw r at b) (div-le_self 8 nparts))

-- In a fresh table a section that exists is taken once.
take_fresh :
    (tt_pgs dram_bytes hidx : ℕ)
    → let c = init_cache tt_pgs dram_bytes in
      idx_of hidx < c.nr_valid_tpages
      → (ht : HtSection) × (c' : Cache) × (cache_get_ht c hidx ≡ ok (ht, c'))
        × (ht.idx ≡ idx_of hidx)
        × (cache_hit ht ≡ false)
        × (cache_get_ht c' hidx ≡ stuck)
unfolding init_cache cache_get_ht cache_hit
take_fresh tt_pgs dram_bytes hidx h =
    let within : leb (u32 (u64 (tt_pgs * grain_per_page) / epp)) (idx_of hidx) ≡ false =
      ground arith in
    let same : (idx_of hidx == idx_of hidx) ≡ true = ground arith in
    let c = init_cache tt_pgs dram_bytes in
    let ht : HtSection = record (c.ht (idx_of hidx)) { outgoing = true } in
    let c' : Cache = record c { ht = update c.ht (idx_of hidx) ht } in
    (ht, c', simp within refl, refl, refl, simp (within, same) refl)

table_counts :
    (entries : ℕ)
    → entries < 2 ^ 31
    → (u32 (u64 entries) ≡ entries) × (u32 (u64 entries / epp) ≡ entries / epp)
table_counts entries h =
    let whole : u64 entries ≡ entries = omega arith in (omega arith, rw whole (omega arith))

-- On a disk of up to 512 GiB that `ssd_init_params` lays out, with less than 1 TiB of memory for the table, the
-- counts of the new table are exact and fit `int` numbers, and for every grain of the disk as a hash index
-- `cache_get_ht` takes the section of that index, which is not in memory, and which a second call waits
-- for.
pub init_cache-sections :
    (capacity nparts : ℕ) (p : SsdParams) (dram_bytes hidx : ℕ)
    → capacity ≤ 2 ^ 39
    → ssd_init_params capacity nparts ≡ ok p
    → dram_bytes < 2 ^ 40
    → hidx < p.tt_pgs * grain_per_page
    → let c = init_cache p.tt_pgs dram_bytes in
      (c.nr_valid_tentries < 2 ^ 31)
      × (c.nr_valid_tentries ≡ p.tt_pgs * grain_per_page)
      × (c.nr_valid_tpages * epp ≡ c.nr_valid_tentries)
      × (c.max_cached_tentries < 2 ^ 31)
      × (c.max_cached_tentries ≡ dram_bytes / grained_unit)
      × ((ht : HtSection) × (c' : Cache) × (cache_get_ht c hidx ≡ ok (ht, c'))
          × (ht.idx ≡ idx_of hidx)
          × (cache_hit ht ≡ false)
          × (cache_get_ht c' hidx ≡ stuck))
unfolding init_cache
init_cache-sections capacity nparts p dram_bytes hidx h e dram k =
    let (fits, whole) = table_of_disk capacity nparts p h e in
    let (entries, tpages) = table_counts (p.tt_pgs * grain_per_page) fits in
    (
      rw entries fits,
      entries,
      rw (entries, tpages) whole,
      omega arith,
      omega arith,
      take_fresh p.tt_pgs dram_bytes hidx (rw tpages (omega arith)),
    )

in_memory_iff :
    (mappings : Option (ℕ → ℕ)) (hidx : ℕ)
    → (in_memory mappings ≡ true)
      ↔ ((pos : ℕ) × (grain : ℕ) × (read_mapping mappings hidx ≡ ok (pos, grain)) × (pos < epp))
in_memory_iff none hidx = (λ h. cc, λ r. let (_, _, e, _) = r in cc)
in_memory_iff (some grains) hidx =
    (λ h. (offset hidx, grains (offset hidx), refl, omega (arith, bit_and_1023 hidx)), λ r. refl)

-- `cache_hit` tells exactly the sections from which `cache_hidx_to_grain` reads, and then it reads at an
-- offset below 1024.
cache_hit_iff :
    (ht : HtSection) (hidx : ℕ)
    → (cache_hit ht ≡ true)
      ↔ ((pos : ℕ) × (grain : ℕ) × (cache_hidx_to_grain ht hidx ≡ ok (pos, grain)) × (pos < epp))
unfolding cache_hit cache_hidx_to_grain
cache_hit_iff ht hidx = in_memory_iff ht.mappings hidx
