-- ===== src/Ftl/Address/RoundTrip.antt =====
-- `ppa2pgidx` and `ppa_to_struct` (nvmevirt/demand_ftl.c) are inverse to each other on the pages of
-- the disk.
use virtkv.Ftl.Address.Digits.{
  index, pos_left, index_of_digits, digit_bound, index_digits, quotient_lt, remainder_lt,
}
use virtkv.Ssd.Params.Bounds.{IsAddressable}
use virtkv.Ssd.Ppa.{Ppa}
use virtkv.Ssd.Params.Capacity.{IsGeometry}
use virtkv.Ftl.Address.{valid_ppa, Ppa, ppa2pgidx, ppa_to_struct}
use virtkv.Ssd.Params.{SsdParams}
use native.Mathlib.Nat.{mod-eq_of_lt, mul-le-mul_right}
use virtkv.Common.{ℕ, ◌<◌, ◌*◌, ◌+◌, ◌/◌, ◌≡◌, arith, ◌%◌, true, ◌↔◌, ok, ◌≤◌, ap, sym, ◌∙◌, refl}

module _ (spp : SsdParams) (g : IsGeometry spp) where
  pgs_per_lun-eq : spp.pgs_per_lun ≡ spp.pgs_per_blk * spp.blks_per_pl
  pgs_per_lun-eq = simp (g.lun, g.pl, g.one_plane) (omega arith)

  pgs_per_ch-eq : spp.pgs_per_ch ≡ spp.pgs_per_blk * spp.blks_per_pl * spp.luns_per_ch
  pgs_per_ch-eq = simp (g.ch, pgs_per_lun-eq)

  tt_pgs-eq : spp.tt_pgs ≡ spp.pgs_per_blk * spp.blks_per_pl * spp.luns_per_ch * spp.nchs
  tt_pgs-eq = simp (g.all, pgs_per_ch-eq)

-- A page of the disk: every coordinate within its count, and nothing in the reserved byte.
pub record OnDisk (spp : SsdParams) (a : Ppa) : Type 0 where
  pub ch_in : a.ch < spp.nchs
  pub lun_in : a.lun < spp.luns_per_ch
  pub pl_in : a.pl < spp.pls_per_lun
  pub blk_in : a.blk < spp.blks_per_pl
  pub pg_in : a.pg < spp.pgs_per_blk
  pub rsv_free : a.rsv ≡ 0

-- On addresses with 0 in the reserved byte `valid_ppa` tells whether every coordinate is on the disk.
valid_ppa_iff : (spp : SsdParams) (a : Ppa) → a.rsv ≡ 0 → (valid_ppa spp a ≡ true) ↔ OnDisk spp a
unfolding valid_ppa
valid_ppa_iff spp a e =
    (λ h. ground arith, λ o. ground (arith, o.ch_in, o.lun_in, o.pl_in, o.blk_in, o.pg_in))

module _ (spp : SsdParams) (g : IsGeometry spp) (a : IsAddressable spp) where
  pgidx-lt :
      (ppa : Ppa)
      → OnDisk spp ppa
      → index spp.pgs_per_blk spp.blks_per_pl spp.luns_per_ch ppa.ch ppa.lun ppa.blk ppa.pg
        < spp.tt_pgs
  pgidx-lt ppa o =
      let r2 = digit_bound spp.pgs_per_blk ppa.blk ppa.pg spp.blks_per_pl o.pg_in o.blk_in in
      let r1 =
        digit_bound (spp.pgs_per_blk * spp.blks_per_pl) ppa.lun _ spp.luns_per_ch r2 o.lun_in in
      let r0 =
        digit_bound (spp.pgs_per_blk * spp.blks_per_pl * spp.luns_per_ch) ppa.ch _ spp.nchs r1
          o.ch_in in
      omega (arith, r0, tt_pgs-eq spp g)

  pgidx-eq :
      (ppa : Ppa)
      → OnDisk spp ppa
      → ppa.ch * spp.pgs_per_ch
          + ppa.lun * spp.pgs_per_lun
          + ppa.pl * spp.pgs_per_pl
          + ppa.blk * spp.pgs_per_blk
          + ppa.pg
        ≡ index spp.pgs_per_blk spp.blks_per_pl spp.luns_per_ch ppa.ch ppa.lun ppa.blk ppa.pg
  pgidx-eq ppa o = simp (pgs_per_ch-eq spp g, pgs_per_lun-eq spp g, plane_zero ppa o) (omega arith)
    where
      plane_zero : (ppa : Ppa) → OnDisk spp ppa → ppa.pl ≡ 0
      plane_zero ppa o = omega (arith, o.pl_in, g.one_plane)

  pub ppa2pgidx-index :
      (ppa : Ppa)
      → OnDisk spp ppa
      → ppa2pgidx spp ppa
        ≡ ok (index spp.pgs_per_blk spp.blks_per_pl spp.luns_per_ch ppa.ch ppa.lun ppa.blk ppa.pg)
  unfolding ppa2pgidx
  ppa2pgidx-index ppa o = ground (arith, pgidx-eq ppa o, pgidx-lt ppa o, a.pages)

  -- A channel number is below the pages of a channel, where `ppa_to_struct` takes its remainder.
  ch-lt-pgs_per_ch : (ppa : Ppa) → OnDisk spp ppa → ppa.ch < spp.pgs_per_ch
  ch-lt-pgs_per_ch ppa o =
      let blocks : 1 ≤ spp.blks_per_pl = omega (arith, o.blk_in) in
      let all : 1 * (spp.luns_per_ch * spp.pgs_per_blk)
          ≤ spp.blks_per_pl * (spp.luns_per_ch * spp.pgs_per_blk) =
        mul-le-mul_right (spp.luns_per_ch * spp.pgs_per_blk) blocks in
      omega (arith, all, o.ch_in, a.few_chs, pgs_per_ch-eq spp g)

  same_page :
      (ppa : Ppa)
      → OnDisk spp ppa
      → ppa_to_struct spp
          (index spp.pgs_per_blk spp.blks_per_pl spp.luns_per_ch ppa.ch ppa.lun ppa.blk ppa.pg)
        ≡ ok ppa
  unfolding ppa_to_struct
  same_page ppa o =
      let (d0, d1, d2, d3) =
        index_digits spp.pgs_per_blk spp.blks_per_pl spp.luns_per_ch ppa.ch ppa.lun ppa.blk ppa.pg
          o.pg_in o.blk_in o.lun_in in
      let ch_mod : ppa.ch % (spp.pgs_per_blk * spp.blks_per_pl * spp.luns_per_ch) ≡ ppa.ch =
        mod-eq_of_lt (omega (arith, ch-lt-pgs_per_ch ppa o, pgs_per_ch-eq spp g)) in
      simp (pgs_per_ch-eq spp g, pgs_per_lun-eq spp g, d0, d1, d2, d3, ch_mod)
        (ground (arith, pgidx-lt ppa o, a.ch_bits, a.lun_bits, a.blk_bits, a.pg_bits, g.one_plane))

-- In a geometry that fits, the index of a page of the disk is a page number of the disk, and stands for that page.
pub ppa_to_struct-ppa2pgidx :
    (spp : SsdParams) (ppa : Ppa)
    → IsGeometry spp
    → IsAddressable spp
    → OnDisk spp ppa
    → (i : ℕ) × (ppa2pgidx spp ppa ≡ ok i) × (i < spp.tt_pgs) × (ppa_to_struct spp i ≡ ok ppa)
ppa_to_struct-ppa2pgidx spp ppa g a o = (
  index spp.pgs_per_blk spp.blks_per_pl spp.luns_per_ch ppa.ch ppa.lun ppa.blk ppa.pg,
  ppa2pgidx-index spp g a ppa o,
  pgidx-lt spp g a ppa o,
  same_page spp g a ppa o,
)

-- The coordinates of a page number.
abbrev page_of : SsdParams → ℕ → Ppa
page_of spp i =
    let p = spp.pgs_per_blk in
    let l = p * spp.blks_per_pl in
    let c = l * spp.luns_per_ch in
    record { ch = i / c; lun = i % c / l; pl = 0; blk = i % l / p; pg = i % p; rsv = 0 }

page_of-OnDisk :
    (spp : SsdParams) (i : ℕ) → IsGeometry spp → i < spp.tt_pgs → OnDisk spp (page_of spp i)
page_of-OnDisk spp i g h = record {
  ch_in = quotient_lt (l * u) n i all;
  lun_in = quotient_lt l u (i % (l * u)) (remainder_lt (l * u) n i all);
  pl_in = omega (arith, g.one_plane);
  blk_in = quotient_lt p b (i % l) (remainder_lt l u i rest);
  pg_in = remainder_lt p b i block;
  rsv_free = refl;
}
  where
    open spp use {pgs_per_blk as p, blks_per_pl as b, luns_per_ch as u, nchs as n}

    l : ℕ
    l = p * b

    all : i < l * u * n
    all = rw (tt_pgs-eq spp g) at h

    rest : 0 < l * u
    rest = pos_left (l * u) n all

    block : 0 < l
    block = pos_left l u rest

-- In a geometry that fits, every page number of the disk stands for a page of the disk, whose index is that number.
pub ppa2pgidx-ppa_to_struct :
    (spp : SsdParams) (i : ℕ)
    → IsGeometry spp
    → IsAddressable spp
    → i < spp.tt_pgs
    → (ppa : Ppa) × (ppa_to_struct spp i ≡ ok ppa) × OnDisk spp ppa × (ppa2pgidx spp ppa ≡ ok i)
ppa2pgidx-ppa_to_struct spp i g a h =
    let o = page_of-OnDisk spp i g h in
    let e = index_of_digits spp.pgs_per_blk spp.blks_per_pl spp.luns_per_ch i in
    (
      page_of spp i,
      ap (ppa_to_struct spp) (sym e) ∙ same_page spp g a (page_of spp i) o,
      o,
      ppa2pgidx-index spp g a (page_of spp i) o ∙ ap ok e,
    )
