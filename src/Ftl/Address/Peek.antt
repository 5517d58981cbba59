-- ===== src/Ftl/Address/Peek.antt =====
-- `peek_next_page` (nvmevirt/demand_ftl.c) takes the steps of `Walk`.
use virtkv.Ftl.Address.Digits.{digit}
use virtkv.Ftl.Address.Walk.{
  NextPlace, step_end, place, wordline, same_line, back, next_page, next_channel, next_lun_of_line,
}
use virtkv.Ssd.Params.Bounds.{IsAddressable}
use virtkv.Ftl.Address.RoundTrip.{OnDisk}
use virtkv.Ssd.Ppa.{Ppa, page_bits, ch_bits, lun_bits, blk_bits}
use virtkv.Ssd.Params.Capacity.{IsGeometry}
use virtkv.Ftl.Address.{peek_next_page, Ppa, page_bits, ch_bits, lun_bits, blk_bits}
use virtkv.Ssd.Params.{SsdParams}
use native.Mathlib.Nat.{div-eq_of_lt, mod-eq_of_lt}
use virtkv.Common.{
  ℕ, ◌+◌, ◌<◌, ◌%◌, ◌≡◌, ◌^◌, ◌≢◌, ok, arith, ◌*◌, ◌/◌, ap, sym, refl, ◌∙◌, inr, ◌-◌, ◌==◌, false,
  true, ltb, ℕ_discrete,
}

module _ (spp : SsdParams) (g : IsGeometry spp) where
  -- The first LUN and channel of the next wordline.
  pub next_wordline_of_line :
      (p : Ppa)
      → OnDisk spp p
      → (p.pg + 1) % spp.pgs_per_oneshotpg ≡ 0
      → p.ch + 1 ≡ spp.nchs
      → p.lun + 1 ≡ spp.luns_per_ch
      → p.pg + 1 ≢ spp.pgs_per_blk
      → NextPlace spp p (record p { pg = p.pg + 1; ch = 0; lun = 0 })
  next_wordline_of_line p o z c l ne =
      let (last, whole) = step_end spp.pgs_per_oneshotpg p.pg (wordline spp g p o) z in
      let e : p.pg + 1 ≡ spp.pgs_per_oneshotpg * (p.pg / spp.pgs_per_oneshotpg + 1) + 0 =
        omega (arith, whole) in
      let d =
        digit spp.pgs_per_oneshotpg (p.pg / spp.pgs_per_oneshotpg + 1) 0 (wordline spp g p o) in
      let w : (p.pg + 1) / spp.pgs_per_oneshotpg ≡ p.pg / spp.pgs_per_oneshotpg + 1 = rw e d.0 in
      same_line spp g p (record p { pg = p.pg + 1; ch = 0; lun = 0 }) o
        (record {
          ch_in = omega (arith, c);
          lun_in = omega (arith, l);
          pl_in = o.pl_in;
          blk_in = o.blk_in;
          pg_in = omega (arith, o.pg_in, ne);
          rsv_free = o.rsv_free;
        })
        refl
        (simp (w, z)
          (omega (
            arith,
            last,
            ap (λ (t : ℕ). t * spp.pgs_per_oneshotpg) c,
            ap (λ (t : ℕ). t * (spp.nchs * spp.pgs_per_oneshotpg)) l,
          )))

  -- The first page of the next line.
  pub next_line :
      (p : Ppa)
      → OnDisk spp p
      → (p.pg + 1) % spp.pgs_per_oneshotpg ≡ 0
      → p.ch + 1 ≡ spp.nchs
      → p.lun + 1 ≡ spp.luns_per_ch
      → p.pg + 1 ≡ spp.pgs_per_blk
      → NextPlace spp p (record p { pg = 0; ch = 0; lun = 0; blk = p.blk + 1 })
  next_line p o z c l e =
      let (last, whole) = step_end spp.pgs_per_oneshotpg p.pg (wordline spp g p o) z in
      record {
        within = record {
          ch_in = omega (arith, c);
          lun_in = omega (arith, l);
          pl_in = o.pl_in;
          blk_in = o.blk_in;
          pg_in = omega (arith, e);
          rsv_free = o.rsv_free;
        };
        steps = inr (refl, first (wordline spp g p o), full last whole);
      }
    where
      first :
          0 < spp.pgs_per_oneshotpg
          → place spp (record p { pg = 0; ch = 0; lun = 0; blk = p.blk + 1 }) ≡ 0
      first h =
          let q = div-eq_of_lt {n = 0} {m = spp.pgs_per_oneshotpg} h in
          let r = mod-eq_of_lt {n = 0} {m = spp.pgs_per_oneshotpg} h in simp (q, r) (omega arith)

      full :
          p.pg % spp.pgs_per_oneshotpg + 1 ≡ spp.pgs_per_oneshotpg
          → p.pg + 1
            ≡ spp.pgs_per_oneshotpg * (p.pg / spp.pgs_per_oneshotpg) + spp.pgs_per_oneshotpg
          → place spp p + 1 ≡ spp.pgs_per_line
      full last whole = omega (
        arith,
        last,
        g.line,
        ap (λ (t : ℕ). t * (spp.luns_per_ch * spp.nchs)) (sym e ∙ whole),
        ap (λ (t : ℕ). t * spp.pgs_per_oneshotpg) c,
        ap (λ (t : ℕ). t * (spp.nchs * spp.pgs_per_oneshotpg)) l,
      )

module _ (spp : SsdParams) (g : IsGeometry spp) (a : IsAddressable spp) (p : Ppa)
    (o : OnDisk spp p) where
  pg_fits : (p.pg + 1) % 2 ^ page_bits ≡ p.pg + 1
  pg_fits = omega (arith, o.pg_in, a.pg_bits)

  ch_fits : (p.ch + 1) % 2 ^ ch_bits ≡ p.ch + 1
  ch_fits = omega (arith, o.ch_in, a.ch_bits)

  lun_fits : (p.lun + 1) % 2 ^ lun_bits ≡ p.lun + 1
  lun_fits = omega (arith, o.lun_in, a.lun_bits)

  back_fits :
      (p.pg + 1) % spp.pgs_per_oneshotpg ≡ 0
      → (p.pg + 1 + 2 ^ page_bits - spp.pgs_per_oneshotpg) % 2 ^ page_bits ≡ back spp g p
  back_fits z =
      let whole = (step_end spp.pgs_per_oneshotpg p.pg (wordline spp g p o) z).1 in
      omega (arith, whole, o.pg_in, a.pg_bits)

  again_fits :
      (p.pg + 1) % spp.pgs_per_oneshotpg ≡ 0
      → (back spp g p + spp.pgs_per_oneshotpg) % 2 ^ page_bits ≡ p.pg + 1
  again_fits z =
      let whole = (step_end spp.pgs_per_oneshotpg p.pg (wordline spp g p o) z).1 in
      omega (arith, whole, o.pg_in, a.pg_bits)

  -- The branches of `peek_next_page`.
  pub peek_page :
      (p.pg + 1) % spp.pgs_per_oneshotpg ≢ 0
      → peek_next_page spp p ≡ ok (record p { pg = p.pg + 1 })
  unfolding peek_next_page
  peek_page ne =
      let t : ((p.pg + 1) % spp.pgs_per_oneshotpg == 0) ≡ false = ground arith in
      simp (pg_fits, t) refl

  pub peek_channel :
      (p.pg + 1) % spp.pgs_per_oneshotpg ≡ 0
      → p.ch + 1 ≢ spp.nchs
      → peek_next_page spp p ≡ ok (record p { pg = back spp g p; ch = p.ch + 1 })
  unfolding peek_next_page
  peek_channel z ne =
      let t : ((p.pg + 1) % spp.pgs_per_oneshotpg == 0) ≡ true = ground arith in
      let in_ch : ltb p.ch spp.nchs ≡ true = ground (arith, o.ch_in) in
      let u : (p.ch + 1 == spp.nchs) ≡ false = ground arith in
      simp (pg_fits, t, back_fits z, in_ch, ch_fits, u) refl

  pub peek_lun :
      (p.pg + 1) % spp.pgs_per_oneshotpg ≡ 0
      → p.ch + 1 ≡ spp.nchs
      → p.lun + 1 ≢ spp.luns_per_ch
      → peek_next_page spp p ≡ ok (record p { pg = back spp g p; ch = 0; lun = p.lun + 1 })
  unfolding peek_next_page
  peek_lun z c ne =
      let t : ((p.pg + 1) % spp.pgs_per_oneshotpg == 0) ≡ true = ground arith in
      let in_ch : ltb p.ch spp.nchs ≡ true = ground (arith, o.ch_in) in
      let u : (p.ch + 1 == spp.nchs) ≡ true = ground arith in
      let in_lun : ltb p.lun spp.luns_per_ch ≡ true = ground (arith, o.lun_in) in
      let v : (p.lun + 1 == spp.luns_per_ch) ≡ false = ground arith in
      simp (pg_fits, t, back_fits z, in_ch, ch_fits, u, in_lun, lun_fits, v) refl

  pub peek_wordline :
      (p.pg + 1) % spp.pgs_per_oneshotpg ≡ 0
      → p.ch + 1 ≡ spp.nchs
      → p.lun + 1 ≡ spp.luns_per_ch
      → p.pg + 1 ≢ spp.pgs_per_blk
      → peek_next_page spp p ≡ ok (record p { pg = p.pg + 1; ch = 0; lun = 0 })
  unfolding peek_next_page
  peek_wordline z c l ne =
      let t : ((p.pg + 1) % spp.pgs_per_oneshotpg == 0) ≡ true = ground arith in
      let in_ch : ltb p.ch spp.nchs ≡ true = ground (arith, o.ch_in) in
      let u : (p.ch + 1 == spp.nchs) ≡ true = ground arith in
      let in_lun : ltb p.lun spp.luns_per_ch ≡ true = ground (arith, o.lun_in) in
      let v : (p.lun + 1 == spp.luns_per_ch) ≡ true = ground arith in
      let w : (p.pg + 1 == spp.pgs_per_blk) ≡ false = ground arith in
      simp (pg_fits, t, back_fits z, in_ch, ch_fits, u, in_lun, lun_fits, v, again_fits z, w) refl

  peek_line :
      (p.pg + 1) % spp.pgs_per_oneshotpg ≡ 0
      → p.ch + 1 ≡ spp.nchs
      → p.lun + 1 ≡ spp.luns_per_ch
      → p.pg + 1 ≡ spp.pgs_per_blk
      → p.blk + 1 < 2 ^ 16
      → peek_next_page spp p ≡ ok (record p { pg = 0; ch = 0; lun = 0; blk = p.blk + 1 })
  unfolding peek_next_page
  peek_line z c l e h =
      let t : ((p.pg + 1) % spp.pgs_per_oneshotpg == 0) ≡ true = ground arith in
      let in_ch : ltb p.ch spp.nchs ≡ true = ground (arith, o.ch_in) in
      let u : (p.ch + 1 == spp.nchs) ≡ true = ground arith in
      let in_lun : ltb p.lun spp.luns_per_ch ≡ true = ground (arith, o.lun_in) in
      let v : (p.lun + 1 == spp.luns_per_ch) ≡ true = ground arith in
      let w : (p.pg + 1 == spp.pgs_per_blk) ≡ true = ground arith in
      let b : (p.blk + 1) % 2 ^ blk_bits ≡ p.blk + 1 = omega arith in
      simp (pg_fits, t, back_fits z, in_ch, ch_fits, u, in_lun, lun_fits, v, again_fits z, w, b)
        refl

-- In a geometry that fits, `peek_next_page` succeeds from every page of the disk and goes to the next place of its line, or
-- from the last place to the first one of the next line, as long as the number of the next block
-- fits its bit field of 16 bits.
pub peek_next_page-NextPlace :
    (spp : SsdParams) (p : Ppa)
    → IsGeometry spp
    → IsAddressable spp
    → OnDisk spp p
    → p.blk + 1 < 2 ^ 16
    → (q : Ppa) × (peek_next_page spp p ≡ ok q) × NextPlace spp p q
peek_next_page-NextPlace spp p g a o h = elim (ℕ_discrete ((p.pg + 1) % spp.pgs_per_oneshotpg) 0) [
  | no within ↦ (_, peek_page spp g a p o within, next_page spp g p o within)
  | yes z ↦ elim (ℕ_discrete (p.ch + 1) spp.nchs) [
    | no c ↦ (_, peek_channel spp g a p o z c, next_channel spp g p o z (omega (arith, o.ch_in)))
    | yes c ↦ elim (ℕ_discrete (p.lun + 1) spp.luns_per_ch) [
      | no l ↦
          (_, peek_lun spp g a p o z c l, next_lun_of_line spp g p o z c (omega (arith, o.lun_in)))
      | yes l ↦ elim (ℕ_discrete (p.pg + 1) spp.pgs_per_blk) [
        | no b ↦ (_, peek_wordline spp g a p o z c l b, next_wordline_of_line spp g p o z c l b)
        | yes b ↦ (_, peek_line spp g a p o z c l b h, next_line spp g p o z c l b)
      ]
    ]
  ]
]
