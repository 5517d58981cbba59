-- ===== src/Ftl/Address/Walk.antt =====
-- The order of `peek_next_page` (nvmevirt/demand_ftl.c): it goes through the pages of a line one by
-- one, wordline by wordline, in each wordline LUN by LUN, in each LUN channel by channel, in each
-- channel page by page, and then to the next line.
use native.Mathlib.Nat.{div-add-mod, mod-lt}
use virtkv.Ftl.Address.Digits.{pos_left, quotient_lt, digit_bound, digit}
use virtkv.Ftl.Address.RoundTrip.{OnDisk}
use virtkv.Ssd.Params.Capacity.{IsGeometry}
use virtkv.Ssd.Ppa.{Ppa}
use virtkv.Ssd.Params.{SsdParams}
use virtkv.Common.{ℕ, ◌/◌, ◌*◌, ◌≡◌, ◌<◌, ◌+◌, ◌⊎◌, ◌%◌, ◌≢◌, dec_lt, arith, ap, inl, ◌-◌, refl}

-- The place of a page in the order in which its line is written.
abbrev pub place : SsdParams → Ppa → ℕ
place spp p =
    ((p.pg / spp.pgs_per_oneshotpg * spp.luns_per_ch + p.lun) * spp.nchs + p.ch)
      * spp.pgs_per_oneshotpg
    + p.pg % spp.pgs_per_oneshotpg

-- One step from `p`: to the next place of its line, or to the first one of the next line.
pub record NextPlace (spp : SsdParams) (p q : Ppa) : Type 0 where
  pub within : OnDisk spp (record q { blk = p.blk })
  pub steps :
      ((q.blk ≡ p.blk) × (place spp q ≡ place spp p + 1) × (place spp p + 1 < spp.pgs_per_line))
      ⊎ ((q.blk ≡ p.blk + 1) × (place spp q ≡ 0) × (place spp p + 1 ≡ spp.pgs_per_line))

-- The two ways in which a page number goes on within a wordline of `o` pages.
step_within :
    (o pg : ℕ) → 0 < o → (pg + 1) % o ≢ 0 → ((pg + 1) / o ≡ pg / o) × ((pg + 1) % o ≡ pg % o + 1)
step_within o pg h ne = elim (dec_lt (pg % o + 1) o) [
  | yes lt ↦
      let e : pg + 1 ≡ o * (pg / o) + (pg % o + 1) = omega (arith, div-add-mod pg o) in
      rw e (digit o (pg / o) (pg % o + 1) lt)
  | no ge ↦ absurd (
      ne (
        let e : pg + 1 ≡ o * (pg / o + 1) + 0 = omega (arith, div-add-mod pg o, mod-lt pg h) in
        rw e (digit o (pg / o + 1) 0 h).1))
]

pub step_end :
    (o pg : ℕ) → 0 < o → (pg + 1) % o ≡ 0 → (pg % o + 1 ≡ o) × (pg + 1 ≡ o * (pg / o) + o)
step_end o pg h e =
    let last : pg % o + 1 ≡ o = elim (dec_lt (pg % o + 1) o) [
      | yes lt ↦
          let e' : pg + 1 ≡ o * (pg / o) + (pg % o + 1) = omega (arith, div-add-mod pg o) in
          absurd (omega (arith, e, ap (λ (t : ℕ). t % o) e', (digit o (pg / o) (pg % o + 1) lt).1))
      | no ge ↦ omega (arith, mod-lt pg h)
    ] in
    (last, omega (arith, last, div-add-mod pg o))

module _ (spp : SsdParams) (g : IsGeometry spp) where
  pub block : (p : Ppa) → OnDisk spp p → p.pg < spp.pgs_per_oneshotpg * spp.oneshotpgs_per_blk
  block p o = omega (arith, o.pg_in, g.blk)

  pub wordline : (p : Ppa) → OnDisk spp p → 0 < spp.pgs_per_oneshotpg
  wordline p o = pos_left spp.pgs_per_oneshotpg spp.oneshotpgs_per_blk (block p o)

  wordline_in : (p : Ppa) → OnDisk spp p → p.pg / spp.pgs_per_oneshotpg < spp.oneshotpgs_per_blk
  wordline_in p o = quotient_lt spp.pgs_per_oneshotpg spp.oneshotpgs_per_blk p.pg (block p o)

  -- A place of the line lies below its number of pages.
  pub place-lt : (p : Ppa) → OnDisk spp p → place spp p < spp.pgs_per_line
  place-lt p o =
      let b1 =
        digit_bound spp.luns_per_ch (p.pg / spp.pgs_per_oneshotpg) p.lun spp.oneshotpgs_per_blk
          o.lun_in (wordline_in p o) in
      let b2 = digit_bound spp.nchs _ p.ch _ o.ch_in b1 in
      let b3 =
        digit_bound spp.pgs_per_oneshotpg _ (p.pg % spp.pgs_per_oneshotpg) _
          (mod-lt p.pg (wordline p o)) b2 in
      simp (g.line, g.blk) (omega (arith, b3))

  pub same_line :
      (p q : Ppa)
      → OnDisk spp p
      → OnDisk spp q
      → q.blk ≡ p.blk
      → place spp q ≡ place spp p + 1
      → NextPlace spp p q
  same_line p q o oq e f = record {
    within = record {
      ch_in = oq.ch_in;
      lun_in = oq.lun_in;
      pl_in = oq.pl_in;
      blk_in = o.blk_in;
      pg_in = oq.pg_in;
      rsv_free = oq.rsv_free;
    };
    steps = inl (e, f, omega (arith, place-lt q oq, f));
  }

  -- The next page of the wordline.
  pub next_page :
      (p : Ppa)
      → OnDisk spp p
      → (p.pg + 1) % spp.pgs_per_oneshotpg ≢ 0
      → NextPlace spp p (record p { pg = p.pg + 1 })
  next_page p o ne =
      let (e, f) = step_within spp.pgs_per_oneshotpg p.pg (wordline p o) ne in
      let room =
        digit_bound spp.pgs_per_oneshotpg (p.pg / spp.pgs_per_oneshotpg)
          ((p.pg + 1) % spp.pgs_per_oneshotpg) spp.oneshotpgs_per_blk
          (mod-lt (p.pg + 1) (wordline p o)) (wordline_in p o) in
      same_line p (record p { pg = p.pg + 1 }) o
        (record {
          ch_in = o.ch_in;
          lun_in = o.lun_in;
          pl_in = o.pl_in;
          blk_in = o.blk_in;
          pg_in = omega (arith, room, g.blk, f, div-add-mod p.pg spp.pgs_per_oneshotpg);
          rsv_free = o.rsv_free;
        })
        refl (simp (e, f) (omega arith))

  -- The first page of the wordline of `p`.
  abbrev pub back : Ppa → ℕ
  back p = p.pg + 1 - spp.pgs_per_oneshotpg

  pub back_digits :
      (p : Ppa)
      → OnDisk spp p
      → (p.pg + 1) % spp.pgs_per_oneshotpg ≡ 0
      → (p.pg % spp.pgs_per_oneshotpg + 1 ≡ spp.pgs_per_oneshotpg)
        × (back p / spp.pgs_per_oneshotpg ≡ p.pg / spp.pgs_per_oneshotpg)
        × (back p % spp.pgs_per_oneshotpg ≡ 0)
        × (back p < spp.pgs_per_blk)
  back_digits p o z =
      let (last, whole) = step_end spp.pgs_per_oneshotpg p.pg (wordline p o) z in
      let e : back p ≡ spp.pgs_per_oneshotpg * (p.pg / spp.pgs_per_oneshotpg) + 0 =
        omega (arith, whole) in
      let d = digit spp.pgs_per_oneshotpg (p.pg / spp.pgs_per_oneshotpg) 0 (wordline p o) in
      (last, rw e d.0, rw e d.1, omega (arith, o.pg_in, wordline p o))

  -- The same pages of the next channel.
  pub next_channel :
      (p : Ppa)
      → OnDisk spp p
      → (p.pg + 1) % spp.pgs_per_oneshotpg ≡ 0
      → p.ch + 1 < spp.nchs
      → NextPlace spp p (record p { pg = back p; ch = p.ch + 1 })
  next_channel p o z lt =
      let (last, w, r, room) = back_digits p o z in
      same_line p (record p { pg = back p; ch = p.ch + 1 }) o
        (record {
          ch_in = lt;
          lun_in = o.lun_in;
          pl_in = o.pl_in;
          blk_in = o.blk_in;
          pg_in = room;
          rsv_free = o.rsv_free;
        })
        refl (simp (w, r) (omega (arith, last)))

  -- The first channel of the next LUN.
  pub next_lun_of_line :
      (p : Ppa)
      → OnDisk spp p
      → (p.pg + 1) % spp.pgs_per_oneshotpg ≡ 0
      → p.ch + 1 ≡ spp.nchs
      → p.lun + 1 < spp.luns_per_ch
      → NextPlace spp p (record p { pg = back p; ch = 0; lun = p.lun + 1 })
  next_lun_of_line p o z c lt =
      let (last, w, r, room) = back_digits p o z in
      same_line p (record p { pg = back p; ch = 0; lun = p.lun + 1 }) o
        (record {
          ch_in = omega (arith, c);
          lun_in = lt;
          pl_in = o.pl_in;
          blk_in = o.blk_in;
          pg_in = room;
          rsv_free = o.rsv_free;
        })
        refl (simp (w, r) (omega (arith, last, ap (λ (t : ℕ). t * spp.pgs_per_oneshotpg) c)))
