-- ===== src/Ftl/Grains/Advance.antt =====
-- A write pointer goes through its line in the order of peek_next_page (advance_write_pointer of
-- nvmevirt/demand_ftl.c).
use virtkv.Ftl.Address.Walk.{place, step_end, wordline}
use virtkv.Ftl.Address.Peek.{peek_page, peek_channel, peek_lun, peek_wordline, next_line}
use virtkv.Ftl.Address.RoundTrip.{OnDisk}
use virtkv.Ftl.Address.{peek_next_page}
use virtkv.Ftl.Lines.{WritePointer, gc_map_io}
use virtkv.Ftl.Grains.{
  PqueueOps, Shard, set_wp, advance_write_pointer, get_new_page, next_ch, next_lun, next_wordline,
}
use virtkv.Ssd.Params.Bounds.{IsAddressable}
use virtkv.Ssd.Params.Capacity.{IsGeometry}
use virtkv.Ssd.Params.{SsdParams}
use virtkv.Ssd.Ppa.{Ppa}
use virtkv.Common.{
  ℕ, ◌+◌, ◌-◌, ◌%◌, ◌<◌, ◌≤◌, ◌≡◌, ◌≢◌, ◌==◌, ok, refl, arith, true, false, leb, ltb, ◌^◌,
  ℕ_discrete,
}

-- The page that a write pointer stands at.
abbrev pub address : WritePointer → Ppa
address wp = record { ch = wp.ch; lun = wp.lun; pg = wp.pg; blk = wp.blk; pl = wp.pl; rsv = 0 }

module _ {Q : Type 0} (pq : PqueueOps Q) (spp : SsdParams) (g : IsGeometry spp)
    (a : IsAddressable spp) where
  module _ (s : Shard Q) (io_type : ℕ) (known : io_type ≤ 3)
      (o : OnDisk spp (address (s.writers.wps io_type))) where
    abbrev wp : WritePointer
    wp = s.writers.wps io_type

    abbrev Moved : WritePointer → Type 0
    Moved wp' =
        (advance_write_pointer pq spp s io_type ≡ ok (set_wp pq spp s io_type wp'))
        × (peek_next_page spp (address wp) ≡ ok (address wp'))
        × (wp'.curline ≡ wp.curline)

    type_known : leb io_type gc_map_io ≡ true
    type_known = ground arith

    page_in : ltb wp.pg spp.pgs_per_blk ≡ true
    page_in = let h = o.pg_in in ground arith

    ch_in : ltb wp.ch spp.nchs ≡ true
    ch_in = let h = o.ch_in in ground arith

    lun_in : ltb wp.lun spp.luns_per_ch ≡ true
    lun_in = let h = o.lun_in in ground arith

    to_page : (wp.pg + 1) % spp.pgs_per_oneshotpg ≢ 0 → Moved (record wp { pg = wp.pg + 1 })
    unfolding advance_write_pointer
    to_page ne =
        let t : ((wp.pg + 1) % spp.pgs_per_oneshotpg == 0) ≡ false = ground arith in
        (simp (type_known, page_in, t) refl, peek_page spp g a (address wp) o ne, refl)

    to_channel :
        (wp.pg + 1) % spp.pgs_per_oneshotpg ≡ 0
        → wp.ch + 1 ≢ spp.nchs
        → Moved (record wp { pg = wp.pg + 1 - spp.pgs_per_oneshotpg; ch = wp.ch + 1 })
    unfolding advance_write_pointer next_ch
    to_channel z ne =
        let t : ((wp.pg + 1) % spp.pgs_per_oneshotpg == 0) ≡ true = ground arith in
        let u : (wp.ch + 1 == spp.nchs) ≡ false = ground arith in
        (
          simp (type_known, page_in, t, ch_in, u) refl,
          peek_channel spp g a (address wp) o z ne,
          refl,
        )

    to_lun :
        (wp.pg + 1) % spp.pgs_per_oneshotpg ≡ 0
        → wp.ch + 1 ≡ spp.nchs
        → wp.lun + 1 ≢ spp.luns_per_ch
        → Moved (record wp { pg = wp.pg + 1 - spp.pgs_per_oneshotpg; ch = 0; lun = wp.lun + 1 })
    unfolding advance_write_pointer next_ch next_lun
    to_lun z c ne =
        let t : ((wp.pg + 1) % spp.pgs_per_oneshotpg == 0) ≡ true = ground arith in
        let u : (wp.ch + 1 == spp.nchs) ≡ true = ground arith in
        let v : (wp.lun + 1 == spp.luns_per_ch) ≡ false = ground arith in
        (
          simp (type_known, page_in, t, ch_in, u, lun_in, v) refl,
          peek_lun spp g a (address wp) o z c ne,
          refl,
        )

    to_wordline :
        (wp.pg + 1) % spp.pgs_per_oneshotpg ≡ 0
        → wp.ch + 1 ≡ spp.nchs
        → wp.lun + 1 ≡ spp.luns_per_ch
        → wp.pg + 1 ≢ spp.pgs_per_blk
        → Moved (record wp { pg = wp.pg + 1; ch = 0; lun = 0 })
    unfolding advance_write_pointer next_ch next_lun next_wordline
    to_wordline z c l ne =
        let t : ((wp.pg + 1) % spp.pgs_per_oneshotpg == 0) ≡ true = ground arith in
        let u : (wp.ch + 1 == spp.nchs) ≡ true = ground arith in
        let v : (wp.lun + 1 == spp.luns_per_ch) ≡ true = ground arith in
        let (last, whole) =
          step_end spp.pgs_per_oneshotpg wp.pg (wordline spp g (address wp) o) z in
        let again : wp.pg + 1 - spp.pgs_per_oneshotpg + spp.pgs_per_oneshotpg ≡ wp.pg + 1 =
          omega (arith, whole) in
        let w : (wp.pg + 1 == spp.pgs_per_blk) ≡ false = ground arith in
        (
          simp (type_known, page_in, t, ch_in, u, lun_in, v, again, w) refl,
          peek_wordline spp g a (address wp) o z c l ne,
          refl,
        )

    -- The page that is handed out is the one that the pointer stands at.
    page_of_pointer : wp.pl ≡ 0 → get_new_page pq spp s io_type ≡ ok (address wp)
    unfolding get_new_page
    page_of_pointer z =
        let plane : (wp.pl == 0) ≡ true = ground arith in
        let ch : wp.ch % 2 ^ 8 ≡ wp.ch = omega (arith, o.ch_in, a.ch_bits) in
        let lun : wp.lun % 2 ^ 8 ≡ wp.lun = omega (arith, o.lun_in, a.lun_bits) in
        let pl : wp.pl % 2 ^ 8 ≡ wp.pl = omega (arith, z) in
        let blk : wp.blk % 2 ^ 16 ≡ wp.blk = omega (arith, o.blk_in, a.blk_bits) in
        let pg : wp.pg % 2 ^ 16 ≡ wp.pg = omega (arith, o.pg_in, a.pg_bits) in
        simp (type_known, plane, ch, lun, pl, blk, pg) refl

    to_next : place spp (address wp) + 1 < spp.pgs_per_line → (wp' : WritePointer) × Moved wp'
    to_next room = elim (ℕ_discrete ((wp.pg + 1) % spp.pgs_per_oneshotpg) 0) [
      | no within ↦ (_, to_page within)
      | yes z ↦ elim (ℕ_discrete (wp.ch + 1) spp.nchs) [
        | no c ↦ (_, to_channel z c)
        | yes c ↦ elim (ℕ_discrete (wp.lun + 1) spp.luns_per_ch) [
          | no l ↦ (_, to_lun z c l)
          | yes l ↦ elim (ℕ_discrete (wp.pg + 1) spp.pgs_per_blk) [
            | no b ↦ (_, to_wordline z c l b)
            | yes b ↦ absurd (omega (arith, (next_line spp g (address wp) o z c l b).steps))
          ]
        ]
      ]
    ]

    -- Where the pointer of a known I/O type stands on a page of the disk, in the plane 0, that is not the last one of its line, get_new_page returns that page, and advance_write_pointer moves the pointer to the page that peek_next_page returns for it, in the same line, and changes nothing else.
    pub advance_write_pointer-peek :
        wp.pl ≡ 0
        → place spp (address wp) + 1 < spp.pgs_per_line
        → (get_new_page pq spp s io_type ≡ ok (address wp)) × ((wp' : WritePointer) × Moved wp')
    advance_write_pointer-peek z room = (page_of_pointer z, to_next room)
