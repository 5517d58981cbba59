-- ===== src/Ftl/Grains/Kept.antt =====
-- Making grains invalid keeps the lines (mark_grain_invalid of nvmevirt/demand_ftl.c).
use virtkv.Ftl.Grains.Marks.{invalid_round, invalid_next, invalid_rounds, mark_grain_invalid}
use virtkv.Ftl.Grains.Places.{Kept}
use virtkv.Ftl.Grains.Pqueue.{PqueueLaws}
use virtkv.Ftl.Grains.{PqueueOps, Shard, is_valid, grains_per_blk, grains_per_line}
use virtkv.Ftl.Address.{grain_per_page, g_idx, last_pg_in_line, ppa_to_struct}
use virtkv.Ssd.Ppa.{Ppa}
use virtkv.Ssd.Params.{SsdParams}
use virtkv.Common.{
  ℕ, List, ◌+◌, ◌-◌, ◌==◌, ◌≡◌, ◌≤◌, ◌<◌, ltb, arith, refl, true, false, Returns, then_Returns,
  bind_Returns, ok, leb, ◌%◌, ◌&&◌, ◌||◌, not, min,
}
use virtkv.Ftl.Grains.Taken.{Taken, settle-Kept, settle-Taken}

module _ {Q : Type 0} (pq : PqueueOps Q) (laws : PqueueLaws pq) (spp : SsdParams) where
  -- What mark_grain_invalid asserts of the page `ppa`, its block and its line, to take `len` grains there.
  pub record IsTakable (s : Shard Q) (ppa : Ppa) (grain len : ℕ) : Type 0 where
    pub some_grains : 0 < len
    pub page : is_valid (s.pages ppa) ≡ true
    pub blk_igc : (s.blks ppa).igc < grains_per_blk spp
    pub blk_vgc : (0 < (s.blks ppa).vgc) × ((s.blks ppa).vgc ≤ grains_per_blk spp)
    pub line_igc : (s.writers.lm.lines ppa.blk).igc < grains_per_line spp
    pub line_full :
        grains_per_line spp ≤ (s.writers.lm.lines ppa.blk).vgc
        → (s.writers.lm.lines ppa.blk).igc ≡ 0
    pub line_vgc : len ≤ (s.writers.lm.lines ppa.blk).vgc
    pub marked : s.grain_bitmap grain ≡ true

  -- The first round, which finds `was_full_line` unset.
  invalid_round-Kept :
      (s : Shard Q) (ppa : Ppa) (grain len : ℕ) (cleaned : List ℕ)
      → Kept pq laws spp cleaned s
      → IsTakable s ppa grain len
      → Returns
          (λ r. Kept pq laws spp cleaned r.1 × Taken pq laws spp s ppa len r.1)
          (invalid_round pq spp s ppa false grain len)
  unfolding invalid_round
  invalid_round-Kept s ppa grain len cleaned h t =
      let blk = s.blks ppa in
      let line = s.writers.lm.lines ppa.blk in
      let full = leb (grains_per_line spp) line.vgc in
      let igc = t.blk_igc in
      let vgc = t.blk_vgc in
      let room = t.line_igc in
      let clean = t.line_full in
      let left = t.line_vgc in
      let most = h.bounded ppa.blk in
      let some = t.some_grains in
      then_Returns (ltb 0 len) (ground arith) (
        then_Returns (is_valid (s.pages ppa)) t.page (
          then_Returns (ltb blk.igc (grains_per_blk spp)) (ground arith) (
            then_Returns (ltb 0 blk.vgc && leb blk.vgc (grains_per_blk spp)) (ground arith) (
              then_Returns (ltb line.igc (grains_per_line spp)) (ground arith) (
                then_Returns (not full || line.igc == 0) (ground arith) (
                  then_Returns (leb len line.vgc && leb (line.vgc - len) (grains_per_line spp))
                    (ground arith)
                    (then_Returns (s.grain_bitmap grain) t.marked (
                      _,
                      refl,
                      (
                        settle-Kept pq laws spp s ppa grain len (full || false) cleaned h some
                            (omega (arith, room)) (λ t. h.listed ppa.blk (ground arith))
                            (λ f. ground arith),
                        settle-Taken pq laws spp s ppa grain len (full || false)
                            (λ all. ground arith),
                      ),
                    ))))))))

  -- Where the lines are kept and the assertions on the page hold, mark_grain_invalid on grains that lie within a page returns, and the lines are kept. The line has lost the grains, and it is in the queue if all its grains were valid before.
  pub mark_grain_invalid-Kept :
      (s : Shard Q) (grain len : ℕ) (ppa : Ppa) (cleaned : List ℕ)
      → Kept pq laws spp cleaned s
      → ppa_to_struct spp (g_idx grain) ≡ ok ppa
      → grain % grain_per_page + len ≤ grain_per_page
      → IsTakable s ppa grain len
      → Returns
          (λ s'. Kept pq laws spp cleaned s' × Taken pq laws spp s ppa len s')
          (mark_grain_invalid pq spp s grain len)
  unfolding mark_grain_invalid invalid_rounds invalid_next
  mark_grain_invalid-Kept s grain len ppa cleaned h at within t =
      let all : min len (grain_per_page - grain % grain_per_page) ≡ len = omega (arith, within) in
      let none : len - len ≡ 0 = omega arith in
      rw at (
        then_Returns (leb len grain_per_page || not (last_pg_in_line spp ppa)) (ground arith) (
          rw (all, none)
            (bind_Returns (invalid_round-Kept s ppa grain len cleaned h t) (λ r k. (_, refl, k)))))
