-- ===== src/Ftl/Grains/Marks.antt =====
-- The marking of pages and grains as valid and invalid (nvmevirt/demand_ftl.c), for ORIGINAL.
use virtkv.Ftl.Grains.{
  PqueueOps, Shard, pg_valid, is_valid, is_free, same_blk, same_pg, grains_per_line, grains_per_blk,
  set_lm, add_victim,
}
use virtkv.Ftl.Address.{
  grain_per_page, g_idx, last_pg_in_line, peek_next_page, ppa2pgidx, ppa_to_pga, ppa_to_struct,
}
use virtkv.Ssd.Ppa.{Ppa}
use virtkv.Ssd.Params.{SsdParams}
use virtkv.Common.{
  ℕ, Bool, List, Outcome, [], ◌∷◌, ◌+◌, ◌-◌, ◌%◌, ◌^◌, ◌==◌, ◌&&◌, ◌||◌, not, true, false, ok,
  stuck, zero, suc, min, ltb, leb, u32, update, if◌then◌else◌, nvmev_assert, ◌>>◌, ◌>>=◌,
}

-- list_del_init(&line->entry)
unfoldable pub erase : ℕ → List ℕ → List ℕ
erase i [] = []
erase i (x ∷ xs) = if x == i then xs else x ∷ erase i xs

module _ {Q : Type 0} (pq : PqueueOps Q) (spp : SsdParams) where
  -- `mark_page_valid`.
  pub mark_page_valid : Shard Q → Ppa → Outcome (Shard Q)
  mark_page_valid s ppa = do
    nvmev_assert (is_free (s.pages ppa))
    ok (record s { pages = λ p. if same_pg p ppa then pg_valid else s.pages p })

  -- `mark_grain_valid`.
  unfoldable mark_grain_valid : Shard Q → ℕ → ℕ → Outcome (Shard Q)
  mark_grain_valid s grain len = do
    ppa ← ppa_to_struct spp (g_idx grain)
    nvmev_assert (is_valid (s.pages ppa))
    let blk = s.blks ppa
    nvmev_assert (leb blk.vgc (grains_per_blk spp))
    let lm = s.writers.lm
    let line = lm.lines ppa.blk
    nvmev_assert (leb line.vgc (grains_per_line spp))
    nvmev_assert (not (s.grain_bitmap grain))
    ok
        (record (set_lm pq spp s
          (record lm { lines = update lm.lines ppa.blk (record line { vgc = line.vgc + len }) })) {
            blks = λ p. if same_blk p ppa then record blk { vgc = blk.vgc + len } else s.blks p;
            grain_bitmap = update s.grain_bitmap grain true;
          })

  -- What becomes of the line of invalid grains: at a line that has a position in the queue, the queue
  -- changes `vgc`.
  unfoldable pub take_grains : Shard Q → ℕ → ℕ → Shard Q
  take_grains s i len =
      let lm = s.writers.lm in
      let line = record (lm.lines i) { igc = (lm.lines i).igc + len } in
      let (q, lines) =
        if line.pos == 0
        then (s.victims, update lm.lines i (record line { vgc = line.vgc - len }))
        else pq.change_priority s.victims (update lm.lines i line) (line.vgc - len) i in
      record (set_lm pq spp s (record lm { lines = lines })) { victims = q }

  -- A line that was full goes from the full lines to the victims. It is taken out of the list that it is in.
  unfoldable pub leave_full : Shard Q → ℕ → Shard Q
  unfolding add_victim erase
  leave_full s i =
      let lm = s.writers.lm in
      add_victim pq spp
        (set_lm pq spp s (record lm {
          free_line_list = erase i lm.free_line_list;
          full_line_list = erase i lm.full_line_list;
          full_line_cnt = u32 (lm.full_line_cnt + 2 ^ 32 - 1);
        }))
        i

  -- The changes of a round, after its assertions.
  unfoldable pub settle : Shard Q → Ppa → (grain len : ℕ) → (was_full_line : Bool) → Shard Q
  unfolding take_grains leave_full
  settle s ppa grain len was =
      let blk = s.blks ppa in
      let taken = take_grains s ppa.blk len in
      let moved = if was then leave_full taken ppa.blk else taken in
      record moved {
        blks = λ p. if same_blk p ppa then record blk { igc = blk.igc + len } else s.blks p;
        grain_bitmap = update s.grain_bitmap grain false;
      }

  -- A round of `mark_grain_invalid`, with `len` grains in the page `ppa`. A negative `vgc` fails the last
  -- assertion on it. What an earlier round found of a full line is kept: `was_full_line` is not reset.
  unfoldable pub invalid_round :
      Shard Q → Ppa → (was_full_line : Bool) → ℕ → ℕ → Outcome (Bool × Shard Q)
  unfolding settle
  invalid_round s ppa was grain len = do
    nvmev_assert (ltb 0 len)
    nvmev_assert (is_valid (s.pages ppa))
    let blk = s.blks ppa
    nvmev_assert (ltb blk.igc (grains_per_blk spp))
    nvmev_assert (ltb 0 blk.vgc && leb blk.vgc (grains_per_blk spp))
    let line = s.writers.lm.lines ppa.blk
    nvmev_assert (ltb line.igc (grains_per_line spp))
    let full = leb (grains_per_line spp) line.vgc
    nvmev_assert (not full || line.igc == 0)
    nvmev_assert (leb len line.vgc && leb (line.vgc - len) (grains_per_line spp))
    nvmev_assert (s.grain_bitmap grain)
    ok (full || was, settle s ppa grain len (full || was))

  -- if(rem) { ... goto again; }
  unfoldable pub invalid_next :
      (Ppa → ℕ → Outcome (Shard Q)) → Shard Q → Ppa → ℕ → Outcome (Shard Q)
  invalid_next again s ppa zero = ok s
  invalid_next again s ppa (suc more) = do
    p ← peek_next_page spp ppa
    nvmev_assert (p.blk == (s.writers.lm.lines ppa.blk).id)
    page ← ppa2pgidx spp p
    again p (ppa_to_pga page 0)

  -- The rounds, with `rem` grains to go; `stuck` means that the fuel ran out.
  unfoldable pub invalid_rounds :
      ℕ → Shard Q → Ppa → (was_full_line : Bool) → ℕ → ℕ → Outcome (Shard Q)
  unfolding invalid_round invalid_next
  invalid_rounds zero s ppa was grain rem = stuck
  invalid_rounds (suc fuel) s ppa was grain rem = do
    let len = min rem (grain_per_page - grain % grain_per_page)
    (was', s') ← invalid_round s ppa was grain len
    invalid_next (λ p g. invalid_rounds fuel s' p was' g (rem - len)) s' ppa (rem - len)

  -- `mark_grain_invalid`. A round takes at least one grain.
  unfoldable pub mark_grain_invalid : Shard Q → ℕ → ℕ → Outcome (Shard Q)
  unfolding invalid_rounds
  mark_grain_invalid s grain len = do
    ppa ← ppa_to_struct spp (g_idx grain)
    nvmev_assert (leb len grain_per_page || not (last_pg_in_line spp ppa))
    invalid_rounds (suc len) s ppa false grain len

  -- `__grain2lineid`.
  unfoldable pub grain2lineid : Shard Q → ℕ → Outcome ℕ
  grain2lineid s grain = do p ← ppa_to_struct spp (g_idx grain); ok (s.writers.lm.lines p.blk).id
