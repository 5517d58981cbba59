-- ===== src/Ftl/Grains.antt =====
-- The marking of pages and grains, the advance of the write pointers and what garbage collection does to
-- lines (nvmevirt/demand_ftl.c). A function that holds a lock from beginning to end is one step.
pub mod Advance
pub mod Clean
pub mod Kept
pub mod Marks
pub mod Turns
pub mod Moves
pub mod Places
pub mod Pqueue
pub mod Relist
pub mod Rounds
pub mod Taken
pub mod Tests
pub mod Victim
use virtkv.Ftl.Address.{
  grain_per_page, grained_unit, g_idx, last_pg_in_line, peek_next_page, ppa2pgidx, ppa_to_pga,
  ppa_to_struct,
}
use virtkv.Ftl.Lines.{Line, LineMgmt, Writers, WritePointer, gc_map_io, map_io, get_next_free_line}
use virtkv.Ssd.Ppa.{Ppa}
use virtkv.Ssd.Params.{SsdParams}
use virtkv.Common.{
  ℕ, Bool, List, Option, Outcome, [], ◌∷◌, ◌++◌, ◌+◌, ◌-◌, ◌*◌, ◌%◌, ◌/◌, ◌^◌, ◌==◌, ◌&&◌, ◌||◌,
  not, true, false, none, some, ok, stuck, zero, suc, min, ltb, leb, u32, update, if◌then◌else◌,
  nvmev_assert, ◌>>◌, ◌>>=◌,
}

-- The status of a page (nvmevirt/ssd.h).
pub data PageStatus : Type 0 where
  pg_free pg_valid pg_invalid : PageStatus

abbrev pub is_valid : PageStatus → Bool
is_valid pg_valid = true
is_valid _ = false

abbrev pub is_free : PageStatus → Bool
is_free pg_free = true
is_free _ = false

-- `struct nand_block`, less its pages and its unused write pointer.
pub record Block : Type 0 where
  pub npgs : ℕ
  pub ipc : ℕ
  pub vpc : ℕ
  pub igc : ℕ
  pub vgc : ℕ
  pub erase_cnt : ℕ

-- The operations of the priority queue of victim lines, with a queue's state `Q`. They read and write the
-- lines through the callbacks of `init_lines`: the priority is `vgc`, the position is `pos`.
pub record PqueueOps (Q : Type 0) : Type 0 where
  pub insert : Q → (ℕ → Line) → ℕ → Q × (ℕ → Line)
  pub peek : Q → Option ℕ
  pub pop : Q → (ℕ → Line) → Q × (ℕ → Line)
  pub change_priority : Q → (ℕ → Line) → ℕ → ℕ → Q × (ℕ → Line)

-- The part of `struct demand_shard` that pages and lines are kept in, for ORIGINAL. Blocks and pages are
-- found by their coordinates, as by get_blk and get_pg.
pub record Shard (Q : Type 0) : Type 0 where
  pub writers : Writers
  pub victims : Q
  pub pages : Ppa → PageStatus
  pub blks : Ppa → Block
  pub grain_bitmap : ℕ → Bool

abbrev pub same_blk : Ppa → Ppa → Bool
same_blk a b = a.ch == b.ch && a.lun == b.lun && a.pl == b.pl && a.blk == b.blk

abbrev pub same_pg : Ppa → Ppa → Bool
same_pg a b = same_blk a b && a.pg == b.pg

abbrev pub grains_per_line : SsdParams → ℕ
grains_per_line spp = spp.pgs_per_line * grain_per_page

abbrev pub grains_per_blk : SsdParams → ℕ
grains_per_blk spp = spp.pgs_per_blk * grain_per_page

abbrev pub is_map_io : ℕ → Bool
is_map_io io_type = io_type == map_io || io_type == gc_map_io

module _ {Q : Type 0} (pq : PqueueOps Q) (spp : SsdParams) where
  abbrev pub set_lm : Shard Q → LineMgmt → Shard Q
  set_lm s lm = record s { writers = record s.writers { lm = lm } }

  abbrev pub set_wp : Shard Q → ℕ → WritePointer → Shard Q
  set_wp s io_type wp = record s {
    writers = record s.writers { wps = update s.writers.wps io_type wp };
  }

  -- pqueue_insert(lm->victim_line_pq, line); lm->victim_line_cnt++;
  pub add_victim : Shard Q → ℕ → Shard Q
  add_victim s i =
      let lm = s.writers.lm in
      let (q, lines) = pq.insert s.victims lm.lines i in
      record (set_lm s
        (record lm { lines = lines; victim_line_cnt = u32 (lm.victim_line_cnt + 1) })) {
          victims = q;
        }

  -- The line that is used up goes to the full lines or to the victims.
  pub retire_line : Shard Q → ℕ → Outcome (Shard Q)
  unfolding add_victim
  retire_line s i =
      let lm = s.writers.lm in
      let line = lm.lines i in
      if line.igc == 0
      then (nvmev_assert (line.ipc == 0)
          >> ok (
              set_lm s (record lm {
                full_line_list = lm.full_line_list ++ (i ∷ []);
                full_line_cnt = u32 (lm.full_line_cnt + 1);
              })))
      else (nvmev_assert (ltb line.vgc (grains_per_line spp)) >> ok (add_victim s i))

  -- The next free line for a write pointer that stands at the begin of its line.
  pub start_line : Shard Q → ℕ → WritePointer → Outcome (Shard Q)
  unfolding get_next_free_line
  start_line s io_type wp = do
    nvmev_assert (ltb wp.blk spp.blks_per_pl)
    (i, lm) ← get_next_free_line s.writers.lm
    let mapped = record lm {
      lines = update lm.lines i (record (lm.lines i) { map_line = is_map_io io_type });
    }
    let blk = (mapped.lines i).id
    nvmev_assert (ltb blk spp.blks_per_pl)
    nvmev_assert (wp.pl == 0)
    ok (set_wp (set_lm s mapped) io_type (record wp { curline = i; blk = blk }))

  pub next_line : Shard Q → ℕ → WritePointer → Outcome (Shard Q)
  unfolding retire_line start_line
  next_line s io_type wp = do s' ← retire_line s wp.curline; start_line s' io_type wp

  -- The wordlines of a block, the LUNs of a channel, the channels.
  pub next_wordline : Shard Q → ℕ → WritePointer → Outcome (Shard Q)
  unfolding next_line
  next_wordline s io_type wp =
      let pg = wp.pg + spp.pgs_per_oneshotpg in
      if pg == spp.pgs_per_blk
      then next_line s io_type (record wp { pg = 0 })
      else ok (set_wp s io_type (record wp { pg = pg }))

  pub next_lun : Shard Q → ℕ → WritePointer → Outcome (Shard Q)
  unfolding next_wordline
  next_lun s io_type wp = do
    nvmev_assert (ltb wp.lun spp.luns_per_ch)
    if wp.lun + 1 == spp.luns_per_ch
        then next_wordline s io_type (record wp { lun = 0 })
        else ok (set_wp s io_type (record wp { lun = wp.lun + 1 }))

  pub next_ch : Shard Q → ℕ → WritePointer → Outcome (Shard Q)
  unfolding next_lun
  next_ch s io_type wp = do
    nvmev_assert (ltb wp.ch spp.nchs)
    if wp.ch + 1 == spp.nchs
        then next_lun s io_type (record wp { ch = 0 })
        else ok (set_wp s io_type (record wp { ch = wp.ch + 1 }))

  -- `advance_write_pointer`, less its counts of pages; it always returns true.
  pub advance_write_pointer : Shard Q → ℕ → Outcome (Shard Q)
  unfolding next_ch
  advance_write_pointer s io_type = do
    nvmev_assert (leb io_type gc_map_io)
    let wp = s.writers.wps io_type
    nvmev_assert (ltb wp.pg spp.pgs_per_blk)
    let pg = wp.pg + 1
    if pg % spp.pgs_per_oneshotpg == 0
        then next_ch s io_type (record wp { pg = pg - spp.pgs_per_oneshotpg })
        else ok (set_wp s io_type (record wp { pg = pg }))

  -- `get_new_page`.
  pub get_new_page : Shard Q → ℕ → Outcome Ppa
  get_new_page s io_type = do
    nvmev_assert (leb io_type gc_map_io)
    let wp = s.writers.wps io_type
    nvmev_assert (wp.pl % 2 ^ 8 == 0)
    ok (record {
      ch = wp.ch % 2 ^ 8;
      lun = wp.lun % 2 ^ 8;
      pl = wp.pl % 2 ^ 8;
      blk = wp.blk % 2 ^ 16;
      pg = wp.pg % 2 ^ 16;
      rsv = 0;
    })

  -- `mark_line_free`, for the line of a page in the block `i`.
  pub mark_line_free : Shard Q → ℕ → Shard Q
  mark_line_free s i =
      let lm = s.writers.lm in
      set_lm s (record lm {
        lines = update lm.lines i (record (lm.lines i) { ipc = 0; vpc = 0; igc = 0; vgc = 0 });
        free_line_list = lm.free_line_list ++ (i ∷ []);
        free_line_cnt = u32 (lm.free_line_cnt + 1);
      })
