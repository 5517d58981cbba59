-- ===== src/Ftl/Lines.antt =====
-- Free lines and write pointers of nvmevirt/demand_ftl.c and demand_ftl.h.
pub mod Fresh
use virtkv.Ssd.Params.{SsdParams}
use virtkv.Common.{
  ℕ, Bool, List, false, suc, Outcome, ◌+◌, u32, bug, leb, ◌>>◌, update, nvmev_assert, ◌∷◌, ◌++◌,
  ◌==◌, ok, ◌>>=◌, [], ◌^◌, ◌||◌, ◌-◌, zero,
}

-- `struct line`, less what the functions of this file do not set, and less its links: a list of lines is a list of their ids, which are their indexes.
pub record Line : Type 0 where
  pub id : ℕ
  pub ipc : ℕ
  pub vpc : ℕ
  pub vgc : ℕ
  pub igc : ℕ
  pub pos : ℕ
  pub map_line : Bool

-- `struct line_mgmt`, less its priority queue, which the functions of this file leave empty.
pub record LineMgmt : Type 0 where
  pub lines : ℕ → Line
  pub free_line_list : List ℕ
  pub full_line_list : List ℕ
  pub tt_lines : ℕ
  pub free_line_cnt : ℕ
  pub victim_line_cnt : ℕ
  pub full_line_cnt : ℕ

-- `struct write_pointer`, with the id of its line.
pub record WritePointer : Type 0 where
  pub curline : ℕ
  pub ch : ℕ
  pub lun : ℕ
  pub pg : ℕ
  pub blk : ℕ
  pub pl : ℕ

-- The part of `struct demand_shard` that writes go by: the write pointers, by I/O type.
pub record Writers : Type 0 where
  pub lm : LineMgmt
  pub wps : ℕ → WritePointer

abbrev pub user_io : ℕ
user_io = 0

abbrev pub gc_io : ℕ
gc_io = 1

abbrev pub map_io : ℕ
map_io = 2

abbrev pub gc_map_io : ℕ
gc_map_io = 3

abbrev pub fresh_line : ℕ → Line
fresh_line i = record { id = i; ipc = 0; vpc = 0; vgc = 0; igc = 0; pos = 0; map_line = false }

-- The loop of `init_lines`, with `n` lines to go from line `i` on.
pub add_lines : ℕ → ℕ → LineMgmt → LineMgmt
add_lines zero i lm = lm
add_lines (suc n) i lm = add_lines n (i + 1) (record lm {
  lines = update lm.lines i (fresh_line i);
  free_line_list = lm.free_line_list ++ (i ∷ []);
  free_line_cnt = u32 (lm.free_line_cnt + 1);
})

-- `init_lines`, on a line table whose content before is unknown.
pub init_lines : SsdParams → (ℕ → Line) → Outcome LineMgmt
unfolding add_lines
init_lines spp garbage = do
  let tt = u32 spp.blks_per_pl
  nvmev_assert (tt == spp.tt_lines)
  let lm = add_lines tt 0 (record {
    lines = garbage;
    free_line_list = [];
    full_line_list = [];
    tt_lines = tt;
    free_line_cnt = 0;
    victim_line_cnt = 0;
    full_line_cnt = 0;
  })
  nvmev_assert (lm.free_line_cnt == tt)
  ok lm

-- `get_next_free_line`; with none left it runs into BUG_ON.
unfoldable pub next_of : LineMgmt → List ℕ → Outcome (ℕ × LineMgmt)
next_of lm [] = bug
next_of lm (id ∷ rest) =
    ok
      (id, record lm { free_line_list = rest; free_line_cnt = u32 (lm.free_line_cnt + 2 ^ 32 - 1) })

unfoldable pub get_next_free_line : LineMgmt → Outcome (ℕ × LineMgmt)
unfolding next_of
get_next_free_line lm = next_of lm lm.free_line_list

-- The start of the line `id`.
abbrev pub start_of_line : ℕ → WritePointer
start_of_line id = record { curline = id; ch = 0; lun = 0; pg = 0; blk = id; pl = 0 }

-- `prepare_write_pointer`, with the assertion of `__get_wp` on the I/O type.
pub prepare_write_pointer : Writers → ℕ → Outcome Writers
unfolding get_next_free_line
prepare_write_pointer s io_type = do
  nvmev_assert (leb io_type gc_map_io)
  (id, lm) ← get_next_free_line s.lm
  let is_map = io_type == map_io || io_type == gc_map_io
  ok (record {
    lm = record lm { lines = update lm.lines id (record (lm.lines id) { map_line = is_map }) };
    wps = update s.wps io_type (start_of_line id);
  })
