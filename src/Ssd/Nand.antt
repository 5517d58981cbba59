-- ===== src/Ssd/Nand.antt =====
-- `ssd_advance_pcie`, `ssd_advance_write_buffer`, `ssd_advance_nand` and `ssd_next_idle_time`
-- (nvmevirt/ssd.c): when the emulated flash, channels and PCIe link have done what they are asked.
pub mod Channels
pub mod Advance
pub mod Command
pub mod Idle
pub mod Init
use virtkv.Channel.{ChannelModel, chmodel_request}
use virtkv.Ssd.Ppa.{Ppa, mapped_ppa}
use virtkv.Ssd.Params.{SsdParams, kb}
use virtkv.Common.{
  ℕ, Bool, ◌+◌, Outcome, Option, suc, ◌/◌, if◌then◌else◌, u64, update, stuck, max, true, ◌%◌, ◌*◌,
  ok, min, ◌==◌, div_round_up, ◌>>=◌, some, ◌-◌, none, false, zero, ◌>>◌, nvmev_assert, not,
}

-- `struct ssd` as far as time goes: when each LUN is free again, by channel and LUN, the channel
-- models and the two spin locks. The clock is what its successive readings return.
pub record Ssd : Type 0 where
  pub sp : SsdParams
  pub next_lun_avail_time : ℕ → ℕ → ℕ
  pub perf_model : ℕ → ChannelModel
  pub pcie : ChannelModel
  pub spin : Bool
  pub adv_spin : Bool
  pub clock : ℕ → ℕ

abbrev pub nand_read : ℕ
nand_read = 0

abbrev pub nand_write : ℕ
nand_write = 1

abbrev pub nand_erase : ℕ
nand_erase = 2

abbrev pub nand_nop : ℕ
nand_nop = 3

-- `struct nand_cmd`, less `type`, which the model does not read.
pub record NandCmd : Type 0 where
  pub cmd : ℕ
  pub xfer_size : ℕ
  pub stime : ℕ
  pub interleave_pci_dma : Bool
  pub ppa : Ppa

-- One reading of the clock, by `__get_ioclock` or `__get_wallclock`.
abbrev pub tick : Ssd → Ssd
tick s = record s { clock = λ n. s.clock (n + 1) }

-- `get_cell`.
pub get_cell : SsdParams → Ppa → ℕ
get_cell spp ppa = ppa.pg / spp.pgs_per_flashpg % (spp.cell_mode + 1)

-- `chmodel_request(ch->perf_model, ...)` for the channel `c`.
pub channel_request : Ssd → ℕ → ℕ → ℕ → Outcome (ℕ × Ssd)
channel_request s c request_time length = do
  (t, ch) ← chmodel_request (s.perf_model c) (s.clock 0) request_time length
  ok (t, record (tick s) { perf_model = update s.perf_model c ch })

-- `ssd_advance_pcie`: the lock is free again when it returns.
pub ssd_advance_pcie : Ssd → ℕ → ℕ → Outcome (ℕ × Ssd)
ssd_advance_pcie s request_time length = if s.spin then stuck else do
  (t, ch) ← chmodel_request s.pcie (s.clock 0) request_time length
  ok (t, record (tick s) { pcie = ch })

pub ssd_advance_write_buffer : Ssd → ℕ → ℕ → Outcome (ℕ × Ssd)
ssd_advance_write_buffer s request_time length =
    ssd_advance_pcie s
      (u64 (request_time + s.sp.fw_wbuf_lat0 + s.sp.fw_wbuf_lat1 * div_round_up length (kb 4)))
      length

abbrev pub set_avail : Ssd → Ppa → ℕ → Ssd
set_avail s ppa t = record s {
  next_lun_avail_time =
      update s.next_lun_avail_time ppa.ch (update (s.next_lun_avail_time ppa.ch) ppa.lun t);
}

-- Inside that loop: the PCIe transfer may overlap with the one through the channel.
abbrev pub overlap_pci : Ssd → NandCmd → ℕ → ℕ → Outcome (ℕ × Ssd)
overlap_pci s ncmd chnl_etime xfer_size =
    if ncmd.interleave_pci_dma then ssd_advance_pcie s chnl_etime xfer_size else ok (chnl_etime, s)

-- The transfer loop of NAND_READ, from `chnl_stime` on: the end of the last transfer through the
-- channel, and of the last one of all.
pub read_rounds : ℕ → Ssd → NandCmd → ℕ → ℕ → ℕ → Outcome (ℕ × ℕ × Ssd)
read_rounds zero s ncmd chnl_stime completed remaining = stuck
read_rounds (suc fuel) s ncmd chnl_stime completed remaining =
    let xfer_size = min remaining s.sp.max_ch_xfer_size in
    let rest = channel_request s ncmd.ppa.ch chnl_stime xfer_size >>= λ r.
    overlap_pci r.1 ncmd r.0 xfer_size >>= λ q.
    read_rounds fuel q.1 ncmd r.0 q.0 (remaining - xfer_size) in
    if remaining == 0 then ok (chnl_stime, completed, s) else rest

-- The time at which the LUN starts.
abbrev pub lun_stime : Ssd → Ppa → ℕ → ℕ
lun_stime s ppa t = max (s.next_lun_avail_time ppa.ch ppa.lun) t

-- The sensing time of the command: the page's cell, and whether it is read by 4 KB.
pub read_latency : SsdParams → NandCmd → ℕ
read_latency spp ncmd =
    if ncmd.xfer_size == 4096
    then spp.pg_4kb_rd_lat (get_cell spp ncmd.ppa)
    else spp.pg_rd_lat (get_cell spp ncmd.ppa)

-- NAND_READ. With nothing to transfer, the times are read uninitialised.
pub advance_read : Ssd → NandCmd → ℕ → Outcome (ℕ × Ssd)
advance_read s ncmd cmd_stime = do
  let nand_stime = lun_stime s ncmd.ppa cmd_stime
  nvmev_assert (not (ncmd.xfer_size == 0))
  (chnl_etime, completed, s') ←
      read_rounds (suc ncmd.xfer_size) s ncmd (u64 (nand_stime + read_latency s.sp ncmd)) 0
        ncmd.xfer_size
  ok (completed, set_avail s' ncmd.ppa chnl_etime)

-- NAND_WRITE.
pub advance_write : Ssd → NandCmd → ℕ → Outcome (ℕ × Ssd)
advance_write s ncmd cmd_stime = do
  (chnl_etime, s') ← channel_request s ncmd.ppa.ch (lun_stime s ncmd.ppa cmd_stime) ncmd.xfer_size
  let nand_etime = u64 (chnl_etime + s.sp.pg_wr_lat)
  ok (nand_etime, set_avail s' ncmd.ppa nand_etime)

-- The `switch` of `ssd_advance_nand`; `none` is its default case.
pub dispatch : Ssd → NandCmd → ℕ → Option (Outcome (ℕ × Ssd))
dispatch s ncmd cmd_stime =
    if ncmd.cmd == nand_read
    then some (advance_read s ncmd cmd_stime)
    else if ncmd.cmd == nand_write
    then some (advance_write s ncmd cmd_stime)
    else if ncmd.cmd == nand_erase
    then some (ok (erased, set_avail s ncmd.ppa erased))
    else if ncmd.cmd == nand_nop
    then some (ok (idle, set_avail s ncmd.ppa idle))
    else none
  where
    idle : ℕ
    idle = lun_stime s ncmd.ppa cmd_stime

    erased : ℕ
    erased = u64 (idle + s.sp.blk_er_lat)

-- `unmapped` and the default case return before `spin_unlock(&adv_spin)`.
pub locked_advance : Ssd → NandCmd → ℕ → Outcome (ℕ × Ssd)
locked_advance s ncmd cmd_stime =
    if mapped_ppa ncmd.ppa
    then elim (dispatch s ncmd cmd_stime) [
      | none ↦ ok (0, s)
      | some run ↦ run >>= λ r. ok (r.0, record r.1 { adv_spin = false })
    ]
    else ok (cmd_stime, s)

pub ssd_advance_nand : Ssd → NandCmd → Outcome (ℕ × Ssd)
ssd_advance_nand s ncmd =
    if s.adv_spin
    then stuck
    else if ncmd.stime == 0
    then locked_advance (tick locked) ncmd (s.clock 0)
    else locked_advance locked ncmd ncmd.stime
  where
    locked : Ssd
    locked = record s { adv_spin = true }

-- `ssd_next_idle_time`: each loop takes the rounds left and its index.
latest_lun : (ℕ → ℕ) → ℕ → ℕ → ℕ → ℕ
latest_lun avail zero j latest = latest
latest_lun avail (suc n) j latest = latest_lun avail n (j + 1) (max latest (avail j))

latest_ch : (ℕ → ℕ → ℕ) → ℕ → ℕ → ℕ → ℕ → ℕ
latest_ch avail luns zero i latest = latest
latest_ch avail luns (suc n) i latest =
    latest_ch avail luns n (i + 1) (latest_lun (avail i) luns 0 latest)

pub ssd_next_idle_time : Ssd → ℕ
unfolding latest_lun latest_ch
ssd_next_idle_time s = latest_ch s.next_lun_avail_time s.sp.luns_per_ch s.sp.nchs 0 (s.clock 0)
