-- ===== src/Ssd/Nand/Init.antt =====
-- `ssd_init` (nvmevirt/ssd.c) as far as time goes: every LUN is free, every channel model new.
use virtkv.Ssd.Params.Capacity.{ssd_init_params-ok}
use virtkv.Ssd.Nand.Advance.{InLimits}
use virtkv.Ssd.Nand.Channels.{Timing}
use virtkv.Channel.Invariant.{IsValid, chmodel_init-IsValid}
use virtkv.Ssd.Nand.{Ssd, kb, NandCmd}
use virtkv.Channel.{ChannelModel, chmodel_init, unit_xfer_size}
use virtkv.Ssd.Params.{SsdParams, fill_params, kb, ssd_init_params}
use virtkv.Common.{ℕ, ◌≤◌, false, u32, ◌+◌, ◌*◌, ◌/◌, ◌≡◌, ok, ◌<◌, ◌^◌, arith, refl}

-- `ssd_init_ch`: a new channel model, with the firmware's part of the transfer latency.
pub ssd_init_ch : SsdParams → (ℕ → ℕ) → ChannelModel
ssd_init_ch spp garbage = record fresh {
  xfer_lat = u32 (fresh.xfer_lat + spp.fw_ch_xfer_lat * unit_xfer_size / kb 4);
}
  where
    fresh : ChannelModel
    fresh = chmodel_init spp.ch_bandwidth garbage

-- `ssd_init_pcie`.
pub ssd_init_pcie : SsdParams → (ℕ → ℕ) → ChannelModel
ssd_init_pcie spp garbage = chmodel_init spp.pcie_bandwidth garbage

-- `ssd_init`, in a memory whose content before is unknown, and with the clock to come. The locks
-- are static variables, free at first.
unfoldable pub ssd_init : SsdParams → (ℕ → ℕ → ℕ) → (ℕ → ℕ) → (ℕ → ℕ) → Ssd
ssd_init spp ch_garbage pcie_garbage clock = record {
  sp = spp;
  next_lun_avail_time = λ c l. 0;
  perf_model = λ c. ssd_init_ch spp (ch_garbage c);
  pcie = ssd_init_pcie spp pcie_garbage;
  spin = false;
  adv_spin = false;
  clock = clock;
}

init_ch-IsValid :
    (spp : SsdParams) (garbage : ℕ → ℕ)
    → 31 ≤ spp.ch_bandwidth
    → spp.ch_bandwidth ≤ 7812
    → IsValid (ssd_init_ch spp garbage)
unfolding ssd_init_ch
init_ch-IsValid spp garbage lo hi =
    let v = chmodel_init-IsValid spp.ch_bandwidth garbage lo hi in
    record {
      head_in = v.head_in;
      len_in = v.len_in;
      some_credits = v.some_credits;
      byte = v.byte;
      bounded = v.bounded;
      full = v.full;
    }

-- On the disk that `ssd_init_params` lays out, whatever the memory held, every channel and the PCIe
-- link start valid with their locks free, and every command on a page of the disk that starts before
-- 2 ^ 61 ns and transfers at most 1 MiB is within the limits of the timing model.
pub ssd_init-Timing :
    (capacity nparts : ℕ) (p : SsdParams) (ch_garbage : ℕ → ℕ → ℕ) (pcie_garbage clock : ℕ → ℕ)
    → ssd_init_params capacity nparts ≡ ok p
    → let s = ssd_init p ch_garbage pcie_garbage clock in
      Timing s
      × (s.adv_spin ≡ false)
      × ((ncmd : NandCmd) (start : ℕ)
          → ncmd.ppa.ch < p.nchs
          → ncmd.xfer_size ≤ 2 ^ 20
          → start < 2 ^ 61
          → InLimits s ncmd start)
unfolding ssd_init ssd_init_pcie fill_params
ssd_init-Timing capacity nparts p ch_garbage pcie_garbage clock e =
    let laid_out = (ssd_init_params-ok capacity nparts p e).3 in
    rw laid_out (
      record {
        channels = λ c h. init_ch-IsValid _ (ch_garbage c) (omega arith) (omega arith);
        link = chmodel_init-IsValid _ pcie_garbage (omega arith) (omega arith);
        unlocked = refl;
      },
      refl,
      λ ncmd start c n h. record {
        channel = c;
        chunk = omega arith;
        size = n;
        start_time = h;
        lun_time = omega arith;
        read_lat = λ cell. ground arith;
        write_lat = omega arith;
        erase_lat = omega arith;
      },
    )
