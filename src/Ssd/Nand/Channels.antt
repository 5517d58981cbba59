-- ===== src/Ssd/Nand/Channels.antt =====
-- The calls of the channel models by `ssd_advance_nand` (nvmevirt/ssd.c): they return, in time, and
-- leave the LUNs and the locks alone.
use virtkv.Ssd.Params.{kb}
use virtkv.Channel.Request.{chmodel_request-IsValid}
use virtkv.Channel.Invariant.{IsValid}
use virtkv.Ssd.Nand.{
  Ssd, channel_request, ssd_advance_pcie, ssd_advance_write_buffer, NandCmd, overlap_pci, kb, tick,
}
use virtkv.Common.{
  ℕ, ◌<◌, ◌≡◌, ◌≤◌, ◌+◌, ◌^◌, ◌*◌, false, ok, div_round_up, Bool-cases, inl, u64, update, inr,
  arith, ◌==◌, refl,
}

-- Every channel of the disk and the PCIe link are valid, and the link's lock is free.
pub record Timing (s : Ssd) : Type 0 where
  pub channels : (c : ℕ) → c < s.sp.nchs → IsValid (s.perf_model c)
  pub link : IsValid s.pcie
  pub unlocked : s.spin ≡ false

-- What a transfer leaves as it was.
pub record SameLuns (s s' : Ssd) : Type 0 where
  pub luns : s'.next_lun_avail_time ≡ s.next_lun_avail_time
  pub params : s'.sp ≡ s.sp
  pub lock : s'.adv_spin ≡ s.adv_spin

-- The outcome of a transfer that is asked for at `t`.
pub record Transferred (s : Ssd) (t t' : ℕ) (s' : Ssd) : Type 0 where
  pub timing : Timing s'
  pub same : SameLuns s s'
  pub after : t ≤ t'
  pub soon : t' ≤ t + 2 ^ 33

pub channel_request-Transferred :
    (s : Ssd) (c t length : ℕ)
    → Timing s
    → c < s.sp.nchs
    → t < 2 ^ 63
    → (t' : ℕ) × (s' : Ssd) × (channel_request s c t length ≡ ok (t', s')) × Transferred s t t' s'
unfolding channel_request
channel_request-Transferred s c t length v h b =
    let (t', ch, e, ok_ch, lo, hi) =
      chmodel_request-IsValid (s.perf_model c) (s.clock 0) t length (v.channels c h) b in
    (
      t',
      record (tick s) { perf_model = update s.perf_model c ch },
      rw e,
      record {
        timing = record {
          channels = λ i k. elim (Bool-cases (i == c)) [
            | inl here ↦ rw here ok_ch
            | inr other ↦ rw other (v.channels i k)
          ];
          link = v.link;
          unlocked = v.unlocked;
        };
        same = record { luns = refl; params = refl; lock = refl };
        after = lo;
        soon = hi;
      },
    )

pub pcie-Transferred :
    (s : Ssd) (t length : ℕ)
    → Timing s
    → t < 2 ^ 63
    → (t' : ℕ) × (s' : Ssd) × (ssd_advance_pcie s t length ≡ ok (t', s')) × Transferred s t t' s'
unfolding ssd_advance_pcie
pcie-Transferred s t length v b =
    let (t', ch, e, ok_ch, lo, hi) = chmodel_request-IsValid s.pcie (s.clock 0) t length v.link b in
    (
      t',
      record (tick s) { pcie = ch },
      rw (v.unlocked, e),
      record {
        timing = record { channels = v.channels; link = ok_ch; unlocked = v.unlocked };
        same = record { luns = refl; params = refl; lock = refl };
        after = lo;
        soon = hi;
      },
    )

pub overlap-Transferred :
    (s : Ssd) (ncmd : NandCmd) (t length : ℕ)
    → Timing s
    → t < 2 ^ 63
    → (t' : ℕ) × (s' : Ssd) × (overlap_pci s ncmd t length ≡ ok (t', s')) × Transferred s t t' s'
overlap-Transferred s ncmd t length v b = elim (Bool-cases ncmd.interleave_pci_dma) [
  | inl both ↦ rw both (pcie-Transferred s t length v b)
  | inr alone ↦ rw alone (
    t,
    s,
    refl,
    record {
      timing = v;
      same = record { luns = refl; params = refl; lock = refl };
      after = omega arith;
      soon = omega arith;
    },
  )
]

-- On a disk with valid channels and a free link, and as long as the times stay below 2 ^ 63 ns,
-- `ssd_advance_write_buffer` returns, leaves all this so and the LUNs as they were, after the firmware's time for the pages of the request.
write_buffer-Transferred :
    (s : Ssd) (t length : ℕ)
    → Timing s
    → t + s.sp.fw_wbuf_lat0 + s.sp.fw_wbuf_lat1 * div_round_up length (kb 4) < 2 ^ 63
    → (t' : ℕ) × (s' : Ssd) × (ssd_advance_write_buffer s t length ≡ ok (t', s'))
      × Transferred s (t + s.sp.fw_wbuf_lat0 + s.sp.fw_wbuf_lat1 * div_round_up length (kb 4)) t' s'
unfolding ssd_advance_write_buffer
write_buffer-Transferred s t length v b =
    let e : u64 (t + s.sp.fw_wbuf_lat0 + s.sp.fw_wbuf_lat1 * div_round_up length (kb 4))
        ≡ t + s.sp.fw_wbuf_lat0 + s.sp.fw_wbuf_lat1 * div_round_up length (kb 4) =
      omega arith in
    rw e (pcie-Transferred s _ length v b)
