-- ===== src/Ssd/Nand/Command.antt =====
-- `ssd_advance_nand` (nvmevirt/ssd.c) as a whole: start time, lock and switch.
use virtkv.Ssd.Ppa.{mapped_ppa}
use virtkv.Ssd.Nand.Advance.{InLimits, Progress, dispatch-Progress}
use virtkv.Ssd.Nand.Channels.{Timing}
use virtkv.Ssd.Nand.{Ssd, locked_advance, ssd_advance_nand, NandCmd, dispatch, mapped_ppa, tick}
use virtkv.Common.{
  ℕ, true, ◌≡◌, if◌then◌else◌, false, ◌==◌, ◌≤◌, ◌⊎◌, ◌<◌, ok, stuck, Bool-cases, inl, inr, arith,
  ◌+◌, refl, ◌∙◌,
}

-- The time at which the command starts: `stime`, or the clock if that is 0.
abbrev pub start_of : Ssd → NandCmd → ℕ
start_of s ncmd = if ncmd.stime == 0 then s.clock 0 else ncmd.stime

module _ (s : Ssd) (ncmd : NandCmd) (start : ℕ) (clock : ℕ → ℕ) where
  abbrev under_lock : Ssd
  under_lock = record s { adv_spin = true; clock = clock }

  under_lock-Timing : Timing s → Timing under_lock
  under_lock-Timing v = record { channels = v.channels; link = v.link; unlocked = v.unlocked }

  under_lock-InLimits : InLimits s ncmd start → InLimits under_lock ncmd start
  under_lock-InLimits b = record {
    channel = b.channel;
    chunk = b.chunk;
    size = b.size;
    start_time = b.start_time;
    lun_time = b.lun_time;
    read_lat = b.read_lat;
    write_lat = b.write_lat;
    erase_lat = b.erase_lat;
  }

  unlock-Progress :
      {t : ℕ} {s' : Ssd}
      → Progress under_lock ncmd start t s'
      → Progress s ncmd start t (record s' { adv_spin = false })
  unlock-Progress r = record {
    timing = record {
      channels = r.timing.channels;
      link = r.timing.link;
      unlocked = r.timing.unlocked;
    };
    completes = r.completes;
    busy = r.busy;
    others = r.others;
    params = r.params;
  }

  locked_advance-Progress :
      Timing s
      → InLimits s ncmd start
      → mapped_ppa ncmd.ppa ≡ true
      → ncmd.cmd ≤ 3
      → 0 < ncmd.xfer_size
      → (t : ℕ) × (s' : Ssd) × (locked_advance under_lock ncmd start ≡ ok (t, s'))
        × Progress s ncmd start t s'
        × (s'.adv_spin ≡ false)
  unfolding locked_advance
  locked_advance-Progress v b m known some_bytes =
      let (t, s', e, r) =
        dispatch-Progress under_lock ncmd start (under_lock-Timing v) (under_lock-InLimits b) known
          some_bytes in
      (t, record s' { adv_spin = false }, rw (m, e), unlock-Progress r, refl)

advance_at_clock :
    (s : Ssd) (ncmd : NandCmd)
    → s.adv_spin ≡ false
    → (ncmd.stime == 0) ≡ true
    → ssd_advance_nand s ncmd
      ≡ locked_advance (under_lock s ncmd 0 (λ n. s.clock (n + 1))) ncmd (s.clock 0)
unfolding ssd_advance_nand
advance_at_clock s ncmd unlocked now = simp (unlocked, now)

advance_at_stime :
    (s : Ssd) (ncmd : NandCmd)
    → s.adv_spin ≡ false
    → (ncmd.stime == 0) ≡ false
    → ssd_advance_nand s ncmd ≡ locked_advance (under_lock s ncmd 0 s.clock) ncmd ncmd.stime
unfolding ssd_advance_nand
advance_at_stime s ncmd unlocked given = simp (unlocked, given)

-- On a disk with valid channels and free locks, `ssd_advance_nand` on a read, write, erase or
-- no-operation of at least one byte on a mapped page returns: it completes no earlier than its
-- start and than the LUN was free, leaves the LUN busy until no earlier time, changes no other LUN
-- and no parameter, keeps the channel models valid, and gives its lock back. (At most 1 MiB is
-- transferred, and the times are below 2 ^ 61 ns.)
pub ssd_advance_nand-Progress :
    (s : Ssd) (ncmd : NandCmd)
    → Timing s
    → s.adv_spin ≡ false
    → InLimits s ncmd (start_of s ncmd)
    → mapped_ppa ncmd.ppa ≡ true
    → ncmd.cmd ≤ 3
    → 0 < ncmd.xfer_size
    → (t : ℕ) × (s' : Ssd) × (ssd_advance_nand s ncmd ≡ ok (t, s'))
      × Progress s ncmd (start_of s ncmd) t s'
      × (s'.adv_spin ≡ false)
ssd_advance_nand-Progress s ncmd v unlocked b m known some_bytes =
    elim (Bool-cases (ncmd.stime == 0)) [
      | inl now ↦
          let (t, s', e, r, free) =
            locked_advance-Progress s ncmd (s.clock 0) (λ n. s.clock (n + 1)) v (rw now at b) m
              known some_bytes in
          (t, s', advance_at_clock s ncmd unlocked now ∙ e, rw now r, free)
      | inr given ↦
          let (t, s', e, r, free) =
            locked_advance-Progress s ncmd ncmd.stime s.clock v (rw given at b) m known
              some_bytes in
          (t, s', advance_at_stime s ncmd unlocked given ∙ e, rw given r, free)
    ]

-- The disk as such a call leaves it.
abbrev left_locked : Ssd → NandCmd → Ssd
left_locked s ncmd =
    if ncmd.stime == 0 then tick (record s { adv_spin = true }) else record s { adv_spin = true }

-- On an unmapped page or an unknown command `ssd_advance_nand` returns with its lock held, so that the
-- next call, whatever it is, never returns.
pub ssd_advance_nand-leaks_lock :
    (s : Ssd) (ncmd next : NandCmd)
    → s.adv_spin ≡ false
    → ((mapped_ppa ncmd.ppa ≡ false) ⊎ (3 < ncmd.cmd))
    → (t : ℕ) × (s' : Ssd) × (ssd_advance_nand s ncmd ≡ ok (t, s'))
      × (ssd_advance_nand s' next ≡ stuck)
unfolding ssd_advance_nand locked_advance dispatch
ssd_advance_nand-leaks_lock s ncmd next unlocked (inl unmapped) =
    (start_of s ncmd, left_locked s ncmd, ground (arith, unmapped), ground arith)
ssd_advance_nand-leaks_lock s ncmd next unlocked (inr unknown) = (
  if mapped_ppa ncmd.ppa then 0 else start_of s ncmd,
  left_locked s ncmd,
  ground arith,
  ground arith,
)
