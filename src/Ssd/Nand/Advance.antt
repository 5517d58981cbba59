-- ===== src/Ssd/Nand/Advance.antt =====
-- `ssd_advance_nand` (nvmevirt/ssd.c): every branch of its switch, and its lock.
use virtkv.Ssd.Nand.Channels.{Timing, SameLuns, channel_request-Transferred, overlap-Transferred}
use virtkv.Ssd.Nand.{
  Ssd, read_rounds, NandCmd, lun_stime, advance_write, advance_read, set_avail, read_latency,
  get_cell, dispatch, nand_read, nand_write, nand_erase, nand_nop,
}
use virtkv.Common.{
  ℕ, ◌≤◌, ◌∙◌, ◌<◌, ◌+◌, ◌*◌, ◌^◌, ◌≡◌, ◌⊎◌, ok, arith, suc, Bool-cases, ◌==◌, inl, ==_iff, inr,
  min, ◌-◌, zero, refl, ◌≢◌, u64, false, some, true,
}

-- The transfer loop: `fuel` rounds are enough for `fuel - 1` bytes, and each takes less than nine
-- seconds.
pub record Rounds (s : Ssd) (t done n : ℕ) (t' done' : ℕ) (s' : Ssd) : Type 0 where
  pub timing : Timing s'
  pub same : SameLuns s s'
  pub after : t ≤ t'
  pub soon : t' ≤ t + n * 2 ^ 33
  pub done_after : ((n ≡ 0) × (done' ≡ done)) ⊎ (t ≤ done')

SameLuns-trans : {a b c : Ssd} → SameLuns a b → SameLuns b c → SameLuns a c
SameLuns-trans p q = record {
  luns = q.luns ∙ p.luns;
  params = q.params ∙ p.params;
  lock = q.lock ∙ p.lock;
}

read_rounds-Rounds :
    (fuel : ℕ) (s : Ssd) (ncmd : NandCmd) (t done n : ℕ)
    → Timing s
    → ncmd.ppa.ch < s.sp.nchs
    → 0 < s.sp.max_ch_xfer_size
    → n < fuel
    → t + n * 2 ^ 34 < 2 ^ 63
    → (t' : ℕ) × (done' : ℕ) × (s' : Ssd) × (read_rounds fuel s ncmd t done n ≡ ok (t', done', s'))
      × Rounds s t done n t' done' s'
unfolding read_rounds
read_rounds-Rounds zero s ncmd t done n v c x f b = absurd (omega arith)
read_rounds-Rounds (suc fuel) s ncmd t done n v c x f b = elim (Bool-cases (n == 0)) [
  | inl none_left ↦ (
    t,
    done,
    s,
    rw none_left,
    record {
      timing = v;
      same = record { luns = refl; params = refl; lock = refl };
      after = omega arith;
      soon = omega arith;
      done_after = inl ((==_iff n 0).0 none_left, refl);
    },
  )
  | inr more ↦
      let some_left : 0 < n = ground arith in
      let size = min n s.sp.max_ch_xfer_size in
      let (t1, s1, e1, r1) = channel_request-Transferred s ncmd.ppa.ch t size v c (omega arith) in
      let (t2, s2, e2, r2) =
        overlap-Transferred s1 ncmd t1 size r1.timing (omega (arith, r1.soon)) in
      let same = SameLuns-trans {a = s} {b = s1} {c = s2} r1.same r2.same in
      let (t', done', s', e, r) =
        read_rounds-Rounds fuel s2 ncmd t1 t2 (n - size) r2.timing (rw same.params c)
          (rw same.params x) (omega arith) (omega (arith, r1.soon)) in
      (
        t',
        done',
        s',
        rw (more, e1, e2) e,
        record {
          timing = r.timing;
          same = SameLuns-trans {a = s} {b = s2} {c = s'} same r.same;
          after = omega (arith, r1.after, r.after);
          soon = omega (arith, r1.soon, r.soon);
          done_after = ground (arith, r1.after, r2.after, r.done_after);
        },
      )
]

-- The LUN of the command is taken up to a time that is not before the start, and all else about the
-- disk's LUNs is as it was.
pub record Progress (s : Ssd) (ncmd : NandCmd) (start t : ℕ) (s' : Ssd) : Type 0 where
  pub timing : Timing s'
  pub completes : lun_stime s ncmd.ppa start ≤ t
  pub busy : lun_stime s ncmd.ppa start ≤ s'.next_lun_avail_time ncmd.ppa.ch ncmd.ppa.lun
  pub others :
      (c l : ℕ)
      → ((c ≢ ncmd.ppa.ch) ⊎ (l ≢ ncmd.ppa.lun))
      → s'.next_lun_avail_time c l ≡ s.next_lun_avail_time c l
  pub params : s'.sp ≡ s.sp

-- Times and sizes at which no 64-bit sum wraps.
pub record InLimits (s : Ssd) (ncmd : NandCmd) (start : ℕ) : Type 0 where
  pub channel : ncmd.ppa.ch < s.sp.nchs
  pub chunk : 0 < s.sp.max_ch_xfer_size
  pub size : ncmd.xfer_size ≤ 2 ^ 20
  pub start_time : start < 2 ^ 61
  pub lun_time : s.next_lun_avail_time ncmd.ppa.ch ncmd.ppa.lun < 2 ^ 61
  pub read_lat : (cell : ℕ) → (s.sp.pg_rd_lat cell < 2 ^ 32) × (s.sp.pg_4kb_rd_lat cell < 2 ^ 32)
  pub write_lat : s.sp.pg_wr_lat < 2 ^ 32
  pub erase_lat : s.sp.blk_er_lat < 2 ^ 32

set_avail-Progress :
    (s s' : Ssd) (ncmd : NandCmd) (start t avail : ℕ)
    → Timing s'
    → SameLuns s s'
    → lun_stime s ncmd.ppa start ≤ t
    → lun_stime s ncmd.ppa start ≤ avail
    → Progress s ncmd start t (set_avail s' ncmd.ppa avail)
set_avail-Progress s s' ncmd start t avail v same h k = record {
  timing = record { channels = v.channels; link = v.link; unlocked = v.unlocked };
  completes = h;
  busy = ground arith;
  others = λ c l ne. rw same.luns (ground arith);
  params = same.params;
}

SameLuns-refl : (s : Ssd) → SameLuns s s
SameLuns-refl s = record { luns = refl; params = refl; lock = refl }

module _ (s : Ssd) (ncmd : NandCmd) (start : ℕ) (v : Timing s) (b : InLimits s ncmd start) where
  write-Progress :
      (t : ℕ) × (s' : Ssd) × (advance_write s ncmd start ≡ ok (t, s')) × Progress s ncmd start t s'
  unfolding advance_write
  write-Progress =
      let (t, s', e, r) =
        channel_request-Transferred s ncmd.ppa.ch (lun_stime s ncmd.ppa start) ncmd.xfer_size v
          b.channel (omega (arith, b.start_time, b.lun_time)) in
      let fits : u64 (t + s.sp.pg_wr_lat) ≡ t + s.sp.pg_wr_lat =
        omega (arith, r.soon, b.start_time, b.lun_time, b.write_lat) in
      (
        u64 (t + s.sp.pg_wr_lat),
        set_avail s' ncmd.ppa (u64 (t + s.sp.pg_wr_lat)),
        rw (e, r.same.params),
        set_avail-Progress s s' ncmd start _ _ r.timing r.same (omega (arith, r.after, fits))
            (omega (arith, r.after, fits)),
      )

  read_latency_bound : read_latency s.sp ncmd < 2 ^ 32
  unfolding read_latency
  read_latency_bound = ground (arith, b.read_lat (get_cell s.sp ncmd.ppa))

  advance_read_of_rounds :
      (done t : ℕ) (s' : Ssd)
      → 0 < ncmd.xfer_size
      → read_rounds
          (suc ncmd.xfer_size)
          s
          ncmd
          (u64 (lun_stime s ncmd.ppa start + read_latency s.sp ncmd))
          0
          ncmd.xfer_size
        ≡ ok (t, done, s')
      → advance_read s ncmd start ≡ ok (done, set_avail s' ncmd.ppa t)
  unfolding advance_read
  advance_read_of_rounds done t s' some_bytes e =
      let bytes : (ncmd.xfer_size == 0) ≡ false = ground arith in rw (bytes, e)

  sensed :
      u64 (lun_stime s ncmd.ppa start + read_latency s.sp ncmd)
      ≡ lun_stime s ncmd.ppa start + read_latency s.sp ncmd
  sensed = omega (arith, read_latency_bound, b.start_time, b.lun_time)

  read-Progress :
      0 < ncmd.xfer_size
      → (t : ℕ) × (s' : Ssd) × (advance_read s ncmd start ≡ ok (t, s')) × Progress s ncmd start t s'
  read-Progress some_bytes =
      let (t, done, s', e, r) =
        read_rounds-Rounds (suc ncmd.xfer_size) s ncmd
          (u64 (lun_stime s ncmd.ppa start + read_latency s.sp ncmd)) 0 ncmd.xfer_size v b.channel
          b.chunk (omega arith)
          (omega (arith, sensed, read_latency_bound, b.start_time, b.lun_time, b.size)) in
      (
        done,
        set_avail s' ncmd.ppa t,
        advance_read_of_rounds done t s' some_bytes e,
        set_avail-Progress s s' ncmd start done t r.timing r.same
            (ground (arith, r.done_after, sensed)) (omega (arith, r.after, sensed)),
      )

  pub dispatch-Progress :
      ncmd.cmd ≤ 3
      → 0 < ncmd.xfer_size
      → (t : ℕ) × (s' : Ssd) × (dispatch s ncmd start ≡ some (ok (t, s')))
        × Progress s ncmd start t s'
  unfolding dispatch
  dispatch-Progress known some_bytes = elim (Bool-cases (ncmd.cmd == nand_read)) [
    | inl is_read ↦ let (t, s', e, r) = read-Progress some_bytes in (t, s', rw (is_read, e), r)
    | inr not_read ↦ elim (Bool-cases (ncmd.cmd == nand_write)) [
      | inl is_write ↦ let (t, s', e, r) = write-Progress in (t, s', rw (not_read, is_write, e), r)
      | inr not_write ↦ elim (Bool-cases (ncmd.cmd == nand_erase)) [
        | inl is_erase ↦
            let erased : ℕ = u64 (lun_stime s ncmd.ppa start + s.sp.blk_er_lat) in
            let later : lun_stime s ncmd.ppa start ≤ erased =
              omega (arith, b.start_time, b.lun_time, b.erase_lat) in
            (
              erased,
              set_avail s ncmd.ppa erased,
              rw (not_read, not_write, is_erase),
              set_avail-Progress s s ncmd start erased erased v (SameLuns-refl s) later later,
            )
        | inr not_erase ↦
            let idle : ℕ = lun_stime s ncmd.ppa start in
            let is_nop : (ncmd.cmd == nand_nop) ≡ true = ground arith in
            (
              idle,
              set_avail s ncmd.ppa idle,
              rw (not_read, not_write, not_erase, is_nop),
              set_avail-Progress s s ncmd start idle idle v (SameLuns-refl s) (omega arith)
                  (omega arith),
            )
      ]
    ]
  ]
