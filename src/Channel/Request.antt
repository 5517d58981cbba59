-- ===== src/Channel/Request.antt =====
-- `chmodel_request` (nvmevirt/channel_model.c): it returns, keeps the invariant of the channel and
-- never completes a transfer before it is requested.
use virtkv.Channel.Conserve.{total, consume-total}
use virtkv.Common.{
  ℕ, ◌+◌, ◌-◌, ◌%◌, ◌^◌, ◌≤◌, ◌<◌, ◌≡◌, ok, arith, ◌*◌, ◌/◌, ◌==◌, div_round_up, false, ltb,
  Bool-cases, ◌⊎◌, inl, inr, ℕ_discrete, ◌∙◌, leb, some,
}
use virtkv.Channel.{
  ChannelModel, nr_credit_entries, Scan, finish, transfer, u32, unit_xfer_credits,
  unit_time_interval, div_round_up, chmodel_request, false, unit_xfer_size, move_head, ltb, consume,
  leb, some,
}
use virtkv.Channel.Loop.{slot, Scanned, consume-Scanned, slot-injective}
use virtkv.Channel.Invariant.{IsValid, move_head-IsValid}

-- The scan that `transfer` starts.
abbrev pub first_scan : ChannelModel → ℕ → ℕ → Scan
first_scan ch units offs = record {
  credits = ch.avail_credits;
  pos = (ch.head + offs) % nr_credit_entries;
  delay = 0;
  remaining = u32 (units * unit_xfer_credits + ch.command_credits);
}

finish-IsValid :
    (ch : ChannelModel) (req units offs default : ℕ) (s : Scan)
    → IsValid ch
    → offs < nr_credit_entries
    → Scanned ch.head (first_scan ch units offs) s
    → IsValid (finish ch req units default s).1
unfolding finish
finish-IsValid ch req units offs default s v o r = record {
  head_in = v.head_in;
  len_in = ground (arith, v.len_in, v.head_in, r.in_ring);
  some_credits = v.some_credits;
  byte = v.byte;
  bounded = λ i h. omega (arith, v.bounded i h, r.less i);
  full = λ i h le. ground (arith, v.full i h, v.head_in, r.in_ring, r.behind i h);
}

finish-time :
    (ch : ChannelModel) (req units default : ℕ) (s : Scan)
    → req < 2 ^ 63
    → s.delay < nr_credit_entries
    → (req ≤ (finish ch req units default s).0) × ((finish ch req units default s).0 ≤ req + 2 ^ 33)
unfolding finish
finish-time ch req units default s h d = ground arith

-- What `transfer` returns at the end of the scan `s`.
abbrev pub completed : ChannelModel → ℕ → ℕ → Scan → ℕ × ChannelModel
completed ch req units s =
    finish ch req units (u32 (units * unit_xfer_credits + ch.command_credits) / ch.max_credits) s

-- The transfer is carried out: it neither faults nor runs out of rounds.
pub transfer_total :
    (ch : ChannelModel) (req units offs : ℕ)
    → IsValid ch
    → offs < nr_credit_entries
    → (s : Scan) × Scanned ch.head (first_scan ch units offs) s
      × (consume nr_credit_entries ch.head (first_scan ch units offs) ≡ some s)
      × (transfer ch req units offs ≡ ok (completed ch req units s))
unfolding transfer
transfer_total ch req units offs v o =
    let (s, e, r) =
      consume-Scanned nr_credit_entries ch.head (first_scan ch units offs) v.head_in (omega arith)
        (omega arith) in
    (s, r, e, rw (positive, e))
  where
    positive : (ch.max_credits == 0) ≡ false
    positive = ground (arith, v.some_credits)

-- The slots by which the request time lies ahead of the clock.
abbrev pub ahead : ℕ → ℕ → ℕ
ahead now req = u32 (req / unit_time_interval - now / unit_time_interval)

abbrev pub units_of : ℕ → ℕ
units_of length = u32 (div_round_up length unit_xfer_size)

-- A valid channel answers every request for a time below 2 ^ 63 ns and stays valid. It completes no transfer before the time
-- at which it is requested, nor later than about 8.6 seconds after it.
pub chmodel_request-IsValid :
    (ch : ChannelModel) (now req length : ℕ)
    → IsValid ch
    → req < 2 ^ 63
    → (t : ℕ) × (ch' : ChannelModel) × (chmodel_request ch now req length ≡ ok (t, ch'))
      × IsValid ch'
      × (req ≤ t)
      × (t ≤ req + 2 ^ 33)
unfolding chmodel_request
chmodel_request-IsValid ch now req length v h =
    let m : IsValid (move_head ch now) = move_head-IsValid ch now v in
    let small : ltb nr_credit_entries (move_head ch now).valid_len ≡ false =
      ground (arith, m.len_in) in
    elim (Bool-cases (ltb req now)) [
      | inl past ↦ (req, move_head ch now, rw (small, past), m, omega arith, omega arith)
      | inr ahead_of ↦ elim (Bool-cases (leb nr_credit_entries (ahead now req))) [
        | inl far ↦ (req, move_head ch now, rw (small, ahead_of, far), m, omega arith, omega arith)
        | inr near ↦
            let (s, r, _, e) =
              transfer_total (move_head ch now) req (units_of length) (ahead now req) m
                (ground arith) in
            let time =
              finish-time (move_head ch now) req (units_of length) _ s h
                (omega (arith, r.moved, r.not_back, m.head_in)) in
            let result = completed (move_head ch now) req (units_of length) s in
            (
              result.0,
              result.1,
              rw (small, ahead_of, near) e,
              finish-IsValid (move_head ch now) req (units_of length) (ahead now req) _ s m
                  (ground arith) r,
              time.0,
              time.1,
            )
      ]
    ]

request_near :
    (ch : ChannelModel) (now req length : ℕ)
    → IsValid ch
    → now ≤ req
    → req / unit_time_interval - now / unit_time_interval < nr_credit_entries
    → chmodel_request ch now req length
      ≡ transfer (move_head ch now) req (units_of length) (ahead now req)
unfolding chmodel_request
request_near ch now req length v h near = rw (small, ahead_of, in_ring)
  where
    small : ltb nr_credit_entries (move_head ch now).valid_len ≡ false
    small = ground (arith, (move_head-IsValid ch now v).len_in)

    ahead_of : ltb req now ≡ false
    ahead_of = ground arith

    in_ring : leb nr_credit_entries (ahead now req) ≡ false
    in_ring = ground arith

-- A scan that is left with credits to take has emptied the ring from its start on.
exhausted :
    (m : ChannelModel) (units offs : ℕ) (s : Scan)
    → IsValid m
    → Scanned m.head (first_scan m units offs) s
    → offs < nr_credit_entries
    → (s.remaining ≡ 0) ⊎ ((i : ℕ) → i < nr_credit_entries → offs ≤ slot m.head i → s.credits i ≡ 0)
exhausted m units offs s v r o = elim (ℕ_discrete s.remaining 0) [
  | yes done ↦ inl done
  | no left ↦ inr (λ i hi le. ground (
    arith,
    v.head_in,
    r.in_ring,
    r.emptied i hi,
    r.last left,
    r.over,
    slot-injective m.head i s.pos v.head_in hi r.in_ring,
  ))
]

-- On a valid channel a request that is not before the clock and lies within the ring ends as `completed` says, for a scan that takes the credits
-- of the whole transfer out of the ring, or all that there are from the requested slot to its end,
-- and takes none from the slots before.
pub chmodel_request-credits :
    (ch : ChannelModel) (now req length : ℕ)
    → IsValid ch
    → now ≤ req
    → req / unit_time_interval - now / unit_time_interval < nr_credit_entries
    → let m = move_head ch now in
      let wanted = u32 (units_of length * unit_xfer_credits + ch.command_credits) in
      (s : Scan) × (chmodel_request ch now req length ≡ ok (completed m req (units_of length) s))
      × (total nr_credit_entries s.credits + wanted
          ≡ total nr_credit_entries m.avail_credits + s.remaining)
      × ((i : ℕ)
          → i < nr_credit_entries
          → slot m.head i < ahead now req
          → s.credits i ≡ m.avail_credits i)
      × ((s.remaining ≡ 0)
          ⊎ ((i : ℕ) → i < nr_credit_entries → ahead now req ≤ slot m.head i → s.credits i ≡ 0))
unfolding chmodel_request move_head
chmodel_request-credits ch now req length v h near =
    let m : IsValid (move_head ch now) = move_head-IsValid ch now v in
    let offs : ahead now req < nr_credit_entries = omega arith in
    let (s, r, c, e) =
      transfer_total (move_head ch now) req (units_of length) (ahead now req) m offs in
    (
      s,
      request_near ch now req length v h near ∙ e,
      consume-total nr_credit_entries _ _ s (omega arith) c,
      λ i hi lt. r.before i hi (omega (arith, m.head_in)),
      exhausted (move_head ch now) (units_of length) (ahead now req) s m r offs,
    )
