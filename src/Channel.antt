-- ===== src/Channel.antt =====
-- nvmevirt/channel_model.c and channel_model.h: the bandwidth of a NAND channel or of the PCIe
-- link, as a ring of transfer credits, one slot for each time unit ahead of the present.
pub mod Loop
pub mod Invariant
pub mod Request
pub mod Conserve
pub mod Tests
use virtkv.Common.{
  ℕ, zero, suc, ◌+◌, ◌-◌, ◌*◌, ◌/◌, ◌%◌, ◌^◌, Bool, true, false, Option, none, some, ltb, leb, ◌==◌,
  if◌then◌else◌, div_round_up, u32, u64, update, ◌&&◌, Outcome, ok, bug,
}

abbrev pub nr_credit_entries : ℕ
nr_credit_entries = 1024 * 96 * 8

abbrev pub unit_time_interval : ℕ
unit_time_interval = 4000

abbrev pub unit_xfer_size : ℕ
unit_xfer_size = 128

abbrev pub unit_xfer_credits : ℕ
unit_xfer_credits = 1

-- MB(m)
abbrev pub mb : ℕ → ℕ
mb m = m * 2 ^ 20

-- NS_PER_SEC(s)
abbrev pub ns_per_sec : ℕ → ℕ
ns_per_sec s = s * 1000 * 1000 * 1000

abbrev pub bandwidth_to_tx_time : ℕ → ℕ
bandwidth_to_tx_time mb_s = unit_xfer_size * ns_per_sec 1 / mb mb_s

abbrev pub bandwidth_to_max_credits : ℕ → ℕ
bandwidth_to_max_credits mb_s =
    mb mb_s * unit_time_interval / ns_per_sec 1 / unit_xfer_size * unit_xfer_credits

-- `struct channel_model`, less `last`, which nothing reads. The array of credits is a function of
-- the index.
pub record ChannelModel : Type 0 where
  pub cur_time : ℕ
  pub head : ℕ
  pub valid_len : ℕ
  pub max_credits : ℕ
  pub command_credits : ℕ
  pub xfer_lat : ℕ
  pub avail_credits : ℕ → ℕ

-- MEMSET(&a[from], v, n): the value is stored as a byte.
abbrev pub memset : (ℕ → ℕ) → ℕ → ℕ → ℕ → ℕ → ℕ
memset a from v n i = if leb from i && ltb i (from + n) then v % 256 else a i

-- `chmodel_init`. The bandwidth is in MB/s; 64-bit products of the macros do not wrap below 2 ^ 32.
pub chmodel_init : ℕ → (ℕ → ℕ) → ChannelModel
chmodel_init bandwidth garbage = record {
  cur_time = 0;
  head = 0;
  valid_len = 0;
  max_credits = u32 (bandwidth_to_max_credits bandwidth);
  command_credits = 0;
  xfer_lat = u32 (bandwidth_to_tx_time bandwidth);
  avail_credits = memset garbage 0 (u32 (bandwidth_to_max_credits bandwidth)) nr_credit_entries;
}

-- `cur_time_offs`: how many slots the head moves by at the wall clock `cur_time`.
pub cur_time_offs : ChannelModel → ℕ → ℕ
cur_time_offs ch cur_time = if ltb elapsed ch.valid_len then elapsed else ch.valid_len
  where
    elapsed : ℕ
    elapsed = u32 (cur_time / unit_time_interval + 2 ^ 64 - ch.cur_time / unit_time_interval)

-- The slots from the head on that are refilled, round the end of the ring.
pub refill : ChannelModel → ℕ → ℕ → ℕ
refill ch offs =
    if leb nr_credit_entries (ch.head + offs)
    then memset (memset ch.avail_credits ch.head ch.max_credits (nr_credit_entries - ch.head)) 0
        ch.max_credits (offs - (nr_credit_entries - ch.head))
    else memset ch.avail_credits ch.head ch.max_credits offs

-- The first part of `chmodel_request`: the head moves to the slot of the present, and the slots
-- that it passes are refilled.
pub move_head : ChannelModel → ℕ → ChannelModel
move_head ch cur_time = record ch {
  head = (ch.head + cur_time_offs ch cur_time) % nr_credit_entries;
  cur_time = cur_time;
  valid_len = ch.valid_len - cur_time_offs ch cur_time;
  avail_credits = refill ch (cur_time_offs ch cur_time);
}

-- What the loop of `chmodel_request` has reached.
pub record Scan : Type 0 where
  pub credits : ℕ → ℕ
  pub pos : ℕ
  pub delay : ℕ
  pub remaining : ℕ

-- One round of the loop: what the slot at `pos` has is taken.
abbrev pub taken : Scan → ℕ
taken s = if leb s.remaining (s.credits s.pos) then s.remaining else s.credits s.pos

abbrev pub take_credits : Scan → Scan
take_credits s = record s {
  credits = update s.credits s.pos (s.credits s.pos - taken s);
  remaining = s.remaining - taken s;
}

abbrev pub next_pos : ℕ → ℕ
next_pos pos = (pos + 1) % nr_credit_entries

abbrev pub advance : Scan → Scan
advance s = record s { pos = next_pos s.pos; delay = s.delay + 1 }

-- `while (1)`: `none` means that the fuel ran out.
pub consume : ℕ → ℕ → Scan → Option Scan
consume zero head s = none
consume (suc fuel) head s =
    let t = take_credits s in
    let rest = consume fuel head (advance t) in
    if t.remaining == 0 then some t else if next_pos t.pos == head then some t else rest

abbrev pub scanned_length : ℕ → ℕ → ℕ
scanned_length head pos =
    if leb head pos then pos - head + 1 else nr_credit_entries - (head - pos - 1)

-- The end of `chmodel_request`, once the credits are taken.
pub finish : ChannelModel → ℕ → ℕ → ℕ → Scan → ℕ × ChannelModel
finish ch request_time units default_delay s = (
  u64 (request_time + u64 (u32 (ch.xfer_lat * units) + delay * unit_time_interval)),
  record ch {
    avail_credits = s.credits;
    valid_len = if ltb ch.valid_len valid_length then valid_length else ch.valid_len;
  },
)
  where
    valid_length : ℕ
    valid_length = scanned_length ch.head s.pos

    delay : ℕ
    delay = if ltb default_delay s.delay then s.delay - default_delay else 0

-- The part of `chmodel_request` that takes the credits, from the slot of the request time on. A
-- division by a zero `max_credits` faults.
pub transfer : ChannelModel → ℕ → ℕ → ℕ → Outcome (ℕ × ChannelModel)
transfer ch request_time units offs =
    if ch.max_credits == 0 then bug else elim (consume nr_credit_entries ch.head start) [
      | none ↦ bug
      | some s ↦ ok (finish ch request_time units (wanted / ch.max_credits) s)
    ]
  where
    wanted : ℕ
    wanted = u32 (units * unit_xfer_credits + ch.command_credits)

    start : Scan
    start = record {
      credits = ch.avail_credits;
      pos = (ch.head + offs) % nr_credit_entries;
      delay = 0;
      remaining = wanted;
    }

-- `chmodel_request`, at the wall clock `cur_time`: the time at which the transfer is over, and the
-- channel after it.
pub chmodel_request : ChannelModel → ℕ → ℕ → ℕ → Outcome (ℕ × ChannelModel)
chmodel_request ch cur_time request_time length =
    if ltb nr_credit_entries moved.valid_len
    then ok (request_time, moved)
    else if ltb request_time cur_time
    then ok (request_time, moved)
    else if leb nr_credit_entries offs
    then ok (request_time, moved)
    else transfer moved request_time (u32 (div_round_up length unit_xfer_size)) offs
  where
    moved : ChannelModel
    moved = move_head ch cur_time

    offs : ℕ
    offs = u32 (request_time / unit_time_interval - cur_time / unit_time_interval)
