-- ===== src/Channel/Invariant.antt =====
-- The invariant of the channel model (nvmevirt/channel_model.c), and that `chmodel_request` keeps it.
use virtkv.Common.{ℕ, ◌+◌, ◌%◌, ◌≤◌, ◌<◌, ◌≡◌, arith, if◌then◌else◌}
use virtkv.Channel.{
  ChannelModel, nr_credit_entries, chmodel_init, cur_time_offs, refill, move_head, ltb,
}
use virtkv.Channel.Loop.{slot}

-- Slots of the ring are within bounds, no slot has more than the full credits of a time unit, and
-- a slot that lies `valid_len` or more ahead of the head is still full.
pub record IsValid (ch : ChannelModel) : Type 0 where
  pub head_in : ch.head < nr_credit_entries
  pub len_in : ch.valid_len ≤ nr_credit_entries
  pub some_credits : 0 < ch.max_credits
  pub byte : ch.max_credits < 256
  pub bounded : (i : ℕ) → i < nr_credit_entries → ch.avail_credits i ≤ ch.max_credits
  pub full :
      (i : ℕ)
      → i < nr_credit_entries
      → ch.valid_len ≤ slot ch.head i
      → ch.avail_credits i ≡ ch.max_credits

-- A channel of 31 MB/s to 7812 MB/s starts valid, whatever the memory held. At less than 31 MB/s
-- the credits of a time unit round down to none.
pub chmodel_init-IsValid :
    (bandwidth : ℕ) (garbage : ℕ → ℕ)
    → 31 ≤ bandwidth
    → bandwidth ≤ 7812
    → IsValid (chmodel_init bandwidth garbage)
unfolding chmodel_init
chmodel_init-IsValid b g lo hi = record {
  head_in = omega arith;
  len_in = omega arith;
  some_credits = omega arith;
  byte = omega arith;
  bounded = λ i h. ground arith;
  full = λ i h e. ground arith;
}

cur_time_offs-le : (ch : ChannelModel) (now : ℕ) → cur_time_offs ch now ≤ ch.valid_len
unfolding cur_time_offs
cur_time_offs-le ch now = ground arith

module _ (ch : ChannelModel) (v : IsValid ch) (offs : ℕ) (o : offs ≤ ch.valid_len) where
  -- The slots that the head passes are full again, the others as they were.
  refill_lem :
      (i : ℕ)
      → i < nr_credit_entries
      → refill ch offs i
        ≡ (if ltb (slot ch.head i) offs then ch.max_credits else ch.avail_credits i)
  unfolding refill
  refill_lem i h = ground (arith, v.head_in, v.len_in, v.byte)

  slot-head_moved :
      (i : ℕ)
      → i < nr_credit_entries
      → offs ≤ slot ch.head i
      → slot ((ch.head + offs) % nr_credit_entries) i + offs ≡ slot ch.head i
  slot-head_moved i h le = omega (arith, v.head_in, v.len_in)

-- Moving the head of a valid channel to the present, whatever the clock says, leaves it valid.
pub move_head-IsValid : (ch : ChannelModel) (now : ℕ) → IsValid ch → IsValid (move_head ch now)
unfolding move_head
move_head-IsValid ch now v = record {
  head_in = omega arith;
  len_in = omega (arith, v.len_in);
  some_credits = v.some_credits;
  byte = v.byte;
  bounded = λ i h. ground (arith, refill_lem ch v offs o i h, v.bounded i h);
  full = λ i h le.
      ground (arith, refill_lem ch v offs o i h, v.full i h, slot-head_moved ch v offs o i h);
}
  where
    offs : ℕ
    offs = cur_time_offs ch now

    o : offs ≤ ch.valid_len
    o = cur_time_offs-le ch now
