-- ===== src/Channel/Loop.antt =====
-- The loop of `chmodel_request` (nvmevirt/channel_model.c): it ends, and what it has taken.
use virtkv.Common.{
  ℕ, zero, suc, ◌+◌, ◌-◌, ◌%◌, ◌≤◌, ◌<◌, ◌≡◌, ◌⊎◌, inl, inr, ◌≢◌, some, ◌==◌, Bool-cases, arith,
  ==_iff,
}
use virtkv.Channel.{nr_credit_entries, Scan, taken, take_credits, next_pos, advance, consume}

-- How many slots there are from `head` up to `pos`, round the ring.
abbrev pub slot : ℕ → ℕ → ℕ
slot head pos = (pos + nr_credit_entries - head) % nr_credit_entries

-- What holds when the loop has gone from `s` to `t`.
pub record Scanned (head : ℕ) (s t : Scan) : Type 0 where
  pub in_ring : t.pos < nr_credit_entries
  pub moved : slot head t.pos ≡ slot head s.pos + (t.delay - s.delay)
  pub not_back : s.delay ≤ t.delay
  pub less : (i : ℕ) → t.credits i ≤ s.credits i
  pub before :
      (i : ℕ) → i < nr_credit_entries → slot head i < slot head s.pos → t.credits i ≡ s.credits i
  pub behind :
      (i : ℕ) → i < nr_credit_entries → slot head t.pos < slot head i → t.credits i ≡ s.credits i
  pub over : (t.remaining ≡ 0) ⊎ (next_pos t.pos ≡ head)
  pub emptied :
      (i : ℕ)
      → i < nr_credit_entries
      → slot head s.pos ≤ slot head i
      → slot head i < slot head t.pos
      → t.credits i ≡ 0
  pub last : t.remaining ≢ 0 → t.credits t.pos ≡ 0

pub taken-le : (s : Scan) → (taken s ≤ s.remaining) × (taken s ≤ s.credits s.pos)
taken-le s = ground arith

slot-next :
    (head pos : ℕ)
    → head < nr_credit_entries
    → pos < nr_credit_entries
    → next_pos pos ≢ head
    → slot head (next_pos pos) ≡ slot head pos + 1
slot-next head pos h p ne = omega arith

pub slot-injective :
    (head i j : ℕ)
    → head < nr_credit_entries
    → i < nr_credit_entries
    → j < nr_credit_entries
    → slot head i ≡ slot head j
    → i ≡ j
slot-injective head i j h p q e = omega arith

-- The loop stops at once.
Scanned-stop :
    (head : ℕ) (s : Scan)
    → head < nr_credit_entries
    → s.pos < nr_credit_entries
    → ((take_credits s).remaining ≡ 0) ⊎ (next_pos s.pos ≡ head)
    → Scanned head s (take_credits s)
Scanned-stop head s h p e = record {
  in_ring = p;
  moved = omega arith;
  not_back = omega arith;
  less = λ i. ground (arith, taken-le s);
  before = λ i hi lt. ground arith;
  behind = λ i hi lt. ground arith;
  over = e;
  emptied = λ i hi le lt. absurd (omega arith);
  last = λ ne. ground arith;
}

-- One more round in front.
Scanned-step :
    (head : ℕ) (s t : Scan)
    → head < nr_credit_entries
    → s.pos < nr_credit_entries
    → (take_credits s).remaining ≢ 0
    → next_pos s.pos ≢ head
    → Scanned head (advance (take_credits s)) t
    → Scanned head s t
Scanned-step head s t h p more ne r = record {
  in_ring = r.in_ring;
  moved = ground (arith, r.moved, r.not_back, slot-next head s.pos h p ne);
  not_back = ground (arith, r.not_back);
  less = λ i. ground (arith, r.less i, taken-le s);
  before = λ i hi lt. ground (arith, r.before i hi, slot-next head s.pos h p ne);
  behind = λ i hi lt. ground (arith, r.behind i hi, slot-next head s.pos h p ne, r.moved);
  over = r.over;
  emptied = λ i hi le lt. ground (
    arith,
    r.emptied i hi,
    r.before i hi,
    slot-next head s.pos h p ne,
    slot-injective head i s.pos h hi p,
  );
  last = r.last;
}

-- With as many rounds as slots are left from `pos` round to the head, the loop ends, and as `Scanned`
-- says: it has moved on by the delay it counts, taken only from the slots from its start to its end,
-- emptied all but the last of them, and ended with nothing left to take or before the head, with its
-- last slot empty too if something is left.
pub consume-Scanned :
    (fuel head : ℕ) (s : Scan)
    → head < nr_credit_entries
    → s.pos < nr_credit_entries
    → nr_credit_entries ≤ fuel + slot head s.pos
    → (t : Scan) × (consume fuel head s ≡ some t) × Scanned head s t
unfolding consume
consume-Scanned zero head s h p f = absurd (omega arith)
consume-Scanned (suc fuel) head s h p f = elim (Bool-cases ((take_credits s).remaining == 0)) [
  | inl done ↦ (take_credits s, rw done, Scanned-stop head s h p (inl ((==_iff _ _).0 done)))
  | inr more ↦ elim (Bool-cases (next_pos s.pos == head)) [
    | inl full ↦
        (take_credits s, rw (more, full), Scanned-stop head s h p (inr ((==_iff _ _).0 full)))
    | inr room ↦
        let ne : next_pos s.pos ≢ head = ground arith in
        let (t, e, r) =
          consume-Scanned fuel head (advance (take_credits s)) h (omega arith)
            (omega (arith, slot-next head s.pos h p ne)) in
        (t, rw (more, room) e, Scanned-step head s t h p (ground arith) ne r)
  ]
]
