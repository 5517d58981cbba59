-- ===== src/Channel/Conserve.antt =====
-- Conservation of credits in the loop of `chmodel_request` (nvmevirt/channel_model.c).
use virtkv.Channel.Loop.{taken-le}
use virtkv.Common.{
  ℕ, zero, suc, ◌+◌, ◌-◌, ◌≤◌, ◌<◌, ◌≡◌, refl, some, Bool-cases, inl, inr, arith, ◌==◌,
}
use virtkv.Channel.{
  nr_credit_entries, Scan, consume, update, take_credits, taken, next_pos, advance,
}

-- The sum of the first `n` entries.
pub total : ℕ → (ℕ → ℕ) → ℕ
total zero a = 0
total (suc n) a = a n + total n a

total-update_beyond : (n : ℕ) (a : ℕ → ℕ) (i v : ℕ) → n ≤ i → total n (update a i v) ≡ total n a
unfolding total
total-update_beyond zero a i v h = refl
total-update_beyond (suc n) a i v h = ground (arith, total-update_beyond n a i v)

total-update : (n : ℕ) (a : ℕ → ℕ) (i v : ℕ) → i < n → total n (update a i v) + a i ≡ total n a + v
unfolding total
total-update zero a i v h = absurd (omega arith)
total-update (suc n) a i v h = ground (arith, total-update n a i v, total-update_beyond n a i v)

-- A round takes from the slot what it takes from the request.
take_credits-total :
    (s : Scan)
    → s.pos < nr_credit_entries
    → total nr_credit_entries (take_credits s).credits + s.remaining
      ≡ total nr_credit_entries s.credits + (take_credits s).remaining
take_credits-total s p = ground (
  arith,
  total-update nr_credit_entries s.credits s.pos (s.credits s.pos - taken s) p,
  taken-le s,
)

-- A loop that starts within the ring and ends takes from the ring exactly the credits by which the request falls.
pub consume-total :
    (fuel head : ℕ) (s t : Scan)
    → s.pos < nr_credit_entries
    → consume fuel head s ≡ some t
    → total nr_credit_entries t.credits + s.remaining
      ≡ total nr_credit_entries s.credits + t.remaining
unfolding consume
consume-total zero head s t p e = cc
consume-total (suc fuel) head s t p e = elim (Bool-cases ((take_credits s).remaining == 0)) [
  | inl done ↦ ground (arith, take_credits-total s p)
  | inr more ↦ elim (Bool-cases (next_pos s.pos == head)) [
    | inl full ↦ ground (arith, take_credits-total s p)
    | inr room ↦ omega (
      arith,
      take_credits-total s p,
      consume-total fuel head (advance (take_credits s)) t (omega arith) (ground arith),
    )
  ]
]
