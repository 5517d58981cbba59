-- ===== src/Ftl/Grains/Victim.antt =====
-- The choice of a line to clean (select_victim_line of nvmevirt/demand_ftl.c).
use virtkv.Ftl.Address.{grained_unit}
use virtkv.Ftl.Lines.{Line}
use virtkv.Ftl.Grains.Marks.{grain2lineid}
use virtkv.Ftl.Grains.{PqueueOps, Shard, set_lm}
use virtkv.Ssd.Params.{SsdParams}
use virtkv.Common.{
  ℕ, Option, Outcome, ◌+◌, ◌-◌, ◌/◌, ◌^◌, ◌==◌, none, some, ok, stuck, zero, suc, u32, update,
  if◌then◌else◌, ◌>>=◌,
}

module _ {Q : Type 0} (pq : PqueueOps Q) (spp : SsdParams) where
  abbrev pub set_queue : Shard Q → Q × (ℕ → Line) → Shard Q
  set_queue s (q, lines) = record (set_lm pq spp s (record s.writers.lm { lines = lines })) {
    victims = q;
  }

  -- A line that was only put aside goes back to the queue.
  unfoldable pub put_back : Shard Q → Option ℕ → Shard Q
  put_back s none = s
  put_back s (some dummy) = set_queue s (pq.insert s.victims s.writers.lm.lines dummy)

  unfoldable pub pop_victim : Shard Q → Shard Q
  pop_victim s = set_queue s (pq.pop s.victims s.writers.lm.lines)

  -- victim_line->pos = 0; lm->victim_line_cnt--;
  unfoldable pub take_victim : Shard Q → ℕ → Shard Q
  take_victim s i =
      let lm = s.writers.lm in
      set_lm pq spp s (record lm {
        lines = update lm.lines i (record (lm.lines i) { pos = 0 });
        victim_line_cnt = u32 (lm.victim_line_cnt + 2 ^ 32 - 1);
      })

  -- What happens to the line at the head of the queue, where `offset` is the offset of the store.
  unfoldable pub victim_cases :
      (Shard Q → ℕ → Outcome (Option ℕ × Shard Q))
      → Shard Q
      → (offset : ℕ) → (dummy head : Option ℕ) → Outcome (Option ℕ × Shard Q)
  unfolding put_back pop_victim take_victim
  victim_cases again s offset dummy none = ok (none, put_back s dummy)
  victim_cases again s offset dummy (some victim) = do
    current ← grain2lineid pq spp s (offset / grained_unit)
    if (s.writers.lm.lines victim).id == current
        then again (pop_victim s) victim
        else ok (some victim, put_back (take_victim (pop_victim s) victim) dummy)

  -- The rounds from `again:` on; `stuck` means that the fuel ran out.
  unfoldable pub select_rounds :
      ℕ → Shard Q → (offset : ℕ) → (dummy : Option ℕ) → Outcome (Option ℕ × Shard Q)
  unfolding victim_cases
  select_rounds zero s offset dummy = stuck
  select_rounds (suc fuel) s offset dummy =
      victim_cases (λ s' victim. select_rounds fuel s' offset (some victim)) s offset dummy
        (pq.peek s.victims)

  -- `select_victim_line`. The line of the store is met once at most.
  unfoldable pub select_victim_line : Shard Q → (offset : ℕ) → Outcome (Option ℕ × Shard Q)
  unfolding select_rounds
  select_victim_line s offset = select_rounds 2 s offset none
