-- ===== src/Ftl/Grains/Clean.antt =====
-- The choice of a line to clean, and its return to the free lines (select_victim_line and mark_line_free of
-- nvmevirt/demand_ftl.c).
use virtkv.Ftl.Grains.Relist.{insert-IsKept, IsKept-outside, update-field, vgc-if}
use virtkv.Ftl.Grains.Victim.{
  put_back, pop_victim, take_victim, victim_cases, select_rounds, select_victim_line,
}
use virtkv.Ftl.Grains.Marks.{grain2lineid}
use virtkv.Ftl.Grains.Places.{IsKept, Kept, count-append}
use virtkv.Ftl.Grains.Pqueue.{PqueueLaws, one_at}
use virtkv.Ftl.Grains.{PqueueOps, Shard, mark_line_free}
use virtkv.Ftl.Address.{grained_unit, g_idx, ppa_to_struct}
use virtkv.Ssd.Ppa.{Ppa}
use virtkv.Ssd.Params.{SsdParams}
use virtkv.Common.{
  ℕ, List, [], ◌∷◌, ◌+◌, ◌==◌, ◌≡◌, ◌≤◌, ◌≢◌, update, if◌then◌else◌, arith, ℕ_discrete, refl, sym,
  true, false, Returns, if_Returns, Outcome, ok, stuck, ◌∙◌, ap, ◌>>=◌, ◌/◌, Option, none, some,
  ==_iff,
}

module _ {Q : Type 0} (pq : PqueueOps Q) (laws : PqueueLaws pq) (spp : SsdParams) where
  pop_victim-IsKept :
      (s : Shard Q) (i : ℕ) {o a : ℕ → ℕ}
      → IsKept pq laws spp s.writers.lm s.victims o a
      → pq.peek s.victims ≡ some i
      → (let t = pop_victim pq spp s in
          IsKept pq laws spp t.writers.lm t.victims (λ j. one_at i j + o j) (λ j. one_at i j + a j))
  unfolding pop_victim
  pop_victim-IsKept s i h head =
      let l = s.writers.lm.lines in
      let vgc = laws.pop_vgc s.victims l in
      record {
        placed = λ j. omega (arith, h.placed j, laws.popped s.victims l i j head);
        queued = λ j pos. omega (
          arith,
          h.queued j (λ z. pos (laws.pop_pos s.victims l j z)),
          laws.popped s.victims l i j head,
        );
        bounded = λ j. omega (arith, vgc j, h.bounded j);
        listed = λ j full. h.listed j (omega (arith, vgc j, full));
        named = λ j. laws.pop_id s.victims l j ∙ h.named j;
      }

  take_victim-IsKept :
      (s : Shard Q) (i : ℕ) {o a : ℕ → ℕ}
      → IsKept pq laws spp s.writers.lm s.victims o (λ j. one_at i j + a j)
      → (let t = take_victim pq spp s i in IsKept pq laws spp t.writers.lm t.victims o a)
  unfolding take_victim
  take_victim-IsKept s i h =
      let l = s.writers.lm.lines in
      let same = update-field pq laws spp l i (record (l i) { pos = 0 }) in
      record {
        placed = h.placed;
        queued = λ j pos. elim (ℕ_discrete i j) [
          | yes e ↦ absurd (pos (let t : (j == i) ≡ true = ground arith in rw t refl))
          | no ne ↦
              let t : one_at i j ≡ 0 = ground arith in
              let u : (j == i) ≡ false = ground arith in
              let k = h.queued j (λ z. pos (rw u z)) in omega (arith, k, t)
        ];
        bounded = λ j. omega (arith, same (λ x. x.vgc) refl j, h.bounded j);
        listed = λ j full. h.listed j (omega (arith, same (λ x. x.vgc) refl j, full));
        named = λ j. same (λ x. x.id) refl j ∙ h.named j;
      }

  put_back-IsKept :
      (s : Shard Q) (i : ℕ) {o o' a a' : ℕ → ℕ}
      → IsKept pq laws spp s.writers.lm s.victims o a
      → ((j : ℕ) → one_at i j + o' j ≡ o j)
      → ((j : ℕ) → a j ≤ a' j + one_at i j)
      → (let t = put_back pq spp s (some i) in IsKept pq laws spp t.writers.lm t.victims o' a')
  unfolding put_back
  put_back-IsKept s i h out back =
      insert-IsKept pq laws spp s.writers.lm s.victims i s.writers.lm.victim_line_cnt h out back

  -- A round, on a disk where the line `k` is that of the store.
  victim_cases-Returns :
      {P : Option ℕ × Shard Q → Type 0} (again : Shard Q → ℕ → Outcome (Option ℕ × Shard Q))
      (s : Shard Q) (offset k : ℕ) (dummy head : Option ℕ)
      → grain2lineid pq spp s (offset / grained_unit) ≡ ok k
      → (head ≡ none → P (none, put_back pq spp s dummy))
      → ((v : ℕ)
          → head ≡ some v
          → (s.writers.lm.lines v).id ≡ k
          → Returns P (again (pop_victim pq spp s) v))
      → ((v : ℕ)
          → head ≡ some v
          → (s.writers.lm.lines v).id ≢ k
          → P (some v, put_back pq spp (take_victim pq spp (pop_victim pq spp s) v) dummy))
      → Returns P (victim_cases pq spp again s offset dummy head)
  unfolding victim_cases
  victim_cases-Returns again s offset k dummy none e empty same taken = (_, refl, empty refl)
  victim_cases-Returns again s offset k dummy (some v) e empty same taken =
      let id = (s.writers.lm.lines v).id in
      rw e (
        if_Returns (id == k) (λ t. same v refl ((==_iff id k).0 t))
          (λ f. (_, refl, taken v refl (ground arith))))

  -- What a choice comes to, with `k` the line of the store. The chosen line was in the queue, is taken
  -- from it, and is not `k`; with no line chosen the queue had no other line than `k`.
  pub Selected : Shard Q → (k : ℕ) → (cleaned : List ℕ) → Option ℕ × Shard Q → Type 0
  Selected s k cleaned (none, s') =
      Kept pq laws spp cleaned s' × ((j : ℕ) → 1 ≤ laws.entries s.victims j → j ≡ k)
  Selected s k cleaned (some v, s') =
      Kept pq laws spp (v ∷ cleaned) s' × (1 ≤ laws.entries s.victims v) × (v ≢ k)

  once :
      (s : Shard Q) (i : ℕ) {o a : ℕ → ℕ}
      → IsKept pq laws spp s.writers.lm s.victims o a
      → pq.peek s.victims ≡ some i
      → laws.entries (pop_victim pq spp s).victims i ≡ 0
  unfolding pop_victim
  once s i h head =
      let p = h.placed i in
      let e = laws.popped s.victims s.writers.lm.lines i i head in ground arith

  entered :
      (s : Shard Q) (i j : ℕ)
      → pq.peek s.victims ≡ some i
      → laws.entries s.victims j ≡ one_at i j + laws.entries (pop_victim pq spp s).victims j
  unfolding pop_victim
  entered s i j head = laws.popped s.victims s.writers.lm.lines i j head

  grain2lineid-pop :
      (s : Shard Q) (grain : ℕ)
      → grain2lineid pq spp (pop_victim pq spp s) grain ≡ grain2lineid pq spp s grain
  unfolding grain2lineid pop_victim
  grain2lineid-pop s grain =
      ap (λ (f : Ppa → ℕ). ppa_to_struct spp (g_idx grain) >>= (λ p. ok (f p)))
        (λ i p. laws.pop_id s.victims s.writers.lm.lines p.blk i)

  one_at-same : (i : ℕ) → one_at i i ≡ 1
  one_at-same i = ground arith

  last_round :
      (s : Shard Q) (offset : ℕ) (cleaned : List ℕ) (v k : ℕ)
      → Kept pq laws spp cleaned s
      → pq.peek s.victims ≡ some v
      → grain2lineid pq spp s (offset / grained_unit) ≡ ok k
      → (s.writers.lm.lines v).id ≡ k
      → Returns
          (Selected s k cleaned)
          (select_rounds pq spp 1 (pop_victim pq spp s) offset (some v))
  unfolding select_rounds Selected pop_victim take_victim put_back
  last_round s offset cleaned v k h head at same =
      let s1 = pop_victim pq spp s in
      let h1 = pop_victim-IsKept s v h head in
      victim_cases-Returns (λ t i. stuck) s1 offset k (some v) (pq.peek s1.victims)
        (grain2lineid-pop s _ ∙ at)
        (λ empty. (
          put_back-IsKept s1 v h1 (λ j. refl) (λ j. omega arith),
          λ j inside. elim (ℕ_discrete v j) [
            | yes eq ↦ sym eq ∙ sym (h.named v) ∙ same
            | no ne ↦ absurd (
                let n : one_at v j ≡ 0 = ground arith in
                omega (arith, entered s v j head, laws.emptied s1.victims j empty, inside, n))
          ],
        ))
        (λ w next again. absurd (
          let there : laws.entries s1.victims w ≡ 0 =
            ap (laws.entries s1.victims) (sym (h1.named w) ∙ again ∙ sym same ∙ h.named v)
            ∙ once s v h head in
          omega (arith, there, entered s1 w w next, one_at-same w)))
        (λ w next other. (
          put_back-IsKept (take_victim pq spp (pop_victim pq spp s1) w) v
              (take_victim-IsKept (pop_victim pq spp s1) w (pop_victim-IsKept s1 w h1 next))
              (λ j. omega arith) (λ j. omega arith),
          omega (arith, entered s1 w w next, one_at-same w, entered s v w head),
          λ eq. other (h1.named w ∙ eq),
        ))

  -- Where the lines are kept and the store is in the line k, select_victim_line returns, within two rounds. It takes a line other than k from the queue, and the rest of the lines are kept; or it takes none, then all are kept and the queue had no line other than k.
  pub select_victim_line-Selected :
      (s : Shard Q) (offset k : ℕ) (cleaned : List ℕ)
      → Kept pq laws spp cleaned s
      → grain2lineid pq spp s (offset / grained_unit) ≡ ok k
      → Returns (Selected s k cleaned) (select_victim_line pq spp s offset)
  unfolding select_victim_line select_rounds put_back Selected pop_victim take_victim
  select_victim_line-Selected s offset k cleaned h at =
      victim_cases-Returns (λ t i. select_rounds pq spp 1 t offset (some i)) s offset k none
        (pq.peek s.victims) at
        (λ empty. (h, λ j inside. absurd (omega (arith, laws.emptied s.victims j empty, inside))))
        (λ v head same. last_round s offset cleaned v k h head at same)
        (λ v head other. (
          IsKept-outside pq laws spp
              (take_victim-IsKept (pop_victim pq spp s) v (pop_victim-IsKept s v h head))
              (λ j. omega arith),
          omega (arith, entered s v v head, one_at-same v),
          λ eq. other (h.named v ∙ eq),
        ))

  -- Where the lines are kept but for the line i, which was taken to be cleaned, they are all kept after mark_line_free.
  pub mark_line_free-Kept :
      (s : Shard Q) (i : ℕ) (cleaned : List ℕ)
      → Kept pq laws spp (i ∷ cleaned) s
      → Kept pq laws spp cleaned (mark_line_free pq spp s i)
  unfolding mark_line_free
  mark_line_free-Kept s i cleaned h =
      let l = s.writers.lm.lines in
      let v = record (l i) { ipc = 0; vpc = 0; igc = 0; vgc = 0 } in
      let same = update-field pq laws spp l i v in
      let set : (j : ℕ) → (update l i v j).vgc ≡ (if j == i then 0 else (l j).vgc) =
        λ j. vgc-if pq laws spp (j == i) v (l j) in
      record {
        placed =
            λ j. omega (arith, h.placed j, count-append j s.writers.lm.free_line_list (i ∷ []));
        queued = λ j pos. h.queued j (λ z. pos (same (λ x. x.pos) refl j ∙ z));
        bounded = λ j. (let b = h.bounded j in let e = set j in ground arith);
        listed = λ j full. h.listed j (let e = set j in ground arith);
        named = λ j. same (λ x. x.id) refl j ∙ h.named j;
      }
