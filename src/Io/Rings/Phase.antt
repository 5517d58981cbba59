-- ===== src/Io/Rings/Phase.antt =====
-- The worker goes around the completion queue (`__fill_cq_result` of nvmevirt/io.c), and the phase tag
-- tells the host on which turn an entry was written.
use native.Mathlib.Nat.{mod-eq_of_lt, add-mod_left, add-div_left, div-eq_of_lt, mod-lt}
use virtkv.Io.Queue.{Work}
use virtkv.Io.Rings.{CompletionQueue, Completion, fill_cq_result}
use virtkv.Common.{
  ◌∷◌, ◌++◌, length, [], ℕ, ◌<◌, ◌≤◌, ◌^◌, ◌*◌, List, ◌≡◌, ◌⊎◌, ◌+◌, ◌%◌, ◌==◌, ◌/◌, if◌then◌else◌,
  suc, Bool-cases, inl, ==_iff, arith, inr, refl, ◌∙◌, ap, zero, sym, true, false, ◌-◌,
}

-- Entries filled one after the other.
abbrev pub fill_all : CompletionQueue → List Work → CompletionQueue
fill_all q [] = q
fill_all q (w ∷ ws) = fill_all (fill_cq_result q w) ws

-- What the host is to find of a finished entry, with the phase tag of its turn in the lowest bit.
abbrev pub completion_of : ℕ → Work → Completion
completion_of phase w = record {
  command_id = w.command_id % 2 ^ 16;
  sq_id = w.sqid % 2 ^ 16;
  sq_head = w.sq_entry % 2 ^ 16;
  status = (phase + 2 * w.status) % 2 ^ 16;
  result0 = w.result0;
  result1 = w.result1;
}

-- The slot and the phase `n` steps from the head.
abbrev pub slot_at : CompletionQueue → ℕ → ℕ
slot_at q n = (q.cq_head + n) % q.queue_size

abbrev pub phase_at : CompletionQueue → ℕ → ℕ
phase_at q n = (q.phase + (q.cq_head + n) / q.queue_size) % 2

turn :
    (size head phase n : ℕ)
    → head < size
    → phase < 2
    → let around = head + 1 == size in
      let head' = if around then 0 else head + 1 in
      let phase' = if around then (if phase == 0 then 1 else 0) else phase in
      ((head' + n) % size ≡ (head + suc n) % size)
      × ((phase' + (head' + n) / size) % 2 ≡ (phase + (head + suc n) / size) % 2)
      × (head' < size)
      × (phase' < 2)
turn size head phase n h p = elim (Bool-cases (head + 1 == size)) [
  | inl around ↦
      let e : head + 1 ≡ size = (==_iff (head + 1) size).0 around in
      let whole : head + suc n ≡ size + n = omega arith in
      let m : (size + n) % size ≡ n % size = add-mod_left size n in
      let d : (size + n) / size ≡ n / size + 1 = add-div_left n (omega arith) in
      rw (around, whole, m, d) (ground arith, ground arith, omega arith, ground arith)
  | inr on ↦
      let whole : head + suc n ≡ head + 1 + n = omega arith in
      rw (on, whole) (refl, refl, ground arith, p)
]

-- After any number of completions the head has gone that far around the ring, and the phase tag has
-- turned as often as the head has come to its begin.
record At (q q' : CompletionQueue) (n : ℕ) : Type 0 where
  head : q'.cq_head ≡ slot_at q n
  phase : q'.phase ≡ phase_at q n
  size : q'.queue_size ≡ q.queue_size

fill_all-At :
    (ws : List Work) (q : CompletionQueue)
    → q.cq_head < q.queue_size
    → q.phase < 2
    → At q (fill_all q ws) (length ws)
unfolding fill_cq_result
fill_all-At [] q h p =
    let e : q.cq_head + 0 ≡ q.cq_head = omega arith in
    let zeroth : q.cq_head / q.queue_size ≡ 0 = div-eq_of_lt h in
    record { head = rw (e, mod-eq_of_lt h) refl; phase = rw (e, zeroth) (omega arith); size = refl }
fill_all-At (w ∷ ws) q h p =
    let (m, d, h', p') = turn q.queue_size q.cq_head q.phase (length ws) h p in
    let r = fill_all-At ws (fill_cq_result q w) h' p' in
    record { head = r.head ∙ m; phase = r.phase ∙ d; size = r.size }

fill_head :
    (q : CompletionQueue) (x : Work)
    → q.cq_head < q.queue_size
    → let q' = fill_all q (x ∷ []) in
      (q'.cq_head < q.queue_size)
      × ((q.cq_head + 1 ≡ q'.cq_head) ⊎ (q.cq_head + 1 ≡ q'.cq_head + q.queue_size))
unfolding fill_cq_result
fill_head q w h = (ground arith, ground arith)

-- A slot that is `d` steps ahead of the head is not written by that many completions.
fill_all-keeps :
    (ws : List Work) (q : CompletionQueue) (slot d : ℕ)
    → q.cq_head < q.queue_size
    → slot < q.queue_size
    → (slot ≡ q.cq_head + d) ⊎ (slot + q.queue_size ≡ q.cq_head + d)
    → d < q.queue_size
    → length ws ≤ d
    → (fill_all q ws).cq slot ≡ q.cq slot
unfolding fill_cq_result
fill_all-keeps [] q slot d h s ahead once le = refl
fill_all-keeps (w ∷ ws) q slot zero h s ahead once le = absurd (omega arith)
fill_all-keeps (w ∷ ws) q slot (suc d) h s ahead once le =
    let (h', next) = fill_head q w h in
    let other : (slot == q.cq_head) ≡ false = ground arith in
    fill_all-keeps ws (fill_cq_result q w) slot d h' s (omega (arith, next, ahead)) (omega arith)
      (omega arith)
    ∙ rw other refl

fill_all-append :
    (ws vs : List Work) (q : CompletionQueue) → fill_all q (ws ++ vs) ≡ fill_all (fill_all q ws) vs
fill_all-append [] vs q = refl
fill_all-append (w ∷ ws) vs q = fill_all-append ws vs (fill_cq_result q w)

-- On a ring whose head is on it and whose phase is 0 or 1, the completion that is filled in after those of `ws`, and before fewer more than the ring has slots,
-- stands as many slots behind the old head as `ws` has members, around the ring, with the phase tag of
-- that turn: the old one at first, and the other one after each time round.
pub fill_all-completion :
    (ws vs : List Work) (x : Work) (q : CompletionQueue)
    → q.cq_head < q.queue_size
    → q.phase < 2
    → length vs < q.queue_size
    → (fill_all q (ws ++ (x ∷ vs))).cq (slot_at q (length ws))
      ≡ completion_of (phase_at q (length ws)) x
unfolding fill_cq_result
fill_all-completion ws vs w q h p few =
    let q1 = fill_all q ws in
    let at = fill_all-At ws q h p in
    let q2 = fill_cq_result q1 w in
    let below : (q.cq_head + length ws) % q.queue_size < q.queue_size =
      mod-lt (q.cq_head + length ws) (omega arith) in
    let inside : q1.cq_head < q1.queue_size = omega (arith, at.head, at.size, below) in
    let (h', next) = fill_head q1 w inside in
    let last : ℕ = q1.queue_size - 1 in
    let kept =
      fill_all-keeps vs q2 q1.cq_head last h' inside (omega (arith, next)) (omega arith)
        (omega (arith, at.size)) in
    let same : (q1.cq_head == q1.cq_head) ≡ true = ground arith in
    let written : q2.cq q1.cq_head ≡ completion_of q1.phase w = rw same refl in
    ap (λ (t : CompletionQueue). t.cq (slot_at q (length ws))) (fill_all-append ws (w ∷ vs) q)
    ∙ (ap (fill_all q2 vs).cq (sym at.head)
        ∙ (kept ∙ (written ∙ ap (λ t. completion_of t w) at.phase)))
