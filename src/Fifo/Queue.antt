-- ===== src/Fifo/Queue.antt =====
-- The ring of nvmevirt/fifo.c implements a queue of bounded length.
use virtkv.Fifo.{
  RingBuffer, rb_is_full, fifo_enqueue, fifo_init, fifo_dequeue, ring_buffer_size, null, rb_push,
  rb_pop, rb_is_empty,
}
use virtkv.Common.{
  ℕ, List, ◌∷◌, ◌≡◌, ◌<◌, length, if◌then◌else◌, ◌++◌, [], ◌+◌, update, arith, ◌==◌, ◌%◌, false,
  refl, Bool-cases, inl, true, ◌∙◌, inr, length-append,
}

-- What the callers do.
pub data Op : Type 0 where
  enqueue : ℕ → Op
  dequeue : Op

pub step : RingBuffer → Op → ℕ × RingBuffer
step rb (enqueue p) = fifo_enqueue rb p
step rb dequeue = fifo_dequeue rb

-- What the operations return, one after the other.
pub run : RingBuffer → List Op → List ℕ
unfolding step
run rb [] = []
run rb (op ∷ ops) = (step rb op).0 ∷ run (step rb op).1 ops

-- The same on a list of pointers, the oldest first. Beyond one pointer less than the ring has slots
-- an enqueued pointer is lost.
unfoldable pub queue_step : List ℕ → Op → ℕ × List ℕ
queue_step q (enqueue p) = (10, if length q + 1 == ring_buffer_size then q else q ++ (p ∷ []))
queue_step [] dequeue = (null, [])
queue_step (p ∷ q) dequeue = (p, q)

unfoldable pub queue_run : List ℕ → List Op → List ℕ
unfolding queue_step
queue_run q [] = []
queue_run q (op ∷ ops) = (queue_step q op).0 ∷ queue_run (queue_step q op).1 ops

-- The slots from `pos` up to `head`, round the ring, hold the pointers of the list.
Stored : (ℕ → ℕ) → ℕ → List ℕ → ℕ → Type 0
Stored buffer pos [] head = pos ≡ head
Stored buffer pos (p ∷ q) head =
    (buffer pos ≡ p) × Stored buffer ((pos + 1) % ring_buffer_size) q head

record Holds (rb : RingBuffer) (q : List ℕ) : Type 0 where
  tail_in : rb.tail < ring_buffer_size
  few : length q < ring_buffer_size
  stored : Stored rb.buffer rb.tail q rb.head

Stored-head :
    (buffer : ℕ → ℕ) (pos : ℕ) (q : List ℕ) (head : ℕ)
    → pos < ring_buffer_size
    → Stored buffer pos q head
    → head ≡ (pos + length q) % ring_buffer_size
unfolding Stored
Stored-head buffer pos [] head h s = omega arith
Stored-head buffer pos (p ∷ q) head h s =
    omega (arith, Stored-head buffer ((pos + 1) % ring_buffer_size) q head (omega arith) s.1)

-- A pointer is stored behind the others as long as a slot stays free.
Stored-push :
    (buffer : ℕ → ℕ) (pos : ℕ) (q : List ℕ) (head p : ℕ)
    → pos < ring_buffer_size
    → length q < ring_buffer_size
    → Stored buffer pos q head
    → Stored (update buffer head p) pos (q ++ (p ∷ [])) ((head + 1) % ring_buffer_size)
unfolding Stored
Stored-push buffer pos [] head p h few s = ground arith
Stored-push buffer pos (x ∷ q) head p h few s =
    let next = (pos + 1) % ring_buffer_size in
    let e = Stored-head buffer next q head (omega arith) s.1 in
    let other : (pos == head) ≡ false = ground arith in
    (simp other s.0, Stored-push buffer next q head p (omega arith) (omega arith) s.1)

-- The ring is full exactly if the list has all the pointers it may.
full-length :
    (rb : RingBuffer) (q : List ℕ) → Holds rb q → rb_is_full rb ≡ (length q + 1 == ring_buffer_size)
unfolding rb_is_full
full-length rb q h =
    ground (arith, h.tail_in, h.few, Stored-head rb.buffer rb.tail q rb.head h.tail_in h.stored)

enqueue-Holds :
    (rb : RingBuffer) (q : List ℕ) (p : ℕ)
    → Holds rb q
    → Holds (rb_push rb p).1 (if length q + 1 == ring_buffer_size then q else q ++ (p ∷ []))
unfolding rb_push
enqueue-Holds rb q p h = elim (Bool-cases (length q + 1 == ring_buffer_size)) [
  | inl full ↦ rw (full-length rb q h ∙ full, full) h
  | inr room ↦
      rw (full-length rb q h ∙ room, room)
        (record {
          tail_in = h.tail_in;
          few = ground (arith, h.few, length-append q (p ∷ []));
          stored = Stored-push rb.buffer rb.tail q rb.head p h.tail_in h.few h.stored;
        })
]

dequeue-Holds :
    (rb : RingBuffer) (q : List ℕ)
    → Holds rb q
    → ((fifo_dequeue rb).0 ≡ (queue_step q dequeue).0)
      × Holds (fifo_dequeue rb).1 (queue_step q dequeue).1
unfolding fifo_dequeue rb_pop queue_step rb_is_empty Stored
dequeue-Holds rb [] h =
    let empty : rb_is_empty rb ≡ true = ground (arith, h.stored) in rw empty (refl, h)
dequeue-Holds rb (p ∷ q) h =
    let later =
      Stored-head rb.buffer ((rb.tail + 1) % ring_buffer_size) q rb.head (omega arith) h.stored.1 in
    let some_left : rb_is_empty rb ≡ false = ground (arith, h.tail_in, h.few) in
    rw some_left (
      h.stored.0,
      record { tail_in = omega arith; few = omega (arith, h.few); stored = h.stored.1 },
    )

step-Holds :
    (rb : RingBuffer) (q : List ℕ) (op : Op)
    → Holds rb q
    → ((step rb op).0 ≡ (queue_step q op).0) × Holds (step rb op).1 (queue_step q op).1
unfolding step queue_step fifo_enqueue
step-Holds rb q (enqueue p) h = (refl, enqueue-Holds rb q p h)
step-Holds rb q dequeue h = dequeue-Holds rb q h

run-queue_run :
    (rb : RingBuffer) (q : List ℕ) (ops : List Op) → Holds rb q → run rb ops ≡ queue_run q ops
unfolding run queue_run
run-queue_run rb q [] h = refl
run-queue_run rb q (op ∷ ops) h =
    let (e, k) = step-Holds rb q op h in
    λ i. e i ∷ run-queue_run (step rb op).1 (queue_step q op).1 ops k i

-- From `fifo_init` on, whatever the memory held, the callers get from every sequence of calls what
-- they would get from the list.
pub fifo-refines : (rb : RingBuffer) (ops : List Op) → run (fifo_init rb) ops ≡ queue_run [] ops
unfolding fifo_init Stored
fifo-refines rb ops =
    run-queue_run (fifo_init rb) [] ops
      (record { tail_in = omega arith; few = omega arith; stored = refl })
