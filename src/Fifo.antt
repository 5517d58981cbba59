-- ===== src/Fifo.antt =====
-- nvmevirt/fifo.c: the queue of pages of the mapping cache that are to be evicted, a ring of
-- pointers. Each operation runs under `fifo_spin` from beginning to end, so it is one step.
pub mod Queue
pub mod Tests
use virtkv.Common.{ℕ, Bool, if◌then◌else◌, ◌+◌, ◌==◌, false, ◌%◌, true, update}

abbrev pub ring_buffer_size : ℕ
ring_buffer_size = 600000

abbrev pub null : ℕ
null = 0

-- `struct ring_buffer`, less its lock, which no code takes. The array of pointers is a function of
-- the index.
pub record RingBuffer : Type 0 where
  pub buffer : ℕ → ℕ
  pub head : ℕ
  pub tail : ℕ

pub rb_init : RingBuffer → RingBuffer
rb_init rb = record rb { head = 0; tail = 0 }

pub rb_is_full : RingBuffer → Bool
rb_is_full rb = (rb.head + 1) % ring_buffer_size == rb.tail

pub rb_is_empty : RingBuffer → Bool
rb_is_empty rb = rb.head == rb.tail

-- The result is whether the code returns 0 and not -1.
pub rb_push : RingBuffer → ℕ → Bool × RingBuffer
unfolding rb_is_full
rb_push rb data_ptr = if rb_is_full rb then (false, rb) else (
  true,
  record rb { buffer = update rb.buffer rb.head data_ptr; head = (rb.head + 1) % ring_buffer_size },
)

pub rb_pop : RingBuffer → ℕ × RingBuffer
unfolding rb_is_empty
rb_pop rb =
    if rb_is_empty rb
    then (null, rb)
    else (rb.buffer rb.tail, record rb { tail = (rb.tail + 1) % ring_buffer_size })

-- `fifo_init` starts the one ring of the module.
pub fifo_init : RingBuffer → RingBuffer
unfolding rb_init
fifo_init rb = rb_init rb

-- `fifo_enqueue` does not look at what `rb_push` returns.
pub fifo_enqueue : RingBuffer → ℕ → ℕ × RingBuffer
unfolding rb_push
fifo_enqueue rb data_ptr = (10, (rb_push rb data_ptr).1)

pub fifo_dequeue : RingBuffer → ℕ × RingBuffer
unfolding rb_is_empty rb_pop
fifo_dequeue rb = if rb_is_empty rb then (null, rb) else rb_pop rb
