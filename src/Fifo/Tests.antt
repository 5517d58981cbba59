-- ===== src/Fifo/Tests.antt =====
-- The queue of nvmevirt/fifo.c at a few calls, in a memory that was zero.
use virtkv.Fifo.Queue.{queue_run, queue_step, run, dequeue, enqueue, fifo-refines}
use virtkv.Fifo.{RingBuffer, fifo_init}
use virtkv.Common.{◌∷◌, [], ◌≡◌}

abbrev memory : RingBuffer
memory = record { buffer = λ i. 0; head = 77; tail = 5 }

fifo_example :
    run (fifo_init memory) (dequeue ∷ enqueue 3 ∷ enqueue 5 ∷ dequeue ∷ dequeue ∷ dequeue ∷ [])
    ≡ 0 ∷ 10 ∷ 10 ∷ 3 ∷ 5 ∷ 0 ∷ []
unfolding queue_run queue_step
fifo_example =
    fifo-refines memory (dequeue ∷ enqueue 3 ∷ enqueue 5 ∷ dequeue ∷ dequeue ∷ dequeue ∷ [])
