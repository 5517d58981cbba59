-- ===== src/Io/Tests.antt =====
-- The theorems on the dispatcher and its worker (nvmevirt/io.c) at small queues.
use virtkv.Io.Worker.Steps.{IsWorker, Reach-IsWorker, here, next, enqueued}
use virtkv.Io.Worker.Visit.{Visited, visit-Visited}
use virtkv.Io.Worker.Init.{init_worker-Queues, linked-Queues, ups}
use virtkv.Io.Worker.{Calls, Service, init_worker, visit, has_args}
use virtkv.Io.Rings.Read.{nvmev_proc_io_cq-Counted, nvmev_proc_io_cq-beyond, Counted, completions}
use virtkv.Io.Rings.Phase.{fill_all, slot_at, phase_at, completion_of, fill_all-completion}
use virtkv.Io.Rings.{CompletionQueue, Device, ProcIoCmd, later, callback, nvmev_proc_io_cq}
use virtkv.Io.Reclaim.Queues.{Reclaimed, reclaim_completed_reqs-Reclaimed}
use virtkv.Io.Reclaim.{reclaim_completed_reqs}
use virtkv.Io.Queue.Put.{enqueue_io_req-Put}
use virtkv.Io.Queue.Order.{IsSorted, key}
use virtkv.Io.Queue.Free.{Queues}
use virtkv.Io.Queue.Chain.{has}
use virtkv.Io.Queue.{NvmevResult, Work, Worker, enqueue_io_req, no_entry, nr_max_parallel_io}
use virtkv.Common.{
  ℕ, List, Option, ◌≡◌, ◌<◌, ◌+◌, ◌-◌, ◌%◌, ◌^◌, ◌==◌, ◌++◌, [], ◌∷◌, if◌then◌else◌, true, false,
  ok, none, some, refl, arith, ltb, bug,
}

-- Zeroed memory.
abbrev blank : Work
blank = record {
  sqid = 0;
  cqid = 0;
  sq_entry = 0;
  command_id = 0;
  nsecs_start = 0;
  nsecs_target = 0;
  nsecs_enqueue = 0;
  is_copied = false;
  is_completed = false;
  status = 0;
  result0 = 0;
  result1 = 0;
  is_internal = false;
  write_buffer = 0;
  buffs_to_release = 0;
  next = 0;
  prev = 0;
  read = false;
  len = 0;
  mem = 0;
  ppa = 0;
  cb = 0;
  args = 0;
  cb_w = none;
}

abbrev idle : Worker
idle = init_worker (λ x. blank)

abbrev result : NvmevResult
result = record { nsecs_target = 5000; status = 0; cb = 0; args = 0 }

enqueue_io_req-Put_example :
    (w' : Worker) × (p : List ℕ) × (q : List ℕ) × (enqueue_io_req idle 1 1 0 7 1000 1001 result
      ≡ ok (some 0, w'))
    × ([] ≡ p ++ q)
    × Queues w' (p ++ (0 ∷ q)) 1 (ups (nr_max_parallel_io - 2) 2)
    × ((w'.work_queue 0).nsecs_target ≡ 5000)
    × ((w'.work_queue 0).is_completed ≡ false)
    × ((x : ℕ) → has x q ≡ true → key w' 0 < key w' x)
    × (IsSorted (key idle) [] → IsSorted (key w') (p ++ (0 ∷ q)))
enqueue_io_req-Put_example =
    enqueue_io_req-Put idle [] (ups (nr_max_parallel_io - 2) 2) 0 1 1 1 0 7 1000 1001 result
      (init_worker-Queues (λ x. blank))

-- A worker with one entry, which is done.
abbrev done_work : ℕ → Work
done_work x = record blank {
  nsecs_target = 5000;
  is_copied = true;
  is_completed = true;
  next = if x == 0 then no_entry else if ltb x 16383 then x + 1 else no_entry;
  prev = no_entry;
}

abbrev busy : Worker
busy = record {
  work_queue = done_work;
  free_seq = 1;
  free_seq_end = 16383;
  io_seq = 0;
  io_seq_end = 0;
  latest_nsecs = 6000;
}

busy-Queues : Queues busy (0 ∷ []) 1 (2 ∷ ups (nr_max_parallel_io - 3) 3)
busy-Queues =
    linked-Queues busy (0 ∷ []) 1 (nr_max_parallel_io - 3) refl
      (record {
        chain = (refl, refl, (refl, refl));
        distinct = (refl, tt);
        in_array = λ x h. ground arith;
      })
      refl (λ x le. ground arith) (λ x le lt. ground arith) refl refl refl

reclaim_completed_reqs-Reclaimed_example :
    (w' : Worker) × (d : List ℕ) × (r : List ℕ) × (reclaim_completed_reqs busy ≡ ok w')
    × Reclaimed busy w' (0 ∷ []) 1 (2 ∷ ups (nr_max_parallel_io - 3) 3) d r
reclaim_completed_reqs-Reclaimed_example =
    reclaim_completed_reqs-Reclaimed busy (0 ∷ []) 1 (2 ∷ ups (nr_max_parallel_io - 3) 3)
      busy-Queues

abbrev calls : Calls
calls = record { run = λ cb args. (9000, 1, 0); perform = λ w. some 4096 }

abbrev first : Worker
first = enqueue_io_req-Put_example.0

Reach-IsWorker_example : IsWorker first
Reach-IsWorker_example =
    Reach-IsWorker calls (λ x. blank) first
      (next here (enqueued 1 1 0 7 1000 1001 result (some 0) enqueue_io_req-Put_example.3))

-- A completion queue of four slots.
abbrev ring : CompletionQueue
ring = record {
  queue_size = 4;
  phase = 1;
  cq_head = 2;
  cq_tail = 1;
  interrupt_ready = false;
  cq = λ i. record { command_id = 0; sq_id = 1; sq_head = 0; status = 0; result0 = 0; result1 = 0 };
}

fill_all-completion_example :
    (fill_all ring (blank ∷ blank ∷ done_work 3 ∷ blank ∷ [])).cq (slot_at ring 2)
    ≡ completion_of (phase_at ring 2) (done_work 3)
fill_all-completion_example =
    fill_all-completion (blank ∷ blank ∷ []) (blank ∷ []) (done_work 3) ring (omega arith)
      (omega arith) (omega arith)

proc_cq_example :
    (q' : CompletionQueue) × (counts : ℕ → Option ℕ) × (nvmev_proc_io_cq ring 1 2 (λ j. some 5)
      ≡ ok (q', counts))
    × ((q'.cq_tail + 1) % 2 ^ 32 ≡ 1)
    × (q'.cq ≡ ring.cq)
    × ((j : ℕ) → Counted (some 5) (counts j) (completions ring j 3 2))
proc_cq_example =
    nvmev_proc_io_cq-Counted ring 1 2 (λ j. some 5) (omega arith) (omega arith) (omega arith)
      (λ past. omega arith)

-- A ring of one page.
abbrev page_ring : CompletionQueue
page_ring = record ring { queue_size = 256 }

cq_beyond_example : nvmev_proc_io_cq page_ring 1 255 (λ j. some 5) ≡ bug
cq_beyond_example =
    nvmev_proc_io_cq-beyond page_ring 1 255 (λ j. some 5) refl (omega arith) (omega arith)

-- A namespace that counts its commands, schedules the release of a write buffer and a callback for each, and
-- refuses the third.
abbrev count_two : ProcIoCmd ℕ
count_two n cmd nsecs_start ret =
    (ltb n 2, ret, n + 1, later 1 nsecs_start 7000 0 4096 ∷ callback 1 0 0 0 0 1 0 false none ∷ [])

abbrev device : Device ℕ
device = record {
  ns = 0;
  nr_io_workers = 2;
  io_workers = λ i. idle;
  queue = record {
    cqid = 1;
    queue_size = 4;
    stat = record {
      nr_dispatched = 0;
      nr_dispatch = 0;
      nr_in_flight = 0;
      max_nr_in_flight = 0;
      total_io = 0;
    };
    sq = λ i. record { command_id = i; length = 7 };
  };
}

-- A worker at a command of the host whose time has come.
abbrev waiting : Service
waiting = record {
  worker = record busy { work_queue = λ x. record blank { nsecs_target = 5000 } };
  cqs = λ i. ring;
  buffers = λ i. record { size = 4096; remaining = 0 };
}

visit_example : (s' : Service) × (visit calls waiting 0 6000 ≡ ok s') × Visited waiting s' 0 6000
unfolding has_args
visit_example = visit-Visited calls waiting 0 6000 refl
