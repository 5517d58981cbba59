-- ===== src/Io/Worker/Steps.antt =====
-- All that happens to a work queue (nvmevirt/io.c), in any order: the dispatcher puts work in and
-- reclaims it, and the worker visits entries.
use virtkv.Io.Worker.Links.{SameLinks-Queues}
use virtkv.Io.Worker.Visit.{visit-SameLinks}
use virtkv.Io.Reclaim.Queues.{reclaim_completed_reqs-Reclaimed}
use virtkv.Io.Reclaim.{reclaim_completed_reqs}
use virtkv.Io.Worker.Init.{init_worker-Queues, ups}
use virtkv.Io.Queue.Put.{IsUnlinked, put_work-full, put_work-Put}
use virtkv.Io.Queue.Free.{Queues}
use virtkv.Io.Worker.{init_worker, visit, Calls, Service}
use virtkv.Io.Rings.{CompletionQueue}
use virtkv.Ssd.Buffer.{Buffer}
use virtkv.Io.Queue.{
  nr_max_parallel_io, Worker, enqueue_io_req, Work, NvmevResult, schedule_internal_operation,
  schedule_internal_operation_cb, put_work, enqueue_fill, internal_fill, internal_cb_fill,
}
use virtkv.Common.{
  ◌-◌, ℕ, Bool, List, Option, none, some, ◌≡◌, ok, [], sym, ◌∷◌, ◌++◌, true, false, refl, ◌⊎◌, inl,
  inr, bug,
}

pub data Step (calls : Calls) (w : Worker) : Worker → Type 0 where
  enqueued :
      {w' : Worker} (sqid cqid sq_entry command_id nsecs_start clock : ℕ) (ret : NvmevResult)
      (e : Option ℕ)
      → enqueue_io_req w sqid cqid sq_entry command_id nsecs_start clock ret ≡ ok (e, w')
      → Step calls w w'
  scheduled :
      {w' : Worker} (sqid clock nsecs_target write_buffer buffs_to_release : ℕ) (e : Option ℕ)
      → schedule_internal_operation w sqid clock nsecs_target write_buffer buffs_to_release
        ≡ ok (e, w')
      → Step calls w w'
  scheduled_cb :
      {w' : Worker} (sqid nsecs_start mem ppa len cb args : ℕ) (read : Bool) (cb_w e : Option ℕ)
      → schedule_internal_operation_cb w sqid nsecs_start mem ppa len cb args read cb_w ≡ ok (e, w')
      → Step calls w w'
  reclaimed : {w' : Worker} → reclaim_completed_reqs w ≡ ok w' → Step calls w w'
  visited :
      {s' : Service} (cqs : ℕ → CompletionQueue) (buffers : ℕ → Buffer) (curr now : ℕ)
      → visit calls (record { worker = w; cqs = cqs; buffers = buffers }) curr now ≡ ok s'
      → Step calls w s'.worker

pub data Reach (calls : Calls) (w : Worker) : Worker → Type 0 where
  here : Reach calls w w
  next : {u v : Worker} → Reach calls w u → Step calls u v → Reach calls w v

-- Each entry of the array is in the queue or free.
abbrev pub IsWorker : Worker → Type 0
IsWorker w = (xs : List ℕ) × (y : ℕ) × (zs : List ℕ) × Queues w xs y zs

put_work-IsWorker :
    (must : Bool) (fill : Work → Work) (w w' : Worker) (e : Option ℕ)
    → IsUnlinked fill
    → IsWorker w
    → put_work must fill w ≡ ok (e, w')
    → IsWorker w'
put_work-IsWorker true fill w w' e u (xs, y, [], h) r =
    let full = put_work-full true fill w xs y h in absurd cc
put_work-IsWorker false fill w w' e u (xs, y, [], h) r =
    let full = put_work-full false fill w xs y h in
    let same : w ≡ w' = cc in rw (sym same) (xs, y, [], h)
put_work-IsWorker must fill w w' e u (xs, y, z ∷ zs, h) r =
    let (v, p, q, r', split, put) = put_work-Put must fill w xs zs y z u h in
    let same : v ≡ w' = cc in rw (sym same) (p ++ (y ∷ q), z, zs, put.queues)

-- Work that need not be put in is put in if there is an entry.
pub put_work_returns :
    (fill : Work → Work) (w : Worker)
    → IsUnlinked fill
    → IsWorker w
    → (e : Option ℕ) × (w' : Worker) × (put_work false fill w ≡ ok (e, w')) × IsWorker w'
put_work_returns fill w u (xs, y, [], h) =
    (none, w, put_work-full false fill w xs y h, (xs, y, [], h))
put_work_returns fill w u (xs, y, z ∷ zs, h) =
    let (w', p, q, r, split, put) = put_work-Put false fill w xs zs y z u h in
    (some y, w', r, (p ++ (y ∷ q), z, zs, put.queues))

-- Work that must be put in is put in, or the queue is full.
pub put_work_must :
    (fill : Work → Work) (w : Worker)
    → IsUnlinked fill
    → IsWorker w
    → ((e : Option ℕ) × (w' : Worker) × (put_work true fill w ≡ ok (e, w')) × IsWorker w')
      ⊎ (put_work true fill w ≡ bug)
put_work_must fill w u (xs, y, [], h) = inr (put_work-full true fill w xs y h)
put_work_must fill w u (xs, y, z ∷ zs, h) =
    let (w', p, q, r, split, put) = put_work-Put true fill w xs zs y z u h in
    inl (some y, w', r, (p ++ (y ∷ q), z, zs, put.queues))

Step-IsWorker : {calls : Calls} {w w' : Worker} → Step calls w w' → IsWorker w → IsWorker w'
Step-IsWorker {w = w} (enqueued {w' = w'} sqid cqid sq_entry command_id nsecs_start clock ret e r)
      h =
    put_work-IsWorker false (enqueue_fill sqid cqid sq_entry command_id nsecs_start clock ret) w w'
      e (record { no_prev = λ old. refl; no_next = λ old. refl }) h r
Step-IsWorker {w = w}
      (scheduled {w' = w'} sqid clock nsecs_target write_buffer buffs_to_release e r) h =
    put_work-IsWorker false (internal_fill sqid clock nsecs_target write_buffer buffs_to_release) w
      w' e (record { no_prev = λ old. refl; no_next = λ old. refl }) h r
Step-IsWorker {w = w} (scheduled_cb {w' = w'} sqid nsecs_start mem ppa len cb args read cb_w e r)
      h =
    put_work-IsWorker true (internal_cb_fill sqid nsecs_start mem ppa len cb args read cb_w) w w' e
      (record { no_prev = λ old. refl; no_next = λ old. refl }) h r
Step-IsWorker {w = w} (reclaimed {w' = w'} r) (xs, y, zs, h) =
    let (v, d, rest, r', q) = reclaim_completed_reqs-Reclaimed w xs y zs h in
    let same : v ≡ w' = cc in rw (sym same) (rest, y, zs ++ d, q.queues)
Step-IsWorker {calls = calls} {w = w} (visited {s' = s'} cqs buffers curr now r) (xs, y, zs, h) =
    let links =
      visit-SameLinks calls (record { worker = w; cqs = cqs; buffers = buffers }) s' curr now r in
    (xs, y, zs, SameLinks-Queues w s'.worker xs y zs links h)

Reach-preserves : {calls : Calls} {w w' : Worker} → Reach calls w w' → IsWorker w → IsWorker w'
Reach-preserves here h = h
Reach-preserves (next r s) h = Step-IsWorker s (Reach-preserves r h)

-- From a new queue on, in whatever order the dispatcher puts work in and reclaims it and the worker visits entries, each entry of the array is
-- at any time either in the queue or free, both chained to their ends.
pub Reach-IsWorker :
    (calls : Calls) (memory : ℕ → Work) (w : Worker)
    → Reach calls (init_worker memory) w
    → IsWorker w
Reach-IsWorker calls memory w r =
    Reach-preserves r ([], 0, 1 ∷ ups (nr_max_parallel_io - 2) 2, init_worker-Queues memory)
