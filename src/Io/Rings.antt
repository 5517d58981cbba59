-- ===== src/Io/Rings.antt =====
-- The rings between host and device (nvmevirt/io.c): the dispatcher takes commands from the submission
-- queue and counts what the host has read of the completion queue, and the worker fills the latter.
pub mod Schedule
pub mod Serve
pub mod Read
pub mod Phase
use virtkv.Io.Reclaim.{reclaim_completed_reqs}
use virtkv.Io.Queue.{
  NvmevResult, Worker, enqueue_io_req, no_entry, Work, schedule_internal_operation,
  schedule_internal_operation_cb,
}
use virtkv.Common.{
  ℕ, Outcome, ◌+◌, Bool, Option, ◌%◌, ok, ◌^◌, suc, ◌>>=◌, if◌then◌else◌, some, ◌==◌, none, zero,
  ◌*◌, leb, ltb, ◌-◌, update, true, stuck, bug, ◌/◌, List, [], ◌∷◌,
}

-- What the dispatcher reads of `struct nvme_command`.
pub record Command : Type 0 where
  pub command_id : ℕ
  pub length : ℕ

-- `struct nvmev_sq_stat`.
pub record SqStat : Type 0 where
  pub nr_dispatched : ℕ
  pub nr_dispatch : ℕ
  pub nr_in_flight : ℕ
  pub max_nr_in_flight : ℕ
  pub total_io : ℕ

-- `struct nvmev_submission_queue`, with its ring as a function.
pub record SubmissionQueue : Type 0 where
  pub cqid : ℕ
  pub queue_size : ℕ
  pub stat : SqStat
  pub sq : ℕ → Command

-- A call of `schedule_internal_operation` (`later`) or `schedule_internal_operation_cb` (`callback`) with its
-- arguments. In the first the clock is what `local_clock()` gives then. A number of a queue is drawn where the
-- caller passes INT_MAX.
pub data Internal : Type 0 where
  later : (sqid clock nsecs_target write_buffer buffs_to_release : ℕ) → Internal
  callback : (sqid nsecs_start mem ppa len cb args : ℕ) (read : Bool) (cb_w : Option ℕ) → Internal

-- `proc_io_cmd` of a namespace with the state `S`, at a command, its `nsecs_start` and the result before. It
-- gives the internal work that it schedules on the way, in its order: both calls return nothing to it.
abbrev pub ProcIoCmd : Type 0 → Type 0
ProcIoCmd S = S → Command → ℕ → NvmevResult → Bool × NvmevResult × S × List Internal

-- The parts of `struct nvmev_dev` that the dispatcher goes by: the namespace, the workers, and one
-- submission queue. The field `io_worker_turn`, which it sets but with CONFIG_NVMEV_IO_WORKER_BY_SQ
-- never goes by, is left out.
pub record Device (S : Type 0) : Type 0 where
  pub ns : S
  pub nr_io_workers : ℕ
  pub io_workers : ℕ → Worker
  pub queue : SubmissionQueue

-- `__get_io_worker`, on unsigned numbers of 32 bits.
abbrev pub get_io_worker : ℕ → ℕ → ℕ
get_io_worker nr_io_workers sqid = (sqid + no_entry) % 2 ^ 32 % nr_io_workers

-- The loop of `__reclaim_completed_reqs` over the workers from `turn` on, with `left` to go.
pub reclaim_all : ℕ → ℕ → (ℕ → Worker) → Outcome (ℕ → Worker)
reclaim_all zero turn ws = ok ws
reclaim_all (suc left) turn ws = do
  w ← reclaim_completed_reqs (ws turn)
  reclaim_all left (turn + 1) (update ws turn w)

-- One call: without a free entry the first drops the work, and the second stops by its BUG_ON.
pub schedule : ℕ → Internal → (ℕ → Worker) → Outcome (ℕ → Worker)
schedule nr_io_workers (later sqid clock nsecs_target write_buffer buffs_to_release) ws = do
  let i = get_io_worker nr_io_workers sqid
  (entry, w) ←
      schedule_internal_operation (ws i) sqid clock nsecs_target write_buffer buffs_to_release
  ok (update ws i w)
schedule nr_io_workers (callback sqid nsecs_start mem ppa len cb args read cb_w) ws = do
  let i = get_io_worker nr_io_workers sqid
  (entry, w) ← schedule_internal_operation_cb (ws i) sqid nsecs_start mem ppa len cb args read cb_w
  ok (update ws i w)

pub schedule_all : ℕ → List Internal → (ℕ → Worker) → Outcome (ℕ → Worker)
unfolding schedule
schedule_all nr_io_workers [] ws = ok ws
schedule_all nr_io_workers (op ∷ ops) ws =
    schedule nr_io_workers op ws >>= λ ws'. schedule_all nr_io_workers ops ws'

-- What the loop of `nvmev_proc_io_sq` counts at a command.
pub count_command : SubmissionQueue → ℕ → SubmissionQueue
count_command q io_size = record q {
  stat = record q.stat {
    nr_dispatched = (q.stat.nr_dispatched + 1) % 2 ^ 32;
    nr_in_flight = (q.stat.nr_in_flight + 1) % 2 ^ 32;
    total_io = (q.stat.total_io + io_size) % 2 ^ 64;
  };
}

-- A number as an `int`, moved so that its order is that of the naturals.
abbrev signed : ℕ → ℕ
signed n = (n + 2 ^ 31) % 2 ^ 32

-- What it counts at its end. `max_t(int, …)` compares signed numbers.
pub count_dispatch : SqStat → SqStat
count_dispatch stat = record stat {
  nr_dispatch = (stat.nr_dispatch + 1) % 2 ^ 32;
  max_nr_in_flight =
      if leb (signed stat.nr_in_flight) (signed stat.max_nr_in_flight)
      then stat.max_nr_in_flight
      else stat.nr_in_flight;
}

-- cmd->rw.length is one less than the number of 512-byte units.
abbrev pub io_size_of : Command → ℕ
io_size_of cmd = (cmd.length + 1) * 2 ^ 9

abbrev pub initial_result : ℕ → NvmevResult
initial_result nsecs_start = record { nsecs_target = nsecs_start; status = 0; cb = 0; args = 0 }

module _ {S : Type 0} (proc_io_cmd : ProcIoCmd S) (sqid : ℕ) (wallclock local_clock : ℕ → ℕ) where
  -- What `proc_io_cmd` makes of the `seq`th command.
  abbrev pub answer : ℕ → Command → S → Bool × NvmevResult × S × List Internal
  answer seq cmd ns = proc_io_cmd ns cmd (wallclock seq) (initial_result (wallclock seq))

  -- A command that the namespace has accepted is put into the queue of its worker, and then all
  -- workers' done entries are reclaimed.
  pub dispatch : ℕ → ℕ → NvmevResult → Device S → Outcome (Device S)
  unfolding reclaim_all
  dispatch seq sq_entry ret d = do
    let i = get_io_worker d.nr_io_workers sqid
    (entry, w) ←
        enqueue_io_req (d.io_workers i) sqid d.queue.cqid sq_entry (d.queue.sq sq_entry).command_id
          (wallclock seq) (local_clock seq) ret
    ws ← reclaim_all d.nr_io_workers 0 (update d.io_workers i w)
    ok (record d { io_workers = ws })

  -- `__nvmev_proc_io`, as the `seq`th of its loop: the size, unless the command is refused. The namespace
  -- has scheduled its internal work before.
  pub proc_io : ℕ → ℕ → Device S → Outcome (Option ℕ × Device S)
  unfolding dispatch schedule_all
  proc_io seq sq_entry d =
      let (accepted, ret, ns, ops) = answer seq (d.queue.sq sq_entry) d.ns in
      schedule_all d.nr_io_workers ops d.io_workers >>= λ ws.
      let d' : Device S = record d { ns = ns; io_workers = ws } in
      if accepted
      then (dispatch seq sq_entry ret d' >>= λ d''.
          ok (some (io_size_of (d.queue.sq sq_entry)), d''))
      else ok (none, d')

  -- Whether the loop goes on.
  pub counted :
      ℕ → (Device S → Outcome (ℕ × Device S)) → Option ℕ × Device S → Outcome (ℕ × Device S)
  counted seq next (none, d) = ok (seq, d)
  counted seq next (some io_size, d) = next (record d { queue = count_command d.queue io_size })

  -- The loop of `nvmev_proc_io_sq`: the number of the commands that are taken.
  pub proc_entries : ℕ → ℕ → ℕ → Device S → Outcome (ℕ × Device S)
  unfolding proc_io count_command counted
  proc_entries zero seq sq_entry d = ok (seq, d)
  proc_entries (suc left) seq sq_entry d =
      let entry' = if sq_entry + 1 == d.queue.queue_size then 0 else sq_entry + 1 in
      proc_io seq sq_entry d >>= λ r. counted seq (λ d'. proc_entries left (suc seq) entry' d') r

  -- `nvmev_proc_io_sq`, at a queue that there is: the doorbell to go on from.
  pub nvmev_proc_io_sq : ℕ → ℕ → Device S → Outcome (ℕ × Device S)
  unfolding proc_entries count_dispatch
  nvmev_proc_io_sq new_db old_db d = do
    let size = d.queue.queue_size
    let num_proc = if ltb new_db old_db then new_db + size - old_db else new_db - old_db
    (seq, d') ← proc_entries num_proc 0 old_db d
    ok (
      (old_db + seq) % size,
      record d' { queue = record d'.queue { stat = count_dispatch d'.queue.stat } },
    )

-- `struct nvme_completion`.
pub record Completion : Type 0 where
  pub command_id : ℕ
  pub sq_id : ℕ
  pub sq_head : ℕ
  pub status : ℕ
  pub result0 : ℕ
  pub result1 : ℕ

-- `struct nvmev_completion_queue`, with its ring as a function, less its interrupts and locks.
pub record CompletionQueue : Type 0 where
  pub queue_size : ℕ
  pub phase : ℕ
  pub cq_head : ℕ
  pub cq_tail : ℕ
  pub interrupt_ready : Bool
  pub cq : ℕ → Completion

abbrev pub less : Option ℕ → Option ℕ
less none = none
less (some n) = some ((n + no_entry) % 2 ^ 32)

-- nvmev_vdev->sqes[sqid]->stat.nr_in_flight--, where there is such a queue.
abbrev pub count_back : (ℕ → Option ℕ) → ℕ → ℕ → Option ℕ
count_back in_flight sqid j = if j == sqid then less (in_flight j) else in_flight j

-- Whether `cq_entry(i)` is in one of the pages of the ring, as the admin command that made it took them:
-- a page is 4096 bytes, 256 completions of 16 bytes.
abbrev pub readable : CompletionQueue → ℕ → Bool
readable q i = ltb (i / 256) ((q.queue_size * 16 + 4095) / 4096)

-- The loop of `nvmev_proc_io_cq`, on the counts of the submission queues. It reads the completion at `i`
-- before it compares `i` with the size of the ring; `bug` is a read beyond the array of pages, and
-- `stuck` means that the fuel ran out.
pub count_read : ℕ → CompletionQueue → (new_db i : ℕ) → (ℕ → Option ℕ) → Outcome (ℕ → Option ℕ)
count_read zero q new_db i in_flight = stuck
count_read (suc fuel) q new_db i in_flight =
    let around = count_read fuel q new_db 0 in_flight in
    let onward = count_read fuel q new_db (i + 1) (count_back in_flight (q.cq i).sq_id) in
    if i == new_db
    then ok in_flight
    else if readable q i
    then (if leb q.queue_size i then around else onward)
    else bug

-- `nvmev_proc_io_cq`.
pub nvmev_proc_io_cq :
    CompletionQueue
    → (new_db old_db : ℕ) → (ℕ → Option ℕ)
    → Outcome (CompletionQueue × (ℕ → Option ℕ))
unfolding count_read
nvmev_proc_io_cq q new_db old_db in_flight = do
  counted ← count_read (q.queue_size + 2) q new_db old_db in_flight
  let tail = if new_db == no_entry then q.queue_size - 1 else (new_db + no_entry) % 2 ^ 32
  ok (record q { cq_tail = tail }, counted)

-- `__fill_cq_result`.
unfoldable pub fill_cq_result : CompletionQueue → Work → CompletionQueue
fill_cq_result q w = record q {
  cq = update q.cq q.cq_head (record {
    command_id = w.command_id % 2 ^ 16;
    sq_id = w.sqid % 2 ^ 16;
    sq_head = w.sq_entry % 2 ^ 16;
    status = (q.phase + 2 * w.status) % 2 ^ 16;
    result0 = w.result0;
    result1 = w.result1;
  });
  cq_head = if q.cq_head + 1 == q.queue_size then 0 else q.cq_head + 1;
  phase = if q.cq_head + 1 == q.queue_size then (if q.phase == 0 then 1 else 0) else q.phase;
  interrupt_ready = true;
}
