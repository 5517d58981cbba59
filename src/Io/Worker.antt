-- ===== src/Io/Worker.antt =====
-- The thread of an I/O worker (nvmevirt/io.c): how it begins, and what it does at an entry of its queue.
pub mod Init
pub mod Links
pub mod Visit
pub mod Steps
use virtkv.Io.Queue.{Worker, Work, nr_max_parallel_io, set_work, no_entry}
use virtkv.Io.Rings.{CompletionQueue, fill_cq_result}
use virtkv.Ssd.Buffer.{Buffer, buffer_release}
use virtkv.Common.{
  false, ◌>>=◌, Bool, Outcome, ok, not, ◌||◌, nvmev_assert, ◌>>◌, ◌*◌, ℕ, Option, if◌then◌else◌,
  suc, some, leb, ◌+◌, ◌-◌, update, ◌==◌, true, ◌%◌, none, ◌^◌, zero,
}

-- What is not in this file of what the worker calls. `run cb args` is the target time, the result and
-- the status that a callback gives; `perform w` is the result of `__do_perform_io_kv`, at a command that
-- `identify_io_cmd` takes for one of a key-value disk, if DMA is not used.
pub record Calls : Type 0 where
  pub run : ℕ → ℕ → ℕ × ℕ × ℕ
  pub perform : Work → Option ℕ

-- A worker with the completion queues of the device and the write buffers, which are found by their address.
pub record Service : Type 0 where
  pub worker : Worker
  pub cqs : ℕ → CompletionQueue
  pub buffers : ℕ → Buffer

-- The callback of an internal operation sets the results, the status and the target time of the entry
-- that waits.
pub wake : Worker → Option ℕ → ℕ × ℕ × ℕ → Worker
wake w none out = w
wake w (some e) (target, result, status) = set_work w e (record (w.work_queue e) {
  result0 = result % 2 ^ 32;
  result1 = result % 2 ^ 32;
  status = status % 2 ^ 32;
  nsecs_target = target;
})

pub set_results : Worker → ℕ → Option ℕ → Worker
set_results w curr none = w
set_results w curr (some result) =
    set_work w curr (record (w.work_queue curr) { result0 = result; result1 = result })

-- What the worker's loop does at an entry that is not copied. A command of the host changes memory,
-- also by its callback, but nothing else here.
pub call_back : Calls → Worker → ℕ → Worker
unfolding wake set_results
call_back calls w curr =
    let work = w.work_queue curr in
    if work.is_internal
    then if work.cb == 0 then w else wake w work.cb_w (calls.run work.cb work.args)
    else set_results w curr (calls.perform work)

pub set_copied : Worker → ℕ → Worker
set_copied w curr = set_work w curr (record (w.work_queue curr) { is_copied = true })

pub copy_entry : Calls → Worker → ℕ → Worker
unfolding call_back set_copied
copy_entry calls w curr = set_copied (call_back calls w curr) curr

-- What an internal operation has held of its write buffer, if it has one, is given back.
pub release : (ℕ → Buffer) → Work → ℕ → Buffer
release buffers work =
    if work.write_buffer == 0
    then buffers
    else update buffers work.write_buffer
        (buffer_release (buffers work.write_buffer) work.buffs_to_release).1

-- A host's command is completed in its queue, an internal operation gives back its write buffer.
pub complete_entry : Service → ℕ → ℕ → Service
unfolding release
complete_entry s curr curr_nsecs =
    let work = s.worker.work_queue curr in
    if leb work.nsecs_target curr_nsecs
    then record {
      worker = set_work s.worker curr (record work { is_completed = true });
      cqs =
          if work.is_internal
          then s.cqs
          else update s.cqs work.cqid (fill_cq_result (s.cqs work.cqid) work);
      buffers = if work.is_internal then release s.buffers work else s.buffers;
    }
    else s

-- NVMEV_ASSERT(w->args) before a callback.
unfoldable pub has_args : Work → Bool
has_args work = not work.is_internal || work.cb == 0 || not (work.args == 0)

-- if (w->is_copied == false) { ... }
pub copy_once : Calls → Worker → ℕ → Bool → Outcome Worker
unfolding has_args copy_entry
copy_once calls w curr true = ok w
copy_once calls w curr false = do
  nvmev_assert (has_args (w.work_queue curr))
  ok (copy_entry calls w curr)

-- What follows if (w->is_completed == true) { ... continue; }
pub visit_entry : Calls → Service → ℕ → ℕ → Bool → Outcome Service
unfolding copy_once complete_entry
visit_entry calls s curr curr_nsecs true = ok s
visit_entry calls s curr curr_nsecs false = do
  w ← copy_once calls s.worker curr (s.worker.work_queue curr).is_copied
  ok (complete_entry (record s { worker = w }) curr curr_nsecs)

-- The body of the loop over the entries, at the time `curr_nsecs`.
pub visit : Calls → Service → ℕ → ℕ → Outcome Service
unfolding visit_entry
visit calls s curr curr_nsecs =
    visit_entry calls (record s { worker = record s.worker { latest_nsecs = curr_nsecs } }) curr
      curr_nsecs (s.worker.work_queue curr).is_completed

-- The loop of `NVMEV_IO_WORKER_INIT` over the entries, from the entry `i` on, on zeroed memory.
pub init_links : ℕ → ℕ → (ℕ → Work) → ℕ → Work
init_links zero i queue = queue
init_links (suc left) i queue =
    init_links left (i + 1)
      (update queue i (record (queue i) { next = i + 1; prev = (i + no_entry) % 2 ^ 32 }))

-- A worker as `NVMEV_IO_WORKER_INIT` leaves it.
pub init_worker : (ℕ → Work) → Worker
unfolding init_links
init_worker queue =
    let linked = init_links nr_max_parallel_io 0 queue in
    let last = nr_max_parallel_io - 1 in
    record {
      work_queue = update linked last (record (linked last) { next = no_entry });
      free_seq = 0;
      free_seq_end = last;
      io_seq = no_entry;
      io_seq_end = no_entry;
      latest_nsecs = 0;
    }
