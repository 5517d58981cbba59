-- ===== src/Io/Reclaim.antt =====
-- `__reclaim_completed_reqs` (nvmevirt/io.c): the dispatcher gives the done entries of a work queue back.
pub mod Done
pub mod Freed
pub mod Queues
use virtkv.Io.Queue.{Worker, set_next, nr_max_parallel_io, no_entry, set_prev}
use virtkv.Common.{
  ℕ, Bool, Option, Outcome, ◌&&◌, none, if◌then◌else◌, suc, leb, ◌==◌, some, stuck, ok, zero,
}

-- The loop of `__reclaim_completed_reqs`: the entry after the last one that is done, and that last
-- one, if any. `none` means that the fuel ran out.
abbrev pub is_done : Worker → ℕ → Bool
is_done w curr =
    (w.work_queue curr).is_completed
    && (w.work_queue curr).is_copied
    && leb (w.work_queue curr).nsecs_target w.latest_nsecs

pub last_done : ℕ → Worker → ℕ → ℕ → Option ℕ
last_done zero w last_entry curr = none
last_done (suc fuel) w last_entry curr =
    let rest = last_done fuel w curr (w.work_queue curr).next in
    if curr == no_entry then some last_entry else if is_done w curr then rest else some last_entry

-- The rest of its body: the entries from `first_entry` to `last_entry` go to the free ones.
pub free_entries : Worker → ℕ → ℕ → Worker
free_entries w first_entry last_entry = record (set_next joined joined.free_seq_end first_entry) {
  free_seq_end = last_entry;
}
  where
    after : ℕ
    after = (w.work_queue last_entry).next

    cut : Worker
    cut =
        set_next
          (if after == no_entry
            then record w { io_seq = after }
            else set_prev (record w { io_seq = after }) after no_entry)
          last_entry no_entry

    joined : Worker
    joined = set_prev cut first_entry cut.free_seq_end

-- `__reclaim_completed_reqs`, for one worker.
pub reclaim_completed_reqs : Worker → Outcome Worker
reclaim_completed_reqs w = elim (last_done (suc nr_max_parallel_io) w no_entry w.io_seq) [
  | none ↦ stuck
  | some last_entry ↦ ok (if last_entry == no_entry then w else free_entries w w.io_seq last_entry)
]
