-- ===== src/Io/Queue.antt =====
-- The work queue of an I/O worker (nvmevirt/io.c, nvmevirt/nvmev.h): an array of entries, of which
-- some are chained by index in the order of their target times, and the others are free. Only the
-- dispatcher changes the chains, so each of its operations is one step.
pub mod Chain
pub mod Place
pub mod Insert
pub mod Order
pub mod Relink
pub mod Free
pub mod Put
use virtkv.Common.{
  ◌%◌, ◌+◌, ℕ, ◌^◌, Bool, update, Option, if◌then◌else◌, Outcome, ◌-◌, leb, none, ◌==◌, ◌&&◌, suc,
  ◌||◌, some, ok, stuck, zero, bug, false, true, ◌>>=◌,
}

abbrev pub nr_max_parallel_io : ℕ
nr_max_parallel_io = 16384

-- -1, as an `unsigned int`.
abbrev pub no_entry : ℕ
no_entry = 2 ^ 32 - 1

-- `struct nvmev_io_work`, less the times that only PERF_DEBUG takes. Pointers are numbers, but `cb_w`,
-- which is NULL or points to an entry of the same worker.
pub record Work : Type 0 where
  pub sqid : ℕ
  pub cqid : ℕ
  pub sq_entry : ℕ
  pub command_id : ℕ
  pub nsecs_start : ℕ
  pub nsecs_target : ℕ
  pub nsecs_enqueue : ℕ
  pub is_copied : Bool
  pub is_completed : Bool
  pub status : ℕ
  pub result0 : ℕ
  pub result1 : ℕ
  pub is_internal : Bool
  pub write_buffer : ℕ
  pub buffs_to_release : ℕ
  pub next : ℕ
  pub prev : ℕ
  pub read : Bool
  pub len : ℕ
  pub mem : ℕ
  pub ppa : ℕ
  pub cb : ℕ
  pub args : ℕ
  pub cb_w : Option ℕ

-- `struct nvmev_io_worker`, less its thread.
pub record Worker : Type 0 where
  pub work_queue : ℕ → Work
  pub free_seq : ℕ
  pub free_seq_end : ℕ
  pub io_seq : ℕ
  pub io_seq_end : ℕ
  pub latest_nsecs : ℕ

-- worker->work_queue[i] = v, ->work_queue[i].next = v and ->work_queue[i].prev = v.
abbrev pub set_work : Worker → ℕ → Work → Worker
set_work w i v = record w { work_queue = update w.work_queue i v }

abbrev pub set_next : Worker → ℕ → ℕ → Worker
set_next w i v = set_work w i (record (w.work_queue i) { next = v })

abbrev pub set_prev : Worker → ℕ → ℕ → Worker
set_prev w i v = set_work w i (record (w.work_queue i) { prev = v })

-- The tests on which the loop of `__insert_req_sorted` stops.
abbrev pub stops_at : Worker → ℕ → ℕ → Bool
stops_at w nsecs_target curr =
    leb (w.work_queue curr).nsecs_target w.latest_nsecs
    || leb (w.work_queue curr).nsecs_target nsecs_target

-- That loop: `none` means that the fuel ran out.
pub find_place : ℕ → Worker → ℕ → ℕ → Option ℕ
find_place zero w nsecs_target curr = none
find_place (suc fuel) w nsecs_target curr =
    let rest = find_place fuel w nsecs_target (w.work_queue curr).prev in
    if curr == no_entry then some curr else if stops_at w nsecs_target curr then some curr else rest

-- The three cases after the loop: at the head, at the tail, in between.
pub link_after : Worker → ℕ → ℕ → Worker
link_after w entry curr =
    if curr == no_entry
    then link_head
    else if (w.work_queue curr).next == no_entry
    then link_tail
    else link_between
  where
    link_head : Worker
    link_head = record (set_next (set_prev w w.io_seq entry) entry w.io_seq) { io_seq = entry }

    link_tail : Worker
    link_tail = set_next (record (set_prev w entry curr) { io_seq_end = entry }) curr entry

    linked : Worker
    linked = set_next (set_prev w entry curr) entry ((set_prev w entry curr).work_queue curr).next

    link_between : Worker
    link_between = set_next (set_prev linked (linked.work_queue entry).next entry) curr entry

-- `__insert_req_sorted`.
pub insert_req_sorted : Worker → ℕ → ℕ → Outcome Worker
insert_req_sorted w entry nsecs_target =
    if w.io_seq == no_entry
    then ok (record w { io_seq = entry; io_seq_end = entry })
    else elim (find_place (suc nr_max_parallel_io) w nsecs_target w.io_seq_end) [
      | none ↦ stuck
      | some curr ↦ ok (link_after w entry curr)
    ]

-- `__allocate_work_queue_entry`, at the worker of the submission queue: the entry, if one may be had.
pub allocate_work_queue_entry : Worker → Outcome (Option ℕ × Worker)
allocate_work_queue_entry w =
    if leb nr_max_parallel_io (w.work_queue w.free_seq).next
    then ok (none, w)
    else ok (some w.free_seq, record w { free_seq = (w.work_queue w.free_seq).next })

-- `struct nvmev_result`.
pub record NvmevResult : Type 0 where
  pub nsecs_target : ℕ
  pub status : ℕ
  pub cb : ℕ
  pub args : ℕ

-- The common part of the three functions that put work into the queue: an entry is allocated, filled
-- and inserted. With no entry they return, or, where they must have one, run into a BUG_ON.
pub put_at : Bool → (Work → Work) → Worker → Option ℕ → Outcome (Option ℕ × Worker)
put_at must_have fill w none = if must_have then bug else ok (none, w)
put_at must_have fill w (some e) = do
  let work = fill (w.work_queue e)
  w' ← insert_req_sorted (set_work w e work) e work.nsecs_target
  ok (some e, w')

pub put_work : Bool → (Work → Work) → Worker → Outcome (Option ℕ × Worker)
unfolding allocate_work_queue_entry put_at
put_work must_have fill w = do
  (entry, w') ← allocate_work_queue_entry w
  put_at must_have fill w' entry

-- What the next function writes into the entry.
abbrev pub enqueue_fill :
    (sqid cqid sq_entry command_id nsecs_start local_clock : ℕ) → NvmevResult → Work → Work
enqueue_fill sqid cqid sq_entry command_id nsecs_start local_clock ret old = record old {
  sqid = sqid;
  cqid = cqid;
  sq_entry = sq_entry;
  command_id = command_id;
  nsecs_start = nsecs_start;
  nsecs_enqueue = local_clock;
  nsecs_target = ret.nsecs_target;
  status = ret.status;
  is_completed = false;
  is_copied = false;
  prev = no_entry;
  next = no_entry;
  cb = ret.cb;
  args = ret.args;
  is_internal = false;
}

-- `__enqueue_io_req`, with the time of its `local_clock`. The worker is that of `sqid`.
abbrev pub enqueue_io_req :
    Worker
    → (sqid cqid sq_entry command_id nsecs_start local_clock : ℕ) → NvmevResult
    → Outcome (Option ℕ × Worker)
enqueue_io_req w sqid cqid sq_entry command_id nsecs_start local_clock ret =
    put_work false (enqueue_fill sqid cqid sq_entry command_id nsecs_start local_clock ret) w

-- What the next function writes into the entry.
abbrev pub internal_fill :
    (sqid local_clock nsecs_target write_buffer buffs_to_release : ℕ) → Work → Work
internal_fill sqid local_clock nsecs_target write_buffer buffs_to_release old = record old {
  sqid = sqid;
  nsecs_start = local_clock;
  nsecs_enqueue = local_clock;
  nsecs_target = nsecs_target;
  is_completed = false;
  is_copied = true;
  prev = no_entry;
  next = no_entry;
  is_internal = true;
  write_buffer = write_buffer;
  buffs_to_release = buffs_to_release;
}

-- `schedule_internal_operation`.
abbrev pub schedule_internal_operation :
    Worker
    → (sqid local_clock nsecs_target write_buffer buffs_to_release : ℕ)
    → Outcome (Option ℕ × Worker)
schedule_internal_operation w sqid local_clock nsecs_target write_buffer buffs_to_release =
    put_work false (internal_fill sqid local_clock nsecs_target write_buffer buffs_to_release) w

-- What the next function writes into the entry.
abbrev pub internal_cb_fill :
    (sqid nsecs_start mem ppa len cb args : ℕ) → Bool → Option ℕ → Work → Work
internal_cb_fill sqid nsecs_start mem ppa len cb args read cb_w old = record old {
  sqid = sqid;
  nsecs_start = nsecs_start;
  nsecs_enqueue = nsecs_start;
  nsecs_target = ppa;
  is_completed = false;
  is_copied = false;
  prev = no_entry;
  next = no_entry;
  cb = cb;
  args = args;
  cb_w = cb_w;
  read = read;
  mem = mem;
  ppa = ppa;
  len = len;
  is_internal = true;
  write_buffer = 0;
  buffs_to_release = 0;
}

-- `schedule_internal_operation_cb`: the target time is the parameter `ppa`.
abbrev pub schedule_internal_operation_cb :
    Worker
    → (sqid nsecs_start mem ppa len cb args : ℕ) → Bool
    → Option ℕ
    → Outcome (Option ℕ × Worker)
schedule_internal_operation_cb w sqid nsecs_start mem ppa len cb args read cb_w =
    put_work true (internal_cb_fill sqid nsecs_start mem ppa len cb args read cb_w) w
