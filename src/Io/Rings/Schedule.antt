-- ===== src/Io/Rings/Schedule.antt =====
-- What the dispatcher does to the workers' queues beside putting commands in: the internal work that the
-- namespace schedules (schedule_internal_operation and schedule_internal_operation_cb) and the reclaiming
-- of done entries (nvmevirt/io.c).
use virtkv.Io.Worker.Steps.{IsWorker, put_work_returns, put_work_must}
use virtkv.Io.Reclaim.Queues.{reclaim_completed_reqs-Reclaimed}
use virtkv.Io.Rings.{reclaim_all, get_io_worker, Internal, later, callback, schedule, schedule_all}
use virtkv.Io.Queue.{Worker, internal_fill, internal_cb_fill}
use virtkv.Common.{
  ℕ, ◌≡◌, ◌+◌, ◌++◌, ◌==◌, zero, suc, ok, update, refl, inl, inr, Bool-cases, List, [], ◌∷◌, Bool,
  Option, bug, ◌⊎◌,
}

abbrev pub AllWorkers : (ℕ → Worker) → Type 0
AllWorkers ws = (i : ℕ) → IsWorker (ws i)

pub update-AllWorkers :
    (ws : ℕ → Worker) (i : ℕ) (w : Worker) → AllWorkers ws → IsWorker w → AllWorkers (update ws i w)
update-AllWorkers ws i w all one j = elim (Bool-cases (j == i)) [
  | inl here ↦ rw here one
  | inr there ↦ rw there (all j)
]

pub reclaim_all-AllWorkers :
    (left turn : ℕ) (ws : ℕ → Worker)
    → AllWorkers ws
    → (ws' : ℕ → Worker) × (reclaim_all left turn ws ≡ ok ws') × AllWorkers ws'
unfolding reclaim_all
reclaim_all-AllWorkers zero turn ws all = (ws, refl, all)
reclaim_all-AllWorkers (suc left) turn ws all =
    let (xs, y, zs, h) = all turn in
    let (w, d, r, e, q) = reclaim_completed_reqs-Reclaimed (ws turn) xs y zs h in
    let (ws', e', all') =
      reclaim_all-AllWorkers left (turn + 1) (update ws turn w)
        (update-AllWorkers ws turn w all (r, y, zs ++ d, q.queues)) in
    (ws', rw e e', all')

-- Some of the calls is one of `schedule_internal_operation_cb`.
pub data HasCallback : List Internal → Type 0 where
  at_head :
      {ops : List Internal} (sqid nsecs_start mem ppa len cb args : ℕ) (read : Bool)
      (cb_w : Option ℕ)
      → HasCallback (callback sqid nsecs_start mem ppa len cb args read cb_w ∷ ops)
  behind : {op : Internal} {ops : List Internal} → HasCallback ops → HasCallback (op ∷ ops)

schedule-AllWorkers :
    (nr : ℕ) (op : Internal) (ops : List Internal) (ws : ℕ → Worker)
    → AllWorkers ws
    → ((ws' : ℕ → Worker) × (schedule nr op ws ≡ ok ws') × AllWorkers ws')
      ⊎ ((schedule nr op ws ≡ bug) × HasCallback (op ∷ ops))
unfolding schedule
schedule-AllWorkers nr (later sqid clock nsecs_target write_buffer buffs_to_release) ops ws all =
    let i = get_io_worker nr sqid in
    let (e, w, found, one) =
      put_work_returns (internal_fill sqid clock nsecs_target write_buffer buffs_to_release) (ws i)
        (record { no_prev = λ old. refl; no_next = λ old. refl }) (all i) in
    inl (update ws i w, rw found refl, update-AllWorkers ws i w all one)
schedule-AllWorkers nr (callback sqid nsecs_start mem ppa len cb args read cb_w) ops ws all =
    let i = get_io_worker nr sqid in
    elim (put_work_must (internal_cb_fill sqid nsecs_start mem ppa len cb args read cb_w) (ws i)
      (record { no_prev = λ old. refl; no_next = λ old. refl }) (all i)) [
        | inl (e, w, found, one) ↦
            inl (update ws i w, rw found refl, update-AllWorkers ws i w all one)
        | inr full ↦ inr (rw full refl, at_head sqid nsecs_start mem ppa len cb args read cb_w)
      ]

pub schedule_all-AllWorkers :
    (nr : ℕ) (ops : List Internal) (ws : ℕ → Worker)
    → AllWorkers ws
    → ((ws' : ℕ → Worker) × (schedule_all nr ops ws ≡ ok ws') × AllWorkers ws')
      ⊎ ((schedule_all nr ops ws ≡ bug) × HasCallback ops)
unfolding schedule_all
schedule_all-AllWorkers nr [] ws all = inl (ws, refl, all)
schedule_all-AllWorkers nr (op ∷ ops) ws all = elim (schedule-AllWorkers nr op ops ws all) [
  | inr (full, cb) ↦ inr (rw full refl, cb)
  | inl (ws', found, all') ↦ elim (schedule_all-AllWorkers nr ops ws' all') [
    | inl (ws'', found', all'') ↦ inl (ws'', rw found found', all'')
    | inr (full, cb) ↦ inr (rw found full, behind cb)
  ]
]
