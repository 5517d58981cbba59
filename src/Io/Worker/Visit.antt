-- ===== src/Io/Worker/Visit.antt =====
-- What the worker does at an entry (nvmevirt/io.c): the chains stay, an entry is completed as soon as its
-- time has come, and a host's command is then posted once.
use virtkv.Io.Rings.{CompletionQueue, fill_cq_result}
use virtkv.Io.Worker.{
  copy_once, visit_entry, Calls, Service, set_results, has_args, copy_entry, visit, wake, call_back,
  complete_entry, set_copied, release,
}
use virtkv.Io.Queue.{Worker, Work}
use virtkv.Ssd.Buffer.{Buffer}
use mathlib.Core.Path.{subst}
use virtkv.Common.{
  bug, ap, sym, ◌&&◌, not, update, ok, ◌||◌, ℕ, ◌≡◌, ◌∙◌, refl, Bool, Option, leb, false,
  Bool-cases, ◌==◌, if◌then◌else◌, arith, some, true, inl, inr, none,
}
use virtkv.Io.Worker.Links.{
  SameLinks, SameLinks-refl, SameLinks-trans, set_work-SameLinks, copy_entry-SameLinks,
  seen-SameLinks,
}

-- The completion queues when an entry has just become as it is.
abbrev pub post : (ℕ → CompletionQueue) → Work → ℕ → CompletionQueue
post cqs work =
    if work.is_completed && not work.is_internal
    then update cqs work.cqid (fill_cq_result (cqs work.cqid) work)
    else cqs

-- The write buffers when an entry has just become as it is.
abbrev pub given_back : (ℕ → Buffer) → Work → ℕ → Buffer
given_back buffers work =
    if work.is_completed && work.is_internal then release buffers work else buffers

-- What the steps before the completion do to an entry.
record Flags (w w' : Worker) (curr : ℕ) : Type 0 where
  latest : w'.latest_nsecs ≡ w.latest_nsecs
  completed : (w'.work_queue curr).is_completed ≡ (w.work_queue curr).is_completed
  internal : (w'.work_queue curr).is_internal ≡ (w.work_queue curr).is_internal

wake-Flags : (w : Worker) (e : Option ℕ) (out : ℕ × ℕ × ℕ) (x : ℕ) → Flags w (wake w e out) x
unfolding wake
wake-Flags w none out x = record { latest = refl; completed = refl; internal = refl }
wake-Flags w (some e) out x = record {
  latest = refl;
  completed = ground arith;
  internal = ground arith;
}

set_results-Flags : (w : Worker) (x : ℕ) (r : Option ℕ) → Flags w (set_results w x r) x
unfolding set_results
set_results-Flags w x none = record { latest = refl; completed = refl; internal = refl }
set_results-Flags w x (some r) = record {
  latest = refl;
  completed = ground arith;
  internal = ground arith;
}

Flags-if :
    (b : Bool) (w u v : Worker) (x : ℕ) → Flags w u x → Flags w v x → Flags w (if b then u else v) x
Flags-if true w u v x a c = a
Flags-if false w u v x a c = c

call_back-Flags : (calls : Calls) (w : Worker) (curr : ℕ) → Flags w (call_back calls w curr) curr
unfolding call_back
call_back-Flags calls w curr =
    let work = w.work_queue curr in
    Flags-if work.is_internal w _ _ curr
      (Flags-if (work.cb == 0) w w _ curr
        (record { latest = refl; completed = refl; internal = refl })
        (wake-Flags w work.cb_w (calls.run work.cb work.args) curr))
      (set_results-Flags w curr (calls.perform work))

-- Once copied, an entry is completed when its time has come, and a host's command is then posted.
record Completed (s s' : Service) (curr now : ℕ) : Type 0 where
  links : SameLinks s.worker s'.worker
  latest : s'.worker.latest_nsecs ≡ s.worker.latest_nsecs
  done : (s'.worker.work_queue curr).is_completed ≡ leb (s'.worker.work_queue curr).nsecs_target now
  copied : (s'.worker.work_queue curr).is_copied ≡ true
  internal : (s'.worker.work_queue curr).is_internal ≡ (s.worker.work_queue curr).is_internal
  posted : s'.cqs ≡ post s.cqs (s'.worker.work_queue curr)
  released : s'.buffers ≡ given_back s.buffers (s'.worker.work_queue curr)

complete_entry-Completed :
    (s : Service) (curr now : ℕ)
    → (s.worker.work_queue curr).is_completed ≡ false
    → (s.worker.work_queue curr).is_copied ≡ true
    → Completed s (complete_entry s curr now) curr now
unfolding complete_entry fill_cq_result release
complete_entry-Completed s curr now pending copied =
    let itself : (curr == curr) ≡ true = ground arith in
    elim (Bool-cases (leb (s.worker.work_queue curr).nsecs_target now)) [
      | inl due ↦ rw due (record {
        links = set_work-SameLinks s.worker curr _ refl refl;
        latest = refl;
        done = simp (itself, due) refl;
        copied = simp (itself, copied) refl;
        internal = simp itself refl;
        posted = elim (Bool-cases (s.worker.work_queue curr).is_internal) [
          | inl internal ↦ simp (itself, internal) refl
          | inr host ↦ simp (itself, host) refl
        ];
        released = elim (Bool-cases (s.worker.work_queue curr).is_internal) [
          | inl internal ↦ simp (itself, internal) refl
          | inr host ↦ simp (itself, host) refl
        ];
      })
      | inr early ↦ rw early (record {
        links = SameLinks-refl s.worker;
        latest = refl;
        done = pending ∙ sym early;
        copied = copied;
        internal = refl;
        posted = simp pending refl;
        released = simp pending refl;
      })
    ]

-- What a visit does at the time `now`.
pub record Visited (s s' : Service) (curr now : ℕ) : Type 0 where
  pub links : SameLinks s.worker s'.worker
  pub latest : s'.worker.latest_nsecs ≡ now
  pub copied :
      (s.worker.work_queue curr).is_completed ≡ false → (s'.worker.work_queue curr).is_copied ≡ true
  pub done : (s'.worker.work_queue curr).is_completed ≡ (
      (s.worker.work_queue curr).is_completed || leb (s'.worker.work_queue curr).nsecs_target now)
  pub posted : s'.cqs ≡ (
      if (s.worker.work_queue curr).is_completed
      then s.cqs
      else post s.cqs (s'.worker.work_queue curr))
  pub released : s'.buffers ≡ (
      if (s.worker.work_queue curr).is_completed
      then s.buffers
      else given_back s.buffers (s'.worker.work_queue curr))

Completed-Visited :
    (s u s' : Service) (curr now : ℕ)
    → (s.worker.work_queue curr).is_completed ≡ false
    → SameLinks s.worker u.worker
    → u.worker.latest_nsecs ≡ now
    → u.cqs ≡ s.cqs
    → u.buffers ≡ s.buffers
    → Completed u s' curr now
    → Visited s s' curr now
Completed-Visited s u s' curr now pending links latest cqs buffers c = record {
  links = SameLinks-trans s.worker u.worker s'.worker links c.links;
  latest = c.latest ∙ latest;
  copied = λ h. c.copied;
  done = rw pending c.done;
  posted = rw pending (c.posted ∙ ap (λ q. post q (s'.worker.work_queue curr)) cqs);
  released = rw pending (c.released ∙ ap (λ b. given_back b (s'.worker.work_queue curr)) buffers);
}

copy_entry-flags :
    (calls : Calls) (w : Worker) (curr : ℕ)
    → ((copy_entry calls w curr).latest_nsecs ≡ w.latest_nsecs)
      × (((copy_entry calls w curr).work_queue curr).is_completed
          ≡ (w.work_queue curr).is_completed)
      × (((copy_entry calls w curr).work_queue curr).is_copied ≡ true)
unfolding copy_entry set_copied
copy_entry-flags calls w curr =
    let itself : (curr == curr) ≡ true = ground arith in
    let flags = call_back-Flags calls w curr in
    (flags.latest, rw itself flags.completed, rw itself refl)

-- Whether the visit meets no callback without arguments.
abbrev pub may_visit : Work → Bool
may_visit work = work.is_completed || work.is_copied || has_args work

may-has_args :
    (work : Work)
    → work.is_completed ≡ false
    → work.is_copied ≡ false
    → may_visit work ≡ true
    → has_args work ≡ true
may-has_args work pending fresh may = ground arith

not_may :
    (work : Work)
    → may_visit work ≡ false
    → (work.is_completed ≡ false) × (work.is_copied ≡ false) × (has_args work ≡ false)
not_may work missing = ground arith

module _ (calls : Calls) (s : Service) (curr now : ℕ) where
  abbrev seen : Service
  seen = record s { worker = record s.worker { latest_nsecs = now } }

  visit-pending :
      (w : Worker)
      → (s.worker.work_queue curr).is_completed ≡ false
      → copy_once calls seen.worker curr (s.worker.work_queue curr).is_copied ≡ ok w
      → SameLinks seen.worker w
      → w.latest_nsecs ≡ now
      → (w.work_queue curr).is_completed ≡ false
      → (w.work_queue curr).is_copied ≡ true
      → (s' : Service) × (visit calls s curr now ≡ ok s') × Visited s s' curr now
  unfolding visit visit_entry
  visit-pending w pending copy links latest completed copied =
      let u : Service = record seen { worker = w } in
      (
        complete_entry u curr now,
        ap (visit_entry calls seen curr now) pending ∙ rw copy refl,
        Completed-Visited s u _ curr now pending
            (SameLinks-trans s.worker seen.worker w (seen-SameLinks s.worker now) links) latest refl
            refl (complete_entry-Completed u curr now completed copied),
      )

  -- A visit at the time `now`, unless it meets a callback without arguments, returns: the chains stay, an
  -- entry that was not completed is copied, the entry is completed exactly if it was before or its target
  -- time is no later than `now`. Only if it has become completed just now, a host's command is filled into its
  -- completion queue, once, and no other queue changes, and an internal operation gives back, once, the bytes
  -- that it holds of its write buffer, if it has one, and no other buffer changes.
  pub visit-Visited :
      may_visit (s.worker.work_queue curr) ≡ true
      → (s' : Service) × (visit calls s curr now ≡ ok s') × Visited s s' curr now
  unfolding visit visit_entry copy_once
  visit-Visited args = elim (Bool-cases (s.worker.work_queue curr).is_completed) [
    | inl before ↦ (
      seen,
      ap (visit_entry calls seen curr now) before ∙ refl,
      record {
        links = seen-SameLinks s.worker now;
        latest = refl;
        copied = λ h. cc;
        done = simp before refl;
        posted = simp before refl;
        released = simp before refl;
      },
    )
    | inr pending ↦ elim (Bool-cases (s.worker.work_queue curr).is_copied) [
      | inl copied ↦
          visit-pending seen.worker pending (ap (copy_once calls seen.worker curr) copied)
            (SameLinks-refl seen.worker) refl pending copied
      | inr fresh ↦
          let (latest, completed, copied) = copy_entry-flags calls seen.worker curr in
          visit-pending (copy_entry calls seen.worker curr) pending
            (ap (copy_once calls seen.worker curr) fresh
              ∙ rw (may-has_args (s.worker.work_queue curr) pending fresh args) refl)
            (copy_entry-SameLinks calls seen.worker curr) latest (completed ∙ pending) copied
    ]
  ]

  pub visit-bug : may_visit (s.worker.work_queue curr) ≡ false → visit calls s curr now ≡ bug
  unfolding visit visit_entry copy_once
  visit-bug missing =
      let work = s.worker.work_queue curr in
      let (pending, fresh, args) = not_may work missing in
      let copy : copy_once calls seen.worker curr work.is_copied ≡ bug =
        ap (copy_once calls seen.worker curr) fresh ∙ rw args refl in
      ap (visit_entry calls seen curr now) pending ∙ rw copy refl

-- A visit that returns keeps the links.
pub visit-SameLinks :
    (calls : Calls) (s s' : Service) (curr now : ℕ)
    → visit calls s curr now ≡ ok s'
    → SameLinks s.worker s'.worker
visit-SameLinks calls s s' curr now r = elim (Bool-cases (may_visit (s.worker.work_queue curr))) [
  | inl may ↦
      let (t, e, v) = visit-Visited calls s curr now may in
      let same : t ≡ s' = cc in subst (λ (u : Service). SameLinks s.worker u.worker) same v.links
  | inr missing ↦ let fails = visit-bug calls s curr now missing in absurd (cc)
]
