-- ===== src/Io/Worker/Links.antt =====
-- Completing, copying and waking entries (nvmevirt/io.c) leaves the chains of a work queue as they are.
use virtkv.Io.Queue.Relink.{Chain-frame}
use virtkv.Io.Queue.Place.{next_link, prev_link}
use virtkv.Io.Queue.Free.{Queues, Follows-frame, next_entry}
use virtkv.Io.Worker.{Calls, set_results, copy_entry, wake, call_back}
use virtkv.Io.Queue.{Worker, no_entry, Work, set_work}
use virtkv.Common.{
  ℕ, ◌≡◌, List, ◌∙◌, refl, Bool, Option, false, ◌==◌, if◌then◌else◌, arith, some, true, none,
}

pub record SameLinks (w w' : Worker) : Type 0 where
  pub nexts : (x : ℕ) → (w'.work_queue x).next ≡ (w.work_queue x).next
  pub prevs : (x : ℕ) → (w'.work_queue x).prev ≡ (w.work_queue x).prev
  pub start : w'.io_seq ≡ w.io_seq
  pub end : w'.io_seq_end ≡ w.io_seq_end
  pub free : w'.free_seq ≡ w.free_seq
  pub free_end : w'.free_seq_end ≡ w.free_seq_end

pub SameLinks-Queues :
    (w w' : Worker) (xs : List ℕ) (y : ℕ) (zs : List ℕ)
    → SameLinks w w'
    → Queues w xs y zs
    → Queues w' xs y zs
SameLinks-Queues w w' xs y zs s h =
    let next : (x : ℕ) → next_link w' x ≡ next_link w x = λ x. rw (s.nexts x, s.start) refl in
    let prev : (x : ℕ) → prev_link w' x ≡ prev_link w x =
      λ x. rw (s.prevs x, s.start, s.end) refl in
    record {
      holds = record {
        chain =
            Chain-frame (next_link w) (prev_link w) (next_link w') (prev_link w') no_entry xs
              no_entry (next no_entry) (prev no_entry) (λ x m. (next x, prev x)) h.holds.chain;
        distinct = h.holds.distinct;
        in_array = h.holds.in_array;
      };
      start = s.free ∙ h.start;
      follows =
          Follows-frame (next_entry w) (next_entry w') y zs no_entry (λ x m. s.nexts x) h.follows;
      end = s.free_end ∙ h.end;
      distinct = h.distinct;
      in_array = h.in_array;
      apart = h.apart;
      count = h.count;
    }

pub SameLinks-refl : (w : Worker) → SameLinks w w
SameLinks-refl w = record {
  nexts = λ x. refl;
  prevs = λ x. refl;
  start = refl;
  end = refl;
  free = refl;
  free_end = refl;
}

pub SameLinks-trans : (u v w : Worker) → SameLinks u v → SameLinks v w → SameLinks u w
SameLinks-trans u v w a b = record {
  nexts = λ x. b.nexts x ∙ a.nexts x;
  prevs = λ x. b.prevs x ∙ a.prevs x;
  start = b.start ∙ a.start;
  end = b.end ∙ a.end;
  free = b.free ∙ a.free;
  free_end = b.free_end ∙ a.free_end;
}

pub SameLinks-if :
    (b : Bool) (w u v : Worker) → SameLinks w u → SameLinks w v → SameLinks w (if b then u else v)
SameLinks-if true w u v a c = a
SameLinks-if false w u v a c = c

pub set_work-SameLinks :
    (w : Worker) (e : ℕ) (v : Work)
    → v.next ≡ (w.work_queue e).next
    → v.prev ≡ (w.work_queue e).prev
    → SameLinks w (set_work w e v)
set_work-SameLinks w e v n p = record {
  nexts = λ x. ground arith;
  prevs = λ x. ground arith;
  start = refl;
  end = refl;
  free = refl;
  free_end = refl;
}

wake-SameLinks : (w : Worker) (e : Option ℕ) (out : ℕ × ℕ × ℕ) → SameLinks w (wake w e out)
unfolding wake
wake-SameLinks w none out = SameLinks-refl w
wake-SameLinks w (some e) out = set_work-SameLinks w e _ refl refl

set_results-SameLinks : (w : Worker) (curr : ℕ) (r : Option ℕ) → SameLinks w (set_results w curr r)
unfolding set_results
set_results-SameLinks w curr none = SameLinks-refl w
set_results-SameLinks w curr (some r) = set_work-SameLinks w curr _ refl refl

module _ (calls : Calls) (w : Worker) (curr : ℕ) where
  call_back-SameLinks : SameLinks w (call_back calls w curr)
  unfolding call_back
  call_back-SameLinks =
      let work = w.work_queue curr in
      SameLinks-if work.is_internal w _ _
        (SameLinks-if (work.cb == 0) w w _ (SameLinks-refl w) (wake-SameLinks w work.cb_w _))
        (set_results-SameLinks w curr _)

  pub copy_entry-SameLinks : SameLinks w (copy_entry calls w curr)
  unfolding copy_entry
  copy_entry-SameLinks =
      SameLinks-trans w _ _ call_back-SameLinks
        (set_work-SameLinks (call_back calls w curr) curr _ refl refl)

pub seen-SameLinks : (w : Worker) (now : ℕ) → SameLinks w (record w { latest_nsecs = now })
seen-SameLinks w now = record {
  nexts = λ x. refl;
  prevs = λ x. refl;
  start = refl;
  end = refl;
  free = refl;
  free_end = refl;
}
