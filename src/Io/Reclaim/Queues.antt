-- ===== src/Io/Reclaim/Queues.antt =====
-- `__reclaim_completed_reqs` (nvmevirt/io.c) moves the done entries at the head of the queue behind the
-- free ones.
use mathlib.Core.List.{append-nil}
use virtkv.Io.Queue.Place.{no_entry-not-has, next_link, prev_link}
use virtkv.Io.Queue.Insert.{SameWork}
use virtkv.Io.Queue.Chain.{
  last_or, head_or, Chain-head, has-last_or, Distinct-split, has, has-append, Distinct-join,
  last_or-append, Chain-split, has-head_or,
}
use virtkv.Io.Queue.Free.{Queues}
use virtkv.Io.Reclaim.Freed.{
  Freed, Freed-Holds, Freed-Follows, free_entries-Freed, free_entries-SameWork,
}
use virtkv.Io.Reclaim.Done.{Prefix, last_done-Prefix}
use virtkv.Io.Queue.{Worker, no_entry, nr_max_parallel_io}
use virtkv.Io.Reclaim.{reclaim_completed_reqs, last_done, free_entries}
use virtkv.Common.{
  ℕ, List, ◌++◌, ◌≡◌, ok, ◌∷◌, suc, ◌||◌, arith, ◌∙◌, length-append, sym, ap, some, ◌<◌, ◌==◌,
  false, ◌≢◌, [], refl, if◌then◌else◌,
}

-- The queue after the part `d` in front is reclaimed.
pub record Reclaimed (w w' : Worker) (xs : List ℕ) (y : ℕ) (zs d r : List ℕ) : Type 0 where
  pub prefix : Prefix w xs d r
  pub queues : Queues w' r y (zs ++ d)
  pub same : SameWork w w'

-- Freeing a part `f ∷ d` in front of the queue.
Freed-Queues :
    (w w' : Worker) (f : ℕ) (d r : List ℕ) (y : ℕ) (zs : List ℕ)
    → Freed w w' f (last_or d f) (last_or zs y) (head_or r no_entry)
    → Queues w ((f ∷ d) ++ r) y zs
    → Queues w' r y (zs ++ (f ∷ d))
Freed-Queues w w' f d r y zs n h =
    let last_z = h.apart (last_or zs y) (has-last_or zs y) in
    let (dd, dr, apart) = Distinct-split (f ∷ d) r h.holds.distinct in
    let split : (x : ℕ) → has x (y ∷ (zs ++ (f ∷ d))) ≡ (has x (y ∷ zs) || has x (f ∷ d)) =
      λ x. has-append x (y ∷ zs) (f ∷ d) in
    record {
      holds = Freed-Holds w w' f d r (last_or zs y) n h.holds last_z;
      start = n.free ∙ h.start;
      follows = Freed-Follows w w' f d r y zs n h.holds h.follows h.distinct h.apart;
      end = n.free_end ∙ sym (last_or-append zs (f ∷ d) y);
      distinct =
          Distinct-join (y ∷ zs) (f ∷ d) h.distinct dd
            (λ x m. ground (arith, h.apart x m, has-append x (f ∷ d) r));
      in_array =
          λ x m. ground (arith, h.in_array x, h.holds.in_array x, split x, has-append x (f ∷ d) r);
      apart = λ x m. ground (arith, apart x, h.apart x, split x, has-append x (f ∷ d) r);
      count = omega (arith, h.count, length-append zs (f ∷ d), length-append (f ∷ d) r);
    }

reclaim-Prefix :
    (w : Worker) (xs : List ℕ) (y : ℕ) (zs d r : List ℕ)
    → Queues w xs y zs
    → last_done (suc nr_max_parallel_io) w no_entry w.io_seq ≡ some (last_or d no_entry)
    → Prefix w xs d r
    → (w' : Worker) × (reclaim_completed_reqs w ≡ ok w') × Reclaimed w w' xs y zs d r
unfolding reclaim_completed_reqs
reclaim-Prefix w xs y zs [] r h found p =
    let h' : Queues w r y zs = rw p.split at h in
    (
      w,
      rw (found, reclaim_completed_reqs) refl,
      record {
        prefix = p;
        queues = rw (append-nil zs) h';
        same = record {
          targets = λ x. refl;
          copied = λ x. refl;
          completed = λ x. refl;
          latest = refl;
        };
      },
    )
reclaim-Prefix w xs y zs (f ∷ d) r h found p =
    let h' : Queues w ((f ∷ d) ++ r) y zs = rw p.split at h in
    let l = last_or d f in
    let last_d = has-last_or d f in
    let last_z = h'.apart (last_or zs y) (has-last_or zs y) in
    let l_real : l < nr_max_parallel_io =
      h'.holds.in_array l (ground (arith, last_d, has-append l (f ∷ d) r)) in
    let f_real : f < nr_max_parallel_io = h'.holds.in_array f (ground arith) in
    let test : (l == no_entry) ≡ false = ground arith in
    let c =
      (Chain-split (next_link w) (prev_link w) no_entry (f ∷ d) r no_entry h'.holds.chain).1 in
    let next : (w.work_queue l).next ≡ head_or r no_entry =
      rw test at (Chain-head (next_link w) (prev_link w) l r no_entry c) in
    let apart_end : l ≢ last_or zs y =
      λ same. ground (arith, last_z, last_d, has-append l (f ∷ d) r) in
    let apart_rest : head_or r no_entry ≢ f = λ same.
      ground (arith, has-head_or r no_entry, (Distinct-split (f ∷ d) r h'.holds.distinct).2 f) in
    let n =
      free_entries-Freed w f l (head_or r no_entry) (last_or zs y) h'.end next apart_end
        apart_rest in
    let start : w.io_seq ≡ f = h'.holds.chain.0 in
    let result : ok (if l == no_entry then w else free_entries w w.io_seq l)
        ≡ ok (free_entries w f l) =
      simp (test, start) refl in
    (
      free_entries w f l,
      rw (found, reclaim_completed_reqs) result,
      record {
        prefix = p;
        queues = Freed-Queues w (free_entries w f l) f d r y zs n h';
        same = free_entries-SameWork w f l (head_or r no_entry);
      },
    )

-- `__reclaim_completed_reqs` on a worker whose queue holds `xs` returns: the entries at the head that are
-- completed, copied and due are behind the free ones, the rest, which begins with an entry that is not, is
-- the queue, each chained to its end, and the target times and flags are as they were.
pub reclaim_completed_reqs-Reclaimed :
    (w : Worker) (xs : List ℕ) (y : ℕ) (zs : List ℕ)
    → Queues w xs y zs
    → (w' : Worker) × (d : List ℕ) × (r : List ℕ) × (reclaim_completed_reqs w ≡ ok w')
      × Reclaimed w w' xs y zs d r
unfolding reclaim_completed_reqs
reclaim_completed_reqs-Reclaimed w xs y zs h =
    let out = no_entry-not-has xs h.holds.in_array in
    let start : w.io_seq ≡ head_or xs no_entry =
      Chain-head (next_link w) (prev_link w) no_entry xs no_entry h.holds.chain in
    let (d, r, found, p) =
      last_done-Prefix (suc nr_max_parallel_io) w no_entry xs h.holds.chain out
        (omega (arith, h.count)) in
    let (w', e, q) =
      reclaim-Prefix w xs y zs d r h
        (ap (last_done (suc nr_max_parallel_io) w no_entry) start ∙ found) p in
    (w', d, r, e, q)
