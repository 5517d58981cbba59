-- ===== src/Io/Queue/Insert.antt =====
-- `__insert_req_sorted` (nvmevirt/io.c) puts the new entry where its loop says.
use mathlib.Core.List.{append-nil}
use virtkv.Io.Queue.Order.{key, IsSorted, SortedFrom-congr, IsSorted-insert}
use virtkv.Io.Queue.Relink.{Chain-insert}
use virtkv.Io.Queue.Chain.{
  has, last_or, head_or, Chain-split, Chain-head, Chain-last, Distinct-split, has-append,
  Distinct-join, Beside-split, ne_last, ne_head, last_ne_head, p_ne_head, q_ne_last,
  has-last_or-cases, Chain,
}
use virtkv.Io.Queue.Place.{prev_link, next_link, Holds, no_entry-not-has, Place, find_place-Place}
use virtkv.Io.Queue.{
  Worker, no_entry, link_after, nr_max_parallel_io, insert_req_sorted, stops_at, find_place,
}
use virtkv.Common.{
  ℕ, ◌≡◌, ◌≢◌, arith, List, ◌++◌, false, ◌<◌, ◌∷◌, ℕ_discrete, true, [], length, ◌⊎◌, ◌≤◌, inl, ok,
  inr, ◌==◌, refl, ◌↔◌, suc, some, ap, ◌∙◌,
}

-- What linking does to the links and to nothing else.
record Linked (w w' : Worker) (e c d : ℕ) : Type 0 where
  next_c : next_link w' c ≡ e
  prev_e : prev_link w' e ≡ c
  next_e : next_link w' e ≡ d
  prev_d : prev_link w' d ≡ e
  nexts : (x : ℕ) → x ≢ e → x ≢ c → next_link w' x ≡ next_link w x
  prevs : (x : ℕ) → x ≢ e → x ≢ d → prev_link w' x ≡ prev_link w x

-- All but the links and ends.
pub record SameWork (w w' : Worker) : Type 0 where
  pub targets : (x : ℕ) → (w'.work_queue x).nsecs_target ≡ (w.work_queue x).nsecs_target
  pub copied : (x : ℕ) → (w'.work_queue x).is_copied ≡ (w.work_queue x).is_copied
  pub completed : (x : ℕ) → (w'.work_queue x).is_completed ≡ (w.work_queue x).is_completed
  pub latest : w'.latest_nsecs ≡ w.latest_nsecs

module _ (w : Worker) (e c d : ℕ) (nc : next_link w c ≡ d) (pd : prev_link w d ≡ c) (ec : e ≢ c)
    (ed : e ≢ d) (real : e ≢ no_entry) (some_entry : w.io_seq ≢ no_entry)
    (fresh_prev : (w.work_queue e).prev ≡ no_entry)
    (fresh_next : (w.work_queue e).next ≡ no_entry) where
  head-Linked : c ≡ no_entry → Linked w (link_after w e c) e c d
  unfolding link_after
  head-Linked h = record {
    next_c = ground arith;
    prev_e = ground arith;
    next_e = ground arith;
    prev_d = ground arith;
    nexts = λ x ne nc. ground arith;
    prevs = λ x ne nd. ground arith;
  }

  tail-Linked : c ≢ no_entry → d ≡ no_entry → Linked w (link_after w e c) e c d
  unfolding link_after
  tail-Linked h k = record {
    next_c = ground arith;
    prev_e = ground arith;
    next_e = ground arith;
    prev_d = ground arith;
    nexts = λ x ne nc. ground arith;
    prevs = λ x ne nd. ground arith;
  }

  between-Linked : c ≢ no_entry → d ≢ no_entry → c ≢ d → Linked w (link_after w e c) e c d
  unfolding link_after
  between-Linked h k cd = record {
    next_c = ground arith;
    prev_e = ground arith;
    next_e = ground arith;
    prev_d = ground arith;
    nexts = λ x ne nc. ground arith;
    prevs = λ x ne nd. ground arith;
  }

  splice-Linked : (c ≢ no_entry → c ≢ d) → Linked w (link_after w e c) e c d
  splice-Linked cd = elim (ℕ_discrete c no_entry) [
    | yes first ↦ head-Linked first
    | no after ↦ elim (ℕ_discrete d no_entry) [
      | yes last ↦ tail-Linked after last
      | no before ↦ between-Linked after before (cd after)
    ]
  ]

link_after-SameWork : (w : Worker) (e c : ℕ) → SameWork w (link_after w e c)
unfolding link_after
link_after-SameWork w e c = record {
  targets = λ x. ground arith;
  copied = λ x. ground arith;
  completed = λ x. ground arith;
  latest = ground arith;
}

-- An entry that is not in the queue is put between `p` and `q`.
pub link_after-Holds :
    (w : Worker) (p q : List ℕ) (e : ℕ)
    → Holds w (p ++ q)
    → w.io_seq ≢ no_entry
    → has e (p ++ q) ≡ false
    → e < nr_max_parallel_io
    → (w.work_queue e).prev ≡ no_entry
    → (w.work_queue e).next ≡ no_entry
    → Holds (link_after w e (last_or p no_entry)) (p ++ (e ∷ q))
link_after-Holds w p q e h some_entry new small fp fn =
    let c = last_or p no_entry in
    let d = head_or q no_entry in
    let w' = link_after w e c in
    let (l, r) = Chain-split (next_link w) (prev_link w) no_entry p q no_entry h.chain in
    let nc = Chain-head (next_link w) (prev_link w) c q no_entry r in
    let pd = Chain-last (next_link w) (prev_link w) no_entry p d l in
    let (dp, dq, apart) = Distinct-split p q h.distinct in
    let s =
      Beside-split no_entry p q e h.distinct (no_entry-not-has (p ++ q) h.in_array) new
        (omega arith) in
    let k =
      splice-Linked w e c d nc pd (ne_last no_entry p q e s) (ne_head no_entry p q e s)
        (omega arith) some_entry fp fn (last_ne_head no_entry p q e s) in
    record {
      chain =
          Chain-insert (next_link w) (prev_link w) (next_link w') (prev_link w') no_entry p q
            no_entry e (s.end_p, dp) dq s.end_q k.nexts k.prevs (p_ne_head no_entry p q e s)
            (q_ne_last no_entry p q e s) (ground (arith, s.new_p)) (ground (arith, s.new_q))
            k.next_c k.prev_e k.next_e k.prev_d h.chain;
      distinct = Distinct-join p (e ∷ q) dp (s.new_q, dq) (λ x m. ground (arith, apart x, s.new_p));
      in_array = λ x m. ground (arith, h.in_array x, has-append x p (e ∷ q), has-append x p q);
    }

-- The queue after `__insert_req_sorted`: the entry stands between `p` and `q`, before the entries of a
-- greater key and after all others.
pub record Inserted (w w' : Worker) (e : ℕ) (p q : List ℕ) : Type 0 where
  pub holds : Holds w' (p ++ (e ∷ q))
  pub same : SameWork w w'
  pub later : (x : ℕ) → has x q ≡ true → key w e < key w x
  pub sorted : IsSorted (key w) (p ++ q) → IsSorted (key w') (p ++ (e ∷ q))
  pub free : (w'.free_seq ≡ w.free_seq) × (w'.free_seq_end ≡ w.free_seq_end)
  pub others :
      (x : ℕ) → has x (p ++ (e ∷ q)) ≡ false → (w'.work_queue x).next ≡ (w.work_queue x).next

stops-key :
    (w : Worker) (e x : ℕ)
    → (stops_at w (w.work_queue e).nsecs_target x ≡ true) ↔ (key w x ≤ key w e)
stops-key w e x = (λ h. ground arith, λ h. ground arith)

pub key-SameWork : (w w' : Worker) → SameWork w w' → (x : ℕ) → key w' x ≡ key w x
key-SameWork w w' s x = simp (s.targets x, s.latest) refl

link_after-free :
    (w : Worker) (e c : ℕ)
    → ((link_after w e c).free_seq ≡ w.free_seq)
      × ((link_after w e c).free_seq_end ≡ w.free_seq_end)
unfolding link_after
link_after-free w e c = ground arith

link_after-others :
    (w : Worker) (e : ℕ) (p : List ℕ) (x : ℕ)
    → has x p ≡ false
    → x ≢ e
    → ((link_after w e (last_or p no_entry)).work_queue x).next ≡ (w.work_queue x).next
unfolding link_after
link_after-others w e p x out ne = ground (arith, has-last_or-cases p no_entry)

link_after-Inserted :
    (w : Worker) (p q : List ℕ) (e : ℕ)
    → Place w (w.work_queue e).nsecs_target (p ++ q) p q
    → Holds (link_after w e (last_or p no_entry)) (p ++ (e ∷ q))
    → Inserted w (link_after w e (last_or p no_entry)) e p q
link_after-Inserted w p q e place h =
    let w' = link_after w e (last_or p no_entry) in
    let same = link_after-SameWork w e (last_or p no_entry) in
    record {
      holds = h;
      same = same;
      later = λ x m. ground (arith, place.later x m, stops-key w e x);
      sorted = λ s.
          let before : (p ≡ []) ⊎ (key w (last_or p no_entry) ≤ key w e) = elim place.stop [
            | inl none_before ↦ inl none_before
            | inr stop ↦ inr ((stops-key w e (last_or p no_entry)).0 stop)
          ] in
          SortedFrom-congr (key w) (key w') 0 (p ++ (e ∷ q)) (λ x m. key-SameWork w w' same x)
            (IsSorted-insert (key w) p q e no_entry s before
              (λ x m. ground (arith, place.later x m, stops-key w e x)));
      free = link_after-free w e (last_or p no_entry);
      others = λ x out.
          link_after-others w e p x (ground (arith, has-append x p (e ∷ q)))
            (ground (arith, has-append x p (e ∷ q)));
    }

-- On a queue that is not empty.
insert_behind :
    (w : Worker) (xs : List ℕ) (e : ℕ)
    → Holds w xs
    → w.io_seq ≢ no_entry
    → w.io_seq_end ≡ last_or xs no_entry
    → length xs ≤ nr_max_parallel_io
    → has e xs ≡ false
    → e < nr_max_parallel_io
    → (w.work_queue e).prev ≡ no_entry
    → (w.work_queue e).next ≡ no_entry
    → (w' : Worker) × (p : List ℕ) × (q : List ℕ) × (insert_req_sorted w e
          (w.work_queue e).nsecs_target
        ≡ ok w')
      × (xs ≡ p ++ q)
      × Inserted w w' e p q
unfolding insert_req_sorted
insert_behind w xs e h some_entry end room new small fp fn =
    let test : (w.io_seq == no_entry) ≡ false = ground arith in
    let t = (w.work_queue e).nsecs_target in
    let chain : Chain (next_link w) (prev_link w) no_entry (xs ++ []) no_entry =
      rw (append-nil xs) h.chain in
    let (p, q, found, place) =
      find_place-Place (suc nr_max_parallel_io) w t xs [] chain (no_entry-not-has xs h.in_array)
        (omega arith) in
    let found' : find_place (suc nr_max_parallel_io) w t w.io_seq_end ≡ some (last_or p no_entry) =
      ap (find_place (suc nr_max_parallel_io) w t) end ∙ found in
    let h' : Holds w (p ++ q) = rw place.split at h in
    let new' : has e (p ++ q) ≡ false = rw place.split at new in
    (
      link_after w e (last_or p no_entry),
      p,
      q,
      simp (test, found') refl,
      place.split,
      link_after-Inserted w p q e (rw place.split at place)
          (link_after-Holds w p q e h' some_entry new' small fp fn),
    )

-- On a queue with room, `__insert_req_sorted` ends and inserts the entry.
pub insert_req_sorted-Inserted :
    (w : Worker) (xs : List ℕ) (e : ℕ)
    → Holds w xs
    → length xs ≤ nr_max_parallel_io
    → has e xs ≡ false
    → e < nr_max_parallel_io
    → (w.work_queue e).prev ≡ no_entry
    → (w.work_queue e).next ≡ no_entry
    → (w' : Worker) × (p : List ℕ) × (q : List ℕ) × (insert_req_sorted w e
          (w.work_queue e).nsecs_target
        ≡ ok w')
      × (xs ≡ p ++ q)
      × Inserted w w' e p q
unfolding insert_req_sorted
insert_req_sorted-Inserted w [] e h room new small fp fn =
    let empty : (w.io_seq == no_entry) ≡ true = ground (arith, h.chain.0) in
    let w' : Worker = record w { io_seq = e; io_seq_end = e } in
    (
      w',
      [],
      [],
      rw empty refl,
      refl,
      record {
        holds = record {
          chain = (refl, ground arith, (ground arith, ground arith));
          distinct = (refl, tt);
          in_array = λ x m. ground arith;
        };
        same = record {
          targets = λ x. refl;
          copied = λ x. refl;
          completed = λ x. refl;
          latest = refl;
        };
        later = λ x m. cc;
        sorted = λ s. (omega arith, tt);
        free = (refl, refl);
        others = λ x out. refl;
      },
    )
insert_req_sorted-Inserted w (x ∷ xs) e h room new small fp fn =
    let real : x ≢ no_entry = omega (arith, h.in_array x (ground arith)) in
    let some_entry : w.io_seq ≢ no_entry = omega (arith, h.chain.0) in
    let test : (w.io_seq == no_entry) ≡ false = ground arith in
    insert_behind w (x ∷ xs) e h some_entry
      (rw test at (Chain-last (next_link w) (prev_link w) no_entry (x ∷ xs) no_entry h.chain)) room
      new small fp fn
