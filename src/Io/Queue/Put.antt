-- ===== src/Io/Queue/Put.antt =====
-- Putting work into the queue (`__enqueue_io_req`, `schedule_internal_operation` and
-- `schedule_internal_operation_cb` of nvmevirt/io.c).
use virtkv.Io.Queue.Insert.{insert_req_sorted-Inserted, Inserted, key-SameWork}
use virtkv.Io.Queue.Relink.{Chain-frame}
use virtkv.Io.Queue.Order.{key, IsSorted, SortedFrom-congr}
use virtkv.Io.Queue.Chain.{has, has-append, not_equal}
use virtkv.Io.Queue.Place.{Holds, next_link, prev_link}
use virtkv.Io.Queue.Free.{Queues, next_entry, Follows-frame}
use virtkv.Io.Queue.{
  Work, Worker, put_work, set_work, no_entry, nr_max_parallel_io, insert_req_sorted, put_at,
  enqueue_io_req, NvmevResult, enqueue_fill,
}
use virtkv.Common.{
  ℕ, Bool, ◌≡◌, List, ◌++◌, ◌<◌, ◌∷◌, [], ◌≢◌, ok, if◌then◌else◌, some, bug, ◌>>=◌, true, false,
  arith, none, ◌==◌, refl, ap, ◌∙◌, leb, length, length-append,
}

-- What the three functions write into a new entry.
pub record IsUnlinked (fill : Work → Work) : Type 0 where
  pub no_prev : (old : Work) → (fill old).prev ≡ no_entry
  pub no_next : (old : Work) → (fill old).next ≡ no_entry

-- The queue after the entry `y` is put between `p` and `q`.
pub record Put (w w' : Worker) (fill : Work → Work) (y z : ℕ) (zs p q : List ℕ) : Type 0 where
  pub queues : Queues w' (p ++ (y ∷ q)) z zs
  pub target : (w'.work_queue y).nsecs_target ≡ (fill (w.work_queue y)).nsecs_target
  pub pending : (w'.work_queue y).is_completed ≡ (fill (w.work_queue y)).is_completed
  pub others : (x : ℕ) → x ≢ y → (w'.work_queue x).nsecs_target ≡ (w.work_queue x).nsecs_target
  pub later : (x : ℕ) → has x q ≡ true → key w' y < key w' x
  pub sorted : IsSorted (key w) (p ++ q) → IsSorted (key w') (p ++ (y ∷ q))

-- The worker with the new entry taken and filled.
abbrev filled : Worker → (Work → Work) → ℕ → ℕ → Worker
filled w fill y z = set_work (record w { free_seq = z }) y (fill (w.work_queue y))

filled-Holds :
    (w : Worker) (fill : Work → Work) (xs : List ℕ) (y z : ℕ)
    → Holds w xs
    → y < nr_max_parallel_io
    → has y xs ≡ false
    → Holds (filled w fill y z) xs
filled-Holds w fill xs y z h small out =
    let w2 = filled w fill y z in
    record {
      chain =
          Chain-frame (next_link w) (prev_link w) (next_link w2) (prev_link w2) no_entry xs no_entry
            refl refl (λ x m. let other = not_equal x y xs m out in (rw other refl, rw other refl))
            h.chain;
      distinct = h.distinct;
      in_array = h.in_array;
    }

allocated :
    (must : Bool) (fill : Work → Work) (w : Worker) (xs zs : List ℕ) (y z : ℕ)
    → Queues w xs y (z ∷ zs)
    → put_work must fill w ≡ (
        insert_req_sorted (filled w fill y z) y (fill (w.work_queue y)).nsecs_target >>= λ w'.
        ok (some y, w'))
unfolding put_work put_at
allocated must fill w xs zs y z h =
    let small : z < nr_max_parallel_io = h.in_array z (ground arith) in
    let first : (w.work_queue y).next ≡ z = h.follows.0 in
    let test : leb nr_max_parallel_io z ≡ false = ground arith in simp (h.start, first, test) refl

Inserted-Put :
    (fill : Work → Work) (w w' : Worker) (xs zs p q : List ℕ) (y z : ℕ)
    → Queues w xs y (z ∷ zs)
    → xs ≡ p ++ q
    → Inserted (filled w fill y z) w' y p q
    → Put w w' fill y z zs p q
Inserted-Put fill w w' xs zs p q y z h split i =
    let w2 = filled w fill y z in
    let itself : (y == y) ≡ true = ground arith in
    let out' : (x : ℕ) → has x (y ∷ z ∷ zs) ≡ true → has x (p ++ q) ≡ false =
      λ x m. rw split at (h.apart x m) in
    let free_out : (x : ℕ) → has x (z ∷ zs) ≡ true → has x (p ++ (y ∷ q)) ≡ false = λ x m.
      let ne = not_equal x y (z ∷ zs) m h.distinct.0 in
      ground (arith, out' x, has-append x p q, has-append x p (y ∷ q)) in
    record {
      queues = record {
        holds = i.holds;
        start = i.free.0;
        follows =
            Follows-frame (next_entry w) (next_entry w') z zs no_entry
              (λ x m.
                let ne = not_equal x y (z ∷ zs) m h.distinct.0 in
                i.others x (free_out x m) ∙ rw ne refl)
              h.follows.1;
        end = i.free.1 ∙ h.end;
        distinct = h.distinct.1;
        in_array = λ x m. h.in_array x (ground arith);
        apart = free_out;
        count = omega (arith, h.count, ap length split, length-append p q, length-append p (y ∷ q));
      };
      target = i.same.targets y ∙ rw itself refl;
      pending = i.same.completed y ∙ rw itself refl;
      others =
          λ x ne. let test : (x == y) ≡ false = ground arith in i.same.targets x ∙ rw test refl;
      later = λ x m.
          omega (arith, i.later x m, key-SameWork w2 w' i.same x, key-SameWork w2 w' i.same y);
      sorted = λ s. i.sorted (
          SortedFrom-congr (key w) (key w2) 0 (p ++ q)
            (λ x m. let ne = not_equal x y (p ++ q) m (out' y (ground arith)) in rw ne refl) s);
    }

-- With another free entry behind it, the first free one is filled and put into the queue.
pub put_work-Put :
    (must : Bool) (fill : Work → Work) (w : Worker) (xs zs : List ℕ) (y z : ℕ)
    → IsUnlinked fill
    → Queues w xs y (z ∷ zs)
    → (w' : Worker) × (p : List ℕ) × (q : List ℕ) × (put_work must fill w ≡ ok (some y, w'))
      × (xs ≡ p ++ q)
      × Put w w' fill y z zs p q
put_work-Put must fill w xs zs y z u h =
    let w2 = filled w fill y z in
    let small : y < nr_max_parallel_io = h.in_array y (ground arith) in
    let out : has y xs ≡ false = h.apart y (ground arith) in
    let itself : (y == y) ≡ true = ground arith in
    let v : w2.work_queue y ≡ fill (w.work_queue y) = rw itself refl in
    let (w', p, q, e, split, i) =
      insert_req_sorted-Inserted w2 xs y (filled-Holds w fill xs y z h.holds small out)
        (omega (arith, h.count)) out small (rw v (u.no_prev (w.work_queue y)))
        (rw v (u.no_next (w.work_queue y))) in
    let e' : insert_req_sorted w2 y (fill (w.work_queue y)).nsecs_target ≡ ok w' = rw v at e in
    (
      w',
      p,
      q,
      allocated must fill w xs zs y z h ∙ rw e' refl,
      split,
      Inserted-Put fill w w' xs zs p q y z h split i,
    )

-- The last free entry is never handed out.
pub put_work-full :
    (must : Bool) (fill : Work → Work) (w : Worker) (xs : List ℕ) (y : ℕ)
    → Queues w xs y []
    → put_work must fill w ≡ (if must then bug else ok (none, w))
unfolding put_work put_at
put_work-full must fill w xs y h =
    let first : (w.work_queue y).next ≡ no_entry = h.follows in simp (h.start, first) refl

-- `__enqueue_io_req` on a work queue that holds `xs` and has at least two free entries returns the first
-- free one: it stands in the queue with the given target time, not completed, behind all entries of no
-- greater key (the target time, or the worker's time where that is later) and before the others, so that
-- a queue in the order of the keys stays so.
pub enqueue_io_req-Put :
    (w : Worker) (xs zs : List ℕ) (y z : ℕ) (sqid cqid sq_entry command_id nsecs_start clock : ℕ)
    (ret : NvmevResult)
    → Queues w xs y (z ∷ zs)
    → (w' : Worker) × (p : List ℕ) × (q : List ℕ) × (enqueue_io_req w sqid cqid sq_entry command_id
          nsecs_start clock ret
        ≡ ok (some y, w'))
      × (xs ≡ p ++ q)
      × Queues w' (p ++ (y ∷ q)) z zs
      × ((w'.work_queue y).nsecs_target ≡ ret.nsecs_target)
      × ((w'.work_queue y).is_completed ≡ false)
      × ((x : ℕ) → has x q ≡ true → key w' y < key w' x)
      × (IsSorted (key w) xs → IsSorted (key w') (p ++ (y ∷ q)))
enqueue_io_req-Put w xs zs y z sqid cqid sq_entry command_id nsecs_start clock ret h =
    let fill = enqueue_fill sqid cqid sq_entry command_id nsecs_start clock ret in
    let (w', p, q, e, split, r) =
      put_work-Put false fill w xs zs y z (record { no_prev = λ old. refl; no_next = λ old. refl })
        h in
    (w', p, q, e, split, r.queues, r.target, r.pending, r.later, λ s. r.sorted (rw split at s))
