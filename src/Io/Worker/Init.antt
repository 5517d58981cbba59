-- ===== src/Io/Worker/Init.antt =====
-- A new work queue (`NVMEV_IO_WORKER_INIT` of nvmevirt/io.c) is empty, with all entries free.
use virtkv.Io.Queue.Free.{Follows, Queues, next_entry}
use virtkv.Io.Queue.Place.{Holds}
use virtkv.Io.Queue.{Worker, Work, nr_max_parallel_io, no_entry}
use virtkv.Io.Worker.{init_links, init_worker}
use virtkv.Io.Queue.Chain.{has, Distinct, last_or}
use virtkv.Common.{
  ℕ, List, length, ◌<◌, [], ◌≡◌, suc, ◌+◌, ◌∷◌, true, arith, ◌≤◌, ◌↔◌, ◌-◌, zero, refl, ◌∙◌, ◌%◌,
  ◌==◌, false, ◌^◌, update, ℕ_discrete, ap,
}

-- `n` numbers from `i` on.
pub ups : ℕ → ℕ → List ℕ
ups zero i = []
ups (suc n) i = i ∷ ups n (i + 1)

has-ups : (n i x : ℕ) → (has x (ups n i) ≡ true) ↔ ((i ≤ x) × (x < i + n))
unfolding ups
has-ups zero i x = (λ m. cc, λ h. absurd (omega arith))
has-ups (suc n) i x =
    (λ m. ground (arith, has-ups n (i + 1) x), λ h. ground (arith, has-ups n (i + 1) x))

ups-Distinct : (n i : ℕ) → Distinct (ups n i)
unfolding ups
ups-Distinct zero i = tt
ups-Distinct (suc n) i = (ground (arith, has-ups n (i + 1) i), ups-Distinct n (i + 1))

length-ups : (n i : ℕ) → length (ups n i) ≡ n
unfolding ups
length-ups zero i = refl
length-ups (suc n) i = omega (arith, length-ups n (i + 1))

last_or-ups : (n i : ℕ) → last_or (ups n (i + 1)) i ≡ i + n
unfolding ups
last_or-ups zero i = omega arith
last_or-ups (suc n) i = omega (arith, last_or-ups n (i + 1))

ups-Follows :
    (nx : ℕ → ℕ) (n i b : ℕ)
    → ((x : ℕ) → i ≤ x → x < i + n → nx x ≡ x + 1)
    → nx (i + n) ≡ b
    → Follows nx i (ups n (i + 1)) b
unfolding ups
ups-Follows nx zero i b next last = let e : i + 0 ≡ i = omega arith in rw e at last
ups-Follows nx (suc n) i b next last =
    let e : i + suc n ≡ i + 1 + n = omega arith in
    (
      next i (omega arith) (omega arith),
      ups-Follows nx n (i + 1) b (λ x le l. next x (omega arith) (omega arith)) (rw e at last),
    )

init_links-next :
    (n i : ℕ) (queue : ℕ → Work) (x : ℕ)
    → (x < i → init_links n i queue x ≡ queue x)
      × (i ≤ x → x < i + n → (init_links n i queue x).next ≡ x + 1)
unfolding init_links
init_links-next zero i queue x = (λ l. refl, λ l m. absurd (omega arith))
init_links-next (suc n) i queue x =
    let linked = record (queue i) { next = i + 1; prev = (i + no_entry) % 2 ^ 32 } in
    let (before, after) = init_links-next n (i + 1) (update queue i linked) x in
    (
      λ l. let other : (x == i) ≡ false = ground arith in before (omega arith) ∙ rw other refl,
      λ l m. elim (ℕ_discrete x i) [
        | yes here ↦
            let itself : (x == i) ≡ true = ground arith in
            let e : (update queue i linked x).next ≡ i + 1 = rw itself refl in
            ap (λ (v : Work). v.next) (before (omega arith)) ∙ (e ∙ omega arith)
        | no there ↦ after (omega arith) (omega arith)
      ],
    )

next-other :
    (queue : ℕ → Work) (m : ℕ) (v : Work) (x : ℕ)
    → x < m
    → (update queue m v x).next ≡ (queue x).next
next-other queue m v x l = let other : (x == m) ≡ false = ground arith in rw other refl

-- A worker whose queue holds the entries before `i`, and whose free entries are linked from `i` on.
pub linked-Queues :
    (w : Worker) (xs : List ℕ) (i k : ℕ)
    → i + k + 2 ≡ nr_max_parallel_io
    → Holds w xs
    → length xs ≡ i
    → ((x : ℕ) → i ≤ x → has x xs ≡ false)
    → ((x : ℕ) → i ≤ x → x < i + suc k → (w.work_queue x).next ≡ x + 1)
    → (w.work_queue (i + suc k)).next ≡ no_entry
    → w.free_seq ≡ i
    → w.free_seq_end ≡ i + suc k
    → Queues w xs i ((i + 1) ∷ ups k (i + 1 + 1))
unfolding ups
linked-Queues w xs i k all holds size before next last free free_end =
    let m = suc k in
    record {
      holds = holds;
      start = free;
      follows = ups-Follows (next_entry w) m i no_entry next last;
      end = free_end ∙ omega (arith, last_or-ups m i);
      distinct = (ground (arith, has-ups m (i + 1) i), ups-Distinct m (i + 1));
      in_array = λ x h. ground (arith, has-ups m (i + 1) x);
      apart = λ x h. before x (ground (arith, has-ups m (i + 1) x));
      count = omega (arith, length-ups m (i + 1), size);
    }

pub init_worker-Queues :
    (queue : ℕ → Work) → Queues (init_worker queue) [] 0 (1 ∷ ups (nr_max_parallel_io - 2) 2)
unfolding init_worker
init_worker-Queues queue =
    let w = init_worker queue in
    linked-Queues w [] 0 (nr_max_parallel_io - 2) refl
      (record { chain = (refl, ground arith); distinct = tt; in_array = λ x h. cc }) refl
      (λ x le. refl)
      (λ x le l.
        next-other (init_links nr_max_parallel_io 0 queue) (nr_max_parallel_io - 1) _ x l
        ∙ (init_links-next nr_max_parallel_io 0 queue x).1 (omega arith) (omega arith))
      refl refl refl
