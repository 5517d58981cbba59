-- ===== src/Io/Queue/Free.antt =====
-- The free entries of a work queue (nvmevirt/io.c), and that none is ever lost.
use virtkv.Io.Queue.Place.{Holds}
use virtkv.Io.Queue.Chain.{head_or, Distinct, has, Chain, last_or, has-last_or}
use virtkv.Io.Queue.{Worker, no_entry, nr_max_parallel_io}
use virtkv.Common.{ℕ, List, ◌≡◌, ◌∷◌, ◌++◌, true, [], ◌≢◌, arith, ◌<◌, ◌∙◌, false, length, ◌+◌}

-- From `a` by `nx` one comes through the entries of the list to `b`.
abbrev pub Follows : (ℕ → ℕ) → ℕ → List ℕ → ℕ → Type 0
Follows nx a [] b = nx a ≡ b
Follows nx a (x ∷ xs) b = (nx a ≡ x) × Follows nx x xs b

pub Follows-join :
    (nx : ℕ → ℕ) (a : ℕ) (p q : List ℕ) (b : ℕ)
    → Follows nx a p (head_or q b)
    → Follows nx (last_or p a) q b
    → Follows nx a (p ++ q) b
Follows-join nx a [] q b l r = r
Follows-join nx a (x ∷ p) q b l r = (l.0, Follows-join nx x p q b l.1 r)

-- The last link leads elsewhere, the others stay.
pub Follows-new_end :
    (nx nx' : ℕ → ℕ) (a : ℕ) (p : List ℕ) (d e : ℕ)
    → Distinct (a ∷ p)
    → ((x : ℕ) → has x (a ∷ p) ≡ true → x ≢ last_or p a → nx' x ≡ nx x)
    → nx' (last_or p a) ≡ e
    → Follows nx a p d
    → Follows nx' a p e
Follows-new_end nx nx' a [] d e apart n ne h = ne
Follows-new_end nx nx' a (x ∷ p) d e apart n ne h =
    let other : a ≢ last_or p x = λ same. ground (arith, has-last_or p x, apart.0) in
    (
      n a (ground arith) other ∙ h.0,
      Follows-new_end nx nx' x p d e apart.1 (λ y m. n y (ground arith)) ne h.1,
    )

pub Follows-frame :
    (nx nx' : ℕ → ℕ) (a : ℕ) (p : List ℕ) (b : ℕ)
    → ((x : ℕ) → has x (a ∷ p) ≡ true → nx' x ≡ nx x)
    → Follows nx a p b
    → Follows nx' a p b
Follows-frame nx nx' a [] b n h = n a (ground arith) ∙ h
Follows-frame nx nx' a (x ∷ p) b n h =
    (n a (ground arith) ∙ h.0, Follows-frame nx nx' x p b (λ y m. n y (ground arith)) h.1)

pub Chain-Follows :
    (nx pv : ℕ → ℕ) (a : ℕ) (p : List ℕ) (b : ℕ) → Chain nx pv a p b → Follows nx a p b
Chain-Follows nx pv a [] b h = h.0
Chain-Follows nx pv a (x ∷ p) b h = (h.0, Chain-Follows nx pv x p b h.2)

abbrev pub next_entry : Worker → ℕ → ℕ
next_entry w x = (w.work_queue x).next

-- The entries `xs` are in the queue and `y` and `zs` free, and together they are all there are.
pub record Queues (w : Worker) (xs : List ℕ) (y : ℕ) (zs : List ℕ) : Type 0 where
  pub holds : Holds w xs
  pub start : w.free_seq ≡ y
  pub follows : Follows (next_entry w) y zs no_entry
  pub end : w.free_seq_end ≡ last_or zs y
  pub distinct : Distinct (y ∷ zs)
  pub in_array : (x : ℕ) → has x (y ∷ zs) ≡ true → x < nr_max_parallel_io
  pub apart : (x : ℕ) → has x (y ∷ zs) ≡ true → has x xs ≡ false
  pub count : length xs + length zs + 1 ≡ nr_max_parallel_io
