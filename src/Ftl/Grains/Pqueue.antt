-- ===== src/Ftl/Grains/Pqueue.antt =====
-- What the FTL relies on of its priority queue of lines (libpqueue, as demand_ftl.c calls it).
use virtkv.Ftl.Grains.{PqueueOps}
use virtkv.Ftl.Lines.{Line}
use virtkv.Common.{ℕ, List, [], ◌∷◌, ◌+◌, ◌==◌, ◌≡◌, ◌≤◌, ◌≢◌, some, none, if◌then◌else◌}

-- One at the line `i`, else nothing.
abbrev pub one_at : ℕ → ℕ → ℕ
one_at i j = if i == j then 1 else 0

-- How often a list has the line `j`.
abbrev pub count : ℕ → List ℕ → ℕ
count j [] = 0
count j (x ∷ xs) = one_at x j + count j xs

-- The queue's entries by line, and what its calls do to the fields of lines that it reads and sets. An
-- insertion sets a position; a pop may leave the position as it was.
pub record PqueueLaws {Q : Type 0} (pq : PqueueOps Q) : Type 0 where
  pub entries : Q → ℕ → ℕ
  pub inserted :
      (q : Q) (l : ℕ → Line) (i j : ℕ) → entries (pq.insert q l i).0 j ≡ one_at i j + entries q j
  pub popped :
      (q : Q) (l : ℕ → Line) (i j : ℕ)
      → pq.peek q ≡ some i
      → entries q j ≡ one_at i j + entries (pq.pop q l).0 j
  pub emptied : (q : Q) (j : ℕ) → pq.peek q ≡ none → entries q j ≡ 0
  pub changed :
      (q : Q) (l : ℕ → Line) (p i j : ℕ)
      → 1 ≤ entries q i
      → entries (pq.change_priority q l p i).0 j ≡ entries q j
  pub insert_vgc : (q : Q) (l : ℕ → Line) (i j : ℕ) → ((pq.insert q l i).1 j).vgc ≡ (l j).vgc
  pub pop_vgc : (q : Q) (l : ℕ → Line) (j : ℕ) → ((pq.pop q l).1 j).vgc ≡ (l j).vgc
  pub change_vgc :
      (q : Q) (l : ℕ → Line) (p i j : ℕ)
      → ((pq.change_priority q l p i).1 j).vgc ≡ (if i == j then p else (l j).vgc)
  pub insert_pos :
      (q : Q) (l : ℕ → Line) (i j : ℕ) → (l j).pos ≡ 0 → i ≢ j → ((pq.insert q l i).1 j).pos ≡ 0
  pub pop_pos : (q : Q) (l : ℕ → Line) (j : ℕ) → (l j).pos ≡ 0 → ((pq.pop q l).1 j).pos ≡ 0
  pub change_pos :
      (q : Q) (l : ℕ → Line) (p i j : ℕ)
      → (l j).pos ≡ 0
      → ((pq.change_priority q l p i).1 j).pos ≡ 0
  pub insert_id : (q : Q) (l : ℕ → Line) (i j : ℕ) → ((pq.insert q l i).1 j).id ≡ (l j).id
  pub pop_id : (q : Q) (l : ℕ → Line) (j : ℕ) → ((pq.pop q l).1 j).id ≡ (l j).id
  pub change_id :
      (q : Q) (l : ℕ → Line) (p i j : ℕ) → ((pq.change_priority q l p i).1 j).id ≡ (l j).id
