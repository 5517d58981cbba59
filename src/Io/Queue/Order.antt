-- ===== src/Io/Queue/Order.antt =====
-- The order of a work queue (nvmevirt/io.c): by target time, where times that the worker has reached
-- all count as the same.
use virtkv.Io.Queue.Chain.{has, last_or}
use virtkv.Io.Queue.{Worker}
use virtkv.Common.{ℕ, List, max, ◌∷◌, ◌++◌, ◌≡◌, ◌≤◌, [], arith, true, ◌⊎◌, refl, inl, inr}

abbrev pub key : Worker → ℕ → ℕ
key w x = max (w.work_queue x).nsecs_target w.latest_nsecs

module _ (k : ℕ → ℕ) where
  abbrev pub SortedFrom : ℕ → List ℕ → Type 0
  SortedFrom lo [] = Unit
  SortedFrom lo (x ∷ xs) = (lo ≤ k x) × SortedFrom (k x) xs

  abbrev last_key : List ℕ → ℕ → ℕ
  last_key [] lo = lo
  last_key (x ∷ xs) lo = last_key xs (k x)

  abbrev pub IsSorted : List ℕ → Type 0
  IsSorted xs = SortedFrom 0 xs

  SortedFrom-insert :
      (lo : ℕ) (p q : List ℕ) (e : ℕ)
      → SortedFrom lo (p ++ q)
      → last_key p lo ≤ k e
      → ((x : ℕ) → has x q ≡ true → k e ≤ k x)
      → SortedFrom lo (p ++ (e ∷ q))
  SortedFrom-insert lo [] [] e s h later = (h, tt)
  SortedFrom-insert lo [] (y ∷ q) e s h later = (h, (later y (ground arith), s.1))
  SortedFrom-insert lo (x ∷ p) q e s h later = (s.0, SortedFrom-insert (k x) p q e s.1 h later)

  last_key-eq : (p : List ℕ) (x lo b : ℕ) → last_key (x ∷ p) lo ≡ k (last_or (x ∷ p) b)
  last_key-eq [] x lo b = refl
  last_key-eq (y ∷ p) x lo b = last_key-eq p y (k x) b

  pub IsSorted-insert :
      (p q : List ℕ) (e b : ℕ)
      → IsSorted (p ++ q)
      → ((p ≡ []) ⊎ (k (last_or p b) ≤ k e))
      → ((x : ℕ) → has x q ≡ true → k e ≤ k x)
      → IsSorted (p ++ (e ∷ q))
  IsSorted-insert [] q e b s h later = SortedFrom-insert 0 [] q e s (omega arith) later
  IsSorted-insert (x ∷ p) q e b s h later =
      let le : k (last_or (x ∷ p) b) ≤ k e = elim h [ inl none ↦ absurd (cc) | inr le ↦ le ] in
      SortedFrom-insert 0 (x ∷ p) q e s (rw (last_key-eq p x 0 b) le) later

pub SortedFrom-congr :
    (k k' : ℕ → ℕ) (lo : ℕ) (xs : List ℕ)
    → ((x : ℕ) → has x xs ≡ true → k' x ≡ k x)
    → SortedFrom k lo xs
    → SortedFrom k' lo xs
SortedFrom-congr k k' lo [] same s = tt
SortedFrom-congr k k' lo (x ∷ xs) same s =
    let here : k' x ≡ k x = same x (ground arith) in
    (
      omega (arith, s.0),
      rw here (SortedFrom-congr k k' (k x) xs (λ y m. same y (ground arith)) s.1),
    )

-- As the worker's time goes on the order stays.
pub SortedFrom-later :
    (t : ℕ → ℕ) (now then' lo : ℕ) (xs : List ℕ)
    → now ≤ then'
    → SortedFrom (λ x. max (t x) now) lo xs
    → SortedFrom (λ x. max (t x) then') (max lo then') xs
SortedFrom-later t now then' lo [] h s = tt
SortedFrom-later t now then' lo (x ∷ xs) h s =
    let same : max (max (t x) now) then' ≡ max (t x) then' = omega arith in
    (omega (arith, s.0), rw same at (SortedFrom-later t now then' (max (t x) now) xs h s.1))

pub IsSorted-later :
    (t : ℕ → ℕ) (now then' : ℕ) (xs : List ℕ)
    → now ≤ then'
    → IsSorted (λ x. max (t x) now) xs
    → IsSorted (λ x. max (t x) then') xs
IsSorted-later t now then' [] h s = tt
IsSorted-later t now then' (x ∷ xs) h s =
    (omega arith, (SortedFrom-later t now then' 0 (x ∷ xs) h s).1)
