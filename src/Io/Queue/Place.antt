-- ===== src/Io/Queue/Place.antt =====
-- The loop of `__insert_req_sorted` (nvmevirt/io.c) finds the last entry after which the new one may
-- stand.
use mathlib.Core.List.{append_assoc, append-nil}
use virtkv.Io.Queue.Chain.{Chain, has, Distinct, last_or, last_or-snoc, has-append, Chain-split}
use virtkv.Io.Queue.{Worker, find_place, no_entry, nr_max_parallel_io, stops_at}
use virtkv.Common.{
  ℕ, List, ◌≡◌, if◌then◌else◌, true, [], ◌++◌, ◌==◌, ◌<◌, ◌⊎◌, false, ◌∷◌, length, Bool-cases, inl,
  arith, inr, some, ap, suc, zero, refl, ◌∙◌, ◌||◌, sym, length-append,
}

-- The links with the ends of the queue as the links of `no_entry`. The end is stale in an empty queue.
abbrev pub next_link : Worker → ℕ → ℕ
next_link w x = if x == no_entry then w.io_seq else (w.work_queue x).next

abbrev pub prev_link : Worker → ℕ → ℕ
prev_link w x =
    if x == no_entry
    then (if w.io_seq == no_entry then no_entry else w.io_seq_end)
    else (w.work_queue x).prev

-- The entries of the queue, in their order.
pub record Holds (w : Worker) (xs : List ℕ) : Type 0 where
  pub chain : Chain (next_link w) (prev_link w) no_entry xs no_entry
  pub distinct : Distinct xs
  pub in_array : (x : ℕ) → has x xs ≡ true → x < nr_max_parallel_io

pub no_entry-not-has :
    (xs : List ℕ) → ((x : ℕ) → has x xs ≡ true → x < nr_max_parallel_io) → has no_entry xs ≡ false
no_entry-not-has xs h = elim (Bool-cases (has no_entry xs)) [
  | inl there ↦ absurd (omega (arith, h no_entry there))
  | inr not_there ↦ not_there
]

pub Snoc-cases : (xs : List ℕ) → (xs ≡ []) ⊎ ((ys : List ℕ) × (y : ℕ) × (xs ≡ ys ++ (y ∷ [])))
Snoc-cases [] = inl refl
Snoc-cases (x ∷ xs) = elim (Snoc-cases xs) [
  | inl empty ↦ inr ([], x, ap (λ (t : List ℕ). x ∷ t) empty)
  | inr (ys, y, e) ↦ inr (x ∷ ys, y, ap (λ (t : List ℕ). x ∷ t) e)
]

-- What the loop finds, among the entries `xs` from the head on.
pub record Place (w : Worker) (nsecs_target : ℕ) (xs p q : List ℕ) : Type 0 where
  pub split : xs ≡ p ++ q
  pub stop : (p ≡ []) ⊎ (stops_at w nsecs_target (last_or p no_entry) ≡ true)
  pub later : (x : ℕ) → has x q ≡ true → stops_at w nsecs_target x ≡ false

pub find_place-Place :
    (fuel : ℕ) (w : Worker) (t : ℕ) (xs rest : List ℕ)
    → Chain (next_link w) (prev_link w) no_entry (xs ++ rest) no_entry
    → has no_entry xs ≡ false
    → length xs < fuel
    → (p : List ℕ) × (q : List ℕ) × (find_place fuel w t (last_or xs no_entry)
        ≡ some (last_or p no_entry))
      × Place w t xs p q
unfolding find_place
find_place-Place zero w t xs rest h out f = absurd (omega arith)
find_place-Place (suc fuel) w t xs rest h out f = elim (Snoc-cases xs) [
  | inl empty ↦
      ([], [], rw empty refl, record { split = empty; stop = inl refl; later = λ x m. cc })
  | inr (ys, y, e) ↦
      let l : last_or xs no_entry ≡ y =
        ap (λ (t : List ℕ). last_or t no_entry) e ∙ last_or-snoc ys y no_entry in
      let out' : (has no_entry ys || has no_entry (y ∷ [])) ≡ false =
        sym (has-append no_entry ys (y ∷ [])) ∙ (ap (has no_entry) (sym e) ∙ out) in
      let real : (y == no_entry) ≡ false = ground arith in
      let regroup : xs ++ rest ≡ ys ++ (y ∷ rest) =
        ap (λ (t : List ℕ). t ++ rest) e ∙ append_assoc ys (y ∷ []) rest in
      let h' : Chain (next_link w) (prev_link w) no_entry (ys ++ (y ∷ rest)) no_entry =
        rw regroup at h in
      let back : (w.work_queue y).prev ≡ last_or ys no_entry =
        rw real at
          (Chain-split (next_link w) (prev_link w) no_entry ys (y ∷ rest) no_entry h').1.1 in
      elim (Bool-cases (stops_at w t y)) [
        | inl stop ↦ (
          xs,
          [],
          rw (l, real, stop) refl,
          record { split = sym (append-nil xs); stop = inr (rw l stop); later = λ x m. cc },
        )
        | inr go_on ↦
            let (p, q, found, r) =
              find_place-Place fuel w t ys (y ∷ rest) h' (ground arith)
                (omega (arith, ap length e, length-append ys (y ∷ []))) in
            (
              p,
              q ++ (y ∷ []),
              rw (l, real, go_on, back) found,
              record {
                split =
                    e ∙ (ap (λ (t : List ℕ). t ++ (y ∷ [])) r.split ∙ append_assoc p q (y ∷ []));
                stop = r.stop;
                later = λ x m. ground (arith, r.later x, has-append x q (y ∷ []));
              },
            )
      ]
]
