-- ===== src/Io/Reclaim/Done.antt =====
-- The loop of `__reclaim_completed_reqs` (nvmevirt/io.c) goes over all entries at the head that are done.
use virtkv.Io.Queue.Place.{next_link, prev_link}
use virtkv.Io.Queue.Chain.{Chain, has, head_or, last_or, Chain-head}
use virtkv.Io.Queue.{Worker, no_entry}
use virtkv.Io.Reclaim.{last_done, is_done}
use virtkv.Common.{
  ◌↔◌, ◌≤◌, refl, zero, suc, inr, ==_iff, ℕ, List, ◌≡◌, [], ◌++◌, ◌⊎◌, true, false, length, ◌<◌,
  some, arith, suc, inl, ◌∷◌, ◌==◌, Bool-cases, ap, ==_iff,
}

-- The worker is finished with an entry, and has reached its target time.
abbrev pub IsDone : Worker → ℕ → Type 0
IsDone w x =
    ((w.work_queue x).is_completed ≡ true)
    × ((w.work_queue x).is_copied ≡ true)
    × ((w.work_queue x).nsecs_target ≤ w.latest_nsecs)

is_done_iff : (w : Worker) (x : ℕ) → (is_done w x ≡ true) ↔ IsDone w x
is_done_iff w x = (λ h. ground arith, λ h. ground arith)

-- The first entry that is not done, if there is one.
abbrev pub Stops : Worker → List ℕ → Type 0
Stops w r = (r ≡ []) ⊎ (¬ IsDone w (head_or r no_entry))

-- The part `d` of the queue is done, and `r` is what stays.
pub record Prefix (w : Worker) (xs d r : List ℕ) : Type 0 where
  pub split : xs ≡ d ++ r
  pub done : (x : ℕ) → has x d ≡ true → IsDone w x
  pub stop : Stops w r

pub last_done-Prefix :
    (fuel : ℕ) (w : Worker) (a : ℕ) (xs : List ℕ)
    → Chain (next_link w) (prev_link w) a xs no_entry
    → has no_entry xs ≡ false
    → length xs < fuel
    → (d : List ℕ) × (r : List ℕ) × (last_done fuel w a (head_or xs no_entry) ≡ some (last_or d a))
      × Prefix w xs d r
unfolding last_done
last_done-Prefix zero w a xs h out f = absurd (omega arith)
last_done-Prefix (suc fuel) w a [] h out f =
    ([], [], refl, record { split = refl; done = λ x m. cc; stop = inl refl })
last_done-Prefix (suc fuel) w a (x ∷ xs) h out f =
    let real : (x == no_entry) ≡ false = ground arith in
    let step : (w.work_queue x).next ≡ head_or xs no_entry =
      rw real at (Chain-head (next_link w) (prev_link w) x xs no_entry h.2) in
    elim (Bool-cases (is_done w x)) [
      | inl done ↦
          let (d, r, found, p) = last_done-Prefix fuel w x xs h.2 (ground arith) (omega arith) in
          (
            x ∷ d,
            r,
            rw (real, done, step) found,
            record {
              split = ap (λ (t : List ℕ). x ∷ t) p.split;
              done = λ z m. elim (Bool-cases (z == x)) [
                | inl here ↦ let e = (==_iff z x).0 here in rw e ((is_done_iff w x).0 done)
                | inr there ↦ p.done z (ground arith)
              ];
              stop = p.stop;
            },
          )
      | inr pending ↦ (
        [],
        x ∷ xs,
        rw (real, pending) refl,
        record {
          split = refl;
          done = λ z m. cc;
          stop = inr (λ finished. let h = (is_done_iff w x).1 finished in cc);
        },
      )
    ]
