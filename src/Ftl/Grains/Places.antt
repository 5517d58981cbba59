-- ===== src/Ftl/Grains/Places.antt =====
-- Where the lines of a shard are (nvmevirt/demand_ftl.c): in the free list, in the full list, in the queue
-- of victims, under a write pointer, or taken to be cleaned.
use virtkv.Ftl.Grains.Marks.{erase}
use virtkv.Ftl.Grains.Pqueue.{PqueueLaws, one_at, count}
use virtkv.Ftl.Grains.{PqueueOps, Shard, grains_per_line}
use virtkv.Ftl.Lines.{WritePointer, LineMgmt}
use virtkv.Ssd.Params.{SsdParams}
use virtkv.Common.{
  ℕ, List, [], ◌∷◌, ◌++◌, ◌+◌, ◌==◌, ◌≡◌, ◌≤◌, ◌≢◌, ltb, update, if◌then◌else◌, arith, ℕ_discrete,
  refl, suc, zero, false,
}

pub count-append : (j : ℕ) (xs ys : List ℕ) → count j (xs ++ ys) ≡ count j xs + count j ys
count-append j [] ys = omega arith
count-append j (x ∷ xs) ys = omega (arith, count-append j xs ys)

pub count-erase :
    (i j : ℕ) (xs : List ℕ) → 1 ≤ count i xs → count j xs ≡ one_at i j + count j (erase i xs)
unfolding erase
count-erase i j [] h = absurd (omega (arith, h))
count-erase i j (x ∷ xs) h = elim (ℕ_discrete x i) [
  | yes e ↦ ground arith
  | no ne ↦
      let n : (x == i) ≡ false = ground arith in
      let r = count-erase i j xs (ground arith) in rw n (ground arith)
]

pub count-erase_none : (i j : ℕ) (xs : List ℕ) → count i xs ≡ 0 → count j (erase i xs) ≡ count j xs
unfolding erase
count-erase_none i j [] h = refl
count-erase_none i j (x ∷ xs) h =
    let n : (x == i) ≡ false = ground arith in
    let r = count-erase_none i j xs (omega (arith, h)) in rw n (omega (arith, r))

-- The write pointers that stand on the line `j`.
abbrev pub held : (ℕ → WritePointer) → ℕ → ℕ
held wps j =
    one_at (wps 0).curline j
    + one_at (wps 1).curline j
    + one_at (wps 2).curline j
    + one_at (wps 3).curline j

pub held-update :
    (wps : ℕ → WritePointer) (io j : ℕ) (wp : WritePointer)
    → io ≤ 3
    → held (update wps io wp) j + one_at (wps io).curline j ≡ held wps j + one_at wp.curline j
held-update wps zero j wp h = omega arith
held-update wps (suc zero) j wp h = omega arith
held-update wps (suc (suc zero)) j wp h = omega arith
held-update wps (suc (suc (suc zero))) j wp h = omega arith
held-update wps (suc (suc (suc (suc io)))) j wp h = absurd (omega (arith, h))

pub held-one : (wps : ℕ → WritePointer) (io j : ℕ) → io ≤ 3 → one_at (wps io).curline j ≤ held wps j
held-one wps zero j h = omega arith
held-one wps (suc zero) j h = omega arith
held-one wps (suc (suc zero)) j h = omega arith
held-one wps (suc (suc (suc zero))) j h = omega arith
held-one wps (suc (suc (suc (suc io)))) j h = absurd (omega (arith, h))

abbrev pub known : ℕ → ℕ → ℕ
known tt j = if ltb j tt then 1 else 0

-- The lines are kept: each is in one place, what is in the queue or put aside may have a position, and a
-- line whose grains are all valid is a full line. `outside` counts the lines that are in no list and not in
-- the queue, `aside` those of them that were popped and go back.
pub record IsKept {Q : Type 0} (pq : PqueueOps Q) (laws : PqueueLaws pq) (spp : SsdParams)
    (lm : LineMgmt) (q : Q) (outside aside : ℕ → ℕ) : Type 0 where
  pub placed :
      (j : ℕ)
      → count j lm.free_line_list + count j lm.full_line_list + laws.entries q j + outside j
        ≡ known lm.tt_lines j
  pub queued : (j : ℕ) → (lm.lines j).pos ≢ 0 → 1 ≤ laws.entries q j + aside j
  pub bounded : (j : ℕ) → (lm.lines j).vgc ≤ grains_per_line spp
  pub listed : (j : ℕ) → grains_per_line spp ≤ (lm.lines j).vgc → 1 ≤ count j lm.full_line_list
  pub named : (j : ℕ) → (lm.lines j).id ≡ j

-- The lines of a shard are kept, but for those in `cleaned`, which were taken from the queue.
abbrev pub Kept :
    {Q : Type 0} (pq : PqueueOps Q) → PqueueLaws pq → SsdParams → List ℕ → Shard Q → Type 0
Kept pq laws spp cleaned s =
    IsKept pq laws spp s.writers.lm s.victims (λ j. held s.writers.wps j + count j cleaned) (λ j. 0)
