-- ===== src/Ftl/Grains/Relist.antt =====
-- What the moves of a line between the lists, the queue and the write pointers do to where the lines are
-- (nvmevirt/demand_ftl.c).
use virtkv.Ftl.Grains.Places.{IsKept, Kept, held, held-update, count-append}
use virtkv.Ftl.Grains.Pqueue.{PqueueLaws, one_at, count}
use virtkv.Ftl.Grains.{PqueueOps, Shard, set_wp, set_lm, add_victim}
use virtkv.Ftl.Lines.{Line, WritePointer, LineMgmt, get_next_free_line, next_of}
use virtkv.Ssd.Params.{SsdParams}
use virtkv.Common.{
  ℕ, List, [], ◌∷◌, ◌++◌, ◌+◌, ◌==◌, ◌≡◌, ◌≤◌, ◌≢◌, update, if◌then◌else◌, arith, ℕ_discrete, refl,
  sym, Bool, true, false, Returns, ◌∙◌, ap,
}

module _ {Q : Type 0} (pq : PqueueOps Q) (laws : PqueueLaws pq) (spp : SsdParams) where
  pub IsKept-outside :
      {lm : LineMgmt} {q : Q} {o o' a : ℕ → ℕ}
      → IsKept pq laws spp lm q o a
      → ((j : ℕ) → o j ≡ o' j)
      → IsKept pq laws spp lm q o' a
  IsKept-outside h e = record {
    placed = λ j. omega (arith, h.placed j, e j);
    queued = h.queued;
    bounded = h.bounded;
    listed = h.listed;
    named = h.named;
  }

  insert_queued :
      (lm : LineMgmt) (q : Q) (i : ℕ) (a' : ℕ → ℕ) {o a : ℕ → ℕ}
      → IsKept pq laws spp lm q o a
      → ((j : ℕ) → a j ≤ a' j + one_at i j)
      → (j : ℕ) → ((pq.insert q lm.lines i).1 j).pos ≢ 0
      → 1 ≤ laws.entries (pq.insert q lm.lines i).0 j + a' j
  insert_queued lm q i a' h back j pos =
      let entered = laws.inserted q lm.lines i j in
      elim (ℕ_discrete i j) [
        | yes e ↦ ground arith
        | no ne ↦ elim (ℕ_discrete (lm.lines j).pos 0) [
          | yes z ↦ absurd (pos (laws.insert_pos q lm.lines i j z ne))
          | no nz ↦ let k = h.queued j nz in let b = back j in ground arith
        ]
      ]

  -- A line that was outside goes to the queue.
  pub insert-IsKept :
      (lm : LineMgmt) (q : Q) (i n : ℕ) {o o' a a' : ℕ → ℕ}
      → IsKept pq laws spp lm q o a
      → ((j : ℕ) → one_at i j + o' j ≡ o j)
      → ((j : ℕ) → a j ≤ a' j + one_at i j)
      → IsKept pq laws spp
          (record lm { lines = (pq.insert q lm.lines i).1; victim_line_cnt = n })
          (pq.insert q lm.lines i).0
          o'
          a'
  insert-IsKept lm q i n {a} {a'} h out back =
      let vgc = laws.insert_vgc q lm.lines i in
      record {
        placed = λ j. omega (arith, h.placed j, out j, laws.inserted q lm.lines i j);
        queued = λ j pos. insert_queued lm q i a' h back j pos;
        bounded = λ j. omega (arith, vgc j, h.bounded j);
        listed = λ j full. h.listed j (omega (arith, vgc j, full));
        named = λ j. laws.insert_id q lm.lines i j ∙ h.named j;
      }

  pub add_victim-IsKept :
      (s : Shard Q) (i : ℕ) {o o' a a' : ℕ → ℕ}
      → IsKept pq laws spp s.writers.lm s.victims o a
      → ((j : ℕ) → one_at i j + o' j ≡ o j)
      → ((j : ℕ) → a j ≤ a' j + one_at i j)
      → IsKept pq laws spp (add_victim pq spp s i).writers.lm (add_victim pq spp s i).victims o' a'
  unfolding add_victim
  add_victim-IsKept s i h out back = insert-IsKept s.writers.lm s.victims i _ h out back

  -- The state after a line became a full line.
  pub full-IsKept :
      (lm : LineMgmt) (q : Q) (i n : ℕ) {o o' a : ℕ → ℕ}
      → IsKept pq laws spp lm q o a
      → ((j : ℕ) → one_at i j + o' j ≡ o j)
      → IsKept pq laws spp
          (record lm { full_line_list = lm.full_line_list ++ (i ∷ []); full_line_cnt = n })
          q
          o'
          a
  full-IsKept lm q i n h out = record {
    placed = λ j. omega (arith, h.placed j, out j, count-append j lm.full_line_list (i ∷ []));
    queued = h.queued;
    bounded = h.bounded;
    listed = λ j full. omega (arith, h.listed j full, count-append j lm.full_line_list (i ∷ []));
    named = h.named;
  }

  -- A line comes from the free list.
  pub next_of-IsKept :
      (lm : LineMgmt) (x : ℕ) (xs : List ℕ) {q : Q} {o a : ℕ → ℕ}
      → IsKept pq laws spp lm q o a
      → lm.free_line_list ≡ x ∷ xs
      → Returns
          (λ r.
            IsKept pq laws spp r.1 q (λ j. o j + one_at r.0 j) a
            × (r.0 ≡ x)
            × (r.1.free_line_list ≡ xs)
            × (r.1.full_line_list ≡ lm.full_line_list))
          (get_next_free_line lm)
  unfolding get_next_free_line next_of
  next_of-IsKept lm x rest h e = rw e (
    _,
    refl,
    (
      record {
        placed = λ j. omega (arith, h.placed j, ap (count j) e);
        queued = h.queued;
        bounded = h.bounded;
        listed = h.listed;
        named = h.named;
      },
      refl,
      refl,
      refl,
    ),
  )

  pub update-field :
      (l : ℕ → Line) (i : ℕ) (v : Line) (f : Line → ℕ)
      → f v ≡ f (l i)
      → (j : ℕ) → f (update l i v j) ≡ f (l j)
  update-field l i v f e j = elim (ℕ_discrete j i) [
    | yes at ↦ let t : (j == i) ≡ true = ground arith in rw t (e ∙ ap (λ k. f (l k)) (sym at))
    | no ne ↦ let t : (j == i) ≡ false = ground arith in rw t refl
  ]

  pub vgc-if : (b : Bool) (x y : Line) → (if b then x else y).vgc ≡ (if b then x.vgc else y.vgc)
  vgc-if true x y = refl
  vgc-if false x y = refl

  pub map_line-IsKept :
      (lm : LineMgmt) (i : ℕ) (m : Bool) {q : Q} {o a : ℕ → ℕ}
      → IsKept pq laws spp lm q o a
      → IsKept pq laws spp
          (record lm { lines = update lm.lines i (record (lm.lines i) { map_line = m }) })
          q
          o
          a
  map_line-IsKept lm i m h =
      let same = update-field lm.lines i (record (lm.lines i) { map_line = m }) in
      record {
        placed = h.placed;
        queued = λ j pos. h.queued j (λ z. pos (same (λ l. l.pos) refl j ∙ z));
        bounded = λ j. omega (arith, same (λ l. l.vgc) refl j, h.bounded j);
        listed = λ j full. h.listed j (omega (arith, same (λ l. l.vgc) refl j, full));
        named = λ j. same (λ l. l.id) refl j ∙ h.named j;
      }

  pub set_wp-Kept :
      (s : Shard Q) (lm : LineMgmt) (io : ℕ) (wp : WritePointer) (cleaned : List ℕ) (o : ℕ → ℕ)
      → io ≤ 3
      → IsKept pq laws spp lm s.victims (λ j. o j + one_at wp.curline j) (λ j. 0)
      → ((j : ℕ)
          → o j + one_at (s.writers.wps io).curline j ≡ held s.writers.wps j + count j cleaned)
      → Kept pq laws spp cleaned (set_wp pq spp (set_lm pq spp s lm) io wp)
  set_wp-Kept s lm io wp cleaned o le h out =
      IsKept-outside h (λ j. omega (arith, out j, held-update s.writers.wps io j wp le))
