-- ===== src/Ftl/Grains/Taken.antt =====
-- The changes of a round of mark_grain_invalid (nvmevirt/demand_ftl.c) to the line of its page.
use virtkv.Ftl.Grains.Relist.{add_victim-IsKept, update-field}
use virtkv.Ftl.Grains.Marks.{erase, take_grains, leave_full, settle}
use virtkv.Ftl.Grains.Places.{IsKept, Kept, count-erase, count-erase_none}
use virtkv.Ftl.Grains.Pqueue.{PqueueLaws, one_at, count}
use virtkv.Ftl.Grains.{PqueueOps, Shard, grains_per_line, add_victim, set_lm}
use virtkv.Ftl.Lines.{Line, LineMgmt}
use virtkv.Ssd.Ppa.{Ppa}
use virtkv.Ssd.Params.{SsdParams}
use virtkv.Common.{
  ℕ, List, ◌+◌, ◌-◌, ◌==◌, ◌≡◌, ◌≤◌, ◌<◌, ◌≢◌, update, if◌then◌else◌, arith, ℕ_discrete, refl, Bool,
  true, false, ◌∙◌, ap, u32, ◌^◌,
}

module _ {Q : Type 0} (pq : PqueueOps Q) (laws : PqueueLaws pq) (spp : SsdParams) where
  -- What taking `len` grains from the line `i` does to the fields of the lines and to the queue.
  take_grains-vgc :
      (s : Shard Q) (i len j : ℕ)
      → ((take_grains pq spp s i len).writers.lm.lines j).vgc
        ≡ (if i == j then (s.writers.lm.lines i).vgc - len else (s.writers.lm.lines j).vgc)
  unfolding take_grains
  take_grains-vgc s i len j =
      let l = s.writers.lm.lines in
      let line = record (l i) { igc = (l i).igc + len } in
      let left = (l i).vgc - len in
      elim (ℕ_discrete (l i).pos 0) [
        | yes z ↦
            let t : ((l i).pos == 0) ≡ true = ground arith in
            rw t (elim (ℕ_discrete i j) [
              | yes e ↦
                  let a : (i == j) ≡ true = ground arith in
                  let b : (j == i) ≡ true = ground arith in rw (a, b) refl
              | no ne ↦
                  let a : (i == j) ≡ false = ground arith in
                  let b : (j == i) ≡ false = ground arith in rw (a, b) refl
            ])
        | no nz ↦
            let t : ((l i).pos == 0) ≡ false = ground arith in
            rw t (
              laws.change_vgc s.victims (update l i line) left i j
              ∙ ap (λ v. if i == j then left else v)
                  (update-field pq laws spp l i line (λ x. x.vgc) refl j))
      ]

  pub take_grains-entries :
      (s : Shard Q) (i len j : ℕ)
      → ((s.writers.lm.lines i).pos ≢ 0 → 1 ≤ laws.entries s.victims i)
      → laws.entries (take_grains pq spp s i len).victims j ≡ laws.entries s.victims j
  unfolding take_grains
  take_grains-entries s i len j h =
      let l = s.writers.lm.lines in
      elim (ℕ_discrete (l i).pos 0) [
        | yes z ↦ let t : ((l i).pos == 0) ≡ true = ground arith in rw t refl
        | no nz ↦
            let t : ((l i).pos == 0) ≡ false = ground arith in
            rw t (laws.changed s.victims _ _ i j (h nz))
      ]

  take_grains-pos :
      (s : Shard Q) (i len j : ℕ)
      → (s.writers.lm.lines j).pos ≡ 0
      → ((take_grains pq spp s i len).writers.lm.lines j).pos ≡ 0
  unfolding take_grains
  take_grains-pos s i len j h =
      let l = s.writers.lm.lines in
      let same : (line : Line) → line.pos ≡ (l i).pos → (update l i line j).pos ≡ 0 =
        λ line e. update-field pq laws spp l i line (λ x. x.pos) e j ∙ h in
      elim (ℕ_discrete (l i).pos 0) [
        | yes z ↦ let t : ((l i).pos == 0) ≡ true = ground arith in rw t (same _ refl)
        | no nz ↦
            let t : ((l i).pos == 0) ≡ false = ground arith in
            rw t (laws.change_pos s.victims _ _ i j (same _ refl))
      ]

  take_grains-id :
      (s : Shard Q) (i len j : ℕ)
      → ((take_grains pq spp s i len).writers.lm.lines j).id ≡ (s.writers.lm.lines j).id
  unfolding take_grains
  take_grains-id s i len j =
      let l = s.writers.lm.lines in
      let same : (line : Line) → line.id ≡ (l i).id → (update l i line j).id ≡ (l j).id =
        λ line e. update-field pq laws spp l i line (λ x. x.id) e j in
      elim (ℕ_discrete (l i).pos 0) [
        | yes z ↦ let t : ((l i).pos == 0) ≡ true = ground arith in rw t (same _ refl)
        | no nz ↦
            let t : ((l i).pos == 0) ≡ false = ground arith in
            rw t (laws.change_id s.victims _ _ i j ∙ same _ refl)
      ]

  take_grains-IsKept :
      (s : Shard Q) (i len : ℕ) {o : ℕ → ℕ}
      → IsKept pq laws spp s.writers.lm s.victims o (λ j. 0)
      → (s.writers.lm.lines i).vgc - len < grains_per_line spp
      → (let t = take_grains pq spp s i len in IsKept pq laws spp t.writers.lm t.victims o (λ j. 0))
  unfolding take_grains
  take_grains-IsKept s i len h less =
      let in_queue : (s.writers.lm.lines i).pos ≢ 0 → 1 ≤ laws.entries s.victims i =
        λ nz. omega (arith, h.queued i nz) in
      record {
        placed = λ j. omega (arith, h.placed j, take_grains-entries s i len j in_queue);
        queued = λ j pos. omega (
          arith,
          h.queued j (λ z. pos (take_grains-pos s i len j z)),
          take_grains-entries s i len j in_queue,
        );
        bounded = λ j.
            (let v = take_grains-vgc s i len j in
              let b = h.bounded j in let c = h.bounded i in ground arith);
        listed =
            λ j full. (let v = take_grains-vgc s i len j in let b = h.listed j in ground arith);
        named = λ j. take_grains-id s i len j ∙ h.named j;
      }

  -- The line `i` leaves the full lines; it is in no other list.
  erase-IsKept :
      (lm : LineMgmt) (q : Q) (i n : ℕ) {o a : ℕ → ℕ}
      → IsKept pq laws spp lm q o a
      → 1 ≤ count i lm.full_line_list
      → (lm.lines i).vgc < grains_per_line spp
      → IsKept pq laws spp
          (record lm {
            free_line_list = erase i lm.free_line_list;
            full_line_list = erase i lm.full_line_list;
            full_line_cnt = n;
          })
          q
          (λ j. one_at i j + o j)
          a
  erase-IsKept lm q i n h full less =
      let not_free : count i lm.free_line_list ≡ 0 = (let p = h.placed i in ground arith) in
      let left = λ (j : ℕ). count-erase i j lm.full_line_list full in
      record {
        placed =
            λ j. omega (arith, h.placed j, left j, count-erase_none i j lm.free_line_list not_free);
        queued = h.queued;
        bounded = h.bounded;
        listed = λ j all.
            (let l = h.listed j all in
              let k = left j in
              elim (ℕ_discrete i j) [
                | yes e ↦ absurd (omega (arith, less, all, ap (λ k. (lm.lines k).vgc) e))
                | no ne ↦ ground arith
              ]);
        named = h.named;
      }

  leave_full-IsKept :
      (s : Shard Q) (i : ℕ) {o : ℕ → ℕ}
      → IsKept pq laws spp s.writers.lm s.victims o (λ j. 0)
      → 1 ≤ count i s.writers.lm.full_line_list
      → (s.writers.lm.lines i).vgc < grains_per_line spp
      → (let t = leave_full pq spp s i in IsKept pq laws spp t.writers.lm t.victims o (λ j. 0))
  unfolding leave_full
  leave_full-IsKept s i h full less =
      let lm = s.writers.lm in
      let n = u32 (lm.full_line_cnt + 2 ^ 32 - 1) in
      let out = record lm {
        free_line_list = erase i lm.free_line_list;
        full_line_list = erase i lm.full_line_list;
        full_line_cnt = n;
      } in
      add_victim-IsKept pq laws spp (set_lm pq spp s out) i
        (erase-IsKept lm s.victims i n h full less) (λ j. refl) (λ j. omega arith)

  pub settle-Kept :
      (s : Shard Q) (ppa : Ppa) (grain len : ℕ) (was : Bool) (cleaned : List ℕ)
      → Kept pq laws spp cleaned s
      → 0 < len
      → 0 < grains_per_line spp
      → (was ≡ true → 1 ≤ count ppa.blk s.writers.lm.full_line_list)
      → (was ≡ false → (s.writers.lm.lines ppa.blk).vgc < grains_per_line spp)
      → Kept pq laws spp cleaned (settle pq spp s ppa grain len was)
  unfolding settle take_grains leave_full add_victim
  settle-Kept s ppa grain len false cleaned h some room full less =
      let l = less refl in take_grains-IsKept s ppa.blk len h (omega (arith, l))
  settle-Kept s ppa grain len true cleaned h some room full less =
      let i = ppa.blk in
      let taken : (s.writers.lm.lines i).vgc - len < grains_per_line spp =
        omega (arith, h.bounded i, some, room) in
      leave_full-IsKept (take_grains pq spp s i len) i (take_grains-IsKept s i len h taken)
        (full refl) (let v = take_grains-vgc s i len i in ground arith)

  -- The line of the page has lost the grains; if it was full, it has come to the queue.
  abbrev pub Taken : Shard Q → Ppa → (len : ℕ) → Shard Q → Type 0
  Taken s ppa len s' =
      ((s'.writers.lm.lines ppa.blk).vgc ≡ (s.writers.lm.lines ppa.blk).vgc - len)
      × (grains_per_line spp ≤ (s.writers.lm.lines ppa.blk).vgc
          → 1 ≤ laws.entries s'.victims ppa.blk)

  vgc-taken :
      (s : Shard Q) (i len : ℕ)
      → ((take_grains pq spp s i len).writers.lm.lines i).vgc ≡ (s.writers.lm.lines i).vgc - len
  vgc-taken s i len = let v = take_grains-vgc s i len i in ground arith

  pub settle-Taken :
      (s : Shard Q) (ppa : Ppa) (grain len : ℕ) (was : Bool)
      → (grains_per_line spp ≤ (s.writers.lm.lines ppa.blk).vgc → was ≡ true)
      → Taken s ppa len (settle pq spp s ppa grain len was)
  unfolding settle leave_full add_victim
  settle-Taken s ppa grain len false full =
      (vgc-taken s ppa.blk len, λ all. let e = full all in absurd cc)
  settle-Taken s ppa grain len true full =
      let i = ppa.blk in
      let t = take_grains pq spp s i len in
      let l = t.writers.lm.lines in
      (
        laws.insert_vgc t.victims l i i ∙ vgc-taken s i len,
        λ all. (let e = laws.inserted t.victims l i i in ground arith),
      )
