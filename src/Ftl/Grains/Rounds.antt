-- ===== src/Ftl/Grains/Rounds.antt =====
-- The rounds of mark_grain_invalid (nvmevirt/demand_ftl.c) on grains of several pages.
use virtkv.Ftl.Grains.Marks.{
  take_grains, leave_full, settle, invalid_round, invalid_next, invalid_rounds, mark_grain_invalid,
}
use virtkv.Ftl.Grains.Places.{Kept}
use virtkv.Ftl.Grains.Pqueue.{PqueueLaws}
use virtkv.Ftl.Grains.{PqueueOps, Shard, is_valid, grains_per_blk, grains_per_line, add_victim}
use virtkv.Ftl.Address.Returns.{ppa_to_struct-Safe, ppa2pgidx-Safe, peek_next_page-Safe}
use virtkv.Ftl.Address.{
  grain_per_page, g_idx, last_pg_in_line, peek_next_page, ppa2pgidx, ppa_to_pga, ppa_to_struct,
}
use virtkv.Ssd.Ppa.{Ppa}
use virtkv.Ssd.Params.{SsdParams}
use virtkv.Common.{
  ℕ, List, ◌+◌, ◌-◌, ◌==◌, ◌≡◌, ◌≤◌, ◌<◌, ◌≢◌, ltb, arith, refl, sym, Bool, true, false, Safe,
  safe_ok, Returns, then_Safe, bind_Safe, Outcome, ok, leb, ◌∙◌, ap, ◌%◌, ◌&&◌, ◌||◌, not, ltb→lt,
  min, suc, zero, ==_iff,
}
use virtkv.Ftl.Grains.Kept.{IsTakable}
use virtkv.Ftl.Grains.Taken.{settle-Kept, take_grains-entries}

module _ {Q : Type 0} (pq : PqueueOps Q) (spp : SsdParams) where
  -- A round returns, having taken a grain, or an assertion fails.
  invalid_round-Safe :
      (s : Shard Q) (ppa : Ppa) (was : Bool) (grain len : ℕ)
      → Safe (λ r. 0 < len) (invalid_round pq spp s ppa was grain len)
  unfolding invalid_round
  invalid_round-Safe s ppa was grain len =
      let blk = s.blks ppa in
      let line = s.writers.lm.lines ppa.blk in
      let full = leb (grains_per_line spp) line.vgc in
      then_Safe (ltb 0 len) (λ some. then_Safe (is_valid (s.pages ppa)) (λ valid.
        then_Safe (ltb blk.igc (grains_per_blk spp)) (λ igc.
          then_Safe (ltb 0 blk.vgc && leb blk.vgc (grains_per_blk spp)) (λ vgc.
            then_Safe (ltb line.igc (grains_per_line spp)) (λ room.
              then_Safe (not full || line.igc == 0) (λ clean.
                then_Safe (leb len line.vgc && leb (line.vgc - len) (grains_per_line spp)) (λ left.
                  then_Safe (s.grain_bitmap grain) (λ marked. safe_ok (ltb→lt 0 len some)))))))))

  invalid_next-Safe :
      (again : Ppa → ℕ → Outcome (Shard Q)) (s : Shard Q) (ppa : Ppa) (rem : ℕ)
      → ((p : Ppa) (g : ℕ) → Safe (λ t. Unit {0}) (again p g))
      → Safe (λ t. Unit {0}) (invalid_next pq spp again s ppa rem)
  unfolding invalid_next
  invalid_next-Safe again s ppa zero h = safe_ok tt
  invalid_next-Safe again s ppa (suc more) h = bind_Safe (peek_next_page-Safe spp ppa) (λ p d.
      then_Safe (p.blk == (s.writers.lm.lines ppa.blk).id)
        (λ same. bind_Safe (ppa2pgidx-Safe spp p) (λ page e. h p (ppa_to_pga page 0))))

  invalid_rounds-Safe :
      (fuel : ℕ) (s : Shard Q) (ppa : Ppa) (was : Bool) (grain rem : ℕ)
      → rem < fuel
      → Safe (λ t. Unit {0}) (invalid_rounds pq spp fuel s ppa was grain rem)
  unfolding invalid_rounds
  invalid_rounds-Safe zero s ppa was grain rem h = absurd (omega (arith, h))
  invalid_rounds-Safe (suc fuel) s ppa was grain rem h =
      let len = min rem (grain_per_page - grain % grain_per_page) in
      bind_Safe (invalid_round-Safe s ppa was grain len) (λ r some.
        invalid_next-Safe _ r.1 ppa (rem - len)
          (λ p g. invalid_rounds-Safe fuel r.1 p r.0 g (rem - len) (omega (arith, h, some))))

  pub mark_grain_invalid-Safe :
      (s : Shard Q) (grain len : ℕ) → Safe (λ t. Unit {0}) (mark_grain_invalid pq spp s grain len)
  unfolding mark_grain_invalid
  mark_grain_invalid-Safe s grain len = bind_Safe (ppa_to_struct-Safe spp (g_idx grain)) (λ ppa d.
      then_Safe (leb len grain_per_page || not (last_pg_in_line spp ppa))
        (λ room. invalid_rounds-Safe (suc len) s ppa false grain len (omega arith)))

module _ {Q : Type 0} (pq : PqueueOps Q) (laws : PqueueLaws pq) (spp : SsdParams) where
  -- A round returns, and `was_full_line` is set if it was or if the line was full.
  invalid_round-settle :
      (s : Shard Q) (ppa : Ppa) (was : Bool) (grain len : ℕ)
      → (s.writers.lm.lines ppa.blk).vgc ≤ grains_per_line spp
      → IsTakable pq laws spp s ppa grain len
      → (was || leb (grains_per_line spp) (s.writers.lm.lines ppa.blk).vgc) ≡ true
      → invalid_round pq spp s ppa was grain len ≡ ok (true, settle pq spp s ppa grain len true)
  unfolding invalid_round
  invalid_round-settle s ppa was grain len most t set =
      let blk = s.blks ppa in
      let line = s.writers.lm.lines ppa.blk in
      let full = leb (grains_per_line spp) line.vgc in
      let igc = t.blk_igc in
      let vgc = t.blk_vgc in
      let room = t.line_igc in
      let clean = t.line_full in
      let left = t.line_vgc in
      let some = t.some_grains in
      let a : ltb 0 len ≡ true = ground arith in
      let b : ltb blk.igc (grains_per_blk spp) ≡ true = ground arith in
      let c : (ltb 0 blk.vgc && leb blk.vgc (grains_per_blk spp)) ≡ true = ground arith in
      let d : ltb line.igc (grains_per_line spp) ≡ true = ground arith in
      let e : (not full || line.igc == 0) ≡ true = ground arith in
      let f : (leb len line.vgc && leb (line.vgc - len) (grains_per_line spp)) ≡ true =
        ground arith in
      let g : (full || was) ≡ true = ground arith in
      simp (a, t.page, b, c, d, e, f, t.marked, g) refl

  settle-entries :
      (s : Shard Q) (ppa : Ppa) (grain len : ℕ)
      → ((s.writers.lm.lines ppa.blk).pos ≢ 0 → 1 ≤ laws.entries s.victims ppa.blk)
      → laws.entries (settle pq spp s ppa grain len true).victims ppa.blk
        ≡ 1 + laws.entries s.victims ppa.blk
  unfolding settle leave_full add_victim
  settle-entries s ppa grain len queued =
      let i = ppa.blk in
      let t = take_grains pq spp s i len in
      let e = laws.inserted t.victims t.writers.lm.lines i i in
      let k = take_grains-entries pq laws spp s i len i queued in ground arith

  -- What a second round meets after the first one, on the page `q` with the index `page`.
  pub record SecondPage (s : Shard Q) (ppa q : Ppa) (page rem : ℕ) : Type 0 where
    pub follows : peek_next_page spp ppa ≡ ok q
    pub same_line : q.blk ≡ ppa.blk
    pub index : ppa2pgidx spp q ≡ ok page
    pub takable : IsTakable pq laws spp s q (ppa_to_pga page 0) rem

  first-Kept :
      (s : Shard Q) (ppa : Ppa) (grain first : ℕ) (cleaned : List ℕ)
      → Kept pq laws spp cleaned s
      → grains_per_line spp ≤ (s.writers.lm.lines ppa.blk).vgc
      → IsTakable pq laws spp s ppa grain first
      → Kept pq laws spp cleaned (settle pq spp s ppa grain first true)
  first-Kept s ppa grain first cleaned h all t =
      let r = t.line_igc in
      settle-Kept pq laws spp s ppa grain first true cleaned h t.some_grains (omega (arith, r))
        (λ x. h.listed ppa.blk all) (λ f. absurd cc)

  two_rounds :
      (fuel : ℕ) (s : Shard Q) (ppa q : Ppa) (page grain first more : ℕ) (cleaned : List ℕ)
      → (let s1 = settle pq spp s ppa grain first true in
          Kept pq laws spp cleaned s
          → grains_per_line spp ≤ (s.writers.lm.lines ppa.blk).vgc
          → first ≡ grain_per_page - grain % grain_per_page
          → suc more ≤ grain_per_page
          → IsTakable pq laws spp s ppa grain first
          → SecondPage s1 ppa q page (suc more)
          → invalid_rounds pq spp (suc (suc fuel)) s ppa false grain (first + suc more)
            ≡ ok (settle pq spp s1 q (ppa_to_pga page 0) (suc more) true))
  unfolding invalid_rounds invalid_next
  two_rounds fuel s ppa q page grain first more cleaned h all whole small t u =
      let s1 = settle pq spp s ppa grain first true in
      let kept = first-Kept s ppa grain first cleaned h all t in
      let run = invalid_round-settle s ppa false grain first (h.bounded ppa.blk) t (ground arith) in
      let again =
        invalid_round-settle s1 q true (ppa_to_pga page 0) (suc more) (kept.bounded q.blk) u.takable
          refl in
      let a : min (first + suc more) (grain_per_page - grain % grain_per_page) ≡ first =
        omega (arith, whole) in
      let b : first + suc more - first ≡ suc more = omega arith in
      let c : min (suc more) (grain_per_page - ppa_to_pga page 0 % grain_per_page) ≡ suc more =
        omega (arith, small) in
      let d : suc more - suc more ≡ 0 = omega arith in
      let e : (q.blk == (s1.writers.lm.lines ppa.blk).id) ≡ true =
        (==_iff q.blk (s1.writers.lm.lines ppa.blk).id).1
          (u.same_line ∙ sym (kept.named ppa.blk)) in
      simp (a, run, b, u.follows, e, u.index, c, again, d) refl

  -- Where the lines are kept and the grains, not more than a page has, go on from the page ppa of a line whose grains are all valid to the next page of that line, with the assertions on both pages true, mark_grain_invalid returns with two entries of the line in the queue of victims.
  pub mark_grain_invalid-twice :
      (s : Shard Q) (ppa q : Ppa) (page grain first more : ℕ) (cleaned : List ℕ)
      → Kept pq laws spp cleaned s
      → ppa_to_struct spp (g_idx grain) ≡ ok ppa
      → grains_per_line spp ≤ (s.writers.lm.lines ppa.blk).vgc
      → first ≡ grain_per_page - grain % grain_per_page
      → first + suc more ≤ grain_per_page
      → IsTakable pq laws spp s ppa grain first
      → SecondPage (settle pq spp s ppa grain first true) ppa q page (suc more)
      → Returns
          (λ s'. laws.entries s'.victims ppa.blk ≡ 2)
          (mark_grain_invalid pq spp s grain (first + suc more))
  unfolding mark_grain_invalid
  mark_grain_invalid-twice s ppa q page grain first more cleaned h at all whole small t u =
      let some = t.some_grains in
      let i = ppa.blk in
      let s1 = settle pq spp s ppa grain first true in
      let s2 = settle pq spp s1 q (ppa_to_pga page 0) (suc more) true in
      let fuel = first + more - 1 in
      let enough : suc (first + suc more) ≡ suc (suc (suc fuel)) = omega (arith, some) in
      let a : (leb (first + suc more) grain_per_page || not (last_pg_in_line spp ppa)) ≡ true =
        ground arith in
      let run =
        two_rounds (suc fuel) s ppa q page grain first more cleaned h all whole
          (omega (arith, small)) t u in
      let one = settle-entries s ppa grain first (λ nz. omega (arith, h.queued i nz)) in
      let none : laws.entries s.victims i ≡ 0 =
        (let p = h.placed i in let l = h.listed i all in ground arith) in
      let kept = first-Kept s ppa grain first cleaned h all t in
      let two =
        settle-entries s1 q (ppa_to_pga page 0) (suc more)
          (λ nz. omega (arith, kept.queued q.blk nz)) in
      let again : laws.entries s2.victims i ≡ 1 + laws.entries s1.victims i =
        ap (laws.entries s2.victims) (sym u.same_line)
        ∙ two
        ∙ ap (λ j. 1 + laws.entries s1.victims j) u.same_line in
      let rounds = λ (n : ℕ). invalid_rounds pq spp n s ppa false grain (first + suc more) in
      (
        s2,
        rw at (simp a (ap rounds enough ∙ run)),
        again ∙ ap (λ n. 1 + n) (one ∙ ap (λ n. 1 + n) none),
      )
