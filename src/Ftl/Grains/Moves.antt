-- ===== src/Ftl/Grains/Moves.antt =====
-- The advance of a write pointer keeps the lines and files the line that is used up
-- (advance_write_pointer of nvmevirt/demand_ftl.c).
use native.Mathlib.Nat.{mod-eq_of_lt}
use mathlib.Core.Path.{subst}
use virtkv.Ftl.Grains.Turns.{
  Ready, Retired, Started, After, Turned, turned, moved, stay, retire_line-IsKept, start_line-Kept,
}
use virtkv.Ftl.Grains.Places.{Kept, held, held-one}
use virtkv.Ftl.Grains.Pqueue.{PqueueLaws, one_at, count}
use virtkv.Ftl.Grains.{
  PqueueOps, Shard, set_wp, next_line, next_wordline, next_lun, next_ch, advance_write_pointer,
}
use virtkv.Ftl.Lines.{WritePointer, gc_map_io}
use virtkv.Ssd.Params.{SsdParams}
use virtkv.Common.{
  ℕ, List, ◌+◌, ◌-◌, ◌==◌, ◌≡◌, ltb, arith, refl, Returns, then_Returns, if_Returns, bind_Returns,
  ◌<◌, leb, ◌∙◌, ap, ◌%◌, true, false, Bool, ◌⊎◌, inl, inr, ◌&&◌, dec_lt, ok, map_Returns,
}

-- A page that ends a wordline has the wordline's pages up to it.
whole_wordline : (pg n : ℕ) → (pg + 1) % n ≡ 0 → pg + 1 - n + n ≡ pg + 1
whole_wordline pg n h = elim (dec_lt (pg + 1) n) [
  | yes short ↦ absurd (omega (arith, mod-eq_of_lt short, h))
  | no fits ↦ omega arith
]

module _ {Q : Type 0} (pq : PqueueOps Q) (laws : PqueueLaws pq) (spp : SsdParams) where
  -- The pointer stands at the last page of its line.
  abbrev pub at_end : WritePointer → Bool
  at_end wp =
      (wp.pg + 1) % spp.pgs_per_oneshotpg == 0
      && (wp.ch + 1 == spp.nchs
          && (wp.lun + 1 == spp.luns_per_ch
              && wp.pg + 1 - spp.pgs_per_oneshotpg + spp.pgs_per_oneshotpg == spp.pgs_per_blk))

  -- The lines are kept, and the pointer has gone on as it must.
  abbrev Advanced : Shard Q → ℕ → List ℕ → ℕ → List ℕ → Bool → Shard Q → Type 0
  Advanced s io cleaned next others end s' =
      Kept pq laws spp cleaned s' × After pq laws spp s s' io next others end

  turn :
      (s s' s'' : Shard Q) (io : ℕ) (wp : WritePointer) (next : ℕ) (others : List ℕ)
      → wp.curline ≡ (s.writers.wps io).curline
      → s'.writers.wps ≡ s.writers.wps
      → Retired pq laws spp s s' wp.curline
      → Started pq laws spp s' s'' io wp next others
      → wp.ch ≡ 0
      → wp.lun ≡ 0
      → wp.pg ≡ 0
      → Turned pq laws spp s s'' io next others
  turn s s' s'' io wp next others stands same gone st ch lun pg =
      let filed : Retired pq laws spp s s'' wp.curline = record {
        full = λ z. (st.full ∙ (gone.full z).0, st.victims ∙ (gone.full z).1);
        victim = λ ne. (
          st.full ∙ (gone.victim ne).0,
          λ j. ap (λ q. laws.entries q j) st.victims ∙ (gone.victim ne).1 j,
        );
      } in
      record {
        retired = subst (λ i. Retired pq laws spp s s'' i) stands filed;
        curline = st.curline;
        blk = st.blk;
        place = (st.place.0 ∙ ch, st.place.1 ∙ lun, st.place.2 ∙ pg);
        free = st.free;
        other_types = λ j ne. st.other_types j ne ∙ ap (λ f. f j) same;
      }

  next_line-Kept :
      (s : Shard Q) (io : ℕ) (wp : WritePointer) (cleaned : List ℕ)
      → (h : Ready pq laws spp s io wp.curline wp.blk wp.pl cleaned) → wp.ch ≡ 0
      → wp.lun ≡ 0
      → wp.pg ≡ 0
      → Returns (Advanced s io cleaned h.next h.others true) (next_line pq spp s io wp)
  unfolding next_line
  next_line-Kept s io wp cleaned h ch lun pg =
      let o : ℕ → ℕ = λ j. held s.writers.wps j + count j cleaned - one_at wp.curline j in
      let out : (j : ℕ) → one_at wp.curline j + o j ≡ held s.writers.wps j + count j cleaned = λ j.
        omega (arith, held-one s.writers.wps io j h.known_type, ap (λ c. one_at c j) h.stands) in
      let out' : (j : ℕ)
          → o j + one_at (s.writers.wps io).curline j ≡ held s.writers.wps j + count j cleaned =
        λ j. omega (arith, out j, ap (λ c. one_at c j) h.stands) in
      bind_Returns
        (retire_line-IsKept pq laws spp s wp.curline _ o h.kept out h.untouched h.touched)
        (λ s' k.
          map_Returns
            (start_line-Kept pq laws spp s' io wp cleaned o h.next h.others h.known_type h.blk_in
              h.plane (k.2 ∙ h.free) h.next_in k.0 (rw k.1 out'))
            (λ s'' t.
              (t.0, turned (turn s s' s'' io wp h.next h.others h.stands k.1 k.3 t.1 ch lun pg))))

  go_on :
      (s : Shard Q) (io : ℕ) (wp : WritePointer) (cleaned : List ℕ) (next : ℕ) (others : List ℕ)
      → Ready pq laws spp s io wp.curline wp.blk wp.pl cleaned
      → wp.blk ≡ (s.writers.wps io).blk
      → (wp.ch ≡ (s.writers.wps io).ch + 1)
        ⊎ ((wp.lun ≡ (s.writers.wps io).lun + 1) ⊎ (wp.pg ≡ (s.writers.wps io).pg + 1))
      → Returns (Advanced s io cleaned next others false) (ok (set_wp pq spp s io wp))
  go_on s io wp cleaned next others h same went =
      let (kept, gone) = stay pq laws spp s io wp cleaned h same went in
      (_, refl, (kept, moved gone))

  next_wordline-Kept :
      (s : Shard Q) (io : ℕ) (wp : WritePointer) (cleaned : List ℕ)
      → (h : Ready pq laws spp s io wp.curline wp.blk wp.pl cleaned)
      → wp.blk ≡ (s.writers.wps io).blk
      → wp.ch ≡ 0
      → wp.lun ≡ 0
      → wp.pg + spp.pgs_per_oneshotpg ≡ (s.writers.wps io).pg + 1
      → Returns
          (Advanced s io cleaned h.next h.others (wp.pg + spp.pgs_per_oneshotpg == spp.pgs_per_blk))
          (next_wordline pq spp s io wp)
  unfolding next_wordline
  next_wordline-Kept s io wp cleaned h same ch lun pg =
      if_Returns (wp.pg + spp.pgs_per_oneshotpg == spp.pgs_per_blk)
        (λ end. rw end (next_line-Kept s io (record wp { pg = 0 }) cleaned h ch lun refl))
        (λ more. rw more (
          go_on s io (record wp { pg = wp.pg + spp.pgs_per_oneshotpg }) cleaned h.next h.others h
            same (inr (inr pg))))

  next_lun-Kept :
      (s : Shard Q) (io : ℕ) (wp : WritePointer) (cleaned : List ℕ)
      → (h : Ready pq laws spp s io wp.curline wp.blk wp.pl cleaned)
      → wp.blk ≡ (s.writers.wps io).blk
      → wp.ch ≡ 0
      → wp.lun ≡ (s.writers.wps io).lun
      → wp.pg + spp.pgs_per_oneshotpg ≡ (s.writers.wps io).pg + 1
      → wp.lun < spp.luns_per_ch
      → Returns
          (Advanced s io cleaned h.next h.others
            (wp.lun + 1 == spp.luns_per_ch && wp.pg + spp.pgs_per_oneshotpg == spp.pgs_per_blk))
          (next_lun pq spp s io wp)
  unfolding next_lun
  next_lun-Kept s io wp cleaned h same ch lun pg lun_in =
      then_Returns (ltb wp.lun spp.luns_per_ch) (ground arith) (
        if_Returns (wp.lun + 1 == spp.luns_per_ch)
          (λ end.
            rw end (next_wordline-Kept s io (record wp { lun = 0 }) cleaned h same ch refl pg))
          (λ more. rw more (
            go_on s io (record wp { lun = wp.lun + 1 }) cleaned h.next h.others h same
              (inr (inl (ap (λ t. t + 1) lun))))))

  next_ch-Kept :
      (s : Shard Q) (io : ℕ) (wp : WritePointer) (cleaned : List ℕ)
      → (h : Ready pq laws spp s io wp.curline wp.blk wp.pl cleaned)
      → wp.blk ≡ (s.writers.wps io).blk
      → wp.ch ≡ (s.writers.wps io).ch
      → wp.lun ≡ (s.writers.wps io).lun
      → wp.pg + spp.pgs_per_oneshotpg ≡ (s.writers.wps io).pg + 1
      → wp.lun < spp.luns_per_ch
      → wp.ch < spp.nchs
      → Returns
          (Advanced s io cleaned h.next h.others (
            wp.ch + 1 == spp.nchs
            && (wp.lun + 1 == spp.luns_per_ch && wp.pg + spp.pgs_per_oneshotpg == spp.pgs_per_blk)))
          (next_ch pq spp s io wp)
  unfolding next_ch
  next_ch-Kept s io wp cleaned h same ch lun pg lun_in ch_in =
      then_Returns (ltb wp.ch spp.nchs) (ground arith) (
        if_Returns (wp.ch + 1 == spp.nchs)
          (λ end.
            rw end (next_lun-Kept s io (record wp { ch = 0 }) cleaned h same refl lun pg lun_in))
          (λ more. rw more (
            go_on s io (record wp { ch = wp.ch + 1 }) cleaned h.next h.others h same
              (inl (ap (λ t. t + 1) ch)))))

  -- Where the lines are kept and the pointer of the I/O type stands in its ranges, with a free line at hand,
  -- advance_write_pointer returns, and the lines are kept. At the last page of its line the pointer goes to
  -- the begin of the first free line, which is no longer free, and the line that is used up is one more full
  -- line if none of its grains is invalid, and else one more entry of the queue. At another page all lines
  -- and the queue are as they were, and one coordinate of the pointer goes up by one. The pointers of the
  -- other types stay.
  pub advance_write_pointer-Kept :
      (s : Shard Q) (io : ℕ) (cleaned : List ℕ)
      → (let wp = s.writers.wps io in
          (h : Ready pq laws spp s io wp.curline wp.blk wp.pl cleaned)
          → wp.lun < spp.luns_per_ch
          → wp.ch < spp.nchs
          → wp.pg < spp.pgs_per_blk
          → Returns
              (λ s'.
                Kept pq laws spp cleaned s' × After pq laws spp s s' io h.next h.others (at_end wp))
              (advance_write_pointer pq spp s io))
  unfolding advance_write_pointer
  advance_write_pointer-Kept s io cleaned h lun ch pg =
      let wp = s.writers.wps io in
      let known = h.known_type in
      then_Returns (leb io gc_map_io) (ground arith) (
        then_Returns (ltb wp.pg spp.pgs_per_blk) (ground arith) (
          if_Returns ((wp.pg + 1) % spp.pgs_per_oneshotpg == 0)
            (λ end. rw end (
              next_ch-Kept s io (record wp { pg = wp.pg + 1 - spp.pgs_per_oneshotpg }) cleaned h
                refl refl refl (whole_wordline wp.pg spp.pgs_per_oneshotpg (ground arith)) lun ch))
            (λ more. rw more (
              go_on s io (record wp { pg = wp.pg + 1 }) cleaned h.next h.others h refl
                (inr (inr refl))))))
