-- ===== src/Ftl/Grains/Turns.antt =====
-- What a write pointer does at the end of a line, and where it goes on within one (the parts of
-- advance_write_pointer of nvmevirt/demand_ftl.c).
use virtkv.Ftl.Grains.Relist.{
  IsKept-outside, add_victim-IsKept, full-IsKept, next_of-IsKept, map_line-IsKept, set_wp-Kept,
}
use virtkv.Ftl.Grains.Places.{IsKept, Kept, held, held-update}
use virtkv.Ftl.Grains.Pqueue.{PqueueLaws, one_at, count}
use virtkv.Ftl.Grains.{
  PqueueOps, Shard, is_map_io, grains_per_line, set_wp, add_victim, retire_line, start_line,
}
use virtkv.Ftl.Lines.{WritePointer}
use virtkv.Ssd.Params.{SsdParams}
use virtkv.Common.{
  ℕ, List, ◌∷◌, ◌+◌, ◌==◌, ◌≡◌, ◌≤◌, ◌≢◌, ltb, update, arith, refl, Returns, then_Returns,
  if_Returns, bind_Returns, ◌<◌, ◌∙◌, ap, true, false, Bool, ◌⊎◌, ◌++◌, [],
}

module _ {Q : Type 0} (pq : PqueueOps Q) (laws : PqueueLaws pq) (spp : SsdParams) where
  -- What a step on the write pointer may count on, where the pointer stands on the line `i`, in the
  -- block `blk` of the plane `pl`: there is a free line, and the line `i` has what its retirement asserts.
  pub record Ready (s : Shard Q) (io i blk pl : ℕ) (cleaned : List ℕ) : Type 0 where
    pub known_type : io ≤ 3
    pub stands : i ≡ (s.writers.wps io).curline
    pub kept : Kept pq laws spp cleaned s
    pub blk_in : blk < spp.blks_per_pl
    pub plane : pl ≡ 0
    pub next : ℕ
    pub others : List ℕ
    pub free : s.writers.lm.free_line_list ≡ next ∷ others
    pub next_in : next < spp.blks_per_pl
    pub untouched : (s.writers.lm.lines i).igc ≡ 0 → (s.writers.lm.lines i).ipc ≡ 0
    pub touched : (s.writers.lm.lines i).igc ≢ 0 → (s.writers.lm.lines i).vgc < grains_per_line spp

  -- Where a line `i` that is used up has gone: it is a full line, or an entry of the queue if some of its
  -- grains are invalid.
  pub record Retired (s s' : Shard Q) (i : ℕ) : Type 0 where
    pub full :
        (s.writers.lm.lines i).igc ≡ 0
        → (s'.writers.lm.full_line_list ≡ s.writers.lm.full_line_list ++ (i ∷ []))
          × (s'.victims ≡ s.victims)
    pub victim :
        (s.writers.lm.lines i).igc ≢ 0
        → (s'.writers.lm.full_line_list ≡ s.writers.lm.full_line_list)
          × ((j : ℕ) → laws.entries s'.victims j ≡ one_at i j + laws.entries s.victims j)

  -- The pointer of the type `io` stands at the place of `wp` in the line `next`, and the line is no longer
  -- free; else `s` is unchanged in what is listed here.
  pub record Started (s s' : Shard Q) (io : ℕ) (wp : WritePointer) (next : ℕ) (others : List ℕ)
      : Type 0 where
    pub curline : (s'.writers.wps io).curline ≡ next
    pub blk : (s'.writers.wps io).blk ≡ next
    pub place :
        ((s'.writers.wps io).ch ≡ wp.ch)
        × ((s'.writers.wps io).lun ≡ wp.lun)
        × ((s'.writers.wps io).pg ≡ wp.pg)
    pub free : s'.writers.lm.free_line_list ≡ others
    pub full : s'.writers.lm.full_line_list ≡ s.writers.lm.full_line_list
    pub victims : s'.victims ≡ s.victims
    pub other_types : (k : ℕ) → k ≢ io → s'.writers.wps k ≡ s.writers.wps k

  -- The pointer has gone on within its line: one of its coordinates has gone up by one.
  pub record Moved (s s' : Shard Q) (io : ℕ) : Type 0 where
    pub lm : s'.writers.lm ≡ s.writers.lm
    pub victims : s'.victims ≡ s.victims
    pub curline : (s'.writers.wps io).curline ≡ (s.writers.wps io).curline
    pub blk : (s'.writers.wps io).blk ≡ (s.writers.wps io).blk
    pub place :
        ((s'.writers.wps io).ch ≡ (s.writers.wps io).ch + 1)
        ⊎ (((s'.writers.wps io).lun ≡ (s.writers.wps io).lun + 1)
            ⊎ ((s'.writers.wps io).pg ≡ (s.writers.wps io).pg + 1))
    pub other_types : (k : ℕ) → k ≢ io → s'.writers.wps k ≡ s.writers.wps k

  -- The pointer has left its line for the first free one, at whose begin it stands.
  pub record Turned (s s' : Shard Q) (io : ℕ) (next : ℕ) (others : List ℕ) : Type 0 where
    pub retired : Retired s s' (s.writers.wps io).curline
    pub curline : (s'.writers.wps io).curline ≡ next
    pub blk : (s'.writers.wps io).blk ≡ next
    pub place :
        ((s'.writers.wps io).ch ≡ 0) × ((s'.writers.wps io).lun ≡ 0) × ((s'.writers.wps io).pg ≡ 0)
    pub free : s'.writers.lm.free_line_list ≡ others
    pub other_types : (k : ℕ) → k ≢ io → s'.writers.wps k ≡ s.writers.wps k

  -- What a step does, by whether it is at the end of the line.
  pub data After (s s' : Shard Q) (io next : ℕ) (others : List ℕ) : Bool → Type 0 where
    turned : Turned s s' io next others → After s s' io next others true
    moved : Moved s s' io → After s s' io next others false

  update_at : (f : ℕ → WritePointer) (i : ℕ) (v : WritePointer) → update f i v i ≡ v
  update_at f i v = let t : (i == i) ≡ true = ground arith in rw t refl

  update_off :
      (f : ℕ → WritePointer) (i : ℕ) (v : WritePointer) (k : ℕ) → k ≢ i → update f i v k ≡ f k
  update_off f i v k ne = let t : (k == i) ≡ false = ground arith in rw t refl

  pub start_line-Kept :
      (s : Shard Q) (io : ℕ) (wp : WritePointer) (cleaned : List ℕ) (o : ℕ → ℕ) (next : ℕ)
      (others : List ℕ)
      → io ≤ 3
      → wp.blk < spp.blks_per_pl
      → wp.pl ≡ 0
      → s.writers.lm.free_line_list ≡ next ∷ others
      → next < spp.blks_per_pl
      → IsKept pq laws spp s.writers.lm s.victims o (λ j. 0)
      → ((j : ℕ)
          → o j + one_at (s.writers.wps io).curline j ≡ held s.writers.wps j + count j cleaned)
      → Returns
          (λ s'. Kept pq laws spp cleaned s' × Started s s' io wp next others)
          (start_line pq spp s io wp)
  unfolding start_line
  start_line-Kept s io wp cleaned o next others le blk_in plane free next_in h out =
      then_Returns (ltb wp.blk spp.blks_per_pl) (ground arith) (
        bind_Returns (next_of-IsKept pq laws spp s.writers.lm next others h free) (λ r k.
          let mapped = record r.1 {
            lines = update r.1.lines r.0 (record (r.1.lines r.0) { map_line = is_map_io io });
          } in
          let kept = map_line-IsKept pq laws spp r.1 r.0 (is_map_io io) k.0 in
          let blk' = (mapped.lines r.0).id in
          let fits : blk' < spp.blks_per_pl = omega (arith, kept.named r.0, k.1, next_in) in
          let wp' : WritePointer = record wp { curline = r.0; blk = blk' } in
          let here = update_at s.writers.wps io wp' in
          then_Returns (ltb blk' spp.blks_per_pl) (ground arith) (
            then_Returns (wp.pl == 0) (ground arith) (
              _,
              refl,
              (
                set_wp-Kept pq laws spp s mapped io wp' cleaned o le kept out,
                record {
                  curline = ap (λ w. w.curline) here ∙ k.1;
                  blk = ap (λ w. w.blk) here ∙ (kept.named r.0 ∙ k.1);
                  place = (ap (λ w. w.ch) here, ap (λ w. w.lun) here, ap (λ w. w.pg) here);
                  free = k.2;
                  full = k.3;
                  victims = refl;
                  other_types = update_off s.writers.wps io wp';
                },
              ),
            ))))

  pub stay :
      (s : Shard Q) (io : ℕ) (wp : WritePointer) (cleaned : List ℕ)
      → Ready s io wp.curline wp.blk wp.pl cleaned
      → wp.blk ≡ (s.writers.wps io).blk
      → (wp.ch ≡ (s.writers.wps io).ch + 1)
        ⊎ ((wp.lun ≡ (s.writers.wps io).lun + 1) ⊎ (wp.pg ≡ (s.writers.wps io).pg + 1))
      → Kept pq laws spp cleaned (set_wp pq spp s io wp) × Moved s (set_wp pq spp s io wp) io
  stay s io wp cleaned h same went =
      let here = update_at s.writers.wps io wp in
      (
        IsKept-outside pq laws spp h.kept (λ j.
            omega (
              arith,
              held-update s.writers.wps io j wp h.known_type,
              ap (λ c. one_at c j) h.stands,
            )),
        record {
          lm = refl;
          victims = refl;
          curline = ap (λ w. w.curline) here ∙ h.stands;
          blk = ap (λ w. w.blk) here ∙ same;
          place = rw here went;
          other_types = update_off s.writers.wps io wp;
        },
      )

  pub retire_line-IsKept :
      (s : Shard Q) (i : ℕ) (o o' : ℕ → ℕ)
      → IsKept pq laws spp s.writers.lm s.victims o (λ j. 0)
      → ((j : ℕ) → one_at i j + o' j ≡ o j)
      → ((s.writers.lm.lines i).igc ≡ 0 → (s.writers.lm.lines i).ipc ≡ 0)
      → ((s.writers.lm.lines i).igc ≢ 0 → (s.writers.lm.lines i).vgc < grains_per_line spp)
      → Returns
          (λ s'.
            IsKept pq laws spp s'.writers.lm s'.victims o' (λ j. 0)
            × (s'.writers.wps ≡ s.writers.wps)
            × (s'.writers.lm.free_line_list ≡ s.writers.lm.free_line_list)
            × Retired s s' i)
          (retire_line pq spp s i)
  unfolding retire_line add_victim
  retire_line-IsKept s i o o' h out untouched touched =
      let line = s.writers.lm.lines i in
      if_Returns (line.igc == 0)
        (λ empty.
          let z = untouched (ground arith) in
          then_Returns (line.ipc == 0) (ground arith) (
            _,
            refl,
            (
              full-IsKept pq laws spp s.writers.lm s.victims i _ h out,
              refl,
              refl,
              record { full = λ z'. (refl, refl); victim = λ ne. absurd (ground arith) },
            ),
          ))
        (λ some.
          let less = touched (ground arith) in
          then_Returns (ltb line.vgc (grains_per_line spp)) (ground arith) (
            _,
            refl,
            (
              add_victim-IsKept pq laws spp s i h out (λ j. omega arith),
              refl,
              refl,
              record {
                full = λ z. absurd (ground arith);
                victim = λ ne. (refl, laws.inserted s.victims s.writers.lm.lines i);
              },
            ),
          ))
