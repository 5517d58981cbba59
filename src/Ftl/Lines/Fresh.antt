-- ===== src/Ftl/Lines/Fresh.antt =====
-- The write pointers of a new disk (nvmevirt/demand_ftl.c) get lines of their own.
use mathlib.Core.List.{append-nil}
use virtkv.Ssd.Params.{SsdParams}
use virtkv.Ftl.Lines.{
  LineMgmt, add_lines, init_lines, prepare_write_pointer, SsdParams, get_next_free_line, Line,
  next_of, Writers, fresh_line, start_of_line, gc_map_io, map_io,
}
use virtkv.Common.{
  ℕ, List, [], ◌≡◌, ◌++◌, ◌+◌, suc, ◌<◌, ◌-◌, ◌∷◌, ◌≤◌, ap, ◌^◌, zero, ok, refl, ◌≢◌, sym, u32,
  arith, ◌∙◌, ◌==◌, update, true, leb, ℕ_discrete, bug, ◌||◌, false, Bool-cases, inl, inr,
}

-- The numbers from `i` on, `n` of them.
unfoldable pub range : ℕ → ℕ → List ℕ
range i zero = []
range i (suc n) = i ∷ range (i + 1) n

-- The first `k` lines are handed out; the others are free and new.
pub record Fresh (tt k : ℕ) (lm : LineMgmt) : Type 0 where
  pub all : lm.tt_lines ≡ tt
  pub free : lm.free_line_list ≡ range k (tt - k)
  pub count : lm.free_line_cnt ≡ tt - k
  pub new : (i : ℕ) → k ≤ i → i < tt → lm.lines i ≡ fresh_line i

snoc-range : (i n : ℕ) (l : List ℕ) → (l ++ (i ∷ [])) ++ range (i + 1) n ≡ l ++ range i (suc n)
unfolding range
snoc-range i n [] = refl
snoc-range i n (x ∷ l) = ap (λ (t : List ℕ). x ∷ t) (snoc-range i n l)

add_lines_lem :
    (n i : ℕ) (lm : LineMgmt)
    → lm.free_line_cnt + n < 2 ^ 32
    → let lm' = add_lines n i lm in
      (lm'.free_line_list ≡ lm.free_line_list ++ range i n)
      × (lm'.free_line_cnt ≡ lm.free_line_cnt + n)
      × (lm'.tt_lines ≡ lm.tt_lines)
      × ((j : ℕ) → i ≤ j → j < i + n → lm'.lines j ≡ fresh_line j)
      × ((j : ℕ) → j < i → lm'.lines j ≡ lm.lines j)
unfolding add_lines range
add_lines_lem zero i lm h =
    (sym (append-nil _), omega arith, refl, λ j le lt. absurd (omega arith), λ j lt. refl)
add_lines_lem (suc n) i lm h =
    let added : LineMgmt = record lm {
      lines = update lm.lines i (fresh_line i);
      free_line_list = lm.free_line_list ++ (i ∷ []);
      free_line_cnt = u32 (lm.free_line_cnt + 1);
    } in
    let (l, c, t, new, old) = add_lines_lem n (i + 1) added (omega arith) in
    (
      l ∙ snoc-range i n lm.free_line_list,
      omega (arith, c),
      t,
      λ j le lt. elim (ℕ_discrete j i) [
        | yes here ↦ old j (omega arith) ∙ ground arith
        | no later ↦ new j (omega arith) (omega arith)
      ],
      λ j lt. old j (omega arith) ∙ ground arith,
    )

-- `init_lines` succeeds if there are as many lines as blocks in a plane, fewer than 2 ^ 32, and makes
-- all lines free and new.
init_lines-Fresh :
    (spp : SsdParams) (garbage : ℕ → Line)
    → spp.blks_per_pl ≡ spp.tt_lines
    → spp.tt_lines < 2 ^ 32
    → (lm : LineMgmt) × (init_lines spp garbage ≡ ok lm) × Fresh spp.tt_lines 0 lm
unfolding init_lines
init_lines-Fresh spp garbage e h =
    let none_yet : LineMgmt = record {
      lines = garbage;
      free_line_list = [];
      full_line_list = [];
      tt_lines = u32 spp.blks_per_pl;
      free_line_cnt = 0;
      victim_line_cnt = 0;
      full_line_cnt = 0;
    } in
    let tt : u32 spp.blks_per_pl ≡ spp.tt_lines = omega arith in
    let (l, c, t, new, old) = add_lines_lem (u32 spp.blks_per_pl) 0 none_yet (omega arith) in
    let one_each : (u32 spp.blks_per_pl == spp.tt_lines) ≡ true = ground arith in
    let counted : ((add_lines (u32 spp.blks_per_pl) 0 none_yet).free_line_cnt
          == u32 spp.blks_per_pl)
        ≡ true =
      ground (arith, c) in
    (
      add_lines (u32 spp.blks_per_pl) 0 none_yet,
      rw (one_each, counted) refl,
      record {
        all = t ∙ tt;
        free =
            l
            ∙ ap (range 0) (
                let all_left : u32 spp.blks_per_pl ≡ spp.tt_lines - 0 = omega (arith, tt) in
                all_left);
        count = omega (arith, c);
        new = λ i le lt. new i le (omega arith);
      },
    )

-- While lines of fewer than 2 ^ 32 are left, `prepare_write_pointer` for any of the four I/O types puts that write pointer at
-- the start of the next line, so at a line of its own, and moves no other.
pub prepare_write_pointer-Fresh :
    (tt k : ℕ) (s : Writers) (io_type : ℕ)
    → tt < 2 ^ 32
    → k < tt
    → io_type ≤ 3
    → Fresh tt k s.lm
    → (s' : Writers) × (prepare_write_pointer s io_type ≡ ok s')
      × Fresh tt (k + 1) s'.lm
      × (s'.wps io_type ≡ start_of_line k)
      × ((io : ℕ) → io ≢ io_type → s'.wps io ≡ s.wps io)
unfolding prepare_write_pointer get_next_free_line next_of range
prepare_write_pointer-Fresh tt k s io_type h lt io f =
    let one_more : tt - k ≡ suc (tt - (k + 1)) = omega arith in
    let some_left : s.lm.free_line_list ≡ k ∷ range (k + 1) (tt - (k + 1)) =
      f.free ∙ ap (range k) one_more in
    let known : leb io_type gc_map_io ≡ true = ground arith in
    let same : (io_type == io_type) ≡ true = ground arith in
    let is_map = io_type == map_io || io_type == gc_map_io in
    let lm' : LineMgmt = record s.lm {
      lines = update s.lm.lines k (record (s.lm.lines k) { map_line = is_map });
      free_line_list = range (k + 1) (tt - (k + 1));
      free_line_cnt = u32 (s.lm.free_line_cnt + 2 ^ 32 - 1);
    } in
    (
      record { lm = lm'; wps = update s.wps io_type (start_of_line k) },
      simp (known, some_left) refl,
      record {
        all = f.all;
        free = refl;
        count = omega (arith, f.count);
        new = λ i le more.
            let other : (i == k) ≡ false = ground arith in simp other (f.new i (omega arith) more);
      },
      simp same refl,
      λ io ne. let other : (io == io_type) ≡ false = ground arith in simp other refl,
    )

-- When all lines are handed out, `prepare_write_pointer` for any I/O type ends in a bug.
prepare_write_pointer-bug :
    (tt : ℕ) (s : Writers) (io_type : ℕ) → Fresh tt tt s.lm → prepare_write_pointer s io_type ≡ bug
unfolding prepare_write_pointer get_next_free_line next_of range
prepare_write_pointer-bug tt s io_type f =
    let none_more : tt - tt ≡ 0 = omega arith in
    let empty : s.lm.free_line_list ≡ [] = f.free ∙ ap (range tt) none_more in
    elim (Bool-cases (leb io_type gc_map_io)) [
      | inl known ↦ simp (known, empty) refl
      | inr unknown ↦ simp unknown refl
    ]
