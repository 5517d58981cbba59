-- ===== src/Ftl/Grains/Tests.antt =====
-- The theorems on lines and grains (nvmevirt/demand_ftl.c) on the disk of 64 MiB that `Ssd.Tests` lays out,
-- with a queue that is a list.
use virtkv.Ftl.Grains.Places.{Kept}
use virtkv.Ftl.Grains.Pqueue.{PqueueLaws, one_at, count}
use virtkv.Ftl.Grains.Turns.{After}
use virtkv.Ftl.Grains.Moves.{advance_write_pointer-Kept}
use virtkv.Ftl.Grains.Kept.{IsTakable, mark_grain_invalid-Kept}
use virtkv.Ftl.Grains.Taken.{Taken}
use virtkv.Ftl.Grains.Rounds.{mark_grain_invalid-twice, mark_grain_invalid-Safe}
use virtkv.Ftl.Grains.Clean.{Selected, select_victim_line-Selected}
use virtkv.Ftl.Grains.Victim.{select_victim_line}
use virtkv.Ftl.Grains.Marks.{mark_grain_invalid, grain2lineid, settle, take_grains, leave_full}
use virtkv.Ftl.Grains.{
  PqueueOps, Shard, pg_valid, set_wp, advance_write_pointer, get_new_page, grains_per_line,
  grains_per_blk,
}
use virtkv.Ftl.Lines.{Line, WritePointer, start_of_line}
use virtkv.Ftl.Address.{ppa_to_struct, peek_next_page, ppa2pgidx}
use virtkv.Ssd.Ppa.{Ppa}
use virtkv.Ftl.Grains.Advance.{address, advance_write_pointer-peek}
use virtkv.Ssd.Params.Bounds.{ssd_init_params-IsAddressable}
use virtkv.Ssd.Params.Capacity.{ssd_init_params-capacity}
use virtkv.Ssd.Tests.{disk_params, laid_out}
use virtkv.Ssd.Params.{fill_params}
use virtkv.Common.{
  ℕ, List, Option, [], ◌∷◌, ◌+◌, ◌-◌, ◌*◌, ◌==◌, ◌≡◌, ◌≤◌, ◌<◌, ◌≢◌, none, some, ok, refl, arith,
  leb, update, if◌then◌else◌, true, false, zero, suc, ◌&&◌, Returns, Safe, ◌^◌, ℕ_discrete, ap, sym,
  ◌∙◌,
}

abbrev head_of : List ℕ → Option ℕ
head_of [] = none
head_of (x ∷ xs) = some x

abbrev rest_of : List ℕ → List ℕ
rest_of [] = []
rest_of (x ∷ xs) = xs

abbrev list_queue : PqueueOps (List ℕ)
list_queue = record {
  insert = λ q l i. (i ∷ q, update l i (record (l i) { pos = 1 }));
  peek = head_of;
  pop = λ q l. (rest_of q, l);
  change_priority = λ q l p i. (q, update l i (record (l i) { vgc = p }));
}

popped_list :
    (q : List ℕ) (i j : ℕ) → head_of q ≡ some i → count j q ≡ one_at i j + count j (rest_of q)
popped_list [] i j h = absurd cc
popped_list (x ∷ xs) i j h = let e : x ≡ i = cc in ap (λ y. one_at y j + count j xs) e

emptied_list : (q : List ℕ) (j : ℕ) → head_of q ≡ none → count j q ≡ 0
emptied_list [] j h = refl
emptied_list (x ∷ xs) j h = absurd cc

field :
    (l : ℕ → Line) (i : ℕ) (v : Line) (f : Line → ℕ)
    → f v ≡ f (l i)
    → (j : ℕ) → f (update l i v j) ≡ f (l j)
field l i v f e j = elim (ℕ_discrete j i) [
  | yes at ↦ let t : (j == i) ≡ true = ground arith in rw t (e ∙ ap (λ k. f (l k)) (sym at))
  | no ne ↦ let t : (j == i) ≡ false = ground arith in rw t refl
]

other_pos : (l : ℕ → Line) (i j : ℕ) (v : Line) → (l j).pos ≡ 0 → i ≢ j → (update l i v j).pos ≡ 0
other_pos l i j v z ne = let t : (j == i) ≡ false = ground arith in rw t z

changed_vgc :
    (l : ℕ → Line) (p i j : ℕ)
    → (update l i (record (l i) { vgc = p }) j).vgc ≡ (if i == j then p else (l j).vgc)
changed_vgc l p i j = elim (ℕ_discrete i j) [
  | yes e ↦
      let t : (j == i) ≡ true = ground arith in
      let u : (i == j) ≡ true = ground arith in rw (t, u) refl
  | no ne ↦
      let t : (j == i) ≡ false = ground arith in
      let u : (i == j) ≡ false = ground arith in rw (t, u) refl
]

abbrev list_laws : PqueueLaws list_queue
list_laws = record {
  entries = λ q j. count j q;
  inserted = λ q l i j. refl;
  popped = λ q l i j h. popped_list q i j h;
  emptied = emptied_list;
  changed = λ q l p i j h. refl;
  insert_vgc = λ q l i j. field l i (record (l i) { pos = 1 }) (λ x. x.vgc) refl j;
  pop_vgc = λ q l j. refl;
  change_vgc = λ q l p i j. changed_vgc l p i j;
  insert_pos = λ q l i j z ne. other_pos l i j _ z ne;
  pop_pos = λ q l j z. z;
  change_pos = λ q l p i j z. field l i (record (l i) { vgc = p }) (λ x. x.pos) refl j ∙ z;
  insert_id = λ q l i j. field l i (record (l i) { pos = 1 }) (λ x. x.id) refl j;
  pop_id = λ q l j. refl;
  change_id = λ q l p i j. field l i (record (l i) { vgc = p }) (λ x. x.id) refl j;
}

-- Page 0 of the block 4, and the page after it.
abbrev page : Ppa
page = record { ch = 0; lun = 0; pl = 0; blk = 4; pg = 0; rsv = 0 }

abbrev page_after : Ppa
page_after = record { ch = 0; lun = 0; pl = 0; blk = 4; pg = 1; rsv = 0 }

abbrev index : ℕ
index = 4 * disk_params.pgs_per_blk

-- The pointer of user data is on the last page of its line.
abbrev wps : ℕ → WritePointer
wps zero = record {
  curline = 0;
  ch = disk_params.nchs - 1;
  lun = disk_params.luns_per_ch - 1;
  pg = disk_params.pgs_per_blk - 1;
  blk = 0;
  pl = 0;
}
wps (suc io) = start_of_line (suc io)

-- All grains of the line 4 are valid; the lines 5 and 6 are victims. The grains of the page 0 are unmarked.
abbrev shard : List ℕ → Shard (List ℕ)
shard free = record {
  writers = record {
    lm = record {
      lines = λ j. record {
        id = j;
        ipc = 0;
        vpc = 0;
        vgc = if j == 4 then grains_per_line disk_params else 0;
        igc = if j == 4 then 0 else 5;
        pos = if leb 5 j && leb j 6 then 1 else 0;
        map_line = false;
      };
      free_line_list = free;
      full_line_list = 4 ∷ [];
      tt_lines = 8;
      free_line_cnt = 1;
      victim_line_cnt = 2;
      full_line_cnt = 1;
    };
    wps = wps;
  };
  victims = 5 ∷ 6 ∷ [];
  pages = λ p. pg_valid;
  blks = λ p. record {
    npgs = disk_params.pgs_per_blk;
    ipc = 0;
    vpc = 0;
    igc = 0;
    vgc = grains_per_blk disk_params;
    erase_cnt = 0;
  };
  grain_bitmap = λ g. leb 8 g;
}

shard-IsKept :
    (free cleaned : List ℕ)
    → ((j : ℕ) → count j free + count j cleaned ≡ one_at 7 j)
    → Kept list_queue list_laws disk_params cleaned (shard free)
unfolding fill_params
shard-IsKept free cleaned h = record {
  placed = λ j. (let e = h j in ground arith);
  queued = λ j pos. ground arith;
  bounded = λ j. ground arith;
  listed = λ j full. ground arith;
  named = λ j. refl;
}

disk-Kept : Kept list_queue list_laws disk_params [] (shard (7 ∷ []))
disk-Kept = shard-IsKept (7 ∷ []) [] (λ j. omega arith)

-- The disk with all write pointers at the last pages of their lines.
abbrev at_last : Shard (List ℕ)
at_last =
    let s = shard (7 ∷ []) in
    record s {
      writers = record s.writers {
        wps = λ k. record (s.writers.wps k) {
          ch = disk_params.nchs - 1;
          lun = disk_params.luns_per_ch - 1;
          pg = disk_params.pgs_per_blk - 1;
        };
      };
    }

advance_example :
    Returns
      (λ s'.
        Kept list_queue list_laws disk_params [] s'
        × After list_queue list_laws disk_params at_last s' 0 7 [] true)
      (advance_write_pointer list_queue disk_params at_last 0)
unfolding fill_params
advance_example =
    advance_write_pointer-Kept list_queue list_laws disk_params at_last 0 []
      (record {
        known_type = omega arith;
        stands = refl;
        kept = disk-Kept;
        blk_in = omega arith;
        plane = refl;
        next = 7;
        others = [];
        free = refl;
        next_in = omega arith;
        untouched = λ z. refl;
        touched = λ z. omega arith;
      })
      (omega arith) (omega arith) (omega arith)

-- The store is in the line 5, which is at the head of the queue.
select_example : Returns (Selected list_queue list_laws disk_params (shard (7 ∷ [])) 5 []) (
    select_victim_line list_queue disk_params (shard (7 ∷ [])) (5 * disk_params.pgs_per_blk * 4096))
unfolding fill_params grain2lineid ppa_to_struct
select_example =
    select_victim_line-Selected list_queue list_laws disk_params (shard (7 ∷ []))
      (5 * disk_params.pgs_per_blk * 4096) 5 [] disk-Kept refl

takable :
    (len : ℕ)
    → 0 < len
    → len ≤ 8
    → IsTakable list_queue list_laws disk_params (shard (7 ∷ [])) page (index * 8 + 6) len
unfolding fill_params
takable len more small = record {
  some_grains = more;
  page = refl;
  blk_igc = omega arith;
  blk_vgc = (omega arith, omega arith);
  line_igc = omega arith;
  line_full = λ full. refl;
  line_vgc = omega (arith, small);
  marked = refl;
}

invalid_example :
    Returns
      (λ s'.
        Kept list_queue list_laws disk_params [] s'
        × Taken list_queue list_laws disk_params (shard (7 ∷ [])) page 2 s')
      (mark_grain_invalid list_queue disk_params (shard (7 ∷ [])) (index * 8 + 6) 2)
unfolding fill_params ppa_to_struct
invalid_example =
    mark_grain_invalid-Kept list_queue list_laws disk_params (shard (7 ∷ [])) (index * 8 + 6) 2 page
      [] disk-Kept refl (omega arith) (takable 2 (omega arith) (omega arith))

-- Five grains from the last two of the page 0 on.
twice_example :
    Returns
      (λ s'. count 4 s'.victims ≡ 2)
      (mark_grain_invalid list_queue disk_params (shard (7 ∷ [])) (index * 8 + 6) 5)
unfolding fill_params ppa_to_struct peek_next_page ppa2pgidx settle take_grains leave_full
twice_example =
    mark_grain_invalid-twice list_queue list_laws disk_params (shard (7 ∷ [])) page page_after
      (index + 1) (index * 8 + 6) 2 2 [] disk-Kept refl (omega arith) (omega arith) (omega arith)
      (takable 2 (omega arith) (omega arith))
      (record {
        follows = refl;
        same_line = refl;
        index = refl;
        takable = record {
          some_grains = omega arith;
          page = refl;
          blk_igc = omega arith;
          blk_vgc = (omega arith, omega arith);
          line_igc = omega arith;
          line_full = λ full. absurd (omega (arith, full));
          line_vgc = omega arith;
          marked = refl;
        };
      })

rounds_example :
    Safe
      (λ t. Unit {0})
      (mark_grain_invalid list_queue disk_params (shard (7 ∷ [])) (index * 8) 200)
rounds_example = mark_grain_invalid-Safe list_queue disk_params (shard (7 ∷ [])) (index * 8) 200

-- The pointer of GC is on the first page of the line 1.
walk_example :
    (get_new_page list_queue disk_params (shard (7 ∷ [])) 1 ≡ ok (address (start_of_line 1)))
    × ((wp : WritePointer) × ((advance_write_pointer list_queue disk_params (shard (7 ∷ [])) 1
            ≡ ok (set_wp list_queue disk_params (shard (7 ∷ [])) 1 wp))
          × (peek_next_page disk_params (address (start_of_line 1)) ≡ ok (address wp))
          × (wp.curline ≡ 1)))
unfolding fill_params
walk_example =
    advance_write_pointer-peek list_queue disk_params
      (ssd_init_params-capacity (2 ^ 26) 1 disk_params (omega arith) laid_out).0
      (ssd_init_params-IsAddressable (2 ^ 26) 1 disk_params (omega arith) laid_out) (shard (7 ∷ []))
      1 (omega arith)
      (record {
        ch_in = omega arith;
        lun_in = omega arith;
        pl_in = omega arith;
        blk_in = omega arith;
        pg_in = omega arith;
        rsv_free = refl;
      })
      refl (omega arith)
