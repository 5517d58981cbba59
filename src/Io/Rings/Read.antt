-- ===== src/Io/Rings/Read.antt =====
-- When the host has read completions, the counts of commands in flight go down (nvmev_proc_io_cq of
-- nvmevirt/io.c).
use native.Mathlib.Nat.{mod-eq_of_lt, add-mod_left}
use virtkv.Io.Queue.{no_entry}
use virtkv.Io.Rings.{CompletionQueue, count_read, count_back, less, readable, nvmev_proc_io_cq}
use virtkv.Common.{
  ℕ, Option, ◌≡◌, ◌<◌, ◌≤◌, ◌+◌, ◌-◌, ◌%◌, ◌^◌, ◌==◌, if◌then◌else◌, zero, suc, true, false, ok,
  some, none, refl, ap, ◌∙◌, arith, inl, inr, Bool-cases, leb, dec_lt, ◌/◌, ◌*◌, ◌≢◌, bug,
}

-- A count goes down by one, as often as said.
abbrev pub minus : Option ℕ → ℕ → Option ℕ
minus o zero = o
minus o (suc k) = minus (less o) k

minus-some : (k m : ℕ) → k ≤ m → m < 2 ^ 32 → minus (some m) k ≡ some (m - k)
minus-some zero m h b = let e : m ≡ m - 0 = omega arith in ap some e
minus-some (suc k) m h b =
    let e : (m + no_entry) % 2 ^ 32 ≡ m - 1 = omega arith in
    let e' : m - 1 - k ≡ m - suc k = omega arith in
    ap (λ (t : ℕ). minus (some t) k) e
    ∙ (minus-some k (m - 1) (omega arith) (omega arith) ∙ ap some e')

minus-none : (k : ℕ) → minus none k ≡ none
minus-none zero = refl
minus-none (suc k) = minus-none k

-- How many of `n` completions, from the place `pos` on, round the ring, are of the queue `sqid`.
abbrev pub completions : CompletionQueue → ℕ → ℕ → ℕ → ℕ
completions q sqid zero pos = 0
completions q sqid (suc n) pos =
    (if (q.cq (pos % q.queue_size)).sq_id == sqid then 1 else 0) + completions q sqid n (pos + 1)

completions-around :
    (q : CompletionQueue) (sqid n pos : ℕ)
    → completions q sqid n (q.queue_size + pos) ≡ completions q sqid n pos
completions-around q sqid zero pos = refl
completions-around q sqid (suc n) pos =
    let e : q.queue_size + pos + 1 ≡ q.queue_size + (pos + 1) = omega arith in
    rw (add-mod_left q.queue_size pos, e, completions-around q sqid n (pos + 1)) refl

minus-count_back :
    (in_flight : ℕ → Option ℕ) (sqid j k : ℕ)
    → minus (count_back in_flight sqid j) k ≡ minus (in_flight j) ((if sqid == j then 1 else 0) + k)
minus-count_back in_flight sqid j k = elim (Bool-cases (j == sqid)) [
  | inl here ↦
      let back : (sqid == j) ≡ true = ground arith in
      let e : 1 + k ≡ suc k = omega arith in rw (here, back, e) refl
  | inr there ↦
      let back : (sqid == j) ≡ false = ground arith in
      let e : 0 + k ≡ k = omega arith in rw (there, back, e) refl
]

-- From `i` on, `n` completions are counted.
abbrev Counts : CompletionQueue → ℕ → ℕ → ℕ → (ℕ → Option ℕ) → ℕ → Type 0
Counts q fuel new_db i in_flight n =
    (r : ℕ → Option ℕ) × (count_read fuel q new_db i in_flight ≡ ok r)
    × ((j : ℕ) → r j ≡ minus (in_flight j) (completions q j n i))

readable-inside : (q : CompletionQueue) (i : ℕ) → i < q.queue_size → readable q i ≡ true
readable-inside q i h =
    let lt : i / 256 < (q.queue_size * 16 + 4095) / 4096 = omega arith in ground arith

-- The place behind the ring is still in its last page, unless the ring fills its pages.
readable-end : (q : CompletionQueue) → q.queue_size % 256 ≢ 0 → readable q q.queue_size ≡ true
readable-end q h =
    let lt : q.queue_size / 256 < (q.queue_size * 16 + 4095) / 4096 = omega arith in ground arith

readable-beyond : (q : CompletionQueue) → q.queue_size % 256 ≡ 0 → readable q q.queue_size ≡ false
readable-beyond q h =
    let le : (q.queue_size * 16 + 4095) / 4096 ≤ q.queue_size / 256 = omega arith in ground arith

count_one :
    (q : CompletionQueue) (fuel new_db i : ℕ) (in_flight : ℕ → Option ℕ) (n : ℕ)
    → (i == new_db) ≡ false
    → leb q.queue_size i ≡ false
    → Counts q fuel new_db (i + 1) (count_back in_flight (q.cq i).sq_id) n
    → Counts q (suc fuel) new_db i in_flight (suc n)
unfolding count_read
count_one q fuel new_db i in_flight n on inside (r, e, each) =
    let small : i < q.queue_size = ground arith in
    (
      r,
      rw (on, readable-inside q i small, inside) e,
      λ j. each j ∙ rw (mod-eq_of_lt small) (minus-count_back in_flight (q.cq i).sq_id j _),
    )

count_to_end :
    (q : CompletionQueue) (n fuel new_db i : ℕ) (in_flight : ℕ → Option ℕ)
    → i + n ≡ new_db
    → new_db < q.queue_size
    → n < fuel
    → Counts q fuel new_db i in_flight n
unfolding count_read
count_to_end q n zero new_db i in_flight e small f = absurd (omega arith)
count_to_end q zero (suc fuel) new_db i in_flight e small f =
    let there : (i == new_db) ≡ true = ground arith in (in_flight, rw there refl, λ j. refl)
count_to_end q (suc n) (suc fuel) new_db i in_flight e small f =
    count_one q fuel new_db i in_flight n (ground arith) (ground arith)
      (count_to_end q n fuel new_db (i + 1) _ (omega arith) small (omega arith))

count_around :
    (q : CompletionQueue) (n fuel new_db i : ℕ) (in_flight : ℕ → Option ℕ)
    → q.queue_size % 256 ≢ 0
    → i + n ≡ q.queue_size
    → new_db < i
    → n + 1 + new_db < fuel
    → Counts q fuel new_db i in_flight (n + new_db)
unfolding count_read
count_around q n zero new_db i in_flight part e past f = absurd (omega arith)
count_around q zero (suc fuel) new_db i in_flight part e past f =
    let (r, e', each) =
      count_to_end q new_db fuel new_db 0 in_flight (omega arith) (omega arith) (omega arith) in
    let on : (i == new_db) ≡ false = ground arith in
    let outside : leb q.queue_size i ≡ true = ground arith in
    let last : i ≡ q.queue_size = omega arith in
    let read : readable q i ≡ true = rw last (readable-end q part) in
    let first : i ≡ q.queue_size + 0 = omega arith in
    let whole : 0 + new_db ≡ new_db = omega arith in
    (
      r,
      rw (on, read, outside) e',
      λ j. each j ∙ rw (whole, first, completions-around q j new_db 0) refl,
    )
count_around q (suc n) (suc fuel) new_db i in_flight part e past f =
    let whole : suc n + new_db ≡ suc (n + new_db) = omega arith in
    rw whole (
      count_one q fuel new_db i in_flight (n + new_db) (ground arith) (ground arith)
        (count_around q n fuel new_db (i + 1) _ part (omega arith) (omega arith) (omega arith)))

count_read-Counts :
    (q : CompletionQueue) (new_db old_db : ℕ) (in_flight : ℕ → Option ℕ)
    → new_db < q.queue_size
    → old_db < q.queue_size
    → (new_db < old_db → q.queue_size % 256 ≢ 0)
    → Counts q
        (q.queue_size + 2)
        new_db
        old_db
        in_flight
        ((new_db + q.queue_size - old_db) % q.queue_size)
count_read-Counts q new_db old_db in_flight h k part = elim (dec_lt new_db old_db) [
  | yes past ↦
      let e : new_db + q.queue_size - old_db ≡ q.queue_size - old_db + new_db = omega arith in
      let small : q.queue_size - old_db + new_db < q.queue_size = omega arith in
      rw (e, mod-eq_of_lt small)
        (count_around q (q.queue_size - old_db) (q.queue_size + 2) new_db old_db in_flight
          (part past) (omega arith) past (omega arith))
  | no ahead ↦
      let e : new_db + q.queue_size - old_db ≡ q.queue_size + (new_db - old_db) = omega arith in
      let small : new_db - old_db < q.queue_size = omega arith in
      rw (e, add-mod_left q.queue_size (new_db - old_db), mod-eq_of_lt small)
        (count_to_end q (new_db - old_db) (q.queue_size + 2) new_db old_db in_flight (omega arith) h
          (omega arith))
]

-- What becomes of the count of the queue `j` at `k` of its completions.
abbrev pub Counted : Option ℕ → Option ℕ → ℕ → Type 0
Counted before after k =
    (before ≡ none → after ≡ none)
    × ((m : ℕ) → before ≡ some m → k ≤ m → m < 2 ^ 32 → after ≡ some (m - k))

-- With doorbells on a ring of fewer than 2 ^ 32 slots, which does not fill its pages of 256 slots if the new
-- doorbell is before the old one, `nvmev_proc_io_cq` returns and reads only pages of the ring: the tail
-- stands before the new doorbell, the ring is as it was, and the count of commands in flight of each
-- submission queue that there is, if it is large enough, has gone down by the number of its completions from the
-- old doorbell up to the new one, round the ring.
pub nvmev_proc_io_cq-Counted :
    (q : CompletionQueue) (new_db old_db : ℕ) (in_flight : ℕ → Option ℕ)
    → new_db < q.queue_size
    → old_db < q.queue_size
    → q.queue_size < 2 ^ 32
    → (new_db < old_db → q.queue_size % 256 ≢ 0)
    → let n = (new_db + q.queue_size - old_db) % q.queue_size in
      (q' : CompletionQueue) × (counts : ℕ → Option ℕ) × (nvmev_proc_io_cq q new_db old_db in_flight
        ≡ ok (q', counts))
      × ((q'.cq_tail + 1) % 2 ^ 32 ≡ new_db)
      × (q'.cq ≡ q.cq)
      × ((j : ℕ) → Counted (in_flight j) (counts j) (completions q j n old_db))
unfolding nvmev_proc_io_cq
nvmev_proc_io_cq-Counted q new_db old_db in_flight h k size part =
    let (r, e, each) = count_read-Counts q new_db old_db in_flight h k part in
    let proper : (new_db == no_entry) ≡ false = ground arith in
    (
      record q { cq_tail = (new_db + no_entry) % 2 ^ 32 },
      r,
      rw (e, proper) refl,
      omega arith,
      refl,
      λ j. (
        λ gone.
            each j
            ∙ rw gone (
                minus-none
                  (completions q j ((new_db + q.queue_size - old_db) % q.queue_size) old_db)),
        λ m some_m enough fits. each j ∙ rw some_m (minus-some _ m enough fits),
      ),
    )

count_beyond :
    (q : CompletionQueue) (n fuel new_db i : ℕ) (in_flight : ℕ → Option ℕ)
    → q.queue_size % 256 ≡ 0
    → i + n ≡ q.queue_size
    → new_db < i
    → n < fuel
    → count_read fuel q new_db i in_flight ≡ bug
unfolding count_read
count_beyond q n zero new_db i in_flight full e past f = absurd (omega arith)
count_beyond q zero (suc fuel) new_db i in_flight full e past f =
    let on : (i == new_db) ≡ false = ground arith in
    let last : i ≡ q.queue_size = omega arith in
    let unread : readable q i ≡ false = rw last (readable-beyond q full) in rw (on, unread) refl
count_beyond q (suc n) (suc fuel) new_db i in_flight full e past f =
    let on : (i == new_db) ≡ false = ground arith in
    let inside : leb q.queue_size i ≡ false = ground arith in
    rw (on, readable-inside q i (omega arith), inside)
      (count_beyond q n fuel new_db (i + 1) _ full (omega arith) (omega arith) (omega arith))

-- On a ring that fills its pages of 256 slots, `nvmev_proc_io_cq` with a new doorbell before the old one
-- reads the completion at the size of the ring, whose page is beyond the array of pages, before it goes round.
pub nvmev_proc_io_cq-beyond :
    (q : CompletionQueue) (new_db old_db : ℕ) (in_flight : ℕ → Option ℕ)
    → q.queue_size % 256 ≡ 0
    → new_db < old_db
    → old_db < q.queue_size
    → nvmev_proc_io_cq q new_db old_db in_flight ≡ bug
unfolding nvmev_proc_io_cq
nvmev_proc_io_cq-beyond q new_db old_db in_flight full past old =
    let e =
      count_beyond q (q.queue_size - old_db) (q.queue_size + 2) new_db old_db in_flight full
        (omega arith) past (omega arith) in
    rw e refl
