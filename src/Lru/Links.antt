-- ===== src/Lru/Links.antt =====
-- The links of the list of buffers (nvmevirt/lru.c), with NULL as the place before its head and behind its
-- tail.
use virtkv.Lru.{LruCache, null, set_next, set_prev, unlink_behind, unlink_head, to_head}
use virtkv.Common.{
  ℕ, ◌≡◌, ◌≢◌, ◌==◌, not, update, if◌then◌else◌, refl, arith, true, false, Returns, ℕ_discrete,
}

abbrev pub nx : LruCache → ℕ → ℕ
nx c p = if p == null then c.head else (c.mem p).next

abbrev pub pv : LruCache → ℕ → ℕ
pv c p = if p == null then c.tail else (c.mem p).prev

-- What a change of the links leaves alone.
pub record Kept (c c' : LruCache) : Type 0 where
  pub items : c'.items ≡ c.items
  pub size : c'.size ≡ c.size
  pub capacity : c'.capacity ≡ c.capacity

-- `l` and `r` have become neighbours.
pub record Relinked (c c' : LruCache) (l r : ℕ) : Type 0 where
  pub fwd : nx c' l ≡ r
  pub back : pv c' r ≡ l
  pub nx_same : (x : ℕ) → x ≢ l → nx c' x ≡ nx c x
  pub pv_same : (x : ℕ) → x ≢ r → pv c' x ≡ pv c x
  pub ids : (x : ℕ) → (c'.mem x).id ≡ (c.mem x).id

-- `e` has come before the head `h`.
pub record Fronted (c c' : LruCache) (e h : ℕ) : Type 0 where
  pub first : nx c' null ≡ e
  pub front : pv c' e ≡ null
  pub fwd : nx c' e ≡ h
  pub back : pv c' h ≡ e
  pub nx_same : (x : ℕ) → x ≢ e → x ≢ null → nx c' x ≡ nx c x
  pub pv_same : (x : ℕ) → x ≢ e → x ≢ h → pv c' x ≡ pv c x
  pub ids : (x : ℕ) → (c'.mem x).id ≡ (c.mem x).id

abbrev pub Unlinked : LruCache → (l r : ℕ) → LruCache → Type 0
Unlinked c l r c' = Relinked c c' l r × Kept c c'

-- The item `l` becomes the tail.
pub tail_cut :
    (c : LruCache) (l : ℕ)
    → l ≢ null
    → Returns (Unlinked c l null) (set_next (record c { tail = l }) l null)
unfolding set_next
tail_cut c l ne =
    let u : not (l == null) ≡ true = ground arith in
    (
      record c { tail = l; mem = update c.mem l (record (c.mem l) { next = null }) },
      simp u refl,
      (
        record {
          fwd = ground arith;
          back = refl;
          nx_same = λ x d. ground arith;
          pv_same = λ x d. ground arith;
          ids = λ x. ground arith;
        },
        record { items = refl; size = refl; capacity = refl },
      ),
    )

-- The same, where `l` is read from the memory.
pub tail_cut_at :
    (c : LruCache) (t l : ℕ)
    → t ≡ l
    → l ≢ null
    → Returns (Unlinked c l null) (set_next (record c { tail = t }) t null)
tail_cut_at c t l at ne = rw at (tail_cut c l ne)

pub tail_unlinked :
    (c : LruCache) (item l : ℕ)
    → l ≢ null
    → (c.mem item).prev ≡ l
    → item ≡ c.tail
    → Returns (Unlinked c l null) (unlink_behind c item)
unfolding unlink_behind
tail_unlinked c item l ne before at =
    let t : (item == c.tail) ≡ true = ground arith in rw (t, before) (tail_cut c l ne)

pub middle_unlinked :
    (c : LruCache) (item l r : ℕ)
    → l ≢ null
    → r ≢ null
    → item ≢ l
    → (c.mem item).prev ≡ l
    → (c.mem item).next ≡ r
    → item ≢ c.tail
    → Returns (Unlinked c l r) (unlink_behind c item)
unfolding unlink_behind set_next set_prev
middle_unlinked c item l r nl nr other before after inside =
    let t : (item == c.tail) ≡ false = ground arith in
    let u : not (l == null) ≡ true = ground arith in
    let v : not (r == null) ≡ true = ground arith in
    let w : (item == l) ≡ false = ground arith in
    let mem = update c.mem l (record (c.mem l) { next = r }) in
    (
      record c { mem = update mem r (record (mem r) { prev = l }) },
      simp (t, before, after, u, w, before, after, v) refl,
      (
        record {
          fwd = ground arith;
          back = ground arith;
          nx_same = λ x d. ground arith;
          pv_same = λ x d. ground arith;
          ids = λ x. ground arith;
        },
        record { items = refl; size = refl; capacity = refl },
      ),
    )

pub head_unlinked :
    (c : LruCache) (item r : ℕ)
    → (c.mem item).next ≡ r
    → Returns (Unlinked c null r) (unlink_head c item)
unfolding unlink_head set_prev
head_unlinked c item r after = elim (ℕ_discrete r null) [
  | yes z ↦
      let u : not (r == null) ≡ false = ground arith in
      (
        record c { head = r; tail = null },
        simp (after, u) refl,
        (
          record {
            fwd = refl;
            back = ground arith;
            nx_same = λ x d. ground arith;
            pv_same = λ x d. ground arith;
            ids = λ x. refl;
          },
          record { items = refl; size = refl; capacity = refl },
        ),
      )
  | no ne ↦
      let u : not (r == null) ≡ true = ground arith in
      (
        record c { head = r; mem = update c.mem r (record (c.mem r) { prev = null }) },
        simp (after, u) refl,
        (
          record {
            fwd = refl;
            back = ground arith;
            nx_same = λ x d. ground arith;
            pv_same = λ x d. ground arith;
            ids = λ x. ground arith;
          },
          record { items = refl; size = refl; capacity = refl },
        ),
      )
]

-- The memory with `item` before the head, and before the end of an empty list.
abbrev pub with_front : LruCache → ℕ → LruCache
with_front c item =
    let m1 = update c.mem item (record (c.mem item) { prev = null }) in
    let m2 = update m1 item (record (m1 item) { next = c.head }) in
    record c { head = item; mem = update m2 c.head (record (m2 c.head) { prev = item }) }

abbrev pub with_first : LruCache → ℕ → LruCache
with_first c item =
    let m1 = update c.mem item (record (c.mem item) { prev = null }) in
    let m2 = update m1 item (record (m1 item) { next = c.head }) in
    record c { head = item; tail = item; mem = m2 }

pub with_front-Fronted :
    (c : LruCache) (item : ℕ)
    → item ≢ null
    → c.head ≢ null
    → c.head ≢ item
    → Fronted c (with_front c item) item c.head
with_front-Fronted c item ni nh ne = record {
  first = refl;
  front = ground arith;
  fwd = ground arith;
  back = ground arith;
  nx_same = λ x d n. ground arith;
  pv_same = λ x d n. ground arith;
  ids = λ x. ground arith;
}

pub with_first-Fronted :
    (c : LruCache) (item : ℕ)
    → item ≢ null
    → c.head ≡ null
    → Fronted c (with_first c item) item c.head
with_first-Fronted c item ni none = record {
  first = refl;
  front = ground arith;
  fwd = ground arith;
  back = ground arith;
  nx_same = λ x d n. ground arith;
  pv_same = λ x d n. ground arith;
  ids = λ x. ground arith;
}

pub to_head-Fronted :
    (c : LruCache) (item : ℕ)
    → item ≢ null
    → c.head ≢ null
    → c.head ≢ item
    → Returns (λ c'. Fronted c c' item c.head × Kept c c') (to_head c item)
unfolding to_head set_prev set_next
to_head-Fronted c item ni nh ne =
    let u : not (item == null) ≡ true = ground arith in
    let v : not (c.head == null) ≡ true = ground arith in
    (
      with_front c item,
      simp (u, v) refl,
      (with_front-Fronted c item ni nh ne, record { items = refl; size = refl; capacity = refl }),
    )
