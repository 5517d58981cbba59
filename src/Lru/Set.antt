-- ===== src/Lru/Set.antt =====
-- lru_cache_set and lru_cache_init of nvmevirt/lru.c on a memory that is a list.
use virtkv.Lru.{
  LruCache, null, max_capacity, set_next, set_prev, set_slot, drop_last, add_head, lru_cache_init,
  lru_cache_set,
}
use virtkv.Lru.Links.{Fronted, with_front, with_first, with_front-Fronted, with_first-Fronted}
use virtkv.Lru.Members.{IsLru, IsNew, comes-IsLru, length-middle}
use virtkv.Lru.Calls.{not_null, at_prev, at_tail, at_head, frees, cuts}
use mathlib.Core.Path.{subst}
use virtkv.Common.{
  ℕ, List, [], ◌∷◌, ◌++◌, length, ◌+◌, ◌≡◌, ◌≢◌, ◌<◌, ◌==◌, ◌^◌, refl, sym, ap, ◌∙◌, arith, true,
  false, not, ltb, update, u32, bug, Returns, then_Returns, bind_Returns,
}

-- At the capacity the last item leaves the list.
drop_last-IsLru :
    (c : LruCache) (x : ℕ) (p : List ℕ) (e : ℕ)
    → IsLru c (x ∷ (p ++ (e ∷ [])))
    → Returns
        (λ c'.
          IsLru c' (x ∷ (p ++ []))
          × ((y : ℕ) → (c'.mem y).id ≡ (c.mem y).id)
          × (c'.capacity ≡ c.capacity))
        (drop_last c)
unfolding drop_last
drop_last-IsLru c x p e h =
    let ne = not_null c (x ∷ p) e [] h in
    let last = at_tail c (x ∷ p) e [] h in
    let there : not (c.tail == null) ≡ true = ground arith in
    then_Returns (not (c.tail == null)) there (
      bind_Returns (cuts c x p e h) (λ c1 u.
        bind_Returns
          (frees c (x ∷ p) e [] h c1 (c1.mem c.tail).id
            (u.0.ids c.tail ∙ ap (λ x. (c.mem x).id) last) u)
          (λ c2 k. (_, refl, k))))

add_head-IsLru :
    (c : LruCache) (item id : ℕ) (xs : List ℕ)
    → IsLru c xs
    → IsNew c xs item
    → id ≡ (c.mem item).id
    → length xs < c.capacity
    → Returns (λ c'. IsLru c' (item ∷ xs)) (add_head c item id)
unfolding add_head set_prev set_next set_slot
add_head-IsLru c item id [] h new at room =
    let ni = new.not_null in
    let u : not (item == null) ≡ true = ground arith in
    let none : c.head ≡ null = at_head c [] h in
    let v : not (c.head == null) ≡ false = ground arith in
    let w : ltb id max_capacity ≡ true = ground (arith, new.slot) in
    let f : Fronted c (with_first c item) item null =
      subst (Fronted c (with_first c item) item) none (with_first-Fronted c item ni none) in
    (
      record (with_first c item) { items = update c.items id item; size = u32 (c.size + 1) },
      simp (u, v, w) refl,
      rw at (
          comes-IsLru c (with_first c item) item [] h new room f
            (record { items = refl; size = refl; capacity = refl })),
    )
add_head-IsLru c item id (x ∷ xs) h new at room =
    let ni = new.not_null in
    let u : not (item == null) ≡ true = ground arith in
    let first : c.head ≡ x = at_head c (x ∷ xs) h in
    let out = h.no_null in
    let nh : c.head ≢ null = λ z. ground arith in
    let ne : c.head ≢ item =
      λ z. new.no_id x (ground arith) (ap (λ y. (c.mem y).id) (sym first ∙ z)) in
    let v : not (c.head == null) ≡ true = ground arith in
    let w : ltb id max_capacity ≡ true = ground (arith, new.slot) in
    let f : Fronted c (with_front c item) item x =
      subst (Fronted c (with_front c item) item) first (with_front-Fronted c item ni nh ne) in
    (
      record (with_front c item) { items = update c.items id item; size = u32 (c.size + 1) },
      simp (u, v, w) refl,
      rw at (
          comes-IsLru c (with_front c item) item (x ∷ xs) h new room f
            (record { items = refl; size = refl; capacity = refl })),
    )

-- Where the memory is the list `xs` below its capacity, lru_cache_set of a new item puts it at the front.
pub lru_cache_set-room :
    (c : LruCache) (item : ℕ) (xs : List ℕ)
    → IsLru c xs
    → IsNew c xs item
    → length xs < c.capacity
    → Returns (λ c'. IsLru c' (item ∷ xs)) (lru_cache_set c item)
unfolding lru_cache_set
lru_cache_set-room c item xs h new room =
    let ni = new.not_null in
    let u : not (item == null) ≡ true = ground arith in
    let below : (c.size == c.capacity) ≡ false = ground (arith, h.size) in
    then_Returns (not (item == null)) u
      (rw below (add_head-IsLru c item (c.mem item).id xs h new refl room))

-- Where the memory is the list `x`, `p`, `e` at its capacity, lru_cache_set of a new item puts it at the
-- front, and `e` leaves the list.
pub lru_cache_set-full :
    (c : LruCache) (item x : ℕ) (p : List ℕ) (e : ℕ)
    → IsLru c (x ∷ (p ++ (e ∷ [])))
    → IsNew c (x ∷ (p ++ [])) item
    → length (x ∷ (p ++ (e ∷ []))) ≡ c.capacity
    → Returns (λ c'. IsLru c' (item ∷ x ∷ (p ++ []))) (lru_cache_set c item)
unfolding lru_cache_set
lru_cache_set-full c item x p e h new full =
    let ni = new.not_null in
    let u : not (item == null) ≡ true = ground arith in
    let at : (c.size == c.capacity) ≡ true = ground (arith, h.size) in
    then_Returns (not (item == null)) u (
      rw at (
        bind_Returns (drop_last-IsLru c x p e h) (λ c' k.
          add_head-IsLru c' item (c.mem item).id (x ∷ (p ++ [])) k.0
            (record {
              not_null = ni;
              slot = omega (arith, k.1 item, new.slot);
              no_id = λ y m same. new.no_id y m (sym (k.1 y) ∙ same ∙ k.1 item);
            })
            (sym (k.1 item)) (omega (arith, full, k.2, length-middle (x ∷ p) e [])))))

-- With a capacity of one, lru_cache_set on a list of one item writes through NULL.
pub lru_cache_set-one :
    (c : LruCache) (item e : ℕ)
    → IsLru c (e ∷ [])
    → item ≢ null
    → c.capacity ≡ 1
    → lru_cache_set c item ≡ bug
unfolding lru_cache_set drop_last set_next
lru_cache_set-one c item e h ni one =
    let u : not (item == null) ≡ true = ground arith in
    let at : (c.size == c.capacity) ≡ true = ground (arith, h.size) in
    let ne = not_null c [] e [] h in
    let last = at_tail c [] e [] h in
    let there : not (c.tail == null) ≡ true = ground arith in
    let prev : (c.mem c.tail).prev ≡ null = ap (λ i. (c.mem i).prev) last ∙ at_prev c [] e [] h in
    simp (u, at, there, prev) refl

-- lru_cache_init on an array of null pointers is the empty list.
pub lru_cache_init-IsLru :
    (c : LruCache) (capacity : ℕ)
    → ((i : ℕ) → c.items i ≡ null)
    → capacity < 2 ^ 32
    → IsLru (lru_cache_init c capacity) []
unfolding lru_cache_init
lru_cache_init-IsLru c capacity clear small = record {
  chain = (refl, refl);
  distinct = tt;
  no_null = refl;
  size = refl;
  bound = omega arith;
  small = small;
  fits = λ x m. absurd cc;
  held = λ x m. absurd cc;
  named = λ i slot. absurd (slot (clear i));
}
