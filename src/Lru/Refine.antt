-- ===== src/Lru/Refine.antt =====
-- The buffers as a list in the order of their use, which the calls of nvmevirt/lru.c implement.
use virtkv.Lru.{
  LruCache, null, lru_cache_init, lru_cache_get, lru_cache_set, lru_cache_remove,
  lru_cache_get_oldest,
}
use virtkv.Lru.Links.{nx, pv}
use virtkv.Lru.Members.{IsLru, IsNew}
use virtkv.Lru.Calls.{lru_cache_get-IsLru, lru_cache_remove-IsLru, lru_cache_get_oldest-IsLru}
use virtkv.Lru.Set.{lru_cache_set-room, lru_cache_set-full, lru_cache_init-IsLru}
use virtkv.Io.Queue.Chain.{has, ne-has}
use virtkv.Io.Queue.Relink.{Chain-frame}
use mathlib.Core.Path.{subst}
use virtkv.Common.{
  ℕ, List, [], ◌∷◌, ◌++◌, length, ◌≡◌, ◌≢◌, ◌<◌, ◌==◌, ◌^◌, refl, sym, ap, ◌∙◌, arith, true, false,
  update, Outcome, ok, ◌>>=◌, Returns, bind_Returns,
}

-- A call; the buffers are called by their items and by the ids of these.
pub data Call : Type 0 where
  get : (id : ℕ) → Call
  set : (item : ℕ) → Call
  remove : (id : ℕ) → Call
  get_oldest : Call

-- A call with its result, or NULL where the function has none.
unfoldable pub run : Call → LruCache → Outcome (ℕ × LruCache)
run (get id) c = lru_cache_get c id
run (set item) c = lru_cache_set c item >>= λ c'. ok (null, c')
run (remove id) c = lru_cache_remove c id >>= λ c'. ok (null, c')
run get_oldest c = lru_cache_get_oldest c

-- What a call means to a list: what it returns, and the list after it. The ids and the capacity are those
-- of the memory `c`.
pub data Uses (c : LruCache) : List ℕ → Call → ℕ → List ℕ → Type 0 where
  finds :
      (p : List ℕ) (e : ℕ) (q : List ℕ) → Uses c (p ++ (e ∷ q)) (get (c.mem e).id) e (e ∷ (p ++ q))
  finds_none : (id : ℕ) → Uses c [] (get id) null []
  adds :
      (xs : List ℕ) (item : ℕ)
      → IsNew c xs item
      → length xs < c.capacity
      → Uses c xs (set item) null (item ∷ xs)
  replaces :
      (x : ℕ) (p : List ℕ) (e item : ℕ)
      → IsNew c (x ∷ (p ++ [])) item
      → length (x ∷ (p ++ (e ∷ []))) ≡ c.capacity
      → Uses c (x ∷ (p ++ (e ∷ []))) (set item) null (item ∷ x ∷ (p ++ []))
  removes :
      (p : List ℕ) (e : ℕ) (q : List ℕ) → Uses c (p ++ (e ∷ q)) (remove (c.mem e).id) null (p ++ q)
  takes_last : (xs : List ℕ) (e : ℕ) → Uses c (xs ++ (e ∷ [])) get_oldest e (xs ++ [])
  takes_none : Uses c [] get_oldest null []

-- Where the memory is a list, each call that the list allows returns what it returns on the list, and the memory is the list after it.
pub run-Uses :
    (c : LruCache) (xs : List ℕ) (k : Call) (r : ℕ) (ys : List ℕ)
    → IsLru c xs
    → Uses c xs k r ys
    → Returns (λ (s : ℕ × LruCache). (s.0 ≡ r) × IsLru s.1 ys) (run k c)
unfolding run lru_cache_get lru_cache_get_oldest
run-Uses c xs k r ys h (finds p e q) = lru_cache_get-IsLru c p e q h
run-Uses c xs k r ys h (finds_none id) =
    let none : (c.size == 0) ≡ true = ground (arith, h.size) in rw none (_, refl, (refl, h))
run-Uses c xs k r ys h (adds _ item new room) =
    bind_Returns (lru_cache_set-room c item xs h new room) (λ c' h'. (_, refl, (refl, h')))
run-Uses c xs k r ys h (replaces x p e item new full) =
    bind_Returns (lru_cache_set-full c item x p e h new full) (λ c' h'. (_, refl, (refl, h')))
run-Uses c xs k r ys h (removes p e q) =
    bind_Returns (lru_cache_remove-IsLru c p e q h) (λ c' h'. (_, refl, (refl, h')))
run-Uses c xs k r ys h (takes_last zs e) = lru_cache_get_oldest-IsLru c zs e h
run-Uses c xs k r ys h takes_none =
    let none : (c.size == 0) ≡ true = ground (arith, h.size) in rw none (_, refl, (refl, h))

-- The states that calls lead to from a new list on. Between calls an item that is not in the list may get
-- another id, as __assign_buf and __clear_buf of nvmevirt/demand_ftl.c do.
pub data History : LruCache → List ℕ → Type 0 where
  new :
      (c : LruCache) (capacity : ℕ)
      → ((i : ℕ) → c.items i ≡ null)
      → capacity < 2 ^ 32
      → History (lru_cache_init c capacity) []
  called :
      (c c' : LruCache) (xs : List ℕ) (k : Call) (r result : ℕ) (ys : List ℕ)
      → History c xs
      → Uses c xs k r ys
      → run k c ≡ ok (result, c')
      → History c' ys
  renamed :
      (c : LruCache) (xs : List ℕ) (x id : ℕ)
      → History c xs
      → has x xs ≡ false
      → x ≢ null
      → History (record c { mem = update c.mem x (record (c.mem x) { id = id }) }) xs

renamed-IsLru :
    (c : LruCache) (xs : List ℕ) (x id : ℕ)
    → IsLru c xs
    → has x xs ≡ false
    → x ≢ null
    → IsLru (record c { mem = update c.mem x (record (c.mem x) { id = id }) }) xs
renamed-IsLru c xs x id h out ne =
    let c' = record c { mem = update c.mem x (record (c.mem x) { id = id }) } in
    let links : (y : ℕ) → (nx c' y ≡ nx c y) × (pv c' y ≡ pv c y) =
      λ y. (ground arith, ground arith) in
    let ids : (y : ℕ) → has y xs ≡ true → (c'.mem y).id ≡ (c.mem y).id =
      λ y m. let apart = ne-has y x xs m out in ground arith in
    record {
      chain =
          Chain-frame (nx c) (pv c) (nx c') (pv c') null xs null (links null).0 (links null).1
            (λ y m. links y) h.chain;
      distinct = h.distinct;
      no_null = h.no_null;
      size = h.size;
      bound = h.bound;
      small = h.small;
      fits = λ y m. omega (arith, h.fits y m, ids y m);
      held = λ y m. ap c.items (ids y m) ∙ h.held y m;
      named = λ i slot. let (m, e) = h.named i slot in (m, ids (c.items i) m ∙ e);
    }

-- Every state that calls lead to is a list: its links go through it in both directions, its size is its length, within the capacity, and `items` finds exactly its members by their ids.
pub History-IsLru : (c : LruCache) (xs : List ℕ) → History c xs → IsLru c xs
History-IsLru c xs (new c0 capacity clear small) = lru_cache_init-IsLru c0 capacity clear small
History-IsLru c xs (called c0 _ zs k r result _ past uses runs) =
    let (s, e, (f, h)) = run-Uses c0 zs k r xs (History-IsLru c0 zs past) uses in
    let same : s ≡ (result, c) = let g = sym e ∙ runs in cc in
    subst (λ (t : ℕ × LruCache). IsLru t.1 xs) same h
History-IsLru c xs (renamed c0 _ x id past out ne) =
    renamed-IsLru c0 xs x id (History-IsLru c0 xs past) out ne
