-- ===== src/Lru/Tests.antt =====
-- The theorems on the list of buffers (nvmevirt/lru.c) at two items.
use virtkv.Lru.{LruCache, null, lru_cache_init, lru_cache_set}
use virtkv.Lru.Members.{IsLru}
use virtkv.Lru.Set.{lru_cache_set-one}
use virtkv.Lru.Refine.{get, set, run, finds, adds, new, called, run-Uses, History-IsLru}
use virtkv.Common.{ℕ, [], ◌∷◌, ◌≡◌, ◌==◌, bug, refl, arith, if◌then◌else◌, update, Returns}

-- The item 1 has the id 5, and the other items the id 7. The list is 2, 1.
abbrev two : (capacity : ℕ) → LruCache
two capacity = record {
  head = 2;
  tail = 1;
  capacity = capacity;
  size = 2;
  items = λ i. if i == 7 then 2 else if i == 5 then 1 else null;
  mem = λ p.
      if p == 1
      then record { id = 5; prev = 2; next = null }
      else record { id = 7; prev = null; next = if p == 2 then 1 else null };
}

two-IsLru : IsLru (two 32) (2 ∷ 1 ∷ [])
two-IsLru = record {
  chain = (refl, refl, (refl, refl, (refl, refl)));
  distinct = (refl, (refl, tt));
  no_null = refl;
  size = refl;
  bound = omega arith;
  small = omega arith;
  fits = λ x m. ground arith;
  held = λ x m. ground arith;
  named = λ i slot. ground arith;
}

run-Uses_example :
    Returns (λ (s : ℕ × LruCache). (s.0 ≡ 1) × IsLru s.1 (1 ∷ 2 ∷ [])) (run (get 5) (two 32))
run-Uses_example =
    run-Uses (two 32) (2 ∷ 1 ∷ []) (get 5) 1 (1 ∷ 2 ∷ []) two-IsLru (finds (2 ∷ []) 1 [])

abbrev unused : LruCache
unused = record {
  head = null;
  tail = null;
  capacity = 0;
  size = 0;
  items = λ i. null;
  mem = λ p. record { id = 9; prev = null; next = null };
}

abbrev first : LruCache
first = record {
  head = 4;
  tail = 4;
  capacity = 32;
  size = 1;
  items = update (λ i. null) 9 4;
  mem =
      update
        (update (λ p. record { id = 9; prev = null; next = null }) 4
          (record { id = 9; prev = null; next = null }))
        4 (record { id = 9; prev = null; next = null });
}

-- The item 4 comes to a new list.
history_example : IsLru first (4 ∷ [])
unfolding run lru_cache_init lru_cache_set
history_example = History-IsLru first (4 ∷ []) (
    called (lru_cache_init unused 32) first [] (set 4) null null (4 ∷ [])
      (new unused 32 (λ i. refl) (omega arith))
      (adds [] 4
        (record { not_null = λ z. ground arith; slot = omega arith; no_id = λ x m. absurd cc })
        (omega arith))
      refl)

abbrev one : LruCache
one = record {
  head = 2;
  tail = 2;
  capacity = 1;
  size = 1;
  items = λ i. if i == 7 then 2 else null;
  mem = λ p. record { id = 7; prev = null; next = null };
}

one-IsLru : IsLru one (2 ∷ [])
one-IsLru = record {
  chain = (refl, refl, (refl, refl));
  distinct = (refl, tt);
  no_null = refl;
  size = refl;
  bound = omega arith;
  small = omega arith;
  fits = λ x m. ground arith;
  held = λ x m. ground arith;
  named = λ i slot. ground arith;
}

one_example : lru_cache_set one 3 ≡ bug
one_example = lru_cache_set-one one 3 2 one-IsLru (λ z. ground arith) refl
