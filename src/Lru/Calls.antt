-- ===== src/Lru/Calls.antt =====
-- The calls of nvmevirt/lru.c on a memory that is a list.
use virtkv.Lru.{
  LruCache, null, max_capacity, shrink, set_next, set_slot, unlink_behind, unlink_head, to_head,
  lru_cache_get, lru_cache_remove, lru_cache_get_oldest,
}
use virtkv.Lru.Links.{
  nx, pv, Unlinked, tail_cut_at, tail_unlinked, middle_unlinked, head_unlinked, to_head-Fronted,
}
use virtkv.Lru.Members.{IsLru, is_member, leaves-IsLru, moves-IsLru, length-middle, Beside-middle}
use virtkv.Io.Queue.Chain.{
  head_or, last_or, Chain-split, Chain-head, Chain-last, last_or-append, ne_last, has-last_or,
  ne-has,
}
use virtkv.Common.{
  ℕ, List, [], ◌∷◌, ◌++◌, ◌≡◌, ◌≢◌, ◌<◌, ◌==◌, ◌||◌, refl, sym, ap, ◌∙◌, arith, true, false, not,
  ltb, leb, if◌then◌else◌, ok, Returns, then_Returns, if_Returns, bind_Returns, ◌>>=◌,
}

-- Where the fields of `c` point, with `e` between `p` and `q`.
module _ (c : LruCache) (p : List ℕ) (e : ℕ) (q : List ℕ) (h : IsLru c (p ++ (e ∷ q))) where
  pub not_null : e ≢ null
  not_null = ne-has e null (p ++ (e ∷ q)) (is_member c p e q h) h.no_null

  pub at_prev : (c.mem e).prev ≡ last_or p null
  at_prev =
      let (l, r) = Chain-split (nx c) (pv c) null p (e ∷ q) null h.chain in
      let t : (e == null) ≡ false = let ne = not_null in ground arith in
      let k : pv c e ≡ last_or p null = r.1 in
      ap (λ b. if b then c.tail else (c.mem e).prev) (sym t) ∙ k

  at_next : (c.mem e).next ≡ head_or q null
  at_next =
      let (l, r) = Chain-split (nx c) (pv c) null p (e ∷ q) null h.chain in
      let t : (e == null) ≡ false = let ne = not_null in ground arith in
      ap (λ b. if b then c.head else (c.mem e).next) (sym t) ∙ Chain-head (nx c) (pv c) e q null r.2

  pub at_tail : c.tail ≡ last_or q e
  at_tail =
      Chain-last (nx c) (pv c) null (p ++ (e ∷ q)) null h.chain ∙ last_or-append p (e ∷ q) null

  slot : (c.mem e).id < max_capacity
  slot = h.fits e (is_member c p e q h)

  found : c.items (c.mem e).id ≡ e
  found = h.held e (is_member c p e q h)

pub at_head : (c : LruCache) (xs : List ℕ) → IsLru c xs → c.head ≡ head_or xs null
at_head c xs h = Chain-head (nx c) (pv c) null xs null h.chain

-- An item that is not the head leaves the list.
behind_head :
    (c : LruCache) (x : ℕ) (p : List ℕ) (e : ℕ) (q : List ℕ)
    → IsLru c (x ∷ (p ++ (e ∷ q)))
    → Returns (Unlinked c (last_or p x) (head_or q null)) (unlink_behind c e)
behind_head c x p e [] h =
    let s = Beside-middle (x ∷ p) e [] h.distinct h.no_null in
    tail_unlinked c e (last_or p x) (ne-has _ null (x ∷ p) (has-last_or p x) s.end_p)
      (at_prev c (x ∷ p) e [] h) (sym (at_tail c (x ∷ p) e [] h))
behind_head c x p e (y ∷ q) h =
    let s = Beside-middle (x ∷ p) e (y ∷ q) h.distinct h.no_null in
    let last = ne-has _ e (y ∷ q) (has-last_or q y) s.new_q in
    middle_unlinked c e (last_or p x) y (ne-has _ null (x ∷ p) (has-last_or p x) s.end_p)
      (λ z. let out = s.end_q in ground arith) (ne_last null (x ∷ p) (y ∷ q) e s)
      (at_prev c (x ∷ p) e (y ∷ q) h) (at_next c (x ∷ p) e (y ∷ q) h)
      (λ at. last (sym (at_tail c (x ∷ p) e (y ∷ q) h) ∙ sym at))

-- An item leaves the list.
leaves :
    (c : LruCache) (p : List ℕ) (e : ℕ) (q : List ℕ)
    → IsLru c (p ++ (e ∷ q))
    → Returns
        (Unlinked c (last_or p null) (head_or q null))
        (if e == c.head then unlink_head c e else unlink_behind c e)
leaves c [] e q h =
    if_Returns (e == c.head) (λ t. head_unlinked c e (head_or q null) (at_next c [] e q h))
      (λ f. absurd (let at = at_head c (e ∷ q) h in ground arith))
leaves c (x ∷ p) e q h =
    if_Returns (e == c.head)
      (λ t. absurd (
        let at = at_head c (x ∷ (p ++ (e ∷ q))) h in
        let s = Beside-middle (x ∷ p) e q h.distinct h.no_null in
        let new = s.new_p in ground arith))
      (λ f. behind_head c x p e q h)

-- Its slot is emptied.
pub frees :
    (c : LruCache) (p : List ℕ) (e : ℕ) (q : List ℕ) (h : IsLru c (p ++ (e ∷ q))) (c1 : LruCache)
    (i : ℕ)
    → i ≡ (c.mem e).id
    → Unlinked c (last_or p null) (head_or q null) c1
    → Returns
        (λ c2.
          IsLru (shrink c2) (p ++ q)
          × ((x : ℕ) → (c2.mem x).id ≡ (c.mem x).id)
          × (c2.capacity ≡ c.capacity))
        (set_slot c1 i null)
unfolding set_slot
frees c p e q h c1 i at u =
    let fits : ltb i max_capacity ≡ true = ground (arith, slot c p e q h) in
    let id : i ≡ (c1.mem e).id = at ∙ sym (u.0.ids e) in
    then_Returns (ltb i max_capacity) fits
      (_, refl, (rw id (leaves-IsLru c p e q h c1 u), u.0.ids, u.1.capacity))

-- An item that was found comes to the front.
gets :
    (c : LruCache) (p : List ℕ) (e : ℕ) (q : List ℕ)
    → IsLru c (p ++ (e ∷ q))
    → Returns
        (λ (r : ℕ × LruCache). (r.0 ≡ e) × IsLru r.1 (e ∷ (p ++ q)))
        (if e == c.head
          then ok (e, c)
          else (unlink_behind c e >>= λ c'. to_head c' e >>= λ c''. ok (e, c'')))
gets c [] e q h =
    if_Returns (e == c.head) (λ t. (_, refl, (refl, h)))
      (λ f. absurd (let at = at_head c (e ∷ q) h in ground arith))
gets c (x ∷ p) e q h =
    if_Returns (e == c.head)
      (λ t. absurd (
        let at = at_head c (x ∷ (p ++ (e ∷ q))) h in
        let s = Beside-middle (x ∷ p) e q h.distinct h.no_null in
        let new = s.new_p in ground arith))
      (λ f. bind_Returns (behind_head c x p e q h) (λ c1 u.
        let s = Beside-middle (x ∷ p) e q h.distinct h.no_null in
        let out = s.end_p in
        let new = s.new_p in
        let first : c1.head ≡ x =
          u.0.nx_same null
            (λ z. ne-has (last_or p x) null (x ∷ p) (has-last_or p x) s.end_p (sym z))
          ∙ at_head c _ h in
        bind_Returns
          (to_head-Fronted c1 e (not_null c (x ∷ p) e q h)
            (λ z. let k = sym first ∙ z in ground arith)
            (λ z. let k = sym first ∙ z in ground arith))
          (λ c2 f2.
            (_, refl, (refl, moves-IsLru c (x ∷ p) e q h c1 c2 u (rw (sym first) f2.0, f2.1))))))

-- Where the memory is the list `p`, `e`, `q`, lru_cache_get with the id of `e` returns `e`, and the memory
-- is the list with `e` at its front.
pub lru_cache_get-IsLru :
    (c : LruCache) (p : List ℕ) (e : ℕ) (q : List ℕ)
    → IsLru c (p ++ (e ∷ q))
    → Returns
        (λ (r : ℕ × LruCache). (r.0 ≡ e) × IsLru r.1 (e ∷ (p ++ q)))
        (lru_cache_get c (c.mem e).id)
unfolding lru_cache_get
lru_cache_get-IsLru c p e q h =
    let ne = not_null c p e q h in
    let some : (c.size == 0 || leb max_capacity (c.mem e).id) ≡ false =
      ground (arith, h.size, length-middle p e q, slot c p e q h) in
    let there : not (e == null) ≡ true = ground arith in
    rw (some, found c p e q h) (then_Returns (not (e == null)) there (gets c p e q h))

-- Where the memory is the list `p`, `e`, `q`, lru_cache_remove with the id of `e` returns with the list
-- without `e`.
pub lru_cache_remove-IsLru :
    (c : LruCache) (p : List ℕ) (e : ℕ) (q : List ℕ)
    → IsLru c (p ++ (e ∷ q))
    → Returns (λ c'. IsLru c' (p ++ q)) (lru_cache_remove c (c.mem e).id)
unfolding lru_cache_remove set_slot
lru_cache_remove-IsLru c p e q h =
    let full : not (c.size == 0 || leb max_capacity (c.mem e).id) ≡ true =
      ground (arith, h.size, length-middle p e q, slot c p e q h) in
    let there : not (e == null) ≡ true = let ne = not_null c p e q h in ground arith in
    let fits : ltb (c.mem e).id max_capacity ≡ true = ground (arith, slot c p e q h) in
    then_Returns (not (c.size == 0 || leb max_capacity (c.mem e).id)) full (
      rw (found c p e q h) (
        then_Returns (not (e == null)) there (
          bind_Returns (leaves c p e q h) (λ c1 u.
            bind_Returns (frees c p e q h c1 (c.mem e).id refl u) (λ c2 k. (_, refl, k.0))))))

-- The last item leaves the list, if another one stays.
pub cuts :
    (c : LruCache) (x : ℕ) (p : List ℕ) (e : ℕ)
    → IsLru c (x ∷ (p ++ (e ∷ [])))
    → Returns
        (Unlinked c (last_or p x) null)
        (set_next (record c { tail = (c.mem c.tail).prev }) (c.mem c.tail).prev null)
cuts c x p e h =
    let s = Beside-middle (x ∷ p) e [] h.distinct h.no_null in
    tail_cut_at c _ (last_or p x)
      (ap (λ i. (c.mem i).prev) (at_tail c (x ∷ p) e [] h) ∙ at_prev c (x ∷ p) e [] h)
      (ne-has _ null (x ∷ p) (has-last_or p x) s.end_p)

oldest_leaves :
    (c : LruCache) (xs : List ℕ) (e : ℕ)
    → IsLru c (xs ++ (e ∷ []))
    → Returns (Unlinked c (last_or xs null) null) (
        if c.tail == c.head
        then ok (record c { head = null; tail = null })
        else set_next (record c { tail = (c.mem c.tail).prev }) (c.mem c.tail).prev null)
oldest_leaves c [] e h =
    if_Returns (c.tail == c.head)
      (λ t. (
        _,
        refl,
        (
          record {
            fwd = refl;
            back = refl;
            nx_same = λ x d. ground arith;
            pv_same = λ x d. ground arith;
            ids = λ x. refl;
          },
          record { items = refl; size = refl; capacity = refl },
        ),
      ))
      (λ f.
        absurd (let at = at_head c (e ∷ []) h in let last = at_tail c [] e [] h in ground arith))
oldest_leaves c (x ∷ p) e h =
    if_Returns (c.tail == c.head)
      (λ t. absurd (
        let at = at_head c (x ∷ (p ++ (e ∷ []))) h in
        let last = at_tail c (x ∷ p) e [] h in
        let s = Beside-middle (x ∷ p) e [] h.distinct h.no_null in
        let new = s.new_p in ground arith))
      (λ f. cuts c x p e h)

-- Where the memory is the list `xs`, `e`, lru_cache_get_oldest returns `e`, with the list `xs`.
pub lru_cache_get_oldest-IsLru :
    (c : LruCache) (xs : List ℕ) (e : ℕ)
    → IsLru c (xs ++ (e ∷ []))
    → Returns (λ (r : ℕ × LruCache). (r.0 ≡ e) × IsLru r.1 (xs ++ [])) (lru_cache_get_oldest c)
unfolding lru_cache_get_oldest
lru_cache_get_oldest-IsLru c xs e h =
    let ne = not_null c xs e [] h in
    let last = at_tail c xs e [] h in
    let some : (c.size == 0) ≡ false = ground (arith, h.size, length-middle xs e []) in
    let there : not (c.tail == null) ≡ true = ground arith in
    rw some (
      then_Returns (not (c.tail == null)) there (
        bind_Returns (oldest_leaves c xs e h) (λ c1 u.
          bind_Returns
            (frees c xs e [] h c1 (c1.mem c.tail).id (u.0.ids c.tail ∙ ap (λ x. (c.mem x).id) last)
              u)
            (λ c2 k. (_, refl, (last, k.0))))))
