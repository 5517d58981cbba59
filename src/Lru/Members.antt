-- ===== src/Lru/Members.antt =====
-- The members of the list of buffers (nvmevirt/lru.c): the invariant that the memory is a list of items, and
-- what it becomes when an item leaves the list or comes to its front.
use virtkv.Lru.{LruCache, null, max_capacity, shrink}
use virtkv.Lru.Links.{nx, pv, Fronted, Kept, Unlinked}
use virtkv.Io.Queue.Chain.{
  has, Distinct, Chain, head_or, last_or, Chain-split, Chain-join, Distinct-split, Distinct-join,
  has-append, Beside, p_ne_head, q_ne_last, Beside-split, ne-has,
}
use virtkv.Io.Queue.Relink.{Chain-new_end, Chain-new_start}
use virtkv.Common.{
  ℕ, List, ◌∷◌, ◌++◌, length, length-append, ◌+◌, ◌≡◌, ◌≢◌, ◌≤◌, ◌<◌, ◌==◌, ◌||◌, ◌^◌, refl, sym,
  ap, ◌∙◌, arith, true, false, suc, update, u32, ℕ_discrete, Bool-cases, inl, inr,
}

-- The memory is the list `xs`, the most recent item first, and `items` finds its members by their ids.
pub record IsLru (c : LruCache) (xs : List ℕ) : Type 0 where
  pub chain : Chain (nx c) (pv c) null xs null
  pub distinct : Distinct xs
  pub no_null : has null xs ≡ false
  pub size : c.size ≡ length xs
  pub bound : length xs ≤ c.capacity
  pub small : c.capacity < 2 ^ 32
  pub fits : (x : ℕ) → has x xs ≡ true → (c.mem x).id < max_capacity
  pub held : (x : ℕ) → has x xs ≡ true → c.items (c.mem x).id ≡ x
  pub named :
      (i : ℕ) → c.items i ≢ null → (has (c.items i) xs ≡ true) × ((c.mem (c.items i)).id ≡ i)

module _ (p : List ℕ) (e : ℕ) (q : List ℕ) where
  pub has-middle : (x : ℕ) → has x (p ++ (e ∷ q)) ≡ ((x == e) || has x (p ++ q))
  has-middle x = ground (arith, has-append x p (e ∷ q), has-append x p q)

  pub length-middle : length (p ++ (e ∷ q)) ≡ suc (length (p ++ q))
  length-middle = omega (arith, length-append p (e ∷ q), length-append p q)

  pub Distinct-middle : Distinct (p ++ (e ∷ q)) → Distinct (p ++ q) × (has e (p ++ q) ≡ false)
  Distinct-middle d =
      let (dp, dq, apart) = Distinct-split p (e ∷ q) d in
      (
        Distinct-join p q dp dq.1 (λ x m. let a = apart x m in ground arith),
        (let a = apart e in ground (arith, has-append e p q, dq.0)),
      )

  -- The place of an item that is in the list.
  pub Beside-middle : Distinct (p ++ (e ∷ q)) → has null (p ++ (e ∷ q)) ≡ false → Beside null p q e
  Beside-middle d out =
      let (dr, new) = Distinct-middle d in
      Beside-split null p q e dr (ground (arith, has-middle null)) new
        (λ z. ground (arith, has-middle null))

  -- The list without `e`, when the items before and behind it have become neighbours.
  pub Chain-remove :
      (nx pv nx' pv' : ℕ → ℕ)
      → Distinct (p ++ (e ∷ q))
      → has null (p ++ (e ∷ q)) ≡ false
      → nx' (last_or p null) ≡ head_or q null
      → pv' (head_or q null) ≡ last_or p null
      → ((x : ℕ) → x ≢ last_or p null → nx' x ≡ nx x)
      → ((x : ℕ) → x ≢ head_or q null → pv' x ≡ pv x)
      → Chain nx pv null (p ++ (e ∷ q)) null
      → Chain nx' pv' null (p ++ q) null
  Chain-remove nx pv nx' pv' d out fwd back n v h =
      let s = Beside-middle d out in
      let (dp, dq, apart) = Distinct-split p (e ∷ q) d in
      let (l, r) = Chain-split nx pv null p (e ∷ q) null h in
      Chain-join nx' pv' null p q null
        (Chain-new_end nx pv nx' pv' null p e (head_or q null) (s.end_p, dp) (λ x m ne. n x ne)
          (λ x m. v x (p_ne_head null p q e s x m)) fwd back l)
        (Chain-new_start nx pv nx' pv' e q null (last_or p null) dq.1 s.end_q
          (λ x m. n x (q_ne_last null p q e s x m)) (λ x m ne. v x ne) fwd back r.2)

-- The list with `e` at its front.
pub Chain-front :
    (c c' : LruCache) (e h : ℕ) (xs : List ℕ)
    → Distinct xs
    → has null xs ≡ false
    → has e xs ≡ false
    → e ≢ null
    → head_or xs null ≡ h
    → Fronted c c' e h
    → Chain (nx c) (pv c) null xs null
    → Chain (nx c') (pv c') null (e ∷ xs) null
Chain-front c c' e h xs d out new ne at f chain = (
  f.first,
  f.front,
  Chain-new_start (nx c) (pv c) (nx c') (pv c') null xs null e d out
      (λ x m. f.nx_same x (ne-has x e xs m new) (ne-has x null xs m out))
      (λ x m other.
        f.pv_same x (let k : has e (null ∷ xs) ≡ false = ground arith in ne-has x e (null ∷ xs) m k)
          (λ s. other (s ∙ sym at)))
      (f.fwd ∙ sym at) (ap (pv c') at ∙ f.back) chain,
)

-- A pointer that is a member with the id `i`.
abbrev Named : LruCache → List ℕ → ℕ → ℕ → Type 0
Named c ys i v = (has v ys ≡ true) × ((c.mem v).id ≡ i)

same_pointer :
    (c : LruCache) (ys : List ℕ) (i v w : ℕ)
    → v ≡ w
    → has w ys ≡ true
    → (c.mem w).id ≡ i
    → Named c ys i v
same_pointer c ys i v w e m id = (ap (λ x. has x ys) e ∙ m, ap (λ x. (c.mem x).id) e ∙ id)

module _ (c : LruCache) (p : List ℕ) (e : ℕ) (q : List ℕ) (h : IsLru c (p ++ (e ∷ q))) where
  pub is_member : has e (p ++ (e ∷ q)) ≡ true
  is_member = ground (arith, has-middle p e q e)

  pub stays : (x : ℕ) → has x (p ++ q) ≡ true → has x (p ++ (e ∷ q)) ≡ true
  stays x m = ground (arith, has-middle p e q x)

  other : (x : ℕ) → has x (p ++ q) ≡ true → x ≢ e
  other x m = ne-has x e (p ++ q) m (Distinct-middle p e q h.distinct).1

  -- The ids of the others are other ids.
  other_id : (x : ℕ) → has x (p ++ q) ≡ true → (c.mem x).id ≢ (c.mem e).id
  other_id x m same = other x m (sym (h.held x (stays x m)) ∙ ap c.items same ∙ h.held e is_member)

  -- The list without `e`, when its slot is empty and the size is one less.
  pub leaves-IsLru :
      (c' : LruCache)
      → Unlinked c (last_or p null) (head_or q null) c'
      → IsLru (shrink (record c' { items = update c'.items (c'.mem e).id null })) (p ++ q)
  leaves-IsLru c' (r, k) =
      let long = length-middle p e q in
      let ids = r.ids in
      record {
        chain =
            Chain-remove p e q (nx c) (pv c) (nx c') (pv c') h.distinct h.no_null r.fwd r.back
              r.nx_same r.pv_same h.chain;
        distinct = (Distinct-middle p e q h.distinct).0;
        no_null = ground (arith, has-middle p e q null, h.no_null);
        size = omega (arith, k.size, h.size, long, h.bound, h.small);
        bound = omega (arith, k.capacity, h.bound, long);
        small = omega (arith, k.capacity, h.small);
        fits = λ x m. omega (arith, h.fits x (stays x m), ids x);
        held = λ x m.
            let ne = other_id x m in
            let t : ((c'.mem x).id == (c'.mem e).id) ≡ false = ground (arith, ids x, ids e) in
            rw t (ap (λ f. f (c'.mem x).id) k.items ∙ ap c.items (ids x) ∙ h.held x (stays x m));
        named = λ i slot. elim (ℕ_discrete i (c'.mem e).id) [
          | yes at ↦ let t : (i == (c'.mem e).id) ≡ true = ground arith in absurd (slot (rw t refl))
          | no ne ↦
              let t : (i == (c'.mem e).id) ≡ false = ground arith in
              let here : update c'.items (c'.mem e).id null i ≡ c.items i =
                rw t (ap (λ f. f i) k.items) in
              let (inside, id) = h.named i (λ z. slot (here ∙ z)) in
              let out : c.items i ≢ e = λ s. ne (sym id ∙ ap (λ x. (c.mem x).id) s ∙ sym (ids e)) in
              same_pointer c' (p ++ q) i _ (c.items i) here
                (ground (arith, has-middle p e q (c.items i))) (ids (c.items i) ∙ id)
        ];
      }

  -- The list with `e` at its front.
  pub moves-IsLru :
      (c1 c2 : LruCache)
      → Unlinked c (last_or p null) (head_or q null) c1
      → Fronted c1 c2 e (head_or (p ++ q) null) × Kept c1 c2
      → IsLru c2 (e ∷ (p ++ q))
  moves-IsLru c1 c2 (r, k) (f, k2) =
      let long = length-middle p e q in
      let (d, new) = Distinct-middle p e q h.distinct in
      let out : has null (p ++ q) ≡ false = ground (arith, has-middle p e q null, h.no_null) in
      let apart : e ≢ null = ne-has e null (p ++ (e ∷ q)) is_member h.no_null in
      let chain =
        Chain-remove p e q (nx c) (pv c) (nx c1) (pv c1) h.distinct h.no_null r.fwd r.back r.nx_same
          r.pv_same h.chain in
      let within : (x : ℕ) → has x (e ∷ (p ++ q)) ≡ true → has x (p ++ (e ∷ q)) ≡ true =
        λ x m. ground (arith, has-middle p e q x) in
      let ids : (x : ℕ) → (c2.mem x).id ≡ (c.mem x).id = λ x. f.ids x ∙ r.ids x in
      let items : c2.items ≡ c.items = k2.items ∙ k.items in
      record {
        chain = Chain-front c1 c2 e (head_or (p ++ q) null) (p ++ q) d out new apart refl f chain;
        distinct = (new, d);
        no_null = ground arith;
        size = omega (arith, k2.size, k.size, h.size, long);
        bound = omega (arith, k2.capacity, k.capacity, h.bound, long);
        small = omega (arith, k2.capacity, k.capacity, h.small);
        fits = λ x m. omega (arith, h.fits x (within x m), ids x);
        held = λ x m. ap (λ f. f (c2.mem x).id) items ∙ ap c.items (ids x) ∙ h.held x (within x m);
        named = λ i slot.
            let here : c2.items i ≡ c.items i = ap (λ f. f i) items in
            let (inside, id) = h.named i (λ z. slot (here ∙ z)) in
            same_pointer c2 (e ∷ (p ++ q)) i _ (c.items i) here
              (ground (arith, has-middle p e q (c.items i))) (ids (c.items i) ∙ id);
      }

-- A new item comes to the front of a list that is not at its capacity. No member has its id, and its slot
-- is within the array.
pub record IsNew (c : LruCache) (xs : List ℕ) (e : ℕ) : Type 0 where
  pub not_null : e ≢ null
  pub slot : (c.mem e).id < max_capacity
  pub no_id : (x : ℕ) → has x xs ≡ true → (c.mem x).id ≢ (c.mem e).id

pub comes-IsLru :
    (c c' : LruCache) (e : ℕ) (xs : List ℕ)
    → IsLru c xs
    → IsNew c xs e
    → length xs < c.capacity
    → Fronted c c' e (head_or xs null)
    → Kept c c'
    → IsLru
        (record c' { items = update c'.items (c.mem e).id e; size = u32 (c'.size + 1) })
        (e ∷ xs)
comes-IsLru c c' e xs h new room f k =
    let fresh : has e xs ≡ false = elim (Bool-cases (has e xs)) [
      | inl m ↦ absurd (new.no_id e m refl)
      | inr m ↦ m
    ] in
    let ids = f.ids in
    record {
      chain =
          Chain-front c c' e (head_or xs null) xs h.distinct h.no_null fresh new.not_null refl f
            h.chain;
      distinct = (fresh, h.distinct);
      no_null = let ne = new.not_null in ground (arith, h.no_null);
      size = omega (arith, k.size, h.size, h.bound, h.small, room);
      bound = omega (arith, k.capacity, room);
      small = omega (arith, k.capacity, h.small);
      fits = λ x m. elim (ℕ_discrete x e) [
        | yes at ↦ omega (arith, ids x, ap (λ y. (c.mem y).id) at, new.slot)
        | no ne ↦ omega (arith, ids x, h.fits x (ground arith))
      ];
      held = λ x m. elim (ℕ_discrete x e) [
        | yes at ↦
            let t : ((c'.mem x).id == (c.mem e).id) ≡ true =
              let same = ids x ∙ ap (λ y. (c.mem y).id) at in ground arith in
            rw t (sym at)
        | no ne ↦
            let m' : has x xs ≡ true = ground arith in
            let t : ((c'.mem x).id == (c.mem e).id) ≡ false =
              let apart = new.no_id x m' in ground (arith, ids x) in
            rw t (ap (λ f. f (c'.mem x).id) k.items ∙ ap c.items (ids x) ∙ h.held x m')
      ];
      named = λ i slot. elim (ℕ_discrete i (c.mem e).id) [
        | yes at ↦
            let t : (i == (c.mem e).id) ≡ true = ground arith in
            same_pointer c' (e ∷ xs) i _ e (rw t refl) (ground arith) (ids e ∙ sym at)
        | no ne ↦
            let t : (i == (c.mem e).id) ≡ false = ground arith in
            let here : update c'.items (c.mem e).id e i ≡ c.items i =
              rw t (ap (λ f. f i) k.items) in
            let (inside, id) = h.named i (λ z. slot (here ∙ z)) in
            same_pointer c' (e ∷ xs) i _ (c.items i) here (ground arith) (ids (c.items i) ∙ id)
      ];
    }
