-- ===== src/Twolevel/Pairs.antt =====
-- The pairs that twolevel_reload of nvmevirt/twolevel.c collects are those that the table has.
use virtkv.Twolevel.{Table, Leaf, LeafEntry, in_leaf, uint_max}
use virtkv.Twolevel.Reload.{count_of, key_at, leaf_pairs, all_pairs}
use virtkv.Twolevel.Dealt.{ppa_at}
use virtkv.Twolevel.Find.{IsLeaf, IsTable, Stands}
use virtkv.Common.{
  ℕ, List, [], ◌∷◌, ◌++◌, ◌+◌, ◌≡◌, ◌≢◌, ◌≤◌, ◌<◌, ◌==◌, ◌⊎◌, zero, suc, arith, Bool-cases, inl,
  inr, false, refl, sym, ap, ◌∙◌, ℕ_discrete,
}

-- The list has the key with the ppa.
abbrev pub In : List LeafEntry → (hidx ppa : ℕ) → Type 0
In [] hidx ppa = ⊥
In (x ∷ xs) hidx ppa = ((x.0 ≡ hidx) × (x.1 ≡ ppa)) ⊎ In xs hidx ppa

pub In-at :
    (xs : List LeafEntry) (hidx ppa : ℕ)
    → In xs hidx ppa
    → (p : ℕ) × (p < count_of xs) × (key_at xs p ≡ hidx) × (ppa_at xs p ≡ ppa)
In-at [] hidx ppa h = absurd h
In-at (x ∷ xs) hidx ppa (inl (k, v)) = (0, omega arith, k, v)
In-at (x ∷ xs) hidx ppa (inr h) =
    let (p, there, k, v) = In-at xs hidx ppa h in (suc p, omega (arith, there), k, v)

pub at-In : (xs : List LeafEntry) (p : ℕ) → p < count_of xs → In xs (key_at xs p) (ppa_at xs p)
at-In [] p there = absurd (omega (arith, there))
at-In (x ∷ xs) zero there = inl (refl, refl)
at-In (x ∷ xs) (suc p) there = inr (at-In xs p (omega (arith, there)))

module _ (hidx ppa : ℕ) where
  pub In-left : (xs ys : List LeafEntry) → In xs hidx ppa → In (xs ++ ys) hidx ppa
  In-left [] ys h = absurd h
  In-left (x ∷ xs) ys (inl h) = inl h
  In-left (x ∷ xs) ys (inr h) = inr (In-left xs ys h)

  pub In-right : (xs ys : List LeafEntry) → In ys hidx ppa → In (xs ++ ys) hidx ppa
  In-right [] ys h = h
  In-right (x ∷ xs) ys h = inr (In-right xs ys h)

  pub In-append :
      (xs ys : List LeafEntry) → In (xs ++ ys) hidx ppa → In xs hidx ppa ⊎ In ys hidx ppa
  In-append [] ys h = inr h
  In-append (x ∷ xs) ys (inl h) = inl (inl h)
  In-append (x ∷ xs) ys (inr h) = elim (In-append xs ys h) [ inl a ↦ inl (inr a) | inr b ↦ inr b ]

  leaf_pairs-In :
      (l : Leaf) (n j m : ℕ)
      → hidx ≢ uint_max
      → IsLeaf l
      → j ≤ m
      → m < j + n
      → m < in_leaf
      → l.hidx m ≡ hidx
      → l.ppa m ≡ ppa
      → In (leaf_pairs l n j) hidx ppa
  unfolding leaf_pairs
  leaf_pairs-In l zero j m used is_leaf from to slots k v = absurd (omega (arith, from, to))
  leaf_pairs-In l (suc n) j m used is_leaf from to slots k v = elim (ℕ_discrete j m) [
    | yes same ↦
        let here : (l.hidx j == uint_max) ≡ false = ground (arith, same, k, used) in
        rw here (inl (ap l.hidx same ∙ k, ap l.ppa same ∙ v))
    | no apart ↦
        let before = (is_leaf j m (omega (arith, from, apart)) slots (λ e. used (sym k ∙ e))).0 in
        let here : (l.hidx j == uint_max) ≡ false = ground (arith, before) in
        rw here (
          inr (
            leaf_pairs-In l n (suc j) m used is_leaf (omega (arith, from, apart))
              (omega (arith, to)) slots k v))
  ]

  In-leaf_pairs :
      (l : Leaf) (n j : ℕ)
      → In (leaf_pairs l n j) hidx ppa
      → (m : ℕ) × (j ≤ m) × (m < j + n) × (l.hidx m ≡ hidx) × (l.ppa m ≡ ppa) × (hidx ≢ uint_max)
  unfolding leaf_pairs
  In-leaf_pairs l zero j h = absurd h
  In-leaf_pairs l (suc n) j h = elim (Bool-cases (l.hidx j == uint_max)) [
    | inl free ↦ absurd (rw free at h)
    | inr used ↦ elim (rw used at h) [
      | inl (k, v) ↦ (j, omega arith, omega arith, k, v, λ e. ground (arith, used, k, e))
      | inr later ↦
          let (m, from, to, k, v, u) = In-leaf_pairs l n (suc j) later in
          (m, omega (arith, from), omega (arith, to), k, v, u)
    ]
  ]

  all_pairs-In :
      (leaves : ℕ → Leaf) (n i h : ℕ)
      → i ≤ h
      → h < i + n
      → In (leaf_pairs (leaves h) in_leaf 0) hidx ppa
      → In (all_pairs leaves n i) hidx ppa
  unfolding all_pairs
  all_pairs-In leaves zero i h from to here = absurd (omega (arith, from, to))
  all_pairs-In leaves (suc n) i h from to here = elim (ℕ_discrete h i) [
    | yes same ↦
        In-left (leaf_pairs (leaves i) in_leaf 0) (all_pairs leaves n (suc i)) (rw same at here)
    | no apart ↦
        In-right (leaf_pairs (leaves i) in_leaf 0) (all_pairs leaves n (suc i))
          (all_pairs-In leaves n (suc i) h (omega (arith, from, apart)) (omega (arith, to)) here)
  ]

  In-all_pairs :
      (leaves : ℕ → Leaf) (n i : ℕ)
      → In (all_pairs leaves n i) hidx ppa
      → (h : ℕ) × (i ≤ h) × (h < i + n) × In (leaf_pairs (leaves h) in_leaf 0) hidx ppa
  unfolding all_pairs
  In-all_pairs leaves zero i there = absurd there
  In-all_pairs leaves (suc n) i there =
      elim (In-append (leaf_pairs (leaves i) in_leaf 0) (all_pairs leaves n (suc i)) there) [
        | inl here ↦ (i, omega arith, omega arith, here)
        | inr later ↦
            let (h, from, to, here) = In-all_pairs leaves n (suc i) later in
            (h, omega (arith, from), omega (arith, to), here)
      ]

  -- The pairs that are collected from a valid table are those that stand in it.
  pub all_pairs-Stands :
      (t : Table) (i j : ℕ)
      → IsTable t
      → hidx ≢ uint_max
      → Stands t hidx i j
      → (t.leaves i).ppa j ≡ ppa
      → In (all_pairs t.leaves t.cnt 0) hidx ppa
  all_pairs-Stands t i j valid used (inside, slots, here) v =
      all_pairs-In t.leaves t.cnt 0 i (omega arith) (omega (arith, inside)) (
        leaf_pairs-In (t.leaves i) in_leaf 0 j used (valid.leaf i inside) (omega arith)
          (omega (arith, slots)) slots here v)

  pub Stands-all_pairs :
      (t : Table)
      → In (all_pairs t.leaves t.cnt 0) hidx ppa
      → (i j : ℕ) × Stands t hidx i j × ((t.leaves i).ppa j ≡ ppa) × (hidx ≢ uint_max)
  Stands-all_pairs t there =
      let (i, _, inside, here) = In-all_pairs t.leaves t.cnt 0 there in
      let (j, _, slots, k, v, used) = In-leaf_pairs (t.leaves i) in_leaf 0 here in
      (i, j, (omega (arith, inside), omega (arith, slots), k), v, used)

-- No key stands twice.
abbrev pub Distinct : List LeafEntry → Type 0
Distinct [] = Unit {0}
Distinct (x ∷ xs) = ((ppa : ℕ) → In xs x.0 ppa → ⊥) × Distinct xs

pub Distinct-append :
    (xs ys : List LeafEntry)
    → Distinct xs
    → Distinct ys
    → ((hidx v w : ℕ) → In xs hidx v → In ys hidx w → ⊥)
    → Distinct (xs ++ ys)
Distinct-append [] ys dx dy apart = dy
Distinct-append (x ∷ xs) ys (new, dx) dy apart = (
  λ v h. elim (In-append x.0 v xs ys h) [
    | inl a ↦ new v a
    | inr b ↦ apart x.0 x.1 v (inl (refl, refl)) b
  ],
  Distinct-append xs ys dx dy (λ k v w a b. apart k v w (inr a) b),
)

leaf_pairs-Distinct :
    (l : Leaf) (n j : ℕ) → IsLeaf l → j + n ≤ in_leaf → Distinct (leaf_pairs l n j)
unfolding leaf_pairs
leaf_pairs-Distinct l zero j is_leaf bound = tt
leaf_pairs-Distinct l (suc n) j is_leaf bound = elim (Bool-cases (l.hidx j == uint_max)) [
  | inl free ↦ rw free tt
  | inr used ↦ rw used (
    λ v h.
        let (m, from, to, k, _, u) = In-leaf_pairs (l.hidx j) v l n (suc j) h in
        (is_leaf j m (omega (arith, from)) (omega (arith, to, bound)) (λ e. u (sym k ∙ e))).1
          (sym k),
    leaf_pairs-Distinct l n (suc j) is_leaf (omega (arith, bound)),
  )
]

pub all_pairs-Distinct :
    (t : Table) (n i : ℕ) → IsTable t → i + n ≤ t.cnt → Distinct (all_pairs t.leaves n i)
unfolding all_pairs
all_pairs-Distinct t zero i valid bound = tt
all_pairs-Distinct t (suc n) i valid bound =
    let inside : i < t.cnt = omega (arith, bound) in
    Distinct-append (leaf_pairs (t.leaves i) in_leaf 0) (all_pairs t.leaves n (suc i))
      (leaf_pairs-Distinct (t.leaves i) in_leaf 0 (valid.leaf i inside) (omega arith))
      (all_pairs-Distinct t n (suc i) valid (omega (arith, bound)))
      (λ k v w a b.
        let (j, _, slots, k_here, _, used) = In-leaf_pairs k v (t.leaves i) in_leaf 0 a in
        let (h, from, to, b_here) = In-all_pairs k w t.leaves n (suc i) b in
        let (m, _, slots_m, k_there, _, _) = In-leaf_pairs k w (t.leaves h) in_leaf 0 b_here in
        let up = valid.upper i j inside (omega (arith, slots)) (λ e. used (sym k_here ∙ e)) in
        let low =
          valid.lower i h m (omega (arith, from)) (omega (arith, to, bound))
            (omega (arith, slots_m)) (λ e. used (sym k_there ∙ e)) in
        absurd (omega (arith, up, low, k_here, k_there)))
