-- ===== src/Twolevel/Sorting.antt =====
-- A sort that does what twolevel.c relies on: insertion sort.
use virtkv.Twolevel.{LeafEntry}
use virtkv.Twolevel.Reload.{count_of}
use virtkv.Twolevel.Pairs.{In, Distinct}
use virtkv.Twolevel.Sort.{Rises, IsSort}
use virtkv.Common.{
  ℕ, List, [], ◌∷◌, inl, inr, ◌≡◌, ltb, if◌then◌else◌, suc, arith, refl, ap, ◌∙◌, Bool-cases,
}

put_in : LeafEntry → List LeafEntry → List LeafEntry
put_in e [] = e ∷ []
put_in e (x ∷ xs) = let rest = put_in e xs in if ltb e.0 x.0 then e ∷ (x ∷ xs) else x ∷ rest

pub sorted_by_key : List LeafEntry → List LeafEntry
unfolding put_in
sorted_by_key [] = []
sorted_by_key (x ∷ xs) = put_in x (sorted_by_key xs)

put_in-In : (e : LeafEntry) (xs : List LeafEntry) (k v : ℕ) → In (e ∷ xs) k v → In (put_in e xs) k v
unfolding put_in
put_in-In e [] k v h = h
put_in-In e (x ∷ xs) k v h = elim (Bool-cases (ltb e.0 x.0)) [
  | inl first ↦ rw first h
  | inr behind ↦ rw behind (elim h [
    | inl new ↦ inr (put_in-In e xs k v (inl new))
    | inr (inl here) ↦ inl here
    | inr (inr later) ↦ inr (put_in-In e xs k v (inr later))
  ])
]

In-put_in : (e : LeafEntry) (xs : List LeafEntry) (k v : ℕ) → In (put_in e xs) k v → In (e ∷ xs) k v
unfolding put_in
In-put_in e [] k v h = h
In-put_in e (x ∷ xs) k v h = elim (Bool-cases (ltb e.0 x.0)) [
  | inl first ↦ rw first at h
  | inr behind ↦ elim (rw behind at h) [
    | inl here ↦ inr (inl here)
    | inr later ↦ elim (In-put_in e xs k v later) [ inl new ↦ inl new | inr old ↦ inr (inr old) ]
  ]
]

put_in-count : (e : LeafEntry) (xs : List LeafEntry) → count_of (put_in e xs) ≡ suc (count_of xs)
unfolding put_in
put_in-count e [] = refl
put_in-count e (x ∷ xs) = elim (Bool-cases (ltb e.0 x.0)) [
  | inl first ↦ rw first refl
  | inr behind ↦ rw behind (ap suc (put_in-count e xs))
]

put_in-Rises :
    (e : LeafEntry) (xs : List LeafEntry)
    → Rises xs
    → ((v : ℕ) → In xs e.0 v → ⊥)
    → Rises (put_in e xs)
unfolding put_in
put_in-Rises e [] rises new = ((λ k v h. absurd h), tt)
put_in-Rises e (x ∷ xs) (above, rises) new = elim (Bool-cases (ltb e.0 x.0)) [
  | inl first ↦ rw first (
    λ k v h. elim h [
      | inl (same, _) ↦ ground (arith, first, same)
      | inr later ↦ let a = above k v later in ground (arith, first, a)
    ],
    (above, rises),
  )
  | inr behind ↦ rw behind (
    λ k v h. elim (In-put_in e xs k v h) [
      | inl (same, _) ↦
          let apart : x.0 ≡ e.0 → ⊥ = λ f. new x.1 (inl (f, refl)) in
          ground (arith, behind, same, apart)
      | inr old ↦ above k v old
    ],
    put_in-Rises e xs rises (λ v h. new v (inr h)),
  )
]

sorted-In : (xs : List LeafEntry) (k v : ℕ) → In xs k v → In (sorted_by_key xs) k v
unfolding sorted_by_key
sorted-In [] k v h = h
sorted-In (x ∷ xs) k v (inl h) = put_in-In x (sorted_by_key xs) k v (inl h)
sorted-In (x ∷ xs) k v (inr h) = put_in-In x (sorted_by_key xs) k v (inr (sorted-In xs k v h))

In-sorted : (xs : List LeafEntry) (k v : ℕ) → In (sorted_by_key xs) k v → In xs k v
unfolding sorted_by_key
In-sorted [] k v h = h
In-sorted (x ∷ xs) k v h = elim (In-put_in x (sorted_by_key xs) k v h) [
  | inl new ↦ inl new
  | inr old ↦ inr (In-sorted xs k v old)
]

sorted-count : (xs : List LeafEntry) → count_of (sorted_by_key xs) ≡ count_of xs
unfolding sorted_by_key
sorted-count [] = refl
sorted-count (x ∷ xs) = put_in-count x (sorted_by_key xs) ∙ ap suc (sorted-count xs)

sorted-Rises : (xs : List LeafEntry) → Distinct xs → Rises (sorted_by_key xs)
unfolding sorted_by_key
sorted-Rises [] distinct = tt
sorted-Rises (x ∷ xs) (new, distinct) =
    put_in-Rises x (sorted_by_key xs) (sorted-Rises xs distinct)
      (λ v h. new v (In-sorted xs x.0 v h))

pub sorted_by_key-IsSort : IsSort sorted_by_key
sorted_by_key-IsSort = record {
  kept = sorted-In;
  no_others = In-sorted;
  count = sorted-count;
  ordered = sorted-Rises;
}
