-- ===== src/Twolevel/Dealt.antt =====
-- The loop of twolevel_bulk_insert of nvmevirt/twolevel.c: sorted pairs are dealt out to the leaves.
use virtkv.Twolevel.{Table, Leaf, LeafEntry, in_leaf, uint_max, set_leaf}
use virtkv.Twolevel.Reload.{count_of, key_at, bulk_loop}
use virtkv.Twolevel.Change.{at_update, update-here, update-away}
use virtkv.Common.{
  ℕ, List, [], ◌∷◌, ◌+◌, ◌-◌, ◌≡◌, ◌≢◌, ◌≤◌, ◌<◌, ◌⊎◌, zero, suc, ltb, leb, arith, Bool-cases, inl,
  inr, true, refl, sym, ap, ◌∙◌, Returns, ℕ_discrete, update,
}

-- leaves[i].ppa
abbrev pub ppa_at : List LeafEntry → ℕ → ℕ
ppa_at [] i = 0
ppa_at (x ∷ xs) zero = x.1
ppa_at (x ∷ xs) (suc i) = ppa_at xs i

-- The pairs from the index `p` on.
abbrev pub IsRest : (es : List LeafEntry) (p : ℕ) (rest : List LeafEntry) → Type 0
IsRest es p rest =
    (p + count_of rest ≡ count_of es)
    × ((q : ℕ) → key_at rest q ≡ key_at es (p + q))
    × ((q : ℕ) → ppa_at rest q ≡ ppa_at es (p + q))

-- The keys rise, and are below UINT_MAX.
abbrev pub IsRising : List LeafEntry → Type 0
IsRising es =
    ((p : ℕ) → p < count_of es → key_at es p < uint_max)
    × ((p q : ℕ) → p < q → q < count_of es → key_at es p < key_at es q)

-- The pairs before `from (suc i)`, and not before `from i`, belong to the leaf `i` of `num`.
pub record IsDeal (es : List LeafEntry) (num : ℕ) (from : ℕ → ℕ) : Type 0 where
  pub start : from 0 ≡ 0
  pub end : from num ≡ count_of es
  pub rising : (h i : ℕ) → h ≤ i → from h ≤ from i
  pub width : (i : ℕ) → from (suc i) ≤ from i + in_leaf
  pub nonempty : (i : ℕ) → 0 < from (suc i)

-- The first `p` pairs stand in their leaves, and the other slots are free.
abbrev pub Dealt : List LeafEntry → (num : ℕ) → (ℕ → ℕ) → (leaves : ℕ → Leaf) → (p : ℕ) → Type 0
Dealt es num from leaves p =
    ((h j : ℕ)
      → h < num
      → from h + j < from (suc h)
      → from h + j < p
      → ((leaves h).hidx j ≡ key_at es (from h + j)) × ((leaves h).ppa j ≡ ppa_at es (from h + j)))
    × ((h j : ℕ)
        → h < num
        → j < in_leaf
        → (from (suc h) ≤ from h + j) ⊎ (p ≤ from h + j)
        → (leaves h).hidx j ≡ uint_max)

-- The root keys are those of the last pairs of the leaves.
abbrev pub AreRoots : List LeafEntry → (num : ℕ) → (from keys : ℕ → ℕ) → Type 0
AreRoots es num from keys =
    ((i : ℕ) → suc i < num → keys i ≡ key_at es (from (suc i) - 1))
    × ((i : ℕ) → suc i ≡ num → keys i ≡ uint_max)

-- Which leaf the pair `p` belongs to.
pub locate :
    (es : List LeafEntry) (num : ℕ) (from : ℕ → ℕ)
    → IsDeal es num from
    → (p k : ℕ) → p < from k
    → (i : ℕ) × (i < k) × (from i ≤ p) × (p < from (suc i))
locate es num from deal p zero below = absurd (omega (arith, below, deal.start))
locate es num from deal p (suc k) below = elim (Bool-cases (ltb p (from k))) [
  | inl before ↦
      let (i, inside, low, high) = locate es num from deal p k (ground (arith, before)) in
      (i, omega (arith, inside), low, high)
  | inr behind ↦ (k, omega arith, ground (arith, behind), below)
]

module _ (es : List LeafEntry) (num : ℕ) (from keys : ℕ → ℕ) (rising : IsRising es)
    (deal : IsDeal es num from) (roots : AreRoots es num from keys) where
  -- A pair is above the root key of a leaf if it comes behind its pairs, and only then.
  pub in_leaf-key : (i p : ℕ) → i < num → p < from (suc i) → p < count_of es → key_at es p ≤ keys i
  in_leaf-key i p inside before there = elim (ℕ_discrete (suc i) num) [
    | yes last ↦ rw (roots.1 i last) (let r = rising.0 p there in omega (arith, r))
    | no other ↦
        let more : suc i < num = omega (arith, inside, other) in
        let end = deal.rising (suc i) num inside in
        elim (ℕ_discrete p (from (suc i) - 1)) [
          | yes same ↦ rw (roots.0 i more, same) (omega arith)
          | no away ↦
              let r =
                rising.1 p (from (suc i) - 1) (omega (arith, before, away))
                  (omega (arith, before, end, deal.end)) in
              rw (roots.0 i more) (omega (arith, r))
        ]
  ]

  pub behind_leaf-key :
      (i p : ℕ) → suc i < num → from (suc i) ≤ p → p < count_of es → keys i < key_at es p
  behind_leaf-key i p more behind there =
      rw (roots.0 i more)
        (rising.1 (from (suc i) - 1) p (omega (arith, behind, deal.nonempty i)) there)

  pub root_below : (i : ℕ) → suc i < num → keys i < uint_max
  root_below i more =
      let end = deal.rising (suc i) num (omega (arith, more)) in
      let r = rising.0 (from (suc i) - 1) (omega (arith, deal.nonempty i, end, deal.end)) in
      rw (roots.0 i more) r

  pub roots-sorted : (i j : ℕ) → i < j → j < num → keys i ≤ keys j
  roots-sorted i j order inside =
      let more : suc i < num = omega (arith, order, inside) in
      elim (ℕ_discrete (suc j) num) [
        | yes last ↦ let b = root_below i more in rw (roots.1 j last) (omega (arith, b))
        | no other ↦
            let more_j : suc j < num = omega (arith, inside, other) in
            let up = deal.rising (suc i) (suc j) (omega (arith, order)) in
            let end = deal.rising (suc j) num inside in
            elim (ℕ_discrete (from (suc i)) (from (suc j))) [
              | yes same ↦ rw (roots.0 i more, roots.0 j more_j, same) (omega arith)
              | no apart ↦
                  let r =
                    rising.1 (from (suc i) - 1) (from (suc j) - 1)
                      (omega (arith, up, apart, deal.nonempty i))
                      (omega (arith, end, deal.end, deal.nonempty j)) in
                  rw (roots.0 i more, roots.0 j more_j) (omega (arith, r))
            ]
      ]

  -- Which leaf a pair belongs to is read from its root key.
  own_slot :
      (i p e : ℕ) → i < num → p < count_of es → e ≡ key_at es p → e ≤ keys i → p < from (suc i)
  own_slot i p e inside there same low = elim (ℕ_discrete (suc i) num) [
    | yes last ↦ omega (arith, there, deal.end, ap from last)
    | no other ↦ elim (Bool-cases (ltb p (from (suc i)))) [
      | inl before ↦ ground arith
      | inr behind ↦
          let high =
            behind_leaf-key i p (omega (arith, inside, other)) (ground (arith, behind)) there in
          absurd (omega (arith, high, same, low))
    ]
  ]

  next_leaf :
      (i p e : ℕ)
      → i < num
      → p < count_of es
      → p ≤ from (suc i)
      → e ≡ key_at es p
      → keys i < e
      → (suc i < num) × (from (suc i) ≡ p)
  next_leaf i p e inside there own same high =
      let range = rising.0 p there in
      (
        elim (ℕ_discrete (suc i) num) [
          | yes last ↦ absurd (omega (arith, roots.1 i last, high, same, range))
          | no other ↦ omega (arith, inside, other)
        ],
        elim (Bool-cases (ltb p (from (suc i)))) [
          | inl before ↦
              let low = in_leaf-key i p inside (ground (arith, before)) there in
              absurd (omega (arith, low, same, high))
          | inr behind ↦ ground (arith, behind, own)
        ],
      )

  still_out : {a b c : ℕ} → (a ≤ b) ⊎ (suc c ≤ b) → (a ≤ b) ⊎ (c ≤ b)
  still_out (inl h) = inl h
  still_out (inr h) = inr (omega (arith, h))

  unfoldable pub put_leaf : Leaf → ℕ → LeafEntry → Leaf
  put_leaf l idx e = record { hidx = update l.hidx idx e.0; ppa = update l.ppa idx e.1 }

  -- No other leaf has the pair that comes next.
  other_leaf :
      (h i j p : ℕ)
      → h ≢ i
      → from i ≤ p
      → p < from (suc i)
      → from h + j < from (suc h)
      → from h + j ≢ p
  other_leaf h i j p away low high own same = elim (Bool-cases (ltb h i)) [
    | inl below ↦
        let up = deal.rising (suc h) i (ground (arith, below)) in omega (arith, up, low, own, same)
    | inr above ↦
        let up = deal.rising (suc i) h (ground (arith, above, away)) in
        omega (arith, up, high, same)
  ]

  -- The next pair goes into the next slot.
  pub Dealt-put :
      (leaves : ℕ → Leaf) (i idx : ℕ) (e : LeafEntry)
      → i < num
      → from i + idx < from (suc i)
      → e.0 ≡ key_at es (from i + idx)
      → e.1 ≡ ppa_at es (from i + idx)
      → Dealt es num from leaves (from i + idx)
      → Dealt es num from (update leaves i (put_leaf (leaves i) idx e)) (suc (from i + idx))
  unfolding put_leaf
  Dealt-put leaves i idx e inside slots key ppa (used, free) = (
    λ h j h_in own below.
        at_update (λ l. (l.hidx j ≡ key_at es (from h + j)) × (l.ppa j ≡ ppa_at es (from h + j)))
          leaves i (put_leaf (leaves i) idx e) h
          (λ h_i. elim (ℕ_discrete j idx) [
            | yes j_idx ↦ (
              rw (h_i, j_idx) (update-here (leaves i).hidx idx e.0 ∙ key),
              rw (h_i, j_idx) (update-here (leaves i).ppa idx e.1 ∙ ppa),
            )
            | no j_away ↦
                let old = used h j h_in own (omega (arith, below, h_i, j_away, ap from h_i)) in
                (
                  update-away (leaves i).hidx idx e.0 j j_away ∙ rw (sym h_i) old.0,
                  update-away (leaves i).ppa idx e.1 j j_away ∙ rw (sym h_i) old.1,
                )
          ])
          (λ h_away. used h j h_in own (
            let o = other_leaf h i j (from i + idx) h_away (omega arith) slots own in
            omega (arith, below, o))),
    λ h j h_in j_in out.
        at_update (λ l. l.hidx j ≡ uint_max) leaves i (put_leaf (leaves i) idx e) h
          (λ h_i.
            let same : from h ≡ from i = ap from h_i in
            let same_end : from (suc h) ≡ from (suc i) = ap (λ x. from (suc x)) h_i in
            let j_away : j ≢ idx = λ f. elim out [
              | inl behind ↦ omega (arith, slots, same, same_end, behind, f)
              | inr above ↦ omega (arith, same, above, f)
            ] in
            update-away (leaves i).hidx idx e.0 j j_away
            ∙ rw (sym h_i) (free h j h_in j_in (still_out out)))
          (λ h_away. free h j h_in j_in (still_out out)),
  )

  pub bulk_loop-Dealt :
      (positive : (p : ℕ) → p < count_of es → 0 < key_at es p)
      (sort : List LeafEntry → List LeafEntry) (fuel : ℕ) (rest : List LeafEntry) (i idx : ℕ)
      (t : Table)
      → i < num
      → from i + idx ≤ from (suc i)
      → IsRest es (from i + idx) rest
      → count_of rest + (num - i) < fuel
      → Dealt es num from t.leaves (from i + idx)
      → Returns
          (λ t'.
            Dealt es num from t'.leaves (count_of es) × (t'.cnt ≡ t.cnt) × (t'.entries ≡ t.entries))
          (bulk_loop sort fuel keys rest i idx t)
  unfolding bulk_loop put_leaf
  bulk_loop-Dealt positive sort zero rest i idx t inside own is_rest fuel dealt =
      absurd (omega (arith, fuel))
  bulk_loop-Dealt positive sort (suc n) [] i idx t inside own (count, key, ppa) fuel dealt =
      let all : from i + idx ≡ count_of es = omega (arith, count) in
      (t, refl, (rw (sym all) dealt, refl, refl))
  bulk_loop-Dealt positive sort (suc n) (e ∷ rest) i idx t inside own (count, key, ppa) fuel dealt =
      let p = from i + idx in
      let there : p < count_of es = omega (arith, count) in
      let e_key : e.0 ≡ key_at es p = key 0 ∙ ap (key_at es) (omega arith) in
      let e_ppa : e.1 ≡ ppa_at es p = ppa 0 ∙ ap (ppa_at es) (omega arith) in
      elim (Bool-cases (leb e.0 (keys i))) [
        | inl here ↦
            let slots : p < from (suc i) =
              own_slot i p e.0 inside there e_key (ground (arith, here)) in
            let wide = deal.width i in
            let in_range = positive p there in
            let above_zero : ltb 0 e.0 ≡ true = ground (arith, e_key, in_range) in
            let fits : ltb idx in_leaf ≡ true = ground (arith, slots, wide) in
            let next : from i + suc idx ≡ suc p = omega arith in
            rw (here, above_zero, fits)
              (bulk_loop-Dealt positive sort n rest i (suc idx)
                (set_leaf t i (put_leaf (t.leaves i) idx e)) inside (omega (arith, slots))
                (
                  omega (arith, count),
                  λ q. key (suc q) ∙ ap (key_at es) (omega arith),
                  λ q. ppa (suc q) ∙ ap (ppa_at es) (omega arith),
                )
                (omega (arith, fuel))
                (rw next (Dealt-put t.leaves i idx e inside slots e_key e_ppa dealt)))
        | inr above ↦
            let (not_last, at_end) =
              next_leaf i p e.0 inside there own e_key (ground (arith, above)) in
            let start : from (suc i) + 0 ≡ p = omega (arith, at_end) in
            rw above (
              bulk_loop-Dealt positive sort n (e ∷ rest) (suc i) 0 t not_last
                (omega (arith, deal.rising (suc i) (suc (suc i)) (omega arith)))
                (rw start (count, key, ppa)) (omega (arith, fuel, inside)) (rw start dealt))
      ]
