-- ===== src/Twolevel/Insert.antt =====
-- A table after a pair went into a leaf with room (twolevel_insert without a position, nvmevirt/twolevel.c).
use virtkv.Twolevel.{Table, Leaf, fill_slot, in_leaf, uint_max}
use virtkv.Twolevel.Find.{IsLeaf, IsTable}
use virtkv.Twolevel.Change.{update-here, update-away}
use virtkv.Common.{
  ℕ, ◌⊎◌, ◌+◌, ◌-◌, ◌≡◌, ◌≢◌, ◌≤◌, ◌<◌, ◌==◌, ◌&&◌, ◌||◌, not, zero, suc, leb, if◌then◌else◌, arith,
  Bool-cases, inl, inr, refl, sym, ◌∙◌, ℕ_discrete, update,
}

-- The slot `s` is the first one that is free from the slot `j` on.
abbrev pub IsFirst : Leaf → (j s : ℕ) → Type 0
IsFirst l j s = (l.hidx s ≡ uint_max) × ((m : ℕ) → j ≤ m → m < s → l.hidx m ≢ uint_max)

abbrev pub with_pair : Leaf → (hidx ppa s : ℕ) → Leaf
with_pair l hidx ppa s = record { hidx = update l.hidx s hidx; ppa = update l.ppa s ppa }

pub fill_slot-IsFirst :
    (l : Leaf) (hidx ppa n j e : ℕ)
    → j ≤ e
    → e < j + n
    → l.hidx e ≡ uint_max
    → (s : ℕ) × (s ≤ e) × (fill_slot l hidx ppa n j ≡ with_pair l hidx ppa s) × IsFirst l j s
unfolding fill_slot
fill_slot-IsFirst l hidx ppa zero j e from to free = absurd (omega (arith, from, to))
fill_slot-IsFirst l hidx ppa (suc n) j e from to free = elim (Bool-cases (l.hidx j == uint_max)) [
  | inl here ↦ (j, from, rw here refl, (ground arith, λ m h k. absurd (omega (arith, h, k))))
  | inr used ↦
      let (s, bound, filled, (first, before)) =
        fill_slot-IsFirst l hidx ppa n (suc j) e (ground arith) (ground arith) free in
      (
        s,
        bound,
        rw used filled,
        (
          first,
          λ m h k. elim (ℕ_discrete m j) [
            | yes same ↦ ground arith
            | no other ↦ before m (ground arith) k
          ],
        ),
      )
]

-- The leaf with a new key in its first free slot.
pub with_pair-IsLeaf :
    (l : Leaf) (hidx ppa s : ℕ)
    → IsLeaf l
    → IsFirst l 0 s
    → hidx ≢ uint_max
    → ((m : ℕ) → m < in_leaf → l.hidx m ≢ hidx)
    → IsLeaf (with_pair l hidx ppa s)
with_pair-IsLeaf l hidx ppa s is_leaf (free, before) key new j m order slots used =
    let here = update-here l.hidx s hidx in
    let away = update-away l.hidx s hidx in
    let new_j = new j (omega (arith, order, slots)) in
    elim (ℕ_discrete m s) [
      | yes at_s ↦
          let key_j = away j (omega (arith, order, at_s)) in
          let key_m : update l.hidx s hidx m ≡ hidx = rw at_s here in
          let b = before j (omega arith) (omega (arith, order, at_s)) in
          (λ e. b (sym key_j ∙ e), λ e. new_j (sym key_j ∙ e ∙ key_m))
      | no other ↦
          let key_m = away m other in
          let old = is_leaf j m order slots (λ e. used (key_m ∙ e)) in
          elim (ℕ_discrete j s) [
            | yes at_s ↦
                let key_j : update l.hidx s hidx j ≡ hidx = rw at_s here in
                (λ e. key (sym key_j ∙ e), λ e. new m slots (sym key_m ∙ sym e ∙ key_j))
            | no apart ↦
                let key_j = away j apart in
                (λ e. old.0 (sym key_j ∙ e), λ e. old.1 (sym key_j ∙ e ∙ key_m))
          ]
    ]

module _ (t : Table) (n hidx ppa i s : ℕ) where
  abbrev pub raised : ℕ → ℕ
  raised =
      let raise = not (i == t.cnt - 1) && (leb (t.entries i) hidx || t.entries i == uint_max) in
      if raise then update t.entries i hidx else t.entries

  abbrev pub inserted : Table
  inserted = record {
    cnt = t.cnt;
    entries = raised;
    leaves = update t.leaves i (with_pair (t.leaves i) hidx ppa s);
    cached_cnt = n;
  }

  -- The root key of the leaf changes to the new key, or all of them stay.
  pub raised-cases :
      (((h : ℕ) → raised h ≡ t.entries h)
        × ((i ≡ t.cnt - 1) ⊎ ((hidx < t.entries i) × (t.entries i ≢ uint_max))))
      ⊎ ((raised i ≡ hidx)
          × ((h : ℕ) → h ≢ i → raised h ≡ t.entries h)
          × (i ≢ t.cnt - 1)
          × ((t.entries i ≤ hidx) ⊎ (t.entries i ≡ uint_max)))
  raised-cases =
      elim (Bool-cases
        (not (i == t.cnt - 1) && (leb (t.entries i) hidx || t.entries i == uint_max))) [
          | inl yes_raise ↦ inr (
            rw yes_raise (update-here t.entries i hidx),
            λ h away. rw yes_raise (update-away t.entries i hidx h away),
            (λ e. ground (arith, yes_raise, e)),
            elim (ℕ_discrete (t.entries i) uint_max) [
              | yes unset ↦ inr unset
              | no set ↦ inl (ground (arith, yes_raise, set))
            ],
          )
          | inr not_raise ↦ inl (
            λ h. rw not_raise refl,
            elim (ℕ_discrete i (t.cnt - 1)) [
              | yes last ↦ inl last
              | no other ↦
                  inr (ground (arith, not_raise, other), λ e. ground (arith, not_raise, other, e))
            ],
          )
        ]

  module _ (valid : IsTable t) (inside : i < t.cnt) (bound : hidx ≤ t.entries i)
      (key : hidx ≢ uint_max) where
    pub raised-last : i ≡ t.cnt - 1 → raised i ≡ t.entries i
    raised-last last = elim raised-cases [
      | inl (same, _) ↦ same i
      | inr (_, _, not_last, _) ↦ absurd (not_last last)
    ]

    pub raised-away : (h : ℕ) → h ≢ i → raised h ≡ t.entries h
    raised-away h away = elim raised-cases [
      | inl (same, _) ↦ same h
      | inr (_, same, _, _) ↦ same h away
    ]

    pub raised-between : (hidx ≤ raised i) × (raised i ≤ t.entries i)
    raised-between = elim raised-cases [
      | inl (same, _) ↦ rw (same i) (bound, omega arith)
      | inr (new, _, _, _) ↦ rw new (omega arith, bound)
    ]

    pub raised-set : suc i < t.cnt → raised i ≢ uint_max
    raised-set more e = elim raised-cases [
      | inl (same, inl last) ↦ ground arith
      | inl (same, inr (_, set)) ↦ set (sym (same i) ∙ e)
      | inr (new, _, _, _) ↦ key (sym new ∙ e)
    ]

    pub raised-key :
        (m : ℕ) → m < in_leaf → (t.leaves i).hidx m ≢ uint_max → (t.leaves i).hidx m ≤ raised i
    raised-key m slots used =
        let up = valid.upper i m inside slots used in
        elim raised-cases [
          | inl (same, _) ↦ rw (same i) up
          | inr (new, _, _, inl low) ↦ rw new (omega (arith, up, low))
          | inr (new, _, not_last, inr unset) ↦
              absurd (used (valid.unset i m (omega (arith, inside, not_last)) unset slots))
        ]
