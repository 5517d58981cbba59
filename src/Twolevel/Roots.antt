-- ===== src/Twolevel/Roots.antt =====
-- The root keys that __new_roots of nvmevirt/twolevel.c deals the pairs out by.
use virtkv.Twolevel.{LeafEntry, in_leaf, uint_max}
use virtkv.Twolevel.Reload.{count_of, key_at, new_roots_loop, new_roots}
use virtkv.Twolevel.Dealt.{IsDeal, AreRoots}
use native.Mathlib.Nat.{div-add-mod, mod-lt, mul-le-mul_left, mul-le-mul_right, zero-div, zero-mod}
use virtkv.Common.{
  Bool-cases, List, Returns, [], ap, arith, bug, false, if_Returns, if◌then◌else◌, inl, inr, leb,
  ltb, min, refl, suc, sym, then_Returns, true, update, zero, ℕ, ℕ_discrete, ◌%◌, ◌*◌, ◌+◌, ◌-◌,
  ◌/◌, ◌<◌, ◌==◌, ◌∙◌, ◌≡◌, ◌≢◌, ◌≤◌, ◌⊎◌,
}
use virtkv.Twolevel.Change.{update-here, update-away}

-- The pairs of the leaves before the leaf `i`: the first `extra` leaves have one more than `per`.
abbrev pub before_leaf : (per extra i : ℕ) → ℕ
before_leaf per extra i = i * per + min i extra

-- The root key of the leaf `i` of `num`.
abbrev pub root_key : List LeafEntry → (num per extra i : ℕ) → ℕ
root_key es num per extra i =
    if suc i == num then uint_max else key_at es (before_leaf per extra (suc i) - 1)

before_leaf-next :
    (per extra i : ℕ)
    → (if ltb 0 (extra - i)
        then before_leaf per extra i + per + 1
        else before_leaf per extra i + per)
      ≡ before_leaf per extra (suc i)
before_leaf-next per extra i = ground arith

before_leaf-some : (per extra i : ℕ) → 0 < per + extra → before_leaf per extra (suc i) ≢ 0
before_leaf-some per extra i some_keys e = ground arith

module _ (es : List LeafEntry) (num per extra : ℕ) (some_keys : 0 < per + extra) where
  -- The roots from `i` on have their keys, and those before are as they were.
  abbrev Rooted : (i : ℕ) (keys keys' : ℕ → ℕ) → Type 0
  Rooted i keys keys' =
      ((h : ℕ) → i ≤ h → h < num → keys' h ≡ root_key es num per extra h)
      × ((h : ℕ) → h < i → keys' h ≡ keys h)

  new_roots_loop-keys :
      (n i : ℕ) (keys : ℕ → ℕ)
      → i + n ≡ num
      → Returns
          (Rooted i keys)
          (new_roots_loop es n i (before_leaf per extra i) per (extra - i) keys)
  unfolding new_roots_loop
  new_roots_loop-keys zero i keys done =
      (keys, refl, (λ h from to. absurd (omega (arith, from, to, done)), λ h k. refl))
  new_roots_loop-keys (suc n) i keys done =
      let taken =
        (if ltb 0 (extra - i)
          then before_leaf per extra i + per + 1
          else before_leaf per extra i + per) in
      let next : taken ≡ before_leaf per extra (suc i) = before_leaf-next per extra i in
      let left : extra - i - 1 ≡ extra - suc i = omega arith in
      let at_last : (n == 0) ≡ (suc i == num) = ground arith in
      let some_taken = before_leaf-some per extra i some_keys in
      let (keys', returned, (from_i, before_i)) =
        new_roots_loop-keys n (suc i) (update keys i (root_key es num per extra i))
          (omega (arith, done)) in
      let whole : Returns (Rooted i keys) (
          new_roots_loop es n (suc i) (before_leaf per extra (suc i)) per (extra - suc i)
            (update keys i (root_key es num per extra i))) =
        (
          keys',
          returned,
          (
            (λ h from to. elim (ℕ_discrete h i) [
              | yes here ↦
                  rw here
                    (before_i i (omega arith) ∙ update-here keys i (root_key es num per extra i))
              | no away ↦ from_i h (omega (arith, from, away)) to
            ]),
            λ h k.
                before_i h (omega (arith, k))
                ∙ update-away keys i (root_key es num per extra i) h (omega (arith, k)),
          ),
        ) in
      rw (next, left, at_last)
        (if_Returns (suc i == num) (λ last. whole)
          (λ more. then_Returns (ltb 0 (before_leaf per extra (suc i))) (ground arith) whole))

-- A leaf gets no more pairs than it has slots.
share :
    (num n : ℕ)
    → 0 < num
    → n ≤ num * in_leaf
    → (n / num < in_leaf) ⊎ ((n / num ≡ in_leaf) × (n % num ≡ 0))
share num n positive few =
    let whole = div-add-mod n num in
    elim (Bool-cases (ltb (n / num) in_leaf)) [
      | inl less ↦ inl (ground arith)
      | inr not_less ↦
          let eight =
            mul-le-mul_left num (let h : in_leaf ≤ n / num = ground (arith, not_less) in h) in
          let not_nine : n / num < 9 = elim (Bool-cases (ltb (n / num) 9)) [
            | inl h ↦ ground arith
            | inr h ↦
                let nine = mul-le-mul_left num (let k : 9 ≤ n / num = ground (arith, h) in k) in
                absurd (omega (arith, nine, whole, few, positive))
          ] in
          inr (ground (arith, not_less, not_nine), omega (arith, eight, whole, few))
    ]

share-some : (num n : ℕ) → 0 < n → 0 < num → 0 < n / num + n % num
share-some num n some_keys some_leaves =
    let whole = div-add-mod n num in
    elim (ℕ_discrete (n / num) 0) [
      | yes no_share ↦
          let z : num * (n / num) ≡ 0 = rw no_share (omega arith) in
          omega (arith, whole, z, some_keys)
      | no h ↦ omega (arith, h)
    ]

pub before_leaf-IsDeal :
    (es : List LeafEntry) (num : ℕ)
    → 0 < num
    → 0 < count_of es
    → count_of es ≤ num * in_leaf
    → IsDeal es num (before_leaf (count_of es / num) (count_of es % num))
before_leaf-IsDeal es num some_leaves some_keys few =
    let n = count_of es in
    let whole = div-add-mod n num in
    let part = mod-lt n some_leaves in
    let some = share-some num n some_keys some_leaves in
    record {
      start = ground arith;
      end = ground (arith, whole, part);
      rising =
          λ h i order. let mono = mul-le-mul_right (n / num) order in ground (arith, mono, order);
      width = λ i.
          let next = before_leaf-next (n / num) (n % num) i in
          elim (share num n some_leaves few) [
            | inl less ↦ ground (arith, less, next)
            | inr (eight, even) ↦ ground (arith, eight, even, next)
          ];
      nonempty = λ i. let h = before_leaf-some (n / num) (n % num) i some in omega (arith, h);
    }

-- The root keys that __new_roots sets are those of the last pairs of the leaves.
pub new_roots-AreRoots :
    (es : List LeafEntry) (num : ℕ) (keys : ℕ → ℕ)
    → 0 < num
    → 0 < count_of es
    → Returns
        (AreRoots es num (before_leaf (count_of es / num) (count_of es % num)))
        (new_roots es num keys)
unfolding new_roots
new_roots-AreRoots es num keys some_leaves some_keys =
    let n = count_of es in
    let part = mod-lt n some_leaves in
    let has_leaves : ltb 0 num ≡ true = ground (arith, some_leaves) in
    let in_part : leb (n % num) num ≡ true = ground (arith, part) in
    let (keys', returned, (from_0, _)) =
      new_roots_loop-keys es num (n / num) (n % num) (share-some num n some_keys some_leaves) num 0
        keys (omega arith) in
    let per = n / num in
    let extra = n % num in
    let none_yet : before_leaf per extra 0 ≡ 0 = ground arith in
    let all_extra : extra - 0 ≡ extra = omega arith in
    let start =
      ap (λ x. new_roots_loop es num 0 x per extra keys) (sym none_yet)
      ∙ ap (λ x. new_roots_loop es num 0 (before_leaf per extra 0) per x keys) (sym all_extra) in
    rw (has_leaves, in_part)
      (
        keys',
        start ∙ returned,
        (
          λ i more.
              let other : (suc i == num) ≡ false = ground (arith, more) in
              from_0 i (omega arith) (omega (arith, more)) ∙ rw other refl,
          λ i last.
              let same : (suc i == num) ≡ true = ground (arith, last) in
              from_0 i (omega arith) (omega (arith, last)) ∙ rw same refl,
        ),
      )

-- __new_roots of no pairs for two leaves or more reads the key before the first pair.
pub new_roots-nothing : (num : ℕ) (keys : ℕ → ℕ) → 2 ≤ num → new_roots [] num keys ≡ bug
unfolding new_roots new_roots_loop
new_roots-nothing zero keys two = absurd (omega (arith, two))
new_roots-nothing (suc zero) keys two = absurd (omega (arith, two))
new_roots-nothing (suc (suc n)) keys two =
    let no_share : 0 / suc (suc n) ≡ 0 = zero-div (suc (suc n)) in
    let no_rest : 0 % suc (suc n) ≡ 0 = zero-mod (suc (suc n)) in
    let has_leaves : ltb 0 (suc (suc n)) ≡ true = ground arith in
    let in_part : leb 0 (suc (suc n)) ≡ true = ground arith in
    let more : (suc n == 0) ≡ false = ground arith in
    rw (no_share, no_rest, has_leaves, in_part, more) refl
