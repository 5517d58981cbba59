-- ===== src/Io/Queue/Chain.antt =====
-- Chains of entries (nvmevirt/io.c): entries linked both ways, between two ends.
use virtkv.Common.{
  ap, ℕ, List, Bool, ◌∷◌, ◌++◌, ◌≡◌, false, ◌||◌, [], true, ◌==◌, arith, refl, Bool-cases, ◌⊎◌, inl,
  ==_iff, inr, ◌≢◌,
}

abbrev pub has : ℕ → List ℕ → Bool
has a [] = false
has a (x ∷ xs) = (a == x) || has a xs

abbrev pub Distinct : List ℕ → Type 0
Distinct [] = Unit
Distinct (x ∷ xs) = (has x xs ≡ false) × Distinct xs

abbrev pub head_or : List ℕ → ℕ → ℕ
head_or [] b = b
head_or (x ∷ xs) b = x

abbrev pub last_or : List ℕ → ℕ → ℕ
last_or [] a = a
last_or (x ∷ xs) a = last_or xs x

pub has-append : (a : ℕ) (xs ys : List ℕ) → has a (xs ++ ys) ≡ (has a xs || has a ys)
has-append a [] ys = refl
has-append a (x ∷ xs) ys = ground (arith, has-append a xs ys)

pub last_or-snoc : (xs : List ℕ) (y a : ℕ) → last_or (xs ++ (y ∷ [])) a ≡ y
last_or-snoc [] y a = refl
last_or-snoc (x ∷ xs) y a = last_or-snoc xs y x

pub last_or-append : (p q : List ℕ) (a : ℕ) → last_or (p ++ q) a ≡ last_or q (last_or p a)
last_or-append [] q a = refl
last_or-append (x ∷ p) q a = last_or-append p q x

pub has-last_or : (xs : List ℕ) (x : ℕ) → has (last_or xs x) (x ∷ xs) ≡ true
has-last_or [] x = ground arith
has-last_or (y ∷ xs) x = ground (arith, has-last_or xs y)

pub ne-has : (x y : ℕ) (xs : List ℕ) → has x xs ≡ true → has y xs ≡ false → x ≢ y
ne-has x y xs m out same = let same_has : has x xs ≡ has y xs = ap (λ a. has a xs) same in cc

pub not_equal : (x y : ℕ) (xs : List ℕ) → has x xs ≡ true → has y xs ≡ false → (x == y) ≡ false
not_equal x y xs m out = let ne = ne-has x y xs m out in ground arith

-- From `a` by `nx`, and back from `b` by `pv`, one comes through the entries of the list.
module _ (nx pv : ℕ → ℕ) where
  abbrev pub Chain : ℕ → List ℕ → ℕ → Type 0
  Chain a [] b = (nx a ≡ b) × (pv b ≡ a)
  Chain a (x ∷ xs) b = (nx a ≡ x) × (pv x ≡ a) × Chain x xs b

  pub Chain-split :
      (a : ℕ) (p q : List ℕ) (b : ℕ)
      → Chain a (p ++ q) b
      → Chain a p (head_or q b) × Chain (last_or p a) q b
  Chain-split a [] [] b h = (h, h)
  Chain-split a [] (y ∷ q) b h = ((h.0, h.1), h)
  Chain-split a (x ∷ p) q b h = let (l, r) = Chain-split x p q b h.2 in ((h.0, h.1, l), r)

  pub Chain-join :
      (a : ℕ) (p q : List ℕ) (b : ℕ)
      → Chain a p (head_or q b)
      → Chain (last_or p a) q b
      → Chain a (p ++ q) b
  Chain-join a [] q b l r = r
  Chain-join a (x ∷ p) q b l r = (l.0, l.1, Chain-join x p q b l.2 r)

  pub Chain-head : (a : ℕ) (p : List ℕ) (b : ℕ) → Chain a p b → nx a ≡ head_or p b
  Chain-head a [] b h = h.0
  Chain-head a (x ∷ p) b h = h.0

  pub Chain-last : (a : ℕ) (p : List ℕ) (b : ℕ) → Chain a p b → pv b ≡ last_or p a
  Chain-last a [] b h = h.1
  Chain-last a (x ∷ p) b h = Chain-last x p b h.2

pub Distinct-split :
    (p q : List ℕ)
    → Distinct (p ++ q)
    → Distinct p × Distinct q × ((x : ℕ) → has x p ≡ true → has x q ≡ false)
Distinct-split [] q d = (tt, d, λ x m. cc)
Distinct-split (x ∷ p) q d =
    let (dp, dq, apart) = Distinct-split p q d.1 in
    (
      (ground (arith, d.0, has-append x p q), dp),
      dq,
      λ y m. elim (Bool-cases (y == x)) [
        | inl here ↦ let e = (==_iff y x).0 here in rw e (ground (arith, d.0, has-append x p q))
        | inr there ↦ apart y (ground arith)
      ],
    )

pub Distinct-join :
    (p q : List ℕ)
    → Distinct p
    → Distinct q
    → ((x : ℕ) → has x p ≡ true → has x q ≡ false)
    → Distinct (p ++ q)
Distinct-join [] q dp dq apart = dq
Distinct-join (x ∷ p) q dp dq apart = (
  ground (arith, dp.0, apart x, has-append x p q),
  Distinct-join p q dp.1 dq (λ y m. apart y (ground arith)),
)

pub has-head_or : (q : List ℕ) (b : ℕ) → (head_or q b ≡ b) ⊎ (has (head_or q b) q ≡ true)
has-head_or [] b = inl refl
has-head_or (x ∷ q) b = inr (ground arith)

pub has-last_or-cases : (p : List ℕ) (a : ℕ) → (last_or p a ≡ a) ⊎ (has (last_or p a) p ≡ true)
has-last_or-cases [] a = inl refl
has-last_or-cases (x ∷ p) a = inr (has-last_or p x)

-- An entry `e` beside two parts of a chain between `b` and `b`.
pub record Beside (b : ℕ) (p q : List ℕ) (e : ℕ) : Type 0 where
  pub new_p : has e p ≡ false
  pub new_q : has e q ≡ false
  pub ne_end : e ≢ b
  pub end_p : has b p ≡ false
  pub end_q : has b q ≡ false
  pub apart : (x : ℕ) → has x p ≡ true → has x q ≡ false

pub Beside-split :
    (b : ℕ) (p q : List ℕ) (e : ℕ)
    → Distinct (p ++ q)
    → has b (p ++ q) ≡ false
    → has e (p ++ q) ≡ false
    → e ≢ b
    → Beside b p q e
Beside-split b p q e d out new ne = record {
  new_p = ground (arith, has-append e p q);
  new_q = ground (arith, has-append e p q);
  ne_end = ne;
  end_p = ground (arith, has-append b p q);
  end_q = ground (arith, has-append b p q);
  apart = (Distinct-split p q d).2;
}

module _ (b : ℕ) (p q : List ℕ) (e : ℕ) (s : Beside b p q e) where
  pub ne_last : e ≢ last_or p b
  ne_last = λ same. ground (arith, has-last_or-cases p b, s.new_p, s.ne_end)

  pub ne_head : e ≢ head_or q b
  ne_head = λ same. ground (arith, has-head_or q b, s.new_q, s.ne_end)

  pub p_ne_head : (x : ℕ) → has x p ≡ true → x ≢ head_or q b
  p_ne_head x m same = ground (arith, has-head_or q b, s.apart x, s.end_p)

  pub q_ne_last : (x : ℕ) → has x q ≡ true → x ≢ last_or p b
  q_ne_last x m same = ground (arith, has-last_or-cases p b, s.apart x, s.end_q)

  pub last_ne_head : last_or p b ≢ b → last_or p b ≢ head_or q b
  last_ne_head ne same = ground (arith, has-last_or-cases p b, p_ne_head (last_or p b))
