-- ===== src/Common/Runs.antt =====
-- What becomes of a piece of kernel code that may not return a value.
use mathlib.Core.Bool.{Bool, true, false}
use virtkv.Common.Tests.{if◌then◌else◌}
use mathlib.Core.Path.{◌≡◌, refl}

-- `bug` is a failed NVMEV_ASSERT, a BUG_ON or a processor fault such as a division by zero;
-- `stuck` is a spin lock that is never released.
pub data Outcome {ℓ} (A : Type ℓ) : Type ℓ where
  ok : A → Outcome A
  bug : Outcome A
  stuck : Outcome A

-- NVMEV_ASSERT(x)
abbrev pub nvmev_assert : Bool → Outcome (Unit {0})
nvmev_assert false = bug
nvmev_assert true = ok tt

module _ {ℓ} {B : Type ℓ} where
  infixl 5 ◌>>◌
  abbrev pub ◌>>◌ : Outcome (Unit {0}) → Outcome B → Outcome B
  stuck >> rest = stuck
  bug >> rest = bug
  ok done >> rest = rest

  infixl 5 ◌>>=◌
  abbrev pub ◌>>=◌ {κ} : {A : Type κ} → Outcome A → (A → Outcome B) → Outcome B
  stuck >>= next = stuck
  bug >>= next = bug
  ok value >>= next = next value

-- The code returns, with a value that `P` holds of, or it runs into `bug`.
pub data Safe {A : Type 0} (P : A → Type 0) : Outcome A → Type 0 where
  safe_ok : {a : A} → P a → Safe P (ok a)
  safe_bug : Safe P bug

module _ {B : Type 0} {P : B → Type 0} where
  pub then_Safe :
      (b : Bool) {rest : Outcome B} → (b ≡ true → Safe P rest) → Safe P (nvmev_assert b >> rest)
  then_Safe true h = h refl
  then_Safe false h = safe_bug

  pub if_Safe :
      (b : Bool) {x y : Outcome B}
      → (b ≡ true → Safe P x)
      → (b ≡ false → Safe P y)
      → Safe P (if b then x else y)
  if_Safe true t f = t refl
  if_Safe false t f = f refl

  pub bind_Safe :
      {A : Type 0} {R : A → Type 0} {o : Outcome A} {f : A → Outcome B}
      → Safe R o
      → ((a : A) → R a → Safe P (f a))
      → Safe P (o >>= f)
  bind_Safe (safe_ok r) h = h _ r
  bind_Safe safe_bug h = safe_bug

-- The code returns a value that `P` holds of.
abbrev pub Returns : {A : Type 0} → (A → Type 0) → Outcome A → Type 0
Returns {A} P o = (a : A) × (o ≡ ok a) × P a

module _ {B : Type 0} {P : B → Type 0} where
  pub then_Returns :
      (b : Bool) {rest : Outcome B} → b ≡ true → Returns P rest → Returns P (nvmev_assert b >> rest)
  then_Returns true e h = h
  then_Returns false e h = absurd (cc)

  pub if_Returns :
      (b : Bool) {x y : Outcome B}
      → (b ≡ true → Returns P x)
      → (b ≡ false → Returns P y)
      → Returns P (if b then x else y)
  if_Returns true t f = t refl
  if_Returns false t f = f refl

  pub bind_Returns :
      {A : Type 0} {R : A → Type 0} {o : Outcome A} {f : A → Outcome B}
      → Returns R o
      → ((a : A) → R a → Returns P (f a))
      → Returns P (o >>= f)
  bind_Returns {f} (a, e, r) h = rw e (h a r)

pub map_Returns :
    {A : Type 0} {P R : A → Type 0} {o : Outcome A}
    → Returns P o
    → ((a : A) → P a → R a)
    → Returns R o
map_Returns (a, e, p) h = (a, e, h a p)
