-- ===== src/Twolevel/Sort.antt =====
-- The sort of the kernel with cmp_hidx, as nvmevirt/twolevel.c calls it, which is a parameter of the model.
use virtkv.Twolevel.{LeafEntry}
use virtkv.Twolevel.Reload.{count_of, key_at}
use virtkv.Twolevel.Dealt.{ppa_at}
use virtkv.Twolevel.Pairs.{In, at-In, Distinct}
use virtkv.Common.{ℕ, List, [], ◌∷◌, ◌++◌, ◌≡◌, ◌<◌, zero, suc, arith, refl, ap}

-- The keys rise.
abbrev pub Rises : List LeafEntry → Type 0
Rises [] = Unit {0}
Rises (x ∷ xs) = ((hidx ppa : ℕ) → In xs hidx ppa → x.0 < hidx) × Rises xs

-- What the kernel says of sort() with cmp_hidx: it puts the pairs in the order of their keys.
pub record IsSort (sort : List LeafEntry → List LeafEntry) : Type 0 where
  pub kept : (xs : List LeafEntry) (hidx ppa : ℕ) → In xs hidx ppa → In (sort xs) hidx ppa
  pub no_others : (xs : List LeafEntry) (hidx ppa : ℕ) → In (sort xs) hidx ppa → In xs hidx ppa
  pub count : (xs : List LeafEntry) → count_of (sort xs) ≡ count_of xs
  pub ordered : (xs : List LeafEntry) → Distinct xs → Rises (sort xs)

pub Rises-at :
    (xs : List LeafEntry) (p q : ℕ) → Rises xs → p < q → q < count_of xs → key_at xs p < key_at xs q
Rises-at [] p q rises order there = absurd (omega (arith, there))
Rises-at (x ∷ xs) p zero rises order there = absurd (omega (arith, order))
Rises-at (x ∷ xs) zero (suc q) (above, rises) order there =
    above (key_at xs q) (ppa_at xs q) (at-In xs q (omega (arith, there)))
Rises-at (x ∷ xs) (suc p) (suc q) (above, rises) order there =
    Rises-at xs p q rises (omega (arith, order)) (omega (arith, there))

pub count-append :
    (xs : List LeafEntry) (e : LeafEntry) → count_of (xs ++ (e ∷ [])) ≡ suc (count_of xs)
count-append [] e = refl
count-append (x ∷ xs) e = ap suc (count-append xs e)
