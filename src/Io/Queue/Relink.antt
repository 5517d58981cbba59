-- ===== src/Io/Queue/Relink.antt =====
-- What a chain of entries (nvmevirt/io.c) becomes when some of its links change.
use virtkv.Io.Queue.Chain.{
  Distinct, has, Chain, last_or, head_or, has-last_or, Chain-split, Chain-join,
}
use virtkv.Common.{ℕ, List, ◌≡◌, ◌∷◌, true, false, ◌≢◌, ◌∙◌, arith, ◌++◌, []}

module _ (nx pv nx' pv' : ℕ → ℕ) where
  -- Links that stay the same.
  pub Chain-frame :
      (a : ℕ) (p : List ℕ) (b : ℕ)
      → nx' a ≡ nx a
      → pv' b ≡ pv b
      → ((x : ℕ) → has x p ≡ true → (nx' x ≡ nx x) × (pv' x ≡ pv x))
      → Chain nx pv a p b
      → Chain nx' pv' a p b
  Chain-frame a [] b n v same h = (n ∙ h.0, v ∙ h.1)
  Chain-frame a (x ∷ p) b n v same h =
      let here : (nx' x ≡ nx x) × (pv' x ≡ pv x) = same x (ground arith) in
      (n ∙ h.0, here.1 ∙ h.1, Chain-frame x p b here.0 v (λ y m. same y (ground arith)) h.2)

  -- Another entry `e` behind the last one.
  pub Chain-new_end :
      (a : ℕ) (p : List ℕ) (d e : ℕ)
      → Distinct (a ∷ p)
      → ((x : ℕ) → has x (a ∷ p) ≡ true → x ≢ last_or p a → nx' x ≡ nx x)
      → ((x : ℕ) → has x p ≡ true → pv' x ≡ pv x)
      → nx' (last_or p a) ≡ e
      → pv' e ≡ last_or p a
      → Chain nx pv a p d
      → Chain nx' pv' a p e
  Chain-new_end a [] d e apart n v ne ve h = (ne, ve)
  Chain-new_end a (x ∷ p) d e apart n v ne ve h =
      let other : a ≢ last_or p x = λ same. ground (arith, has-last_or p x, apart.0) in
      (
        n a (ground arith) other ∙ h.0,
        v x (ground arith) ∙ h.1,
        Chain-new_end x p d e apart.1 (λ y m. n y (ground arith)) (λ y m. v y (ground arith)) ne ve
            h.2,
      )

  -- Another entry `e` in front of the first one.
  pub Chain-new_start :
      (c : ℕ) (q : List ℕ) (b e : ℕ)
      → Distinct q
      → has b q ≡ false
      → ((x : ℕ) → has x q ≡ true → nx' x ≡ nx x)
      → ((x : ℕ) → has x (b ∷ q) ≡ true → x ≢ head_or q b → pv' x ≡ pv x)
      → nx' e ≡ head_or q b
      → pv' (head_or q b) ≡ e
      → Chain nx pv c q b
      → Chain nx' pv' e q b
  Chain-new_start c [] b e apart out n v ne ve h = (ne, ve)
  Chain-new_start c (y ∷ q) b e apart out n v ne ve h = (
    ne,
    ve,
    Chain-frame y q b (n y (ground arith)) (v b (ground arith) (λ same. ground arith))
        (λ x m. (n x (ground arith), v x (ground arith) (λ same. ground (arith, apart.0)))) h.2,
  )

  -- The entry `e` between `p` and `q`.
  pub Chain-insert :
      (a : ℕ) (p q : List ℕ) (b e : ℕ)
      → Distinct (a ∷ p)
      → Distinct q
      → has b q ≡ false
      → ((x : ℕ) → x ≢ e → x ≢ last_or p a → nx' x ≡ nx x)
      → ((x : ℕ) → x ≢ e → x ≢ head_or q b → pv' x ≡ pv x)
      → ((x : ℕ) → has x p ≡ true → x ≢ head_or q b)
      → ((x : ℕ) → has x q ≡ true → x ≢ last_or p a)
      → has e (a ∷ p) ≡ false
      → has e (b ∷ q) ≡ false
      → nx' (last_or p a) ≡ e
      → pv' e ≡ last_or p a
      → nx' e ≡ head_or q b
      → pv' (head_or q b) ≡ e
      → Chain nx pv a (p ++ q) b
      → Chain nx' pv' a (p ++ (e ∷ q)) b
  Chain-insert a p q b e ap aq out n v pq qp ep eq nc ve ne vd h =
      let (l, r) = Chain-split nx pv a p q b h in
      Chain-join nx' pv' a p (e ∷ q) b
        (Chain-new_end a p (head_or q b) e ap (λ x m ne'. n x (λ same. ground arith) ne')
          (λ x m. v x (λ same. ground arith) (pq x m)) nc ve l)
        (
          nc,
          ve,
          Chain-new_start (last_or p a) q b e aq out (λ x m. n x (λ same. ground arith) (qp x m))
              (λ x m. v x (λ same. ground arith)) ne vd r,
        )
