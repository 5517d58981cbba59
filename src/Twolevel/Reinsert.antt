-- ===== src/Twolevel/Reinsert.antt =====
-- The loop of twolevel_reload of nvmevirt/twolevel.c that inserts sorted pairs one after the other.
use virtkv.Twolevel.{Table, Leaf, LeafEntry, in_leaf, lower_bound, insert_pair}
use virtkv.Twolevel.Reload.{count_of, key_at, reinsert}
use virtkv.Twolevel.Search.{IsSorted, lower_bound-Splits}
use virtkv.Twolevel.Dealt.{
  ppa_at, IsRest, IsRising, IsDeal, Dealt, AreRoots, in_leaf-key, behind_leaf-key, root_below,
  roots-sorted, locate, Dealt-put, put_leaf,
}
use virtkv.Twolevel.Insert.{IsFirst, fill_slot-IsFirst, raised, raised-cases, inserted}
use virtkv.Twolevel.Fresh.{insert_pair-insert_in, insert_in-inserted}
use mathlib.Core.Path.{subst}
use virtkv.Common.{
  ℕ, List, [], ◌∷◌, ◌+◌, ◌-◌, ◌≡◌, ◌≤◌, ◌<◌, ◌^◌, ok, bug, suc, ltb, u32, arith, Bool-cases, inl,
  inr, refl, sym, ap, ◌∙◌, Returns, Outcome, ℕ_discrete,
}

module _ (es : List LeafEntry) (num : ℕ) (from : ℕ → ℕ) (rising : IsRising es)
    (deal : IsDeal es num from) where
  -- __lower_bound of the key of a pair leads to the leaf that the pair belongs to.
  leads_to :
      (t : Table) (i p : ℕ)
      → t.cnt ≡ num
      → AreRoots es num from t.entries
      → i < num
      → from i ≤ p
      → p < from (suc i)
      → p < count_of es
      → lower_bound t (key_at es p) ≡ ok i
  leads_to t i p cnt roots inside low high there =
      let sorted : IsSorted t = λ g h order h_in. elim (ℕ_discrete g h) [
        | yes same ↦ rw same (omega arith)
        | no apart ↦
            roots-sorted es num from t.entries rising deal roots g h (omega (arith, order, apart))
              (omega (arith, h_in, cnt))
      ] in
      let (r, returned, (bound, below, above)) = lower_bound-Splits t (key_at es p) sorted in
      let same : r ≡ i = elim (Bool-cases (ltb r i)) [
        | inl less ↦
            let up = deal.rising (suc r) i (ground (arith, less)) in
            let b =
              behind_leaf-key es num from t.entries rising deal roots r p
                (ground (arith, less, inside)) (omega (arith, up, low)) there in
            let a = above r (omega arith) (ground (arith, less, inside, cnt)) in
            absurd (omega (arith, a, b))
        | inr not_less ↦ elim (ℕ_discrete r i) [
          | yes e ↦ e
          | no apart ↦
              let b = below i (ground (arith, not_less, apart)) in
              let a = in_leaf-key es num from t.entries rising deal roots i p inside high there in
              absurd (omega (arith, a, b))
        ]
      ] in
      returned ∙ ap ok same

  -- The root keys stay, since a root key that is replaced is replaced by itself.
  raised-AreRoots :
      (t : Table) (n ppa i s p : ℕ)
      → t.cnt ≡ num
      → AreRoots es num from t.entries
      → i < num
      → p < from (suc i)
      → p < count_of es
      → AreRoots es num from (raised t n (key_at es p) ppa i s)
  raised-AreRoots t n ppa i s p cnt roots inside high there =
      let low = in_leaf-key es num from t.entries rising deal roots i p inside high there in
      let same : (h : ℕ) → raised t n (key_at es p) ppa i s h ≡ t.entries h = λ h.
        elim (raised-cases t n (key_at es p) ppa i s) [
          | inl (all, _) ↦ all h
          | inr (here, others, not_last, old) ↦ elim (ℕ_discrete h i) [
            | yes e ↦
                let b =
                  root_below es num from t.entries rising deal roots i
                    (omega (arith, inside, cnt, not_last)) in
                rw e (
                  here ∙ elim old [
                    | inl under ↦ omega (arith, under, low)
                    | inr unset ↦ absurd (omega (arith, b, unset))
                  ])
            | no away ↦ others h away
          ]
        ] in
      (λ h more. same h ∙ roots.0 h more, λ h last. same h ∙ roots.1 h last)

  -- The first free slot of the leaf is the one behind the pairs that it has.
  slot_of_next :
      (leaves : ℕ → Leaf) (i p s : ℕ)
      → i < num
      → from i ≤ p
      → p < from (suc i)
      → p < count_of es
      → Dealt es num from leaves p
      → IsFirst (leaves i) 0 s
      → s ≡ p - from i
  slot_of_next leaves i p s inside low high there (used, free) (first, before) =
      let wide = deal.width i in
      let here =
        free i (p - from i) inside (omega (arith, high, wide)) (inr (omega (arith, low))) in
      elim (Bool-cases (ltb s (p - from i))) [
        | inl less ↦
            let old = (used i s inside (ground (arith, less, high)) (ground (arith, less))).0 in
            let r = rising.0 (from i + s) (ground (arith, less, there)) in
            absurd (omega (arith, old, first, r))
        | inr not_less ↦ elim (ℕ_discrete s (p - from i)) [
          | yes same ↦ same
          | no apart ↦
              absurd (before (p - from i) (omega arith) (ground (arith, not_less, apart)) here)
        ]
      ]

  -- A pair goes where it belongs.
  insert-Dealt :
      (full : Table → Outcome Table) (t : Table) (p : ℕ)
      → t.cnt ≡ num
      → AreRoots es num from t.entries
      → p < count_of es
      → Dealt es num from t.leaves p
      → Returns
          (λ t'.
            Dealt es num from t'.leaves (suc p)
            × (t'.cnt ≡ t.cnt)
            × AreRoots es num from t'.entries
            × (t'.cached_cnt ≡ u32 (t.cached_cnt + 1)))
          (insert_pair full t (key_at es p) (ppa_at es p))
  unfolding put_leaf
  insert-Dealt full t p cnt roots there dealt =
      let (i, inside, low, high) = locate es num from deal p num (omega (arith, there, deal.end)) in
      let wide = deal.width i in
      let hidx = key_at es p in
      let ppa = ppa_at es p in
      let leads = leads_to t i p cnt roots inside low high there in
      let n = u32 (t.cached_cnt + 1) in
      let last_free =
        dealt.1 i (in_leaf - 1) inside (omega arith) (inr (omega (arith, high, wide))) in
      let (s, bound, filled, first) =
        fill_slot-IsFirst (t.leaves i) hidx ppa in_leaf 0 (in_leaf - 1) (omega arith) (omega arith)
          last_free in
      let slot = slot_of_next t.leaves i p s inside low high there dealt first in
      let at_p : from i + s ≡ p = omega (arith, slot, low) in
      let put =
        Dealt-put es num from t.entries rising deal roots t.leaves i s (hidx, ppa) inside
          (omega (arith, at_p, high)) (ap (key_at es) (sym at_p)) (ap (ppa_at es) (sym at_p))
          (rw at_p dealt) in
      (
        inserted t n hidx ppa i s,
        insert_pair-insert_in full t hidx ppa i leads last_free
            ∙ ap ok (insert_in-inserted t n hidx ppa i s filled),
        (
          subst (Dealt es num from (inserted t n hidx ppa i s).leaves) (ap suc at_p) put,
          refl,
          raised-AreRoots t n ppa i s p cnt roots inside high there,
          refl,
        ),
      )

  pub reinsert-Dealt :
      (sort : List LeafEntry → List LeafEntry) (rest : List LeafEntry) (p : ℕ) (t : Table)
      → IsRest es p rest
      → t.cnt ≡ num
      → AreRoots es num from t.entries
      → Dealt es num from t.leaves p
      → t.cached_cnt < 2 ^ 32
      → Returns
          (λ t'.
            Dealt es num from t'.leaves (count_of es)
            × (t'.cnt ≡ t.cnt)
            × AreRoots es num from t'.entries
            × (t'.cached_cnt ≡ u32 (t.cached_cnt + count_of rest)))
          (reinsert sort rest t)
  unfolding reinsert
  reinsert-Dealt sort [] p t (count, _, _) cnt roots dealt small =
      let all : p ≡ count_of es = omega (arith, count) in
      (t, refl, (rw (sym all) dealt, refl, roots, omega (arith, small)))
  reinsert-Dealt sort (e ∷ rest) p t (count, key, ppa) cnt roots dealt small =
      let e_key : e.0 ≡ key_at es p = key 0 ∙ ap (key_at es) (omega arith) in
      let e_ppa : e.1 ≡ ppa_at es p = ppa 0 ∙ ap (ppa_at es) (omega arith) in
      let (t1, put, (dealt1, cnt1, roots1, cached1)) =
        insert-Dealt (λ t'. bug) t p cnt roots (omega (arith, count)) dealt in
      let (t2, done, (dealt2, cnt2, roots2, cached2)) =
        reinsert-Dealt sort rest (suc p) t1
          (
            omega (arith, count),
            λ q. key (suc q) ∙ ap (key_at es) (omega arith),
            λ q. ppa (suc q) ∙ ap (ppa_at es) (omega arith),
          )
          (cnt1 ∙ cnt) roots1 dealt1 (omega (arith, cached1)) in
      rw (e_key, e_ppa, put)
        (t2, done, (dealt2, cnt2 ∙ cnt1, roots2, omega (arith, cached1, cached2)))
