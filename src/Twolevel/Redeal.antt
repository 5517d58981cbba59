-- ===== src/Twolevel/Redeal.antt =====
-- What twolevel_reload of nvmevirt/twolevel.c makes of a table.
use virtkv.Twolevel.{Table, Leaf, LeafEntry, in_leaf, uint_max}
use virtkv.Twolevel.Reload.{count_of, key_at, clear_slots, pairs_with, twolevel_reload}
use virtkv.Twolevel.Roots.{before_leaf, before_leaf-IsDeal, new_roots-AreRoots}
use virtkv.Twolevel.Dealt.{ppa_at, IsRising}
use virtkv.Twolevel.Reinsert.{reinsert-Dealt}
use virtkv.Twolevel.Bulk.{Holds, Dealt-Holds}
use virtkv.Twolevel.Find.{IsTable}
use virtkv.Twolevel.Change.{update-here, update-away}
use virtkv.Common.{
  ℕ, List, ◌+◌, ◌-◌, ◌*◌, ◌/◌, ◌%◌, ◌^◌, ◌≡◌, ◌≢◌, ◌≤◌, ◌<◌, ◌==◌, zero, suc, ltb, u32,
  if◌then◌else◌, arith, Bool-cases, inl, inr, true, refl, sym, ap, ◌∙◌, Returns, ℕ_discrete, update,
}

-- A slot is free after the slots before the first free one were cleared, if all used slots were before it.
clear_slots-free :
    (l : Leaf) (n j : ℕ)
    → ((h m : ℕ) → j ≤ h → h < m → m < j + n → l.hidx m ≢ uint_max → l.hidx h ≢ uint_max)
    → ((m : ℕ) → m < j → l.hidx m ≡ uint_max)
    → (m : ℕ) → m < j + n
    → (clear_slots l n j).hidx m ≡ uint_max
unfolding clear_slots
clear_slots-free l zero j front done m inside = done m (omega (arith, inside))
clear_slots-free l (suc n) j front done m inside = elim (Bool-cases (l.hidx j == uint_max)) [
  | inl free ↦ rw free (elim (Bool-cases (ltb m j)) [
    | inl before ↦ done m (ground (arith, before))
    | inr behind ↦ elim (ℕ_discrete (l.hidx m) uint_max) [
      | yes e ↦ e
      | no used ↦ elim (ℕ_discrete m j) [
        | yes same ↦ ground (arith, free, same)
        | no away ↦ absurd (
            front j m (omega arith) (ground (arith, behind, away)) inside used
              (ground (arith, free)))
      ]
    ]
  ])
  | inr used ↦
      let l' : Leaf = record { hidx = update l.hidx j uint_max; ppa = update l.ppa j uint_max } in
      rw used (
        clear_slots-free l' n (suc j)
          (λ h k from order to is_used.
            let k_away = update-away l.hidx j uint_max k (omega (arith, from, order)) in
            let h_away = update-away l.hidx j uint_max h (omega (arith, from)) in
            let old =
              front h k (omega (arith, from)) order (omega (arith, to))
                (λ e. is_used (k_away ∙ e)) in
            λ e. old (sym h_away ∙ e))
          (λ k before. elim (ℕ_discrete k j) [
            | yes same ↦ rw same (update-here l.hidx j uint_max)
            | no away ↦ update-away l.hidx j uint_max k away ∙ done k (omega (arith, before, away))
          ])
          m (omega (arith, inside)))
]

cleared-free :
    (t : Table)
    → IsTable t
    → (i j : ℕ) → i < t.cnt
    → j < in_leaf
    → (if ltb i t.cnt then clear_slots (t.leaves i) in_leaf 0 else t.leaves i).hidx j ≡ uint_max
cleared-free t valid i j inside slots =
    let there : ltb i t.cnt ≡ true = ground (arith, inside) in
    rw there (
      clear_slots-free (t.leaves i) in_leaf 0
        (λ h m from order to used. (valid.leaf i inside h m order to used).0)
        (λ m h. absurd (omega (arith, h))) j slots)

-- In a valid table, where the pairs of the table and the new one are no more than its leaves have slots, and
-- their sorted keys rise to below UINT_MAX, twolevel_reload returns, with the same count of cached
-- pairs, a valid table in which twolevel_find returns the ppa of each of these pairs for its key, and UINT_MAX
-- and no position for all other keys.
pub twolevel_reload_lem :
    (sort : List LeafEntry → List LeafEntry) (t : Table) (hidx ppa : ℕ)
    → IsTable t
    → t.cached_cnt < 2 ^ 32
    → 0 < count_of (sort (pairs_with t hidx ppa))
    → count_of (sort (pairs_with t hidx ppa)) ≤ t.cnt * in_leaf
    → IsRising (sort (pairs_with t hidx ppa))
    → Returns
        (λ t'. Holds (sort (pairs_with t hidx ppa)) t' × (t'.cached_cnt ≡ t.cached_cnt))
        (twolevel_reload sort t hidx ppa)
unfolding twolevel_reload
twolevel_reload_lem sort t hidx ppa valid small some_pairs few rising =
    let es = sort (pairs_with t hidx ppa) in
    let num = t.cnt in
    let from = before_leaf (count_of es / num) (count_of es % num) in
    let deal = before_leaf-IsDeal es num valid.filled some_pairs few in
    let (keys, dealt_out, roots) = new_roots-AreRoots es num t.entries valid.filled some_pairs in
    let cleared : ℕ → Leaf =
      λ i. if ltb i t.cnt then clear_slots (t.leaves i) in_leaf 0 else t.leaves i in
    let t0 : Table = record t {
      entries = keys;
      leaves = cleared;
      cached_cnt = u32 (t.cached_cnt + 2 ^ 32 - count_of es % 2 ^ 32);
    } in
    let (t', reinserted, (dealt, cnt, roots', cached)) =
      reinsert-Dealt es num from rising deal sort es 0 t0
        (omega arith, (λ q. ap (key_at es) (omega arith)), (λ q. ap (ppa_at es) (omega arith))) refl
        roots
        (
          (λ h j h_in own below. absurd (omega (arith, below))),
          λ h j h_in j_in out. cleared-free t valid h j h_in j_in,
        )
        (omega arith) in
    let same : t'.cached_cnt ≡ t.cached_cnt = omega (arith, cached, small) in
    let asserted : (t'.cached_cnt == t.cached_cnt) ≡ true = ground (arith, same) in
    rw (dealt_out, reinserted, asserted)
      (
        t',
        refl,
        (Dealt-Holds es num from rising deal t' cnt roots' dealt valid.filled valid.room, same),
      )
