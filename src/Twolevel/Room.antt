-- ===== src/Twolevel/Room.antt =====
-- What is found after a pair went into a leaf with room (twolevel_insert without a position, nvmevirt/twolevel.c).
use virtkv.Twolevel.{Table, Leaf, in_leaf, uint_max}
use virtkv.Twolevel.Search.{Splits}
use virtkv.Twolevel.Find.{IsLeaf, IsTable, Stands}
use virtkv.Twolevel.Change.{at_update, update-here, update-away}
use virtkv.Twolevel.Insert.{
  IsFirst, with_pair, with_pair-IsLeaf, raised, inserted, raised-away, raised-between, raised-set,
  raised-key, raised-last,
}
use virtkv.Common.{
  ℕ, ◌⊎◌, ◌-◌, ◌≡◌, ◌≢◌, ◌≤◌, ◌<◌, suc, arith, inl, inr, refl, sym, ap, ◌∙◌, ℕ_discrete, update,
}

module _ (t : Table) (valid : IsTable t) (n hidx ppa i s : ℕ) (inside : i < t.cnt)
    (key : hidx ≢ uint_max) (splits : Splits t.entries t.cnt hidx i) (slots : s < in_leaf)
    (first : IsFirst (t.leaves i) 0 s)
    (new : (m : ℕ) → m < in_leaf → (t.leaves i).hidx m ≢ hidx) where
  bound : hidx ≤ t.entries i
  bound = splits.2 i (omega arith) inside

  root : ℕ → ℕ
  root = raised t n hidx ppa i s

  root-away : (h : ℕ) → h ≢ i → root h ≡ t.entries h
  unfolding root
  root-away = raised-away t n hidx ppa i s valid inside bound key

  root-between : (hidx ≤ root i) × (root i ≤ t.entries i)
  unfolding root
  root-between = raised-between t n hidx ppa i s valid inside bound key

  root-set : suc i < t.cnt → root i ≢ uint_max
  unfolding root
  root-set = raised-set t n hidx ppa i s valid inside bound key

  root-key : (m : ℕ) → m < in_leaf → (t.leaves i).hidx m ≢ uint_max → (t.leaves i).hidx m ≤ root i
  unfolding root
  root-key = raised-key t n hidx ppa i s valid inside bound key

  root-sorted : (g h : ℕ) → g ≤ h → h < t.cnt → root g ≤ root h
  root-sorted g h order h_in =
      let old = valid.sorted g h order h_in in
      elim (ℕ_discrete g i) [
        | yes g_i ↦ elim (ℕ_discrete h i) [
          | yes h_i ↦ rw (g_i, h_i) (omega arith)
          | no h_away ↦
              rw (g_i, root-away h h_away)
                (omega (arith, root-between.1, valid.sorted i h (omega (arith, g_i, order)) h_in))
        ]
        | no g_away ↦ elim (ℕ_discrete h i) [
          | yes h_i ↦
              rw (h_i, root-away g g_away)
                (omega (arith, root-between.0, splits.1 g (omega (arith, order, h_i, g_away))))
          | no h_away ↦ rw (root-away g g_away, root-away h h_away) old
        ]
      ]

  root-high : (g : ℕ) → root g ≤ t.entries g
  root-high g = elim (ℕ_discrete g i) [
    | yes g_i ↦ rw g_i root-between.1
    | no away ↦ rw (root-away g away) (omega arith)
  ]

  leaf : Leaf
  leaf = with_pair (t.leaves i) hidx ppa s

  -- A key of the leaf is the new one or an old one.
  leaf-key : (m : ℕ) → (leaf.hidx m ≡ hidx) ⊎ (leaf.hidx m ≡ (t.leaves i).hidx m)
  unfolding leaf
  leaf-key m =
      at_update (λ x. (x ≡ hidx) ⊎ (x ≡ (t.leaves i).hidx m)) (t.leaves i).hidx s hidx m
        (λ e. inl refl) (λ e. inr refl)

  leaf-upper :
      (h j : ℕ)
      → h < t.cnt
      → j < in_leaf
      → (update t.leaves i leaf h).hidx j ≢ uint_max
      → (update t.leaves i leaf h).hidx j ≤ root h
  leaf-upper h j h_in j_in =
      at_update (λ x. x.hidx j ≢ uint_max → x.hidx j ≤ root h) t.leaves i leaf h
        (λ e used. elim (leaf-key j) [
          | inl is_new ↦ rw (e, is_new) root-between.0
          | inr is_old ↦ rw (e, is_old) (root-key j j_in (λ f. used (is_old ∙ f)))
        ])
        (λ e used. rw (root-away h e) (valid.upper h j h_in j_in used))

  leaf-lower :
      (g h j : ℕ)
      → g < h
      → h < t.cnt
      → j < in_leaf
      → (update t.leaves i leaf h).hidx j ≢ uint_max
      → root g < (update t.leaves i leaf h).hidx j
  leaf-lower g h j above h_in j_in =
      at_update (λ x. x.hidx j ≢ uint_max → root g < x.hidx j) t.leaves i leaf h
        (λ e used. elim (leaf-key j) [
          | inl is_new ↦
              rw is_new (omega (arith, root-high g, splits.1 g (omega (arith, above, e))))
          | inr is_old ↦
              let low =
                valid.lower g i j (omega (arith, above, e)) inside j_in (λ f. used (is_old ∙ f)) in
              rw is_old (omega (arith, root-high g, low))
        ])
        (λ e used.
          let low = valid.lower g h j above h_in j_in used in omega (arith, root-high g, low))

  leaf-unset :
      (h j : ℕ)
      → suc h < t.cnt
      → root h ≡ uint_max
      → j < in_leaf
      → (update t.leaves i leaf h).hidx j ≡ uint_max
  leaf-unset h j more unset j_in =
      at_update (λ x. x.hidx j ≡ uint_max) t.leaves i leaf h
        (λ e. absurd (root-set (omega (arith, more, e)) (ap root (sym e) ∙ unset)))
        (λ e. valid.unset h j more (sym (root-away h e) ∙ unset) j_in)

  root-same : i ≡ t.cnt - 1 → root i ≡ t.entries i
  unfolding root
  root-same = raised-last t n hidx ppa i s valid inside bound key

  root-last : root (t.cnt - 1) ≡ uint_max
  root-last = elim (ℕ_discrete (t.cnt - 1) i) [
    | yes here ↦ rw here (root-same (sym here) ∙ rw (sym here) valid.last)
    | no away ↦ root-away (t.cnt - 1) away ∙ valid.last
  ]

  pub inserted-IsTable : IsTable (inserted t n hidx ppa i s)
  unfolding root leaf
  inserted-IsTable = record {
    filled = valid.filled;
    room = valid.room;
    sorted = root-sorted;
    last = root-last;
    leaf = λ h k.
        at_update IsLeaf t.leaves i leaf h
          (λ e. with_pair-IsLeaf (t.leaves i) hidx ppa s (valid.leaf i inside) first key new)
          (λ e. valid.leaf h k);
    upper = leaf-upper;
    lower = leaf-lower;
    unset = leaf-unset;
  }

  pub inserted-Stands : Stands (inserted t n hidx ppa i s) hidx i s
  unfolding leaf
  inserted-Stands = (
    inside,
    slots,
    ap (λ l. l.hidx s) (update-here t.leaves i leaf) ∙ update-here (t.leaves i).hidx s hidx,
  )

  pub inserted-ppa : ((inserted t n hidx ppa i s).leaves i).ppa s ≡ ppa
  unfolding leaf
  inserted-ppa =
      ap (λ l. l.ppa s) (update-here t.leaves i leaf) ∙ update-here (t.leaves i).ppa s ppa

  -- An old key is where it was.
  pub inserted-goes :
      (other : ℕ)
      → other ≢ uint_max
      → (h m : ℕ) → Stands t other h m
      → (h' m' : ℕ) × Stands (inserted t n hidx ppa i s) other h' m'
        × (((inserted t n hidx ppa i s).leaves h').ppa m' ≡ (t.leaves h).ppa m)
  unfolding leaf
  inserted-goes other other_key h m (h_in, m_in, here) =
      let (k, p) =
        at_update (λ x. (x.hidx m ≡ other) × (x.ppa m ≡ (t.leaves h).ppa m)) t.leaves i leaf h
          (λ e.
            let old : (t.leaves i).hidx m ≡ other = rw (sym e) here in
            let away : m ≢ s = λ f. other_key (sym old ∙ ap (t.leaves i).hidx f ∙ first.0) in
            (
              update-away (t.leaves i).hidx s hidx m away ∙ old,
              update-away (t.leaves i).ppa s ppa m away ∙ rw e refl,
            ))
          (λ e. (here, refl)) in
      (h, m, (h_in, m_in, k), p)

  pub inserted-comes :
      (other : ℕ)
      → other ≢ hidx
      → (h m : ℕ) → Stands (inserted t n hidx ppa i s) other h m
      → (h' m' : ℕ) × Stands t other h' m'
  unfolding leaf
  inserted-comes other apart h m (h_in, m_in, here) =
      let old =
        at_update (λ x. x.hidx m ≡ other → (t.leaves h).hidx m ≡ other) t.leaves i leaf h
          (λ e f. elim (leaf-key m) [
            | inl is_new ↦ absurd (apart (sym f ∙ is_new))
            | inr is_old ↦ rw e (sym is_old ∙ f)
          ])
          (λ e f. f) here in
      (h, m, (h_in, m_in, old))
