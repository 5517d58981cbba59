-- ===== src/Io/Reclaim/Freed.antt =====
-- What freeing the done entries does to the links of the queue (nvmevirt/io.c).
use virtkv.Io.Queue.Free.{Follows, next_entry, Follows-join, Follows-new_end, Chain-Follows}
use virtkv.Io.Queue.Relink.{Chain-new_start}
use virtkv.Io.Queue.Place.{Holds, next_link, prev_link, no_entry-not-has}
use virtkv.Io.Queue.Chain.{
  last_or, head_or, has, Chain-split, Distinct-split, has-append, ne-has, has-last_or, Distinct,
}
use virtkv.Io.Queue.Insert.{SameWork}
use virtkv.Io.Queue.{Worker, no_entry}
use virtkv.Io.Reclaim.{free_entries}
use virtkv.Common.{
  ℕ, ◌≡◌, ◌≢◌, arith, List, ◌∷◌, ◌++◌, false, true, Bool-cases, inl, inr, ℕ_discrete,
}

-- What freeing the entries from `f` to `l` changes, where `g` is the last free entry and `a` the one
-- after `l`.
pub record Freed (w w' : Worker) (f l g a : ℕ) : Type 0 where
  pub next_last : (w'.work_queue l).next ≡ no_entry
  pub next_end : (w'.work_queue g).next ≡ f
  pub nexts : (x : ℕ) → x ≢ l → x ≢ g → (w'.work_queue x).next ≡ (w.work_queue x).next
  pub prev_after : a ≢ no_entry → (w'.work_queue a).prev ≡ no_entry
  pub prevs : (x : ℕ) → x ≢ a → x ≢ f → (w'.work_queue x).prev ≡ (w.work_queue x).prev
  pub start : w'.io_seq ≡ a
  pub last : w'.io_seq_end ≡ w.io_seq_end
  pub free : w'.free_seq ≡ w.free_seq
  pub free_end : w'.free_seq_end ≡ l

module _ (w : Worker) (f l a : ℕ) where
  pub free_entries-Freed :
      (g : ℕ)
      → w.free_seq_end ≡ g
      → (w.work_queue l).next ≡ a
      → l ≢ g
      → a ≢ f
      → Freed w (free_entries w f l) f l g a
  unfolding free_entries
  free_entries-Freed g end next ne af = record {
    next_last = ground arith;
    next_end = ground arith;
    nexts = λ x xl xg. ground arith;
    prev_after = λ real. ground arith;
    prevs = λ x xa xf. ground arith;
    start = ground arith;
    last = ground arith;
    free = ground arith;
    free_end = ground arith;
  }

  pub free_entries-SameWork : SameWork w (free_entries w f l)
  unfolding free_entries
  free_entries-SameWork = record {
    targets = λ x. ground arith;
    copied = λ x. ground arith;
    completed = λ x. ground arith;
    latest = ground arith;
  }

prev_link-head :
    (w w' : Worker) (f l g : ℕ) (r : List ℕ)
    → Freed w w' f l g (head_or r no_entry)
    → prev_link w' (head_or r no_entry) ≡ no_entry
prev_link-head w w' f l g r n = elim (ℕ_discrete (head_or r no_entry) no_entry) [
  | yes e ↦ let start = n.start in ground arith
  | no real ↦ let back = n.prev_after real in ground arith
]

-- The rest of the queue is chained as before.
pub Freed-Holds :
    (w w' : Worker) (f : ℕ) (d r : List ℕ) (g : ℕ)
    → Freed w w' f (last_or d f) g (head_or r no_entry)
    → Holds w ((f ∷ d) ++ r)
    → has g ((f ∷ d) ++ r) ≡ false
    → Holds w' r
Freed-Holds w w' f d r g n h out =
    let b = no_entry in
    let (l, c) = Chain-split (next_link w) (prev_link w) b (f ∷ d) r b h.chain in
    let (dd, dr, apart) = Distinct-split (f ∷ d) r h.distinct in
    let outside = no_entry-not-has ((f ∷ d) ++ r) h.in_array in
    let apart' : (x : ℕ) → has x r ≡ true → has x (f ∷ d) ≡ false = λ x m.
      elim (Bool-cases (has x (f ∷ d))) [
        | inl both ↦ absurd (ground (arith, apart x both))
        | inr one ↦ one
      ] in
    let start : w.io_seq ≡ f = h.chain.0 in
    let f_real : f ≢ b = ground arith in
    let out_r : has b r ≡ false = ground (arith, has-append b (f ∷ d) r) in
    let out_g : has g r ≡ false = ground (arith, has-append g (f ∷ d) r) in
    record {
      chain =
          Chain-new_start (next_link w) (prev_link w) (next_link w') (prev_link w') (last_or d f) r
            b b dr out_r
            (λ x m.
              let real = ne-has x b r m out_r in
              let xl : x ≢ last_or d f = λ same. ground (arith, apart' x m, has-last_or d f) in
              let xg = ne-has x g r m out_g in let step = n.nexts x xl xg in ground arith)
            (λ x m nh. elim (ℕ_discrete x b) [
              | yes e ↦ ground (arith, n.start, n.last, f_real)
              | no real ↦
                  let xf : x ≢ f = λ same. ground (arith, apart' x) in
                  let step = n.prevs x nh xf in ground arith
            ])
            n.start (prev_link-head w w' f (last_or d f) g r n) c;
      distinct = dr;
      in_array = λ x m. h.in_array x (ground (arith, has-append x (f ∷ d) r));
    }

-- And the free entries are followed by those that were done.
pub Freed-Follows :
    (w w' : Worker) (f : ℕ) (d r : List ℕ) (y : ℕ) (zs : List ℕ)
    → Freed w w' f (last_or d f) (last_or zs y) (head_or r no_entry)
    → Holds w ((f ∷ d) ++ r)
    → Follows (next_entry w) y zs no_entry
    → Distinct (y ∷ zs)
    → ((x : ℕ) → has x (y ∷ zs) ≡ true → has x ((f ∷ d) ++ r) ≡ false)
    → Follows (next_entry w') y (zs ++ (f ∷ d)) no_entry
Freed-Follows w w' f d r y zs n h free df apart =
    let b = no_entry in
    let (l, c) = Chain-split (next_link w) (prev_link w) b (f ∷ d) r b h.chain in
    let dd = (Distinct-split (f ∷ d) r h.distinct).0 in
    let out_d : has b (f ∷ d) ≡ false =
      ground (arith, no_entry-not-has ((f ∷ d) ++ r) h.in_array, has-append b (f ∷ d) r) in
    let apart' : (x : ℕ) → has x (y ∷ zs) ≡ true → has x (f ∷ d) ≡ false =
      λ x m. ground (arith, apart x m, has-append x (f ∷ d) r) in
    let last_d = has-last_or d f in
    let last_z = has-last_or zs y in
    Follows-join (next_entry w') y zs (f ∷ d) b
      (Follows-new_end (next_entry w) (next_entry w') y zs b f df
        (λ x m ne. n.nexts x (λ same. ground (arith, apart' x m, last_d)) ne) n.next_end free)
      (
        n.next_end,
        Follows-new_end (next_link w) (next_entry w') f d (head_or r b) b dd
            (λ x m ne.
              let real = ne-has x b (f ∷ d) m out_d in
              let step = n.nexts x ne (λ same. ground (arith, apart' (last_or zs y), last_z)) in
              ground arith)
            n.next_last (Chain-Follows (next_link w) (prev_link w) f d (head_or r b) l.2),
      )
