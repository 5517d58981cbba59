-- ===== src/Ssd/Nand/Idle.antt =====
-- `ssd_next_idle_time` (nvmevirt/ssd.c) is the least time at which every LUN is free.
use virtkv.Ssd.Nand.{ssd_next_idle_time, latest_lun, latest_ch, Ssd}
use virtkv.Common.{ℕ, ◌≤◌, ◌<◌, arith, ◌+◌, suc, max, ℕ_discrete, zero}

latest_lun-le :
    (avail : ℕ → ℕ) (n j latest : ℕ)
    → (latest ≤ latest_lun avail n j latest)
      × ((k : ℕ) → j ≤ k → k < j + n → avail k ≤ latest_lun avail n j latest)
unfolding latest_lun
latest_lun-le avail zero j latest = (omega arith, λ k h l. absurd (omega arith))
latest_lun-le avail (suc n) j latest =
    let rest = latest_lun-le avail n (j + 1) (max latest (avail j)) in
    (
      omega (arith, rest.0),
      λ k h l. elim (ℕ_discrete k j) [
        | yes e ↦ rw e (omega (arith, rest.0))
        | no ne ↦ rest.1 k (omega arith) (omega arith)
      ],
    )

latest_lun-least :
    (avail : ℕ → ℕ) (n j latest bound : ℕ)
    → latest ≤ bound
    → ((k : ℕ) → j ≤ k → k < j + n → avail k ≤ bound)
    → latest_lun avail n j latest ≤ bound
unfolding latest_lun
latest_lun-least avail zero j latest bound h b = h
latest_lun-least avail (suc n) j latest bound h b =
    latest_lun-least avail n (j + 1) (max latest (avail j)) bound
      (omega (arith, b j (omega arith) (omega arith))) (λ k lo hi. b k (omega arith) (omega arith))

latest_ch-le :
    (avail : ℕ → ℕ → ℕ) (luns n i latest : ℕ)
    → (latest ≤ latest_ch avail luns n i latest)
      × ((c l : ℕ) → i ≤ c → c < i + n → l < luns → avail c l ≤ latest_ch avail luns n i latest)
unfolding latest_ch
latest_ch-le avail luns zero i latest = (omega arith, λ c l h k m. absurd (omega arith))
latest_ch-le avail luns (suc n) i latest =
    let row = latest_lun-le (avail i) luns 0 latest in
    let rest = latest_ch-le avail luns n (i + 1) (latest_lun (avail i) luns 0 latest) in
    (
      omega (arith, row.0, rest.0),
      λ c l h k m. elim (ℕ_discrete c i) [
        | yes e ↦ rw e (omega (arith, row.1 l (omega arith) (omega arith), rest.0))
        | no ne ↦ rest.1 c l (omega arith) (omega arith) m
      ],
    )

latest_ch-least :
    (avail : ℕ → ℕ → ℕ) (luns n i latest bound : ℕ)
    → latest ≤ bound
    → ((c l : ℕ) → i ≤ c → c < i + n → l < luns → avail c l ≤ bound)
    → latest_ch avail luns n i latest ≤ bound
unfolding latest_ch
latest_ch-least avail luns zero i latest bound h b = h
latest_ch-least avail luns (suc n) i latest bound h b =
    latest_ch-least avail luns n (i + 1) (latest_lun (avail i) luns 0 latest) bound
      (latest_lun-least (avail i) luns 0 latest bound h
        (λ k lo hi. b i k (omega arith) (omega arith) (omega arith)))
      (λ c l lo hi m. b c l (omega arith) (omega arith) m)

-- By the time that `ssd_next_idle_time` returns, which is not before the clock, every LUN of the disk
-- is free; and any time from the clock on by which they all are is no earlier.
ssd_next_idle_time_lem :
    (s : Ssd) (bound : ℕ)
    → s.clock 0 ≤ bound
    → ((c l : ℕ) → c < s.sp.nchs → l < s.sp.luns_per_ch → s.next_lun_avail_time c l ≤ bound)
    → (s.clock 0 ≤ ssd_next_idle_time s)
      × ((c l : ℕ)
          → c < s.sp.nchs
          → l < s.sp.luns_per_ch
          → s.next_lun_avail_time c l ≤ ssd_next_idle_time s)
      × (ssd_next_idle_time s ≤ bound)
unfolding ssd_next_idle_time
ssd_next_idle_time_lem s bound h b =
    let all = latest_ch-le s.next_lun_avail_time s.sp.luns_per_ch s.sp.nchs 0 (s.clock 0) in
    (
      all.0,
      λ c l hc hl. all.1 c l (omega arith) (omega arith) hl,
      latest_ch-least s.next_lun_avail_time s.sp.luns_per_ch s.sp.nchs 0 (s.clock 0) bound h
          (λ c l lo hi m. b c l (omega arith) m),
    )
