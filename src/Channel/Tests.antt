-- ===== src/Channel/Tests.antt =====
-- The theorems on the channel model (nvmevirt/channel_model.c) at the PCIe link of the
-- configuration, 3360 MB/s, in a machine whose memory was zero.
use virtkv.Channel.Loop.{Scanned, consume-Scanned, slot}
use virtkv.Channel.Request.{completed, chmodel_request-IsValid, chmodel_request-credits}
use virtkv.Channel.Conserve.{total}
use virtkv.Channel.{
  ChannelModel, chmodel_init, move_head, Scan, consume, chmodel_request, nr_credit_entries, ok, ltb,
  some,
}
use virtkv.Channel.Invariant.{IsValid, chmodel_init-IsValid}
use virtkv.Common.{ℕ, arith, ◌≡◌, if◌then◌else◌, ok, ltb, some, ◌≤◌, ◌+◌, ◌<◌, ◌^◌, ◌⊎◌}

abbrev link : ChannelModel
link = chmodel_init 3360 (λ _. 0)

link_ok : IsValid link
link_ok = chmodel_init-IsValid 3360 (λ _. 0) (omega arith) (omega arith)

-- The link is asked for 4 KiB at 10000 ns, when the clock is at 2000 ns.
link_request-IsValid :
    (t : ℕ) × (ch : ChannelModel) × (chmodel_request link 2000 10000 4096 ≡ ok (t, ch))
    × IsValid ch
    × (10000 ≤ t)
    × (t ≤ 10000 + 2 ^ 33)
link_request-IsValid = chmodel_request-IsValid link 2000 10000 4096 link_ok (omega arith)

link_request-credits :
    (s : Scan) × (chmodel_request link 2000 10000 4096
      ≡ ok (completed (move_head link 2000) 10000 32 s))
    × (total nr_credit_entries s.credits + 32
        ≡ total nr_credit_entries (move_head link 2000).avail_credits + s.remaining)
    × ((i : ℕ)
        → i < nr_credit_entries
        → slot (move_head link 2000).head i < 2
        → s.credits i ≡ (move_head link 2000).avail_credits i)
    × ((s.remaining ≡ 0)
        ⊎ ((i : ℕ)
            → i < nr_credit_entries
            → 2 ≤ slot (move_head link 2000).head i
            → s.credits i ≡ 0))
unfolding chmodel_init move_head
link_request-credits =
    chmodel_request-credits link 2000 10000 4096 link_ok (omega arith) (omega arith)

-- Three slots of 10, 10 and 100 credits, of which a transfer wants 25.
abbrev scan : Scan
scan = record { credits = λ i. if ltb i 2 then 10 else 100; pos = 0; delay = 0; remaining = 25 }

consume-Scanned_example :
    (t : Scan) × (consume nr_credit_entries 0 scan ≡ some t) × Scanned 0 scan t
consume-Scanned_example =
    consume-Scanned nr_credit_entries 0 scan (omega arith) (omega arith) (omega arith)
