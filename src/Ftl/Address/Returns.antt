-- ===== src/Ftl/Address/Returns.antt =====
-- The address arithmetic of nvmevirt/demand_ftl.c returns, or an assertion of it fails.
use virtkv.Ftl.Address.{ppa_to_struct, ppa2pgidx, peek_next_page}
use virtkv.Ssd.Params.{SsdParams}
use virtkv.Ssd.Ppa.{Ppa, page_bits, ch_bits}
use virtkv.Common.{ℕ, ◌+◌, ◌*◌, ◌%◌, ◌^◌, ◌==◌, u32, ltb, Safe, safe_ok, then_Safe, if_Safe}

pub ppa_to_struct-Safe : (spp : SsdParams) (i : ℕ) → Safe (λ p. Unit {0}) (ppa_to_struct spp i)
unfolding ppa_to_struct
ppa_to_struct-Safe spp i = then_Safe (ltb i spp.tt_pgs) (λ fits. safe_ok tt)

pub ppa2pgidx-Safe : (spp : SsdParams) (p : Ppa) → Safe (λ i. Unit {0}) (ppa2pgidx spp p)
unfolding ppa2pgidx
ppa2pgidx-Safe spp p =
    let pgidx = u32 (
      p.ch * spp.pgs_per_ch
      + p.lun * spp.pgs_per_lun
      + p.pl * spp.pgs_per_pl
      + p.blk * spp.pgs_per_blk
      + p.pg) in
    then_Safe (ltb pgidx spp.tt_pgs) (λ fits. safe_ok tt)

pub peek_next_page-Safe : (spp : SsdParams) (p : Ppa) → Safe (λ q. Unit {0}) (peek_next_page spp p)
unfolding peek_next_page
peek_next_page-Safe spp p =
    if_Safe ((p.pg + 1) % 2 ^ page_bits % spp.pgs_per_oneshotpg == 0)
      (λ end. then_Safe (ltb p.ch spp.nchs) (λ ch.
        if_Safe ((p.ch + 1) % 2 ^ ch_bits == spp.nchs)
          (λ last. then_Safe (ltb p.lun spp.luns_per_ch) (λ lun. safe_ok tt)) (λ more. safe_ok tt)))
      (λ within. safe_ok tt)
