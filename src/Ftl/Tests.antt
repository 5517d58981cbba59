-- ===== src/Ftl/Tests.antt =====
-- The theorems on addresses (nvmevirt/demand_ftl.c) on the disk of 64 MiB that `Ssd.Tests` lays out.
use virtkv.Ftl.Lines.Fresh.{Fresh, range, prepare_write_pointer-Fresh}
use virtkv.Ftl.Lines.{Writers, prepare_write_pointer, fresh_line, map_io, start_of_line}
use virtkv.Ftl.Address.Peek.{peek_next_page-NextPlace}
use virtkv.Ftl.Address.Walk.{NextPlace}
use virtkv.Ftl.Address.RoundTrip.{OnDisk, ppa2pgidx-ppa_to_struct, ppa_to_struct-ppa2pgidx}
use virtkv.Ftl.Address.{ppa2pgidx, ppa_to_struct, peek_next_page}
use virtkv.Ssd.Params.{fill_params}
use virtkv.Ssd.Ppa.{Ppa}
use virtkv.Ssd.Params.Bounds.{IsAddressable, ssd_init_params-IsAddressable}
use virtkv.Ssd.Tests.{disk_params, laid_out}
use virtkv.Ssd.Params.Capacity.{IsGeometry, ssd_init_params-capacity}
use virtkv.Common.{ℕ, ◌^◌, ◌≡◌, arith, ok, ◌<◌, refl, ◌-◌, ◌≢◌, []}

disk-IsGeometry : IsGeometry disk_params
disk-IsGeometry = (ssd_init_params-capacity (2 ^ 26) 1 disk_params (omega arith) laid_out).0

disk_addresses : IsAddressable disk_params
disk_addresses = ssd_init_params-IsAddressable (2 ^ 26) 1 disk_params (omega arith) laid_out

-- The last page of a wordline, in the last channel.
abbrev page : Ppa
page = record { pg = 7; blk = 3; pl = 0; lun = 2; ch = 7; rsv = 0 }

page-OnDisk : OnDisk disk_params page
unfolding fill_params
page-OnDisk = record {
  ch_in = omega arith;
  lun_in = omega arith;
  pl_in = omega arith;
  blk_in = omega arith;
  pg_in = omega arith;
  rsv_free = refl;
}

index_example :
    (i : ℕ) × (ppa2pgidx disk_params page ≡ ok i)
    × (i < disk_params.tt_pgs)
    × (ppa_to_struct disk_params i ≡ ok page)
index_example = ppa_to_struct-ppa2pgidx disk_params page disk-IsGeometry disk_addresses page-OnDisk

page_example :
    (ppa : Ppa) × (ppa_to_struct disk_params 16383 ≡ ok ppa)
    × OnDisk disk_params ppa
    × (ppa2pgidx disk_params ppa ≡ ok 16383)
unfolding fill_params
page_example =
    ppa2pgidx-ppa_to_struct disk_params 16383 disk-IsGeometry disk_addresses (omega arith)

peek_example : (q : Ppa) × (peek_next_page disk_params page ≡ ok q) × NextPlace disk_params page q
peek_example =
    peek_next_page-NextPlace disk_params page disk-IsGeometry disk_addresses page-OnDisk
      (omega arith)

-- The writers of a disk whose lines are handed out up to `k`.
abbrev writers : ℕ → Writers
writers k = record {
  lm = record {
    lines = fresh_line;
    free_line_list = range k (8 - k);
    full_line_list = [];
    tt_lines = 8;
    free_line_cnt = 8 - k;
    victim_line_cnt = 0;
    full_line_cnt = 0;
  };
  wps = λ io. start_of_line 0;
}

writers-Fresh : (k : ℕ) → Fresh 8 k (writers k).lm
writers-Fresh k = record { all = refl; free = refl; count = refl; new = λ i h lt. refl }

prepare_example :
    (s' : Writers) × (prepare_write_pointer (writers 3) map_io ≡ ok s')
    × Fresh 8 4 s'.lm
    × (s'.wps 2 ≡ start_of_line 3)
    × ((io : ℕ) → io ≢ 2 → s'.wps io ≡ start_of_line 0)
prepare_example =
    prepare_write_pointer-Fresh 8 3 (writers 3) 2 (omega arith) (omega arith) (omega arith)
      (writers-Fresh 3)
