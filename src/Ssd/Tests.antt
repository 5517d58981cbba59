-- ===== src/Ssd/Tests.antt =====
-- The theorems on the disk (nvmevirt/ssd.c) at 64 MiB in one partition.
use virtkv.Ssd.Nand.Command.{ssd_advance_nand-Progress, ssd_advance_nand-leaks_lock}
use virtkv.Ssd.Nand.Advance.{InLimits, Progress}
use virtkv.Ssd.Nand.Init.{ssd_init, ssd_init-Timing}
use virtkv.Ssd.Nand.Channels.{Timing}
use virtkv.Ssd.Buffer.{
  Held, buffer_init, Accounts, buffer_allocate, buffer-Accounts, buffer_release, Uses, next, here,
  asks, returns, buffer_refill,
}
use virtkv.Ssd.Params.Bounds.{IsAddressable, ssd_init_params-IsAddressable}
use virtkv.Ssd.Ppa.{Ppa, mapped_ppa}
use virtkv.Ssd.Nand.{Ssd, NandCmd, nand_read, ssd_advance_nand}
use virtkv.Ssd.Params.{SsdParams, ssd_init_params, fill_params, config_blk_size, block_geometry}
use virtkv.Ssd.Params.Capacity.{IsGeometry, ssd_init_params-capacity}
use virtkv.Common.{ℕ, ◌^◌, ◌<◌, ◌+◌, ◌≡◌, ◌/◌, arith, false, true, ok, ◌≤◌, ◌*◌, refl, stuck, inr}

abbrev pub disk_params : SsdParams
disk_params = fill_params config_blk_size 8 8

pub laid_out : ssd_init_params (2 ^ 26) 1 ≡ ok disk_params
unfolding ssd_init_params block_geometry
laid_out = refl

abbrev disk : Ssd
disk = ssd_init disk_params (λ c i. 0) (λ i. 0) (λ n. 5000 + n)

disk_ok :
    Timing disk
    × (disk.adv_spin ≡ false)
    × ((ncmd : NandCmd) (start : ℕ)
        → ncmd.ppa.ch < 8
        → ncmd.xfer_size ≤ 2 ^ 20
        → start < 2 ^ 61
        → InLimits disk ncmd start)
unfolding fill_params
disk_ok = ssd_init-Timing (2 ^ 26) 1 disk_params (λ c i. 0) (λ i. 0) (λ n. 5000 + n) laid_out

abbrev page : Ppa
page = record { pg = 9; blk = 3; pl = 0; lun = 2; ch = 1; rsv = 0 }

-- A page is read at 7000 ns.
abbrev read_page : NandCmd
read_page = record {
  cmd = nand_read;
  xfer_size = 4096;
  stime = 7000;
  interleave_pci_dma = true;
  ppa = page;
}

capacity_example :
    IsGeometry disk_params
    × (2 ^ 26 / 1 ≤ disk_params.tt_pgs * disk_params.pgsz)
    × (disk_params.tt_pgs * disk_params.pgsz
        < 2 ^ 26 / 1 + disk_params.pgs_per_line * disk_params.pgsz)
capacity_example = ssd_init_params-capacity (2 ^ 26) 1 disk_params (omega arith) laid_out

IsAddressable_example : IsAddressable disk_params
IsAddressable_example = ssd_init_params-IsAddressable (2 ^ 26) 1 disk_params (omega arith) laid_out

-- Of 100 bytes 30 are taken and 10 given back.
abbrev used : Held
used = record { buffer = record { size = 100; remaining = 80 }; held = 20 }

uses : Uses (record { buffer = buffer_init 100; held = 0 }) used
unfolding buffer_init buffer_allocate buffer_release
uses =
    next
      (next here (
        asks (record { buffer = record { size = 100; remaining = 100 }; held = 0 }) 30
          (omega arith)))
      (returns (record { buffer = record { size = 100; remaining = 70 }; held = 30 }) 10
        (omega arith))

buffer-Accounts_example : Accounts 100 used × (buffer_refill used.buffer ≡ buffer_init 100)
buffer-Accounts_example = buffer-Accounts 100 used (omega arith) uses

ssd_init-Timing_example :
    Timing disk
    × (disk.adv_spin ≡ false)
    × ((ncmd : NandCmd) (start : ℕ)
        → ncmd.ppa.ch < disk_params.nchs
        → ncmd.xfer_size ≤ 2 ^ 20
        → start < 2 ^ 61
        → InLimits disk ncmd start)
ssd_init-Timing_example =
    ssd_init-Timing (2 ^ 26) 1 disk_params (λ c i. 0) (λ i. 0) (λ n. 5000 + n) laid_out

read_example :
    (t : ℕ) × (s' : Ssd) × (ssd_advance_nand disk read_page ≡ ok (t, s'))
    × Progress disk read_page 7000 t s'
    × (s'.adv_spin ≡ false)
unfolding ssd_init mapped_ppa fill_params
read_example =
    ssd_advance_nand-Progress disk read_page disk_ok.0 refl
      (disk_ok.2 read_page 7000 (omega arith) (omega arith) (omega arith)) refl (omega arith)
      (omega arith)

-- A command that does not exist.
leaks_lock_example :
    (t : ℕ) × (s' : Ssd) × (ssd_advance_nand disk (record read_page { cmd = 7 }) ≡ ok (t, s'))
    × (ssd_advance_nand s' read_page ≡ stuck)
unfolding ssd_init
leaks_lock_example =
    ssd_advance_nand-leaks_lock disk (record read_page { cmd = 7 }) read_page refl
      (inr (omega arith))
