-- ===== src/Ssd/Params.antt =====
-- `struct ssdparams` and `ssd_init_params` (nvmevirt/ssd.h, ssd.c), with the constants of
-- nvmevirt/ssd_config.h for SAMSUNG_970PRO_HASH_DFTL. The numbers are exact, as they are in C as long
-- as those of `int` type fit, which they do below 2 ^ 48 bytes.
pub mod Capacity
pub mod Bounds
use virtkv.Common.{
  ℕ, ◌+◌, ◌-◌, ◌*◌, ◌/◌, ◌%◌, ◌^◌, Bool, true, false, ltb, ◌==◌, ◌&&◌, not, if◌then◌else◌,
  div_round_up, Outcome, ok, nvmev_assert, ◌>>=◌, ◌>>◌, ◌||◌,
}

-- KB(k)
abbrev pub kb : ℕ → ℕ
kb k = k * 2 ^ 10

abbrev pub pagesize : ℕ
pagesize = kb 4

abbrev pub nand_channels : ℕ
nand_channels = 8

abbrev pub luns_per_nand_ch : ℕ
luns_per_nand_ch = 8

abbrev pub plns_per_lun : ℕ
plns_per_lun = 1

abbrev pub flash_page_size : ℕ
flash_page_size = kb 32

abbrev pub oneshot_page_size : ℕ
oneshot_page_size = flash_page_size * 1

abbrev pub config_blks_per_pln : ℕ
config_blks_per_pln = 0

abbrev pub config_blk_size : ℕ
config_blk_size = kb 128

abbrev pub cell_mode_mlc : ℕ
cell_mode_mlc = 2

-- Latencies by cell type: CELL_TYPE_LSB is 0, CELL_TYPE_MSB 1 and CELL_TYPE_CSB 2.
abbrev pub nand_4kb_read_latency : ℕ → ℕ
nand_4kb_read_latency cell =
    if cell == 0 then 35760 - 6000 else if cell == 1 then 35760 + 6000 else 0

abbrev pub nand_read_latency : ℕ → ℕ
nand_read_latency cell = if cell == 0 then 36013 - 6000 else if cell == 1 then 36013 + 6000 else 0

-- `struct ssdparams`, less its last four fields, which `demand_ftl.c` sets. The arrays by cell type are
-- functions of the cell.
pub record SsdParams : Type 0 where
  pub secsz : ℕ
  pub secs_per_pg : ℕ
  pub pgsz : ℕ
  pub pgs_per_flashpg : ℕ
  pub flashpgs_per_blk : ℕ
  pub pgs_per_oneshotpg : ℕ
  pub oneshotpgs_per_blk : ℕ
  pub pgs_per_blk : ℕ
  pub blks_per_pl : ℕ
  pub pls_per_lun : ℕ
  pub luns_per_ch : ℕ
  pub nchs : ℕ
  pub cell_mode : ℕ
  pub write_unit_size : ℕ
  pub write_early_completion : Bool
  pub pg_4kb_rd_lat : ℕ → ℕ
  pub pg_rd_lat : ℕ → ℕ
  pub pg_wr_lat : ℕ
  pub blk_er_lat : ℕ
  pub max_ch_xfer_size : ℕ
  pub fw_4kb_rd_lat : ℕ
  pub fw_rd_lat : ℕ
  pub fw_wbuf_lat0 : ℕ
  pub fw_wbuf_lat1 : ℕ
  pub fw_ch_xfer_lat : ℕ
  pub ch_bandwidth : ℕ
  pub pcie_bandwidth : ℕ
  pub secs_per_blk : ℕ
  pub secs_per_pl : ℕ
  pub secs_per_lun : ℕ
  pub secs_per_ch : ℕ
  pub tt_secs : ℕ
  pub pgs_per_pl : ℕ
  pub pgs_per_lun : ℕ
  pub pgs_per_ch : ℕ
  pub tt_pgs : ℕ
  pub blks_per_lun : ℕ
  pub blks_per_ch : ℕ
  pub tt_blks : ℕ
  pub secs_per_line : ℕ
  pub pgs_per_line : ℕ
  pub flashpgs_per_line : ℕ
  pub blks_per_line : ℕ
  pub tt_lines : ℕ
  pub pls_per_ch : ℕ
  pub tt_pls : ℕ
  pub tt_luns : ℕ
  pub write_buffer_size : ℕ

-- `blk_size` and `blks_per_pl` for one partition of `nchs` channels and `capacity` bytes.
unfoldable pub block_geometry : ℕ → ℕ → ℕ × ℕ
block_geometry capacity nchs =
    if ltb 0 config_blks_per_pln
    then (
      div_round_up capacity (config_blks_per_pln * plns_per_lun * luns_per_nand_ch * nchs),
      config_blks_per_pln,
    )
    else (
      config_blk_size,
      div_round_up capacity (config_blk_size * plns_per_lun * luns_per_nand_ch * nchs),
    )

-- The assignments of `ssd_init_params`, from the size of a block, the blocks of a plane and the
-- channels of the partition.
unfoldable pub fill_params : ℕ → ℕ → ℕ → SsdParams
fill_params blk_size blks_per_pl nchs = record {
  secsz = 512;
  secs_per_pg = secs_per_pg;
  pgsz = pgsz;
  pgs_per_flashpg = pgs_per_flashpg;
  flashpgs_per_blk = oneshot_page_size / flash_page_size * oneshotpgs_per_blk;
  pgs_per_oneshotpg = pgs_per_oneshotpg;
  oneshotpgs_per_blk = oneshotpgs_per_blk;
  pgs_per_blk = pgs_per_blk;
  blks_per_pl = blks_per_pl;
  pls_per_lun = plns_per_lun;
  luns_per_ch = luns_per_nand_ch;
  nchs = nchs;
  cell_mode = cell_mode_mlc;
  write_unit_size = 512;
  write_early_completion = true;
  pg_4kb_rd_lat = nand_4kb_read_latency;
  pg_rd_lat = nand_read_latency;
  pg_wr_lat = 185000;
  blk_er_lat = 0;
  max_ch_xfer_size = kb 16;
  fw_4kb_rd_lat = 21500;
  fw_rd_lat = 30490;
  fw_wbuf_lat0 = 4000;
  fw_wbuf_lat1 = 460;
  fw_ch_xfer_lat = 0;
  ch_bandwidth = 800;
  pcie_bandwidth = 3360;
  secs_per_blk = secs_per_pg * pgs_per_blk;
  secs_per_pl = secs_per_pg * pgs_per_blk * blks_per_pl;
  secs_per_lun = secs_per_pg * pgs_per_blk * blks_per_pl * plns_per_lun;
  secs_per_ch = secs_per_pg * pgs_per_blk * blks_per_pl * plns_per_lun * luns_per_nand_ch;
  tt_secs = secs_per_pg * pgs_per_blk * blks_per_pl * plns_per_lun * luns_per_nand_ch * nchs;
  pgs_per_pl = pgs_per_blk * blks_per_pl;
  pgs_per_lun = pgs_per_blk * blks_per_pl * plns_per_lun;
  pgs_per_ch = pgs_per_blk * blks_per_pl * plns_per_lun * luns_per_nand_ch;
  tt_pgs = pgs_per_blk * blks_per_pl * plns_per_lun * luns_per_nand_ch * nchs;
  blks_per_lun = blks_per_pl * plns_per_lun;
  blks_per_ch = blks_per_pl * plns_per_lun * luns_per_nand_ch;
  tt_blks = blks_per_pl * plns_per_lun * luns_per_nand_ch * nchs;
  secs_per_line = pgs_per_line * secs_per_pg;
  pgs_per_line = pgs_per_line;
  flashpgs_per_line = pgs_per_line / pgs_per_flashpg;
  blks_per_line = luns_per_nand_ch * nchs;
  tt_lines = blks_per_pl * plns_per_lun;
  pls_per_ch = plns_per_lun * luns_per_nand_ch;
  tt_pls = plns_per_lun * luns_per_nand_ch * nchs;
  tt_luns = luns_per_nand_ch * nchs;
  write_buffer_size = nand_channels * luns_per_nand_ch * oneshot_page_size * 2;
}
  where
    secs_per_pg : ℕ
    secs_per_pg = pagesize / 512

    pgsz : ℕ
    pgsz = 512 * secs_per_pg

    pgs_per_flashpg : ℕ
    pgs_per_flashpg = flash_page_size / pgsz

    pgs_per_oneshotpg : ℕ
    pgs_per_oneshotpg = oneshot_page_size / pgsz

    oneshotpgs_per_blk : ℕ
    oneshotpgs_per_blk = div_round_up blk_size oneshot_page_size

    pgs_per_blk : ℕ
    pgs_per_blk = pgs_per_oneshotpg * oneshotpgs_per_blk

    pgs_per_line : ℕ
    pgs_per_line = luns_per_nand_ch * nchs * pgs_per_blk

-- `ssd_init_params`. `nparts` of 0 divides by zero.
unfoldable pub ssd_init_params : ℕ → ℕ → Outcome SsdParams
ssd_init_params capacity nparts = do
  nvmev_assert (not (nparts == 0))
  nvmev_assert (nand_channels % nparts == 0)
  nvmev_assert (ltb 0 config_blks_per_pln || ltb 0 config_blk_size)
  nvmev_assert (oneshot_page_size % pagesize == 0 && flash_page_size % pagesize == 0)
  nvmev_assert (oneshot_page_size % flash_page_size == 0)
  let nchs = nand_channels / nparts
  let (blk_size, blks_per_pl) = block_geometry (capacity / nparts) nchs
  ok (fill_params blk_size blks_per_pl nchs)
