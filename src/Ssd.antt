-- ===== src/Ssd.antt =====
-- nvmevirt/ssd.h and ssd.c: the parameters of the emulated disk, its NAND timing and the write
-- buffer, for the configuration SAMSUNG_970PRO_HASH_DFTL of nvmevirt/ssd_config.h.
pub mod Buffer
pub mod Nand
pub mod Params
pub mod Ppa
pub mod Tests
