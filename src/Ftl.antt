-- ===== src/Ftl.antt =====
-- nvmevirt/demand_ftl.c and demand_ftl.h: the flash translation layer.
pub mod Address
pub mod Lines
pub mod Grains
pub mod Tests
