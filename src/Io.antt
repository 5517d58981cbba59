-- ===== src/Io.antt =====
-- The I/O dispatcher and its workers (nvmevirt/io.c).
pub mod Queue
pub mod Reclaim
pub mod Worker
pub mod Rings
pub mod Tests
