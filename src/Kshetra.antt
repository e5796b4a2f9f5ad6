-- ===== src/Kshetra.antt =====
-- kshetra: what is kept of each Kshetra between two runs of its worker.
pub mod State
