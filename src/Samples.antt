-- ===== src/Samples.antt =====
-- Concrete rows, and the theorems applied to them.
mod Rows
mod Engine
mod Edits
mod Plans
mod System
mod Worker
