-- ===== src/Ext.antt =====
-- ext: the policy that may stop a run, and the sums that it reads.
pub mod Budget
pub mod Spend
