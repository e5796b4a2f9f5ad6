-- ===== src/Ext/Spend.antt =====
-- src/ext/spend.ts: what a Kshetra's ledger of usage adds up to.
pub mod Ledger
use shreni.Common.{ℕ, ◌+◌, String, List, [], ◌∷◌, Bool, not, ◌&&◌, ◌==◌, if◌then◌else◌}
use shreni.Ext.Budget.{SpendSoFar}

-- What the sums read of an entry; a cost is in millionths of a dollar, to which it was rounded.
pub record UsageEntry : Type 0 where
  pub bead_id : String
  pub cost_usd : ℕ
  pub priced : Bool

abbrev pub spent_in : List UsageEntry → ℕ
spent_in [] = 0
spent_in (e ∷ es) = e.cost_usd + spent_in es

abbrev pub spent_on : String → List UsageEntry → ℕ
spent_on bead [] = 0
spent_on bead (e ∷ es) = (if e.bead_id == bead then e.cost_usd else 0) + spent_on bead es

abbrev pub unpriced_in : List UsageEntry → ℕ
unpriced_in [] = 0
unpriced_in (e ∷ es) = (if e.priced then 0 else 1) + unpriced_in es

abbrev pub unpriced_on : String → List UsageEntry → ℕ
unpriced_on bead [] = 0
unpriced_on bead (e ∷ es) =
    (if (e.bead_id == bead) && not e.priced then 1 else 0) + unpriced_on bead es

abbrev pub compute_spend : List UsageEntry → String → SpendSoFar
compute_spend entries bead = record {
  bead_usd = spent_on bead entries;
  kshetra_usd = spent_in entries;
  bead_unpriced_runs = unpriced_on bead entries;
  kshetra_unpriced_runs = unpriced_in entries;
}
