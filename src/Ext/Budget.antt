-- ===== src/Ext/Budget.antt =====
-- src/ext/budget-policy.ts: the caps on what a bead and a Kshetra may spend.
pub mod Caps
use shreni.Common.{
  ℕ, String, Option, none, some, Bool, true, false, not, ◌&&◌, ◌||◌, leb, is_none, if◌then◌else◌,
}

-- Amounts are whole numbers of a unit small enough for all that are compared.
pub record BudgetConfig : Type 0 where
  pub per_bead_usd : Option ℕ
  pub per_kshetra_usd : Option ℕ

pub record SpendSoFar : Type 0 where
  pub bead_usd : ℕ
  pub kshetra_usd : ℕ
  pub bead_unpriced_runs : ℕ
  pub kshetra_unpriced_runs : ℕ

pub record PolicyRunContext : Type 0 where
  pub kshetra : String
  pub bead_id : String

-- Why a run is denied: by the policy inside, or by a cap, with what was spent and the cap.
pub data Denial : Type 0 where
  inner : String → Denial
  bead_cap : ℕ → ℕ → Denial
  kshetra_cap : ℕ → ℕ → Denial

pub data PolicyDecision : Type 0 where
  allowed : PolicyDecision
  denied : Denial → PolicyDecision

-- A policy: the model it selects for a request, and whether a run may proceed.
pub record PolicySource {ℓ κ} (Request : Type ℓ) (Selection : Type κ) : Type (ℓ ⊔ κ) where
  pub select_model : Request → Selection
  pub may_proceed : PolicyRunContext → PolicyDecision

abbrev pub is_uncapped : Option BudgetConfig → Bool
is_uncapped none = true
is_uncapped (some b) = is_none b.per_bead_usd && is_none b.per_kshetra_usd

abbrev pub is_over : Option ℕ → ℕ → Bool
is_over none spent = false
is_over (some cap) spent = leb cap spent

abbrev pub cap_of : Option ℕ → ℕ
cap_of none = 0
cap_of (some cap) = cap

abbrev pub under_caps : BudgetConfig → SpendSoFar → PolicyDecision
under_caps caps spend =
    if is_over caps.per_bead_usd spend.bead_usd
    then denied (bead_cap spend.bead_usd (cap_of caps.per_bead_usd))
    else if is_over caps.per_kshetra_usd spend.kshetra_usd
    then denied (kshetra_cap spend.kshetra_usd (cap_of caps.per_kshetra_usd))
    else allowed

abbrev pub budget_decision : Option BudgetConfig → SpendSoFar → PolicyDecision
budget_decision none spend = allowed
budget_decision (some caps) spend =
    if is_uncapped (some caps) then allowed else under_caps caps spend

abbrev pub and_then : PolicyDecision → PolicyDecision → PolicyDecision
and_then allowed d = d
and_then (denied why) d = denied why

-- makeBudgetPolicy, with the reads of the registry and of the usage ledger.
unfoldable pub make_budget_policy {ℓ κ} :
    {Request : Type ℓ} {Selection : Type κ}
    → PolicySource Request Selection
    → (String → Option BudgetConfig)
    → (String → String → SpendSoFar)
    → PolicySource Request Selection
make_budget_policy inner_policy resolve_budget read_spend = record {
  select_model = inner_policy.select_model;
  may_proceed = λ run.
      and_then (inner_policy.may_proceed run)
        (budget_decision (resolve_budget run.kshetra) (read_spend run.kshetra run.bead_id));
}
