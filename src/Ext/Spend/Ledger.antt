-- ===== src/Ext/Spend/Ledger.antt =====
-- src/ext/spend.ts and budget-policy.ts: how far a ledger of permitted runs may pass its caps.
use shreni.Common.{
  ℕ, ◌+◌, ◌≤◌, String, Option, none, some, List, [], ◌∷◌, true, ◌==◌, ==_iff, ◌≡◌, sym, ap, ◌∙◌,
  subst, arith, Bool-cases, inl, inr,
}
use shreni.Ext.Budget.{BudgetConfig, PolicyRunContext, PolicySource, make_budget_policy}
use shreni.Ext.Budget.Caps.{is_allowed, Below, Within, may_proceed-Within_iff}
use shreni.Ext.Spend.{UsageEntry, spent_in, spent_on, compute_spend}

-- A ledger, newest entry first: each run was permitted on the ledger before it, and cost no more than `most`.
pub data Ledger {ℓ κ} {Request : Type ℓ} {Selection : Type κ}
    (inner_policy : PolicySource Request Selection) (resolve_budget : String → Option BudgetConfig)
    (k : String) (most : ℕ) : List UsageEntry → Type (ℓ ⊔ κ) where
  no_run : Ledger inner_policy resolve_budget k most []
  ran :
      {es : List UsageEntry} (run : PolicyRunContext) (e : UsageEntry)
      → Ledger inner_policy resolve_budget k most es
      → run.kshetra ≡ k
      → is_allowed (
          (make_budget_policy inner_policy resolve_budget (λ j b. compute_spend es b)).may_proceed
            run)
        ≡ true
      → e.bead_id ≡ run.bead_id
      → e.cost_usd ≤ most
      → Ledger inner_policy resolve_budget k most (e ∷ es)

abbrev pub AtMost : Option ℕ → ℕ → ℕ → Type 0
AtMost none most spent = Unit {0}
AtMost (some cap) most spent = spent ≤ cap + most

at_start : (cap : Option ℕ) (most : ℕ) → AtMost cap most 0
at_start none most = tt
at_start (some cap) most = ground arith

one_run :
    (cap : Option ℕ) (most cost spent : ℕ)
    → Below cap spent
    → cost ≤ most
    → AtMost cap most (cost + spent)
one_run none most cost spent below costs = tt
one_run (some cap) most cost spent below costs = ground (arith, below, costs)

other_run : (cap : Option ℕ) (most spent : ℕ) → AtMost cap most spent → AtMost cap most (0 + spent)
other_run none most spent before = tt
other_run (some cap) most spent before = ground (arith, before)

-- Where a Kshetra has a budget, a ledger of runs of which each was permitted on the ledger before it,
-- and none of which cost more than some amount, passes neither the cap of a bead nor that of the
-- Kshetra, where it is set, by more than that amount.
pub Ledger-caps {ℓ κ} :
    {Request : Type ℓ} {Selection : Type κ} (inner_policy : PolicySource Request Selection)
    (resolve_budget : String → Option BudgetConfig) (k : String) (most : ℕ) (caps : BudgetConfig)
    (bead : String) (es : List UsageEntry)
    → resolve_budget k ≡ some caps
    → Ledger inner_policy resolve_budget k most es
    → AtMost caps.per_bead_usd most (spent_on bead es)
      × AtMost caps.per_kshetra_usd most (spent_in es)
Ledger-caps inner_policy resolve_budget k most caps bead es set no_run =
    (at_start caps.per_bead_usd most, at_start caps.per_kshetra_usd most)
Ledger-caps inner_policy resolve_budget k most caps bead es set
      (ran {es = before} run e l here permitted same costs) =
    let allowed_then =
      (may_proceed-Within_iff inner_policy resolve_budget (λ j b. compute_spend before b) run).0
        permitted in
    let within : Within (some caps) (compute_spend before run.bead_id) =
      subst (λ b. Within b (compute_spend before run.bead_id)) (ap resolve_budget here ∙ set)
        allowed_then.1 in
    let earlier = Ledger-caps inner_policy resolve_budget k most caps bead before set l in
    (
      elim (Bool-cases (e.bead_id == bead)) [
        | inl mine ↦ subst (AtMost caps.per_bead_usd most) (ground (arith, mine)) (
            one_run caps.per_bead_usd most e.cost_usd (spent_on bead before)
              (subst (λ b. Below caps.per_bead_usd (spent_on b before))
                (sym same ∙ (==_iff e.bead_id bead).0 mine) within.0)
              costs)
        | inr other ↦
            subst (AtMost caps.per_bead_usd most) {x = 0 + spent_on bead before}
              (ground (arith, other))
              (other_run caps.per_bead_usd most (spent_on bead before) earlier.0)
      ],
      one_run caps.per_kshetra_usd most e.cost_usd (spent_in before) within.1 costs,
    )
