-- ===== src/Ext/Budget/Caps.antt =====
-- src/ext/budget-policy.ts: when a run may proceed under the caps.
use shreni.Common.{
  ℕ, String, Option, none, some, Bool, true, false, not, ◌∙◌, ◌&&◌, ◌<◌, ◌≡◌, ◌↔◌, refl, arith,
  Option-cases,
}
use shreni.Ext.Budget.{
  BudgetConfig, SpendSoFar, PolicyRunContext, PolicyDecision, allowed, denied, PolicySource,
  is_over, budget_decision, and_then, make_budget_policy,
}

abbrev pub is_allowed : PolicyDecision → Bool
is_allowed allowed = true
is_allowed (denied why) = false

abbrev pub Below : Option ℕ → ℕ → Type 0
Below none spent = Unit {0}
Below (some cap) spent = spent < cap

abbrev pub Within : Option BudgetConfig → SpendSoFar → Type 0
Within none spend = Unit {0}
Within (some caps) spend =
    Below caps.per_bead_usd spend.bead_usd × Below caps.per_kshetra_usd spend.kshetra_usd

is_over-Below_iff : (cap : Option ℕ) (spent : ℕ) → (is_over cap spent ≡ false) ↔ Below cap spent
is_over-Below_iff none spent = ((λ h. tt), (λ h. refl))
is_over-Below_iff (some cap) spent = ((λ h. ground (arith, h)), (λ h. ground (arith, h)))

budget_decision-Within_iff :
    (b : Option BudgetConfig) (spend : SpendSoFar)
    → (is_allowed (budget_decision b spend) ≡ true) ↔ Within b spend
budget_decision-Within_iff none spend = ((λ h. tt), (λ h. refl))
budget_decision-Within_iff (some caps) spend =
    let bead = is_over-Below_iff caps.per_bead_usd spend.bead_usd in
    let all_beads = is_over-Below_iff caps.per_kshetra_usd spend.kshetra_usd in
    let same : is_allowed (budget_decision (some caps) spend) ≡ (
        not (is_over caps.per_bead_usd spend.bead_usd)
        && not (is_over caps.per_kshetra_usd spend.kshetra_usd)) =
      ground (arith, Option-cases caps.per_bead_usd, Option-cases caps.per_kshetra_usd) in
    (
      (λ h. (bead.0 (ground (arith, h, same)), all_beads.0 (ground (arith, h, same)))),
      λ (a, b). same ∙ ground (arith, bead.1 a, all_beads.1 b),
    )

pub may_proceed-Within_iff {ℓ κ} :
    {Request : Type ℓ} {Selection : Type κ} (inner_policy : PolicySource Request Selection)
    (resolve_budget : String → Option BudgetConfig) (read_spend : String → String → SpendSoFar)
    (run : PolicyRunContext)
    → (is_allowed ((make_budget_policy inner_policy resolve_budget read_spend).may_proceed run)
        ≡ true)
      ↔ ((is_allowed (inner_policy.may_proceed run) ≡ true)
          × Within (resolve_budget run.kshetra) (read_spend run.kshetra run.bead_id))
unfolding make_budget_policy
may_proceed-Within_iff inner_policy resolve_budget read_spend run =
    let caps =
      budget_decision-Within_iff (resolve_budget run.kshetra)
        (read_spend run.kshetra run.bead_id) in
    go (inner_policy.may_proceed run) caps
  where
    go :
        (d : PolicyDecision)
        → ((is_allowed
                (budget_decision (resolve_budget run.kshetra) (read_spend run.kshetra run.bead_id))
              ≡ true)
            ↔ Within (resolve_budget run.kshetra) (read_spend run.kshetra run.bead_id))
        → (is_allowed (
              and_then d
                (budget_decision (resolve_budget run.kshetra) (read_spend run.kshetra run.bead_id)))
            ≡ true)
          ↔ ((is_allowed d ≡ true)
              × Within (resolve_budget run.kshetra) (read_spend run.kshetra run.bead_id))
    go allowed caps = ((λ h. (refl, caps.0 h)), (λ (a, b). caps.1 b))
    go (denied why) caps =
        ((λ h. absurd (ground (arith, h))), (λ (a, b). absurd (ground (arith, a))))
