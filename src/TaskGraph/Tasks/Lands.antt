-- ===== src/TaskGraph/Tasks/Lands.antt =====
-- src/taskgraph/tasks.ts, create: the state in which new work lands.
use shreni.Common.{
  String, Option, none, some, true, false, ◌==◌, ◌≡◌, ◌⊎◌, inl, inr, arith, Option-cases,
}
use shreni.TaskGraph.Lifecycle.{
  Lifecycle, is_terminal, leased_state, claimable_state, lookup, has_own,
}
use shreni.TaskGraph.Lifecycle.Rules.Registered
use shreni.TaskGraph.Lifecycle.Rules.Landing
use shreni.TaskGraph.Invariant.{IsRegistered}
use shreni.TaskGraph.Tasks.{landing, or_else}

module _ (lc : Lifecycle) (reg : IsRegistered lc) (role : String) where
  role_state :
      (or_else (lookup lc.create_by_role role) lc.create_state ≡ lc.create_state)
      ⊎ (or_else (lookup lc.create_by_role role) lc.create_state ≡ claimable_state lc)
  role_state = elim (Option-cases (lookup lc.create_by_role role)) [
    | inl e ↦ inl (ground (arith, e))
    | inr (q, e) ↦ ground (arith, e, Registered.by_role_lands lc reg.rules role q e)
  ]

  pub landing_live : (plan : Option String) → is_terminal lc (landing lc role plan) ≡ false
  landing_live none = ground (
    arith,
    role_state,
    Registered.create_state_live lc reg.rules,
    Registered.claimable_live lc reg.rules,
  )
  landing_live (some p) = Registered.create_state_live lc reg.rules

  pub landing_unleased : (plan : Option String) → (landing lc role plan == leased_state lc) ≡ false
  landing_unleased none = ground (
    arith,
    role_state,
    Registered.create_unleased lc reg.rules,
    Landing.claimable_unleased lc reg.rules reg.keys,
  )
  landing_unleased (some p) = Registered.create_unleased lc reg.rules

  pub landing_declared : (plan : Option String) → has_own lc.states (landing lc role plan) ≡ true
  landing_declared none = ground (
    arith,
    role_state,
    Registered.create_declared lc reg.rules,
    Landing.claimable_declared lc reg.rules reg.keys,
  )
  landing_declared (some p) = Registered.create_declared lc reg.rules
