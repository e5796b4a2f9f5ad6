-- ===== src/Policy/Lifecycle.antt =====
-- src/policy/lifecycle/lifecycle.ts: Shreni's task lifecycle, eight states and fourteen moves.
use shreni.Common.{ℕ, arith, String, none, some, List, [], ◌∷◌, true, false, ◌≡◌, refl, ◌==◌}
use shreni.TaskGraph.Types.{StateFlags}
use shreni.TaskGraph.Lifecycle.{
  Move, Call, tasks_create, tasks_update, tasks_delete, deps_add, deps_remove, links_add, notes_add,
  plans_create, plans_validate, lifecycles_activate, Allowed, any_state, in_states, Lifecycle,
}
use shreni.TaskGraph.Lifecycle.Rules.{lifecycle_violations}
use shreni.TaskGraph.Invariant.{IsRegistered}
use shreni.TaskGraph.Sweep.Keeps.{ReturnsLeases}
use shreni.Policy.Guards.{has_open_pr, checks_passed, children_settled, checks_confirmed}

abbrev plain : StateFlags
plain = record { claimable = false; leased = false; satisfies_deps = false; terminal = false }

abbrev non_terminal : List String
non_terminal = "proposed" ∷ "open" ∷ "claimed" ∷ "waiting" ∷ "blocked" ∷ "parked" ∷ []

abbrev pub plain_move : String → List String → String → List String → Move
plain_move name from to by = record {
  name = name;
  from = from;
  to = to;
  by = by;
  guard = none;
  boost = false;
  clears_boost = false;
}

abbrev pub task_moves : List Move
task_moves =
    plain_move "approve" ("proposed" ∷ []) "open" ("developer" ∷ [])
    ∷ plain_move "claim" ("open" ∷ []) "claimed" ("orchestrator" ∷ "developer" ∷ [])
    ∷ plain_move "release" ("claimed" ∷ []) "open" ("orchestrator" ∷ "developer" ∷ [])
    ∷ plain_move "expire" ("claimed" ∷ []) "open" ("system" ∷ [])
    ∷ record (plain_move "submit" ("claimed" ∷ []) "waiting" ("orchestrator" ∷ [])) {
      guard = some has_open_pr;
      clears_boost = true;
    }
    ∷ record (plain_move "finish" ("claimed" ∷ "waiting" ∷ []) "done"
        ("orchestrator" ∷ "developer" ∷ [])) { guard = some checks_passed; clears_boost = true }
    ∷ record (plain_move "followUp" ("waiting" ∷ []) "open" ("orchestrator" ∷ [])) { boost = true }
    ∷ plain_move "flag" ("open" ∷ "claimed" ∷ "waiting" ∷ []) "blocked"
        ("orchestrator" ∷ "system" ∷ [])
    ∷ plain_move "unblock" ("blocked" ∷ []) "open" ("developer" ∷ [])
    ∷ record (plain_move "confirm" ("blocked" ∷ []) "done" ("developer" ∷ [])) {
      guard = some checks_confirmed;
      clears_boost = true;
    }
    ∷ plain_move "park" ("proposed" ∷ "open" ∷ "blocked" ∷ []) "parked" ("developer" ∷ [])
    ∷ plain_move "unpark" ("parked" ∷ []) "open" ("developer" ∷ [])
    ∷ record (plain_move "cancel" non_terminal "cancelled" ("developer" ∷ [])) {
      clears_boost = true;
    }
    ∷ record (plain_move "completeContainer" ("open" ∷ []) "done"
        ("orchestrator" ∷ "developer" ∷ [])) { guard = some children_settled }
    ∷ []

abbrev proposed_only : Allowed
proposed_only = in_states ("proposed" ∷ [])

abbrev pub task_permissions : List (Call × List (String × Allowed))
task_permissions =
    (
      tasks_create,
      ("developer", any_state)
          ∷ ("planner", any_state)
          ∷ ("system", any_state)
          ∷ ("agent", any_state)
          ∷ [],
    )
    ∷ (
      tasks_update,
      ("developer", in_states ("proposed" ∷ "open" ∷ "blocked" ∷ "parked" ∷ []))
          ∷ ("planner", proposed_only)
          ∷ [],
    )
    ∷ (tasks_delete, ("developer", proposed_only) ∷ ("planner", proposed_only) ∷ [])
    ∷ (deps_add, ("developer", any_state) ∷ ("planner", proposed_only) ∷ [])
    ∷ (deps_remove, ("developer", any_state) ∷ ("planner", proposed_only) ∷ [])
    ∷ (
      links_add,
      ("developer", any_state)
          ∷ ("planner", any_state)
          ∷ ("orchestrator", any_state)
          ∷ ("agent", any_state)
          ∷ [],
    )
    ∷ (
      notes_add,
      ("developer", any_state) ∷ ("orchestrator", any_state) ∷ ("agent", any_state) ∷ [],
    )
    ∷ (plans_create, ("developer", any_state) ∷ ("planner", any_state) ∷ [])
    ∷ (plans_validate, ("developer", any_state) ∷ ("planner", any_state) ∷ [])
    ∷ (lifecycles_activate, ("developer", any_state) ∷ [])
    ∷ []

abbrev pub task_states : List (String × StateFlags)
task_states =
    ("proposed", plain)
    ∷ ("open", record plain { claimable = true })
    ∷ ("claimed", record plain { leased = true })
    ∷ ("waiting", plain)
    ∷ ("blocked", plain)
    ∷ ("parked", plain)
    ∷ ("done", record plain { satisfies_deps = true; terminal = true })
    ∷ ("cancelled", record plain { terminal = true })
    ∷ []

abbrev pub task_lifecycle : Lifecycle
task_lifecycle = record {
  name = "shreni.task";
  version = 2;
  states = task_states;
  create_state = "proposed";
  create_by_role = ("system", "open") ∷ [];
  moves = task_moves;
  permissions = task_permissions;
  hooks = record {
    on_approve = "approve";
    on_claim = "claim";
    on_discard = "cancel";
    on_lease_expiry = "expire";
    on_repeated_expiry = some (3, "flag");
  };
  migrate = [];
}

-- It registers.
task_lifecycle_registers : lifecycle_violations task_lifecycle ≡ []
unfolding lifecycle_violations ◌==◌
task_lifecycle_registers = refl

pub task_lifecycle-IsRegistered : IsRegistered task_lifecycle
unfolding ◌==◌
task_lifecycle-IsRegistered = record { rules = task_lifecycle_registers; keys = refl }

repeated_apart :
    (after : ℕ) (n : String)
    → task_lifecycle.hooks.on_repeated_expiry ≡ some (after, n)
    → (n == "claim") ≡ false
repeated_apart after n h = ground (arith, flag_apart)
  where
    flag_apart : ("flag" == "claim") ≡ false
    flag_apart = unfold ◌==◌ in refl

pub task_lifecycle-ReturnsLeases : ReturnsLeases task_lifecycle
unfolding ◌==◌
task_lifecycle-ReturnsLeases = record { first = refl; repeated = repeated_apart }
