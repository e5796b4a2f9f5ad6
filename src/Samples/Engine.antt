-- ===== src/Samples/Engine.antt =====
-- The engine's theorems at these rows.
use shreni.Common.{Option, none, some, [], ◌∷◌, true, false, ◌≡◌, refl, ◌==◌, text_lt, inl, inr}
use shreni.TaskGraph.Types.{Task}
use shreni.TaskGraph.Errors.{Result, ok, err}
use shreni.TaskGraph.Store.{Store}
use shreni.TaskGraph.Lifecycle.{
  is_terminal, leased_state, claimable_state, satisfies, terminal_states, move_named,
  check_permission,
}
use shreni.TaskGraph.Invariant.{Inv}
use shreni.TaskGraph.Invariant.Decided.{inv_test, inv_test-Inv}
use shreni.TaskGraph.Moves.{MoveOptions, move}
use shreni.TaskGraph.Moves.Keeps.{move-Inv}
use shreni.TaskGraph.Sweep.{sweep, lapsed, expired_row, prior_expiries}
use shreni.TaskGraph.Claims.{Claim, claim, heartbeat}
use shreni.TaskGraph.Claims.Keeps.{claim-Inv}
use shreni.TaskGraph.Deps.{dep_edges, add_dep, remove_dep}
use shreni.TaskGraph.Deps.Decided.{
  stranded_test, stranded_test-NoneStranded, acyclic_test, acyclic_test-IsAcyclic,
}
use shreni.TaskGraph.Deps.Acyclic.{IsAcyclic, add_dep-IsAcyclic, add_dep_refuses}
use shreni.TaskGraph.Sweep.Keeps.{sweep-Inv}
use shreni.TaskGraph.Claims.Picks.{Claimable, Picked, claim-Picked, claim-none_iff}
use shreni.TaskGraph.Claims.Fencing.{Fenced, sweep-Fenced, move-Fenced}
use shreni.Common.{◌↔◌, ◌≢◌}
use shreni.Common.Reach.{here, step}
use shreni.TaskGraph.Client.{ActorHandle}
use shreni.TaskGraph.Deps.Stranding.{NoneStranded, move-NoneStranded, add_dep-NoneStranded}
use shreni.Common.Reach.{reach}
use shreni.TaskGraph.Client.{assert_version, check}
use shreni.TaskGraph.Containers.{
  live_children, live_dependents, container_settled, lock_with_parent,
}
use shreni.TaskGraph.Ready.{
  filter_where, is_ready, claim_order, parent_edges, waits, satisfying_states,
}
use shreni.TaskGraph.Lifecycle.{Move}
use shreni.TaskGraph.Lifecycle.Rules.Registered
use shreni.Policy.Lifecycle.{
  plain_move, task_lifecycle, task_lifecycle-IsRegistered, task_lifecycle-ReturnsLeases,
}
use shreni.Samples.Rows.{
  claimed, at_time, client, sthapathi, developer, no_options, any_task, one_minute,
}

-- What a run of the engine on rows computes with.
engine : Unit {0}
unfolding inv_test is_terminal leased_state claimable_state satisfies terminal_states move_named
    assert_version move claim heartbeat sweep filter_where is_ready claim_order parent_edges reach
    dep_edges waits satisfying_states live_children live_dependents lapsed expired_row
    prior_expiries text_lt check_permission check add_dep remove_dep container_settled
    lock_with_parent stranded_test acyclic_test ◌==◌
engine = tt

at_20-Inv : Inv task_lifecycle (at_time 20)
unfolding engine
at_20-Inv = inv_test-Inv task_lifecycle (at_time 20) refl

at_60-Inv : Inv task_lifecycle (at_time 60)
unfolding engine
at_60-Inv = inv_test-Inv task_lifecycle (at_time 60) refl

-- The store that a result holds, and its answer.
abbrev store_of {ℓ} : {A : Type ℓ} → Result (Store × A) → Store
store_of (ok (s, a)) = s
store_of (err e) = at_time 0

abbrev stored : Result Store → Store
stored (ok s) = s
stored (err e) = at_time 0

-- Sthapathi gives its claim back.
abbrev released : Result (Store × Task)
released = move sthapathi "w-epic.1" "release" no_options (some "a-1") (at_time 20)

move-Inv_example : Inv task_lifecycle (store_of released)
unfolding engine
move-Inv_example =
    move-Inv sthapathi "w-epic.1" "release" no_options (some "a-1") (at_time 20) _ _
      task_lifecycle-IsRegistered at_20-Inv refl

-- The developer cancels the open task, and drops the edge of the task that waits on it.
abbrev dropping : MoveOptions
dropping = record no_options { drop_deps = true }

abbrev cancelled : Result (Store × Task)
cancelled = move developer "w-epic.2" "cancel" dropping none (at_time 20)

at_20-NoneStranded : NoneStranded task_lifecycle (at_time 20)
unfolding engine
at_20-NoneStranded = stranded_test-NoneStranded task_lifecycle (at_time 20) refl

move-NoneStranded_example : NoneStranded task_lifecycle (store_of cancelled)
unfolding engine
move-NoneStranded_example =
    move-NoneStranded developer "w-epic.2" "cancel" dropping none (at_time 20) _ _
      task_lifecycle-IsRegistered at_20-NoneStranded refl

-- At time 20 the lease is good, and the next claim takes the open task.
abbrev taken : Result (Store × Option Claim)
taken = claim sthapathi one_minute "a-2" (at_time 20)

claim-Inv_example : Inv task_lifecycle (store_of taken)
unfolding engine
claim-Inv_example =
    claim-Inv sthapathi one_minute "a-2" (at_time 20) _ _ task_lifecycle-IsRegistered
      task_lifecycle-ReturnsLeases at_20-Inv refl

-- The claim of the sample's first attempt, and the claim taken at time 20.
abbrev first_claim : Claim
first_claim = record { task = claimed; attempt_id = "a-1"; expires_at = some 50 }

abbrev claim_of : Result (Store × Option Claim) → Claim
claim_of (ok (s, some c)) = c
claim_of (ok (s, none)) = first_claim
claim_of (err e) = first_claim

-- A collation that ties all ids: rows of one priority and time keep the order of the table.
abbrev tied : ActorHandle
tied = record sthapathi { client = record client { collates = λ a b. true } }

abbrev tied_claim : Result (Store × Option Claim)
tied_claim = claim tied one_minute "a-2" (at_time 20)

claim-Picked_example :
    Picked tied one_minute "a-2" (at_time 20) (store_of tied_claim) (claim_of tied_claim)
unfolding engine
claim-Picked_example =
    claim-Picked tied one_minute "a-2" (at_time 20) _ _ task_lifecycle-IsRegistered
      (λ a b. inl refl) (λ a b c h k. refl) refl

-- Once the open task is taken, nothing is left to claim.
abbrev idle : Result (Store × Option Claim)
idle = claim sthapathi one_minute "a-3" (store_of taken)

abbrev nothing : Option Claim
nothing = none

claim-none_iff_example :
    (nothing ≡ none)
    ↔ ((t : Task) → ¬ Claimable task_lifecycle any_task (sweep client (store_of taken)).0 t)
unfolding engine
claim-none_iff_example =
    claim-none_iff sthapathi one_minute "a-3" (store_of taken) (store_of idle) none refl

sweep-Inv_example : Inv task_lifecycle (sweep client (at_time 60)).0
sweep-Inv_example =
    sweep-Inv client (at_time 60) task_lifecycle-IsRegistered task_lifecycle-ReturnsLeases at_60-Inv

sweep-Fenced_example : Fenced sthapathi first_claim (sweep client (at_time 60)).0
unfolding engine
sweep-Fenced_example =
    sweep-Fenced sthapathi (at_time 60) claimed first_claim task_lifecycle-IsRegistered
      task_lifecycle-ReturnsLeases (inr (inl refl)) refl refl

move-Fenced_example : Fenced sthapathi first_claim (store_of released)
unfolding engine
move-Fenced_example =
    move-Fenced sthapathi sthapathi "w-epic.1" "release" no_options (some "a-1") (at_time 20) _ _
      first_claim at_20-Inv refl refl

at_20-IsAcyclic : IsAcyclic (at_time 20)
unfolding engine
at_20-IsAcyclic = acyclic_test-IsAcyclic (at_time 20) refl

-- The open task is made to wait on the claimed one, and a task on the one that waits on it.
abbrev added : Result Store
added = add_dep developer "w-epic.2" "w-epic.1" none (at_time 20)

add_dep-IsAcyclic_example : IsAcyclic (stored added)
unfolding engine
add_dep-IsAcyclic_example =
    add_dep-IsAcyclic developer "w-epic.2" "w-epic.1" none (at_time 20) _ at_20-IsAcyclic refl

add_dep_refuses_example :
    add_dep developer "w-epic.1" "w-epic.3" none (at_time 20) ≢ ok (at_time 20)
unfolding engine
add_dep_refuses_example =
    add_dep_refuses developer "w-epic.1" "w-epic.3" none (at_time 20) (at_time 20)
      (inl (step (inl refl) here))

add_dep-NoneStranded_example : NoneStranded task_lifecycle (stored added)
unfolding engine
add_dep-NoneStranded_example =
    add_dep-NoneStranded developer "w-epic.2" "w-epic.1" none (at_time 20) _ at_20-Inv
      at_20-NoneStranded refl

abbrev claim_move : Move
claim_move = plain_move "claim" ("open" ∷ []) "claimed" ("orchestrator" ∷ "developer" ∷ [])

from-terminal_example : is_terminal task_lifecycle "open" ≡ false
from-terminal_example =
    Registered.from-terminal task_lifecycle (task_lifecycle-IsRegistered.rules) claim_move "open"
      (inr (inl refl)) (inl refl)
