-- ===== src/Samples/System.antt =====
-- The theorem on the engine as a whole, at these rows.
use shreni.Common.{
  Option, none, some, [], ◌∷◌, ◌≡◌, refl, ◌==◌, text_lt, arith, true, false, any, length,
}
use shreni.Common.Reach.{reach}
use shreni.TaskGraph.Errors.{Result, ok, err}
use shreni.TaskGraph.Store.{Store}
use shreni.TaskGraph.Lifecycle.{
  is_terminal, leased_state, claimable_state, satisfies, terminal_states, move_named,
  check_permission,
}
use shreni.TaskGraph.Invariant.{Inv}
use shreni.TaskGraph.Invariant.Decided.{inv_test, inv_test-Inv}
use shreni.TaskGraph.Client.{check, assert_version}
use shreni.TaskGraph.Containers.{
  live_children, live_dependents, container_settled, lock_with_parent,
}
use shreni.TaskGraph.Sweep.{sweep, lapsed, expired_row, prior_expiries}
use shreni.TaskGraph.Claims.{Claim, claim}
use shreni.TaskGraph.Ready.{filter_where, is_ready, claim_order, parent_edges, satisfying_states}
use shreni.TaskGraph.Ready
use shreni.TaskGraph.Deps.{dep_edges, add_note, add_dep}
use shreni.TaskGraph.System.{done, next, claims, adds_note, waits}
use shreni.TaskGraph.System.Reached.{Steps-Inv}
use shreni.TaskGraph.System.Edges.{Steps-IsAcyclic}
use shreni.TaskGraph.Deps.Acyclic.{IsAcyclic}
use shreni.TaskGraph.Deps.Decided.{acyclic_test, acyclic_test-IsAcyclic}
use shreni.TaskGraph.Types.{work, container}
use shreni.Policy.Lifecycle.{
  task_lifecycle, task_lifecycle-IsRegistered, task_lifecycle-ReturnsLeases,
}
use shreni.Samples.Rows.{task, edge, at_time, client, sthapathi, developer, one_minute}

run : Unit {0}
unfolding inv_test is_terminal leased_state claimable_state satisfies terminal_states move_named
    assert_version claim sweep filter_where is_ready claim_order parent_edges reach dep_edges
    Ready.waits satisfying_states live_children live_dependents lapsed expired_row prior_expiries
    text_lt check_permission check container_settled lock_with_parent add_note ◌==◌
run = tt

abbrev stored : Result (Store × Option Claim) → Store
stored (ok (s, o)) = s
stored (err e) = at_time 0

abbrev noted : Result Store → Store
noted (ok s) = s
noted (err e) = at_time 0

start-Inv : Inv task_lifecycle (at_time 20)
unfolding run
start-Inv = inv_test-Inv task_lifecycle (at_time 20) refl

-- A claim, a minute that passes, another claim with its sweep, and a note.
abbrev first : Store
first = stored (claim sthapathi one_minute "a-2" (at_time 20))

abbrev later : Store
later = record first { now = 60_020 }

abbrev second : Store
second = stored (claim sthapathi one_minute "a-3" later)

abbrev last : Store
last = noted (add_note developer "w-epic.1" "look again" none second)

Steps-Inv_example : Inv task_lifecycle last
unfolding run
Steps-Inv_example =
    Steps-Inv client (at_time 20) last task_lifecycle-IsRegistered task_lifecycle-ReturnsLeases
      start-Inv
      (next (claims sthapathi.actor one_minute "a-2" _ refl) (
        next (waits 60_020 (ground arith) refl) (
          next (claims sthapathi.actor one_minute "a-3" _ refl)
            (next (adds_note developer.actor "w-epic.1" "look again" none refl) done))))

-- Before the steps and after them, the dependencies have no cycle.
start-IsAcyclic : IsAcyclic (at_time 20)
unfolding run acyclic_test
start-IsAcyclic = acyclic_test-IsAcyclic (at_time 20) refl

Steps-IsAcyclic_example : IsAcyclic last
unfolding run
Steps-IsAcyclic_example =
    Steps-IsAcyclic client (at_time 20) last task_lifecycle-IsRegistered
      task_lifecycle-ReturnsLeases start-Inv start-IsAcyclic
      (next (claims sthapathi.actor one_minute "a-2" _ refl) (
        next (waits 60_020 (ground arith) refl) (
          next (claims sthapathi.actor one_minute "a-3" _ refl)
            (next (adds_note developer.actor "w-epic.1" "look again" none refl) done))))

-- A container that waits on a task, and that task on a child of the container: the second dependency is
-- let through, and then neither task is ever ready.
abbrev knot : Store
knot = record (at_time 20) {
  tasks =
      task "w-box" container none "open" 1
      ∷ task "w-box.1" work (some "w-box") "open" 2
      ∷ task "w-far" work none "open" 3
      ∷ [];
  deps = edge "w-box" "w-far" ∷ [];
}

abbrev knotted : Store
knotted = noted (add_dep developer "w-far" "w-box.1" none knot)

knot_run :
    (length knotted.deps ≡ 2)
    × (any (is_ready task_lifecycle knot) knot.tasks ≡ true)
    × (any (is_ready task_lifecycle knotted) knotted.tasks ≡ false)
unfolding run add_dep
knot_run = (refl, refl, refl)
