-- ===== src/Samples/Edits.antt =====
-- The theorems on creating, editing and deleting tasks, at these rows.
use shreni.Common.{none, some, ◌∷◌, refl, ◌==◌, text_lt}
use shreni.Common.Reach.{reach}
use shreni.TaskGraph.Types.{Task, Kind, work}
use shreni.TaskGraph.Errors.{Result, ok, err}
use shreni.TaskGraph.Store.{Store}
use shreni.TaskGraph.Lifecycle.{is_terminal, leased_state, terminal_states, check_permission}
use shreni.TaskGraph.Invariant.{Inv}
use shreni.TaskGraph.Invariant.Decided.{inv_test, inv_test-Inv}
use shreni.TaskGraph.Client.{check, assert_version}
use shreni.TaskGraph.Containers.{container_settled, lock_with_parent}
use shreni.TaskGraph.Ready.{parent_edges}
use shreni.TaskGraph.Deps.Decided.{forest_test, forest_test-IsForest}
use shreni.TaskGraph.Tasks.{create, delete, shown, file, new_id}
use shreni.TaskGraph.Requests.{once, replayed, prior_write}
use shreni.TaskGraph.Requests.Writes.{Write, deletes, write_once}
use shreni.TaskGraph.Requests.Repeats.{HasRun, write_once-HasRun}
use shreni.TaskGraph.Tasks.Keeps.{create-Inv}
use shreni.TaskGraph.Tasks.Deletes.{Forgotten, delete-Forgotten}
use shreni.TaskGraph.Tasks.Edit.{update}
use shreni.TaskGraph.Tasks.Edit.Forest.{IsForest, update-IsForest}
use shreni.Policy.Lifecycle.{task_lifecycle, task_lifecycle-IsRegistered}
use shreni.Samples.Rows.{task, at_time, developer, new_task, drawn, ten, no_change}

-- What a run of the edits on rows computes with.
edits : Unit {0}
unfolding inv_test is_terminal leased_state terminal_states assert_version check check_permission
    container_settled lock_with_parent parent_edges reach create delete shown file new_id update
    prior_write replayed once write_once forest_test text_lt ◌==◌
edits = tt

-- The rows at time 20, with a second epic and a task that was just proposed.
abbrev store : Store
store = record (at_time 20) {
  tasks =
      task "w-next" Kind.container none "open" 5
      ∷ task "w-new" work none "proposed" 6
      ∷ (at_time 20).tasks;
}

abbrev store_of : Result (Store × Task) → Store
store_of (ok (s, t)) = s
store_of (err e) = at_time 0

abbrev stored : Result Store → Store
stored (ok s) = s
stored (err e) = at_time 0

store-Inv : Inv task_lifecycle store
unfolding edits
store-Inv = inv_test-Inv task_lifecycle store refl

abbrev created : Result (Store × Task)
created = create developer ten new_task drawn none store

create-Inv_example : Inv task_lifecycle (store_of created)
unfolding edits
create-Inv_example =
    create-Inv developer ten new_task drawn none store _ _ task_lifecycle-IsRegistered store-Inv
      refl

abbrev deleted : Result Store
deleted = delete developer "w-new" none store

delete-Forgotten_example : Forgotten "w-new" (stored deleted)
unfolding edits
delete-Forgotten_example = delete-Forgotten developer "w-new" none store _ refl

-- The new task is moved under the second epic.
abbrev nested : Result (Store × Task)
nested =
    update developer ten "w-new" (record no_change { parent = some (some "w-next") }) none store

store-IsForest : IsForest store
unfolding edits
store-IsForest = forest_test-IsForest store refl

update-IsForest_example : IsForest (store_of nested)
unfolding edits
update-IsForest_example =
    update-IsForest developer ten "w-new" (record no_change { parent = some (some "w-next") }) none
      store _ _ store-IsForest refl

-- A task is deleted under a request id; the same call may come again.
abbrev removal : Write
removal = deletes "w-new"

abbrev done_of : Result (Store × Unit {0}) → Store
done_of (ok (s, u)) = s
done_of (err e) = at_time 0

abbrev removed_once : Store
removed_once = done_of (write_once developer removal (some "r-1") store)

write_once-HasRun_example : HasRun developer removal "r-1" removed_once
unfolding edits
write_once-HasRun_example = write_once-HasRun developer removal "r-1" store _ refl
