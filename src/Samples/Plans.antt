-- ===== src/Samples/Plans.antt =====
-- The theorems on validating, approving and discarding a plan, at these rows.
use shreni.Common.{
  none, some, List, [], ◌∷◌, ◌++◌, map, String, refl, ◌==◌, text_lt, false, ◌≡◌, ◌↔◌, In, any,
}
use shreni.TaskGraph.Types.{Task, work, container, Plan}
use shreni.TaskGraph.Errors.{Result, ok, err, Finding}
use shreni.TaskGraph.Store.{Store}
use shreni.TaskGraph.Lifecycle.{
  is_terminal, leased_state, terminal_states, move_named, check_permission,
}
use shreni.TaskGraph.Invariant.{Inv}
use shreni.TaskGraph.Invariant.Decided.{inv_test, inv_test-Inv}
use shreni.TaskGraph.Client.{check, assert_version}
use shreni.TaskGraph.Containers.{live_children, container_settled}
use shreni.TaskGraph.Validators.{
  is_error, built_in, run_validators, no_cycles, no_missing_refs, containers_have_children,
  pre_approval,
}
use shreni.TaskGraph.Validators.Cycle.{find_cycle}
use shreni.TaskGraph.Validators.Cycle.Finds.{Answers, find_cycle-Answers}
use shreni.TaskGraph.Validators.Passes.{Proper, built_in-Proper_iff}
use shreni.TaskGraph.Plans.{snapshot_of, approve, open_all, opened_row, move_in_tx, open_tasks}
use shreni.TaskGraph.Plans.Approves.{Opened, approve-Opened, approve-Inv}
use shreni.TaskGraph.Plans.Discard.{
  discard, cancel_order, cancel_all, cancel_tasks, before, left_behind, visit, each_before,
}
use shreni.TaskGraph.Plans.Discard.Order.{cancel_order-all}
use shreni.TaskGraph.Plans.Discard.Cancels.{Discarded, discard-Discarded}
use shreni.TaskGraph.Plans.Discard.Keeps.{discard-Inv}
use shreni.Policy.Lifecycle.{task_lifecycle, task_lifecycle-IsRegistered}
use shreni.Samples.Rows.{edge, task, at_time, developer, client, same_order}

-- What a run of the plans on rows computes with.
plans : Unit {0}
unfolding inv_test is_terminal leased_state terminal_states move_named check check_permission
    assert_version live_children container_settled text_lt ◌==◌ find_cycle run_validators no_cycles
    no_missing_refs containers_have_children pre_approval snapshot_of approve open_all opened_row
    move_in_tx open_tasks discard cancel_order cancel_all cancel_tasks before left_behind visit
    each_before
plans = tt

abbrev plan : Plan
plan = record {
  id = "p-1";
  title = "a plan";
  meta = "{}";
  approved_at = none;
  approved_by = none;
  discarded_at = none;
  discarded_by = none;
  created_at = 6;
}

abbrev filed : Task → Task
filed t = record t { plan_id = some "p-1" }

-- The plan proposes a container with two tasks, one of which waits on the other.
abbrev proposals : List Task
proposals =
    filed (task "w-p" container none "proposed" 6)
    ∷ filed (task "w-p.1" work (some "w-p") "proposed" 7)
    ∷ filed (task "w-p.2" work (some "w-p") "proposed" 8)
    ∷ []

abbrev store : Store
store = record (at_time 20) {
  tasks = (at_time 20).tasks ++ proposals;
  deps = edge "w-p.2" "w-p.1" ∷ (at_time 20).deps;
  plans = plan ∷ [];
}

store-Inv : Inv task_lifecycle store
unfolding plans
store-Inv = inv_test-Inv task_lifecycle store refl

abbrev store_of : Result (Store × List Finding) → Store
store_of (ok (s, fs)) = s
store_of (err e) = at_time 0

abbrev stored : Result Store → Store
stored (ok s) = s
stored (err e) = at_time 0

abbrev approval : Result (Store × List Finding)
approval = approve developer "p-1" "cli" none store

approve-Opened_example : Opened developer "p-1" store (store_of approval)
unfolding plans
approve-Opened_example =
    approve-Opened developer "p-1" "cli" none store _ _ task_lifecycle-IsRegistered store-Inv refl

approve-Inv_example : Inv task_lifecycle (store_of approval)
unfolding plans
approve-Inv_example =
    approve-Inv developer "p-1" "cli" none store _ _ task_lifecycle-IsRegistered store-Inv refl

abbrev discarded : Result Store
discarded = discard developer same_order "p-1" "cli" none store

discard-Discarded_example : Discarded developer "p-1" store (stored discarded)
unfolding plans
discard-Discarded_example =
    discard-Discarded developer same_order "p-1" "cli" none store _ task_lifecycle-IsRegistered
      store-Inv refl

discard-Inv_example : Inv task_lifecycle (stored discarded)
unfolding plans
discard-Inv_example =
    discard-Inv developer same_order "p-1" "cli" none store _ task_lifecycle-IsRegistered store-Inv
      refl

find_cycle-Answers_example :
    Answers (edge "b" "a" ∷ edge "a" "b" ∷ []) (find_cycle (edge "b" "a" ∷ edge "a" "b" ∷ []))
find_cycle-Answers_example = find_cycle-Answers (edge "b" "a" ∷ edge "a" "b" ∷ [])

built_in-Proper_iff_example :
    (any is_error (built_in task_lifecycle false (snapshot_of client store plan) store) ≡ false)
    ↔ Proper task_lifecycle (snapshot_of client store plan) store
built_in-Proper_iff_example =
    built_in-Proper_iff task_lifecycle (snapshot_of client store plan) store

cancel_order-all_example :
    (ts : List Task) × (cancel_order same_order proposals (edge "w-p.2" "w-p.1" ∷ []) ≡ ok ts)
    × ((t : Task) → In t ts → In t proposals)
    × ((t : Task) → In t proposals → (x : Task) × In x ts × (x.id ≡ t.id))
cancel_order-all_example = cancel_order-all same_order proposals (edge "w-p.2" "w-p.1" ∷ [])

-- The order: the task that waits, then the one it waits on, then the container.
abbrev ids_of : Result (List Task) → List String
ids_of (ok ts) = map (λ (t : Task). t.id) ts
ids_of (err e) = []

cancel_order_run :
    ids_of (cancel_order same_order proposals (edge "w-p.2" "w-p.1" ∷ []))
    ≡ "w-p.2" ∷ "w-p.1" ∷ "w-p" ∷ []
unfolding plans
cancel_order_run = refl
