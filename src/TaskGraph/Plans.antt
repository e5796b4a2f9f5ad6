-- ===== src/TaskGraph/Plans.antt =====
-- src/taskgraph/plans.ts: creating, validating, approving and discarding a plan, and approving a task
-- that is in none.
pub mod Discard
pub mod Opens
pub mod Rounds
pub mod Approves
pub mod Lone
use shreni.Common.{
  ℕ, zero, suc, String, Option, none, some, List, [], ◌∷◌, ◌++◌, Bool, true, false, not, ◌&&◌, ◌||◌,
  ◌==◌, any, find, filter, includes, is_some, is_some_of, is_none, is_empty, length, order_by,
  if◌then◌else◌,
}
use shreni.TaskGraph.Types.{
  Task, Plan, Dep, Link, Event, EventKind, plan_created, plan_approved, moved, Value, text, texts,
  number,
}
use shreni.TaskGraph.Errors.{
  Error, invalid_request, internal, not_found, not_permitted, validation_error, move_refused,
  Finding, Result, ok, err, ◌>>=◌, ◌>>◌, require, or_throw,
}
use shreni.TaskGraph.Store.{Store, find_task, update_where, emit}
use shreni.TaskGraph.Lifecycle.{
  Move, Lifecycle, plans_create, plans_validate, is_terminal, move_named, boost_after,
}
use shreni.TaskGraph.Client.{PlanSnapshot, Client, ActorHandle, assert_version, check, load_task}
use shreni.TaskGraph.Containers.{live_children, by_created}
use shreni.TaskGraph.Moves.{refusal, allow}
use shreni.TaskGraph.Validators.{run_validators, is_error}

-- `order by` two texts.
abbrev pub by_two : (String → String → Bool) → String → String → String → String → Bool
by_two le a b c d = if a == c then le b d else le a c

abbrev pub in_plan_id : String → Task → Bool
in_plan_id i t = is_some_of t.plan_id i

abbrev pub touches_plan : List Task → String → String → Bool
touches_plan ts a b = any (λ t. (t.id == a) || (t.id == b)) ts

abbrev pub find_plan : Store → String → Option Plan
find_plan s i = find (λ (p : Plan). p.id == i) s.plans

-- The plan's tasks, and the dependencies and links that touch them.
unfoldable pub snapshot_of : Client → Store → Plan → PlanSnapshot
snapshot_of c s p =
    let ts = order_by (by_created c) (filter (in_plan_id p.id) s.tasks) in
    record {
      plan = some p;
      tasks = ts;
      deps =
          order_by
            (λ (d e : Dep). by_two c.collates d.task_id d.depends_on_id e.task_id e.depends_on_id)
            (filter (λ d. touches_plan ts d.task_id d.depends_on_id) s.deps);
      links =
          order_by (λ (l m : Link). by_two c.collates l.a l.b m.a m.b)
            (filter (λ l. touches_plan ts l.a l.b) s.links);
    }

-- A plan's event.
abbrev pub plan_event :
    ActorHandle → Store → String → EventKind → List (String × Value) → Option String → Event
plan_event me s i kind payload request = record {
  task_id = none;
  plan_id = some i;
  attempt_id = none;
  kind = kind;
  actor = me.actor.id;
  actor_role = me.actor.role;
  from_state = none;
  to_state = none;
  payload = payload;
  request_id = request;
  at = s.now;
}

-- moveInTx: the row after a move of many, which leaves any lease as it is.
unfoldable pub opened_row : Lifecycle → Move → ℕ → Task → Task
opened_row lc m now t = record t {
  state = m.to;
  boosted = boost_after m t.boosted;
  closed_at = if is_terminal lc m.to then some now else t.closed_at;
  updated_at = now;
}

abbrev pub opened_event :
    ActorHandle → Store → Task → Move → List (String × Value) → Option String → Event
opened_event me s t m payload request =
    record (plan_event me s t.id (moved m.name) payload request) {
      task_id = some t.id;
      plan_id = t.plan_id;
      from_state = some t.state;
      to_state = some m.to;
    }

abbrev pub same_version_of : Task → Task → Bool
same_version_of t x = (x.id == t.id) && (x.state == t.state)

unfoldable pub move_in_tx :
    ActorHandle → Task → Move → List (String × Value) → Option String → Store → Result Store
unfolding opened_row
move_in_tx me t m payload request s = do
  let lc = me.client.lifecycle
  let live =
      if is_terminal lc m.to && not (is_terminal lc t.state)
      then live_children me.client s t.id
      else []
  require (is_empty live) (move_refused t.id t.state "ChildrenLive" [] live)
  allow (refusal m.guard t me.actor s) t.id t.state
  ok (record s {
    tasks = update_where (same_version_of t) (opened_row lc m s.now) s.tasks;
    events = s.events ++ opened_event me s t m payload request ∷ [];
  })

-- plans.create. `drawn` is what the draws of ids.ts come to, of which there are at most twenty.
abbrev pub plan_taken : Store → String → Bool
plan_taken s i = any (λ (p : Plan). p.id == i) s.plans

unfoldable pub draw_plan : Store → (ℕ → String) → ℕ → ℕ → Result String
draw_plan s drawn zero i = err (internal "no free id")
draw_plan s drawn (suc fuel) i =
    let rest = draw_plan s drawn fuel (suc i) in
    if plan_taken s (drawn i) then rest else ok (drawn i)

abbrev pub new_plan : String → String → String → ℕ → Plan
new_plan i title meta now = record {
  id = i;
  title = title;
  meta = meta;
  approved_at = none;
  approved_by = none;
  discarded_at = none;
  discarded_by = none;
  created_at = now;
}

unfoldable pub create_plan :
    ActorHandle → String → String → (ℕ → String) → Option String → Store → Result (Store × Plan)
unfolding draw_plan
create_plan me title meta drawn request s = do
  require (not (title == "")) (invalid_request "a plan needs a title")
  check me plans_create none s
  i ← draw_plan s drawn 20 0
  let p = new_plan i title meta s.now
  ok (
    record s {
      plans = p ∷ s.plans;
      events = s.events ++ plan_event me s i plan_created (("title", text title) ∷ []) request ∷ [];
    },
    p,
  )

-- The surface that an approval or a discard came through has to be named.
abbrev pub named_via : String → Result (Unit {0})
named_via via = require (not (via == "")) (invalid_request "names no surface it came through (via)")

abbrev pub hook_move : Lifecycle → String → Result Move
hook_move lc n = or_throw (move_named lc n) (invalid_request "the lifecycle has no such move")

abbrev pub may_move : ActorHandle → String → Move → Result (Unit {0})
may_move me call m = require (includes m.by me.actor.role) (not_permitted call me.actor.role none)

-- openPlan: neither approved nor discarded yet.
abbrev pub open_plan : Store → String → Result Plan
open_plan s i = do
  p ← or_throw (find_plan s i) (not_found "plan" i)
  require (is_none p.approved_at && is_none p.discarded_at)
      (invalid_request "is already approved or discarded")
  ok p

abbrev pub via_payload : String → String → List (String × Value)
via_payload via plan = ("via", text via) ∷ ("planId", text plan) ∷ []

-- The loop of an approval: each task that was proposed, as it is by now.
abbrev pub open_one : ActorHandle → Move → List (String × Value) → Task → Store → Result Store
open_one me m payload t s =
    if t.state == me.client.lifecycle.create_state
    then (do
      task ← load_task s t.id
      if includes m.from task.state then move_in_tx me task m payload none s else ok s)
    else ok s

unfoldable pub open_all :
    ActorHandle → Move → List (String × Value) → List Task → Store → Result Store
unfolding move_in_tx
open_all me m payload [] s = ok s
open_all me m payload (t ∷ ts) s = do s' ← open_one me m payload t s; open_all me m payload ts s'

abbrev pub approved : ActorHandle → ℕ → Plan → Plan
approved me now p = record p { approved_at = some now; approved_by = some me.actor.id }

abbrev pub close_plan : Store → String → (Plan → Plan) → Event → Store
close_plan s i f e = record s {
  plans = update_where (λ (p : Plan). p.id == i) f s.plans;
  events = s.events ++ e ∷ [];
}

-- The number of findings stands for the findings in the event's payload.
abbrev pub approval_event :
    ActorHandle → String → String → List Finding → ℕ → Option String → Store → Event
approval_event me i via fs n request s =
    plan_event me s i plan_approved
      (("via", text via) ∷ ("findings", number (length fs)) ∷ ("tasks", number n) ∷ []) request

-- The writes of an approval that no finding stops.
unfoldable pub open_tasks :
    ActorHandle
    → Move
    → String
    → String
    → Option String
    → List Task
    → List Finding
    → Store
    → Result (Store × List Finding)
unfolding open_all
open_tasks me m i via request ts fs s = do
  s' ← open_all me m (via_payload via i) ts s
  ok (close_plan s' i (approved me s.now) (approval_event me i via fs (length ts) request s), fs)

-- plans.approve: the findings are those that the caller is told of, all of them warnings.
unfoldable pub approve :
    ActorHandle → String → String → Option String → Store → Result (Store × List Finding)
unfolding snapshot_of run_validators open_tasks
approve me i via request s = do
  named_via via
  m ← hook_move me.client.lifecycle me.client.lifecycle.hooks.on_approve
  may_move me "plans.approve" m
  assert_version me s
  p ← open_plan s i
  fs ← run_validators me.client false (snapshot_of me.client s p) s
  require (not (any is_error fs)) (validation_error fs)
  open_tasks me m i via request (snapshot_of me.client s p).tasks fs s

-- plans.validate: the dry run, which writes nothing.
pub record Report : Type 0 where
  pub plan : String
  pub good : Bool
  pub findings : List Finding

unfoldable pub validate : ActorHandle → String → Store → Result Report
unfolding snapshot_of run_validators
validate me i s = do
  check me plans_validate none s
  p ← or_throw (find_plan s i) (not_found "plan" i)
  fs ← run_validators me.client false (snapshot_of me.client s p) s
  ok (record { plan = i; good = not (any is_error fs); findings = fs })

-- tasks.approve: a task in no plan, after the validators of the task scope.
unfoldable pub approve_task : ActorHandle → String → String → Option String → Store → Result Store
unfolding run_validators move_in_tx
approve_task me i via request s = do
  named_via via
  m ← hook_move me.client.lifecycle me.client.lifecycle.hooks.on_approve
  may_move me "tasks.approve" m
  assert_version me s
  t ← load_task s i
  require (is_none t.plan_id) (invalid_request "is in a plan; approve the plan")
  require (includes m.from t.state) (move_refused i t.state "WrongState" [] [])
  fs ←
      run_validators me.client true (record { plan = none; tasks = t ∷ []; deps = []; links = [] })
        s
  require (not (any is_error fs)) (validation_error fs)
  move_in_tx me t m (("via", text via) ∷ []) request s
