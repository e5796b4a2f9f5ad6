-- ===== src/TaskGraph/Tasks.antt =====
-- src/taskgraph/tasks.ts: creating, editing and deleting tasks; src/taskgraph/ids.ts: the ids of new
-- tasks. What the schemas of zod let through is checked here field by field.
pub mod Keeps
pub mod Deletes
pub mod Lands
pub mod Edit
use Prim.Native.String.{◌++◌ as ◌joined◌}
use shreni.Common.{
  ℕ, zero, suc, ◌+◌, ◌/◌, ◌%◌, String, Option, none, some, List, [], ◌∷◌, ◌++◌, Bool, true, false,
  not, ◌&&◌, ◌||◌, ◌==◌, ltb, leb, is_some, is_some_of, any, find, filter, map, order_by,
  if◌then◌else◌,
}
use shreni.TaskGraph.Types.{
  Task, Kind, work, Origin, Plan, Dep, Link, Event, task_created, task_deleted, dep_removed, Value,
  text, null,
}
use shreni.TaskGraph.Errors.{
  Error, invalid_request, not_found, internal, Result, ok, err, ◌>>=◌, ◌>>◌, require, or_throw,
}
use shreni.TaskGraph.Store.{Store, find_task, update_where}
use shreni.TaskGraph.Lifecycle.{Lifecycle, tasks_create, tasks_delete, lookup, system_role}
use shreni.TaskGraph.Client.{Client, ActorHandle, check, load_task}
use shreni.TaskGraph.Containers.{lock_with_parent, assert_parent_open, is_child}
use shreni.TaskGraph.Moves.{plain_event, settled_events}

-- What the caller gives of a new task. Where a text is measured, `js_length` is JavaScript's length.
pub record NewTask : Type 0 where
  pub title : String
  pub description : Option String
  pub kind : Option Kind
  pub category : Option String
  pub priority : Option ℕ
  pub parent : Option String
  pub plan : Option String
  pub key : Option String
  pub spec : Option String
  pub tags : Option (List String)
  pub hold_until : Option ℕ

abbrev pub or_else {ℓ} : {A : Type ℓ} → Option A → A → A
or_else none a = a
or_else (some b) a = b

abbrev pub given_text : Option String → Bool
given_text none = true
given_text (some s) = not (s == "")

abbrev pub title_fits : (String → ℕ) → String → Bool
title_fits js_length t = leb 1 (js_length t) && leb (js_length t) 500

abbrev pub parse_new : (String → ℕ) → NewTask → Result (Unit {0})
parse_new js_length t =
    require
      (title_fits js_length t.title
        && leb (or_else t.priority 2) 4
        && given_text t.parent
        && given_text t.plan
        && given_text t.key)
      (invalid_request "input")

-- The plan is there, and is neither approved nor discarded.
abbrev pub assert_plan_open : Store → Option String → Result (Unit {0})
assert_plan_open s none = ok tt
assert_plan_open s (some p) = do
  row ← or_throw (find (λ (q : Plan). q.id == p) s.plans) (not_found "plan" p)
  require (not (is_some row.approved_at || is_some row.discarded_at))
      (invalid_request "later work is a new plan")

abbrev pub assert_open : Lifecycle → Store → Option String → Result (Unit {0})
assert_open lc s none = ok tt
assert_open lc s (some p) = do parent ← load_task s p; assert_parent_open lc parent

abbrev pub task_by_key : Store → Option String → Option Task
task_by_key s none = none
task_by_key s (some k) = find (λ t. is_some_of t.key k) s.tasks

-- A plan's tasks wait for its approval; other tasks land where the role says.
abbrev pub landing : Lifecycle → String → Option String → String
landing lc role (some p) = lc.create_state
landing lc role none = or_else (lookup lc.create_by_role role) lc.create_state

abbrev pub origin_of : String → Option String → Origin
origin_of role (some p) = Origin.plan
origin_of role none =
    if role == system_role
    then Origin.system
    else if role == "agent"
    then Origin.agent
    else Origin.manual

abbrev nth : List String → ℕ → String
nth [] n = ""
nth (x ∷ xs) zero = x
nth (x ∷ xs) (suc n) = nth xs n

abbrev digit : ℕ → String
digit n = nth ("0" ∷ "1" ∷ "2" ∷ "3" ∷ "4" ∷ "5" ∷ "6" ∷ "7" ∷ "8" ∷ "9" ∷ []) n

-- A number in decimal; it has no more digits than `fuel`, which its value bounds.
unfoldable pub shown : ℕ → ℕ → String
shown zero n = digit n
shown (suc fuel) n =
    let high = shown fuel (n / 10) in if ltb n 10 then digit n else (high joined digit (n % 10))

abbrev pub child_id : String → ℕ → String
child_id p n = p joined "." joined shown n n

abbrev pub is_taken : Store → String → Bool
is_taken s i = any (λ t. t.id == i) s.tasks

-- ids.ts, draw: the first id drawn that is free, in at most MAX_DRAWS draws. `drawn` is what the draws
-- come to, under the project's prefix.
abbrev pub max_draws : ℕ
max_draws = 20

unfoldable pub draw : Store → (ℕ → String) → ℕ → ℕ → Result String
draw s drawn zero i = err (internal "no free id")
draw s drawn (suc fuel) i =
    let rest = draw s drawn fuel (suc i) in if is_taken s (drawn i) then rest else ok (drawn i)

-- ids.ts, nextChildId: the parent's counter, and the parent's row with the next one.
abbrev pub counted : String → List Task → List Task
counted p ts = update_where (λ t. t.id == p) (λ t. record t { next_child = t.next_child + 1 }) ts

-- The new task's id, and the rows before it is inserted.
unfoldable pub new_id : Store → (ℕ → String) → Option String → Result (String × List Task)
unfolding draw
new_id s drawn none = do i ← draw s drawn max_draws 0; ok (i, s.tasks)
new_id s drawn (some p) = do
  parent ← load_task s p
  let i = child_id p parent.next_child
  require (not (is_taken s i)) (internal "the child id is already taken")
  ok (i, counted p s.tasks)

abbrev pub new_row : ActorHandle → NewTask → Store → String → Task
new_row me t s i = record {
  id = i;
  key = t.key;
  plan_id = t.plan;
  parent_id = t.parent;
  kind = or_else t.kind work;
  category = t.category;
  title = t.title;
  description = t.description;
  priority = or_else t.priority 2;
  state = landing me.client.lifecycle me.actor.role t.plan;
  origin = origin_of me.actor.role t.plan;
  spec = or_else t.spec "{}";
  tags = or_else t.tags [];
  boosted = false;
  hold_until = t.hold_until;
  next_child = 1;
  lease_attempt_id = none;
  lease_expires_at = none;
  created_at = s.now;
  updated_at = s.now;
  closed_at = none;
}

abbrev pub optional : Option String → Value
optional none = null
optional (some s) = text s

abbrev pub kind_name : Kind → String
kind_name work = "work"
kind_name Kind.container = "container"

abbrev pub origin_name : Origin → String
origin_name Origin.plan = "plan"
origin_name Origin.manual = "manual"
origin_name Origin.system = "system"
origin_name Origin.agent = "agent"
origin_name Origin.imported = "imported"

abbrev pub created_event : ActorHandle → Store → Task → Option String → Event
created_event me s t request =
    record (plain_event me.actor s t.id task_created (
      ("title", text t.title)
      ∷ ("kind", text (kind_name t.kind))
      ∷ ("origin", text (origin_name t.origin))
      ∷ ("parentId", optional t.parent_id)
      ∷ ("key", optional t.key)
      ∷ [])) { plan_id = t.plan_id; to_state = some t.state; request_id = request }

abbrev pub insert_task : ActorHandle → Store → List Task → Task → Option String → Store
insert_task me s rows t request = record s {
  tasks = t ∷ rows;
  events = s.events ++ created_event me s t request ∷ [];
}

-- A key that exists returns the task that has it, and writes nothing.
unfoldable pub file :
    ActorHandle
    → NewTask
    → (ℕ → String)
    → Option String
    → Store
    → Option Task
    → Result (Store × Task)
unfolding new_id
file me t drawn request s (some existing) = ok (s, existing)
file me t drawn request s none = do
  made ← new_id s drawn t.parent
  ok (insert_task me s made.1 (new_row me t s made.0) request, new_row me t s made.0)

-- tasks.create.
unfoldable pub create :
    ActorHandle
    → (String → ℕ)
    → NewTask
    → (ℕ → String)
    → Option String
    → Store
    → Result (Store × Task)
create me js_length t drawn request s = do
  parse_new js_length t
  check me tasks_create none s
  assert_plan_open s t.plan
  assert_open me.client.lifecycle s t.parent
  file me t drawn request s (task_by_key s t.key)

-- The edges of a deleted task go with it, on both sides; each task that waited on it is told.
abbrev pub deleted_events : ActorHandle → Store → String → List String → List Event
deleted_events me s i [] = []
deleted_events me s i (w ∷ ws) =
    plain_event me.actor s w dep_removed (("dependsOnId", text i) ∷ ("reason", text "deleted") ∷ [])
    ∷ deleted_events me s i ws

abbrev pub dependents : Client → Store → String → List String
dependents c s i =
    order_by c.collates (map (λ d. d.task_id) (filter (λ d. d.depends_on_id == i) s.deps))

unfoldable pub without : String → Store → Store
without i s = record s {
  tasks = filter (λ t. not (t.id == i)) s.tasks;
  deps = filter (λ d. not ((d.task_id == i) || (d.depends_on_id == i))) s.deps;
  links = filter (λ (l : Link). not ((l.a == i) || (l.b == i))) s.links;
}

unfoldable pub removed : ActorHandle → Task → String → Option String → Store → Store
unfolding without
removed me t i request s =
    let s' = without i s in
    record s' {
      events =
          s.events
          ++ settled_events me s' t.parent_id
          ++ deleted_events me s i (dependents me.client s i)
          ++ record (plain_event me.actor s i task_deleted (("title", text t.title) ∷ [])) {
            from_state = some t.state;
            request_id = request;
          }
            ∷ [];
    }

-- tasks.delete: a task in the create state, with no attempt and no child.
unfoldable pub delete : ActorHandle → String → Option String → Store → Result Store
unfolding removed
delete me i request s = do
  t ← lock_with_parent s i
  check me tasks_delete (some t.state) s
  require (t.state == me.client.lifecycle.create_state) (invalid_request "cancel it instead")
  require (not (any (λ a. a.task_id == i) s.attempts)) (invalid_request "cancel it instead")
  require (not (any (is_child i) s.tasks)) (invalid_request "delete or move them first")
  ok (removed me t i request s)
