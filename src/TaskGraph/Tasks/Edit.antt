-- ===== src/TaskGraph/Tasks/Edit.antt =====
-- src/taskgraph/tasks.ts, update: the fields that change, and moving a task under another parent. An
-- update of the parent takes the graph lock, so two follow one another.
pub mod Forest
pub mod Keeps
use shreni.Common.{
  ℕ, ◌+◌, String, Option, none, some, List, [], ◌∷◌, ◌++◌, Bool, true, false, not, ◌&&◌, ◌||◌, ◌==◌,
  eqb, ltb, leb, is_some_of, is_none, is_empty, any, find, filter, map, if◌then◌else◌,
}
use shreni.Common.Reach.{Edge, reach}
use shreni.TaskGraph.Types.{
  Task, Kind, kind_eq, Dep, Event, task_updated, children_settled, Value, text, number, texts, null,
  change,
}
use shreni.TaskGraph.Errors.{
  Error, cycle_error, invalid_request, Result, ok, err, ◌>>=◌, ◌>>◌, require,
}
use shreni.TaskGraph.Store.{Store, update_where}
use shreni.TaskGraph.Lifecycle.{Lifecycle, tasks_update, is_terminal}
use shreni.TaskGraph.Client.{ActorHandle, check, load_task}
use shreni.TaskGraph.Containers.{assert_parent_open, is_child, container_settled}
use shreni.TaskGraph.Moves.{plain_event}
use shreni.TaskGraph.Ready.{parent_edges}
use shreni.TaskGraph.Tasks.{or_else, title_fits, given_text, optional, kind_name}

-- An absent field stays; of the fields that may be null, `some none` is null.
pub record TaskPatch : Type 0 where
  pub title : Option String
  pub description : Option (Option String)
  pub category : Option (Option String)
  pub priority : Option ℕ
  pub tags : Option (List String)
  pub spec : Option String
  pub hold_until : Option (Option ℕ)
  pub parent : Option (Option String)
  pub kind : Option Kind

abbrev given_title : (String → ℕ) → Option String → Bool
given_title js_length none = true
given_title js_length (some t) = title_fits js_length t

abbrev pub parse_patch : (String → ℕ) → TaskPatch → Result (Unit {0})
parse_patch js_length p =
    require
      (given_title js_length p.title
        && leb (or_else p.priority 0) 4
        && given_text (or_else p.parent none))
      (invalid_request "input")

abbrev texts_eq : List String → List String → Bool
texts_eq [] [] = true
texts_eq [] (y ∷ ys) = false
texts_eq (x ∷ xs) [] = false
texts_eq (x ∷ xs) (y ∷ ys) = (x == y) && texts_eq xs ys

-- `JSON.stringify(from) === JSON.stringify(to)`.
abbrev pub value_eq : Value → Value → Bool
value_eq (text a) (text b) = a == b
value_eq (number a) (number b) = eqb a b
value_eq (texts a) (texts b) = texts_eq a b
value_eq null null = true
value_eq _ _ = false

abbrev pub changed : String → Value → Value → List (String × Value)
changed field from to = if value_eq from to then [] else (field, change from to) ∷ []

abbrev pub time : Option ℕ → Value
time none = null
time (some t) = number t

-- The row that the patch asks for.
abbrev pub patched : TaskPatch → ℕ → Task → Task
patched p now t = record t {
  title = or_else p.title t.title;
  description = or_else p.description t.description;
  category = or_else p.category t.category;
  priority = or_else p.priority t.priority;
  tags = or_else p.tags t.tags;
  spec = or_else p.spec t.spec;
  hold_until = or_else p.hold_until t.hold_until;
  kind = or_else p.kind t.kind;
  parent_id = or_else p.parent t.parent_id;
  updated_at = now;
}

-- The fields that differ, in the source's order.
abbrev pub changes : Task → Task → List (String × Value)
changes t n =
    changed "title" (text t.title) (text n.title)
    ++ changed "description" (optional t.description) (optional n.description)
    ++ changed "category" (optional t.category) (optional n.category)
    ++ changed "priority" (number t.priority) (number n.priority)
    ++ changed "tags" (texts t.tags) (texts n.tags)
    ++ changed "spec" (text t.spec) (text n.spec)
    ++ changed "holdUntil" (time t.hold_until) (time n.hold_until)
    ++ changed "kind" (text (kind_name t.kind)) (text (kind_name n.kind))
    ++ changed "parent" (optional t.parent_id) (optional n.parent_id)

-- A kind may change only before the task has children or attempts.
unfoldable pub check_kind : Store → String → Task → Task → Result (Unit {0})
check_kind s i t n =
    require
      (kind_eq t.kind n.kind
        || not (any (is_child i) s.tasks || any (λ a. a.task_id == i) s.attempts))
      (invalid_request "has children or attempts, so its kind can't change")

-- A dependency between the moved subtree and the containers that it moves under, either way round.
abbrev pub joins : Store → String → String → Dep → Bool
joins s i p d =
    (reach (parent_edges s.tasks) p d.task_id && reach (parent_edges s.tasks) d.depends_on_id i)
    || (reach (parent_edges s.tasks) d.task_id i && reach (parent_edges s.tasks) p d.depends_on_id)

abbrev pub no_join : String → String → Option Dep → Result (Unit {0})
no_join i p none = ok tt
no_join i p (some d) = err (cycle_error d.task_id d.depends_on_id)

abbrev pub moves_parent : Option String → Option String → Bool
moves_parent none none = false
moves_parent none (some p) = true
moves_parent (some q) none = true
moves_parent (some q) (some p) = not (q == p)

abbrev pub check_under : Lifecycle → Store → Task → String → Result (Unit {0})
check_under lc s t p = do
  require (not (p == t.id)) (invalid_request "can't be its own parent")
  parent ← load_task s p
  if is_terminal lc t.state then ok tt else assert_parent_open lc parent
  require (not (reach (parent_edges s.tasks) p t.id)) (invalid_request "is inside its subtree")
  no_join t.id p (find (joins s t.id p) s.deps)

-- The new parent, when there is one and it is not the old one.
unfoldable pub check_parent : Lifecycle → Store → Task → Option String → Result (Unit {0})
check_parent lc s t none = ok tt
check_parent lc s t (some p) =
    if moves_parent t.parent_id (some p) then check_under lc s t p else ok tt

-- A parent that the update settles is told.
abbrev pub newly_settled : ActorHandle → Store → Store → Option String → List Event
newly_settled me s s' none = []
newly_settled me s s' (some p) =
    if not (container_settled s p me.client.lifecycle) && container_settled s' p me.client.lifecycle
    then plain_event me.actor s p children_settled [] ∷ []
    else []

abbrev pub updated_tasks : String → TaskPatch → Store → List Task
updated_tasks i p s = update_where (λ x. x.id == i) (patched p s.now) s.tasks

-- The event's payload has one key, `changes`; its fields stand here directly.
unfoldable pub commit_update : ActorHandle → TaskPatch → Task → Option String → Store → Store
commit_update me p t request s =
    let n = patched p s.now t in
    let s' = record s { tasks = updated_tasks t.id p s } in
    record s' {
      events =
          s.events
          ++ (record (plain_event me.actor s t.id task_updated (changes t n)) {
            request_id = request;
          }
              ∷ (if moves_parent t.parent_id n.parent_id
                  then newly_settled me s s' t.parent_id ++ newly_settled me s s' n.parent_id
                  else []));
    }

-- A patch that changes nothing writes nothing.
abbrev pub apply : ActorHandle → TaskPatch → Task → Option String → Store → Store × Task
apply me p t request s =
    if is_empty (changes t (patched p s.now t))
    then (s, t)
    else (commit_update me p t request s, patched p s.now t)

-- tasks.update.
unfoldable pub update :
    ActorHandle → (String → ℕ) → String → TaskPatch → Option String → Store → Result (Store × Task)
unfolding check_kind check_parent commit_update
update me js_length i p request s = do
  parse_patch js_length p
  t ← load_task s i
  check me tasks_update (some t.state) s
  check_kind s i t (patched p s.now t)
  check_parent me.client.lifecycle s t (patched p s.now t).parent_id
  ok (apply me p t request s)
