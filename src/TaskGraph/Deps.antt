-- ===== src/TaskGraph/Deps.antt =====
-- src/taskgraph/deps.ts: dependencies, which block, links, which do not, and notes. Edge writes take the
-- project's graph lock, so they follow one another.
pub mod Acyclic
pub mod Decided
pub mod Stranding
use shreni.Common.{
  ℕ, String, Option, none, some, List, [], ◌∷◌, ◌++◌, Bool, true, false, not, ◌&&◌, ◌||◌, ◌==◌, map,
  any, filter, if◌then◌else◌,
}
use shreni.Common.Reach.{Edge, reach}
use shreni.TaskGraph.Types.{
  Actor, Task, Dep, Link, Event, EventKind, dep_added, dep_removed, link_added, note, Value, text,
}
use shreni.TaskGraph.Errors.{
  Error, cycle_error, invalid_request, not_found, Result, ok, err, ◌>>=◌, ◌>>◌, require, or_throw,
}
use shreni.TaskGraph.Store.{Store, emit}
use shreni.TaskGraph.Lifecycle.{
  Lifecycle, Call, deps_add, deps_remove, links_add, notes_add, is_terminal, satisfies,
}
use shreni.TaskGraph.Client.{ActorHandle, check, load_task}
use shreni.TaskGraph.Containers.{waits_on}
use shreni.TaskGraph.Moves.{plain_event}
use shreni.TaskGraph.Ready.{parent_edges}

-- Who waits, and for what.
unfoldable pub dep_edges : List Dep → List Edge
dep_edges deps = map (λ d. (d.task_id, d.depends_on_id)) deps

-- The event of an edge write carries the caller's request id.
abbrev pub edge_event :
    ActorHandle → Store → String → EventKind → List (String × Value) → Option String → Event
edge_event me s i kind payload request = record (plain_event me.actor s i kind payload) {
  request_id = request;
}

-- A dependency that is there already is not added again, and writes no event.
abbrev pub insert_dep : ActorHandle → String → String → Option String → Store → Store
insert_dep me i on request s = if waits_on s.deps i on then s else record s {
  deps = record { task_id = i; depends_on_id = on } ∷ s.deps;
  events = s.events ++ edge_event me s i dep_added (("dependsOnId", text on) ∷ []) request ∷ [];
}

-- deps.add: `i` waits for `on`, unless that closes a cycle, or one contains the other.
unfoldable pub add_dep : ActorHandle → String → String → Option String → Store → Result Store
add_dep me i on request s = do
  let lc = me.client.lifecycle
  task ← load_task s i
  target ← load_task s on
  check me deps_add (some task.state) s
  require (not (is_terminal lc target.state && not (satisfies lc target.state)))
      (invalid_request "the target will never satisfy a dependency")
  require (not (i == on)) (cycle_error i on)
  require (not (reach (dep_edges s.deps) on i)) (cycle_error i on)
  require (not (reach (parent_edges s.tasks) i on || reach (parent_edges s.tasks) on i))
      (cycle_error i on)
  ok (insert_dep me i on request s)

unfoldable pub remove_dep : ActorHandle → String → String → Option String → Store → Result Store
remove_dep me i on request s = do
  task ← load_task s i
  check me deps_remove (some task.state) s
  require (waits_on s.deps i on) (not_found "dependency" i)
  ok (record s {
    deps = filter (λ d. not ((d.task_id == i) && (d.depends_on_id == on))) s.deps;
    events = s.events ++ edge_event me s i dep_removed (("dependsOnId", text on) ∷ []) request ∷ [];
  })

abbrev pub has_link : List Link → String → String → String → Bool
has_link links a b kind = any (λ l. (l.a == a) && (l.b == b) && (l.kind == kind)) links

abbrev insert_link : ActorHandle → String → String → String → Option String → Store → Store
insert_link me a b kind request s = if has_link s.links a b kind then s else record s {
  links = record { a = a; b = b; kind = kind } ∷ s.links;
  events =
      s.events
      ++ edge_event me s a link_added (("b", text b) ∷ ("kind", text kind) ∷ []) request ∷ [];
}

-- links.add: a reference that does not block.
unfoldable pub add_link :
    ActorHandle → String → String → String → Option String → Store → Result Store
add_link me a b kind request s = do
  require (not (kind == "")) (invalid_request "a link needs a kind")
  from ← load_task s a
  to ← load_task s b
  check me links_add (some from.state) s
  ok (insert_link me a b kind request s)

-- notes.add: a note is an event in the task's history.
unfoldable pub add_note : ActorHandle → String → String → Option String → Store → Result Store
add_note me i words request s = do
  require (not (words == "")) (invalid_request "a note needs text")
  task ← load_task s i
  check me notes_add (some task.state) s
  ok (emit s (edge_event me s i note (("text", text words) ∷ []) request))
