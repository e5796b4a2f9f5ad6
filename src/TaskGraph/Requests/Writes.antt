-- ===== src/TaskGraph/Requests/Writes.antt =====
-- src/taskgraph/client.ts, ActorHandle: the writes that answer nothing, each run once for its request id.
use shreni.Common.{String, Option, none, some}
use shreni.TaskGraph.Types.{
  EventKind, task_deleted, dep_added, dep_removed, link_added, note, Event,
}
use shreni.TaskGraph.Errors.{Result, ok, ◌>>=◌}
use shreni.TaskGraph.Store.{Store}
use shreni.TaskGraph.Client.{ActorHandle}
use shreni.TaskGraph.Tasks.{delete}
use shreni.TaskGraph.Deps.{add_dep, remove_dep, add_link, add_note}
use shreni.TaskGraph.Requests.{Expected, once}

pub data Write : Type 0 where
  deletes : (task : String) → Write
  adds_dep : (task on : String) → Write
  removes_dep : (task on : String) → Write
  adds_link : (a b kind : String) → Write
  adds_note : (task words : String) → Write

-- The event kind that the write puts its request id on, and the task that it names.
abbrev pub kind_of : Write → EventKind
kind_of (deletes i) = task_deleted
kind_of (adds_dep i on) = dep_added
kind_of (removes_dep i on) = dep_removed
kind_of (adds_link a b kind) = link_added
kind_of (adds_note i words) = note

abbrev pub task_of : Write → String
task_of (deletes i) = i
task_of (adds_dep i on) = i
task_of (removes_dep i on) = i
task_of (adds_link a b kind) = a
task_of (adds_note i words) = i

abbrev pub expects : ActorHandle → Write → Expected
expects me w = record {
  kind = kind_of w;
  actor = me.actor.id;
  task_id = some (task_of w);
  plan_id = none;
}

abbrev pub perform : ActorHandle → Write → Option String → Store → Result Store
perform me (deletes i) request s = delete me i request s
perform me (adds_dep i on) request s = add_dep me i on request s
perform me (removes_dep i on) request s = remove_dep me i on request s
perform me (adds_link a b kind) request s = add_link me a b kind request s
perform me (adds_note i words) request s = add_note me i words request s

abbrev pub act_of : ActorHandle → Write → Option String → Store → Result (Store × Unit {0})
act_of me w request s = do s' ← perform me w request s; ok (s', tt)

abbrev pub nothing : Event → Store → Result (Unit {0})
nothing e s = ok tt

unfoldable pub write_once : ActorHandle → Write → Option String → Store → Result (Store × Unit {0})
unfolding once
write_once me w request s = once request (expects me w) (act_of me w request) nothing s
