-- ===== src/TaskGraph/Client.antt =====
-- src/taskgraph/client.ts: the client of one process, the handle of an actor, and the two checks that
-- every write makes first; src/taskgraph/tasks.ts: loading a task.
use shreni.Common.{String, Option, List, Bool, ◌&&◌, ◌==◌, eqb, includes}
use shreni.TaskGraph.Types.{Actor, Task, Plan, Dep, Link}
use shreni.TaskGraph.Errors.{
  not_found, schema_behind, version_mismatch, Finding, Result, ◌>>◌, require, or_throw,
}
use shreni.TaskGraph.Store.{Store, find_task}
use shreni.TaskGraph.Lifecycle.{Lifecycle, Call, check_permission}

-- A plan, its tasks, and the dependencies and links that touch them; no plan for a lone task.
pub record PlanSnapshot : Type 0 where
  pub plan : Option Plan
  pub tasks : List Task
  pub deps : List Dep
  pub links : List Link

pub data Scope : Type 0 where
  plan_scope task_scope : Scope

-- What a validator of the caller's comes to: its findings, or an error with a code and a message.
pub data Verdict : Type 0 where
  reported : List Finding → Verdict
  threw : String → String → Verdict

-- Its configuration is part of the function. It reads the store; one that writes is not modelled.
pub record Validator : Type 0 where
  pub name : String
  pub scope : Scope
  pub validate : PlanSnapshot → Store → Verdict

-- `collates` is the order that the database's collation gives to ids, for `order by id`.
pub record Client : Type 0 where
  pub lifecycle : Lifecycle
  pub validators : List Validator
  pub collates : String → String → Bool

pub record ActorHandle : Type 0 where
  pub client : Client
  pub actor : Actor

-- client.need: the migration has run.
abbrev pub need : String → Store → Result (Unit {0})
need m s = require (includes s.migrations m) (schema_behind m)

abbrev pub same_version : Lifecycle → Store → Bool
same_version lc s = (s.lifecycle_name == lc.name) && eqb s.lifecycle_version lc.version

-- ActorHandle.assertVersion and ActorHandle.check.
unfoldable pub assert_version : ActorHandle → Store → Result (Unit {0})
assert_version me s = do
  need "0002_triggers" s
  require (same_version me.client.lifecycle s) version_mismatch

unfoldable pub check : ActorHandle → Call → Option String → Store → Result (Unit {0})
check me c state s = do
  assert_version me s
  check_permission me.client.lifecycle c me.actor.role state

-- tasks.ts, loadTask.
abbrev pub load_task : Store → String → Result Task
load_task s i = or_throw (find_task s.tasks i) (not_found "task" i)
