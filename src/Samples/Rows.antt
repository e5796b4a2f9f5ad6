-- ===== src/Samples/Rows.antt =====
-- A project under Shreni's lifecycle: an epic with one task claimed, one open and one waiting on both.
use shreni.Common.{ℕ, String, Option, none, some, [], ◌∷◌, Bool, false, text_lt, not}
use shreni.TaskGraph.Types.{Task, Kind, work, container, Origin, Attempt, Dep}
use shreni.TaskGraph.Store.{Store}
use shreni.TaskGraph.Client.{Client, ActorHandle}
use shreni.TaskGraph.Moves.{MoveOptions}
use shreni.TaskGraph.Ready.{TaskFilter}
use shreni.TaskGraph.Tasks.{NewTask}
use shreni.TaskGraph.Tasks.Edit.{TaskPatch}
use shreni.TaskGraph.Claims.{ClaimOptions}
use shreni.Policy.Lifecycle.{task_lifecycle, task_states}

abbrev pub task : String → Kind → Option String → String → ℕ → Task
task i kind parent state at = record {
  id = i;
  key = none;
  plan_id = none;
  parent_id = parent;
  kind = kind;
  category = none;
  title = i;
  description = none;
  priority = 2;
  state = state;
  origin = Origin.manual;
  spec = "{}";
  tags = [];
  boosted = false;
  hold_until = none;
  next_child = 1;
  lease_attempt_id = none;
  lease_expires_at = none;
  created_at = at;
  updated_at = at;
  closed_at = none;
}

abbrev pub epic : Task
epic = record (task "w-epic" container none "open" 1) { next_child = 4 }

abbrev pub claimed : Task
claimed = record (task "w-epic.1" work (some "w-epic") "claimed" 2) {
  lease_attempt_id = some "a-1";
  lease_expires_at = some 50;
}

abbrev pub ready : Task
ready = task "w-epic.2" work (some "w-epic") "open" 3

abbrev pub waiting : Task
waiting = task "w-epic.3" work (some "w-epic") "open" 4

abbrev pub edge : String → String → Dep
edge i on = record { task_id = i; depends_on_id = on }

abbrev pub attempt : Attempt
attempt = record {
  id = "a-1";
  task_id = "w-epic.1";
  worker = "host/1";
  actor = "sthapathi";
  started_at = 10;
  ended_at = none;
  outcome = none;
}

-- At time 20 the lease is good; at time 60 it has lapsed.
abbrev pub at_time : ℕ → Store
at_time now = record {
  tasks = epic ∷ claimed ∷ ready ∷ waiting ∷ [];
  deps = edge "w-epic.3" "w-epic.1" ∷ edge "w-epic.3" "w-epic.2" ∷ [];
  links = [];
  attempts = attempt ∷ [];
  plans = [];
  events = [];
  now = now;
  migrations = "0001_core" ∷ "0002_triggers" ∷ [];
  lifecycle_name = "shreni.task";
  lifecycle_version = 2;
  active_states = task_states;
  evidence = [];
  acceptance_checks = [];
}

abbrev pub same_order : String → String → Bool
same_order a b = not (text_lt b a)

abbrev pub client : Client
client = record { lifecycle = task_lifecycle; validators = []; collates = same_order }

abbrev pub handle : String → String → ActorHandle
handle i role = record { client = client; actor = record { id = i; role = role } }

abbrev pub sthapathi : ActorHandle
sthapathi = handle "sthapathi" "orchestrator"

abbrev pub developer : ActorHandle
developer = handle "dev" "developer"

abbrev pub no_options : MoveOptions
no_options = record { reason = none; payload = []; request_id = none; drop_deps = false }

abbrev pub any_task : TaskFilter
any_task = record {
  states = none;
  kind = none;
  ids = none;
  key = none;
  parent = none;
  within = none;
  plan = none;
  origin = none;
  tags = none;
}

abbrev pub one_minute : ClaimOptions
one_minute = record { worker = "host/2"; lease_ms = 60_000; filter = any_task; request_id = none }

-- A task to file under the epic, and the ids that the draws come to.
abbrev pub new_task : NewTask
new_task = record {
  title = "write it";
  description = none;
  kind = none;
  category = none;
  priority = none;
  parent = some "w-epic";
  plan = none;
  key = some "k-1";
  spec = none;
  tags = none;
  hold_until = none;
}

abbrev pub drawn : ℕ → String
drawn n = "w-abc"

-- A length under which every title fits.
abbrev pub ten : String → ℕ
ten s = 10

abbrev pub no_change : TaskPatch
no_change = record {
  title = none;
  description = none;
  category = none;
  priority = none;
  tags = none;
  spec = none;
  hold_until = none;
  parent = none;
  kind = none;
}
