-- ===== src/TaskGraph/Types.antt =====
-- src/taskgraph/types.ts: the rows of the engine's tables, for one project. A `Date` is a number
-- of milliseconds; a `jsonb` column is its text.
use shreni.Common.{ℕ, String, Option, List, Bool, true, false}

-- Who makes a call: an id, and a role the lifecycle uses.
pub record Actor : Type 0 where
  pub id : String
  pub role : String

pub data Kind : Type 0 where
  work container : Kind

pub data Origin : Type 0 where
  plan manual system agent imported : Origin

abbrev pub is_container : Kind → Bool
is_container work = false
is_container container = true

abbrev pub kind_eq : Kind → Kind → Bool
kind_eq work work = true
kind_eq container container = true
kind_eq _ _ = false

-- A row of taskgraph.tasks.
pub record Task : Type 0 where
  pub id : String
  pub key : Option String
  pub plan_id : Option String
  pub parent_id : Option String
  pub kind : Kind
  pub category : Option String
  pub title : String
  pub description : Option String
  pub priority : ℕ
  pub state : String
  pub origin : Origin
  pub spec : String
  pub tags : List String
  pub boosted : Bool
  pub hold_until : Option ℕ
  pub next_child : ℕ
  pub lease_attempt_id : Option String
  pub lease_expires_at : Option ℕ
  pub created_at : ℕ
  pub updated_at : ℕ
  pub closed_at : Option ℕ

-- A row of taskgraph.plans.
pub record Plan : Type 0 where
  pub id : String
  pub title : String
  pub meta : String
  pub approved_at : Option ℕ
  pub approved_by : Option String
  pub discarded_at : Option ℕ
  pub discarded_by : Option String
  pub created_at : ℕ

-- A row of taskgraph.attempts: one worker's try at a task.
pub record Attempt : Type 0 where
  pub id : String
  pub task_id : String
  pub worker : String
  pub actor : String
  pub started_at : ℕ
  pub ended_at : Option ℕ
  pub outcome : Option String

-- Rows of taskgraph.task_deps and taskgraph.task_links.
pub record Dep : Type 0 where
  pub task_id : String
  pub depends_on_id : String

pub record Link : Type 0 where
  pub a : String
  pub b : String
  pub kind : String

-- The event kinds; `moved name` is the kind `move:<name>`.
pub data EventKind : Type 0 where
  task_created task_updated task_deleted dep_added dep_removed link_added note : EventKind
  plan_created plan_approved plan_discarded children_settled : EventKind
  moved : String → EventKind

-- A value in an event's payload.
pub data Value : Type 0 where
  text : String → Value
  number : ℕ → Value
  texts : List String → Value
  null : Value
  -- A field of task.updated, before and after.
  change : Value → Value → Value

-- A row of taskgraph.events; its id is its position.
pub record Event : Type 0 where
  pub task_id : Option String
  pub plan_id : Option String
  pub attempt_id : Option String
  pub kind : EventKind
  pub actor : String
  pub actor_role : String
  pub from_state : Option String
  pub to_state : Option String
  pub payload : List (String × Value)
  pub request_id : Option String
  pub at : ℕ

-- The flags of a state (lifecycle.ts, StateFlags); an absent flag is false.
pub record StateFlags : Type 0 where
  pub claimable : Bool
  pub leased : Bool
  pub satisfies_deps : Bool
  pub terminal : Bool
