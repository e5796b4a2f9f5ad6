-- ===== src/TaskGraph/Moves.antt =====
-- src/taskgraph/moves.ts: a move of the lifecycle, as one transaction.
pub mod Checks
pub mod Keeps
use shreni.Common.{
  ℕ, String, Option, none, some, List, [], ◌∷◌, ◌++◌, Bool, true, false, not, ◌&&◌, ◌||◌, ◌==◌,
  is_some_of, is_empty, is_none, map, any, filter, includes, if◌then◌else◌,
}
use shreni.TaskGraph.Types.{
  Actor, Task, Attempt, Dep, Event, EventKind, moved, dep_removed, children_settled, Value, text,
}
use shreni.TaskGraph.Errors.{
  Error, invalid_request, lease_lost, move_refused, Result, ok, err, ◌>>=◌, ◌>>◌, require, or_throw,
}
use shreni.TaskGraph.Store.{Store, find_task, update_where, emit}
use shreni.TaskGraph.Lifecycle.{
  Guard, Move, Lifecycle, is_terminal, satisfies, leased_state, move_named, boost_after,
}
use shreni.TaskGraph.Client.{Client, ActorHandle, assert_version, load_task}
use shreni.TaskGraph.Containers.{
  lock_with_parent, live_children, live_dependents, container_settled,
}

pub record MoveOptions : Type 0 where
  pub reason : Option String
  pub payload : List (String × Value)
  pub request_id : Option String
  -- Remove the edges of live tasks waiting on this one, instead of refusing with DependentsLive.
  pub drop_deps : Bool

-- What the checks of a move settle: the move, the locked row, and the tasks whose edges it drops.
pub record Checked : Type 0 where
  pub def : Move
  pub task : Task
  pub dropped : List String

-- A fence is an attempt that must hold the task's lease.
abbrev pub holds : Option String → Task → Bool
holds none t = true
holds (some a) t = is_some_of t.lease_attempt_id a

abbrev pub fence_error : Option String → String → Error
fence_error none i = lease_lost i ""
fence_error (some a) i = lease_lost i a

abbrev pub refusal : Option Guard → Task → Actor → Store → Option String
refusal none t a s = none
refusal (some g) t a s = g.refuses t a s

abbrev pub allow : Option String → String → String → Result (Unit {0})
allow none i state = ok tt
allow (some why) i state = err (move_refused i state why [] [])

-- A terminal state that does not satisfy dependencies strands the tasks that wait on it.
abbrev pub strands : Lifecycle → Move → Bool
strands lc m = is_terminal lc m.to && not (satisfies lc m.to)

unfoldable pub check_move :
    ActorHandle → Store → String → String → MoveOptions → Option String → Result Checked
check_move me s i name opts fence = do
  let lc = me.client.lifecycle
  def ← or_throw (move_named lc name) (invalid_request "the lifecycle has no such move")
  require (not (name == lc.hooks.on_claim))
      (invalid_request "the claim move; take work with claim()")
  assert_version me s
  task ← if is_terminal lc def.to then lock_with_parent s i else load_task s i
  require (holds fence task) (fence_error fence i)
  require (includes def.by me.actor.role) (move_refused i task.state "NotPermitted" [] [])
  require (includes def.from task.state) (move_refused i task.state "WrongState" [] [])
  let live = if is_terminal lc def.to then live_children me.client s i else []
  require (is_empty live) (move_refused i task.state "ChildrenLive" [] live)
  let waiting = if strands lc def then live_dependents me.client s i else []
  require (is_empty waiting || opts.drop_deps)
      (move_refused i task.state "DependentsLive" waiting [])
  allow (refusal def.guard task me.actor s) i task.state
  ok (record { def = def; task = task; dropped = waiting })

-- The row after the move: it holds no lease, and is closed when the state is terminal.
unfoldable pub moved_row : Lifecycle → Move → ℕ → Task → Task
moved_row lc m now t = record t {
  state = m.to;
  boosted = boost_after m t.boosted;
  lease_attempt_id = none;
  lease_expires_at = none;
  closed_at = if is_terminal lc m.to then some now else t.closed_at;
  updated_at = now;
}

-- `update taskgraph.attempts set ended_at = now(), outcome = … where id = … and ended_at is null`.
abbrev pub end_attempt : Option String → String → ℕ → List Attempt → List Attempt
end_attempt none outcome now me = me
end_attempt (some a) outcome now me =
    update_where (λ x. (x.id == a) && is_none x.ended_at)
      (λ x. record x { ended_at = some now; outcome = some outcome }) me

-- Any move out of the leased state ends the attempt that holds the task.
abbrev pub held_attempt : Lifecycle → Task → Option String
held_attempt lc t = if t.state == leased_state lc then t.lease_attempt_id else none

abbrev pub drop_edges : String → List String → List Dep → List Dep
drop_edges on dropped deps =
    filter (λ d. not ((d.depends_on_id == on) && includes dropped d.task_id)) deps

abbrev reason_of : Option String → List (String × Value)
reason_of none = []
reason_of (some r) = ("reason", text r) ∷ []

abbrev pub move_event :
    Actor → Store → Move → Task → Option String → List (String × Value) → Option String → Event
move_event actor s m t attempt payload request = record {
  task_id = some t.id;
  plan_id = none;
  attempt_id = attempt;
  kind = moved m.name;
  actor = actor.id;
  actor_role = actor.role;
  from_state = some t.state;
  to_state = some m.to;
  payload = payload;
  request_id = request;
  at = s.now;
}

-- An event with no states and no request id.
abbrev pub plain_event : Actor → Store → String → EventKind → List (String × Value) → Event
plain_event actor s i kind payload = record {
  task_id = some i;
  plan_id = none;
  attempt_id = none;
  kind = kind;
  actor = actor.id;
  actor_role = actor.role;
  from_state = none;
  to_state = none;
  payload = payload;
  request_id = none;
  at = s.now;
}

abbrev pub dropped_events : Actor → Store → String → List String → List Event
dropped_events actor s on [] = []
dropped_events actor s on (w ∷ ws) =
    plain_event actor s w dep_removed (("dependsOnId", text on) ∷ ("reason", text "dropped") ∷ [])
    ∷ dropped_events actor s on ws

-- The parent is told when its last live child closes.
abbrev pub settled_events : ActorHandle → Store → Option String → List Event
settled_events me s none = []
settled_events me s (some p) =
    if container_settled s p me.client.lifecycle
    then plain_event me.actor s p children_settled [] ∷ []
    else []

-- The writes of the move, in the transaction's order.
unfoldable pub moved_rows : ActorHandle → Store → Checked → Store
unfolding moved_row
moved_rows me s c = record s {
  deps = drop_edges c.task.id c.dropped s.deps;
  attempts = end_attempt (held_attempt me.client.lifecycle c.task) c.def.name s.now s.attempts;
  tasks =
      update_where (λ t. (t.id == c.task.id) && (t.state == c.task.state))
        (moved_row me.client.lifecycle c.def s.now) s.tasks;
}

unfoldable pub commit_move : ActorHandle → Store → Checked → MoveOptions → Store
unfolding moved_rows
commit_move me s c opts =
    let lc = me.client.lifecycle in
    let s' = moved_rows me s c in
    record s' {
      events =
          s.events
          ++ (move_event me.actor s c.def c.task (held_attempt lc c.task)
                (opts.payload ++ reason_of opts.reason) opts.request_id
              ∷ (dropped_events me.actor s c.task.id c.dropped
                  ++ (if is_terminal lc c.def.to
                      then settled_events me s' c.task.parent_id
                      else [])));
    }

-- move(): the row as it is after the move.
unfoldable pub move :
    ActorHandle → String → String → MoveOptions → Option String → Store → Result (Store × Task)
unfolding check_move commit_move moved_row
move me i name opts fence s = do
  c ← check_move me s i name opts fence
  ok (commit_move me s c opts, moved_row me.client.lifecycle c.def s.now c.task)
