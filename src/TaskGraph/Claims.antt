-- ===== src/TaskGraph/Claims.antt =====
-- src/taskgraph/claims.ts: claims, the lease sweep, and the calls that carry a claim's attempt.
pub mod Keeps
pub mod Grants
pub mod Picks
pub mod Fencing
use shreni.Common.{
  ℕ, suc, ◌+◌, String, Option, none, some, List, [], ◌∷◌, ◌++◌, Bool, true, false, not, ◌&&◌, ◌||◌,
  ◌==◌, eqb, ltb, leb, is_some_of, is_none, is_some, map, any, filter, length, includes, head_of,
  order_by, find, if◌then◌else◌,
}
use shreni.TaskGraph.Types.{Actor, Task, Attempt, Event, moved, number, text}
use shreni.TaskGraph.Errors.{
  Error, invalid_request, lease_lost, lease_held, not_found, not_permitted, Result, ok, err, ◌>>=◌,
  ◌>>◌, require, or_throw,
}
use shreni.TaskGraph.Store.{Store, find_task, update_where, emit}
use shreni.TaskGraph.Lifecycle.{
  Move, Hooks, Lifecycle, system_role, leased_state, claimable_state, move_named, boost_after,
}
use shreni.TaskGraph.Client.{Client, ActorHandle, need, assert_version, load_task}
use shreni.TaskGraph.Containers.{by_id}
use shreni.TaskGraph.Moves.{MoveOptions, end_attempt, move_event, move}
use shreni.TaskGraph.Sweep.{sweep}
use shreni.TaskGraph.Ready.{TaskFilter, filter_where, is_ready, claim_order}

pub record Claim : Type 0 where
  pub task : Task
  pub attempt_id : String
  pub expires_at : Option ℕ

pub record ClaimOptions : Type 0 where
  pub worker : String
  pub lease_ms : ℕ
  pub filter : TaskFilter
  pub request_id : Option String

-- 30 days.
abbrev pub max_lease_ms : ℕ
max_lease_ms = 2_592_000_000

unfoldable pub check_lease_ms : ℕ → Result (Unit {0})
check_lease_ms ms =
    require (ltb 0 ms && leb ms max_lease_ms) (invalid_request "leaseMs must be from 1 to 30 days")

-- A lifecycle that registers has a claim move; a look-up that finds none fails here.
abbrev pub may_work : ActorHandle → Move → Bool
may_work me m = includes m.by me.actor.role

-- The next ready task in claim order, among those that the filter admits.
unfoldable pub next_ready : Client → TaskFilter → Store → Option Task
next_ready c f s = head_of (
    order_by (claim_order c) (filter (λ t. filter_where f s t && is_ready c.lifecycle s t) s.tasks))

unfoldable pub leased_row : Move → String → ℕ → ℕ → Task → Task
leased_row m attempt expires now t = record t {
  state = m.to;
  boosted = boost_after m t.boosted;
  lease_attempt_id = some attempt;
  lease_expires_at = some expires;
  updated_at = now;
}

-- `returning`: the row as the update left it. The update is of a row that was read just before, so
-- there is one.
abbrev pub returned_or : Task → Option Task → Task
returned_or t none = t
returned_or t (some x) = x

-- The lease of one task under a new attempt; `attempt` is what gen_random_uuid() returned.
unfoldable pub lease : ActorHandle → ClaimOptions → Move → String → Task → Store → Store × Claim
unfolding leased_row
lease me opts m attempt t s =
    let expires = s.now + opts.lease_ms in
    let rows = update_where (λ x. x.id == t.id) (leased_row m attempt expires s.now) s.tasks in
    let row = returned_or t (find_task rows t.id) in
    (
      record s {
        tasks = rows;
        attempts =
            record {
              id = attempt;
              task_id = t.id;
              worker = opts.worker;
              actor = me.actor.id;
              started_at = s.now;
              ended_at = none;
              outcome = none;
            }
            ∷ s.attempts;
        events =
            s.events
            ++ record (move_event me.actor s m t (some attempt)
                (("worker", text opts.worker) ∷ ("leaseMs", number opts.lease_ms) ∷ [])
                opts.request_id) { from_state = some (claimable_state me.client.lifecycle) }
              ∷ [];
      },
      record { task = row; attempt_id = attempt; expires_at = row.lease_expires_at },
    )

abbrev pub take :
    ActorHandle → ClaimOptions → Move → String → Option Task → Store → Store × Option Claim
take me opts m attempt none s = (s, none)
take me opts m attempt (some t) s =
    let (s', claim) = lease me opts m attempt t s in (s', some claim)

-- claim: sweeps, then leases the next ready task to this worker; no claim when nothing is ready.
unfoldable pub claim : ActorHandle → ClaimOptions → String → Store → Result (Store × Option Claim)
unfolding check_lease_ms sweep next_ready lease
claim me opts attempt s = do
  let lc = me.client.lifecycle
  require (not (opts.worker == "")) (invalid_request "a claim needs a worker")
  check_lease_ms opts.lease_ms
  m ← or_throw (move_named lc lc.hooks.on_claim) (invalid_request "no claim move")
  require (may_work me m) (not_permitted "claim" me.actor.role (some (claimable_state lc)))
  assert_version me s
  let swept = (sweep me.client s).0
  ok (take me opts m attempt (next_ready me.client opts.filter swept) swept)

abbrev pub holds_lease : Claim → Task → Bool
holds_lease c t = (t.id == c.task.id) && is_some_of t.lease_attempt_id c.attempt_id

abbrev pub renewed : ℕ → Task → Task
renewed expires t = record t { lease_expires_at = some expires }

-- heartbeat: a lapsed lease that the sweep has not returned still belongs to its holder.
unfoldable pub heartbeat : ActorHandle → Claim → ℕ → Store → Result (Store × Claim)
unfolding check_lease_ms
heartbeat me c ms s = do
  let lc = me.client.lifecycle
  check_lease_ms ms
  m ← or_throw (move_named lc lc.hooks.on_claim) (invalid_request "no claim move")
  require (may_work me m) (not_permitted "heartbeat" me.actor.role none)
  assert_version me s
  t ← or_throw (find (holds_lease c) s.tasks) (lease_lost c.task.id c.attempt_id)
  ok (
    record s { tasks = update_where (holds_lease c) (renewed (s.now + ms)) s.tasks },
    record {
      task = renewed (s.now + ms) t;
      attempt_id = c.attempt_id;
      expires_at = some (s.now + ms);
    },
  )

-- moveClaimed: a move fenced by the claim's attempt.
unfoldable pub move_claimed :
    ActorHandle → Claim → String → MoveOptions → Store → Result (Store × Task)
move_claimed me c name opts s = move me c.task.id name opts (some c.attempt_id) s

abbrev holder_of : Option Attempt → Option String
holder_of none = none
holder_of (some a) = some a.actor

abbrev holder_name : Option String → String
holder_name none = "an unknown actor"
holder_name (some a) = a

-- claims.resume: the live claim on a task, for the actor who holds it. It writes nothing.
unfoldable pub resume : ActorHandle → String → Store → Result Claim
resume me i s = do
  let lc = me.client.lifecycle
  m ← or_throw (move_named lc lc.hooks.on_claim) (invalid_request "no claim move")
  require (may_work me m) (not_permitted "claims.resume" me.actor.role none)
  need "0001_core" s
  t ← load_task s i
  attempt ← or_throw t.lease_attempt_id (not_found "claim" i)
  let holder = holder_of (find (λ a. a.id == attempt) s.attempts)
  require (is_some_of holder me.actor.id) (lease_held i (holder_name holder))
  ok (record { task = t; attempt_id = attempt; expires_at = t.lease_expires_at })
