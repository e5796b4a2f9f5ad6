-- ===== src/TaskGraph/Sweep.antt =====
-- src/taskgraph/claims.ts: the lease sweep, which returns lapsed leases.
pub mod Keeps
use shreni.Common.{
  ℕ, suc, ◌+◌, String, Option, none, some, List, [], ◌∷◌, ◌++◌, Bool, true, false, not, ◌&&◌, ◌||◌,
  ◌==◌, eqb, ltb, leb, is_some_of, is_none, is_some, map, any, filter, length, includes, head_of,
  order_by, find, if◌then◌else◌,
}
use shreni.TaskGraph.Types.{Actor, Task, Attempt, Event, moved, number, text}
use shreni.TaskGraph.Errors.{
  Error, invalid_request, lease_lost, lease_held, not_found, not_permitted, Result, ok, err, ◌>>=◌,
  ◌>>◌, require, or_throw,
}
use shreni.TaskGraph.Store.{Store, find_task, update_where, emit}
use shreni.TaskGraph.Lifecycle.{
  Move, Hooks, Lifecycle, system_role, leased_state, claimable_state, move_named, boost_after,
}
use shreni.TaskGraph.Client.{Client, ActorHandle, need, assert_version, load_task}
use shreni.TaskGraph.Containers.{by_id}
use shreni.TaskGraph.Moves.{MoveOptions, end_attempt, move_event, move}
use shreni.TaskGraph.Ready.{TaskFilter, filter_where, is_ready, claim_order}

-- `max(started_at)` over the task's attempts that ended another way than by the expiry move.
-- (`outcome <> …` is not true of a null outcome.)
abbrev ended_otherwise : String → String → Attempt → Bool
ended_otherwise i expire a =
    (a.task_id == i) && is_some a.outcome && not (is_some_of a.outcome expire)

abbrev starts_after : ℕ → List Attempt → Bool
starts_after at [] = true
starts_after at (a ∷ as') = ltb a.started_at at && starts_after at as'

-- How many attempts of the task have ended by the expiry move since the last that ended another way.
unfoldable pub prior_expiries : Store → String → String → ℕ
prior_expiries s i expire = length (
    filter
      (λ a.
        (a.task_id == i)
        && is_some_of a.outcome expire
        && starts_after a.started_at (filter (ended_otherwise i expire) s.attempts))
      s.attempts)

-- The expiry move for a number of expiries in a row.
abbrev repeats : Option (ℕ × String) → ℕ → Option String
repeats none n = none
repeats (some (after, m)) n = if leb after n then some m else none

unfoldable pub expiry_move : Lifecycle → ℕ → Option Move
expiry_move lc n = elim (repeats lc.hooks.on_repeated_expiry n) [
  | none ↦ move_named lc lc.hooks.on_lease_expiry
  | some m ↦ move_named lc m
]

abbrev pub is_lapsed : Option ℕ → ℕ → Bool
is_lapsed none now = false
is_lapsed (some at) now = ltb at now

unfoldable pub expired_row : Lifecycle → Store → Task → Bool
expired_row lc s t = (t.state == leased_state lc) && is_lapsed t.lease_expires_at s.now

unfoldable pub returned_row : Move → ℕ → Task → Task
returned_row m now t = record t {
  state = m.to;
  boosted = boost_after m t.boosted;
  lease_attempt_id = none;
  lease_expires_at = none;
  updated_at = now;
}

abbrev system_actor : Actor
system_actor = record { id = system_role; role = system_role }

-- The writes for one lapsed lease, under the move that its number of expiries selects.
unfoldable pub return_lease : Lifecycle → Task → ℕ → Move → Store → Store
unfolding returned_row
return_lease lc t n m s = record s {
  tasks = update_where (λ x. x.id == t.id) (returned_row m s.now) s.tasks;
  attempts = end_attempt t.lease_attempt_id m.name s.now s.attempts;
  events =
      s.events
      ++ move_event system_actor s m t t.lease_attempt_id (("expiries", number n) ∷ []) none ∷ [];
}

-- A lifecycle that registers declares the moves that its hooks name; without one nothing is done.
abbrev pub return_by : Lifecycle → Task → ℕ → Option Move → Store → Store
return_by lc t n none s = s
return_by lc t n (some m) s = return_lease lc t n m s

-- The rows were selected, with their numbers of expiries, before the first of them is written.
abbrev pub Lapsed : Type 0
Lapsed = Task × ℕ

unfoldable pub lapsed : Client → Store → List Lapsed
unfolding expired_row
lapsed c s =
    map (λ t. (t, prior_expiries s t.id c.lifecycle.hooks.on_lease_expiry + 1))
      (order_by (by_id c) (filter (expired_row c.lifecycle s) s.tasks))

unfoldable pub return_leases : Lifecycle → List Lapsed → Store → Store
unfolding expiry_move return_lease
return_leases lc [] s = s
return_leases lc ((t, n) ∷ rest) s = return_leases lc rest (return_by lc t n (expiry_move lc n) s)

-- sweep: returns lapsed leases, and how many.
unfoldable pub sweep : Client → Store → Store × ℕ
unfolding lapsed return_leases
sweep c s = (return_leases c.lifecycle (lapsed c s) s, length (lapsed c s))

unfoldable pub expire_leases : Client → Store → Result (Store × ℕ)
unfolding sweep
expire_leases c s = do need "0002_triggers" s; ok (sweep c s)
