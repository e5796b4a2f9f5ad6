-- ===== src/TaskGraph/Lifecycle.antt =====
-- src/taskgraph/lifecycle.ts and permissions.ts: the lifecycle that the caller declares, as data, the
-- look-ups that the engine makes in it (claims.ts, ready.ts, containers.ts), and the permission check.
pub mod Rules
use shreni.Common.{
  ℕ, String, Option, none, some, List, [], ◌∷◌, Bool, true, false, ◌==◌, find, map, filter,
  includes, is_some, if◌then◌else◌, not, ◌&&◌,
}
use shreni.TaskGraph.Types.{Actor, Task, StateFlags}
use shreni.TaskGraph.Errors.{not_permitted, Result, ok, err}
use shreni.TaskGraph.Store.{Store}

-- A guard runs inside the move's transaction, after the task row is locked: `none` allows the move,
-- a text refuses it.
pub record Guard : Type 0 where
  pub guard_name : String
  pub refuses : Task → Actor → Store → Option String

pub record Move : Type 0 where
  pub name : String
  pub from : List String
  pub to : String
  pub by : List String
  pub guard : Option Guard
  pub boost : Bool
  pub clears_boost : Bool

pub data Call : Type 0 where
  tasks_create tasks_update tasks_delete deps_add deps_remove : Call
  links_add notes_add plans_create plans_validate lifecycles_activate : Call

abbrev pub call_name : Call → String
call_name tasks_create = "tasks.create"
call_name tasks_update = "tasks.update"
call_name tasks_delete = "tasks.delete"
call_name deps_add = "deps.add"
call_name deps_remove = "deps.remove"
call_name links_add = "links.add"
call_name notes_add = "notes.add"
call_name plans_create = "plans.create"
call_name plans_validate = "plans.validate"
call_name lifecycles_activate = "lifecycles.activate"

-- Any state (`true`), or the states the task must be in.
pub data Allowed : Type 0 where
  any_state : Allowed
  in_states : List String → Allowed

pub record Hooks : Type 0 where
  pub on_approve : String
  pub on_claim : String
  pub on_discard : String
  pub on_lease_expiry : String
  -- After how many expiries in a row, and the move made then.
  pub on_repeated_expiry : Option (ℕ × String)

-- An object of the source is an association list in the order of its keys; an absent optional
-- object is an empty one.
pub record Lifecycle : Type 0 where
  pub name : String
  pub version : ℕ
  pub states : List (String × StateFlags)
  pub create_state : String
  pub create_by_role : List (String × String)
  pub moves : List Move
  pub permissions : List (Call × List (String × Allowed))
  pub hooks : Hooks
  pub migrate : List (String × String)

abbrev pub system_role : String
system_role = "system"

-- `record[key]`, and whether the key is there (`Object.hasOwn`).
abbrev pub lookup {ℓ} : {A : Type ℓ} → List (String × A) → String → Option A
lookup [] k = none
lookup ((j, v) ∷ m) k = if j == k then some v else lookup m k

abbrev pub has_own {ℓ} : {A : Type ℓ} → List (String × A) → String → Bool
has_own m k = is_some (lookup m k)

-- `states[s]?.flag`: false for an undeclared state.
abbrev pub flag_of : (StateFlags → Bool) → Option StateFlags → Bool
flag_of flag none = false
flag_of flag (some f) = flag f

abbrev pub has_flag : (StateFlags → Bool) → List (String × StateFlags) → String → Bool
has_flag flag states s = flag_of flag (lookup states s)

-- The keys of an object are distinct.
abbrev pub distinct_keys {ℓ} : {A : Type ℓ} → List (String × A) → Bool
distinct_keys [] = true
distinct_keys ((k, v) ∷ m) = not (has_own m k) && distinct_keys m

-- The states that carry a flag, in declaration order.
abbrev pub flagged : (StateFlags → Bool) → List (String × StateFlags) → List String
flagged flag states = map (λ e. e.0) (filter (λ e. flag e.1) states)

unfoldable pub is_terminal : Lifecycle → String → Bool
is_terminal lc s = has_flag (λ f. f.terminal) lc.states s

unfoldable pub satisfies : Lifecycle → String → Bool
satisfies lc s = has_flag (λ f. f.satisfies_deps) lc.states s

unfoldable pub terminal_states : Lifecycle → List String
terminal_states lc = flagged (λ f. f.terminal) lc.states

-- `Object.keys(states).find(…)!`: no state is named "", so "" stands for `undefined`.
abbrev pub first_flagged : List String → String
first_flagged [] = ""
first_flagged (s ∷ ss) = s

unfoldable pub leased_state : Lifecycle → String
leased_state lc = first_flagged (flagged (λ f. f.leased) lc.states)

unfoldable pub claimable_state : Lifecycle → String
claimable_state lc = first_flagged (flagged (λ f. f.claimable) lc.states)

-- `moves.find(m => m.name === name)`.
unfoldable pub move_named : Lifecycle → String → Option Move
move_named lc n = find (λ m. m.name == n) lc.moves

-- `boosted` after a move: set by boost, cleared by clearsBoost, else kept.
abbrev pub boost_after : Move → Bool → Bool
boost_after m boosted = if m.boost then true else if m.clears_boost then false else boosted

abbrev call_eq : Call → Call → Bool
call_eq a b = call_name a == call_name b

-- permissions.ts, checkPermission.
abbrev roles_of : List (Call × List (String × Allowed)) → Call → List (String × Allowed)
roles_of [] c = []
roles_of ((d, roles) ∷ rest) c = if call_eq d c then roles else roles_of rest c

abbrev permits : Option Allowed → Option String → Bool
permits none s = false
permits (some any_state) s = true
permits (some (in_states ss)) none = false
permits (some (in_states ss)) (some s) = includes ss s

unfoldable pub may_call : Lifecycle → Call → String → Option String → Bool
may_call lc c role state = permits (lookup (roles_of lc.permissions c) role) state

unfoldable pub check_permission : Lifecycle → Call → String → Option String → Result (Unit {0})
unfolding may_call
check_permission lc c role state =
    if may_call lc c role state then ok tt else err (not_permitted (call_name c) role state)
