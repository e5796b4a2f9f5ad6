-- ===== src/TaskGraph/Lifecycle/Rules.antt =====
-- src/taskgraph/lifecycle.ts, lifecycleViolations and defineLifecycle: the rules that every lifecycle
-- must meet. A violation keeps its rule and the name that its message is about.
pub mod Facts
pub mod Registered
pub mod Landing
use shreni.Common.{
  ℕ, suc, String, Option, none, some, List, [], ◌∷◌, ◌++◌, Bool, true, false, not, ◌&&◌, ◌||◌, ◌==◌,
  map, length, any, includes, is_some, is_empty, if◌then◌else◌, ltb,
}
use shreni.TaskGraph.Types.{StateFlags}
use shreni.TaskGraph.Errors.{LifecycleViolation, Result, ok, err, lifecycle_invalid}
use shreni.TaskGraph.Lifecycle.{
  Guard, Move, Allowed, any_state, in_states, Hooks, Lifecycle, system_role, lookup, has_own,
  has_flag, flagged, Call,
}

abbrev pub Violations : Type 0
Violations = List LifecycleViolation

abbrev pub fail_if : Bool → String → String → Violations
fail_if true rule subject = record { rule = rule; subject = subject } ∷ []
fail_if false rule subject = []

abbrev pub each {ℓ} : {A : Type ℓ} → (A → Violations) → List A → Violations
each f [] = []
each f (x ∷ xs) = f x ++ each f xs

abbrev pub concat : List Violations → Violations
concat [] = []
concat (v ∷ vs) = v ++ concat vs

-- The zod schema: what it asks of a value that has the declared type.
abbrev pub bad_name : String → Bool
bad_name s = s == ""

pub shape_of_move : Move → Bool
shape_of_move m =
    bad_name m.name
    || is_empty m.from
    || any bad_name m.from
    || bad_name m.to
    || is_empty m.by
    || any bad_name m.by

abbrev pub bad_allowed : Allowed → Bool
bad_allowed any_state = false
bad_allowed (in_states ss) = any bad_name ss

abbrev pub bad_repeat : Option (ℕ × String) → Bool
bad_repeat none = false
bad_repeat (some (after, m)) = not (ltb 0 after) || bad_name m

pub shape_of_hooks : Hooks → Bool
shape_of_hooks h =
    bad_name h.on_approve
    || bad_name h.on_claim
    || bad_name h.on_discard
    || bad_name h.on_lease_expiry
    || bad_repeat h.on_repeated_expiry

abbrev pub shape_violations_parts : Lifecycle → List Violations
shape_violations_parts d =
    fail_if (bad_name d.name) "shape" "name"
    ∷ fail_if (not (ltb 0 d.version)) "shape" "version"
    ∷ fail_if (any (λ e. bad_name e.0) d.states) "shape" "states"
    ∷ fail_if (bad_name d.create_state || any (λ e. bad_name e.0 || bad_name e.1) d.create_by_role)
        "shape" "create"
    ∷ fail_if (any shape_of_move d.moves) "shape" "moves"
    ∷ fail_if (any (λ p. any (λ r. bad_name r.0 || bad_allowed r.1) p.1) d.permissions) "shape"
        "permissions"
    ∷ fail_if (shape_of_hooks d.hooks) "shape" "hooks"
    ∷ fail_if (any (λ e. bad_name e.0 || bad_name e.1) d.migrate) "shape" "migrate"
    ∷ []

pub shape_violations : Lifecycle → Violations
unfolding shape_of_move shape_of_hooks
shape_violations d = concat (shape_violations_parts d)

pub claimable_states : Lifecycle → List String
claimable_states d = flagged (λ f. f.claimable) d.states

pub leased_states : Lifecycle → List String
leased_states d = flagged (λ f. f.leased) d.states

-- The state when it is unique: checks that need it run only then.
abbrev pub sole : List String → Option String
sole [] = none
sole (s ∷ []) = some s
sole (s ∷ t ∷ rest) = none

abbrev pub is_one : List String → Bool
is_one ss = is_some (sole ss)

abbrev pub flag_violations_parts : String × StateFlags → List Violations
flag_violations_parts (s, f) =
    fail_if (f.claimable && f.leased) "flags-consistent" s
    ∷ fail_if (f.terminal && (f.claimable || f.leased)) "flags-consistent" s
    ∷ []

abbrev pub flag_violations : String × StateFlags → Violations
flag_violations (s, f) = concat (flag_violations_parts (s, f))

abbrev pub state_violations_parts : Lifecycle → List Violations
state_violations_parts d =
    fail_if (not (is_one (claimable_states d))) "one-claimable-state" ""
    ∷ fail_if (not (is_one (leased_states d))) "one-leased-state" ""
    ∷ fail_if (is_empty (flagged (λ f. f.satisfies_deps) d.states)) "deps-satisfiable" ""
    ∷ each flag_violations d.states
    ∷ []

pub state_violations : Lifecycle → Violations
unfolding claimable_states leased_states
state_violations d = concat (state_violations_parts d)

abbrev pub unknown : Lifecycle → String → Violations
unknown d s = fail_if (not (has_own d.states s)) "known-states" s

abbrev pub unknown_allowed : Lifecycle → String × Allowed → Violations
unknown_allowed d (role, any_state) = []
unknown_allowed d (role, in_states ss) = each (unknown d) ss

abbrev pub migrate_violations_parts : Lifecycle → String × String → List Violations
migrate_violations_parts d (from, to) =
    unknown d to
    ∷ fail_if (has_own d.states from) "migrate-map" from
    ∷ fail_if (has_flag (λ f. f.leased) d.states to) "migrate-map" from
    ∷ []

abbrev pub migrate_violations : Lifecycle → String × String → Violations
migrate_violations d (from, to) = concat (migrate_violations_parts d (from, to))

abbrev pub move_states_parts : Lifecycle → Move → List Violations
move_states_parts d m = each (unknown d) m.from ∷ unknown d m.to ∷ []

abbrev pub move_states : Lifecycle → Move → Violations
move_states d m = concat (move_states_parts d m)

abbrev pub reference_violations_parts : Lifecycle → List Violations
reference_violations_parts d =
    unknown d d.create_state
    ∷ each (λ e. unknown d e.1) d.create_by_role
    ∷ each (move_states d) d.moves
    ∷ each (λ p. each (unknown_allowed d) p.1) d.permissions
    ∷ each (migrate_violations d) d.migrate
    ∷ []

pub reference_violations : Lifecycle → Violations
reference_violations d = concat (reference_violations_parts d)

abbrev pub unnamed_guard : Option Guard → Bool
unnamed_guard none = false
unnamed_guard (some g) = g.guard_name == ""

abbrev pub final_check : Lifecycle → Move → String → Violations
final_check d m s = fail_if (has_flag (λ f. f.terminal) d.states s) "terminal-final" m.name

-- The loop over the moves, with the names seen so far.
pub move_violations : Lifecycle → List String → List Move → Violations
move_violations d seen [] = []
move_violations d seen (m ∷ ms) = concat (
    fail_if (includes seen m.name) "unique-move-names" m.name
    ∷ each (final_check d m) m.from
    ∷ fail_if (unnamed_guard m.guard) "guards-named" m.name
    ∷ move_violations d (m.name ∷ seen) ms
    ∷ [])

-- `moves.get(name)` of the map that the loop fills: the last move of that name.
abbrev pub last_named : List Move → String → Option Move
last_named [] n = none
last_named (m ∷ ms) n = elim (last_named ms n) [
  | some x ↦ some x
  | none ↦ if m.name == n then some m else none
]

abbrev pub with_move : Lifecycle → String → (Move → Violations) → Violations
with_move d n check = elim (last_named d.moves n) [
  | none ↦ record { rule = "hook-moves-exist"; subject = n } ∷ []
  | some m ↦ check m
]

abbrev pub with_state : Option String → (String → Violations) → Violations
with_state none check = []
with_state (some s) check = check s

abbrev pub approve_check_parts : Lifecycle → Move → List Violations
approve_check_parts d m =
    with_state (sole (claimable_states d)) (λ c. fail_if (not (m.to == c)) "approve-hook" m.name)
    ∷ fail_if (not (includes m.from d.create_state)) "create-rules" d.create_state
    ∷ []

abbrev pub approve_check : Lifecycle → Move → Violations
approve_check d m = concat (approve_check_parts d m)

abbrev pub by_role_check : Lifecycle → String → String × String → Violations
by_role_check d c (role, s) =
    fail_if (not (s == d.create_state) && not (s == c)) "create-rules" role

abbrev pub create_violations_parts : Lifecycle → List Violations
create_violations_parts d =
    with_state (sole (claimable_states d)) (λ c. each (by_role_check d c) d.create_by_role)
    ∷ with_state (sole (leased_states d))
        (λ l. fail_if (d.create_state == l) "create-rules" d.create_state)
    ∷ []

pub create_violations : Lifecycle → Violations
create_violations d = concat (create_violations_parts d)

abbrev pub claim_check_parts : Lifecycle → Move → List Violations
claim_check_parts d m =
    with_state (sole (claimable_states d)) (λ c.
      with_state (sole (leased_states d))
        (λ l. fail_if (not (includes m.from c) || not (m.to == l)) "claim-hook" m.name))
    ∷ fail_if (is_some m.guard) "claim-hook" m.name
    ∷ []

abbrev pub claim_check : Lifecycle → Move → Violations
claim_check d m = concat (claim_check_parts d m)

abbrev pub by_claim : Lifecycle → String → Move → Violations
by_claim d l m = fail_if (m.to == l && not (m.name == d.hooks.on_claim)) "leased-by-claim" m.name

pub leased_by_claim : Lifecycle → Violations
leased_by_claim d = with_state (sole (leased_states d)) (λ l. each (by_claim d l) d.moves)

abbrev pub discard_check_parts : Lifecycle → Move → List Violations
discard_check_parts d m =
    fail_if (not (has_flag (λ f. f.terminal) d.states m.to)) "discard-hook" m.name
    ∷ fail_if (not (includes m.from d.create_state)) "discard-hook" m.name
    ∷ []

abbrev pub discard_check : Lifecycle → Move → Violations
discard_check d m = concat (discard_check_parts d m)

abbrev pub expiry_check_parts : Lifecycle → Move → List Violations
expiry_check_parts d m =
    with_state (sole (leased_states d))
      (λ l. fail_if (not (includes m.from l)) "expiry-hooks" m.name)
    ∷ fail_if (not (includes m.by system_role)) "expiry-hooks" m.name
    ∷ fail_if (is_some m.guard) "expiry-hooks" m.name
    ∷ fail_if (has_flag (λ f. f.terminal) d.states m.to) "expiry-hooks" m.name
    ∷ []

abbrev pub expiry_check : Lifecycle → Move → Violations
expiry_check d m = concat (expiry_check_parts d m)

abbrev pub repeat_hook : Lifecycle → Option (ℕ × String) → Violations
repeat_hook d none = []
repeat_hook d (some (after, n)) = with_move d n (expiry_check d)

abbrev pub hook_violations_parts : Lifecycle → List Violations
hook_violations_parts d =
    with_move d d.hooks.on_approve (approve_check d)
    ∷ create_violations d
    ∷ with_move d d.hooks.on_claim (claim_check d)
    ∷ leased_by_claim d
    ∷ with_move d d.hooks.on_discard (discard_check d)
    ∷ with_move d d.hooks.on_lease_expiry (expiry_check d)
    ∷ repeat_hook d d.hooks.on_repeated_expiry
    ∷ []

pub hook_violations : Lifecycle → Violations
unfolding create_violations leased_by_claim
hook_violations d = concat (hook_violations_parts d)

abbrev pub rule_violations_parts : Lifecycle → List Violations
rule_violations_parts d =
    state_violations d
    ∷ reference_violations d
    ∷ move_violations d [] d.moves
    ∷ hook_violations d
    ∷ []

pub rule_violations : Lifecycle → Violations
unfolding state_violations reference_violations move_violations hook_violations
rule_violations d = concat (rule_violations_parts d)

-- A definition of the wrong shape is reported for its shape alone.
unfoldable pub lifecycle_violations : Lifecycle → Violations
unfolding shape_violations rule_violations
lifecycle_violations d =
    if is_empty (shape_violations d) then rule_violations d else shape_violations d

unfoldable pub define_lifecycle : Lifecycle → Result Lifecycle
unfolding lifecycle_violations
define_lifecycle d =
    if is_empty (lifecycle_violations d)
    then ok d
    else err (lifecycle_invalid (lifecycle_violations d))
