-- ===== src/Policy/Guards.antt =====
-- src/policy/lifecycle/guards.ts: the four guards of Shreni's moves. Each reads the store alone, and
-- returns none or why it refuses.
use shreni.Common.{
  String, Option, none, some, Bool, true, false, not, ◌&&◌, ◌==◌, eqb, ltb, is_some_of, any, filter,
  find, head_of, order_by, if◌then◌else◌, text_lt,
}
use shreni.TaskGraph.Types.{Actor, Task, Attempt, StateFlags, is_container}
use shreni.TaskGraph.Store.{Store, Evidence}
use shreni.TaskGraph.Lifecycle.{Guard, has_flag}
use shreni.TaskGraph.Containers.{is_child}

abbrev pub evidence_of : Store → String → Option Evidence
evidence_of s a = find (λ e. e.attempt_id == a) s.evidence

-- `rows[0]?.flag`: an attempt with no evidence has none.
abbrev gate {ℓ} : {A : Type ℓ} → Option A → (A → Bool) → Bool
gate none flag = false
gate (some e) flag = flag e

abbrev pub pr_of : Evidence → Option String
pr_of e = e.pr_url

-- An empty url is no PR.
abbrev is_pr : Option String → Bool
is_pr none = false
is_pr (some url) = not (url == "")

-- submit: the attempt's evidence records a PR.
abbrev open_pr : Option String → Store → Option String
open_pr none s = some "the task holds no attempt to submit"
open_pr (some a) s =
    if gate (evidence_of s a) (λ e. is_pr (pr_of e))
    then none
    else some "the attempt has no open PR recorded"

unfoldable pub has_open_pr_fn : Task → Actor → Store → Option String
has_open_pr_fn t actor s = open_pr t.lease_attempt_id s

-- The current attempt: the lease's when claimed, else the newest: `(id = lease) desc, started_at desc,
-- id desc`. A uuid's order is that of its text.
abbrev later : Attempt → Attempt → Bool
later a b =
    if eqb a.started_at b.started_at then not (text_lt a.id b.id) else ltb b.started_at a.started_at

abbrev newer : Option String → Attempt → Attempt → Bool
newer lease a b =
    if is_some_of lease a.id then true else if is_some_of lease b.id then false else later a b

unfoldable pub current_attempt : Store → Task → Option Attempt
current_attempt s t =
    head_of (order_by (newer t.lease_attempt_id) (filter (λ a. a.task_id == t.id) s.attempts))

abbrev pub current_gate : Store → Option Attempt → (Evidence → Bool) → Bool
current_gate s none flag = false
current_gate s (some a) flag = gate (evidence_of s a.id) flag

abbrev pub has_checks : Store → Task → Bool
has_checks s t = any (λ k. k.task_id == t.id) s.acceptance_checks

abbrev pub has_manual_check : Store → Task → Bool
has_manual_check s t = any (λ k. (k.task_id == t.id) && k.is_manual) s.acceptance_checks

unfoldable pub acceptance_passed : Store → Task → Bool
acceptance_passed s t = current_gate s (current_attempt s t) (λ e. e.acceptance_passed)

unfoldable pub work_landed : Store → Task → Bool
work_landed s t = current_gate s (current_attempt s t) (λ e. e.landed)

-- finish: the task's acceptance checks passed on its current attempt; a task with none finishes.
unfoldable pub checks_passed_fn : Task → Actor → Store → Option String
checks_passed_fn t actor s =
    if not (has_checks s t)
    then none
    else if acceptance_passed s t
    then none
    else some "the task's acceptance checks haven't passed"

-- confirm: a manual check held the task, its work landed, and its acceptance passed.
unfoldable pub checks_confirmed_fn : Task → Actor → Store → Option String
checks_confirmed_fn t actor s =
    if not (has_manual_check s t)
    then some "the task has no manual check to confirm"
    else if not (work_landed s t)
    then some "the task's work never landed on main"
    else if acceptance_passed s t
    then none
    else some "the task's acceptance checks haven't passed"

-- completeContainer: all children are terminal, and at least one is done, under the project's active
-- lifecycle as it is stored.
abbrev pub child_with : (StateFlags → Bool) → Bool → Store → Task → Bool
child_with flag wanted s t =
    any
      (λ k.
        is_child t.id k
        && (if wanted
            then has_flag flag s.active_states k.state
            else not (has_flag flag s.active_states k.state)))
      s.tasks

unfoldable pub children_settled_fn : Task → Actor → Store → Option String
children_settled_fn t actor s =
    if not (is_container t.kind)
    then some "only a container is completed; finish a work task"
    else if child_with (λ f. f.terminal) false s t
    then some "the container has children that aren't finished"
    else if not (child_with (λ f. f.satisfies_deps) true s t)
    then some "no child is done: cancel the container, or file work under it"
    else none

abbrev pub has_open_pr : Guard
has_open_pr = record { guard_name = "hasOpenPr"; refuses = has_open_pr_fn }

abbrev pub checks_passed : Guard
checks_passed = record { guard_name = "checksPassed"; refuses = checks_passed_fn }

abbrev pub children_settled : Guard
children_settled = record { guard_name = "childrenSettled"; refuses = children_settled_fn }

abbrev pub checks_confirmed : Guard
checks_confirmed = record { guard_name = "checksConfirmed"; refuses = checks_confirmed_fn }
