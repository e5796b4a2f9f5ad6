-- ===== src/TaskGraph/Containers.antt =====
-- src/taskgraph/containers.ts: parents and children, dependents, and when a container is settled.
use shreni.Common.{
  eqb, ltb, if◌then◌else◌, String, Option, none, some, List, Bool, not, ◌&&◌, ◌==◌, is_some_of, map,
  any, filter, includes, order_by,
}
use shreni.TaskGraph.Types.{Task, Dep, is_container}
use shreni.TaskGraph.Errors.{invalid_request, Result, ok, ◌>>=◌, ◌>>◌, require}
use shreni.TaskGraph.Store.{Store}
use shreni.TaskGraph.Lifecycle.{Lifecycle, is_terminal, terminal_states, claimable_state}
use shreni.TaskGraph.Client.{Client, load_task}

-- lockWithParent: the parent's row, then the task's. The rows stay locked, so the second read of the
-- task is the first one and the loop ends at once.
abbrev load_parent : Store → Option String → Result (Unit {0})
load_parent s none = ok tt
load_parent s (some p) = do parent ← load_task s p; ok tt

unfoldable pub lock_with_parent : Store → String → Result Task
lock_with_parent s i = do seen ← load_task s i; load_parent s seen.parent_id; ok seen

-- A child may sit only under a parent that has not closed.
abbrev pub assert_parent_open : Lifecycle → Task → Result (Unit {0})
assert_parent_open lc parent =
    require (not (is_terminal lc parent.state)) (invalid_request "can't be put under a closed task")

-- `state <> all (terminal states)`.
abbrev pub is_live : Lifecycle → Task → Bool
is_live lc t = not (includes (terminal_states lc) t.state)

abbrev pub is_child : String → Task → Bool
is_child p t = is_some_of t.parent_id p

abbrev pub by_id : Client → Task → Task → Bool
by_id c a b = c.collates a.id b.id

unfoldable pub live_children : Client → Store → String → List String
live_children c s p =
    map (λ t. t.id)
      (order_by (by_id c) (filter (λ t. is_child p t && is_live c.lifecycle t) s.tasks))

-- The pair of ids is a key of task_deps, so the join has one row for each task that waits.
abbrev pub waits_on : List Dep → String → String → Bool
waits_on deps t on = any (λ d. (d.task_id == t) && (d.depends_on_id == on)) deps

unfoldable pub live_dependents : Client → Store → String → List String
live_dependents c s i =
    map (λ t. t.id)
      (order_by (by_id c) (filter (λ t. waits_on s.deps t.id i && is_live c.lifecycle t) s.tasks))

-- A container with children, all of them terminal.
unfoldable pub container_settled : Store → String → Lifecycle → Bool
container_settled s p lc =
    any (λ t. (t.id == p) && is_container t.kind) s.tasks
    && any (is_child p) s.tasks
    && not (any (λ t. is_child p t && is_live lc t) s.tasks)

-- Containers in the claimable state whose children have all settled, oldest first.
abbrev settled_row : Lifecycle → Store → Task → Bool
settled_row lc s t =
    is_container t.kind
    && (t.state == claimable_state lc)
    && any (is_child t.id) s.tasks
    && not (any (λ k. is_child t.id k && is_live lc k) s.tasks)

abbrev pub by_created : Client → Task → Task → Bool
by_created c a b =
    if eqb a.created_at b.created_at then c.collates a.id b.id else ltb a.created_at b.created_at

unfoldable pub settled_containers : Client → Store → List Task
settled_containers c s = order_by (by_created c) (filter (settled_row c.lifecycle s) s.tasks)
