-- ===== src/TaskGraph/Plans/Discard.antt =====
-- src/taskgraph/plans.ts, discard: every proposed task of a plan is cancelled, in an order that leaves
-- no container over a live child.
pub mod Order
pub mod Cancels
pub mod Keeps
use shreni.Common.{
  ℕ, zero, suc, String, Option, none, some, List, [], ◌∷◌, ◌++◌, Bool, true, false, not, ◌&&◌, ◌||◌,
  ◌==◌, any, all, find, filter, map, includes, is_some, is_some_of, is_none, is_empty, length,
  order_by, if◌then◌else◌,
}
use shreni.TaskGraph.Types.{
  Task, Plan, Dep, Event, plan_discarded, children_settled, Value, text, texts,
}
use shreni.TaskGraph.Errors.{
  Error, invalid_request, internal, move_refused, Result, ok, err, ◌>>=◌, ◌>>◌, require, or_throw,
}
use shreni.TaskGraph.Store.{Store, find_task}
use shreni.TaskGraph.Lifecycle.{Move, Lifecycle, is_terminal}
use shreni.TaskGraph.Client.{Client, ActorHandle, assert_version, load_task}
use shreni.TaskGraph.Containers.{container_settled, is_child}
use shreni.TaskGraph.Moves.{plain_event}
use shreni.TaskGraph.Validators.Cycle.{text_le, distinct}
use shreni.TaskGraph.Plans.{
  snapshot_of, move_in_tx, named_via, hook_move, may_move, open_plan, via_payload, close_plan,
  plan_event,
}

abbrev pub is_going : List Task → String → Bool
is_going going i = any (λ t. t.id == i) going

-- The children of a task, and the tasks that wait on it, of those going.
abbrev pub child_ids : List Task → String → List String
child_ids going i = map (λ t. t.id) (filter (is_child i) going)

abbrev pub waiter_ids : List Task → List Dep → String → List String
waiter_ids going deps i =
    map (λ d. d.task_id) (filter (λ d. is_going going d.task_id && (d.depends_on_id == i)) deps)

-- `before.get(id)`, sorted.
unfoldable pub before : List Task → List Dep → String → List String
before going deps i = order_by text_le (child_ids going i ++ waiter_ids going deps i)

-- The search of cancelOrder; `out` is kept newest first.
pub record Ordering : Type 0 where
  pub seen : List String
  pub out : List Task

unfoldable pub each_before :
    (String → Ordering → Option Ordering) → List String → Ordering → Option Ordering
each_before go [] o = some o
each_before go (b ∷ bs) o = elim (go b o) [ none ↦ none | some o' ↦ each_before go bs o' ]

abbrev pub put_out : Option Task → Ordering → Ordering
put_out none o = o
put_out (some t) o = record o { out = t ∷ o.out }

abbrev pub then_put : Option Task → Option Ordering → Option Ordering
then_put t none = none
then_put t (some o) = some (put_out t o)

-- `visit`; none when the fuel runs out, which it does not (Order).
unfoldable pub visit : List Task → List Dep → ℕ → String → Ordering → Option Ordering
visit going deps zero i o = none
visit going deps (suc fuel) i o =
    let rest = then_put (find_task going i) (
      each_before (visit going deps fuel) (before going deps i) (record o { seen = i ∷ o.seen })) in
    if includes o.seen i then some o else rest

abbrev pub reversed : List Task → List Task → List Task
reversed [] ts = ts
reversed (t ∷ out) ts = reversed out (t ∷ ts)

abbrev pub order_result : Option Ordering → Result (List Task)
order_result none = err (internal "out of fuel")
order_result (some o) = ok (reversed o.out [])

-- cancelOrder. `by_locale` is the order of localeCompare.
unfoldable pub cancel_order : (String → String → Bool) → List Task → List Dep → Result (List Task)
unfolding visit each_before before
cancel_order by_locale going deps = order_result (
    each_before (visit going deps (suc (length going)))
      (map (λ t. t.id) (order_by (λ a b. by_locale a.id b.id) going))
      (record { seen = []; out = [] }))

-- A live row outside that waits on a task that goes, or sits under it.
pub record Waiting : Type 0 where
  pub id : String
  pub on : String
  pub is_under : Bool

abbrev pub state_lives : Lifecycle → Store → String → Bool
state_lives lc s i = any (λ t. (t.id == i) && not (is_terminal lc t.state)) s.tasks

abbrev pub waiting_deps : Lifecycle → Store → List Task → List Dep → List Waiting
waiting_deps lc s going [] = []
waiting_deps lc s going (d ∷ deps) =
    let rest = waiting_deps lc s going deps in
    if is_going going d.depends_on_id
      && not (is_going going d.task_id)
      && state_lives lc s d.task_id
    then record { id = d.task_id; on = d.depends_on_id; is_under = false } ∷ rest
    else rest

abbrev pub under_going : Option String → List Task → Option String
under_going none going = none
under_going (some p) going = if is_going going p then some p else none

abbrev pub waiting_child :
    Lifecycle → List Task → Task → Option String → List Waiting → List Waiting
waiting_child lc going t none rest = rest
waiting_child lc going t (some p) rest =
    if not (is_going going t.id) && not (is_terminal lc t.state)
    then record { id = t.id; on = p; is_under = true } ∷ rest
    else rest

abbrev pub waiting_children : Lifecycle → List Task → List Task → List Waiting
waiting_children lc going [] = []
waiting_children lc going (t ∷ ts) =
    waiting_child lc going t (under_going t.parent_id going) (waiting_children lc going ts)

-- The rows that stop a discard: those that would be left behind.
unfoldable pub left_behind : Lifecycle → Store → List Task → List Waiting
left_behind lc s going = waiting_deps lc s going s.deps ++ waiting_children lc going s.tasks

abbrev pub same_side : Waiting → Waiting → Bool
same_side w x = (x.on == w.on) && (if w.is_under then x.is_under else not x.is_under)

abbrev pub state_of : List Task → String → String
state_of [] i = ""
state_of (t ∷ ts) i = if t.id == i then t.state else state_of ts i

abbrev pub refuse_left : List Task → List Waiting → Result (Unit {0})
refuse_left going [] = ok tt
refuse_left going (w ∷ ws) =
    let blockers = order_by text_le (map (λ x. x.id) (filter (same_side w) (w ∷ ws))) in
    if w.is_under
    then err (move_refused w.on (state_of going w.on) "ChildrenLive" [] blockers)
    else err (move_refused w.on (state_of going w.on) "DependentsLive" blockers [])

unfoldable pub cancel_all :
    ActorHandle → Move → List (String × Value) → List Task → Store → Result Store
unfolding move_in_tx
cancel_all me m payload [] s = ok s
cancel_all me m payload (t ∷ ts) s = do
  task ← load_task s t.id
  s' ← move_in_tx me task m payload none s
  cancel_all me m payload ts s'

-- The containers outside that a cancelled task sat under.
abbrev pub outer_parent : List Task → Option String → List String
outer_parent going none = []
outer_parent going (some p) = if is_going going p then [] else p ∷ []

abbrev pub outer_parents : List Task → List Task → List String
outer_parents going [] = []
outer_parents going (t ∷ ts) = outer_parent going t.parent_id ++ outer_parents going ts

abbrev pub settled_parents : ActorHandle → Move → Store → List String → List Event
settled_parents me m s [] = []
settled_parents me m s (p ∷ ps) =
    let rest = settled_parents me m s ps in
    if is_terminal me.client.lifecycle m.to && container_settled s p me.client.lifecycle
    then plain_event me.actor s p children_settled [] ∷ rest
    else rest

abbrev pub discarded : ActorHandle → ℕ → Plan → Plan
discarded me now p = record p { discarded_at = some now; discarded_by = some me.actor.id }

abbrev pub discard_event : ActorHandle → String → String → List Task → Option String → Store → Event
discard_event me i via going request s =
    plan_event me s i plan_discarded
      (("via", text via) ∷ ("cancelled", texts (map (λ t. t.id) going)) ∷ []) request

abbrev pub announce : Store → List Event → Store
announce s es = record s { events = s.events ++ es }

abbrev pub settle : ActorHandle → Move → List Task → Store → Store
settle me m going s =
    announce s (settled_parents me m s (order_by text_le (distinct (outer_parents going going))))

-- The writes of a discard that leaves nothing behind.
unfoldable pub cancel_tasks :
    ActorHandle
    → (String → String → Bool)
    → Move
    → String
    → String
    → Option String
    → List Task
    → List Dep
    → Store
    → Result Store
unfolding cancel_order cancel_all
cancel_tasks me by_locale m i via request going deps s = do
  ts ← cancel_order by_locale going deps
  s' ← cancel_all me m (via_payload via i) ts s
  ok (
      close_plan (settle me m going s') i (discarded me s.now)
        (discard_event me i via going request s))

abbrev pub going_of : Lifecycle → Move → List Task → List Task
going_of lc m ts = filter (λ t. (t.state == lc.create_state) && includes m.from t.state) ts

-- plans.discard.
unfoldable pub discard :
    ActorHandle → (String → String → Bool) → String → String → Option String → Store → Result Store
unfolding snapshot_of left_behind cancel_tasks
discard me by_locale i via request s = do
  let lc = me.client.lifecycle
  named_via via
  m ← hook_move lc lc.hooks.on_discard
  may_move me "plans.discard" m
  assert_version me s
  p ← open_plan s i
  let going = going_of lc m (snapshot_of me.client s p).tasks
  refuse_left going (left_behind lc s going)
  cancel_tasks me by_locale m i via request going (snapshot_of me.client s p).deps s
