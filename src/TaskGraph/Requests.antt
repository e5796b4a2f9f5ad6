-- ===== src/TaskGraph/Requests.antt =====
-- src/taskgraph/requests.ts: a write runs once for each request id; a repeat is answered from the event
-- that the first one wrote.
pub mod Writes
pub mod Events
pub mod Repeats
use shreni.Common.{
  String, Option, none, some, Bool, true, false, ◌&&◌, ◌==◌, is_some_of, find, ◌≡◌, ◌↔◌, arith,
  if◌then◌else◌, ==_iff,
}
use shreni.TaskGraph.Types.{
  Event, EventKind, task_created, task_updated, task_deleted, dep_added, dep_removed, link_added,
  note, plan_created, plan_approved, plan_discarded, children_settled, moved,
}
use shreni.TaskGraph.Errors.{Error, invalid_request, Result, ok, err, ◌>>=◌, ◌>>◌, require}
use shreni.TaskGraph.Store.{Store}

abbrev pub same_kind : EventKind → EventKind → Bool
same_kind task_created task_created = true
same_kind task_updated task_updated = true
same_kind task_deleted task_deleted = true
same_kind dep_added dep_added = true
same_kind dep_removed dep_removed = true
same_kind link_added link_added = true
same_kind note note = true
same_kind plan_created plan_created = true
same_kind plan_approved plan_approved = true
same_kind plan_discarded plan_discarded = true
same_kind children_settled children_settled = true
same_kind (moved m) (moved n) = m == n
same_kind _ _ = false

-- The event that carries a request id.
unfoldable pub prior_write : Store → String → Option Event
prior_write s request = find (λ (e : Event). is_some_of e.request_id request) s.events

-- What a write expects of the event it replays: a task and a plan only where it names one.
pub record Expected : Type 0 where
  pub kind : EventKind
  pub actor : String
  pub task_id : Option String
  pub plan_id : Option String

abbrev pub names : Option String → Option String → Bool
names none id = true
names (some i) id = is_some_of id i

abbrev pub check_prior : Expected → Event → Result (Unit {0})
check_prior x e = do
  require (same_kind e.kind x.kind) (invalid_request "the id was used by another write")
  require (e.actor == x.actor) (invalid_request "the id was used by another actor")
  require (names x.plan_id e.plan_id) (invalid_request "the id was used on another plan")
  require (names x.task_id e.task_id) (invalid_request "the id was used on another task")

-- The first write's answer; `none` when there was no write.
unfoldable pub replayed {ℓ} :
    {A : Type ℓ} → Expected → (Event → Store → Result A) → Store → Option Event → Result (Option A)
replayed x replay s none = ok none
replayed x replay s (some e) = do check_prior x e; a ← replay e s; ok (some a)

-- A write that fails rolls back; it is answered from a write with its id that has committed by then,
-- and fails where there is none.
abbrev pub after_failure {ℓ} : {A : Type ℓ} → Error → Store → Result (Option A) → Result (Store × A)
after_failure thrown s (err e) = err e
after_failure thrown s (ok none) = err thrown
after_failure thrown s (ok (some a)) = ok (s, a)

abbrev pub or_replay {ℓ} :
    {A : Type ℓ} → Store → Result (Option A) → Result (Store × A) → Result (Store × A)
or_replay s second (ok r) = ok r
or_replay s second (err thrown) = after_failure thrown s second

abbrev pub unless_replayed {ℓ} :
    {A : Type ℓ} → (Store → Result (Store × A)) → Store → Result (Option A) → Result (Store × A)
unless_replayed act s (err e) = err e
unless_replayed act s (ok (some a)) = ok (s, a)
unless_replayed act s (ok none) = or_replay s (ok none) (act s)

-- once.
unfoldable pub once {ℓ} :
    {A : Type ℓ}
    → Option String
    → Expected
    → (Store → Result (Store × A))
    → (Event → Store → Result A)
    → Store
    → Result (Store × A)
unfolding replayed
once none x act replay s = act s
once (some request) x act replay s =
    if request == ""
    then err (invalid_request "a request id must not be empty")
    else unless_replayed act s (replayed x replay s (prior_write s request))
