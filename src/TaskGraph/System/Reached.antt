-- ===== src/TaskGraph/System/Reached.antt =====
-- src/taskgraph: the invariant over all operations.
use shreni.Common.{ℕ, String, Option, ◌≡◌, inl, inr, subst, arith, Option-cases}
use shreni.TaskGraph.Types.{Plan}
use shreni.TaskGraph.Errors.{Result-cases, ok}
use shreni.TaskGraph.Store.{Store, find_task}
use shreni.TaskGraph.Lifecycle.{Lifecycle}
use shreni.TaskGraph.Client.{Client, ActorHandle}
use shreni.TaskGraph.Invariant.{IsRegistered, Inv}
use shreni.TaskGraph.Moves.Keeps.{move-Inv}
use shreni.TaskGraph.Sweep.{sweep, expire_leases}
use shreni.TaskGraph.Sweep.Keeps.{ReturnsLeases, sweep-Inv}
use shreni.TaskGraph.Claims.Keeps.{claim-Inv, heartbeat-Inv}
use shreni.TaskGraph.Deps.{add_dep, remove_dep, add_link, add_note}
use shreni.TaskGraph.Tasks.Keeps.{create-Inv}
use shreni.TaskGraph.Tasks.Deletes.{delete-Inv}
use shreni.TaskGraph.Tasks.Edit.Keeps.{update-Inv}
use shreni.TaskGraph.Plans.{create_plan, draw_plan}
use shreni.TaskGraph.Plans.Approves.{approve-Inv}
use shreni.TaskGraph.Plans.Discard.Keeps.{discard-Inv}
use shreni.TaskGraph.Plans.Lone.{approve_task-Inv}
use shreni.TaskGraph.System.{
  handle, Step, creates, updates, deletes, moves, claims, beats, expires, adds_dep, removes_dep,
  adds_link, adds_note, plans, approves, discards, approves_task, waits, Steps, done, next,
}

-- The invariant speaks of the tasks alone.
same_tasks-Inv : (lc : Lifecycle) (s s' : Store) → s'.tasks ≡ s.tasks → Inv lc s → Inv lc s'
same_tasks-Inv lc s s' e v = record {
  keys = rw e v.keys;
  rows = rw e v.rows;
  nested = rw e v.nested;
}

add_dep-tasks :
    (me : ActorHandle) (i on : String) (request : Option String) (s s' : Store)
    → add_dep me i on request s ≡ ok s'
    → s'.tasks ≡ s.tasks
unfolding add_dep
add_dep-tasks me i on request s s' h = elim (Option-cases (find_task s.tasks i)) [
  | inl e ↦ absurd (ground (arith, e))
  | inr (t, e) ↦ elim (Option-cases (find_task s.tasks on)) [
    | inl f ↦ absurd (ground (arith, e, f))
    | inr (u, f) ↦ ground (arith, e, f)
  ]
]

remove_dep-tasks :
    (me : ActorHandle) (i on : String) (request : Option String) (s s' : Store)
    → remove_dep me i on request s ≡ ok s'
    → s'.tasks ≡ s.tasks
unfolding remove_dep
remove_dep-tasks me i on request s s' h = elim (Option-cases (find_task s.tasks i)) [
  | inl e ↦ absurd (ground (arith, e))
  | inr (t, e) ↦ ground (arith, e)
]

add_link-tasks :
    (me : ActorHandle) (a b kind : String) (request : Option String) (s s' : Store)
    → add_link me a b kind request s ≡ ok s'
    → s'.tasks ≡ s.tasks
unfolding add_link
add_link-tasks me a b kind request s s' h = elim (Option-cases (find_task s.tasks a)) [
  | inl e ↦ absurd (ground (arith, e))
  | inr (t, e) ↦ elim (Option-cases (find_task s.tasks b)) [
    | inl f ↦ absurd (ground (arith, e, f))
    | inr (u, f) ↦ ground (arith, e, f)
  ]
]

add_note-tasks :
    (me : ActorHandle) (i words : String) (request : Option String) (s s' : Store)
    → add_note me i words request s ≡ ok s'
    → s'.tasks ≡ s.tasks
unfolding add_note
add_note-tasks me i words request s s' h = elim (Option-cases (find_task s.tasks i)) [
  | inl e ↦ absurd (ground (arith, e))
  | inr (t, e) ↦ ground (arith, e)
]

create_plan-tasks :
    (me : ActorHandle) (title meta : String) (drawn : ℕ → String) (request : Option String)
    (s s' : Store) (p : Plan)
    → create_plan me title meta drawn request s ≡ ok (s', p)
    → s'.tasks ≡ s.tasks
unfolding create_plan
create_plan-tasks me title meta drawn request s s' p h =
    elim (Result-cases (draw_plan s drawn 20 0)) [
      | inl (e, f) ↦ absurd (ground (arith, f, h))
      | inr (i, f) ↦ ground (arith, f, h)
    ]

module _ (c : Client) (r : IsRegistered c.lifecycle) (apart : ReturnsLeases c.lifecycle) where
  pub Step-Inv : (s s' : Store) → Inv c.lifecycle s → Step c s s' → Inv c.lifecycle s'
  unfolding expire_leases
  Step-Inv s s' v (creates who js_length t drawn request a h) =
      create-Inv (handle c who) js_length t drawn request s s' a r v h
  Step-Inv s s' v (updates who js_length i p request a h) =
      update-Inv (handle c who) js_length i p request s s' a v h
  Step-Inv s s' v (deletes who i request h) = delete-Inv (handle c who) i request s s' v h
  Step-Inv s s' v (moves who i name opts fence t h) =
      move-Inv (handle c who) i name opts fence s s' t r v h
  Step-Inv s s' v (claims who opts attempt o h) =
      claim-Inv (handle c who) opts attempt s s' o r apart v h
  Step-Inv s s' v (beats who b b' ms h) = heartbeat-Inv (handle c who) b b' ms s s' r v h
  Step-Inv s s' v (expires n h) =
      subst (Inv c.lifecycle) {x = (sweep c s).0} (ground (arith, h)) (sweep-Inv c s r apart v)
  Step-Inv s s' v (adds_dep who i on request h) =
      same_tasks-Inv c.lifecycle s s' (add_dep-tasks (handle c who) i on request s s' h) v
  Step-Inv s s' v (removes_dep who i on request h) =
      same_tasks-Inv c.lifecycle s s' (remove_dep-tasks (handle c who) i on request s s' h) v
  Step-Inv s s' v (adds_link who a b kind request h) =
      same_tasks-Inv c.lifecycle s s' (add_link-tasks (handle c who) a b kind request s s' h) v
  Step-Inv s s' v (adds_note who i words request h) =
      same_tasks-Inv c.lifecycle s s' (add_note-tasks (handle c who) i words request s s' h) v
  Step-Inv s s' v (plans who title meta drawn request p h) =
      same_tasks-Inv c.lifecycle s s'
        (create_plan-tasks (handle c who) title meta drawn request s s' p h) v
  Step-Inv s s' v (approves who i via request fs h) =
      approve-Inv (handle c who) i via request s s' fs r v h
  Step-Inv s s' v (discards who by_locale i via request h) =
      discard-Inv (handle c who) by_locale i via request s s' r v h
  Step-Inv s s' v (approves_task who i via request t found free h) =
      approve_task-Inv (handle c who) i via request t s s' r found free v h
  Step-Inv s s' v (waits now later e) = same_tasks-Inv c.lifecycle s s' (ground (arith, e)) v

-- Under a lifecycle that registers and whose expiry moves are not its claim move, rows that satisfy
-- the invariant still do after any sequence of operations of the engine by any actors, with time
-- passing between them: creating, updating, deleting, moving, claiming, renewing, expiring, adding and
-- removing dependencies, links and notes, and starting, approving and discarding plans, and approving
-- lone tasks that are not leased.
pub Steps-Inv :
    (c : Client) (s s' : Store)
    → IsRegistered c.lifecycle
    → ReturnsLeases c.lifecycle
    → Inv c.lifecycle s
    → Steps c s s'
    → Inv c.lifecycle s'
Steps-Inv c s s' r apart v done = v
Steps-Inv c s s' r apart v (next {t} step rest) =
    Steps-Inv c t s' r apart (Step-Inv c r apart s t v step) rest
