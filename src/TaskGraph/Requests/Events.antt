-- ===== src/TaskGraph/Requests/Events.antt =====
-- src/taskgraph/requests.ts and client.ts: the event that a write records itself by.
use shreni.Common.{
  String, Option, none, some, List, [], ◌∷◌, ◌++◌, Bool, true, ==_iff, ==_refl, ◌≡◌, refl, ◌⊎◌, inl,
  inr, ◌↔◌, find, is_some_of, arith, Bool-cases, Option-cases, ◌∙◌, ap,
}
use shreni.TaskGraph.Types.{
  Event, EventKind, moved, task_deleted, dep_added, dep_removed, link_added, note, text,
}
use shreni.TaskGraph.Errors.{ok}
use shreni.TaskGraph.Store.{Store, find_task}
use shreni.TaskGraph.Client.{ActorHandle}
use shreni.TaskGraph.Containers.{waits_on}
use shreni.TaskGraph.Moves.{plain_event, settled_events}
use shreni.TaskGraph.Tasks.{removed, without, deleted_events, dependents}
use shreni.TaskGraph.Tasks.Deletes.{delete-Deleted}
use shreni.TaskGraph.Deps.{add_dep, remove_dep, has_link, add_link, add_note, edge_event}
use shreni.TaskGraph.Requests.{same_kind, prior_write}
use shreni.TaskGraph.Requests.Writes.{
  Write, deletes, adds_dep, removes_dep, adds_link, adds_note, kind_of, task_of, perform,
}

-- An event that records the write: its kind, its actor and its task.
pub record Records (me : ActorHandle) (w : Write) (e : Event) : Type 0 where
  pub kind : e.kind ≡ kind_of w
  pub actor : e.actor ≡ me.actor.id
  pub task : e.task_id ≡ some (task_of w)

abbrev name_of : EventKind → String
name_of (moved n) = n
name_of _ = ""

pub same_kind_iff : (a b : EventKind) → (same_kind a b ≡ true) ↔ (a ≡ b)
same_kind_iff a b = (
  (λ h. ground (arith, ==_iff (name_of a) (name_of b))),
  λ h. ground (arith, h, ==_iff (name_of a) (name_of b)),
)

find_skip :
    {A : Type 0} (p : A → Bool) (xs ys : List A) → find p xs ≡ none → find p (xs ++ ys) ≡ find p ys
find_skip p [] ys h = refl
find_skip p (x ∷ xs) ys h = ground (arith, find_skip p xs ys, Bool-cases (p x))

pub find_keep :
    {A : Type 0} (p : A → Bool) (xs ys : List A) (a : A)
    → find p xs ≡ some a
    → find p (xs ++ ys) ≡ some a
find_keep p [] ys a h = absurd (ground arith)
find_keep p (x ∷ xs) ys a h = ground (arith, find_keep p xs ys a, Bool-cases (p x))

abbrev pub carries : String → Event → Bool
carries r e = is_some_of e.request_id r

settled_silent :
    (me : ActorHandle) (s : Store) (o : Option String) (r : String)
    → find (carries r) (settled_events me s o) ≡ none
settled_silent me s none r = refl
settled_silent me s (some p) r = ground arith

deleted_silent :
    (me : ActorHandle) (s : Store) (i : String) (ws : List String) (r : String)
    → find (carries r) (deleted_events me s i ws) ≡ none
deleted_silent me s i [] r = refl
deleted_silent me s i (w ∷ ws) r = ground (arith, deleted_silent me s i ws r)

regroup : {A : Type 0} (xs ys zs ws : List A) → xs ++ ys ++ zs ++ ws ≡ xs ++ (ys ++ zs ++ ws)
regroup [] ys zs ws = refl
regroup (x ∷ xs) ys zs ws = ap (λ rest. x ∷ rest) (regroup xs ys zs ws)

-- The events that a write appends: those before the last carry no request id, the last one records it.
appended :
    (me : ActorHandle) (w : Write) (r : String) (s s' : Store) (es : List Event) (e : Event)
    → prior_write s r ≡ none
    → s'.events ≡ s.events ++ (es ++ e ∷ [])
    → find (carries r) es ≡ none
    → e.request_id ≡ some r
    → Records me w e
    → (x : Event) × (prior_write s' r ≡ some x) × Records me w x
unfolding prior_write
appended me w r s s' es e fresh same silent own records = (
  e,
  ap (find (carries r)) same
      ∙ find_skip (carries r) s.events (es ++ e ∷ []) fresh
      ∙ find_skip (carries r) es (e ∷ []) silent
      ∙ ground (arith, own, ==_refl r),
  records,
)

-- A write that has not run before either records itself, or finds nothing to write.
pub perform-Records :
    (me : ActorHandle) (w : Write) (r : String) (s s' : Store)
    → prior_write s r ≡ none
    → perform me w (some r) s ≡ ok s'
    → (s' ≡ s) ⊎ ((x : Event) × (prior_write s' r ≡ some x) × Records me w x)
unfolding add_dep remove_dep add_link add_note removed
perform-Records me (deletes i) r s s' fresh h =
    let d = delete-Deleted me i (some r) s s' h in
    inr (
      appended me (deletes i) r s s'
        (settled_events me (without i s) d.t.parent_id
          ++ deleted_events me s i (dependents me.client s i))
        (record (plain_event me.actor s i task_deleted (("title", text d.t.title) ∷ [])) {
          from_state = some d.t.state;
          request_id = some r;
        })
        fresh (ap (λ z. z.events) d.store ∙ regroup s.events _ _ _)
        (find_skip (carries r) (settled_events me (without i s) d.t.parent_id)
            (deleted_events me s i (dependents me.client s i))
            (settled_silent me (without i s) d.t.parent_id r)
          ∙ deleted_silent me s i (dependents me.client s i) r)
        refl (record { kind = refl; actor = refl; task = refl }))
perform-Records me (adds_dep i on) r s s' fresh h = elim (Option-cases (find_task s.tasks i)) [
  | inl e ↦ absurd (ground (arith, e, h))
  | inr (t, e) ↦ elim (Option-cases (find_task s.tasks on)) [
    | inl f ↦ absurd (ground (arith, e, f, h))
    | inr (u, f) ↦ elim (Bool-cases (waits_on s.deps i on)) [
      | inl old ↦ inl (ground (arith, e, f, h, old))
      | inr new ↦ inr (
          appended me (adds_dep i on) r s s' []
            (edge_event me s i dep_added (("dependsOnId", text on) ∷ []) (some r)) fresh
            (ground (arith, e, f, h, new)) refl refl
            (record { kind = refl; actor = refl; task = refl }))
    ]
  ]
]
perform-Records me (removes_dep i on) r s s' fresh h = elim (Option-cases (find_task s.tasks i)) [
  | inl e ↦ absurd (ground (arith, e, h))
  | inr (t, e) ↦ inr (
      appended me (removes_dep i on) r s s' []
        (edge_event me s i dep_removed (("dependsOnId", text on) ∷ []) (some r)) fresh
        (ground (arith, e, h)) refl refl (record { kind = refl; actor = refl; task = refl }))
]
perform-Records me (adds_link a b kind) r s s' fresh h = elim (Option-cases (find_task s.tasks a)) [
  | inl e ↦ absurd (ground (arith, e, h))
  | inr (t, e) ↦ elim (Option-cases (find_task s.tasks b)) [
    | inl f ↦ absurd (ground (arith, e, f, h))
    | inr (u, f) ↦ elim (Bool-cases (has_link s.links a b kind)) [
      | inl old ↦ inl (ground (arith, e, f, h, old))
      | inr new ↦ inr (
          appended me (adds_link a b kind) r s s' []
            (edge_event me s a link_added (("b", text b) ∷ ("kind", text kind) ∷ []) (some r)) fresh
            (ground (arith, e, f, h, new)) refl refl
            (record { kind = refl; actor = refl; task = refl }))
    ]
  ]
]
perform-Records me (adds_note i words) r s s' fresh h = elim (Option-cases (find_task s.tasks i)) [
  | inl e ↦ absurd (ground (arith, e, h))
  | inr (t, e) ↦ inr (
      appended me (adds_note i words) r s s' []
        (edge_event me s i note (("text", text words) ∷ []) (some r)) fresh (ground (arith, e, h))
        refl refl (record { kind = refl; actor = refl; task = refl }))
]
