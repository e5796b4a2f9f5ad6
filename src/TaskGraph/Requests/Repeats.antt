-- ===== src/TaskGraph/Requests/Repeats.antt =====
-- src/taskgraph/requests.ts and client.ts: a write that is repeated under its request id.
use shreni.Common.{
  String, none, some, List, [], ◌∷◌, ◌++◌, false, ◌==◌, ==_iff, ==_refl, ◌≡◌, ◌≢◌, refl, sym, ◌⊎◌,
  inl, inr, ◌↔◌, In, find, subst, arith, Bool-cases, Option-cases, ◌∙◌, ap,
}
use shreni.TaskGraph.Types.{Event}
use shreni.TaskGraph.Errors.{ok, Result-cases}
use shreni.TaskGraph.Store.{Store}
use shreni.TaskGraph.Client.{ActorHandle}
use shreni.TaskGraph.Ready.Order.{is_some_of_iff}
use shreni.TaskGraph.Requests.{prior_write, replayed, once}
use shreni.TaskGraph.Requests.Writes.{Write, kind_of, task_of, perform, write_once}
use shreni.TaskGraph.Requests.Events.{Records, same_kind_iff, find_keep, carries, perform-Records}

-- A call of the write that succeeded found the event that records it, or has performed it.
first_write :
    (me : ActorHandle) (w : Write) (r : String) (s s' : Store)
    → write_once me w (some r) s ≡ ok (s', tt)
    → ((s' ≡ s) × (prior_write s' r ≡ none))
      ⊎ ((x : Event) × (prior_write s' r ≡ some x) × Records me w x)
unfolding write_once once replayed
first_write me w r s s' h = elim (Option-cases (prior_write s r)) [
  | inr (x, found) ↦ inr (
    x,
    ground (arith, found, h, Bool-cases (r == "")),
    record {
      kind = ground (arith, found, h, Bool-cases (r == ""), same_kind_iff x.kind (kind_of w));
      actor = ground (arith, found, h, Bool-cases (r == ""), ==_iff x.actor me.actor.id);
      task = ground (arith, found, h, Bool-cases (r == ""), is_some_of_iff x.task_id (task_of w));
    },
  )
  | inl fresh ↦ elim (Result-cases (perform me w (some r) s)) [
    | inl (e, failed) ↦ absurd (ground (arith, fresh, h, failed, Bool-cases (r == "")))
    | inr (u, done) ↦ elim (perform-Records me w r s u fresh done) [
      | inl same ↦ inl (
        ground (arith, fresh, h, done, same, Bool-cases (r == "")),
        ground (arith, fresh, h, done, same, Bool-cases (r == "")),
      )
      | inr (x, found, records) ↦
          inr (x, ground (arith, fresh, h, done, found, Bool-cases (r == "")), records)
    ]
  ]
]

-- A later call that succeeds on the event: a write of the kind and the task that it records, by the same
-- actor, which changes nothing.
abbrev pub IsRepeat : ActorHandle → Write → ActorHandle → Write → Type 0
IsRepeat me w me' w' =
    (kind_of w' ≡ kind_of w) × (me'.actor.id ≡ me.actor.id) × (task_of w' ≡ task_of w)

replays_iff :
    (me me' : ActorHandle) (w w' : Write) (r : String) (s t : Store) (x : Event)
    → (r == "") ≡ false
    → prior_write s r ≡ some x
    → Records me w x
    → (write_once me' w' (some r) s ≡ ok (t, tt)) ↔ ((t ≡ s) × IsRepeat me w me' w')
unfolding write_once once replayed
replays_iff me me' w w' r s t x given found records = (
  (λ h. (
    ground (arith, found, h, given),
    (
      ground (arith, found, h, given, same_kind_iff x.kind (kind_of w'), records.kind),
      ground (arith, found, h, given, ==_iff x.actor me'.actor.id, records.actor),
      ground (arith, found, h, given, is_some_of_iff x.task_id (task_of w'), records.task),
    ),
  )),
  λ (same, (kind, actor, task)). ground (
    arith,
    found,
    given,
    same,
    same_kind_iff x.kind (kind_of w'),
    ==_iff x.actor me'.actor.id,
    is_some_of_iff x.task_id (task_of w'),
    kind,
    actor,
    task,
    records.kind,
    records.actor,
    records.task,
  ),
)

-- What holds after the write under its request id, from the store `s'` that it left.
pub record HasRun (me : ActorHandle) (w : Write) (r : String) (s' : Store) : Type 0 where
  pub again : write_once me w (some r) s' ≡ ok (s', tt)
  pub later :
      (x : Event) (more : List Event) (t u : Store) (me' : ActorHandle) (w' : Write)
      → In x s'.events
      → x.request_id ≡ some r
      → t.events ≡ s'.events ++ more
      → (write_once me' w' (some r) t ≡ ok (u, tt)) ↔ ((u ≡ t) × IsRepeat me w me' w')

prior-later :
    (s t : Store) (more : List Event) (r : String) (x : Event)
    → prior_write s r ≡ some x
    → t.events ≡ s.events ++ more
    → prior_write t r ≡ some x
unfolding prior_write
prior-later s t more r x found same =
    ap (find (carries r)) same ∙ find_keep (carries r) s.events more x found

prior-none :
    (s : Store) (r : String) (x : Event)
    → prior_write s r ≡ none
    → In x s.events
    → x.request_id ≢ some r
unfolding prior_write
prior-none s r x h i e = unfound s.events h i
  where
    unfound : (es : List Event) → find (carries r) es ≡ none → In x es → ⊥
    unfound [] h i = ground (arith, i)
    unfound (y ∷ ys) h (inl same) = ground (arith, h, same, e, ==_refl r)
    unfound (y ∷ ys) h (inr j) = unfound ys (ground (arith, h, Bool-cases (carries r y))) j

given_request :
    (me : ActorHandle) (w : Write) (r : String) (s s' : Store)
    → write_once me w (some r) s ≡ ok (s', tt)
    → (r == "") ≡ false
unfolding write_once once
given_request me w r s s' h = ground (arith, h, Bool-cases (r == ""))

-- Where a delete of a task, an added or removed dependency, an added link or a note succeeds under a
-- request id, the same call with the same id succeeds again on the store that it left, and changes
-- nothing, though the task may be gone. In every store with these events and any later ones, where an
-- event of the store it left carries the id, such a call of any kind by any actor under that id
-- succeeds exactly when it is of the same kind, on the same task and by the same actor, and then it
-- changes nothing.
pub write_once-HasRun :
    (me : ActorHandle) (w : Write) (r : String) (s s' : Store)
    → write_once me w (some r) s ≡ ok (s', tt)
    → HasRun me w r s'
write_once-HasRun me w r s s' h =
    let given = given_request me w r s s' h in
    elim (first_write me w r s s' h) [
      | inl (same, fresh) ↦ record {
        again = subst (λ z. write_once me w (some r) z ≡ ok (s', tt)) (sym same) h;
        later = λ x more t u me' w' i e same_events. absurd (prior-none s' r x fresh i e);
      }
      | inr (x, found, records) ↦ record {
        again = (replays_iff me me w w r s' s' x given found records).1 (refl, (refl, refl, refl));
        later = λ y more t u me' w' i e same.
            replays_iff me me' w w' r t u x given (prior-later s' t more r x found same) records;
      }
    ]
