-- ===== src/TaskGraph/System/Edges.antt =====
-- src/taskgraph: the dependencies over all operations.
use shreni.Common.{
  ℕ, ◌∙◌, String, Option, none, some, List, [], ◌∷◌, ◌==◌, not, ◌&&◌, ◌||◌, includes, ap, ◌≡◌, refl,
  sym, inl, inr, In, In-map, map-In, In-filter, subst, arith, Option-cases,
}
use shreni.Common.Reach.{Edge, Acyclic-fewer}
use shreni.TaskGraph.Types.{Task, Dep, Plan}
use shreni.TaskGraph.Errors.{Result-cases, ok}
use shreni.TaskGraph.Store.{Store, find_task}
use shreni.TaskGraph.Lifecycle.{Lifecycle, Move}
use shreni.TaskGraph.Client.{Client, ActorHandle}
use shreni.TaskGraph.Invariant.{IsRegistered, Inv}
use shreni.TaskGraph.Moves.{commit_move, moved_rows}
use shreni.TaskGraph.Moves.Checks.{move-Moved}
use shreni.TaskGraph.Sweep.{
  Lapsed, sweep, expire_leases, return_leases, return_lease, return_by, lapsed, expiry_move,
}
use shreni.TaskGraph.Sweep.Keeps.{ReturnsLeases}
use shreni.TaskGraph.Claims.{Claim, ClaimOptions, heartbeat, lease, take, next_ready}
use shreni.TaskGraph.Claims.Keeps.{claim-Answered}
use shreni.TaskGraph.Deps.{dep_edges, add_link, add_note}
use shreni.TaskGraph.Deps.Acyclic.{IsAcyclic, add_dep-IsAcyclic, remove_dep-IsAcyclic}
use shreni.TaskGraph.Tasks.{removed, without}
use shreni.TaskGraph.Tasks.Keeps.{create-cases}
use shreni.TaskGraph.Tasks.Deletes.{delete-Deleted}
use shreni.TaskGraph.Tasks.Edit.{commit_update}
use shreni.TaskGraph.Tasks.Edit.Forest.{update-Edited}
use shreni.TaskGraph.Plans.{create_plan, draw_plan, move_in_tx}
use shreni.TaskGraph.Plans.Lone.{approve_task-Lone}
use shreni.TaskGraph.Plans.Approves.{approve-Opened}
use shreni.TaskGraph.Plans.Discard.Cancels.{discard-Discarded}
use shreni.TaskGraph.System.{
  handle, Step, creates, updates, deletes, moves, claims, beats, expires, adds_dep, removes_dep,
  adds_link, adds_note, plans, approves, discards, approves_task, waits, Steps, done, next,
}
use shreni.TaskGraph.System.Reached.{Step-Inv}

-- No dependency is new.
abbrev Fewer : Store → Store → Type 0
Fewer s s' = (d : Dep) → In d s'.deps → In d s.deps

Fewer-IsAcyclic : (s s' : Store) → Fewer s s' → IsAcyclic s → IsAcyclic s'
unfolding dep_edges
Fewer-IsAcyclic s s' f v = Acyclic-fewer (dep_edges s.deps) (dep_edges s'.deps) (λ e m. edges e m) v
  where
    edges : (e : Edge) → In e (dep_edges s'.deps) → In e (dep_edges s.deps)
    edges e m =
        let (d, i, same) = In-map _ _ e m in
        subst (λ x. In x (dep_edges s.deps)) (sym same)
          (map-In (λ d. (d.task_id, d.depends_on_id)) s.deps d (f d i))

same-Fewer : (s s' : Store) → s'.deps ≡ s.deps → Fewer s s'
same-Fewer s s' e d i = rw e at i

return_leases-deps :
    (lc : Lifecycle) (ls : List Lapsed) (s : Store) → (return_leases lc ls s).deps ≡ s.deps
unfolding return_leases return_lease
return_leases-deps lc [] s = refl
return_leases-deps lc ((t, n) ∷ rest) s =
    return_leases-deps lc rest (return_by lc t n (expiry_move lc n) s) ∙ one (expiry_move lc n)
  where
    one : (o : Option Move) → (return_by lc t n o s).deps ≡ s.deps
    one none = refl
    one (some m) = refl

sweep-deps : (c : Client) (s : Store) → (sweep c s).0.deps ≡ s.deps
unfolding sweep
sweep-deps c s = return_leases-deps c.lifecycle (lapsed c s) s

taken :
    (o : Option Task) (s s' : Store) (me : ActorHandle) (opts : ClaimOptions) (m : Move)
    (attempt : String) (answer : Option Claim)
    → (s', answer) ≡ take me opts m attempt o s
    → s'.deps ≡ s.deps
unfolding lease
taken none s s' me opts m attempt answer e = ground (arith, e)
taken (some t) s s' me opts m attempt answer e = ground (arith, e)

add_link-deps :
    (me : ActorHandle) (a b kind : String) (request : Option String) (s s' : Store)
    → add_link me a b kind request s ≡ ok s'
    → s'.deps ≡ s.deps
unfolding add_link
add_link-deps me a b kind request s s' h = elim (Option-cases (find_task s.tasks a)) [
  | inl e ↦ absurd (ground (arith, e))
  | inr (t, e) ↦ elim (Option-cases (find_task s.tasks b)) [
    | inl f ↦ absurd (ground (arith, e, f))
    | inr (u, f) ↦ ground (arith, e, f)
  ]
]

add_note-deps :
    (me : ActorHandle) (i words : String) (request : Option String) (s s' : Store)
    → add_note me i words request s ≡ ok s'
    → s'.deps ≡ s.deps
unfolding add_note
add_note-deps me i words request s s' h = elim (Option-cases (find_task s.tasks i)) [
  | inl e ↦ absurd (ground (arith, e))
  | inr (t, e) ↦ ground (arith, e)
]

create_plan-deps :
    (me : ActorHandle) (title meta : String) (drawn : ℕ → String) (request : Option String)
    (s s' : Store) (p : Plan)
    → create_plan me title meta drawn request s ≡ ok (s', p)
    → s'.deps ≡ s.deps
unfolding create_plan
create_plan-deps me title meta drawn request s s' p h =
    elim (Result-cases (draw_plan s drawn 20 0)) [
      | inl (e, f) ↦ absurd (ground (arith, f, h))
      | inr (i, f) ↦ ground (arith, f, h)
    ]

module _ (c : Client) (r : IsRegistered c.lifecycle) where
  -- What a step does to the dependencies: it adds none, or passes the cycle test.
  Step-IsAcyclic : (s s' : Store) → Inv c.lifecycle s → Step c s s' → IsAcyclic s → IsAcyclic s'
  unfolding expire_leases removed without commit_update commit_move moved_rows heartbeat move_in_tx
      lease
  Step-IsAcyclic s s' v (creates who js_length t drawn request a h) =
      let (opened, which) = create-cases (handle c who) js_length t drawn request s s' a h in
      Fewer-IsAcyclic s s' (same-Fewer s s' (ground (arith, which)))
  Step-IsAcyclic s s' v (updates who js_length i p request a h) =
      let d = update-Edited (handle c who) js_length i p request s s' a h in
      Fewer-IsAcyclic s s' (same-Fewer s s' (ground (arith, d.store)))
  Step-IsAcyclic s s' v (deletes who i request h) =
      let d = delete-Deleted (handle c who) i request s s' h in
      Fewer-IsAcyclic s s' (λ x j.
        (In-filter (λ e. not ((e.task_id == i) || (e.depends_on_id == i))) s.deps x
          (subst (λ es. In x es) (ap (λ z. z.deps) d.store) j)).0)
  Step-IsAcyclic s s' v (moves who i name opts fence t h) =
      let d = move-Moved (handle c who) i name opts fence s s' t h in
      Fewer-IsAcyclic s s' (λ x j.
        (In-filter (λ e. not ((e.depends_on_id == d.c.task.id) && includes d.c.dropped e.task_id))
          s.deps x (subst (λ es. In x es) (ap (λ z. z.deps) d.store) j)).0)
  Step-IsAcyclic s s' v (claims who opts attempt o h) =
      let a = claim-Answered (handle c who) opts attempt s s' o h in
      Fewer-IsAcyclic s s' (
        same-Fewer s s' (
          taken (next_ready c opts.filter (sweep c s).0) (sweep c s).0 s' (handle c who) opts a.m
            attempt o a.outcome
          ∙ sweep-deps c s))
  Step-IsAcyclic s s' v (beats who b b' ms h) =
      Fewer-IsAcyclic s s' (same-Fewer s s' (ground (arith, h)))
  Step-IsAcyclic s s' v (expires n h) =
      Fewer-IsAcyclic s s' (same-Fewer s s' (ground (arith, h, sweep-deps c s)))
  Step-IsAcyclic s s' v (adds_dep who i on request h) =
      λ ok_before. add_dep-IsAcyclic (handle c who) i on request s s' ok_before h
  Step-IsAcyclic s s' v (removes_dep who i on request h) =
      λ ok_before. (remove_dep-IsAcyclic (handle c who) i on request s s' ok_before h).0
  Step-IsAcyclic s s' v (adds_link who a b kind request h) =
      Fewer-IsAcyclic s s' (same-Fewer s s' (add_link-deps (handle c who) a b kind request s s' h))
  Step-IsAcyclic s s' v (adds_note who i words request h) =
      Fewer-IsAcyclic s s' (same-Fewer s s' (add_note-deps (handle c who) i words request s s' h))
  Step-IsAcyclic s s' v (plans who title meta drawn request p h) =
      Fewer-IsAcyclic s s'
        (same-Fewer s s' (create_plan-deps (handle c who) title meta drawn request s s' p h))
  Step-IsAcyclic s s' v (approves who i via request fs h) =
      let d = approve-Opened (handle c who) i via request s s' fs r v h in
      Fewer-IsAcyclic s s' (same-Fewer s s' d.kept.0)
  Step-IsAcyclic s s' v (discards who by_locale i via request h) =
      let d = discard-Discarded (handle c who) by_locale i via request s s' r v h in
      Fewer-IsAcyclic s s' (same-Fewer s s' d.kept.0)
  Step-IsAcyclic s s' v (approves_task who i via request t found free h) =
      let d = approve_task-Lone (handle c who) i via request t s s' found h in
      Fewer-IsAcyclic s s' (same-Fewer s s' (ground (arith, d.moved)))
  Step-IsAcyclic s s' v (waits now later e) =
      Fewer-IsAcyclic s s' (same-Fewer s s' (ground (arith, e)))

-- Under such a lifecycle, from rows that satisfy the invariant and whose dependencies form no cycle,
-- the dependencies form none after any sequence of operations of the engine by any actors.
pub Steps-IsAcyclic :
    (c : Client) (s s' : Store)
    → IsRegistered c.lifecycle
    → ReturnsLeases c.lifecycle
    → Inv c.lifecycle s
    → IsAcyclic s
    → Steps c s s'
    → IsAcyclic s'
Steps-IsAcyclic c s s' r apart v w done = w
Steps-IsAcyclic c s s' r apart v w (next {t} step rest) =
    Steps-IsAcyclic c t s' r apart (Step-Inv c r apart s t v step) (Step-IsAcyclic c r s t v step w)
      rest
