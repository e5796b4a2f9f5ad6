-- ===== src/TaskGraph/Validators/Passes.antt =====
-- What a plan that the engine's validators pass is (src/taskgraph/validators.ts).
use shreni.Common.{
  List, [], ◌∷◌, ◌++◌, Bool, true, false, not, ◌&&◌, ◌||◌, ◌==◌, ==_iff, map, any, filter, ◌≡◌,
  refl, ◌↔◌, inl, inr, In, arith,
}
use shreni.Common.Reach.{Acyclic}
use shreni.TaskGraph.Types.{Task, is_container}
use shreni.TaskGraph.Errors.{Finding, ok, >>=-parts}
use shreni.TaskGraph.Store.{Store}
use shreni.TaskGraph.Lifecycle.{Lifecycle}
use shreni.TaskGraph.Client.{PlanSnapshot, Client}
use shreni.TaskGraph.Containers.{is_child}
use shreni.TaskGraph.Deps.{dep_edges}
use shreni.TaskGraph.Validators.Cycle.{Visit, found, clear, out_of_fuel, find_cycle}
use shreni.TaskGraph.Validators.Cycle.Finds.{Answers, find_cycle-Answers}
use shreni.TaskGraph.Validators.{
  Ref, refs, in_plan, exists, cycle_findings, no_cycles, no_missing_refs, lacks_children,
  containers_have_children, pre_approval, built_in, run_custom, run_validators, is_error,
}

-- A plan that can be approved: no cycle, no name of a task that is nowhere, no container without
-- children, and no task that has left planning.
pub record Proper (lc : Lifecycle) (p : PlanSnapshot) (s : Store) : Type 0 where
  pub acyclic : Acyclic (dep_edges p.deps)
  pub named : (r : Ref) → In r (refs p) → (in_plan p r.id || exists s r.id) ≡ true
  pub filled :
      (t : Task)
      → In t p.tasks
      → is_container t.kind ≡ true
      → (any (is_child t.id) p.tasks || any (is_child t.id) s.tasks) ≡ true
  pub proposed : (t : Task) → In t p.tasks → t.state ≡ lc.create_state

any-append {ℓ} :
    {A : Type ℓ} (f : A → Bool) (xs ys : List A) → any f (xs ++ ys) ≡ (any f xs || any f ys)
any-append f [] ys = refl
any-append f (x ∷ xs) ys = ground (arith, any-append f xs ys)

-- A check that maps an error over the elements that fail a test finds none when none fails.
none_fail {ℓ} :
    {A : Type ℓ} (f : A → Finding) (bad : A → Bool) (xs : List A)
    → ((a : A) → is_error (f a) ≡ true)
    → (any is_error (map f (filter bad xs)) ≡ false) ↔ ((a : A) → In a xs → bad a ≡ false)
none_fail f bad [] e = (λ h a i. absurd (i.0), λ h. refl)
none_fail f bad (x ∷ xs) e =
    let (to, from) = none_fail f bad xs e in
    let good = λ (h : any is_error (map f (filter bad (x ∷ xs))) ≡ false). first h in
    (
      λ h a i. elim i [ inl same ↦ rw same (good h).0 | inr j ↦ to (good h).1 a j ],
      λ h. second (h x (inl refl)) (from (λ a i. h a (inr i))),
    )
  where
    first :
        any is_error (map f (filter bad (x ∷ xs))) ≡ false
        → (bad x ≡ false) × (any is_error (map f (filter bad xs)) ≡ false)
    first h = ground (arith, e x)

    second :
        bad x ≡ false
        → any is_error (map f (filter bad xs)) ≡ false
        → any is_error (map f (filter bad (x ∷ xs))) ≡ false
    second b h = ground arith

cycle_findings_lem :
    (p : PlanSnapshot) (v : Visit)
    → Answers p.deps v
    → (any is_error (cycle_findings p v) ≡ false) ↔ Acyclic (dep_edges p.deps)
cycle_findings_lem p (found c) a = (λ h. absurd (ground arith), λ h. absurd (a.1 h))
cycle_findings_lem p (clear s) a = (λ h. a, λ h. refl)
cycle_findings_lem p out_of_fuel a = absurd a

-- The built-in validators of a plan report no error exactly when its snapshot is proper: its
-- dependencies have no cycle, every task that it names exists, every container in it has a child, and
-- every task of it is in the state of a new one.
pub built_in-Proper_iff :
    (lc : Lifecycle) (p : PlanSnapshot) (s : Store)
    → (any is_error (built_in lc false p s) ≡ false) ↔ Proper lc p s
unfolding no_cycles no_missing_refs containers_have_children pre_approval
built_in-Proper_iff lc p s =
    let cycles = cycle_findings_lem p (find_cycle p.deps) (find_cycle-Answers p.deps) in
    let named =
      none_fail _ (λ r. not (in_plan p r.id) && not (exists s r.id)) (refs p) (λ r. refl) in
    let filled = none_fail _ (lacks_children p s) p.tasks (λ t. refl) in
    let early = none_fail _ (λ t. not (t.state == lc.create_state)) p.tasks (λ t. refl) in
    (
      λ h.
          let parts = split h in
          record {
            acyclic = cycles.0 parts.0;
            named = λ r i. ground (arith, named.0 parts.1 r i);
            filled = λ t i c. ground (arith, filled.0 parts.2 t i);
            proposed = λ t i. ground (arith, early.0 parts.3 t i, ==_iff t.state lc.create_state);
          },
      λ proper.
          join (cycles.1 proper.acyclic) (named.1 (λ r i. ground (arith, proper.named r i)))
            (filled.1 (λ t i. ground (arith, proper.filled t i)))
            (early.1 (λ t i. ground (arith, proper.proposed t i, ==_iff t.state lc.create_state))),
    )
  where
    split :
        any is_error (built_in lc false p s) ≡ false
        → (any is_error (no_cycles p) ≡ false)
          × (any is_error (no_missing_refs p s) ≡ false)
          × (any is_error (containers_have_children p s) ≡ false)
          × (any is_error (pre_approval lc p) ≡ false)
    split h = ground (
      arith,
      any-append is_error (no_cycles p)
          (no_missing_refs p s ++ (containers_have_children p s ++ pre_approval lc p)),
      any-append is_error (no_missing_refs p s) (containers_have_children p s ++ pre_approval lc p),
      any-append is_error (containers_have_children p s) (pre_approval lc p),
    )

    join :
        any is_error (no_cycles p) ≡ false
        → any is_error (no_missing_refs p s) ≡ false
        → any is_error (containers_have_children p s) ≡ false
        → any is_error (pre_approval lc p) ≡ false
        → any is_error (built_in lc false p s) ≡ false
    join a b c d = ground (
      arith,
      any-append is_error (no_cycles p)
          (no_missing_refs p s ++ (containers_have_children p s ++ pre_approval lc p)),
      any-append is_error (no_missing_refs p s) (containers_have_children p s ++ pre_approval lc p),
      any-append is_error (containers_have_children p s) (pre_approval lc p),
    )

-- Where a run of all validators finds no error, the engine's own find none.
pub run_validators-Proper :
    (c : Client) (p : PlanSnapshot) (s : Store) (fs : List Finding)
    → run_validators c false p s ≡ ok fs
    → any is_error fs ≡ false
    → Proper c.lifecycle p s
unfolding run_validators
run_validators-Proper c p s fs h clean =
    let (theirs, ran, e) =
      >>=-parts {Then = List Finding} (run_custom c.validators false p s)
        (λ theirs. ok (built_in c.lifecycle false p s ++ theirs)) {last = fs} h in
    (built_in-Proper_iff c.lifecycle p s).0
      (ground (arith, e, clean, any-append is_error (built_in c.lifecycle false p s) theirs))
