-- ===== src/TaskGraph/Validators.antt =====
-- src/taskgraph/validators.ts: the engine's four validators, and the run of all validators.
pub mod Cycle
pub mod Passes
use shreni.Common.{
  String, Option, none, some, List, [], ◌∷◌, ◌++◌, Bool, true, false, not, ◌&&◌, ◌||◌, ◌==◌, map,
  any, filter, find, includes, is_some_of, is_empty, starts_with, if◌then◌else◌,
}
use shreni.TaskGraph.Types.{Task, Dep, Link, is_container}
use shreni.TaskGraph.Errors.{Severity, Finding, internal, Result, ok, err, ◌>>=◌}
use shreni.TaskGraph.Store.{Store}
use shreni.TaskGraph.Lifecycle.{Lifecycle}
use shreni.TaskGraph.Client.{
  PlanSnapshot, Scope, plan_scope, task_scope, Verdict, reported, threw, Validator, Client,
}
use shreni.TaskGraph.Containers.{is_child}
use shreni.TaskGraph.Validators.Cycle.{Visit, found, clear, out_of_fuel, find_cycle}

abbrev pub error_of : String → String → Option String → Finding
error_of validator message task = record {
  validator = validator;
  severity = Severity.error;
  task_id = task;
  message = message;
}

abbrev pub in_plan : PlanSnapshot → String → Bool
in_plan p i = any (λ t. t.id == i) p.tasks

-- The search never runs out of fuel (Cycle/Finds).
abbrev pub cycle_findings : PlanSnapshot → Visit → List Finding
cycle_findings p (found c) =
    error_of "engine.no-cycles" "dependencies form a cycle" (find (in_plan p) c) ∷ []
cycle_findings p (clear s) = []
cycle_findings p out_of_fuel = []

unfoldable pub no_cycles : PlanSnapshot → List Finding
no_cycles p = cycle_findings p (find_cycle p.deps)

pub record Ref : Type 0 where
  pub id : String
  pub from : String

abbrev pub dep_refs : List Dep → List Ref
dep_refs [] = []
dep_refs (d ∷ deps) =
    record { id = d.depends_on_id; from = d.task_id }
    ∷ record { id = d.task_id; from = d.depends_on_id }
    ∷ dep_refs deps

abbrev pub link_refs : List Link → List Ref
link_refs [] = []
link_refs (l ∷ links) =
    record { id = l.b; from = l.a } ∷ record { id = l.a; from = l.b } ∷ link_refs links

abbrev pub parent_ref : String → Option String → List Ref → List Ref
parent_ref i none rest = rest
parent_ref i (some p) rest = record { id = p; from = i } ∷ rest

abbrev pub parent_refs : List Task → List Ref
parent_refs [] = []
parent_refs (t ∷ ts) = parent_ref t.id t.parent_id (parent_refs ts)

abbrev pub refs : PlanSnapshot → List Ref
refs p = dep_refs p.deps ++ (link_refs p.links ++ parent_refs p.tasks)

-- `ctx.exists`: a row of the project has the id.
abbrev pub exists : Store → String → Bool
exists s i = any (λ t. t.id == i) s.tasks

unfoldable pub no_missing_refs : PlanSnapshot → Store → List Finding
no_missing_refs p s =
    map
      (λ r.
        error_of "engine.no-missing-refs" "names a task that doesn't exist"
          (if in_plan p r.from then some r.from else none))
      (filter (λ r. not (in_plan p r.id) && not (exists s r.id)) (refs p))

-- `ctx.withChildren`: a row of the project sits under the id.
abbrev pub lacks_children : PlanSnapshot → Store → Task → Bool
lacks_children p s t =
    is_container t.kind && not (any (is_child t.id) p.tasks) && not (any (is_child t.id) s.tasks)

unfoldable pub containers_have_children : PlanSnapshot → Store → List Finding
containers_have_children p s =
    map (λ t. error_of "engine.containers-have-children" "container has no children" (some t.id))
      (filter (lacks_children p s) p.tasks)

unfoldable pub pre_approval : Lifecycle → PlanSnapshot → List Finding
pre_approval lc p =
    map (λ t. error_of "engine.pre-approval" "it has already left planning" (some t.id))
      (filter (λ t. not (t.state == lc.create_state)) p.tasks)

-- Errors that the transaction must see, by their codes.
abbrev pub must_propagate : String → Bool
must_propagate code =
    (code == "40001")
    || (code == "40P01")
    || starts_with code "08"
    || starts_with code "57P"
    || starts_with code "CONNECT"

-- `only`: the validators of the task scope alone, for a lone task.
abbrev pub runs : Bool → Scope → Bool
runs only plan_scope = not only
runs only task_scope = true

abbrev pub run_one : Validator → Verdict → Result (List Finding)
run_one v (reported fs) = ok fs
run_one v (threw code message) =
    if must_propagate code then err (internal code) else ok (error_of v.name message none ∷ [])

abbrev pub run_custom : List Validator → Bool → PlanSnapshot → Store → Result (List Finding)
run_custom [] only p s = ok []
run_custom (v ∷ vs) only p s = do
  mine ← if runs only v.scope then run_one v (v.validate p s) else ok []
  others ← run_custom vs only p s
  ok (mine ++ others)

abbrev pub built_in : Lifecycle → Bool → PlanSnapshot → Store → List Finding
built_in lc true p s = pre_approval lc p
built_in lc false p s =
    no_cycles p ++ (no_missing_refs p s ++ (containers_have_children p s ++ pre_approval lc p))

unfoldable pub run_validators : Client → Bool → PlanSnapshot → Store → Result (List Finding)
unfolding no_cycles no_missing_refs containers_have_children pre_approval
run_validators c only p s = do
  theirs ← run_custom c.validators only p s
  ok (built_in c.lifecycle only p s ++ theirs)

abbrev pub is_error : Finding → Bool
is_error f = elim f.severity [ Severity.error ↦ true | Severity.warning ↦ false ]
