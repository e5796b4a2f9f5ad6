-- ===== src/TaskGraph/Deps/Acyclic.antt =====
-- Cycles in the dependency graph (src/taskgraph/deps.ts).
use shreni.Common.{
  String, Option, List, [], ◌∷◌, Bool, false, not, ◌&&◌, ◌||◌, ◌==◌, filter, ◌≡◌, ◌≢◌, refl, ◌⊎◌,
  inl, inr, In, In-map, map-In, In-filter, subst, sym, arith, Bool-cases,
}
use shreni.Common.Reach.{Edge, Reaches, reach, Acyclic, Acyclic-add, Acyclic-fewer, Reaches-reach}
use shreni.TaskGraph.Types.{Dep}
use shreni.TaskGraph.Errors.{ok}
use shreni.TaskGraph.Store.{Store}
use shreni.TaskGraph.Client.{ActorHandle}
use shreni.TaskGraph.Containers.{waits_on}
use shreni.TaskGraph.Ready.{parent_edges}
use shreni.TaskGraph.Deps.{dep_edges, insert_dep, add_dep, remove_dep}

-- No task waits on itself, directly or not.
abbrev pub IsAcyclic : Store → Type 0
IsAcyclic s = Acyclic (dep_edges s.deps)

-- What an edge that is added has passed.
record Added (me : ActorHandle) (i on : String) (request : Option String) (s s' : Store)
    : Type 0 where
  no_way : reach (dep_edges s.deps) on i ≡ false
  apart : (reach (parent_edges s.tasks) i on || reach (parent_edges s.tasks) on i) ≡ false
  store : s' ≡ insert_dep me i on request s

add_dep-Added :
    (me : ActorHandle) (i on : String) (request : Option String) (s s' : Store)
    → add_dep me i on request s ≡ ok s'
    → Added me i on request s s'
unfolding add_dep
add_dep-Added me i on request s s' h = record {
  no_way = ground arith;
  apart = ground arith;
  store = ground arith;
}

insert_dep-IsAcyclic :
    (me : ActorHandle) (i on : String) (request : Option String) (s : Store)
    → reach (dep_edges s.deps) on i ≡ false
    → IsAcyclic s
    → IsAcyclic (insert_dep me i on request s)
unfolding dep_edges
insert_dep-IsAcyclic me i on request s no_way v = elim (Bool-cases (waits_on s.deps i on)) [
  | inl old ↦ rw old v
  | inr new ↦ rw new (Acyclic-add (dep_edges s.deps) i on v no_way)
]

-- Where the dependencies form no cycle, they form none after a dependency is added.
pub add_dep-IsAcyclic :
    (me : ActorHandle) (i on : String) (request : Option String) (s s' : Store)
    → IsAcyclic s
    → add_dep me i on request s ≡ ok s'
    → IsAcyclic s'
add_dep-IsAcyclic me i on request s s' v h =
    let a = add_dep-Added me i on request s s' h in
    subst IsAcyclic (sym a.store) (insert_dep-IsAcyclic me i on request s a.no_way v)

-- A dependency on a task that already waits, directly or not, for the one to be given it is refused,
-- and so is one between a task and itself or a container above it, either way round.
pub add_dep_refuses :
    (me : ActorHandle) (i on : String) (request : Option String) (s s' : Store)
    → Reaches (dep_edges s.deps) on i
      ⊎ (Reaches (parent_edges s.tasks) i on ⊎ Reaches (parent_edges s.tasks) on i)
    → add_dep me i on request s ≢ ok s'
add_dep_refuses me i on request s s' (inl p) h =
    ground (arith, Reaches-reach (dep_edges s.deps) p, add_dep-Added me i on request s s' h)
add_dep_refuses me i on request s s' (inr (inl p)) h =
    ground (arith, Reaches-reach (parent_edges s.tasks) p, add_dep-Added me i on request s s' h)
add_dep_refuses me i on request s s' (inr (inr p)) h =
    ground (arith, Reaches-reach (parent_edges s.tasks) p, add_dep-Added me i on request s s' h)

-- The edges that are left after a removal.
remove_dep-deps :
    (me : ActorHandle) (i on : String) (request : Option String) (s s' : Store)
    → remove_dep me i on request s ≡ ok s'
    → s'.deps ≡ filter (λ d. not ((d.task_id == i) && (d.depends_on_id == on))) s.deps
unfolding remove_dep
remove_dep-deps me i on request s s' h = ground arith

fewer_edges :
    (p : Dep → Bool) (deps : List Dep) (e : Edge)
    → In e (dep_edges (filter p deps))
    → In e (dep_edges deps)
unfolding dep_edges
fewer_edges p deps e m =
    let (d, i, same) = In-map _ _ e m in
    subst (λ x. In x (dep_edges deps)) (sym same)
      (map-In (λ d. (d.task_id, d.depends_on_id)) deps d (In-filter p deps d i).0)

not_waiting :
    (i on : String) (deps : List Dep)
    → waits_on (filter (λ d. not ((d.task_id == i) && (d.depends_on_id == on))) deps) i on ≡ false
not_waiting i on [] = refl
not_waiting i on (d ∷ deps) = ground (arith, not_waiting i on deps)

-- Where the dependencies form no cycle, they form none after one is removed, and the task no longer
-- waits on the other.
pub remove_dep-IsAcyclic :
    (me : ActorHandle) (i on : String) (request : Option String) (s s' : Store)
    → IsAcyclic s
    → remove_dep me i on request s ≡ ok s'
    → IsAcyclic s' × (waits_on s'.deps i on ≡ false)
remove_dep-IsAcyclic me i on request s s' v h =
    let e = remove_dep-deps me i on request s s' h in
    (
      rw e (Acyclic-fewer (dep_edges s.deps) _ (fewer_edges _ s.deps) v),
      rw e (not_waiting i on s.deps),
    )
