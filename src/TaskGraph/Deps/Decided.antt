-- ===== src/TaskGraph/Deps/Decided.antt =====
-- Tests that decide the properties of the dependency graph on given rows, for the tests' stores.
use shreni.Common.{List, Bool, true, false, not, ◌&&◌, ◌||◌, all, all-In, ◌≡◌, arith}
use shreni.Common.Reach.{Edge, reach, Acyclic}
use shreni.TaskGraph.Ready.{parent_edges}
use shreni.TaskGraph.Tasks.Edit.Forest.{IsForest}
use shreni.TaskGraph.Types.{Task}
use shreni.TaskGraph.Store.{Store}
use shreni.TaskGraph.Lifecycle.{Lifecycle, is_terminal}
use shreni.TaskGraph.Containers.{waits_on}
use shreni.TaskGraph.Deps.{dep_edges}
use shreni.TaskGraph.Deps.Acyclic.{IsAcyclic}
use shreni.TaskGraph.Deps.Stranding.{is_dead, NoneStranded}

abbrev pub pair_test : Lifecycle → Store → Task → Task → Bool
pair_test lc s a b = not (waits_on s.deps a.id b.id && is_dead lc b.state) || is_terminal lc a.state

unfoldable pub stranded_test : Lifecycle → Store → Bool
stranded_test lc s = all (λ a. all (pair_test lc s a) s.tasks) s.tasks

pub stranded_test-NoneStranded :
    (lc : Lifecycle) (s : Store) → stranded_test lc s ≡ true → NoneStranded lc s
unfolding stranded_test
stranded_test-NoneStranded lc s h a b i j w dead = from_pair (
    all-In (pair_test lc s a) s.tasks b (all-In (λ x. all (pair_test lc s x) s.tasks) s.tasks a h i)
      j)
  where
    from_pair : pair_test lc s a b ≡ true → is_terminal lc a.state ≡ true
    from_pair e = ground arith

-- No edge leads back to its own start.
abbrev pub edges_test : List Edge → Bool
edges_test es = all (λ (e : Edge). not (reach es e.1 e.0)) es

edges_test-Acyclic : (es : List Edge) → edges_test es ≡ true → Acyclic es
edges_test-Acyclic es h a b m =
    from_edge (all-In (λ (e : Edge). not (reach es e.1 e.0)) es (a, b) h m)
  where
    from_edge : not (reach es b a) ≡ true → reach es b a ≡ false
    from_edge e = ground arith

unfoldable pub acyclic_test : Store → Bool
acyclic_test s = edges_test (dep_edges s.deps)

pub acyclic_test-IsAcyclic : (s : Store) → acyclic_test s ≡ true → IsAcyclic s
unfolding acyclic_test
acyclic_test-IsAcyclic s h = edges_test-Acyclic (dep_edges s.deps) h

unfoldable pub forest_test : Store → Bool
forest_test s = edges_test (parent_edges s.tasks)

pub forest_test-IsForest : (s : Store) → forest_test s ≡ true → IsForest s
unfolding forest_test
forest_test-IsForest s h = edges_test-Acyclic (parent_edges s.tasks) h
