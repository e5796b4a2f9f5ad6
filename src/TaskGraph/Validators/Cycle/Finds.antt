-- ===== src/TaskGraph/Validators/Cycle/Finds.antt =====
-- What findCycle (src/taskgraph/validators.ts) answers.
use shreni.Common.{
  some, suc, ◌≤◌, String, List, [], ◌∷◌, true, ==_iff, map, includes, length, ◌≡◌, refl, sym, ◌↔◌,
  inl, inr, In, In-includes, In-order_by, arith, Bool-cases, subst,
}
use shreni.Common.Reach.{Reaches, here, step, reach, reach-Reaches, Reaches-reach, Acyclic}
use shreni.TaskGraph.Types.{Dep}
use shreni.TaskGraph.Deps.{dep_edges}
use shreni.TaskGraph.Validators.Cycle.{
  text_le, Visit, found, clear, out_of_fuel, targets, nodes, keys, distinct, find_cycle, unmarked,
}
use shreni.TaskGraph.Validators.Cycle.Search.{
  ClosedWalk, Walk, last_of, Ordered, Ensures, off_path, each_root_lem,
}

all_off : (ns : List String) → off_path ns [] ≤ length ns
all_off [] = ground arith
all_off (n ∷ ns) = ground (arith, all_off ns)

In-distinct : (xs : List String) (x : String) → In x (distinct xs) ↔ In x xs
In-distinct [] x = (λ h. h, λ h. h)
In-distinct (y ∷ xs) x = ground (arith, In-distinct xs x, In-includes (distinct xs) y, ==_iff x y)

source-node : (deps : List Dep) (n : String) → In n (map (λ d. d.task_id) deps) → In n (nodes deps)
source-node [] n i = absurd (i.0)
source-node (d ∷ deps) n i = ground (arith, source-node deps n)

key-source : (deps : List Dep) (n : String) → In n (keys deps) ↔ In n (map (λ d. d.task_id) deps)
unfolding keys
key-source deps n = ground (
  arith,
  In-order_by text_le (distinct (map (λ d. d.task_id) deps)) n,
  In-distinct (map (λ d. d.task_id) deps) n,
)

find_cycle-Ensures : (deps : List Dep) → Ensures deps unmarked (keys deps) (find_cycle deps)
unfolding find_cycle
find_cycle-Ensures deps =
    each_root_lem deps (suc (length (nodes deps))) (keys deps) unmarked
      (ground (arith, all_off (nodes deps))) refl
      (record { ordered = tt; apart = λ x h. refl; chain = tt })
      (λ n i. source-node deps n ((key-source deps n).0 i))

edge-target : (deps : List Dep) (a b : String) → In (a, b) (dep_edges deps) ↔ In b (targets deps a)
unfolding dep_edges targets
edge-target [] a b = (λ h. absurd (h.0), λ h. absurd (h.0))
edge-target (d ∷ deps) a b = ground (arith, edge-target deps a b, ==_iff d.task_id a)

-- Marked nodes lead to marked nodes.
stays :
    (deps : List Dep) (l : List String) (a b : String)
    → Ordered deps l
    → includes l a ≡ true
    → Reaches (dep_edges deps) a b
    → includes l b ≡ true
stays deps l a b o h here = h
stays deps l a b o h (step {b = d} m p) = stays deps l d b o (one l o h) p
  where
    one : (l : List String) → Ordered deps l → includes l a ≡ true → includes l d ≡ true
    one [] o h = absurd (ground arith)
    one (n ∷ l) o h = ground (arith, one l o.2, o.0 d, (edge-target deps a d).0 m, ==_iff n a)

no_way_back :
    (deps : List Dep) (l : List String) (a b : String)
    → Ordered deps l
    → includes l a ≡ true
    → In b (targets deps a)
    → ¬ Reaches (dep_edges deps) b a
no_way_back deps [] a b o h m p = ground arith
no_way_back deps (n ∷ l) a b o h m p = elim (Bool-cases (includes l a)) [
  | inl rest ↦ no_way_back deps l a b o.2 rest m p
  | inr not_rest ↦
      let same : n ≡ a = ground (arith, ==_iff n a) in
      let first : includes l b ≡ true = o.0 b (subst (λ x. In b (targets deps x)) (sym same) m) in
      ground (arith, not_rest, stays deps l b a o.2 first p)
]

edge-source :
    (deps : List Dep) (a b : String) → In (a, b) (dep_edges deps) → In a (map (λ d. d.task_id) deps)
unfolding dep_edges
edge-source [] a b i = absurd (i.0)
edge-source (d ∷ deps) a b i = ground (arith, edge-source deps a b)

Ordered-Acyclic :
    (deps : List Dep) (l : List String)
    → Ordered deps l
    → ((n : String) → In n (map (λ d. d.task_id) deps) → includes l n ≡ true)
    → Acyclic (dep_edges deps)
Ordered-Acyclic deps l o all_in a b m = elim (Bool-cases (reach (dep_edges deps) b a)) [
  | inr e ↦ e
  | inl e ↦ absurd (
      no_way_back deps l a b o (all_in a (edge-source deps a b m)) ((edge-target deps a b).0 m)
        (reach-Reaches (dep_edges deps) b a e))
]

Walk-Reaches :
    (deps : List Dep) (b : String) (rest : List String) (z : String)
    → Walk deps (b ∷ rest)
    → last_of (b ∷ rest) ≡ some z
    → Reaches (dep_edges deps) b z
Walk-Reaches deps b [] z w l =
    subst (Reaches (dep_edges deps) b) (let e : b ≡ z = ground arith in e) here
Walk-Reaches deps b (c ∷ rest) z w l =
    step ((edge-target deps b c).1 w.0) (Walk-Reaches deps c rest z w.1 l)

ClosedWalk-cyclic :
    (deps : List Dep) (c : List String) → ClosedWalk deps c → ¬ Acyclic (dep_edges deps)
ClosedWalk-cyclic deps [] w v = ground (arith, w.steps)
ClosedWalk-cyclic deps (a ∷ []) w v = ground (arith, w.steps)
ClosedWalk-cyclic deps (a ∷ b ∷ rest) w v = ground (
  arith,
  v a b ((edge-target deps a b).1 (w.walk.0)),
  Reaches-reach (dep_edges deps) (Walk-Reaches deps b rest a (w.walk.1) (sym (w.closed))),
)

-- What an answer of the search says of the dependencies.
abbrev pub Answers : List Dep → Visit → Type 0
Answers deps (found c) = ClosedWalk deps c × ¬ Acyclic (dep_edges deps)
Answers deps (clear s) = Acyclic (dep_edges deps)
Answers deps out_of_fuel = ⊥

-- The search for a dependency cycle ends on every list of dependencies: it finds a walk along them
-- that closes, and then they have a cycle, or it finds none, and then they have none.
pub find_cycle-Answers : (deps : List Dep) → Answers deps (find_cycle deps)
find_cycle-Answers deps = answer (find_cycle deps) (find_cycle-Ensures deps)
  where
    answer : (v : Visit) → Ensures deps unmarked (keys deps) v → Answers deps v
    answer (found c) w = (w, ClosedWalk-cyclic deps c w)
    answer (clear s) l =
        Ordered-Acyclic deps s.done l.good.ordered (λ n i. l.marked n ((key-source deps n).1 i))
    answer out_of_fuel h = h
