-- ===== src/TaskGraph/Validators/Cycle.antt =====
-- src/taskgraph/validators.ts, findCycle: a depth-first search of the dependencies. The nodes marked
-- open are those of the path, so the path stands for both; it is kept newest first.
pub mod Search
pub mod Finds
use shreni.Common.{
  ℕ, zero, suc, String, List, [], ◌∷◌, Bool, true, false, not, ◌||◌, ◌==◌, map, filter, includes,
  order_by, text_lt, length, if◌then◌else◌,
}
use shreni.TaskGraph.Types.{Dep}

pub record Marks : Type 0 where
  pub path : List String
  pub done : List String

pub data Visit : Type 0 where
  found : List String → Visit
  clear : Marks → Visit
  out_of_fuel : Visit

-- `out.get(n) ?? []`.
unfoldable pub targets : List Dep → String → List String
targets deps n = map (λ d. d.depends_on_id) (filter (λ d. d.task_id == n) deps)

-- The keys of `out`, each once.
abbrev pub distinct : List String → List String
distinct [] = []
distinct (x ∷ xs) = let rest = distinct xs in if includes rest x then rest else x ∷ rest

abbrev pub text_le : String → String → Bool
text_le a b = not (text_lt b a)

unfoldable pub keys : List Dep → List String
keys deps = order_by text_le (distinct (map (λ d. d.task_id) deps))

-- `[...path.slice(path.indexOf(m)), m]`, from the end of the path back to `m`.
abbrev pub from_open : String → List String → List String → List String
from_open m [] acc = acc
from_open m (p ∷ path) acc =
    let rest = from_open m path (p ∷ acc) in if p == m then p ∷ acc else rest

abbrev pub next : Visit → (Marks → Visit) → Visit
next (found c) k = found c
next (clear s) k = k s
next out_of_fuel k = out_of_fuel

-- The loop over the targets of the node on top of the path.
unfoldable pub each_target : (String → Marks → Visit) → List String → Marks → Visit
each_target go [] s = clear s
each_target go (m ∷ ms) s =
    if includes s.path m
    then found (from_open m s.path (m ∷ []))
    else next (if includes s.done m then clear s else go m s) (each_target go ms)

abbrev pub pop : List String → List String
pop [] = []
pop (n ∷ path) = path

-- `path.pop(); state.set(n, 'done')`.
abbrev pub leave : String → Marks → Visit
leave n s = clear (record { path = pop s.path; done = n ∷ s.done })

unfoldable pub visit : List Dep → ℕ → String → Marks → Visit
visit deps zero n s = out_of_fuel
visit deps (suc fuel) n s =
    next (each_target (visit deps fuel) (targets deps n) (record s { path = n ∷ s.path })) (leave n)

-- The loop over the sorted keys; a node with a mark is not visited again.
unfoldable pub each_root : (String → Marks → Visit) → List String → Marks → Visit
each_root go [] s = clear s
each_root go (n ∷ ns) s =
    next (if includes s.path n || includes s.done n then clear s else go n s) (each_root go ns)

-- Every id that a dependency names; a path holds each at most once.
abbrev pub nodes : List Dep → List String
nodes [] = []
nodes (d ∷ deps) = d.task_id ∷ d.depends_on_id ∷ nodes deps

abbrev pub unmarked : Marks
unmarked = record { path = []; done = [] }

unfoldable pub find_cycle : List Dep → Visit
unfolding each_root visit each_target targets keys
find_cycle deps = each_root (visit deps (suc (length (nodes deps)))) (keys deps) unmarked
