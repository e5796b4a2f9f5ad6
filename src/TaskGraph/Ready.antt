-- ===== src/TaskGraph/Ready.antt =====
-- src/taskgraph/ready.ts: what a claim may pick and in which order; filterWhere of reads.ts.
pub mod Meaning
pub mod Order
use shreni.Common.{
  ℕ, String, Option, none, some, List, [], ◌∷◌, Bool, true, false, not, ◌&&◌, ◌||◌, ◌==◌, eqb, ltb,
  leb, is_some_of, any, all, includes, if◌then◌else◌,
}
use shreni.Common.Reach.{Edge, reach}
use shreni.TaskGraph.Types.{Task, Kind, Origin, is_container, kind_eq}
use shreni.TaskGraph.Store.{Store}
use shreni.TaskGraph.Lifecycle.{Lifecycle, flagged, claimable_state}
use shreni.TaskGraph.Client.{Client}
use shreni.TaskGraph.Containers.{is_child, by_created}

unfoldable pub satisfying_states : Lifecycle → List String
satisfying_states lc = flagged (λ f. f.satisfies_deps) lc.states

-- Whether the task `who` waits on work in a state that does not satisfy it.
unfoldable pub waits : Lifecycle → Store → String → Bool
waits lc s who =
    any
      (λ d.
        (d.task_id == who)
        && any (λ t. (t.id == d.depends_on_id) && not (includes (satisfying_states lc) t.state))
            s.tasks)
      s.deps

-- The edge from each task to the task it sits under.
abbrev pub parent_edge : String → Option String → List Edge → List Edge
parent_edge i none es = es
parent_edge i (some p) es = (i, p) ∷ es

unfoldable pub parent_edges : List Task → List Edge
parent_edges [] = []
parent_edges (t ∷ ts) = parent_edge t.id t.parent_id (parent_edges ts)

-- The recursive query `up`: the parent and all that stands above it.
abbrev pub is_above : Store → Option String → String → Bool
is_above s none p = false
is_above s (some q) p = reach (parent_edges s.tasks) q p

abbrev pub is_held : Option ℕ → ℕ → Bool
is_held none now = false
is_held (some h) now = not (leb h now)

-- A container above may not stop the task: it is claimable and waits on nothing.
abbrev pub lets_through : Lifecycle → Store → Task → Task → Bool
lets_through lc s t p =
    not (is_above s t.parent_id p.id) || ((p.state == claimable_state lc) && not (waits lc s p.id))

unfoldable pub is_ready : Lifecycle → Store → Task → Bool
is_ready lc s t =
    (t.state == claimable_state lc)
    && not (is_container t.kind)
    && not (is_held t.hold_until s.now)
    && not (waits lc s t.id)
    && all (lets_through lc s t) s.tasks

-- `boosted desc, priority, created_at, id`.
abbrev by_priority : Client → Task → Task → Bool
by_priority c a b =
    if eqb a.priority b.priority then by_created c a b else ltb a.priority b.priority

abbrev pub bool_eq : Bool → Bool → Bool
bool_eq true b = b
bool_eq false b = not b

unfoldable pub claim_order : Client → Task → Task → Bool
claim_order c a b = if bool_eq a.boosted b.boosted then by_priority c a b else a.boosted

-- reads.ts, TaskFilter: every field narrows; none means all. `orderBy` and `limit` are ignored here.
pub record TaskFilter : Type 0 where
  pub states : Option (List String)
  pub kind : Option Kind
  pub ids : Option (List String)
  pub key : Option String
  pub parent : Option String
  pub within : Option String
  pub plan : Option String
  pub origin : Option (List Origin)
  pub tags : Option (List String)

abbrev pub origin_eq : Origin → Origin → Bool
origin_eq Origin.plan Origin.plan = true
origin_eq Origin.manual Origin.manual = true
origin_eq Origin.system Origin.system = true
origin_eq Origin.agent Origin.agent = true
origin_eq Origin.imported Origin.imported = true
origin_eq _ _ = false

abbrev pub narrows {ℓ} : {A : Type ℓ} → Option A → (A → Bool) → Bool
narrows none test = true
narrows (some a) test = test a

-- The recursive query `down`: every task below, at any depth, is one whose parent is `top` or below it.
abbrev pub is_below : Store → String → Task → Bool
is_below s top t = is_above s t.parent_id top

unfoldable pub filter_where : TaskFilter → Store → Task → Bool
filter_where f s t =
    narrows f.states (λ ss. includes ss t.state)
    && narrows f.kind (λ k. kind_eq t.kind k)
    && narrows f.ids (λ is. includes is t.id)
    && narrows f.key (λ k. is_some_of t.key k)
    && narrows f.parent (λ p. is_child p t)
    && narrows f.within (λ w. is_below s w t)
    && narrows f.plan (λ p. is_some_of t.plan_id p)
    && narrows f.origin (λ os. any (origin_eq t.origin) os)
    && narrows f.tags (λ ts. all (includes t.tags) ts)
