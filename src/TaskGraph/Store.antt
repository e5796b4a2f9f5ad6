-- ===== src/TaskGraph/Store.antt =====
-- One project's rows in the database, and the row operations that the engine's SQL statements make.
-- A transaction maps a store to a new one or to an error; on an error nothing is written, as a
-- transaction that throws rolls back. Rows are locked until commit, so transactions on the same
-- rows follow one another, and the model runs them one after another.
use shreni.Common.{
  ℕ, String, ◌≡◌, refl, ◌⊎◌, inl, inr, Bool, true, false, Option, List, [], ◌∷◌, ◌++◌, map, arith,
  ◌==◌, if◌then◌else◌, find, In,
}
use shreni.TaskGraph.Types.{Task, Plan, Attempt, Dep, Link, Event, StateFlags}

-- Rows of Shreni's own tables, which its guards read: shreni.attempt_evidence, with the two gates
-- that the guards look at, and shreni.acceptance_checks.
pub record Evidence : Type 0 where
  pub attempt_id : String
  pub pr_url : Option String
  pub acceptance_passed : Bool
  pub landed : Bool

pub record AcceptanceCheck : Type 0 where
  pub task_id : String
  pub is_manual : Bool

pub record Store : Type 0 where
  pub tasks : List Task
  pub deps : List Dep
  pub links : List Link
  pub attempts : List Attempt
  pub plans : List Plan
  pub events : List Event
  -- taskgraph.now(), the database's clock.
  pub now : ℕ
  -- The migrations that have run on the database.
  pub migrations : List String
  -- The project's row: its active lifecycle, and the states that this lifecycle is stored with.
  pub lifecycle_name : String
  pub lifecycle_version : ℕ
  pub active_states : List (String × StateFlags)
  pub evidence : List Evidence
  pub acceptance_checks : List AcceptanceCheck

-- `select … where id = …`.
abbrev pub find_task : List Task → String → Option Task
find_task ts i = find (λ t. t.id == i) ts

-- `update taskgraph.tasks set … where …`.
abbrev pub update_where {ℓ} : {A : Type ℓ} → (A → Bool) → (A → A) → List A → List A
update_where p f xs = map (λ x. if p x then f x else x) xs

-- `emit`: the runner writes a transaction's events last, in order, after its other writes.
abbrev pub emit : Store → Event → Store
emit s e = record s { events = s.events ++ e ∷ [] }

pub In-update_where :
    {A : Type 0} (p : A → Bool) (f : A → A) (xs : List A) (b : A)
    → In b (update_where p f xs)
    → (a : A) × In a xs × (((p a ≡ true) × (b ≡ f a)) ⊎ ((p a ≡ false) × (b ≡ a)))
In-update_where p f [] b m = absurd (ground arith)
In-update_where p f (x ∷ xs) b (inl e) = (x, inl refl, ground arith)
In-update_where p f (x ∷ xs) b (inr m) = let (a, n, h) = In-update_where p f xs b m in (a, inr n, h)
