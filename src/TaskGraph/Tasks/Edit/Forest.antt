-- ===== src/TaskGraph/Tasks/Edit/Forest.antt =====
-- src/taskgraph/tasks.ts, update: the tree of containers.
use shreni.Common.{
  ℕ, String, Option, none, some, List, [], ◌∷◌, false, ◌==◌, ==_iff, ◌≡◌, refl, sym, ◌⊎◌, inl, inr,
  In, find-In, find-sat, subst, arith, Option-cases, Bool-cases, is_empty,
}
use shreni.Common.Reach.{Edge, reach, Acyclic, Acyclic-add, Acyclic-fewer}
use shreni.TaskGraph.Types.{Task}
use shreni.TaskGraph.Errors.{ok}
use shreni.TaskGraph.Store.{Store, find_task, In-update_where}
use shreni.TaskGraph.Lifecycle.{Lifecycle}
use shreni.TaskGraph.Client.{ActorHandle}
use shreni.TaskGraph.Ready.{parent_edges}
use shreni.TaskGraph.Tasks.{or_else}
use shreni.TaskGraph.Tasks.Edit.{
  TaskPatch, patched, updated_tasks, changes, check_parent, commit_update, apply, update,
}

-- No task sits under itself, directly or not.
abbrev pub IsForest : Store → Type 0
IsForest s = Acyclic (parent_edges s.tasks)

edge_row :
    (ts : List Task) (a b : String)
    → In (a, b) (parent_edges ts)
    → (x : Task) × In x ts × (x.id ≡ a) × (x.parent_id ≡ some b)
unfolding parent_edges
edge_row [] a b m = absurd (m.0)
edge_row (x ∷ ts) a b m = elim (Option-cases x.parent_id) [
  | inl e ↦ let (y, i, f, g) = edge_row ts a b (ground (arith, e)) in (y, inr i, f, g)
  | inr (q, e) ↦
      let split : ((a ≡ x.id) × (b ≡ q)) ⊎ In (a, b) (parent_edges ts) = ground (arith, e) in
      elim split [
        | inl same ↦ (x, inl refl, ground (arith, same), ground (arith, same, e))
        | inr rest ↦ let (y, i, f, g) = edge_row ts a b rest in (y, inr i, f, g)
      ]
]

row_edge :
    (ts : List Task) (x : Task) (b : String)
    → In x ts
    → x.parent_id ≡ some b
    → In (x.id, b) (parent_edges ts)
unfolding parent_edges
row_edge [] x b m e = absurd (m.0)
row_edge (y ∷ ts) x b m e = elim (Option-cases y.parent_id) [
  | inl f ↦ ground (arith, f, row_edge ts x b)
  | inr (q, f) ↦ ground (arith, f, row_edge ts x b)
]

-- An edge after the edit was there before, or is the one to the new parent.
new_edge :
    (i : String) (p : TaskPatch) (s : Store) (a b : String)
    → In (a, b) (parent_edges (updated_tasks i p s))
    → In (a, b) (parent_edges s.tasks) ⊎ ((p.parent ≡ some (some b)) × (a ≡ i))
new_edge i p s a b m =
    let (x', n, ida, par) = edge_row (updated_tasks i p s) a b m in
    let (x, j, which) = In-update_where (λ t. t.id == i) (patched p s.now) s.tasks x' n in
    elim (Option-cases p.parent) [
      | inl e ↦ inl (ground (arith, which, e, row_edge s.tasks x b j))
      | inr (q, e) ↦ ground (arith, which, e, row_edge s.tasks x b j, ==_iff x.id i)
    ]

-- The checks on the new parent.
apart :
    (lc : Lifecycle) (s : Store) (t : Task) (b : String)
    → check_parent lc s t (some b) ≡ ok tt
    → (reach (parent_edges s.tasks) b t.id ≡ false) ⊎ (t.parent_id ≡ some b)
unfolding check_parent
apart lc s t b h = elim (Option-cases t.parent_id) [
  | inl e ↦ inl (ground (arith, e))
  | inr (q, e) ↦ elim (Bool-cases (q == b)) [
    | inl same ↦ inr (ground (arith, e, ==_iff q b))
    | inr other ↦ inl (ground (arith, e))
  ]
]

only_old :
    (i : String) (p : TaskPatch) (s : Store)
    → ((b : String) → ¬ (p.parent ≡ some (some b)))
    → (e : Edge) → In e (parent_edges (updated_tasks i p s))
    → In e (parent_edges s.tasks)
only_old i p s never (a, b) m = elim (new_edge i p s a b m) [
  | inl h ↦ h
  | inr (e, _) ↦ absurd (never b e)
]

one_more :
    (i : String) (p : TaskPatch) (s : Store) (b : String)
    → p.parent ≡ some (some b)
    → (e : Edge) → In e (parent_edges (updated_tasks i p s))
    → In e ((i, b) ∷ parent_edges s.tasks)
one_more i p s b e (a, c) m = ground (arith, new_edge i p s a c m, e)

edited-IsForest :
    (lc : Lifecycle) (i : String) (p : TaskPatch) (s : Store) (t : Task)
    → find_task s.tasks i ≡ some t
    → check_parent lc s t (or_else p.parent t.parent_id) ≡ ok tt
    → IsForest s
    → Acyclic (parent_edges (updated_tasks i p s))
edited-IsForest lc i p s t found checked v =
    let old = parent_edges s.tasks in
    let new = parent_edges (updated_tasks i p s) in
    elim (Option-cases p.parent) [
      | inl e ↦ Acyclic-fewer old new (only_old i p s (λ b. ground (arith, e))) v
      | inr (none, e) ↦ Acyclic-fewer old new (only_old i p s (λ b. ground (arith, e))) v
      | inr (some b, e) ↦
          let id_of = find-sat (λ x. x.id == i) s.tasks t found in
          let row = find-In (λ x. x.id == i) s.tasks t found in
          elim (apart lc s t b (ground (arith, checked, e))) [
            | inl no_way ↦
                Acyclic-fewer ((i, b) ∷ old) new (one_more i p s b e)
                  (Acyclic-add old i b v (ground (arith, no_way, id_of, ==_iff t.id i)))
            | inr there ↦
                Acyclic-fewer old new
                  (λ x m. ground (
                    arith,
                    one_more i p s b e x m,
                    row_edge s.tasks t b row there,
                    id_of,
                    ==_iff t.id i,
                  ))
                  v
          ]
    ]

-- An edit that is made has passed the checks on the new parent, and writes the patched rows or none.
pub record Edited (me : ActorHandle) (i : String) (p : TaskPatch) (request : Option String)
    (s s' : Store) : Type 0 where
  pub t : Task
  pub found : find_task s.tasks i ≡ some t
  pub checked : check_parent me.client.lifecycle s t (or_else p.parent t.parent_id) ≡ ok tt
  pub store : (s' ≡ s) ⊎ (s' ≡ commit_update me p t request s)

pub update-Edited :
    (me : ActorHandle) (js_length : String → ℕ) (i : String) (p : TaskPatch)
    (request : Option String) (s s' : Store) (a : Task)
    → update me js_length i p request s ≡ ok (s', a)
    → Edited me i p request s s'
unfolding update
update-Edited me js_length i p request s s' a h = elim (Option-cases (find_task s.tasks i)) [
  | inl e ↦ absurd (ground (arith, e))
  | inr (t, e) ↦
      let applied : ok (apply me p t request s) ≡ ok (s', a) = ground (arith, e) in
      record {
        t = t;
        found = e;
        checked = ground (arith, e);
        store = elim (Bool-cases (is_empty (changes t (patched p s.now t)))) [
          | inl same ↦ inl (ground (arith, same, applied))
          | inr other ↦ inr (ground (arith, other, applied))
        ];
      }
]

-- Where no task sits under itself, directly or not, none does after an update of a task that succeeds,
-- whether or not it moves the task under another parent.
pub update-IsForest :
    (me : ActorHandle) (js_length : String → ℕ) (i : String) (p : TaskPatch)
    (request : Option String) (s s' : Store) (a : Task)
    → IsForest s
    → update me js_length i p request s ≡ ok (s', a)
    → IsForest s'
unfolding commit_update
update-IsForest me js_length i p request s s' a v h =
    let d = update-Edited me js_length i p request s s' a h in
    elim d.store [
      | inl same ↦ subst IsForest (sym same) v
      | inr other ↦ subst IsForest (sym other) (
          subst (λ j. Acyclic (parent_edges (updated_tasks j p s)))
            (sym (ground (arith, find-sat (λ x. x.id == i) s.tasks d.t d.found, ==_iff d.t.id i)))
            (edited-IsForest me.client.lifecycle i p s d.t d.found d.checked v))
    ]
