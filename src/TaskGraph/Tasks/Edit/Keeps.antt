-- ===== src/TaskGraph/Tasks/Edit/Keeps.antt =====
-- src/taskgraph/tasks.ts, update: the invariant of the rows.
use shreni.Common.{
  ℕ, String, Option, some, true, false, ◌==◌, ==_iff, ◌≡◌, sym, ◌⊎◌, inl, inr, In, find-In,
  find-sat, subst, arith, Option-cases, Bool-cases,
}
use shreni.TaskGraph.Types.{Task}
use shreni.TaskGraph.Errors.{ok}
use shreni.TaskGraph.Store.{Store, find_task, In-update_where}
use shreni.TaskGraph.Lifecycle.{Lifecycle, is_terminal}
use shreni.TaskGraph.Client.{ActorHandle}
use shreni.TaskGraph.Containers.{is_child}
use shreni.TaskGraph.Invariant.{Nested, Inv}
use shreni.TaskGraph.Tasks.{or_else}
use shreni.TaskGraph.Tasks.Edit.{
  TaskPatch, patched, updated_tasks, check_parent, commit_update, update,
}
use shreni.TaskGraph.Tasks.Edit.Forest.{update-Edited}

-- A new parent is a row, and an open one unless the task is closed.
parent_checked :
    (lc : Lifecycle) (s : Store) (t : Task) (b : String)
    → check_parent lc s t (some b) ≡ ok tt
    → (t.parent_id ≡ some b)
      ⊎ ((q : Task) × (find_task s.tasks b ≡ some q)
          × ((is_terminal lc t.state ≡ true) ⊎ (is_terminal lc q.state ≡ false)))
unfolding check_parent
parent_checked lc s t b h = elim (Option-cases (find_task s.tasks b)) [
  | inl gone ↦ elim (Option-cases t.parent_id) [
    | inl e ↦ absurd (ground (arith, h, e, gone))
    | inr (q, e) ↦ elim (Bool-cases (q == b)) [
      | inl same ↦ inl (ground (arith, e, ==_iff q b))
      | inr other ↦ absurd (ground (arith, h, e, gone, other))
    ]
  ]
  | inr (q, there) ↦ elim (Option-cases t.parent_id) [
    | inl e ↦ inr (q, there, ground (arith, h, e, there, Bool-cases (is_terminal lc t.state)))
    | inr (o, e) ↦ elim (Bool-cases (o == b)) [
      | inl same ↦ inl (ground (arith, e, ==_iff o b))
      | inr other ↦
          inr (q, there, ground (arith, h, e, there, other, Bool-cases (is_terminal lc t.state)))
    ]
  ]
]

module _ (lc : Lifecycle) (p : TaskPatch) (s : Store) (t : Task)
    (found : find_task s.tasks t.id ≡ some t)
    (checked : check_parent lc s t (or_else p.parent t.parent_id) ≡ ok tt) (v : Inv lc s) where
  -- A row after the edit, and the row that it was.
  abbrev From : Task → Task → Type 0
  From x x' =
      (((x.id == t.id) ≡ true) × (x' ≡ patched p s.now x)) ⊎ (((x.id == t.id) ≡ false) × (x' ≡ x))

  row : In t s.tasks
  row = find-In (λ x. x.id == t.id) s.tasks t found

  under :
      (a : Task)
      → In a s.tasks
      → is_child a.id (patched p s.now t) ≡ true
      → is_terminal lc a.state ≡ true
      → is_terminal lc t.state ≡ true
  under a i child closed = elim (Option-cases (or_else p.parent t.parent_id)) [
    | inl e ↦ absurd (ground (arith, child, e))
    | inr (b, e) ↦
        let same : b ≡ a.id = ground (arith, child, e, ==_iff b a.id) in
        elim (parent_checked lc s t b (ground (arith, checked, e))) [
          | inl old ↦ ground (arith, old, same, ==_iff a.id a.id, closed, v.nested a t i row)
          | inr (q, there, opened) ↦
              let q_row = find-In (λ x. x.id == b) s.tasks q there in
              let q_id = find-sat (λ x. x.id == b) s.tasks q there in
              ground (arith, opened, closed, v.keys q a q_row i, ==_iff q.id b, q_id, same)
        ]
  ]

  pair_nested :
      (a b a' b' : Task) → In a s.tasks → In b s.tasks → From a a' → From b b' → Nested lc a' b'
  pair_nested a b a' b' i j ha (inr (n, e)) child closed =
      ground (arith, ha, e, child, closed, v.nested a b i j)
  pair_nested a b a' b' i j ha (inl (n, e)) child closed =
      ground (arith, ha, e, child, closed, under a i, v.keys b t j row, ==_iff b.id t.id)

  edited-Inv : (s' : Store) → s'.tasks ≡ updated_tasks t.id p s → Inv lc s'
  edited-Inv s' e = record {
    keys = λ a' b' m n e'.
        let (a, i, ha) =
          In-update_where (λ x. x.id == t.id) (patched p s.now) s.tasks a' (rw e at m) in
        let (b, j, hb) =
          In-update_where (λ x. x.id == t.id) (patched p s.now) s.tasks b' (rw e at n) in
        ground (arith, ha, hb, e', v.keys a b i j);
    rows = λ x' m.
        let (x, i, h) =
          In-update_where (λ x. x.id == t.id) (patched p s.now) s.tasks x' (rw e at m) in
        let w = v.rows x i in
        record {
          leased = ground (arith, h, w.leased);
          expires = ground (arith, h, w.expires);
          closed = ground (arith, h, w.closed);
          declared = ground (arith, h, w.declared);
        };
    nested = λ a' b' m n.
        let (a, i, ha) =
          In-update_where (λ x. x.id == t.id) (patched p s.now) s.tasks a' (rw e at m) in
        let (b, j, hb) =
          In-update_where (λ x. x.id == t.id) (patched p s.now) s.tasks b' (rw e at n) in
        pair_nested a b a' b' i j ha hb;
  }

-- An update of a task that succeeds keeps the invariant, whatever it changes and wherever it moves it.
pub update-Inv :
    (me : ActorHandle) (js_length : String → ℕ) (i : String) (p : TaskPatch)
    (request : Option String) (s s' : Store) (a : Task)
    → Inv me.client.lifecycle s
    → update me js_length i p request s ≡ ok (s', a)
    → Inv me.client.lifecycle s'
unfolding commit_update
update-Inv me js_length i p request s s' a v h =
    let d = update-Edited me js_length i p request s s' a h in
    let id_of : d.t.id ≡ i = (==_iff d.t.id i).0 (find-sat (λ x. x.id == i) s.tasks d.t d.found) in
    elim d.store [
      | inl same ↦ subst (Inv me.client.lifecycle) (sym same) v
      | inr other ↦
          edited-Inv me.client.lifecycle p s d.t
            (subst (λ j. find_task s.tasks j ≡ some d.t) (sym id_of) d.found) d.checked v s'
            (ground (arith, other))
    ]
