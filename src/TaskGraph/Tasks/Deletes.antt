-- ===== src/TaskGraph/Tasks/Deletes.antt =====
-- src/taskgraph/tasks.ts, delete: the rows that it leaves.
use shreni.Common.{
  any-false, String, Option, some, false, not, ◌||◌, ◌==◌, ==_iff, any, ◌≡◌, ◌≢◌, sym, inl, inr, In,
  In-filter, subst, arith, Option-cases,
}
use shreni.TaskGraph.Types.{Task, Dep, Link}
use shreni.TaskGraph.Errors.{ok}
use shreni.TaskGraph.Store.{Store, find_task}
use shreni.TaskGraph.Client.{ActorHandle}
use shreni.TaskGraph.Containers.{is_child, lock_with_parent}
use shreni.TaskGraph.Invariant.{Inv}
use shreni.TaskGraph.Tasks.{delete, removed, without}

-- A row that is deleted had no child and no attempt.
pub record Deleted (me : ActorHandle) (i : String) (request : Option String) (s s' : Store)
    : Type 0 where
  pub t : Task
  pub found : find_task s.tasks i ≡ some t
  pub childless : any (is_child i) s.tasks ≡ false
  pub store : s' ≡ removed me t i request s

pub delete-Deleted :
    (me : ActorHandle) (i : String) (request : Option String) (s s' : Store)
    → delete me i request s ≡ ok s'
    → Deleted me i request s s'
unfolding delete lock_with_parent
delete-Deleted me i request s s' h = elim (Option-cases (find_task s.tasks i)) [
  | inl e ↦ absurd (ground (arith, e))
  | inr (t, e) ↦ record {
    t = t;
    found = e;
    childless = ground (arith, e);
    store = ground (arith, e);
  }
]

-- Deleting a task keeps the invariant.
pub delete-Inv :
    (me : ActorHandle) (i : String) (request : Option String) (s s' : Store)
    → Inv me.client.lifecycle s
    → delete me i request s ≡ ok s'
    → Inv me.client.lifecycle s'
unfolding removed without
delete-Inv me i request s s' v h =
    let d = delete-Deleted me i request s s' h in
    let kept = λ (t : Task). not (t.id == i) in
    subst (Inv me.client.lifecycle) (sym d.store) (record {
      keys = λ a b m n. v.keys a b (In-filter kept s.tasks a m).0 (In-filter kept s.tasks b n).0;
      rows = λ t m. v.rows t (In-filter kept s.tasks t m).0;
      nested =
          λ p k m n. v.nested p k (In-filter kept s.tasks p m).0 (In-filter kept s.tasks k n).0;
    })

-- What is left names the task nowhere.
pub record Forgotten (i : String) (s : Store) : Type 0 where
  pub no_row : (t : Task) → In t s.tasks → t.id ≢ i
  pub no_child : (t : Task) → In t s.tasks → is_child i t ≡ false
  pub no_dep : (d : Dep) → In d s.deps → (d.task_id ≢ i) × (d.depends_on_id ≢ i)
  pub no_link : (l : Link) → In l s.links → (l.a ≢ i) × (l.b ≢ i)

-- After a task is deleted, no row has its id, no row sits under it, and no dependency or link names it
-- at either end.
pub delete-Forgotten :
    (me : ActorHandle) (i : String) (request : Option String) (s s' : Store)
    → delete me i request s ≡ ok s'
    → Forgotten i s'
unfolding removed without
delete-Forgotten me i request s s' h =
    let d = delete-Deleted me i request s s' h in
    subst (Forgotten i) (sym d.store) (record {
      no_row = λ t m e. ground (arith, In-filter (λ x. not (x.id == i)) s.tasks t m, ==_iff t.id i);
      no_child = λ t m.
          any-false (is_child i) s.tasks t d.childless
            (In-filter (λ x. not (x.id == i)) s.tasks t m).0;
      no_dep = λ x m.
          let kept =
            (In-filter (λ y. not ((y.task_id == i) || (y.depends_on_id == i))) s.deps x m).1 in
          (
            λ e. ground (arith, kept, ==_iff x.task_id i),
            λ e. ground (arith, kept, ==_iff x.depends_on_id i),
          );
      no_link = λ x m.
          let kept = (In-filter (λ (y : Link). not ((y.a == i) || (y.b == i))) s.links x m).1 in
          (λ e. ground (arith, kept, ==_iff x.a i), λ e. ground (arith, kept, ==_iff x.b i));
    })
