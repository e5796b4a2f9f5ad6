-- ===== src/TaskGraph/Tasks/Keeps.antt =====
-- src/taskgraph/tasks.ts, create: the invariant.
use shreni.Common.{
  any-false, ℕ, zero, suc, ◌+◌, String, Option, none, some, List, [], ◌∷◌, true, false, ◌==◌,
  ==_iff, ==_refl, is_some_of, any, find-In, find-sat, ◌≡◌, refl, sym, ◌⊎◌, inl, inr, In, subst,
  arith, Option-cases,
}
use shreni.TaskGraph.Types.{Task}
use shreni.TaskGraph.Errors.{ok, >>=-parts}
use shreni.TaskGraph.Store.{Store, find_task, In-update_where}
use shreni.TaskGraph.Lifecycle.{Lifecycle, is_terminal}
use shreni.TaskGraph.Client.{ActorHandle}
use shreni.TaskGraph.Containers.{is_child}
use shreni.TaskGraph.Invariant.{IsRegistered, IsSound, Nested, Inv}
use shreni.TaskGraph.Invariant.Updates.{update_where-Inv}
use shreni.TaskGraph.Tasks.{
  file, NewTask, new_row, create, counted, draw, new_id, is_taken, task_by_key, insert_task,
  assert_open,
}
use shreni.TaskGraph.Tasks.Lands.{landing_live, landing_unleased, landing_declared}

-- A task that is created: either the one that has the key, or a new row over the old ones.
pub record Filed (me : ActorHandle) (t : NewTask) (drawn : ℕ → String) (request : Option String)
    (s s' : Store) (a : Task) : Type 0 where
  pub i : String
  pub rows : List Task
  pub made : new_id s drawn t.parent ≡ ok (i, rows)
  pub store : s' ≡ insert_task me s rows (new_row me t s i) request
  pub row : a ≡ new_row me t s i

file-Filed :
    (me : ActorHandle) (t : NewTask) (drawn : ℕ → String) (request : Option String) (s s' : Store)
    (a : Task) (old : Option Task)
    → file me t drawn request s old ≡ ok (s', a)
    → ((s' ≡ s) × (old ≡ some a)) ⊎ Filed me t drawn request s s' a
unfolding file
file-Filed me t drawn request s s' a (some old) h = inl (ground arith, ground arith)
file-Filed me t drawn request s s' a none h =
    let (made, made_ok, rest) =
      >>=-parts {Then = Store × Task} (new_id s drawn t.parent)
        (λ made.
          ok (insert_task me s made.1 (new_row me t s made.0) request, new_row me t s made.0))
        {last = (s', a)} h in
    inr (record {
      i = made.0;
      rows = made.1;
      made = made_ok;
      store = ground (arith, rest);
      row = ground (arith, rest);
    })

pub create-cases :
    (me : ActorHandle) (js_length : String → ℕ) (t : NewTask) (drawn : ℕ → String)
    (request : Option String) (s s' : Store) (a : Task)
    → create me js_length t drawn request s ≡ ok (s', a)
    → (assert_open me.client.lifecycle s t.parent ≡ ok tt)
      × (((s' ≡ s) × (task_by_key s t.key ≡ some a)) ⊎ Filed me t drawn request s s' a)
unfolding create
create-cases me js_length t drawn request s s' a h =
    (ground arith, file-Filed me t drawn request s s' a (task_by_key s t.key) (ground arith))

draw-free :
    (s : Store) (drawn : ℕ → String) (fuel n : ℕ) (i : String)
    → draw s drawn fuel n ≡ ok i
    → is_taken s i ≡ false
unfolding draw
draw-free s drawn zero n i h = absurd (ground arith)
draw-free s drawn (suc fuel) n i h = ground (arith, draw-free s drawn fuel (suc n) i)

-- A new row that is sound and live, under a fresh id and a parent that is open, keeps the invariant.
record Fits (lc : Lifecycle) (s : Store) (x : Task) : Type 0 where
  fresh : is_taken s x.id ≡ false
  sound : IsSound lc x
  live : is_terminal lc x.state ≡ false
  under : (p : Task) → In p s.tasks → is_child p.id x ≡ true → is_terminal lc p.state ≡ false
  bare : is_child x.id x ≡ true → is_terminal lc x.state ≡ false

insert-Inv :
    (lc : Lifecycle) (s s' : Store) (x : Task)
    → Fits lc s x
    → Inv lc s
    → s'.tasks ≡ x ∷ s.tasks
    → Inv lc s'
insert-Inv lc s s' x f v e = record {
  keys = λ a b m n same. keys_of a b (rw e at m) (rw e at n) same;
  rows = λ t m. row_of t (rw e at m);
  nested = λ p k m n. pair_of p k (rw e at m) (rw e at n);
}
  where
    other : (a : Task) → In a s.tasks → (a.id == x.id) ≡ false
    other a m = any-false (λ t. t.id == x.id) s.tasks a f.fresh m

    keys_of : (a b : Task) → In a (x ∷ s.tasks) → In b (x ∷ s.tasks) → a.id ≡ b.id → a ≡ b
    keys_of a b m n same =
        ground (arith, other a, other b, v.keys a b, ==_iff a.id x.id, ==_iff b.id x.id)

    row_of : (t : Task) → In t (x ∷ s.tasks) → IsSound lc t
    row_of t (inl same) = subst (IsSound lc) (sym same) f.sound
    row_of t (inr m) = v.rows t m

    pair_of : (p k : Task) → In p (x ∷ s.tasks) → In k (x ∷ s.tasks) → Nested lc p k
    pair_of p k m n child closed = ground (arith, f.live, f.under p, v.nested p k)

fresh_counted :
    (p i : String) (ts : List Task) → any (λ t. t.id == i) (counted p ts) ≡ any (λ t. t.id == i) ts
fresh_counted p i [] = refl
fresh_counted p i (t ∷ ts) = ground (arith, fresh_counted p i ts)

module _ (lc : Lifecycle) (s : Store) (v : Inv lc s) where
  open_row :
      (p : String) (q : Task)
      → assert_open lc s (some p) ≡ ok tt
      → In q s.tasks
      → (q.id == p) ≡ true
      → is_terminal lc q.state ≡ false
  open_row p q h m e = elim (Option-cases (find_task s.tasks p)) [
    | inl none_found ↦ absurd (ground (arith, none_found))
    | inr (parent, found) ↦ ground (
      arith,
      found,
      v.keys q parent m (find-In (λ t. t.id == p) s.tasks parent found),
      find-sat (λ t. t.id == p) s.tasks parent found,
      ==_iff parent.id p,
      ==_iff q.id p,
    )
  ]

  counted-Inv :
      (p : String)
      → assert_open lc s (some p) ≡ ok tt
      → Inv lc (record s { tasks = counted p s.tasks })
  counted-Inv p h =
      update_where-Inv lc s (λ t. t.id == p) (λ t. record t { next_child = t.next_child + 1 })
        (record {
          ids = λ x. refl;
          parents = λ x. refl;
          live = λ x m e. open_row p x h m e;
          shut = λ x k m e closed. ground (arith, open_row p x h m e);
          sound = λ x m e w. ground arith;
        })
        v (record s { tasks = counted p s.tasks }) refl

record Made (lc : Lifecycle) (s : Store) (parent : Option String) (i : String) (rows : List Task)
    : Type 0 where
  fresh : any (λ t. t.id == i) rows ≡ false
  kept : Inv lc (record s { tasks = rows })
  under : (q : Task) → In q rows → is_some_of parent q.id ≡ true → is_terminal lc q.state ≡ false

new_id-Made :
    (lc : Lifecycle) (s : Store) (drawn : ℕ → String) (parent : Option String) (i : String)
    (rows : List Task)
    → Inv lc s
    → assert_open lc s parent ≡ ok tt
    → new_id s drawn parent ≡ ok (i, rows)
    → Made lc s parent i rows
unfolding new_id
new_id-Made lc s drawn none i rows v open_parent h =
    let (j, found, rest) =
      >>=-parts {Then = String × List Task} (draw s drawn 20 0) (λ k. ok (k, s.tasks))
        {last = (i, rows)} h in
    let same : rows ≡ s.tasks = ground (arith, rest) in
    record {
      fresh = ground (arith, rest, draw-free s drawn 20 0 j found);
      kept = subst (λ (r : List Task). Inv lc (record s { tasks = r })) (sym same) v_rows;
      under = λ q m e. absurd (ground arith);
    }
  where
    v_rows : Inv lc (record s { tasks = s.tasks })
    v_rows = record { keys = v.keys; rows = v.rows; nested = v.nested }
new_id-Made lc s drawn (some p) i rows v open_parent h = elim (Option-cases (find_task s.tasks p)) [
  | inl e ↦ absurd (ground (arith, e))
  | inr (parent, e) ↦
      let same : rows ≡ counted p s.tasks = ground (arith, e) in
      let free : is_taken s i ≡ false = ground (arith, e) in
      record {
        fresh = ground (arith, same, free, fresh_counted p i s.tasks);
        kept =
            subst (λ (r : List Task). Inv lc (record s { tasks = r })) (sym same)
              (counted-Inv lc s v p open_parent);
        under = λ q m f.
            let (x, n, which) =
              In-update_where (λ t. t.id == p) (λ t. record t { next_child = t.next_child + 1 })
                s.tasks q (rw same at m) in
            ground (arith, which, open_row lc s v p x open_parent n, ==_iff p q.id, ==_refl x.id);
      }
]

new_row-Fits :
    (me : ActorHandle) (t : NewTask) (s r : Store) (i : String)
    → IsRegistered me.client.lifecycle
    → Made me.client.lifecycle s t.parent i r.tasks
    → Fits me.client.lifecycle r (new_row me t s i)
new_row-Fits me t s r i reg made = record {
  fresh = made.fresh;
  sound = record {
    leased = landing_unleased me.client.lifecycle reg me.actor.role t.plan;
    expires = refl;
    closed = landing_live me.client.lifecycle reg me.actor.role t.plan;
    declared = landing_declared me.client.lifecycle reg me.actor.role t.plan;
  };
  live = landing_live me.client.lifecycle reg me.actor.role t.plan;
  under = λ p m e. made.under p m e;
  bare = λ e. landing_live me.client.lifecycle reg me.actor.role t.plan;
}

-- Under a lifecycle that registers, creating a task keeps the invariant, whether it files a new row or
-- answers with the task that has the key.
pub create-Inv :
    (me : ActorHandle) (js_length : String → ℕ) (t : NewTask) (drawn : ℕ → String)
    (request : Option String) (s s' : Store) (a : Task)
    → IsRegistered me.client.lifecycle
    → Inv me.client.lifecycle s
    → create me js_length t drawn request s ≡ ok (s', a)
    → Inv me.client.lifecycle s'
create-Inv me js_length t drawn request s s' a r v h =
    let (open_parent, which) = create-cases me js_length t drawn request s s' a h in
    elim which [
      | inl (same, e) ↦ subst (Inv me.client.lifecycle) (sym same) v
      | inr filed ↦
          let made =
            new_id-Made me.client.lifecycle s drawn t.parent filed.i filed.rows v open_parent
              filed.made in
          let base = record s { tasks = filed.rows } in
          insert-Inv me.client.lifecycle base s' (new_row me t s filed.i)
            (new_row-Fits me t s base filed.i r made) made.kept (ground (arith, filed.store))
    ]
