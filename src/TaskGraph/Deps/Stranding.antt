-- ===== src/TaskGraph/Deps/Stranding.antt =====
-- Dependents of work that ended without satisfying them (src/taskgraph/moves.ts and deps.ts).
use shreni.Common.{
  String, Option, List, [], ◌∷◌, Bool, true, false, not, ◌&&◌, ◌==◌, ==_iff, ◌≡◌, refl, sym, ◌⊎◌,
  inl, inr, In, map-In, filter-In, In-order_by, includes, includes-In, subst, arith, Bool-cases,
  find-In, find-sat, some, Option-cases,
}
use shreni.TaskGraph.Types.{Dep, Task}
use shreni.TaskGraph.Errors.{ok}
use shreni.TaskGraph.Store.{Store, find_task, In-update_where}
use shreni.TaskGraph.Lifecycle.{Lifecycle, is_terminal, satisfies}
use shreni.TaskGraph.Lifecycle.Rules.Facts.{terminal_states_iff}
use shreni.TaskGraph.Client.{Client, ActorHandle}
use shreni.TaskGraph.Containers.{waits_on, is_live, live_dependents, by_id}
use shreni.TaskGraph.Invariant.{IsRegistered, Inv}
use shreni.TaskGraph.Moves.{MoveOptions, Checked, drop_edges, moved_row, commit_move, move}
use shreni.TaskGraph.Moves.Checks.{Passed, move-Moved}
use shreni.TaskGraph.Moves.Keeps.{from_live, task_id}
use shreni.TaskGraph.Deps.{insert_dep, add_dep}

-- A state that ends a task and satisfies nothing.
abbrev pub is_dead : Lifecycle → String → Bool
is_dead lc s = is_terminal lc s && not (satisfies lc s)

abbrev pub NoneStranded : Lifecycle → Store → Type 0
NoneStranded lc s =
    (a b : Task)
    → In a s.tasks
    → In b s.tasks
    → waits_on s.deps a.id b.id ≡ true
    → is_dead lc b.state ≡ true
    → is_terminal lc a.state ≡ true

kept_edges :
    (on : String) (dropped : List String) (deps : List Dep) (a b : String)
    → waits_on (drop_edges on dropped deps) a b ≡ true
    → waits_on deps a b ≡ true
kept_edges on dropped [] a b h = h
kept_edges on dropped (d ∷ deps) a b h = ground (arith, kept_edges on dropped deps a b)

dropped_edges :
    (on : String) (dropped : List String) (deps : List Dep) (w : String)
    → includes dropped w ≡ true
    → waits_on (drop_edges on dropped deps) w on ≡ false
dropped_edges on dropped [] w h = refl
dropped_edges on dropped (d ∷ deps) w h =
    ground (arith, dropped_edges on dropped deps w h, ==_iff d.task_id w)

live_dependents-In :
    (c : Client) (s : Store) (i : String) (a : Task)
    → IsRegistered c.lifecycle
    → In a s.tasks
    → waits_on s.deps a.id i ≡ true
    → is_terminal c.lifecycle a.state ≡ false
    → includes (live_dependents c s i) a.id ≡ true
unfolding live_dependents
live_dependents-In c s i a r m w live = includes-In (live_dependents c s i) a.id (
    map-In (λ t. t.id) _ a
      ((In-order_by (by_id c) _ a).1 (
        filter-In (λ t. waits_on s.deps t.id i && is_live c.lifecycle t) s.tasks a m
          (ground (arith, terminal_states_iff c.lifecycle a.state r.keys)))))

module _ (me : ActorHandle) (s : Store) (r : IsRegistered me.client.lifecycle) (i name : String)
    (opts : MoveOptions) (fence : Option String) (c : Checked)
    (passed : Passed me s i name opts fence c) (none : NoneStranded me.client.lifecycle s) where
  abbrev touches : Task → Bool
  touches t = (t.id == c.task.id) && (t.state == c.task.state)

  abbrev From : Task → Task → Type 0
  From x x' =
      ((touches x ≡ true) × (x' ≡ moved_row me.client.lifecycle c.def s.now x))
      ⊎ ((touches x ≡ false) × (x' ≡ x))

  -- Some row was dead already, or the move closes the task that the other row waits on: then the
  -- other row is closed, or its edge is dropped.
  pair :
      (a b a' b' : Task)
      → In a s.tasks
      → In b s.tasks
      → From a a'
      → From b b'
      → waits_on (drop_edges c.task.id c.dropped s.deps) a'.id b'.id ≡ true
      → is_dead me.client.lifecycle b'.state ≡ true
      → is_terminal me.client.lifecycle a'.state ≡ true
  unfolding moved_row
  pair a b a' b' ia ib ha hb w dead = ground (
    arith,
    kept_edges c.task.id c.dropped s.deps a.id b.id,
    dropped_edges c.task.id c.dropped s.deps a.id,
    live_dependents-In me.client s i a r ia,
    none a b ia ib,
    passed.unwaited,
    from_live me s r i name opts fence c passed,
    ==_iff b.id c.task.id,
    ==_iff a.state c.task.state,
    task_id me s r i name opts fence c passed,
  )

  commit_move-NoneStranded : NoneStranded me.client.lifecycle (commit_move me s c opts)
  unfolding commit_move moved_row
  commit_move-NoneStranded a' b' m n w dead =
      let f = moved_row me.client.lifecycle c.def s.now in
      let (a, ia, ha) = In-update_where touches f s.tasks a' m in
      let (b, ib, hb) = In-update_where touches f s.tasks b' n in pair a b a' b' ia ib ha hb w dead

-- Under a lifecycle that registers, where no live task waits on a task in a terminal state that
-- satisfies nothing, none does after a move that succeeds.
pub move-NoneStranded :
    (me : ActorHandle) (i name : String) (opts : MoveOptions) (fence : Option String) (s s' : Store)
    (t : Task)
    → IsRegistered me.client.lifecycle
    → NoneStranded me.client.lifecycle s
    → move me i name opts fence s ≡ ok (s', t)
    → NoneStranded me.client.lifecycle s'
move-NoneStranded me i name opts fence s s' t r v h =
    let d = move-Moved me i name opts fence s s' t h in
    subst (NoneStranded me.client.lifecycle) (sym d.store)
      (commit_move-NoneStranded me s r i name opts fence d.c d.passed v)

-- What a dependency that is added has passed, of the task waited on.
target_satisfies :
    (me : ActorHandle) (i on : String) (request : Option String) (s s' : Store)
    → add_dep me i on request s ≡ ok s'
    → (target : Task) × (find_task s.tasks on ≡ some target)
      × (is_dead me.client.lifecycle target.state ≡ false)
      × (s' ≡ insert_dep me i on request s)
unfolding add_dep
target_satisfies me i on request s s' h = elim (Option-cases (find_task s.tasks on)) [
  | inl e ↦ absurd (ground (arith, e))
  | inr (t, e) ↦ (t, e, ground (arith, e), ground (arith, e))
]

insert_dep-NoneStranded :
    (me : ActorHandle) (i on : String) (request : Option String) (s : Store) (target : Task)
    → Inv me.client.lifecycle s
    → NoneStranded me.client.lifecycle s
    → find_task s.tasks on ≡ some target
    → is_dead me.client.lifecycle target.state ≡ false
    → NoneStranded me.client.lifecycle (insert_dep me i on request s)
insert_dep-NoneStranded me i on request s target v none found apart =
    elim (Bool-cases (waits_on s.deps i on)) [
      | inl old ↦ rw old none
      | inr new ↦ rw new (λ a b m n w dead. ground (
        arith,
        none a b m n,
        apart,
        v.keys b target n (find-In (λ t. t.id == on) s.tasks target found),
        find-sat (λ t. t.id == on) s.tasks target found,
        ==_iff target.id on,
        ==_iff on b.id,
      ))
    ]

-- Where the invariant holds and no live task waits on a task in a terminal state that satisfies
-- nothing, none does after a dependency is added.
pub add_dep-NoneStranded :
    (me : ActorHandle) (i on : String) (request : Option String) (s s' : Store)
    → Inv me.client.lifecycle s
    → NoneStranded me.client.lifecycle s
    → add_dep me i on request s ≡ ok s'
    → NoneStranded me.client.lifecycle s'
add_dep-NoneStranded me i on request s s' v none h =
    let (target, found, apart, e) = target_satisfies me i on request s s' h in
    subst (NoneStranded me.client.lifecycle) (sym e)
      (insert_dep-NoneStranded me i on request s target v none found apart)
