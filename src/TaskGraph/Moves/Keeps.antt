-- ===== src/TaskGraph/Moves/Keeps.antt =====
-- Moves (src/taskgraph/moves.ts), and the invariant of the rows.
use shreni.Common.{
  ℕ, String, Option, [], Bool, true, false, ◌&&◌, ◌==◌, ==_iff, ◌≡◌, refl, sym, In, map_nil,
  filter_nil, order_by_nil, In-includes, find-In, find-sat, subst, arith,
}
use shreni.TaskGraph.Types.{Task}
use shreni.TaskGraph.Errors.{ok}
use shreni.TaskGraph.Store.{Store}
use shreni.TaskGraph.Lifecycle.{Move, Lifecycle, is_terminal, leased_state, move_named}
use shreni.TaskGraph.Lifecycle.Rules.Registered
use shreni.TaskGraph.Lifecycle.Rules.Facts.{terminal_states_iff}
use shreni.TaskGraph.Client.{Client, ActorHandle}
use shreni.TaskGraph.Containers.{is_child, live_children, by_id}
use shreni.TaskGraph.Invariant.Updates.{Closes, update_where-Inv}
use shreni.TaskGraph.Invariant.{IsRegistered, IsSound, Inv}
use shreni.TaskGraph.Moves.{MoveOptions, Checked, moved_row, commit_move, move}
use shreni.TaskGraph.Moves.Checks.{Passed, move-Moved}

-- A task with no live children has only closed ones.
pub live_children_nil :
    (c : Client) (s : Store) (p : String) (k : Task)
    → IsRegistered c.lifecycle
    → live_children c s p ≡ []
    → In k s.tasks
    → is_child p k ≡ true
    → is_terminal c.lifecycle k.state ≡ true
unfolding live_children
live_children_nil c s p k r h m e = ground (
  arith,
  filter_nil _ s.tasks k (order_by_nil (by_id c) _ (map_nil _ _ h)) m,
  terminal_states_iff c.lifecycle k.state r.keys,
)

module _ (lc : Lifecycle) (r : IsRegistered lc) where
  -- The state that a move other than the claim lands in holds no lease.
  pub to_unleased :
      (m : Move)
      → In m lc.moves
      → (m.name == lc.hooks.on_claim) ≡ false
      → (m.to == leased_state lc) ≡ false
  to_unleased m i n =
      ground (arith, Registered.to-leased lc r.rules m i, ==_iff m.name lc.hooks.on_claim)

  -- The row that a move writes is sound.
  pub moved_row-IsSound :
      (m : Move) (now : ℕ) (t : Task)
      → In m lc.moves
      → (m.name == lc.hooks.on_claim) ≡ false
      → is_terminal lc t.state ≡ false
      → IsSound lc t
      → IsSound lc (moved_row lc m now t)
  unfolding moved_row
  moved_row-IsSound m now t i n live v =
      ground (arith, to_unleased m i n, Registered.to_declared lc r.rules m i)

module _ (me : ActorHandle) (s : Store) (r : IsRegistered me.client.lifecycle) (i name : String)
    (opts : MoveOptions) (fence : Option String) (c : Checked)
    (passed : Passed me s i name opts fence c) where
  abbrev touched : Task → Bool
  touched t = (t.id == c.task.id) && (t.state == c.task.state)

  def_In : In c.def me.client.lifecycle.moves
  unfolding move_named
  def_In = find-In _ me.client.lifecycle.moves c.def passed.named

  def_name : (c.def.name == me.client.lifecycle.hooks.on_claim) ≡ false
  unfolding move_named
  def_name = ground (
    arith,
    passed,
    find-sat (λ m. m.name == name) me.client.lifecycle.moves c.def passed.named,
    ==_iff c.def.name name,
  )

  pub from_live : is_terminal me.client.lifecycle c.task.state ≡ false
  from_live =
      Registered.from-terminal me.client.lifecycle r.rules c.def c.task.state def_In
        (In-includes c.def.from c.task.state passed.from)

  pub task_id : c.task.id ≡ i
  task_id =
      ground (arith, find-sat (λ t. t.id == i) s.tasks c.task passed.loaded, ==_iff c.task.id i)

  moved-Closes : Closes me.client.lifecycle s touched (moved_row me.client.lifecycle c.def s.now)
  unfolding moved_row
  moved-Closes = record {
    ids = λ t. refl;
    parents = λ t. refl;
    live = λ t m e. ground (arith, from_live, ==_iff t.state c.task.state);
    shut = λ t k m e closes n child.
        live_children_nil me.client s i k r (passed.childless closes) n
          (ground (arith, ==_iff t.id c.task.id, task_id));
    sound = λ t m e v.
        moved_row-IsSound me.client.lifecycle r c.def s.now t def_In def_name
          (ground (arith, from_live, ==_iff t.state c.task.state)) v;
  }

  commit_move-Inv : Inv me.client.lifecycle s → Inv me.client.lifecycle (commit_move me s c opts)
  unfolding commit_move
  commit_move-Inv v =
      update_where-Inv me.client.lifecycle s touched (moved_row me.client.lifecycle c.def s.now)
        moved-Closes v (commit_move me s c opts) refl

-- Under a lifecycle that registers, a move that succeeds keeps the invariant: ids stay distinct; a
-- task has a lease, with an expiry, exactly while it is in the leased state; it has a closing time
-- exactly while it is in a terminal state; every state is declared; and a container in a terminal
-- state has no live child.
pub move-Inv :
    (me : ActorHandle) (i name : String) (opts : MoveOptions) (fence : Option String) (s s' : Store)
    (t : Task)
    → IsRegistered me.client.lifecycle
    → Inv me.client.lifecycle s
    → move me i name opts fence s ≡ ok (s', t)
    → Inv me.client.lifecycle s'
move-Inv me i name opts fence s s' t r v h =
    let d = move-Moved me i name opts fence s s' t h in
    subst (Inv me.client.lifecycle) (sym d.store)
      (commit_move-Inv me s r i name opts fence d.c d.passed v)
