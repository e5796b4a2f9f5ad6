-- ===== src/TaskGraph/Moves/Checks.antt =====
-- The checks of movesApi (src/taskgraph/moves.ts), as a record of what each one asks.
use shreni.Common.{
  String, Option, none, some, [], true, false, ◌||◌, ◌==◌, is_empty, includes, ◌≡◌, In, find-In,
  find-sat, arith,
}
use shreni.TaskGraph.Types.{Task}
use shreni.TaskGraph.Errors.{ok, >>=-parts}
use shreni.TaskGraph.Store.{Store, find_task}
use shreni.TaskGraph.Lifecycle.{is_terminal, move_named}
use shreni.TaskGraph.Client.{ActorHandle, assert_version}
use shreni.TaskGraph.Containers.{lock_with_parent, live_children, live_dependents}
use shreni.TaskGraph.Moves.{
  MoveOptions, Checked, holds, refusal, strands, check_move, moved_row, commit_move, move,
}

pub record Passed (me : ActorHandle) (s : Store) (i name : String) (opts : MoveOptions)
    (fence : Option String) (c : Checked) : Type 0 where
  pub named : move_named me.client.lifecycle name ≡ some c.def
  pub not_claim : (name == me.client.lifecycle.hooks.on_claim) ≡ false
  pub loaded : find_task s.tasks i ≡ some c.task
  pub current : assert_version me s ≡ ok tt
  pub held : holds fence c.task ≡ true
  pub permitted : includes c.def.by me.actor.role ≡ true
  pub from : includes c.def.from c.task.state ≡ true
  pub childless : is_terminal me.client.lifecycle c.def.to ≡ true → live_children me.client s i ≡ []
  pub unwaited :
      strands me.client.lifecycle c.def ≡ true
      → (c.dropped ≡ live_dependents me.client s i)
        × ((is_empty c.dropped || opts.drop_deps) ≡ true)
  pub kept : strands me.client.lifecycle c.def ≡ false → c.dropped ≡ []
  pub guarded : refusal c.def.guard c.task me.actor s ≡ none

pub check_move-Passed :
    (me : ActorHandle) (s : Store) (i name : String) (opts : MoveOptions) (fence : Option String)
    (c : Checked)
    → check_move me s i name opts fence ≡ ok c
    → Passed me s i name opts fence c
unfolding check_move lock_with_parent
check_move-Passed me s i name opts fence c h = ground arith

-- A move that is made has passed every check, and writes what `commit_move` says.
pub record Moved (me : ActorHandle) (i name : String) (opts : MoveOptions) (fence : Option String)
    (s s' : Store) (t : Task) : Type 0 where
  pub c : Checked
  pub passed : Passed me s i name opts fence c
  pub store : s' ≡ commit_move me s c opts
  pub row : t ≡ moved_row me.client.lifecycle c.def s.now c.task

pub move-Moved :
    (me : ActorHandle) (i name : String) (opts : MoveOptions) (fence : Option String) (s s' : Store)
    (t : Task)
    → move me i name opts fence s ≡ ok (s', t)
    → Moved me i name opts fence s s' t
unfolding move
move-Moved me i name opts fence s s' t h =
    let (c, checked, done) = >>=-parts (check_move me s i name opts fence) _ h in
    record {
      c = c;
      passed = check_move-Passed me s i name opts fence c checked;
      store = ground (arith, done);
      row = ground (arith, done);
    }

-- The row of that id is the task that was loaded, and the only one.
pub loaded_row :
    (me : ActorHandle) (s : Store) (i name : String) (opts : MoveOptions) (fence : Option String)
    (c : Checked)
    → Passed me s i name opts fence c
    → In c.task s.tasks × ((c.task.id == i) ≡ true)
loaded_row me s i name opts fence c passed = (
  find-In (λ t. t.id == i) s.tasks c.task passed.loaded,
  find-sat (λ t. t.id == i) s.tasks c.task passed.loaded,
)
