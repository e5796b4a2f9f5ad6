-- ===== src/TaskGraph/System.antt =====
-- src/taskgraph: the operations of the engine on one project, as the steps of one system.
pub mod Reached
pub mod Edges
use shreni.Common.{ℕ, String, Option, List, some, Bool, ◌≡◌, ◌≤◌, ◌==◌, false}
use shreni.TaskGraph.Types.{Task, Actor}
use shreni.TaskGraph.Errors.{Finding, ok}
use shreni.TaskGraph.Store.{Store, find_task}
use shreni.TaskGraph.Lifecycle.{leased_state}
use shreni.TaskGraph.Client.{Client, ActorHandle}
use shreni.TaskGraph.Moves.{MoveOptions, move}
use shreni.TaskGraph.Sweep.{expire_leases}
use shreni.TaskGraph.Claims.{Claim, ClaimOptions, claim, heartbeat}
use shreni.TaskGraph.Deps.{add_dep, remove_dep, add_link, add_note}
use shreni.TaskGraph.Tasks.{NewTask, create, delete}
use shreni.TaskGraph.Tasks.Edit.{TaskPatch, update}
use shreni.TaskGraph.Types.{Plan}
use shreni.TaskGraph.Plans.{create_plan, approve, approve_task}
use shreni.TaskGraph.Plans.Discard.{discard}

abbrev pub handle : Client → Actor → ActorHandle
handle c who = record { client = c; actor = who }

-- A transaction that commits, by any actor; or time that passes. A lone task is approved only where it
-- is not leased, which the trigger on leases enforces (0002_triggers.ts).
pub data Step (c : Client) (s s' : Store) : Type 0 where
  creates :
      (who : Actor) (js_length : String → ℕ) (t : NewTask) (drawn : ℕ → String)
      (request : Option String) (a : Task)
      → create (handle c who) js_length t drawn request s ≡ ok (s', a)
      → Step c s s'
  updates :
      (who : Actor) (js_length : String → ℕ) (i : String) (p : TaskPatch) (request : Option String)
      (a : Task)
      → update (handle c who) js_length i p request s ≡ ok (s', a)
      → Step c s s'
  deletes :
      (who : Actor) (i : String) (request : Option String)
      → delete (handle c who) i request s ≡ ok s'
      → Step c s s'
  moves :
      (who : Actor) (i name : String) (opts : MoveOptions) (fence : Option String) (t : Task)
      → move (handle c who) i name opts fence s ≡ ok (s', t)
      → Step c s s'
  claims :
      (who : Actor) (opts : ClaimOptions) (attempt : String) (o : Option Claim)
      → claim (handle c who) opts attempt s ≡ ok (s', o)
      → Step c s s'
  beats :
      (who : Actor) (claimed claimed' : Claim) (ms : ℕ)
      → heartbeat (handle c who) claimed ms s ≡ ok (s', claimed')
      → Step c s s'
  expires : (n : ℕ) → expire_leases c s ≡ ok (s', n) → Step c s s'
  adds_dep :
      (who : Actor) (i on : String) (request : Option String)
      → add_dep (handle c who) i on request s ≡ ok s'
      → Step c s s'
  removes_dep :
      (who : Actor) (i on : String) (request : Option String)
      → remove_dep (handle c who) i on request s ≡ ok s'
      → Step c s s'
  adds_link :
      (who : Actor) (a b kind : String) (request : Option String)
      → add_link (handle c who) a b kind request s ≡ ok s'
      → Step c s s'
  adds_note :
      (who : Actor) (i words : String) (request : Option String)
      → add_note (handle c who) i words request s ≡ ok s'
      → Step c s s'
  plans :
      (who : Actor) (title meta : String) (drawn : ℕ → String) (request : Option String) (p : Plan)
      → create_plan (handle c who) title meta drawn request s ≡ ok (s', p)
      → Step c s s'
  approves :
      (who : Actor) (i via : String) (request : Option String) (fs : List Finding)
      → approve (handle c who) i via request s ≡ ok (s', fs)
      → Step c s s'
  discards :
      (who : Actor) (by_locale : String → String → Bool) (i via : String) (request : Option String)
      → discard (handle c who) by_locale i via request s ≡ ok s'
      → Step c s s'
  approves_task :
      (who : Actor) (i via : String) (request : Option String) (t : Task)
      → find_task s.tasks i ≡ some t
      → (t.state == leased_state c.lifecycle) ≡ false
      → approve_task (handle c who) i via request s ≡ ok s'
      → Step c s s'
  waits : (now : ℕ) → s.now ≤ now → s' ≡ record s { now = now } → Step c s s'

-- Any number of steps.
pub data Steps (c : Client) : Store → Store → Type 0 where
  done : {s : Store} → Steps c s s
  next : {s t u : Store} → Step c s t → Steps c t u → Steps c s u
