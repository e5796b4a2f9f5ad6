-- ===== src/TaskGraph/Claims/Fencing.antt =====
-- Fencing: the calls that carry a claim (src/taskgraph/claims.ts) once its lease is gone.
use shreni.Common.{
  ℕ, String, Option, some, true, ◌&&◌, ◌==◌, ==_iff, ==_refl, sym, ◌≡◌, ◌≢◌, inl, inr, In, find-In,
  find-sat, find, subst, arith, Option-cases,
}
use shreni.TaskGraph.Types.{Task}
use shreni.TaskGraph.Errors.{ok}
use shreni.TaskGraph.Store.{Store, In-update_where}
use shreni.TaskGraph.Client.{ActorHandle}
use shreni.TaskGraph.Invariant.{IsRegistered, Inv}
use shreni.TaskGraph.Moves.{MoveOptions, moved_row, commit_move, move}
use shreni.TaskGraph.Moves.Checks.{move-Moved, loaded_row}
use shreni.TaskGraph.Sweep.{expired_row, sweep}
use shreni.TaskGraph.Sweep.Keeps.{ReturnsLeases, Unleased, sweep-frees}
use shreni.TaskGraph.Claims.{Claim, holds_lease, heartbeat, move_claimed}

-- Every call that carries the claim is refused.
pub record Fenced (me : ActorHandle) (c : Claim) (s : Store) : Type 0 where
  pub no_renewal : (ms : ℕ) (r : Store × Claim) → heartbeat me c ms s ≢ ok r
  pub no_move :
      (name : String) (opts : MoveOptions) (r : Store × Task) → move_claimed me c name opts s ≢ ok r

no_heartbeat :
    (me : ActorHandle) (c : Claim) (s : Store) (ms : ℕ) (r : Store × Claim)
    → Unleased c.task.id s.tasks
    → heartbeat me c ms s ≢ ok r
unfolding heartbeat
no_heartbeat me c s ms r free h = elim (Option-cases (find (holds_lease c) s.tasks)) [
  | inl e ↦ ground (arith, e)
  | inr (t, e) ↦
      ground
        (arith, find-sat (holds_lease c) s.tasks t e, free t (find-In (holds_lease c) s.tasks t e))
]

no_move_claimed :
    (me : ActorHandle) (c : Claim) (s : Store) (name : String) (opts : MoveOptions)
    (r : Store × Task)
    → Unleased c.task.id s.tasks
    → move_claimed me c name opts s ≢ ok r
unfolding move_claimed
no_move_claimed me c s name opts (s', t) free h =
    let d = move-Moved me c.task.id name opts (some c.attempt_id) s s' t h in
    let (i, e) = loaded_row me s c.task.id name opts (some c.attempt_id) d.c d.passed in
    ground (arith, d.passed.held, e, free d.c.task i)

Unleased-Fenced :
    (me : ActorHandle) (c : Claim) (s : Store) → Unleased c.task.id s.tasks → Fenced me c s
Unleased-Fenced me c s free = record {
  no_renewal = λ ms r. no_heartbeat me c s ms r free;
  no_move = λ name opts r. no_move_claimed me c s name opts r free;
}

-- Under a lifecycle that registers, whose expiry moves are not the claim move, once the sweep has run
-- over a row whose lease has lapsed, no claim on that task from before can renew the lease or move the
-- task.
pub sweep-Fenced :
    (me : ActorHandle) (s : Store) (t : Task) (c : Claim)
    → IsRegistered me.client.lifecycle
    → ReturnsLeases me.client.lifecycle
    → In t s.tasks
    → expired_row me.client.lifecycle s t ≡ true
    → c.task.id ≡ t.id
    → Fenced me c (sweep me.client s).0
sweep-Fenced me s t c r apart i e same = Unleased-Fenced me c (sweep me.client s).0 (
    subst (λ j. Unleased j (sweep me.client s).0.tasks) (ground (arith, same))
      (sweep-frees me.client s t r apart i e))

moved-Unleased :
    (me : ActorHandle) (i name : String) (opts : MoveOptions) (fence : Option String) (s s' : Store)
    (t : Task)
    → Inv me.client.lifecycle s
    → move me i name opts fence s ≡ ok (s', t)
    → Unleased i s'.tasks
unfolding commit_move moved_row
moved-Unleased me i name opts fence s s' t v h =
    let d = move-Moved me i name opts fence s s' t h in
    let (m, e) = loaded_row me s i name opts fence d.c d.passed in
    subst (λ (q : Store). Unleased i q.tasks) (sym d.store)
      (λ x j f.
        let (y, n, which) =
          In-update_where (λ z. (z.id == d.c.task.id) && (z.state == d.c.task.state))
            (moved_row me.client.lifecycle d.c.def s.now) s.tasks x j in
        ground (
          arith,
          which,
          v.keys y d.c.task n m,
          ==_iff y.id i,
          ==_iff d.c.task.id i,
          ==_refl d.c.task.id,
          ==_refl d.c.task.state,
        ))

-- Where the invariant holds, after a move of a task succeeds, by whatever actor, no claim on that task
-- from before can renew the lease or move the task.
pub move-Fenced :
    (me other : ActorHandle) (i name : String) (opts : MoveOptions) (fence : Option String)
    (s s' : Store) (t : Task) (c : Claim)
    → Inv other.client.lifecycle s
    → move other i name opts fence s ≡ ok (s', t)
    → c.task.id ≡ i
    → Fenced me c s'
move-Fenced me other i name opts fence s s' t c v h same = Unleased-Fenced me c s' (
    subst (λ j. Unleased j s'.tasks) (ground (arith, same))
      (moved-Unleased other i name opts fence s s' t v h))
