-- ===== src/TaskGraph/Claims/Keeps.antt =====
-- Claims and heartbeats (src/taskgraph/claims.ts), and the invariant of the rows.
use shreni.Common.{
  ℕ, ◌+◌, ◌≤◌, ◌<◌, String, Option, some, true, false, ◌==◌, ==_iff, ==_refl, ◌≡◌, refl, inl, inr,
  In, In-order_by, In-filter, subst, arith, Option-cases, head_of-In, includes,
}
use shreni.TaskGraph.Types.{Task}
use shreni.TaskGraph.Errors.{ok}
use shreni.TaskGraph.Store.{Store}
use shreni.TaskGraph.Lifecycle.{
  Move, Lifecycle, is_terminal, leased_state, claimable_state, move_named, has_own,
}
use shreni.TaskGraph.Lifecycle.Rules.Registered
use shreni.TaskGraph.Client.{ActorHandle}
use shreni.TaskGraph.Invariant.{IsRegistered, IsSound, Inv}
use shreni.TaskGraph.Invariant.Updates.{Closes, update_where-Inv}
use shreni.TaskGraph.Ready.{filter_where, is_ready, claim_order}
use shreni.TaskGraph.Sweep.{sweep}
use shreni.TaskGraph.Sweep.Keeps.{ReturnsLeases, sweep-Inv}
use shreni.TaskGraph.Claims.{
  Claim, ClaimOptions, next_ready, leased_row, lease, take, claim, heartbeat, holds_lease, renewed,
  max_lease_ms,
}

-- A claim that is answered: the move, the permission, and the outcome on the swept rows.
pub record Answered (me : ActorHandle) (opts : ClaimOptions) (attempt : String) (s s' : Store)
    (o : Option Claim) : Type 0 where
  pub m : Move
  pub named : move_named me.client.lifecycle me.client.lifecycle.hooks.on_claim ≡ some m
  pub permitted : includes m.by me.actor.role ≡ true
  pub lasts : (0 < opts.lease_ms) × (opts.lease_ms ≤ max_lease_ms)
  pub outcome :
      (s', o)
      ≡ take me opts m attempt
          (next_ready me.client opts.filter (sweep me.client s).0)
          (sweep me.client s).0

pub claim-Answered :
    (me : ActorHandle) (opts : ClaimOptions) (attempt : String) (s s' : Store) (o : Option Claim)
    → claim me opts attempt s ≡ ok (s', o)
    → Answered me opts attempt s s' o
unfolding claim
claim-Answered me opts attempt s s' o h =
    elim (Option-cases (move_named me.client.lifecycle me.client.lifecycle.hooks.on_claim)) [
      | inl e ↦ absurd (ground (arith, e))
      | inr (m, e) ↦ record {
        m = m;
        named = e;
        permitted = ground (arith, e);
        lasts = ground (arith, e);
        outcome = ground (arith, e);
      }
    ]

-- The task that a claim takes is a row, is ready and passes the claim's filter.
pub next_ready-picks :
    (me : ActorHandle) (opts : ClaimOptions) (s : Store) (t : Task)
    → next_ready me.client opts.filter s ≡ some t
    → In t s.tasks
      × (is_ready me.client.lifecycle s t ≡ true)
      × (filter_where opts.filter s t ≡ true)
unfolding next_ready
next_ready-picks me opts s t h =
    let (i, e) =
      In-filter _ s.tasks t ((In-order_by (claim_order me.client) _ t).0 (head_of-In _ t h)) in
    (i, ground arith, ground arith)

ready_state :
    (lc : Lifecycle) (s : Store) (t : Task)
    → is_ready lc s t ≡ true
    → (t.state == claimable_state lc) ≡ true
unfolding is_ready
ready_state lc s t h = ground arith

module _ (lc : Lifecycle) (r : IsRegistered lc) (m : Move)
    (named : move_named lc lc.hooks.on_claim ≡ some m) where
  pub claim_to : m.to ≡ leased_state lc
  claim_to = let (k, e, i, h) = Registered.claim_hook lc r.rules in ground (arith, e, named, h)

  claim_declared : has_own lc.states m.to ≡ true
  claim_declared =
      let (k, e, i, h) = Registered.claim_hook lc r.rules in
      ground (arith, e, named, Registered.to_declared lc r.rules k i)

  leased-Closes :
      (s : Store) (t : Task) (attempt : String) (expires : ℕ)
      → In t s.tasks
      → (t.state == claimable_state lc) ≡ true
      → Inv lc s
      → Closes lc s (λ x. x.id == t.id) (leased_row m attempt expires s.now)
  unfolding leased_row
  leased-Closes s t attempt expires i state v = record {
    ids = λ x. refl;
    parents = λ x. refl;
    live = λ x j e. live_row x j e;
    shut = λ x k j e closes. ground (arith, claim_to, Registered.leased_live lc r.rules);
    sound = λ x j e w. ground (
      arith,
      claim_to,
      claim_declared,
      Registered.leased_live lc r.rules,
      live_row x j e,
      ==_refl (leased_state lc),
    );
  }
    where
      live_row : (x : Task) → In x s.tasks → (x.id == t.id) ≡ true → is_terminal lc x.state ≡ false
      live_row x j e = ground (
        arith,
        v.keys x t j i,
        ==_iff x.id t.id,
        ==_iff t.state (claimable_state lc),
        Registered.claimable_live lc r.rules,
      )

  lease-Inv :
      (me : ActorHandle) (opts : ClaimOptions) (attempt : String) (t : Task) (s : Store)
      → In t s.tasks
      → (t.state == claimable_state lc) ≡ true
      → Inv lc s
      → Inv lc (lease me opts m attempt t s).0
  unfolding lease
  lease-Inv me opts attempt t s i state v =
      update_where-Inv lc s (λ x. x.id == t.id) (leased_row m attempt (s.now + opts.lease_ms) s.now)
        (leased-Closes s t attempt (s.now + opts.lease_ms) i state v) v
        (lease me opts m attempt t s).0 refl

-- Under a lifecycle that registers, whose expiry moves are not the claim move, a claim that is
-- answered, with a task or with none, keeps the invariant.
pub claim-Inv :
    (me : ActorHandle) (opts : ClaimOptions) (attempt : String) (s s' : Store) (o : Option Claim)
    → IsRegistered me.client.lifecycle
    → ReturnsLeases me.client.lifecycle
    → Inv me.client.lifecycle s
    → claim me opts attempt s ≡ ok (s', o)
    → Inv me.client.lifecycle s'
claim-Inv me opts attempt s s' o r apart v h =
    let a = claim-Answered me opts attempt s s' o h in
    let swept = (sweep me.client s).0 in
    let w = sweep-Inv me.client s r apart v in
    elim (Option-cases (next_ready me.client opts.filter swept)) [
      | inl idle ↦ subst (Inv me.client.lifecycle) (ground (arith, a.outcome, idle)) w
      | inr (t, picked) ↦
          let (i, ready, f) = next_ready-picks me opts swept t picked in
          subst (Inv me.client.lifecycle) (ground (arith, a.outcome, picked)) (
            lease-Inv me.client.lifecycle r a.m a.named me opts attempt t swept i
              (ready_state me.client.lifecycle swept t ready) w)
    ]

-- A row that a claim holds is in the leased state, so it is live.
held_live :
    (lc : Lifecycle) (c : Claim) (x : Task)
    → IsRegistered lc
    → IsSound lc x
    → holds_lease c x ≡ true
    → is_terminal lc x.state ≡ false
held_live lc c x r v e =
    ground (arith, ==_iff x.state (leased_state lc), Registered.leased_live lc r.rules)

renewed-Closes :
    (lc : Lifecycle) (c : Claim) (expires : ℕ) (s : Store)
    → IsRegistered lc
    → Inv lc s
    → Closes lc s (holds_lease c) (renewed expires)
renewed-Closes lc c expires s r v = record {
  ids = λ x. refl;
  parents = λ x. refl;
  live = λ x i e. held_live lc c x r (v.rows x i) e;
  shut = λ x k i e closes. ground (arith, held_live lc c x r (v.rows x i) e);
  sound = λ x i e w. ground arith;
}

-- Under a lifecycle that registers, a heartbeat that renews a lease keeps the invariant.
pub heartbeat-Inv :
    (me : ActorHandle) (c c' : Claim) (ms : ℕ) (s s' : Store)
    → IsRegistered me.client.lifecycle
    → Inv me.client.lifecycle s
    → heartbeat me c ms s ≡ ok (s', c')
    → Inv me.client.lifecycle s'
unfolding heartbeat
heartbeat-Inv me c c' ms s s' r v h =
    update_where-Inv me.client.lifecycle s (holds_lease c) (renewed (s.now + ms))
      (renewed-Closes me.client.lifecycle c (s.now + ms) s r v) v s' (ground arith)
