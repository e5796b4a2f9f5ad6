-- ===== src/TaskGraph/Claims/Picks.antt =====
-- Which task a claim takes (src/taskgraph/claims.ts and ready.ts).
use shreni.Common.{
  String, Option, none, some, Bool, true, ◌&&◌, ◌≡◌, inl, inr, In, In-order_by, filter-In,
  head_of-none, order_by-min, IsTotal, IsTransitive, arith, subst, Option-cases, filter_nil, filter,
  ◌↔◌, order_by_nil,
}
use shreni.TaskGraph.Types.{Task}
use shreni.TaskGraph.Errors.{ok}
use shreni.TaskGraph.Store.{Store}
use shreni.TaskGraph.Lifecycle.{Lifecycle}
use shreni.TaskGraph.Client.{Client, ActorHandle}
use shreni.TaskGraph.Ready.{TaskFilter, filter_where, is_ready, claim_order}
use shreni.TaskGraph.Ready.Meaning.{IsReady, is_ready-IsReady_iff}
use shreni.TaskGraph.Ready.Order.{Fits, filter_where-Fits_iff, Before, claim_order-Before}
use shreni.TaskGraph.Sweep.{sweep}
use shreni.TaskGraph.Invariant.{IsRegistered}
use shreni.TaskGraph.Claims.{Claim, ClaimOptions, take, next_ready, claim}
use shreni.TaskGraph.Claims.Grants.{Granted, lease-Granted}
use shreni.TaskGraph.Claims.Keeps.{claim-Answered, next_ready-picks, claim_to}

-- Claim order is total and transitive where the collation of ids is.
claim_order-IsTotal : (c : Client) → IsTotal c.collates → IsTotal (claim_order c)
unfolding claim_order
claim_order-IsTotal c total a b = ground (arith, total a.id b.id)

claim_order-IsTransitive : (c : Client) → IsTransitive c.collates → IsTransitive (claim_order c)
unfolding claim_order
claim_order-IsTransitive c trans x y z h k = ground (arith, trans x.id y.id z.id)

abbrev fits : Lifecycle → TaskFilter → Store → Task → Bool
fits lc f s t = filter_where f s t && is_ready lc s t

-- A task that may be claimed: it passes the filter and is ready.
abbrev pub Claimable : Lifecycle → TaskFilter → Store → Task → Type 0
Claimable lc f s t = In t s.tasks × ((filter_where f s t && is_ready lc s t) ≡ true)

-- A row that a claim may take: it fits the filter and is ready.
abbrev pub IsEligible : Lifecycle → TaskFilter → Store → Task → Type 0
IsEligible lc f s t = In t s.tasks × Fits f s t × IsReady lc s t

-- A claim that took a task: which row it was, and what was written. Lapsed leases are returned first.
pub record Picked (me : ActorHandle) (opts : ClaimOptions) (attempt : String) (s s' : Store)
    (c : Claim) : Type 0 where
  pub row : Task
  pub eligible : IsEligible me.client.lifecycle opts.filter (sweep me.client s).0 row
  pub first :
      (other : Task)
      → IsEligible me.client.lifecycle opts.filter (sweep me.client s).0 other
      → Before me.client row other
  pub granted : Granted me opts attempt row (sweep me.client s).0 s' c

next_ready-first :
    (c : Client) (f : TaskFilter) (s : Store) (t other : Task)
    → IsTotal c.collates
    → IsTransitive c.collates
    → next_ready c f s ≡ some t
    → Claimable c.lifecycle f s other
    → claim_order c t other ≡ true
unfolding next_ready
next_ready-first c f s t other total trans h (i, e) =
    order_by-min (claim_order c) (filter (fits c.lifecycle f s) s.tasks) t
      (claim_order-IsTotal c total) (claim_order-IsTransitive c trans) h other
      ((In-order_by (claim_order c) _ other).1 (filter-In (fits c.lifecycle f s) s.tasks other i e))

module _ (me : ActorHandle) (opts : ClaimOptions) (s : Store) (t : Task) where
  IsEligible-Claimable_iff :
      IsEligible me.client.lifecycle opts.filter s t ↔ Claimable me.client.lifecycle opts.filter s t
  IsEligible-Claimable_iff =
      let fits_it = filter_where-Fits_iff opts.filter s t in
      let ready = is_ready-IsReady_iff me.client.lifecycle s t in
      (
        (λ (i, f, r). (i, ground (arith, fits_it.1 f, ready.1 r))),
        λ (i, e). (i, fits_it.0 (ground arith), ready.0 (ground arith)),
      )

-- Under a lifecycle that registers, with ids that collate in a total, transitive order, a claim
-- answered with a task has leased a row of the store that the sweep of lapsed leases left: one that
-- fits every field of the filter, and is ready: work in the claimable state, not held past now, whose
-- dependencies are all in a satisfying state, as are those of every container above it, which is
-- claimable too. It stands first among such rows: boosted before not, then by lower priority, then by
-- age, then by id. In the store that the claim leaves, the first row of that id is the answered task,
-- and is an old row of that id with only its state, boost, lease and update time changed, now in the
-- leased state under the new attempt, with an expiry as long after now as the lease asked for; rows of
-- other ids are as before; and the attempt is added, for that task, worker and actor. The answer has
-- this attempt and this expiry.
pub claim-Picked :
    (me : ActorHandle) (opts : ClaimOptions) (attempt : String) (s s' : Store) (c : Claim)
    → IsRegistered me.client.lifecycle
    → IsTotal me.client.collates
    → IsTransitive me.client.collates
    → claim me opts attempt s ≡ ok (s', some c)
    → Picked me opts attempt s s' c
claim-Picked me opts attempt s s' c r total trans h =
    let a = claim-Answered me opts attempt s s' (some c) h in
    let swept = (sweep me.client s).0 in
    elim (Option-cases (next_ready me.client opts.filter swept)) [
      | inl idle ↦ absurd (ground (arith, a.outcome, idle))
      | inr (t, picked) ↦
          let (i, ready, f) = next_ready-picks me opts swept t picked in
          record {
            row = t;
            eligible = (IsEligible-Claimable_iff me opts swept t).1 (i, ground arith);
            first = λ other e. claim_order-Before me.client t other (
                next_ready-first me.client opts.filter swept t other total trans picked
                  ((IsEligible-Claimable_iff me opts swept other).0 e));
            granted =
                lease-Granted me opts a.m attempt t swept s' c
                  (claim_to me.client.lifecycle r a.m a.named) i
                  (subst (λ o. (s', some c) ≡ take me opts a.m attempt o swept) picked a.outcome);
          }
    ]

next_ready-none :
    (c : Client) (f : TaskFilter) (s : Store) (t : Task)
    → next_ready c f s ≡ none
    → ¬ Claimable c.lifecycle f s t
unfolding next_ready
next_ready-none c f s t h (i, e) = ground (
  arith,
  filter_nil (fits c.lifecycle f s) s.tasks t (order_by_nil (claim_order c) _ (head_of-none _ h)) i,
  e,
)

-- A claim that succeeds is answered with no task exactly when, once lapsed leases are returned, no row
-- passes its filter and is ready.
pub claim-none_iff :
    (me : ActorHandle) (opts : ClaimOptions) (attempt : String) (s s' : Store) (o : Option Claim)
    → claim me opts attempt s ≡ ok (s', o)
    → (o ≡ none)
      ↔ ((t : Task) → ¬ Claimable me.client.lifecycle opts.filter (sweep me.client s).0 t)
claim-none_iff me opts attempt s s' o h =
    let a = claim-Answered me opts attempt s s' o h in
    let swept = (sweep me.client s).0 in
    elim (Option-cases (next_ready me.client opts.filter swept)) [
      | inl idle ↦ (
        λ _ t. next_ready-none me.client opts.filter swept t idle,
        λ _. ground (arith, a.outcome, idle),
      )
      | inr (t, picked) ↦
          let (i, ready, f) = next_ready-picks me opts swept t picked in
          (
            λ none_given. absurd (ground (arith, a.outcome, picked)),
            λ none_ready. absurd (none_ready t (i, ground arith)),
          )
    ]
