-- ===== src/TaskGraph/Claims/Grants.antt =====
-- src/taskgraph/claims.ts: what a lease writes, and what its caller is told.
use shreni.Common.{
  ◌+◌, String, none, some, ◌==◌, ==_iff, ◌≡◌, ◌≢◌, refl, List, [], ◌∷◌, ℕ, Bool-cases, inl, inr, In,
  arith, subst, ◌↔◌,
}
use shreni.TaskGraph.Types.{Task}
use shreni.TaskGraph.Store.{Store, find_task, update_where}
use shreni.TaskGraph.Lifecycle.{Move, Lifecycle, leased_state}
use shreni.TaskGraph.Client.{ActorHandle}
use shreni.TaskGraph.Claims.{Claim, ClaimOptions, take, leased_row, lease}

-- The row `x` as its lease leaves it; the lease may clear `boosted`.
abbrev pub Leased : Lifecycle → String → ℕ → ℕ → Task → Task → Type 0
Leased lc attempt expires now x y = y ≡ record x {
  state = leased_state lc;
  boosted = y.boosted;
  lease_attempt_id = some attempt;
  lease_expires_at = some expires;
  updated_at = now;
}

-- What the lease of a row writes, and what the caller is told: `s` is the store before it.
pub record Granted (me : ActorHandle) (opts : ClaimOptions) (attempt : String) (row : Task)
    (s s' : Store) (c : Claim) : Type 0 where
  pub written : find_task s'.tasks row.id ≡ some c.task
  pub leased :
      (x : Task) × In x s.tasks
      × (x.id ≡ row.id)
      × Leased me.client.lifecycle attempt (s.now + opts.lease_ms) s.now x c.task
  pub others : (x : Task) → x.id ≢ row.id → In x s'.tasks ↔ In x s.tasks
  pub attempt_row :
      s'.attempts
      ≡ record {
        id = attempt;
        task_id = row.id;
        worker = opts.worker;
        actor = me.actor.id;
        started_at = s.now;
        ended_at = none;
        outcome = none;
      }
        ∷ s.attempts
  pub told : (c.attempt_id ≡ attempt) × (c.expires_at ≡ some (s.now + opts.lease_ms))

-- An update by id that keeps ids: the row that it leaves, and the rows that it does not touch.
module _ (i : String) (f : Task → Task) (keeps : (x : Task) → (f x).id ≡ x.id) where
  find_task-update :
      (ts : List Task) (t : Task)
      → In t ts
      → t.id ≡ i
      → (x : Task) × In x ts
        × (x.id ≡ i)
        × (find_task (update_where (λ x. x.id == i) f ts) i ≡ some (f x))
  find_task-update [] t m e = absurd (ground arith)
  find_task-update (y ∷ ys) t m e = elim (Bool-cases (y.id == i)) [
    | inl same ↦ (y, inl refl, (==_iff y.id i).0 same, ground (arith, same, keeps y))
    | inr other ↦
        let (x, n, k, found) =
          find_task-update ys t (ground (arith, m, e, other, ==_iff y.id i)) e in
        (x, inr n, k, ground (arith, other, found))
  ]

  In-update_others :
      (ts : List Task) (x : Task) → x.id ≢ i → In x (update_where (λ x. x.id == i) f ts) ↔ In x ts
  In-update_others [] x e = ((λ m. m), λ m. m)
  In-update_others (y ∷ ys) x e =
      let rest = In-update_others ys x e in
      elim (Bool-cases (y.id == i)) [
        | inl same ↦ (
          (λ m. ground (arith, m, same, keeps y, ==_iff y.id i, rest)),
          λ m. ground (arith, m, same, ==_iff y.id i, rest),
        )
        | inr other ↦ ((λ m. ground (arith, m, other, rest)), λ m. ground (arith, m, other, rest))
      ]

-- What the lease of a row writes and answers, under the claim move.
pub lease-Granted :
    (me : ActorHandle) (opts : ClaimOptions) (m : Move) (attempt : String) (t : Task) (s s' : Store)
    (c : Claim)
    → m.to ≡ leased_state me.client.lifecycle
    → In t s.tasks
    → (s', some c) ≡ take me opts m attempt (some t) s
    → Granted me opts attempt t s s' c
unfolding lease leased_row
lease-Granted me opts m attempt t s s' c to i h =
    let expires = s.now + opts.lease_ms in
    let f = leased_row m attempt expires s.now in
    let (x, n, same, found) = find_task-update t.id f (λ x. refl) s.tasks t i refl in
    record {
      written = ground (arith, h, found);
      leased = (x, n, same, ground (arith, h, found, to));
      others = λ y e.
          subst (λ z. In y z.tasks ↔ In y s.tasks) {x = (lease me opts m attempt t s).0} {y = s'}
            (ground (arith, h)) (In-update_others t.id f (λ x. refl) s.tasks y e);
      attempt_row = ground (arith, h);
      told = ground (arith, h, found);
    }
