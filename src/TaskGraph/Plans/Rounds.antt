-- ===== src/TaskGraph/Plans/Rounds.antt =====
-- src/taskgraph/plans.ts: the loop over a plan's tasks, round by round.
use shreni.Common.{
  String, none, some, List, [], ◌∷◌, Bool, true, false, ◌&&◌, ◌==◌, ==_iff, ==_refl, includes,
  In-order_by, In-filter, filter-In, In, ◌≡◌, refl, ◌∙◌, ◌⊎◌, inl, inr, subst, arith, Bool-cases,
  Option-cases, ◌↔◌,
}
use shreni.TaskGraph.Types.{Task, Plan, Value}
use shreni.TaskGraph.Errors.{ok, >>=-parts}
use shreni.TaskGraph.Store.{Store, find_task, update_where}
use shreni.TaskGraph.Lifecycle.{Move, Lifecycle}
use shreni.TaskGraph.Client.{ActorHandle, Client}
use shreni.TaskGraph.Containers.{by_created}
use shreni.TaskGraph.Plans.{in_plan_id, snapshot_of, opened_row, move_in_tx, open_one, open_all}
use shreni.TaskGraph.Plans.Opens.{of_ids, updated, row_of, one_more, no_more}

-- The plan's tasks that an approval opens.
abbrev pub proposed : Lifecycle → String → Task → Bool
proposed lc plan t = in_plan_id plan t && (t.state == lc.create_state)

abbrev pub seen : List Task → List String → List String
seen [] ids = ids
seen (t ∷ ts) ids = seen ts (t.id ∷ ids)

pub seen-includes :
    (ts : List Task) (ids : List String) (i : String)
    → (includes ids i ≡ true) ⊎ ((t : Task) × In t ts × (t.id ≡ i))
    → includes (seen ts ids) i ≡ true
seen-includes [] ids i (inl h) = h
seen-includes [] ids i (inr (t, m, e)) = absurd (m.0)
seen-includes (t ∷ ts) ids i (inl h) = seen-includes ts (t.id ∷ ids) i (inl (ground arith))
seen-includes (t ∷ ts) ids i (inr (x, inl m, e)) =
    seen-includes ts (t.id ∷ ids) i (inl (ground (arith, m, e, ==_refl t.id)))
seen-includes (t ∷ ts) ids i (inr (x, inr m, e)) = seen-includes ts (t.id ∷ ids) i (inr (x, m, e))

-- The rows that the moves of an approval leave alone.
pub record Others (s s' : Store) : Type 0 where
  pub deps : s'.deps ≡ s.deps
  pub links : s'.links ≡ s.links
  pub attempts : s'.attempts ≡ s.attempts
  pub plans : s'.plans ≡ s.plans
  pub now : s'.now ≡ s.now

module _ (me : ActorHandle) (m : Move) (payload : List (String × Value)) (plan : String)
    (s₀ : Store) (keys : (a b : Task) → In a s₀.tasks → In b s₀.tasks → a.id ≡ b.id → a ≡ b)
    (from : includes m.from me.client.lifecycle.create_state ≡ true) where
  abbrev pub chosen : Task → Bool
  chosen = proposed me.client.lifecycle plan

  pub record Run (ids : List String) (s : Store) : Type 0 where
    pub tasks :
        s.tasks
        ≡ update_where (of_ids chosen ids) (opened_row me.client.lifecycle m s₀.now) s₀.tasks
    pub others : Others s₀ s

  pub moved :
      (ids : List String) (t y : Task) (s s' : Store)
      → In t s₀.tasks
      → chosen t ≡ true
      → y ≡ updated me.client.lifecycle m s₀.now s₀.tasks chosen keys ids t
      → Run ids s
      → move_in_tx me y m payload none s ≡ ok s'
      → Run (t.id ∷ ids) s'
  unfolding move_in_tx
  moved ids t y s s' i c e r h = record {
    tasks = ground (
      arith,
      h,
      r.tasks,
      r.others,
      one_more me.client.lifecycle m s₀.now s₀.tasks chosen keys ids t y i c e,
    );
    others = ground (arith, h, r.others);
  }

  pub passed_over :
      (ids : List String) (t : Task) (s : Store)
      → In t s₀.tasks
      → (chosen t ≡ false) ⊎ (includes ids t.id ≡ true)
      → Run ids s
      → Run (t.id ∷ ids) s
  passed_over ids t s i h r = record {
    tasks = r.tasks ∙ no_more me.client.lifecycle m s₀.now s₀.tasks chosen keys ids t i h;
    others = r.others;
  }

  -- One round of the loop.
  one_round :
      (ids : List String) (t : Task) (s s' : Store)
      → In t s₀.tasks
      → in_plan_id plan t ≡ true
      → Run ids s
      → open_one me m payload t s ≡ ok s'
      → Run (t.id ∷ ids) s'
  one_round ids t s s' i p r h = elim (Bool-cases (t.state == me.client.lifecycle.create_state)) [
    | inr other ↦
        subst (Run (t.id ∷ ids)) (ground (arith, other))
          (passed_over ids t s i (inl (ground (arith, other))) r)
    | inl here ↦ elim (Option-cases (find_task s.tasks t.id)) [
      | inl e ↦ absurd (ground (arith, e, here))
      | inr (y, e) ↦
          let same =
            row_of me.client.lifecycle m s₀.now s₀.tasks chosen keys ids t y i
              (subst (λ ts. find_task ts t.id ≡ some y) r.tasks e) in
          elim (Bool-cases (includes m.from y.state)) [
            | inl may ↦
                moved ids t y s s' i (ground (arith, p, here)) same r (ground (arith, here, e, may))
            | inr may_not ↦ subst (Run (t.id ∷ ids)) (ground (arith, here, e, may_not)) (
                passed_over ids t s i
                  (inr (
                    ground (
                      arith,
                      same,
                      may_not,
                      from,
                      ==_iff t.state me.client.lifecycle.create_state,
                    )))
                  r)
          ]
    ]
  ]

  pub all_rounds :
      (ts : List Task) (ids : List String) (s s' : Store)
      → ((t : Task) → In t ts → In t s₀.tasks × (in_plan_id plan t ≡ true))
      → Run ids s
      → open_all me m payload ts s ≡ ok s'
      → Run (seen ts ids) s'
  unfolding open_all
  all_rounds [] ids s s' sub r h = subst (Run ids) (ground arith) r
  all_rounds (t ∷ ts) ids s s' sub r h =
      let (s₁, first, rest) =
        >>=-parts {Then = Store} (open_one me m payload t s) (open_all me m payload ts) {last = s'}
          h in
      let (i, p) = sub t (inl refl) in
      all_rounds ts (t.id ∷ ids) s₁ s' (λ x j. sub x (inr j)) (one_round ids t s s₁ i p r first)
        rest

pub untouched :
    (f : Task → Task) (p : Task → Bool) (ts : List Task) → update_where (of_ids p []) f ts ≡ ts
untouched f p [] = refl
untouched f p (t ∷ ts) = ground (arith, untouched f p ts)

-- The rows of a plan's snapshot are the rows filed in the plan.
pub snapshot_row :
    (c : Client) (s : Store) (p : Plan) (t : Task)
    → In t (snapshot_of c s p).tasks ↔ (In t s.tasks × (in_plan_id p.id t ≡ true))
unfolding snapshot_of
snapshot_row c s p t = (
  λ i. In-filter (in_plan_id p.id) s.tasks t ((In-order_by (by_created c) _ t).0 i),
  λ (i, h). (In-order_by (by_created c) _ t).1 (filter-In (in_plan_id p.id) s.tasks t i h),
)
