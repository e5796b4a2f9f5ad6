-- ===== src/TaskGraph/Plans/Discard/Cancels.antt =====
-- src/taskgraph/plans.ts, discard: what a discard leaves.
use shreni.Common.{
  ℕ, String, Option, none, some, List, [], ◌∷◌, Bool, true, ◌&&◌, ◌==◌, ==_iff, includes, is_none,
  In-filter, filter-In, find-sat, In, ◌≡◌, refl, sym, ◌∙◌, ◌↔◌, inl, inr, subst, arith, Bool-cases,
  Option-cases,
}
use shreni.TaskGraph.Types.{Task, Plan, Dep, Value}
use shreni.TaskGraph.Errors.{ok, ◌>>=◌, >>=-parts}
use shreni.TaskGraph.Store.{Store, find_task, update_where}
use shreni.TaskGraph.Lifecycle.{Move, Lifecycle, move_named}
use shreni.TaskGraph.Lifecycle.Rules.Registered
use shreni.TaskGraph.Client.{ActorHandle, Client}
use shreni.TaskGraph.Invariant.{IsRegistered, Inv}
use shreni.TaskGraph.Plans.{
  in_plan_id, find_plan, snapshot_of, opened_row, move_in_tx, via_payload, close_plan,
}
use shreni.TaskGraph.Plans.Opens.{row_of, update_where-ext}
use shreni.TaskGraph.Plans.Rounds
use shreni.TaskGraph.Plans.Rounds.{proposed, seen, seen-includes, Others, untouched, snapshot_row}
use shreni.TaskGraph.Plans.Discard.{
  cancel_order, cancel_all, cancel_tasks, settle, discarded, discard_event, going_of, left_behind,
  discard,
}
use shreni.TaskGraph.Plans.Discard.Order.{cancel_order-all}

module _ (me : ActorHandle) (m : Move) (payload : List (String × Value)) (plan : String)
    (s₀ : Store) (keys : (a b : Task) → In a s₀.tasks → In b s₀.tasks → a.id ≡ b.id → a ≡ b)
    (from : includes m.from me.client.lifecycle.create_state ≡ true) where
  abbrev Run : List String → Store → Type 0
  Run = Rounds.Run me m payload plan s₀ keys from

  all_cancels :
      (ts : List Task) (ids : List String) (s s' : Store)
      → ((t : Task) → In t ts → In t s₀.tasks × (proposed me.client.lifecycle plan t ≡ true))
      → Run ids s
      → cancel_all me m payload ts s ≡ ok s'
      → Run (seen ts ids) s'
  unfolding cancel_all
  all_cancels [] ids s s' sub r h = subst (Run ids) (ground arith) r
  all_cancels (t ∷ ts) ids s s' sub r h = elim (Option-cases (find_task s.tasks t.id)) [
    | inl e ↦ absurd (ground (arith, e))
    | inr (y, e) ↦
        let (i, c) = sub t (inl refl) in
        let (s₁, first, rest) =
          >>=-parts {Then = Store} (move_in_tx me y m payload none s) (cancel_all me m payload ts)
            {last = s'} (ground (arith, e)) in
        all_cancels ts (t.id ∷ ids) s₁ s' (λ x j. sub x (inr j))
          (Rounds.moved me m payload plan s₀ keys from ids t y s s₁ i c
            (row_of me.client.lifecycle m s₀.now s₀.tasks (proposed me.client.lifecycle plan) keys
              ids t y i (subst (λ ts. find_task ts t.id ≡ some y) r.tasks e))
            r first)
          rest
  ]

-- What a discard that succeeds has found, and what it leaves.
pub record Discarded (me : ActorHandle) (plan : String) (s s' : Store) : Type 0 where
  pub p : Plan
  pub open_plan : (find_plan s plan ≡ some p) × (p.approved_at ≡ none) × (p.discarded_at ≡ none)
  pub m : Move
  pub hook : move_named me.client.lifecycle me.client.lifecycle.hooks.on_discard ≡ some m
  pub permitted : includes m.by me.actor.role ≡ true
  pub left :
      left_behind me.client.lifecycle s
        (going_of me.client.lifecycle m (snapshot_of me.client s p).tasks)
      ≡ []
  pub tasks :
      s'.tasks
      ≡ update_where
          (proposed me.client.lifecycle plan)
          (opened_row me.client.lifecycle m s.now)
          s.tasks
  pub plans : s'.plans ≡ update_where (λ (q : Plan). q.id == plan) (discarded me s.now) s.plans
  pub kept : (s'.deps ≡ s.deps) × (s'.links ≡ s.links) × (s'.attempts ≡ s.attempts)

-- The parts of a discard that succeeds.
record Parts (me : ActorHandle) (by_locale : String → String → Bool) (plan via : String)
    (request : Option String) (s s' : Store) : Type 0 where
  m : Move
  hook : move_named me.client.lifecycle me.client.lifecycle.hooks.on_discard ≡ some m
  permitted : includes m.by me.actor.role ≡ true
  p : Plan
  found : find_plan s plan ≡ some p
  open_plan : (p.approved_at ≡ none) × (p.discarded_at ≡ none)
  left :
      left_behind me.client.lifecycle s
        (going_of me.client.lifecycle m (snapshot_of me.client s p).tasks)
      ≡ []
  done :
      cancel_tasks me by_locale m plan via request
        (going_of me.client.lifecycle m (snapshot_of me.client s p).tasks)
        (snapshot_of me.client s p).deps
        s
      ≡ ok s'

no_time : (o : Option ℕ) → is_none o ≡ true → o ≡ none
no_time none h = refl
no_time (some t) h = absurd (ground arith)

discard-Parts :
    (me : ActorHandle) (by_locale : String → String → Bool) (plan via : String)
    (request : Option String) (s s' : Store)
    → discard me by_locale plan via request s ≡ ok s'
    → Parts me by_locale plan via request s s'
unfolding discard
discard-Parts me by_locale plan via request s s' h =
    elim (Option-cases (move_named me.client.lifecycle me.client.lifecycle.hooks.on_discard)) [
      | inl e ↦ absurd (ground (arith, e))
      | inr (m, e) ↦ elim (Option-cases (find_plan s plan)) [
        | inl f ↦ absurd (ground (arith, e, f))
        | inr (p, f) ↦ record {
          m = m;
          hook = e;
          permitted = ground (arith, e, f);
          p = p;
          found = f;
          open_plan = (
            no_time p.approved_at (ground (arith, e, f)),
            no_time p.discarded_at (ground (arith, e, f)),
          );
          left = ground (arith, e, f);
          done = ground (arith, e, f);
        }
      ]
    ]

-- The tasks that go are the plan's proposed tasks.
pub going_iff :
    (lc : Lifecycle) (c : Client) (m : Move) (plan : String) (s : Store) (p : Plan) (t : Task)
    → p.id ≡ plan
    → includes m.from lc.create_state ≡ true
    → In t (going_of lc m (snapshot_of c s p).tasks) ↔ (In t s.tasks × (proposed lc plan t ≡ true))
going_iff lc c m plan s p t e from = (
  λ i.
      let (j, h) = In-filter (λ x. (x.state == lc.create_state) && includes m.from x.state) _ t i in
      let (k, f) = (snapshot_row c s p t).0 j in
      (k, ground (arith, h, subst (λ q. in_plan_id q t ≡ true) e f)),
  λ (k, h).
      filter-In (λ x. (x.state == lc.create_state) && includes m.from x.state) _ t
        ((snapshot_row c s p t).1
          (k, subst (λ q. in_plan_id q t ≡ true) (sym e) (ground (arith, h))))
        (ground (arith, h, from, ==_iff t.state lc.create_state)),
)

-- The writes of a discard: the order is found, and its tasks are cancelled one by one.
record Writes (me : ActorHandle) (by_locale : String → String → Bool) (m : Move) (plan via : String)
    (going : List Task) (deps : List Dep) (s s' : Store) : Type 0 where
  ts : List Task
  order : cancel_order by_locale going deps ≡ ok ts
  s₁ : Store
  moves : cancel_all me m (via_payload via plan) ts s ≡ ok s₁
  tasks : s'.tasks ≡ s₁.tasks
  plans : s'.plans ≡ update_where (λ (q : Plan). q.id == plan) (discarded me s.now) s₁.plans
  kept : (s'.deps ≡ s₁.deps) × (s'.links ≡ s₁.links) × (s'.attempts ≡ s₁.attempts)

cancel_tasks-Writes :
    (me : ActorHandle) (by_locale : String → String → Bool) (m : Move) (plan via : String)
    (request : Option String) (going : List Task) (deps : List Dep) (s s' : Store)
    → cancel_tasks me by_locale m plan via request going deps s ≡ ok s'
    → Writes me by_locale m plan via going deps s s'
unfolding cancel_tasks
cancel_tasks-Writes me by_locale m plan via request going deps s s' h =
    let last_write : Store → Store = λ s₁.
      close_plan (settle me m going s₁) plan (discarded me s.now)
        (discard_event me plan via going request s) in
    let (ts, order, rest) =
      >>=-parts {Then = Store} (cancel_order by_locale going deps)
        (λ ts. cancel_all me m (via_payload via plan) ts s >>= (λ s₁. ok (last_write s₁)))
        {last = s'} h in
    let (s₁, moves, last) =
      >>=-parts {Then = Store} (cancel_all me m (via_payload via plan) ts s)
        (λ s₁. ok (last_write s₁)) {last = s'} rest in
    record {
      ts = ts;
      order = order;
      s₁ = s₁;
      moves = moves;
      tasks = ground (arith, last);
      plans = ground (arith, last);
      kept = ground (arith, last);
    }

-- Under a lifecycle that registers and on rows that satisfy the invariant, a discard that succeeds has
-- found the plan neither approved nor discarded, nobody left behind, the discarding move, and a role
-- that it permits; and all that it changes of the rows is one update: every proposed task of the plan
-- is cancelled, the plan's row is marked discarded, and the other tasks, the dependencies, links and
-- attempts stay.
pub discard-Discarded :
    (me : ActorHandle) (by_locale : String → String → Bool) (plan via : String)
    (request : Option String) (s s' : Store)
    → IsRegistered me.client.lifecycle
    → Inv me.client.lifecycle s
    → discard me by_locale plan via request s ≡ ok s'
    → Discarded me plan s s'
discard-Discarded me by_locale plan via request s s' r v h =
    let d = discard-Parts me by_locale plan via request s s' h in
    let lc = me.client.lifecycle in
    let id_of : d.p.id ≡ plan =
      (==_iff d.p.id plan).0 (find-sat (λ (q : Plan). q.id == plan) s.plans d.p d.found) in
    let (a, named, i, (to, takes)) = Registered.discard_hook lc r.rules in
    let from : includes d.m.from lc.create_state ≡ true = ground (arith, named, d.hook, takes) in
    let going = going_of lc d.m (snapshot_of me.client s d.p).tasks in
    let deps = (snapshot_of me.client s d.p).deps in
    let w = cancel_tasks-Writes me by_locale d.m plan via request going deps s s' d.done in
    let (ts, order, sub, all_in) = cancel_order-all by_locale going deps in
    let same : w.ts ≡ ts = ground (arith, w.order, order) in
    let run =
      all_cancels me d.m (via_payload via plan) plan s v.keys from ts [] s w.s₁
        (λ t j. (going_iff lc me.client d.m plan s d.p t id_of from).0 (sub t j))
        (record {
          tasks = sym (untouched (opened_row lc d.m s.now) (proposed lc plan) s.tasks);
          others = record { deps = refl; links = refl; attempts = refl; plans = refl; now = refl };
        })
        (subst (λ ts. cancel_all me d.m (via_payload via plan) ts s ≡ ok w.s₁) same w.moves) in
    record {
      p = d.p;
      open_plan = (d.found, d.open_plan.0, d.open_plan.1);
      m = d.m;
      hook = d.hook;
      permitted = d.permitted;
      left = d.left;
      tasks =
          w.tasks
          ∙ run.tasks
          ∙ update_where-ext _ (proposed lc plan) (opened_row lc d.m s.now) s.tasks (λ t j.
            elim (Bool-cases (proposed lc plan t)) [
              | inr out ↦ ground (arith, out)
              | inl is_in ↦ ground (
                arith,
                is_in,
                seen-includes ts [] t.id (
                    inr (
                      all_in t
                        ((going_iff lc me.client d.m plan s d.p t id_of from).1 (j, is_in)))),
              )
            ]);
      plans = ground (arith, w.plans, run.others);
      kept = ground (arith, w.kept, run.others);
    }
