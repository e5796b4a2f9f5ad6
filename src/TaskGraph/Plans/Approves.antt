-- ===== src/TaskGraph/Plans/Approves.antt =====
-- src/taskgraph/plans.ts, approve: what an approval leaves.
use shreni.Common.{
  ℕ, String, Option, none, some, List, [], true, false, not, ◌==◌, ==_iff, any, includes, is_none,
  find-sat, In, ◌≡◌, refl, sym, ◌∙◌, inl, inr, subst, arith, Bool-cases, Option-cases, length,
}
use shreni.TaskGraph.Types.{Task, Plan}
use shreni.TaskGraph.Errors.{require, ◌>>◌, validation_error, Finding, ok, >>=-parts}
use shreni.TaskGraph.Store.{Store, update_where}
use shreni.TaskGraph.Lifecycle.{Move, Lifecycle, move_named, claimable_state}
use shreni.TaskGraph.Lifecycle.Rules.Registered
use shreni.TaskGraph.Lifecycle.Rules.Landing
use shreni.TaskGraph.Client.{ActorHandle}
use shreni.TaskGraph.Invariant.{IsRegistered, Inv}
use shreni.TaskGraph.Invariant.Updates.{Closes, update_where-Inv}
use shreni.TaskGraph.Validators.{run_validators, is_error}
use shreni.TaskGraph.Validators.Passes.{Proper, run_validators-Proper}
use shreni.TaskGraph.Plans.{
  close_plan, approval_event, open_tasks, in_plan_id, find_plan, snapshot_of, opened_row, open_all,
  approve, approved, via_payload,
}
use shreni.TaskGraph.Plans.Opens.{of_ids, update_where-ext}
use shreni.TaskGraph.Plans.Rounds.{
  proposed, seen, seen-includes, all_rounds, untouched, snapshot_row,
}

-- What an approval that succeeds has found, and what it leaves.
pub record Opened (me : ActorHandle) (plan : String) (s s' : Store) : Type 0 where
  pub p : Plan
  pub open_plan : (find_plan s plan ≡ some p) × (p.approved_at ≡ none) × (p.discarded_at ≡ none)
  pub proper : Proper me.client.lifecycle (snapshot_of me.client s p) s
  pub m : Move
  pub hook : move_named me.client.lifecycle me.client.lifecycle.hooks.on_approve ≡ some m
  pub permitted : includes m.by me.actor.role ≡ true
  pub tasks :
      s'.tasks
      ≡ update_where
          (proposed me.client.lifecycle plan)
          (opened_row me.client.lifecycle m s.now)
          s.tasks
  pub plans : s'.plans ≡ update_where (λ (q : Plan). q.id == plan) (approved me s.now) s.plans
  pub kept : (s'.deps ≡ s.deps) × (s'.links ≡ s.links) × (s'.attempts ≡ s.attempts)

-- The parts of an approval that succeeds.
record Parts (me : ActorHandle) (plan via : String) (request : Option String) (s s' : Store)
    : Type 0 where
  m : Move
  hook : move_named me.client.lifecycle me.client.lifecycle.hooks.on_approve ≡ some m
  permitted : includes m.by me.actor.role ≡ true
  p : Plan
  found : find_plan s plan ≡ some p
  open_plan : (p.approved_at ≡ none) × (p.discarded_at ≡ none)
  fs : List Finding
  ran : run_validators me.client false (snapshot_of me.client s p) s ≡ ok fs
  clean : any is_error fs ≡ false
  s₁ : Store
  moves : open_all me m (via_payload via plan) (snapshot_of me.client s p).tasks s ≡ ok s₁
  tasks : s'.tasks ≡ s₁.tasks
  plans : s'.plans ≡ update_where (λ (q : Plan). q.id == plan) (approved me s.now) s₁.plans
  kept : (s'.deps ≡ s₁.deps) × (s'.links ≡ s₁.links) × (s'.attempts ≡ s₁.attempts)

no_time : (o : Option ℕ) → is_none o ≡ true → o ≡ none
no_time none h = refl
no_time (some t) h = absurd (ground arith)

opens :
    (me : ActorHandle) (m : Move) (plan via : String) (request : Option String) (ts : List Task)
    (fs out : List Finding) (s s' : Store)
    → open_tasks me m plan via request ts fs s ≡ ok (s', out)
    → (s₁ : Store) × (open_all me m (via_payload via plan) ts s ≡ ok s₁)
      × (s'
          ≡ close_plan s₁ plan
              (approved me s.now)
              (approval_event me plan via fs (length ts) request s))
unfolding open_tasks
opens me m plan via request ts fs out s s' h =
    let (s₁, moves, last) =
      >>=-parts {Then = Store × List Finding} (open_all me m (via_payload via plan) ts s)
        (λ s₂. ok (
          close_plan s₂ plan (approved me s.now)
              (approval_event me plan via fs (length ts) request s),
          fs,
        ))
        {last = (s', out)} h in
    (s₁, moves, ground (arith, last))

-- An approval's result is that of its writes, on the findings of its run.
module _ (me : ActorHandle) (plan via : String) (request : Option String) (s s' : Store)
    (fs : List Finding) (m : Move) (p : Plan)
    (hook : move_named me.client.lifecycle me.client.lifecycle.hooks.on_approve ≡ some m)
    (found : find_plan s plan ≡ some p) (h : approve me plan via request s ≡ ok (s', fs)) where
  run_parts :
      (gs : List Finding) × (run_validators me.client false (snapshot_of me.client s p) s ≡ ok gs)
      × (any is_error gs ≡ false)
      × (open_tasks me m plan via request (snapshot_of me.client s p).tasks gs s ≡ ok (s', fs))
  unfolding approve
  run_parts =
      let (gs, ran, rest) =
        >>=-parts {Then = Store × List Finding}
          (run_validators me.client false (snapshot_of me.client s p) s)
          (λ gs.
            require (not (any is_error gs)) (validation_error gs)
            >> open_tasks me m plan via request (snapshot_of me.client s p).tasks gs s)
          {last = (s', fs)} (ground (arith, hook, found)) in
      (gs, ran, ground (arith, rest), ground (arith, rest))

approve-Parts :
    (me : ActorHandle) (plan via : String) (request : Option String) (s s' : Store)
    (fs : List Finding)
    → approve me plan via request s ≡ ok (s', fs)
    → Parts me plan via request s s'
unfolding approve
approve-Parts me plan via request s s' fs h =
    elim (Option-cases (move_named me.client.lifecycle me.client.lifecycle.hooks.on_approve)) [
      | inl e ↦ absurd (ground (arith, e))
      | inr (m, e) ↦ elim (Option-cases (find_plan s plan)) [
        | inl f ↦ absurd (ground (arith, e, f))
        | inr (p, f) ↦
            let (gs, ran, clean, written) = run_parts me plan via request s s' fs m p e f h in
            let (s₁, moves, last) =
              opens me m plan via request (snapshot_of me.client s p).tasks gs fs s s' written in
            record {
              m = m;
              hook = e;
              permitted = ground (arith, e, f);
              p = p;
              found = f;
              open_plan = (
                no_time p.approved_at (ground (arith, e, f)),
                no_time p.discarded_at (ground (arith, e, f)),
              );
              fs = gs;
              ran = ran;
              clean = clean;
              s₁ = s₁;
              moves = moves;
              tasks = ground (arith, last);
              plans = ground (arith, last);
              kept = ground (arith, last);
            }
      ]
    ]

-- Every proposed task of the plan is among those that the loop has seen.
all_seen :
    (me : ActorHandle) (plan : String) (s : Store) (p : Plan) (t : Task)
    → p.id ≡ plan
    → In t s.tasks
    → of_ids (proposed me.client.lifecycle plan) (seen (snapshot_of me.client s p).tasks []) t
      ≡ proposed me.client.lifecycle plan t
all_seen me plan s p t e i = elim (Bool-cases (in_plan_id plan t)) [
  | inr out ↦ ground (arith, out)
  | inl filed ↦ ground (
    arith,
    seen-includes (snapshot_of me.client s p).tasks [] t.id (
        inr (
          t,
          (snapshot_row me.client s p t).1 (i, subst (λ q. in_plan_id q t ≡ true) (sym e) filed),
          refl,
        )),
  )
]

-- Under a lifecycle that registers and on rows that satisfy the invariant, an approval that succeeds
-- has found the plan neither approved nor discarded, its snapshot proper (no dependency cycle, no
-- dangling reference, no empty container, nothing that left planning), the approving move, and a role
-- that it permits; and all that it changes of the rows is one update: every proposed task of the plan
-- is opened, the plan's row is marked approved, and the other tasks, the dependencies, links and
-- attempts stay.
pub approve-Opened :
    (me : ActorHandle) (plan via : String) (request : Option String) (s s' : Store)
    (fs : List Finding)
    → IsRegistered me.client.lifecycle
    → Inv me.client.lifecycle s
    → approve me plan via request s ≡ ok (s', fs)
    → Opened me plan s s'
approve-Opened me plan via request s s' fs r v h =
    let d = approve-Parts me plan via request s s' fs h in
    let lc = me.client.lifecycle in
    let id_of : d.p.id ≡ plan =
      (==_iff d.p.id plan).0 (find-sat (λ (q : Plan). q.id == plan) s.plans d.p d.found) in
    let (a, named, i, (to, from)) = Registered.approve_hook lc r.rules in
    let ts = (snapshot_of me.client s d.p).tasks in
    let run =
      all_rounds me d.m (via_payload via plan) plan s v.keys (ground (arith, named, d.hook, from))
        ts [] s d.s₁
        (λ t j.
          let (k, e) = (snapshot_row me.client s d.p t).0 j in
          (k, subst (λ q. in_plan_id q t ≡ true) id_of e))
        (record {
          tasks = sym (untouched (opened_row lc d.m s.now) (proposed lc plan) s.tasks);
          others = record { deps = refl; links = refl; attempts = refl; plans = refl; now = refl };
        })
        d.moves in
    record {
      p = d.p;
      open_plan = (d.found, d.open_plan.0, d.open_plan.1);
      proper = run_validators-Proper me.client (snapshot_of me.client s d.p) s d.fs d.ran d.clean;
      m = d.m;
      hook = d.hook;
      permitted = d.permitted;
      tasks =
          d.tasks
          ∙ run.tasks
          ∙ update_where-ext _ (proposed lc plan) (opened_row lc d.m s.now) s.tasks
              (λ t j. all_seen me plan s d.p t id_of j);
      plans = ground (arith, d.plans, run.others);
      kept = ground (arith, d.kept, run.others);
    }

opened-Closes :
    (lc : Lifecycle) (m : Move) (plan : String) (s : Store)
    → IsRegistered lc
    → move_named lc lc.hooks.on_approve ≡ some m
    → Inv lc s
    → Closes lc s (proposed lc plan) (opened_row lc m s.now)
unfolding opened_row
opened-Closes lc m plan s r hook v =
    let (a, named, i, (to, from)) = Registered.approve_hook lc r.rules in
    let lands : m.to ≡ claimable_state lc = ground (arith, hook, named, to) in
    record {
      ids = λ t. refl;
      parents = λ t. refl;
      live = λ t j e.
          ground
            (arith, e, Registered.create_state_live lc r.rules, ==_iff t.state lc.create_state);
      shut = λ t k j e closes. ground (arith, lands, Registered.claimable_live lc r.rules);
      sound = λ t j e w. ground (
        arith,
        e,
        lands,
        Registered.claimable_live lc r.rules,
        Registered.create_unleased lc r.rules,
        Registered.create_state_live lc r.rules,
        Landing.claimable_unleased lc r.rules r.keys,
        Landing.claimable_declared lc r.rules r.keys,
        ==_iff t.state lc.create_state,
      );
    }

-- Under a lifecycle that registers, an approval that succeeds keeps the invariant.
pub approve-Inv :
    (me : ActorHandle) (plan via : String) (request : Option String) (s s' : Store)
    (fs : List Finding)
    → IsRegistered me.client.lifecycle
    → Inv me.client.lifecycle s
    → approve me plan via request s ≡ ok (s', fs)
    → Inv me.client.lifecycle s'
approve-Inv me plan via request s s' fs r v h =
    let d = approve-Opened me plan via request s s' fs r v h in
    update_where-Inv me.client.lifecycle s (proposed me.client.lifecycle plan)
      (opened_row me.client.lifecycle d.m s.now)
      (opened-Closes me.client.lifecycle d.m plan s r d.hook v) v s' d.tasks
