-- ===== src/TaskGraph/Plans/Lone.antt =====
-- src/taskgraph/plans.ts, tasks.approve: the approval of a task in no plan keeps the invariant.
use shreni.Common.{
  String, Option, none, some, List, [], ◌∷◌, true, false, not, ◌==◌, ==_iff, ◌≡◌, refl, inl, inr,
  includes, In, In-includes, find-In, arith, Option-cases, any,
}
use shreni.TaskGraph.Types.{Task, Value, text}
use shreni.TaskGraph.Errors.{require, validation_error, ok, ◌>>◌, >>=-parts}
use shreni.TaskGraph.Store.{Store, find_task, update_where}
use shreni.TaskGraph.Lifecycle.{Move, is_terminal, leased_state, claimable_state, move_named}
use shreni.TaskGraph.Lifecycle.Rules.Registered
use shreni.TaskGraph.Lifecycle.Rules.Landing
use shreni.TaskGraph.Client.{ActorHandle}
use shreni.TaskGraph.Invariant.{IsRegistered, Inv}
use shreni.TaskGraph.Invariant.Updates.{Closes, update_where-Inv}
use shreni.TaskGraph.Validators.{run_validators, is_error}
use shreni.TaskGraph.Plans.{approve_task, move_in_tx, opened_row, same_version_of}

module _ (me : ActorHandle) (m : Move) (t : Task) (s : Store) (r : IsRegistered me.client.lifecycle)
    (hook : move_named me.client.lifecycle me.client.lifecycle.hooks.on_approve ≡ some m)
    (row : In t s.tasks) (from : includes m.from t.state ≡ true)
    (free : (t.state == leased_state me.client.lifecycle) ≡ false)
    (v : Inv me.client.lifecycle s) where
  lone-Closes :
      Closes me.client.lifecycle s (same_version_of t) (opened_row me.client.lifecycle m s.now)
  unfolding opened_row
  lone-Closes =
      let lc = me.client.lifecycle in
      let (a, named, i, (to, _)) = Registered.approve_hook lc r.rules in
      let lands : m.to ≡ claimable_state lc = ground (arith, hook, named, to) in
      let same : (x : Task) → In x s.tasks → same_version_of t x ≡ true → x ≡ t =
        λ x j e. v.keys x t j row (ground (arith, e, ==_iff x.id t.id)) in
      let live : is_terminal lc t.state ≡ false =
        Registered.from-terminal lc r.rules a t.state i
          (In-includes a.from t.state (ground (arith, hook, named, from))) in
      record {
        ids = λ x. refl;
        parents = λ x. refl;
        live = λ x j e. ground (arith, same x j e, live);
        shut = λ x k j e closes. ground (arith, lands, Registered.claimable_live lc r.rules);
        sound = λ x j e w. ground (
          arith,
          same x j e,
          live,
          free,
          lands,
          w.leased,
          w.expires,
          w.closed,
          Registered.claimable_live lc r.rules,
          Landing.claimable_unleased lc r.rules r.keys,
          Landing.claimable_declared lc r.rules r.keys,
        );
      }

move_in_tx-tasks :
    (me : ActorHandle) (t : Task) (m : Move) (payload : List (String × Value))
    (request : Option String) (s s' : Store)
    → move_in_tx me t m payload request s ≡ ok s'
    → s'.tasks ≡ update_where (same_version_of t) (opened_row me.client.lifecycle m s.now) s.tasks
unfolding move_in_tx
move_in_tx-tasks me t m payload request s s' h = ground (arith, h)

-- The parts of an approval of a lone task that succeeds.
pub record Lone (me : ActorHandle) (t : Task) (via : String) (request : Option String)
    (s s' : Store) : Type 0 where
  pub m : Move
  pub hook : move_named me.client.lifecycle me.client.lifecycle.hooks.on_approve ≡ some m
  pub from : includes m.from t.state ≡ true
  pub moved : move_in_tx me t m (("via", text via) ∷ []) request s ≡ ok s'

pub approve_task-Lone :
    (me : ActorHandle) (i via : String) (request : Option String) (t : Task) (s s' : Store)
    → find_task s.tasks i ≡ some t
    → approve_task me i via request s ≡ ok s'
    → Lone me t via request s s'
unfolding approve_task
approve_task-Lone me i via request t s s' found h =
    elim (Option-cases (move_named me.client.lifecycle me.client.lifecycle.hooks.on_approve)) [
      | inl e ↦ absurd (ground (arith, e))
      | inr (m, e) ↦
          let (fs, ran, rest) =
            >>=-parts {Then = Store}
              (run_validators me.client true
                (record { plan = none; tasks = t ∷ []; deps = []; links = [] }) s)
              (λ fs.
                require (not (any is_error fs)) (validation_error fs)
                >> move_in_tx me t m (("via", text via) ∷ []) request s)
              {last = s'} (ground (arith, e, found)) in
          record { m = m; hook = e; from = ground (arith, e, found); moved = ground (arith, rest) }
    ]

pub approve_task-Inv :
    (me : ActorHandle) (i via : String) (request : Option String) (t : Task) (s s' : Store)
    → IsRegistered me.client.lifecycle
    → find_task s.tasks i ≡ some t
    → (t.state == leased_state me.client.lifecycle) ≡ false
    → Inv me.client.lifecycle s
    → approve_task me i via request s ≡ ok s'
    → Inv me.client.lifecycle s'
approve_task-Inv me i via request t s s' r found free v h =
    let d = approve_task-Lone me i via request t s s' found h in
    update_where-Inv me.client.lifecycle s (same_version_of t)
      (opened_row me.client.lifecycle d.m s.now)
      (lone-Closes me d.m t s r d.hook (find-In (λ x. x.id == i) s.tasks t found) d.from free v) v
      s' (move_in_tx-tasks me t d.m (("via", text via) ∷ []) request s s' d.moved)
