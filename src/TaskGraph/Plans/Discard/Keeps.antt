-- ===== src/TaskGraph/Plans/Discard/Keeps.antt =====
-- src/taskgraph/plans.ts, discard: the invariant of the rows.
use shreni.Common.{
  String, is_empty, Option, none, some, List, [], ◌∷◌, ◌++◌, Bool, true, false, ◌==◌, ==_iff,
  ==_refl, any-In, any-witness, In-includes, find-sat, includes, In, ◌≡◌, refl, ◌⊎◌, inl, inr,
  arith, Bool-cases, Option-cases,
}
use shreni.TaskGraph.Types.{Task, Plan}
use shreni.TaskGraph.Errors.{ok}
use shreni.TaskGraph.Store.{Store, In-update_where}
use shreni.TaskGraph.Lifecycle.{Move, Lifecycle, is_terminal, has_own, leased_state, move_named}
use shreni.TaskGraph.Lifecycle.Rules.Registered
use shreni.TaskGraph.Client.{ActorHandle, Client}
use shreni.TaskGraph.Containers.{is_child}
use shreni.TaskGraph.Invariant.{IsSound, Nested, IsRegistered, Inv}
use shreni.TaskGraph.Plans.{snapshot_of, opened_row}
use shreni.TaskGraph.Plans.Rounds.{proposed}
use shreni.TaskGraph.Plans.Discard.{
  Waiting, waiting_child, under_going, is_going, going_of, waiting_deps, waiting_children,
  left_behind, discard,
}
use shreni.TaskGraph.Plans.Discard.Cancels.{discard-Discarded, going_iff}

-- With nobody left behind, a child of a task that goes is closed, or goes too.
none_waits :
    (lc : Lifecycle) (going : List Task) (ts : List Task) (i : String) (k : Task)
    → waiting_children lc going ts ≡ []
    → In k ts
    → is_child i k ≡ true
    → is_going going i ≡ true
    → (is_terminal lc k.state ≡ true) ⊎ (is_going going k.id ≡ true)
none_waits lc going [] i k h m c g = absurd (m.0)
none_waits lc going (t ∷ ts) i k h (inl e) c g = elim (Option-cases t.parent_id) [
  | inl o ↦ absurd (ground (arith, e, o, c))
  | inr (p, o) ↦ elim (Bool-cases (is_terminal lc t.state)) [
    | inl closed ↦ inl (ground (arith, e, closed))
    | inr live ↦ elim (Bool-cases (is_going going t.id)) [
      | inl goes ↦ inr (ground (arith, e, goes))
      | inr stays ↦ absurd (ground (arith, h, e, o, c, g, live, stays, ==_iff p i))
    ]
  ]
]
none_waits lc going (t ∷ ts) i k h (inr m) c g =
    elim (Bool-cases (is_empty (waiting_children lc going ts))) [
      | inl e ↦ none_waits lc going ts i k (empty_list (waiting_children lc going ts) e) m c g
      | inr e ↦ absurd (ground (arith, grew (under_going t.parent_id going) e h))
    ]
  where
    empty_list : (ws : List Waiting) → is_empty ws ≡ true → ws ≡ []
    empty_list [] e = refl
    empty_list (w ∷ ws) e = absurd (ground arith)

    grew :
        (o : Option String)
        → is_empty (waiting_children lc going ts) ≡ false
        → waiting_child lc going t o (waiting_children lc going ts) ≡ []
        → false ≡ true
    grew none e x = ground (arith, e, x)
    grew (some p) e x = ground (arith, e, x)

append_empty : (xs ys : List Waiting) → (xs ++ ys) ≡ [] → ys ≡ []
append_empty [] ys h = h
append_empty (x ∷ xs) ys h = absurd (ground arith)

-- The terms that a discard writes keep the rows sound.
module _ (lc : Lifecycle) (m : Move) (plan : String) (s : Store) (r : IsRegistered lc)
    (hook : move_named lc lc.hooks.on_discard ≡ some m) (v : Inv lc s) where
  shuts : is_terminal lc m.to ≡ true
  shuts =
      let (a, named, i, (to, from)) = Registered.discard_hook lc r.rules in
      ground (arith, hook, named, to)

  takes : includes m.from lc.create_state ≡ true
  takes =
      let (a, named, i, (to, from)) = Registered.discard_hook lc r.rules in
      ground (arith, hook, named, from)

  declared : has_own lc.states m.to ≡ true
  declared =
      let (a, named, i, (to, from)) = Registered.discard_hook lc r.rules in
      ground (arith, hook, named, Registered.to_declared lc r.rules a i)

  leased_live : is_terminal lc (leased_state lc) ≡ false
  leased_live =
      let (a, named, i, (from, no_guard, to)) = Registered.expiry_hook lc r.rules in
      Registered.from-terminal lc r.rules a (leased_state lc) i
        (In-includes a.from (leased_state lc) from)

  cancelled-IsSound :
      (t : Task) → In t s.tasks → proposed lc plan t ≡ true → IsSound lc (opened_row lc m s.now t)
  unfolding opened_row
  cancelled-IsSound t i p =
      let w = v.rows t i in
      record {
        leased = ground (
          arith,
          p,
          shuts,
          leased_live,
          w.leased,
          Registered.create_unleased lc r.rules,
          ==_iff t.state lc.create_state,
          ==_iff m.to (leased_state lc),
        );
        expires = w.expires;
        closed = ground (arith, shuts);
        declared = declared;
      }

  -- Under a task that goes, a child is closed or goes too.
  goes_with :
      (c : Client) (p : Plan) (t k : Task)
      → p.id ≡ plan
      → left_behind lc s (going_of lc m (snapshot_of c s p).tasks) ≡ []
      → In t s.tasks
      → In k s.tasks
      → proposed lc plan t ≡ true
      → is_child t.id k ≡ true
      → (is_terminal lc k.state ≡ true) ⊎ (proposed lc plan k ≡ true)
  unfolding left_behind
  goes_with c p t k e left i j goes child =
      let going = going_of lc m (snapshot_of c s p).tasks in
      let in_going = (going_iff lc c m plan s p t e takes).1 (i, goes) in
      elim (none_waits lc going s.tasks t.id k
        (append_empty (waiting_deps lc s going s.deps) (waiting_children lc going s.tasks) left) j
        child (any-In (λ x. x.id == t.id) going t in_going (==_refl t.id))) [
          | inl closed ↦ inl closed
          | inr also ↦
              let (x, x_in, same) = any-witness (λ x. x.id == k.id) going also in
              let (x_row, x_goes) = (going_iff lc c m plan s p x e takes).0 x_in in
              inr (ground (arith, x_goes, v.keys x k x_row j ((==_iff x.id k.id).0 same)))
        ]

  pair_nested :
      (a b a' b' : Task)
      → ((proposed lc plan a ≡ true)
          → is_child a.id b ≡ true
          → (is_terminal lc b.state ≡ true) ⊎ (proposed lc plan b ≡ true))
      → Nested lc a b
      → ((proposed lc plan a ≡ true) × (a' ≡ opened_row lc m s.now a))
        ⊎ ((proposed lc plan a ≡ false) × (a' ≡ a))
      → ((proposed lc plan b ≡ true) × (b' ≡ opened_row lc m s.now b))
        ⊎ ((proposed lc plan b ≡ false) × (b' ≡ b))
      → Nested lc a' b'
  unfolding opened_row
  pair_nested a b a' b' with_it old ha hb child closed = ground (arith, with_it, old, ha, hb, shuts)

  same_row :
      (a b a' b' : Task)
      → (a.id ≡ b.id → a ≡ b)
      → ((proposed lc plan a ≡ true) × (a' ≡ opened_row lc m s.now a))
        ⊎ ((proposed lc plan a ≡ false) × (a' ≡ a))
      → ((proposed lc plan b ≡ true) × (b' ≡ opened_row lc m s.now b))
        ⊎ ((proposed lc plan b ≡ false) × (b' ≡ b))
      → a'.id ≡ b'.id
      → a' ≡ b'
  unfolding opened_row
  same_row a b a' b' one ha hb e = ground (arith, one, ha, hb, e)

-- Under a lifecycle that registers, a discard that succeeds keeps the invariant; so nothing live sits
-- under a cancelled container.
pub discard-Inv :
    (me : ActorHandle) (by_locale : String → String → Bool) (plan via : String)
    (request : Option String) (s s' : Store)
    → IsRegistered me.client.lifecycle
    → Inv me.client.lifecycle s
    → discard me by_locale plan via request s ≡ ok s'
    → Inv me.client.lifecycle s'
discard-Inv me by_locale plan via request s s' r v h =
    let d = discard-Discarded me by_locale plan via request s s' r v h in
    let lc = me.client.lifecycle in
    let id_of : d.p.id ≡ plan =
      (==_iff d.p.id plan).0 (find-sat (λ (q : Plan). q.id == plan) s.plans d.p (d.open_plan.0)) in
    let from_row = In-update_where (proposed lc plan) (opened_row lc d.m s.now) s.tasks in
    record {
      keys = λ a' b' i' j' e.
          let (a, i, ha) = from_row a' (rw d.tasks at i') in
          let (b, j, hb) = from_row b' (rw d.tasks at j') in
          same_row lc d.m plan s r d.hook v a b a' b' (v.keys a b i j) ha hb e;
      rows = λ t' i'.
          let (t, i, h) = from_row t' (rw d.tasks at i') in
          ground (arith, h, v.rows t i, cancelled-IsSound lc d.m plan s r d.hook v t i);
      nested = λ a' b' i' j'.
          let (a, i, ha) = from_row a' (rw d.tasks at i') in
          let (b, j, hb) = from_row b' (rw d.tasks at j') in
          pair_nested lc d.m plan s r d.hook v a b a' b'
            (goes_with lc d.m plan s r d.hook v me.client d.p a b id_of d.left i j)
            (v.nested a b i j) ha hb;
    }
