-- ===== src/TaskGraph/Sweep/Keeps.antt =====
-- The lease sweep (src/taskgraph/claims.ts) and the invariant of the rows.
use shreni.Common.{
  ℕ, ◌+◌, String, Option, none, some, List, [], ◌∷◌, true, false, ◌==◌, ==_iff, ◌≡◌, refl, inl, inr,
  In, In-map, map-In, In-order_by, In-filter, filter-In, find-sat, subst, arith, Option-cases,
}
use shreni.TaskGraph.Types.{Task}
use shreni.TaskGraph.Store.{Store, In-update_where}
use shreni.TaskGraph.Lifecycle.{Move, Lifecycle, is_terminal, leased_state, move_named, has_own}
use shreni.TaskGraph.Lifecycle.Rules.Registered
use shreni.TaskGraph.Client.{Client}
use shreni.TaskGraph.Containers.{by_id}
use shreni.TaskGraph.Invariant.{IsRegistered, Inv}
use shreni.TaskGraph.Invariant.Updates.{Closes, update_where-Inv}
use shreni.TaskGraph.Moves.Keeps.{to_unleased}
use shreni.TaskGraph.Sweep.{
  Lapsed, lapsed, expired_row, expiry_move, returned_row, return_lease, return_by, return_leases,
  sweep, prior_expiries, repeats,
}

-- Neither expiry hook names the claim move.
pub record ReturnsLeases (lc : Lifecycle) : Type 0 where
  pub first : (lc.hooks.on_lease_expiry == lc.hooks.on_claim) ≡ false
  pub repeated :
      (after : ℕ) (n : String)
      → lc.hooks.on_repeated_expiry ≡ some (after, n)
      → (n == lc.hooks.on_claim) ≡ false

-- Every row of that id is live; every row of that id holds no lease.
abbrev pub Live : Lifecycle → String → List Task → Type 0
Live lc i ts = (x : Task) → In x ts → (x.id == i) ≡ true → is_terminal lc x.state ≡ false

abbrev pub Unleased : String → List Task → Type 0
Unleased i ts = (x : Task) → In x ts → (x.id == i) ≡ true → x.lease_attempt_id ≡ none

-- A move that the sweep may make lands in a live state that holds no lease.
record Returns (lc : Lifecycle) (m : Move) : Type 0 where
  live : is_terminal lc m.to ≡ false
  unleased : (m.to == leased_state lc) ≡ false
  declared : has_own lc.states m.to ≡ true

module _ (lc : Lifecycle) (r : IsRegistered lc) (apart : ReturnsLeases lc) where
  named_name : (n : String) (m : Move) → move_named lc n ≡ some m → m.name ≡ n
  unfolding move_named
  named_name n m e = ground (arith, find-sat (λ x. x.name == n) lc.moves m e, ==_iff m.name n)

  hook_Returns :
      (n : String) (m : Move)
      → move_named lc n ≡ some m
      → In m lc.moves
      → is_terminal lc m.to ≡ false
      → (n == lc.hooks.on_claim) ≡ false
      → Returns lc m
  hook_Returns n m e i live d = record {
    live = live;
    unleased = to_unleased lc r m i (ground (arith, named_name n m e));
    declared = Registered.to_declared lc r.rules m i;
  }

  first_Returns : (m : Move) → move_named lc lc.hooks.on_lease_expiry ≡ some m → Returns lc m
  first_Returns m e =
      let (k, named, i, (from, guard, live)) = Registered.expiry_hook lc r.rules in
      hook_Returns lc.hooks.on_lease_expiry m e
        (subst (λ x. In x lc.moves) (ground (arith, named, e)) i) (ground (arith, named, e, live))
        apart.first

  repeated_Returns :
      (after : ℕ) (n : String) (m : Move)
      → lc.hooks.on_repeated_expiry ≡ some (after, n)
      → move_named lc n ≡ some m
      → Returns lc m
  repeated_Returns after n m o e =
      let (k, named, i, (from, guard, live)) = Registered.repeat_hook_move lc r.rules after n o in
      hook_Returns n m e (subst (λ x. In x lc.moves) (ground (arith, named, e)) i)
        (ground (arith, named, e, live)) (apart.repeated after n o)

  repeats-some :
      (o : Option (ℕ × String)) (n : ℕ) (k : String)
      → repeats o n ≡ some k
      → (after : ℕ) × (o ≡ some (after, k))
  repeats-some none n k h = absurd (ground arith)
  repeats-some (some (after, j)) n k h = (after, ground arith)

  expiry_move-Returns : (n : ℕ) (m : Move) → expiry_move lc n ≡ some m → Returns lc m
  unfolding expiry_move
  expiry_move-Returns n m e = elim (Option-cases (repeats lc.hooks.on_repeated_expiry n)) [
    | inl plain ↦ first_Returns m (ground (arith, plain))
    | inr (k, again) ↦
        let (after, o) = repeats-some lc.hooks.on_repeated_expiry n k again in
        repeated_Returns after k m o (ground (arith, again))
  ]

  -- One lease is returned: the row keeps sound, stays live, and holds no lease.
  returned-Closes :
      (m : Move) (t : Task) (s : Store)
      → Returns lc m
      → Live lc t.id s.tasks
      → Closes lc s (λ x. x.id == t.id) (returned_row m s.now)
  unfolding returned_row
  returned-Closes m t s q live = record {
    ids = λ x. refl;
    parents = λ x. refl;
    live = λ x i e. live x i e;
    shut = λ x k i e closes. ground (arith, q);
    sound = λ x i e v. ground (arith, q, live x i e);
  }

  return_by-Inv :
      (t : Task) (n : ℕ) (s : Store)
      → Live lc t.id s.tasks
      → Inv lc s
      → Inv lc (return_by lc t n (expiry_move lc n) s)
  unfolding return_lease
  return_by-Inv t n s live v = elim (Option-cases (expiry_move lc n)) [
    | inl none_named ↦ rw none_named v
    | inr (m, e) ↦ rw e (
        update_where-Inv lc s (λ x. x.id == t.id) (returned_row m s.now)
          (returned-Closes m t s (expiry_move-Returns n m e) live) v (return_lease lc t n m s) refl)
  ]

  -- A later return keeps another row live, and without a lease if it had none.
  return_by-Live :
      (t : Task) (n : ℕ) (s : Store) (j : String)
      → Live lc j s.tasks
      → Live lc j (return_by lc t n (expiry_move lc n) s).tasks
  unfolding return_lease returned_row
  return_by-Live t n s j live = elim (Option-cases (expiry_move lc n)) [
    | inl none_named ↦ rw none_named live
    | inr (m, e) ↦ rw e (λ x i h.
        let (y, k, c) = In-update_where (λ z. z.id == t.id) (returned_row m s.now) s.tasks x i in
        ground (arith, live y k, expiry_move-Returns n m e))
  ]

  return_by-Unleased :
      (t : Task) (n : ℕ) (s : Store) (j : String)
      → Unleased j s.tasks
      → Unleased j (return_by lc t n (expiry_move lc n) s).tasks
  unfolding return_lease returned_row
  return_by-Unleased t n s j free = elim (Option-cases (expiry_move lc n)) [
    | inl none_named ↦ rw none_named free
    | inr (m, e) ↦ rw e (λ x i h.
        let (y, k, c) = In-update_where (λ z. z.id == t.id) (returned_row m s.now) s.tasks x i in
        ground (arith, free y k))
  ]

  return_leases-Inv :
      (ls : List Lapsed) (s : Store)
      → ((l : Lapsed) → In l ls → Live lc l.0.id s.tasks)
      → Inv lc s
      → Inv lc (return_leases lc ls s)
  unfolding return_leases
  return_leases-Inv [] s live v = v
  return_leases-Inv ((t, n) ∷ ls) s live v =
      return_leases-Inv ls (return_by lc t n (expiry_move lc n) s)
        (λ l i. return_by-Live t n s l.0.id (live l (inr i)))
        (return_by-Inv t n s (live (t, n) (inl refl)) v)

  -- The rows that the sweep selects are leased, so they are live; the table's key makes them the only
  -- rows of their ids.
  lapsed-Live :
      (c : Client) (s : Store)
      → c.lifecycle ≡ lc
      → Inv lc s
      → (l : Lapsed) → In l (lapsed c s)
      → Live lc l.0.id s.tasks
  unfolding lapsed expired_row
  lapsed-Live c s e v l i x k same =
      let (t, j, f) = In-map _ _ l i in
      let (a, b) = In-filter _ s.tasks t ((In-order_by (by_id c) _ t).0 j) in
      ground (
        arith,
        Registered.leased_live lc r.rules,
        v.keys x t k a,
        ==_iff x.id t.id,
        ==_iff t.state (leased_state lc),
      )

  -- The first return of a row's lease takes it away; later returns give none back.
  return_leases-Unleased :
      (ls : List Lapsed) (s : Store) (j : String)
      → Unleased j s.tasks
      → Unleased j (return_leases lc ls s).tasks
  unfolding return_leases
  return_leases-Unleased [] s j free = free
  return_leases-Unleased ((t, n) ∷ ls) s j free =
      return_leases-Unleased ls (return_by lc t n (expiry_move lc n) s) j
        (return_by-Unleased t n s j free)

  expiry_move-some : (n : ℕ) → (m : Move) × (expiry_move lc n ≡ some m)
  unfolding expiry_move
  expiry_move-some n = elim (Option-cases (repeats lc.hooks.on_repeated_expiry n)) [
    | inl plain ↦
        let (m, e, i, h) = Registered.expiry_hook lc r.rules in (m, ground (arith, plain, e))
    | inr (k, again) ↦
        let (after, o) = repeats-some lc.hooks.on_repeated_expiry n k again in
        let (m, e, i, h) = Registered.repeat_hook_move lc r.rules after k o in
        (m, ground (arith, again, e))
  ]

  returned-Unleased :
      (t : Task) (n : ℕ) (s : Store) → Unleased t.id (return_by lc t n (expiry_move lc n) s).tasks
  unfolding return_lease returned_row
  returned-Unleased t n s =
      let (m, e) = expiry_move-some n in
      rw e (λ x i h.
        let (y, k, c) = In-update_where (λ z. z.id == t.id) (returned_row m s.now) s.tasks x i in
        ground arith)

  return_leases-frees :
      (ls : List Lapsed) (s : Store) (l : Lapsed)
      → In l ls
      → Unleased l.0.id (return_leases lc ls s).tasks
  unfolding return_leases
  return_leases-frees [] s l i = absurd (i.0)
  return_leases-frees ((t, n) ∷ ls) s l (inl e) = rw e (
      return_leases-Unleased ls (return_by lc t n (expiry_move lc n) s) t.id
        (returned-Unleased t n s))
  return_leases-frees ((t, n) ∷ ls) s l (inr i) =
      return_leases-frees ls (return_by lc t n (expiry_move lc n) s) l i

-- Under a lifecycle that registers, whose expiry moves are not the claim move, the sweep of lapsed
-- leases keeps the invariant.
pub sweep-Inv :
    (c : Client) (s : Store)
    → IsRegistered c.lifecycle
    → ReturnsLeases c.lifecycle
    → Inv c.lifecycle s
    → Inv c.lifecycle (sweep c s).0
unfolding sweep
sweep-Inv c s r apart v =
    return_leases-Inv c.lifecycle r apart (lapsed c s) s
      (lapsed-Live c.lifecycle r apart c s refl v) v

-- After the sweep no row with the id of a lapsed lease holds a lease.
pub sweep-frees :
    (c : Client) (s : Store) (t : Task)
    → IsRegistered c.lifecycle
    → ReturnsLeases c.lifecycle
    → In t s.tasks
    → expired_row c.lifecycle s t ≡ true
    → Unleased t.id (sweep c s).0.tasks
unfolding sweep lapsed
sweep-frees c s t r apart i e =
    return_leases-frees c.lifecycle r apart (lapsed c s) s
      (t, prior_expiries s t.id c.lifecycle.hooks.on_lease_expiry + 1)
      (map-In _ _ t ((In-order_by (by_id c) _ t).1 (filter-In _ s.tasks t i e)))
