-- ===== src/TaskGraph/Lifecycle/Rules/Registered.antt =====
-- What registration (defineLifecycle) guarantees of a lifecycle: the facts that the engine's
-- transactions rest on.
use shreni.Common.{
  ℕ, String, none, some, [], ◌∷◌, true, false, not, ◌&&◌, ◌==◌, ==_iff, includes, ◌≡◌, ◌⊎◌, inl,
  inr, In, All, find, find-In, Option-cases, In-includes, arith,
}
use shreni.TaskGraph.Lifecycle.{
  Move, Lifecycle, lookup, has_own, leased_state, claimable_state, is_terminal, move_named,
}
use shreni.TaskGraph.Lifecycle.Rules.{
  Violations, each, rule_violations_parts, state_violations_parts, hook_violations_parts, sole,
  claimable_states, leased_states, state_violations, reference_violations,
  reference_violations_parts, move_states, move_states_parts, hook_violations, rule_violations,
  lifecycle_violations, leased_by_claim, create_violations, create_violations_parts, approve_check,
  approve_check_parts, claim_check, claim_check_parts, discard_check, discard_check_parts,
  expiry_check, expiry_check_parts, by_role_check, by_claim, with_move,
}
use shreni.TaskGraph.Lifecycle.Rules.Facts.{
  concat_nil, no_fail, each-In, rules_hold, first_of_sole, from_live, last-named, repeat_of,
  lookup-In,
}

module _ (d : Lifecycle) (v : lifecycle_violations d ≡ []) where
  rule_parts : All (λ w. w ≡ []) (rule_violations_parts d)
  unfolding rule_violations
  rule_parts = concat_nil (rule_violations_parts d) (rules_hold d v)

  reference_rules : All (λ w. w ≡ []) (reference_violations_parts d)
  unfolding reference_violations
  reference_rules = concat_nil (reference_violations_parts d) rule_parts.1.0

  pub state_parts : All (λ w. w ≡ []) (state_violations_parts d)
  unfolding state_violations
  state_parts = concat_nil (state_violations_parts d) rule_parts.0

  hook_parts : All (λ w. w ≡ []) (hook_violations_parts d)
  unfolding hook_violations
  hook_parts = concat_nil (hook_violations_parts d) rule_parts.1.1.1.0

  -- Exactly one state is claimable, and exactly one leased.
  pub claimable_one : claimable_states d ≡ claimable_state d ∷ []
  unfolding claimable_states claimable_state
  claimable_one = first_of_sole _ (ground (arith, state_parts.0))

  pub leased_one : leased_states d ≡ leased_state d ∷ []
  unfolding leased_states leased_state
  leased_one = first_of_sole _ (ground (arith, state_parts.1.0))

  claimable_sole : sole (claimable_states d) ≡ some (claimable_state d)
  claimable_sole = rw claimable_one

  leased_sole : sole (leased_states d) ≡ some (leased_state d)
  leased_sole = rw leased_one

  -- In a lifecycle with no violations, a declared move that lands in the leased state has the name of
  -- the claim move.
  pub to-leased :
      (m : Move) → In m d.moves → (m.to == leased_state d) ≡ true → m.name ≡ d.hooks.on_claim
  unfolding leased_by_claim
  to-leased m i e =
      let rule : leased_by_claim d ≡ [] = hook_parts.1.1.1.0 in
      let each_rule : each (by_claim d (leased_state d)) d.moves ≡ [] = rw leased_sole at rule in
      ground (
        arith,
        no_fail _ _ _ (each-In (by_claim d (leased_state d)) d.moves m each_rule i),
        ==_iff m.name d.hooks.on_claim,
      )

  -- In a lifecycle with no violations, no move starts from a terminal state.
  pub from-terminal : (m : Move) (s : String) → In m d.moves → In s m.from → is_terminal d s ≡ false
  unfolding is_terminal
  from-terminal m s i j = from_live d [] d.moves m s rule_parts.1.1.0 i j

  -- A hook names a declared move, and its check passes.
  hook_move :
      (n : String) (check : Move → Violations)
      → with_move d n check ≡ []
      → (m : Move) × (move_named d n ≡ some m) × In m d.moves × (check m ≡ [])
  unfolding move_named
  hook_move n check h =
      let same = last-named d [] d.moves n rule_parts.1.1.0 in
      elim (Option-cases (find (λ m. m.name == n) d.moves)) [
        | inl e ↦ absurd (ground (arith, same, e))
        | inr (m, e) ↦ (m, e, find-In _ d.moves m e, ground (arith, same, e))
      ]

  approve_ok :
      (m : Move)
      → approve_check d m ≡ []
      → (m.to ≡ claimable_state d) × (includes m.from d.create_state ≡ true)
  approve_ok m c = ground (
    arith,
    concat_nil (approve_check_parts d m) c,
    claimable_sole,
    ==_iff m.to (claimable_state d),
  )

  claim_ok :
      (m : Move)
      → claim_check d m ≡ []
      → (includes m.from (claimable_state d) ≡ true) × (m.to ≡ leased_state d) × (m.guard ≡ none)
  claim_ok m c = ground (
    arith,
    concat_nil (claim_check_parts d m) c,
    claimable_sole,
    leased_sole,
    ==_iff m.to (leased_state d),
  )

  discard_ok :
      (m : Move)
      → discard_check d m ≡ []
      → (is_terminal d m.to ≡ true) × (includes m.from d.create_state ≡ true)
  unfolding is_terminal
  discard_ok m c = ground (arith, concat_nil (discard_check_parts d m) c)

  expiry_ok :
      (m : Move)
      → expiry_check d m ≡ []
      → (includes m.from (leased_state d) ≡ true) × (m.guard ≡ none) × (is_terminal d m.to ≡ false)
  unfolding is_terminal
  expiry_ok m c = ground (arith, concat_nil (expiry_check_parts d m) c, leased_sole)

  -- The moves that the hooks name, and what each is held to.
  pub approve_hook :
      (m : Move) × (move_named d d.hooks.on_approve ≡ some m)
      × In m d.moves
      × ((m.to ≡ claimable_state d) × (includes m.from d.create_state ≡ true))
  approve_hook =
      let (m, e, i, c) = hook_move d.hooks.on_approve (approve_check d) hook_parts.0 in
      (m, e, i, approve_ok m c)

  pub claim_hook :
      (m : Move) × (move_named d d.hooks.on_claim ≡ some m)
      × In m d.moves
      × ((includes m.from (claimable_state d) ≡ true) × (m.to ≡ leased_state d) × (m.guard ≡ none))
  claim_hook =
      let (m, e, i, c) = hook_move d.hooks.on_claim (claim_check d) hook_parts.1.1.0 in
      (m, e, i, claim_ok m c)

  pub discard_hook :
      (m : Move) × (move_named d d.hooks.on_discard ≡ some m)
      × In m d.moves
      × ((is_terminal d m.to ≡ true) × (includes m.from d.create_state ≡ true))
  discard_hook =
      let (m, e, i, c) = hook_move d.hooks.on_discard (discard_check d) hook_parts.1.1.1.1.0 in
      (m, e, i, discard_ok m c)

  pub expiry_hook :
      (m : Move) × (move_named d d.hooks.on_lease_expiry ≡ some m)
      × In m d.moves
      × ((includes m.from (leased_state d) ≡ true)
          × (m.guard ≡ none)
          × (is_terminal d m.to ≡ false))
  expiry_hook =
      let (m, e, i, c) =
        hook_move d.hooks.on_lease_expiry (expiry_check d) hook_parts.1.1.1.1.1.0 in
      (m, e, i, expiry_ok m c)

  pub repeat_hook_move :
      (after : ℕ) (n : String)
      → d.hooks.on_repeated_expiry ≡ some (after, n)
      → (m : Move) × (move_named d n ≡ some m)
        × In m d.moves
        × ((includes m.from (leased_state d) ≡ true)
            × (m.guard ≡ none)
            × (is_terminal d m.to ≡ false))
  repeat_hook_move after n r =
      let rule = repeat_of d d.hooks.on_repeated_expiry after n r hook_parts.1.1.1.1.1.1.0 in
      let (m, e, i, c) = hook_move n (expiry_check d) rule in (m, e, i, expiry_ok m c)

  -- Every move lands in a declared state.
  pub to_declared : (m : Move) → In m d.moves → has_own d.states m.to ≡ true
  to_declared m i = ground (
    arith,
    each-In (move_states d) d.moves m reference_rules.1.1.0 i,
    concat_nil (move_states_parts d m),
  )

  pub create_declared : has_own d.states d.create_state ≡ true
  create_declared = ground (arith, reference_rules)

  -- Neither the create state, the claimable state nor the leased state is terminal.
  pub create_state_live : is_terminal d d.create_state ≡ false
  create_state_live =
      let (m, e, i, (t, f)) = approve_hook in from-terminal m _ i (In-includes m.from _ f)

  pub claimable_live : is_terminal d (claimable_state d) ≡ false
  claimable_live =
      let (m, e, i, (f, t, g)) = claim_hook in from-terminal m _ i (In-includes m.from _ f)

  pub leased_live : is_terminal d (leased_state d) ≡ false
  leased_live =
      let (m, e, i, (f, g, t)) = expiry_hook in from-terminal m _ i (In-includes m.from _ f)

  create_rules : All (λ w. w ≡ []) (create_violations_parts d)
  unfolding create_violations
  create_rules = concat_nil (create_violations_parts d) hook_parts.1.0

  -- A new task lands in the create state or the claimable one, never in the leased one.
  pub create_unleased : (d.create_state == leased_state d) ≡ false
  create_unleased = ground (arith, create_rules, leased_sole)

  pub by_role_lands :
      (role s : String)
      → lookup d.create_by_role role ≡ some s
      → (s ≡ d.create_state) ⊎ (s ≡ claimable_state d)
  by_role_lands role s h =
      let rule : each (by_role_check d (claimable_state d)) d.create_by_role ≡ [] =
        rw claimable_sole at create_rules.0 in
      ground (
        arith,
        no_fail (not (s == d.create_state) && not (s == claimable_state d)) "create-rules" role,
        each-In (by_role_check d (claimable_state d)) d.create_by_role (role, s) rule
            (lookup-In d.create_by_role role s h),
        ==_iff s d.create_state,
        ==_iff s (claimable_state d),
      )
