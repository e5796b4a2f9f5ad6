-- ===== src/TaskGraph/Lifecycle/Rules/Landing.antt =====
-- Where new work lands, in a lifecycle that lifecycleViolations passes.
use shreni.Common.{String, [], true, false, ◌&&◌, ◌==◌, ==_iff, ◌≡◌, inl, inr, arith, Option-cases}
use shreni.TaskGraph.Lifecycle.{
  Lifecycle, has_flag, lookup, has_own, distinct_keys, leased_state, claimable_state,
}
use shreni.TaskGraph.Lifecycle.Rules.{
  lifecycle_violations, each, flag_violations, flag_violations_parts, claimable_states,
  leased_states,
}
use shreni.TaskGraph.Lifecycle.Rules.Registered
use shreni.TaskGraph.Lifecycle.Rules.Facts.{lookup-In, In-flagged, concat_nil, each-In, no_fail}

both_flags :
    (d : Lifecycle) (s : String)
    → each flag_violations d.states ≡ []
    → has_flag (λ f. f.claimable) d.states s ≡ true
    → has_flag (λ f. f.leased) d.states s ≡ false
both_flags d s rule c = elim (Option-cases (lookup d.states s)) [
  | inl e ↦ absurd (ground (arith, e))
  | inr (f, e) ↦
      let parts =
        concat_nil (flag_violations_parts (s, f))
          (each-In flag_violations d.states (s, f) rule (lookup-In d.states s f e)) in
      ground (arith, e, no_fail (f.claimable && f.leased) "flags-consistent" s parts.0)
]

module _ (d : Lifecycle) (v : lifecycle_violations d ≡ []) (u : distinct_keys d.states ≡ true) where
  claimable_flag : has_flag (λ f. f.claimable) d.states (claimable_state d) ≡ true
  unfolding claimable_states
  claimable_flag =
      In-flagged (λ f. f.claimable) d.states (claimable_state d) u
        (ground (arith, Registered.claimable_one d v))

  leased_flag : has_flag (λ f. f.leased) d.states (leased_state d) ≡ true
  unfolding leased_states
  leased_flag =
      In-flagged (λ f. f.leased) d.states (leased_state d) u
        (ground (arith, Registered.leased_one d v))

  pub claimable_unleased : (claimable_state d == leased_state d) ≡ false
  claimable_unleased = ground (
    arith,
    both_flags d (claimable_state d) (Registered.state_parts d v).1.1.1.0 claimable_flag,
    leased_flag,
    ==_iff (claimable_state d) (leased_state d),
  )

  pub claimable_declared : has_own d.states (claimable_state d) ≡ true
  claimable_declared = ground (arith, claimable_flag)
