-- ===== src/Sthapathi/Retry/Bounds.antt =====
-- src/sthapathi/retry.ts: how often a call is tried, and how long the loop sleeps.
use shreni.Common.{
  ℕ, zero, suc, List, [], ◌∷◌, true, false, ◌+◌, ◌-◌, ◌≤◌, eqb, length, All, ◌≡◌, ◌⊎◌, inl, inr,
  refl, subst, arith, Bool-cases,
}
use shreni.Sthapathi.Retry.{
  RetryConfig, Failure, Attempt, returned, failed, Tried, succeeded, rethrown, exhausted,
  is_retryable, next_delay, retry_loop, with_retry,
}

attempt_cases :
    {A : Type 0} (t : Attempt A) → ((a : A) × (t ≡ returned a)) ⊎ ((e : Failure) × (t ≡ failed e))
attempt_cases (returned a) = inl (a, refl)
attempt_cases (failed e) = inr (e, refl)

next_delay_bound :
    (config : RetryConfig) (delay : ℕ) → next_delay config delay ≤ config.max_delay_ms
next_delay_bound config delay = ground arith

module _ {A : Type 0} (config : RetryConfig) (fn : ℕ → Attempt A) where
  -- The call failed with an error that may pass.
  abbrev Passing : ℕ → Type 0
  Passing n = (e : Failure) × (fn n ≡ failed e) × (is_retryable config e ≡ true)

  -- The n-th call decides: it succeeds, or fails for good.
  abbrev Decides : ℕ → Tried A → Type 0
  Decides n (succeeded a) = fn n ≡ returned a
  Decides n (rethrown e) =
      (fn n ≡ failed e) × ((is_retryable config e ≡ false) ⊎ (n ≡ config.max_attempts))
  Decides n exhausted = ⊥

  -- After `made` calls, the call `last` decides, each one between failed with an error that may pass, and
  -- the loop slept after each of those, no longer than `longest`.
  pub record Settled (made longest : ℕ) (r : Tried A × List ℕ) : Type 0 where
    pub last : ℕ
    pub in_bounds : (suc made ≤ last) × (last ≤ config.max_attempts)
    pub decides : Decides last r.0
    pub before : (n : ℕ) → suc made ≤ n → suc n ≤ last → Passing n
    pub sleeps : (suc made + length r.1) ≡ last
    pub short : All (λ ms. ms ≤ longest) r.1

  -- One round, with what follows an error that may pass.
  round-Settled :
      (left made delay longest : ℕ)
      → (made + suc left) ≡ config.max_attempts
      → ((x : Failure)
          → fn (suc made) ≡ failed x
          → is_retryable config x ≡ true
          → Settled made longest (retry_loop config fn (suc left) made delay))
      → Settled made longest (retry_loop config fn (suc left) made delay)
  unfolding retry_loop
  round-Settled left made delay longest count passes = elim (attempt_cases (fn (suc made))) [
    | inl (a, e) ↦
        subst (Settled made longest) {x = (succeeded a, [])} (ground (arith, e)) (record {
          last = suc made;
          in_bounds = (ground arith, ground (arith, count));
          decides = e;
          before = λ n i j. absurd (ground (arith, i, j));
          sleeps = ground arith;
          short = tt;
        })
    | inr (x, e) ↦ elim (Bool-cases (is_retryable config x)) [
      | inr final ↦
          subst (Settled made longest) {x = (rethrown x, [])} (ground (arith, e, final)) (record {
            last = suc made;
            in_bounds = (ground arith, ground (arith, count));
            decides = (e, inl final);
            before = λ n i j. absurd (ground (arith, i, j));
            sleeps = ground arith;
            short = tt;
          })
      | inl passing ↦ passes x e passing
    ]
  ]

  loop-Settled :
      (left made delay longest : ℕ)
      → (made + suc left) ≡ config.max_attempts
      → delay ≤ longest
      → config.max_delay_ms ≤ longest
      → Settled made longest (retry_loop config fn (suc left) made delay)
  unfolding retry_loop
  loop-Settled zero made delay longest count d m =
      round-Settled zero made delay longest count (λ x e passing.
        subst (Settled made longest) {x = (rethrown x, [])} (ground (arith, e, passing, count))
          (record {
            last = suc made;
            in_bounds = (ground arith, ground (arith, count));
            decides = (e, inr (ground (arith, count)));
            before = λ n i j. absurd (ground (arith, i, j));
            sleeps = ground arith;
            short = tt;
          }))
  loop-Settled (suc left) made delay longest count d m =
      let later =
        loop-Settled left (suc made) (next_delay config delay) longest (ground (arith, count))
          (ground (arith, next_delay_bound config delay, m)) m in
      let r = retry_loop config fn (suc left) (suc made) (next_delay config delay) in
      round-Settled (suc left) made delay longest count (λ x e passing.
        subst (Settled made longest) {x = (r.0, delay ∷ r.1)} (ground (arith, e, passing, count))
          (record {
            last = later.last;
            in_bounds = (ground (arith, later.in_bounds), later.in_bounds.1);
            decides = later.decides;
            before = λ n i j. elim (Bool-cases (eqb n (suc made))) [
              | inl k ↦ (x, ground (arith, e, k), passing)
              | inr k ↦ later.before n (ground (arith, i, k)) j
            ];
            sleeps = ground (arith, later.sleeps);
            short = (d, later.short);
          }))

-- With at least one attempt allowed, the retry loop makes a number of calls within the allowed ones:
-- the last one returned its value, or failed with the error that is rethrown, which may not pass or
-- came at the last attempt; every call before it failed with an error that may pass; it slept once
-- after each of those, and never longer than a bound on the initial and the greatest delay.
pub with_retry-Settled :
    {A : Type 0} (config : RetryConfig) (fn : ℕ → Attempt A) (longest : ℕ)
    → 1 ≤ config.max_attempts
    → config.initial_delay_ms ≤ longest
    → config.max_delay_ms ≤ longest
    → Settled config fn 0 longest (with_retry config fn)
unfolding with_retry
with_retry-Settled config fn longest h a b =
    subst (λ n. Settled config fn 0 longest (retry_loop config fn n 0 config.initial_delay_ms))
      (one_less config.max_attempts h)
      (loop-Settled config fn (config.max_attempts - 1) 0 config.initial_delay_ms longest
        (ground (arith, h)) a b)
  where
    one_less : (n : ℕ) → 1 ≤ n → suc (n - 1) ≡ n
    one_less n h = ground (arith, h)
