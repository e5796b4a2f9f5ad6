-- ===== src/Policy/Leases/Ends.antt =====
-- src/policy/sthapathi/leases.ts, retryUnavailable: the loop ends, and not before its time.
use shreni.Common.{
  ℕ, zero, suc, Bool, false, ◌+◌, ◌*◌, ◌-◌, ◌≤◌, ◌<◌, leb, ◌≡◌, ◌⊎◌, inl, inr, refl, subst, arith,
  Bool-cases,
}
use shreni.Policy.Leases.{
  Called, answered, threw, Retried, value, rethrown, out_of_fuel, min, retry_from,
  retry_unavailable,
}

called_cases :
    {A E : Type 0} (c : Called A E)
    → ((a : A) × (t : ℕ) × (c ≡ answered a t)) ⊎ ((e : E) × (t : ℕ) × (c ≡ threw e t))
called_cases (answered a t) = inl (a, t, refl)
called_cases (threw e t) = inr (e, t, refl)

module _ {A E : Type 0} (is_unavailable : E → Bool) (fn : ℕ → ℕ → Called A E)
    (sleep : ℕ → ℕ → ℕ) where
  -- The answer of some call: a value, an error of another kind, or an outage that outlasts the time.
  abbrev pub Ended : ℕ → Retried A E → Type 0
  Ended until (value a now) = (n : ℕ) × (t : ℕ) × (fn n t ≡ answered a now)
  Ended until (rethrown e now) =
      ((n : ℕ) × (t : ℕ) × (fn n t ≡ threw e now)) × ((is_unavailable e ≡ false) ⊎ (until ≤ now))
  Ended until out_of_fuel = ⊥

  module _ (throws_later : (n t : ℕ) (e : E) (now : ℕ) → fn n t ≡ threw e now → t ≤ now)
      (sleeps : (t ms : ℕ) → t + ms ≤ sleep t ms) where
    retry_from-Ended :
        (fuel until wait n t : ℕ)
        → 1 ≤ wait
        → (until - t) < fuel
        → Ended until (retry_from is_unavailable fn sleep fuel until wait n t)
    unfolding retry_from
    retry_from-Ended zero until wait n t w f = absurd (ground (arith, f))
    retry_from-Ended (suc fuel) until wait n t w f = elim (called_cases (fn n t)) [
      | inl (a, now, e) ↦ subst (Ended until) {x = value a now} (ground (arith, e)) (n, t, e)
      | inr (x, now, e) ↦
          let slept = sleep now (min wait (until - now)) in
          let rest =
            retry_from is_unavailable fn sleep fuel until (min (wait * 2) 10_000) (suc n) slept in
          elim (Bool-cases (is_unavailable x)) [
            | inr other ↦
                subst (Ended until) {x = rethrown x now} (ground (arith, e, other))
                  ((n, t, e), inl other)
            | inl away ↦ elim (Bool-cases (leb until now)) [
              | inl late ↦
                  subst (Ended until) {x = rethrown x now} (ground (arith, e, away, late))
                    ((n, t, e), inr (ground (arith, late)))
              | inr early ↦ subst (Ended until) {x = rest} (ground (arith, e, away, early)) (
                  retry_from-Ended fuel until (min (wait * 2) 10_000) (suc n) slept
                    (ground (arith, w))
                    (ground (
                      arith,
                      f,
                      w,
                      early,
                      throws_later n t x now e,
                      sleeps now (min wait (until - now)),
                    )))
            ]
          ]
    ]

-- Where no failing call ends before it starts and a sleep takes at least the time asked for, the
-- retries of a lost database end: with the value of a call, with an error of another kind, or with an
-- outage that a call still met when the time was over.
pub retry_unavailable-Ended :
    {A E : Type 0} (is_unavailable : E → Bool) (fn : ℕ → ℕ → Called A E) (sleep : ℕ → ℕ → ℕ)
    (for_ms t : ℕ)
    → ((n t : ℕ) (e : E) (now : ℕ) → fn n t ≡ threw e now → t ≤ now)
    → ((t ms : ℕ) → t + ms ≤ sleep t ms)
    → Ended is_unavailable fn sleep
        (t + for_ms)
        (retry_unavailable is_unavailable fn sleep for_ms t)
unfolding retry_unavailable
retry_unavailable-Ended is_unavailable fn sleep for_ms t later sleeps =
    retry_from-Ended is_unavailable fn sleep later sleeps (suc for_ms) (t + for_ms) 1_000 0 t
      (ground arith) (ground arith)
