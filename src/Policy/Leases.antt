-- ===== src/Policy/Leases.antt =====
-- src/policy/sthapathi/leases.ts, retryUnavailable: a call that is tried again while the database is away.
pub mod Ends
use shreni.Common.{
  ℕ, zero, suc, Option, none, some, Bool, true, false, not, ◌&&◌, ◌||◌, ◌+◌, ◌*◌, ◌-◌, leb,
  if◌then◌else◌,
}

abbrev pub lease_ms : ℕ
lease_ms = 10 * 60_000

abbrev pub heartbeat_ms : ℕ
heartbeat_ms = 2 * 60_000

abbrev pub unavailable_retry_ms : ℕ
unavailable_retry_ms = 60_000

-- What a call comes to, and the clock after it.
pub data Called {ℓ κ} (A : Type ℓ) (E : Type κ) : Type (ℓ ⊔ κ) where
  answered : A → ℕ → Called A E
  threw : E → ℕ → Called A E

-- What the loop comes to, and the clock then.
pub data Retried {ℓ κ} (A : Type ℓ) (E : Type κ) : Type (ℓ ⊔ κ) where
  value : A → ℕ → Retried A E
  rethrown : E → ℕ → Retried A E
  out_of_fuel : Retried A E

abbrev pub min : ℕ → ℕ → ℕ
min a b = if leb a b then a else b

-- The clock is read once between an error and the sleep after it. `fn n t` is the n-th call, made at time t; `sleep t ms` is the clock after a sleep of ms from t.
module _ {ℓ κ} {A : Type ℓ} {E : Type κ} (is_unavailable : E → Bool) (fn : ℕ → ℕ → Called A E)
    (sleep : ℕ → ℕ → ℕ) where
  unfoldable pub retry_from : (fuel until wait n t : ℕ) → Retried A E
  retry_from zero until wait n t = out_of_fuel
  retry_from (suc fuel) until wait n t = elim (fn n t) [
    | answered a now ↦ value a now
    | threw e now ↦
        (let rest =
            retry_from fuel until (min (wait * 2) 10_000) (suc n)
              (sleep now (min wait (until - now))) in
          if not (is_unavailable e) || leb until now then rethrown e now else rest)
  ]

  -- The number of milliseconds is enough rounds, since every sleep takes at least one (Ends).
  unfoldable pub retry_unavailable : (for_ms t : ℕ) → Retried A E
  unfolding retry_from
  retry_unavailable for_ms t = retry_from (suc for_ms) (t + for_ms) 1_000 0 t
