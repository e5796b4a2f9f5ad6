-- ===== src/Sthapathi/Retry.antt =====
-- src/sthapathi/retry.ts: a call that is tried again on errors that may pass.
pub mod Bounds
use shreni.Common.{
  ℕ, zero, suc, String, Option, none, some, List, [], ◌∷◌, Bool, true, false, not, ◌&&◌, ◌||◌, ◌+◌,
  ◌*◌, ◌-◌, eqb, leb, any, contains, if◌then◌else◌,
}

pub record RetryConfig : Type 0 where
  pub max_attempts : ℕ
  pub initial_delay_ms : ℕ
  pub backoff_multiplier : ℕ
  pub max_delay_ms : ℕ
  pub retryable_statuses : List ℕ
  pub retryable_errors : List String

abbrev pub agent_retry_config : RetryConfig
agent_retry_config = record {
  max_attempts = 3;
  initial_delay_ms = 5_000;
  backoff_multiplier = 2;
  max_delay_ms = 60_000;
  retryable_statuses = 429 ∷ 502 ∷ 503 ∷ 529 ∷ [];
  retryable_errors = "ECONNRESET" ∷ "ETIMEDOUT" ∷ "ENOTFOUND" ∷ [];
}

-- What the code reads of an error.
pub record Failure : Type 0 where
  pub status : Option ℕ
  pub message : Option String
  pub code : Option String

abbrev pub has_status : List ℕ → Option ℕ → Bool
has_status statuses none = false
has_status statuses (some s) = any (eqb s) statuses

abbrev pub text_of : Option String → Option String → String
text_of (some message) code = message
text_of none (some code) = code
text_of none none = ""

unfoldable pub is_retryable : RetryConfig → Failure → Bool
unfolding contains
is_retryable config e =
    has_status config.retryable_statuses e.status
    || any (contains (text_of e.message e.code)) config.retryable_errors

-- What one call comes to.
pub data Attempt {ℓ} (A : Type ℓ) : Type ℓ where
  returned : A → Attempt A
  failed : Failure → Attempt A

-- What the loop comes to: a value, an error that it rethrows, or its own last line.
pub data Tried {ℓ} (A : Type ℓ) : Type ℓ where
  succeeded : A → Tried A
  rethrown : Failure → Tried A
  exhausted : Tried A

abbrev pub min : ℕ → ℕ → ℕ
min a b = if leb a b then a else b

abbrev pub next_delay : RetryConfig → ℕ → ℕ
next_delay config delay = min (delay * config.backoff_multiplier) config.max_delay_ms

-- The loop, with `left` calls to go and `attempt` made; `fn` gives what its n-th call comes to. The
-- answer has the sleeps, first to last.
unfoldable pub retry_loop {ℓ} :
    {A : Type ℓ} → RetryConfig → (ℕ → Attempt A) → ℕ → ℕ → ℕ → Tried A × List ℕ
unfolding is_retryable
retry_loop config fn zero attempt delay = (exhausted, [])
retry_loop config fn (suc left) attempt delay =
    let rest = retry_loop config fn left (suc attempt) (next_delay config delay) in
    elim (fn (suc attempt)) [
      | returned a ↦ (succeeded a, [])
      | failed e ↦
          if not (is_retryable config e) || leb config.max_attempts (suc attempt)
          then (rethrown e, [])
          else (rest.0, delay ∷ rest.1)
    ]

unfoldable pub with_retry {ℓ} : {A : Type ℓ} → RetryConfig → (ℕ → Attempt A) → Tried A × List ℕ
unfolding retry_loop
with_retry config fn = retry_loop config fn config.max_attempts 0 config.initial_delay_ms
