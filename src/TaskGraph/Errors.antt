-- ===== src/TaskGraph/Errors.antt =====
-- src/taskgraph/errors.ts: the typed errors, with the fields that callers branch on. The text of an
-- InvalidRequest stands for its fixed words; no caller reads it.
use shreni.Common.{String, Option, List, Bool, true, false, ◌≡◌, refl, ◌⊎◌, inl, inr, arith}

pub data Severity : Type 0 where
  error warning : Severity

-- One validator's finding.
pub record Finding : Type 0 where
  pub validator : String
  pub severity : Severity
  pub task_id : Option String
  pub message : String

-- One registration rule that a lifecycle breaks.
pub record LifecycleViolation : Type 0 where
  pub rule : String
  pub subject : String

pub data Error : Type 0 where
  cycle_error : String → String → Error
  not_found : String → String → Error
  invalid_request : String → Error
  not_permitted : String → String → Option String → Error
  validation_error : List Finding → Error
  move_refused : String → String → String → List String → List String → Error
  lease_lost : String → String → Error
  lease_held : String → String → Error
  version_mismatch : Error
  schema_behind : String → Error
  unavailable : Error
  lifecycle_invalid : List LifecycleViolation → Error
  -- A plain `Error`, which no caller branches on.
  internal : String → Error

-- What a transaction returns; a call that throws is `err`, and the rest of the body does not run.
pub data Result {ℓ} (Answer : Type ℓ) : Type ℓ where
  err : Error → Result Answer
  ok : Answer → Result Answer

-- `if (!test) throw e`.
abbrev pub require : Bool → Error → Result (Unit {0})
require false thrown = err thrown
require true thrown = ok tt

abbrev pub or_throw {ℓ} : {Row : Type ℓ} → Option Row → Error → Result Row
or_throw Option.none thrown = err thrown
or_throw (Option.some row) thrown = ok row

infixl 5 ◌>>=◌
abbrev pub ◌>>=◌ {ℓ κ} :
    {First : Type ℓ} {Then : Type κ} → Result First → (First → Result Then) → Result Then
err thrown >>= rest = err thrown
ok first >>= rest = rest first

infixl 5 ◌>>◌
abbrev pub ◌>>◌ {κ} : {Then : Type κ} → Result (Unit {0}) → Result Then → Result Then
check >> rest = check >>= (λ _. rest)

-- A body that returns has run its first part, and then its rest on the answer.
pub >>=-parts {ℓ κ} :
    {First : Type ℓ} {Then : Type κ} (head : Result First) (rest : First → Result Then)
    {last : Then}
    → (head >>= rest) ≡ ok last
    → (first : First) × (head ≡ ok first) × (rest first ≡ ok last)
>>=-parts (err thrown) rest h = absurd (ground arith)
>>=-parts (ok first) rest h = (first, refl, h)

pub Result-cases :
    {A : Type 0} (r : Result A) → ((e : Error) × (r ≡ err e)) ⊎ ((a : A) × (r ≡ ok a))
Result-cases (err e) = inl (e, refl)
Result-cases (ok a) = inr (a, refl)
