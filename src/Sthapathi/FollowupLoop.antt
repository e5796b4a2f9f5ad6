-- ===== src/Sthapathi/FollowupLoop.antt =====
-- src/sthapathi/pr-followup-loop.ts: the bounded rounds over the feedback on a pull request.
pub mod Rounds
use shreni.Common.{
  ℕ, zero, suc, String, Option, none, some, List, [], ◌∷◌, Bool, true, false, not, ◌&&◌, ◌||◌, ◌==◌,
  ◌+◌, ◌-◌, any, leb, if◌then◌else◌,
}

pub data Verdict : Type 0 where
  approve : Verdict
  reject : Verdict

-- What the loop reads of the agents' outputs: the dispositions of the comments, and the verdict.
pub record SilpiOutput : Type 0 where
  pub dispositions : List String

pub record ViharapalaOutput : Type 0 where
  pub verdict : Verdict

pub data PrFollowupOutcome : Type 0 where
  approved : PrFollowupOutcome
  escalated : PrFollowupOutcome
  exhausted : PrFollowupOutcome

-- A pass ends with an outcome, or throws AgentAbortedError.
pub data PrFollowupResult : Type 0 where
  result : PrFollowupOutcome → Option SilpiOutput → ℕ → PrFollowupResult
  aborted : PrFollowupResult

abbrev pub is_approve : Verdict → Bool
is_approve approve = true
is_approve reject = false

abbrev pub escalates : SilpiOutput → Bool
escalates o = any (λ d. d == "escalate") o.dispositions

-- The agents and the abort signal: what Silpi makes of a round and the last rejection, what Viharapala
-- makes of that, and whether the signal is set when a round starts and before the review.
pub record Agents : Type 0 where
  pub run_silpi : ℕ → Option ViharapalaOutput → SilpiOutput
  pub run_viharapala : SilpiOutput → ℕ → ViharapalaOutput
  pub aborted_at_start : ℕ → Bool
  pub aborted_at_review : ℕ → Bool

-- The while loop, with `left` rounds to go.
unfoldable pub rounds_from :
    Agents → Bool → ℕ → ℕ → Option ViharapalaOutput → Option SilpiOutput → PrFollowupResult
rounds_from agents re_review zero round feedback last = result exhausted last round
rounds_from agents re_review (suc left) round feedback last =
    let out = agents.run_silpi (suc round) feedback in
    let review = agents.run_viharapala out (suc round) in
    let rest = rounds_from agents re_review left (suc round) (some review) (some out) in
    if agents.aborted_at_start (suc round)
    then aborted
    else if escalates out
    then result escalated (some out) (suc round)
    else if not re_review
    then result approved (some out) (suc round)
    else if agents.aborted_at_review (suc round)
    then aborted
    else if is_approve review.verdict
    then result approved (some out) (suc round)
    else rest

unfoldable pub run_pr_followup_loop :
    Agents → (re_review : Bool) → (max_rounds start_round : ℕ) → PrFollowupResult
unfolding rounds_from
run_pr_followup_loop agents re_review max_rounds start_round =
    if leb max_rounds start_round
    then result exhausted none start_round
    else rounds_from agents re_review (max_rounds - start_round) start_round none none
