-- ===== src/Sthapathi/FollowupLoop/Rounds.antt =====
-- src/sthapathi/pr-followup-loop.ts: what the outcome of a pass says of its rounds.
use shreni.Common.{ℕ, suc, Option, none, some, Bool, true, false, ◌≤◌, ◌≡◌, ◌⊎◌}
use shreni.Sthapathi.FollowupLoop.{
  SilpiOutput, ViharapalaOutput, PrFollowupResult, result, aborted, approved, escalated, exhausted,
  is_approve, escalates, Agents,
}

module _ (agents : Agents) (re_review : Bool) (start limit : ℕ) where
  -- The output was made in that round, and nobody escalates a comment of it.
  abbrev pub Made : ℕ → Option SilpiOutput → Type 0
  Made round none = ⊥
  Made round (some out) = (fb : Option ViharapalaOutput) × (out ≡ agents.run_silpi round fb)

  abbrev pub Reviewed : ℕ → Option SilpiOutput → Type 0
  Reviewed round none = ⊥
  Reviewed round (some out) =
      (escalates out ≡ false)
      × ((re_review ≡ false) ⊎ (is_approve (agents.run_viharapala out round).verdict ≡ true))

  abbrev pub Escalates : Option SilpiOutput → Type 0
  Escalates none = ⊥
  Escalates (some out) = escalates out ≡ true

  -- What each end of a pass means: its output is that of the last round, within the budget.
  abbrev pub Ended : PrFollowupResult → Type 0
  Ended (result approved out round) =
      (suc start ≤ round) × (round ≤ limit) × Made round out × Reviewed round out
  Ended (result escalated out round) =
      (suc start ≤ round) × (round ≤ limit) × Made round out × Escalates out
  Ended (result exhausted out round) = (round ≡ limit) × (re_review ≡ true) × Made round out
  Ended aborted =
      (round : ℕ) × (suc start ≤ round)
      × (round ≤ limit)
      × ((agents.aborted_at_start round ≡ true) ⊎ (agents.aborted_at_review round ≡ true))
