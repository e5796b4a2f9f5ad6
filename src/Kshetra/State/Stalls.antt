-- ===== src/Kshetra/State/Stalls.antt =====
-- src/kshetra/state.ts: what the repeat counter of the outcomes counts.
use shreni.Common.{
  ℕ, suc, String, Option, none, some, List, [], ◌∷◌, ◌==◌, ==_iff, ◌≡◌, refl, arith, if◌then◌else◌,
  is_some_of,
}
use shreni.Kshetra.State.{State, KshetraState, current, set_entry, record_progress, record_stall}
use shreni.Kshetra.State.Entries.{entry-set_entry}

-- What a cycle reports: progress, or an outcome that does not advance.
pub data Report : Type 0 where
  progressed : ℕ → Report
  stalled : String → Report

-- The state after the reports of a Kshetra, newest first.
abbrev pub reported : String → List Report → State → State
reported k [] s = s
reported k (progressed now ∷ rs) s = record_progress now k (reported k rs s)
reported k (stalled outcome ∷ rs) s = (record_stall k outcome (reported k rs s)).0

-- How often an outcome stands at the head of the reports.
abbrev pub repeats : String → List Report → ℕ
repeats o [] = 0
repeats o (progressed now ∷ rs) = 0
repeats o (stalled p ∷ rs) = let rest = repeats o rs in if p == o then suc rest else 0

abbrev pub newest : List Report → Option String
newest [] = none
newest (progressed now ∷ rs) = none
newest (stalled o ∷ rs) = some o

abbrev pub newest_repeats : List Report → ℕ
newest_repeats [] = 0
newest_repeats (progressed now ∷ rs) = 0
newest_repeats (stalled o ∷ rs) = suc (repeats o rs)

module _ (k : String) (s : State) (fresh : (current s k).last_outcome ≡ none)
    (zeroed : (current s k).outcome_repeat_count ≡ 0) where
  current-set_entry : (s : State) (c : KshetraState) → current (set_entry s k c) k ≡ c
  current-set_entry s c = rw (entry-set_entry s k c)

  repeats-newest :
      (rs : List Report) (o : String)
      → repeats o rs ≡ (if is_some_of (newest rs) o then newest_repeats rs else 0)
  repeats-newest [] o = refl
  repeats-newest (progressed now ∷ rs) o = refl
  repeats-newest (stalled p ∷ rs) o = ground (arith, ==_iff p o)

  counts :
      (rs : List Report)
      → ((current (reported k rs s) k).last_outcome ≡ newest rs)
        × ((current (reported k rs s) k).outcome_repeat_count ≡ newest_repeats rs)
  counts [] = (fresh, zeroed)
  counts (progressed now ∷ rs) = (
    rw (current-set_entry (reported k rs s) _) refl,
    rw (current-set_entry (reported k rs s) _) refl,
  )
  counts (stalled o ∷ rs) = (
    rw (current-set_entry (reported k rs s) _) refl,
    rw (current-set_entry (reported k rs s) _) (ground (arith, counts rs, repeats-newest rs o)),
  )

-- From an entry with no outcome and a count of 0, the repeat counter after any reports is the number
-- of times that the newest report's outcome stands at their head in a row, and 0 when the newest is
-- progress.
pub record_stall-repeats :
    (k : String) (s : State) (rs : List Report)
    → (current s k).last_outcome ≡ none
    → (current s k).outcome_repeat_count ≡ 0
    → (current (reported k rs s) k).outcome_repeat_count ≡ newest_repeats rs
record_stall-repeats k s rs fresh zeroed = (counts k s fresh zeroed rs).1
