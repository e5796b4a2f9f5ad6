-- ===== src/Sthapathi/CycleErrors/Handles.antt =====
-- src/sthapathi/errors.ts: what is left after a cycle's error.
use shreni.Common.{
  ℕ, suc, String, Option, some, List, [], ◌∷◌, ◌++◌, true, false, ◌≡◌, ◌≢◌, In, ◌↔◌,
}
use shreni.Kshetra.State.{
  State, current, record_stall, is_kshetra_manually_paused, get_progress_state,
}
use shreni.Sthapathi.CycleErrors.{
  ErrorClass, CycleError, git_error, Effect, add_note, flag, cleanup_branch, notify_operator,
  on_task, task_effects, event_name, paused_for,
}
use shreni.Sthapathi.CycleErrors.Causes.{MeansDown, Named}

-- What handling leaves: the repeat counter, the pause, and what became of the task and its branch.
pub record Handled (k : String) (task : Option String) (e : CycleError) (s : State)
    (r : State × List Effect) : Type 0 where
  pub class : ErrorClass
  pub outcome : String
  pub event : String
  pub named : Named e class outcome event
  pub stalled : (get_progress_state k r.0).last_outcome ≡ some outcome
  pub again :
      (current s k).last_outcome ≡ some outcome
      → (get_progress_state k r.0).outcome_repeat_count ≡ suc (current s k).outcome_repeat_count
  pub anew :
      (current s k).last_outcome ≢ some outcome
      → (get_progress_state k r.0).outcome_repeat_count ≡ 1
  pub after_git : e ≡ git_error → is_kshetra_manually_paused k r.0 ≡ true
  pub after_outage :
      MeansDown e
      → ((current r.0 k).paused ≡ true) × ((current r.0 k).requires_manual_resume ≡ false)
  pub after_others :
      e ≢ git_error
      → ¬ MeansDown e
      → is_kshetra_manually_paused k r.0 ≡ is_kshetra_manually_paused k s
  pub branch : (t : String) → In (cleanup_branch t) r.1 ↔ ((task ≡ some t) × (e ≢ git_error))
  pub flagged : (t : String) → In (flag t class) r.1 ↔ ((task ≡ some t) × ¬ MeansDown e)
  pub noted : (t : String) → In (add_note t) r.1 ↔ ((task ≡ some t) × MeansDown e)
  pub told : (w : String) → In (notify_operator w) r.1 ↔ (w ≡ event)

module _ (now : ℕ) (k : String) (outcome message : String) (s : State) where
  abbrev left : ErrorClass → State
  left c = paused_for now k c message (record_stall k outcome s).0

abbrev effects : ErrorClass → Option String → List Effect
effects c task = on_task task (task_effects c) ++ notify_operator (event_name c) ∷ []
