-- ===== src/Samples/Worker.antt =====
-- The theorems on the worker of a Kshetra, at concrete states.
use shreni.Common.{
  ℕ, suc, String, Option, none, some, List, [], ◌∷◌, Bool, true, false, ◌==◌, ==_iff, text_lt,
  contains, ◌+◌, ◌≤◌, ◌≡◌, ◌≢◌, ◌↔◌, refl, arith, inl, length, is_none, leb, if◌then◌else◌,
}
use shreni.Kshetra.State.{State, current, entry, unpaused, record_stall}
use shreni.Kshetra.State.Stalls.{
  Report, progressed, stalled, reported, newest_repeats, record_stall-repeats,
}
use shreni.Kshetra.State.Latch.{stop, write, stalls, Runs-others}
use shreni.Sthapathi.Phases.{idle, selecting, preparing, working}
use shreni.Sthapathi.Watchdog.{
  StuckInput, Thresholds, Look, Desk, Words, evaluate_stuck, run_watchdog_once, remediation_for,
}
use shreni.Sthapathi.Watchdog.Trips.{
  is_stuck, Trips, evaluate_stuck-Trips_iff, quiet, looked, watchdog-notifies,
}
use shreni.Sthapathi.Scheduler.{
  Loop, started, fire, selected, fires, selects, wakes, start, after, wake,
}
use shreni.Sthapathi.Scheduler.Loops.{Sound, Reached-Sound}
use shreni.Sthapathi.Scheduler.Timing.{
  Times, Conserved, fresh, polls, misses, picks, Polled-Conserved, record_phase_change, no_times,
}
use shreni.Sthapathi.Retry.{agent_retry_config, Failure, Attempt, returned, failed, with_retry}
use shreni.Sthapathi.Retry.Bounds.{Settled, with_retry-Settled}
use shreni.Policy.Leases.{Called, answered, threw, retry_unavailable}
use shreni.Policy.Leases.Ends.{Ended, retry_unavailable-Ended}
use shreni.Sthapathi.PrFollowup.{
  DetectInput, PrFeedback, detect_pr_feedback, feedback_of, failing_check,
}
use shreni.Sthapathi.PrFollowup.Addressed.{
  detect_pr_feedback-Addressed_iff, IsPushed, detect_pr_feedback-IsPushed,
}
use shreni.Sthapathi.PrFollowup.Quiet.{Addressed}
use shreni.Sthapathi.FollowupLoop.{Agents, approve, reject}
use shreni.Sthapathi.FollowupLoop.Rounds
use shreni.Ext.Budget.{
  BudgetConfig, SpendSoFar, PolicyRunContext, PolicySource, allowed, make_budget_policy,
}
use shreni.Ext.Spend.{UsageEntry, spent_on, spent_in}
use shreni.Ext.Spend.Ledger.{AtMost, no_run, ran, Ledger-caps}
use shreni.Sthapathi.CycleErrors.{CycleError, other_error}

-- The state of two Kshetras, and the reports of the first.
abbrev file : State
file = ("k", unpaused) ∷ ("other", unpaused) ∷ []

abbrev reports : List Report
reports =
    stalled "cycle:GIT_FAILED"
    ∷ stalled "cycle:GIT_FAILED"
    ∷ progressed 5
    ∷ stalled "cycle:UNKNOWN"
    ∷ []

abbrev after_reports : State
after_reports = reported "k" reports file

record_stall-repeats_example :
    (current after_reports "k").outcome_repeat_count ≡ newest_repeats reports
unfolding ◌==◌
record_stall-repeats_example = record_stall-repeats "k" file reports refl refl

abbrev stalled_file : State
stalled_file = (record_stall "k" "cycle:UNKNOWN" file).0

k-other : ◌≢◌ {A = String} "k" "other"
unfolding ◌==◌
k-other h = ground (arith, (==_iff "k" "other").1 h)

Runs-others_example : entry stalled_file "other" ≡ entry file "other"
Runs-others_example =
    Runs-others "k" "other" file stalled_file k-other (write (stalls "cycle:UNKNOWN") stop)

abbrev thresholds : Thresholds
thresholds = record { stuck_ms = none; max_repeat = some 2 }

abbrev silent : StuckInput
silent = record {
  phase = working;
  manually_paused = false;
  heartbeat_age_ms = some 1_200_001;
  outcome_repeat_count = 0;
  last_outcome = none;
  idle_no_work = false;
  thresholds = thresholds;
}

evaluate_stuck-Trips_iff_example : (is_stuck (evaluate_stuck silent) ≡ true) ↔ Trips silent
evaluate_stuck-Trips_iff_example = evaluate_stuck-Trips_iff silent

abbrev words : Words
words = record {
  reason_text = λ r. "why";
  remediation_text = λ m. "how";
  phase_text = λ p. "WORKING";
}

abbrev desk : Desk
desk = record { state = after_reports; notified = [] }

abbrev look : Look
look = record { phase = working; now = 9; heartbeat_age_ms = some 10; has_ready_work = none }

abbrev once_more : Desk
once_more =
    run_watchdog_once words "k" thresholds look (run_watchdog_once words "k" thresholds look desk)

watchdog-notifies_example : length once_more.notified ≤ suc (length desk.notified)
watchdog-notifies_example =
    watchdog-notifies words "k" thresholds desk once_more (looked look (looked look quiet))

-- The first pass did notify, and the second did not.
watchdog_run : length once_more.notified ≡ 1
unfolding run_watchdog_once evaluate_stuck remediation_for contains ◌==◌
watchdog_run = refl

-- A poll that finds nothing, and a wake.
abbrev polled_loop : Loop
polled_loop = wake (selected 30_000 none (fire 30_000 0 (started 30_000)))

Reached-Sound_example : Sound 30_000 polled_loop
Reached-Sound_example = Reached-Sound 30_000 polled_loop (
    after
      (after (after start (fires (record { id = 0; delay_ms = 30_000 }) (inl refl)))
        (selects none refl))
      wakes)

abbrev one_miss : Times
one_miss = record_phase_change selecting idle 1 (record_phase_change idle selecting 30 no_times)

abbrev one_task : Times
one_task =
    record_phase_change selecting preparing 2 (record_phase_change idle selecting 40 one_miss)

Polled-Conserved_example : Conserved preparing one_task (0 + 30 + 40) 2
Polled-Conserved_example =
    Polled-Conserved preparing one_task (0 + 30 + 40) 2
      (picks 2 (polls 40 (misses 1 (polls 30 fresh))))

-- Two calls that are cut off, and one that returns.
abbrev cut_off : Failure
cut_off = record { status = some 503; message = none; code = none }

abbrev third_time : ℕ → Attempt ℕ
third_time n = if leb 3 n then returned n else failed cut_off

with_retry-Settled_example :
    Settled agent_retry_config third_time 0 60_000 (with_retry agent_retry_config third_time)
with_retry-Settled_example =
    with_retry-Settled agent_retry_config third_time 60_000 (ground arith) (ground arith)
      (ground arith)

-- A database that answers from the time 3000 on.
abbrev answers_at : ℕ → ℕ → Called ℕ String
answers_at n t = if leb 3_000 t then answered n t else threw "away" (t + 5)

abbrev sleeps : ℕ → ℕ → ℕ
sleeps t ms = t + ms

abbrev is_away : String → Bool
is_away e = e == "away"

throws_later : (n t : ℕ) (e : String) (now : ℕ) → answers_at n t ≡ threw e now → t ≤ now
throws_later n t e now h = ground (arith, h)

retry_unavailable-Ended_example :
    Ended is_away answers_at sleeps
      (0 + 60_000)
      (retry_unavailable is_away answers_at sleeps 60_000 0)
retry_unavailable-Ended_example =
    retry_unavailable-Ended is_away answers_at sleeps 60_000 0 throws_later (λ t ms. ground arith)

-- A pull request whose head the worker pushed, with a required check that fails.
abbrev pull_request : DetectInput
pull_request = record {
  status = record {
    reviews =
        record { state = "CHANGES_REQUESTED"; submitted_at = some "2026-01-01T00:00:00Z" } ∷ [];
    checks = record { name = "build"; conclusion = some "FAILURE" } ∷ [];
    commits = record { sha = "abc"; author = some "shreni" } ∷ [];
  };
  watermark = record { head = some "abc"; round = 2; at = some "2026-01-02T00:00:00Z" };
  self_logins = "shreni" ∷ [];
  required_checks = "build" ∷ [];
}

detect_pr_feedback-Addressed_iff_example :
    (is_none (detect_pr_feedback pull_request) ≡ true) ↔ Addressed pull_request
detect_pr_feedback-Addressed_iff_example = detect_pr_feedback-Addressed_iff pull_request

pull_request-IsPushed : IsPushed pull_request
unfolding text_lt ◌==◌
pull_request-IsPushed = record {
  head = refl;
  pushed = refl;
  reviews = λ r i h. ground (arith, i, h);
}

abbrev feedback : PrFeedback
feedback = feedback_of pull_request

detect_pr_feedback-IsPushed_example :
    (feedback.triggers ≡ failing_check ∷ []) × (feedback.round ≡ pull_request.watermark.round)
unfolding detect_pr_feedback text_lt ◌==◌
detect_pr_feedback-IsPushed_example =
    detect_pr_feedback-IsPushed pull_request feedback pull_request-IsPushed refl

-- Agents whose second round is approved.
abbrev agents : Agents
agents = record {
  run_silpi = λ round fb. record { dispositions = "fixed" ∷ [] };
  run_viharapala = λ out round. record { verdict = if leb 2 round then approve else reject };
  aborted_at_start = λ round. false;
  aborted_at_review = λ round. false;
}

-- A bead that has spent 7 of its 5.
abbrev always : PolicySource String String
always = record { select_model = λ r. r; may_proceed = λ r. allowed }

abbrev budgets : String → Option BudgetConfig
budgets k = some (record { per_bead_usd = some 5; per_kshetra_usd = none })

abbrev spent : String → String → SpendSoFar
spent k b = record {
  bead_usd = 7;
  kshetra_usd = 9;
  bead_unpriced_runs = 0;
  kshetra_unpriced_runs = 0;
}

abbrev bead_run : PolicyRunContext
bead_run = record { kshetra = "k"; bead_id = "b" }

-- An API that is down, for a Kshetra paused for a human.
abbrev paused_file : State
paused_file = ("k", record unpaused { paused = true; requires_manual_resume = true }) ∷ []

abbrev bad_gateway : CycleError
bad_gateway = other_error (some 503) none none

-- Two runs of 3 under a cap of 5 for the bead.
abbrev entry_of : ℕ → UsageEntry
entry_of cost = record { bead_id = "b"; cost_usd = cost; priced = true }

Ledger-caps_example :
    AtMost (some 5) 3 (spent_on "b" (entry_of 3 ∷ entry_of 3 ∷ []))
    × AtMost none 3 (spent_in (entry_of 3 ∷ entry_of 3 ∷ []))
unfolding make_budget_policy ◌==◌
Ledger-caps_example =
    Ledger-caps always budgets "k" 3 (record { per_bead_usd = some 5; per_kshetra_usd = none }) "b"
      (entry_of 3 ∷ entry_of 3 ∷ []) refl
      (ran bead_run (entry_of 3) (ran bead_run (entry_of 3) no_run refl refl refl (ground arith))
        refl refl refl (ground arith))
