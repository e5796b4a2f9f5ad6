-- ===== src/Sthapathi/Watchdog.antt =====
-- src/sthapathi/watchdog.ts: when a worker counts as stuck, and what a trip of the watchdog does.
pub mod Trips
use shreni.Common.{
  ℕ, String, Option, none, some, List, [], ◌∷◌, ◌++◌, Bool, true, false, not, ◌&&◌, ◌||◌, ltb, leb,
  contains, ◌+◌, ◌*◌, ◌/◌, if◌then◌else◌,
}
use shreni.Kshetra.State.{
  State, Stuck, pause_kshetra, set_stuck, get_progress_state, is_kshetra_manually_paused,
  or_default,
}
use shreni.Sthapathi.Phases.{Phase, idle, selecting, preparing, working, is_phase}

abbrev pub stuck_threshold_ms : ℕ
stuck_threshold_ms = 20 * 60 * 1000

abbrev pub max_outcome_repeat : ℕ
max_outcome_repeat = 5

pub record Thresholds : Type 0 where
  pub stuck_ms : Option ℕ
  pub max_repeat : Option ℕ

pub record StuckInput : Type 0 where
  pub phase : Phase
  pub manually_paused : Bool
  pub heartbeat_age_ms : Option ℕ
  pub outcome_repeat_count : ℕ
  pub last_outcome : Option String
  pub idle_no_work : Bool
  pub thresholds : Thresholds

-- The reason of a verdict, before it is put in words.
pub data Reason : Type 0 where
  repeated : (outcome : String) (count : ℕ) → Reason
  no_heartbeat : (minutes : ℕ) → Phase → Reason

-- The steps for a human, by the kind of stall that they are for.
pub data Remediation : Type 0 where
  delete_branch : Remediation
  discard_changes : Remediation
  read_log : Remediation
  await_repair : Remediation
  acknowledge : Remediation

pub data StuckVerdict : Type 0 where
  clear : StuckVerdict
  stuck : Reason → Remediation → StuckVerdict

unfoldable pub remediation_for : Option String → Remediation
unfolding contains
remediation_for outcome =
    let o = or_default outcome "" in
    if contains o "branch already exists"
    then delete_branch
    else if contains o "dirty working tree"
    then discard_changes
    else if contains o "cycle:GIT_FAILED"
    then read_log
    else if contains o "base suite red" || contains o "health"
    then await_repair
    else acknowledge

-- The age of the heartbeat passes the threshold, while the worker should be busy.
abbrev pub is_silent : Option ℕ → ℕ → Phase → Bool
is_silent none limit phase = false
is_silent (some age) limit phase = not (is_phase phase idle) && ltb limit age

-- Math.round(heartbeatAgeMs / 60_000)
abbrev pub minutes : Option ℕ → ℕ
minutes none = 0
minutes (some age) = (age + 30_000) / 60_000

unfoldable pub evaluate_stuck : StuckInput → StuckVerdict
unfolding remediation_for
evaluate_stuck input =
    if input.manually_paused
    then clear
    else if input.idle_no_work
    then clear
    else if leb (or_default input.thresholds.max_repeat max_outcome_repeat)
        input.outcome_repeat_count
    then stuck (repeated (or_default input.last_outcome "unknown") input.outcome_repeat_count)
        (remediation_for input.last_outcome)
    else if is_silent input.heartbeat_age_ms
        (or_default input.thresholds.stuck_ms stuck_threshold_ms) input.phase
    then stuck (no_heartbeat (minutes input.heartbeat_age_ms) input.phase) (remediation_for none)
    else clear

-- What a pass of the watchdog reads and writes: the state file, and the operator's notifications.
pub record Desk : Type 0 where
  pub state : State
  pub notified : List (String × Reason)

-- What a pass sees: the phase, the clock, the age of the heartbeat, and whether a probe found ready work.
-- A heartbeat from the future has age 0.
pub record Look : Type 0 where
  pub phase : Phase
  pub now : ℕ
  pub heartbeat_age_ms : Option ℕ
  pub has_ready_work : Option Bool

abbrev pub may_be_idle : Phase → Bool
may_be_idle phase = is_phase phase idle || is_phase phase selecting

abbrev pub idle_no_work : Phase → Option Bool → Bool
idle_no_work phase none = false
idle_no_work phase (some ready) = may_be_idle phase && not ready

pub record Words : Type 0 where
  pub reason_text : Reason → String
  pub remediation_text : Remediation → String
  pub phase_text : Phase → String

abbrev pub escalate : Words → String → Look → Desk → StuckVerdict → Desk
escalate w k look d clear = d
escalate w k look d (stuck r m) = record {
  state = pause_kshetra look.now k true "stuck" (w.reason_text r) (
      set_stuck k
        (record {
          since = look.now;
          reason = w.reason_text r;
          remediation = w.remediation_text m;
          phase = some (w.phase_text look.phase);
          bead_id = none;
        })
        d.state);
  notified = (k, r) ∷ d.notified;
}

abbrev pub input_of : String → Thresholds → Look → Desk → StuckInput
input_of k thresholds look d = record {
  phase = look.phase;
  manually_paused = is_kshetra_manually_paused k d.state;
  heartbeat_age_ms = look.heartbeat_age_ms;
  outcome_repeat_count = (get_progress_state k d.state).outcome_repeat_count;
  last_outcome = (get_progress_state k d.state).last_outcome;
  idle_no_work = idle_no_work look.phase look.has_ready_work;
  thresholds = thresholds;
}

-- runWatchdogOnce: the desk after it. `w` puts a verdict in words, none of which are empty.
unfoldable pub run_watchdog_once : Words → String → Thresholds → Look → Desk → Desk
unfolding evaluate_stuck
run_watchdog_once w k thresholds look d = elim (get_progress_state k d.state).stuck [
  | some info ↦ d
  | none ↦ escalate w k look d (evaluate_stuck (input_of k thresholds look d))
]
