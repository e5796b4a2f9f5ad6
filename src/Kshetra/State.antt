-- ===== src/Kshetra/State.antt =====
-- src/kshetra/state.ts: the state file, an entry per Kshetra.
pub mod Entries
pub mod Stalls
pub mod Latch
use shreni.Common.{
  ℕ, zero, suc, String, Option, none, some, List, [], ◌∷◌, Bool, true, false, not, ◌&&◌, ◌==◌, ◌+◌,
  is_some_of, if◌then◌else◌,
}

abbrev pub missing_base_branch_reason : String
missing_base_branch_reason = "missing-base-branch"

pub record Stuck : Type 0 where
  pub since : ℕ
  pub reason : String
  pub remediation : String
  pub phase : Option String
  pub bead_id : Option String

-- A field that the file may lack holds here what its readers take for it: false, 0 or an empty list.
pub record KshetraState : Type 0 where
  pub paused : Bool
  pub reason : Option String
  pub message : Option String
  pub paused_at : Option ℕ
  pub requires_manual_resume : Bool
  pub health_baseline : ℕ
  pub bead_attempts : List (String × ℕ)
  pub last_progress_at : Option ℕ
  pub last_outcome : Option String
  pub outcome_repeat_count : ℕ
  pub stuck : Option Stuck
  pub phase : Option String
  pub ablations : List String

abbrev pub State : Type 0
State = List (String × KshetraState)

-- Objects of the file, as JavaScript reads, sets and deletes a key.
abbrev pub entry {ℓ} : {A : Type ℓ} → List (String × A) → String → Option A
entry [] k = none
entry ((j, a) ∷ m) k = if j == k then some a else entry m k

abbrev pub set_entry {ℓ} : {A : Type ℓ} → List (String × A) → String → A → List (String × A)
set_entry [] k a = (k, a) ∷ []
set_entry ((j, b) ∷ m) k a = if j == k then (k, a) ∷ m else (j, b) ∷ set_entry m k a

abbrev pub delete_entry {ℓ} : {A : Type ℓ} → List (String × A) → String → List (String × A)
delete_entry [] k = []
delete_entry ((j, b) ∷ m) k = let rest = delete_entry m k in if j == k then rest else (j, b) ∷ rest

abbrev pub or_default {ℓ} : {A : Type ℓ} → Option A → A → A
or_default none a = a
or_default (some x) a = x

-- { paused: false }
abbrev pub unpaused : KshetraState
unpaused = record {
  paused = false;
  reason = none;
  message = none;
  paused_at = none;
  requires_manual_resume = false;
  health_baseline = 0;
  bead_attempts = [];
  last_progress_at = none;
  last_outcome = none;
  outcome_repeat_count = 0;
  stuck = none;
  phase = none;
  ablations = [];
}

abbrev pub current : State → String → KshetraState
current s k = or_default (entry s k) unpaused

-- `now` is the clock.
abbrev pub pause_kshetra : ℕ → String → Bool → String → String → State → State
pause_kshetra now k manual reason message s = set_entry s k (record (current s k) {
  paused = true;
  reason = some reason;
  message = some message;
  paused_at = some now;
  requires_manual_resume = manual;
})

abbrev pub restore_kshetra_slice : String → Option KshetraState → State → State
restore_kshetra_slice k slice s = set_entry s k (record (or_default slice unpaused) {
  stuck = none;
  paused = false;
  requires_manual_resume = false;
})

abbrev pub get_kshetra_state : String → State → Option KshetraState
get_kshetra_state k s = entry s k

abbrev pub resume_kshetra : String → State → State
resume_kshetra k s = set_entry s k (record (current s k) {
  stuck = none;
  paused = false;
  requires_manual_resume = false;
  outcome_repeat_count = 0;
  last_outcome = none;
})

abbrev pub record_progress : ℕ → String → State → State
record_progress now k s = set_entry s k (record (current s k) {
  last_progress_at = some now;
  last_outcome = none;
  outcome_repeat_count = 0;
})

abbrev pub stall_count : KshetraState → String → ℕ
stall_count c outcome = if is_some_of c.last_outcome outcome then suc c.outcome_repeat_count else 1

abbrev pub record_stall : String → String → State → State × ℕ
record_stall k outcome s =
    let count = stall_count (current s k) outcome in
    (
      set_entry s k
          (record (current s k) { last_outcome = some outcome; outcome_repeat_count = count }),
      count,
    )

abbrev pub set_stuck : String → Stuck → State → State
set_stuck k info s = set_entry s k (record (current s k) { stuck = some info })

abbrev pub set_phase : String → String → State → State
set_phase k phase s = set_entry s k (record (current s k) { phase = some phase })

abbrev pub set_ablations : String → List String → State → State
set_ablations k ablations s = set_entry s k (record (current s k) { ablations = ablations })

pub record Progress : Type 0 where
  pub last_progress_at : Option ℕ
  pub last_outcome : Option String
  pub outcome_repeat_count : ℕ
  pub stuck : Option Stuck

abbrev pub get_progress_state : String → State → Progress
get_progress_state k s = record {
  last_progress_at = (current s k).last_progress_at;
  last_outcome = (current s k).last_outcome;
  outcome_repeat_count = (current s k).outcome_repeat_count;
  stuck = (current s k).stuck;
}

abbrev pub get_health_baseline : String → State → ℕ
get_health_baseline k s = (current s k).health_baseline

abbrev pub set_health_baseline : String → ℕ → State → State
set_health_baseline k count s = set_entry s k (record (current s k) { health_baseline = count })

abbrev pub get_bead_attempts : String → String → State → ℕ
get_bead_attempts k bead s = or_default (entry (current s k).bead_attempts bead) 0

abbrev pub record_bead_attempt : String → String → State → State × ℕ
record_bead_attempt k bead s =
    let count = suc (get_bead_attempts k bead s) in
    (
      set_entry s k (record (current s k) {
        bead_attempts = set_entry (current s k).bead_attempts bead count;
      }),
      count,
    )

abbrev pub cleared : String → KshetraState → KshetraState
cleared bead c = record c { bead_attempts = delete_entry c.bead_attempts bead }

abbrev pub clear_bead_attempts : String → String → State → State
clear_bead_attempts k bead s = elim (entry (current s k).bead_attempts bead) [
  | none ↦ s
  | some n ↦ set_entry s k (cleared bead (current s k))
]

abbrev pub is_kshetra_manually_paused : String → State → Bool
is_kshetra_manually_paused k s = (current s k).paused && (current s k).requires_manual_resume

abbrev pub is_stuck_pause : KshetraState → Bool
is_stuck_pause c = c.paused && is_some_of c.reason "stuck"

abbrev pub recovered : KshetraState → KshetraState
recovered c = record c {
  stuck = none;
  paused = false;
  requires_manual_resume = false;
  reason = none;
  message = none;
  outcome_repeat_count = 0;
  last_outcome = none;
}

abbrev pub clear_stuck_pause_on_recover : String → State → State × Bool
clear_stuck_pause_on_recover k s =
    if is_stuck_pause (current s k)
    then (set_entry s k (recovered (current s k)), true)
    else (s, false)

abbrev pub cooled : KshetraState → KshetraState
cooled c = if c.paused && not c.requires_manual_resume then record c { paused = false } else c

abbrev pub clear_cooldown_pauses : State → State
clear_cooldown_pauses [] = []
clear_cooldown_pauses ((k, c) ∷ s) = (k, cooled c) ∷ clear_cooldown_pauses s
