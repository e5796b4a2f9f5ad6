-- ===== src/Sthapathi/Watchdog/Trips.antt =====
-- src/sthapathi/watchdog.ts: when the watchdog trips, and how often it tells the operator.
use shreni.Common.{
  ℕ, suc, String, Option, none, some, Bool, true, false, not, ◌&&◌, ◌||◌, ltb, leb, length, is_some,
  ◌≤◌, ◌≡◌, ◌⊎◌, ◌↔◌, inl, inr, refl, sym, ap, subst, ◌∙◌, arith, Bool-cases, Option-cases,
}
use shreni.Kshetra.State.{State, current, is_kshetra_manually_paused, or_default, set_entry}
use shreni.Kshetra.State.Entries.{entry-set_entry}
use shreni.Kshetra.State.Latch.{Write, Write-stuck}
use shreni.Sthapathi.Phases.{Phase, idle, is_phase}
use shreni.Sthapathi.Watchdog.{
  StuckInput, StuckVerdict, clear, stuck, evaluate_stuck, is_silent, stuck_threshold_ms,
  max_outcome_repeat, Thresholds, Look, Desk, Words, run_watchdog_once, input_of, escalate,
}

abbrev pub is_stuck : StuckVerdict → Bool
is_stuck clear = false
is_stuck (stuck r m) = true

abbrev Past : Option ℕ → ℕ → Type 0
Past none limit = ⊥
Past (some age) limit = ltb limit age ≡ true

-- A worker that should be at work, and repeats an outcome or is silent.
pub record Trips (i : StuckInput) : Type 0 where
  pub not_paused : i.manually_paused ≡ false
  pub not_idle : i.idle_no_work ≡ false
  pub stalls :
      (leb (or_default i.thresholds.max_repeat max_outcome_repeat) i.outcome_repeat_count ≡ true)
      ⊎ ((is_phase i.phase idle ≡ false)
          × Past i.heartbeat_age_ms (or_default i.thresholds.stuck_ms stuck_threshold_ms))

silent_iff :
    (age : Option ℕ) (limit : ℕ) (p : Phase)
    → (is_silent age limit p ≡ true) ↔ ((is_phase p idle ≡ false) × Past age limit)
silent_iff none limit p = ((λ h. absurd (ground (arith, h))), (λ (a, b). absurd b))
silent_iff (some age) limit p =
    ((λ h. (ground (arith, h), ground (arith, h))), (λ (a, b). ground (arith, a, b)))

is_stuck_lem :
    (i : StuckInput)
    → is_stuck (evaluate_stuck i) ≡ (
        not i.manually_paused
        && not i.idle_no_work
        && (leb (or_default i.thresholds.max_repeat max_outcome_repeat) i.outcome_repeat_count
            || is_silent i.heartbeat_age_ms
                (or_default i.thresholds.stuck_ms stuck_threshold_ms)
                i.phase))
unfolding evaluate_stuck
is_stuck_lem i = ground arith

-- A worker is judged stuck exactly when it is not paused by hand, is not idle for lack of work, and
-- repeated an outcome at least as often as the threshold, or has a heartbeat older than the threshold
-- outside the idle phase.
pub evaluate_stuck-Trips_iff : (i : StuckInput) → (is_stuck (evaluate_stuck i) ≡ true) ↔ Trips i
evaluate_stuck-Trips_iff i =
    let limit = or_default i.thresholds.stuck_ms stuck_threshold_ms in
    let quiet = silent_iff i.heartbeat_age_ms limit i.phase in
    (
      λ h. record {
        not_paused = ground (arith, h, is_stuck_lem i);
        not_idle = ground (arith, h, is_stuck_lem i);
        stalls = elim (Bool-cases (is_silent i.heartbeat_age_ms limit i.phase)) [
          | inl q ↦ inr (quiet.0 q)
          | inr q ↦ inl (ground (arith, h, q, is_stuck_lem i))
        ];
      },
      λ t. elim t.stalls [
        | inl r ↦ is_stuck_lem i ∙ ground (arith, t.not_paused, t.not_idle, r)
        | inr q ↦ is_stuck_lem i ∙ ground (arith, t.not_paused, t.not_idle, quiet.1 q)
      ],
    )

-- Passes of the watchdog and writes of the worker, in any order, with no acknowledgment among them.
pub data Watched (w : Words) (k : String) (thresholds : Thresholds) : Desk → Desk → Type 0 where
  quiet : {d : Desk} → Watched w k thresholds d d
  looked :
      {d d' : Desk} (look : Look)
      → Watched w k thresholds (run_watchdog_once w k thresholds look d) d'
      → Watched w k thresholds d d'
  wrote :
      {d d' : Desk} {s : State}
      → Write k d.state s
      → Watched w k thresholds (record d { state = s }) d'
      → Watched w k thresholds d d'

abbrev pub Latched : String → Desk → Type 0
Latched k d = is_some (current d.state k).stuck ≡ true

module _ (w : Words) (k : String) (thresholds : Thresholds) where
  -- A trip latches, and pauses until a human resumes.
  abbrev pub Tripped : Desk → Desk → Type 0
  Tripped d d' =
      Latched k d'
      × (is_kshetra_manually_paused k d'.state ≡ true)
      × (length d'.notified ≡ suc (length d.notified))

  escalates :
      (look : Look) (d : Desk) (v : StuckVerdict)
      → (escalate w k look d v ≡ d) ⊎ Tripped d (escalate w k look d v)
  escalates look d clear = inl refl
  escalates look d (stuck r m) = inr (
    rw (entry-set_entry (set_entry d.state k _) k _) (rw (entry-set_entry d.state k _) refl),
    rw (entry-set_entry (set_entry d.state k _) k _) refl,
    refl,
  )

  held : (look : Look) (d : Desk) → Latched k d → run_watchdog_once w k thresholds look d ≡ d
  unfolding run_watchdog_once
  held look d h = elim (Option-cases (current d.state k).stuck) [
    | inl e ↦ absurd (ground (arith, e, h))
    | inr (info, e) ↦ ground (arith, e)
  ]

  one_pass :
      (look : Look) (d : Desk)
      → (run_watchdog_once w k thresholds look d ≡ d)
        ⊎ Tripped d (run_watchdog_once w k thresholds look d)
  unfolding run_watchdog_once
  one_pass look d = elim (Option-cases (current d.state k).stuck) [
    | inl e ↦
        subst (λ d'. (d' ≡ d) ⊎ Tripped d d') (ground (arith, e))
          (escalates look d (evaluate_stuck (input_of k thresholds look d)))
    | inr (info, e) ↦ inl (ground (arith, e))
  ]

  -- While the latch holds, nobody is notified again.
  latched : (d d' : Desk) → Watched w k thresholds d d' → Latched k d → d'.notified ≡ d.notified
  latched d d' quiet h = refl
  latched d d' (looked look r) h =
      let same = held look d h in
      latched (run_watchdog_once w k thresholds look d) d' r (subst (Latched k) (sym same) h)
      ∙ ap (λ x. x.notified) same
  latched d d' (wrote {s} a r) h =
      latched (record d { state = s }) d' r (Write-stuck k d.state s a h)

-- Over any sequence of passes of the watchdog and writes of the worker with no acknowledgment among
-- them, the operator is notified at most once.
pub watchdog-notifies :
    (w : Words) (k : String) (thresholds : Thresholds) (d d' : Desk)
    → Watched w k thresholds d d'
    → length d'.notified ≤ suc (length d.notified)
watchdog-notifies w k thresholds d d' quiet = ground arith
watchdog-notifies w k thresholds d d' (looked look r) = elim (one_pass w k thresholds look d) [
  | inl same ↦
      ground (
        arith,
        watchdog-notifies w k thresholds (run_watchdog_once w k thresholds look d) d' r,
        same,
      )
  | inr (latch, paused, one) ↦
      ground
        (arith, latched w k thresholds (run_watchdog_once w k thresholds look d) d' r latch, one)
]
watchdog-notifies w k thresholds d d' (wrote {s} a r) =
    watchdog-notifies w k thresholds (record d { state = s }) d' r
