-- ===== src/Sthapathi/Scheduler/Timing.antt =====
-- src/sthapathi/index.ts, recordPhaseChange: the time in each phase, with empty polls folded into one event.
use shreni.Common.{
  ℕ, suc, Option, none, some, List, [], ◌∷◌, true, false, ◌&&◌, ◌+◌, ltb, ◌≡◌, refl, sym, arith,
  inl, inr, Option-cases, Bool-cases, is_some, if◌then◌else◌,
}
use shreni.Sthapathi.Phases.{Phase, idle, selecting, preparing, working, is_phase}

-- A phase_changed event.
pub record PhaseChange : Type 0 where
  pub from : Phase
  pub to : Phase
  pub held_ms : ℕ
  pub polls : Option ℕ

pub record IdlePolls : Type 0 where
  pub idle_ms : ℕ
  pub polls : ℕ

-- The maps of the scheduler at one Kshetra, and the events, newest first.
pub record Times : Type 0 where
  pub pending_idle_ms : Option ℕ
  pub idle_accum : Option IdlePolls
  pub emitted : List PhaseChange

abbrev pub emit_phase : Phase → Phase → ℕ → Option ℕ → Times → Times
emit_phase from to held polls t = record t {
  emitted = record { from = from; to = to; held_ms = held; polls = polls } ∷ t.emitted;
}

abbrev pub emit_polls : Option IdlePolls → Times → Times
emit_polls none t = t
emit_polls (some acc) t =
    if ltb 0 acc.polls
    then record (emit_phase idle selecting acc.idle_ms (some acc.polls) t) { idle_accum = none }
    else t

abbrev pub flush_phase : Times → Times
flush_phase t = emit_polls t.idle_accum t

abbrev pub or_zero : Option ℕ → ℕ
or_zero none = 0
or_zero (some n) = n

abbrev pub one_poll : Option IdlePolls → ℕ → IdlePolls
one_poll none ms = record { idle_ms = 0 + ms; polls = 1 }
one_poll (some acc) ms = record { idle_ms = acc.idle_ms + ms; polls = suc acc.polls }

abbrev pub emit_buffered : Phase → Option ℕ → Times → Times
emit_buffered from none t = t
emit_buffered from (some ms) t =
    if is_phase from selecting
    then record (emit_phase idle selecting ms none t) { pending_idle_ms = none }
    else t

unfoldable pub record_phase_change : Phase → Phase → ℕ → Times → Times
record_phase_change from to held t =
    if is_phase from idle && is_phase to selecting
    then record t { pending_idle_ms = some held }
    else if is_phase from selecting && is_phase to idle
    then record t {
      idle_accum = some (one_poll t.idle_accum (or_zero t.pending_idle_ms));
      pending_idle_ms = none;
    }
    else emit_phase from to held none (emit_buffered from t.pending_idle_ms (flush_phase t))

abbrev pub no_times : Times
no_times = record { pending_idle_ms = none; idle_accum = none; emitted = [] }

-- The transitions of a worker from its start: the phase, the times, and the idle time and number of the
-- polls so far.
pub data Polled : Phase → Times → ℕ → ℕ → Type 0 where
  fresh : Polled idle no_times 0 0
  polls :
      {t : Times} {n p : ℕ} (held : ℕ)
      → Polled idle t n p
      → Polled selecting (record_phase_change idle selecting held t) (n + held) (suc p)
  misses :
      {t : Times} {n p : ℕ} (held : ℕ)
      → Polled selecting t n p
      → Polled idle (record_phase_change selecting idle held t) n p
  picks :
      {t : Times} {n p : ℕ} (held : ℕ)
      → Polled selecting t n p
      → Polled preparing (record_phase_change selecting preparing held t) n p
  rejects :
      {t : Times} {n p : ℕ} (held : ℕ)
      → Polled preparing t n p
      → Polled idle (record_phase_change preparing idle held t) n p
  works :
      {t : Times} {n p : ℕ} (held : ℕ)
      → Polled preparing t n p
      → Polled working (record_phase_change preparing working held t) n p
  rests :
      {t : Times} {n p : ℕ} (held : ℕ)
      → Polled working t n p
      → Polled idle (record_phase_change working idle held t) n p
  flushes : {ph : Phase} {t : Times} {n p : ℕ} → Polled ph t n p → Polled ph (flush_phase t) n p

-- The idle time, and the number of polls, that an event reports.
abbrev pub idle_ms_of : PhaseChange → ℕ
idle_ms_of e = if is_phase e.from idle then e.held_ms else 0

abbrev pub poll_count : Option ℕ → ℕ
poll_count none = 1
poll_count (some n) = n

abbrev pub polls_of : PhaseChange → ℕ
polls_of e = if is_phase e.from idle then poll_count e.polls else 0

abbrev pub sum_of : (PhaseChange → ℕ) → List PhaseChange → ℕ
sum_of f [] = 0
sum_of f (e ∷ es) = f e + sum_of f es

abbrev pub accum_ms : Option IdlePolls → ℕ
accum_ms none = 0
accum_ms (some acc) = acc.idle_ms

abbrev pub accum_polls : Option IdlePolls → ℕ
accum_polls none = 0
accum_polls (some acc) = acc.polls

abbrev pub pending_polls : Option ℕ → ℕ
pending_polls none = 0
pending_polls (some ms) = 1

-- What was reported, and what is still kept, is all that there was.
pub record Conserved (ph : Phase) (t : Times) (n p : ℕ) : Type 0 where
  pub ms : (sum_of idle_ms_of t.emitted + accum_ms t.idle_accum + or_zero t.pending_idle_ms) ≡ n
  pub polls :
      (sum_of polls_of t.emitted + accum_polls t.idle_accum + pending_polls t.pending_idle_ms) ≡ p
  pub buffered : is_some t.pending_idle_ms ≡ is_phase ph selecting

flush-Conserved :
    (ph : Phase) (t : Times) (n p : ℕ) → Conserved ph t n p → Conserved ph (flush_phase t) n p
flush-Conserved ph t n p c = elim (Option-cases t.idle_accum) [
  | inl e ↦ record {
    ms = ground (arith, e, c.ms);
    polls = ground (arith, e, c.polls);
    buffered = ground (arith, e, c.buffered);
  }
  | inr (acc, e) ↦ elim (Bool-cases (ltb 0 acc.polls)) [
    | inl k ↦ record {
      ms = ground (arith, e, k, c.ms);
      polls = ground (arith, e, k, c.polls);
      buffered = ground (arith, e, k, c.buffered);
    }
    | inr k ↦ record {
      ms = ground (arith, e, k, c.ms);
      polls = ground (arith, e, k, c.polls);
      buffered = ground (arith, e, k, c.buffered);
    }
  ]
]

flush-pending : (t : Times) → (flush_phase t).pending_idle_ms ≡ t.pending_idle_ms
flush-pending t = elim (Option-cases t.idle_accum) [
  | inl e ↦ ground (arith, e)
  | inr (acc, e) ↦ ground (arith, e, Bool-cases (ltb 0 acc.polls))
]

-- A transition that is real work, after the flush.
emits-Conserved :
    (from to : Phase) (held : ℕ) (o : Option ℕ) (t : Times) (n p : ℕ)
    → is_phase from idle ≡ false
    → is_phase to selecting ≡ false
    → o ≡ t.pending_idle_ms
    → Conserved from t n p
    → Conserved to (emit_phase from to held none (emit_buffered from o t)) n p
emits-Conserved from to held none t n p a b e c = record {
  ms = ground (arith, a, e, c.ms);
  polls = ground (arith, a, e, c.polls);
  buffered = ground (arith, b, e);
}
emits-Conserved from to held (some ms) t n p a b e c =
    let here : is_phase from selecting ≡ true = ground (arith, e, c.buffered) in
    record {
      ms = ground (arith, a, here, e, c.ms);
      polls = ground (arith, a, here, e, c.polls);
      buffered = ground (arith, b, here);
    }

works_on :
    (from to : Phase) (held : ℕ) (t : Times) (n p : ℕ)
    → is_phase from idle ≡ false
    → is_phase to selecting ≡ false
    → Conserved from t n p
    → Conserved to
        (emit_phase from to held none (emit_buffered from t.pending_idle_ms (flush_phase t)))
        n
        p
works_on from to held t n p a b c =
    emits-Conserved from to held t.pending_idle_ms (flush_phase t) n p a b (sym (flush-pending t))
      (flush-Conserved from t n p c)

-- Over any transitions of a worker and flushes from its start, the idle time and the number of polls
-- in the events, with those still kept, are all that there were, and an idle time is buffered exactly
-- while selecting.
pub Polled-Conserved : (ph : Phase) (t : Times) (n p : ℕ) → Polled ph t n p → Conserved ph t n p
unfolding record_phase_change
Polled-Conserved ph t n p fresh = record { ms = refl; polls = refl; buffered = refl }
Polled-Conserved ph t n p (polls {t = b} {n = m} {p = q} held r) =
    let c = Polled-Conserved idle b m q r in
    record {
      ms = ground (arith, c.ms, c.buffered);
      polls = ground (arith, c.polls, c.buffered);
      buffered = refl;
    }
Polled-Conserved ph t n p (misses {t = b} held r) =
    let c = Polled-Conserved selecting b n p r in
    record {
      ms = ground (arith, c.ms, c.buffered);
      polls = ground (arith, c.polls, c.buffered);
      buffered = refl;
    }
Polled-Conserved ph t n p (picks {t = b} held r) =
    works_on selecting preparing held b n p refl refl (Polled-Conserved selecting b n p r)
Polled-Conserved ph t n p (rejects {t = b} held r) =
    works_on preparing idle held b n p refl refl (Polled-Conserved preparing b n p r)
Polled-Conserved ph t n p (works {t = b} held r) =
    works_on preparing working held b n p refl refl (Polled-Conserved preparing b n p r)
Polled-Conserved ph t n p (rests {t = b} held r) =
    works_on working idle held b n p refl refl (Polled-Conserved working b n p r)
Polled-Conserved ph t n p (flushes {t = b} r) =
    flush-Conserved ph b n p (Polled-Conserved ph b n p r)
