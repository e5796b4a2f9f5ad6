-- ===== src/Sthapathi/Scheduler/Loops.antt =====
-- src/sthapathi/index.ts: a loop that runs does not end, and runs one cycle at a time.
use shreni.Common.{
  ℕ, String, Option, none, some, List, [], ◌∷◌, true, false, not, ◌||◌, is_some, In, ◌≡◌, ◌⊎◌, inl,
  inr, refl, subst, arith, Bool-cases,
}
use shreni.Sthapathi.Phases.{Phase, idle, selecting, preparing, working, is_phase, can_transition}
use shreni.Sthapathi.Scheduler.{
  Timer, Loop, set_phase, clear_timeout, drop_timer, Outcome, ran, no_work, declined, is_ran,
  is_declined, initial, settle, settle_error, rest, schedule, Step, fires, selects, prepares,
  finishes, throws, wakes, stops, Reached, start, after, started, fire, wake, stop,
}

-- The one timer that is set, and that the loop holds.
pub record OneTimer (interval : ℕ) (l : Loop) : Type 0 where
  pub timer : Timer
  pub only : l.timers ≡ timer ∷ []
  pub held : l.timer ≡ some timer.id
  pub delay : (timer.delay_ms ≡ 0) ⊎ (timer.delay_ms ≡ interval)
  pub backs_off : l.backing_off ≡ true → timer.delay_ms ≡ interval

-- Between two steps: a cycle is in flight exactly outside the idle phase, and then no timer is set; a
-- loop that waits has one timer, and a stopped loop has none.
pub record Sound (interval : ℕ) (l : Loop) : Type 0 where
  pub flight : l.in_flight ≡ not (is_phase l.phase idle)
  pub task : is_some l.active ≡ is_phase l.phase working
  pub quiet : (l.in_flight ≡ true) ⊎ (l.stopped ≡ true) → l.timers ≡ []
  pub waits : l.in_flight ≡ false → l.stopped ≡ false → OneTimer interval l
  pub warned : l.warned ≡ 0

phase_cases : (p : Phase) → (p ≡ idle) ⊎ (is_phase p idle ≡ false)
phase_cases idle = inl refl
phase_cases selecting = inr refl
phase_cases preparing = inr refl
phase_cases working = inr refl

is_ran_declined : (o : Outcome) → is_declined o ≡ true → is_ran o ≡ false
is_ran_declined ran h = absurd (ground arith)
is_ran_declined no_work h = refl
is_ran_declined declined h = refl

drop_timer_nil : (i : Option ℕ) (ts : List Timer) → ts ≡ [] → drop_timer i ts ≡ []
drop_timer_nil none ts h = h
drop_timer_nil (some i) ts h = ground (arith, h)

-- A loop at rest with no timer, and what is set for it.
module _ (interval delay : ℕ) (l : Loop) (flight : l.in_flight ≡ false)
    (phase : is_phase l.phase idle ≡ true) (task : is_some l.active ≡ false)
    (timers : l.timers ≡ []) (warned : l.warned ≡ 0) (either : (delay ≡ 0) ⊎ (delay ≡ interval))
    (backs_off : l.backing_off ≡ true → delay ≡ interval) where
  at_rest : is_phase l.phase working ≡ false
  at_rest = elim (phase_cases l.phase) [
    | inl e ↦ ground (arith, e)
    | inr e ↦ absurd (ground (arith, e, phase))
  ]

  schedule-Sound : Sound interval (schedule delay l)
  schedule-Sound = elim (Bool-cases l.stopped) [
    | inl e ↦ record {
      flight = ground (arith, e, flight, phase);
      task = ground (arith, e, task, at_rest);
      quiet = λ h. ground (arith, e, timers);
      waits = λ a b. absurd (ground (arith, e, b));
      warned = ground (arith, e, warned);
    }
    | inr e ↦ record {
      flight = ground (arith, e, flight, phase);
      task = ground (arith, e, task, at_rest);
      quiet = λ h. absurd (ground (arith, e, h, flight));
      waits = λ a b. record {
        timer = record { id = l.made; delay_ms = delay };
        only = ground (arith, e, timers);
        held = ground (arith, e);
        delay = either;
        backs_off = λ h. backs_off (ground (arith, h, e));
      };
      warned = ground (arith, e, warned);
    }
  ]

started-Sound : (interval : ℕ) → Sound interval (started interval)
started-Sound interval =
    schedule-Sound interval interval initial refl refl refl refl refl (inr refl) (λ h. refl)

module _ (interval : ℕ) (l : Loop) (v : Sound interval l) where
  no_timers : is_phase l.phase idle ≡ false → l.timers ≡ []
  no_timers h = v.quiet (inl (ground (arith, h, v.flight)))

  settle-Sound :
      (outcome : Outcome)
      → is_phase l.phase idle ≡ false
      → can_transition l.phase idle ≡ true
      → Sound interval (settle interval outcome (rest l))
  settle-Sound outcome busy may =
      schedule-Sound interval _
        (record (rest l) { in_flight = false; backing_off = is_declined outcome; woken = false })
        refl refl refl (no_timers busy) (ground (arith, may, v.warned)) (ground arith)
        (λ h. ground (arith, h, is_ran_declined outcome))

  settle_error-Sound :
      is_phase l.phase idle ≡ false
      → can_transition l.phase idle ≡ true
      → Sound interval (settle_error interval (rest l))
  settle_error-Sound busy may =
      schedule-Sound interval interval (record (rest l) { in_flight = false }) refl refl refl
        (no_timers busy) (ground (arith, may, v.warned)) (inr refl) (λ h. refl)

  -- Within a cycle: the phase moves on, and the flight goes on.
  moved-Sound :
      (p : Phase) (task : Option String)
      → is_phase l.phase idle ≡ false
      → can_transition l.phase p ≡ true
      → is_phase p idle ≡ false
      → is_some task ≡ is_phase p working
      → Sound interval (record (set_phase p l) { active = task })
  moved-Sound p task busy may on same = record {
    flight = ground (arith, v.flight, busy, on);
    task = same;
    quiet = λ h. no_timers busy;
    waits = λ a b. absurd (ground (arith, a, busy, v.flight));
    warned = ground (arith, may, v.warned);
  }

  fire-Sound : (t : Timer) → In t l.timers → Sound interval (fire interval t.id l)
  fire-Sound t i =
      let free : l.in_flight ≡ false = elim (Bool-cases l.in_flight) [
        | inl h ↦ absurd (ground (arith, i, v.quiet (inl h)))
        | inr h ↦ h
      ] in
      let runs : l.stopped ≡ false = elim (Bool-cases l.stopped) [
        | inl h ↦ absurd (ground (arith, i, v.quiet (inr h)))
        | inr h ↦ h
      ] in
      let one = v.waits free runs in
      let asleep : l.phase ≡ idle = elim (phase_cases l.phase) [
        | inl h ↦ h
        | inr h ↦ absurd (ground (arith, h, v.flight, free))
      ] in
      record {
        flight = ground (arith, free, runs, asleep);
        task = ground (arith, free, runs, asleep, v.task);
        quiet = λ h. ground (arith, free, runs, asleep, one.only, i);
        waits = λ a b. absurd (ground (arith, free, runs, asleep, a));
        warned = ground (arith, free, runs, asleep, v.warned);
      }

  stop-Sound : Sound interval (stop l)
  stop-Sound = record {
    flight = v.flight;
    task = v.task;
    quiet = λ h. none_left;
    waits = λ a b. absurd (ground (arith, b));
    warned = v.warned;
  }
    where
      none_left : (stop l).timers ≡ []
      none_left = elim (Bool-cases (l.in_flight || l.stopped)) [
        | inl h ↦ drop_timer_nil l.timer l.timers (v.quiet (ground (arith, h)))
        | inr h ↦
            let one = v.waits (ground (arith, h)) (ground (arith, h)) in
            ground (arith, one.only, one.held)
      ]

  wake-Sound : Sound interval (wake l)
  wake-Sound = elim (Bool-cases l.stopped) [
    | inl h ↦ subst (Sound interval) {x = l} (ground (arith, h)) v
    | inr h ↦ elim (Bool-cases l.in_flight) [
      | inl k ↦
          subst (Sound interval) {x = record l { woken = true }} (ground (arith, h, k)) (record {
            flight = v.flight;
            task = v.task;
            quiet = v.quiet;
            waits = λ a b. absurd (ground (arith, a, k));
            warned = v.warned;
          })
      | inr k ↦ elim (Bool-cases l.backing_off) [
        | inl b ↦ subst (Sound interval) {x = l} (ground (arith, h, k, b)) v
        | inr b ↦
            let one = v.waits k h in
            let asleep : is_phase l.phase idle ≡ true = ground (arith, k, v.flight) in
            subst (Sound interval) {x = schedule 0 (clear_timeout l)} (ground (arith, h, k, b)) (
              schedule-Sound interval 0 (clear_timeout l) k asleep
                (ground (arith, v.task, at_rest asleep)) (ground (arith, one.only, one.held))
                v.warned (inl refl) (λ c. absurd (ground (arith, b, c))))
      ]
    ]
  ]
    where
      at_rest : is_phase l.phase idle ≡ true → is_phase l.phase working ≡ false
      at_rest h = elim (phase_cases l.phase) [
        | inl e ↦ ground (arith, e)
        | inr e ↦ absurd (ground (arith, e, h))
      ]

  -- Any phase but idle may go back to it.
  back : (p : Phase) → is_phase p idle ≡ false → can_transition p idle ≡ true
  back idle h = absurd (ground arith)
  back selecting h = refl
  back preparing h = refl
  back working h = refl

  Step-Sound : (l' : Loop) → Step interval l l' → Sound interval l'
  Step-Sound l' (fires t i) = fire-Sound t i
  Step-Sound l' (selects none e) = settle-Sound no_work (ground (arith, e)) (ground (arith, e))
  Step-Sound l' (selects (some task) e) =
      moved-Sound preparing l.active (ground (arith, e)) (ground (arith, e)) refl
        (ground (arith, e, v.task))
  Step-Sound l' (prepares none e) = settle-Sound declined (ground (arith, e)) (ground (arith, e))
  Step-Sound l' (prepares (some task) e) =
      moved-Sound working (some task) (ground (arith, e)) (ground (arith, e)) refl refl
  Step-Sound l' (finishes e) = settle-Sound ran (ground (arith, e)) (ground (arith, e))
  Step-Sound l' (throws e) = settle_error-Sound e (back l.phase e)
  Step-Sound l' wakes = wake-Sound
  Step-Sound l' stops = stop-Sound

-- In every state that the scheduler's loop reaches, whatever the hooks answer or throw and whenever it
-- is woken or stopped: a cycle is in flight exactly outside the idle phase; a task is active exactly
-- in the working phase; while a cycle is in flight or after a stop no timer is set; a loop that waits
-- has exactly one timer, the one it holds, of no delay or of the interval, and of the interval while
-- it backs off; and no illegal transition was warned of.
pub Reached-Sound : (interval : ℕ) (l : Loop) → Reached interval l → Sound interval l
Reached-Sound interval l start = started-Sound interval
Reached-Sound interval l (after {l = before} r s) =
    Step-Sound interval before (Reached-Sound interval before r) l s
