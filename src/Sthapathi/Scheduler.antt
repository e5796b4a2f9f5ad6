-- ===== src/Sthapathi/Scheduler.antt =====
-- src/sthapathi/index.ts: the scheduler's loop over one Kshetra, as steps between its awaits.
pub mod Loops
pub mod Timing
use shreni.Common.{
  ℕ, zero, suc, String, Option, none, some, List, [], ◌∷◌, Bool, true, false, not, ◌&&◌, ◌||◌, ◌+◌,
  eqb, filter, In, ◌≡◌, if◌then◌else◌,
}
use shreni.Sthapathi.Phases.{Phase, idle, selecting, preparing, working, is_phase, can_transition}

abbrev pub default_interval_ms : ℕ
default_interval_ms = 30_000

-- CycleOutcome.
pub data Outcome : Type 0 where
  ran : Outcome
  no_work : Outcome
  declined : Outcome

-- A timer that is set, and has not fired.
pub record Timer : Type 0 where
  pub id : ℕ
  pub delay_ms : ℕ

-- The variables of scheduleLoop, the Kshetra's phase and active task, the timers that are set, the number
-- of timers made, and the number of transitions that setPhase warned of.
pub record Loop : Type 0 where
  pub stopped : Bool
  pub in_flight : Bool
  pub timer : Option ℕ
  pub woken : Bool
  pub backing_off : Bool
  pub phase : Phase
  pub active : Option String
  pub timers : List Timer
  pub made : ℕ
  pub warned : ℕ

abbrev pub set_phase : Phase → Loop → Loop
set_phase p l = record l {
  phase = p;
  warned = if can_transition l.phase p then l.warned else suc l.warned;
}

abbrev pub schedule : ℕ → Loop → Loop
schedule delay l = if l.stopped then l else record l {
  timer = some l.made;
  timers = record { id = l.made; delay_ms = delay } ∷ l.timers;
  made = suc l.made;
}

abbrev pub drop_timer : Option ℕ → List Timer → List Timer
drop_timer none ts = ts
drop_timer (some i) ts = filter (λ t. not (eqb t.id i)) ts

abbrev pub clear_timeout : Loop → Loop
clear_timeout l = record l { timers = drop_timer l.timer l.timers }

abbrev pub is_ran : Outcome → Bool
is_ran ran = true
is_ran no_work = false
is_ran declined = false

abbrev pub is_declined : Outcome → Bool
is_declined ran = false
is_declined no_work = false
is_declined declined = true

-- What follows a cycle that resolves, and one that throws.
abbrev pub settle : ℕ → Outcome → Loop → Loop
settle interval outcome l =
    let wake = l.woken && not (is_declined outcome) in
    schedule (if is_ran outcome || wake then 0 else interval)
      (record l { in_flight = false; backing_off = is_declined outcome; woken = false })

abbrev pub settle_error : ℕ → Loop → Loop
settle_error interval l = schedule interval (record l { in_flight = false })

-- The `finally` of runCycle.
abbrev pub rest : Loop → Loop
rest l = set_phase idle (record l { active = none })

-- The start of a cycle, up to the first await.
abbrev pub begin_cycle : ℕ → Loop → Loop
begin_cycle interval l =
    if is_phase l.phase idle then set_phase selecting l else settle interval declined l

abbrev pub tick : ℕ → Loop → Loop
tick interval l =
    if l.stopped || l.in_flight then l else begin_cycle interval (record l { in_flight = true })

abbrev pub fire : ℕ → ℕ → Loop → Loop
fire interval i l = tick interval (record l { timers = drop_timer (some i) l.timers })

-- What the hooks answer: selectNext, prepareTask, runTask.
abbrev pub selected : ℕ → Option String → Loop → Loop
selected interval none l = settle interval no_work (rest l)
selected interval (some task) l = set_phase preparing l

abbrev pub prepared : ℕ → Option String → Loop → Loop
prepared interval none l = settle interval declined (rest l)
prepared interval (some task) l = record (set_phase working l) { active = some task }

abbrev pub finished : ℕ → Loop → Loop
finished interval l = settle interval ran (rest l)

abbrev pub threw : ℕ → Loop → Loop
threw interval l = settle_error interval (rest l)

abbrev pub stop : Loop → Loop
stop l = clear_timeout (record l { stopped = true })

abbrev pub wake : Loop → Loop
wake l =
    if l.stopped
    then l
    else if l.in_flight
    then record l { woken = true }
    else if l.backing_off
    then l
    else schedule 0 (clear_timeout l)

abbrev pub initial : Loop
initial = record {
  stopped = false;
  in_flight = false;
  timer = none;
  woken = false;
  backing_off = false;
  phase = idle;
  active = none;
  timers = [];
  made = 0;
  warned = 0;
}

abbrev pub started : ℕ → Loop
started interval = schedule interval initial

-- What may happen next.
pub data Step (interval : ℕ) (l : Loop) : Loop → Type 0 where
  fires : (t : Timer) → In t l.timers → Step interval l (fire interval t.id l)
  selects :
      (task : Option String) → l.phase ≡ selecting → Step interval l (selected interval task l)
  prepares :
      (task : Option String) → l.phase ≡ preparing → Step interval l (prepared interval task l)
  finishes : l.phase ≡ working → Step interval l (finished interval l)
  throws : is_phase l.phase idle ≡ false → Step interval l (threw interval l)
  wakes : Step interval l (wake l)
  stops : Step interval l (stop l)

pub data Reached (interval : ℕ) : Loop → Type 0 where
  start : Reached interval (started interval)
  after : {l l' : Loop} → Reached interval l → Step interval l l' → Reached interval l'
