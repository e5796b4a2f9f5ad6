-- ===== src/Sthapathi/Phases.antt =====
-- src/sthapathi/lifecycle.ts: the phases of a worker, and the transitions between them.
use shreni.Common.{List, [], ◌∷◌, Bool, true, false, ◌||◌, any}

pub data Phase : Type 0 where
  idle : Phase
  selecting : Phase
  preparing : Phase
  working : Phase

-- PHASE_TRANSITIONS.
abbrev pub next_phases : Phase → List Phase
next_phases idle = selecting ∷ []
next_phases selecting = preparing ∷ idle ∷ []
next_phases preparing = working ∷ idle ∷ []
next_phases working = idle ∷ []

abbrev pub is_phase : Phase → Phase → Bool
is_phase idle idle = true
is_phase idle selecting = false
is_phase idle preparing = false
is_phase idle working = false
is_phase selecting idle = false
is_phase selecting selecting = true
is_phase selecting preparing = false
is_phase selecting working = false
is_phase preparing idle = false
is_phase preparing selecting = false
is_phase preparing preparing = true
is_phase preparing working = false
is_phase working idle = false
is_phase working selecting = false
is_phase working preparing = false
is_phase working working = true

abbrev pub can_transition : Phase → Phase → Bool
can_transition from to = is_phase from to || any (is_phase to) (next_phases from)
