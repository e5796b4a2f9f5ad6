-- ===== src/TaskGraph/Lifecycle/Rules/Facts.antt =====
-- What the rules on lists of states and moves say of each state and move.
use shreni.Common.{
  ℕ, String, Option, none, some, List, [], ◌∷◌, ◌++◌, Bool, true, false, ◌==◌, ==_refl, ==_iff,
  includes, is_some, ◌≡◌, refl, inl, inr, In, All, find, In-includes, includes-In, arith,
}
use shreni.TaskGraph.Types.{StateFlags}
use shreni.TaskGraph.Lifecycle.{
  Move, Lifecycle, lookup, has_own, has_flag, flagged, first_flagged, distinct_keys, is_terminal,
  terminal_states,
}
use shreni.TaskGraph.Lifecycle.Rules.{
  Violations, fail_if, each, concat, sole, move_violations, rule_violations, lifecycle_violations,
  last_named, expiry_check, final_check, unnamed_guard, repeat_hook, with_move,
}

pub append_nil {ℓ} : {A : Type ℓ} (xs ys : List A) → (xs ++ ys) ≡ [] → (xs ≡ []) × (ys ≡ [])
append_nil [] ys h = (refl, h)
append_nil (x ∷ xs) ys h = absurd (ground arith)

-- A concatenation is empty when every part is.
pub concat_nil : (vs : List Violations) → concat vs ≡ [] → All (λ w. w ≡ []) vs
concat_nil [] h = tt
concat_nil (v ∷ vs) h = let (a, b) = append_nil v (concat vs) h in (a, concat_nil vs b)

pub no_fail : (b : Bool) (rule subject : String) → fail_if b rule subject ≡ [] → b ≡ false
no_fail b rule subject h = ground arith

pub each-In {ℓ} :
    {A : Type ℓ} (f : A → Violations) (xs : List A) (x : A) → each f xs ≡ [] → In x xs → f x ≡ []
each-In f [] x h m = absurd (m.0)
each-In f (y ∷ ys) x h m =
    let (a, b) = append_nil (f y) (each f ys) h in ground (arith, each-In f ys x b)

-- A definition that registers breaks no rule of any group.
pub rules_hold : (d : Lifecycle) → lifecycle_violations d ≡ [] → rule_violations d ≡ []
unfolding lifecycle_violations
rules_hold d v = ground arith

pub first_of_sole : (ss : List String) → is_some (sole ss) ≡ true → ss ≡ first_flagged ss ∷ []
first_of_sole [] h = absurd (ground arith)
first_of_sole (a ∷ []) h = refl
first_of_sole (a ∷ b ∷ r) h = absurd (ground arith)

-- A state that carries a flag is among the flagged ones.
pub flagged-In :
    (flag : StateFlags → Bool) (states : List (String × StateFlags)) (s : String)
    → has_flag flag states s ≡ true
    → In s (flagged flag states)
flagged-In flag [] s h = absurd (ground arith)
flagged-In flag ((k, f) ∷ m) s h = ground (arith, flagged-In flag m s, ==_iff k s)

pub own_of_flag :
    (flag : StateFlags → Bool) (states : List (String × StateFlags)) (s : String)
    → has_flag flag states s ≡ true
    → has_own states s ≡ true
own_of_flag flag states s h = ground arith

-- Of distinct keys, a flagged state is looked up with its flag.
pub In-flagged :
    (flag : StateFlags → Bool) (states : List (String × StateFlags)) (s : String)
    → distinct_keys states ≡ true
    → In s (flagged flag states)
    → has_flag flag states s ≡ true
In-flagged flag [] s u h = absurd (h.0)
In-flagged flag ((k, f) ∷ m) s u h =
    ground (arith, In-flagged flag m s, ==_iff k s, own_of_flag flag m s)

abbrev pub loop_parts_of : Lifecycle → List String → Move → List Move → List Violations
loop_parts_of d seen x ms =
    fail_if (includes seen x.name) "unique-move-names" x.name
    ∷ each (final_check d x) x.from
    ∷ fail_if (unnamed_guard x.guard) "guards-named" x.name
    ∷ move_violations d (x.name ∷ seen) ms
    ∷ []

-- One round of the loop over the moves.
pub loop_parts :
    (d : Lifecycle) (seen : List String) (x : Move) (ms : List Move)
    → move_violations d seen (x ∷ ms) ≡ []
    → All (λ w. w ≡ []) (loop_parts_of d seen x ms)
unfolding move_violations
loop_parts d seen x ms h = concat_nil (loop_parts_of d seen x ms) h

pub from_live :
    (d : Lifecycle) (seen : List String) (ms : List Move) (m : Move) (s : String)
    → move_violations d seen ms ≡ []
    → In m ms
    → In s m.from
    → is_terminal d s ≡ false
unfolding move_violations is_terminal
from_live d seen [] m s h i j = absurd (i.0)
from_live d seen (x ∷ ms) m s h i j =
    let parts = loop_parts d seen x ms h in
    elim i [
      | inl e ↦ no_fail _ _ _ (each-In (final_check d x) x.from s parts.1.0 (rw e at j))
      | inr i' ↦ from_live d (x.name ∷ seen) ms m s parts.1.1.1.0 i' j
    ]

-- A name that was seen before is not met again.
pub unseen :
    (d : Lifecycle) (seen : List String) (ms : List Move) (n : String)
    → move_violations d seen ms ≡ []
    → includes seen n ≡ true
    → find (λ m. m.name == n) ms ≡ none
unfolding move_violations
unseen d seen [] n h s = refl
unseen d seen (x ∷ ms) n h s =
    let parts = loop_parts d seen x ms h in
    ground (
      arith,
      parts,
      no_fail (includes seen x.name) "unique-move-names" x.name,
      ==_iff x.name n,
      unseen d (x.name ∷ seen) ms n,
    )

-- The first move of a name, where no two share it, is the last one.
pub last-named :
    (d : Lifecycle) (seen : List String) (ms : List Move) (n : String)
    → move_violations d seen ms ≡ []
    → last_named ms n ≡ find (λ m. m.name == n) ms
unfolding move_violations
last-named d seen [] n h = refl
last-named d seen (x ∷ ms) n h =
    let parts = loop_parts d seen x ms h in
    ground (
      arith,
      parts,
      ==_iff x.name n,
      ==_refl n,
      unseen d (x.name ∷ seen) ms n,
      last-named d (x.name ∷ seen) ms n,
    )

pub repeat_of :
    (d : Lifecycle) (o : Option (ℕ × String)) (after : ℕ) (n : String)
    → o ≡ some (after, n)
    → repeat_hook d o ≡ []
    → with_move d n (expiry_check d) ≡ []
repeat_of d o after n r h = ground (arith, r)

-- The list of terminal states that the SQL statements use decides the flag.
pub terminal_states_iff :
    (d : Lifecycle) (s : String)
    → distinct_keys d.states ≡ true
    → includes (terminal_states d) s ≡ is_terminal d s
unfolding terminal_states is_terminal
terminal_states_iff d s u = ground (
  arith,
  In-flagged (λ f. f.terminal) d.states s u,
  flagged-In (λ f. f.terminal) d.states s,
  includes-In (terminal_states d) s,
  In-includes (terminal_states d) s,
)

pub lookup-In {ℓ} :
    {A : Type ℓ} (m : List (String × A)) (k : String) (a : A) → lookup m k ≡ some a → In (k, a) m
lookup-In [] k a h = absurd (ground arith)
lookup-In ((j, b) ∷ m) k a h = ground (arith, ==_iff j k, lookup-In m k a)
