-- ===== src/TaskGraph/Invariant.antt =====
-- What holds of a project's rows between two transactions, for a lifecycle that registers.
pub mod Updates
pub mod Decided
use shreni.Common.{
  ℕ, String, Option, none, some, List, [], ◌∷◌, Bool, true, false, not, ◌==◌, is_some_of, is_some,
  ◌≡◌, In,
}
use shreni.TaskGraph.Types.{Task}
use shreni.TaskGraph.Store.{Store}
use shreni.TaskGraph.Lifecycle.{Lifecycle, is_terminal, leased_state, has_own, distinct_keys}
use shreni.TaskGraph.Lifecycle.Rules.{lifecycle_violations}
use shreni.TaskGraph.Containers.{is_child}

-- The lifecycle passed registration; the keys of its states are distinct, as those of any object.
pub record IsRegistered (lc : Lifecycle) : Type 0 where
  pub rules : lifecycle_violations lc ≡ []
  pub keys : distinct_keys lc.states ≡ true

-- A row holds a lease exactly in the leased state, with its expiry, and is closed exactly in a
-- terminal state.
pub record IsSound (lc : Lifecycle) (t : Task) : Type 0 where
  pub leased : (t.state == leased_state lc) ≡ is_some t.lease_attempt_id
  pub expires : is_some t.lease_expires_at ≡ is_some t.lease_attempt_id
  pub closed : is_terminal lc t.state ≡ is_some t.closed_at
  pub declared : has_own lc.states t.state ≡ true

-- Nothing live sits under a closed task.
abbrev pub Nested : Lifecycle → Task → Task → Type 0
Nested lc p k =
    is_child p.id k ≡ true → is_terminal lc p.state ≡ true → is_terminal lc k.state ≡ true

-- An id names one row (the table's primary key).
abbrev pub HasKeys : Store → Type 0
HasKeys s = (a b : Task) → In a s.tasks → In b s.tasks → a.id ≡ b.id → a ≡ b

pub record Inv (lc : Lifecycle) (s : Store) : Type 0 where
  pub keys : HasKeys s
  pub rows : (t : Task) → In t s.tasks → IsSound lc t
  pub nested : (p k : Task) → In p s.tasks → In k s.tasks → Nested lc p k
