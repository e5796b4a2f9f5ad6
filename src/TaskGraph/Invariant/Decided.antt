-- ===== src/TaskGraph/Invariant/Decided.antt =====
-- A test that decides the invariant on given rows, for the tests' stores.
use shreni.Common.{
  List, [], ◌∷◌, Bool, true, false, not, ◌&&◌, ◌||◌, ◌==◌, ==_iff, is_some, all, all-In, any,
  any-In, ◌≡◌, In, arith,
}
use shreni.TaskGraph.Types.{Task}
use shreni.TaskGraph.Store.{Store}
use shreni.TaskGraph.Lifecycle.{Lifecycle, is_terminal, leased_state, has_own}
use shreni.TaskGraph.Containers.{is_child}
use shreni.TaskGraph.Invariant.{IsSound, Inv}

abbrev pub same : Bool → Bool → Bool
same true b = b
same false b = not b

unfoldable pub row_test : Lifecycle → Task → Bool
row_test lc t =
    same (t.state == leased_state lc) (is_some t.lease_attempt_id)
    && same (is_some t.lease_expires_at) (is_some t.lease_attempt_id)
    && same (is_terminal lc t.state) (is_some t.closed_at)
    && has_own lc.states t.state

unfoldable pub nested_test : Lifecycle → Task → Task → Bool
nested_test lc p k = not (is_child p.id k && is_terminal lc p.state) || is_terminal lc k.state

unfoldable pub keys_test : List Task → Bool
keys_test [] = true
keys_test (t ∷ ts) = not (any (λ x. x.id == t.id) ts) && keys_test ts

unfoldable pub inv_test : Lifecycle → Store → Bool
unfolding row_test nested_test keys_test
inv_test lc s =
    keys_test s.tasks
    && all (row_test lc) s.tasks
    && all (λ p. all (nested_test lc p) s.tasks) s.tasks

row_test-IsSound : (lc : Lifecycle) (t : Task) → row_test lc t ≡ true → IsSound lc t
unfolding row_test
row_test-IsSound lc t h = ground arith

keys_test-HasKeys :
    (ts : List Task) (a b : Task) → keys_test ts ≡ true → In a ts → In b ts → a.id ≡ b.id → a ≡ b
unfolding keys_test
keys_test-HasKeys [] a b h i j e = absurd (i.0)
keys_test-HasKeys (t ∷ ts) a b h i j e = ground (
  arith,
  keys_test-HasKeys ts a b,
  any-In (λ x. x.id == t.id) ts a,
  any-In (λ x. x.id == t.id) ts b,
  ==_iff a.id t.id,
  ==_iff b.id t.id,
)

pub inv_test-Inv : (lc : Lifecycle) (s : Store) → inv_test lc s ≡ true → Inv lc s
unfolding inv_test
inv_test-Inv lc s h = record {
  keys = λ a b i j e. keys_test-HasKeys s.tasks a b (ground arith) i j e;
  rows = λ t i. row_test-IsSound lc t (all-In (row_test lc) s.tasks t (ground arith) i);
  nested = λ p k i j c d.
      pair p k
        (all-In (nested_test lc p) s.tasks k
          (all-In (λ q. all (nested_test lc q) s.tasks) s.tasks p (ground arith) i) j)
        c d;
}
  where
    pair :
        (p k : Task)
        → nested_test lc p k ≡ true
        → is_child p.id k ≡ true
        → is_terminal lc p.state ≡ true
        → is_terminal lc k.state ≡ true
    pair p k h c d = ground arith
