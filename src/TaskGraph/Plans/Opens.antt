-- ===== src/TaskGraph/Plans/Opens.antt =====
-- src/taskgraph/plans.ts, approve: the loop over the plan's tasks as one update of the rows.
use shreni.Common.{
  ℕ, String, some, List, [], ◌∷◌, Bool, true, false, ◌&&◌, ◌==◌, ==_iff, ==_refl, includes, find-In,
  find-sat, In, ◌≡◌, refl, ◌⊎◌, inl, inr, arith, if◌then◌else◌,
}
use shreni.TaskGraph.Types.{Task}
use shreni.TaskGraph.Store.{find_task, update_where, In-update_where}
use shreni.TaskGraph.Lifecycle.{Move, Lifecycle}
use shreni.TaskGraph.Plans.{opened_row, same_version_of}

pub update_where-ext :
    (p q : Task → Bool) (f : Task → Task) (xs : List Task)
    → ((x : Task) → In x xs → p x ≡ q x)
    → update_where p f xs ≡ update_where q f xs
update_where-ext p q f [] h = refl
update_where-ext p q f (x ∷ xs) h =
    ground (arith, h x (inl refl), update_where-ext p q f xs (λ y i. h y (inr i)))

update_where-twice :
    (p q r : Task → Bool) (f : Task → Task) (xs : List Task)
    → ((x : Task)
        → In x xs
        → (if q (if p x then f x else x)
            then f (if p x then f x else x)
            else (if p x then f x else x))
          ≡ (if r x then f x else x))
    → update_where q f (update_where p f xs) ≡ update_where r f xs
update_where-twice p q r f [] h = refl
update_where-twice p q r f (x ∷ xs) h =
    ground (arith, h x (inl refl), update_where-twice p q r f xs (λ y i. h y (inr i)))

opened_twice :
    (lc : Lifecycle) (m : Move) (now : ℕ) (x : Task)
    → opened_row lc m now (opened_row lc m now x) ≡ opened_row lc m now x
unfolding opened_row
opened_twice lc m now x = ground arith

opened-id : (lc : Lifecycle) (m : Move) (now : ℕ) (x : Task) → (opened_row lc m now x).id ≡ x.id
unfolding opened_row
opened-id lc m now x = refl

-- The chosen tasks of a list of ids.
abbrev pub of_ids : (Task → Bool) → List String → Task → Bool
of_ids chosen ids x = includes ids x.id && chosen x

module _ (lc : Lifecycle) (m : Move) (now : ℕ) (old : List Task) (chosen : Task → Bool)
    (keys : (a b : Task) → In a old → In b old → a.id ≡ b.id → a ≡ b) where
  abbrev pub updated : List String → Task → Task
  updated ids x = if of_ids chosen ids x then opened_row lc m now x else x

  -- The row with a task's id, after the tasks of `ids` are updated.
  pub row_of :
      (ids : List String) (t y : Task)
      → In t old
      → find_task (update_where (of_ids chosen ids) (opened_row lc m now) old) t.id ≡ some y
      → y ≡ updated ids t
  row_of ids t y i h =
      let ts = update_where (of_ids chosen ids) (opened_row lc m now) old in
      let (x, j, which) =
        In-update_where (of_ids chosen ids) (opened_row lc m now) old y
          (find-In (λ z. z.id == t.id) ts y h) in
      ground (
        arith,
        which,
        keys x t j i,
        find-sat (λ z. z.id == t.id) ts y h,
        ==_iff y.id t.id,
        opened-id lc m now x,
      )

  -- One more task is updated.
  pub one_more :
      (ids : List String) (t y : Task)
      → In t old
      → chosen t ≡ true
      → y ≡ updated ids t
      → update_where
          (same_version_of y)
          (opened_row lc m now)
          (update_where (of_ids chosen ids) (opened_row lc m now) old)
        ≡ update_where (of_ids chosen (t.id ∷ ids)) (opened_row lc m now) old
  one_more ids t y i c e =
      update_where-twice (of_ids chosen ids) (same_version_of y) (of_ids chosen (t.id ∷ ids))
        (opened_row lc m now) old (λ x j. here x j)
    where
      here :
          (x : Task)
          → In x old
          → (if same_version_of y (if of_ids chosen ids x then opened_row lc m now x else x)
              then opened_row lc m now (if of_ids chosen ids x then opened_row lc m now x else x)
              else (if of_ids chosen ids x then opened_row lc m now x else x))
            ≡ (if of_ids chosen (t.id ∷ ids) x then opened_row lc m now x else x)
      here x j = ground (
        arith,
        e,
        c,
        keys x t j i,
        opened_twice lc m now x,
        opened-id lc m now x,
        opened-id lc m now t,
        ==_iff x.id t.id,
        ==_iff t.id x.id,
        ==_refl (opened_row lc m now t).state,
        ==_refl t.state,
      )

  -- A task that is not chosen, or that is updated already, changes nothing.
  pub no_more :
      (ids : List String) (t : Task)
      → In t old
      → (chosen t ≡ false) ⊎ (includes ids t.id ≡ true)
      → update_where (of_ids chosen ids) (opened_row lc m now) old
        ≡ update_where (of_ids chosen (t.id ∷ ids)) (opened_row lc m now) old
  no_more ids t i h =
      update_where-ext (of_ids chosen ids) (of_ids chosen (t.id ∷ ids)) (opened_row lc m now) old
        (λ x j. ground (arith, h, keys x t j i, ==_iff t.id x.id))
