-- ===== src/TaskGraph/Invariant/Updates.antt =====
-- Updates of some rows, and the invariant of the rows.
use shreni.Common.{Bool, true, false, ◌≡◌, ◌⊎◌, In, arith}
use shreni.TaskGraph.Types.{Task}
use shreni.TaskGraph.Store.{Store, update_where, In-update_where}
use shreni.TaskGraph.Lifecycle.{Lifecycle, is_terminal}
use shreni.TaskGraph.Containers.{is_child}
use shreni.TaskGraph.Invariant.{IsSound, Nested, Inv}

-- The rows that an update touches are live, and it closes only rows whose children are closed.
pub record Closes (lc : Lifecycle) (s : Store) (p : Task → Bool) (f : Task → Task) : Type 0 where
  pub ids : (t : Task) → (f t).id ≡ t.id
  pub parents : (t : Task) → (f t).parent_id ≡ t.parent_id
  pub live : (t : Task) → In t s.tasks → p t ≡ true → is_terminal lc t.state ≡ false
  pub shut :
      (t k : Task)
      → In t s.tasks
      → p t ≡ true
      → is_terminal lc (f t).state ≡ true
      → In k s.tasks
      → is_child t.id k ≡ true
      → is_terminal lc k.state ≡ true
  pub sound : (t : Task) → In t s.tasks → p t ≡ true → IsSound lc t → IsSound lc (f t)

module _ (lc : Lifecycle) (s : Store) (p : Task → Bool) (f : Task → Task) (c : Closes lc s p f)
    (v : Inv lc s) where
  kept_pair :
      (a b a' b' : Task)
      → In a s.tasks
      → In b s.tasks
      → ((p a ≡ true) × (a' ≡ f a)) ⊎ ((p a ≡ false) × (a' ≡ a))
      → ((p b ≡ true) × (b' ≡ f b)) ⊎ ((p b ≡ false) × (b' ≡ b))
      → Nested lc a' b'
  kept_pair a b a' b' i j ha hb child closed =
      ground (
        arith,
        c.ids a,
        c.ids b,
        c.parents b,
        c.live a i,
        c.live b j,
        c.shut a b i,
        v.nested a b i j,
      )

  same_row :
      (a b a' b' : Task)
      → In a s.tasks
      → In b s.tasks
      → ((p a ≡ true) × (a' ≡ f a)) ⊎ ((p a ≡ false) × (a' ≡ a))
      → ((p b ≡ true) × (b' ≡ f b)) ⊎ ((p b ≡ false) × (b' ≡ b))
      → a'.id ≡ b'.id
      → a' ≡ b'
  same_row a b a' b' i j ha hb e = ground (arith, c.ids a, c.ids b, v.keys a b i j)

  pub update_where-Inv : (s' : Store) → s'.tasks ≡ update_where p f s.tasks → Inv lc s'
  update_where-Inv s' e = record {
    keys = λ a' b' m n e'.
        let (a, i, ha) = In-update_where p f s.tasks a' (rw e at m) in
        let (b, j, hb) = In-update_where p f s.tasks b' (rw e at n) in
        same_row a b a' b' i j ha hb e';
    rows = λ t m.
        let (a, i, h) = In-update_where p f s.tasks t (rw e at m) in
        ground (arith, c.sound a i, v.rows a i);
    nested = λ a' b' m n.
        let (a, i, ha) = In-update_where p f s.tasks a' (rw e at m) in
        let (b, j, hb) = In-update_where p f s.tasks b' (rw e at n) in
        kept_pair a b a' b' i j ha hb;
  }
