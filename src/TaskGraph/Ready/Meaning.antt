-- ===== src/TaskGraph/Ready/Meaning.antt =====
-- src/taskgraph/ready.ts: which rows are ready, apart from the code.
use shreni.Common.{
  ℕ, ◌≤◌, String, some, List, [], ◌∷◌, Bool, true, false, not, ◌&&◌, ◌==◌, ==_iff, ==_refl, ◌≡◌,
  refl, inl, inr, ◌↔◌, In, In-filter, filter-In, In-map, map-In, any, any-witness, all, includes,
  includes-In, In-includes, any-false, arith, Bool-cases, Option-cases, subst, sym, filter,
}
use shreni.Common.Reach.{Reaches, reach-Reaches, Reaches-reach}
use shreni.TaskGraph.Types.{Task, Dep, work, StateFlags}
use shreni.TaskGraph.Store.{Store}
use shreni.TaskGraph.Lifecycle.{Lifecycle, claimable_state}
use shreni.TaskGraph.Ready.{
  satisfying_states, waits, parent_edges, is_above, is_held, lets_through, is_ready,
}

-- A state that the lifecycle declares, and that satisfies a dependency.
abbrev pub Satisfies : Lifecycle → String → Type 0
Satisfies lc s = (f : StateFlags) × In (s, f) lc.states × (f.satisfies_deps ≡ true)

-- Every task that the one of this id depends on is in such a state.
abbrev pub IsFree : Lifecycle → Store → String → Type 0
IsFree lc s i =
    (d : Dep) (x : Task)
    → In d s.deps
    → d.task_id ≡ i
    → In x s.tasks
    → x.id ≡ d.depends_on_id
    → Satisfies lc x.state

-- The row `p` is the parent of the row `t`, or stands above it.
abbrev pub StandsAbove : Store → Task → String → Type 0
StandsAbove s t p = (q : String) × (t.parent_id ≡ some q) × Reaches (parent_edges s.tasks) q p

-- Work in the claimable state, not held past now, whose dependencies are satisfied, and every
-- container above it is in the claimable state with its dependencies satisfied.
pub record IsReady (lc : Lifecycle) (s : Store) (t : Task) : Type 0 where
  pub state : t.state ≡ claimable_state lc
  pub kind : t.kind ≡ work
  pub due : (h : ℕ) → t.hold_until ≡ some h → h ≤ s.now
  pub free : IsFree lc s t.id
  pub above :
      (p : Task)
      → In p s.tasks
      → StandsAbove s t p.id
      → (p.state ≡ claimable_state lc) × IsFree lc s p.id

pub all_iff :
    {A : Type 0} (p : A → Bool) (xs : List A) → (all p xs ≡ true) ↔ ((x : A) → In x xs → p x ≡ true)
all_iff p [] = ((λ h x i. absurd (i.0)), λ h. refl)
all_iff p (y ∷ ys) =
    let rest = all_iff p ys in
    (
      (λ h x i. elim i [ inl k ↦ ground (arith, k) | inr k ↦ rest.0 (ground arith) x k ]),
      λ h. ground (arith, h y (inl refl), rest.1 (λ x k. h x (inr k))),
    )

satisfying_states-Satisfies_iff :
    (lc : Lifecycle) (s : String) → (includes (satisfying_states lc) s ≡ true) ↔ Satisfies lc s
unfolding satisfying_states
satisfying_states-Satisfies_iff lc s = (to, back)
  where
    flag : String × StateFlags → Bool
    flag e = e.1.satisfies_deps

    to : includes (satisfying_states lc) s ≡ true → Satisfies lc s
    to h =
        let (e, m, same) = In-map (λ x. x.0) (filter flag lc.states) s (In-includes _ s h) in
        let (i, f) = In-filter flag lc.states e m in
        (e.1, subst (λ x. In (x, e.1) lc.states) (sym same) i, f)

    back : Satisfies lc s → includes (satisfying_states lc) s ≡ true
    back (f, i, e) =
        includes-In _ s
          (map-In (λ x. x.0) (filter flag lc.states) (s, f) (filter-In flag lc.states (s, f) i e))

waits-IsFree_iff :
    (lc : Lifecycle) (s : Store) (i : String) → (waits lc s i ≡ false) ↔ IsFree lc s i
unfolding waits
waits-IsFree_iff lc s i = (to, back)
  where
    blocks : Dep → Task → Bool
    blocks d t = (t.id == d.depends_on_id) && not (includes (satisfying_states lc) t.state)

    to : waits lc s i ≡ false → IsFree lc s i
    to h d x m e n f =
        (satisfying_states-Satisfies_iff lc x.state).0 (elim (Bool-cases (any (blocks d) s.tasks)) [
          | inl b ↦ absurd (
              ground (
                arith,
                any-false (λ e. (e.task_id == i) && any (blocks e) s.tasks) s.deps d h m,
                b,
                ==_iff d.task_id i,
              ))
          | inr b ↦ ground (arith, any-false (blocks d) s.tasks x b n, ==_iff x.id d.depends_on_id)
        ])

    back : IsFree lc s i → waits lc s i ≡ false
    back free = elim (Bool-cases (waits lc s i)) [
      | inr e ↦ e
      | inl e ↦
          let (d, m, p) = any-witness (λ e. (e.task_id == i) && any (blocks e) s.tasks) s.deps e in
          let (x, n, q) = any-witness (blocks d) s.tasks (ground arith) in
          absurd (
            ground (
              arith,
              (satisfying_states-Satisfies_iff lc x.state).1 (
                  free d x m ((==_iff d.task_id i).0 (ground arith)) n
                    ((==_iff x.id d.depends_on_id).0 (ground arith))),
            ))
    ]

pub is_above-StandsAbove_iff :
    (s : Store) (t : Task) (p : String) → (is_above s t.parent_id p ≡ true) ↔ StandsAbove s t p
is_above-StandsAbove_iff s t p = elim (Option-cases t.parent_id) [
  | inl e ↦ ((λ h. absurd (ground (arith, e, h))), (λ (q, f, r). absurd (ground (arith, e, f))))
  | inr (q, e) ↦ (
    (λ h. (q, e, reach-Reaches (parent_edges s.tasks) q p (ground (arith, e, h)))),
    λ (u, f, r).
        subst (λ o. is_above s o p ≡ true) (sym f) (Reaches-reach (parent_edges s.tasks) r),
  )
]

-- The ready predicate of the code holds of a row exactly when it is ready.
pub is_ready-IsReady_iff :
    (lc : Lifecycle) (s : Store) (t : Task) → (is_ready lc s t ≡ true) ↔ IsReady lc s t
unfolding is_ready
is_ready-IsReady_iff lc s t = (to, back)
  where
    passes :
        all (lets_through lc s t) s.tasks ≡ true
        → (p : Task) → In p s.tasks
        → StandsAbove s t p.id
        → (p.state ≡ claimable_state lc) × IsFree lc s p.id
    passes h p i u =
        let one = (all_iff (lets_through lc s t) s.tasks).0 h p i in
        let over = (is_above-StandsAbove_iff s t p.id).1 u in
        (
          ground (arith, one, over, ==_iff p.state (claimable_state lc)),
          (waits-IsFree_iff lc s p.id).0 (ground (arith, one, over)),
        )

    to : is_ready lc s t ≡ true → IsReady lc s t
    to h = record {
      state = ground (arith, ==_iff t.state (claimable_state lc));
      kind = ground arith;
      due = λ x e. ground (arith, e);
      free = (waits-IsFree_iff lc s t.id).0 (ground arith);
      above = passes (ground arith);
    }

    due_held : IsReady lc s t → is_held t.hold_until s.now ≡ false
    due_held r = elim (Option-cases t.hold_until) [
      | inl e ↦ ground (arith, e)
      | inr (h, e) ↦ ground (arith, e, r.due h e)
    ]

    let_by : IsReady lc s t → (p : Task) → In p s.tasks → lets_through lc s t p ≡ true
    let_by r p i = elim (Bool-cases (is_above s t.parent_id p.id)) [
      | inr e ↦ ground (arith, e)
      | inl e ↦
          let (k, free) = r.above p i ((is_above-StandsAbove_iff s t p.id).0 e) in
          ground (arith, k, ==_refl p.state, (waits-IsFree_iff lc s p.id).1 free)
    ]

    back : IsReady lc s t → is_ready lc s t ≡ true
    back r = ground (
      arith,
      r.state,
      r.kind,
      ==_refl t.state,
      due_held r,
      (waits-IsFree_iff lc s t.id).1 r.free,
      (all_iff (lets_through lc s t) s.tasks).1 (λ p i. let_by r p i),
    )
