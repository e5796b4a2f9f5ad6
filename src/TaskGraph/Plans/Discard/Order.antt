-- ===== src/TaskGraph/Plans/Discard/Order.antt =====
-- src/taskgraph/plans.ts, cancelOrder: the search ends, and its order holds every task that goes.
use shreni.Common.{
  ℕ, zero, suc, ◌<◌, ◌≤◌, String, Option, none, some, List, [], ◌∷◌, ◌++◌, Bool, true, false, not,
  ◌&&◌, ◌==◌, ==_iff, ==_refl, any-In, any-witness, filter, map, includes, length, order_by,
  In-order_by, In-map, map-In, In-filter, find-In, find-sat, In, ◌≡◌, refl, sym, ◌⊎◌, ◌↔◌, inl, inr,
  arith, Bool-cases,
}
use shreni.TaskGraph.Types.{Task, Dep}
use shreni.TaskGraph.Errors.{ok}
use shreni.TaskGraph.Store.{find_task}
use shreni.TaskGraph.Containers.{is_child}
use shreni.TaskGraph.Validators.Cycle.{text_le}
use shreni.TaskGraph.Plans.Discard.{
  child_ids, waiter_ids, is_going, before, Ordering, each_before, then_put, visit, reversed,
  order_result, cancel_order,
}

In-append {ℓ} : {A : Type ℓ} (xs ys : List A) (a : A) → In a (xs ++ ys) ↔ (In a xs ⊎ In a ys)
In-append [] ys a = (λ h. inr h, λ h. ground (arith, h))
In-append (x ∷ xs) ys a = ground (arith, In-append xs ys a)

-- What comes before a task: its children and the tasks that wait on it, of those going.
pub before_iff :
    (going : List Task) (deps : List Dep) (i b : String)
    → In b (before going deps i)
    → ((t : Task) × In t going × (t.id ≡ b) × (is_child i t ≡ true))
      ⊎ ((d : Dep) × In d deps
          × (d.task_id ≡ b)
          × (d.depends_on_id ≡ i)
          × (is_going going b ≡ true))
unfolding before
before_iff going deps i b h =
    elim ((In-append (child_ids going i) (waiter_ids going deps i) b).0
      ((In-order_by text_le (child_ids going i ++ waiter_ids going deps i) b).0 h)) [
        | inl child ↦
            let (t, m, e) = In-map (λ (t : Task). t.id) (filter (is_child i) going) b child in
            let (n, c) = In-filter (is_child i) going t m in inl (t, n, sym e, c)
        | inr waits ↦
            let (d, m, e) =
              In-map (λ (d : Dep). d.task_id)
                (filter (λ d. is_going going d.task_id && (d.depends_on_id == i)) deps) b waits in
            let (n, c) =
              In-filter (λ d. is_going going d.task_id && (d.depends_on_id == i)) deps d m in
            inr (d, n, sym e, ground (arith, c, ==_iff d.depends_on_id i), ground (arith, c, e))
      ]

pub before-going :
    (going : List Task) (deps : List Dep) (i b : String)
    → In b (before going deps i)
    → is_going going b ≡ true
before-going going deps i b h = elim (before_iff going deps i b h) [
  | inl (t, n, e, c) ↦ any-In (λ x. x.id == b) going t n ((==_iff t.id b).1 e)
  | inr (d, n, e, f, g) ↦ g
]

abbrev pub is_out : Ordering → String → Bool
is_out o i = is_going o.out i

abbrev pub unseen : List Task → List String → ℕ
unseen going seen = length (filter (λ t. not (includes seen t.id)) going)

unseen-le :
    (going : List Task) (seen more : List String)
    → ((x : String) → includes seen x ≡ true → includes more x ≡ true)
    → unseen going more ≤ unseen going seen
unseen-le [] seen more h = ground arith
unseen-le (t ∷ going) seen more h = ground (arith, unseen-le going seen more h, h t.id)

unseen-lt :
    (going : List Task) (seen : List String) (i : String)
    → is_going going i ≡ true
    → includes seen i ≡ false
    → unseen going (i ∷ seen) < unseen going seen
unseen-lt [] seen i g h = absurd (ground arith)
unseen-lt (t ∷ going) seen i g h = ground (
  arith,
  unseen-lt going seen i,
  unseen-le going seen (i ∷ seen) (λ x e. weaker x e),
  ==_iff t.id i,
  ==_refl i,
)
  where
    weaker : (x : String) → includes seen x ≡ true → includes (i ∷ seen) x ≡ true
    weaker x e = ground arith

-- What a search of some ids adds to the order.
pub record Adds (going : List Task) (o : Ordering) (ms : List String) (o' : Ordering) : Type 0 where
  pub grows : (x : String) → includes o.seen x ≡ true → includes o'.seen x ≡ true
  pub marked : (x : String) → In x ms → includes o'.seen x ≡ true
  pub fresh :
      (x : String) → includes o'.seen x ≡ true → (includes o.seen x ≡ true) ⊎ (is_out o' x ≡ true)
  pub keeps : (x : String) → is_out o x ≡ true → is_out o' x ≡ true
  pub rows : (t : Task) → In t o'.out → In t o.out ⊎ In t going

Adds-refl : (going : List Task) (o : Ordering) → Adds going o [] o
Adds-refl going o = record {
  grows = λ x h. h;
  marked = λ x i. absurd (i.0);
  fresh = λ x h. inl h;
  keeps = λ x h. h;
  rows = λ t i. inl i;
}

Adds-then :
    (going : List Task) (m : String) (ms : List String) (o o₁ o₂ : Ordering)
    → Adds going o (m ∷ []) o₁
    → Adds going o₁ ms o₂
    → Adds going o (m ∷ ms) o₂
Adds-then going m ms o o₁ o₂ a b = record {
  grows = λ x h. b.grows x (a.grows x h);
  marked = λ x i. ground (arith, i, a.marked x, b.marked x, b.grows x);
  fresh = λ x h. ground (arith, b.fresh x h, a.fresh x, b.keeps x);
  keeps = λ x h. b.keeps x (a.keeps x h);
  rows = λ t i. ground (arith, b.rows t i, a.rows t);
}

abbrev Ends : List Task → Ordering → List String → Option Ordering → Type 0
Ends going o ms none = ⊥
Ends going o ms (some o') = Adds going o ms o'

find_going :
    (going : List Task) (i : String)
    → is_going going i ≡ true
    → (t : Task) × (find_task going i ≡ some t)
find_going [] i h = absurd (ground arith)
find_going (t ∷ going) i h = elim (Bool-cases (t.id == i)) [
  | inl e ↦ (t, ground (arith, e))
  | inr e ↦ let (x, f) = find_going going i (ground (arith, e)) in (x, ground (arith, e, f))
]

module _ (going : List Task) (go : String → Ordering → Option Ordering) (fuel : ℕ)
    (step : (i : String) (o : Ordering)
      → is_going going i ≡ true
      → unseen going o.seen < fuel
      → Ends going o (i ∷ []) (go i o)) where
  each_before_lem :
      (ms : List String) (o : Ordering)
      → ((x : String) → In x ms → is_going going x ≡ true)
      → unseen going o.seen < fuel
      → Ends going o ms (each_before go ms o)
  unfolding each_before
  each_before_lem [] o sub h = Adds-refl going o
  each_before_lem (m ∷ ms) o sub h =
      rest (go m o) (step m o (sub m (inl refl)) h)
        (λ o₁ l. each_before_lem ms o₁ (λ x i. sub x (inr i)) (ground (arith, h, l)))
    where
      joined :
          (o₁ : Ordering) (r : Option Ordering)
          → Adds going o (m ∷ []) o₁
          → Ends going o₁ ms r
          → Ends going o (m ∷ ms) r
      joined o₁ none a e = e
      joined o₁ (some o₂) a e = Adds-then going m ms o o₁ o₂ a e

      rest :
          (r : Option Ordering)
          → Ends going o (m ∷ []) r
          → ((o₁ : Ordering)
              → unseen going o₁.seen ≤ unseen going o.seen
              → Ends going o₁ ms (each_before go ms o₁))
          → Ends going o (m ∷ ms) (elim r [ none ↦ none | some o' ↦ each_before go ms o' ])
      rest none e later = e
      rest (some o₁) e later =
          joined o₁ (each_before go ms o₁) e (later o₁ (unseen-le going o.seen o₁.seen (e.grows)))

-- The task is put after everything that comes before it.
put-Adds :
    (going : List Task) (i : String) (ms : List String) (o o₁ : Ordering) (t : Task)
    → find_task going i ≡ some t
    → Adds going (record o { seen = i ∷ o.seen }) ms o₁
    → Adds going o (i ∷ []) (record o₁ { out = t ∷ o₁.out })
put-Adds going i ms o o₁ t f a = record {
  grows = λ x h. a.grows x (ground (arith, h));
  marked = λ x e. ground (arith, e, a.grows i, ==_refl i);
  fresh = λ x h. ground (
    arith,
    a.fresh x h,
    find-sat (λ x. x.id == i) going t f,
    ==_iff t.id i,
    ==_iff t.id x,
    ==_iff i x,
  );
  keeps = λ x h. ground (arith, a.keeps x h);
  rows = λ x e. ground (arith, e, a.rows x, find-In (λ x. x.id == i) going t f);
}

visit_lem :
    (going : List Task) (deps : List Dep) (fuel : ℕ) (i : String) (o : Ordering)
    → is_going going i ≡ true
    → unseen going o.seen < fuel
    → Ends going o (i ∷ []) (visit going deps fuel i o)
unfolding visit
visit_lem going deps zero i o g h = absurd (ground arith)
visit_lem going deps (suc fuel) i o g h = elim (Bool-cases (includes o.seen i)) [
  | inl old ↦ rw old (record {
    grows = λ x e. e;
    marked = λ x e. ground (arith, e, old);
    fresh = λ x e. inl e;
    keeps = λ x e. e;
    rows = λ t e. inl e;
  })
  | inr new ↦
      let (t, f) = find_going going i g in
      rw new (
        after t f
          (each_before (visit going deps fuel) (before going deps i)
            (record o { seen = i ∷ o.seen }))
          (each_before_lem going (visit going deps fuel) fuel
            (λ j q gj hj. visit_lem going deps fuel j q gj hj) (before going deps i)
            (record o { seen = i ∷ o.seen }) (before-going going deps i)
            (ground (arith, h, unseen-lt going o.seen i g new))))
]
  where
    after :
        (t : Task)
        → find_task going i ≡ some t
        → (r : Option Ordering)
        → Ends going (record o { seen = i ∷ o.seen }) (before going deps i) r
        → Ends going o (i ∷ []) (then_put (find_task going i) r)
    after t f none e = e
    after t f (some o₁) e = rw f (put-Adds going i (before going deps i) o o₁ t f e)

In-reversed : (out ts : List Task) (t : Task) → In t (reversed out ts) ↔ (In t out ⊎ In t ts)
In-reversed [] ts t = (λ h. inr h, λ h. ground (arith, h))
In-reversed (x ∷ out) ts t = ground (arith, In-reversed out (x ∷ ts) t)

length-filter {ℓ} : {A : Type ℓ} (p : A → Bool) (xs : List A) → length (filter p xs) ≤ length xs
length-filter p [] = ground arith
length-filter p (x ∷ xs) = ground (arith, length-filter p xs)

-- The search that orders a discard's tasks ends, and its order holds exactly the tasks that it was
-- given: each of its tasks is one of them, and the id of each of them stands in it.
pub cancel_order-all :
    (by_locale : String → String → Bool) (going : List Task) (deps : List Dep)
    → (ts : List Task) × (cancel_order by_locale going deps ≡ ok ts)
      × ((t : Task) → In t ts → In t going)
      × ((t : Task) → In t going → (x : Task) × In x ts × (x.id ≡ t.id))
unfolding cancel_order
cancel_order-all by_locale going deps =
    let ids = map (λ (t : Task). t.id) (order_by (λ a b. by_locale a.id b.id) going) in
    let start : Ordering = record { seen = []; out = [] } in
    finish (each_before (visit going deps (suc (length going))) ids start) (
      each_before_lem going (visit going deps (suc (length going))) (suc (length going))
        (λ j q g h. visit_lem going deps (suc (length going)) j q g h) ids start (λ x i. is_id x i)
        (ground (arith, length-filter (λ t. not (includes [] t.id)) going)))
  where
    ids : List String
    ids = map (λ (t : Task). t.id) (order_by (λ a b. by_locale a.id b.id) going)

    is_id : (x : String) → In x ids → is_going going x ≡ true
    is_id x i =
        let (t, m, e) =
          In-map (λ (t : Task). t.id) (order_by (λ a b. by_locale a.id b.id) going) x i in
        any-In (λ y. y.id == x) going t ((In-order_by _ going t).0 m) ((==_iff t.id x).1 (sym e))

    finish :
        (r : Option Ordering)
        → Ends going (record { seen = []; out = [] }) ids r
        → (ts : List Task) × (order_result r ≡ ok ts)
          × ((t : Task) → In t ts → In t going)
          × ((t : Task) → In t going → (x : Task) × In x ts × (x.id ≡ t.id))
    finish none e = absurd e
    finish (some o) e = (
      reversed o.out [],
      refl,
      λ t i. ground (arith, (In-reversed o.out [] t).0 i, e.rows t),
      λ t i.
          let here : is_out o t.id ≡ true = ground (
            arith,
            e.fresh t.id
                (e.marked t.id (map-In (λ (t : Task). t.id) _ t ((In-order_by _ going t).1 i))),
          ) in
          let (x, m, h) = any-witness (λ y. y.id == t.id) o.out here in
          (x, (In-reversed o.out [] x).1 (inl m), (==_iff x.id t.id).0 h),
    )
