-- ===== src/TaskGraph/Ready/Order.antt =====
-- filterWhere (src/taskgraph/reads.ts) and the claim order (ready.ts), apart from the code.
use shreni.Common.{
  ◌<◌, String, Option, none, some, List, Bool, true, false, ==_iff, ◌≡◌, refl, inl, inr, ◌↔◌, In,
  any, any-In, any-witness, all, includes, includes-In, In-includes, arith, Bool-cases, eqb,
  is_some_of, subst, sym,
}
use shreni.TaskGraph.Types.{Task, Kind, Origin, kind_eq}
use shreni.TaskGraph.Store.{Store}
use shreni.TaskGraph.Client.{Client}
use shreni.TaskGraph.Ready.{bool_eq, TaskFilter, claim_order, origin_eq, narrows, filter_where}
use shreni.TaskGraph.Ready.Meaning.{StandsAbove, is_above-StandsAbove_iff, all_iff}

-- What a filter asks of a row, field by field; a field that is not given asks nothing.
pub record Fits (f : TaskFilter) (s : Store) (t : Task) : Type 0 where
  pub states : (ss : List String) → f.states ≡ some ss → In t.state ss
  pub kind : (k : Kind) → f.kind ≡ some k → t.kind ≡ k
  pub ids : (is : List String) → f.ids ≡ some is → In t.id is
  pub key : (k : String) → f.key ≡ some k → t.key ≡ some k
  pub parent : (p : String) → f.parent ≡ some p → t.parent_id ≡ some p
  pub within : (w : String) → f.within ≡ some w → StandsAbove s t w
  pub plan : (p : String) → f.plan ≡ some p → t.plan_id ≡ some p
  pub origin : (os : List Origin) → f.origin ≡ some os → In t.origin os
  pub tags : (ts : List String) → f.tags ≡ some ts → (x : String) → In x ts → In x t.tags

-- A test that a given field makes, and the condition that it stands for.
narrows_iff :
    {A : Type 0} (o : Option A) (test : A → Bool) (P : A → Type 0)
    → ((a : A) → (test a ≡ true) ↔ P a)
    → (narrows o test ≡ true) ↔ ((a : A) → o ≡ some a → P a)
narrows_iff none test P each = ((λ h a e. absurd (ground (arith, e))), λ h. refl)
narrows_iff (some b) test P each =
    ((λ h a e. subst P (ground (arith, e)) ((each b).0 h)), λ h. (each b).1 (h b refl))

includes-In_iff : (xs : List String) (s : String) → (includes xs s ≡ true) ↔ In s xs
includes-In_iff xs s = (In-includes xs s, includes-In xs s)

pub is_some_of_iff : (o : Option String) (s : String) → (is_some_of o s ≡ true) ↔ (o ≡ some s)
is_some_of_iff none s = ((λ h. absurd (ground (arith, h))), λ h. absurd (ground (arith, h)))
is_some_of_iff (some t) s =
    ((λ h. ground (arith, h, ==_iff t s)), λ h. ground (arith, h, ==_iff t s))

kind_eq_iff : (a b : Kind) → (kind_eq a b ≡ true) ↔ (a ≡ b)
kind_eq_iff a b = ((λ h. ground arith), λ h. ground (arith, h))

origin_eq_iff : (a b : Origin) → (origin_eq a b ≡ true) ↔ (a ≡ b)
origin_eq_iff a b = ((λ h. ground arith), λ h. ground (arith, h))

origins_iff : (os : List Origin) (o : Origin) → (any (origin_eq o) os ≡ true) ↔ In o os
origins_iff os o = (
  (λ h.
      let (a, i, e) = any-witness (origin_eq o) os h in
      subst (λ x. In x os) (sym ((origin_eq_iff o a).0 e)) i),
  λ i. any-In (origin_eq o) os o i ((origin_eq_iff o o).1 refl),
)

tags_iff :
    (ts own : List String) → (all (includes own) ts ≡ true) ↔ ((x : String) → In x ts → In x own)
tags_iff ts own = (
  (λ h x i. In-includes own x ((all_iff (includes own) ts).0 h x i)),
  λ h. (all_iff (includes own) ts).1 (λ x i. includes-In own x (h x i)),
)

-- The filter of the code passes a row exactly when the row fits.
pub filter_where-Fits_iff :
    (f : TaskFilter) (s : Store) (t : Task) → (filter_where f s t ≡ true) ↔ Fits f s t
unfolding filter_where
filter_where-Fits_iff f s t =
    let states = narrows_iff f.states _ (λ ss. In t.state ss) (λ ss. includes-In_iff ss t.state) in
    let kind = narrows_iff f.kind _ (λ k. t.kind ≡ k) (kind_eq_iff t.kind) in
    let ids = narrows_iff f.ids _ (λ is. In t.id is) (λ is. includes-In_iff is t.id) in
    let key = narrows_iff f.key _ (λ k. t.key ≡ some k) (is_some_of_iff t.key) in
    let parent = narrows_iff f.parent _ (λ p. t.parent_id ≡ some p) (is_some_of_iff t.parent_id) in
    let within = narrows_iff f.within _ (StandsAbove s t) (is_above-StandsAbove_iff s t) in
    let plan = narrows_iff f.plan _ (λ p. t.plan_id ≡ some p) (is_some_of_iff t.plan_id) in
    let origin = narrows_iff f.origin _ (λ os. In t.origin os) (λ os. origins_iff os t.origin) in
    let tags =
      narrows_iff f.tags _ (λ ts. (x : String) → In x ts → In x t.tags)
        (λ ts. tags_iff ts t.tags) in
    (
      λ h. record {
        states = states.0 (ground arith);
        kind = kind.0 (ground arith);
        ids = ids.0 (ground arith);
        key = key.0 (ground arith);
        parent = parent.0 (ground arith);
        within = within.0 (ground arith);
        plan = plan.0 (ground arith);
        origin = origin.0 (ground arith);
        tags = tags.0 (ground arith);
      },
      λ r. ground (
        arith,
        states.1 r.states,
        kind.1 r.kind,
        ids.1 r.ids,
        key.1 r.key,
        parent.1 r.parent,
        within.1 r.within,
        plan.1 r.plan,
        origin.1 r.origin,
        tags.1 r.tags,
      ),
    )

-- Claim order: boosted rows first; then the lower priority, the older row, and the ids as they collate.
pub data Before (c : Client) (a b : Task) : Type 0 where
  boost_first : a.boosted ≡ true → b.boosted ≡ false → Before c a b
  priority_first : a.boosted ≡ b.boosted → a.priority < b.priority → Before c a b
  age_first :
      a.boosted ≡ b.boosted → a.priority ≡ b.priority → a.created_at < b.created_at → Before c a b
  id_first :
      a.boosted ≡ b.boosted
      → a.priority ≡ b.priority
      → a.created_at ≡ b.created_at
      → c.collates a.id b.id ≡ true
      → Before c a b

pub claim_order-Before : (c : Client) (a b : Task) → claim_order c a b ≡ true → Before c a b
unfolding claim_order
claim_order-Before c a b h = elim (Bool-cases (bool_eq a.boosted b.boosted)) [
  | inr e ↦ boost_first (ground arith) (ground arith)
  | inl e ↦ elim (Bool-cases (eqb a.priority b.priority)) [
    | inr p ↦ priority_first (ground arith) (ground arith)
    | inl p ↦ elim (Bool-cases (eqb a.created_at b.created_at)) [
      | inr k ↦ age_first (ground arith) (ground arith) (ground arith)
      | inl k ↦ id_first (ground arith) (ground arith) (ground arith) (ground arith)
    ]
  ]
]
