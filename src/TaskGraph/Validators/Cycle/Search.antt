-- ===== src/TaskGraph/Validators/Cycle/Search.antt =====
-- The search for a cycle (src/taskgraph/validators.ts, findCycle), round by round.
use shreni.Common.{
  ℕ, zero, suc, ◌<◌, ◌≤◌, String, List, [], ◌∷◌, true, false, not, ◌||◌, ◌==◌, ==_iff, ==_refl,
  filter, includes, length, ◌≡◌, refl, inl, inr, In, arith, Bool-cases, if◌then◌else◌, Option, some,
  none, head_of,
}
use shreni.TaskGraph.Types.{Dep}
use shreni.TaskGraph.Validators.Cycle.{
  Marks, Visit, found, clear, out_of_fuel, targets, from_open, next, each_target, leave, visit,
  each_root, nodes,
}

-- A walk along dependencies.
abbrev pub Walk : List Dep → List String → Type 0
Walk deps [] = Unit
Walk deps (a ∷ []) = Unit
Walk deps (a ∷ b ∷ rest) = In b (targets deps a) × Walk deps (b ∷ rest)

abbrev pub last_of : List String → Option String
last_of [] = none
last_of (a ∷ []) = some a
last_of (a ∷ b ∷ rest) = last_of (b ∷ rest)

-- A walk of one step or more that ends where it starts.
pub record ClosedWalk (deps : List Dep) (c : List String) : Type 0 where
  pub walk : Walk deps c
  pub closed : head_of c ≡ last_of c
  pub steps : 1 < length c

-- Marked nodes, newest first: what each waits on was marked before it.
abbrev pub Ordered : List Dep → List String → Type 0
Ordered deps [] = Unit
Ordered deps (n ∷ rest) =
    ((m : String) → In m (targets deps n) → includes rest m ≡ true)
    × (includes rest n ≡ false)
    × Ordered deps rest

-- The path, newest first, is a walk backwards.
abbrev pub Chain : List Dep → List String → Type 0
Chain deps [] = Unit
Chain deps (a ∷ []) = Unit
Chain deps (b ∷ a ∷ rest) = In b (targets deps a) × Chain deps (a ∷ rest)

pub record Good (deps : List Dep) (s : Marks) : Type 0 where
  pub ordered : Ordered deps s.done
  pub apart : (x : String) → includes s.path x ≡ true → includes s.done x ≡ false
  pub chain : Chain deps s.path

-- What the loop over `ms` leaves.
pub record Left (deps : List Dep) (s : Marks) (ms : List String) (s' : Marks) : Type 0 where
  pub good : Good deps s'
  pub same : s'.path ≡ s.path
  pub marked : (x : String) → In x ms → includes s'.done x ≡ true
  pub grows : (x : String) → includes s.done x ≡ true → includes s'.done x ≡ true

abbrev pub Ensures : List Dep → Marks → List String → Visit → Type 0
Ensures deps s ms (found c) = ClosedWalk deps c
Ensures deps s ms (clear s') = Left deps s ms s'
Ensures deps s ms out_of_fuel = ⊥

-- How many nodes are not on the path.
abbrev pub off_path : List String → List String → ℕ
off_path ns path = length (filter (λ n. not (includes path n)) ns)

off_path-le : (ns path : List String) (m : String) → off_path ns (m ∷ path) ≤ off_path ns path
off_path-le [] path m = ground arith
off_path-le (n ∷ ns) path m = ground (arith, off_path-le ns path m)

off_path-lt :
    (ns path : List String) (m : String)
    → In m ns
    → includes path m ≡ false
    → off_path ns (m ∷ path) < off_path ns path
off_path-lt [] path m i h = absurd (i.0)
off_path-lt (n ∷ ns) path m (inl e) h = ground (arith, off_path-le ns path m, ==_refl m, e)
off_path-lt (n ∷ ns) path m (inr i) h = ground (arith, off_path-lt ns path m i)

target-node : (deps : List Dep) (n m : String) → In m (targets deps n) → In m (nodes deps)
unfolding targets
target-node [] n m i = absurd (i.0)
target-node (d ∷ deps) n m i = ground (arith, target-node deps n m)

-- The path from the open node `m` to its end, and `m` again.
from_open-ClosedWalk :
    (deps : List Dep) (m a : String) (path rest : List String)
    → includes path m ≡ true
    → Chain deps path
    → ((p : String) → head_of path ≡ some p → In a (targets deps p))
    → Walk deps (a ∷ rest)
    → last_of (a ∷ rest) ≡ some m
    → ClosedWalk deps (from_open m path (a ∷ rest))
from_open-ClosedWalk deps m a [] rest h chain top w l = absurd (ground arith)
from_open-ClosedWalk deps m a (p ∷ path) rest h chain top w l = elim (Bool-cases (p == m)) [
  | inl e ↦
      rw e (record {
        walk = (top p refl, w);
        closed = ground (arith, ==_iff p m);
        steps = ground arith;
      })
  | inr e ↦ rw e (
      from_open-ClosedWalk deps m p path (a ∷ rest) (ground (arith, e)) (tail path chain)
        (λ q f. ahead path q f chain) (top p refl, w) l)
]
  where
    tail : (ps : List String) → Chain deps (p ∷ ps) → Chain deps ps
    tail [] c = tt
    tail (q ∷ ps) c = c.1

    ahead :
        (ps : List String) (q : String)
        → head_of ps ≡ some q
        → Chain deps (p ∷ ps)
        → In p (targets deps q)
    ahead [] q f c = absurd (ground arith)
    ahead (r ∷ ps) q f c = ground arith

-- One node, and then the rest of the loop from what it leaves.
then-Ensures :
    (deps : List Dep) (s : Marks) (m : String) (ms : List String) (v : Visit) (k : Marks → Visit)
    → Ensures deps s (m ∷ []) v
    → ((s' : Marks) → Left deps s (m ∷ []) s' → Ensures deps s' ms (k s'))
    → Ensures deps s (m ∷ ms) (next v k)
then-Ensures deps s m ms (found c) k h rest = h
then-Ensures deps s m ms out_of_fuel k h rest = h
then-Ensures deps s m ms (clear s') k h rest = joined (k s') (rest s' h)
  where
    joined : (v : Visit) → Ensures deps s' ms v → Ensures deps s (m ∷ ms) v
    joined (found c) e = e
    joined out_of_fuel e = e
    joined (clear t) e = record {
      good = e.good;
      same = ground (arith, e.same, h.same);
      marked = λ x i. ground (arith, i, h.marked x, e.marked x, e.grows x);
      grows = λ x d. e.grows x (h.grows x d);
    }

-- A node that is done is passed over.
skip-Ensures :
    (deps : List Dep) (s : Marks) (m : String)
    → Good deps s
    → includes s.done m ≡ true
    → Left deps s (m ∷ []) s
skip-Ensures deps s m g d = record {
  good = g;
  same = refl;
  marked = λ x i. ground (arith, i, d);
  grows = λ x h. h;
}

module _ (deps : List Dep) (go : String → Marks → Visit) (path : List String)
    (step : (m : String) (s : Marks)
      → s.path ≡ path
      → Good deps s
      → includes s.path m ≡ false
      → includes s.done m ≡ false
      → Chain deps (m ∷ s.path)
      → In m (nodes deps)
      → Ensures deps s (m ∷ []) (go m s)) where
  one :
      (m : String) (s : Marks)
      → s.path ≡ path
      → Good deps s
      → includes s.path m ≡ false
      → Chain deps (m ∷ s.path)
      → In m (nodes deps)
      → Ensures deps s (m ∷ []) (if includes s.done m then clear s else go m s)
  one m s same g off chain node = elim (Bool-cases (includes s.done m)) [
    | inl d ↦ rw d (skip-Ensures deps s m g d)
    | inr d ↦ rw d (step m s same g off d chain node)
  ]

  each_target_lem :
      (n : String) (below ms : List String) (s : Marks)
      → path ≡ n ∷ below
      → s.path ≡ path
      → Good deps s
      → ((m : String) → In m ms → In m (targets deps n))
      → Ensures deps s ms (each_target go ms s)
  unfolding each_target
  each_target_lem n below [] s top same g sub = record {
    good = g;
    same = refl;
    marked = λ x i. absurd (i.0);
    grows = λ x h. h;
  }
  each_target_lem n below (m ∷ ms) s top same g sub = elim (Bool-cases (includes s.path m)) [
    | inl open_node ↦ rw open_node (
        from_open-ClosedWalk deps m m s.path [] open_node g.chain
          (λ p h. ground (arith, top, same, h, sub m (inl refl))) tt refl)
    | inr off ↦ rw off (
        then-Ensures deps s m ms _ (each_target go ms)
          (one m s same g off (ground (arith, top, same, g.chain, sub m (inl refl)))
            (target-node deps n m (sub m (inl refl))))
          (λ s' l.
            each_target_lem n below ms s' top (ground (arith, l.same, same)) l.good
              (λ x i. sub x (inr i))))
  ]

-- The node is taken off the path again, with everything that it waits on done.
leave-Left :
    (deps : List Dep) (n : String) (s t : Marks)
    → Good deps s
    → includes s.path n ≡ false
    → includes s.done n ≡ false
    → Left deps (record s { path = n ∷ s.path }) (targets deps n) t
    → Ensures deps s (n ∷ []) (leave n t)
leave-Left deps n s t g off fresh l = record {
  good = record {
    ordered = (l.marked, ground (arith, l.good.apart n, l.same, ==_refl n), l.good.ordered);
    apart = λ x h. ground (arith, l.good.apart x, l.same, h, off, ==_iff n x);
    chain = ground (arith, l.same, g.chain);
  };
  same = ground (arith, l.same);
  marked = λ x i. ground (arith, i, ==_refl n);
  grows = λ x h. ground (arith, l.grows x h);
}

after-Ensures :
    (deps : List Dep) (n : String) (s : Marks) (v : Visit)
    → Good deps s
    → includes s.path n ≡ false
    → includes s.done n ≡ false
    → Ensures deps (record s { path = n ∷ s.path }) (targets deps n) v
    → Ensures deps s (n ∷ []) (next v (leave n))
after-Ensures deps n s (found c) g off fresh e = e
after-Ensures deps n s out_of_fuel g off fresh e = e
after-Ensures deps n s (clear t) g off fresh e = leave-Left deps n s t g off fresh e

pub visit_lem :
    (deps : List Dep) (fuel : ℕ) (n : String) (s : Marks)
    → Good deps s
    → includes s.path n ≡ false
    → includes s.done n ≡ false
    → Chain deps (n ∷ s.path)
    → In n (nodes deps)
    → off_path (nodes deps) s.path < fuel
    → Ensures deps s (n ∷ []) (visit deps fuel n s)
unfolding visit
visit_lem deps zero n s g off fresh chain node h = absurd (ground arith)
visit_lem deps (suc fuel) n s g off fresh chain node h = after-Ensures deps n s _ g off fresh (
    each_target_lem deps (visit deps fuel) (n ∷ s.path)
      (λ m t same g' off' fresh' chain' node'.
        visit_lem deps fuel m t g' off' fresh' chain' node'
          (rw same (ground (arith, off_path-lt (nodes deps) s.path n node off, h))))
      n s.path (targets deps n) (record s { path = n ∷ s.path }) refl refl
      (record {
        ordered = g.ordered;
        apart = λ x i. ground (arith, i, fresh, g.apart x, ==_iff n x);
        chain = chain;
      })
      (λ m i. i))

root_one :
    (deps : List Dep) (fuel : ℕ) (n : String) (s : Marks)
    → off_path (nodes deps) [] < fuel
    → s.path ≡ []
    → Good deps s
    → In n (nodes deps)
    → Ensures deps s
        (n ∷ [])
        (if includes s.path n || includes s.done n then clear s else visit deps fuel n s)
root_one deps fuel n s h same g node =
    let off : includes s.path n ≡ false = ground (arith, same) in
    elim (Bool-cases (includes s.done n)) [
      | inl d ↦ rw (off, d) (skip-Ensures deps s n g d)
      | inr d ↦
          rw (off, d)
            (visit_lem deps fuel n s g off d (ground (arith, same)) node (ground (arith, same, h)))
    ]

-- The loop over the roots, where the path is empty.
pub each_root_lem :
    (deps : List Dep) (fuel : ℕ) (ns : List String) (s : Marks)
    → off_path (nodes deps) [] < fuel
    → s.path ≡ []
    → Good deps s
    → ((n : String) → In n ns → In n (nodes deps))
    → Ensures deps s ns (each_root (visit deps fuel) ns s)
unfolding each_root
each_root_lem deps fuel [] s h same g sub = record {
  good = g;
  same = refl;
  marked = λ x i. absurd (i.0);
  grows = λ x d. d;
}
each_root_lem deps fuel (n ∷ ns) s h same g sub =
    then-Ensures deps s n ns _ (each_root (visit deps fuel) ns)
      (root_one deps fuel n s h same g (sub n (inl refl)))
      (λ t l.
        each_root_lem deps fuel ns t h (ground (arith, l.same, same)) l.good (λ x i. sub x (inr i)))
