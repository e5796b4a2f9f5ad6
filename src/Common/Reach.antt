-- ===== src/Common/Reach.antt =====
-- A recursive query (`with recursive … union …`) computes the ends that a set of edges reaches. The
-- relation `Reaches` says which these are, and `reach` decides it.
use Prim.Native.String.{String}
use mathlib.Core.Path.{◌≡◌, refl, subst}
use mathlib.Core.Logic.{inl, inr}
use mathlib.Core.Bool.{Bool, true, false}
use mathlib.Core.List.{List, [], ◌∷◌}
use native.Mathlib.Omega.{arith}
use shreni.Common.Tests.{◌==◌, ==_iff, ==_refl, Bool-cases}
use shreni.Common.Lists.{In}

abbrev pub Edge : Type 0
Edge = String × String

-- Along edges, in none or more steps.
pub data Reaches (es : List Edge) : String → String → Type 0 where
  here : {a : String} → Reaches es a a
  step : {a b c : String} → In (a, b) es → Reaches es b c → Reaches es a c

-- A path either avoids the first edge, or passes over it once.
unfoldable pub reach : List Edge → String → String → Bool
reach [] a b = a == b
reach ((x, y) ∷ es) a b = elim (reach es a b) [
  | true ↦ true
  | false ↦ elim (reach es a x) [ true ↦ reach es y b | false ↦ false ]
]

-- Edges that lead round: the second end of one reaches its first.
pub trans : {es : List Edge} {a b c : String} → Reaches es a b → Reaches es b c → Reaches es a c
trans here q = q
trans (step m p) q = step m (trans p q)

pub widen :
    (es fs : List Edge) {a b : String}
    → ((e : Edge) → In e es → In e fs)
    → Reaches es a b
    → Reaches fs a b
widen es fs w here = here
widen es fs w (step {a} {b} m p) = step (w (a, b) m) (widen es fs w p)

pub reach-Reaches : (es : List Edge) (a b : String) → reach es a b ≡ true → Reaches es a b
unfolding reach
reach-Reaches [] a b h = subst (Reaches [] a) ((==_iff a b).0 h) here
reach-Reaches ((x, y) ∷ es) a b h = elim (Bool-cases (reach es a b)) [
  | inl direct ↦ wider (reach-Reaches es a b direct)
  | inr round ↦
      let (out, back) = over (reach es a b) (reach es a x) (reach es y b) round h in
      trans (wider (reach-Reaches es a x out)) (step (inl refl) (wider (reach-Reaches es y b back)))
]
  where
    wider : {c d : String} → Reaches es c d → Reaches ((x, y) ∷ es) c d
    wider = widen es ((x, y) ∷ es) (λ e m. inr m)

    over :
        (p q r : Bool)
        → p ≡ false
        → elim p [ true ↦ true | false ↦ elim q [ true ↦ r | false ↦ false ] ] ≡ true
        → (q ≡ true) × (r ≡ true)
    over p q r n t = ground arith

reach_refl : (es : List Edge) (a : String) → reach es a a ≡ true
unfolding reach
reach_refl [] a = ==_refl a
reach_refl ((x, y) ∷ es) a = rw (reach_refl es a)

-- One more step at the front, given that it is sound along the other edges.
prepend :
    (x y : String) (es : List Edge) (a b c : String)
    → ((d : String) → In (a, b) es → reach es b d ≡ true → reach es a d ≡ true)
    → In (a, b) ((x, y) ∷ es)
    → reach ((x, y) ∷ es) b c ≡ true
    → reach ((x, y) ∷ es) a c ≡ true
unfolding reach
prepend x y es a b c along m h = ground (arith, along c, along x, reach_refl es a, reach_refl es x)

pub Reaches-reach : (es : List Edge) {a b : String} → Reaches es a b → reach es a b ≡ true
Reaches-reach [] (here {a}) = reach_refl [] a
Reaches-reach [] (step m p) = absurd (m.0)
Reaches-reach ((x, y) ∷ es) (here {a}) = reach_refl ((x, y) ∷ es) a
Reaches-reach ((x, y) ∷ es) (step {a} {b} {c} m p) =
    prepend x y es a b c (λ d n h. Reaches-reach es (step n (reach-Reaches es b d h))) m
      (Reaches-reach ((x, y) ∷ es) p)

-- No edge leads back to its own start.
abbrev pub Acyclic : List Edge → Type 0
Acyclic es = (a b : String) → In (a, b) es → reach es b a ≡ false

pub reach_trans :
    (es : List Edge) (a b c : String)
    → reach es a b ≡ true
    → reach es b c ≡ true
    → reach es a c ≡ true
reach_trans es a b c h k =
    Reaches-reach es (trans (reach-Reaches es a b h) (reach-Reaches es b c k))

pub reach_edge :
    (es : List Edge) (a b c : String) → In (a, b) es → reach es b c ≡ true → reach es a c ≡ true
reach_edge es a b c m h = Reaches-reach es (step m (reach-Reaches es b c h))

-- An edge whose end does not reach its start closes no cycle.
pub Acyclic-add :
    (es : List Edge) (x y : String) → Acyclic es → reach es y x ≡ false → Acyclic ((x, y) ∷ es)
unfolding reach
Acyclic-add es x y ok no_way a b (inl e) = ground (arith, ok, no_way)
Acyclic-add es x y ok no_way a b (inr m) =
    ground (arith, ok a b m, reach_trans es y a x, reach_edge es a b x m)

-- Taking edges away closes none either.
pub Acyclic-fewer : (es fs : List Edge) → ((e : Edge) → In e fs → In e es) → Acyclic es → Acyclic fs
Acyclic-fewer es fs fewer ok a b m = elim (Bool-cases (reach fs b a)) [
  | inl h ↦ absurd (
      differ (Reaches-reach es (widen fs es fewer (reach-Reaches fs b a h)))
        (ok a b (fewer (a, b) m)))
  | inr h ↦ h
]
  where
    differ : {t : Bool} → t ≡ true → t ≡ false → ⊥
    differ h k = ground arith
