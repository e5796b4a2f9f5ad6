-- ===== src/Common/Tests.antt =====
-- Boolean tests on numbers, texts and optional texts, and the conditional.
use Prim.Native.Nat.{ℕ, compare, Ordering}
use Prim.Native.String.{String, compare as text_compare, find as text_find, len}
use mathlib.Core.Path.{◌≡◌, refl}
use mathlib.Core.Logic.{◌↔◌, ◌⊎◌, inl, inr}
use mathlib.Core.Bool.{Bool, true, false, ◌&&◌}
use mathlib.Core.Option.{Option, none, some}
use native.Mathlib.Omega.{arith}
use text.Mathlib.Text.{◌==◌ as text_eq}
use text.Mathlib.TextEquality.{eq_iff}

abbrev pub ltb : ℕ → ℕ → Bool
ltb a b = elim (compare a b) [ Ordering.lt ↦ true | _ ↦ false ]

abbrev pub leb : ℕ → ℕ → Bool
leb a b = elim (compare a b) [ Ordering.gt ↦ false | _ ↦ true ]

abbrev pub eqb : ℕ → ℕ → Bool
eqb a b = elim (compare a b) [ Ordering.eq ↦ true | _ ↦ false ]

infix 1 if◌then◌else◌
abbrev pub if◌then◌else◌ {ℓ} : {A : Type ℓ} → Bool → A → A → A
if true then x else y = x
if false then x else y = y

-- `===` on texts: ids, states, roles and names are texts in the source.
infix 50 ◌==◌
unfoldable pub ◌==◌ : String → String → Bool
s == t = text_eq s t

-- `<` on texts, by their bytes.
unfoldable pub text_lt : String → String → Bool
text_lt s t = elim (text_compare s t) [ Ordering.lt ↦ true | _ ↦ false ]

pub ==_iff : (s t : String) → ((s == t) ≡ true) ↔ (s ≡ t)
unfolding ◌==◌
==_iff s t = eq_iff s t

pub ==→≡ : (s t : String) → (s == t) ≡ true → s ≡ t
==→≡ s t h = (==_iff s t).0 h

pub ==_refl : (s : String) → (s == s) ≡ true
==_refl s = (==_iff s s).1 refl

-- `o === some s`, for a nullable column and a text.
abbrev pub is_some_of : Option String → String → Bool
is_some_of none s = false
is_some_of (some t) s = t == s

abbrev pub is_some {ℓ} : {A : Type ℓ} → Option A → Bool
is_some none = false
is_some (some a) = true

abbrev pub is_none {ℓ} : {A : Type ℓ} → Option A → Bool
is_none none = true
is_none (some a) = false

pub Bool-cases : (b : Bool) → (b ≡ true) ⊎ (b ≡ false)
Bool-cases true = inl refl
Bool-cases false = inr refl

pub Option-cases {ℓ} : {A : Type ℓ} (o : Option A) → (o ≡ none) ⊎ ((a : A) × (o ≡ some a))
Option-cases none = inl refl
Option-cases (some a) = inr (a, refl)

pub &&_true : (a b : Bool) → (a && b) ≡ true → (a ≡ true) × (b ≡ true)
&&_true a b h = ground arith

-- `s.startsWith(p)` and `s.includes(p)`, by the position at which the text is found.
unfoldable pub starts_with : String → String → Bool
starts_with s p = eqb (text_find s p) 0

unfoldable pub contains : String → String → Bool
contains s p = leb (text_find s p) (len s)
