-- ===== src/Common/Lists.antt =====
-- Lists as the source uses arrays: `filter`, `some`, `every`, `find`, `includes` by Boolean tests,
-- and an `order by` as an insertion sort.
use Prim.Native.Nat.{ℕ, suc}
use Prim.Native.String.{String}
use mathlib.Core.Path.{◌≡◌, refl, ap}
use mathlib.Core.Logic.{◌⊎◌, ◌↔◌, inl, inr}
use mathlib.Core.Bool.{Bool, true, false, ◌&&◌, ◌||◌}
use mathlib.Core.Option.{Option, none, some}
use mathlib.Core.List.{List, [], ◌∷◌, map}
use native.Mathlib.Omega.{arith}
use shreni.Common.Tests.{◌==◌, ==_iff, if◌then◌else◌, Bool-cases}

module _ {ℓ} {A : Type ℓ} where
  abbrev pub length : List A → ℕ
  length [] = 0
  length (x ∷ xs) = suc (length xs)

  abbrev pub any : (A → Bool) → List A → Bool
  any p [] = false
  any p (x ∷ xs) = p x || any p xs

  abbrev pub all : (A → Bool) → List A → Bool
  all p [] = true
  all p (x ∷ xs) = p x && all p xs

  abbrev pub filter : (A → Bool) → List A → List A
  filter p [] = []
  filter p (x ∷ xs) = if p x then x ∷ filter p xs else filter p xs

  abbrev pub find : (A → Bool) → List A → Option A
  find p [] = none
  find p (x ∷ xs) = if p x then some x else find p xs

  abbrev pub is_empty : List A → Bool
  is_empty [] = true
  is_empty (x ∷ xs) = false

  abbrev pub head_of : List A → Option A
  head_of [] = none
  head_of (x ∷ xs) = some x

  -- `order by`: a stable insertion sort by a test that says whether the first may stand before.
  abbrev pub insert_by : (A → A → Bool) → A → List A → List A
  insert_by le x [] = x ∷ []
  insert_by le x (y ∷ ys) = if le x y then x ∷ y ∷ ys else y ∷ insert_by le x ys

  abbrev pub order_by : (A → A → Bool) → List A → List A
  order_by le [] = []
  order_by le (x ∷ xs) = insert_by le x (order_by le xs)

abbrev pub includes : List String → String → Bool
includes xs s = any (λ x. x == s) xs

-- A predicate on every element; it computes to tuples.
abbrev pub All {ℓ κ} : {A : Type ℓ} → (A → Type κ) → List A → Type κ
All P [] = Unit
All P (x ∷ xs) = P x × All P xs

-- Membership, by recursion; it computes to a sum that the tactics read.
abbrev pub In {ℓ} : {A : Type ℓ} → A → List A → Type ℓ
In a [] = ⊥ × Unit {ℓ}
In a (x ∷ xs) = (a ≡ x) ⊎ In a xs

module _ {ℓ} {A : Type ℓ} where
  pub find-sat : (p : A → Bool) (xs : List A) (a : A) → find p xs ≡ some a → p a ≡ true
  find-sat p [] a h = ground arith
  find-sat p (x ∷ xs) a h = ground (arith, find-sat p xs a)

  pub find-In : (p : A → Bool) (xs : List A) (a : A) → find p xs ≡ some a → In a xs
  find-In p [] a h = ground arith
  find-In p (x ∷ xs) a h = ground (arith, find-In p xs a)

  pub any-In : (p : A → Bool) (xs : List A) (a : A) → In a xs → p a ≡ true → any p xs ≡ true
  any-In p [] a m h = ground arith
  any-In p (x ∷ xs) a m h = ground (arith, any-In p xs a)

  pub all-In : (p : A → Bool) (xs : List A) (a : A) → all p xs ≡ true → In a xs → p a ≡ true
  all-In p [] a h m = ground arith
  all-In p (x ∷ xs) a h m = ground (arith, all-In p xs a)

  pub In-filter : (p : A → Bool) (xs : List A) (a : A) → In a (filter p xs) → In a xs × (p a ≡ true)
  In-filter p [] a m = ground arith
  In-filter p (x ∷ xs) a m = ground (arith, In-filter p xs a)

  pub filter-In : (p : A → Bool) (xs : List A) (a : A) → In a xs → p a ≡ true → In a (filter p xs)
  filter-In p [] a m h = ground arith
  filter-In p (x ∷ xs) a m h = ground (arith, filter-In p xs a)

  pub any-witness :
      (p : A → Bool) (xs : List A) → any p xs ≡ true → (a : A) × In a xs × (p a ≡ true)
  any-witness p [] h = absurd (ground arith)
  any-witness p (x ∷ xs) h = elim (Bool-cases (p x)) [
    | inl e ↦ (x, inl refl, e)
    | inr e ↦ let (a, m, t) = any-witness p xs (ground arith) in (a, inr m, t)
  ]

  pub In-map {κ} :
      {B : Type κ} (f : A → B) (xs : List A) (b : B)
      → In b (map f xs)
      → (a : A) × In a xs × (b ≡ f a)
  In-map f [] b m = absurd (ground arith)
  In-map f (x ∷ xs) b (inl e) = (x, inl refl, e)
  In-map f (x ∷ xs) b (inr m) = let (a, n, e) = In-map f xs b m in (a, inr n, e)

  pub map_nil {κ} : {B : Type κ} (f : A → B) (xs : List A) → map f xs ≡ [] → xs ≡ []
  map_nil f [] h = refl
  map_nil f (x ∷ xs) h = absurd (ground arith)

  pub filter_nil : (p : A → Bool) (xs : List A) (a : A) → filter p xs ≡ [] → In a xs → p a ≡ false
  filter_nil p [] a h m = absurd (m.0)
  filter_nil p (x ∷ xs) a h m = ground (arith, filter_nil p xs a)

  insert_by_nil : (le : A → A → Bool) (x : A) (xs : List A) → insert_by le x xs ≡ [] → ⊥
  insert_by_nil le x [] h = ground arith
  insert_by_nil le x (y ∷ ys) h = ground arith

  pub order_by_nil : (le : A → A → Bool) (xs : List A) → order_by le xs ≡ [] → xs ≡ []
  order_by_nil le [] h = refl
  order_by_nil le (x ∷ xs) h = absurd (insert_by_nil le x (order_by le xs) h)

  In-insert_by :
      (le : A → A → Bool) (x : A) (xs : List A) (a : A)
      → In a (insert_by le x xs) ↔ ((a ≡ x) ⊎ In a xs)
  In-insert_by le x [] a = (λ h. h, λ h. h)
  In-insert_by le x (y ∷ ys) a = ground (arith, In-insert_by le x ys a)

  -- An `order by` keeps exactly the rows.
  pub In-order_by : (le : A → A → Bool) (xs : List A) (a : A) → In a (order_by le xs) ↔ In a xs
  In-order_by le [] a = (λ h. h, λ h. h)
  In-order_by le (x ∷ xs) a =
      ground (arith, In-insert_by le x (order_by le xs) a, In-order_by le xs a)

  pub map-In {κ} : {B : Type κ} (f : A → B) (xs : List A) (a : A) → In a xs → In (f a) (map f xs)
  map-In f [] a m = absurd (m.0)
  map-In f (x ∷ xs) a (inl e) = inl (ap f e)
  map-In f (x ∷ xs) a (inr m) = inr (map-In f xs a m)

pub includes-In : (xs : List String) (s : String) → In s xs → includes xs s ≡ true
includes-In [] s m = absurd (m.0)
includes-In (x ∷ xs) s m = ground (arith, ==_iff x s, includes-In xs s)

pub In-includes : (xs : List String) (s : String) → includes xs s ≡ true → In s xs
In-includes [] s h = absurd (ground arith)
In-includes (x ∷ xs) s h = ground (arith, ==_iff x s, In-includes xs s)

module _ {ℓ} {A : Type ℓ} where
  -- The head of a sort by a total order may stand before every element.
  abbrev pub IsTotal : (A → A → Bool) → Type ℓ
  IsTotal le = (a b : A) → (le a b ≡ true) ⊎ (le b a ≡ true)

  abbrev pub IsTransitive : (A → A → Bool) → Type ℓ
  IsTransitive le = (a b c : A) → le a b ≡ true → le b c ≡ true → le a c ≡ true

  pub head_of-In : (xs : List A) (a : A) → head_of xs ≡ some a → In a xs
  head_of-In [] a h = absurd (ground arith)
  head_of-In (x ∷ xs) a h = ground arith

  pub head_of-none : (xs : List A) → head_of xs ≡ none → xs ≡ []
  head_of-none [] h = refl
  head_of-none (x ∷ xs) h = absurd (ground arith)

  insert_by-min :
      (le : A → A → Bool) (x : A) (xs : List A) (m : A)
      → IsTotal le
      → IsTransitive le
      → ((b : A) → In b xs → (h : A) → head_of xs ≡ some h → le h b ≡ true)
      → head_of (insert_by le x xs) ≡ some m
      → (b : A) → In b (insert_by le x xs)
      → le m b ≡ true
  insert_by-min le x [] m total trans low h b i = ground (arith, total x x)
  insert_by-min le x (y ∷ ys) m total trans low h b i = ground (
    arith,
    total x y,
    total x x,
    total y y,
    trans x y b,
    low b,
    In-insert_by le x ys b,
    λ (j : In b (y ∷ ys)). low b j y refl,
  )

  pub order_by-min :
      (le : A → A → Bool) (xs : List A) (m : A)
      → IsTotal le
      → IsTransitive le
      → head_of (order_by le xs) ≡ some m
      → (b : A) → In b (order_by le xs)
      → le m b ≡ true
  order_by-min le [] m total trans h b i = absurd (i.0)
  order_by-min le (x ∷ xs) m total trans h b i =
      insert_by-min le x (order_by le xs) m total trans
        (λ c j k e. order_by-min le xs k total trans e c j) h b i

pub any-false {ℓ} :
    {A : Type ℓ} (p : A → Bool) (xs : List A) (a : A) → any p xs ≡ false → In a xs → p a ≡ false
any-false p [] a h m = absurd (ground arith)
any-false p (x ∷ xs) a h m = ground (arith, any-false p xs a)
