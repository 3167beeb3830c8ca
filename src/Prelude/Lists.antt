-- ===== src/Prelude/Lists.antt =====
-- Lists under Boolean tests: membership, `any`, `all`, `filter`, dictionaries as lists of pairs.
use Prim.Native.Nat.{ℕ, zero, suc}
use mathlib.Core.Path.{◌≡◌, refl}
use mathlib.Core.Logic.{inl, inr}
use mathlib.Core.Bool.{Bool, true, false, ◌&&◌, ◌||◌, not}
use mathlib.Core.Option.{Option, none, some}
use mathlib.Core.List.{List, [], ◌∷◌, ◌++◌, map}
use native.Mathlib.Omega.{arith}
use fastapi_template.Prelude.Tests.{if◌then◌else◌, Eq, ◌==◌, Bool-cases}

module _ {ℓ} {A : Type ℓ} where
  unfoldable pub any : (A → Bool) → List A → Bool
  any p [] = false
  any p (x ∷ xs) = p x || any p xs

  unfoldable pub all : (A → Bool) → List A → Bool
  all p [] = true
  all p (x ∷ xs) = p x && all p xs

  unfoldable pub filter : (A → Bool) → List A → List A
  filter p [] = []
  filter p (x ∷ xs) = if p x then x ∷ filter p xs else filter p xs

  -- The first element that passes.
  unfoldable pub find : (A → Bool) → List A → Option A
  find p [] = none
  find p (x ∷ xs) = if p x then some x else find p xs

  -- `l[skip:skip + limit]`, the OFFSET and LIMIT of a query.
  abbrev pub take : ℕ → List A → List A
  take zero xs = []
  take (suc n) [] = []
  take (suc n) (x ∷ xs) = x ∷ take n xs

  abbrev pub drop : ℕ → List A → List A
  drop zero xs = xs
  drop (suc n) [] = []
  drop (suc n) (x ∷ xs) = drop n xs

  abbrev pub length : List A → ℕ
  length [] = 0
  length (x ∷ xs) = suc (length xs)

  pub any-append : (p : A → Bool) (xs ys : List A) → any p (xs ++ ys) ≡ (any p xs || any p ys)
  unfolding any
  any-append p [] ys = refl
  any-append p (x ∷ xs) ys = ground (arith, any-append p xs ys)

  pub any-filter : (p q : A → Bool) (xs : List A) → any p (filter q xs) ≡ any (λ x. q x && p x) xs
  unfolding any filter
  any-filter p q [] = refl
  any-filter p q (x ∷ xs) = ground (arith, any-filter p q xs)

  -- Two tests that agree wherever `q` holds find the same in a list where `q` holds throughout.
  pub any-congr :
      (p p' q : A → Bool)
      → ((x : A) → q x ≡ true → p x ≡ p' x)
      → (xs : List A) → all q xs ≡ true
      → any p xs ≡ any p' xs
  unfolding any all
  any-congr p p' q agree [] h = refl
  any-congr p p' q agree (x ∷ xs) h = ground (arith, agree x, any-congr p p' q agree xs)

  pub any_mono :
      (p p' : A → Bool)
      → ((x : A) → p x ≡ true → p' x ≡ true)
      → (xs : List A) → any p xs ≡ true
      → any p' xs ≡ true
  unfolding any
  any_mono p p' imp [] h = h
  any_mono p p' imp (x ∷ xs) h = ground (arith, imp x, any_mono p p' imp xs)

  pub any_and_const :
      (b : Bool) (p : A → Bool) (xs : List A) → any (λ x. b && p x) xs ≡ (b && any p xs)
  unfolding any
  any_and_const b p [] = ground arith
  any_and_const b p (x ∷ xs) = ground (arith, any_and_const b p xs)

  pub any_or : (p q : A → Bool) (xs : List A) → any (λ x. p x || q x) xs ≡ (any p xs || any q xs)
  unfolding any
  any_or p q [] = refl
  any_or p q (x ∷ xs) = ground (arith, any_or p q xs)

  pub all-of_any-not : (p : A → Bool) (xs : List A) → all p xs ≡ not (any (λ x. not (p x)) xs)
  unfolding any all
  all-of_any-not p [] = refl
  all-of_any-not p (x ∷ xs) = ground (arith, all-of_any-not p xs)

  pub find-passes : (p : A → Bool) (xs : List A) (a : A) → find p xs ≡ some a → p a ≡ true
  unfolding find
  find-passes p [] a h = ground arith
  find-passes p (x ∷ xs) a h = ground (arith, find-passes p xs a)

  pub all-find :
      (p q : A → Bool) (xs : List A) (a : A) → all q xs ≡ true → find p xs ≡ some a → q a ≡ true
  unfolding find all
  all-find p q [] a h e = ground arith
  all-find p q (x ∷ xs) a h e = ground (arith, all-find p q xs a)

pub any-map {ℓ κ} :
    {A : Type ℓ} {B : Type κ} (p : B → Bool) (f : A → B) (xs : List A)
    → any p (map f xs) ≡ any (λ x. p (f x)) xs
unfolding any
any-map p f [] = refl
any-map p f (x ∷ xs) = ground (arith, any-map p f xs)

-- `x in xs`
unfoldable pub contains : {A : Type 0} ⦃e : Eq A⦄ → A → List A → Bool
unfolding any
contains a xs = any (λ x. x == a) xs

pub contains-append :
    {A : Type 0} ⦃e : Eq A⦄ (a : A) (xs ys : List A)
    → contains a (xs ++ ys) ≡ (contains a xs || contains a ys)
unfolding contains
contains-append a xs ys = any-append (λ x. x == a) xs ys

-- `d.get(k)` on a dictionary with one entry for a key.
module _ {A : Type 0} ⦃e : Eq A⦄ {V : Type 0} where
  unfoldable pub lookup : A → List (A × V) → Option V
  lookup k [] = none
  lookup k ((j, v) ∷ d) = if j == k then some v else lookup k d

  -- A value that is found stands in an entry.
  pub all-lookup :
      (k : A) (q : A × V → Bool) (d : List (A × V)) (v : V)
      → all q d ≡ true
      → lookup k d ≡ some v
      → q (k, v) ≡ true
  unfolding lookup all
  all-lookup k q [] v h found = ground arith
  all-lookup k q ((j, w) ∷ d) v h found = elim (Bool-cases (j == k)) [
    | inl same ↦ ground (arith, (e.beq_iff j k).0 same)
    | inr other ↦ ground (arith, all-lookup k q d v)
  ]
