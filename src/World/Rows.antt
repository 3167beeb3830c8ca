-- ===== src/World/Rows.antt =====
-- Rows of a table under updates, and unique keys.
use fastapi_template.Prelude.{
  ℕ, ◌≡◌, refl, subst, inl, inr, Bool, true, false, ◌&&◌, ◌||◌, not, some, List, [], ◌∷◌, arith,
  if◌then◌else◌, ◌==◌, nat_eq, string_eq, option_eq, Bool-cases, map_option,
}
use fastapi_template.Prelude.Lists.{any, all, find}
use fastapi_template.World.{link_eq, update_rows}

module _ {A : Type 0} where
  -- An update of the rows with key `j`, as a query by key sees it.
  pub find-update_rows :
      (k : A → ℕ) (f : A → A)
      → ((x : A) → k (f x) ≡ k x)
      → (i j : ℕ) (xs : List A)
      → find (λ x. k x == i) (update_rows (λ x. k x == j) f xs)
        ≡ map_option (λ x. if k x == j then f x else x) (find (λ x. k x == i) xs)
  unfolding find update_rows
  find-update_rows k f keeps i j [] = refl
  find-update_rows k f keeps i j (x ∷ xs) =
      ground (arith, keeps x, find-update_rows k f keeps i j xs)

  -- No two rows agree.
  unfoldable pub distinct : (A → A → Bool) → List A → Bool
  distinct same [] = true
  distinct same (x ∷ xs) = not (any (same x) xs) && distinct same xs

  pub any-of_find :
      (q s : A → Bool) (xs : List A) (x : A) → find q xs ≡ some x → s x ≡ true → any s xs ≡ true
  unfolding find any
  any-of_find q s [] x h e = ground arith
  any-of_find q s (y ∷ xs) x h e = ground (arith, any-of_find q s xs x)

  none_at :
      (k : A → ℕ) (f : A → Bool) (xs : List A) (i j : ℕ)
      → j ≡ i
      → any (λ y. j == k y) xs ≡ false
      → any (λ y. i == k y && f y) xs ≡ false
  unfolding any
  none_at k f [] i j e h = refl
  none_at k f (y ∷ xs) i j e h = ground (arith, none_at k f xs i j e)

  -- Where keys are unique, a test of the row with a key is the test of the row found by it.
  pub any_at :
      (k : A → ℕ) (f : A → Bool) (xs : List A) (i : ℕ) (x : A)
      → distinct (λ a b. k a == k b) xs ≡ true
      → find (λ y. k y == i) xs ≡ some x
      → any (λ y. i == k y && f y) xs ≡ f x
  unfolding find any distinct
  any_at k f [] i x d h = ground arith
  any_at k f (y ∷ xs) i x d h = ground (arith, none_at k f xs i (k y), any_at k f xs i x)

  all_of_none :
      (s q : A → Bool) (xs : List A) → any s xs ≡ false → all (λ y. not (s y) || q y) xs ≡ true
  unfolding any all
  all_of_none s q [] h = refl
  all_of_none s q (y ∷ xs) h = ground (arith, all_of_none s q xs)

  -- Where `same` rows are unique, a row that is the same as the one found is that one.
  pub found_only :
      (same : A → A → Bool) (q : A → Bool) (xs : List A) (x : A)
      → ((a b : A) → same a b ≡ same b a)
      → distinct same xs ≡ true
      → find q xs ≡ some x
      → all (λ y. not (same x y) || q y) xs ≡ true
  unfolding find all distinct
  found_only same q [] x symmetric d h = refl
  found_only same q (y ∷ xs) x symmetric d h = elim (Bool-cases (q y)) [
    | inl here ↦
        let at : y ≡ x = ground arith in
        subst (λ z. ((not (same z y) || q y) && all (λ y'. not (same z y') || q y') xs) ≡ true) at
          (ground (arith, all_of_none (same y) q xs))
    | inr there ↦
        ground (arith, found_only same q xs x symmetric, any-of_find q (same y) xs x, symmetric x y)
  ]
