-- ===== src/Rbac/Registry/Expansion.antt =====
-- app/core/rbac/registry.py: the loop of `expand_implied` and the sets that are closed under implication.
use fastapi_template.Prelude.{
  String, ◌≡◌, refl, ap, ◌∙◌, subst, inl, inr, Bool, true, false, ◌||◌, List, [], ◌∷◌, arith, ◌==◌,
  nat_eq, string_eq, option_eq, Bool-cases, Option-cases,
}
use text.Mathlib.TextEquality.{eq_iff}
use fastapi_template.Prelude.Lists.{any, all, contains, lookup, all-lookup}
use fastapi_template.Rbac.Registry.{
  permission_implies, implied_by, Frontier, add_implied, add_all_implied, expand_round, expand_loop,
  set_of, expand_run, expand_implied,
}

abbrev is_empty : List String → Bool
is_empty [] = true
is_empty (x ∷ xs) = false

-- A name that implies nothing.
abbrev is_final : String → Bool
is_final name = is_empty (implied_by name)

abbrev implies_final : String × List String → Bool
implies_final e = all is_final e.1

implications_ok : all implies_final permission_implies ≡ true
unfolding permission_implies implied_by lookup all
implications_ok = refl

implied_by-final : (name : String) → all is_final (implied_by name) ≡ true
unfolding implied_by all
implied_by-final name = elim (Option-cases (lookup name permission_implies)) [
  | inl missing ↦ rw (missing, implied_by)
  | inr (names, found) ↦
      rw (found, implied_by)
        (all-lookup name implies_final permission_implies names implications_ok found)
]

add_implied-result :
    (f : Frontier) (y x : String)
    → contains x (add_implied f y).result ≡ (contains x f.result || (y == x))
unfolding add_implied contains any
add_implied-result f y x = ground (arith, eq_iff y x)

add_all_implied-result :
    (ys : List String) (f : Frontier) (x : String)
    → contains x (add_all_implied f ys).result ≡ (contains x f.result || contains x ys)
unfolding add_all_implied contains any
add_all_implied-result [] f x = ground arith
add_all_implied-result (y ∷ ys) f x =
    ground (arith, add_all_implied-result ys (add_implied f y) x, add_implied-result f y x)

-- One of `names` implies `x` directly.
abbrev implied : List String → String → Bool
implied names x = any (λ name. contains x (implied_by name)) names

expand_round-result :
    (names : List String) (f : Frontier) (x : String)
    → contains x (expand_round f names).result ≡ (contains x f.result || implied names x)
unfolding expand_round any
expand_round-result [] f x = ground arith
expand_round-result (name ∷ names) f x = ground (
  arith,
  expand_round-result names (add_all_implied f (implied_by name)) x,
  add_all_implied-result (implied_by name) f x,
)

add_all_implied-final :
    (ys : List String) (f : Frontier)
    → all is_final ys ≡ true
    → all is_final f.next ≡ true
    → all is_final (add_all_implied f ys).next ≡ true
unfolding add_all_implied add_implied all
add_all_implied-final [] f h k = k
add_all_implied-final (y ∷ ys) f h k =
    add_all_implied-final ys (add_implied f y) (ground arith) (ground arith)

expand_round-final :
    (names : List String) (f : Frontier)
    → all is_final f.next ≡ true
    → all is_final (expand_round f names).next ≡ true
unfolding expand_round
expand_round-final [] f k = k
expand_round-final (name ∷ names) f k =
    expand_round-final names (add_all_implied f (implied_by name))
      (add_all_implied-final (implied_by name) f (implied_by-final name) k)

add_all-of_empty : (ys : List String) (f : Frontier) → is_empty ys ≡ true → add_all_implied f ys ≡ f
unfolding add_all_implied
add_all-of_empty [] f h = refl
add_all-of_empty (y ∷ ys) f h = cc

add_all-of_final :
    (name : String) (f : Frontier) → is_final name ≡ true → add_all_implied f (implied_by name) ≡ f
add_all-of_final name f h = add_all-of_empty (implied_by name) f h

expand_round-of_final :
    (names : List String) (f : Frontier) → all is_final names ≡ true → expand_round f names ≡ f
unfolding expand_round all
expand_round-of_final [] f h = refl
expand_round-of_final (name ∷ names) f h =
    rw (add_all-of_final name f (ground arith)) (expand_round-of_final names f (ground arith))

abbrev done : List String → Frontier
done names = record { result = names; next = [] }

loop-of_final :
    (names result : List String)
    → all is_final names ≡ true
    → expand_loop 2 result names ≡ done result
unfolding expand_loop
loop-of_final [] result h = refl
loop-of_final (name ∷ names) result h =
    ap (λ (f : Frontier). expand_loop 1 f.result f.next)
      (expand_round-of_final (name ∷ names) (done result) h)

loop_lem :
    (names result : List String)
    → expand_loop 3 result names ≡ done (expand_round (done result) names).result
loop_lem [] result = unfold expand_loop expand_round in refl
loop_lem (name ∷ names) result =
    unfold expand_loop in
    loop-of_final (expand_round (done result) (name ∷ names)).next
      (expand_round (done result) (name ∷ names)).result
      (expand_round-final (name ∷ names) (done result) (unfold all in refl))

contains-set_of : (names : List String) (x : String) → contains x (set_of names) ≡ contains x names
unfolding set_of contains any
contains-set_of [] x = refl
contains-set_of (name ∷ names) x = ground (arith, contains-set_of names x, eq_iff name x)

any-of_contains :
    (p : String → Bool) (names : List String) (x : String)
    → contains x names ≡ true
    → p x ≡ true
    → any p names ≡ true
unfolding contains any
any-of_contains p [] x h k = ground arith
any-of_contains p (name ∷ names) x h k = ground (arith, any-of_contains p names x, eq_iff name x)

any-set_of : (p : String → Bool) (names : List String) → any p (set_of names) ≡ any p names
unfolding set_of any
any-set_of p [] = refl
any-set_of p (name ∷ names) = ground (arith, any-set_of p names, any-of_contains p names name)

expand_run_lem :
    (names : List String)
    → expand_run names ≡ done (expand_round (done (set_of names)) (set_of names)).result
unfolding expand_run
expand_run_lem names = loop_lem (set_of names) (set_of names)

-- A name is in the expansion exactly when it was asked for or a name that was asked for implies it.
pub contains-expand_implied :
    (names : List String) (x : String)
    → contains x (expand_implied names) ≡ (contains x names || implied names x)
unfolding expand_implied
contains-expand_implied names x =
    ap (λ (f : Frontier). contains x f.result) (expand_run_lem names)
    ∙ expand_round-result (set_of names) (done (set_of names)) x
    ∙ rw (contains-set_of names x, any-set_of (λ name. contains x (implied_by name)) names) refl

-- `while frontier` has ended by its own test, within the rounds given.
pub expand_loop_ends : (names : List String) → (expand_run names).next ≡ []
expand_loop_ends names = rw expand_run_lem refl

-- A set of names that holds all that its members imply.
abbrev pub IsClosed : List String → Type 0
IsClosed s =
    (name x : String)
    → contains name s ≡ true
    → contains x (implied_by name) ≡ true
    → contains x s ≡ true

nothing_beyond : (ys : List String) (x : String) → is_empty ys ≡ true → contains x ys ≡ false
unfolding contains any
nothing_beyond [] x h = refl
nothing_beyond (y ∷ ys) x h = cc

-- What a final name implies: nothing. Every implied name is final.
implied-final :
    (ys : List String) (name : String)
    → all is_final ys ≡ true
    → contains name ys ≡ true
    → is_final name ≡ true
unfolding all contains any
implied-final [] name h k = cc
implied-final (y ∷ ys) name h k = elim (Bool-cases (y == name)) [
  | inl same ↦ subst (λ z. is_final z ≡ true) ((eq_iff y name).0 same) (ground arith)
  | inr other ↦ implied-final ys name (ground arith) (ground arith)
]

implied_of_implied :
    (names : List String) (name x : String)
    → implied names name ≡ true
    → contains x (implied_by name) ≡ false
unfolding any
implied_of_implied [] name x h = cc
implied_of_implied (y ∷ ys) name x h = elim (Bool-cases (contains name (implied_by y))) [
  | inl here ↦
      nothing_beyond (implied_by name) x
        (implied-final (implied_by y) name (implied_by-final y) here)
  | inr there ↦ implied_of_implied ys name x (ground arith)
]

implied_of_contains :
    (names : List String) (name x : String)
    → contains name names ≡ true
    → contains x (implied_by name) ≡ true
    → implied names x ≡ true
implied_of_contains names name x h k =
    any-of_contains (λ n. contains x (implied_by n)) names name h k

expand_implied-IsClosed : (names : List String) → IsClosed (expand_implied names)
expand_implied-IsClosed names name x h k = ground (
  arith,
  contains-expand_implied names name,
  contains-expand_implied names x,
  implied_of_implied names name x,
  implied_of_contains names name x,
)

implied_in_closed :
    (names s : List String) (x : String)
    → ((n : String) → contains n names ≡ true → contains n s ≡ true)
    → IsClosed s
    → implied names x ≡ true
    → contains x s ≡ true
unfolding any
implied_in_closed [] s x sub closed h = cc
implied_in_closed (y ∷ ys) s x sub closed h = elim (Bool-cases (contains x (implied_by y))) [
  | inl here ↦ closed y x (sub y (unfold contains in ground (arith, eq_iff y y))) here
  | inr there ↦
      implied_in_closed ys s x (λ n k. sub n (unfold contains in ground arith)) closed
        (ground arith)
]

-- `expand_implied` ends its loop by the loop's own test, and returns the least set that holds the
-- names asked for and all that its members imply: it holds them, is closed, and lies in every
-- closed set that holds the names.
pub expand_implied-least :
    (names : List String)
    → ((expand_run names).next ≡ [])
      × ((x : String) → contains x names ≡ true → contains x (expand_implied names) ≡ true)
      × IsClosed (expand_implied names)
      × ((s : List String)
          → ((x : String) → contains x names ≡ true → contains x s ≡ true)
          → IsClosed s
          → (x : String) → contains x (expand_implied names) ≡ true
          → contains x s ≡ true)
expand_implied-least names = (
  expand_loop_ends names,
  λ x h. ground (arith, contains-expand_implied names x),
  expand_implied-IsClosed names,
  λ s sub closed x h.
      ground
        (arith, contains-expand_implied names x, sub x, implied_in_closed names s x sub closed),
)
