-- ===== src/Auth/GoogleOauth/Usernames.antt =====
-- The search for a username that is free.
use Prim.Native.String.{◌++◌ as ◌<>◌}
use fastapi_template.Prelude.{
  ℕ, zero, suc, ◌+◌, ◌<◌, ◌≤◌, String as Text, ◌≡◌, ◌≢◌, refl, sym, ap, ◌∙◌, Bool, true, false, not,
  some, List, [], ◌∷◌, ◌==◌, string_eq, nat_beq, arith, Bool-cases, inl, inr,
}
use fastapi_template.Prelude.Lists.{length, any, filter}
use fastapi_template.Prelude.Decimal.{str, str-injective, str-nil}
use text.Mathlib.TextLemmas.{append_inj, append-nil}
use fastapi_template.Security.Identifier.{sanitize_identifier}
use fastapi_template.Error.{ok}
use fastapi_template.Models.{User}
use fastapi_template.World.{World}
use fastapi_template.Repositories.UserRepo
use fastapi_template.Auth.GoogleOauth.{
  candidate, search_username, build_unique_username, local_part,
}

abbrev pub is_taken : Text → List User → Bool
is_taken name users = any (λ u. u.username == name) users

append-injective : (base s t : Text) → base <> s ≡ base <> t → s ≡ t
append-injective base s t h = (append_inj {s₁ = base} {s₂ = base} h refl).1

candidate-injective :
    (base : Text) (a b : ℕ) → candidate base (suc a) ≡ candidate base (suc b) → a ≡ b
unfolding candidate
candidate-injective base zero zero h = refl
candidate-injective base zero (suc b) h = absurd (
    ground (
      arith,
      str-nil (suc (suc b))
          (sym (append-injective base "" (str (suc (suc b))) (append-nil base ∙ h))),
    ))
candidate-injective base (suc a) zero h = absurd (
    ground (
      arith,
      str-nil (suc (suc a))
          (append-injective base (str (suc (suc a))) "" (h ∙ sym (append-nil base))),
    ))
candidate-injective base (suc a) (suc b) h =
    ground (arith, str-injective (suc (suc a)) (suc (suc b)) (append-injective base _ _ h))

others : Text → List User → List User
others name users = filter (λ u. not (u.username == name)) users

length-others-le : (name : Text) (users : List User) → length (others name users) ≤ length users
unfolding others filter
length-others-le name [] = omega arith
length-others-le name (u ∷ users) = ground (arith, length-others-le name users)

length-others-lt :
    (name : Text) (users : List User)
    → is_taken name users ≡ true
    → length (others name users) < length users
unfolding others filter any
length-others-lt name [] h = ground arith
length-others-lt name (u ∷ users) h =
    ground (arith, length-others-lt name users, length-others-le name users)

is_taken-others :
    (name other : Text) (users : List User)
    → other ≢ name
    → is_taken name (others other users) ≡ is_taken name users
unfolding others filter any
is_taken-others name other [] h = refl
is_taken-others name other (u ∷ users) h = ground (
  arith,
  is_taken-others name other users h,
  (string_eq.beq_iff u.username name).0,
  (string_eq.beq_iff u.username other).0,
)

-- Among one candidate more than there are users, one is free.
free_candidate :
    (base : Text) (n i : ℕ) (users : List User)
    → length users ≤ n
    → (j : ℕ) × (i ≤ j) × (j ≤ i + n) × (is_taken (candidate base (suc j)) users ≡ false)
unfolding any
free_candidate base zero i [] h = (i, omega arith, omega arith, refl)
free_candidate base zero i (u ∷ users) h = absurd (omega arith)
free_candidate base (suc n) i users h =
    let name = candidate base (suc i) in
    elim (Bool-cases (is_taken name users)) [
      | inr free ↦ (i, omega arith, omega arith, free)
      | inl taken ↦
          let (j, above, below, free) =
            free_candidate base n (suc i) (others name users)
              (omega (arith, length-others-lt name users taken)) in
          let differs : name ≢ candidate base (suc j) =
            λ e. let same : i ≡ j = candidate-injective base i j e in absurd (omega arith) in
          (
            j,
            omega arith,
            omega arith,
            sym (is_taken-others (candidate base (suc j)) name users differs) ∙ free,
          )
    ]

search_username-finds :
    (fuel : ℕ) (base : Text) (suffix j : ℕ) (w : World)
    → suffix ≤ j
    → j < suffix + fuel
    → is_taken (candidate base j) w.db.users ≡ false
    → (name : Text) × (search_username fuel base suffix w ≡ (ok (some name), w))
      × (is_taken name w.db.users ≡ false)
unfolding search_username UserRepo.exists_by_username
search_username-finds zero base suffix j w h k free = absurd (omega arith)
search_username-finds (suc fuel) base suffix j w h k free =
    elim (Bool-cases (is_taken (candidate base suffix) w.db.users)) [
      | inr here ↦ (candidate base suffix, ground arith, here)
      | inl taken ↦
          let later : suffix + 1 ≤ j = elim (Bool-cases (nat_beq suffix j)) [
            | inl same ↦
                let e : suffix ≡ j = ground arith in
                absurd (ground (arith, ap (λ x. is_taken (candidate base x) w.db.users) e))
            | inr other ↦ ground arith
          ] in
          let (name, found, unused) =
            search_username-finds fuel base (suffix + 1) j w later (omega arith) free in
          (name, ground arith, unused)
    ]

-- The search for a username always ends, within as many candidates as there are users and one, with a
-- username that no user has, and changes nothing.
pub build_unique_username-finds :
    (email : Text) (w : World)
    → (name : Text) × (build_unique_username email w ≡ (ok (some name), w))
      × (is_taken name w.db.users ≡ false)
unfolding build_unique_username
build_unique_username-finds email w =
    let base = sanitize_identifier 50 (local_part email) in
    let n = length w.db.users in
    let (j, above, below, free) = free_candidate base n 0 w.db.users (omega arith) in
    search_username-finds (suc n) base 1 (suc j) w (omega arith) (omega arith) free
