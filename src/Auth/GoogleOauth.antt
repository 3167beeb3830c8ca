-- ===== src/Auth/GoogleOauth.antt =====
-- app/services/auth/actions/google_oauth.py. What Google answers, the email address of the account or
-- none, is an argument; the redirection to Google is not modelled.
pub mod Usernames
pub mod Accounts
use Prim.Native.String
use Prim.Native.String.{[], ◌∷◌, ◌++◌ as ◌<>◌}
use Prim.Native.Char.{Char, code}
use fastapi_template.Prelude.{
  ℕ, zero, suc, ◌+◌, String as Text, Bool, true, false, Option, none, some, if◌then◌else◌, ◌==◌,
  string_eq, nat_beq,
}
use fastapi_template.Prelude.Lists.{length}
use fastapi_template.Prelude.Decimal.{str}
use fastapi_template.Error.{http_exception, attribute_error, runtime_error}
use fastapi_template.Models.{User}
use fastapi_template.World.{Action, pure, raise, gets, or_raise, raise_if, ◌>>=◌, ◌>>◌}
use fastapi_template.Security.Identifier.{sanitize_identifier}
use fastapi_template.Auth.Token.{Libraries, mint_access_token, create_refresh_token}
use fastapi_template.Repositories.UserRepo
use fastapi_template.Repositories.UserRepo.{new_user}
use fastapi_template.Repositories.TokenRepo

-- `email.split("@")[0]`
unfoldable pub local_part : Text → Text
local_part [] = []
local_part (c ∷ s) = if nat_beq (code c) b'@' then [] else c ∷ local_part s

-- The candidate at a value of `suffix`; the loop begins at 1.
unfoldable pub candidate : Text → ℕ → Text
candidate base zero = base
candidate base (suc zero) = base
candidate base (suc (suc n)) = base <> str (suc (suc n))

-- The `while` loop, with fuel: `none` is the end of the fuel.
unfoldable pub search_username : ℕ → Text → ℕ → Action (Option Text)
search_username zero base suffix = pure none
search_username (suc fuel) base suffix = do
  taken ← UserRepo.exists_by_username (candidate base suffix)
  elim taken [
    | false ↦ pure (some (candidate base suffix))
    | true ↦ search_username fuel base (suffix + 1)
  ]

-- One candidate more than there are users is enough.
unfoldable pub build_unique_username : Text → Action (Option Text)
unfolding search_username candidate
build_unique_username email = do
  users ← gets (λ db. length db.users)
  search_username (suc users) (sanitize_identifier 50 (local_part email)) 1

pub record GoogleOauthCallbackResponse : Type 0 where
  pub access_token : Text
  pub refresh_token : Text
  pub user : User
  pub is_new_user : Bool

-- The user of the address, or a new one; `new_id` is the new UUID.
unfoldable pub find_or_create : ℕ → Text → Action (User × Bool)
unfolding build_unique_username
find_or_create new_id email = do
  found ← UserRepo.get_by_email email
  elim found [
    | some u ↦ pure (u, false)
    | none ↦ do
      built ← build_unique_username email
      username ← or_raise built runtime_error
      u ← UserRepo.create new_id (record (new_user username email none) { is_verified = true })
      pure (u, true)
  ]

module _ (lib : Libraries) where
  -- The address that is missing is none, and an empty one is false.
  unfoldable pub handle_callback : ℕ → ℕ → Text → Option Text → Action GoogleOauthCallbackResponse
  unfolding find_or_create
  handle_callback now new_id jti none = raise (http_exception 400)
  handle_callback now new_id jti (some email) =
      if email == "" then raise (http_exception 400) else do
        (u, is_new_user) ← find_or_create new_id email
        found ← UserRepo.get_by_id_with_grants u.id
        with_grants ← or_raise found attribute_error
        access_token ← mint_access_token lib now with_grants "google"
        let refresh_token = create_refresh_token lib now u.id lib.refresh_life jti
        TokenRepo.create refresh_token u.id (now + lib.refresh_life)
        pure (record {
          access_token = access_token;
          refresh_token = refresh_token;
          user = u;
          is_new_user = is_new_user;
        })
