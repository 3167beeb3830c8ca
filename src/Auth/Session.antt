-- ===== src/Auth/Session.antt =====
-- app/services/auth/actions/login.py, refresh.py and logout.py: sessions and their refresh tokens.
use fastapi_template.Prelude.{
  ℕ, ◌+◌, ◌*◌, String, Bool, not, Option, none, some, ltb, if◌then◌else◌, ◌==◌, nat_eq, string_eq,
  option_eq,
}
use fastapi_template.Error.{
  Result, ok, err, by_id, user_not_found, attribute_error, http_exception, user_unauthenticated,
  user_not_verified, rate_limit,
}
use fastapi_template.Models.{User, RefreshToken}
use fastapi_template.World.{link_eq, Action, pure, raise, lift, or_raise, ◌>>=◌, ◌>>◌, raise_if}
use fastapi_template.Auth.Token.{
  Libraries, create_refresh_token, verify_password, mint_access_token,
}
use fastapi_template.Repositories.UserRepo
use fastapi_template.Repositories.TokenRepo

pub record TokenResponse : Type 0 where
  pub access_token : String
  pub refresh_token : String

-- A week, the default life of a refresh token in `create_refresh_token`.
abbrev pub seven_days : ℕ
seven_days = 7 * 24 * 60 * 60

module _ (lib : Libraries) where
  -- `not user or not verify_password(…)`
  unfoldable pub check_credentials : Option User → String → Result User
  check_credentials none password = err user_unauthenticated
  check_credentials (some u) password = elim (verify_password lib password u.password) [
    | err e ↦ err e
    | ok matches ↦ if not matches then err user_unauthenticated else ok u
  ]

  -- The last steps of `login` and `refresh`: the refresh token is stored, and the pair is returned.
  unfoldable pub store_session : ℕ → ℕ → String → String → Action TokenResponse
  store_session now user_id access_token jti = do
    let refresh_token = create_refresh_token lib now user_id seven_days jti
    TokenRepo.create refresh_token user_id (now + lib.refresh_life)
    pure (record { access_token = access_token; refresh_token = refresh_token })

  -- `allowed` is the answer of `login_limiter` for the username. The cookie that carries the refresh
  -- token of the response is not modelled.
  unfoldable pub login : ℕ → Bool → String → String → String → Action TokenResponse
  unfolding check_credentials store_session
  login now allowed username password jti = do
    raise_if (not allowed) rate_limit
    found ← UserRepo.get_by_username username
    u ← lift (check_credentials found password)
    raise_if (not u.is_verified) user_not_verified
    found_with_grants ← UserRepo.get_by_id_with_grants u.id
    with_grants ← or_raise found_with_grants attribute_error
    access_token ← mint_access_token lib now with_grants "password"
    store_session now u.id access_token jti

  -- What `refresh` does with a row that is not usable, or nothing.
  unfoldable pub check_refresh_row : ℕ → RefreshToken → Action Unit
  check_refresh_row now row =
      if row.is_revoked
      then TokenRepo.delete_all_for_user row.user_id >> raise (http_exception 403)
      else if ltb row.expires_at now
      then TokenRepo.delete_instance row >> raise (http_exception 401)
      else pure tt

  unfoldable pub refresh : ℕ → String → String → Action TokenResponse
  unfolding check_refresh_row store_session
  refresh now token jti = do
    found ← TokenRepo.get_by_token token
    row ← or_raise found (http_exception 401)
    check_refresh_row now row
    TokenRepo.revoke row
    found_user ← UserRepo.get_by_id_with_grants row.user_id
    u ← or_raise found_user (user_not_found (by_id row.user_id))
    access_token ← mint_access_token lib now u "password"
    store_session now row.user_id access_token jti

-- A cookie that is missing or empty is false in Python.
unfoldable pub logout : Option String → Action Unit
logout none = pure tt
logout (some token) = if token == "" then pure tt else TokenRepo.delete_by_token token
