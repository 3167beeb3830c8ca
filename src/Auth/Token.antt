-- ===== src/Auth/Token.antt =====
-- app/schema/auth.py (`TokenPayload`), app/services/auth/token.py, mint.py and password.py. PyJWT and
-- bcrypt are the record `Libraries`.
use fastapi_template.Prelude.{
  ℕ, ◌+◌, ◌≤◌, ◌<◌, String, ◌≡◌, Bool, not, Option, none, some, nat_eq, string_eq, option_eq,
}
use fastapi_template.Error.{Result, ok, err, attribute_error, user_deactivated, tenant_inactive}
use fastapi_template.Models.{LoadedUser}
use fastapi_template.World.{link_eq, Action, pure, lift, or_raise, ◌>>=◌, ◌>>◌, raise_if}
use fastapi_template.Rbac.Mask.{Text, mask_to_hex}
use fastapi_template.Rbac.Delegation.{effective_permission_mask}
use fastapi_template.Repositories.TenantRepo

pub record TokenPayload : Type 0 where
  pub id : ℕ
  pub tenant_id : Option ℕ
  pub is_superuser : Bool
  pub perm_mask : Text
  pub perm_version : ℕ
  pub exp : ℕ
  pub auth_method : String

-- `jwt.encode` and `jwt.decode` with the two secrets of the settings, the validation of the claims
-- included (`decode_access` is `verify_token`: an exception is None), the settings for the life of
-- an access token and of a refresh token, and bcrypt. A token that was encoded decodes to its claims
-- before its `exp`, and no longer from then on.
pub record Libraries : Type 0 where
  pub encode_access : TokenPayload → String
  -- the time and the token
  pub decode_access : ℕ → String → Option TokenPayload
  -- the user's id, `exp` and the random `jti`
  pub encode_refresh : ℕ → ℕ → String → String
  pub access_life : ℕ
  pub refresh_life : ℕ
  pub hashpw : String → String
  pub checkpw : String → String → Bool
  pub decode-encode :
      (now : ℕ) (p : TokenPayload) → now < p.exp → decode_access now (encode_access p) ≡ some p
  pub decode-expired :
      (now : ℕ) (p : TokenPayload) → p.exp ≤ now → decode_access now (encode_access p) ≡ none

module _ (lib : Libraries) where
  unfoldable pub create_access_token : ℕ → ℕ → Option ℕ → Bool → ℕ → ℕ → String → Result String
  create_access_token now user_id tenant_id is_superuser mask version auth_method =
      elim (mask_to_hex (some mask)) [
        | err e ↦ err e
        | ok hex_mask ↦ ok (
            lib.encode_access (record {
              id = user_id;
              tenant_id = tenant_id;
              is_superuser = is_superuser;
              perm_mask = hex_mask;
              perm_version = version;
              exp = now + lib.access_life;
              auth_method = auth_method;
            }))
      ]

  -- `life` is `expires_delta`.
  unfoldable pub create_refresh_token : ℕ → ℕ → ℕ → String → String
  create_refresh_token now user_id life jti = lib.encode_refresh user_id (now + life) jti

  -- `verify_token`
  unfoldable pub verify_token : ℕ → String → Option TokenPayload
  verify_token now token = lib.decode_access now token

  -- A password that is None has no `encode`.
  unfoldable pub verify_password : String → Option String → Result Bool
  verify_password plain none = err attribute_error
  verify_password plain (some hashed) = ok (lib.checkpw plain hashed)

  -- The tenant of a user is there and active.
  unfoldable pub ensure_tenant_active : Option ℕ → Action Unit
  ensure_tenant_active none = pure tt
  ensure_tenant_active (some tenant_id) = do
    found ← TenantRepo.get_by_id tenant_id
    tenant ← or_raise found tenant_inactive
    raise_if (not tenant.is_active) tenant_inactive

  unfoldable pub mint_access_token : ℕ → LoadedUser → String → Action String
  unfolding ensure_tenant_active create_access_token
  mint_access_token now u auth_method = do
    raise_if (not u.user.is_active) user_deactivated
    ensure_tenant_active u.user.tenant_id
    lift (
        create_access_token now u.user.id u.user.tenant_id u.user.is_superuser
          (effective_permission_mask u) u.user.perm_version auth_method)
