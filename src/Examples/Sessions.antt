-- ===== src/Examples/Sessions.antt =====
-- Sessions and gates at concrete inputs.
use fastapi_template.Prelude.{
  ◌^◌, String, ◌≡◌, refl, ap, true, false, ◌||◌, none, some, [], ◌∷◌, arith, ◌==◌, nat_eq,
  string_eq, option_eq,
}
use fastapi_template.Prelude.Lists.{any, filter, find, contains, lookup}
use fastapi_template.Error.{is_ok, Result, ok, err, http_exception, invalid_token, user_deactivated}
use fastapi_template.Models.{RefreshToken}
use fastapi_template.World.{link_eq, World, ◌>>=◌, update_rows, load_role, load_user}
use fastapi_template.Rbac.Mask.{Text, be_digits, hex, mask_to_hex}
use fastapi_template.Rbac.Delegation.{effective_permissions, effective_permission_mask}
use fastapi_template.AuthzCache.{
  empty_cache, is_user_inactive, is_tenant_inactive, is_stale, snapshot,
}
use fastapi_template.Auth.Token.{
  TokenPayload, create_refresh_token, mint_access_token, verify_token,
}
use fastapi_template.Auth.CurrentUser.{authenticate}
use fastapi_template.Auth.Deactivation.{set_user_active-refused}
use fastapi_template.Services.RoleService.{Scope}
use fastapi_template.Services.UserService.{set_user_active}
use fastapi_template.Auth.Session.{refresh, store_session}
use fastapi_template.Rbac.Mask.RoundTrip.{mask_to_hex-fits}
use fastapi_template.Repositories.TenantRepo
use fastapi_template.Repositories.TokenRepo
use fastapi_template.Repositories.UserRepo
use fastapi_template.Auth.Rotation.{find_token, refresh-replayed}
use fastapi_template.Auth.Gates.AccessToken.{
  route_gate, IsWelcome, route_gate-mint_access_token, route_gate-refuses,
}
use fastapi_template.Examples.Codec.{libraries, encode}
use fastapi_template.Examples.Grants.{
  world, loaded_ann, manager-AllExact, manager-synced, user_read_bit,
}

-- The access token that Ann gets at time 5.
abbrev pub ann_token : String
ann_token = encode (record {
  id = 7;
  tenant_id = some 1;
  is_superuser = false;
  perm_mask = hex (be_digits 32 (2 ^ 9));
  perm_version = 1;
  exp = 15;
  auth_method = "password";
})

ann_hex : mask_to_hex (some 512) ≡ ok (hex (be_digits 32 512))
ann_hex = mask_to_hex-fits 512 (ground arith)

with_hex : Result Text → Result String
with_hex r = elim r [
  | err e ↦ err e
  | ok h ↦ ok (
      encode (record {
        id = 7;
        tenant_id = some 1;
        is_superuser = false;
        perm_mask = h;
        perm_version = 1;
        exp = 15;
        auth_method = "password";
      }))
]

pub ann_minted : mint_access_token libraries 5 loaded_ann "password" world ≡ (ok ann_token, world)
unfolding mint_access_token TenantRepo.get_by_id find with_hex effective_permission_mask
ann_minted = ap (λ (r : Result Text). (with_hex r, world)) ann_hex

-- The world after the row of the first token is revoked.
abbrev revoked_world : World
revoked_world = record world {
  db = record world.db {
    refresh_tokens = record { token = "t1"; user_id = 7; expires_at = 90; is_revoked = true } ∷ [];
  };
}

first_refresh :
    (refresh libraries 5 "t1" "t2" world).0
    ≡ ok (record { access_token = ann_token; refresh_token = "t2" })
unfolding refresh TokenRepo.get_by_token find TokenRepo.revoke UserRepo.get_by_id_with_grants
    mint_access_token load_user TenantRepo.get_by_id with_hex TokenRepo.create update_rows
    effective_permission_mask any filter create_refresh_token contains load_role
first_refresh =
    ap
      (λ (r : Result Text).
        (((λ w. (with_hex r, w)) >>= λ access_token. store_session libraries 5 7 access_token "t2")
          revoked_world).0)
      ann_hex

refresh-replayed_example :
    let w' = (refresh libraries 5 "t1" "t2" world).1 in
    ((refresh libraries 6 "t1" "t3" w').0 ≡ err (http_exception 403))
    × ((row : RefreshToken) × (find_token "t1" world.db ≡ some row)
        × (any
              (λ t. t.user_id == row.user_id)
              (refresh libraries 6 "t1" "t3" w').1.db.refresh_tokens
            ≡ false))
refresh-replayed_example =
    refresh-replayed libraries 5 "t1" "t2" world
      (record { access_token = ann_token; refresh_token = "t2" }) 6 "t3" first_refresh

pub ann-IsWelcome : IsWelcome empty_cache loaded_ann
unfolding is_user_inactive is_tenant_inactive is_stale contains lookup
ann-IsWelcome = record { active = refl; tenant_active = refl; fresh = refl }

route_gate-mint_access_token_example :
    is_ok (route_gate libraries empty_cache 6 ann_token "user:read")
    ≡ (false || contains "user:read" (effective_permissions loaded_ann))
route_gate-mint_access_token_example =
    route_gate-mint_access_token libraries loaded_ann empty_cache 5 6 "password" "user:read" 9 world
      world ann_token user_read_bit ann_minted (ground arith) ann-IsWelcome (ground arith, tt)
      manager-AllExact manager-synced

route_gate-refuses_example :
    route_gate libraries empty_cache 20 ann_token "user:read" ≡ err invalid_token
route_gate-refuses_example =
    route_gate-refuses libraries loaded_ann empty_cache 5 20 "password" "user:read" world world
      ann_token invalid_token ann_minted (ground arith, tt) refl

-- Ann's token, decoded.
abbrev pub ann_claims : TokenPayload
ann_claims = record {
  id = 7;
  tenant_id = some 1;
  is_superuser = false;
  perm_mask = hex (be_digits 32 (2 ^ 9));
  perm_version = 1;
  exp = 15;
  auth_method = "password";
}

abbrev root : Scope
root = record { is_superuser = true; tenant_id = none }

ann_deactivated : (set_user_active root 7 false world).0 ≡ ok tt
unfolding set_user_active UserRepo.get_by_id find UserRepo.set_active
ann_deactivated = refl

pub ann_decoded : verify_token libraries 6 ann_token ≡ some ann_claims
unfolding verify_token
ann_decoded = libraries.decode-encode 6 ann_claims (ground arith)

set_user_active-refused_example :
    authenticate libraries (snapshot (set_user_active root 7 false world).1.redis) 6 ann_token
    ≡ err user_deactivated
set_user_active-refused_example =
    set_user_active-refused libraries root 6 ann_token ann_claims world tt ann_deactivated refl
      ann_decoded
