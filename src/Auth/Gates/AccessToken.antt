-- ===== src/Auth/Gates/AccessToken.antt =====
-- From the minting of an access token to the gate of a route.
use fastapi_template.Prelude.{
  ℕ, ◌+◌, ◌<◌, String, ◌≡◌, ap, ◌∙◌, inl, inr, true, false, ◌||◌, Option, none, some, arith, leb,
  if◌then◌else◌, nat_eq, string_eq, option_eq, Bool-cases,
}
use fastapi_template.Prelude.Lists.{contains}
use fastapi_template.Error.{
  Error, http_exception, invalid_token, user_deactivated, tenant_inactive, stale_token, Result, ok,
  err, is_ok,
}
use fastapi_template.Models.{LoadedUser}
use fastapi_template.World.{link_eq, World}
use fastapi_template.Prelude.Bits.{test_bit, has_bit-eq-test_bit}
use fastapi_template.Rbac.Registry.{registry_get}
use fastapi_template.Rbac.Mask.{Text, mask_to_hex, hex_to_mask}
use fastapi_template.Rbac.Mask.RoundTrip.{hex_to_mask-mask_to_hex}
use fastapi_template.Rbac.Delegation.{effective_permissions, effective_permission_mask}
use fastapi_template.Rbac.Delegation.Effective.{
  AllExact, roles_synced, AllFit, effective_permission_mask-contains,
  effective_permission_mask-fits,
}
use fastapi_template.AuthzCache.{Cache, is_user_inactive, is_tenant_inactive, is_stale}
use fastapi_template.Auth.Token.{
  TokenPayload, Libraries, create_access_token, verify_token, ensure_tenant_active,
  mint_access_token,
}
use fastapi_template.Auth.CurrentUser.{Principal, check_cache, authenticate, get_current_principal}
use fastapi_template.Auth.Gates.{permission_required}

-- The request of a caller to a route that needs a permission.
pub route_gate : Libraries → Cache → ℕ → String → String → Result Principal
route_gate lib c now token name = elim (get_current_principal lib c now token) [
  | err e ↦ err e
  | ok principal ↦ permission_required name principal
]

-- The cache knows nothing against a user at a version.
pub record IsWelcome (c : Cache) (u : LoadedUser) : Type 0 where
  pub active : is_user_inactive c u.user.id ≡ false
  pub tenant_active : is_tenant_inactive c u.user.tenant_id ≡ false
  pub fresh : is_stale c u.user.id u.user.perm_version ≡ false

-- The first check that fails for a token that is minted at `now` and used at `later`, if any does.
abbrev pub refusal : Libraries → LoadedUser → Cache → ℕ → ℕ → Option Error
refusal lib u c now later =
    if leb (now + lib.access_life) later
    then some invalid_token
    else if is_user_inactive c u.user.id
    then some user_deactivated
    else if is_tenant_inactive c u.user.tenant_id
    then some tenant_inactive
    else if is_stale c u.user.id u.user.perm_version
    then some stale_token
    else none

-- The claims of the token that is minted for a user.
abbrev claims : Libraries → ℕ → LoadedUser → Text → String → TokenPayload
claims lib now u hex_mask auth_method = record {
  id = u.user.id;
  tenant_id = u.user.tenant_id;
  is_superuser = u.user.is_superuser;
  perm_mask = hex_mask;
  perm_version = u.user.perm_version;
  exp = now + lib.access_life;
  auth_method = auth_method;
}

module _ (lib : Libraries) (u : LoadedUser) where
  mint-claims :
      (now : ℕ) (auth_method : String) (w w' : World) (token : String) (hex_mask : Text)
      → mask_to_hex (some (effective_permission_mask u)) ≡ ok hex_mask
      → mint_access_token lib now u auth_method w ≡ (ok token, w')
      → token ≡ lib.encode_access (claims lib now u hex_mask auth_method)
  unfolding mint_access_token create_access_token ensure_tenant_active
  mint-claims now auth_method w w' token hex_mask fits h = ground arith

  gate_of_claims :
      (c : Cache) (now later : ℕ) (auth_method name : String) (bit mask : ℕ) (hex_mask : Text)
      → registry_get name ≡ some bit
      → later < now + lib.access_life
      → IsWelcome c u
      → hex_to_mask (some hex_mask) ≡ ok mask
      → is_ok
          (route_gate lib c later (lib.encode_access (claims lib now u hex_mask auth_method)) name)
        ≡ (u.user.is_superuser || test_bit mask bit)
  unfolding route_gate get_current_principal authenticate verify_token check_cache
      permission_required
  gate_of_claims c now later auth_method name bit mask hex_mask found before welcome decoded =
      ground (
        arith,
        lib.decode-encode later (claims lib now u hex_mask auth_method) before,
        has_bit-eq-test_bit mask bit,
      )

  -- The access token that is minted for a user with exact role masks over rows that agree with the
  -- registry, used before it expires at a worker whose cache knows nothing against the user: the
  -- gate of a catalog permission lets it through exactly when the user is a superuser or the
  -- permission is among the user's effective permissions.
  pub route_gate-mint_access_token :
      (c : Cache) (now later : ℕ) (auth_method name : String) (bit : ℕ) (w w' : World)
      (token : String)
      → registry_get name ≡ some bit
      → mint_access_token lib now u auth_method w ≡ (ok token, w')
      → later < now + lib.access_life
      → IsWelcome c u
      → AllFit u.roles
      → AllExact u.roles
      → roles_synced u.roles ≡ true
      → is_ok (route_gate lib c later token name)
        ≡ (u.user.is_superuser || contains name (effective_permissions u))
  route_gate-mint_access_token c now later auth_method name bit w w' token found minted before
        welcome fit exact synced =
      let mask = effective_permission_mask u in
      let (hex_mask, encoded, decoded) =
        hex_to_mask-mask_to_hex mask (effective_permission_mask-fits u fit) in
      ap (λ t. is_ok (route_gate lib c later t name))
        (mint-claims now auth_method w w' token hex_mask encoded minted)
      ∙ gate_of_claims c now later auth_method name bit mask hex_mask found before welcome decoded
      ∙ ap (λ b. u.user.is_superuser || b)
          (effective_permission_mask-contains u name bit found exact synced)

  refusal_of_claims :
      (c : Cache) (now later : ℕ) (auth_method : String) (hex_mask : Text) (e : Error)
      → refusal lib u c now later ≡ some e
      → authenticate lib c later (lib.encode_access (claims lib now u hex_mask auth_method)) ≡ err e
  unfolding authenticate verify_token check_cache
  refusal_of_claims c now later auth_method hex_mask e refused =
      let p = claims lib now u hex_mask auth_method in
      elim (Bool-cases (leb (now + lib.access_life) later)) [
        | inl late ↦ ground (arith, late, lib.decode-expired later p (ground (arith, late)))
        | inr early ↦ ground (arith, early, lib.decode-encode later p (ground (arith, early)))
      ]

  pub authenticate-refuses :
      (c : Cache) (now later : ℕ) (auth_method : String) (w w' : World) (token : String) (e : Error)
      → mint_access_token lib now u auth_method w ≡ (ok token, w')
      → AllFit u.roles
      → refusal lib u c now later ≡ some e
      → authenticate lib c later token ≡ err e
  authenticate-refuses c now later auth_method w w' token e minted fit refused =
      let (hex_mask, encoded, decoded) =
        hex_to_mask-mask_to_hex (effective_permission_mask u)
          (effective_permission_mask-fits u fit) in
      ap (λ t. authenticate lib c later t)
        (mint-claims now auth_method w w' token hex_mask encoded minted)
      ∙ refusal_of_claims c now later auth_method hex_mask e refused

  -- Where a check fails, the access token that is minted for the user is refused at the gate with the
  -- error of the first check that fails: the token has expired, the user is inactive, the tenant is
  -- inactive, the token is older than the version that the cache knows.
  pub route_gate-refuses :
      (c : Cache) (now later : ℕ) (auth_method name : String) (w w' : World) (token : String)
      (e : Error)
      → mint_access_token lib now u auth_method w ≡ (ok token, w')
      → AllFit u.roles
      → refusal lib u c now later ≡ some e
      → route_gate lib c later token name ≡ err e
  unfolding route_gate get_current_principal
  route_gate-refuses c now later auth_method name w w' token e minted fit refused =
      ground (arith, authenticate-refuses c now later auth_method w w' token e minted fit refused)

  forbidden_of_claims :
      (c : Cache) (now later : ℕ) (auth_method name : String) (bit mask : ℕ) (hex_mask : Text)
      → registry_get name ≡ some bit
      → later < now + lib.access_life
      → IsWelcome c u
      → hex_to_mask (some hex_mask) ≡ ok mask
      → (u.user.is_superuser || test_bit mask bit) ≡ false
      → route_gate lib c later (lib.encode_access (claims lib now u hex_mask auth_method)) name
        ≡ err (http_exception 403)
  unfolding route_gate get_current_principal authenticate verify_token check_cache
      permission_required
  forbidden_of_claims c now later auth_method name bit mask hex_mask found before welcome decoded
        lacks =
      ground (
        arith,
        lib.decode-encode later (claims lib now u hex_mask auth_method) before,
        has_bit-eq-test_bit mask bit,
      )

  pub route_gate-forbids :
      (c : Cache) (now later : ℕ) (auth_method name : String) (bit : ℕ) (w w' : World)
      (token : String)
      → registry_get name ≡ some bit
      → mint_access_token lib now u auth_method w ≡ (ok token, w')
      → later < now + lib.access_life
      → IsWelcome c u
      → AllFit u.roles
      → AllExact u.roles
      → roles_synced u.roles ≡ true
      → (u.user.is_superuser || contains name (effective_permissions u)) ≡ false
      → route_gate lib c later token name ≡ err (http_exception 403)
  route_gate-forbids c now later auth_method name bit w w' token found minted before welcome fit
        exact synced lacks =
      let mask = effective_permission_mask u in
      let (hex_mask, encoded, decoded) =
        hex_to_mask-mask_to_hex mask (effective_permission_mask-fits u fit) in
      ap (λ t. route_gate lib c later t name)
        (mint-claims now auth_method w w' token hex_mask encoded minted)
      ∙ forbidden_of_claims c now later auth_method name bit mask hex_mask found before welcome
          decoded
          (ap (λ b. u.user.is_superuser || b)
              (effective_permission_mask-contains u name bit found exact synced)
            ∙ lacks)
