-- ===== src/Routes/Endpoints/Tokens.antt =====
-- What the routes do with the access token that is minted for a user.
use fastapi_template.Prelude.{
  ℕ, ◌+◌, ◌<◌, String, ◌≡◌, ◌≢◌, refl, Bool, true, false, ◌||◌, inl, inr, some, arith, ap,
  string_eq, is_some, Option-cases, subst,
}
use fastapi_template.Prelude.Lists.{contains, lookup}
use fastapi_template.Error.{Error, ok, err, superuser_required, http_exception}
use fastapi_template.World.{World}
use fastapi_template.Models.{LoadedUser}
use fastapi_template.Auth.Gates.{superuser_required_gate}
use fastapi_template.Auth.CurrentUser.{authenticate, get_current_user}
use fastapi_template.Auth.Token.{mint_access_token}
use fastapi_template.Auth.Gates.AccessToken.{
  refusal, IsWelcome, route_gate-forbids, route_gate-refuses, authenticate-refuses,
}
use fastapi_template.Rbac.Delegation.{effective_permissions}
use fastapi_template.Rbac.Delegation.Effective.{AllFit, AllExact, roles_synced}
use fastapi_template.Rbac.Registry.{registry_get, permission_registry}
use fastapi_template.Routes.{Caller, with_permission, current_user}
use fastapi_template.Routes.Endpoints.{
  Endpoint, Access, access, anyone, superuser, permitted, run, create_new_role,
}
use fastapi_template.Routes.Endpoints.Guards.{Refuses, run-guarded}

asks_registered : Access → Bool
asks_registered (permitted name) = is_some (registry_get name)
asks_registered other = true

access-asks_registered : (endpoint : Endpoint) → asks_registered (access endpoint) ≡ true
unfolding asks_registered access registry_get permission_registry lookup
access-asks_registered (create_new_role new_id role) = refl
access-asks_registered other = refl

-- Every permission that a route asks for is in the catalog.
access-registered :
    (endpoint : Endpoint) (name : String)
    → access endpoint ≡ permitted name
    → (bit : ℕ) × (registry_get name ≡ some bit)
unfolding asks_registered
access-registered endpoint name asks =
    let known : is_some (registry_get name) ≡ true =
      subst (λ a. asks_registered a ≡ true) asks (access-asks_registered endpoint) in
    elim (Option-cases (registry_get name)) [
      | inl missing ↦ absurd (ground arith)
      | inr (bit, found) ↦ (bit, found)
    ]

Refuses-access :
    (c : Caller) (a : Access) (w : World) (e : Error)
    → authenticate c.lib c.cache c.now c.token ≡ err e
    → ((name : String) → with_permission c name w ≡ (err e, w))
    → a ≢ anyone
    → Refuses c a w e
unfolding get_current_user
Refuses-access c anyone w e h gate guarded = absurd (guarded refl)
Refuses-access c (permitted name) w e h gate guarded = gate name
Refuses-access c other w e h gate guarded = ground arith

-- A user.
module _ (u : LoadedUser) (c : Caller) where
  -- The access token that is minted for a user is refused by every route that is not open to anyone,
  -- with the error of the first check that fails: it has expired, the user is inactive, the tenant is
  -- inactive, the cache knows a newer version of the user's permissions. The route changes nothing.
  pub run-refuses :
      (endpoint : Endpoint) (now : ℕ) (auth_method : String) (w w₀ w₁ : World) (e : Error)
      → mint_access_token c.lib now u auth_method w₀ ≡ (ok c.token, w₁)
      → AllFit u.roles
      → refusal c.lib u c.cache now c.now ≡ some e
      → access endpoint ≢ anyone
      → run c endpoint w ≡ (some e, w)
  run-refuses endpoint now auth_method w w₀ w₁ e minted fit refused guarded =
      run-guarded c endpoint w e (
        Refuses-access c (access endpoint) w e
          (authenticate-refuses c.lib u c.cache now c.now auth_method w₀ w₁ c.token e minted fit
            refused)
          (λ name.
            ap (λ r. (r, w))
              (route_gate-refuses c.lib u c.cache now c.now auth_method name w₀ w₁ c.token e minted
                fit refused))
          guarded)

  -- A user who is no superuser, and among whose effective permissions is not the one that a route asks
  -- for, is answered 403 by the route with an access token that has not expired, at a worker whose
  -- cache knows nothing against the user, and the route changes nothing. The masks of the user's roles
  -- are exact and agree with the rows.
  pub run-forbidden :
      (endpoint : Endpoint) (name : String) (now : ℕ) (auth_method : String) (w w₀ w₁ : World)
      → mint_access_token c.lib now u auth_method w₀ ≡ (ok c.token, w₁)
      → c.now < now + c.lib.access_life
      → IsWelcome c.cache u
      → AllFit u.roles
      → AllExact u.roles
      → roles_synced u.roles ≡ true
      → access endpoint ≡ permitted name
      → (u.user.is_superuser || contains name (effective_permissions u)) ≡ false
      → run c endpoint w ≡ (some (http_exception 403), w)
  run-forbidden endpoint name now auth_method w w₀ w₁ minted before welcome fit exact synced asks
        lacks =
      let (bit, found) = access-registered endpoint name asks in
      let gate =
        route_gate-forbids c.lib u c.cache now c.now auth_method name bit w₀ w₁ c.token found minted
          before welcome fit exact synced lacks in
      run-guarded c endpoint w (http_exception 403) (rw asks (ap (λ r. (r, w)) gate))

  -- A route that asks for a superuser refuses every other user and changes nothing.
  pub run-superuser :
      (endpoint : Endpoint) (w : World)
      → current_user c w ≡ (ok u, w)
      → access endpoint ≡ superuser
      → u.user.is_superuser ≡ false
      → run c endpoint w ≡ (some superuser_required, w)
  unfolding superuser_required_gate
  run-superuser endpoint w found asks no_superuser =
      run-guarded c endpoint w superuser_required (rw asks (ground arith))
