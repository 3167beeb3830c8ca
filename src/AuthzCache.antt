-- ===== src/AuthzCache.antt =====
-- app/core/authz_cache/cache.py: what one worker knows of revoked users, inactive tenants and
-- permission versions, kept current by the events of the channel and by a periodic resync.
pub mod Views
pub mod Sync
use fastapi_template.Prelude.{
  ℕ, zero, suc, ◌+◌, ◌-◌, ◌*◌, ◌/◌, ◌%◌, ◌^◌, ◌≤◌, ◌<◌, min, max, bit_and, bit_or, String, ◌≡◌, ◌≢◌,
  refl, sym, ap, ◌∙◌, subst, fun_ext, ◌↔◌, ◌⊎◌, inl, inr, Bool, true, false, ◌&&◌, ◌||◌, not,
  Option, none, some, List, [], ◌∷◌, ◌++◌, map, arith, ltb, leb, nat_beq, if◌then◌else◌,
  nat_beq_iff, Eq, ◌==◌, nat_eq, string_eq, option_eq, beq_refl, Bool-cases, Option-cases,
  map_option, is_some,
}
use fastapi_template.Prelude.Lists.{filter, contains, lookup}
use fastapi_template.World.Mirror.{Event, perm_version, user_status, tenant_status, Redis}

-- The fields of `AuthzCache` that authorization reads.
pub record Cache : Type 0 where
  pub inactive_user_ids : List ℕ
  pub inactive_tenant_ids : List ℕ
  pub versions : List (ℕ × ℕ)

-- `AuthzCache()`
abbrev pub empty_cache : Cache
empty_cache = record { inactive_user_ids = []; inactive_tenant_ids = []; versions = [] }

-- `s.add(a)`
unfoldable pub set_add : ℕ → List ℕ → List ℕ
set_add a s = if contains a s then s else s ++ a ∷ []

-- `s.discard(a)`
unfoldable pub set_discard : ℕ → List ℕ → List ℕ
set_discard a s = filter (λ b. not (b == a)) s

-- `d[k] = v`
unfoldable pub dict_set : ℕ → ℕ → List (ℕ × ℕ) → List (ℕ × ℕ)
dict_set k v d = (k, v) ∷ filter (λ e. not (e.0 == k)) d

unfoldable pub is_user_inactive : Cache → ℕ → Bool
is_user_inactive c user_id = contains user_id c.inactive_user_ids

unfoldable pub is_tenant_inactive : Cache → Option ℕ → Bool
is_tenant_inactive c none = false
is_tenant_inactive c (some tenant_id) = contains tenant_id c.inactive_tenant_ids

-- A user that the cache has not heard of is not stale.
unfoldable pub is_stale : Cache → ℕ → ℕ → Bool
is_stale c user_id token_perm_version = elim (lookup user_id c.versions) [
  | none ↦ false
  | some current ↦ ltb token_perm_version current
]

-- `_apply_event`
unfoldable pub apply_event : Cache → Event → Cache
unfolding set_add set_discard dict_set
apply_event c (perm_version user_id version) = record c {
  versions = dict_set user_id version c.versions;
}
apply_event c (user_status user_id is_active) = record c {
  inactive_user_ids =
      if is_active
      then set_discard user_id c.inactive_user_ids
      else set_add user_id c.inactive_user_ids;
}
apply_event c (tenant_status tenant_id is_active) = record c {
  inactive_tenant_ids =
      if is_active
      then set_discard tenant_id c.inactive_tenant_ids
      else set_add tenant_id c.inactive_tenant_ids;
}

-- `async for message in pubsub.listen()`
unfoldable pub apply_events : Cache → List Event → Cache
apply_events c [] = c
apply_events c (event ∷ events) = apply_events (apply_event c event) events

-- What `_resync_once` reads: `hgetall` and two `smembers`.
unfoldable pub snapshot : Redis → Cache
snapshot r = record {
  inactive_user_ids = r.inactive_users;
  inactive_tenant_ids = r.inactive_tenants;
  versions = r.perm_versions;
}

-- `_resync_once` with nothing else running: a failed read keeps the last known state.
unfoldable pub resync_once : Redis → Cache → Cache
unfolding snapshot
resync_once r c = if r.is_up then snapshot r else c
