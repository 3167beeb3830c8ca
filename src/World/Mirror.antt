-- ===== src/World/Mirror.antt =====
-- app/core/authz_cache/channel.py and publisher.py: the durable mirror in Redis, the channel, and
-- the publication of an event. A key that is absent is an empty collection.
use fastapi_template.Prelude.{
  ℕ, Bool, not, List, [], ◌∷◌, ◌++◌, if◌then◌else◌, ◌==◌, nat_eq, filter, contains,
}

-- The dictionaries that repositories pass to `publish_events`, by their "type".
pub data Event : Type 0 where
  -- user_id, version
  perm_version : ℕ → ℕ → Event
  -- user_id, is_active
  user_status : ℕ → Bool → Event
  -- tenant_id, is_active
  tenant_status : ℕ → Bool → Event

-- `PERM_VERSIONS_KEY`, `INACTIVE_USERS_KEY`, `INACTIVE_TENANTS_KEY`, and the messages sent on
-- `AUTHZ_EVENTS_CHANNEL`, the latest last. `is_up` is false while Redis is unreachable.
pub record Redis : Type 0 where
  pub is_up : Bool
  pub perm_versions : List (ℕ × ℕ)
  pub inactive_users : List ℕ
  pub inactive_tenants : List ℕ
  pub channel : List Event

-- `HSET key field value`
unfoldable pub hset : ℕ → ℕ → List (ℕ × ℕ) → List (ℕ × ℕ)
hset k v [] = (k, v) ∷ []
hset k v ((j, w) ∷ d) = if j == k then (k, v) ∷ d else (j, w) ∷ hset k v d

-- `SADD key member`
unfoldable pub sadd : ℕ → List ℕ → List ℕ
sadd a s = if contains a s then s else a ∷ s

-- `SREM key member`
unfoldable pub srem : ℕ → List ℕ → List ℕ
srem a s = filter (λ b. not (b == a)) s

-- The body of the loop of `publish_events`: the commands that one event puts into the pipeline.
unfoldable pub publish_event : Event → Redis → Redis
publish_event (perm_version user_id version) r = record r {
  perm_versions = hset user_id version r.perm_versions;
  channel = r.channel ++ perm_version user_id version ∷ [];
}
publish_event (user_status user_id is_active) r = record r {
  inactive_users =
      if is_active then srem user_id r.inactive_users else sadd user_id r.inactive_users;
  channel = r.channel ++ user_status user_id is_active ∷ [];
}
publish_event (tenant_status tenant_id is_active) r = record r {
  inactive_tenants =
      if is_active then srem tenant_id r.inactive_tenants else sadd tenant_id r.inactive_tenants;
  channel = r.channel ++ tenant_status tenant_id is_active ∷ [];
}

unfoldable pub publish_loop : List Event → Redis → Redis
publish_loop [] r = r
publish_loop (event ∷ events) r = publish_loop events (publish_event event r)

-- An unreachable Redis is logged and otherwise ignored.
unfoldable pub publish_events : List Event → Redis → Redis
publish_events events r = if r.is_up then publish_loop events r else r
