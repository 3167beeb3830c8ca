-- ===== src/AuthzCache/Sync.antt =====
-- app/core/authz_cache/publisher.py and cache.py: one worker beside the mirror. Every command of a
-- publication, every message and every read of a resync is a step of its own.
pub mod Accepts
pub mod Loses
use fastapi_template.Prelude.{
  ℕ, ◌<◌, ◌≡◌, refl, ap, ◌∙◌, Bool, true, ◌&&◌, ◌||◌, not, Option, none, some, List, [], ◌∷◌, ◌++◌,
  arith, leb, nat_eq, string_eq, option_eq, ◌==◌, if◌then◌else◌, inl, inr, Bool-cases, false,
}
use fastapi_template.Prelude.Lists.{all, contains, lookup}
use fastapi_template.Error.{ok}
use fastapi_template.World.Mirror.{
  Event, perm_version, user_status, tenant_status, Redis, sadd, srem, publish_event,
}
use fastapi_template.AuthzCache.{
  Cache, set_add, set_discard, apply_event, snapshot, is_stale, is_user_inactive,
  is_tenant_inactive,
}
use fastapi_template.AuthzCache.Views.{
  lookup-dict_set, lookup-hset, contains-set_add, contains-set_discard, contains-sadd,
  contains-srem,
}
use fastapi_template.Auth.Token.{TokenPayload}
use fastapi_template.Auth.CurrentUser.{check_cache}

-- How far `_resync_once` is, with what it has read: `hgetall`, then the two `smembers`.
pub data Reading : Type 0 where
  idle : Reading
  versions_read : List (ℕ × ℕ) → Reading
  users_read : List (ℕ × ℕ) → List ℕ → Reading
  tenants_read : List (ℕ × ℕ) → List ℕ → List ℕ → Reading

-- Redis and one worker. `pending` was published and is not delivered yet; `unwritten` was published,
-- and the command on the mirror that follows in its pipeline has not run yet.
pub record Worker : Type 0 where
  pub redis : Redis
  pub cache : Cache
  pub pending : List Event
  pub unwritten : List Event
  pub reading : Reading

-- The `HSET`, `SADD` or `SREM` of an event.
abbrev pub write_event : Event → Redis → Redis
write_event e r = record (publish_event e r) { channel = r.channel }

pub data Step : Worker → Worker → Type 0 where
  -- the `PUBLISH` of an event, by any process
  publish :
      (w : Worker) (e : Event)
      → Step w (record w {
        redis = record (w.redis) { channel = w.redis.channel ++ e ∷ [] };
        pending = w.pending ++ e ∷ [];
        unwritten = w.unwritten ++ e ∷ [];
      })
  -- the command on the mirror, in any order between processes
  write :
      (w : Worker) (before after : List Event) (e : Event)
      → w.unwritten ≡ before ++ e ∷ after
      → Step w (record w { redis = write_event e w.redis; unwritten = before ++ after })
  -- the connection breaks before the command
  drop :
      (w : Worker) (before after : List Event) (e : Event)
      → w.unwritten ≡ before ++ e ∷ after
      → Step w (record w { unwritten = before ++ after })
  -- the subscription hands over the oldest message
  deliver :
      (w : Worker) (e : Event) (es : List Event)
      → w.pending ≡ e ∷ es
      → Step w (record w { cache = apply_event w.cache e; pending = es })
  -- or loses it while it is not connected
  lose :
      (w : Worker) (e : Event) (es : List Event)
      → w.pending ≡ e ∷ es
      → Step w (record w { pending = es })
  read_versions :
      (w : Worker)
      → w.reading ≡ idle
      → Step w (record w { reading = versions_read w.redis.perm_versions })
  read_users :
      (w : Worker) (d : List (ℕ × ℕ))
      → w.reading ≡ versions_read d
      → Step w (record w { reading = users_read d w.redis.inactive_users })
  read_tenants :
      (w : Worker) (d : List (ℕ × ℕ)) (us : List ℕ)
      → w.reading ≡ users_read d us
      → Step w (record w { reading = tenants_read d us w.redis.inactive_tenants })
  assign :
      (w : Worker) (d : List (ℕ × ℕ)) (us ts : List ℕ)
      → w.reading ≡ tenants_read d us ts
      → Step w (record w {
        cache = record { inactive_user_ids = us; inactive_tenant_ids = ts; versions = d };
        reading = idle;
      })
  -- a read raises
  give_up : (w : Worker) → Step w (record w { reading = idle })

pub data Reach (s : Worker) : Worker → Type 0 where
  here : Reach s s
  next : {t u : Worker} → Reach s t → Step t u → Reach s u

-- Nothing is under way.
unfoldable pub IsQuiet : Worker → Type 0
IsQuiet w = (w.pending ≡ []) × (w.unwritten ≡ []) × (w.reading ≡ idle)
