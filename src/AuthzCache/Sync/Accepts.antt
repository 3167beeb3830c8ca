-- ===== src/AuthzCache/Sync/Accepts.antt =====
-- app/core/authz_cache: a worker refuses no token without a reason.
use fastapi_template.Prelude.{
  ℕ, ◌≡◌, refl, ap, ◌∙◌, Bool, true, ◌&&◌, ◌||◌, not, Option, none, some, List, [], ◌∷◌, ◌++◌,
  arith, leb, nat_eq, string_eq, option_eq, ◌==◌, if◌then◌else◌,
}
use fastapi_template.Prelude.Lists.{all, contains, lookup}
use fastapi_template.Error.{ok}
use fastapi_template.World.Mirror.{
  Event, perm_version, user_status, tenant_status, Redis, sadd, srem, publish_event,
}
use fastapi_template.AuthzCache.{
  Cache, set_add, set_discard, apply_event, snapshot, is_stale, is_user_inactive,
  is_tenant_inactive,
}
use fastapi_template.AuthzCache.Views.{
  lookup-dict_set, lookup-hset, contains-set_add, contains-set_discard, contains-sadd,
  contains-srem,
}
use fastapi_template.Auth.Token.{TokenPayload}
use fastapi_template.Auth.CurrentUser.{check_cache}
use fastapi_template.AuthzCache.Sync.{
  Reading, idle, versions_read, users_read, tenants_read, Worker, write_event, Step, publish, write,
  drop, deliver, lose, read_versions, read_users, read_tenants, assign, give_up, Reach, here, next,
  IsQuiet,
}

all-snoc :
    (p : Event → Bool) (es : List Event) (e : Event) → all p (es ++ e ∷ []) ≡ (all p es && p e)
unfolding all
all-snoc p [] e = ground arith
all-snoc p (x ∷ es) e = ground (arith, all-snoc p es e)

all-middle :
    (p : Event → Bool) (before after : List Event) (e : Event)
    → all p (before ++ e ∷ after) ≡ (p e && all p (before ++ after))
unfolding all
all-middle p [] after e = refl
all-middle p (x ∷ before) after e = ground (arith, all-middle p before after e)

module _ (payload : TokenPayload) where
  -- The event gives no reason to refuse the token.
  abbrev pub harmless : Event → Bool
  harmless (perm_version user_id version) =
      not (user_id == payload.id) || leb version payload.perm_version
  harmless (user_status user_id is_active) = not (user_id == payload.id) || is_active
  harmless (tenant_status tenant_id is_active) =
      not (some tenant_id == payload.tenant_id) || is_active

  current : List (ℕ × ℕ) → Bool
  current d = elim (lookup payload.id d) [ none ↦ true | some v ↦ leb v payload.perm_version ]

  active : List ℕ → Bool
  active us = not (contains payload.id us)

  open_in : Option ℕ → List ℕ → Bool
  open_in none ts = true
  open_in (some tenant_id) ts = not (contains tenant_id ts)

  clear : List (ℕ × ℕ) → List ℕ → List ℕ → Bool
  clear d us ts = current d && (active us && open_in payload.tenant_id ts)

  cache_clear : Cache → Bool
  cache_clear c = clear c.versions c.inactive_user_ids c.inactive_tenant_ids

  mirror_clear : Redis → Bool
  mirror_clear r = clear r.perm_versions r.inactive_users r.inactive_tenants

  reading_clear : Reading → Bool
  reading_clear idle = true
  reading_clear (versions_read d) = current d
  reading_clear (users_read d us) = current d && active us
  reading_clear (tenants_read d us ts) = clear d us ts

  clear-check_cache : (c : Cache) → cache_clear c ≡ true → check_cache c payload ≡ ok payload
  unfolding cache_clear clear current active open_in check_cache is_stale is_user_inactive
      is_tenant_inactive
  clear-check_cache c h = ground (arith, h)

  check_cache-clear : (c : Cache) → check_cache c payload ≡ ok payload → cache_clear c ≡ true
  unfolding cache_clear clear current active open_in check_cache is_stale is_user_inactive
      is_tenant_inactive
  check_cache-clear c h = ground (arith, h)

  -- What an event says of the tenant, added to or removed from a set.
  open_in-event :
      (o : Option ℕ) (tenant_id : ℕ) (is_active : Bool) (ts added removed : List ℕ)
      → ((j : ℕ) → contains j added ≡ (contains j ts || tenant_id == j))
      → ((j : ℕ) → contains j removed ≡ (not (tenant_id == j) && contains j ts))
      → (not (some tenant_id == o) || is_active) ≡ true
      → open_in o ts ≡ true
      → open_in o (if is_active then removed else added) ≡ true
  unfolding open_in
  open_in-event none tenant_id is_active ts added removed add remove h k = refl
  open_in-event (some j) tenant_id is_active ts added removed add remove h k =
      ground (arith, h, k, add j, remove j)

  clear-apply_event :
      (c : Cache) (e : Event)
      → harmless e ≡ true
      → cache_clear c ≡ true
      → cache_clear (apply_event c e) ≡ true
  unfolding cache_clear clear current active apply_event
  clear-apply_event c (perm_version user_id version) h k =
      ground (arith, h, k, lookup-dict_set user_id version payload.id c.versions)
  clear-apply_event c (user_status user_id is_active) h k = ground (
    arith,
    h,
    k,
    contains-set_add user_id payload.id c.inactive_user_ids,
    contains-set_discard user_id payload.id c.inactive_user_ids,
  )
  clear-apply_event c (tenant_status tenant_id is_active) h k =
      let ts = c.inactive_tenant_ids in
      ground (
        arith,
        k,
        open_in-event payload.tenant_id tenant_id is_active ts (set_add tenant_id ts)
            (set_discard tenant_id ts) (λ j. contains-set_add tenant_id j ts)
            (λ j. contains-set_discard tenant_id j ts) h,
      )

  clear-write_event :
      (r : Redis) (e : Event)
      → harmless e ≡ true
      → mirror_clear r ≡ true
      → mirror_clear (write_event e r) ≡ true
  unfolding mirror_clear clear current active publish_event
  clear-write_event r (perm_version user_id version) h k =
      ground (arith, h, k, lookup-hset user_id version payload.id r.perm_versions)
  clear-write_event r (user_status user_id is_active) h k = ground (
    arith,
    h,
    k,
    contains-sadd user_id payload.id r.inactive_users,
    contains-srem user_id payload.id r.inactive_users,
  )
  clear-write_event r (tenant_status tenant_id is_active) h k =
      let ts = r.inactive_tenants in
      ground (
        arith,
        k,
        open_in-event payload.tenant_id tenant_id is_active ts (sadd tenant_id ts)
            (srem tenant_id ts) (λ j. contains-sadd tenant_id j ts ∙ ground arith)
            (λ j. contains-srem tenant_id j ts) h,
      )

  -- Nothing that was announced, stored, read or is known gives a reason to refuse the token.
  worker_clear : Worker → Bool
  worker_clear w =
      all harmless w.pending
      && (all harmless w.unwritten
          && (cache_clear w.cache && (mirror_clear w.redis && reading_clear w.reading)))

  Step-channel :
      {t u : Worker}
      → Step t u
      → all harmless u.redis.channel ≡ true
      → all harmless t.redis.channel ≡ true
  Step-channel (publish w e) h = ground (arith, h, all-snoc harmless w.redis.channel e)
  Step-channel (write w before after e p) h = h
  Step-channel (drop w before after e p) h = h
  Step-channel (deliver w e es p) h = h
  Step-channel (lose w e es p) h = h
  Step-channel (read_versions w p) h = h
  Step-channel (read_users w d p) h = h
  Step-channel (read_tenants w d us p) h = h
  Step-channel (assign w d us ts p) h = h
  Step-channel (give_up w) h = h

  Step-clear :
      {t u : Worker}
      → Step t u
      → all harmless u.redis.channel ≡ true
      → worker_clear t ≡ true
      → worker_clear u ≡ true
  unfolding worker_clear reading_clear mirror_clear cache_clear clear
  Step-clear (publish w e) h k =
      let r' = record (w.redis) { channel = w.redis.channel ++ e ∷ [] } in
      let stored : mirror_clear r' ≡ mirror_clear w.redis = unfold mirror_clear in refl in
      ground (
        arith,
        h,
        k,
        stored,
        all-snoc harmless w.redis.channel e,
        all-snoc harmless w.pending e,
        all-snoc harmless w.unwritten e,
      )
  Step-clear (write w before after e p) h k = ground (
    arith,
    k,
    ap (all harmless) p,
    all-middle harmless before after e,
    clear-write_event w.redis e,
  )
  Step-clear (drop w before after e p) h k =
      ground (arith, k, ap (all harmless) p, all-middle harmless before after e)
  Step-clear (deliver w e es p) h k =
      let told : all harmless w.pending ≡ (harmless e && all harmless es) =
        ap (all harmless) p ∙ unfold all in refl in
      ground (arith, k, told, clear-apply_event w.cache e)
  Step-clear (lose w e es p) h k =
      let told : all harmless w.pending ≡ (harmless e && all harmless es) =
        ap (all harmless) p ∙ unfold all in refl in
      ground (arith, k, told)
  Step-clear (read_versions w p) h k = ground (arith, k)
  Step-clear (read_users w d p) h k = ground (arith, k, ap reading_clear p)
  Step-clear (read_tenants w d us p) h k = ground (arith, k, ap reading_clear p)
  Step-clear (assign w d us ts p) h k = ground (arith, k, ap reading_clear p)
  Step-clear (give_up w) h k = ground (arith, k)

  Reach-clear :
      {s t : Worker}
      → Reach s t
      → worker_clear s ≡ true
      → all harmless t.redis.channel ≡ true
      → worker_clear t ≡ true
  Reach-clear here k h = k
  Reach-clear (next r st) k h = Step-clear st h (Reach-clear r k (Step-channel st h))

  quiet-clear :
      (s : Worker)
      → IsQuiet s
      → check_cache s.cache payload ≡ ok payload
      → check_cache (snapshot s.redis) payload ≡ ok payload
      → worker_clear s ≡ true
  unfolding worker_clear IsQuiet
  quiet-clear s (none_pending, none_unwritten, not_reading) k m =
      let cached = check_cache-clear s.cache k in
      let stored : mirror_clear s.redis ≡ true =
        unfold mirror_clear cache_clear snapshot in check_cache-clear (snapshot s.redis) m in
      rw (none_pending, none_unwritten, not_reading, cached, stored)
        (unfold all reading_clear in refl)

  -- A token that a quiet worker accepts, by its cache and by the mirror, it accepts in every state that
  -- is reached from there, however publications, writes, messages and the reads of resyncs interleave
  -- and fail, as long as no message that was published on the channel deactivates its user, makes its
  -- tenant inactive or gives its user a version higher than that of the token.
  pub Reach-accepts :
      {s t : Worker}
      → Reach s t
      → IsQuiet s
      → check_cache s.cache payload ≡ ok payload
      → check_cache (snapshot s.redis) payload ≡ ok payload
      → all harmless t.redis.channel ≡ true
      → check_cache t.cache payload ≡ ok payload
  Reach-accepts {s} {t} r quiet k m h =
      let reached : worker_clear t ≡ true = Reach-clear r (quiet-clear s quiet k m) h in
      let known : cache_clear t.cache ≡ true = unfold worker_clear in ground (arith, reached) in
      clear-check_cache t.cache known
