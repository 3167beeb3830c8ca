-- ===== src/AuthzCache/Sync/Loses.antt =====
-- app/core/authz_cache/cache.py: a message that overtakes a resync.
use fastapi_template.Prelude.{
  ℕ, ◌<◌, ◌≡◌, refl, true, [], ◌∷◌, ◌++◌, arith, nat_eq, string_eq, option_eq, false,
}
use fastapi_template.World.Mirror.{perm_version, Redis, publish_event}
use fastapi_template.AuthzCache.{Cache, apply_event, snapshot, is_stale}
use fastapi_template.AuthzCache.Views.{lookup-hset}
use fastapi_template.AuthzCache.Sync.{
  idle, versions_read, users_read, tenants_read, Worker, write_event, publish, write, deliver,
  read_versions, read_users, read_tenants, assign, Reach, here, next, IsQuiet,
}

pub Reach-loses :
    (r : Redis) (c : Cache) (user_id v token_version : ℕ)
    → token_version < v
    → is_stale (snapshot r) user_id token_version ≡ false
    → let s : Worker = record {
      redis = r;
      cache = c;
      pending = [];
      unwritten = [];
      reading = idle;
    } in
      (t : Worker) × Reach s t
      × IsQuiet t
      × (is_stale (snapshot t.redis) user_id token_version ≡ true)
      × (is_stale t.cache user_id token_version ≡ false)
unfolding IsQuiet
Reach-loses r c user_id v token_version lt old =
    let e = perm_version user_id v in
    let s : Worker = record {
      redis = r;
      cache = c;
      pending = [];
      unwritten = [];
      reading = idle;
    } in
    let s1 : Worker = record s { reading = versions_read r.perm_versions } in
    let s2 : Worker = record s { reading = users_read r.perm_versions r.inactive_users } in
    let s3 : Worker = record s {
      reading = tenants_read r.perm_versions r.inactive_users r.inactive_tenants;
    } in
    let s4 : Worker = record s3 {
      redis = record r { channel = r.channel ++ e ∷ [] };
      pending = e ∷ [];
      unwritten = e ∷ [];
    } in
    let s5 : Worker = record s4 { redis = write_event e s4.redis; unwritten = [] } in
    let s6 : Worker = record s5 { cache = apply_event c e; pending = [] } in
    let t : Worker = record s6 { cache = snapshot r; reading = idle } in
    (
      t,
      unfold snapshot in
          next
            (next
              (next
                (next
                  (next
                    (next (next here (read_versions s refl)) (read_users s1 r.perm_versions refl))
                    (read_tenants s2 r.perm_versions r.inactive_users refl))
                  (publish s3 e))
                (write s4 [] [] e refl))
              (deliver s5 e [] refl))
            (assign s6 r.perm_versions r.inactive_users r.inactive_tenants refl),
      (refl, refl, refl),
      unfold snapshot is_stale publish_event in
          ground (arith, lookup-hset user_id v user_id r.perm_versions),
      old,
    )
