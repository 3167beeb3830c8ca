-- ===== src/Examples/Workers.antt =====
-- One worker beside the mirror, at concrete inputs.
use fastapi_template.Prelude.{
  ◌≡◌, refl, true, false, some, [], ◌∷◌, arith, nat_eq, string_eq, option_eq,
}
use fastapi_template.Prelude.Lists.{all, filter, lookup, contains}
use fastapi_template.Error.{ok}
use fastapi_template.World.Mirror.{perm_version, Redis}
use fastapi_template.AuthzCache.{
  empty_cache, apply_event, is_user_inactive, is_tenant_inactive, is_stale, snapshot,
}
use fastapi_template.AuthzCache.Sync.{Worker, idle, Reach, here, next, publish, deliver, IsQuiet}
use fastapi_template.AuthzCache.Sync.Accepts.{Reach-accepts}
use fastapi_template.AuthzCache.Sync.Loses.{Reach-loses}
use fastapi_template.Auth.Token.{TokenPayload}
use fastapi_template.Auth.CurrentUser.{check_cache}

abbrev mirror : Redis
mirror = record {
  is_up = true;
  perm_versions = (7, 1) ∷ [];
  inactive_users = [];
  inactive_tenants = [];
  channel = [];
}

abbrev fresh_worker : Worker
fresh_worker = record {
  redis = mirror;
  cache = snapshot mirror;
  pending = [];
  unwritten = [];
  reading = idle;
}

-- A version of user 7 was published and delivered, and is not in the mirror yet.
abbrev ahead : Worker
ahead = record {
  redis = record mirror { channel = perm_version 7 2 ∷ [] };
  cache = record { inactive_user_ids = []; inactive_tenant_ids = []; versions = (7, 2) ∷ [] };
  pending = [];
  unwritten = perm_version 7 2 ∷ [];
  reading = idle;
}

abbrev announced : Worker
announced = record fresh_worker {
  redis = record mirror { channel = perm_version 7 2 ∷ [] };
  pending = perm_version 7 2 ∷ [];
  unwritten = perm_version 7 2 ∷ [];
}

delivered : Reach fresh_worker ahead
unfolding apply_event snapshot filter
delivered =
    next (next here (publish fresh_worker (perm_version 7 2)))
      (deliver announced (perm_version 7 2) [] refl)

-- The claims of user 7 after the bump.
abbrev renewed : TokenPayload
renewed = record {
  id = 7;
  tenant_id = some 1;
  is_superuser = false;
  perm_mask = [];
  perm_version = 2;
  exp = 90;
  auth_method = "password";
}

Reach-accepts_example : check_cache ahead.cache renewed ≡ ok renewed
unfolding is_user_inactive contains snapshot is_tenant_inactive is_stale lookup
Reach-accepts_example =
    Reach-accepts renewed delivered (unfold IsQuiet in (refl, refl, refl))
      (unfold check_cache in refl) (unfold check_cache in refl) (unfold all in refl)

Reach-loses_example :
    let s : Worker = record fresh_worker { cache = empty_cache } in
    (t : Worker) × Reach s t
    × IsQuiet t
    × (is_stale (snapshot t.redis) 7 1 ≡ true)
    × (is_stale t.cache 7 1 ≡ false)
Reach-loses_example =
    Reach-loses mirror empty_cache 7 2 1 (ground arith) (unfold is_stale snapshot lookup in refl)
