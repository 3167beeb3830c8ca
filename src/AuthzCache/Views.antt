-- ===== src/AuthzCache/Views.antt =====
-- app/core/authz_cache: what the cache and the mirror answer about one key after a list of events.
use fastapi_template.Prelude.{
  ℕ, ◌≡◌, refl, sym, ap, ◌∙◌, subst, Bool, true, false, ◌&&◌, ◌||◌, not, Option, none, some, List,
  [], ◌∷◌, ◌++◌, arith, if◌then◌else◌, nat_beq_iff, ◌==◌, nat_eq, string_eq, option_eq,
}
use fastapi_template.Prelude.Lists.{filter, contains, lookup, any}
use fastapi_template.World.Mirror.{
  Event, perm_version, user_status, tenant_status, Redis, hset, sadd, srem, publish_event,
  publish_loop,
}
use fastapi_template.AuthzCache.{set_add, set_discard, dict_set}

lookup-filter_ne :
    (k j : ℕ) (d : List (ℕ × ℕ))
    → (k == j) ≡ false
    → lookup j (filter (λ e. not (e.0 == k)) d) ≡ lookup j d
unfolding lookup filter
lookup-filter_ne k j [] h = refl
lookup-filter_ne k j ((i, v) ∷ d) h = ground (arith, lookup-filter_ne k j d h)

pub lookup-dict_set :
    (k v j : ℕ) (d : List (ℕ × ℕ))
    → lookup j (dict_set k v d) ≡ (if k == j then some v else lookup j d)
unfolding lookup dict_set
lookup-dict_set k v j d = ground (arith, lookup-filter_ne k j d)

pub lookup-hset :
    (k v j : ℕ) (d : List (ℕ × ℕ)) → lookup j (hset k v d) ≡ (if k == j then some v else lookup j d)
unfolding lookup hset
lookup-hset k v j [] = refl
lookup-hset k v j ((i, w) ∷ d) = ground (arith, lookup-hset k v j d)

pub contains-remove :
    (a b : ℕ) (s : List ℕ)
    → contains b (filter (λ c. not (c == a)) s) ≡ (not (a == b) && contains b s)
unfolding contains any filter
contains-remove a b [] = ground arith
contains-remove a b (x ∷ s) = ground (arith, contains-remove a b s)

pub contains-srem : (a b : ℕ) (s : List ℕ) → contains b (srem a s) ≡ (not (a == b) && contains b s)
unfolding srem
contains-srem = contains-remove

pub contains-set_discard :
    (a b : ℕ) (s : List ℕ) → contains b (set_discard a s) ≡ (not (a == b) && contains b s)
unfolding set_discard
contains-set_discard = contains-remove

contains-snoc : (a b : ℕ) (s : List ℕ) → contains b (s ++ a ∷ []) ≡ (contains b s || (a == b))
unfolding contains any
contains-snoc a b [] = ground arith
contains-snoc a b (x ∷ s) = ground (arith, contains-snoc a b s)

contains_self : (a b : ℕ) (s : List ℕ) → contains a s ≡ true → (a == b) ≡ true → contains b s ≡ true
contains_self a b s h e = subst (λ c. contains c s ≡ true) ((nat_beq_iff a b).0 e) h

pub contains-set_add :
    (a b : ℕ) (s : List ℕ) → contains b (set_add a s) ≡ (contains b s || (a == b))
unfolding set_add
contains-set_add a b s = ground (arith, contains-snoc a b s, contains_self a b s)

contains-cons : (a b : ℕ) (s : List ℕ) → contains b (a ∷ s) ≡ ((a == b) || contains b s)
unfolding contains any
contains-cons a b s = refl

pub contains-sadd : (a b : ℕ) (s : List ℕ) → contains b (sadd a s) ≡ (contains b s || (a == b))
unfolding sadd
contains-sadd a b s = ground (arith, contains-cons a b s, contains_self a b s)

-- The value after an update that may say nothing.
abbrev pub override : {A : Type 0} → Option A → A → A
override none a = a
override (some b) a = b

-- Of two updates the later one counts.
abbrev pub later : {A : Type 0} → Option A → Option A → Option A
later none o = o
later (some a) o = some a

pub override-later :
    {A : Type 0} (l o : Option A) (a : A) → override (later l o) a ≡ override l (override o a)
override-later none o a = refl
override-later (some b) o a = refl

-- What one event says of the version of a user, and whether a user or a tenant is inactive.
abbrev pub version_in : ℕ → Event → Option (Option ℕ)
version_in u (perm_version user_id version) = if user_id == u then some (some version) else none
version_in u (user_status user_id is_active) = none
version_in u (tenant_status tenant_id is_active) = none

abbrev pub user_in : ℕ → Event → Option Bool
user_in u (perm_version user_id version) = none
user_in u (user_status user_id is_active) = if user_id == u then some (not is_active) else none
user_in u (tenant_status tenant_id is_active) = none

abbrev pub tenant_in : ℕ → Event → Option Bool
tenant_in t (perm_version user_id version) = none
tenant_in t (user_status user_id is_active) = none
tenant_in t (tenant_status tenant_id is_active) =
    if tenant_id == t then some (not is_active) else none

-- The last of the events that says something.
unfoldable pub last_said : {A : Type 0} → (Event → Option A) → List Event → Option A
last_said says [] = none
last_said says (event ∷ events) = later (last_said says events) (says event)

-- What the mirror holds of one user or tenant.
pub record Known : Type 0 where
  pub version : Option ℕ
  pub user_inactive : Bool
  pub tenant_inactive : Bool

abbrev pub said : ℕ → List Event → Known → Known
said k es known = record {
  version = override (last_said (version_in k) es) known.version;
  user_inactive = override (last_said (user_in k) es) known.user_inactive;
  tenant_inactive = override (last_said (tenant_in k) es) known.tenant_inactive;
}

abbrev pub said_by : ℕ → Event → Known → Known
said_by k e known = record {
  version = override (version_in k e) known.version;
  user_inactive = override (user_in k e) known.user_inactive;
  tenant_inactive = override (tenant_in k e) known.tenant_inactive;
}

said-cons :
    (k : ℕ) (e : Event) (es : List Event) (known : Known)
    → said k (e ∷ es) known ≡ said k es (said_by k e known)
unfolding last_said
said-cons k e es known = λ i. record {
  version = override-later (last_said (version_in k) es) (version_in k e) known.version i;
  user_inactive = override-later (last_said (user_in k) es) (user_in k e) known.user_inactive i;
  tenant_inactive =
      override-later (last_said (tenant_in k) es) (tenant_in k e) known.tenant_inactive i;
}

-- What a resync would read.
abbrev pub mirror_knows : ℕ → Redis → Known
mirror_knows k r = record {
  version = lookup k r.perm_versions;
  user_inactive = contains k r.inactive_users;
  tenant_inactive = contains k r.inactive_tenants;
}

pub knows-publish_event :
    (k : ℕ) (e : Event) (r : Redis)
    → mirror_knows k (publish_event e r) ≡ said_by k e (mirror_knows k r)
unfolding publish_event
knows-publish_event k (perm_version user_id version) r =
    ground (arith, lookup-hset user_id version k r.perm_versions)
knows-publish_event k (user_status user_id is_active) r =
    ground
      (arith, contains-srem user_id k r.inactive_users, contains-sadd user_id k r.inactive_users)
knows-publish_event k (tenant_status tenant_id is_active) r = ground (
  arith,
  contains-srem tenant_id k r.inactive_tenants,
  contains-sadd tenant_id k r.inactive_tenants,
)

-- What the mirror holds after some events are published.
pub knows-publish_loop :
    (k : ℕ) (es : List Event) (r : Redis)
    → mirror_knows k (publish_loop es r) ≡ said k es (mirror_knows k r)
unfolding publish_loop
knows-publish_loop k [] r = unfold last_said in refl
knows-publish_loop k (e ∷ es) r =
    knows-publish_loop k es (publish_event e r)
    ∙ ap (said k es) (knows-publish_event k e r)
    ∙ sym (said-cons k e es (mirror_knows k r))
