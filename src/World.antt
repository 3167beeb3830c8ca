-- ===== src/World.antt =====
-- The state that the services share: the tables of the database (app/models), the Redis keys and
-- channel of app/core/authz_cache/channel.py, and calls that read and write them and may raise.
pub mod Mirror
pub mod Calls
pub mod Rows
use fastapi_template.Prelude.{
  ℕ, ◌+◌, String, Bool, true, false, ◌&&◌, Option, none, some, List, [], ◌∷◌, ◌++◌, map,
  if◌then◌else◌, ◌==◌, nat_eq, find, filter, contains, any, Eq, nat_beq_iff, ◌≡◌, ◌↔◌, arith,
}
use fastapi_template.Error.{Error, Result, ok, err}
use fastapi_template.Models.{Permission, Role, User, RefreshToken, Tenant, LoadedRole, LoadedUser}
use Mirror.{Redis}

-- A row of a table that links two keys.
abbrev pub Link : Type 0
Link = ℕ × ℕ

abbrev pub link_beq : Link → Link → Bool
link_beq a b = a.0 == b.0 && a.1 == b.1

pub link_beq_iff : (a b : Link) → (link_beq a b ≡ true) ↔ (a ≡ b)
link_beq_iff a b = ground arith

instance abbrev pub link_eq : Eq Link
link_eq = record { beq = link_beq; beq_iff = link_beq_iff }

pub record Db : Type 0 where
  pub users : List User
  pub roles : List Role
  pub permissions : List Permission
  pub tenants : List Tenant
  pub refresh_tokens : List RefreshToken
  pub user_roles : List Link
  pub role_permissions : List Link
  pub user_permissions : List Link
  pub role_grantable_roles : List Link
  pub role_grantable_permissions : List Link

pub record World : Type 0 where
  pub db : Db
  pub redis : Redis

-- A call: what was committed before a raise stays committed.
abbrev pub Action : Type 0 → Type 0
Action A = World → Result A × World

module _ {A : Type 0} where
  abbrev pub pure : A → Action A
  pure a w = (ok a, w)

  abbrev pub raise : Error → Action A
  raise e w = (err e, w)

  abbrev pub gets : (Db → A) → Action A
  gets f w = (ok (f w.db), w)

  abbrev pub lift : Result A → Action A
  lift r w = (r, w)

  -- `if not x: raise e`
  abbrev pub or_raise : Option A → Error → Action A
  or_raise none e = raise e
  or_raise (some a) e = pure a

infixl 5 ◌>>=◌ ◌>>◌
abbrev pub ◌>>=◌ : {A B : Type 0} → Action A → (A → Action B) → Action B
◌>>=◌ m f w = let (r, w') = m w in elim r [ ok a ↦ f a w' | err e ↦ (err e, w') ]

abbrev pub ◌>>◌ : {A B : Type 0} → Action A → Action B → Action B
m >> k = m >>= λ _. k

abbrev pub raise_if : Bool → Error → Action Unit
raise_if c e w = (if c then err e else ok tt, w)

abbrev pub modify_db : (Db → Db) → Action Unit
modify_db f w = (ok tt, record w { db = f w.db })

-- The rows that pass a test, changed.
unfoldable pub update_rows : {A : Type 0} → (A → Bool) → (A → A) → List A → List A
update_rows p f [] = []
update_rows p f (x ∷ xs) = (if p x then f x else x) ∷ update_rows p f xs

-- `selectinload(Role.permissions)`
unfoldable pub load_role : Db → Role → LoadedRole
load_role db r = record {
  role = r;
  permissions = filter (λ p. contains (r.id, p.id) db.role_permissions) db.permissions;
}

abbrev pub find_tenant : Db → Option ℕ → Option Tenant
find_tenant db none = none
find_tenant db (some tenant_id) = find (λ t. t.id == tenant_id) db.tenants

-- `selectinload(User.roles).selectinload(Role.permissions)`, `User.permissions`, `User.tenant`
unfoldable pub load_user : Db → User → LoadedUser
load_user db u = record {
  user = u;
  roles = map (load_role db) (filter (λ r. contains (u.id, r.id) db.user_roles) db.roles);
  permissions = filter (λ p. contains (u.id, p.id) db.user_permissions) db.permissions;
  tenant = find_tenant db u.tenant_id;
}
