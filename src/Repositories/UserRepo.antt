-- ===== src/Repositories/UserRepo.antt =====
-- app/repositories/auth/user.py. `order_by_username` is the collation of the database.
use fastapi_template.Prelude.{
  ℕ, ◌+◌, String, Bool, true, false, ◌||◌, not, Option, none, some, List, [], ◌∷◌, ◌++◌, map,
  if◌then◌else◌, ◌==◌, nat_eq, string_eq, option_eq, map_option,
}
use fastapi_template.Prelude.Lists.{any, filter, find, contains, take, drop, length}
use fastapi_template.Error.{ok, err, integrity_error, value_error}
use fastapi_template.Models.{Permission, User, LoadedUser}
use fastapi_template.World.{Link, link_eq, Db, Action, gets, modify_db, update_rows, load_user}
use fastapi_template.World.Mirror.{perm_version, user_status, publish_events}

abbrev pub find_user : ℕ → Db → Option User
find_user user_id db = find (λ u. u.id == user_id) db.users

unfoldable pub exists_by_username : String → Action Bool
exists_by_username username = gets λ db. any (λ u. u.username == username) db.users

unfoldable pub exists_by_email : String → Action Bool
exists_by_email email = gets λ db. any (λ u. u.email == email) db.users

-- The arguments of `create`; those that a caller leaves out have the defaults of `new_user`.
pub record NewUser : Type 0 where
  pub username : String
  pub email : String
  pub password : Option String
  pub is_verified : Bool
  pub is_superuser : Bool
  pub created_by_id : Option ℕ
  pub tenant_id : Option ℕ

abbrev pub new_user : String → String → Option String → NewUser
new_user username email password = record {
  username = username;
  email = email;
  password = password;
  is_verified = false;
  is_superuser = false;
  created_by_id = none;
  tenant_id = none;
}

-- `new_id` is the value of `uuid.uuid4()`; a new row is active and has version 1.
unfoldable pub create : ℕ → NewUser → Action User
create new_id n w =
    let row : User = record {
      id = new_id;
      username = n.username;
      email = n.email;
      password = n.password;
      is_verified = n.is_verified;
      is_superuser = n.is_superuser;
      is_active = true;
      created_by_id = n.created_by_id;
      tenant_id = n.tenant_id;
      perm_version = 1;
    } in
    let taken =
      any (λ u. u.id == new_id || u.username == n.username || u.email == n.email) w.db.users in
    if taken
    then (err integrity_error, w)
    else (ok row, record w { db = record w.db { users = w.db.users ++ row ∷ [] } })

unfoldable pub list_by_tenant :
    (List User → List User) → Option ℕ → ℕ → ℕ → Action (List LoadedUser)
list_by_tenant order_by_username tenant_id skip limit = gets λ db.
    map (load_user db)
      (take limit (drop skip (order_by_username (filter (λ u. u.tenant_id == tenant_id) db.users))))

unfoldable pub count_by_tenant : Option ℕ → Action ℕ
count_by_tenant tenant_id = gets λ db. length (filter (λ u. u.tenant_id == tenant_id) db.users)

unfoldable pub get_by_username : String → Action (Option User)
get_by_username username = gets λ db. find (λ u. u.username == username) db.users

unfoldable pub get_by_email : String → Action (Option User)
get_by_email email = gets λ db. find (λ u. u.email == email) db.users

unfoldable pub get_by_id : ℕ → Action (Option User)
get_by_id user_id = gets λ db. find_user user_id db

unfoldable pub get_by_id_with_grants : ℕ → Action (Option LoadedUser)
get_by_id_with_grants user_id = gets λ db. map_option (load_user db) (find_user user_id db)

unfoldable pub list_all : (List User → List User) → ℕ → ℕ → Action (List LoadedUser)
list_all order_by_username skip limit =
    gets λ db. map (load_user db) (take limit (drop skip (order_by_username db.users)))

unfoldable pub count_all : Action ℕ
count_all = gets λ db. length db.users

abbrev pub update_user : ℕ → (User → User) → Db → Db
update_user user_id f db = record db { users = update_rows (λ u. u.id == user_id) f db.users }

unfoldable pub set_verified : User → Action Unit
set_verified user = modify_db (update_user user.id (λ u. record u { is_verified = true }))

unfoldable pub set_password : User → String → Action Unit
set_password user hashed =
    modify_db (update_user user.id (λ u. record u { password = some hashed }))

unfoldable pub has_permission : ℕ → ℕ → Action Bool
has_permission user_id permission_id =
    gets λ db. contains (user_id, permission_id) db.user_permissions

-- The version that is written and published is computed from the loaded user.
unfoldable pub grant_permission : User → Permission → Action Unit
grant_permission user permission w =
    let version = user.perm_version + 1 in
    let link : Link = (user.id, permission.id) in
    let db' = record (update_user user.id (λ u. record u { perm_version = version }) w.db) {
      user_permissions = link ∷ w.db.user_permissions;
    } in
    if contains link w.db.user_permissions then (err integrity_error, w) else (
      ok tt,
      record { db = db'; redis = publish_events (perm_version user.id version ∷ []) w.redis },
    )

-- `user.permissions.remove` raises where the permission is not among them.
unfoldable pub revoke_permission : LoadedUser → Permission → Action Unit
revoke_permission loaded permission w =
    let user = loaded.user in
    let version = user.perm_version + 1 in
    let link : Link = (user.id, permission.id) in
    let db' = record (update_user user.id (λ u. record u { perm_version = version }) w.db) {
      user_permissions = filter (λ l. not (l == link)) w.db.user_permissions;
    } in
    let redis' = publish_events (perm_version user.id version ∷ []) w.redis in
    if any (λ p. p.id == permission.id) loaded.permissions
    then (ok tt, record { db = db'; redis = redis' })
    else (err value_error, w)

unfoldable pub set_active : User → Bool → Action User
set_active user is_active w = (
  ok (record user { is_active = is_active }),
  record {
    db = update_user user.id (λ u. record u { is_active = is_active }) w.db;
    redis = publish_events (user_status user.id is_active ∷ []) w.redis;
  },
)
