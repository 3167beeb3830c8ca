-- ===== src/Models.antt =====
-- app/models: the rows of the tables, and what a query with `selectinload` brings along with a row.
-- A UUID and an integer key are only compared, so both are numbers; a point in time is a number of
-- ticks.
use fastapi_template.Prelude.{ℕ, String, Bool, Option, List}

-- app/models/rbac.py
pub record Permission : Type 0 where
  pub id : ℕ
  pub name : String
  pub bit_position : Option ℕ

pub record Role : Type 0 where
  pub id : ℕ
  pub name : String
  pub tenant_id : Option ℕ
  pub permission_mask : ℕ

-- app/models/auth.py
pub record User : Type 0 where
  pub id : ℕ
  pub username : String
  pub email : String
  pub password : Option String
  pub is_verified : Bool
  pub is_superuser : Bool
  pub is_active : Bool
  pub created_by_id : Option ℕ
  pub tenant_id : Option ℕ
  pub perm_version : ℕ

pub record RefreshToken : Type 0 where
  pub token : String
  pub user_id : ℕ
  pub expires_at : ℕ
  pub is_revoked : Bool

-- app/models/tenant.py
pub record Tenant : Type 0 where
  pub id : ℕ
  pub name : String
  pub is_active : Bool
  pub allowed_permission_mask : ℕ

-- A role with its `permissions` loaded.
pub record LoadedRole : Type 0 where
  pub role : Role
  pub permissions : List Permission

-- A user with `roles`, their `permissions`, the direct `permissions` and the `tenant` loaded.
pub record LoadedUser : Type 0 where
  pub user : User
  pub roles : List LoadedRole
  pub permissions : List Permission
  pub tenant : Option Tenant
