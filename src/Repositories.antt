-- ===== src/Repositories.antt =====
-- app/repositories: the queries and statements of each repository as calls on the shared state.
-- A statement that breaks a unique key of app/models raises `integrity_error`, and its transaction
-- is not committed: the state is as before.
pub mod PermissionRepo
pub mod RoleRepo
pub mod UserRepo
pub mod TenantRepo
pub mod TokenRepo
