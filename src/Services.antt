-- ===== src/Services.antt =====
-- app/services: the operations that the routes call.
pub mod RoleService
pub mod PermissionService
pub mod UserService
pub mod TenantService
