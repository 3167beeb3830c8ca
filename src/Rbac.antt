-- ===== src/Rbac.antt =====
-- app/core/rbac: permission masks, the permission catalog and delegation.
pub mod Mask
pub mod Registry
pub mod Delegation
