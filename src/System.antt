-- ===== src/System.antt =====
-- The System service (system/backend): users, tenants, resources and audit logs.
pub mod Models
pub mod Store
pub mod UserRepository
pub mod TenantRepository
pub mod ResourceRepository
pub mod LogRepository
pub mod Users
pub mod Tenants
pub mod Resources
pub mod Logs
pub mod StorageEngine
pub mod Api
pub mod Auth
pub mod Bootstrap
pub mod Access
pub mod Requests
pub mod Samples
pub mod Examples
