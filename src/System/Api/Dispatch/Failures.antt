-- ===== src/System/Api/Dispatch/Failures.antt =====
-- The answers with an error status, for every handler of system/backend/internal/api but that of
-- the internal /config.
use addp.System.Store.{Store}
use addp.System.Users
use addp.System.Users.Atomic as UserAtomic
use addp.System.Tenants
use addp.System.Tenants.Atomic as TenantAtomic
use addp.System.Resources
use addp.System.Resources.Frame
use addp.System.Logs
use addp.System.Api.AuthHandler
use addp.System.Api.AuthHandler.{login_status}
use addp.System.Api.UserHandler
use addp.System.Api.TenantHandler
use addp.System.Api.ResourceHandler
use addp.System.Api.LogHandler
use addp.System.Api.Dispatch.Silent.{Silent}
