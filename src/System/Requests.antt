-- ===== src/System/Requests.antt =====
-- The writes that reach the System service, one constructor for each service method that writes
-- (system/backend/internal/service) and one for the audit logger, and runs of them in sequence.
-- `actor` is the caller's `user_id`; salts and draws are what the random source gives.
mod Aside
pub mod Safety
pub mod Allowed
pub mod Ownership
use addp.Common.{ℕ, List, [], ◌∷◌}
use addp.Cipher.{Crypto}
use addp.System.Models.{
  UserCreateRequest, UserUpdateRequest, TenantCreateRequest, TenantUpdateRequest,
  ResourceCreateRequest, ResourceUpdateRequest,
}
use addp.System.Store.{Store, Database, Bcrypt}
use addp.System.Users
use addp.System.Tenants
use addp.System.Resources
use addp.System.Logs
use addp.System.Logs.{Logged}

pub data Request : Type 0 where
  register : (req : UserCreateRequest) (salt : ℕ) → Request
  create_user : (req : UserCreateRequest) (actor salt : ℕ) → Request
  update_user : (id : ℕ) (req : UserUpdateRequest) (actor salt : ℕ) → Request
  delete_user : (id actor : ℕ) → Request
  create_tenant : (req : TenantCreateRequest) (actor salt : ℕ) → Request
  update_tenant : (id : ℕ) (req : TenantUpdateRequest) (actor : ℕ) → Request
  delete_tenant : (id actor : ℕ) → Request
  create_resource : (req : ResourceCreateRequest) (actor draw : ℕ) → Request
  update_resource : (id : ℕ) (req : ResourceUpdateRequest) (actor draw : ℕ) → Request
  delete_resource : (id actor : ℕ) → Request
  audit : Logged → Request

module _ {U T R L : Type 0} (db : Database U T R L) (bcrypt : Bcrypt) {Byte : Type 0}
    (crypto : Crypto Byte) (key : List Byte) where
  -- The state after a request; one that fails leaves the state that its method left.
  unfoldable pub serve : Request → Store U T R L → Store U T R L
  serve (register req salt) s = (Users.register db bcrypt req salt s).1
  serve (create_user req actor salt) s = (Users.create db bcrypt req actor salt s).1
  serve (update_user id req actor salt) s = (Users.update db bcrypt id req actor salt s).1
  serve (delete_user id actor) s = (Users.delete db bcrypt id actor s).1
  serve (create_tenant req actor salt) s = (Tenants.create db bcrypt req actor salt s).1
  serve (update_tenant id req actor) s = (Tenants.update db bcrypt id req actor s).1
  serve (delete_tenant id actor) s = (Tenants.delete db bcrypt id actor s).1
  serve (create_resource req actor draw) s = (Resources.create db crypto key req actor draw s).1
  serve (update_resource id req actor draw) s =
      (Resources.update db crypto key id req actor draw s).1
  serve (delete_resource id actor) s = (Resources.delete db crypto key id actor s).1
  serve (audit c) s = Logs.log_request db c s

  unfoldable pub run : List Request → Store U T R L → Store U T R L
  run [] s = s
  run (r ∷ rs) s = run rs (serve r s)
