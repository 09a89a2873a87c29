-- ===== src/System/Requests/Safety.antt =====
-- Requests to the services as steps of the access control, and runs of them.
use addp.Common.{ℕ, false, some, List, [], ◌∷◌, ◌≡◌, ◌≢◌, arith}
use addp.Cipher.{Crypto}
use addp.System.Models.{super_admin, User, same_tenant}
use addp.System.Store.{Store, Database, IsDatabase, Bcrypt}
use addp.System.LogRepository
use addp.System.Logs.{Logged, log_request}
use addp.System.Users.Refines as UserSteps
use addp.System.Tenants.Refines as TenantSteps
use addp.System.Resources.Frame
use addp.System.Access.{user_at, Step, idle, Steps, here, next}
use addp.System.Access.Invariant.{IsConsistent, Steps-IsConsistent}
use addp.System.Access.Root.{HasRoot, Steps-HasRoot, WasRoot, Steps-WasRoot}
use addp.System.Access.Isolation.{Step-isolated, Step-tenants}
use addp.System.Requests.{
  Request, register, create_user, update_user, delete_user, create_tenant, update_tenant,
  delete_tenant, create_resource, update_resource, delete_resource, audit, serve, run,
}

-- The caller of a request; a registration and the logger have none, and act on their own.
abbrev pub caller : Request → ℕ
caller (register req salt) = 0
caller (create_user req actor salt) = actor
caller (update_user id req actor salt) = actor
caller (delete_user id actor) = actor
caller (create_tenant req actor salt) = actor
caller (update_tenant id req actor) = actor
caller (delete_tenant id actor) = actor
caller (create_resource req actor draw) = actor
caller (update_resource id req actor draw) = actor
caller (delete_resource id actor) = actor
caller (audit c) = 0

module _ {U T R L : Type 0} (db : Database U T R L) where
  log_request-Step : (who : ℕ) (c : Logged) (s : Store U T R L) → Step db who s (log_request db c s)
  unfolding log_request LogRepository.create
  log_request-Step who c s = idle (ground arith) (ground arith)

  framed-Step : (who : ℕ) {s s' : Store U T R L} → Frame.IsFramed db s s' → Step db who s s'
  framed-Step who h = idle h.users h.tenants

module _ {U T R L : Type 0} (db : Database U T R L) (bcrypt : Bcrypt) {Byte : Type 0}
    (crypto : Crypto Byte) (key : List Byte) (laws : IsDatabase db) where
  pub serve-Step :
      (r : Request) (s : Store U T R L) → Step db (caller r) s (serve db bcrypt crypto key r s)
  unfolding serve
  serve-Step (register req salt) s = UserSteps.register-Step db bcrypt laws s req salt
  serve-Step (create_user req actor salt) s = UserSteps.create-Step db bcrypt laws s req actor salt
  serve-Step (update_user id req actor salt) s =
      UserSteps.update-Step db bcrypt laws s id req actor salt
  serve-Step (delete_user id actor) s = UserSteps.delete-Step db bcrypt laws s id actor
  serve-Step (create_tenant req actor salt) s =
      TenantSteps.create-Step db bcrypt laws s req actor salt
  serve-Step (update_tenant id req actor) s = TenantSteps.update-Step db bcrypt laws s id req actor
  serve-Step (delete_tenant id actor) s = TenantSteps.delete-Step db bcrypt laws s id actor
  serve-Step (create_resource req actor draw) s =
      framed-Step db actor (Frame.create-IsFramed db crypto key s s req actor draw)
  serve-Step (update_resource id req actor draw) s =
      framed-Step db actor (Frame.update-IsFramed db crypto key s s id req actor draw)
  serve-Step (delete_resource id actor) s =
      framed-Step db actor (Frame.delete-IsFramed db crypto key s s id actor)
  serve-Step (audit c) s = log_request-Step db 0 c s

  pub run-Steps :
      (rs : List Request) {s₀ : Store U T R L} (s : Store U T R L)
      → Steps db s₀ s
      → Steps db s₀ (run db bcrypt crypto key rs s)
  unfolding run
  run-Steps [] s h = h
  run-Steps (r ∷ rs) s h =
      run-Steps rs (serve db bcrypt crypto key r s) (next (caller r) h (serve-Step r s))

  -- From a consistent database every sequence of requests leads to a consistent one: each stored
  -- user's is_superuser flag says whether the type is super_admin, tenant administrators have a
  -- tenant, super administrators have none, and the tenant that a user names exists.
  -- The database meets its laws `IsDatabase`.
  pub run-IsConsistent :
      (rs : List Request) (s : Store U T R L)
      → IsConsistent db s
      → IsConsistent db (run db bcrypt crypto key rs s)
  run-IsConsistent rs s h = Steps-IsConsistent db h (run-Steps rs s here)

  -- While the account SuperAdmin is stored as a super administrator of no tenant, no sequence of
  -- requests deletes it, demotes it, renames it or gives it a tenant.
  -- The database meets its laws `IsDatabase`.
  pub run-HasRoot :
      (rs : List Request) (s : Store U T R L) (i : ℕ)
      → HasRoot db i s
      → HasRoot db i (run db bcrypt crypto key rs s)
  run-HasRoot rs s i h = Steps-HasRoot db h (run-Steps rs s here)

  -- No sequence of requests makes a super administrator: whoever is one at the end was one at the
  -- start, under the same key and name.
  -- The database meets its laws `IsDatabase`.
  pub run-WasRoot :
      (rs : List Request) (s : Store U T R L) (i : ℕ) (u : User)
      → user_at db (run db bcrypt crypto key rs s) i ≡ some u
      → u.user_type ≡ super_admin
      → WasRoot db s i u
  run-WasRoot rs s i u e k = Steps-WasRoot db (run-Steps rs s here) i u e k

  -- A request of a caller who is no super administrator leaves every tenant as it was, and every
  -- user but the caller who is not of the caller's tenant.
  -- The database meets its laws `IsDatabase`.
  pub serve-isolated :
      (r : Request) (s : Store U T R L) (me : User)
      → user_at db s (caller r) ≡ some me
      → me.user_type ≢ super_admin
      → ((serve db bcrypt crypto key r s).tenants ≡ s.tenants)
        × ((j : ℕ) (u : User)
            → user_at db s j ≡ some u
            → j ≢ caller r
            → same_tenant u.tenant_id me.tenant_id ≡ false
            → user_at db (serve db bcrypt crypto key r s) j ≡ some u)
  serve-isolated r s me there plain = (
    Step-tenants db me there plain (serve-Step r s),
    Step-isolated db me there plain (serve-Step r s),
  )
