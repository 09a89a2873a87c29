-- ===== src/System/Requests/Allowed.antt =====
-- Requests to the services as what the access control allows their callers.
use addp.Common.{ℕ, List, some, ◌≡◌, ap, ◌∙◌, arith, inl, inr, ==_iff}
use addp.Common.Outcome.{Result-cases}
use addp.Cipher.{Crypto}
use addp.System.Models.{AuditLog}
use addp.System.Store.{Store, Database, IsDatabase, Bcrypt}
use addp.System.LogRepository
use addp.System.Logs.{Logged, log_request, log_entry}
use addp.System.Resources.Frame
use addp.System.Resources.Changes.{create-ResourceStep, update-ResourceStep, delete-ResourceStep}
use addp.System.Access.{Step, ResourceStep, kept, IsAllowed}
use addp.System.Requests.{
  Request, register, create_user, update_user, delete_user, create_tenant, update_tenant,
  delete_tenant, create_resource, update_resource, delete_resource, audit, serve,
}
use addp.System.Requests.Aside.{
  IsAside, register-IsAside, create_user-IsAside, update_user-IsAside, delete_user-IsAside,
  create_tenant-IsAside, update_tenant-IsAside, delete_tenant-IsAside,
}
use addp.System.Requests.Safety.{caller, serve-Step}

module _ {U T R L : Type 0} (db : Database U T R L) where
  aside-IsAllowed :
      {who : ℕ} {s s' : Store U T R L} → Step db who s s' → IsAside s s' → IsAllowed db who s s'
  aside-IsAllowed step aside = record {
    accounts = step;
    resources = λ j. kept (ap (λ rs. db.resources.at rs j) aside.resources);
    logs = λ j l there. ap (λ ls. db.logs.at ls j) aside.logs ∙ there;
  }

  framed-IsAllowed :
      {who : ℕ} {s s' : Store U T R L}
      → Step db who s s'
      → ((j : ℕ) → ResourceStep db who s s' j)
      → Frame.IsFramed db s s'
      → IsAllowed db who s s'
  framed-IsAllowed step resources frame = record {
    accounts = step;
    resources = resources;
    logs = λ j l there. ap (λ ls. db.logs.at ls j) frame.logs ∙ there;
  }

  -- a new entry has a key of its own
  audit-logs :
      (laws : IsDatabase db) (c : Logged) (s : Store U T R L) (j : ℕ) (l : AuditLog)
      → db.logs.at s.logs j ≡ some l
      → db.logs.at (log_request db c s).logs j ≡ some l
  unfolding log_request LogRepository.create
  audit-logs laws c s j l there = elim (Result-cases (db.logs.create s.logs (log_entry db c s))) [
    | inl (e, bad) ↦ ground arith
    | inr ((row, ls), made) ↦ ground (
      arith,
      laws.logs.create_at s.logs (log_entry db c s) row ls made j,
      (laws.logs.create_row s.logs (log_entry db c s) row ls made).2,
      ==_iff row.id j,
    )
  ]

  audit-ResourceStep :
      (who : ℕ) (c : Logged) (s : Store U T R L) (j : ℕ)
      → ResourceStep db who s (log_request db c s) j
  unfolding log_request LogRepository.create
  audit-ResourceStep who c s j = kept (ground arith)

module _ {U T R L : Type 0} (db : Database U T R L) (bcrypt : Bcrypt) {Byte : Type 0}
    (crypto : Crypto Byte) (key : List Byte) (laws : IsDatabase db) where
  -- Every writing request, failing or not, does no more than the rules of `IsAllowed` grant its
  -- caller. A new account is a plain user of no tenant that registered itself, one whom a tenant
  -- administrator made in the own tenant, or the administrator of a new tenant. Tenants, with
  -- those administrators and the users that leave with them, come, change and go by super
  -- administrators only. Users are edited by super administrators, by administrators of their
  -- tenant (other administrators excepted) and by themselves, keeping user name and tenant; their
  -- activation is changed by administrators only, their type only by an administrator of their
  -- tenant, who makes them plain users or users without a type. Users other than SuperAdmin are
  -- removed by super administrators, and, save tenant administrators, by administrators of their
  -- tenant. A row of resources stays as it was, unless a super administrator, or an administrator
  -- of its tenant, changed or removed it, or one of either kind made it, in the own tenant. No
  -- entry of the audit log is changed or removed. The database meets its laws `IsDatabase`.
  pub serve-IsAllowed :
      (r : Request) (s : Store U T R L) → IsAllowed db (caller r) s (serve db bcrypt crypto key r s)
  unfolding serve
  serve-IsAllowed (register req salt) s =
      aside-IsAllowed db (serve-Step db bcrypt crypto key laws (register req salt) s)
        (register-IsAside db bcrypt s req salt)
  serve-IsAllowed (create_user req actor salt) s =
      aside-IsAllowed db (serve-Step db bcrypt crypto key laws (create_user req actor salt) s)
        (create_user-IsAside db bcrypt s req actor salt)
  serve-IsAllowed (update_user id req actor salt) s =
      aside-IsAllowed db (serve-Step db bcrypt crypto key laws (update_user id req actor salt) s)
        (update_user-IsAside db bcrypt s id req actor salt)
  serve-IsAllowed (delete_user id actor) s =
      aside-IsAllowed db (serve-Step db bcrypt crypto key laws (delete_user id actor) s)
        (delete_user-IsAside db bcrypt s id actor)
  serve-IsAllowed (create_tenant req actor salt) s =
      aside-IsAllowed db (serve-Step db bcrypt crypto key laws (create_tenant req actor salt) s)
        (create_tenant-IsAside db bcrypt s laws req actor salt)
  serve-IsAllowed (update_tenant id req actor) s =
      aside-IsAllowed db (serve-Step db bcrypt crypto key laws (update_tenant id req actor) s)
        (update_tenant-IsAside db bcrypt s laws id req actor)
  serve-IsAllowed (delete_tenant id actor) s =
      aside-IsAllowed db (serve-Step db bcrypt crypto key laws (delete_tenant id actor) s)
        (delete_tenant-IsAside db bcrypt s laws id actor)
  serve-IsAllowed (create_resource req actor draw) s =
      framed-IsAllowed db (serve-Step db bcrypt crypto key laws (create_resource req actor draw) s)
        (create-ResourceStep db crypto key laws s actor req draw)
        (Frame.create-IsFramed db crypto key s s req actor draw)
  serve-IsAllowed (update_resource id req actor draw) s =
      framed-IsAllowed db
        (serve-Step db bcrypt crypto key laws (update_resource id req actor draw) s)
        (update-ResourceStep db crypto key laws s actor id req draw)
        (Frame.update-IsFramed db crypto key s s id req actor draw)
  serve-IsAllowed (delete_resource id actor) s =
      framed-IsAllowed db (serve-Step db bcrypt crypto key laws (delete_resource id actor) s)
        (delete-ResourceStep db crypto key laws s actor id)
        (Frame.delete-IsFramed db crypto key s s id actor)
  serve-IsAllowed (audit c) s = record {
    accounts = serve-Step db bcrypt crypto key laws (audit c) s;
    resources = audit-ResourceStep db 0 c s;
    logs = audit-logs db laws c s;
  }
