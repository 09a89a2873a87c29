-- ===== src/System/Requests/Ownership.antt =====
-- Requests to the services and the resources that their caller may not manage.
use addp.Common.{ℕ, List, false, some, ◌≡◌, arith, ap, ◌∙◌}
use addp.Cipher.{Crypto}
use addp.System.Models.{User, Resource}
use addp.System.Store.{Store, Database, IsDatabase, Bcrypt}
use addp.System.LogRepository
use addp.System.Requests.Aside.{
  register-IsAside, create_user-IsAside, update_user-IsAside, delete_user-IsAside,
  create_tenant-IsAside, update_tenant-IsAside, delete_tenant-IsAside,
}
use addp.System.Resources.Access.{may_manage}
use addp.System.Resources.Isolation.{create-other, update-other, delete-other}
use addp.System.Logs.{Logged, log_request}
use addp.System.Requests.{
  Request, register, create_user, update_user, delete_user, create_tenant, update_tenant,
  delete_tenant, create_resource, update_resource, delete_resource, audit, serve,
}
use addp.System.Requests.Safety.{caller}

module _ {U T R L : Type 0} (db : Database U T R L) (s : Store U T R L) where
  audit-resources : (c : Logged) → (log_request db c s).resources ≡ s.resources
  unfolding log_request LogRepository.create
  audit-resources c = ground arith

module _ {U T R L : Type 0} (db : Database U T R L) (bcrypt : Bcrypt) {Byte : Type 0}
    (crypto : Crypto Byte) (key : List Byte) (laws : IsDatabase db) (s : Store U T R L) (j : ℕ)
    (old : Resource) (there : db.resources.at s.resources j ≡ some old) where
  untouched : (rs : R) → rs ≡ s.resources → db.resources.at rs j ≡ some old
  untouched rs same = ap (λ t. db.resources.at t j) same ∙ there

  -- A request whose caller is stored leaves every stored resource as it was that the caller may
  -- not manage: every one but those of the caller's tenant, for a tenant administrator, and every
  -- one at all, for a caller who is neither that nor a super administrator.
  -- The database meets its laws `IsDatabase`.
  pub serve-other :
      (r : Request) (me : User)
      → db.users.at s.users (caller r) ≡ some me
      → may_manage me old ≡ false
      → db.resources.at (serve db bcrypt crypto key r s).resources j ≡ some old
  unfolding serve
  serve-other (register req salt) me acts others =
      untouched _ (register-IsAside db bcrypt s req salt).resources
  serve-other (create_user req actor salt) me acts others =
      untouched _ (create_user-IsAside db bcrypt s req actor salt).resources
  serve-other (update_user id req actor salt) me acts others =
      untouched _ (update_user-IsAside db bcrypt s id req actor salt).resources
  serve-other (delete_user id actor) me acts others =
      untouched _ (delete_user-IsAside db bcrypt s id actor).resources
  serve-other (create_tenant req actor salt) me acts others =
      untouched _ (create_tenant-IsAside db bcrypt s laws req actor salt).resources
  serve-other (update_tenant id req actor) me acts others =
      untouched _ (update_tenant-IsAside db bcrypt s laws id req actor).resources
  serve-other (delete_tenant id actor) me acts others =
      untouched _ (delete_tenant-IsAside db bcrypt s laws id actor).resources
  serve-other (create_resource req actor draw) me acts others =
      create-other db crypto key laws s actor me acts j old there others req draw
  serve-other (update_resource id req actor draw) me acts others =
      update-other db crypto key laws s actor me acts j old there others id req draw
  serve-other (delete_resource id actor) me acts others =
      delete-other db crypto key laws s actor me acts j old there others id
  serve-other (audit c) me acts others = untouched _ (audit-resources db s c)
