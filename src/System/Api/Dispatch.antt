-- ===== src/System/Api/Dispatch.antt =====
-- The routes of system/backend/internal/api/router.go, and what their handlers do to the database:
-- login and registration, the routes behind the authentication, and the internal resources. The
-- health check and the internal /config, which read no database, are left out.
mod Silent
pub mod Failures
use addp.Common.{ℕ, String, Bool, Option, none, some, List, Result, ok, err}
use addp.Cipher.{Crypto}
use addp.System.Models.{
  ConnectionInfo, UserCreateRequest, UserUpdateRequest, TenantCreateRequest, TenantUpdateRequest,
  ResourceCreateRequest, ResourceUpdateRequest,
}
use addp.System.Store.{Store, Database, Bcrypt}
use addp.System.Auth.{Jwt, Settings}
use addp.System.Api.{Strconv, Context, Answer, success, failure}
use addp.System.Api.AuthHandler
use addp.System.Api.AuthHandler.{LoginRequest}
use addp.System.Api.UserHandler
use addp.System.Api.TenantHandler
use addp.System.Api.ResourceHandler
use addp.System.Api.LogHandler

-- a route with what its handler reads: the context, the body, and the random source's draw or, for
-- a login, the time
pub data Call : Type 0 where
  login : Option LoginRequest → ℕ → Call
  register : Option UserCreateRequest → ℕ → Call
  create_user : Context → Option UserCreateRequest → ℕ → Call
  update_user : Context → Option UserUpdateRequest → ℕ → Call
  delete_user : Context → Call
  list_users get_user me : Context → Call
  create_tenant : Context → Option TenantCreateRequest → ℕ → Call
  update_tenant : Context → Option TenantUpdateRequest → Call
  delete_tenant : Context → Call
  list_tenants get_tenant : Context → Call
  create_resource : Context → Option ResourceCreateRequest → ℕ → Call
  update_resource : Context → Option ResourceUpdateRequest → ℕ → Call
  delete_resource : Context → Call
  list_resources get_resource test_resource : Context → Call
  test_new_resource : Option ResourceCreateRequest → Call
  list_resources_internal get_resource_internal : Context → Call
  list_logs get_log : Context → Call

-- a status alone, without the body
abbrev pub status_only : {S A : Type 0} → Answer A × S → Answer Unit × S
status_only (success n a, s) = (success n tt, s)
status_only (failure n, s) = (failure n, s)

module _ {U T R L : Type 0} (db : Database U T R L) (bcrypt : Bcrypt) {Byte : Type 0}
    (crypto : Crypto Byte) (key : List Byte) (conv : Strconv)
    (connects : String → ConnectionInfo → Bool) (jwt : Jwt) (cfg : Settings) where
  unfoldable pub call : Call → Store U T R L → Answer Unit × Store U T R L
  call (login body now) s = status_only (AuthHandler.login db bcrypt jwt cfg body now s)
  call (register body salt) s = status_only (AuthHandler.register db bcrypt jwt cfg body salt s)
  call (create_user c body salt) s = status_only (UserHandler.create db bcrypt conv c body salt s)
  call (update_user c body salt) s = status_only (UserHandler.update db bcrypt conv c body salt s)
  call (delete_user c) s = status_only (UserHandler.delete db bcrypt conv c s)
  call (list_users c) s = status_only (UserHandler.list db bcrypt conv c s)
  call (get_user c) s = status_only (UserHandler.get_by_id db bcrypt conv c s)
  call (me c) s = status_only (UserHandler.me db bcrypt conv c s)
  call (create_tenant c body salt) s =
      status_only (TenantHandler.create db bcrypt conv c body salt s)
  call (update_tenant c body) s = status_only (TenantHandler.update db bcrypt conv c body s)
  call (delete_tenant c) s = status_only (TenantHandler.delete db bcrypt conv c s)
  call (list_tenants c) s = status_only (TenantHandler.list db bcrypt conv c s)
  call (get_tenant c) s = status_only (TenantHandler.get_by_id db bcrypt conv c s)
  call (create_resource c body draw) s =
      status_only (ResourceHandler.create db crypto key conv c body draw s)
  call (update_resource c body draw) s =
      status_only (ResourceHandler.update db crypto key conv c body draw s)
  call (delete_resource c) s = status_only (ResourceHandler.delete db crypto key conv c s)
  call (list_resources c) s = status_only (ResourceHandler.list db crypto key conv c s)
  call (get_resource c) s = status_only (ResourceHandler.get_by_id db crypto key conv c s)
  call (test_resource c) s =
      status_only (ResourceHandler.test_connection db crypto key conv connects c s)
  call (test_new_resource body) s =
      status_only (ResourceHandler.test_before_create db crypto key conv connects body, s)
  call (list_resources_internal c) s =
      status_only (ResourceHandler.list_internal db crypto key conv c s)
  call (get_resource_internal c) s =
      status_only (ResourceHandler.get_by_id_internal db crypto key conv c s)
  call (list_logs c) s = status_only (LogHandler.list db conv c s)
  call (get_log c) s = status_only (LogHandler.get_by_id db conv c s)
