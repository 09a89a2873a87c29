-- ===== src/System/Api/Dispatch/Silent.antt =====
-- Helpers on a handler whose answer is an error, and the read methods of the services.
use addp.Common.{ℕ, String, Option, none, some, err, Exec, ◌≡◌, arith, inl, inr}
use addp.Common.Outcome.{Exec-cases}
use addp.Common.Int.{ℤ}
use addp.Common.{List}
use addp.Cipher.{Crypto}
use addp.System.Store.{Store, Database, Bcrypt}
use addp.System.Users
use addp.System.Tenants
use addp.System.Resources
use addp.System.Logs
use addp.System.Api.{Strconv, Answer, failure, reply}
use addp.System.Api.Dispatch.{status_only}

-- a service method that writes nothing where it returns an error
abbrev pub Keeps : {S E A : Type 0} → Exec S E A → S → Type 0
Keeps {S} {E} {A} f s = (e : E) (s' : S) → f s ≡ (err e, s') → s' ≡ s

-- a handler's result at a state that it has left alone if it is an error
abbrev pub Silent : {S A : Type 0} → Answer A × S → S → Type 0
Silent {S} r s = (n : ℕ) (s' : S) → status_only r ≡ (failure n, s') → s' ≡ s

pub reply-Silent :
    {S E A : Type 0} (f : Exec S E A) (status : ℕ) (status_of : E → ℕ) (s : S)
    → Keeps f s
    → Silent (reply status status_of (f s)) s
reply-Silent f status status_of s keeps n s' h = elim (Exec-cases (f s)) [
  | inl (e, t, bad) ↦ ground (arith, keeps e t bad)
  | inr (a, t, good) ↦ absurd (ground arith)
]

pub failure-Silent :
    {S : Type 0} (A : Type 0) (m : ℕ) (s : S) → Silent {S = S} {A = A} (failure m, s) s
failure-Silent A m s n s' h = ground arith

pub option-Silent :
    {S A B : Type 0} (o : Option B) (m : ℕ) (s : S) (g : B → Answer A × S)
    → ((b : B) → Silent (g b) s)
    → Silent {S = S} {A = A} (elim o [ none ↦ (failure m, s) | some b ↦ g b ]) s
option-Silent {S} {A} none m s g h = failure-Silent A m s
option-Silent (some b) m s g h = h b

module _ {U T R L : Type 0} (db : Database U T R L) (bcrypt : Bcrypt) {Byte : Type 0}
    (crypto : Crypto Byte) (key : List Byte) (conv : Strconv) where
  pub users_list :
      (page size : ℤ) (who : ℕ) (s : Store U T R L) → Keeps (Users.list db bcrypt page size who) s
  unfolding Users.list Users.list_for
  users_list page size who s e s' h = ground arith

  pub tenants_list :
      (page size : ℤ) (who : ℕ) (s : Store U T R L) → Keeps (Tenants.list db bcrypt page size who) s
  unfolding Tenants.list
  tenants_list page size who s e s' h = ground arith

  pub tenants_get : (id who : ℕ) (s : Store U T R L) → Keeps (Tenants.get_by_id db bcrypt id who) s
  unfolding Tenants.get_by_id
  tenants_get id who s e s' h = ground arith

  pub resources_list :
      (page size : ℤ) (kind : String) (who : ℕ) (s : Store U T R L)
      → Keeps (Resources.list db crypto key page size kind who) s
  unfolding Resources.list Resources.rows_for
  resources_list page size kind who s e s' h = ground arith

  pub resources_get :
      (id who : ℕ) (s : Store U T R L) → Keeps (Resources.get_by_id db crypto key id who) s
  unfolding Resources.get_by_id Resources.load
  resources_get id who s e s' h = ground arith

  pub resources_connect :
      (id who : ℕ) (s : Store U T R L) → Keeps (Resources.get_for_connection db crypto key id who) s
  unfolding Resources.get_for_connection Resources.load
  resources_connect id who s e s' h = ground arith

  pub resources_list_internal :
      (kind : String) (t : ℕ) (s : Store U T R L)
      → Keeps (Resources.list_internal db crypto key kind t) s
  unfolding Resources.list_internal
  resources_list_internal kind t s e s' h = ground arith

  pub resources_get_internal :
      (id : ℕ) (s : Store U T R L) → Keeps (Resources.get_by_id_internal db crypto key id) s
  unfolding Resources.get_by_id_internal
  resources_get_internal id s e s' h = ground arith

  pub logs_list :
      (page size : ℤ) (of : Option ℕ) (who : ℕ) (s : Store U T R L)
      → Keeps (Logs.list db page size of who) s
  unfolding Logs.list Logs.logs_for
  logs_list page size of who s e s' h = ground arith

  pub logs_get : (id : ℕ) (s : Store U T R L) → Keeps (Logs.get_by_id db id) s
  unfolding Logs.get_by_id
  logs_get id s e s' h = ground arith
