-- ===== src/System/Samples.antt =====
-- A database in memory, a bcrypt and a cipher that meet their laws, and some rows, for runs at
-- concrete inputs.
use addp.Common.{
  ◌≡◌, String, true, false, none, some, List, [], ◌∷◌, Result, ok, err, ◌==◌, str_eq, eq_iff, arith,
  refl, sym, ap, ◌∙◌, if◌then◌else◌,
}
use Prim.Native.Char.{Char}
use addp.Cipher.{Crypto, IsCrypto}
use addp.Db.Model.{Rows, empty_rows, memory, memory-IsTable}
use addp.System.Models.{
  User, Tenant, Resource, AuditLog, super_admin, tenant_admin, user, user_with_id, tenant_with_id,
  resource_with_id, log_with_id, user_clashes, tenant_clashes, no_clash,
}
use addp.System.Store.{Error, Store, Database, IsDatabase, Bcrypt, IsBcrypt}

abbrev pub State : Type 0
State = Store (Rows User) (Rows Tenant) (Rows Resource) (Rows AuditLog)

abbrev undo : {A : Type 0} → State → Result Error A × State → Result Error A × State
undo s (ok a, t) = (ok a, t)
undo s (err e, t) = (err e, s)

-- a transaction whose commit never fails
abbrev pub ram : Database (Rows User) (Rows Tenant) (Rows Resource) (Rows AuditLog)
ram = record {
  users = memory (λ u. u.id) user_with_id user_clashes;
  tenants = memory (λ t. t.id) tenant_with_id tenant_clashes;
  resources = memory (λ r. r.id) resource_with_id no_clash;
  logs = memory (λ l. l.id) log_with_id no_clash;
  transaction = λ A body s. undo s (body s);
}

undo_ok :
    {A : Type 0} (s s' : State) (a : A) (x : Result Error A × State)
    → undo s x ≡ (ok a, s')
    → x ≡ (ok a, s')
undo_ok s s' a (ok b, t) h = h
undo_ok s s' a (err e, t) h = cc

undo_err :
    {A : Type 0} (s s' : State) (e : Error) (x : Result Error A × State)
    → undo s x ≡ (err e, s')
    → s' ≡ s
undo_err s s' e (ok b, t) h = cc
undo_err s s' e (err d, t) h = cc

pub ram-IsDatabase : IsDatabase ram
ram-IsDatabase = record {
  users = memory-IsTable (λ u. u.id) user_with_id user_clashes (λ i r. refl) (λ r. refl);
  tenants = memory-IsTable (λ t. t.id) tenant_with_id tenant_clashes (λ i r. refl) (λ r. refl);
  resources = memory-IsTable (λ r. r.id) resource_with_id no_clash (λ i r. refl) (λ r. refl);
  logs = memory-IsTable (λ l. l.id) log_with_id no_clash (λ i r. refl) (λ r. refl);
  transaction_err = λ A body s s' e h. ap (undo s) h;
  transaction_ok = λ A body s s' a h. undo_ok s s' a (body s) h;
  rollback = λ A body s s' e h. undo_err s s' e (body s) h;
}

-- a stand-in for bcrypt: the hash is the password itself
abbrev pub plain_bcrypt : Bcrypt
plain_bcrypt = record {
  generate = λ salt password. ok password;
  compare = λ hash password. str_eq hash password;
}

pub plain_bcrypt-IsBcrypt : IsBcrypt plain_bcrypt
plain_bcrypt-IsBcrypt = record {
  compare-generate = λ salt password hash h. ground (arith, eq_iff hash password);
}

-- a stand-in for AES-256-GCM: the nonce is one character, and nothing is hidden
abbrev chars : String → List Char
chars String.[] = []
chars (String.◌∷◌ c s) = c ∷ chars s

abbrev joined : List Char → String
joined [] = ""
joined (c ∷ cs) = String.◌∷◌ c (joined cs)

joined-chars : (s : String) → joined (chars s) ≡ s
joined-chars String.[] = refl
joined-chars (String.◌∷◌ c s) = ap (String.◌∷◌ c) (joined-chars s)

chars-joined : (cs : List Char) → chars (joined cs) ≡ cs
chars-joined [] = refl
chars-joined (c ∷ cs) = ap (λ ds. c ∷ ds) (chars-joined cs)

abbrev pub plain_crypto : Crypto Char
plain_crypto = record {
  aes_accepts = λ key. true;
  gcm_accepts = λ key. true;
  nonce_size = 1;
  random = λ draw. some (chars "n");
  seal = λ key nonce plain. plain;
  unseal = λ key nonce sealed. some sealed;
  encode = joined;
  decode = λ s. some (chars s);
  bytes = chars;
  text = joined;
}

pub plain_crypto-IsCrypto : IsCrypto plain_crypto
plain_crypto-IsCrypto = record {
  nonce_positive = omega arith;
  length-random = λ draw nonce h. ground arith;
  unseal-seal = λ key nonce plain. refl;
  decode-encode = λ b. ap some (chars-joined b);
  encode-nil = λ b h. sym (chars-joined b) ∙ ap chars h;
  text-bytes = joined-chars;
}

-- 32 bytes
abbrev pub sample_key : List Char
sample_key = chars "addp-dev-encryption-key-2025!!!!"

abbrev pub root : User
root = record {
  id = 1;
  username = "SuperAdmin";
  email = "superadmin@addp.com";
  password_hash = "20251001#SuperAdmin";
  full_name = "root";
  is_active = true;
  user_type = super_admin;
  tenant_id = none;
  is_superuser = true;
}

abbrev pub ann : User
ann = record {
  id = 2;
  username = "ann";
  email = "ann@example.com";
  password_hash = "secret1";
  full_name = "Ann";
  is_active = true;
  user_type = tenant_admin;
  tenant_id = some 1;
  is_superuser = false;
}

abbrev pub bob : User
bob = record {
  id = 3;
  username = "bob";
  email = "bob@example.com";
  password_hash = "secret2";
  full_name = "Bob";
  is_active = true;
  user_type = user;
  tenant_id = some 2;
  is_superuser = false;
}

abbrev pub tenant_1 : Tenant
tenant_1 = record { id = 1; name = "one"; description = ""; is_active = true }

abbrev pub tenant_2 : Tenant
tenant_2 = record { id = 2; name = "two"; description = ""; is_active = true }

-- SuperAdmin, the administrator of the first tenant, and a member of the second
abbrev pub sample : State
sample = record {
  users = record {
    count = 3;
    row = λ i. if i == 1 then some root else if i == 2 then some ann else some bob;
  };
  tenants = record { count = 2; row = λ i. if i == 1 then some tenant_1 else some tenant_2 };
  resources = empty_rows;
  logs = empty_rows;
}
