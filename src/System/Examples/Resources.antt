-- ===== src/System/Examples/Resources.antt =====
-- The theorems on resources, at a connection that ann creates.
use addp.Common.{String, true, some, [], ◌∷◌, ok, err, All, ◌≡◌, refl, arith, if◌then◌else◌}
use mathlib.Core.Option
use addp.Common.Int.{pos, wrap_64, ◌*ℤ◌, ◌-ℤ◌}
use addp.System.Users.{page_offset}
use addp.Common.Dict.{lookup, insert}
use addp.Cipher.{encrypt, decrypt}
use addp.Cipher.RoundTrip.{decrypt-encrypt}
use addp.Db.Model.{memory}
use addp.System.Models.{Resource, ResourceCreateRequest, ConnectionInfo, str}
use addp.System.Store.{resource_forbidden}
use addp.System.ResourceRepository
use addp.System.Resources.{
  ensure_resource_management_permission, create, get_by_id, get_for_connection, list, rows_for,
  sanitize_resource, mask_value, mask_sensitive_fields, encrypt_sensitive_fields,
  decrypt_sensitive_fields,
}
use addp.System.Resources.Access.{
  may_reach, may_manage, IsShown, get_resource_lem, get_for_connection_lem, list_resources_sound,
  get_for_connection-create,
}
use addp.System.Resources.Secrets.{
  Encrypted, secret, lookup-mask, encrypt_sensitive_fields-Encrypted, decrypt-encrypt_fields,
}
use addp.System.Resources.Views.{IsMasked, IsOpened}
use addp.System.Samples.{
  ram, ram-IsDatabase, plain_crypto, plain_crypto-IsCrypto, sample_key, State, sample, ann, bob,
}

abbrev info : ConnectionInfo
info = ("host", str "db") ∷ ("password", str "pw") ∷ []

abbrev req : ResourceCreateRequest
req = record { name = "db"; resource_type = "postgresql"; connection_info = info; description = "" }

-- what the database holds of it: the nonce in front of the text
abbrev hidden : ConnectionInfo
hidden = ("password", str "npw") ∷ ("host", str "db") ∷ []

abbrev row : Resource
row = record {
  id = 1;
  name = "db";
  resource_type = "postgresql";
  connection_info = hidden;
  description = "";
  created_by = some 2;
  tenant_id = some 1;
  is_active = true;
}

abbrev shown : Resource
shown = record row { connection_info = ("host", str "db") ∷ ("password", str "******") ∷ [] }

abbrev stored : State
stored = (create ram plain_crypto sample_key req 2 5 sample).1

decrypt-encrypt_example : decrypt plain_crypto "npw" sample_key ≡ ok "pw"
unfolding encrypt
decrypt-encrypt_example =
    decrypt-encrypt plain_crypto plain_crypto-IsCrypto 5 "pw" sample_key "npw" refl

lookup-mask_example :
    lookup "password" (mask_sensitive_fields info)
    ≡ Option.map (mask_value "password") (lookup "password" info)
lookup-mask_example = lookup-mask info "password"

encrypted : encrypt_sensitive_fields plain_crypto sample_key info 5 ≡ ok hidden
unfolding encrypt_sensitive_fields insert
encrypted = refl

encrypt_sensitive_fields-Encrypted_example :
    Encrypted plain_crypto sample_key plain_crypto-IsCrypto
      (secret info "password")
      (lookup "password" info)
      (lookup "password" hidden)
encrypt_sensitive_fields-Encrypted_example =
    encrypt_sensitive_fields-Encrypted plain_crypto sample_key plain_crypto-IsCrypto info hidden 5
      encrypted "password"

decrypt-encrypt_fields_example :
    lookup "password" (decrypt_sensitive_fields plain_crypto sample_key hidden)
    ≡ lookup "password" info
decrypt-encrypt_fields_example =
    decrypt-encrypt_fields plain_crypto sample_key plain_crypto-IsCrypto info hidden 5 encrypted
      "password"

created : create ram plain_crypto sample_key req 2 5 sample ≡ (ok shown, stored)
unfolding create memory ensure_resource_management_permission encrypt_sensitive_fields
    ResourceRepository.create insert sanitize_resource
created = refl

there : ram.resources.first stored.resources 1 ≡ ok row
unfolding create memory ensure_resource_management_permission encrypt_sensitive_fields
    ResourceRepository.create insert
there = refl

asking : ram.users.first stored.users 3 ≡ ok bob
unfolding create memory ensure_resource_management_permission encrypt_sensitive_fields
    ResourceRepository.create insert
asking = refl

admin : ram.users.first stored.users 2 ≡ ok ann
unfolding create memory ensure_resource_management_permission encrypt_sensitive_fields
    ResourceRepository.create insert
admin = refl

admin_before : ram.users.first sample.users 2 ≡ ok ann
unfolding memory
admin_before = refl

get_resource_lem_example :
    (view : Resource) × IsMasked row view
    × (get_by_id ram plain_crypto sample_key 1 3 stored
        ≡ ((if may_reach bob row then ok view else err resource_forbidden), stored))
get_resource_lem_example =
    get_resource_lem ram plain_crypto sample_key stored 1 3 bob row asking there

get_for_connection_lem_example :
    (got : Resource) × IsOpened plain_crypto sample_key row got
    × (get_for_connection ram plain_crypto sample_key 1 2 stored
        ≡ ((if may_manage ann row then ok got else err resource_forbidden), stored))
get_for_connection_lem_example =
    get_for_connection_lem ram plain_crypto sample_key stored 1 2 ann row admin there

listed : list ram plain_crypto sample_key (pos 1) (pos 10) "" 2 stored ≡ (ok (shown ∷ []), stored)
unfolding create memory list rows_for ensure_resource_management_permission encrypt_sensitive_fields
    ResourceRepository.create insert sanitize_resource page_offset wrap_64 ◌*ℤ◌ ◌-ℤ◌
listed = refl

list_resources_sound_example :
    All (IsShown ram plain_crypto sample_key stored ann) (shown ∷ []) × (stored ≡ stored)
list_resources_sound_example =
    list_resources_sound ram plain_crypto sample_key stored ann ram-IsDatabase (pos 1) (pos 10) "" 2
      (shown ∷ []) stored admin listed

get_for_connection-create_example :
    (got : Resource) × (get_for_connection ram plain_crypto sample_key shown.id 2 stored
      ≡ (ok got, stored))
    × ((k : String) → lookup k got.connection_info ≡ lookup k req.connection_info)
    × (got.tenant_id ≡ ann.tenant_id)
get_for_connection-create_example =
    get_for_connection-create ram plain_crypto sample_key ram-IsDatabase plain_crypto-IsCrypto req 2
      5 ann shown row sample stored created admin_before admin (λ e. ground arith) there
