-- ===== src/System/Resources/Views.antt =====
-- What the reads of resource_service.go make of a stored resource, name by name: the masked copy
-- of GetByID and List, and the opened copy of GetForConnection.
use addp.Common.{
  String, Bool, true, false, Option, none, some, List, [], ◌∷◌, ok, err, ◌≡◌, refl, ap, ◌∙◌, arith,
  str_eq, eq_iff, if◌then◌else◌, inl, inr, Bool-cases,
}
use mathlib.Core.Option
use addp.Common.Dict.{lookup}
use addp.Cipher.{Crypto, decrypt}
use addp.System.Models.{Value, null, str, bool, number, nested, Resource}
use addp.System.Resources.{
  is_sensitive_field, text_of, mask_value, sanitize_resource, decrypt_resource,
}
use addp.System.Resources.Secrets.{listed, listed-sensitive, lookup-mask, opened, lookup-decrypt}

-- the names whose values are secrets
abbrev pub secret_names : List String
secret_names = "password" ∷ "access_key" ∷ "secret_key" ∷ "token" ∷ "api_key" ∷ []

-- What a reader sees under a name: stars for any value but null, if the name is a secret's.
abbrev pub seen : Bool → Option Value → Option Value
seen false v = v
seen true none = none
seen true (some null) = some null
seen true (some (str s)) = some (str "******")
seen true (some (bool b)) = some (str "******")
seen true (some (number n)) = some (str "******")
seen true (some (nested n)) = some (str "******")

-- The copy of a resource that shows no secret, and differs in nothing else.
pub record IsMasked (r shown : Resource) : Type 0 where
  pub values :
      (k : String)
      → lookup k shown.connection_info ≡ seen (listed k secret_names) (lookup k r.connection_info)
  pub rest : shown ≡ record r { connection_info = shown.connection_info }

listed-secret : (k : String) → is_sensitive_field k ≡ listed k secret_names
listed-secret k = ground (arith, listed-sensitive k)

map-mask_value :
    (k : String) (o : Option Value) → Option.map (mask_value k) o ≡ seen (is_sensitive_field k) o
unfolding mask_value
map-mask_value k none = elim (Bool-cases (is_sensitive_field k)) [
  | inl sensitive ↦ rw sensitive refl
  | inr other ↦ rw other refl
]
map-mask_value k (some null) = elim (Bool-cases (is_sensitive_field k)) [
  | inl sensitive ↦ rw sensitive refl
  | inr other ↦ rw other refl
]
map-mask_value k (some (str s)) = ground arith
map-mask_value k (some (bool b)) = ground arith
map-mask_value k (some (number n)) = ground arith
map-mask_value k (some (nested n)) = ground arith

pub sanitize_resource-IsMasked : (r : Resource) → IsMasked r (sanitize_resource r)
unfolding sanitize_resource
sanitize_resource-IsMasked r = record {
  values = λ k.
      lookup-mask r.connection_info k
      ∙ map-mask_value k (lookup k r.connection_info)
      ∙ ap (λ b. seen b (lookup k r.connection_info)) (listed-secret k);
  rest = refl;
}

module _ {Byte : Type 0} (crypto : Crypto Byte) (key : List Byte) where
  -- What a connection is made with under a name: the plain text of a secret, or the text as it is
  -- stored, where it is empty or does not decrypt.
  abbrev pub used : Bool → Option Value → Option Value
  used false v = v
  used true none = none
  used true (some null) = some null
  used true (some (str c)) =
      if str_eq c ""
      then some (str "")
      else elim (decrypt crypto c key) [ ok p ↦ some (str p) | err e ↦ some (str c) ]
  used true (some (bool b)) = some (bool b)
  used true (some (number n)) = some (number n)
  used true (some (nested n)) = some (nested n)

  -- The copy of a resource with its secrets in plain text, which differs in nothing else.
  pub record IsOpened (r got : Resource) : Type 0 where
    pub values :
        (k : String)
        → lookup k got.connection_info ≡ used (listed k secret_names) (lookup k r.connection_info)
    pub rest : got ≡ record r { connection_info = got.connection_info }

  opened-used :
      (b : Bool) (v : Option Value) → opened crypto key (if b then text_of v else none) v ≡ used b v
  opened-used false v = refl
  opened-used true none = refl
  opened-used true (some null) = refl
  opened-used true (some (str c)) = ground (arith, eq_iff c "")
  opened-used true (some (bool b)) = refl
  opened-used true (some (number n)) = refl
  opened-used true (some (nested n)) = refl

  pub decrypt_resource-IsOpened : (r : Resource) → IsOpened r (decrypt_resource crypto key r)
  unfolding decrypt_resource
  decrypt_resource-IsOpened r = record {
    values = λ k.
        lookup-decrypt crypto key r.connection_info k
        ∙ opened-used (is_sensitive_field k) (lookup k r.connection_info)
        ∙ ap (λ b. used b (lookup k r.connection_info)) (listed-secret k);
    rest = refl;
  }
