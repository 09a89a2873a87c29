-- ===== src/System/Resources/Secrets.antt =====
-- The sensitive fields of a connection in resource_service.go: stored, shown, and read back.
use addp.Common.{
  ℕ, ◌+◌, String, Bool, true, false, Option, none, some, List, [], ◌∷◌, ok, err, ◌≡◌, ◌≢◌, refl,
  sym, ap, ◌∙◌, str_eq, eq_iff, if◌then◌else◌, arith, inl, inr, Bool-cases, Option-cases,
}
use addp.Common.Dict.{lookup, insert, lookup-insert, lookup-map_entries}
use addp.Common.Outcome.{Result-cases}
use mathlib.Core.Option
use mathlib.Core.Path.{subst}
use addp.Cipher.{Crypto, IsCrypto, encrypt, decrypt}
use addp.Cipher.RoundTrip.{decrypt-encrypt, encrypt-ne-empty}
use addp.System.Models.{Value, null, str, bool, number, nested, ConnectionInfo}
use addp.System.Resources.{
  sensitive_fields, is_sensitive_field, text_of, copy, mask_value, mask_sensitive_fields,
  encrypt_fields, encrypt_sensitive_fields, decrypt_fields, decrypt_sensitive_fields,
}

lookup-copy : (k : String) (info : ConnectionInfo) → lookup k (copy info) ≡ lookup k info
unfolding copy
lookup-copy k info = rw lookup-map_entries (Option-map_id (lookup k info))
  where
    Option-map_id : (o : Option Value) → Option.map (λ (v : Value). v) o ≡ o
    Option-map_id none = refl
    Option-map_id (some v) = refl

-- A masked map shows six stars under each sensitive name that has a value, and the same values
-- as before under all other names.
pub lookup-mask :
    (info : ConnectionInfo) (k : String)
    → lookup k (mask_sensitive_fields info) ≡ Option.map (mask_value k) (lookup k info)
unfolding mask_sensitive_fields
lookup-mask info k = lookup-map_entries mask_value k info

-- membership in a list of names
abbrev pub listed : String → List String → Bool
listed k [] = false
listed k (f ∷ fs) = if str_eq f k then true else listed k fs

pub listed-sensitive : (k : String) → listed k sensitive_fields ≡ is_sensitive_field k
unfolding is_sensitive_field
listed-sensitive k = ground (
  arith,
  eq_iff k "password",
  eq_iff "password" k,
  eq_iff k "access_key",
  eq_iff "access_key" k,
  eq_iff k "secret_key",
  eq_iff "secret_key" k,
  eq_iff k "token",
  eq_iff "token" k,
  eq_iff k "api_key",
  eq_iff "api_key" k,
)

abbrev pub secret_in : ConnectionInfo → List String → String → Option String
secret_in info fs k = if listed k fs then text_of (lookup k info) else none

-- the text of a sensitive field, where there is one to hide
abbrev pub secret : ConnectionInfo → String → Option String
secret info k = if is_sensitive_field k then text_of (lookup k info) else none

module _ {Byte : Type 0} (crypto : Crypto Byte) (key : List Byte) where
  -- decryption of one value
  abbrev pub opened : Option String → Option Value → Option Value
  opened none was = was
  opened (some c) was = some (str (elim (decrypt crypto c key) [ ok p ↦ p | err e ↦ c ]))

  decrypt_fields_lem :
      (info : ConnectionInfo) (fs : List String) (acc : ConnectionInfo) (k : String)
      → lookup k (decrypt_fields crypto key info fs acc)
        ≡ opened (secret_in info fs k) (lookup k acc)
  unfolding decrypt_fields
  decrypt_fields_lem info [] acc k = refl
  decrypt_fields_lem info (f ∷ fs) acc k = elim (Option-cases (text_of (lookup f info))) [
    | inl skip ↦ ground (arith, eq_iff f k, decrypt_fields_lem info fs acc k)
    | inr (p, there) ↦
        let v = str (elim (decrypt crypto p key) [ ok q ↦ q | err e ↦ p ]) in
        ground (
          arith,
          eq_iff f k,
          lookup-insert f k v acc,
          decrypt_fields_lem info fs (insert f v acc) k,
        )
  ]

  pub lookup-decrypt :
      (info : ConnectionInfo) (k : String)
      → lookup k (decrypt_sensitive_fields crypto key info) ≡ opened (secret info k) (lookup k info)
  unfolding decrypt_sensitive_fields
  lookup-decrypt info k =
      decrypt_fields_lem info sensitive_fields (copy info) k
      ∙ ap (opened (secret_in info sensitive_fields k)) (lookup-copy k info)
      ∙ ap (λ b. opened (if b then text_of (lookup k info) else none) (lookup k info))
          (listed-sensitive k)

module _ {Byte : Type 0} (crypto : Crypto Byte) (key : List Byte) (laws : IsCrypto crypto) where
  -- one round of the loop, for a name of the list that holds no text, or whose text was encrypted
  secret_in-skip :
      (info : ConnectionInfo) (f : String) (fs : List String) (k : String)
      → text_of (lookup f info) ≡ none
      → secret_in info (f ∷ fs) k ≡ secret_in info fs k
  secret_in-skip info f fs k skip = ground (arith, eq_iff f k)

  -- What the loop leaves under a name, given the value there before it: an encryption of the text,
  -- if the name is on the list and holds a text that is not empty.
  abbrev pub Encrypted : Option String → Option Value → Option Value → Type 0
  Encrypted none was now = now ≡ was
  Encrypted (some p) was now =
      (c : String) × (now ≡ some (str c)) × (decrypt crypto c key ≡ ok p) × (c ≢ "")

  Encrypted-step :
      (info acc : ConnectionInfo) (f : String) (fs : List String) (k p c : String)
      (now : Option Value)
      → text_of (lookup f info) ≡ some p
      → decrypt crypto c key ≡ ok p
      → c ≢ ""
      → Encrypted (secret_in info fs k) (lookup k (insert f (str c) acc)) now
      → Encrypted (secret_in info (f ∷ fs) k) (lookup k acc) now
  Encrypted-step info acc f fs k p c now there opens full h = elim (Bool-cases (str_eq f k)) [
    | inl same ↦
        let here : text_of (lookup k info) ≡ some p =
          ap (λ n. text_of (lookup n info)) (sym ((eq_iff f k).0 same)) ∙ there in
        elim (Bool-cases (listed k fs)) [
          | inl again ↦
              let e : secret_in info fs k ≡ some p = rw again here in
              rw (same, here) (subst (λ o. Encrypted o (lookup k (insert f (str c) acc)) now) e h)
          | inr last ↦
              let e : secret_in info fs k ≡ none = rw last in
              let unchanged : now ≡ lookup k (insert f (str c) acc) =
                subst (λ o. Encrypted o (lookup k (insert f (str c) acc)) now) e h in
              rw (same, here) (c, unchanged ∙ rw (lookup-insert, same), opens, full)
        ]
    | inr other ↦
        let untouched : lookup k (insert f (str c) acc) ≡ lookup k acc =
          rw (lookup-insert, other) in
        rw other (subst (λ o. Encrypted (secret_in info fs k) o now) untouched h)
  ]

  encrypt_fields_lem :
      (info : ConnectionInfo) (fs : List String) (draw : ℕ) (acc out : ConnectionInfo)
      → encrypt_fields crypto key info draw fs acc ≡ ok out
      → (k : String) → Encrypted (secret_in info fs k) (lookup k acc) (lookup k out)
  unfolding encrypt_fields
  encrypt_fields_lem info [] draw acc out h k = ground arith
  encrypt_fields_lem info (f ∷ fs) draw acc out h k =
      elim (Option-cases (text_of (lookup f info))) [
        | inl skip ↦
            subst (λ o. Encrypted o (lookup k acc) (lookup k out))
              (sym (secret_in-skip info f fs k skip))
              (encrypt_fields_lem info fs (draw + 1) acc out (ground arith) k)
        | inr (p, there) ↦ elim (Result-cases (encrypt crypto draw p key)) [
          | inl (e, bad) ↦ absurd (ground arith)
          | inr (c, made) ↦
              Encrypted-step info acc f fs k p c (lookup k out) there
                (decrypt-encrypt crypto laws draw p key c made)
                (encrypt-ne-empty crypto laws draw p key c made)
                (encrypt_fields_lem info fs (draw + 1) (insert f (str c) acc) out (ground arith) k)
        ]
      ]

  -- Under each sensitive name that holds a text that is not empty, the stored map holds a
  -- ciphertext that decrypts to it; under every other name it holds what was given.
  -- The cipher meets its laws `IsCrypto`.
  pub encrypt_sensitive_fields-Encrypted :
      (info out : ConnectionInfo) (draw : ℕ)
      → encrypt_sensitive_fields crypto key info draw ≡ ok out
      → (k : String) → Encrypted (secret info k) (lookup k info) (lookup k out)
  unfolding encrypt_sensitive_fields
  encrypt_sensitive_fields-Encrypted info out draw h k =
      subst
        (λ b.
          Encrypted (if b then text_of (lookup k info) else none) (lookup k info) (lookup k out))
        (listed-sensitive k)
        (subst (λ o. Encrypted (secret_in info sensitive_fields k) o (lookup k out))
          (lookup-copy k info) (encrypt_fields_lem info sensitive_fields draw (copy info) out h k))

  text_of_value : (v : Option Value) (p : String) → text_of v ≡ some p → v ≡ some (str p)
  text_of_value (some (str q)) p h = ground (arith, eq_iff q "")
  text_of_value none p h = cc
  text_of_value (some null) p h = cc
  text_of_value (some (bool b)) p h = cc
  text_of_value (some (number n)) p h = cc
  text_of_value (some (nested n)) p h = cc

  opened-Encrypted-some :
      (p : String) (now : Option Value)
      → Encrypted (some p) (some (str p)) now
      → opened crypto key (text_of now) now ≡ some (str p)
  opened-Encrypted-some p now (c, is, opens, full) =
      rw is (ground (arith, eq_iff c "", opens, full))

  opened-Encrypted :
      (b : Bool) (was now : Option Value)
      → Encrypted (if b then text_of was else none) was now
      → opened crypto key (if b then text_of now else none) now ≡ was
  opened-Encrypted false was now h = h
  opened-Encrypted true was now h = elim (Option-cases (text_of was)) [
    | inl no_text ↦
        let same : now ≡ was = subst (λ o. Encrypted o was now) no_text h in rw (same, no_text)
    | inr (p, there) ↦
        let value = text_of_value was p there in
        rw value (
          opened-Encrypted-some p now (
            subst (λ w. Encrypted (some p) w now) value (subst (λ o. Encrypted o was now) there h)))
  ]

  -- A map that was encrypted without an error is decrypted to a map with the same value under
  -- every name.
  -- The cipher meets its laws `IsCrypto`.
  pub decrypt-encrypt_fields :
      (info out : ConnectionInfo) (draw : ℕ)
      → encrypt_sensitive_fields crypto key info draw ≡ ok out
      → (k : String) → lookup k (decrypt_sensitive_fields crypto key out) ≡ lookup k info
  decrypt-encrypt_fields info out draw h k =
      lookup-decrypt crypto key out k
      ∙ opened-Encrypted (is_sensitive_field k) (lookup k info) (lookup k out)
          (encrypt_sensitive_fields-Encrypted info out draw h k)
