-- ===== src/Cipher.antt =====
-- common/utils/encryption.go: AES-256-GCM over base64. The primitives of Go's crypto libraries are
-- a parameter, and so is the type of a byte.
pub mod RoundTrip
use addp.Common.{
  ℕ, String, Bool, true, false, not, Option, none, some, List, ◌++◌, Result, ok, err, ◌≡◌, ◌<◌,
  ◌==◌, ltb, length, take, drop, if◌then◌else◌, arith, [], ◌∷◌, zero, suc, refl, ap,
}

-- the errors of Encrypt and Decrypt
pub data CipherError : Type 0 where
  bad_key_length new_cipher_failed new_gcm_failed no_randomness : CipherError
  not_base64 too_short not_authentic : CipherError

pub record Crypto (Byte : Type 0) : Type 0 where
  -- aes.NewCipher and cipher.NewGCM accept the key
  pub aes_accepts : List Byte → Bool
  pub gcm_accepts : List Byte → Bool
  -- gcm.NonceSize()
  pub nonce_size : ℕ
  -- io.ReadFull(rand.Reader, nonce), at each draw of the random source
  pub random : ℕ → Option (List Byte)
  -- gcm.Seal and gcm.Open, without additional data
  pub seal : List Byte → List Byte → List Byte → List Byte
  pub unseal : List Byte → List Byte → List Byte → Option (List Byte)
  -- base64.StdEncoding
  pub encode : List Byte → String
  pub decode : String → Option (List Byte)
  -- []byte(s) and string(b)
  pub bytes : String → List Byte
  pub text : List Byte → String

pub record IsCrypto {Byte : Type 0} (c : Crypto Byte) : Type 0 where
  pub nonce_positive : 0 < c.nonce_size
  pub length-random :
      (draw : ℕ) (nonce : List Byte) → c.random draw ≡ some nonce → length nonce ≡ c.nonce_size
  pub unseal-seal :
      (key nonce plain : List Byte) → c.unseal key nonce (c.seal key nonce plain) ≡ some plain
  pub decode-encode : (b : List Byte) → c.decode (c.encode b) ≡ some b
  pub encode-nil : (b : List Byte) → c.encode b ≡ "" → b ≡ []
  pub text-bytes : (s : String) → c.text (c.bytes s) ≡ s

module _ {Byte : Type 0} (c : Crypto Byte) where
  unfoldable pub encrypt : ℕ → String → List Byte → Result CipherError String
  encrypt draw plaintext key =
      if not (length key == 32)
      then err bad_key_length
      else if not (c.aes_accepts key)
      then err new_cipher_failed
      else if not (c.gcm_accepts key)
      then err new_gcm_failed
      else elim (c.random draw) [
        | none ↦ err no_randomness
        | some nonce ↦ ok (c.encode (nonce ++ c.seal key nonce (c.bytes plaintext)))
      ]

  -- the part of Decrypt after the base64 decoding
  open_data : List Byte → List Byte → Result CipherError String
  open_data key b =
      if not (c.aes_accepts key)
      then err new_cipher_failed
      else if not (c.gcm_accepts key)
      then err new_gcm_failed
      else if ltb (length b) c.nonce_size
      then err too_short
      else elim (c.unseal key (take c.nonce_size b) (drop c.nonce_size b)) [
        | none ↦ err not_authentic
        | some plain ↦ ok (c.text plain)
      ]

  unfoldable pub decrypt : String → List Byte → Result CipherError String
  unfolding open_data
  decrypt ciphertext key =
      if not (length key == 32)
      then err bad_key_length
      else elim (c.decode ciphertext) [ none ↦ err not_base64 | some b ↦ open_data key b ]
