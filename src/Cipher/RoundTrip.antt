-- ===== src/Cipher/RoundTrip.antt =====
-- Encrypt followed by Decrypt (common/utils/encryption.go).
use addp.Common.{
  ℕ, ◌≤◌, String, List, [], ◌∷◌, ◌++◌, ok, ◌≡◌, ◌≢◌, refl, ap, length, take, drop, arith,
  Option-cases, inl, inr,
}
use addp.Cipher.{Crypto, IsCrypto, encrypt, decrypt}

module _ {ℓ} {A : Type ℓ} where
  take-append : (xs ys : List A) → take (length xs) (xs ++ ys) ≡ xs
  take-append [] ys = refl
  take-append (x ∷ xs) ys = ap (λ zs. x ∷ zs) (take-append xs ys)

  drop-append : (xs ys : List A) → drop (length xs) (xs ++ ys) ≡ ys
  drop-append [] ys = refl
  drop-append (x ∷ xs) ys = drop-append xs ys

  length-le-append : (xs ys : List A) → length xs ≤ length (xs ++ ys)
  length-le-append [] ys = omega arith
  length-le-append (x ∷ xs) ys = omega (arith, length-le-append xs ys)

module _ {Byte : Type 0} (c : Crypto Byte) (laws : IsCrypto c) where
  -- What Encrypt returns is decrypted to the same text under the same key.
  -- The cipher meets its laws `IsCrypto`.
  pub decrypt-encrypt :
      (draw : ℕ) (plaintext : String) (key : List Byte) (ciphertext : String)
      → encrypt c draw plaintext key ≡ ok ciphertext
      → decrypt c ciphertext key ≡ ok plaintext
  unfolding encrypt decrypt
  decrypt-encrypt draw plaintext key ciphertext h = elim (Option-cases (c.random draw)) [
    | inl dry ↦ ground arith
    | inr (nonce, drawn) ↦
        let sealed = c.seal key nonce (c.bytes plaintext) in
        ground (
          arith,
          laws.length-random draw nonce drawn,
          laws.decode-encode (nonce ++ sealed),
          laws.unseal-seal key nonce (c.bytes plaintext),
          laws.text-bytes plaintext,
          take-append nonce sealed,
          drop-append nonce sealed,
          length-le-append nonce sealed,
        )
  ]

  -- and is never empty
  pub encrypt-ne-empty :
      (draw : ℕ) (plaintext : String) (key : List Byte) (ciphertext : String)
      → encrypt c draw plaintext key ≡ ok ciphertext
      → ciphertext ≢ ""
  unfolding encrypt
  encrypt-ne-empty draw plaintext key ciphertext h e = elim (Option-cases (c.random draw)) [
    | inl dry ↦ ground arith
    | inr (nonce, drawn) ↦
        let sealed = c.seal key nonce (c.bytes plaintext) in
        ground (
          arith,
          laws.nonce_positive,
          laws.length-random draw nonce drawn,
          laws.encode-nil (nonce ++ sealed),
          ap {A = List Byte} length (laws.encode-nil (nonce ++ sealed) (ground arith)),
          length-le-append nonce sealed,
        )
  ]
