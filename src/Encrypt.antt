-- ===== src/Encrypt.antt =====
-- packages/crypto/encrypt.py: an envelope for the holder of a key. X25519, HKDF, ChaCha20-Poly1305 and
-- base64 are parameters; keys are their bytes, of which the package refuses none of 32. The ephemeral
-- key and the nonce are drawn.
use forensa.Prelude.{
  ℕ, String, ◌≡◌, ◌∙◌, refl, Option, none, some, List, length, ◌==◌, nat_eq, string_eq, Result, ok,
  err, Error, ◌>>=◌, ◌>>◌, require, value_error, encrypt_error, decrypt_error,
}

-- `exchange` raises a ValueError where the shared secret is zero.
pub record Primitives : Type 0 where
  pub public_key : List ℕ → List ℕ
  pub exchange : List ℕ → List ℕ → Option (List ℕ)
  pub hkdf : List ℕ → List ℕ
  pub seal : List ℕ → List ℕ → List ℕ → List ℕ
  pub unseal : List ℕ → List ℕ → List ℕ → Option (List ℕ)
  pub b64encode : List ℕ → String
  pub b64decode : String → Option (List ℕ)

-- What the packages document of them.
pub record PrimitiveLaws (p : Primitives) : Type 0 where
  pub length-public_key : (k : List ℕ) → length k ≡ 32 → length (p.public_key k) ≡ 32
  pub exchange_agrees :
      (a b : List ℕ)
      → length a ≡ 32
      → length b ≡ 32
      → p.exchange a (p.public_key b) ≡ p.exchange b (p.public_key a)
  pub unseal-seal : (k n m : List ℕ) → p.unseal k n (p.seal k n m) ≡ some m
  pub b64decode-b64encode : (bs : List ℕ) → p.b64decode (p.b64encode bs) ≡ some bs

pub record CipherEnvelope : Type 0 where
  pub scheme : String
  pub ephemeral_public_key_b64 : String
  pub nonce_b64 : String
  pub ciphertext_b64 : String

abbrev scheme_v1 : String
scheme_v1 = "x25519-chacha20poly1305-v1"

-- What a call raises where it has no answer.
unfoldable or_raise : Error → Option (List ℕ) → Result (List ℕ)
or_raise failure none = err failure
or_raise failure (some bs) = ok bs

module _ (p : Primitives) where
  unfoldable pub encrypt_for_recipient : List ℕ → List ℕ → List ℕ → List ℕ → Result CipherEnvelope
  unfolding or_raise
  encrypt_for_recipient ephemeral nonce plaintext recipient_public_key = do
    require (length recipient_public_key == 32) encrypt_error
    shared ← or_raise value_error (p.exchange ephemeral recipient_public_key)
    ok (record {
      scheme = scheme_v1;
      ephemeral_public_key_b64 = p.b64encode (p.public_key ephemeral);
      nonce_b64 = p.b64encode nonce;
      ciphertext_b64 = p.b64encode (p.seal (p.hkdf shared) nonce plaintext);
    })

  unfoldable pub decrypt_for_recipient : CipherEnvelope → List ℕ → Result (List ℕ)
  unfolding or_raise
  decrypt_for_recipient envelope recipient_private_key = do
    require (envelope.scheme == scheme_v1) decrypt_error
    require (length recipient_private_key == 32) decrypt_error
    ephemeral ← or_raise decrypt_error (p.b64decode envelope.ephemeral_public_key_b64)
    nonce ← or_raise decrypt_error (p.b64decode envelope.nonce_b64)
    ciphertext ← or_raise decrypt_error (p.b64decode envelope.ciphertext_b64)
    require (length ephemeral == 32) decrypt_error
    require (length nonce == 12) decrypt_error
    shared ← or_raise value_error (p.exchange recipient_private_key ephemeral)
    or_raise decrypt_error (p.unseal (p.hkdf shared) nonce ciphertext)

  -- Under the laws of X25519, ChaCha20-Poly1305 and base64, with private keys of 32 bytes that
  -- exchange a secret, and a nonce of 12, a plaintext is encrypted for the public key of one,
  -- and the envelope is decrypted with that private key to the plaintext.
  pub encrypt_for_recipient-decrypt :
      (laws : PrimitiveLaws p) (private ephemeral nonce plaintext shared : List ℕ)
      → length private ≡ 32
      → length ephemeral ≡ 32
      → length nonce ≡ 12
      → p.exchange ephemeral (p.public_key private) ≡ some shared
      → (envelope : CipherEnvelope) × (encrypt_for_recipient ephemeral nonce plaintext
            (p.public_key private)
          ≡ ok envelope)
        × (decrypt_for_recipient envelope private ≡ ok plaintext)
  unfolding encrypt_for_recipient decrypt_for_recipient or_raise
  encrypt_for_recipient-decrypt laws private ephemeral nonce plaintext shared long drawn twelve
        met =
      (
        record {
          scheme = scheme_v1;
          ephemeral_public_key_b64 = p.b64encode (p.public_key ephemeral);
          nonce_b64 = p.b64encode nonce;
          ciphertext_b64 = p.b64encode (p.seal (p.hkdf shared) nonce plaintext);
        },
        rw (laws.length-public_key private long, met) refl,
        rw
            (
              long,
              laws.b64decode-b64encode (p.public_key ephemeral),
              laws.b64decode-b64encode nonce,
              laws.b64decode-b64encode (p.seal (p.hkdf shared) nonce plaintext),
              laws.length-public_key ephemeral drawn,
              twelve,
              laws.exchange_agrees private ephemeral long drawn ∙ met,
              laws.unseal-seal (p.hkdf shared) nonce plaintext,
            )
            refl,
      )
