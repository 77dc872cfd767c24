-- ===== src/Sign.antt =====
-- packages/crypto/sign.py: detached signatures of canonical JSON. The primitives are those of the
-- `cryptography` package, a parameter.
use forensa.Prelude.{
  ℕ, ◌≡◌, Bool, true, false, List, length, if◌then◌else◌, ◌==◌, ◌!=◌, nat_eq, Result, ok, err,
  ◌>>=◌, ◌>>◌, require, value_error, Error, arith,
}
use forensa.Hash.{Value, canonical_json}

-- Ed25519 over raw bytes: `private_key.sign(message)`, whether `public_key.verify(signature, message)`
-- returns, and the raw bytes of `private_key.public_key()`.
pub record Ed25519 : Type 0 where
  pub sign_bytes : List ℕ → List ℕ → List ℕ
  pub verify_bytes : List ℕ → List ℕ → List ℕ → Bool
  pub public_key : List ℕ → List ℕ

-- What the package documents of them, for private keys of 32 bytes.
pub record Ed25519Laws (e : Ed25519) : Type 0 where
  pub length-sign_bytes : (k m : List ℕ) → length k ≡ 32 → length (e.sign_bytes k m) ≡ 64
  pub length-public_key : (k : List ℕ) → length k ≡ 32 → length (e.public_key k) ≡ 32
  pub verify-sign :
      (k m : List ℕ) → length k ≡ 32 → e.verify_bytes (e.public_key k) m (e.sign_bytes k m) ≡ true

-- `load_private_key` and `load_public_key`: the bytes stand for the key that is parsed from them.
unfoldable pub load_private_key : List ℕ → Result (List ℕ)
load_private_key bs = do require (length bs == 32) value_error; ok bs

unfoldable pub load_public_key : List ℕ → Result (List ℕ)
load_public_key bs = do require (length bs == 32) value_error; ok bs

module _ (e : Ed25519) where
  unfoldable pub sign : List ℕ → Value → Result (List ℕ)
  unfolding load_private_key
  sign private payload = do
    key ← load_private_key private
    message ← canonical_json payload
    ok (e.sign_bytes key message)

  -- An exception of `canonical_json` is not caught.
  unfoldable pub verify : List ℕ → Value → List ℕ → Result Bool
  unfolding load_public_key
  verify public payload signature =
      if length signature != 64 then ok false else elim (load_public_key public) [
        | err _ ↦ ok false
        | ok key ↦ do message ← canonical_json payload; ok (e.verify_bytes key message signature)
      ]

  -- Under the laws of Ed25519, a signature that `sign` returns has 64 bytes and verifies, for
  -- the same payload, under the public key of the key that made it.
  pub verify-sign :
      (laws : Ed25519Laws e) (key : List ℕ) (payload : Value) (signature : List ℕ)
      → sign key payload ≡ ok signature
      → (length signature ≡ 64) × (verify (e.public_key key) payload signature ≡ ok true)
  unfolding sign verify load_private_key load_public_key
  verify-sign laws key payload signature h = of_message (canonical_json payload) h
    where
      of_message :
          (r : Result (List ℕ))
          → ((require (length key == 32) value_error >> ok key) >>= λ k.
              r >>= λ m. ok (e.sign_bytes k m))
            ≡ ok signature
          → (length signature ≡ 64)
            × ((if length signature != 64
                  then ok false
                  else elim (require (length (e.public_key key) == 32) value_error
                      >> ok (e.public_key key)) [
                        | err _ ↦ ok false
                        | ok k ↦ r >>= λ m. ok (e.verify_bytes k m signature)
                      ])
                ≡ ok true)
      of_message (err x) h = ground (arith, h)
      of_message (ok m) h = ground (
        arith,
        h,
        laws.length-sign_bytes key m,
        laws.length-public_key key,
        laws.verify-sign key m,
        nat_eq.beq_iff (length key) 32,
      )

  -- With a public key of 32 bytes and a signature of 64, `verify` raises on a payload that has
  -- no canonical form, with the same exception.
  pub verify-raises :
      (public : List ℕ) (payload : Value) (signature : List ℕ) (x : Error)
      → canonical_json payload ≡ err x
      → length public ≡ 32
      → length signature ≡ 64
      → verify public payload signature ≡ err x
  unfolding verify load_public_key
  verify-raises public payload signature x h k l = ground (arith, h, k, l)
