-- ===== src/Timestamps.antt =====
-- packages/crypto/tsa.py: the client in process, which signs with its own key, and the verifier of its
-- responses. `iso` is `isoformat()` in UTC, and the identifier of a client is ASCII.
pub mod Anchored
use Prim.Native.String.{◌++◌}
use forensa.Prelude.{
  value_error, leb, suc, ◌≤◌, arith, ℕ, String, ◌≡◌, ◌∙◌, refl, Bool, true, false, List, [], ◌∷◌,
  length, if◌then◌else◌, ◌==◌, ◌!=◌, nat_eq, nat_beq_iff, Result, ok, err, ◌>>=◌, ◌>>◌, require,
  timestamp_client_error, hex_text, arith,
}
use forensa.Json.{Json, str, obj, end, member, dumps}
use forensa.Hash.{b64encode, bytes, canonical_json, normalise}
use forensa.Sign.{Ed25519, Ed25519Laws, load_private_key, sign, verify, verify-sign}
use forensa.Policy.{is_sha256_hex}
use forensa.Anchors.{TimestampResponse}

-- The key that was drawn when the client was made.
pub record MockTimestampClient : Type 0 where
  pub identifier : String
  pub private_key : List ℕ

abbrev pub text_length : String → ℕ
text_length String.[] = 0
text_length (String.◌∷◌ c s) = suc (text_length s)

-- `TimestampResponse(...)`: the validators of the identifier and of the root.
unfoldable pub make_response : TimestampResponse → Result TimestampResponse
make_response r = do
  require (leb 1 (text_length r.tsa_identifier)) value_error
  require (leb (text_length r.tsa_identifier) 256) value_error
  require (is_sha256_hex r.hashed_root) value_error
  ok r

-- `bytes.hex()`
unfoldable pub hex : List ℕ → String
hex [] = ""
hex (b ∷ bs) = hex_text 2 b (hex bs)

unfoldable pub public_key : Ed25519 → MockTimestampClient → List ℕ
public_key e client = e.public_key client.private_key

module _ (iso : ℕ → String) where
  unfoldable pub canonical_sign_payload : String → ℕ → List ℕ
  canonical_sign_payload hashed_root timestamped_at = dumps (
      obj (
        member "hashed_root" (str hashed_root)
          (member "timestamped_at" (str (iso timestamped_at)) end)))

  tsr_of : String → String → ℕ → List ℕ → List ℕ
  unfolding hex
  tsr_of tsa hashed_root now signature = dumps (
      obj (
        member "tsa" (str tsa) (
          member "hashed_root" (str hashed_root) (
            member "timestamped_at" (str (iso now))
              (member "signature_hex" (str (hex signature)) end)))))

  module _ (e : Ed25519) where
    -- At the time that the clock shows.
    unfoldable pub request_timestamp : MockTimestampClient → ℕ → String → Result TimestampResponse
    unfolding tsr_of canonical_sign_payload make_response
    request_timestamp client now hashed_root = do
      require (is_sha256_hex hashed_root) timestamp_client_error
      signature ← sign e client.private_key (bytes (canonical_sign_payload hashed_root now))
      make_response (record {
        tsa_identifier = client.identifier;
        tsr_bytes = tsr_of client.identifier hashed_root now signature;
        timestamped_at = now;
        hashed_root = hashed_root;
        signature = signature;
      })

    unfoldable pub verify_timestamp_response : TimestampResponse → List ℕ → Result Bool
    unfolding canonical_sign_payload
    verify_timestamp_response r tsa_public_key =
        if length tsa_public_key != 32
        then ok false
        else verify e tsa_public_key (bytes (canonical_sign_payload r.hashed_root r.timestamped_at))
            r.signature

    sign-returns :
        (key message : List ℕ)
        → length key ≡ 32
        → (signature : List ℕ) × (sign e key (bytes message) ≡ ok signature)
    unfolding sign load_private_key canonical_json normalise
    sign-returns key message long = (
      e.sign_bytes key (dumps (str ("base64:" ++ b64encode message))),
      rw ((nat_beq_iff (length key) 32).1 long) refl,
    )

    pub request_timestamp-verifies :
        (laws : Ed25519Laws e) (client : MockTimestampClient) (now : ℕ) (hashed_root : String)
        → length client.private_key ≡ 32
        → 1 ≤ text_length client.identifier
        → text_length client.identifier ≤ 256
        → is_sha256_hex hashed_root ≡ true
        → (r : TimestampResponse) × (request_timestamp client now hashed_root ≡ ok r)
          × (r.tsa_identifier ≡ client.identifier)
          × (r.hashed_root ≡ hashed_root)
          × (r.timestamped_at ≡ now)
          × (length r.signature ≡ 64)
          × (verify_timestamp_response r (public_key e client) ≡ ok true)
    unfolding request_timestamp make_response verify_timestamp_response public_key
    request_timestamp-verifies laws client now hashed_root long named short is_hex =
        let message = canonical_sign_payload hashed_root now in
        let (signature, signed) = sign-returns client.private_key message long in
        let (sixty_four, verified) =
          verify-sign e laws client.private_key (bytes message) signature signed in
        (
          record {
            tsa_identifier = client.identifier;
            tsr_bytes = tsr_of client.identifier hashed_root now signature;
            timestamped_at = now;
            hashed_root = hashed_root;
            signature = signature;
          },
          rw (is_hex, signed) (ground (arith, is_hex, named, short)),
          refl,
          refl,
          refl,
          sixty_four,
          rw (laws.length-public_key client.private_key long) verified,
        )
