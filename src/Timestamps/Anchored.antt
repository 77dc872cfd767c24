-- ===== src/Timestamps/Anchored.antt =====
-- packages/crypto/tsa.py with packages/ledger/anchor.py: what the row of a day says of its time stamp.
use forensa.Prelude.{
  ◌≤◌, ℕ, String, ◌≡◌, refl, true, Option, none, some, List, length, Result, ok, err,
}
use forensa.Sign.{Ed25519, Ed25519Laws}
use forensa.Policy.{is_sha256_hex}
use forensa.Ledger.{ReceiptRow}
use forensa.Anchors
use forensa.Anchors.{TimestampClient, TimestampResponse, AnchorCall, AnchorRow, anchored}
use forensa.Timestamps
use forensa.Timestamps.{MockTimestampClient, text_length, request_timestamp-verifies}

module _ (iso : ℕ → String) (e : Ed25519) where
  answer_of : Result TimestampResponse → Option TimestampResponse
  answer_of (ok r) = some r
  answer_of (err _) = none

  -- With a key of 32 bytes and an identifier of 1 to 256 characters, a `TimestampClientError` is the one
  -- exception of the client in process.
  unfoldable pub client_of : MockTimestampClient → ℕ → TimestampClient
  unfolding answer_of
  client_of client now = record {
    request_timestamp = λ root. answer_of (Timestamps.request_timestamp iso e client now root);
    identifier = some client.identifier;
    endpoint_url = none;
  }

  -- The columns of an anchored row are a time stamp of its root that verifies under a key.
  pub record IsStamped (row : AnchorRow) (root : String) (now : ℕ) (tsa_public_key : List ℕ)
      : Type 0 where
    pub response : TimestampResponse
    pub status_is : row.status ≡ anchored
    pub root_is : row.root_hash ≡ some root
    pub of_root : response.hashed_root ≡ root
    pub tsr_is : row.tsr_bytes ≡ some response.tsr_bytes
    pub signature_is : row.tsa_signature ≡ some response.signature
    pub at_is : row.timestamped_at ≡ some response.timestamped_at
    pub now_is : response.timestamped_at ≡ now
    pub verifies : Timestamps.verify_timestamp_response iso e response tsa_public_key ≡ ok true

  -- Under the laws of Ed25519, where the client in process has a key of 32 bytes and an
  -- identifier of 1 to 256 characters, and the latest receipt of a day a hash of 64 hex digits,
  -- the row that is written for the day with that client is anchored with that hash as its
  -- root, and its columns are those of a response to the root, of the time that the clock
  -- shows, that `verify_timestamp_response` accepts under the public key of the client.
  pub row_for_day-IsStamped :
      (laws : Ed25519Laws e) (client : MockTimestampClient) (now : ℕ) (c : AnchorCall) (date : ℕ)
      (latest : ReceiptRow)
      → length client.private_key ≡ 32
      → 1 ≤ text_length client.identifier
      → text_length client.identifier ≤ 256
      → is_sha256_hex latest.receipt.receipt_hash ≡ true
      → IsStamped
          (Anchors.row_for_day (record c { client = client_of client now }) date (some latest))
          latest.receipt.receipt_hash
          now
          (Timestamps.public_key e client)
  unfolding Anchors.row_for_day client_of answer_of
  row_for_day-IsStamped laws client now c date latest long named short is_hex =
      let root = latest.receipt.receipt_hash in
      let (r, requested, _, of_root, at, _, verified) =
        request_timestamp-verifies iso e laws client now root long named short is_hex in
      record {
        response = r;
        status_is = rw (requested, Anchors.row_for_day) refl;
        root_is = rw (requested, Anchors.row_for_day) refl;
        of_root = of_root;
        tsr_is = rw (requested, Anchors.row_for_day) refl;
        signature_is = rw (requested, Anchors.row_for_day) refl;
        at_is = rw (requested, Anchors.row_for_day) refl;
        now_is = at;
        verifies = verified;
      }
