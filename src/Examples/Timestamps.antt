-- ===== src/Examples/Timestamps.antt =====
-- packages/crypto/tsa.py at a concrete input.
use forensa.Prelude.{arith, ℕ, String, ◌≡◌, refl, true, none, some}
use forensa.Policy.{is_sha256_hex}
use forensa.Ledger.{ReceiptRow}
use forensa.Anchors.{AnchorCall, aware, row_for_day}
use forensa.Timestamps.{MockTimestampClient, public_key}
use forensa.Timestamps.Anchored.{client_of, IsStamped, row_for_day-IsStamped}
use forensa.Examples.Receipts.{first}
use forensa.Examples.Data.{toy_ed25519, toy_ed25519-Laws, private_key}

abbrev root : String
root = "00112233445566778899aabbccddeeff00112233445566778899aabbccddeeff"

abbrev iso : ℕ → String
iso t = "2026-05-01T00:00:00+00:00"

abbrev client : MockTimestampClient
client = record { identifier = "forensa-mock-2026"; private_key = private_key }

root_is_hex : is_sha256_hex root ≡ true
unfolding is_sha256_hex
root_is_hex = refl

abbrev latest : ReceiptRow
latest = record { receipt = record first { receipt_hash = root }; policy_snapshot_id = 41 }

abbrev call : AnchorCall
call = record {
  tenant_id = 1;
  day = aware 500;
  client = client_of iso toy_ed25519 client 600;
  tsa_identifier = none;
  id = 8;
  now = 700;
}

row_for_day-IsStamped_example :
    IsStamped iso toy_ed25519
      (row_for_day call 0 (some latest))
      root
      600
      (public_key toy_ed25519 client)
row_for_day-IsStamped_example =
    row_for_day-IsStamped iso toy_ed25519 toy_ed25519-Laws client 600 call 0 latest refl
      (omega arith) (omega arith) root_is_hex
