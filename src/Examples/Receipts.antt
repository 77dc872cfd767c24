-- ===== src/Examples/Receipts.antt =====
-- packages/ledger/receipt_builder.py at concrete inputs: receipts that are built and recomputed.
use forensa.Prelude.{ℕ, ◌≡◌, ◌⊎◌, refl, Option, none, some, [], Result, ok, err}
use forensa.Ledger.{PolicySnapshot, Receipt}
use forensa.Hash.Injective.{Collision}
use forensa.Receipts.Build.{Built, build_receipt-Built}
use forensa.Receipts.Tamper.{SameBinding, receipt_hash-binds}
use forensa.Examples.Data.{bundle, payload, private_key}
use forensa.Prelude.{uuid_str, hex_text, is_blank}
use forensa.Json.{
  insert_member, sort_keys, digits_from, digits, escape_char, escape, quote, write_int, write_bool,
  write, utf8_char, utf8, dumps,
}
use forensa.Hash.{b64encode, normalise, canonical_json, sha256_hex}
use forensa.Sign.{load_private_key, load_public_key, sign, verify}
use forensa.Policy.{
  is_sha256_hex, make_verdict, make_snapshot, classify, evaluate, make_bundle, compute_content_hash,
  build_bundle, verify_content_hash, require_content_hash, capture_snapshot, resolve_snapshot,
  snapshot_matches_bundle, resolve_replay_policy,
}
use forensa.Receipts.{
  bind_fields, make_receipt, chain_link, validate_inputs, compute_receipt_hash,
  recompute_receipt_hash, sign_optional, witness_hash, build_receipt,
}
use forensa.Examples.Data.{toy_sha256, toy_ed25519}

abbrev pub snapshot : PolicySnapshot
snapshot = record {
  policy_bundle_id = 5;
  policy_bundle_version = "1.0.0";
  content_hash = bundle.content_hash;
  captured_at = 13;
  verdict_decision = "allow";
  verdict_reason = "no matching deny/escalate rule";
}

abbrev no_receipt : Receipt
no_receipt = record {
  id = 0;
  tenant_id = 0;
  event_id = 0;
  policy_bundle_id = 0;
  sequence = 0;
  prev_receipt_hash = none;
  payload_hash = "";
  receipt_hash = "";
  signature = [];
  agent_signature = none;
  signed_at = 0;
}

abbrev receipt_or : Result Receipt → Receipt
receipt_or (ok r) = r
receipt_or (err _) = no_receipt

abbrev build_with : ℕ → Option Receipt → Result Receipt
build_with id prev =
    build_receipt toy_sha256 toy_ed25519 id 202 1 id payload snapshot 41 prev private_key
      (some private_key)

abbrev pub first : Receipt
first = receipt_or (build_with 3 none)

abbrev pub second : Receipt
second = receipt_or (build_with 4 (some first))

built : build_with 4 (some first) ≡ ok second
unfolding uuid_str hex_text is_blank insert_member sort_keys digits_from digits escape_char escape
    quote write_int write_bool write utf8_char utf8 dumps b64encode normalise canonical_json
    sha256_hex load_private_key load_public_key sign verify is_sha256_hex make_verdict make_snapshot
    classify evaluate make_bundle compute_content_hash build_bundle verify_content_hash
    require_content_hash capture_snapshot resolve_snapshot snapshot_matches_bundle
    resolve_replay_policy bind_fields make_receipt chain_link validate_inputs compute_receipt_hash
    recompute_receipt_hash sign_optional witness_hash build_receipt toy_sha256 toy_ed25519
built = refl

build_receipt-Built_example :
    Built toy_sha256 toy_ed25519 1 4 payload snapshot 41
      (some first)
      private_key
      (some private_key)
      second
build_receipt-Built_example =
    build_receipt-Built toy_sha256 toy_ed25519 4 202 1 4 payload snapshot 41 (some first)
      private_key (some private_key) second built

recomputes : recompute_receipt_hash toy_sha256 second 41 ≡ ok second.receipt_hash
unfolding uuid_str hex_text is_blank insert_member sort_keys digits_from digits escape_char escape
    quote write_int write_bool write utf8_char utf8 dumps b64encode normalise canonical_json
    sha256_hex load_private_key load_public_key sign verify is_sha256_hex make_verdict make_snapshot
    classify evaluate make_bundle compute_content_hash build_bundle verify_content_hash
    require_content_hash capture_snapshot resolve_snapshot snapshot_matches_bundle
    resolve_replay_policy bind_fields make_receipt chain_link validate_inputs compute_receipt_hash
    recompute_receipt_hash sign_optional witness_hash build_receipt toy_sha256 toy_ed25519
recomputes = refl

receipt_hash-binds_example : SameBinding second second 41 41 ⊎ Collision toy_sha256
receipt_hash-binds_example =
    receipt_hash-binds toy_sha256 second second 41 41 second.receipt_hash recomputes recomputes
