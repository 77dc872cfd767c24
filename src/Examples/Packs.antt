-- ===== src/Examples/Packs.antt =====
-- packages/export/builder.py at concrete inputs: a pack of two receipts that come in reverse order.
use forensa.Prelude.{ℕ, ◌≡◌, refl, none, [], ◌∷◌, Result, ok, err, String}
use forensa.Packs
use forensa.Packs.{PackInputs, EvidencePack}
use forensa.Packs.Content.{IsPackOf, build_evidence_pack-IsPackOf}
use forensa.Examples.Receipts.{first, second}
use forensa.Prelude.{uuid_str, hex_text, is_blank, nat_text}
use forensa.Json.{
  insert_member, sort_keys, digits_from, digits, escape_char, escape, quote, write_int, write_bool,
  write, utf8_char, utf8, dumps,
}
use forensa.Hash.{b64encode, normalise, canonical_json, sha256_hex}
use forensa.Sign.{load_private_key, load_public_key, sign, verify}
use forensa.Policy.{
  is_sha256_hex, make_verdict, make_snapshot, classify, evaluate, make_bundle, compute_content_hash,
  build_bundle, verify_content_hash, require_content_hash, capture_snapshot, resolve_snapshot,
  snapshot_matches_bundle, resolve_replay_policy,
}
use forensa.Receipts.{
  bind_fields, make_receipt, chain_link, validate_inputs, compute_receipt_hash,
  recompute_receipt_hash, sign_optional, witness_hash, build_receipt,
}
use forensa.Examples.Data.{toy_sha256, toy_ed25519}
use forensa.Packs.{
  from_anchor_row, is_ascending, make_pack, make_item, make_items, activities_of, all_of_tenant,
  listed, dump_header, canonicalise_item, dump_activity, canonicalise_anchor, bind, seal_pack,
  build_evidence_pack, verify_evidence_pack,
}

abbrev pub toy_iso : ℕ → String
toy_iso t = nat_text t

abbrev inputs : PackInputs
inputs = record {
  tenant_id = 1;
  generated_at = 900;
  scope_start = 0;
  scope_end = 500;
  receipts_with_snapshots = (second, 41) ∷ (first, 41) ∷ [];
  anchor = none;
  pack_id = 70;
  activity_ids = λ n. n;
}

abbrev pub pack_or : Result EvidencePack → EvidencePack
pack_or (ok p) = p
pack_or (err _) = record {
  header = Packs.header_of inputs 0;
  receipts = [];
  activities = [];
  anchor = none;
  root_hash = "";
}

abbrev pub pack : EvidencePack
pack = pack_or (build_evidence_pack toy_iso toy_sha256 inputs)

built : build_evidence_pack toy_iso toy_sha256 inputs ≡ ok pack
unfolding uuid_str hex_text is_blank nat_text insert_member sort_keys digits_from digits escape_char
    escape quote write_int write_bool write utf8_char utf8 dumps b64encode normalise canonical_json
    sha256_hex load_private_key load_public_key sign verify is_sha256_hex make_verdict make_snapshot
    classify evaluate make_bundle compute_content_hash build_bundle verify_content_hash
    require_content_hash capture_snapshot resolve_snapshot snapshot_matches_bundle
    resolve_replay_policy bind_fields make_receipt chain_link validate_inputs compute_receipt_hash
    recompute_receipt_hash sign_optional witness_hash build_receipt toy_sha256 toy_ed25519
    from_anchor_row is_ascending make_pack make_item make_items activities_of all_of_tenant listed
    dump_header canonicalise_item dump_activity canonicalise_anchor bind seal_pack
    build_evidence_pack verify_evidence_pack
built = refl

build_evidence_pack-IsPackOf_example : IsPackOf toy_iso toy_sha256 inputs pack
build_evidence_pack-IsPackOf_example =
    build_evidence_pack-IsPackOf toy_iso toy_sha256 inputs pack built
