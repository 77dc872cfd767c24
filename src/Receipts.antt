-- ===== src/Receipts.antt =====
-- packages/ledger/receipt_builder.py and schema/receipt.py: building, signing and recomputing receipts.
-- pydantic's stripping of white space is not modelled: it changes no text of 64 digits.
pub mod Build
pub mod Tamper
use forensa.Prelude.{
  ℕ, ◌+◌, String, Bool, true, false, not, ◌&&◌, Option, none, some, List, [], ◌∷◌, length, nat_eq,
  string_eq, if◌then◌else◌, ◌==◌, Result, ok, err, ◌>>=◌, ◌>>◌, require, value_error, type_error,
  receipt_chain_error, uuid_str,
}
use forensa.Json.{pos}
use forensa.Hash.{Value, dict, entry, no_entries, text, integer, sha256_hex}
use forensa.Ledger.{Receipt, PolicySnapshot}
use forensa.Policy.{is_sha256_hex}
use forensa.Sign.{Ed25519, sign, verify}

pub record BuildInputs : Type 0 where
  pub tenant_id : ℕ
  pub event_id : ℕ
  pub policy_snapshot : PolicySnapshot
  pub policy_snapshot_id : ℕ
  pub sequence : ℕ
  pub prev_receipt_hash : Option String
  pub payload_hash : String

-- `prev_receipt_hash or ""`
abbrev pub prev_or_empty : Option String → String
prev_or_empty none = ""
prev_or_empty (some h) = h

-- The dict that a receipt hash binds.
unfoldable pub bind_fields : ℕ → ℕ → ℕ → ℕ → ℕ → String → Option String → Value
bind_fields sequence tenant event bundle snapshot payload_hash prev = dict (
    entry "sequence" (integer (pos sequence)) (
      entry "tenant_id" (text (uuid_str tenant)) (
        entry "event_id" (text (uuid_str event)) (
          entry "policy_bundle_id" (text (uuid_str bundle)) (
            entry "policy_snapshot_id" (text (uuid_str snapshot)) (
              entry "payload_hash" (text payload_hash)
                (entry "prev_receipt_hash" (text (prev_or_empty prev)) no_entries)))))))

valid_prev : Option String → Bool
valid_prev none = true
valid_prev (some h) = is_sha256_hex h

valid_agent_signature : Option (List ℕ) → Bool
valid_agent_signature none = true
valid_agent_signature (some s) = length s == 64

-- `Receipt(...)`: the validators of the schema.
unfoldable pub make_receipt : Receipt → Result Receipt
unfolding valid_prev valid_agent_signature
make_receipt r = do
  require (valid_prev r.prev_receipt_hash) value_error
  require (is_sha256_hex r.payload_hash) value_error
  require (is_sha256_hex r.receipt_hash) value_error
  require (length r.signature == 64) value_error
  require (valid_agent_signature r.agent_signature) value_error
  ok r

abbrev is_dict : Value → Bool
is_dict (dict es) = true
is_dict _ = false

-- The sequence number and the previous hash of the next receipt of a tenant.
unfoldable pub chain_link : ℕ → Option Receipt → Result (ℕ × Option String)
chain_link tenant none = ok (0, none)
chain_link tenant (some prev) = do
  require (prev.tenant_id == tenant) receipt_chain_error
  ok (prev.sequence + 1, some prev.receipt_hash)

module _ (sha256 : List ℕ → String) where
  unfoldable pub validate_inputs :
      ℕ → ℕ → Value → PolicySnapshot → ℕ → Option Receipt → Result BuildInputs
  validate_inputs tenant event payload snapshot snapshot_id prev = do
    require (is_dict payload) type_error
    payload_hash ← sha256_hex sha256 payload
    link ← chain_link tenant prev
    ok (record {
      tenant_id = tenant;
      event_id = event;
      policy_snapshot = snapshot;
      policy_snapshot_id = snapshot_id;
      sequence = link.0;
      prev_receipt_hash = link.1;
      payload_hash = payload_hash;
    })

  unfoldable pub compute_receipt_hash : BuildInputs → Result String
  compute_receipt_hash i = sha256_hex sha256 (
      bind_fields i.sequence i.tenant_id i.event_id i.policy_snapshot.policy_bundle_id
        i.policy_snapshot_id i.payload_hash i.prev_receipt_hash)

  unfoldable pub recompute_receipt_hash : Receipt → ℕ → Result String
  recompute_receipt_hash r snapshot_id = sha256_hex sha256 (
      bind_fields r.sequence r.tenant_id r.event_id r.policy_bundle_id snapshot_id r.payload_hash
        r.prev_receipt_hash)

unfoldable pub sign_optional : Ed25519 → Option (List ℕ) → String → Result (Option (List ℕ))
sign_optional e none h = ok none
sign_optional e (some key) h = do s ← sign e key (text h); ok (some s)

abbrev pub receipt_of : ℕ → ℕ → BuildInputs → String → List ℕ → Option (List ℕ) → Receipt
receipt_of id now i receipt_hash signature agent_signature = record {
  id = id;
  tenant_id = i.tenant_id;
  event_id = i.event_id;
  policy_bundle_id = i.policy_snapshot.policy_bundle_id;
  sequence = i.sequence;
  prev_receipt_hash = i.prev_receipt_hash;
  payload_hash = i.payload_hash;
  receipt_hash = receipt_hash;
  signature = signature;
  agent_signature = agent_signature;
  signed_at = now;
}

-- `build_receipt` after its hash is computed: the two signatures of it, and the receipt.
unfoldable pub witness_hash :
    Ed25519 → ℕ → ℕ → List ℕ → Option (List ℕ) → BuildInputs → String → Result Receipt
witness_hash e id now key agent_key i receipt_hash = do
  signature ← sign e key (text receipt_hash)
  agent_signature ← sign_optional e agent_key receipt_hash
  make_receipt (receipt_of id now i receipt_hash signature agent_signature)

-- With the id and the time that the receipt draws.
unfoldable pub build_receipt :
    (List ℕ → String)
    → Ed25519
    → ℕ
    → ℕ
    → ℕ
    → ℕ
    → Value
    → PolicySnapshot
    → ℕ
    → Option Receipt
    → List ℕ
    → Option (List ℕ)
    → Result Receipt
build_receipt sha256 e id now tenant event payload snapshot snapshot_id prev key agent_key = do
  i ← validate_inputs sha256 tenant event payload snapshot snapshot_id prev
  receipt_hash ← compute_receipt_hash sha256 i
  witness_hash e id now key agent_key i receipt_hash

unfoldable pub verify_receipt_signature : Ed25519 → Receipt → List ℕ → Result Bool
verify_receipt_signature e r tenant_public =
    verify e tenant_public (text r.receipt_hash) r.signature

verify_optional : Ed25519 → List ℕ → String → Option (List ℕ) → Result Bool
verify_optional e public h none = ok false
verify_optional e public h (some s) = verify e public (text h) s

unfoldable pub verify_receipt_agent_signature : Ed25519 → Receipt → List ℕ → Result Bool
unfolding verify_optional
verify_receipt_agent_signature e r agent_public =
    verify_optional e agent_public r.receipt_hash r.agent_signature
