-- ===== src/Policy.antt =====
-- packages/policy: enforcement.py, lobstertrap.py, bundle_builder.py, snapshot.py and replay.py.
-- A datetime is aware: the checks of `tzinfo` are not modelled. What pydantic does to the fields of a
-- `PolicyBundle` before they are validated is a parameter, `BundleFields`. The mock gateway does not
-- sleep: its latency is not modelled.
pub mod Bind
use Prim.Native.Char.{Char, code}
use forensa.Prelude.{
  ℕ, String, Bool, true, false, not, ◌&&◌, ◌||◌, Option, none, some, List, [], ◌∷◌, suc, zero, leb,
  nat_eq, string_eq, if◌then◌else◌, ◌==◌, ◌!=◌, Result, ok, err, ◌>>=◌, ◌>>◌, require, value_error,
  type_error, bundle_hash_mismatch, snapshot_drift, replay_resolution,
}
use forensa.Hash.{
  Value, Entries, dict, entry, no_entries, list, element, no_elements, text, sha256_hex,
}
use forensa.Ledger.{PolicyBundle, PolicySnapshot}

-- `c in "0123456789abcdef"`
is_hex : Char → Bool
is_hex c = (leb 48 (code c) && leb (code c) 57) || (leb 97 (code c) && leb (code c) 102)

all_hex : ℕ → String → Bool
unfolding is_hex
all_hex zero String.[] = true
all_hex zero (String.◌∷◌ c s) = false
all_hex (suc n) String.[] = false
all_hex (suc n) (String.◌∷◌ c s) = is_hex c && all_hex n s

-- `len(h) == 64 and all(c in _HEX for c in h)`
unfoldable pub is_sha256_hex : String → Bool
unfolding all_hex
is_sha256_hex h = all_hex 64 h

pub data PolicyDecision : Type 0 where
  allow deny escalate : PolicyDecision

abbrev pub decision_value : PolicyDecision → String
decision_value allow = "allow"
decision_value deny = "deny"
decision_value escalate = "escalate"

pub record PolicyVerdict : Type 0 where
  pub decision : PolicyDecision
  pub policy_bundle_id : ℕ
  pub policy_bundle_version : String
  pub content_hash : String
  pub reason : String
  pub evaluated_at : ℕ

-- `PolicyVerdict.__post_init__`
unfoldable pub make_verdict : PolicyVerdict → Result PolicyVerdict
make_verdict v = do
  require (is_sha256_hex v.content_hash) value_error
  require (v.reason != "") value_error
  ok v

-- `PolicySnapshot.__post_init__`
unfoldable pub make_snapshot : PolicySnapshot → Result PolicySnapshot
make_snapshot s = do
  require (is_sha256_hex s.content_hash) value_error
  require (s.policy_bundle_version != "") value_error
  require (s.verdict_decision != "") value_error
  require (s.verdict_reason != "") value_error
  ok s

-- `_classify` of the text under "kind", if it is one.
unfoldable pub classify : Option String → PolicyDecision × String
classify none = (allow, "no matching deny/escalate rule")
classify (some kind) =
    if kind == "deny_kind"
    then (deny, "matched rule deny_kind")
    else if kind == "escalate_kind"
    then (escalate, "matched rule escalate_kind")
    else (allow, "no matching deny/escalate rule")

as_text : Value → Option String
as_text (text s) = some s
as_text _ = none

get_kind : Entries → Option String
unfolding as_text
get_kind no_entries = none
get_kind (entry k v es) = if k == "kind" then as_text v else get_kind es

-- The state of a `MockLobsterTrapClient`.
pub record Client : Type 0 where
  pub policy_bundle_id : ℕ
  pub policy_bundle_version : String
  pub content_hash : String

-- `MockLobsterTrapClient.evaluate`, at the time `now`.
unfoldable pub evaluate : Client → ℕ → Value → Result PolicyVerdict
unfolding get_kind
evaluate client now (dict action) =
    let (decision, reason) = classify (get_kind action) in
    make_verdict (record {
      decision = decision;
      policy_bundle_id = client.policy_bundle_id;
      policy_bundle_version = client.policy_bundle_version;
      content_hash = client.content_hash;
      reason = reason;
      evaluated_at = now;
    })
evaluate client now _ = err type_error

abbrev pub default_content : Value
default_content = dict (
    entry "rules"
      (list (
        element (dict (entry "kind" (text "deny_kind") (entry "decision" (text "deny") no_entries)))
          (element
            (dict
              (entry "kind" (text "escalate_kind") (entry "decision" (text "escalate") no_entries)))
            no_elements)))
      (entry "default" (text "allow") no_entries))

-- What the schema makes of a version and of a content: pydantic strips white space, and the version
-- must match the pattern.
pub record BundleFields : Type 0 where
  pub version_of : String → Result String
  pub content_of : Value → Value

-- `PolicyBundle(...)`
unfoldable pub make_bundle : BundleFields → PolicyBundle → Result PolicyBundle
make_bundle schema b = do
  version ← schema.version_of b.version
  require (is_sha256_hex b.content_hash) value_error
  ok (record b { version = version; content = schema.content_of b.content })

abbrev placeholder : String
placeholder = "0000000000000000000000000000000000000000000000000000000000000000"

module _ (sha256 : List ℕ → String) where
  unfoldable pub make_client : ℕ → String → Value → Result Client
  make_client id version content = do
    h ← sha256_hex sha256 content
    ok (record { policy_bundle_id = id; policy_bundle_version = version; content_hash = h })

  unfoldable pub compute_content_hash : Value → Result String
  compute_content_hash content = sha256_hex sha256 content

  -- With the id and the time that the draft draws.
  unfoldable pub build_bundle : BundleFields → ℕ → ℕ → ℕ → String → Value → Result PolicyBundle
  build_bundle schema id now tenant version content = do
    draft ← make_bundle schema (record {
      id = id;
      tenant_id = tenant;
      version = version;
      content_hash = placeholder;
      content = content;
      created_at = now;
    })
    final_hash ← compute_content_hash draft.content
    make_bundle schema (record draft { content_hash = final_hash })

  unfoldable pub rebind_bundle :
      BundleFields → ℕ → ℕ → PolicyBundle → Value → String → Result PolicyBundle
  rebind_bundle schema id now bundle new_content new_version =
      build_bundle schema id now bundle.tenant_id new_version new_content

  unfoldable pub verify_content_hash : PolicyBundle → Result Bool
  verify_content_hash b = do h ← compute_content_hash b.content; ok (b.content_hash == h)

  unfoldable pub require_content_hash : PolicyBundle → Result (Unit {0})
  require_content_hash b = do fresh ← verify_content_hash b; require fresh bundle_hash_mismatch

  -- At the time `now`.
  unfoldable pub capture_snapshot : ℕ → PolicyBundle → PolicyVerdict → Result PolicySnapshot
  capture_snapshot now b v = do
    require (b.id == v.policy_bundle_id) bundle_hash_mismatch
    require (b.content_hash == v.content_hash) bundle_hash_mismatch
    fresh ← verify_content_hash b
    require fresh bundle_hash_mismatch
    make_snapshot (record {
      policy_bundle_id = b.id;
      policy_bundle_version = b.version;
      content_hash = b.content_hash;
      captured_at = now;
      verdict_decision = decision_value v.decision;
      verdict_reason = v.reason;
    })

unfoldable pub resolve_snapshot : PolicySnapshot → PolicyBundle → Result (Unit {0})
resolve_snapshot s live = do
  require (live.id == s.policy_bundle_id) snapshot_drift
  require (live.content_hash == s.content_hash) snapshot_drift

unfoldable pub snapshot_matches_bundle : PolicySnapshot → PolicyBundle → Bool
snapshot_matches_bundle s b = s.policy_bundle_id == b.id && s.content_hash == b.content_hash

pub record ReplayPolicy : Type 0 where
  pub policy_bundle_id : ℕ
  pub policy_bundle_version : String
  pub content_hash : String
  pub verdict_decision : String
  pub verdict_reason : String
  pub drift_detected : Bool

drifted : PolicySnapshot → Option PolicyBundle → Bool
drifted s none = false
drifted s (some live) = not (snapshot_matches_bundle s live)

unfoldable pub resolve_replay_policy :
    ℕ → ℕ → PolicySnapshot → Option PolicyBundle → Result ReplayPolicy
unfolding drifted
resolve_replay_policy bundle_id snapshot_id s live = do
  require (s.policy_bundle_id == bundle_id) replay_resolution
  ok (record {
    policy_bundle_id = s.policy_bundle_id;
    policy_bundle_version = s.policy_bundle_version;
    content_hash = s.content_hash;
    verdict_decision = s.verdict_decision;
    verdict_reason = s.verdict_reason;
    drift_detected = drifted s live;
  })
