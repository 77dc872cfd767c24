-- ===== src/Examples/Data.antt =====
-- The data of the examples: a tenant 1, an agent 2 and an event 3 (packages/schema).
use forensa.Prelude.{
  hex_text, ℕ, ◌+◌, ◌*◌, ◌%◌, ◌^◌, zero, suc, String, true, none, some, List, [], ◌∷◌, length, ◌==◌,
  nat_eq, Result, ok, err, ◌≡◌, refl, ap,
}
use forensa.Hash.{Value, dict, entry, no_entries, text, integer}
use forensa.Json.{pos}
use forensa.Ledger.{PolicyBundle, Event}
use forensa.Policy
use forensa.Sign.{Ed25519, Ed25519Laws}
use forensa.Ingest
use forensa.Ingest.Bootstrap.{BootstrapDraws, get_active_bundle}

abbrev digest : ℕ → List ℕ → ℕ
digest h [] = h
digest h (b ∷ bs) = digest ((h * 257 + b + 1) % 16 ^ 64) bs

-- A digest of 64 hexadecimal digits.
unfoldable pub toy_sha256 : List ℕ → String
unfolding hex_text
toy_sha256 bs = hex_text 64 (digest 7 bs) ""

abbrev repeated : ℕ → ℕ → List ℕ
repeated zero b = []
repeated (suc n) b = b ∷ repeated n b

unfoldable pub toy_ed25519 : Ed25519
toy_ed25519 = record {
  sign_bytes = λ k m. repeated 64 (digest 7 m % 256);
  verify_bytes = λ p m s. length s == 64;
  public_key = λ k. k;
}

length-repeated : (n b : ℕ) → length (repeated n b) ≡ n
length-repeated zero b = refl
length-repeated (suc n) b = ap suc (length-repeated n b)

pub toy_ed25519-Laws : Ed25519Laws toy_ed25519
unfolding toy_ed25519
toy_ed25519-Laws = record {
  length-sign_bytes = λ k m h. length-repeated 64 (digest 7 m % 256);
  length-public_key = λ k h. h;
  verify-sign = λ k m h. refl;
}

abbrev pub private_key : List ℕ
private_key = repeated 32 9

abbrev pub payload : Value
payload = dict (entry "tool" (text "search") (entry "count" (integer (pos 2)) no_entries))

abbrev pub event : Event
event = record {
  id = 3;
  tenant_id = 1;
  agent_id = 2;
  trace_id = "0af7651916cd43dd8448eb211c80319c";
  span_id = "b7ad6b7169203331";
  parent_span_id = none;
  kind = "tool_call";
  occurred_at = 100;
  payload = payload;
  reasoning = none;
  output = none;
  policy_version = none;
  policy_verdict = none;
}

abbrev pub schema : Policy.BundleFields
schema = record { version_of = λ v. ok v; content_of = λ c. c }

abbrev pub content_hash : String
content_hash = "0000000000000000000000000000000000000000000000000000000000000000"

abbrev default_bundle : Result PolicyBundle → PolicyBundle
default_bundle (ok b) = b
default_bundle (err e) = record {
  id = 0;
  tenant_id = 0;
  version = "";
  content_hash = "";
  content = Policy.default_content;
  created_at = 0;
}

abbrev pub bundle : PolicyBundle
bundle =
    default_bundle (Policy.build_bundle toy_sha256 schema 5 10 1 "1.0.0" Policy.default_content)

abbrev pub bootstrap_draws : BootstrapDraws
bootstrap_draws = record {
  bundle_id = 5;
  created_at = 10;
  author_actor = 21;
  reviewer_actor = 22;
  approver_actor = 23;
  activator_actor = 24;
  proposal_id = 31;
  review_id = 32;
  approval_id = 33;
  prior_id = 34;
  activation_id = 35;
  decided_at = 11;
}

abbrev pub client : Policy.Client
client = record {
  policy_bundle_id = 5;
  policy_bundle_version = "1.0.0";
  content_hash = bundle.content_hash;
}

abbrev pub services : Ingest.Services
services = record {
  get_active_bundle =
      get_active_bundle toy_sha256 schema Policy.default_content true bootstrap_draws;
  evaluate = λ now tenant action. Policy.evaluate client now action;
  get_signing_key = λ tenant. private_key;
  get_agent_signing_key = some (λ agent. private_key);
}

abbrev pub draws : Ingest.Draws
draws = record {
  evaluated_at = 200;
  captured_at = 201;
  snapshot_id = 41;
  receipt_id = 42;
  signed_at = 202;
}
