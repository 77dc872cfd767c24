-- ===== src/Receipts/Tamper.antt =====
-- packages/ledger/receipt_builder.py: a receipt hash determines what it binds.
use forensa.Prelude.{ℕ, String, ◌≡◌, refl, sym, ◌∙◌, ◌⊎◌, inl, inr, List, ok, uuid_str}
use forensa.Json.{Json, pos, int, str, obj, member, end, sort_keys, insert_member, dumps}
use forensa.Json.Unique.{dumps_injective}
use forensa.Hash.{canonical_json, normalise, sha256_hex}
use forensa.Hash.Injective.{Collision, digest_cases}
use forensa.Ledger.{Receipt}
use forensa.Receipts.{bind_fields, prev_or_empty, recompute_receipt_hash}

-- The two receipts, with the ids of their snapshots, agree on all that a hash binds.
pub record SameBinding (r r' : Receipt) (n n' : ℕ) : Type 0 where
  pub sequence : r.sequence ≡ r'.sequence
  pub tenant : uuid_str r.tenant_id ≡ uuid_str r'.tenant_id
  pub event : uuid_str r.event_id ≡ uuid_str r'.event_id
  pub bundle : uuid_str r.policy_bundle_id ≡ uuid_str r'.policy_bundle_id
  pub snapshot : uuid_str n ≡ uuid_str n'
  pub payload : r.payload_hash ≡ r'.payload_hash
  pub prev : prev_or_empty r.prev_receipt_hash ≡ prev_or_empty r'.prev_receipt_hash

binding : Receipt → ℕ → Json
binding r n = obj (
    member "sequence" (int (pos r.sequence)) (
      member "tenant_id" (str (uuid_str r.tenant_id)) (
        member "event_id" (str (uuid_str r.event_id)) (
          member "policy_bundle_id" (str (uuid_str r.policy_bundle_id)) (
            member "policy_snapshot_id" (str (uuid_str n)) (
              member "payload_hash" (str r.payload_hash)
                (member "prev_receipt_hash" (str (prev_or_empty r.prev_receipt_hash)) end)))))))

sorted : Receipt → ℕ → Json
sorted r n = obj (
    member "event_id" (str (uuid_str r.event_id)) (
      member "payload_hash" (str r.payload_hash) (
        member "policy_bundle_id" (str (uuid_str r.policy_bundle_id)) (
          member "policy_snapshot_id" (str (uuid_str n)) (
            member "prev_receipt_hash" (str (prev_or_empty r.prev_receipt_hash)) (
              member "sequence" (int (pos r.sequence))
                (member "tenant_id" (str (uuid_str r.tenant_id)) end)))))))

sort_keys-binding : (r : Receipt) (n : ℕ) → sort_keys (binding r n) ≡ sorted r n
unfolding binding sorted sort_keys insert_member
sort_keys-binding r n = refl

sorted-SameBinding : (r r' : Receipt) (n n' : ℕ) → sorted r n ≡ sorted r' n' → SameBinding r r' n n'
unfolding sorted
sorted-SameBinding r r' n n' e = record {
  sequence = cc e;
  tenant = cc e;
  event = cc e;
  bundle = cc e;
  snapshot = cc e;
  payload = cc e;
  prev = cc e;
}

module _ (sha256 : List ℕ → String) where
  recompute-binding :
      (r : Receipt) (n : ℕ) → recompute_receipt_hash sha256 r n ≡ ok (sha256 (dumps (binding r n)))
  unfolding recompute_receipt_hash bind_fields sha256_hex canonical_json normalise binding
  recompute-binding r n = refl

  -- Two receipts, each with the id of its snapshot, that recompute to one hash agree on every
  -- bound field (the ids as texts, and a missing previous hash as the empty text), or two
  -- messages with one SHA-256 digest have been found.
  pub receipt_hash-binds :
      (r r' : Receipt) (n n' : ℕ) (h : String)
      → recompute_receipt_hash sha256 r n ≡ ok h
      → recompute_receipt_hash sha256 r' n' ≡ ok h
      → SameBinding r r' n n' ⊎ Collision sha256
  receipt_hash-binds r r' n n' h e e' =
      elim (digest_cases sha256 (dumps (binding r n)) (dumps (binding r' n'))
        (cc (e, e', recompute-binding r n, recompute-binding r' n'))) [
          | inl same ↦ inl (
              sorted-SameBinding r r' n n' (
                sym (sort_keys-binding r n)
                ∙ dumps_injective (binding r n) (binding r' n') same
                ∙ sort_keys-binding r' n'))
          | inr c ↦ inr c
        ]
