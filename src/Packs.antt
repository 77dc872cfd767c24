-- ===== src/Packs.antt =====
-- packages/export/schema.py and builder.py: evidence packs, sealed by a hash of their content. A datetime
-- is aware; `iso` is the text that pydantic writes of one, a parameter.
pub mod Sealed
pub mod Content
use Prim.Native.String.{◌++◌}
use forensa.Prelude.{
  ℕ, zero, suc, ◌+◌, String, Bool, true, false, not, ◌&&◌, ◌||◌, Option, none, some, List, [], ◌∷◌,
  length, map, sort_asc, ltb, leb, if◌then◌else◌, ◌==◌, ◌!=◌, nat_eq, string_eq, Result, ok, err,
  ◌>>=◌, ◌>>◌, require, value_error, evidence_pack_error, uuid_str,
}
use forensa.Json.{pos}
use forensa.Hash.{
  Value, dict, list, text, integer, Entries, entry, no_entries, Elements, element, no_elements,
  sha256_hex, b64encode,
}
use forensa.Ledger.{Receipt}
use forensa.Policy.{is_sha256_hex}
use forensa.Anchors.{AnchorRow, AnchorStatus, anchored, deferred}

pub record AnchorEvidence : Type 0 where
  pub anchor_id : ℕ
  pub anchor_date : ℕ
  pub status : AnchorStatus
  pub root_hash : Option String
  pub tsa_identifier : String
  pub tsr_bytes_b64 : Option String
  pub tsa_signature_b64 : Option String
  pub timestamped_at : Option ℕ
  pub anchored_at : ℕ

valid_root : Option String → Bool
valid_root none = true
valid_root (some h) = is_sha256_hex h

-- `b64encode(b).decode("ascii") if b else None`
b64_or_none : Option (List ℕ) → Option String
b64_or_none none = none
b64_or_none (some []) = none
b64_or_none (some (b ∷ bs)) = some (b64encode (b ∷ bs))

unfoldable pub from_anchor_row : AnchorRow → Result AnchorEvidence
unfolding valid_root b64_or_none
from_anchor_row row = do
  require (valid_root row.root_hash) value_error
  ok (record {
    anchor_id = row.id;
    anchor_date = row.anchor_date;
    status = row.status;
    root_hash = row.root_hash;
    tsa_identifier = row.tsa_identifier;
    tsr_bytes_b64 = b64_or_none row.tsr_bytes;
    tsa_signature_b64 = b64_or_none row.tsa_signature;
    timestamped_at = row.timestamped_at;
    anchored_at = row.anchored_at;
  })

pub record EvidencePackHeader : Type 0 where
  pub pack_id : ℕ
  pub tenant_id : ℕ
  pub generated_at : ℕ
  pub scope_start : ℕ
  pub scope_end : ℕ
  pub receipt_count : ℕ

pub record ReceiptEvidenceItem : Type 0 where
  pub id : ℕ
  pub tenant_id : ℕ
  pub event_id : ℕ
  pub policy_bundle_id : ℕ
  pub policy_snapshot_id : ℕ
  pub sequence : ℕ
  pub prev_receipt_hash : Option String
  pub payload_hash : String
  pub receipt_hash : String
  pub signature_b64 : String
  pub signed_at : ℕ

pub record ProvActivity : Type 0 where
  pub activity_type : String
  pub id : String
  pub used_event : String
  pub used_policy_snapshot : String
  pub generated_receipt : String
  pub started_at : ℕ
  pub ended_at : ℕ

pub record EvidencePack : Type 0 where
  pub header : EvidencePackHeader
  pub receipts : List ReceiptEvidenceItem
  pub activities : List ProvActivity
  pub anchor : Option AnchorEvidence
  pub root_hash : String

-- `v != sorted(v)` of the sequences, with a stable sort.
unfoldable pub is_ascending : List ReceiptEvidenceItem → Bool
is_ascending [] = true
is_ascending (a ∷ []) = true
is_ascending (a ∷ b ∷ rest) = leb a.sequence b.sequence && is_ascending (b ∷ rest)

-- `EvidencePack(...)`: the validators of the schema.
unfoldable pub make_pack : EvidencePack → Result EvidencePack
unfolding is_ascending
make_pack p = do
  require (is_ascending p.receipts) value_error
  require (is_sha256_hex p.root_hash) value_error
  ok p

abbrev pub item_of : Receipt × ℕ → ReceiptEvidenceItem
item_of (r, snapshot_id) = record {
  id = r.id;
  tenant_id = r.tenant_id;
  event_id = r.event_id;
  policy_bundle_id = r.policy_bundle_id;
  policy_snapshot_id = snapshot_id;
  sequence = r.sequence;
  prev_receipt_hash = r.prev_receipt_hash;
  payload_hash = r.payload_hash;
  receipt_hash = r.receipt_hash;
  signature_b64 = b64encode r.signature;
  signed_at = r.signed_at;
}

-- `ReceiptEvidenceItem(...)`
unfoldable pub make_item : Receipt × ℕ → Result ReceiptEvidenceItem
make_item p = do
  require (is_sha256_hex (p.0).payload_hash) value_error
  require (is_sha256_hex (p.0).receipt_hash) value_error
  ok (item_of p)

-- With the id that `uuid4()` draws.
abbrev pub activity_of : ℕ → Receipt × ℕ → ProvActivity
activity_of id (r, snapshot_id) = record {
  activity_type = "prov:Activity";
  id = "urn:forensa:activity:" ++ uuid_str id;
  used_event = "urn:forensa:event:" ++ uuid_str r.event_id;
  used_policy_snapshot = "urn:forensa:snapshot:" ++ uuid_str snapshot_id;
  generated_receipt = "urn:forensa:receipt:" ++ uuid_str r.id;
  started_at = r.signed_at;
  ended_at = r.signed_at;
}

unfoldable pub make_items : List (Receipt × ℕ) → Result (List ReceiptEvidenceItem)
unfolding make_item
make_items [] = ok []
make_items (p ∷ ps) = do item ← make_item p; items ← make_items ps; ok (item ∷ items)

-- The `n`th activity takes the `n`th id that is drawn.
unfoldable pub activities_of : (ℕ → ℕ) → ℕ → List (Receipt × ℕ) → List ProvActivity
activities_of draw n [] = []
activities_of draw n (p ∷ ps) = activity_of (draw n) p ∷ activities_of draw (n + 1) ps

abbrev text_or_empty : Option String → Value
text_or_empty none = text ""
text_or_empty (some s) = text s

unfoldable pub elements_of {ℓ} : {A : Type ℓ} → (A → Value) → List A → Elements
elements_of f [] = no_elements
elements_of f (a ∷ rest) = element (f a) (elements_of f rest)

unfoldable pub listed {ℓ} : {A : Type ℓ} → (A → Value) → List A → Value
unfolding elements_of
listed f xs = list (elements_of f xs)

unfoldable pub all_of_tenant : ℕ → List (Receipt × ℕ) → Bool
all_of_tenant tenant [] = true
all_of_tenant tenant (p ∷ ps) = (p.0).tenant_id == tenant && all_of_tenant tenant ps

-- What a pack is built of, with the ids that are drawn.
pub record PackInputs : Type 0 where
  pub tenant_id : ℕ
  pub generated_at : ℕ
  pub scope_start : ℕ
  pub scope_end : ℕ
  pub receipts_with_snapshots : List (Receipt × ℕ)
  pub anchor : Option AnchorEvidence
  pub pack_id : ℕ
  pub activity_ids : ℕ → ℕ

-- `sorted(..., key=lambda pair: pair[0].sequence)`
abbrev pub sorted_pairs : PackInputs → List (Receipt × ℕ)
sorted_pairs i = sort_asc (λ (p : Receipt × ℕ). (p.0).sequence) i.receipts_with_snapshots

abbrev pub header_of : PackInputs → ℕ → EvidencePackHeader
header_of i count = record {
  pack_id = i.pack_id;
  tenant_id = i.tenant_id;
  generated_at = i.generated_at;
  scope_start = i.scope_start;
  scope_end = i.scope_end;
  receipt_count = count;
}

module _ (iso : ℕ → String) where
  -- `model_dump(mode="json")`
  unfoldable pub dump_header : EvidencePackHeader → Value
  dump_header h = dict (
      entry "pack_id" (text (uuid_str h.pack_id)) (
        entry "tenant_id" (text (uuid_str h.tenant_id)) (
          entry "generated_at" (text (iso h.generated_at)) (
            entry "scope_start" (text (iso h.scope_start)) (
              entry "scope_end" (text (iso h.scope_end))
                (entry "receipt_count" (integer (pos h.receipt_count)) no_entries))))))

  unfoldable pub canonicalise_item : ReceiptEvidenceItem → Value
  canonicalise_item r = dict (
      entry "id" (text (uuid_str r.id)) (
        entry "tenant_id" (text (uuid_str r.tenant_id)) (
          entry "event_id" (text (uuid_str r.event_id)) (
            entry "policy_bundle_id" (text (uuid_str r.policy_bundle_id)) (
              entry "policy_snapshot_id" (text (uuid_str r.policy_snapshot_id)) (
                entry "sequence" (integer (pos r.sequence)) (
                  entry "prev_receipt_hash" (text_or_empty r.prev_receipt_hash) (
                    entry "payload_hash" (text r.payload_hash) (
                      entry "receipt_hash" (text r.receipt_hash) (
                        entry "signature_b64" (text r.signature_b64)
                          (entry "signed_at" (text (iso r.signed_at)) no_entries)))))))))))

  unfoldable pub dump_activity : ProvActivity → Value
  dump_activity a = dict (
      entry "activity_type" (text a.activity_type) (
        entry "id" (text a.id) (
          entry "used_event" (text a.used_event) (
            entry "used_policy_snapshot" (text a.used_policy_snapshot) (
              entry "generated_receipt" (text a.generated_receipt) (
                entry "started_at" (text (iso a.started_at))
                  (entry "ended_at" (text (iso a.ended_at)) no_entries)))))))

  iso_or_empty : Option ℕ → Value
  iso_or_empty none = text ""
  iso_or_empty (some t) = text (iso t)

  unfoldable pub canonicalise_anchor : AnchorEvidence → Value
  unfolding iso_or_empty
  canonicalise_anchor a = dict (
      entry "anchor_id" (text (uuid_str a.anchor_id)) (
        entry "anchor_date" (text (iso a.anchor_date)) (
          entry "status" (text (elim a.status [ anchored ↦ "anchored" | deferred ↦ "deferred" ])) (
            entry "root_hash" (text_or_empty a.root_hash) (
              entry "tsa_identifier" (text a.tsa_identifier) (
                entry "tsr_bytes_b64" (text_or_empty a.tsr_bytes_b64) (
                  entry "tsa_signature_b64" (text_or_empty a.tsa_signature_b64) (
                    entry "timestamped_at" (iso_or_empty a.timestamped_at)
                      (entry "anchored_at" (text (iso a.anchored_at)) no_entries)))))))))

  with_anchor : Option AnchorEvidence → Entries
  with_anchor none = no_entries
  with_anchor (some a) = entry "anchor" (canonicalise_anchor a) no_entries

  -- The dict that a root hash binds.
  unfoldable pub bind :
      EvidencePackHeader
      → List ReceiptEvidenceItem
      → List ProvActivity
      → Option AnchorEvidence
      → Value
  unfolding dump_header canonicalise_item dump_activity canonicalise_anchor with_anchor listed
  bind header receipts activities anchor = dict (
      entry "header" (dump_header header) (
        entry "receipts" (listed canonicalise_item receipts)
          (entry "activities" (listed dump_activity activities) (with_anchor anchor))))

  module _ (sha256 : List ℕ → String) where
    -- Seals the items and the activities.
    unfoldable pub seal_pack :
        EvidencePackHeader
        → List ReceiptEvidenceItem
        → List ProvActivity
        → Option AnchorEvidence
        → Result EvidencePack
    unfolding bind make_pack
    seal_pack header items activities anchor = do
      root_hash ← sha256_hex sha256 (bind header items activities anchor)
      make_pack (record {
        header = header;
        receipts = items;
        activities = activities;
        anchor = anchor;
        root_hash = root_hash;
      })

    unfoldable pub build_evidence_pack : PackInputs → Result EvidencePack
    unfolding make_items activities_of seal_pack all_of_tenant
    build_evidence_pack i = do
      require (not (ltb i.scope_end i.scope_start)) evidence_pack_error
      require (all_of_tenant i.tenant_id i.receipts_with_snapshots) evidence_pack_error
      items ← make_items (sorted_pairs i)
      seal_pack (header_of i (length items)) items (activities_of i.activity_ids 0 (sorted_pairs i))
          i.anchor

    unfoldable pub verify_evidence_pack : EvidencePack → Result Bool
    unfolding bind
    verify_evidence_pack p = do
      computed ← sha256_hex sha256 (bind p.header p.receipts p.activities p.anchor)
      ok (computed == p.root_hash)
