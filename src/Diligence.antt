-- ===== src/Diligence.antt =====
-- packages/export/ma_export.py: the bundle of evidence packs and anchors for an acquirer, its seal, its
-- signature, and the chunks of a window. A datetime is aware, and within the years that Python has.
pub mod Sealed
pub mod Tamper
pub mod Chunks
use Prim.Native.Nat.{Ordering}
use Prim.Native.String.{compare}
use forensa.Prelude.{
  ℕ, zero, suc, ◌+◌, ◌-◌, min, String, Bool, true, false, not, ◌&&◌, ◌||◌, Option, none, some, List,
  [], ◌∷◌, length, map, ltb, if◌then◌else◌, ◌==◌, ◌!=◌, nat_eq, string_eq, Result, ok, err, ◌>>=◌,
  ◌>>◌, require, value_error, ma_export_error, ma_export_signature_error, uuid_str, is_blank,
}
use forensa.Json.{pos}
use forensa.Hash.{Value, dict, text, integer, entry, no_entries, sha256_hex}
use forensa.Policy.{is_sha256_hex}
use forensa.Sign.{Ed25519, sign, verify}
use forensa.Packs.{EvidencePack, AnchorEvidence, listed}

abbrev pub max_packs_per_export : ℕ
max_packs_per_export = 366

abbrev pub max_total_receipts : ℕ
max_total_receipts = 100_000

pub record MaDiligenceHeader : Type 0 where
  pub export_id : ℕ
  pub tenant_id : ℕ
  pub generated_at : ℕ
  pub scope_start : ℕ
  pub scope_end : ℕ
  pub pack_count : ℕ
  pub anchor_count : ℕ
  pub total_receipt_count : ℕ

pub record MaDiligenceExport : Type 0 where
  pub header : MaDiligenceHeader
  pub evidence_packs : List EvidencePack
  pub anchor_proofs : List AnchorEvidence
  pub ma_root_hash : String
  pub platform_signature : Option (List ℕ)
  pub platform_key_id : Option String

insert_text : String → List String → List String
insert_text s [] = s ∷ []
insert_text s (t ∷ ts) = elim (compare s t) [ Ordering.gt ↦ t ∷ insert_text s ts | _ ↦ s ∷ t ∷ ts ]

-- `sorted(...)` of texts
unfoldable pub sort_texts : List String → List String
unfolding insert_text
sort_texts [] = []
sort_texts (s ∷ ts) = insert_text s (sort_texts ts)

abbrev pub root_of : EvidencePack → String
root_of p = p.root_hash

abbrev pub anchor_id_of : AnchorEvidence → String
anchor_id_of a = uuid_str a.anchor_id

-- `a.root_hash or ""`
abbrev pub anchor_root_of : AnchorEvidence → String
anchor_root_of a = elim a.root_hash [ none ↦ "" | some h ↦ h ]

-- The sum of the receipt counts.
unfoldable pub total_receipts : List EvidencePack → ℕ
total_receipts [] = 0
total_receipts (p ∷ ps) = p.header.receipt_count + total_receipts ps

unfoldable pub all_packs_of : ℕ → List EvidencePack → Bool
all_packs_of tenant [] = true
all_packs_of tenant (p ∷ ps) = p.header.tenant_id == tenant && all_packs_of tenant ps

pub record ExportInputs : Type 0 where
  pub tenant_id : ℕ
  pub scope_start : ℕ
  pub scope_end : ℕ
  pub generated_at : ℕ
  pub evidence_packs : List EvidencePack
  pub anchor_proofs : List AnchorEvidence
  pub export_id : ℕ

abbrev pub header_of : ExportInputs → MaDiligenceHeader
header_of i = record {
  export_id = i.export_id;
  tenant_id = i.tenant_id;
  generated_at = i.generated_at;
  scope_start = i.scope_start;
  scope_end = i.scope_end;
  pack_count = length i.evidence_packs;
  anchor_count = length i.anchor_proofs;
  total_receipt_count = total_receipts i.evidence_packs;
}

-- `MaDiligenceExport(...)` of an unsigned bundle: the validator of its hash.
unfoldable pub make_export : MaDiligenceExport → Result MaDiligenceExport
make_export x = do require (is_sha256_hex x.ma_root_hash) value_error; ok x

module _ (iso : ℕ → String) where
  unfoldable pub dump_header : MaDiligenceHeader → Value
  dump_header h = dict (
      entry "export_id" (text (uuid_str h.export_id)) (
        entry "tenant_id" (text (uuid_str h.tenant_id)) (
          entry "generated_at" (text (iso h.generated_at)) (
            entry "scope_start" (text (iso h.scope_start)) (
              entry "scope_end" (text (iso h.scope_end)) (
                entry "pack_count" (integer (pos h.pack_count)) (
                  entry "anchor_count" (integer (pos h.anchor_count)) (
                    entry "total_receipt_count" (integer (pos h.total_receipt_count))
                      no_entries))))))))

  -- The dict that the hash of a bundle binds.
  unfoldable pub bind : MaDiligenceHeader → List String → List String → List String → Value
  unfolding dump_header listed
  bind header pack_root_hashes anchor_ids anchor_root_hashes = dict (
      entry "header" (dump_header header) (
        entry "pack_root_hashes" (listed text pack_root_hashes) (
          entry "anchor_ids" (listed text anchor_ids)
            (entry "anchor_root_hashes" (listed text anchor_root_hashes) no_entries))))

  abbrev pub content_of : MaDiligenceHeader → List EvidencePack → List AnchorEvidence → Value
  content_of header packs anchors =
      bind header (map root_of packs) (sort_texts (map anchor_id_of anchors))
        (map anchor_root_of anchors)

  module _ (sha256 : List ℕ → String) where
    unfoldable pub seal_export : ExportInputs → Result MaDiligenceExport
    unfolding bind make_export
    seal_export i = do
      ma_root_hash ← sha256_hex sha256 (content_of (header_of i) i.evidence_packs i.anchor_proofs)
      make_export (record {
        header = header_of i;
        evidence_packs = i.evidence_packs;
        anchor_proofs = i.anchor_proofs;
        ma_root_hash = ma_root_hash;
        platform_signature = none;
        platform_key_id = none;
      })

    unfoldable pub build_ma_diligence_export : ExportInputs → Result MaDiligenceExport
    unfolding seal_export total_receipts all_packs_of
    build_ma_diligence_export i = do
      require (not (ltb i.scope_end i.scope_start)) ma_export_error
      require (not (ltb max_packs_per_export (length i.evidence_packs))) ma_export_error
      require (not (ltb max_total_receipts (total_receipts i.evidence_packs))) ma_export_error
      require (all_packs_of i.tenant_id i.evidence_packs) ma_export_error
      seal_export i

    unfoldable pub verify_ma_diligence_export : MaDiligenceExport → Result Bool
    unfolding bind
    verify_ma_diligence_export x = do
      computed ← sha256_hex sha256 (content_of x.header x.evidence_packs x.anchor_proofs)
      ok (computed == x.ma_root_hash)

-- Microseconds of `timedelta(days=1)`.
abbrev pub one_day : ℕ
one_day = 86_400_000_000

-- The loop from a cursor on, with rounds to go.
unfoldable pub chunks_from : ℕ → ℕ → ℕ → List (ℕ × ℕ)
chunks_from zero scope_end cursor = []
chunks_from (suc rounds) scope_end cursor =
    let rest =
      (cursor, min (cursor + one_day) scope_end)
      ∷ chunks_from rounds scope_end (cursor + one_day) in
    if ltb cursor scope_end then rest else []

-- A window of some microseconds has no more chunks than microseconds.
unfoldable pub daily_chunks : ℕ → ℕ → Result (List (ℕ × ℕ))
unfolding chunks_from
daily_chunks scope_start scope_end = do
  require (not (ltb scope_end scope_start)) ma_export_error
  ok (chunks_from (scope_end - scope_start) scope_end scope_start)

unfoldable pub text_length : String → ℕ
text_length String.[] = 0
text_length (String.◌∷◌ c s) = suc (text_length s)

module _ (e : Ed25519) where
  unfoldable pub sign_ma_diligence_export :
      MaDiligenceExport → List ℕ → String → Result MaDiligenceExport
  unfolding text_length
  sign_ma_diligence_export x platform_private_key platform_key_id = do
    require (length platform_private_key == 32) ma_export_signature_error
    require (not (is_blank platform_key_id)) ma_export_signature_error
    require (not (ltb 128 (text_length platform_key_id))) ma_export_signature_error
    signature ← sign e platform_private_key (text x.ma_root_hash)
    ok (record x { platform_signature = some signature; platform_key_id = some platform_key_id })

  unfoldable pub verify_ma_diligence_export_signature : MaDiligenceExport → List ℕ → Result Bool
  verify_ma_diligence_export_signature x platform_public_key = elim x.platform_signature [
    | none ↦ ok false
    | some signature ↦
        if length platform_public_key != 32
        then ok false
        else verify e platform_public_key (text x.ma_root_hash) signature
  ]
