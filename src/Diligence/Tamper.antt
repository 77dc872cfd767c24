-- ===== src/Diligence/Tamper.antt =====
-- packages/export/ma_export.py: what the root hash of a bundle determines.
use forensa.Prelude.{
  ℕ, String, ◌≡◌, refl, sym, ap, ◌∙◌, ◌⊎◌, inl, inr, true, Option, none, some, List, [], ◌∷◌, map,
  ok, >>=-eq-ok, uuid_str, string_eq, ◌==◌, eq_iff,
}
use forensa.Json.{
  Json, pos, int, str, arr, Items, nil, cons, obj, member, end, sort_keys, sort_items,
  insert_member, dumps,
}
use forensa.Json.Unique.{dumps_injective}
use forensa.Hash.{Value, text, canonical_json, normalise, normalise_elements, sha256_hex}
use forensa.Hash.Injective.{Collision, digest_cases}
use forensa.Packs.{EvidencePack, AnchorEvidence, listed, elements_of}
use forensa.Diligence
use forensa.Diligence.{MaDiligenceExport, MaDiligenceHeader}

-- The root hash of an anchor, where it has one.
abbrev pub root_or_empty : Option String → String
root_or_empty none = ""
root_or_empty (some h) = h

-- Two bundles agree on their headers, as the texts of their fields, on the root hashes of their packs
-- and anchors in order, and on the ids of their anchors up to the order.
pub record SameSeal (iso : ℕ → String) (x y : MaDiligenceExport) : Type 0 where
  pub export_id : uuid_str x.header.export_id ≡ uuid_str y.header.export_id
  pub tenant : uuid_str x.header.tenant_id ≡ uuid_str y.header.tenant_id
  pub generated_at : iso x.header.generated_at ≡ iso y.header.generated_at
  pub scope_start : iso x.header.scope_start ≡ iso y.header.scope_start
  pub scope_end : iso x.header.scope_end ≡ iso y.header.scope_end
  pub pack_count : x.header.pack_count ≡ y.header.pack_count
  pub anchor_count : x.header.anchor_count ≡ y.header.anchor_count
  pub receipt_count : x.header.total_receipt_count ≡ y.header.total_receipt_count
  pub packs :
      map (λ (p : EvidencePack). p.root_hash) x.evidence_packs
      ≡ map (λ (p : EvidencePack). p.root_hash) y.evidence_packs
  pub anchor_ids :
      Diligence.sort_texts (map (λ (a : AnchorEvidence). uuid_str a.anchor_id) x.anchor_proofs)
      ≡ Diligence.sort_texts (map (λ (a : AnchorEvidence). uuid_str a.anchor_id) y.anchor_proofs)
  pub anchor_roots :
      map (λ (a : AnchorEvidence). root_or_empty a.root_hash) x.anchor_proofs
      ≡ map (λ (a : AnchorEvidence). root_or_empty a.root_hash) y.anchor_proofs

abbrev strs : List String → Items
strs [] = nil
strs (s ∷ ss) = cons (str s) (strs ss)

strs-injective : (xs ys : List String) → strs xs ≡ strs ys → xs ≡ ys
strs-injective [] [] h = refl
strs-injective [] (y ∷ ys) h = cc h
strs-injective (x ∷ xs) [] h = cc h
strs-injective (x ∷ xs) (y ∷ ys) h =
    let tail : strs xs ≡ strs ys = cc h in
    let head : x ≡ y = cc h in cc (head, strs-injective xs ys tail)

sort_items-strs : (xs : List String) → sort_items (strs xs) ≡ strs xs
unfolding sort_items sort_keys
sort_items-strs [] = refl
sort_items-strs (x ∷ xs) = ap (cons (str x)) (sort_items-strs xs)

normalise_elements-strs :
    (xs : List String) → normalise_elements (elements_of text xs) ≡ ok (strs xs)
unfolding normalise_elements normalise elements_of
normalise_elements-strs [] = refl
normalise_elements-strs (x ∷ xs) = rw (normalise_elements-strs xs) refl

normalise-listed : (xs : List String) → normalise (listed text xs) ≡ ok (arr (strs xs))
unfolding normalise listed
normalise-listed xs = rw (normalise_elements-strs xs) refl

abbrev pack_roots : MaDiligenceExport → List String
pack_roots x = map (λ (p : EvidencePack). p.root_hash) x.evidence_packs

abbrev ids : MaDiligenceExport → List String
ids x = Diligence.sort_texts (map (λ (a : AnchorEvidence). uuid_str a.anchor_id) x.anchor_proofs)

abbrev roots : MaDiligenceExport → List String
roots x = map (λ (a : AnchorEvidence). root_or_empty a.root_hash) x.anchor_proofs

module _ (iso : ℕ → String) where
  sealed : MaDiligenceExport → Json
  sealed x = obj (
      member "header"
        (obj (
          member "export_id" (str (uuid_str x.header.export_id)) (
            member "tenant_id" (str (uuid_str x.header.tenant_id)) (
              member "generated_at" (str (iso x.header.generated_at)) (
                member "scope_start" (str (iso x.header.scope_start)) (
                  member "scope_end" (str (iso x.header.scope_end)) (
                    member "pack_count" (int (pos x.header.pack_count)) (
                      member "anchor_count" (int (pos x.header.anchor_count)) (
                        member "total_receipt_count" (int (pos x.header.total_receipt_count))
                          end)))))))))
        (member "pack_root_hashes" (arr (strs (pack_roots x))) (
          member "anchor_ids" (arr (strs (ids x)))
            (member "anchor_root_hashes" (arr (strs (roots x))) end))))

  sorted : MaDiligenceExport → Json
  sorted x = obj (
      member "anchor_ids" (arr (strs (ids x))) (
        member "anchor_root_hashes" (arr (strs (roots x))) (
          member "header"
            (obj (
              member "anchor_count" (int (pos x.header.anchor_count)) (
                member "export_id" (str (uuid_str x.header.export_id)) (
                  member "generated_at" (str (iso x.header.generated_at)) (
                    member "pack_count" (int (pos x.header.pack_count)) (
                      member "scope_end" (str (iso x.header.scope_end)) (
                        member "scope_start" (str (iso x.header.scope_start)) (
                          member "tenant_id" (str (uuid_str x.header.tenant_id)) (
                            member "total_receipt_count" (int (pos x.header.total_receipt_count))
                              end)))))))))
            (member "pack_root_hashes" (arr (strs (pack_roots x))) end))))

  sort_keys-sealed : (x : MaDiligenceExport) → sort_keys (sealed x) ≡ sorted x
  unfolding sealed sorted sort_keys insert_member
  sort_keys-sealed x =
      rw (sort_items-strs (pack_roots x), sort_items-strs (ids x), sort_items-strs (roots x)) refl

  sorted-SameSeal : (x y : MaDiligenceExport) → sorted x ≡ sorted y → SameSeal iso x y
  unfolding sorted
  sorted-SameSeal x y h = record {
    export_id = cc h;
    tenant = cc h;
    generated_at = cc h;
    scope_start = cc h;
    scope_end = cc h;
    pack_count = cc h;
    anchor_count = cc h;
    receipt_count = cc h;
    packs = strs-injective (pack_roots x) (pack_roots y) (cc h);
    anchor_ids = strs-injective (ids x) (ids y) (cc h);
    anchor_roots = strs-injective (roots x) (roots y) (cc h);
  }

  normalise-content_of :
      (x : MaDiligenceExport)
      → normalise (Diligence.content_of iso x.header x.evidence_packs x.anchor_proofs)
        ≡ ok (sealed x)
  unfolding normalise Diligence.bind Diligence.dump_header sealed
  normalise-content_of x =
      rw (normalise-listed (pack_roots x), normalise-listed (ids x), normalise-listed (roots x))
        refl

  module _ (sha256 : List ℕ → String) where
    hash_of :
        (v : Value) (j : Json) → normalise v ≡ ok j → sha256_hex sha256 v ≡ ok (sha256 (dumps j))
    unfolding sha256_hex canonical_json
    hash_of v j h = rw h refl

    verify-hash :
        (x : MaDiligenceExport)
        → Diligence.verify_ma_diligence_export iso sha256 x ≡ ok true
        → sha256 (dumps (sealed x)) ≡ x.ma_root_hash
    unfolding Diligence.verify_ma_diligence_export
    verify-hash x h =
        let content = Diligence.content_of iso x.header x.evidence_packs x.anchor_proofs in
        let (computed, e, is) =
          >>=-eq-ok (sha256_hex sha256 content) (λ (c : String). ok (c == x.ma_root_hash)) h in
        let hashed : sha256_hex sha256 content ≡ ok (sha256 (dumps (sealed x))) =
          hash_of content (sealed x) (normalise-content_of x) in
        cc (e, hashed, (eq_iff computed x.ma_root_hash).0 (cc is))

    -- Two bundles with one root hash that both verify agree on the fields of their headers
    -- (ids and times as texts), on the root hashes of their packs and of their anchors in
    -- order (a missing one as the empty text), and on the sorted ids of their anchors, or two
    -- messages with one SHA-256 digest have been found.
    pub verify_ma_diligence_export-binds :
        (x y : MaDiligenceExport)
        → Diligence.verify_ma_diligence_export iso sha256 x ≡ ok true
        → Diligence.verify_ma_diligence_export iso sha256 y ≡ ok true
        → x.ma_root_hash ≡ y.ma_root_hash
        → SameSeal iso x y ⊎ Collision sha256
    verify_ma_diligence_export-binds x y h k same =
        elim (digest_cases sha256 (dumps (sealed x)) (dumps (sealed y))
          (verify-hash x h ∙ same ∙ sym (verify-hash y k))) [
            | inl equal ↦ inl (
                sorted-SameSeal x y (
                  sym (sort_keys-sealed x)
                  ∙ dumps_injective (sealed x) (sealed y) equal
                  ∙ sort_keys-sealed y))
            | inr c ↦ inr c
          ]
