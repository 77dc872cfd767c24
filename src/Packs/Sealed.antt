-- ===== src/Packs/Sealed.antt =====
-- packages/export/builder.py: what the root hash of a pack seals.
use forensa.Prelude.{
  ℕ, String, ◌≡◌, sym, ap, ◌∙◌, ◌⊎◌, true, Option, List, nat_eq, string_eq, ◌==◌, ok, ◌>>◌, require,
  require-eq-ok, >>=-eq-ok, value_error, eq_iff, beq_refl,
}
use forensa.Hash.{Value, sha256_hex}
use forensa.Hash.Injective.{SameContent, Collision, sha256_hex-SameContent}
use forensa.Policy.{is_sha256_hex}
use forensa.Packs
use forensa.Packs.{
  EvidencePack, EvidencePackHeader, ReceiptEvidenceItem, ProvActivity, AnchorEvidence, PackInputs,
}

module _ (iso : ℕ → String) (sha256 : List ℕ → String) where
  -- The value that a pack's root hash is taken of.
  abbrev pub content_of : EvidencePack → Value
  content_of p = Packs.bind iso p.header p.receipts p.activities p.anchor

  pub seal_pack-sealed :
      (header : EvidencePackHeader) (items : List ReceiptEvidenceItem)
      (activities : List ProvActivity) (anchor : Option AnchorEvidence) (p : EvidencePack)
      → Packs.seal_pack iso sha256 header items activities anchor ≡ ok p
      → (p.header ≡ header)
        × (p.receipts ≡ items)
        × (p.activities ≡ activities)
        × (p.anchor ≡ anchor)
        × (Packs.is_ascending items ≡ true)
        × (sha256_hex sha256 (content_of p) ≡ ok p.root_hash)
  unfolding Packs.seal_pack Packs.make_pack
  seal_pack-sealed header items activities anchor p h =
      let sealed : String → EvidencePack = λ root. record {
        header = header;
        receipts = items;
        activities = activities;
        anchor = anchor;
        root_hash = root;
      } in
      let (root, e, made) =
        >>=-eq-ok (sha256_hex sha256 (Packs.bind iso header items activities anchor))
          (λ root. Packs.make_pack (sealed root)) h in
      let (sorted, rest) =
        require-eq-ok (Packs.is_ascending items) value_error
          (require (is_sha256_hex root) value_error >> ok (sealed root)) made in
      let (_, is) = require-eq-ok (is_sha256_hex root) value_error (ok (sealed root)) rest in
      let it : sealed root ≡ p = cc is in
      (
        sym (ap (λ (q : EvidencePack). q.header) it),
        sym (ap (λ (q : EvidencePack). q.receipts) it),
        sym (ap (λ (q : EvidencePack). q.activities) it),
        sym (ap (λ (q : EvidencePack). q.anchor) it),
        sorted,
        ap (λ q. sha256_hex sha256 (content_of q)) (sym it)
            ∙ e
            ∙ ap (λ (q : EvidencePack). ok q.root_hash) it,
      )

  pub verify-hash :
      (p : EvidencePack)
      → Packs.verify_evidence_pack iso sha256 p ≡ ok true
      → sha256_hex sha256 (content_of p) ≡ ok p.root_hash
  unfolding Packs.verify_evidence_pack
  verify-hash p h =
      let (c, e, same) =
        >>=-eq-ok (sha256_hex sha256 (content_of p)) (λ c. ok (c == p.root_hash)) h in
      e ∙ ap ok ((eq_iff c p.root_hash).0 (cc same))

  pub hash-verify :
      (p : EvidencePack)
      → sha256_hex sha256 (content_of p) ≡ ok p.root_hash
      → Packs.verify_evidence_pack iso sha256 p ≡ ok true
  unfolding Packs.verify_evidence_pack
  hash-verify p h = rw h (ap ok (beq_refl p.root_hash))

  -- Packs with one root hash that both verify.
  pub root_hash-binds :
      (p q : EvidencePack)
      → Packs.verify_evidence_pack iso sha256 p ≡ ok true
      → Packs.verify_evidence_pack iso sha256 q ≡ ok true
      → p.root_hash ≡ q.root_hash
      → SameContent (content_of p) (content_of q) ⊎ Collision sha256
  root_hash-binds p q hp hq same =
      sha256_hex-SameContent sha256 (content_of p) (content_of q) (verify-hash p hp)
        (verify-hash q hq ∙ ap ok (sym same))
