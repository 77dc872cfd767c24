-- ===== src/Diligence/Sealed.antt =====
-- packages/export/ma_export.py: what the seal and the signature of a bundle say.
use forensa.Prelude.{
  ℕ, ◌≤◌, String, ◌≡◌, refl, sym, subst, ap, ◌∙◌, true, not, some, none, List, length, nat_eq,
  string_eq, ◌==◌, ltb, ok, ◌>>=◌, ◌>>◌, require, require-eq-ok, >>=-eq-ok, value_error,
  ma_export_error, ma_export_signature_error, beq_refl, arith, is_blank,
}
use forensa.Hash.{text, sha256_hex}
use forensa.Policy.{is_sha256_hex}
use forensa.Sign.{Ed25519, Ed25519Laws, sign, verify-sign}
use forensa.Diligence
use forensa.Diligence.{MaDiligenceExport, ExportInputs}

-- A bundle of its inputs.
pub record IsExportOf (iso : ℕ → String) (sha256 : List ℕ → String) (i : ExportInputs)
    (x : MaDiligenceExport) : Type 0 where
  pub window : i.scope_start ≤ i.scope_end
  pub packs_bound : length x.evidence_packs ≤ 366
  pub receipts_bound : x.header.total_receipt_count ≤ 100_000
  pub of_tenant : Diligence.all_packs_of x.header.tenant_id x.evidence_packs ≡ true
  pub header_is : x.header ≡ Diligence.header_of i
  pub packs_are : x.evidence_packs ≡ i.evidence_packs
  pub anchors_are : x.anchor_proofs ≡ i.anchor_proofs
  pub verifies : Diligence.verify_ma_diligence_export iso sha256 x ≡ ok true

module _ (iso : ℕ → String) (sha256 : List ℕ → String) where
  seal_export-sealed :
      (i : ExportInputs) (x : MaDiligenceExport)
      → Diligence.seal_export iso sha256 i ≡ ok x
      → (x.header ≡ Diligence.header_of i)
        × (x.evidence_packs ≡ i.evidence_packs)
        × (x.anchor_proofs ≡ i.anchor_proofs)
        × (Diligence.verify_ma_diligence_export iso sha256 x ≡ ok true)
  unfolding Diligence.seal_export Diligence.make_export Diligence.verify_ma_diligence_export
  seal_export-sealed i x h =
      let content =
        Diligence.content_of iso (Diligence.header_of i) i.evidence_packs i.anchor_proofs in
      let sealed : String → MaDiligenceExport = λ root. record {
        header = Diligence.header_of i;
        evidence_packs = i.evidence_packs;
        anchor_proofs = i.anchor_proofs;
        ma_root_hash = root;
        platform_signature = none;
        platform_key_id = none;
      } in
      let (root, e, made) =
        >>=-eq-ok (sha256_hex sha256 content) (λ r. Diligence.make_export (sealed r)) h in
      let (_, is) = require-eq-ok (is_sha256_hex root) value_error (ok (sealed root)) made in
      let it : sealed root ≡ x = cc is in
      let verified : Diligence.verify_ma_diligence_export iso sha256 (sealed root) ≡ ok true =
        rw e (ap ok (beq_refl root)) in
      (
        sym (ap (λ (q : MaDiligenceExport). q.header) it),
        sym (ap (λ (q : MaDiligenceExport). q.evidence_packs) it),
        sym (ap (λ (q : MaDiligenceExport). q.anchor_proofs) it),
        ap (Diligence.verify_ma_diligence_export iso sha256) (sym it) ∙ verified,
      )

  -- A bundle that is built.
  pub build_ma_diligence_export-IsExportOf :
      (i : ExportInputs) (x : MaDiligenceExport)
      → Diligence.build_ma_diligence_export iso sha256 i ≡ ok x
      → IsExportOf iso sha256 i x
  unfolding Diligence.build_ma_diligence_export
  build_ma_diligence_export-IsExportOf i x h =
      let sealing = Diligence.seal_export iso sha256 i in
      let mine = Diligence.all_packs_of i.tenant_id i.evidence_packs in
      let few = not (ltb 100_000 (Diligence.total_receipts i.evidence_packs)) in
      let short = not (ltb 366 (length i.evidence_packs)) in
      let (window, h1) =
        require-eq-ok (not (ltb i.scope_end i.scope_start)) ma_export_error
          (require short ma_export_error
            >> (require few ma_export_error >> (require mine ma_export_error >> sealing)))
          h in
      let (packs, h2) =
        require-eq-ok short ma_export_error
          (require few ma_export_error >> (require mine ma_export_error >> sealing)) h1 in
      let (total, h3) =
        require-eq-ok few ma_export_error (require mine ma_export_error >> sealing) h2 in
      let (tenant, h4) = require-eq-ok mine ma_export_error sealing h3 in
      let (hd, pk, an, v) = seal_export-sealed i x h4 in
      record {
        window = ground (arith, window);
        packs_bound = ground (arith, packs, pk);
        receipts_bound = ground (arith, total, hd);
        of_tenant = ground (arith, tenant, hd, pk);
        header_is = hd;
        packs_are = pk;
        anchors_are = an;
        verifies = v;
      }

module _ (e : Ed25519) (laws : Ed25519Laws e) where
  -- Under the laws of Ed25519, a bundle that is signed verifies under the public key of the key
  -- that signed it, names the key, and is otherwise the bundle that was signed.
  pub sign_ma_diligence_export-verifies :
      (x y : MaDiligenceExport) (key : List ℕ) (key_id : String)
      → Diligence.sign_ma_diligence_export e x key key_id ≡ ok y
      → (Diligence.verify_ma_diligence_export_signature e y (e.public_key key) ≡ ok true)
        × (y.platform_key_id ≡ some key_id)
        × (record y {
          platform_signature = x.platform_signature;
          platform_key_id = x.platform_key_id;
        }
            ≡ x)
  unfolding Diligence.sign_ma_diligence_export Diligence.verify_ma_diligence_export_signature
  sign_ma_diligence_export-verifies x y key key_id h =
      let signed : List ℕ → MaDiligenceExport =
        λ s. record x { platform_signature = some s; platform_key_id = some key_id } in
      let signing = sign e key (text x.ma_root_hash) >>= λ s. ok (signed s) in
      let long = not (ltb 128 (Diligence.text_length key_id)) in
      let (size, h1) =
        require-eq-ok (length key == 32) ma_export_signature_error
          (require (not (is_blank key_id)) ma_export_signature_error
            >> (require long ma_export_signature_error >> signing))
          h in
      let (_, h2) =
        require-eq-ok (not (is_blank key_id)) ma_export_signature_error
          (require long ma_export_signature_error >> signing) h1 in
      let (_, h3) = require-eq-ok long ma_export_signature_error signing h2 in
      let (s, made, is) = >>=-eq-ok (sign e key (text x.ma_root_hash)) (λ s. ok (signed s)) h3 in
      let it : signed s ≡ y = cc is in
      let good = verify-sign e laws key (text x.ma_root_hash) s made in
      let wide = laws.length-public_key key ((nat_eq.beq_iff (length key) 32).0 size) in
      subst
        (λ y.
          (Diligence.verify_ma_diligence_export_signature e y (e.public_key key) ≡ ok true)
          × (y.platform_key_id ≡ some key_id)
          × (record y {
            platform_signature = x.platform_signature;
            platform_key_id = x.platform_key_id;
          }
              ≡ x))
        it (ground (arith, wide, good.1), refl, refl)
