-- ===== src/Runner/Bundle.antt =====
-- packages/jobs/ma_export_runner.py: the bundle that a run builds.
use forensa.Prelude.{
  ℕ, ◌+◌, ◌%◌, ◌≤◌, ◌≡◌, refl, sym, ap, ◌∙◌, subst, true, not, List, [], ◌∷◌, length, All, ltb,
  nat_eq, Result, ok, ◌>>=◌, ◌>>◌, require, require-eq-ok, >>=-eq-ok, arith, ma_export_error,
}
use forensa.Ledger.{Db, Receipt}
use forensa.Repositories
use forensa.Anchors.{AnchorRow, day_length}
use forensa.Anchors.Table.{IsSound}
use forensa.Packs
use forensa.Packs.{EvidencePack, AnchorEvidence}
use forensa.Packs.Content.{build_evidence_pack-IsPackOf}
use forensa.Diligence
use forensa.Diligence.{MaDiligenceExport}
use forensa.Diligence.Sealed.{build_ma_diligence_export-IsExportOf}
use forensa.Runner
use forensa.Runner.Scope.{
  IsAnchor, InWindow, anchor_count, length-anchors_in_scope, midnights, in_scope,
}
use forensa.Runner.{World, Services, Draws}

-- A pack of a bundle for a window.
pub record IsDayPack (s : Services) (tenant scope_start scope_end : ℕ) (p : EvidencePack)
    : Type 0 where
  pub verifies : Packs.verify_evidence_pack s.iso s.sha256 p ≡ ok true
  pub of_tenant : p.header.tenant_id ≡ tenant
  pub few : p.header.receipt_count ≤ 1000
  pub of_midnight : p.header.scope_start % day_length ≡ 0
  pub not_before : scope_start ≤ p.header.scope_start
  pub not_after : p.header.scope_end ≤ scope_end

-- The anchor of a row of the tenant in the window.
pub record IsProofOf (tenant scope_start scope_end : ℕ) (anchors : List AnchorRow)
    (x : AnchorEvidence) : Type 0 where
  pub row : AnchorRow
  pub there : IsAnchor row anchors
  pub of_tenant : row.tenant_id ≡ tenant
  pub not_before : scope_start ≤ row.anchor_date
  pub not_after : row.anchor_date ≤ scope_end
  pub id_is : x.anchor_id ≡ row.id
  pub root_is : x.root_hash ≡ row.root_hash

module _ (s : Services) (d : Draws) (tenant scope_start scope_end : ℕ)
    (anchors : List AnchorRow) where
  proof-IsProofOf :
      (row : AnchorRow) (x : AnchorEvidence)
      → InWindow tenant scope_start scope_end anchors row
      → Packs.from_anchor_row row ≡ ok x
      → IsProofOf tenant scope_start scope_end anchors x
  unfolding Packs.from_anchor_row
  proof-IsProofOf row x (_, there, mine, least, most) h = record {
    row = row;
    there = there;
    of_tenant = mine;
    not_before = least;
    not_after = most;
    id_is = ground (arith, h);
    root_is = ground (arith, h);
  }

  pack_for-IsDayPack :
      (db : Db) (n : ℕ) (row : AnchorRow) (one : AnchorEvidence × EvidencePack)
      → scope_start ≤ row.anchor_date
      → row.anchor_date % day_length ≡ 0
      → Runner.pack_for s d tenant scope_start scope_end db n row ≡ ok one
      → IsDayPack s tenant scope_start scope_end one.1 × (Packs.from_anchor_row row ≡ ok one.0)
  unfolding Runner.pack_for
  pack_for-IsDayPack db n row one le midnight h =
      let listing =
        (Repositories.list_receipts_with_snapshot_for_tenant tenant
          (Runner.chunk_start scope_start row) (Runner.chunk_end scope_end row)
          (Runner.max_receipts_per_pack + 1) db).0 in
      let inputs = λ (pairs : List (Receipt × ℕ)) (evidence : AnchorEvidence).
        Runner.pack_inputs d n tenant scope_start scope_end row pairs evidence in
      let packing : AnchorEvidence → List (Receipt × ℕ) → Result (AnchorEvidence × EvidencePack) =
        λ evidence pairs.
          Packs.build_evidence_pack s.iso s.sha256 (inputs pairs evidence) >>= λ pack.
          ok (evidence, pack) in
      let counted : AnchorEvidence → List (Receipt × ℕ) → Result (AnchorEvidence × EvidencePack) =
        λ evidence pairs.
          require (not (ltb 1000 (length pairs))) ma_export_error >> packing evidence pairs in
      let (evidence, read, h1) =
        >>=-eq-ok (Packs.from_anchor_row row) (λ evidence. listing >>= counted evidence) h in
      let (pairs, _, h2) = >>=-eq-ok listing (counted evidence) h1 in
      let (few, h3) =
        require-eq-ok (not (ltb 1000 (length pairs))) ma_export_error (packing evidence pairs) h2 in
      let build = Packs.build_evidence_pack s.iso s.sha256 (inputs pairs evidence) in
      let (pack, made, is) = >>=-eq-ok build (λ pack. ok (evidence, pack)) h3 in
      let p = build_evidence_pack-IsPackOf s.iso s.sha256 (inputs pairs evidence) pack made in
      subst
        (λ (o : AnchorEvidence × EvidencePack).
          IsDayPack s tenant scope_start scope_end o.1 × (Packs.from_anchor_row row ≡ ok o.0))
        {x = (evidence, pack)} {y = one} (cc is)
        (
          record {
            verifies = p.verifies;
            of_tenant = ap (λ (q : Packs.EvidencePackHeader). q.tenant_id) p.header_is;
            few =
                ground
                  (arith, few, ap (λ (q : Packs.EvidencePackHeader). q.receipt_count) p.header_is);
            of_midnight = omega (
              arith,
              midnight,
              le,
              ap (λ (q : Packs.EvidencePackHeader). q.scope_start) p.header_is,
            );
            not_before =
                omega (arith, ap (λ (q : Packs.EvidencePackHeader). q.scope_start) p.header_is);
            not_after =
                omega (arith, ap (λ (q : Packs.EvidencePackHeader). q.scope_end) p.header_is);
          },
          read,
        )

  packs_for-IsDayPack :
      (db : Db) (n : ℕ) (rows : List AnchorRow) (parts : List AnchorEvidence × List EvidencePack)
      → All (InWindow tenant scope_start scope_end anchors) rows
      → Runner.packs_for s d tenant scope_start scope_end db n rows ≡ ok parts
      → All (IsDayPack s tenant scope_start scope_end) parts.1
        × All (IsProofOf tenant scope_start scope_end anchors) parts.0
        × (length parts.1 ≡ length rows)
        × (length parts.0 ≡ length rows)
  unfolding Runner.packs_for
  packs_for-IsDayPack db n [] parts a h =
      subst
        (λ (q : List AnchorEvidence × List EvidencePack).
          All (IsDayPack s tenant scope_start scope_end) q.1
          × All (IsProofOf tenant scope_start scope_end anchors) q.0
          × (length q.1 ≡ length {A = AnchorRow} [])
          × (length q.0 ≡ length {A = AnchorRow} []))
        {x = ([], [])} {y = parts} (cc h) (tt, tt, refl, refl)
  packs_for-IsDayPack db n (row ∷ rows) parts a h =
      let more : AnchorEvidence × EvidencePack → Result (List AnchorEvidence × List EvidencePack) =
        λ one. Runner.packs_for s d tenant scope_start scope_end db (n + 1) rows >>= λ rest.
        ok (one.0 ∷ rest.0, one.1 ∷ rest.1) in
      let (one, made, h1) =
        >>=-eq-ok (Runner.pack_for s d tenant scope_start scope_end db n row) more h in
      let (rest, later, is) =
        >>=-eq-ok (Runner.packs_for s d tenant scope_start scope_end db (n + 1) rows)
          (λ rest. ok (one.0 ∷ rest.0, one.1 ∷ rest.1)) h1 in
      let day = pack_for-IsDayPack db n row one a.0.3 a.0.0 made in
      let (all, evidence, packs, proofs) = packs_for-IsDayPack db (n + 1) rows rest a.1 later in
      subst
        (λ (q : List AnchorEvidence × List EvidencePack).
          All (IsDayPack s tenant scope_start scope_end) q.1
          × All (IsProofOf tenant scope_start scope_end anchors) q.0
          × (length q.1 ≡ length (row ∷ rows))
          × (length q.0 ≡ length (row ∷ rows)))
        {x = (one.0 ∷ rest.0, one.1 ∷ rest.1)} {y = parts} (cc is)
        (
          (day.0, all),
          (proof-IsProofOf row one.0 a.0 day.1, evidence),
          omega (arith, packs),
          omega (arith, proofs),
        )

-- A bundle for a window, on a sound table of anchors.
pub record IsBundle (s : Services) (tenant scope_start scope_end : ℕ) (w : World)
    (x : MaDiligenceExport) : Type 0 where
  pub verifies : Diligence.verify_ma_diligence_export s.iso s.sha256 x ≡ ok true
  pub packs : All (IsDayPack s tenant scope_start scope_end) x.evidence_packs
  pub of_anchors : length x.evidence_packs ≡ anchor_count tenant scope_start scope_end w.anchors
  pub proofs : length x.anchor_proofs ≡ length x.evidence_packs
  pub proofs_are : All (IsProofOf tenant scope_start scope_end w.anchors) x.anchor_proofs
  pub packs_bound : length x.evidence_packs ≤ 366
  pub receipts_bound : x.header.total_receipt_count ≤ 100_000
  pub of_tenant : x.header.tenant_id ≡ tenant

-- On a sound table of anchors, a bundle that the runner builds verifies, is of the tenant, and
-- has as many packs, and as many proofs, as the table has anchors of the tenant in the window,
-- 366 at most, and 100,000 receipts at most; each proof has the id and the root of such an
-- anchor; each pack verifies, is of the tenant, has 1000 receipts at most, starts at a midnight
-- that is not before the window, and ends no later than the window.
pub build_export-IsBundle :
    (s : Services) (d : Draws) (tenant scope_start scope_end : ℕ) (w : World)
    (x : MaDiligenceExport)
    → IsSound w.anchors
    → Runner.build_export s d tenant scope_start scope_end w ≡ ok x
    → IsBundle s tenant scope_start scope_end w x
unfolding Runner.build_export
build_export-IsBundle s d tenant scope_start scope_end w x sound h =
    let rows = Runner.anchors_in_scope tenant scope_start scope_end w.anchors in
    let sealing : List AnchorEvidence × List EvidencePack → Result MaDiligenceExport = λ parts.
      Diligence.build_ma_diligence_export s.iso s.sha256
        (Runner.export_inputs d tenant scope_start scope_end parts) in
    let packing = Runner.packs_for s d tenant scope_start scope_end w.db 0 rows in
    let (few, h1) =
      require-eq-ok (not (ltb 366 (length rows))) ma_export_error (packing >>= sealing) h in
    let (parts, made, h2) = >>=-eq-ok packing sealing h1 in
    let (all, evidence, count, proofs) =
      packs_for-IsDayPack s d tenant scope_start scope_end w.anchors w.db 0 rows parts
        (in_scope tenant scope_start scope_end w.anchors (midnights w.anchors sound)) made in
    let e =
      build_ma_diligence_export-IsExportOf s.iso s.sha256
        (Runner.export_inputs d tenant scope_start scope_end parts) x h2 in
    record {
      verifies = e.verifies;
      packs = subst (All (IsDayPack s tenant scope_start scope_end)) (sym e.packs_are) all;
      of_anchors =
          ap (λ (ps : List EvidencePack). length ps) e.packs_are
          ∙ count
          ∙ length-anchors_in_scope tenant scope_start scope_end w.anchors (ground (arith, few));
      proofs =
          ap (λ (ps : List AnchorEvidence). length ps) e.anchors_are
          ∙ proofs
          ∙ sym count
          ∙ sym (ap (λ (ps : List EvidencePack). length ps) e.packs_are);
      proofs_are =
          subst (All (IsProofOf tenant scope_start scope_end w.anchors)) (sym e.anchors_are)
            evidence;
      packs_bound = e.packs_bound;
      receipts_bound = e.receipts_bound;
      of_tenant = ap (λ (q : Diligence.MaDiligenceHeader). q.tenant_id) e.header_is;
    }
