-- ===== src/Ingest/Persist.antt =====
-- apps/api/ingest_service.py: an ingest writes one complete triple, or nothing.
use forensa.Prelude.{
  ℕ, String, ◌≡◌, sym, ap, ◌∙◌, subst, true, Option, List, ◌∷◌, ◌==◌, ◌!=◌, nat_eq, string_eq, ok,
  ingest_service_error, value_error, beq_refl,
}
use forensa.Ledger.{Db, Event, PolicySnapshot, Receipt}
use forensa.Ledger.Exec.{Exec, pure, raise_if, lift, ◌>>=◌, ◌>>◌}
use forensa.Ledger.Returns.{Returns, >>=-Returns, lift-Returns, raise_if-Returns, flush-Returns}
use forensa.Receipts.{recompute_receipt_hash}
use forensa.Receipts.Build.{Built, build_receipt-Built}
use forensa.Repositories
use forensa.Repositories.Latest.{IsLatest, get_latest_receipt_for_tenant-IsLatest}
use forensa.Repositories.Keys.{Fits, allowed_triple-Fits}
use forensa.Ingest
use forensa.Sign.{Ed25519}

-- A write that returned left the triple, which agrees and which the constraints allow.
write-Returns :
    (event : Event) (snapshot : PolicySnapshot) (r : Receipt) (n : ℕ) (db db' : Db) (m : ℕ)
    → Returns (Repositories.write_event_with_receipt event snapshot r n) db m db'
    → (m ≡ n)
      × (Repositories.allowed_triple event snapshot r n db ≡ true)
      × (db' ≡ Repositories.with_triple event snapshot r n db)
unfolding Repositories.write_event_with_receipt Repositories.flush_triple
write-Returns event snapshot r n db db' m h =
    let f : Exec ℕ = Repositories.flush_triple event snapshot r n >> pure n in
    let g : Exec ℕ = raise_if (r.event_id != event.id) value_error >> f in
    let k : Exec ℕ = raise_if (r.tenant_id != event.tenant_id) value_error >> g in
    let (u, d, a, h) =
      >>=-Returns (raise_if (r.policy_bundle_id != snapshot.policy_bundle_id) value_error) (λ _. k)
        db db' m h in
    let (u1, d1, a1, h1) =
      >>=-Returns (raise_if (r.tenant_id != event.tenant_id) value_error) (λ _. g) d db' m h in
    let (u2, d2, a2, h2) =
      >>=-Returns (raise_if (r.event_id != event.id) value_error) (λ _. f) d1 db' m h1 in
    let (u3, d3, a3, h3) =
      >>=-Returns (Repositories.flush_triple event snapshot r n) (λ _. pure n) d2 db' m h2 in
    let same : d2 ≡ db =
      (raise_if-Returns (r.event_id != event.id) value_error d1 d2 u2 a2).1
      ∙ (raise_if-Returns (r.tenant_id != event.tenant_id) value_error d d1 u1 a1).1
      ∙ (raise_if-Returns (r.policy_bundle_id != snapshot.policy_bundle_id) value_error db d u
          a).1 in
    let (fits, left) =
      flush-Returns (Repositories.allowed_triple event snapshot r n)
        (Repositories.with_triple event snapshot r n) d2 d3 u3 a3 in
    (
      cc h3,
      subst (λ d. Repositories.allowed_triple event snapshot r n d ≡ true) same fits,
      cc h3 ∙ left ∙ ap (Repositories.with_triple event snapshot r n) same,
    )

module _ (sha256 : List ℕ → String) (e : Ed25519) (services : Ingest.Services) where
  -- What an ingest that returned `res` did to the database `db`, the snapshot being `snapshot`.
  pub record Persisted (draws : Ingest.Draws) (event : Event) (snapshot : PolicySnapshot)
      (db db' : Db) (res : Ingest.IngestResult) : Type 0 where
    pub receipt : Receipt
    pub prev : Option Receipt
    pub latest : Repositories.get_latest_receipt_for_tenant event.tenant_id db ≡ (ok prev, db)
    pub built :
        Built sha256 e event.tenant_id event.id event.payload snapshot draws.snapshot_id prev
          (services.get_signing_key event.tenant_id)
          (Ingest.agent_key services.get_agent_signing_key event.agent_id)
          receipt
    pub is_latest : IsLatest event.tenant_id db.receipts prev
    pub fits : Fits event snapshot receipt draws.snapshot_id db
    pub snapshot_added :
        db'.snapshots
        ≡ record { id = draws.snapshot_id; tenant_id = event.tenant_id; snapshot = snapshot }
          ∷ db.snapshots
    pub event_added : db'.events ≡ event ∷ db.events
    pub receipt_added :
        db'.receipts
        ≡ record { receipt = receipt; policy_snapshot_id = draws.snapshot_id } ∷ db.receipts
    pub bundles_kept : db'.bundles ≡ db.bundles
    pub approvals_kept : db'.approvals ≡ db.approvals
    pub hash_returned : res.receipt_hash ≡ receipt.receipt_hash
    pub sound : res.integrity_ok ≡ true

  record_receipt-Returns :
      (draws : Ingest.Draws) (event : Event) (snapshot : PolicySnapshot) (r : Receipt) (db db' : Db)
      (res : Ingest.IngestResult)
      → Returns (Ingest.record_receipt sha256 e services draws event snapshot r) db res db'
      → recompute_receipt_hash sha256 r draws.snapshot_id ≡ ok r.receipt_hash
      → (Repositories.allowed_triple event snapshot r draws.snapshot_id db ≡ true)
        × (db' ≡ Repositories.with_triple event snapshot r draws.snapshot_id db)
        × (res.receipt_hash ≡ r.receipt_hash)
        × (res.integrity_ok ≡ true)
  unfolding Ingest.record_receipt
  record_receipt-Returns draws event snapshot r db db' res h fresh =
      let report : Exec Ingest.IngestResult =
        lift (recompute_receipt_hash sha256 r draws.snapshot_id) >>= λ x.
        pure (Ingest.result_of draws event r x) in
      let (m, d, a, h1) =
        >>=-Returns (Repositories.write_event_with_receipt event snapshot r draws.snapshot_id)
          (λ m. raise_if (m != draws.snapshot_id) ingest_service_error >> report) db db' res h in
      let (u, d1, a1, h2) =
        >>=-Returns (raise_if (m != draws.snapshot_id) ingest_service_error) (λ _. report) d db' res
          h1 in
      let (x, d2, a2, h3) =
        >>=-Returns (lift (recompute_receipt_hash sha256 r draws.snapshot_id))
          (λ x. pure (Ingest.result_of draws event r x)) d1 db' res h2 in
      let (found, same2) =
        lift-Returns (recompute_receipt_hash sha256 r draws.snapshot_id) d1 d2 x a2 in
      let same1 = (raise_if-Returns (m != draws.snapshot_id) ingest_service_error d d1 u a1).1 in
      let (_, fits, written) = write-Returns event snapshot r draws.snapshot_id db d m a in
      let same : db' ≡ d = cc (h3) ∙ same2 ∙ same1 in
      let fresh_text : x ≡ r.receipt_hash = cc (found, fresh) in
      let result : Ingest.result_of draws event r x ≡ res = cc h3 in
      (
        fits,
        same ∙ written,
        sym (ap (λ (o : Ingest.IngestResult). o.receipt_hash) result),
        sym (ap (λ (o : Ingest.IngestResult). o.integrity_ok) result)
            ∙ ap (λ y. y == r.receipt_hash) fresh_text
            ∙ beq_refl r.receipt_hash,
      )

  -- When the persisting half of an ingest returns, it has added one snapshot, one event and one
  -- receipt and changed no other table; their ids are new, no receipt has the number in the
  -- tenant or the hash of the new one, and the bundle is there; the receipt is built on the
  -- receipt of the tenant with the greatest number, or on none if the tenant has none, and the
  -- answer holds its hash and reports its integrity as true.
  pub persist-Persisted :
      (draws : Ingest.Draws) (event : Event) (snapshot : PolicySnapshot) (db db' : Db)
      (res : Ingest.IngestResult)
      → Returns (Ingest.persist sha256 e services draws event snapshot) db res db'
      → Persisted draws event snapshot db db' res
  unfolding Ingest.persist Ingest.build_next Repositories.get_latest_receipt_for_tenant
  persist-Persisted draws event snapshot db db' res h =
      let write : Receipt → Exec Ingest.IngestResult =
        Ingest.record_receipt sha256 e services draws event snapshot in
      let build : Option Receipt → Exec Receipt =
        λ prev. lift (Ingest.build_next sha256 e services draws event snapshot prev) in
      let (prev, d, a, h) =
        >>=-Returns (Repositories.get_latest_receipt_for_tenant event.tenant_id)
          (λ prev. build prev >>= write) db db' res h in
      let (r, d1, a1, h1) = >>=-Returns (build prev) write d db' res h in
      let same : d ≡ db = cc a in
      let (b, same1) =
        lift-Returns (Ingest.build_next sha256 e services draws event snapshot prev) d d1 r a1 in
      let built =
        build_receipt-Built sha256 e draws.receipt_id draws.signed_at event.tenant_id event.id
          event.payload snapshot draws.snapshot_id prev (services.get_signing_key event.tenant_id)
          (Ingest.agent_key services.get_agent_signing_key event.agent_id) r b in
      let (fits, written, hash, sound) =
        record_receipt-Returns draws event snapshot r db db' res
          (subst (λ x. Returns (write r) x res db') (same1 ∙ same) h1) built.recomputes in
      record {
        receipt = r;
        prev = prev;
        latest = a ∙ ap (λ x. (ok prev, x)) same;
        built = built;
        is_latest = get_latest_receipt_for_tenant-IsLatest event.tenant_id db d prev a;
        fits = allowed_triple-Fits event snapshot r draws.snapshot_id db fits;
        snapshot_added = ap (λ (x : Db). x.snapshots) written;
        event_added = ap (λ (x : Db). x.events) written;
        receipt_added = ap (λ (x : Db). x.receipts) written;
        bundles_kept = ap (λ (x : Db). x.bundles) written;
        approvals_kept = ap (λ (x : Db). x.approvals) written;
        hash_returned = hash;
        sound = sound;
      }
