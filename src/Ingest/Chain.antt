-- ===== src/Ingest/Chain.antt =====
-- apps/api/ingest_service.py: ingests keep every tenant's receipts one verifiable chain.
use forensa.Prelude.{
  ℕ, String, ◌≡◌, sym, ◌∙◌, subst, ◌⊎◌, inl, inr, List, [], ◌∷◌, length, nat_eq, Result, ok, err,
  arith, All,
}
use forensa.Ledger.{empty_db, Db, Event, PolicySnapshot, PolicyBundle, Receipt, ReceiptRow}
use forensa.Ledger.Exec.{◌>>=◌, session_scope}
use forensa.Ledger.Returns.{Returns, >>=-Returns, session_scope-cases}
use forensa.Receipts.Build.{IsNext}
use forensa.Repositories
use forensa.Repositories.Linked.{Linked, get_latest-head, head_receipt}
use forensa.Ingest
use forensa.Ingest.Keeps.{Keeps}
use forensa.Ingest.Persist.{Persisted, persist-Persisted}
use forensa.Sign.{Ed25519}

-- The receipts of every tenant are linked.
abbrev pub AllLinked : (List ℕ → String) → Db → Type 0
AllLinked sha256 db =
    (tenant : ℕ) → Linked sha256 tenant (Repositories.of_tenant tenant db.receipts)

IsNext-sequence :
    (tenant : ℕ) (r : Receipt) (rs : List ReceiptRow) (sha256 : List ℕ → String)
    → Linked sha256 tenant rs
    → IsNext tenant (head_receipt rs) r
    → r.sequence ≡ length rs
IsNext-sequence tenant r [] sha256 l h = h.0
IsNext-sequence tenant r (q ∷ rs) sha256 l h = omega (arith, h.1, l.0)

of_tenant-cons :
    (tenant : ℕ) (r : ReceiptRow) (rs : List ReceiptRow)
    → ((r.receipt.tenant_id ≡ tenant)
        × (Repositories.of_tenant tenant (r ∷ rs) ≡ r ∷ Repositories.of_tenant tenant rs))
      ⊎ (Repositories.of_tenant tenant (r ∷ rs) ≡ Repositories.of_tenant tenant rs)
of_tenant-cons tenant r rs = ground arith

module _ (sha256 : List ℕ → String) (e : Ed25519) (services : Ingest.Services) where
  Persisted-AllLinked :
      (draws : Ingest.Draws) (event : Event) (snapshot : PolicySnapshot) (db db' : Db)
      (res : Ingest.IngestResult)
      → Persisted sha256 e services draws event snapshot db db' res
      → AllLinked sha256 db
      → AllLinked sha256 db'
  Persisted-AllLinked draws event snapshot db db' res p linked tenant =
      let row : ReceiptRow = record {
        receipt = p.receipt;
        policy_snapshot_id = draws.snapshot_id;
      } in
      let rows = Repositories.of_tenant tenant db.receipts in
      subst (λ rs. Linked sha256 tenant (Repositories.of_tenant tenant rs)) (sym p.receipt_added)
        (elim (of_tenant-cons tenant row db.receipts) [
          | inr other ↦ subst (Linked sha256 tenant) (sym other) (linked tenant)
          | inl (mine, here) ↦ subst (Linked sha256 tenant) (sym here) (
              let at : event.tenant_id ≡ tenant = sym p.built.of_tenant ∙ mine in
              let latest : p.prev ≡ head_receipt rows = cc (
                subst (λ t. Repositories.get_latest_receipt_for_tenant t db ≡ (ok p.prev, db)) at
                    p.latest,
                get_latest-head sha256 tenant db (linked tenant),
              ) in
              let link : IsNext tenant (head_receipt rows) p.receipt =
                subst (λ q. IsNext tenant q p.receipt) latest
                  (subst (λ t. IsNext t p.prev p.receipt) at p.built.linked) in
              (
                IsNext-sequence tenant p.receipt rows sha256 (linked tenant) link,
                mine,
                link,
                p.built.recomputes,
                linked tenant,
              ))
        ])

  judge-Returns :
      (draws : Ingest.Draws) (event : Event) (bundle : PolicyBundle) (db db' : Db)
      (snapshot : PolicySnapshot)
      → Returns (Ingest.judge sha256 e services draws event bundle) db snapshot db'
      → db' ≡ db
  unfolding Ingest.judge
  judge-Returns draws event bundle db db' snapshot h = ground (arith, h)

  attempt-AllLinked :
      (draws : Ingest.Draws) (event : Event) (bundle : PolicyBundle) (db : Db)
      → AllLinked sha256 db
      → AllLinked sha256
          (session_scope
            (Ingest.judge sha256 e services draws event bundle
              >>= Ingest.persist sha256 e services draws event)
            db).1
  attempt-AllLinked draws event bundle db linked =
      let judged = Ingest.judge sha256 e services draws event bundle in
      let kept = Ingest.persist sha256 e services draws event in
      elim (session_scope-cases (judged >>= kept) db) [
        | inl (res, db', ran, left) ↦
            let (snapshot, mid, a, h) = >>=-Returns judged kept db db' res ran in
            let same = judge-Returns draws event bundle db mid snapshot a in
            subst (λ o. AllLinked sha256 o.1) (sym left)
              (Persisted-AllLinked draws event snapshot mid db' res
                (persist-Persisted sha256 e services draws event snapshot mid db' res h)
                (subst (AllLinked sha256) (sym same) linked))
        | inr (x, left) ↦ subst (λ o. AllLinked sha256 o.1) (sym left) linked
      ]

  -- After an ingest that returns or raises, the receipts of each tenant are linked if they were.
  pub ingest_event-AllLinked :
      (draws : Ingest.Draws) (event : Event) (db : Db)
      → ((tenant : ℕ) → Keeps (services.get_active_bundle tenant))
      → AllLinked sha256 db
      → AllLinked sha256 (Ingest.ingest_event sha256 e services draws event db).1
  unfolding Ingest.ingest_event
  ingest_event-AllLinked draws event db keeps linked =
      of_bundle (services.get_active_bundle event.tenant_id db) (λ tenant.
        subst (λ rs. Linked sha256 tenant (Repositories.of_tenant tenant rs))
          (sym (keeps event.tenant_id db)) (linked tenant))
    where
      of_bundle :
          (o : Result PolicyBundle × Db)
          → AllLinked sha256 o.1
          → AllLinked sha256
              (elim o.0 as (λ _. Result Ingest.IngestResult × Db) [
                | ok bundle ↦
                    session_scope
                      (Ingest.judge sha256 e services draws event bundle
                        >>= Ingest.persist sha256 e services draws event)
                      o.1
                | err x ↦ (err x, o.1)
              ]).1
      of_bundle (ok bundle, mid) l = attempt-AllLinked draws event bundle mid l
      of_bundle (err x, mid) l = l

abbrev Call : Type 0
Call = Ingest.Services × Ingest.Draws × Event

module _ (sha256 : List ℕ → String) (e : Ed25519) where
  ingest_all-linked :
      (calls : List Call) (db : Db)
      → All (λ (c : Call). (tenant : ℕ) → Keeps (c.0.get_active_bundle tenant)) calls
      → AllLinked sha256 db
      → AllLinked sha256 (Ingest.ingest_all sha256 e calls db)
  unfolding Ingest.ingest_all
  ingest_all-linked [] db k l = l
  ingest_all-linked ((services, draws, event) ∷ rest) db k l =
      ingest_all-linked rest (Ingest.ingest_event sha256 e services draws event db).1 k.1
        (ingest_event-AllLinked sha256 e services draws event db k.0 l)

  -- From an empty ledger, after any sequence of ingests whose bundle providers write no
  -- receipt, the failing ingests among them, the receipts of each tenant are one chain:
  -- numbered from 0 without a gap, each linked to the hash of the one before it, and each with
  -- the hash that is recomputed of it.
  pub ingest_all-AllLinked :
      (calls : List Call)
      → All (λ (c : Call). (tenant : ℕ) → Keeps (c.0.get_active_bundle tenant)) calls
      → AllLinked sha256 (Ingest.ingest_all sha256 e calls empty_db)
  ingest_all-AllLinked calls keeps = ingest_all-linked calls empty_db keeps (λ tenant. tt)
