-- ===== src/Lib.antt =====
-- Forensa, an evidence ledger for the actions of agents: the core of packages/ and apps/api/ as
-- definitions that can be run, with what makes it correct.
--
-- The program. An event reaches POST /v1/events (apps/api/routes/events.py), which checks the caller,
-- looks up the idempotency key (apps/api/idempotency_store.py) and calls ingest_event
-- (apps/api/ingest_service.py). An ingest takes the active policy bundle of the tenant
-- (packages/ledger/bundle_repository.py), asks the gateway for a verdict, captures a snapshot
-- (packages/policy/snapshot.py), builds a receipt on the tenant's latest one
-- (packages/ledger/receipt_builder.py) and writes snapshot, event and receipt in one transaction
-- (packages/ledger/repositories.py). Bundles become active through an approval workflow with
-- segregated duties (packages/ledger/bundle_workflow.py). Hashes are SHA-256 of canonical JSON
-- (packages/crypto/hash.py), signatures are Ed25519 (packages/crypto/sign.py), and
-- packages/crypto/merkle.py is a hash chain of its own. packages/policy/tabletop.py simulates a policy.
-- Once a day the latest receipt of a tenant is time-stamped (packages/ledger/anchor.py). An export job
-- (packages/jobs/ma_export_runner.py, on the rows of packages/ledger/ma_export_job_repository.py) makes
-- of each anchored day in a window an evidence pack (packages/export/builder.py), and of the packs a
-- sealed and signed bundle (packages/export/ma_export.py), which packages/export/streaming.py can upload.
--
-- The files.
--   Prelude: Python's tests, equality, exceptions as values (Result, Error) and lists.
--   Json, Hash: canonical_json, _normalise and sha256_hex. Json is the part of Python's json that is used.
--   Chain: merkle.py (hash_entry is entry_hash). Sign: sign.py.
--   Ledger: the rows of models.py, and in Ledger.Exec code in a session: a function of the database
--     that returns or raises, with what it had flushed. session_scope and begin_nested roll back.
--   Workflow: bundle_workflow.py; Workflow.Steps is its specification as a step relation, and
--     Workflow.Requests runs sequences of calls. Bundles: bundle_repository.py.
--   Policy: enforcement.py, lobstertrap.py, bundle_builder.py, snapshot.py and replay.py.
--   Receipts: receipt_builder.py. Repositories: repositories.py.
--   Ingest: ingest_event; Ingest.Bootstrap is PostgresBundleProvider.
--   Auth: token.py and principal.py, and get_principal; Auth.Configured is the rest of dependencies.py.
--   Idempotency: both stores. Events: submit_event, with the store in memory. Tabletop: tabletop.py.
--   Jobs: ma_export_job_repository.py, on a table of its own.
--   Anchors: anchor.py, with its own table; Anchors.Proof shows it with the receipts of Repositories.
--   Timestamps: the client in process of tsa.py; Timestamps.Anchored shows it with Anchors.
--   Encrypt: encrypt.py, over X25519, HKDF, ChaCha20-Poly1305 and base64 as a record of functions.
--   Packs: export/schema.py and builder.py. Diligence: ma_export.py. Runner: ma_export_runner.py, over
--     Anchors, Repositories, Packs, Diligence and Jobs.
--   Streaming: streaming.py, with an uploader as an interface (Streaming.Upload states its contract),
--     and Streaming.Mock, which fills it.
--   Examples: runs of the code, with toy primitives, and the theorems at concrete inputs.
--
-- Parameters. SHA-256 is any function from bytes to texts, and collisions are answers of the theorems,
-- not excluded. Ed25519 is any record of functions, with its laws where a theorem needs them. The
-- ids and times that the code draws are arguments. What pydantic does to texts is a parameter or,
-- where it only refuses, left out. The gateway, the signing keys, the time-stamping client, the
-- encryption of a bundle, the environment and the texts that pydantic writes of datetimes and bundles
-- are arguments.
--
-- Bounds. Loops are structural recursion; the fuel of a decimal numeral is the number plus one, which
-- has fewer digits. The loop of an upload's split has as many rounds as there are bytes, and one, which
-- is enough where the chunk is not empty; the loop of the chunks of a window has as many as the window
-- has microseconds. Sequence numbers and times are natural numbers: columns have no width here.
--
-- Not modelled. Key providers, the RFC 3161 client, the normaliser, narratives, PDFs, the other
-- routes, migrations and the console; tenants and agents as tables; floats in payloads; concurrent
-- transactions, which run one after another, with the unique indexes checked at each flush.
pub mod Anchors
pub mod Prelude
pub mod Json
pub mod Hash
pub mod Chain
pub mod Ledger
pub mod Workflow
pub mod Bundles
pub mod Policy
pub mod Sign
pub mod Receipts
pub mod Repositories
pub mod Ingest
pub mod Idempotency
pub mod Events
pub mod Tabletop
pub mod Jobs
pub mod Streaming
pub mod Packs
pub mod Diligence
pub mod Runner
pub mod Auth
pub mod Timestamps
pub mod Encrypt
pub mod Examples
