-- ===== src/Prelude/Results.antt =====
-- Python's exceptions as values. One type for the classes that the modelled code raises, so that an
-- exception passes through the layers as it does in the program.
use mathlib.Core.Path.{◌≡◌, refl}
use mathlib.Core.Bool.{Bool, true, false}

pub data Error : Type 0 where
  -- the built-in ones
  value_error type_error key_error : Error
  -- packages/crypto
  chain_error : Error
  -- packages/policy
  bundle_hash_mismatch snapshot_drift replay_resolution enforcement_error tabletop_error : Error
  -- packages/ledger: `BundleWorkflowError` and its two subclasses, and the others
  workflow_error bundle_not_found segregation_error receipt_chain_error : Error
  job_state_error anchor_exists : Error
  -- SQLAlchemy's, raised at a flush and by `scalar_one_or_none`
  integrity_error multiple_results : Error
  -- packages/export, and the `NotImplementedError` of a stub
  s3_upload_error evidence_pack_error ma_export_error ma_export_signature_error : Error
  ma_export_runner_error not_implemented : Error
  -- apps/api
  ingest_service_error idempotency_conflict : Error
  invalid_token expired_token attribute_error timestamp_client_error : Error
  encrypt_error decrypt_error : Error

pub data Result {ℓ} (A : Type ℓ) : Type ℓ where
  ok : A → Result A
  err : Error → Result A

-- `if not held: raise failure`
abbrev pub require : Bool → Error → Result (Unit {0})
require false failure = err failure
require true failure = ok tt

infixl 5 ◌>>=◌ ◌>>◌
-- What follows a call runs on the value that it returns.
abbrev pub ◌>>=◌ {ℓ κ} : {X : Type ℓ} {Y : Type κ} → Result X → (X → Result Y) → Result Y
err failure >>= rest = err failure
ok x >>= rest = rest x

-- What follows a guard.
abbrev pub ◌>>◌ {κ} : {Y : Type κ} → Result (Unit {0}) → Result Y → Result Y
guarded >> rest = guarded >>= λ _. rest

-- A chain that returned ran its first call to the end, and the rest on what that returned.
pub >>=-eq-ok {ℓ κ} :
    {X : Type ℓ} {Y : Type κ} (call : Result X) (rest : X → Result Y) {y : Y}
    → (call >>= rest) ≡ ok y
    → (x : X) × (call ≡ ok x) × (rest x ≡ ok y)
>>=-eq-ok (err failure) rest returned = cc
>>=-eq-ok (ok x) rest returned = (x, refl, returned)

-- What follows a guard ran only where the guard held.
pub require-eq-ok {ℓ} :
    {A : Type ℓ} (b : Bool) (e : Error) (m : Result A) {a : A}
    → (require b e >> m) ≡ ok a
    → (b ≡ true) × (m ≡ ok a)
require-eq-ok true e m h = (refl, h)
require-eq-ok false e m h = cc
