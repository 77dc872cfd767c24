-- ===== src/Anchors.antt =====
-- packages/ledger/anchor.py: the daily timestamp anchors of a tenant's receipts. The table of anchors
-- is the list of its rows, the newest first; a call that raises leaves its caller's transaction to be
-- rolled back, so it is a result. The time-stamping client is a parameter, and the answer of one
-- request is an option: `none` is `TimestampClientError`. A text that the client answers is as long
-- as its column allows, and a day lies within the years that Python's datetime has.
pub mod Days
pub mod Table
pub mod Runs
pub mod Proof
use forensa.Prelude.{
  ℕ, suc, ◌-◌, ◌+◌, ◌%◌, String, Bool, true, false, not, ◌&&◌, ◌||◌, Option, none, some, List, [],
  ◌∷◌, length, take, filter, sort_desc, ltb, if◌then◌else◌, ◌==◌, ◌!=◌, nat_eq, string_eq,
  option_eq, Result, ok, err, ◌>>=◌, ◌>>◌, require, value_error, anchor_exists, integrity_error,
  multiple_results,
}
use forensa.Ledger.{Db, Receipt, ReceiptRow}
use forensa.Repositories

pub data AnchorStatus : Type 0 where
  anchored deferred : AnchorStatus

pub record AnchorRow : Type 0 where
  pub id : ℕ
  pub tenant_id : ℕ
  pub anchor_date : ℕ
  pub root_hash : Option String
  pub tsa_identifier : String
  pub tsr_bytes : Option (List ℕ)
  pub tsa_signature : Option (List ℕ)
  pub timestamped_at : Option ℕ
  pub anchored_at : ℕ
  pub status : AnchorStatus

pub record AnchorResult : Type 0 where
  pub anchor_id : ℕ
  pub status : AnchorStatus
  pub root_hash : Option String
  pub timestamped_at : Option ℕ
  pub receipts_covered : ℕ

pub record TimestampResponse : Type 0 where
  pub tsa_identifier : String
  pub tsr_bytes : List ℕ
  pub timestamped_at : ℕ
  pub hashed_root : String
  pub signature : List ℕ

-- What the code asks of a client: a time stamp, and its two attributes where it has them.
pub record TimestampClient : Type 0 where
  pub request_timestamp : String → Option TimestampResponse
  pub identifier : Option String
  pub endpoint_url : Option String

-- A datetime with no zone, or one with a zone by its instant: microseconds since a UTC midnight.
pub data DateTime : Type 0 where
  naive : ℕ → DateTime
  aware : ℕ → DateTime

-- Microseconds of a day.
abbrev pub day_length : ℕ
day_length = 86_400_000_000

unfoldable pub day_bounds : DateTime → Result (ℕ × ℕ)
day_bounds (naive t) = err value_error
day_bounds (aware t) = ok (t - t % day_length, t - t % day_length + (day_length - 1))

unfoldable pub normalised_anchor_date : DateTime → Result ℕ
unfolding day_bounds
normalised_anchor_date day = do bounds ← day_bounds day; ok bounds.0

abbrev pub is_anchored : AnchorStatus → Bool
is_anchored anchored = true
is_anchored deferred = false

abbrev pub scalar_one_or_none {ℓ} : {A : Type ℓ} → List A → Result (Option A)
scalar_one_or_none [] = ok none
scalar_one_or_none (a ∷ []) = ok (some a)
scalar_one_or_none (a ∷ b ∷ rest) = err multiple_results

abbrev pub is_for : ℕ → ℕ → AnchorRow → Bool
is_for tenant date r = r.tenant_id == tenant && r.anchor_date == date

unfoldable pub get_existing_row : ℕ → ℕ → List AnchorRow → Result (Option AnchorRow)
get_existing_row tenant date rows = scalar_one_or_none (filter (is_for tenant date) rows)

unfoldable pub get_anchor_for_day : ℕ → DateTime → List AnchorRow → Result (Option AnchorRow)
unfolding normalised_anchor_date get_existing_row
get_anchor_for_day tenant day rows = do
  date ← normalised_anchor_date day
  get_existing_row tenant date rows

-- The rows of the tenant that were signed between the bounds.
abbrev pub receipts_of_day : ℕ → ℕ × ℕ → Db → List ReceiptRow
receipts_of_day tenant bounds db =
    filter (Repositories.signed_within (some bounds.0) (some bounds.1))
      (Repositories.of_tenant tenant db.receipts)

unfoldable pub get_latest_receipt_for_day : ℕ → ℕ × ℕ → Db → Option ReceiptRow
get_latest_receipt_for_day tenant bounds db =
    Repositories.first_row
      (take 1 (sort_desc Repositories.sequence_of (receipts_of_day tenant bounds db)))

unfoldable pub count_receipts_for_day : ℕ → ℕ × ℕ → Db → ℕ
count_receipts_for_day tenant bounds db = length (receipts_of_day tenant bounds db)

unfoldable pub client_identifier : TimestampClient → String
client_identifier client = elim client.identifier [
  | some i ↦ i
  | none ↦ elim client.endpoint_url [ some u ↦ u | none ↦ "unknown" ]
]

-- `text or other`
abbrev pub text_or : Option String → String → String
text_or none other = other
text_or (some s) other = if s == "" then other else s

abbrev delete_existing : Option AnchorRow → List AnchorRow → List AnchorRow
delete_existing none rows = rows
delete_existing (some e) rows = filter (λ (r : AnchorRow). r.id != e.id) rows

-- The primary key and `uq_timestamp_anchors_tenant_date`.
unfoldable pub is_new_anchor : AnchorRow → List AnchorRow → Bool
is_new_anchor a [] = true
is_new_anchor a (r ∷ rs) =
    not (r.id == a.id || is_for a.tenant_id a.anchor_date r) && is_new_anchor a rs

-- Where there is a row, `session.delete` and a flush; then `session.add` and a flush.
unfoldable pub replace_row : Option AnchorRow → AnchorRow → List AnchorRow → Result (List AnchorRow)
unfolding is_new_anchor
replace_row existing row rows = do
  require (is_new_anchor row (delete_existing existing rows)) integrity_error
  ok (row ∷ delete_existing existing rows)

abbrev pub exists_anchored : Option AnchorRow → Bool
exists_anchored none = false
exists_anchored (some r) = is_anchored r.status

-- The tombstone of a day with no receipts, or of one whose time stamp was refused.
abbrev pub deferred_row : ℕ → ℕ → ℕ → String → ℕ → AnchorRow
deferred_row id tenant date identifier now = record {
  id = id;
  tenant_id = tenant;
  anchor_date = date;
  root_hash = none;
  tsa_identifier = identifier;
  tsr_bytes = none;
  tsa_signature = none;
  timestamped_at = none;
  anchored_at = now;
  status = deferred;
}

abbrev pub anchored_row : ℕ → ℕ → ℕ → String → String → TimestampResponse → ℕ → AnchorRow
anchored_row id tenant date root identifier answer now = record {
  id = id;
  tenant_id = tenant;
  anchor_date = date;
  root_hash = some root;
  tsa_identifier = identifier;
  tsr_bytes = some answer.tsr_bytes;
  tsa_signature = some answer.signature;
  timestamped_at = some answer.timestamped_at;
  anchored_at = now;
  status = anchored;
}

abbrev pub result_of : AnchorRow → ℕ → AnchorResult
result_of row covered = record {
  anchor_id = row.id;
  status = row.status;
  root_hash = row.root_hash;
  timestamped_at = row.timestamped_at;
  receipts_covered = covered;
}

-- An anchoring: the tenant, the day, the client and the override of its identifier, the id and the
-- time that are drawn.
pub record AnchorCall : Type 0 where
  pub tenant_id : ℕ
  pub day : DateTime
  pub client : TimestampClient
  pub tsa_identifier : Option String
  pub id : ℕ
  pub now : ℕ

-- The row that is written for a day: its bounds, and the latest receipt.
unfoldable pub row_for_day : AnchorCall → ℕ → Option ReceiptRow → AnchorRow
unfolding client_identifier
row_for_day c date latest =
    let tombstone =
      deferred_row c.id c.tenant_id date (text_or c.tsa_identifier (client_identifier c.client))
        c.now in
    elim latest [
      | none ↦ tombstone
      | some r ↦ elim (c.client.request_timestamp r.receipt.receipt_hash) [
        | none ↦ tombstone
        | some answer ↦
            anchored_row c.id c.tenant_id date r.receipt.receipt_hash
              (text_or c.tsa_identifier answer.tsa_identifier) answer c.now
      ]
    ]

abbrev pub covered_by : Option ReceiptRow → ℕ → ℕ
covered_by none count = 0
covered_by (some r) count = count

unfoldable pub anchor_day :
    AnchorCall → Db → List AnchorRow → Result (AnchorResult × List AnchorRow)
unfolding row_for_day day_bounds normalised_anchor_date get_existing_row get_latest_receipt_for_day
    count_receipts_for_day replace_row
anchor_day c db anchors = do
  date ← normalised_anchor_date c.day
  bounds ← day_bounds c.day
  existing ← get_existing_row c.tenant_id date anchors
  require (not (exists_anchored existing)) anchor_exists
  let latest = get_latest_receipt_for_day c.tenant_id bounds db
  let row = row_for_day c date latest
  written ← replace_row existing row anchors
  let covered = covered_by latest (count_receipts_for_day c.tenant_id bounds db)
  ok (result_of row covered, written)

-- One run after another, on what the receipts are at the time; a run that raises writes nothing.
unfoldable pub anchor_runs : List (AnchorCall × Db) → List AnchorRow → List AnchorRow
unfolding anchor_day
anchor_runs [] anchors = anchors
anchor_runs ((c, db) ∷ runs) anchors = elim (anchor_day c db anchors) [
  | ok (_, written) ↦ anchor_runs runs written
  | err _ ↦ anchor_runs runs anchors
]

-- The links of the receipts that follow the first, and the hash of the last.
unfoldable pub are_linked : Receipt → List Receipt → Bool
are_linked r [] = true
are_linked r (q ∷ qs) = q.prev_receipt_hash == some r.receipt_hash && are_linked q qs

unfoldable pub last_hash : Receipt → List Receipt → String
last_hash r [] = r.receipt_hash
last_hash r (q ∷ qs) = last_hash q qs

unfoldable pub chain_walk : Receipt → List Receipt → String → Bool
chain_walk receipt [] root = receipt.receipt_hash == root
chain_walk receipt (q ∷ qs) root =
    if q.prev_receipt_hash != some receipt.receipt_hash
    then false
    else if not (are_linked q qs)
    then false
    else last_hash q qs == root

unfoldable pub verify_receipt_anchored_in : Receipt → AnchorRow → List Receipt → Bool
unfolding chain_walk are_linked last_hash
verify_receipt_anchored_in receipt anchor between =
    if not (is_anchored anchor.status) then false else elim anchor.root_hash [
      | none ↦ false
      | some root ↦ elim anchor.timestamped_at [
        | none ↦ false
        | some t ↦
            if ltb t receipt.signed_at
            then false
            else if receipt.tenant_id != anchor.tenant_id
            then false
            else chain_walk receipt between root
      ]
    ]
