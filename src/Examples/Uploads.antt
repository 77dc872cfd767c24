-- ===== src/Examples/Uploads.antt =====
-- packages/export/streaming.py at concrete inputs: five bytes in parts, and an export in a store in memory.
use forensa.Prelude.{
  ℕ, ◌*◌, ◌≡◌, refl, false, none, some, Option, List, [], ◌∷◌, length, Result, ok, arith,
}
use forensa.Json.{pos}
use forensa.Streaming.{StreamingPart, S3StreamingResult, UploadKey, is_same, bodies}
use forensa.Streaming.Split.{IsPartsOf, split_into_parts-IsPartsOf}
use forensa.Streaming.Upload.{IsOver, stream-ends}
use forensa.Streaming.Mock.{MockStore, empty_store, mock_uploader}
use forensa.Streaming.Kept.{is_open, mock_uploader-laws}
use forensa.Streaming.Stored.{stream-stores}
use forensa.Examples.Data.{toy_sha256}
use forensa.Prelude.{is_blank, nat_text}
use forensa.Hash.{b64encode}
use forensa.Streaming.{
  split_loop, split_into_parts, upload_parts, complete_checked, finish_upload, abort_after,
  upload_all, send, stream_ma_diligence_export_to_s3, reassemble_streamed_export,
}
use forensa.Streaming.Mock.{
  get_slot, set_slot, pop_slot, set_part, set_object, get_object, store_part, assemble, initiate,
  upload_part, complete, abort,
}

abbrev five : List ℕ
five = 1 ∷ 2 ∷ 3 ∷ 4 ∷ 5 ∷ []

abbrev toy_md5 : List ℕ → List ℕ
toy_md5 bs = length bs ∷ []

abbrev chunks : Option (List StreamingPart) → List (List ℕ)
chunks none = []
chunks (some ps) = bodies ps

five_test :
    chunks (split_into_parts toy_md5 five (pos 2)) ≡ (1 ∷ 2 ∷ []) ∷ (3 ∷ 4 ∷ []) ∷ (5 ∷ []) ∷ []
unfolding is_blank nat_text b64encode split_loop split_into_parts upload_parts complete_checked
    finish_upload abort_after upload_all send stream_ma_diligence_export_to_s3
    reassemble_streamed_export get_slot set_slot pop_slot set_part set_object get_object store_part
    assemble initiate upload_part complete abort
five_test = refl

split_into_parts-IsPartsOf_example :
    (ps : List StreamingPart) × (split_into_parts toy_md5 five (pos 2) ≡ some ps)
    × IsPartsOf toy_md5 2 five ps
split_into_parts-IsPartsOf_example = split_into_parts-IsPartsOf toy_md5 five 2 (omega arith)

-- An export that is its own text.
abbrev own_text : List ℕ → List ℕ
own_text x = x

abbrev read_text : List ℕ → Result (List ℕ)
read_text x = ok x

given : is_blank "bucket" ≡ false
unfolding is_blank nat_text b64encode split_loop split_into_parts upload_parts complete_checked
    finish_upload abort_after upload_all send stream_ma_diligence_export_to_s3
    reassemble_streamed_export get_slot set_slot pop_slot set_part set_object get_object store_part
    assemble initiate upload_part complete abort
given = refl

named : is_blank "key" ≡ false
unfolding is_blank nat_text b64encode split_loop split_into_parts upload_parts complete_checked
    finish_upload abort_after upload_all send stream_ma_diligence_export_to_s3
    reassemble_streamed_export get_slot set_slot pop_slot set_part set_object get_object store_part
    assemble initiate upload_part complete abort
named = refl

stream-stores_example :
    (ps : List StreamingPart) × (s' : MockStore) × (stream_ma_diligence_export_to_s3 mock_uploader
        "bucket" "key" toy_md5 toy_sha256 own_text five 5 empty_store
      ≡ some (
        ok (record {
          reference = record {
            bucket = "bucket";
            key = "key";
            size_bytes = 5;
            sha256_hex = toy_sha256 five;
            part_count = length ps;
            scheme = "forensa:S3StreamingReference";
          };
          parts = ps;
        }),
        s',
      ))
    × (get_object ("bucket", "key") s'.completed_objects ≡ some five)
    × IsPartsOf toy_md5 (5 * 1024 * 1024) five ps
    × (reassemble_streamed_export read_text (bodies ps) ≡ ok five)
stream-stores_example =
    stream-stores "bucket" "key" toy_md5 toy_sha256 own_text read_text five 5 empty_store
      (omega arith) (omega arith) given named refl

abbrev begun : MockStore
begun = (initiate "bucket" "key" empty_store).1

initiated : mock_uploader.initiate "bucket" "key" empty_store ≡ (ok "mock-upload-1", begun)
unfolding is_blank nat_text b64encode split_loop split_into_parts upload_parts complete_checked
    finish_upload abort_after upload_all send stream_ma_diligence_export_to_s3
    reassemble_streamed_export get_slot set_slot pop_slot set_part set_object get_object store_part
    assemble initiate upload_part complete abort
initiated = refl

closed : is_open ("bucket", "key", "mock-upload-1") empty_store ≡ false
unfolding is_blank nat_text b64encode split_loop split_into_parts upload_parts complete_checked
    finish_upload abort_after upload_all send stream_ma_diligence_export_to_s3
    reassemble_streamed_export get_slot set_slot pop_slot set_part set_object get_object store_part
    assemble initiate upload_part complete abort
closed = refl

stream-ends_example :
    (r : Result S3StreamingResult) × (left : MockStore) × (stream_ma_diligence_export_to_s3
        mock_uploader "bucket" "key" toy_md5 toy_sha256 own_text five 5 empty_store
      ≡ some (r, left))
    × IsOver mock_uploader is_open "bucket" "key" "mock-upload-1" left
    × ((o : UploadKey)
        → is_same o ("bucket", "key", "mock-upload-1") ≡ false
        → is_open o left ≡ is_open o empty_store)
stream-ends_example =
    stream-ends mock_uploader is_open mock_uploader-laws "bucket" "key" "mock-upload-1" toy_md5
      toy_sha256 own_text five 5 empty_store begun initiated closed
