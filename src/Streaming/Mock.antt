-- ===== src/Streaming/Mock.antt =====
-- packages/export/streaming.py: `MockS3MultipartUploader`, which keeps objects in memory, and the stub
-- that raises. A dict is the list of its entries in the order in which they were first set.
use Prim.Native.String.{◌++◌}
use forensa.Prelude.{
  ℕ, ◌+◌, String, ◌&&◌, Option, none, some, List, [], ◌∷◌, sort_asc, if◌then◌else◌, ◌==◌, nat_eq,
  string_eq, ok, s3_upload_error, not_implemented, nat_text,
}
use forensa.Streaming.{Uploader, UploadKey, is_same, StreamingPart, Call, raise, join, bodies}

pub record MockStore : Type 0 where
  pub in_progress : List (UploadKey × List StreamingPart)
  pub completed_objects : List ((String × String) × List ℕ)
  pub aborted_uploads : List UploadKey
  pub parts_log : List (UploadKey × ℕ × ℕ)
  pub next_id : ℕ

abbrev pub empty_store : MockStore
empty_store = record {
  in_progress = [];
  completed_objects = [];
  aborted_uploads = [];
  parts_log = [];
  next_id = 0;
}

unfoldable pub get_slot :
    UploadKey → List (UploadKey × List StreamingPart) → Option (List StreamingPart)
get_slot key [] = none
get_slot key ((j, slot) ∷ rest) = if is_same key j then some slot else get_slot key rest

unfoldable pub set_slot :
    UploadKey
    → List StreamingPart
    → List (UploadKey × List StreamingPart)
    → List (UploadKey × List StreamingPart)
set_slot key slot [] = (key, slot) ∷ []
set_slot key slot ((j, old) ∷ rest) =
    let more = set_slot key slot rest in if is_same key j then (j, slot) ∷ rest else (j, old) ∷ more

-- `pop(key, None)`: a dict has one entry for a key.
unfoldable pub pop_slot :
    UploadKey → List (UploadKey × List StreamingPart) → List (UploadKey × List StreamingPart)
pop_slot key [] = []
pop_slot key ((j, old) ∷ rest) =
    let more = pop_slot key rest in if is_same key j then more else (j, old) ∷ more

-- `slot[part.part_number] = part`
unfoldable pub set_part : StreamingPart → List StreamingPart → List StreamingPart
set_part p [] = p ∷ []
set_part p (q ∷ qs) =
    let more = set_part p qs in if q.part_number == p.part_number then p ∷ qs else q ∷ more

unfoldable pub set_object :
    String × String → List ℕ → List ((String × String) × List ℕ) → List ((String × String) × List ℕ)
set_object name bytes [] = (name, bytes) ∷ []
set_object name bytes ((j, old) ∷ rest) =
    let more = set_object name bytes rest in
    if name.0 == j.0 && name.1 == j.1 then (j, bytes) ∷ rest else (j, old) ∷ more

unfoldable pub get_object : String × String → List ((String × String) × List ℕ) → Option (List ℕ)
get_object name [] = none
get_object name ((j, bytes) ∷ rest) =
    if name.0 == j.0 && name.1 == j.1 then some bytes else get_object name rest

unfoldable pub initiate : String → String → Call MockStore String
unfolding set_slot
initiate bucket key s =
    let id = "mock-upload-" ++ nat_text (s.next_id + 1) in
    (
      ok id,
      record s {
        next_id = s.next_id + 1;
        in_progress = set_slot (bucket, key, id) [] s.in_progress;
      },
    )

-- On what `get` answers.
unfoldable pub store_part :
    UploadKey → StreamingPart → Option (List StreamingPart) → Call MockStore String
unfolding set_slot set_part
store_part key p none s = raise s3_upload_error s
store_part key p (some slot) s = (
  ok p.md5_b64,
  record s {
    in_progress = set_slot key (set_part p slot) s.in_progress;
    parts_log = (key, p.part_number, p.size_bytes) ∷ s.parts_log;
  },
)

unfoldable pub upload_part : String → String → String → StreamingPart → Call MockStore String
unfolding get_slot store_part
upload_part bucket key id p s =
    store_part (bucket, key, id) p (get_slot (bucket, key, id) s.in_progress) s

unfoldable pub assemble : UploadKey → Option (List StreamingPart) → Call MockStore (Unit {0})
unfolding pop_slot set_object
assemble key none s = raise s3_upload_error s
assemble key (some slot) s = (
  ok tt,
  record s {
    in_progress = pop_slot key s.in_progress;
    completed_objects =
        set_object (key.0, key.1)
          (join (bodies (sort_asc (λ (p : StreamingPart). p.part_number) slot)))
          s.completed_objects;
  },
)

-- The etags are not looked at.
unfoldable pub complete : String → String → String → List (ℕ × String) → Call MockStore (Unit {0})
unfolding get_slot assemble
complete bucket key id etags s =
    assemble (bucket, key, id) (get_slot (bucket, key, id) s.in_progress) s

add_aborted : UploadKey → List UploadKey → List UploadKey
add_aborted key [] = key ∷ []
add_aborted key (j ∷ rest) =
    let more = add_aborted key rest in if is_same key j then j ∷ rest else j ∷ more

unfoldable pub abort : String → String → String → Call MockStore (Unit {0})
unfolding pop_slot add_aborted
abort bucket key id s = (
  ok tt,
  record s {
    in_progress = pop_slot (bucket, key, id) s.in_progress;
    aborted_uploads = add_aborted (bucket, key, id) s.aborted_uploads;
  },
)

abbrev pub mock_uploader : Uploader MockStore
mock_uploader = record {
  initiate = initiate;
  upload_part = upload_part;
  complete = complete;
  abort = abort;
}

-- `Boto3S3MultipartUploader`, each method of which raises `NotImplementedError`, as its
-- constructor does.
abbrev pub boto3_uploader : {S : Type 0} → Uploader S
boto3_uploader = record {
  initiate = λ bucket key. raise not_implemented;
  upload_part = λ bucket key id p. raise not_implemented;
  complete = λ bucket key id etags. raise not_implemented;
  abort = λ bucket key id. raise not_implemented;
}
