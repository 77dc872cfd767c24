-- ===== src/Streaming.antt =====
-- packages/export/streaming.py: a diligence export, uploaded to object storage in parts. The digests and
-- the text of an export (pydantic's `model_dump_json`) are parameters. An uploader is an interface:
-- its calls act on a state of its own, and may raise.
pub mod Split
pub mod Upload
pub mod Mock
pub mod Kept
pub mod Stored
use Prim.Native.String.{◌++◌}
use forensa.Prelude.{
  ℕ, zero, suc, ◌+◌, ◌*◌, String, Bool, true, false, not, ◌&&◌, Option, none, some, List, [], ◌∷◌,
  length, take, drop, filter, sort_asc, ltb, if◌then◌else◌, ◌==◌, ◌!=◌, nat_eq, string_eq, Result,
  ok, err, Error, s3_upload_error, not_implemented, is_blank, nat_text,
}
use mathlib.Core.List as List
use forensa.Json.{ℤ, pos, negsuc}
use forensa.Hash.{b64encode}

abbrev pub chunk_unit : ℕ
chunk_unit = 1024 * 1024

abbrev pub min_chunk_size_bytes : ℕ
min_chunk_size_bytes = 5 * 1024 * 1024

abbrev pub max_chunk_size_bytes : ℕ
max_chunk_size_bytes = 5 * 1024 * 1024 * 1024

pub record StreamingPart : Type 0 where
  pub part_number : ℕ
  pub body : List ℕ
  pub md5_b64 : String
  pub size_bytes : ℕ

pub record S3StreamingReference : Type 0 where
  pub bucket : String
  pub key : String
  pub size_bytes : ℕ
  pub sha256_hex : String
  pub part_count : ℕ
  pub scheme : String

pub record S3StreamingResult : Type 0 where
  pub reference : S3StreamingReference
  pub parts : List StreamingPart

abbrev pub part : (List ℕ → List ℕ) → ℕ → List ℕ → StreamingPart
part md5 number chunk = record {
  part_number = number;
  body = chunk;
  md5_b64 = b64encode (md5 chunk);
  size_bytes = length chunk;
}

abbrev and_then : StreamingPart → Option (List StreamingPart) → Option (List StreamingPart)
and_then p none = none
and_then p (some ps) = some (p ∷ ps)

-- The loop at an offset and a part number, with a chunk size that is not negative; `none` means that the rounds are used up.
unfoldable pub split_loop : (List ℕ → List ℕ) → List ℕ → ℕ → ℕ → ℕ → ℕ → Option (List StreamingPart)
split_loop md5 bytes chunk zero offset number = none
split_loop md5 bytes chunk (suc rounds) offset number =
    let rest = split_loop md5 bytes chunk rounds (offset + chunk) (number + 1) in
    let here = and_then (part md5 number (take chunk (drop offset bytes))) rest in
    if ltb offset (length bytes) then here else some []

-- With as many rounds as there are bytes, and one. With a negative chunk size the offset never rises
-- above 0, and the loop does not end.
unfoldable pub split_into_parts : (List ℕ → List ℕ) → List ℕ → ℤ → Option (List StreamingPart)
unfolding split_loop
split_into_parts md5 [] chunk = some (part md5 1 [] ∷ [])
split_into_parts md5 (b ∷ bytes) (negsuc n) = none
split_into_parts md5 (b ∷ bytes) (pos chunk) =
    split_loop md5 (b ∷ bytes) chunk (suc (length (b ∷ bytes))) 0 1

-- Bucket, key and upload id.
abbrev pub UploadKey : Type 0
UploadKey = String × String × String

abbrev pub is_same : UploadKey → UploadKey → Bool
is_same (a, b, c) (x, y, z) = a == x && b == y && c == z

-- Code that acts on an uploader's state.
abbrev pub Call : Type 0 → Type 0 → Type 0
Call S A = S → Result A × S

infixl 5 ◌>>=◌
abbrev pub ◌>>=◌ : {S A B : Type 0} → Call S A → (A → Call S B) → Call S B
◌>>=◌ m f s = let (r, s') = m s in elim r [ ok a ↦ f a s' | err e ↦ (err e, s') ]

abbrev pub pure : {S A : Type 0} → A → Call S A
pure a s = (ok a, s)

abbrev pub raise : {S A : Type 0} → Error → Call S A
raise e s = (err e, s)

-- `S3MultipartUploader`
pub record Uploader (S : Type 0) : Type 0 where
  pub initiate : String → String → Call S String
  pub upload_part : String → String → String → StreamingPart → Call S String
  pub complete : String → String → String → List (ℕ × String) → Call S (Unit {0})
  pub abort : String → String → String → Call S (Unit {0})

module _ {S : Type 0} (u : Uploader S) (bucket key : String) where
  unfoldable pub upload_parts : String → List StreamingPart → Call S (List (ℕ × String))
  upload_parts id [] = pure []
  upload_parts id (p ∷ ps) = do
    etag ← u.upload_part bucket key id p
    etags ← upload_parts id ps
    pure ((p.part_number, etag) ∷ etags)

  -- `except Exception`: abort, and raise again what was raised.
  unfoldable pub abort_after : {A : Type 0} → String → Call S A → Call S A
  abort_after id m s =
      let (r, s') = m s in
      elim r [ ok a ↦ (ok a, s') | err e ↦ (do _ ← u.abort bucket key id; raise e) s' ]

  -- Completes the upload where there is an etag for each part.
  unfoldable pub complete_checked :
      String → List StreamingPart → List (ℕ × String) → Call S (Unit {0})
  complete_checked id parts etags s =
      if length etags != length parts
      then raise s3_upload_error s
      else u.complete bucket key id etags s

  unfoldable pub finish_upload : String → List StreamingPart → Call S (Unit {0})
  unfolding upload_parts complete_checked
  finish_upload id parts = upload_parts id parts >>= complete_checked id parts

  unfoldable pub upload_all : List StreamingPart → Call S (Unit {0})
  unfolding abort_after finish_upload
  upload_all parts = do id ← u.initiate bucket key; abort_after id (finish_upload id parts)

  module _ (md5 : List ℕ → List ℕ) (sha256 : List ℕ → String) {Export : Type 0}
      (model_dump_json : Export → List ℕ) where
    abbrev pub reference_for : List ℕ → List StreamingPart → S3StreamingReference
    reference_for plaintext parts = record {
      bucket = bucket;
      key = key;
      size_bytes = length plaintext;
      sha256_hex = sha256 plaintext;
      part_count = length parts;
      scheme = "forensa:S3StreamingReference";
    }

    unfoldable pub send : Export → List StreamingPart → Call S S3StreamingResult
    unfolding upload_all
    send export parts = do
      _ ← upload_all parts
      pure (record { reference = reference_for (model_dump_json export) parts; parts = parts })

    -- `none` means that the split does not end.
    unfoldable pub stream_ma_diligence_export_to_s3 :
        Export → ℕ → S → Option (Result S3StreamingResult × S)
    unfolding split_into_parts send
    stream_ma_diligence_export_to_s3 export chunk_size_mb s =
        let chunk = chunk_size_mb * 1024 * 1024 in
        if ltb chunk min_chunk_size_bytes
        then some (err s3_upload_error, s)
        else if ltb max_chunk_size_bytes chunk
        then some (err s3_upload_error, s)
        else if is_blank bucket
        then some (err s3_upload_error, s)
        else if is_blank key
        then some (err s3_upload_error, s)
        else elim (split_into_parts md5 (model_dump_json export) (pos chunk)) [
          | none ↦ none
          | some parts ↦ some (send export parts s)
        ]

abbrev pub join : List (List ℕ) → List ℕ
join [] = []
join (b ∷ bs) = List.◌++◌ b (join bs)

abbrev pub bodies : List StreamingPart → List (List ℕ)
bodies [] = []
bodies (p ∷ ps) = p.body ∷ bodies ps

-- The export that pydantic reads from the joined bytes.
unfoldable pub reassemble_streamed_export :
    {Export : Type 0} → (List ℕ → Result Export) → List (List ℕ) → Result Export
reassemble_streamed_export model_validate_json parts = model_validate_json (join parts)
