-- ===== src/Streaming/Upload.antt =====
-- packages/export/streaming.py: what an upload leaves behind, with any uploader that keeps its contract.
use forensa.Prelude.{
  ℕ, ◌*◌, ◌≤◌, String, Bool, false, some, List, [], ◌∷◌, ◌≡◌, refl, ap, sym, subst, ◌∙◌, ltb,
  nat_eq, string_eq, ◌||◌, Result, ok, err, Error, s3_upload_error, arith, is_blank, Bool-cases,
  ◌⊎◌, inl, inr,
}
use forensa.Streaming.{
  Uploader, UploadKey, is_same, StreamingPart, S3StreamingResult, Call, ◌>>=◌, raise, upload_parts,
  complete_checked, finish_upload, abort_after, upload_all, stream_ma_diligence_export_to_s3, send,
  pure, min_chunk_size_bytes, max_chunk_size_bytes,
}
use forensa.Streaming.Split.{IsPartsOf, split_into_parts-IsPartsOf}

-- The contract of an uploader: an upload is over once a call that completes or aborts it has returned,
-- and a call leaves the other uploads as they are.
pub record UploaderLaws {S : Type 0} (u : Uploader S) (is_open : UploadKey → S → Bool)
    : Type 0 where
  pub completed :
      (b k i : String) (etags : List (ℕ × String)) (s : S)
      → (u.complete b k i etags s).0 ≡ ok tt
      → is_open (b, k, i) (u.complete b k i etags s).1 ≡ false
  pub aborted :
      (b k i : String) (s : S)
      → (u.abort b k i s).0 ≡ ok tt
      → is_open (b, k, i) (u.abort b k i s).1 ≡ false
  pub upload_others :
      (o : UploadKey) (b k i : String) (p : StreamingPart) (s : S)
      → is_same o (b, k, i) ≡ false
      → is_open o (u.upload_part b k i p s).1 ≡ is_open o s
  pub complete_others :
      (o : UploadKey) (b k i : String) (etags : List (ℕ × String)) (s : S)
      → is_same o (b, k, i) ≡ false
      → is_open o (u.complete b k i etags s).1 ≡ is_open o s
  pub abort_others :
      (o : UploadKey) (b k i : String) (s : S)
      → is_same o (b, k, i) ≡ false
      → is_open o (u.abort b k i s).1 ≡ is_open o s
  pub initiate_others :
      (o : UploadKey) (b k i : String) (s s' : S)
      → u.initiate b k s ≡ (ok i, s')
      → is_same o (b, k, i) ≡ false
      → is_open o s' ≡ is_open o s

-- The upload is over, or its abort raised, which left what it left.
abbrev pub IsOver :
    {S : Type 0} → Uploader S → (UploadKey → S → Bool) → String → String → String → S → Type 0
IsOver {S} u is_open b k i left =
    (is_open (b, k, i) left ≡ false) ⊎ ((s : S) × (e : Error) × (u.abort b k i s ≡ (err e, left)))

pure-state :
    {S : Type 0} (A : Type 0) (r : Result (Unit {0}) × S) (s : S) (a : A)
    → (◌>>=◌ {A = Unit {0}} {B = A} (λ _. r) (λ _. pure a) s).1 ≡ r.1
pure-state A (ok x, s') s a = refl
pure-state A (err x, s') s a = refl

module _ {S : Type 0} (u : Uploader S) (b k : String) (md5 : List ℕ → List ℕ)
    (sha256 : List ℕ → String) {Export : Type 0} (model_dump_json : Export → List ℕ) where
  -- A stream that was not refused.
  pub record IsAccepted (export : Export) (mb : ℕ) (s : S) (ps : List StreamingPart) : Type 0 where
    pub at_least : 5 ≤ mb
    pub at_most : mb ≤ 5120
    pub bucket_given : is_blank b ≡ false
    pub key_given : is_blank k ≡ false
    pub parts_of : IsPartsOf md5 (mb * 1024 * 1024) (model_dump_json export) ps
    pub streamed :
        stream_ma_diligence_export_to_s3 u b k md5 sha256 model_dump_json export mb s
        ≡ some (send u b k md5 sha256 model_dump_json export ps s)

  pub stream-accepts :
      (export : Export) (mb : ℕ) (s : S)
      → 5 ≤ mb
      → mb ≤ 5120
      → is_blank b ≡ false
      → is_blank k ≡ false
      → (ps : List StreamingPart) × IsAccepted export mb s ps
  unfolding stream_ma_diligence_export_to_s3
  stream-accepts export mb s least most bucket key =
      let (ps, e, p) =
        split_into_parts-IsPartsOf md5 (model_dump_json export) (mb * 1024 * 1024)
          (omega (arith, least)) in
      (
        ps,
        record {
          at_least = least;
          at_most = most;
          bucket_given = bucket;
          key_given = key;
          parts_of = p;
          streamed = ground (arith, least, most, bucket, key, e);
        },
      )

  pub stream-cases :
      (export : Export) (mb : ℕ) (s : S)
      → (stream_ma_diligence_export_to_s3 u b k md5 sha256 model_dump_json export mb s
          ≡ some (err s3_upload_error, s))
        ⊎ ((ps : List StreamingPart) × IsAccepted export mb s ps)
  unfolding stream_ma_diligence_export_to_s3
  stream-cases export mb s =
      let chunk = mb * 1024 * 1024 in
      let refused =
        ltb chunk min_chunk_size_bytes
        || ltb max_chunk_size_bytes chunk
        || is_blank b
        || is_blank k in
      elim (Bool-cases refused) [
        | inl h ↦ inl (ground (arith, h))
        | inr h ↦ inr (
            stream-accepts export mb s (ground (arith, h)) (ground (arith, h)) (ground (arith, h))
              (ground (arith, h)))
      ]

  send-state :
      (export : Export) (ps : List StreamingPart) (s : S)
      → (send u b k md5 sha256 model_dump_json export ps s).1 ≡ (upload_all u b k ps s).1
  unfolding send
  send-state export ps s = pure-state S3StreamingResult (upload_all u b k ps s) s _

raise-state :
    {S : Type 0} (A : Type 0) (r : Result (Unit {0}) × S) (s : S) (e : Error)
    → (◌>>=◌ {A = Unit {0}} {B = A} (λ _. r) (λ _. raise e) s).1 ≡ r.1
raise-state A (ok a, s') s e = refl
raise-state A (err x, s') s e = refl

module _ {S : Type 0} (u : Uploader S) (is_open : UploadKey → S → Bool)
    (laws : UploaderLaws u is_open) (b k i : String) where
  upload_parts-others :
      (o : UploadKey) (ps : List StreamingPart) (s : S)
      → is_same o (b, k, i) ≡ false
      → is_open o (upload_parts u b k i ps s).1 ≡ is_open o s
  unfolding upload_parts
  upload_parts-others o [] s d = refl
  upload_parts-others o (p ∷ ps) s d = ground (
    arith,
    laws.upload_others o b k i p s d,
    upload_parts-others o ps (u.upload_part b k i p s).1 d,
  )

  complete_checked-others :
      (o : UploadKey) (ps : List StreamingPart) (etags : List (ℕ × String)) (s : S)
      → is_same o (b, k, i) ≡ false
      → is_open o (complete_checked u b k i ps etags s).1 ≡ is_open o s
  unfolding complete_checked
  complete_checked-others o ps etags s d = ground (arith, laws.complete_others o b k i etags s d)

  complete_checked-closed :
      (ps : List StreamingPart) (etags : List (ℕ × String)) (s : S)
      → (complete_checked u b k i ps etags s).0 ≡ ok tt
      → is_open (b, k, i) (complete_checked u b k i ps etags s).1 ≡ false
  unfolding complete_checked
  complete_checked-closed ps etags s h = ground (arith, h, laws.completed b k i etags s)

  finish_upload-others :
      (o : UploadKey) (ps : List StreamingPart) (s : S)
      → is_same o (b, k, i) ≡ false
      → is_open o (finish_upload u b k i ps s).1 ≡ is_open o s
  unfolding finish_upload
  finish_upload-others o ps s d =
      of_parts (upload_parts u b k i ps s) (upload_parts-others o ps s d)
    where
      of_parts :
          (r : Result (List (ℕ × String)) × S)
          → is_open o r.1 ≡ is_open o s
          → is_open o (◌>>=◌ (λ _. r) (complete_checked u b k i ps) s).1 ≡ is_open o s
      of_parts (ok etags, s') e = complete_checked-others o ps etags s' d ∙ e
      of_parts (err x, s') e = e

  finish_upload-closed :
      (ps : List StreamingPart) (s : S)
      → (finish_upload u b k i ps s).0 ≡ ok tt
      → is_open (b, k, i) (finish_upload u b k i ps s).1 ≡ false
  unfolding finish_upload
  finish_upload-closed ps s = of_parts (upload_parts u b k i ps s)
    where
      of_parts :
          (r : Result (List (ℕ × String)) × S)
          → (◌>>=◌ (λ _. r) (complete_checked u b k i ps) s).0 ≡ ok tt
          → is_open (b, k, i) (◌>>=◌ (λ _. r) (complete_checked u b k i ps) s).1 ≡ false
      of_parts (ok etags, s') h = complete_checked-closed ps etags s' h
      of_parts (err x, s') h = cc h

  -- Whatever happens after the upload was initiated, it is over at the end, or its abort raised, and
  -- the others are as they were.
  abort_after-ends :
      (m : Call S (Unit {0})) (s : S)
      → ((m s).0 ≡ ok tt → is_open (b, k, i) (m s).1 ≡ false)
      → IsOver u is_open b k i (abort_after u b k i m s).1
  unfolding abort_after
  abort_after-ends m s = of_result (m s)
    where
      of_abort :
          (s' : S) (r : Result (Unit {0}) × S)
          → u.abort b k i s' ≡ r
          → (r.0 ≡ ok tt → is_open (b, k, i) r.1 ≡ false)
          → IsOver u is_open b k i r.1
      of_abort s' (ok a, left) e h = inl (h refl)
      of_abort s' (err x, left) e h = inr (s', x, e)

      of_result :
          (r : Result (Unit {0}) × S)
          → (r.0 ≡ ok tt → is_open (b, k, i) r.1 ≡ false)
          → IsOver u is_open b k i (abort_after u b k i (λ _. r) s).1
      of_result (ok a, s') h = inl (h refl)
      of_result (err x, s') h =
          subst (IsOver u is_open b k i) (sym (raise-state (Unit {0}) (u.abort b k i s') s' x))
            (of_abort s' (u.abort b k i s') refl (laws.aborted b k i s'))

  abort_after-others :
      (o : UploadKey) (m : Call S (Unit {0})) (s : S)
      → is_same o (b, k, i) ≡ false
      → is_open o (m s).1 ≡ is_open o s
      → is_open o (abort_after u b k i m s).1 ≡ is_open o s
  unfolding abort_after
  abort_after-others o m s d = of_result (m s)
    where
      of_result :
          (r : Result (Unit {0}) × S)
          → is_open o r.1 ≡ is_open o s
          → is_open o (abort_after u b k i (λ _. r) s).1 ≡ is_open o s
      of_result (ok a, s') h = h
      of_result (err x, s') h =
          ap (is_open o) (raise-state (Unit {0}) (u.abort b k i s') s' x)
          ∙ laws.abort_others o b k i s' d
          ∙ h

module _ {S : Type 0} (u : Uploader S) (is_open : UploadKey → S → Bool)
    (laws : UploaderLaws u is_open) (b k i : String) where
  -- The upload that a call initiates is over when it returns or raises, and the others are as they were.
  upload_all-ends :
      (ps : List StreamingPart) (s s' : S)
      → u.initiate b k s ≡ (ok i, s')
      → IsOver u is_open b k i (upload_all u b k ps s).1
        × ((o : UploadKey)
            → is_same o (b, k, i) ≡ false
            → is_open o (upload_all u b k ps s).1 ≡ is_open o s)
  unfolding upload_all
  upload_all-ends ps s s' h = (
    subst (IsOver u is_open b k i) (sym here) (
        abort_after-ends u is_open laws b k i (finish_upload u b k i ps) s'
          (finish_upload-closed u is_open laws b k i ps s')),
    λ o d.
        ap (is_open o) here
        ∙ abort_after-others u is_open laws b k i o (finish_upload u b k i ps) s' d
            (finish_upload-others u is_open laws b k i o ps s' d)
        ∙ laws.initiate_others o b k i s s' h d,
  )
    where
      here : (upload_all u b k ps s).1 ≡ (abort_after u b k i (finish_upload u b k i ps) s').1
      here =
          ap (λ r. (◌>>=◌ (λ _. r) (λ id. abort_after u b k id (finish_upload u b k id ps)) s).1) h

  module _ (md5 : List ℕ → List ℕ) (sha256 : List ℕ → String) {Export : Type 0}
      (model_dump_json : Export → List ℕ) where
    -- With any uploader that keeps its contract, where it initiates an upload that was not
    -- open, a stream ends, whatever the export, the chunk size and the calls that raise;
    -- afterwards that upload is not open, or the call that aborts it raised and left it so,
    -- and every other upload is open if it was before.
    pub stream-ends :
        (export : Export) (mb : ℕ) (s s' : S)
        → u.initiate b k s ≡ (ok i, s')
        → is_open (b, k, i) s ≡ false
        → (r : Result S3StreamingResult) × (left : S) × (stream_ma_diligence_export_to_s3 u b k md5
              sha256 model_dump_json export mb s
            ≡ some (r, left))
          × IsOver u is_open b k i left
          × ((o : UploadKey) → is_same o (b, k, i) ≡ false → is_open o left ≡ is_open o s)
    unfolding stream_ma_diligence_export_to_s3
    stream-ends export mb s s' h closed =
        elim (stream-cases u b k md5 sha256 model_dump_json export mb s) [
          | inl e ↦ (err s3_upload_error, s, e, inl closed, λ o d. refl)
          | inr (ps, a) ↦
              let (ends, others) = upload_all-ends ps s s' h in
              let left = (send u b k md5 sha256 model_dump_json export ps s).1 in
              let same = send-state u b k md5 sha256 model_dump_json export ps s in
              (
                (send u b k md5 sha256 model_dump_json export ps s).0,
                left,
                a.streamed,
                subst (IsOver u is_open b k i) (sym same) ends,
                λ o d. ap (is_open o) same ∙ others o d,
              )
        ]
