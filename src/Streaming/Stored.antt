-- ===== src/Streaming/Stored.antt =====
-- packages/export/streaming.py: what the uploader in memory stores.
use Prim.Native.String.{◌++◌ as str_append}
use forensa.Prelude.{
  ℕ, ◌+◌, ◌*◌, ◌≤◌, ◌<◌, String, false, some, List, [], ◌∷◌, ◌++◌, length, All, insert_asc,
  sort_asc, nat_eq, string_eq, Result, ok, ◌≡◌, refl, sym, ap, ◌∙◌, subst, arith, nat_text,
  is_blank,
}
use forensa.Streaming.{
  StreamingPart, Call, S3StreamingResult, abort_after, ◌>>=◌, pure, join, bodies, upload_parts,
  finish_upload, upload_all, complete_checked, stream_ma_diligence_export_to_s3,
  reassemble_streamed_export, send, reference_for,
}
use forensa.Streaming.Split.{Numbered, IsPartsOf}
use forensa.Streaming.Upload.{stream-accepts}
use forensa.Streaming.Mock
use forensa.Streaming.Mock.{MockStore, mock_uploader}
use forensa.Streaming.Kept.{is_same_refl, get-set_slot, get-set_object}

-- A part with a number that is new is the last of its slot.
set_part-append :
    (p : StreamingPart) (slot : List StreamingPart)
    → All (λ (q : StreamingPart). q.part_number < p.part_number) slot
    → Mock.set_part p slot ≡ slot ++ p ∷ []
unfolding Mock.set_part
set_part-append p [] h = refl
set_part-append p (q ∷ slot) h = ground (arith, h.0, set_part-append p slot h.1)

All-append :
    (n : ℕ) (p : StreamingPart) (slot : List StreamingPart)
    → All (λ (q : StreamingPart). q.part_number < n) slot
    → p.part_number ≡ n
    → All (λ (q : StreamingPart). q.part_number < n + 1) (slot ++ p ∷ [])
All-append n p [] h e = (omega (arith, e), tt)
All-append n p (q ∷ slot) h e = (omega (arith, h.0), All-append n p slot h.1 e)

append-empty : (xs : List StreamingPart) → xs ≡ xs ++ []
append-empty [] = refl
append-empty (x ∷ xs) = ap (λ ys. x ∷ ys) (append-empty xs)

append_assoc :
    (xs : List StreamingPart) (p : StreamingPart) (ps : List StreamingPart)
    → (xs ++ p ∷ []) ++ ps ≡ xs ++ p ∷ ps
append_assoc [] p ps = refl
append_assoc (x ∷ xs) p ps = ap (λ ys. x ∷ ys) (append_assoc xs p ps)

Numbered-below :
    (n : ℕ) (ps : List StreamingPart)
    → Numbered (n + 1) ps
    → All (λ (q : StreamingPart). n < q.part_number) ps
Numbered-below n [] h = tt
Numbered-below n (p ∷ ps) h =
    (omega (arith, h.0), weaken (n + 1) ps (Numbered-below (n + 1) ps h.1))
  where
    weaken :
        (m : ℕ) (qs : List StreamingPart)
        → All (λ (q : StreamingPart). n + 1 < q.part_number) qs
        → All (λ (q : StreamingPart). n < q.part_number) qs
    weaken m [] h = tt
    weaken m (q ∷ qs) h = (omega (arith, h.0), weaken m qs h.1)

insert_asc-first :
    (p : StreamingPart) (ps : List StreamingPart)
    → All (λ (q : StreamingPart). p.part_number < q.part_number) ps
    → insert_asc (λ (q : StreamingPart). q.part_number) p ps ≡ p ∷ ps
insert_asc-first p [] h = refl
insert_asc-first p (q ∷ ps) h = ground (arith, h.0)

-- Numbered parts are in the order of their numbers.
Numbered-sorted :
    (n : ℕ) (ps : List StreamingPart)
    → Numbered n ps
    → sort_asc (λ (q : StreamingPart). q.part_number) ps ≡ ps
Numbered-sorted n [] h = refl
Numbered-sorted n (p ∷ ps) h =
    ap (insert_asc (λ (q : StreamingPart). q.part_number) p) (Numbered-sorted (n + 1) ps h.1)
    ∙ insert_asc-first p ps (
        subst (λ m. All (λ (q : StreamingPart). m < q.part_number) ps) (sym h.0)
          (Numbered-below n ps h.1))

module _ (b k i : String) where
  -- Parts that are numbered on from those of the slot are added to it.
  upload_parts-slot :
      (n : ℕ) (ps slot : List StreamingPart) (s : MockStore)
      → Numbered n ps
      → All (λ (q : StreamingPart). q.part_number < n) slot
      → Mock.get_slot (b, k, i) s.in_progress ≡ some slot
      → (etags : List (ℕ × String)) × (s' : MockStore) × (upload_parts mock_uploader b k i ps s
          ≡ (ok etags, s'))
        × (length etags ≡ length ps)
        × (Mock.get_slot (b, k, i) s'.in_progress ≡ some (slot ++ ps))
  unfolding upload_parts Mock.upload_part Mock.store_part
  upload_parts-slot n [] slot s h a g = ([], s, refl, refl, g ∙ ap some (append-empty slot))
  upload_parts-slot n (p ∷ ps) slot s h a g =
      let s1 = (Mock.store_part (b, k, i) p (some slot) s).1 in
      let added : Mock.set_part p slot ≡ slot ++ p ∷ [] =
        set_part-append p slot
          (subst (λ m. All (λ (q : StreamingPart). q.part_number < m) slot) (sym h.0) a) in
      let there : Mock.get_slot (b, k, i) s1.in_progress ≡ some (slot ++ p ∷ []) =
        get-set_slot (b, k, i) (b, k, i) (Mock.set_part p slot) s.in_progress
        ∙ rw (is_same_refl (b, k, i)) (ap some added) in
      let (etags, s', e, l, g') =
        upload_parts-slot (n + 1) ps (slot ++ p ∷ []) s1 h.1 (All-append n p slot a h.0) there in
      (
        (p.part_number, p.md5_b64) ∷ etags,
        s',
        ap (λ x. (◌>>=◌ (Mock.store_part (b, k, i) p x) rest) s) g
            ∙ ap (λ r. (◌>>=◌ (λ _. r) (λ etags. pure ((p.part_number, p.md5_b64) ∷ etags))) s1) e,
        omega (arith, l),
        g' ∙ ap some (append_assoc slot p ps),
      )
    where
      rest : String → Call MockStore (List (ℕ × String))
      rest etag =
          upload_parts mock_uploader b k i ps >>= λ etags. pure ((p.part_number, etag) ∷ etags)

  finish_upload-stores :
      (ps : List StreamingPart) (s : MockStore)
      → Numbered 1 ps
      → Mock.get_slot (b, k, i) s.in_progress ≡ some []
      → (s' : MockStore) × (finish_upload mock_uploader b k i ps s ≡ (ok tt, s'))
        × (Mock.get_object (b, k) s'.completed_objects ≡ some (join (bodies ps)))
  unfolding finish_upload complete_checked Mock.complete Mock.assemble
  finish_upload-stores ps s h g =
      let (etags, s1, e, l, g') = upload_parts-slot 1 ps [] s h tt g in
      let s' = (Mock.assemble (b, k, i) (some ps) s1).1 in
      (
        s',
        ap (λ r. (◌>>=◌ (λ _. r) (complete_checked mock_uploader b k i ps)) s) e
            ∙ ground (arith, l, g'),
        get-set_object (b, k) (join (bodies (sort_asc (λ (p : StreamingPart). p.part_number) ps)))
              s1.completed_objects
            ∙ ap (λ qs. some (join (bodies qs))) (Numbered-sorted 1 ps h),
      )

module _ (b k : String) (md5 : List ℕ → List ℕ) (sha256 : List ℕ → String) {Export : Type 0}
    (model_dump_json : Export → List ℕ) (model_validate_json : List ℕ → Result Export) where
  -- With a chunk of 5 to 5120 MB, a bucket and a key that are not blank, and an export that can
  -- be read from its text, the stream to the uploader in memory returns its parts and a
  -- reference with the bucket, the key, the size and SHA-256 of that text and the number of
  -- parts; the object that is stored under the bucket and the key is the text, and the bodies
  -- of the parts are reassembled to the export.
  pub stream-stores :
      (export : Export) (mb : ℕ) (s : MockStore)
      → 5 ≤ mb
      → mb ≤ 5120
      → is_blank b ≡ false
      → is_blank k ≡ false
      → model_validate_json (model_dump_json export) ≡ ok export
      → (ps : List StreamingPart) × (s' : MockStore) × (stream_ma_diligence_export_to_s3
            mock_uploader b k md5 sha256 model_dump_json export mb s
          ≡ some (
            ok (record {
              reference = record {
                bucket = b;
                key = k;
                size_bytes = length (model_dump_json export);
                sha256_hex = sha256 (model_dump_json export);
                part_count = length ps;
                scheme = "forensa:S3StreamingReference";
              };
              parts = ps;
            }),
            s',
          ))
        × (Mock.get_object (b, k) s'.completed_objects ≡ some (model_dump_json export))
        × IsPartsOf md5 (mb * 1024 * 1024) (model_dump_json export) ps
        × (reassemble_streamed_export model_validate_json (bodies ps) ≡ ok export)
  unfolding send upload_all Mock.initiate abort_after reassemble_streamed_export
  stream-stores export mb s least most bucket key reads =
      let (ps, a) =
        stream-accepts mock_uploader b k md5 sha256 model_dump_json export mb s least most bucket
          key in
      let s1 = (Mock.initiate b k s).1 in
      let id = str_append "mock-upload-" (nat_text (s.next_id + 1)) in
      let there : Mock.get_slot (b, k, id) s1.in_progress ≡ some [] =
        get-set_slot (b, k, id) (b, k, id) [] s.in_progress ∙ rw (is_same_refl (b, k, id)) in
      let (s', e, stored) = finish_upload-stores b k id ps s1 a.parts_of.numbered there in
      (
        ps,
        s',
        a.streamed
            ∙ ap
                (λ r. some (
                  ◌>>=◌ {A = Unit {0}} {B = S3StreamingResult}
                    (abort_after mock_uploader b k id (λ _. r))
                    (λ _. pure (record {
                      reference =
                          reference_for mock_uploader b k md5 sha256 model_dump_json
                            (model_dump_json export) ps;
                      parts = ps;
                    }))
                    s1))
                e,
        stored ∙ ap some a.parts_of.joined,
        a.parts_of,
        ap model_validate_json a.parts_of.joined ∙ reads,
      )
