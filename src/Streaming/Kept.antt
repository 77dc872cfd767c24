-- ===== src/Streaming/Kept.antt =====
-- packages/export/streaming.py: the dicts of the uploader in memory, and the contract that it keeps.
use forensa.Prelude.{
  ℕ, String, Bool, true, false, Option, none, some, List, [], ◌∷◌, if◌then◌else◌, nat_eq, string_eq,
  ok, ◌≡◌, refl, ap, ◌∙◌, ◌↔◌, arith, eq_iff,
}
use forensa.Streaming.{UploadKey, is_same, StreamingPart}
use forensa.Streaming.Upload.{UploaderLaws}
use forensa.Streaming.Mock
use forensa.Streaming.Mock.{MockStore, mock_uploader}

is_same_iff : (a b : UploadKey) → (is_same a b ≡ true) ↔ (a ≡ b)
is_same_iff (a, b, c) (x, y, z) = (
  λ h. ground (arith, h, eq_iff a x, eq_iff b y, eq_iff c z),
  λ h. ground (
    arith,
    (eq_iff a x).1 (ap (λ (t : UploadKey). t.0) h),
    (eq_iff b y).1 (ap (λ (t : UploadKey). t.1) h),
    (eq_iff c z).1 (ap (λ (t : UploadKey). t.2) h),
  ),
)

pub is_same_refl : (a : UploadKey) → is_same a a ≡ true
is_same_refl a = (is_same_iff a a).1 refl

pub get-set_slot :
    (o k : UploadKey) (slot : List StreamingPart) (m : List (UploadKey × List StreamingPart))
    → Mock.get_slot o (Mock.set_slot k slot m)
      ≡ (if is_same o k then some slot else Mock.get_slot o m)
unfolding Mock.get_slot Mock.set_slot
get-set_slot o k slot [] = refl
get-set_slot o k slot ((j, old) ∷ m) = ground (
  arith,
  get-set_slot o k slot m,
  eq_iff o.0 k.0,
  eq_iff o.1 k.1,
  eq_iff o.2 k.2,
  eq_iff k.0 j.0,
  eq_iff k.1 j.1,
  eq_iff k.2 j.2,
  eq_iff o.0 j.0,
  eq_iff o.1 j.1,
  eq_iff o.2 j.2,
)

get-pop_slot :
    (o k : UploadKey) (m : List (UploadKey × List StreamingPart))
    → Mock.get_slot o (Mock.pop_slot k m) ≡ (if is_same o k then none else Mock.get_slot o m)
unfolding Mock.get_slot Mock.pop_slot
get-pop_slot o k [] = ground arith
get-pop_slot o k ((j, old) ∷ m) = ground (
  arith,
  get-pop_slot o k m,
  eq_iff o.0 k.0,
  eq_iff o.1 k.1,
  eq_iff o.2 k.2,
  eq_iff k.0 j.0,
  eq_iff k.1 j.1,
  eq_iff k.2 j.2,
  eq_iff o.0 j.0,
  eq_iff o.1 j.1,
  eq_iff o.2 j.2,
)

pub get-set_object :
    (n : String × String) (bytes : List ℕ) (m : List ((String × String) × List ℕ))
    → Mock.get_object n (Mock.set_object n bytes m) ≡ some bytes
unfolding Mock.get_object Mock.set_object
get-set_object n bytes [] = ground (arith, eq_iff n.0 n.0, eq_iff n.1 n.1)
get-set_object n bytes ((j, old) ∷ m) = ground (arith, get-set_object n bytes m)

-- In progress.
abbrev has_slot : Option (List StreamingPart) → Bool
has_slot none = false
has_slot (some slot) = true

abbrev pub is_open : UploadKey → MockStore → Bool
is_open key s = has_slot (Mock.get_slot key s.in_progress)

store_part-others :
    (o key : UploadKey) (p : StreamingPart) (found : Option (List StreamingPart)) (s : MockStore)
    → is_same o key ≡ false
    → is_open o (Mock.store_part key p found s).1 ≡ is_open o s
unfolding Mock.store_part
store_part-others o key p none s d = refl
store_part-others o key p (some slot) s d =
    ap has_slot (get-set_slot o key (Mock.set_part p slot) s.in_progress ∙ rw d)

assemble-others :
    (o key : UploadKey) (found : Option (List StreamingPart)) (s : MockStore)
    → is_same o key ≡ false
    → is_open o (Mock.assemble key found s).1 ≡ is_open o s
unfolding Mock.assemble
assemble-others o key none s d = refl
assemble-others o key (some slot) s d = ap has_slot (get-pop_slot o key s.in_progress ∙ rw d)

popped :
    (key : UploadKey) (s : MockStore)
    → has_slot (Mock.get_slot key (Mock.pop_slot key s.in_progress)) ≡ false
popped key s = ap has_slot {y = none} (get-pop_slot key key s.in_progress ∙ rw (is_same_refl key))

assemble-closed :
    (key : UploadKey) (found : Option (List StreamingPart)) (s : MockStore)
    → (Mock.assemble key found s).0 ≡ ok tt
    → is_open key (Mock.assemble key found s).1 ≡ false
unfolding Mock.assemble
assemble-closed key none s h = cc h
assemble-closed key (some slot) s h = popped key s

initiate-others :
    (o : UploadKey) (b k i : String) (s s' : MockStore)
    → Mock.initiate b k s ≡ (ok i, s')
    → is_same o (b, k, i) ≡ false
    → is_open o s' ≡ is_open o s
unfolding Mock.initiate
initiate-others o b k i s s' h d =
    let here : is_open o s'
        ≡ has_slot (Mock.get_slot o (Mock.set_slot (b, k, i) [] s.in_progress)) =
      cc h in
    here ∙ ap has_slot (get-set_slot o (b, k, i) [] s.in_progress ∙ rw d)

-- The uploader in memory keeps the contract.
pub mock_uploader-laws : UploaderLaws mock_uploader is_open
unfolding Mock.upload_part Mock.complete Mock.abort
mock_uploader-laws = record {
  completed =
      λ b k i etags s h. assemble-closed (b, k, i) (Mock.get_slot (b, k, i) s.in_progress) s h;
  aborted = λ b k i s ran. popped (b, k, i) s;
  upload_others =
      λ o b k i p s d. store_part-others o (b, k, i) p (Mock.get_slot (b, k, i) s.in_progress) s d;
  complete_others =
      λ o b k i etags s d. assemble-others o (b, k, i) (Mock.get_slot (b, k, i) s.in_progress) s d;
  abort_others = λ o b k i s d. ap has_slot (get-pop_slot o (b, k, i) s.in_progress ∙ rw d);
  initiate_others = initiate-others;
}
