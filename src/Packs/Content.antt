-- ===== src/Packs/Content.antt =====
-- packages/export/builder.py: what a pack that is built holds, and what is refused.
use mathlib.Core.List.{Permᴰ}
use mathlib.Core.List.Permᴰ
use Prim.Native.String.{◌++◌ as str_append}
use forensa.Hash.{b64encode}
use forensa.Prelude.{
  sym, subst, All, uuid_str, ℕ, ◌+◌, ◌≤◌, ◌<◌, String, ◌≡◌, refl, ap, ◌∙◌, ◌⊎◌, inl, inr, Bool,
  true, false, not, List, [], ◌∷◌, length, map, sort_asc, insert_asc, nat_eq, ltb, leb,
  if◌then◌else◌, Bool-cases, Result, ok, err, ◌>>=◌, ◌>>◌, require, require-eq-ok, >>=-eq-ok,
  evidence_pack_error, arith,
}
use forensa.Ledger.{Receipt}
use forensa.Packs
use forensa.Packs.{EvidencePack, ReceiptEvidenceItem, ProvActivity, PackInputs}
use forensa.Packs.Sealed.{seal_pack-sealed, hash-verify}

module _ {ℓ} {A : Type ℓ} (key : A → ℕ) where
  insert_asc-Perm : (x : A) (xs : List A) → Permᴰ (insert_asc key x xs) (x ∷ xs)
  insert_asc-Perm x [] = Permᴰ.refl (x ∷ [])
  insert_asc-Perm x (y ∷ ys) = of_answer (leb (key x) (key y)) (insert_asc-Perm x ys)
    where
      of_answer :
          (b : Bool)
          → Permᴰ (insert_asc key x ys) (x ∷ ys)
          → Permᴰ (if b then x ∷ y ∷ ys else y ∷ insert_asc key x ys) (x ∷ y ∷ ys)
      of_answer true p = Permᴰ.refl (x ∷ y ∷ ys)
      of_answer false p = Permᴰ.trans (Permᴰ.cons refl p) (Permᴰ.swap refl refl)

  pub sort_asc-Perm : (xs : List A) → Permᴰ (sort_asc key xs) xs
  sort_asc-Perm [] = Permᴰ.nil
  sort_asc-Perm (x ∷ xs) =
      Permᴰ.trans (insert_asc-Perm x (sort_asc key xs)) (Permᴰ.cons refl (sort_asc-Perm xs))

  insert_asc-length : (x : A) (xs : List A) → length (insert_asc key x xs) ≡ length xs + 1
  insert_asc-length x [] = omega arith
  insert_asc-length x (y ∷ ys) = ground (arith, insert_asc-length x ys)

  sort_asc-length : (xs : List A) → length (sort_asc key xs) ≡ length xs
  sort_asc-length [] = refl
  sort_asc-length (x ∷ xs) =
      omega (arith, insert_asc-length x (sort_asc key xs), sort_asc-length xs)

make_items-map :
    (ps : List (Receipt × ℕ)) (items : List ReceiptEvidenceItem)
    → Packs.make_items ps ≡ ok items
    → items ≡ map Packs.item_of ps
unfolding Packs.make_items Packs.make_item
make_items-map [] items h = cc h
make_items-map (p ∷ ps) items h =
    let rest : ReceiptEvidenceItem → Result (List ReceiptEvidenceItem) =
      λ item. Packs.make_items ps >>= λ more. ok (item ∷ more) in
    let (item, made, e) = >>=-eq-ok (Packs.make_item p) rest h in
    let (more, f, g) = >>=-eq-ok (Packs.make_items ps) (λ more. ok (item ∷ more)) e in
    let same : item ≡ Packs.item_of p = ground (arith, made) in
    cc (g, same, make_items-map ps more f)

length-map : (ps : List (Receipt × ℕ)) → length (map Packs.item_of ps) ≡ length ps
length-map [] = refl
length-map (p ∷ ps) = omega (arith, length-map ps)

-- The evidence of a receipt, with its snapshot.
pub record IsItemOf (r : Receipt) (snapshot_id : ℕ) (x : ReceiptEvidenceItem) : Type 0 where
  pub id_is : x.id ≡ r.id
  pub tenant_is : x.tenant_id ≡ r.tenant_id
  pub event_is : x.event_id ≡ r.event_id
  pub bundle_is : x.policy_bundle_id ≡ r.policy_bundle_id
  pub snapshot_is : x.policy_snapshot_id ≡ snapshot_id
  pub sequence_is : x.sequence ≡ r.sequence
  pub prev_is : x.prev_receipt_hash ≡ r.prev_receipt_hash
  pub payload_is : x.payload_hash ≡ r.payload_hash
  pub hash_is : x.receipt_hash ≡ r.receipt_hash
  pub signature_is : x.signature_b64 ≡ b64encode r.signature
  pub signed_is : x.signed_at ≡ r.signed_at

-- The activity that generated a receipt.
pub record IsActivityOf (id : ℕ) (r : Receipt) (snapshot_id : ℕ) (x : ProvActivity) : Type 0 where
  pub type_is : x.activity_type ≡ "prov:Activity"
  pub id_is : x.id ≡ str_append "urn:forensa:activity:" (uuid_str id)
  pub event_is : x.used_event ≡ str_append "urn:forensa:event:" (uuid_str r.event_id)
  pub snapshot_is :
      x.used_policy_snapshot ≡ str_append "urn:forensa:snapshot:" (uuid_str snapshot_id)
  pub receipt_is : x.generated_receipt ≡ str_append "urn:forensa:receipt:" (uuid_str r.id)
  pub started_is : x.started_at ≡ r.signed_at
  pub ended_is : x.ended_at ≡ r.signed_at

-- One for each pair, in order.
abbrev pub AreItems : List (Receipt × ℕ) → List ReceiptEvidenceItem → Type 0
AreItems [] [] = Unit
AreItems [] (x ∷ xs) = ⊥
AreItems (p ∷ ps) [] = ⊥
AreItems (p ∷ ps) (x ∷ xs) = IsItemOf p.0 p.1 x × AreItems ps xs

abbrev pub AreActivities : (ℕ → ℕ) → ℕ → List (Receipt × ℕ) → List ProvActivity → Type 0
AreActivities draw n [] [] = Unit
AreActivities draw n [] (x ∷ xs) = ⊥
AreActivities draw n (p ∷ ps) [] = ⊥
AreActivities draw n (p ∷ ps) (x ∷ xs) =
    IsActivityOf (draw n) p.0 p.1 x × AreActivities draw (n + 1) ps xs

items-AreItems : (ps : List (Receipt × ℕ)) → AreItems ps (map Packs.item_of ps)
items-AreItems [] = tt
items-AreItems ((r, n) ∷ ps) = (
  record {
    id_is = refl;
    tenant_is = refl;
    event_is = refl;
    bundle_is = refl;
    snapshot_is = refl;
    sequence_is = refl;
    prev_is = refl;
    payload_is = refl;
    hash_is = refl;
    signature_is = refl;
    signed_is = refl;
  },
  items-AreItems ps,
)

activities_of-AreActivities :
    (draw : ℕ → ℕ) (n : ℕ) (ps : List (Receipt × ℕ))
    → AreActivities draw n ps (Packs.activities_of draw n ps)
unfolding Packs.activities_of
activities_of-AreActivities draw n [] = tt
activities_of-AreActivities draw n ((r, m) ∷ ps) = (
  record {
    type_is = refl;
    id_is = refl;
    event_is = refl;
    snapshot_is = refl;
    receipt_is = refl;
    started_is = refl;
    ended_is = refl;
  },
  activities_of-AreActivities draw (n + 1) ps,
)

abbrev pub IsAscending : List ReceiptEvidenceItem → Type 0
IsAscending [] = Unit
IsAscending (x ∷ []) = Unit
IsAscending (x ∷ y ∷ rest) = (x.sequence ≤ y.sequence) × IsAscending (y ∷ rest)

is_ascending-IsAscending :
    (xs : List ReceiptEvidenceItem) → Packs.is_ascending xs ≡ true → IsAscending xs
unfolding Packs.is_ascending
is_ascending-IsAscending [] h = tt
is_ascending-IsAscending (x ∷ []) h = tt
is_ascending-IsAscending (x ∷ y ∷ rest) h =
    (ground (arith, h), is_ascending-IsAscending (y ∷ rest) (ground (arith, h)))

all_of_tenant-All :
    (tenant : ℕ) (ps : List (Receipt × ℕ))
    → Packs.all_of_tenant tenant ps ≡ true
    → All (λ (p : Receipt × ℕ). (p.0).tenant_id ≡ tenant) ps
unfolding Packs.all_of_tenant
all_of_tenant-All tenant [] h = tt
all_of_tenant-All tenant (p ∷ ps) h =
    (ground (arith, h), all_of_tenant-All tenant ps (ground (arith, h)))

-- A pack of its inputs.
pub record IsPackOf (iso : ℕ → String) (sha256 : List ℕ → String) (i : PackInputs)
    (p : EvidencePack) : Type 0 where
  pub pairs : List (Receipt × ℕ)
  pub same_pairs : Permᴰ pairs i.receipts_with_snapshots
  pub receipts_are : AreItems pairs p.receipts
  pub ascending : IsAscending p.receipts
  pub of_tenant : All (λ (q : Receipt × ℕ). (q.0).tenant_id ≡ i.tenant_id) i.receipts_with_snapshots
  pub window : i.scope_start ≤ i.scope_end
  pub header_is : p.header ≡ record {
    pack_id = i.pack_id;
    tenant_id = i.tenant_id;
    generated_at = i.generated_at;
    scope_start = i.scope_start;
    scope_end = i.scope_end;
    receipt_count = length i.receipts_with_snapshots;
  }
  pub activities_are : AreActivities i.activity_ids 0 pairs p.activities
  pub anchor_is : p.anchor ≡ i.anchor
  pub verifies : Packs.verify_evidence_pack iso sha256 p ≡ ok true

module _ (iso : ℕ → String) (sha256 : List ℕ → String) where
  -- A pack that is built verifies; its receipts are, field by field, those of its inputs with
  -- their snapshots, ascending by sequence and all of the tenant, and its activities name the
  -- event, the snapshot and the receipt of each in that order; its header has the window, which
  -- does not end before it starts, and their number; and it has the anchor of its inputs.
  pub build_evidence_pack-IsPackOf :
      (i : PackInputs) (p : EvidencePack)
      → Packs.build_evidence_pack iso sha256 i ≡ ok p
      → IsPackOf iso sha256 i p
  unfolding Packs.build_evidence_pack
  build_evidence_pack-IsPackOf i p h =
      let sealing : List ReceiptEvidenceItem → Result EvidencePack = λ items.
        Packs.seal_pack iso sha256 (Packs.header_of i (length items)) items
          (Packs.activities_of i.activity_ids 0 (Packs.sorted_pairs i)) i.anchor in
      let building = Packs.make_items (Packs.sorted_pairs i) >>= sealing in
      let (window, rest) =
        require-eq-ok (not (ltb i.scope_end i.scope_start)) evidence_pack_error
          (require (Packs.all_of_tenant i.tenant_id i.receipts_with_snapshots) evidence_pack_error
            >> building)
          h in
      let (mine, built) =
        require-eq-ok (Packs.all_of_tenant i.tenant_id i.receipts_with_snapshots)
          evidence_pack_error building rest in
      let (items, made, sealed) =
        >>=-eq-ok (Packs.make_items (Packs.sorted_pairs i)) sealing built in
      let (hd, rc, ac, an, sorted, root) =
        seal_pack-sealed iso sha256 (Packs.header_of i (length items)) items
          (Packs.activities_of i.activity_ids 0 (Packs.sorted_pairs i)) i.anchor p sealed in
      let all = make_items-map (Packs.sorted_pairs i) items made in
      let count : length items ≡ length i.receipts_with_snapshots =
        ap (λ (xs : List ReceiptEvidenceItem). length xs) all
        ∙ length-map (Packs.sorted_pairs i)
        ∙ sort_asc-length (λ (q : Receipt × ℕ). (q.0).sequence) i.receipts_with_snapshots in
      record {
        pairs = Packs.sorted_pairs i;
        same_pairs = sort_asc-Perm (λ (q : Receipt × ℕ). (q.0).sequence) i.receipts_with_snapshots;
        receipts_are =
            subst (AreItems (Packs.sorted_pairs i)) (sym (rc ∙ all))
              (items-AreItems (Packs.sorted_pairs i));
        ascending = is_ascending-IsAscending p.receipts (ap Packs.is_ascending rc ∙ sorted);
        of_tenant = all_of_tenant-All i.tenant_id i.receipts_with_snapshots mine;
        window = ground (arith, window);
        header_is = hd ∙ ap (Packs.header_of i) count;
        activities_are =
            subst (AreActivities i.activity_ids 0 (Packs.sorted_pairs i)) (sym ac)
              (activities_of-AreActivities i.activity_ids 0 (Packs.sorted_pairs i));
        anchor_is = an;
        verifies = hash-verify iso sha256 p root;
      }

  -- What the builder refuses before it reads a receipt.
  pub build_evidence_pack-refuses :
      (i : PackInputs)
      → (i.scope_end < i.scope_start)
        ⊎ (Packs.all_of_tenant i.tenant_id i.receipts_with_snapshots ≡ false)
      → Packs.build_evidence_pack iso sha256 i ≡ err evidence_pack_error
  unfolding Packs.build_evidence_pack
  build_evidence_pack-refuses i (inl h) = ground (arith, h)
  build_evidence_pack-refuses i (inr h) = elim (Bool-cases (not (ltb i.scope_end i.scope_start))) [
    | inl e ↦ rw (e, h)
    | inr e ↦ rw e
  ]
