-- ===== src/Workflow/Roles.antt =====
-- packages/ledger/bundle_workflow.py: segregated duties as an invariant, and how one step keeps it.
use forensa.Prelude.{
  Option-cases, ℕ, ◌≡◌, ◌⊎◌, inl, inr, refl, Bool, true, false, ◌&&◌, ◌||◌, none, some, List, [],
  ◌∷◌, arith, ◌==◌, nat_eq, option_eq,
}
use forensa.Ledger.{
  Db, PolicyBundle, BundleRow, ApprovalRow, BundleStatus, proposed, reviewed, approved, active,
  superseded, ActorRole, author, reviewer, approver,
}
use forensa.Workflow.{valid_transition, required_role, find_bundle, set_status, filled, role_beq}
use forensa.Workflow.Keys.{find_bundle_id, find_bundle-set_status}
use forensa.Workflow.Steps.{forbidden, Decision, logged}

-- Whether `actor` has acted in one role for a bundle.
abbrev pub acted : ActorRole → ℕ → ℕ → Db → Bool
acted q bundle_id actor db = filled (q ∷ []) bundle_id actor db.approvals

pub record IsSegregated (db : Db) : Type 0 where
  -- the log speaks of bundles that exist
  pub known : (q : ActorRole) (i a : ℕ) → find_bundle i db.bundles ≡ none → acted q i a db ≡ false
  pub unreviewed :
      (i a : ℕ) (b : BundleRow)
      → find_bundle i db.bundles ≡ some b
      → b.status ≡ proposed
      → (acted reviewer i a db ≡ false) × (acted approver i a db ≡ false)
  pub unapproved :
      (i a : ℕ) (b : BundleRow)
      → find_bundle i db.bundles ≡ some b
      → b.status ≡ reviewed
      → acted approver i a db ≡ false
  pub reviewer_apart : (i a : ℕ) → acted reviewer i a db ≡ true → acted author i a db ≡ false
  pub approver_apart :
      (i a : ℕ)
      → acted approver i a db ≡ true
      → (acted author i a db ≡ false) × (acted reviewer i a db ≡ false)

distribute :
    (k m n w f g : Bool)
    → (k && (m || (n || false)) && w || (f || g))
      ≡ ((k && (m || false) && w || f) || (k && (n || false) && w || g))
distribute k m n w f g = ground arith

filled_pair :
    (p q : ActorRole) (i a : ℕ) (log : List ApprovalRow)
    → filled (p ∷ q ∷ []) i a log ≡ (filled (p ∷ []) i a log || filled (q ∷ []) i a log)
unfolding filled
filled_pair p q i a [] = refl
filled_pair p q i a (r ∷ rs) = rw (filled_pair p q i a rs) (
    distribute (r.bundle_id == i) (role_beq r.actor_role p) (role_beq r.actor_role q)
      (r.actor_id == some a) (filled (p ∷ []) i a rs) (filled (q ∷ []) i a rs))

pub add-IsSegregated :
    (db : Db) (bundle : PolicyBundle)
    → find_bundle bundle.id db.bundles ≡ none
    → IsSegregated db
    → IsSegregated
        (record db { bundles = record { bundle = bundle; status = proposed } ∷ db.bundles })
unfolding find_bundle
add-IsSegregated db bundle new s = record {
  known = λ q i a h. ground (arith, s.known q i a);
  unreviewed =
      λ i a b h e. ground (arith, s.unreviewed i a b, s.known reviewer i a, s.known approver i a);
  unapproved = λ i a b h e. ground (arith, s.unapproved i a b);
  reviewer_apart = s.reviewer_apart;
  approver_apart = s.approver_apart;
}

pub sign_off-IsSegregated :
    (db : Db) (e : Decision) (r : BundleRow)
    → find_bundle r.bundle.id db.bundles ≡ some r
    → r.status ≡ proposed
    → e.actor_role ≡ author
    → IsSegregated db
    → IsSegregated (record db { approvals = logged e r proposed db.approvals })
unfolding filled
sign_off-IsSegregated db e r found early role s = record {
  known = λ q i a h. ground (arith, s.known q i a h);
  unreviewed = λ i a b h st. ground (arith, s.unreviewed i a b h st);
  unapproved = λ i a b h st. ground (arith, s.unapproved i a b h st);
  reviewer_apart =
      λ i a h. ground (arith, s.reviewer_apart i a, s.unreviewed r.bundle.id a r found early);
  approver_apart =
      λ i a h. ground (arith, s.approver_apart i a, s.unreviewed r.bundle.id a r found early);
}

-- A row found after a change of status is the changed row, or it was there before.
set_status_cases :
    (i : ℕ) (r : BundleRow) (status : BundleStatus) (bs : List BundleRow) (b : BundleRow)
    → find_bundle r.bundle.id bs ≡ some r
    → find_bundle i (set_status r.bundle.id status bs) ≡ some b
    → ((i ≡ r.bundle.id) × (b.status ≡ status))
      ⊎ (((i == r.bundle.id) ≡ false) × (find_bundle i bs ≡ some b))
set_status_cases i r status bs b found h = elim (Option-cases (find_bundle i bs)) [
  | inl missing ↦ ground (arith, find_bundle-set_status i r.bundle.id status bs)
  | inr (x, there) ↦
      ground
        (arith, find_bundle-set_status i r.bundle.id status bs, find_bundle_id i bs {b = x} there)
]

set_status-none :
    (i id : ℕ) (status : BundleStatus) (bs : List BundleRow)
    → find_bundle i (set_status id status bs) ≡ none
    → find_bundle i bs ≡ none
set_status-none i id status bs h = ground (arith, find_bundle-set_status i id status bs)

pub move-IsSegregated :
    (db : Db) (e : Decision) (actor : ℕ) (target : BundleStatus) (r : BundleRow)
    → find_bundle r.bundle.id db.bundles ≡ some r
    → valid_transition r.status target ≡ true
    → e.actor_id ≡ some actor
    → e.actor_role ≡ required_role target
    → filled (forbidden target) r.bundle.id actor db.approvals ≡ false
    → IsSegregated db
    → IsSegregated (record db {
      bundles = set_status r.bundle.id target db.bundles;
      approvals = logged e r target db.approvals;
    })
unfolding filled valid_transition required_role
move-IsSegregated db e actor proposed r found ok who role free s = ground arith
move-IsSegregated db e actor reviewed r found ok who role free s = record {
  known =
      λ q i a h. ground (arith, s.known q i a, set_status-none i r.bundle.id reviewed db.bundles);
  unreviewed = λ i a b h st.
      ground (arith, s.unreviewed i a b, set_status_cases i r reviewed db.bundles b found h);
  unapproved = λ i a b h st. ground (
    arith,
    s.unapproved i a b,
    s.unreviewed r.bundle.id a r found,
    set_status_cases i r reviewed db.bundles b found h,
  );
  reviewer_apart = λ i a h. ground (arith, s.reviewer_apart i a);
  approver_apart = λ i a h. ground (
    arith,
    s.approver_apart i a,
    s.unapproved r.bundle.id a r found,
    s.unreviewed r.bundle.id a r found,
    filled_pair author reviewer r.bundle.id actor db.approvals,
  );
}
move-IsSegregated db e actor approved r found ok who role free s = record {
  known =
      λ q i a h. ground (arith, s.known q i a, set_status-none i r.bundle.id approved db.bundles);
  unreviewed = λ i a b h st.
      ground (arith, s.unreviewed i a b, set_status_cases i r approved db.bundles b found h);
  unapproved = λ i a b h st. ground (
    arith,
    s.unapproved i a b,
    s.unreviewed r.bundle.id a r found,
    set_status_cases i r approved db.bundles b found h,
  );
  reviewer_apart = λ i a h. ground (arith, s.reviewer_apart i a);
  approver_apart = λ i a h. ground (
    arith,
    s.approver_apart i a,
    s.unapproved r.bundle.id a r found,
    s.unreviewed r.bundle.id a r found,
    filled_pair author reviewer r.bundle.id actor db.approvals,
  );
}
move-IsSegregated db e actor active r found ok who role free s = record {
  known = λ q i a h. ground (arith, s.known q i a, set_status-none i r.bundle.id active db.bundles);
  unreviewed = λ i a b h st.
      ground (arith, s.unreviewed i a b, set_status_cases i r active db.bundles b found h);
  unapproved = λ i a b h st. ground (
    arith,
    s.unapproved i a b,
    s.unreviewed r.bundle.id a r found,
    set_status_cases i r active db.bundles b found h,
  );
  reviewer_apart = λ i a h. ground (arith, s.reviewer_apart i a);
  approver_apart = λ i a h. ground (
    arith,
    s.approver_apart i a,
    s.unapproved r.bundle.id a r found,
    s.unreviewed r.bundle.id a r found,
    filled_pair author reviewer r.bundle.id actor db.approvals,
  );
}
move-IsSegregated db e actor superseded r found ok who role free s = record {
  known =
      λ q i a h. ground (arith, s.known q i a, set_status-none i r.bundle.id superseded db.bundles);
  unreviewed = λ i a b h st.
      ground (arith, s.unreviewed i a b, set_status_cases i r superseded db.bundles b found h);
  unapproved = λ i a b h st. ground (
    arith,
    s.unapproved i a b,
    s.unreviewed r.bundle.id a r found,
    set_status_cases i r superseded db.bundles b found h,
  );
  reviewer_apart = λ i a h. ground (arith, s.reviewer_apart i a);
  approver_apart = λ i a h. ground (
    arith,
    s.approver_apart i a,
    s.unapproved r.bundle.id a r found,
    s.unreviewed r.bundle.id a r found,
    filled_pair author reviewer r.bundle.id actor db.approvals,
  );
}
