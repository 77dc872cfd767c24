-- ===== src/Policy/Bind.antt =====
-- packages/policy: what binds a verdict, a snapshot and a replay to the content of a bundle.
use forensa.Prelude.{
  ℕ, String, ◌≡◌, ◌↔◌, true, false, some, List, ◌==◌, beq_refl, nat_eq, string_eq, eq_iff, Result,
  ok, err, ◌>>=◌, arith,
}
use forensa.Hash.{Value, sha256_hex}
use forensa.Ledger.{PolicyBundle, PolicySnapshot}
use forensa.Policy

-- A replay that is resolved against a live bundle has the content hash of the snapshot, and
-- reports no drift exactly when `resolve_snapshot` accepts the live bundle.
pub resolve_replay_policy-eq :
    (s : PolicySnapshot) (snapshot_id : ℕ) (live : PolicyBundle) (p : Policy.ReplayPolicy)
    → Policy.resolve_replay_policy s.policy_bundle_id snapshot_id s (some live) ≡ ok p
    → (p.content_hash ≡ s.content_hash)
      × ((p.drift_detected ≡ false) ↔ (Policy.resolve_snapshot s live ≡ ok tt))
unfolding Policy.resolve_replay_policy Policy.resolve_snapshot Policy.snapshot_matches_bundle
resolve_replay_policy-eq s snapshot_id live p h = ground (
  arith,
  h,
  eq_iff s.content_hash live.content_hash,
  eq_iff live.content_hash s.content_hash,
  nat_eq.beq_iff s.policy_bundle_id live.id,
)

module _ (sha256 : List ℕ → String) where
  verify_content_hash-true :
      (b : PolicyBundle)
      → Policy.verify_content_hash sha256 b ≡ ok true
      → sha256_hex sha256 b.content ≡ ok b.content_hash
  unfolding Policy.verify_content_hash Policy.compute_content_hash
  verify_content_hash-true b = of_hash (sha256_hex sha256 b.content)
    where
      of_hash :
          (r : Result String)
          → (r >>= λ h. ok (b.content_hash == h)) ≡ ok true
          → r ≡ ok b.content_hash
      of_hash (ok x) h = ground (arith, h, eq_iff b.content_hash x)
      of_hash (err e) h = cc

  -- A snapshot that is captured has the id of the bundle and of the verdict and the content
  -- hash of the verdict, which is the hash of the content of the bundle, and matches the
  -- bundle.
  pub capture_snapshot-binds :
      (now : ℕ) (b : PolicyBundle) (v : Policy.PolicyVerdict) (s : PolicySnapshot)
      → Policy.capture_snapshot sha256 now b v ≡ ok s
      → (s.policy_bundle_id ≡ b.id)
        × (s.policy_bundle_id ≡ v.policy_bundle_id)
        × (s.content_hash ≡ v.content_hash)
        × (sha256_hex sha256 b.content ≡ ok s.content_hash)
        × (Policy.snapshot_matches_bundle s b ≡ true)
  unfolding Policy.capture_snapshot Policy.make_snapshot Policy.snapshot_matches_bundle
  capture_snapshot-binds now b v s h = ground (
    arith,
    h,
    eq_iff b.content_hash v.content_hash,
    nat_eq.beq_iff b.id v.policy_bundle_id,
    beq_refl b.id,
    beq_refl b.content_hash,
    verify_content_hash-true b,
  )

  -- Where the schema changes a content at most once, a bundle that `build_bundle` returns
  -- passes both checks of its content hash.
  pub build_bundle-verify_content_hash :
      (schema : Policy.BundleFields) (id now tenant : ℕ) (version : String) (content : Value)
      (b : PolicyBundle)
      → ((c : Value) → schema.content_of (schema.content_of c) ≡ schema.content_of c)
      → Policy.build_bundle sha256 schema id now tenant version content ≡ ok b
      → (Policy.verify_content_hash sha256 b ≡ ok true)
        × (Policy.require_content_hash sha256 b ≡ ok tt)
  unfolding Policy.build_bundle Policy.make_bundle Policy.verify_content_hash
      Policy.require_content_hash Policy.compute_content_hash
  build_bundle-verify_content_hash schema id now tenant version content b idem h =
      ground (arith, h, idem content, beq_refl b.content_hash)
