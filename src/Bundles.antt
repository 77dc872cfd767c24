-- ===== src/Bundles.antt =====
-- packages/ledger/bundle_repository.py
use forensa.Prelude.{
  ℕ, Bool, true, not, ◌&&◌, ◌||◌, Option, none, some, List, [], ◌∷◌, map, take, filter, sort_desc,
  ◌==◌, nat_eq, string_eq,
}
use forensa.Ledger.{PolicyBundle, BundleRow, proposed}
use forensa.Ledger.Exec.{Exec, pure, gets, flush, ◌>>◌}
use forensa.Workflow.{active_bundles}

-- The primary key and `uq_policy_bundles_tenant_version`.
unfoldable pub is_new_bundle : PolicyBundle → List BundleRow → Bool
is_new_bundle bundle [] = true
is_new_bundle bundle (r ∷ rs) =
    not (
      r.bundle.id == bundle.id
      || (r.bundle.tenant_id == bundle.tenant_id && r.bundle.version == bundle.version))
    && is_new_bundle bundle rs

unfoldable pub flush_bundle : PolicyBundle → Exec (Unit {0})
flush_bundle bundle =
    flush (λ db. is_new_bundle bundle db.bundles)
      (λ db. record db { bundles = record { bundle = bundle; status = proposed } ∷ db.bundles })

unfoldable pub write_bundle : PolicyBundle → Exec ℕ
write_bundle bundle = do flush_bundle bundle; pure bundle.id

-- `_row_to_bundle`
abbrev row_to_bundle : BundleRow → PolicyBundle
row_to_bundle r = r.bundle

abbrev in_scope : Option ℕ → BundleRow → Bool
in_scope none r = true
in_scope (some t) r = r.bundle.tenant_id == t

abbrev first_bundle : List BundleRow → Option PolicyBundle
first_bundle [] = none
first_bundle (r ∷ rs) = some (row_to_bundle r)

unfoldable pub get_bundle_by_id : ℕ → Option ℕ → Exec (Option PolicyBundle)
get_bundle_by_id bundle_id tenant = gets (λ db.
    first_bundle (
      take 1
        (filter (λ (r : BundleRow). r.bundle.id == bundle_id && in_scope tenant r) db.bundles)))

unfoldable pub get_active_bundle_for_tenant : ℕ → Exec (Option PolicyBundle)
get_active_bundle_for_tenant tenant = gets (λ db. first_bundle (
    take 1 (sort_desc (λ (r : BundleRow). r.bundle.created_at) (active_bundles tenant db.bundles))))

unfoldable pub list_bundles_for_tenant : ℕ → ℕ → Exec (List PolicyBundle)
list_bundles_for_tenant tenant limit = gets (λ db. map row_to_bundle (
    take limit (
      sort_desc (λ (r : BundleRow). r.bundle.created_at)
        (filter (λ (r : BundleRow). r.bundle.tenant_id == tenant) db.bundles))))
