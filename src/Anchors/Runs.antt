-- ===== src/Anchors/Runs.antt =====
-- packages/ledger/anchor.py: what one anchoring of a day answers and writes, and what a sequence keeps.
use forensa.Prelude.{
  ℕ, ◌-◌, ◌+◌, ◌%◌, true, false, not, Option, none, some, List, [], ◌∷◌, All, ◌≡◌, refl, sym, ap,
  ◌∙◌, subst, ◌⊎◌, inl, inr, ◌==◌, nat_eq, Result, ok, err, ◌>>=◌, ◌>>◌, require, require-eq-ok,
  >>=-eq-ok, arith, anchor_exists, value_error, Bool-cases,
}
use forensa.Ledger.{Db, ReceiptRow}
use forensa.Anchors
use forensa.Anchors.{
  AnchorRow, AnchorCall, AnchorResult, DateTime, aware, naive, anchored, deferred,
}
use forensa.Anchors.Table.{
  Shape, IsSound, find_anchor, get_existing_row-find, replace_row-find, replace_row-IsSound,
  replace_row-ok,
}

-- The midnight, and the bounds, of the day of an instant.
abbrev pub midnight : ℕ → ℕ
midnight t = t - t % Anchors.day_length

abbrev pub bounds_of : ℕ → ℕ × ℕ
bounds_of t = (midnight t, midnight t + (Anchors.day_length - 1))

-- The row that the call writes, and its result.
abbrev pub new_row : AnchorCall → ℕ → Db → AnchorRow
new_row c t db =
    Anchors.row_for_day c (midnight t)
      (Anchors.get_latest_receipt_for_day c.tenant_id (bounds_of t) db)

unfoldable pub result_for : AnchorCall → ℕ → Db → AnchorResult
result_for c t db =
    let latest = Anchors.get_latest_receipt_for_day c.tenant_id (bounds_of t) db in
    Anchors.result_of (new_row c t db)
      (Anchors.covered_by latest (Anchors.count_receipts_for_day c.tenant_id (bounds_of t) db))

pub row_for_day-key :
    (c : AnchorCall) (date : ℕ) (latest : Option ReceiptRow)
    → ((Anchors.row_for_day c date latest).tenant_id ≡ c.tenant_id)
      × ((Anchors.row_for_day c date latest).anchor_date ≡ date)
      × ((Anchors.row_for_day c date latest).id ≡ c.id)
unfolding Anchors.row_for_day
row_for_day-key c date none = (refl, refl, refl)
row_for_day-key c date (some r) = ground arith

pub row_for_day-Shape :
    (c : AnchorCall) (date : ℕ) (latest : Option ReceiptRow)
    → Shape (Anchors.row_for_day c date latest).status (Anchors.row_for_day c date latest)
unfolding Anchors.row_for_day
row_for_day-Shape c date none = (refl, refl, refl, refl)
row_for_day-Shape c date (some r) = ground arith

get_anchor-find :
    (tenant t : ℕ) (day : DateTime) (rs : List AnchorRow)
    → day ≡ aware t
    → IsSound rs
    → Anchors.get_anchor_for_day tenant day rs ≡ ok (find_anchor tenant (midnight t) rs)
unfolding Anchors.get_anchor_for_day Anchors.normalised_anchor_date Anchors.day_bounds
get_anchor-find tenant t day rs at s = rw at (get_existing_row-find tenant (midnight t) rs s)

-- What the call comes to on a sound table.
abbrev written_for :
    AnchorCall → ℕ → Db → List AnchorRow → Option AnchorRow → Result (AnchorResult × List AnchorRow)
written_for c t db rs found =
    require (not (Anchors.exists_anchored found)) anchor_exists
    >> (Anchors.replace_row found (new_row c t db) rs >>= λ written.
        ok (result_for c t db, written))

module _ (c : AnchorCall) (db : Db) (rs : List AnchorRow) (s : IsSound rs) where
  anchor_day-aware :
      (t : ℕ)
      → c.day ≡ aware t
      → Anchors.anchor_day c db rs ≡ written_for c t db rs (find_anchor c.tenant_id (midnight t) rs)
  unfolding Anchors.anchor_day Anchors.normalised_anchor_date Anchors.day_bounds result_for
  anchor_day-aware t at = rw (at, get_existing_row-find c.tenant_id (midnight t) rs s)

  anchor_day-naive : (t : ℕ) → c.day ≡ naive t → Anchors.anchor_day c db rs ≡ err value_error
  unfolding Anchors.anchor_day Anchors.normalised_anchor_date Anchors.day_bounds
  anchor_day-naive t at = rw at

  -- What is known of a call that returned: the row that it replaced was not anchored.
  anchor_day-returned :
      (res : AnchorResult) (rs' : List AnchorRow)
      → Anchors.anchor_day c db rs ≡ ok (res, rs')
      → (t : ℕ) × (c.day ≡ aware t)
        × (res ≡ result_for c t db)
        × (Anchors.exists_anchored (find_anchor c.tenant_id (midnight t) rs) ≡ false)
        × (Anchors.replace_row (find_anchor c.tenant_id (midnight t) rs) (new_row c t db) rs
            ≡ ok rs')
  anchor_day-returned res rs' h = of_day c.day refl
    where
      of_day :
          (day : DateTime)
          → c.day ≡ day
          → (t : ℕ) × (c.day ≡ aware t)
            × (res ≡ result_for c t db)
            × (Anchors.exists_anchored (find_anchor c.tenant_id (midnight t) rs) ≡ false)
            × (Anchors.replace_row (find_anchor c.tenant_id (midnight t) rs) (new_row c t db) rs
                ≡ ok rs')
      of_day (naive t) at = cc (anchor_day-naive t at, h)
      of_day (aware t) at =
          let found = find_anchor c.tenant_id (midnight t) rs in
          let row = new_row c t db in
          let answer : List AnchorRow → Result (AnchorResult × List AnchorRow) =
            λ w. ok (result_for c t db, w) in
          let (free, rest) =
            require-eq-ok (not (Anchors.exists_anchored found)) anchor_exists
              (Anchors.replace_row found row rs >>= answer) (sym (anchor_day-aware t at) ∙ h) in
          let (written, e, r) = >>=-eq-ok (Anchors.replace_row found row rs) answer rest in
          (t, at, cc r, ground (arith, free), cc (e, r))

  -- The call as a step of the table: the rows of other days stay.
  pub anchor_day-steps :
      (res : AnchorResult) (rs' : List AnchorRow)
      → Anchors.anchor_day c db rs ≡ ok (res, rs')
      → IsSound rs'
        × ((tenant date : ℕ) (r : AnchorRow)
            → find_anchor tenant date rs ≡ some r
            → Anchors.is_anchored r.status ≡ true
            → find_anchor tenant date rs' ≡ some r)
  anchor_day-steps res rs' h =
      let (t, at, _, free, w) = anchor_day-returned res rs' h in
      let latest = Anchors.get_latest_receipt_for_day c.tenant_id (bounds_of t) db in
      let key = row_for_day-key c (midnight t) latest in
      let w' : Anchors.replace_row
            (find_anchor (new_row c t db).tenant_id (new_row c t db).anchor_date rs)
            (new_row c t db) rs
          ≡ ok rs' =
        cc (key.0, key.1, w) in
      (
        replace_row-IsSound (new_row c t db) rs rs' s (find_anchor c.tenant_id (midnight t) rs)
            (row_for_day-Shape c (midnight t) latest) (omega (arith, key.1)) w,
        λ tenant date r f a. ground (
          arith,
          f,
          a,
          free,
          key.0,
          key.1,
          replace_row-find (new_row c t db) rs rs' s tenant date w',
        ),
      )

  -- After a call that returned, the lookup finds its row.
  pub anchor_day-found :
      (t : ℕ)
      → c.day ≡ aware t
      → (res : AnchorResult) (rs' : List AnchorRow) → Anchors.anchor_day c db rs ≡ ok (res, rs')
      → (Anchors.get_anchor_for_day c.tenant_id c.day rs' ≡ ok (some (new_row c t db)))
        × (res ≡ result_for c t db)
  anchor_day-found t at res rs' h =
      let (u, at', e, free, w) = anchor_day-returned res rs' h in
      let same : u ≡ t = cc (at, at') in
      let sound = (anchor_day-steps res rs' h).0 in
      (
        get_anchor-find c.tenant_id t c.day rs' at sound ∙ ap ok (written t (subst Written same w)),
        subst (λ n. res ≡ result_for c n db) same e,
      )
    where
      Written : ℕ → Type 0
      Written n =
          Anchors.replace_row (find_anchor c.tenant_id (midnight n) rs) (new_row c n db) rs ≡ ok rs'

      written :
          (n : ℕ) → Written n → find_anchor c.tenant_id (midnight n) rs' ≡ some (new_row c n db)
      written n w =
          let row = new_row c n db in
          let key =
            row_for_day-key c (midnight n)
              (Anchors.get_latest_receipt_for_day c.tenant_id (bounds_of n) db) in
          let w' : Anchors.replace_row (find_anchor row.tenant_id row.anchor_date rs) row rs
              ≡ ok rs' =
            cc (key.0, key.1, w) in
          ground (arith, key.0, key.1, replace_row-find row rs rs' s c.tenant_id (midnight n) w')

  -- On a sound table, with an id that is new and a day that has a zone: an anchored day is refused;
  -- any other day gets the row of the call, which the lookup then finds.
  pub anchor_day-anchors :
      (t : ℕ)
      → c.day ≡ aware t
      → All (λ (r : AnchorRow). (r.id == c.id) ≡ false) rs
      → ((Anchors.exists_anchored (find_anchor c.tenant_id (midnight t) rs) ≡ true)
          × (Anchors.anchor_day c db rs ≡ err anchor_exists))
        ⊎ ((rs' : List AnchorRow) × (Anchors.exists_anchored
                (find_anchor c.tenant_id (midnight t) rs)
              ≡ false)
            × (Anchors.anchor_day c db rs ≡ ok (result_for c t db, rs'))
            × (Anchors.get_anchor_for_day c.tenant_id c.day rs' ≡ ok (some (new_row c t db))))
  anchor_day-anchors t at fresh =
      let found = find_anchor c.tenant_id (midnight t) rs in
      let row = new_row c t db in
      let latest = Anchors.get_latest_receipt_for_day c.tenant_id (bounds_of t) db in
      let key = row_for_day-key c (midnight t) latest in
      elim (Bool-cases (Anchors.exists_anchored found)) [
        | inl done ↦ inl (done, anchor_day-aware t at ∙ rw done)
        | inr free ↦
            let (rs', w') =
              replace_row-ok row rs s
                (subst (λ i. All (λ (r : AnchorRow). (r.id == i) ≡ false) rs) (sym key.2) fresh) in
            let w : Anchors.replace_row found row rs ≡ ok rs' = cc (key.0, key.1, w') in
            let e : Anchors.anchor_day c db rs ≡ ok (result_for c t db, rs') =
              anchor_day-aware t at ∙ rw (free, w) in
            inr (rs', free, e, (anchor_day-found t at (result_for c t db) rs' e).0)
      ]

-- Any sequence of anchorings, the refused ones among them, takes a sound table of anchors to a
-- sound one: each row is of a midnight, has a root, a response, a signature and a time stamp if
-- it is anchored and none of these if it is deferred, and no two rows have one id, or one tenant
-- and day.
pub anchor_runs-IsSound :
    (runs : List (AnchorCall × Db)) (rs : List AnchorRow)
    → IsSound rs
    → IsSound (Anchors.anchor_runs runs rs)
unfolding Anchors.anchor_runs
anchor_runs-IsSound [] rs s = s
anchor_runs-IsSound ((c, db) ∷ runs) rs s =
    of_result (Anchors.anchor_day c db rs) refl (anchor_runs-IsSound runs)
  where
    of_result :
        (o : Result (AnchorResult × List AnchorRow))
        → Anchors.anchor_day c db rs ≡ o
        → ((qs : List AnchorRow) → IsSound qs → IsSound (Anchors.anchor_runs runs qs))
        → IsSound (elim o [
          | ok (_, written) ↦ Anchors.anchor_runs runs written
          | err _ ↦ Anchors.anchor_runs runs rs
        ])
    of_result (ok (res, written)) e later =
        later written (anchor_day-steps c db rs s res written e).0
    of_result (err x) e later = later rs s

-- An anchored row of a sound table stays the row of its tenant and day, whatever anchorings
-- follow, the refused ones among them.
pub anchor_runs-keep :
    (runs : List (AnchorCall × Db)) (rs : List AnchorRow) (tenant date : ℕ) (r : AnchorRow)
    → IsSound rs
    → find_anchor tenant date rs ≡ some r
    → r.status ≡ anchored
    → find_anchor tenant date (Anchors.anchor_runs runs rs) ≡ some r
unfolding Anchors.anchor_runs
anchor_runs-keep [] rs tenant date r s f a = f
anchor_runs-keep ((c, db) ∷ runs) rs tenant date r s f a =
    of_result (Anchors.anchor_day c db rs) refl (λ qs. anchor_runs-keep runs qs tenant date r)
  where
    of_result :
        (o : Result (AnchorResult × List AnchorRow))
        → Anchors.anchor_day c db rs ≡ o
        → ((qs : List AnchorRow)
            → IsSound qs
            → find_anchor tenant date qs ≡ some r
            → r.status ≡ anchored
            → find_anchor tenant date (Anchors.anchor_runs runs qs) ≡ some r)
        → find_anchor tenant date (elim o [
          | ok (_, written) ↦ Anchors.anchor_runs runs written
          | err _ ↦ Anchors.anchor_runs runs rs
        ])
          ≡ some r
    of_result (ok (res, written)) e later =
        let (sound, keeps) = anchor_day-steps c db rs s res written e in
        later written sound (keeps tenant date r f (ap Anchors.is_anchored a)) a
    of_result (err x) e later = later rs s f a
