-- ===== src/Ledger/Returns.antt =====
-- packages/ledger/session.py: what is known of code on the database that has returned.
use forensa.Prelude.{
  ◌≡◌, refl, ◌⊎◌, inl, inr, Bool, true, false, Result, ok, err, Error, if◌then◌else◌,
}
use forensa.Ledger.{Db}
use forensa.Ledger.Exec.{Exec, ◌>>=◌, raise_if, flush, lift, session_scope}

-- `m` returned `a` and left `db'`.
abbrev pub Returns {ℓ} : {A : Type ℓ} → Exec A → Db → A → Db → Type ℓ
Returns m db a db' = m db ≡ (ok a, db')

module _ {ℓ κ} {A : Type ℓ} {B : Type κ} where
  pub >>=-Returns :
      (m : Exec A) (k : A → Exec B) (db db' : Db) (b : B)
      → Returns (m >>= k) db b db'
      → (a : A) × (mid : Db) × Returns m db a mid × Returns (k a) mid b db'
  >>=-Returns m k db db' b = of_result (m db)
    where
      of_result :
          (o : Result A × Db)
          → elim o.0 as (λ _. Result B × Db) [ ok a ↦ k a o.1 | err e ↦ (err e, o.1) ] ≡ (ok b, db')
          → (a : A) × (mid : Db) × (o ≡ (ok a, mid)) × (k a mid ≡ (ok b, db'))
      of_result (ok a, mid) h = (a, mid, refl, h)
      of_result (err e, mid) h = cc

module _ {ℓ} {A : Type ℓ} where
  pub lift-Returns :
      (r : Result A) (db db' : Db) (a : A) → Returns (lift r) db a db' → (r ≡ ok a) × (db' ≡ db)
  lift-Returns (ok x) db db' a h = (cc h, cc h)
  lift-Returns (err e) db db' a h = cc

  pub session_scope-Returns :
      (m : Exec A) (db db' : Db) (a : A) → Returns (session_scope m) db a db' → Returns m db a db'
  session_scope-Returns m db db' a = of_result (m db)
    where
      of_result :
          (o : Result A × Db)
          → elim o.0 as (λ _. Result A × Db) [ ok a ↦ (ok a, o.1) | err e ↦ (err e, db) ]
            ≡ (ok a, db')
          → o ≡ (ok a, db')
      of_result (ok x, mid) h = h
      of_result (err e, mid) h = cc

  -- A transaction that raises leaves the database as it was.
  pub session_scope-cases :
      (m : Exec A) (db : Db)
      → ((a : A) × (db' : Db) × Returns m db a db' × (session_scope m db ≡ (ok a, db')))
        ⊎ ((x : Error) × (session_scope m db ≡ (err x, db)))
  session_scope-cases m db = of_result (m db)
    where
      of_result :
          (o : Result A × Db)
          → ((a : A) × (db' : Db) × (o ≡ (ok a, db'))
              × (elim o.0 as (λ _. Result A × Db) [ ok a ↦ (ok a, o.1) | err e ↦ (err e, db) ]
                  ≡ (ok a, db')))
            ⊎ ((x : Error) × (elim o.0 as (λ _. Result A × Db) [
              | ok a ↦ (ok a, o.1)
              | err e ↦ (err e, db)
            ]
                  ≡ (err x, db)))
      of_result (ok a, mid) = inl (a, mid, refl, refl)
      of_result (err e, mid) = inr (e, refl)

pub raise_if-Returns :
    (b : Bool) (e : Error) (db db' : Db) (u : Unit {0})
    → Returns (raise_if b e) db u db'
    → (b ≡ false) × (db' ≡ db)
raise_if-Returns true e db db' u h = cc
raise_if-Returns false e db db' u h = (refl, cc h)

pub flush-Returns :
    (allowed : Db → Bool) (write : Db → Db) (db db' : Db) (u : Unit {0})
    → Returns (flush allowed write) db u db'
    → (allowed db ≡ true) × (db' ≡ write db)
flush-Returns allowed write db db' u = of_answer (allowed db)
  where
    of_answer :
        (c : Bool)
        → ◌≡◌ {A = Result (Unit {0}) × Db}
            (if c then (ok tt, write db) else (err Error.integrity_error, db))
            (ok u, db')
        → (c ≡ true) × (db' ≡ write db)
    of_answer true h = (refl, cc h)
    of_answer false h = cc
