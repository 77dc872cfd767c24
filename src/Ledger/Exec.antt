-- ===== src/Ledger/Exec.antt =====
-- packages/ledger/session.py: code that reads and writes through a session, and may raise.
use forensa.Prelude.{Bool, Error, Result, ok, err, if◌then◌else◌}
use forensa.Ledger.{Db}

-- What was flushed before an exception stays in the transaction until it is rolled back.
abbrev pub Exec {ℓ} : Type ℓ → Type ℓ
Exec A = Db → Result A × Db

module _ {ℓ} {A : Type ℓ} where
  abbrev pub pure : A → Exec A
  pure a db = (ok a, db)

  abbrev pub raise : Error → Exec A
  raise e db = (err e, db)

  abbrev pub lift : Result A → Exec A
  lift r db = (r, db)

  abbrev pub gets : (Db → A) → Exec A
  gets f db = (ok (f db), db)

  -- `async with session.begin_nested()`: an exception undoes what was flushed inside.
  abbrev pub nested : Exec A → Exec A
  nested m db = let (r, db') = m db in elim r [ ok a ↦ (ok a, db') | err e ↦ (err e, db) ]

  -- `session_scope`: commit, or roll back and raise again.
  abbrev pub session_scope : Exec A → Exec A
  session_scope m db = let (r, db') = m db in elim r [ ok a ↦ (ok a, db') | err e ↦ (err e, db) ]

infixl 5 ◌>>=◌ ◌>>◌
abbrev pub ◌>>=◌ {ℓ κ} : {A : Type ℓ} {B : Type κ} → Exec A → (A → Exec B) → Exec B
◌>>=◌ m f db = let (r, db') = m db in elim r [ ok a ↦ f a db' | err e ↦ (err e, db') ]

abbrev pub ◌>>◌ {ℓ κ} : {A : Type ℓ} {B : Type κ} → Exec A → Exec B → Exec B
m >> k = m >>= λ _. k

abbrev pub modify : (Db → Db) → Exec (Unit {0})
modify f db = (ok tt, f db)

abbrev pub raise_if : Bool → Error → Exec (Unit {0})
raise_if b e db = (if b then err e else ok tt, db)

-- A flush whose rows break a constraint raises `IntegrityError`; nothing of it is written.
abbrev pub flush : (Db → Bool) → (Db → Db) → Exec (Unit {0})
flush allowed write db = if allowed db then (ok tt, write db) else (err Error.integrity_error, db)
