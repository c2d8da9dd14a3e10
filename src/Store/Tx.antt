-- ===== src/Store/Tx.antt =====
-- WithTx and execWithTx (internal/db/db.go, internal/db/tx.go): what the body wrote becomes visible
-- at the commit, and is rolled back where the body or the commit fails. The driver's answers to
-- BEGIN and COMMIT are a parameter.
use status_dashboard_backend.Common.{Bool, false, if◌then◌else◌, Result, ok, err}
use status_dashboard_backend.Store.Tables.{Db, DbError, driver}

pub record Driver : Type 0 where
  pub begin_fails : Bool
  pub commit_fails : Bool

abbrev pub reliable : Driver
reliable = record { begin_fails = false; commit_fails = false }

-- the commit of a body that returned no error
unfoldable pub finish : {A : Type 0} → Driver → Db → Result DbError (A × Db) → Result DbError A × Db
finish d db (err e) = (err e, db)
finish d db (ok (a, db')) = if d.commit_fails then (err driver, db) else (ok a, db')

unfoldable pub with_tx :
    {A : Type 0} → Driver → (Db → Result DbError (A × Db)) → Db → Result DbError A × Db
unfolding finish
with_tx d body db = if d.begin_fails then (err driver, db) else finish d db (body db)
