-- ===== src/Store/Migrate.antt =====
-- The migration runner (internal/store/migrate.go). The tables of the schema are read by the modules of
-- the parts that use them; here a statement is its text.
use walkie.Prelude.{
  ℕ, ◌+◌, String, Bool, true, false, not, Option, none, some, List, [], ◌∷◌, ◌++◌, max, leb, ltb,
  ◌==◌, if◌then◌else◌,
}

pub record Migration : Type 0 where
  pub version : ℕ
  pub name : String
  pub stmts : List String

-- A row of schema_migrations.
pub record Applied : Type 0 where
  pub version : ℕ
  pub name : String
  pub applied_at : ℕ

-- The statements that have run, in order, and schema_migrations, once it exists.
pub record Db : Type 0 where
  pub schema : List String
  pub ledger : Option (List Applied)

-- Where the transaction of a step fails.
pub data StepError : Type 0 where
  not_begun not_recorded not_committed : StepError
  bad_statement : (i : ℕ) → StepError

pub data MigrateError : Type 0 where
  no_ledger unread_ledger not_contiguous beyond_end : MigrateError
  step_failed : (version : ℕ) (e : StepError) → MigrateError

-- What fails in one run: the ledger's DDL, its reading, and the transaction of each version.
pub record Run : Type 0 where
  pub ensures : Bool
  pub reads : Bool
  pub step : ℕ → Option StepError
  pub now : ℕ

abbrev pub rows : Option (List Applied) → List Applied
rows none = []
rows (some l) = l

abbrev pub max_version : List Applied → ℕ
max_version [] = 0
max_version (a ∷ l) = max a.version (max_version l)

-- SELECT COALESCE(MAX(version), 0)
abbrev pub recorded : Db → ℕ
recorded db = max_version (rows db.ledger)

-- CREATE TABLE IF NOT EXISTS schema_migrations
abbrev pub with_ledger : Db → Db
with_ledger db = record db { ledger = some (rows db.ledger) }

abbrev pub committed : ℕ → Migration → Db → Db
committed now m db = record {
  schema = db.schema ++ m.stmts;
  ledger =
      some (rows db.ledger ++ record { version = m.version; name = m.name; applied_at = now } ∷ []);
}

-- applyOne: a step that fails rolls back as a whole.
abbrev pub apply_one : ℕ → Option StepError → Migration → Db → Option MigrateError × Db
apply_one now none m db = (none, committed now m db)
apply_one now (some e) m db = (some (step_failed m.version e), db)

abbrev pub or_stop :
    (Db → Option MigrateError × Db) → Option MigrateError × Db → Option MigrateError × Db
or_stop rest (none, db) = rest db
or_stop rest (some e, db) = (some e, db)

-- The loop over the steps, from the version that was recorded at its start.
unfoldable pub apply_from : Run → ℕ → List Migration → Db → Option MigrateError × Db
apply_from r start [] db = (none, db)
apply_from r start (m ∷ ms) db =
    let skipped = apply_from r start ms db in
    let applied = or_stop (apply_from r start ms) (apply_one r.now (r.step m.version) m db) in
    if leb m.version start then skipped else applied

-- The contiguity check, from position `i`.
unfoldable pub is_contiguous : ℕ → List Migration → Bool
is_contiguous i [] = true
is_contiguous i (m ∷ ms) =
    let rest = is_contiguous (i + 1) ms in if m.version == i + 1 then rest else false

abbrev pub end_version : ℕ → List Migration → ℕ
end_version last [] = last
end_version last (m ∷ ms) = end_version m.version ms

abbrev pub is_empty : List Migration → Bool
is_empty [] = true
is_empty (m ∷ ms) = false

-- applyMigrations, and the database after it.
unfoldable pub apply_migrations : Run → List Migration → Db → Option MigrateError × Db
unfolding apply_from is_contiguous
apply_migrations r ms db =
    let db' = with_ledger db in
    let start = recorded db' in
    let loop = apply_from r start ms db' in
    if not r.ensures
    then (some no_ledger, db)
    else if not r.reads
    then (some unread_ledger, db')
    else if not (is_contiguous 0 ms)
    then (some not_contiguous, db')
    else if is_empty ms
    then loop
    else if ltb (end_version 0 ms) start
    then (some beyond_end, db')
    else loop
