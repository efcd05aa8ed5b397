-- ===== src/Queue/Ops/Tx.antt =====
-- The queue's state, its errors and its transactions (internal/coordinator/queue/queue.go).
use walkie.Prelude.{ℕ, String, Bool, Option, none, some, List, if◌then◌else◌}
use walkie.Queue.Tables.{Row, Tables}

-- The statements, as the places where the database can fail.
pub data Stmt : Type 0 where
  begin ensuring counting reading_cursor advancing inserting committing : Stmt
  selecting deleting finding_earliest : Stmt
  evicting : Row → Stmt

abbrev pub Faults : Type 0
Faults = Stmt → Bool

pub data Error : Type 0 where
  capacity : String → ℕ → Error
  closed unsupported_payload marshal_failed seal_failed : Error
  storage : Stmt → Error
  bad_ttl bad_max_size : Error

pub data Result {ℓ} (A : Type ℓ) : Type ℓ where
  ok : A → Result A
  err : Error → Result A

-- A timer of the injected clock: when it fires, and whether its fire has been taken.
pub record Timer : Type 0 where
  pub deadline : ℕ
  pub taken : Bool

-- What the queue reports to internal/obs: refusals at the cap, TTL evictions, observed depths.
pub record Metrics : Type 0 where
  pub size_cap : ℕ
  pub ttl : ℕ
  pub depths : List ℕ

pub record Queue : Type 0 where
  pub db : Tables
  pub ttl : ℕ
  pub max_size : ℕ
  pub timer : Option Timer
  pub is_closed : Bool
  pub swept : Bool
  pub metrics : Metrics

-- A transaction: an error leaves the tables as they were, by Rollback.
abbrev pub Tx : Type 0 → Type 0
Tx A = Tables → Result (A × Tables)

abbrev pub continue : {A B : Type 0} → Result (A × Tables) → (A → Tx B) → Result (B × Tables)
continue (err e) f = err e
continue (ok (a, db)) f = f a db

infixl 5 ◌>>=◌ ◌>>◌
abbrev pub ◌>>=◌ : {A B : Type 0} → Tx A → (A → Tx B) → Tx B
◌>>=◌ m f db = continue (m db) f

abbrev pub ◌>>◌ : {B : Type 0} → Tx (Unit {0}) → Tx B → Tx B
m >> k = m >>= λ _. k

abbrev pub pure : {A : Type 0} → A → Tx A
pure a db = ok (a, db)

abbrev pub refuse : {A : Type 0} → Error → Tx A
refuse e db = err e

abbrev pub or_fault : {A : Type 0} → Stmt → Option (A × Tables) → Result (A × Tables)
or_fault s none = err (storage s)
or_fault s (some r) = ok r

-- One statement: it fails if the run says so, or if it has no answer.
abbrev pub exec? : {A : Type 0} → Faults → Stmt → (Tables → Option (A × Tables)) → Tx A
exec? fails s f db = if fails s then err (storage s) else or_fault s (f db)

abbrev pub exec : Faults → Stmt → (Tables → Tables) → Tx (Unit {0})
exec fails s f = exec? fails s (λ db. some (tt, f db))

abbrev pub query : {A : Type 0} → Faults → Stmt → (Tables → A) → Tx A
query fails s f = exec? fails s (λ db. some (f db, db))

abbrev pub answer : Tables → Option ℕ → Option (ℕ × Tables)
answer db none = none
answer db (some n) = some (n, db)

abbrev pub written : Option Tables → Option (Unit {0} × Tables)
written none = none
written (some db) = some (tt, db)
