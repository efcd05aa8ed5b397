-- ===== src/Store/Tests.antt =====
-- Runs of the migrations.
use walkie.Prelude.{◌≡◌, refl, true, none, some, List, [], ◌∷◌, ◌==◌, if◌then◌else◌}
use walkie.Store.Migrate.{
  Migration, not_committed, Run, apply_from, is_contiguous, apply_migrations, not_contiguous,
}
use walkie.Store.Interrupted.{all_stmts, after_runs, interrupted_migrations_resume}

abbrev two_steps : List Migration
two_steps =
    record { version = 1; name = "create-presence-tables"; stmts = "a" ∷ "b" ∷ [] }
    ∷ record { version = 2; name = "create-offline-queue-tables"; stmts = "c" ∷ [] }
    ∷ []

abbrev smooth : Run
smooth = record { ensures = true; reads = true; step = λ v. none; now = 5 }

abbrev second_fails : Run
second_fails = record smooth { step = λ v. if v == 2 then some not_committed else none }

interrupted_migrations_resume_example :
    let o =
      apply_migrations smooth two_steps
        (after_runs two_steps (second_fails ∷ []) (record { schema = []; ledger = none })) in
    (o.0 ≡ none) × (o.1.schema ≡ all_stmts two_steps)
unfolding is_contiguous
interrupted_migrations_resume_example =
    interrupted_migrations_resume two_steps refl (second_fails ∷ []) smooth
      (record { ensured = refl; read = refl; stepped = λ v. refl })

-- The first step stays, and the second leaves nothing.
stops_between :
    (apply_migrations second_fails two_steps (record { schema = []; ledger = none })).1.schema
    ≡ "a" ∷ "b" ∷ []
unfolding apply_migrations apply_from is_contiguous
stops_between = refl

-- A renumbered sequence is refused.
renumbered :
    (apply_migrations smooth
      (record { version = 2; name = "x"; stmts = [] } ∷ [])
      (record { schema = []; ledger = none })).0
    ≡ some not_contiguous
unfolding apply_migrations is_contiguous
renumbered = refl
