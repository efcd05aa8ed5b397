-- ===== src/Store/Interrupted.antt =====
-- Whole runs of the migrations, one after another (internal/store/migrate.go).
use walkie.Prelude.{
  ℕ, ◌+◌, ◌≤◌, ◌≡◌, refl, sym, ap, ◌∙◌, subst, String, true, none, List, [], ◌∷◌, ◌++◌, length,
  arith,
}
use walkie.Store.Migrate.{
  Migration, Db, Run, recorded, with_ledger, apply_from, is_contiguous, end_version,
  apply_migrations,
}
use walkie.Store.Resuming.{between, between-append, between_none, apply_from-Advances}

-- A database that some of the steps have made: the first ones, and all their statements.
pub record IsMigrated (ms : List Migration) (db : Db) : Type 0 where
  pub known : recorded db ≤ length ms
  pub ran : db.schema ≡ between 0 (recorded db) ms

end_version-length :
    (i : ℕ) (ms : List Migration) → is_contiguous i ms ≡ true → end_version i ms ≡ i + length ms
unfolding is_contiguous
end_version-length i [] c = omega arith
end_version-length i (m ∷ ms) c =
    let v : m.version ≡ i + 1 = ground (arith, c) in
    ap (λ n. end_version n ms) v ∙ ground (arith, end_version-length (i + 1) ms (ground (arith, c)))

-- Every statement of the steps, in order.
unfoldable pub all_stmts : List Migration → List String
all_stmts [] = []
all_stmts (m ∷ ms) = m.stmts ++ all_stmts ms

between_all :
    (i lo hi : ℕ) (ms : List Migration)
    → is_contiguous i ms ≡ true
    → lo ≤ i
    → i + length ms ≤ hi
    → between lo hi ms ≡ all_stmts ms
unfolding is_contiguous all_stmts
between_all i lo hi [] c le le' = refl
between_all i lo hi (m ∷ ms) c le le' =
    let v : m.version ≡ i + 1 = ground (arith, c) in
    ground (
      arith,
      v,
      le,
      le',
      between_all (i + 1) lo hi ms (ground (arith, c)) (omega (arith, le)) (omega (arith, le')),
    )

-- The database after several runs, each opening what the last one left.
abbrev pub after_runs : List Migration → List Run → Db → Db
after_runs ms [] db = db
after_runs ms (r ∷ rs) db = after_runs ms rs (apply_migrations r ms db).1

-- Nothing fails in a run.
pub record IsSmooth (r : Run) : Type 0 where
  pub ensured : r.ensures ≡ true
  pub read : r.reads ≡ true
  pub stepped : (v : ℕ) → r.step v ≡ none

module _ (ms : List Migration) (c : is_contiguous 0 ms ≡ true) where
  loop-IsMigrated :
      (r : Run) (db : Db)
      → IsMigrated ms db
      → IsMigrated ms (apply_from r (recorded db) ms (with_ledger db)).1
  loop-IsMigrated r db h =
      let d =
        apply_from-Advances r (recorded db) 0 (recorded db) ms (with_ledger db) c refl
          (omega arith) in
      record {
        known = omega (arith, d.inside, d.reached, h.known);
        ran =
            d.ran
            ∙ ap (λ x. x ++ between (recorded db) d.hi ms) h.ran
            ∙ between-append 0 0 (recorded db) d.hi ms c (omega arith) d.onward
            ∙ ap (λ n. between 0 n ms) (sym d.reached);
      }

  apply_migrations-IsMigrated :
      (r : Run) (db : Db) → IsMigrated ms db → IsMigrated ms (apply_migrations r ms db).1
  unfolding apply_migrations
  apply_migrations-IsMigrated r db h =
      let same : IsMigrated ms (with_ledger db) = record { known = h.known; ran = h.ran } in
      ground (arith, h, same, loop-IsMigrated r db h)

  loop-IsSmooth :
      (r : Run) (db : Db)
      → IsMigrated ms db
      → IsSmooth r
      → let o = apply_from r (recorded db) ms (with_ledger db) in
        (o.0 ≡ none) × (o.1.schema ≡ all_stmts ms)
  loop-IsSmooth r db h smooth =
      let d =
        apply_from-Advances r (recorded db) 0 (recorded db) ms (with_ledger db) c refl
          (omega arith) in
      let (works, last) = d.finishes smooth.stepped in
      let migrated = loop-IsMigrated r db h in
      (
        works,
        migrated.ran
            ∙ between_all 0 0 (recorded (apply_from r (recorded db) ms (with_ledger db)).1) ms c
                (omega arith) (omega (arith, d.reached, last, h.known)),
      )

  apply_migrations-apply_from :
      (r : Run) (db : Db)
      → IsMigrated ms db
      → IsSmooth r
      → apply_migrations r ms db ≡ apply_from r (recorded db) ms (with_ledger db)
  unfolding apply_migrations
  apply_migrations-apply_from r db h smooth =
      ground (arith, smooth.ensured, smooth.read, c, end_version-length 0 ms c, h.known)

  after_runs-IsMigrated :
      (rs : List Run) (db : Db) → IsMigrated ms db → IsMigrated ms (after_runs ms rs db)
  after_runs-IsMigrated [] db h = h
  after_runs-IsMigrated (r ∷ rs) db h =
      after_runs-IsMigrated rs (apply_migrations r ms db).1 (apply_migrations-IsMigrated r db h)

  -- On a contiguous sequence of migrations, from a new database: however many runs are cut short, at
  -- whatever read, statement, record or commit, one in which nothing fails then returns no error,
  -- and every statement of the sequence has run once, in order.
  pub interrupted_migrations_resume :
      (rs : List Run) (r : Run)
      → IsSmooth r
      → let o = apply_migrations r ms (after_runs ms rs (record { schema = []; ledger = none })) in
        (o.0 ≡ none) × (o.1.schema ≡ all_stmts ms)
  interrupted_migrations_resume rs r smooth =
      let empty : Db = record { schema = []; ledger = none } in
      let fresh : IsMigrated ms empty = record {
        known = omega arith;
        ran = sym (between_none 0 0 0 ms c (omega arith));
      } in
      let h = after_runs-IsMigrated rs empty fresh in
      subst (λ o. (o.0 ≡ none) × (o.1.schema ≡ all_stmts ms))
        (sym (apply_migrations-apply_from r (after_runs ms rs empty) h smooth))
        (loop-IsSmooth r (after_runs ms rs empty) h smooth)
