-- ===== src/Store/Resuming.antt =====
-- Interrupted migrations resume (internal/store/migrate.go).
use walkie.Prelude.{
  ℕ, ◌+◌, ◌≤◌, ◌≡◌, refl, sym, ap, ◌∙◌, subst, String, true, ◌&&◌, Option, none, List, [], ◌∷◌,
  ◌++◌, append_assoc, append-nil, max, leb, ltb, if◌then◌else◌, length, arith, Bool-cases,
  Option-cases, if-intro, inl, inr,
}
use walkie.Store.Migrate.{
  Migration, Applied, Db, MigrateError, Run, rows, max_version, recorded, committed, apply_one,
  or_stop, apply_from, is_contiguous,
}

-- The statements of the steps above version `lo`, up to `hi`, in order.
abbrev pub between : ℕ → ℕ → List Migration → List String
between lo hi [] = []
between lo hi (m ∷ ms) =
    let rest = between lo hi ms in
    if ltb lo m.version && leb m.version hi then m.stmts ++ rest else rest

max_version-append :
    (l : List Applied) (a : Applied) → max_version (l ++ a ∷ []) ≡ max (max_version l) a.version
max_version-append [] a = omega arith
max_version-append (x ∷ l) a = omega (arith, max_version-append l a)

-- The steps from position `i` on lie above `i`.
pub between_none :
    (i lo hi : ℕ) (ms : List Migration) → is_contiguous i ms ≡ true → hi ≤ i → between lo hi ms ≡ []
unfolding is_contiguous
between_none i lo hi [] c le = refl
between_none i lo hi (m ∷ ms) c le =
    ground (arith, c, le, between_none (i + 1) lo hi ms (ground (arith, c)) (omega (arith, le)))

pub between-append :
    (i lo mid hi : ℕ) (ms : List Migration)
    → is_contiguous i ms ≡ true
    → lo ≤ mid
    → mid ≤ hi
    → between lo mid ms ++ between mid hi ms ≡ between lo hi ms
unfolding is_contiguous
between-append i lo mid hi [] c le le' = refl
between-append i lo mid hi (m ∷ ms) c le le' =
    let c' : is_contiguous (i + 1) ms ≡ true = ground (arith, c) in
    let rest = between-append (i + 1) lo mid hi ms c' le le' in
    let assoc = append_assoc m.stmts (between lo mid ms) (between mid hi ms) in
    elim (Bool-cases (leb m.version mid)) [
      | inl early ↦ ground (arith, c, le, le', early, rest, assoc)
      | inr late ↦
          let empty = between_none (i + 1) lo mid ms c' (ground (arith, c, late)) in
          let same : between mid hi ms ≡ between lo hi ms =
            ap (λ x. x ++ between mid hi ms) (sym empty) ∙ rest in
          ground (arith, c, le, le', late, same, empty)
    ]

-- No step of `ms`, from position `i` on, lies at `i + 1` or below but the first.
between_next :
    (i hi : ℕ) (ms : List Migration)
    → is_contiguous (i + 1) ms ≡ true
    → i + 1 ≤ hi
    → between (i + 1) hi ms ≡ between i hi ms
between_next i hi ms c le =
    ap (λ x. x ++ between (i + 1) hi ms) (sym (between_none (i + 1) i (i + 1) ms c (omega arith)))
    ∙ between-append (i + 1) i (i + 1) hi ms c (omega arith) le

-- A run of the loop over the steps from position `i` on, from version `lo`: it gets to a version, and has
-- run the statements of the steps on the way; and where no step fails, that is the last version.
pub record Advances (r : Run) (start i lo : ℕ) (ms : List Migration) (db : Db)
    (res : Option MigrateError × Db) : Type 0 where
  pub hi : ℕ
  pub reached : recorded res.1 ≡ hi
  pub onward : lo ≤ hi
  pub inside : hi ≤ max start (i + length ms)
  pub ran : res.1.schema ≡ db.schema ++ between lo hi ms
  pub finishes : ((v : ℕ) → r.step v ≡ none) → (res.0 ≡ none) × (hi ≡ max start (i + length ms))

module _ (r : Run) (start : ℕ) where
  pub apply_from-Advances :
      (i lo : ℕ) (ms : List Migration) (db : Db)
      → is_contiguous i ms ≡ true
      → recorded db ≡ lo
      → lo ≡ max start i
      → Advances r start i lo ms db (apply_from r start ms db)
  unfolding apply_from is_contiguous
  apply_from-Advances i lo [] db c at top = record {
    hi = lo;
    reached = at;
    onward = omega arith;
    inside = omega (arith, top);
    ran = sym (append-nil db.schema);
    finishes = λ all. (refl, omega (arith, top));
  }
  apply_from-Advances i lo (m ∷ ms) db c at top =
      let c' : is_contiguous (i + 1) ms ≡ true = ground (arith, c) in
      let v : m.version ≡ i + 1 = ground (arith, c) in
      let skipped = apply_from r start ms db in
      let applied = or_stop (apply_from r start ms) (apply_one r.now (r.step m.version) m db) in
      if-intro (Advances r start i lo (m ∷ ms) db) (leb m.version start) skipped applied
        (λ old.
          let d = apply_from-Advances (i + 1) lo ms db c' at (ground (arith, old, v, top)) in
          record {
            hi = d.hi;
            reached = d.reached;
            onward = d.onward;
            inside = omega (arith, d.inside);
            ran = d.ran ∙ ground (arith, old, v, top);
            finishes = λ all. ((d.finishes all).0, omega (arith, (d.finishes all).1));
          })
        (λ new.
          let here : lo ≡ i = ground (arith, new, v, top) in
          elim (Option-cases (r.step m.version)) [
            | inl works ↦
                let db' = committed r.now m db in
                let a : Applied = record {
                  version = m.version;
                  name = m.name;
                  applied_at = r.now;
                } in
                let d =
                  apply_from-Advances (i + 1) (i + 1) ms db' c'
                    (omega (arith, max_version-append (rows db.ledger) a, v, at, here))
                    (ground (arith, new, v)) in
                subst
                  (λ o.
                    Advances r start i lo (m ∷ ms) db
                      (or_stop (apply_from r start ms) (apply_one r.now o m db)))
                  (sym works)
                  (record {
                    hi = d.hi;
                    reached = d.reached;
                    onward = omega (arith, d.onward, here);
                    inside = omega (arith, d.inside);
                    ran =
                        d.ran
                        ∙ append_assoc db.schema m.stmts (between (i + 1) d.hi ms)
                        ∙ ap (λ x. db.schema ++ (m.stmts ++ x)) (between_next i d.hi ms c' d.onward)
                        ∙ ground (arith, here, v, d.onward);
                    finishes = λ all. ((d.finishes all).0, omega (arith, (d.finishes all).1));
                  })
            | inr (e, fails) ↦
                subst
                  (λ o.
                    Advances r start i lo (m ∷ ms) db
                      (or_stop (apply_from r start ms) (apply_one r.now o m db)))
                  (sym fails)
                  (record {
                    hi = lo;
                    reached = at;
                    onward = omega arith;
                    inside = omega (arith, top);
                    ran =
                        sym (append-nil db.schema)
                        ∙ ap (λ x. db.schema ++ x)
                            (sym (between_none i lo lo (m ∷ ms) c (omega (arith, here))));
                    finishes = λ all. absurd (ground (arith, all m.version, fails));
                  })
          ])
