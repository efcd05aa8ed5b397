-- ===== src/Client/Drain.antt =====
-- Draining loses nothing and keeps the order (internal/outbox/outbox.go and cmd/walkie/app.go).
use walkie.Prelude.{
  ◌≡◌, refl, sym, ap, ◌∙◌, subst, String, Bool, true, false, not, some, List, [], ◌∷◌, ◌++◌, arith,
  str_eq, eq_iff, eq_refl, filter, if◌then◌else◌, Bool-cases, if-intro, ◌⊎◌, inl, inr, any-append,
}
use walkie.Wire.{Bytes, Envelope}
use walkie.Queue.Framing.{Codec}
use walkie.Client.Outbox.{
  Row, Outbox, has_id, enqueue, decoded, pending, remove, drain_all, drain_outbox,
}

-- The rows hold these envelopes, in this order, each id once.
abbrev pub Holds : Codec → List Row → List Envelope → Type 0
Holds codec [] [] = Unit
Holds codec (row ∷ rows) (env ∷ envs) =
    (codec.unmarshal row.envelope ≡ some env)
    × (env.message_id ≡ row.message_id)
    × (has_id row.message_id rows ≡ false)
    × Holds codec rows envs
Holds codec _ _ = false ≡ true

pub Holds-decoded :
    (codec : Codec) (rows : List Row) (envs : List Envelope)
    → Holds codec rows envs
    → decoded codec rows ≡ some envs
unfolding decoded
Holds-decoded codec [] [] h = refl
Holds-decoded codec [] (env ∷ envs) h = absurd (ground (arith, h))
Holds-decoded codec (row ∷ rows) [] h = absurd (ground (arith, h))
Holds-decoded codec (row ∷ rows) (env ∷ envs) h = rw (h.0, Holds-decoded codec rows envs h.3) refl

kept_rows :
    (id : String) (rows : List Row)
    → has_id id rows ≡ false
    → filter (λ row. not (str_eq row.message_id id)) rows ≡ rows
kept_rows id [] none_has = refl
kept_rows id (row ∷ rows) none_has = ground (arith, none_has, kept_rows id rows)

removed_head :
    (row : Row) (rows : List Row) (id : String)
    → id ≡ row.message_id
    → has_id row.message_id rows ≡ false
    → filter (λ r. not (str_eq r.message_id id)) (row ∷ rows) ≡ rows
removed_head row rows id same once =
    ap (λ x. filter (λ r. not (str_eq r.message_id x)) (row ∷ rows)) same
    ∙ ground (arith, eq_refl row.message_id, kept_rows row.message_id rows once)

Holds-none : (codec : Codec) (rows : List Row) → Holds codec rows [] → rows ≡ []
Holds-none codec [] h = refl
Holds-none codec (row ∷ rows) h = absurd (ground (arith, h))

-- Why a drain that ends with these still held has not sent the first of them.
abbrev pub Stops : Bool → (Envelope → Bool) → List Envelope → Type 0
Stops reads goes [] = Unit
Stops reads goes (env ∷ more) = (reads ≡ false) ⊎ (goes env ≡ false)

-- What a drain has done: `done` is sent and gone, and `left` still held. Either nothing else is sent,
-- and nothing is left or the read or the send of the first of `left` failed; or the first of `left` is
-- sent as well, and its removal failed.
pub record Drained (codec : Codec) (reads : Bool) (goes removes : Envelope → Bool)
    (envs : List Envelope) (r : List Envelope × Outbox) : Type 0 where
  pub done : List Envelope
  pub left : List Envelope
  pub whole : envs ≡ done ++ left
  pub holds : Holds codec r.1.rows left
  pub sent :
      ((r.0 ≡ done) × Stops reads goes left)
      ⊎ ((env : Envelope) × (more : List Envelope) × (left ≡ env ∷ more)
          × (r.0 ≡ done ++ env ∷ [])
          × (goes env ≡ true)
          × (removes env ≡ false))

apart : (a b : String) → str_eq a b ≡ false → str_eq b a ≡ false
apart a b e = ground (arith, e, eq_iff a b, eq_iff b a)

module _ (codec : Codec) where
  Holds-append :
      (rows : List Row) (envs : List Envelope) (row : Row) (env : Envelope)
      → Holds codec rows envs
      → codec.unmarshal row.envelope ≡ some env
      → env.message_id ≡ row.message_id
      → has_id row.message_id rows ≡ false
      → Holds codec (rows ++ row ∷ []) (envs ++ env ∷ [])
  Holds-append [] [] row env h reads same new = (reads, same, refl, tt)
  Holds-append [] (e ∷ envs) row env h reads same new = absurd (ground (arith, h))
  Holds-append (r ∷ rows) [] row env h reads same new = absurd (ground (arith, h))
  Holds-append (r ∷ rows) (e ∷ envs) row env h reads same new = (
    h.0,
    h.1,
    ground (
      arith,
      h.2,
      new,
      apart r.message_id row.message_id,
      any-append (λ x. str_eq x.message_id r.message_id) rows (row ∷ []),
    ),
    Holds-append rows envs row env h.3 reads same (ground (arith, new)),
  )

  Holds-remove :
      (rows : List Row) (env : Envelope) (envs : List Envelope)
      → Holds codec rows (env ∷ envs)
      → Holds codec (filter (λ r. not (str_eq r.message_id env.message_id)) rows) envs
  Holds-remove [] env envs h = absurd (ground (arith, h))
  Holds-remove (row ∷ rows) env envs h =
      subst (λ x. Holds codec x envs) (sym (removed_head row rows env.message_id h.1 h.2)) h.3

module _ (codec : Codec) (goes removes : Envelope → Bool) where
  unread : (envs : List Envelope) → Stops false goes envs
  unread [] = tt
  unread (env ∷ envs) = inl refl

  drain_all-Drained :
      (envs : List Envelope) (o : Outbox)
      → Holds codec o.rows envs
      → Drained codec true goes removes envs (drain_all goes removes envs o)
  unfolding drain_all remove
  drain_all-Drained [] o h = record {
    done = [];
    left = [];
    whole = refl;
    holds = h;
    sent = inl (refl, tt);
  }
  drain_all-Drained (env ∷ envs) o h =
      let rest = drain_all goes removes envs (remove env.message_id o) in
      let d =
        drain_all-Drained envs (remove env.message_id o) (Holds-remove codec o.rows env envs h) in
      let P = Drained codec true goes removes (env ∷ envs) in
      if-intro P (not (goes env)) ([], o)
        (if not (removes env) then (env ∷ [], o) else (env ∷ rest.0, rest.1))
        (λ stuck. record {
          done = [];
          left = env ∷ envs;
          whole = refl;
          holds = h;
          sent = inl (refl, inr (ground (arith, stuck)));
        })
        (λ went.
          if-intro P (not (removes env)) (env ∷ [], o) (env ∷ rest.0, rest.1)
            (λ stays. record {
              done = [];
              left = env ∷ envs;
              whole = refl;
              holds = h;
              sent = inr (env, envs, refl, refl, ground (arith, went), ground (arith, stays));
            })
            (λ gone. record {
              done = env ∷ d.done;
              left = d.left;
              whole = ap (λ x. env ∷ x) d.whole;
              holds = d.holds;
              sent = elim d.sent [
                | inl (all, stops) ↦ inl (ap (λ x. env ∷ x) all, stops)
                | inr (e, more, first, twice, out, stays) ↦
                    inr (e, more, first, ap (λ x. env ∷ x) twice, out, stays)
              ];
            }))

  -- A drain of an outbox that holds some envelopes, each id once and each as its row decodes, with any
  -- of the read, the sends and the removals failing: the outbox still holds, in order, a last part of
  -- them; the part before it has been sent, in order and each once. Either nothing else has been sent,
  -- and what is left is empty, or the read failed, or the send of the first that is left failed; or the
  -- first that is left has been sent as well, its send having succeeded and its removal failed.
  pub drain_outbox-Drained :
      (reads : Bool) (envs : List Envelope) (o : Outbox)
      → Holds codec o.rows envs
      → Drained codec reads goes removes envs (drain_outbox codec reads goes removes o)
  unfolding drain_outbox pending
  drain_outbox-Drained false envs o h = record {
    done = [];
    left = envs;
    whole = refl;
    holds = h;
    sent = inl (refl, unread envs);
  }
  drain_outbox-Drained true envs o h =
      rw (Holds-decoded codec o.rows envs h) (drain_all-Drained envs o h)

-- An envelope that Enqueue takes, and whose bytes the codec reads back, is held after all that was.
pub enqueue-Holds :
    (codec : Codec) (env : Envelope) (b : Bytes) (envs : List Envelope) (o : Outbox)
    → Holds codec o.rows envs
    → codec.marshal env ≡ some b
    → codec.unmarshal b ≡ some env
    → (enqueue codec true env o).0 ≡ true
    → Holds codec (enqueue codec true env o).1.rows (envs ++ env ∷ [])
unfolding enqueue
enqueue-Holds codec env b envs o h marshals unmarshals taken =
    elim (Bool-cases (str_eq env.message_id "")) [
      | inl nameless ↦ absurd (ground (arith, nameless, taken))
      | inr named ↦ elim (Bool-cases (has_id env.message_id o.rows)) [
        | inl known ↦ absurd (ground (arith, named, marshals, known, taken))
        | inr new ↦
            let row : Row = record {
              seq = o.next_seq;
              message_id = env.message_id;
              envelope = b;
            } in
            rw (named, marshals, new) (Holds-append codec o.rows envs row env h unmarshals refl new)
      ]
    ]

drain_all_empties :
    (codec : Codec) (envs : List Envelope) (o : Outbox)
    → Holds codec o.rows envs
    → let r = drain_all (λ env. true) (λ env. true) envs o in (r.0 ≡ envs) × (r.1.rows ≡ [])
unfolding drain_all remove
drain_all_empties codec [] o h = (refl, Holds-none codec o.rows h)
drain_all_empties codec (env ∷ envs) o h =
    let rest =
      drain_all_empties codec envs (remove env.message_id o)
        (Holds-remove codec o.rows env envs h) in
    (ap (λ x. env ∷ x) rest.0, rest.1)

-- With every send and statement succeeding, a drain sends all that is held and leaves none.
pub drain_outbox_empties :
    (codec : Codec) (goes : Envelope → Bool) (envs : List Envelope) (o : Outbox)
    → Holds codec o.rows envs
    → goes ≡ (λ env. true)
    → let r = drain_outbox codec true goes (λ env. true) o in (r.0 ≡ envs) × (r.1.rows ≡ [])
unfolding drain_outbox pending
drain_outbox_empties codec goes envs o h up =
    subst (λ g. let r = drain_outbox codec true g (λ env. true) o in (r.0 ≡ envs) × (r.1.rows ≡ []))
      (sym up) (rw (Holds-decoded codec o.rows envs h) (drain_all_empties codec envs o h))
