-- ===== src/Queue/Replay.antt =====
-- A message that Enqueue accepted, as Resume gives it back (internal/coordinator/queue).
use walkie.Prelude.{
  ℕ, suc, ◌<◌, ◌≡◌, refl, ◌∙◌, String, false, Option, none, some, List, [], ◌∷◌, arith, eq_iff,
  length, filter, filter-append,
}
use walkie.Wire.{Bytes, Envelope, just, sealed_delivery}
use walkie.Queue.Tables.{Row, rows_of, is_after}
use walkie.Queue.Framing.{Codec, Seal, keystore_sealer, delivery_from_storage, seal_for_storage}
use walkie.Queue.Ops.{ok, Queue, deliveries, deliverable, resume, enqueue, enqueue_body}
use walkie.Queue.Rows.{Between, Between-le, next_of}
use walkie.Queue.Sound.{IsSound, new_row, admitted, admitted-IsSound, rows_of-admitted}
use walkie.Queue.Enqueue.{no_faults, resting_bytes, enqueue-enqueue_body, enqueue_body-accepts}
use walkie.Queue.Resume.{resume-select, int64_limit}

none_after :
    (lo : ℕ) (rows : List Row) (p : ℕ)
    → Between lo rows (suc p)
    → p < int64_limit
    → filter (is_after p) rows ≡ []
none_after lo [] p b small = refl
none_after lo (row ∷ rows) p b small = ground (
  arith,
  none_after (suc row.position) rows p b.1,
  Between-le (suc row.position) rows (suc p) b.1,
)

module _ (codec : Codec) (at_rest : Option Seal) (now : ℕ) (q : Queue) (r : String) (env : Envelope)
    (body : Bytes) (sound : IsSound q.max_size q.db) (is_open : q.is_closed ≡ false)
    (room : length (rows_of r q.db.inbox) < q.max_size)
    (rests : resting_bytes codec at_rest r env ≡ some body) (p : ℕ)
    (numbered : next_of r q.db ≡ suc p) (small : p < int64_limit) where
  after-admitted :
      filter (is_after p) (rows_of r (admitted r env.message_id body now q.db).inbox)
      ≡ new_row r env.message_id body now q.db ∷ []
  after-admitted = ground (
    arith,
    rows_of-admitted r env.message_id body now q.db r,
    eq_iff r r,
    filter-append (is_after p) (rows_of r q.db.inbox) (new_row r env.message_id body now q.db ∷ []),
    none_after 1 (rows_of r q.db.inbox) p (rw (← numbered) (sound.spaced r)) small,
  )

  -- resume right below the new position gives the new message alone
  enqueue-resume_body :
      resume codec no_faults (enqueue codec at_rest no_faults now q r env).1 r p
      ≡ ok (deliverable (suc p) (delivery_from_storage codec (suc p) body) [])
  unfolding deliveries
  enqueue-resume_body =
      let (accepted, tables) =
        enqueue_body-accepts codec at_rest now q r env body sound is_open rests room in
      rw (enqueue-enqueue_body codec at_rest no_faults now q r env body rests) (
        resume-select codec no_faults q.max_size
          (enqueue_body no_faults now q r env.message_id body).1 r p
          (rw tables (admitted-IsSound q.max_size r env.message_id body now q.db sound room)) refl
        ∙ rw (tables, after-admitted, numbered) refl)

-- A message held unsealed comes back from a resume right below its position as the envelope that was
-- marshalled, with that position stamped, and nothing beside it.
pub enqueue-resume_plain :
    (codec : Codec) (now : ℕ) (q : Queue) (r : String) (env : Envelope) (b : Bytes) (p : ℕ)
    → IsSound q.max_size q.db
    → q.is_closed ≡ false
    → length (rows_of r q.db.inbox) < q.max_size
    → codec.marshal env ≡ some b
    → codec.unmarshal b ≡ some env
    → next_of r q.db ≡ suc p
    → p < int64_limit
    → resume codec no_faults (enqueue codec none no_faults now q r env).1 r p
      ≡ ok (record { position = suc p; envelope = record env { position = suc p } } ∷ [])
unfolding resting_bytes seal_for_storage delivery_from_storage
enqueue-resume_plain codec now q r env b p sound is_open room marshals unmarshals numbered small =
    enqueue-resume_body codec none now q r env (0 ∷ b) sound is_open room (rw marshals) p numbered
      small
    ∙ rw unmarshals

-- A message whose recipient has a pinned key comes back as the sealed box itself, under its
-- position: no envelope field of the original crosses outside the box.
pub enqueue-resume_sealed :
    (codec : Codec) (seal_box : Bytes → Bytes → Option Bytes) (pins : String → Option Bytes)
    (now : ℕ) (q : Queue) (r : String) (env : Envelope) (b key box : Bytes) (p : ℕ)
    → IsSound q.max_size q.db
    → q.is_closed ≡ false
    → length (rows_of r q.db.inbox) < q.max_size
    → codec.marshal env ≡ some b
    → pins r ≡ some key
    → seal_box key b ≡ some box
    → next_of r q.db ≡ suc p
    → p < int64_limit
    → resume codec no_faults
        (enqueue codec (some (keystore_sealer pins seal_box)) no_faults now q r env).1
        r
        p
      ≡ ok (
          record {
            position = suc p;
            envelope = record (just (sealed_delivery box)) { position = suc p };
          }
          ∷ [])
unfolding resting_bytes seal_for_storage delivery_from_storage keystore_sealer
enqueue-resume_sealed codec seal_box pins now q r env b key box p sound is_open room marshals pinned
      boxed numbered small =
    enqueue-resume_body codec (some (keystore_sealer pins seal_box)) now q r env (1 ∷ box) sound
      is_open room (rw (marshals, pinned, boxed)) p numbered small
