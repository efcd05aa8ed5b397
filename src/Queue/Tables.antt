-- ===== src/Queue/Tables.antt =====
-- queue_inbox and queue_cursor (internal/store/migrate.go, migration 2), and each SQL statement that
-- internal/coordinator/queue/queue.go runs on them, as a function on the tables.
use walkie.Prelude.{
  ℕ, ◌+◌, String, Bool, ◌&&◌, not, ℤ, pos, leb_ℤ, ltb_ℤ, int64, Option, none, some, List, [], ◌∷◌,
  ◌++◌, leb, ◌==◌, if◌then◌else◌, min, str_eq, lookup, insert, adjust, filter, any, length,
}
use walkie.Wire.{Bytes}

-- The TEXT column enqueued_at sorts like the time that it renders, so it stands as the time.
pub record Row : Type 0 where
  pub recipient : String
  pub position : ℕ
  pub message_id : String
  pub body : Bytes
  pub enqueued_at : ℕ

pub record Cursor : Type 0 where
  pub next_position : ℕ
  pub acked_position : ℤ

pub record Tables : Type 0 where
  pub inbox : List Row
  pub cursors : List (String × Cursor)

-- WHERE recipient = r
abbrev pub is_for : String → Row → Bool
is_for r row = str_eq row.recipient r

abbrev pub rows_of : String → List Row → List Row
rows_of r = filter (is_for r)

abbrev pub first_contact : List (String × Cursor) → String → Option Cursor → List (String × Cursor)
first_contact cursors r none =
    insert r (record { next_position = 1; acked_position = pos 0 }) cursors
first_contact cursors r (some c) = cursors

-- INSERT OR IGNORE INTO queue_cursor VALUES (r, 1, 0)
unfoldable pub ensure_cursor : String → Tables → Tables
ensure_cursor r db = record db { cursors = first_contact db.cursors r (lookup r db.cursors) }

-- SELECT COUNT(*) FROM queue_inbox WHERE recipient = r
unfoldable pub count_retained : String → Tables → ℕ
count_retained r db = length (rows_of r db.inbox)

abbrev pub cursor_next : Option Cursor → Option ℕ
cursor_next none = none
cursor_next (some c) = some c.next_position

-- SELECT next_position FROM queue_cursor WHERE recipient = r; `none` is sql.ErrNoRows
unfoldable pub read_next : String → Tables → Option ℕ
read_next r db = cursor_next (lookup r db.cursors)

-- UPDATE queue_cursor SET next_position = next_position + 1 WHERE recipient = r
unfoldable pub advance_next : String → Tables → Tables
advance_next r db = record db {
  cursors = adjust r (λ c. record c { next_position = c.next_position + 1 }) db.cursors;
}

abbrev pub same_key : Row → Row → Bool
same_key a b = str_eq b.recipient a.recipient && (b.position == a.position)

-- INSERT INTO queue_inbox; `none` is a violation of PRIMARY KEY (recipient, position)
unfoldable pub insert_row : Row → Tables → Option Tables
insert_row row db =
    if any (same_key row) db.inbox then none else some (record db { inbox = db.inbox ++ row ∷ [] })

-- position > int64(after)
abbrev pub is_after : ℕ → Row → Bool
is_after after row = ltb_ℤ (int64 after) (pos row.position)

abbrev pub insert_by_position : Row → List Row → List Row
insert_by_position x [] = x ∷ []
insert_by_position x (y ∷ ys) =
    let rest = insert_by_position x ys in if leb x.position y.position then x ∷ y ∷ ys else y ∷ rest

-- ORDER BY position
unfoldable pub order_by_position : List Row → List Row
order_by_position [] = []
order_by_position (x ∷ xs) = insert_by_position x (order_by_position xs)

-- SELECT ... WHERE recipient = r AND position > after ORDER BY position
unfoldable pub select_after : String → ℕ → Tables → List Row
select_after r after db = order_by_position (filter (is_after after) (rows_of r db.inbox))

-- SELECT COUNT(*) ... WHERE recipient = r AND position > after
unfoldable pub count_after : String → ℕ → Tables → ℕ
count_after r after db = length (filter (is_after after) (rows_of r db.inbox))

abbrev pub forward : ℕ → Cursor → Cursor
forward p c = if ltb_ℤ c.acked_position (int64 p) then record c { acked_position = int64 p } else c

-- UPDATE queue_cursor SET acked_position = p WHERE recipient = r AND acked_position < p
unfoldable pub advance_acked : String → ℕ → Tables → Tables
advance_acked r p db = record db { cursors = adjust r (forward p) db.cursors }

abbrev pub is_covered : String → ℕ → Row → Bool
is_covered r p row = is_for r row && leb_ℤ (pos row.position) (int64 p)

-- DELETE FROM queue_inbox WHERE recipient = r AND position <= p
unfoldable pub delete_covered : String → ℕ → Tables → Tables
delete_covered r p db = record db { inbox = filter (λ row. not (is_covered r p row)) db.inbox }

-- enqueued_at <= now - ttl
abbrev pub is_expired : ℕ → ℕ → Row → Bool
is_expired ttl now row = leb (row.enqueued_at + ttl) now

-- SELECT ... WHERE enqueued_at <= cutoff
unfoldable pub select_expired : ℕ → ℕ → Tables → List Row
select_expired ttl now db = filter (is_expired ttl now) db.inbox

-- DELETE FROM queue_inbox WHERE recipient = ? AND position = ?
unfoldable pub delete_row : Row → Tables → Tables
delete_row e db = record db { inbox = filter (λ row. not (same_key e row)) db.inbox }

abbrev pub least : ℕ → Option ℕ → Option ℕ
least t none = some t
least t (some u) = some (min t u)

-- SELECT MIN(enqueued_at) FROM queue_inbox; `none` is NULL
unfoldable pub min_enqueued_at : List Row → Option ℕ
min_enqueued_at [] = none
min_enqueued_at (row ∷ rows) = least row.enqueued_at (min_enqueued_at rows)
