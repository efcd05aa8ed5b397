-- ===== src/Message/Log.antt =====
-- The display log (internal/message/log.go).

use walkie.Prelude.{
  ℕ, ◌-◌, String, Bool, true, false, Option, none, some, List, [], ◌∷◌, ◌++◌, ltb, ◌==◌,
  if◌then◌else◌, length, drop, lookup, insert,
}
use walkie.Message.Text.{Message, conversation_key_for}
use walkie.Message.Dedup.{Dedup, first, new_dedup}

pub record Log : Type 0 where
  pub local : String
  pub scrollback : ℕ
  pub convs : List (String × List Message)
  pub dedup : Dedup

abbrev pub default_scrollback : ℕ
default_scrollback = 500

abbrev pub default_dedup_window : ℕ
default_dedup_window = 4096

abbrev pub or_default : ℕ → ℕ → ℕ
or_default default n = if n == 0 then default else n

abbrev pub with_dedup : String → ℕ → Option Dedup → Option Log
with_dedup local scrollback none = none
with_dedup local scrollback (some dedup) =
    some (record { local = local; scrollback = scrollback; convs = []; dedup = dedup })

-- NewLog; a size that is not positive is 0 here.
unfoldable pub new_log : String → ℕ → ℕ → Option Log
unfolding new_dedup
new_log local scrollback window_size =
    with_dedup local (or_default default_scrollback scrollback)
      (new_dedup (or_default default_dedup_window window_size))

-- Reading a missing key of a Go map gives the empty slice.
abbrev pub messages : Option (List Message) → List Message
messages none = []
messages (some msgs) = msgs

abbrev pub trimmed : ℕ → List Message → List Message
trimmed scrollback msgs =
    if ltb 0 (length msgs - scrollback) then drop (length msgs - scrollback) msgs else msgs

-- The part of Append behind the duplicate filter.
abbrev pub shown : Log → Message → Option (Bool × Dedup) → Option (Bool × Log)
unfolding lookup insert conversation_key_for
shown l msg none = none
shown l msg (some (false, dedup)) = some (false, record l { dedup = dedup })
shown l msg (some (true, dedup)) =
    let key = conversation_key_for l.local msg in
    some (
      true,
      record l {
        convs =
            insert key (trimmed l.scrollback (messages (lookup key l.convs) ++ msg ∷ [])) l.convs;
        dedup = dedup;
      },
    )

-- Append; `none` is a panic in First.
unfoldable pub append : Log → Message → Option (Bool × Log)
unfolding first shown
append l msg = shown l msg (first l.dedup msg.id)

unfoldable pub conversation : Log → String → List Message
unfolding lookup
conversation l key = messages (lookup key l.convs)
