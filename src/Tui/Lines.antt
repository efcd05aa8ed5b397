-- ===== src/Tui/Lines.antt =====
-- The lines of text of a frame (internal/tui/view.go and keymap.go).
use Prim.Native.Char.{code}
use walkie.Prelude.{
  ℕ, ◌+◌, ◌≡◌, String, Option, none, some, List, [], ◌∷◌, ◌==◌, if◌then◌else◌, length, All,
}
use walkie.Wire.{Bytes}
use walkie.Message.Text.{Message}
use walkie.Tui.Model.{Model, current_key}
use walkie.Tui.Keys.{keymap}
use walkie.Tui.View.{
  Row, status_row, help_text, device_row, pane_header, message_row, error_row, own_name, short_name,
  shown_sender,
}

-- The line feeds of some bytes.
abbrev pub feeds : Bytes → ℕ
feeds [] = 0
feeds (b ∷ bytes) = (if b == 10 then 1 else 0) + feeds bytes

abbrev codes : String → List ℕ
codes String.[] = []
codes (String.◌∷◌ c s) = code c ∷ codes s

unfoldable pub breaks : String → ℕ
breaks s = feeds (codes s)

-- The lines of a row. The body of a message is flattened, the input is a single-line widget, and the
-- help is its title, a line for each key, and the rule on free input and the voice notes with a blank
-- line before the one and behind the other.
unfoldable pub lines_of : Row → ℕ
unfolding breaks
lines_of (status_row name state reconnecting) = 1 + breaks name
lines_of help_text = length keymap + 5
lines_of (device_row name is_you unread entry) = 1 + breaks name + feeds entry.status
lines_of (pane_header conversation) = 1 + breaks conversation
lines_of (message_row who sent received body) = 1 + breaks who
lines_of (error_row text) = 1 + breaks text
lines_of _ = 1

-- The lines of a frame; View ends every row but the last with a line feed.
unfoldable pub height : List Row → ℕ
unfolding lines_of
height [] = 0
height (row ∷ rows) = lines_of row + height rows

abbrev SendersPlain : String → Option (List Message) → Type 0
SendersPlain local none = Unit
SendersPlain local (some msgs) = All (λ msg. breaks (shown_sender local msg) ≡ 0) msgs

abbrev pub ErrorPlain : Option String → Type 0
ErrorPlain none = Unit
ErrorPlain (some text) = breaks text ≡ 0

-- No text that a frame prints as it stands breaks a line: the own name, the names of the devices and
-- their status labels, the title of the conversation, the names of the senders, and the error.
pub record IsPlain (msgs : Option (List Message)) (m : Model) : Type 0 where
  pub you : breaks (own_name m) ≡ 0
  pub devices : All (λ d. (breaks (short_name d.device) ≡ 0) × (feeds d.entry.status ≡ 0)) m.devices
  pub title : breaks (current_key m) ≡ 0
  pub senders : SendersPlain m.connected_as msgs
  pub error : ErrorPlain m.send_err
