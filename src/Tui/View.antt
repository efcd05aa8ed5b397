-- ===== src/Tui/View.antt =====
-- A frame of the terminal interface (internal/tui/view.go), as rows: what each prints, not yet as text
-- nor cut to the width. A row takes several lines where a text it prints as it stands breaks lines:
-- only the bodies of messages are flattened to one line.
use Prim.Native.String.{slice, find}
use walkie.Prelude.{
  ℕ, ◌-◌, ◌/◌, String, Bool, not, Option, none, some, List, [], ◌∷◌, ◌++◌, if◌then◌else◌, ltb,
  str_eq, lookup, length, map, take, drop,
}
use walkie.Wire.{Bytes}
use walkie.Message.Text.{Message, conversation_key}
use walkie.Client.View.{Entry}
use walkie.Control.State.{State}
use walkie.Tui.Model.{Model, current_key, count_of, is_online}

pub data Row : Type 0 where
  status_row : (name : String) (state : State) (reconnecting : Bool) → Row
  devices_header no_messages help_text hint_row needs_columns widen : Row
  device_row : (name : String) (is_you : Bool) (unread : ℕ) (entry : Entry) → Row
  more_devices : (hidden : ℕ) → Row
  rule : (width : ℕ) → Row
  pane_header : (conversation : String) → Row
  message_row : (who : String) (sent received : Option ℕ) (body : Bytes) → Row
  error_row input_row : (text : String) → Row
  has_columns : (width : ℕ) → Row

abbrev pub min_columns : ℕ
min_columns = 80

unfoldable pub clamp : ℕ → ℕ → ℕ → ℕ
clamp v lo hi = if ltb v lo then lo else if ltb hi v then hi else v

-- shortName
unfoldable pub short_name : String → String
short_name device = slice device 0 (find device ".")

abbrev pub own_name : Model → String
own_name m = short_name (if str_eq m.connected_as "" then "(identity pending)" else m.connected_as)

-- statusLine
unfoldable pub status_line : Model → Row
unfolding short_name
status_line m = status_row (own_name m) m.conn_state (not (is_online m.conn_state))

-- deviceLines
unfoldable pub device_lines : Model → List Row
unfolding lookup short_name
device_lines m =
    map
      (λ d.
        device_row (short_name d.device) (str_eq d.device m.connected_as)
          (count_of (lookup (conversation_key d.device) m.unread)) d.entry)
      m.devices

abbrev pub last_of : ℕ → List Message → List Message
last_of n msgs = if ltb n (length msgs) then drop (length msgs - n) msgs else msgs

-- The name a message is shown under.
unfoldable pub shown_sender : String → Message → String
unfolding short_name
shown_sender local msg = if str_eq msg.sender local then "you" else short_name msg.sender

abbrev pub message_line : String → Message → Row
message_line local msg = message_row (shown_sender local msg) msg.sent_at msg.received_at msg.body

abbrev pub or_no_messages : List Row → List Row
or_no_messages [] = no_messages ∷ []
or_no_messages rows = rows

-- messageLines, with what the hub has of the conversation; there is no hub before the identity.
unfoldable pub message_lines : ℕ → Option (List Message) → Model → List Row
message_lines n none m = no_messages ∷ []
message_lines n (some msgs) m =
    if ltb 0 n
    then or_no_messages (map (message_line m.connected_as) (last_of n msgs))
    else no_messages ∷ []

-- The part of the height that does not depend on the lists.
abbrev pub fixed_rows : Option String → ℕ
fixed_rows none = 4
fixed_rows (some e) = 5

abbrev pub error_rows : Option String → List Row
error_rows none = []
error_rows (some e) = error_row e ∷ []

abbrev pub max_devices : ℕ → ℕ
max_devices room = if ltb (room / 3) 1 then 1 else room / 3

abbrev pub shown_devices : ℕ → List Row → List Row
shown_devices most rows =
    if ltb most (length rows)
    then take most rows ++ more_devices (length rows - most) ∷ []
    else rows

-- narrowTerminalView
abbrev pub narrow_view : Model → List Row
narrow_view m = status_line m ∷ needs_columns ∷ has_columns m.width ∷ widen ∷ []

-- The frame of a wide terminal with the help closed.
unfoldable pub main_view : Option (List Message) → Model → List Row
unfolding status_line device_lines message_lines clamp
main_view msgs m =
    let fixed = fixed_rows m.send_err in
    let shown = shown_devices (max_devices (m.height - fixed)) (device_lines m) in
    (status_line m ∷ devices_header ∷ shown)
    ++ (rule (clamp m.width 1 80) ∷ pane_header (current_key m) ∷ [])
    ++ message_lines (m.height - fixed - 3 - length shown) msgs m
    ++ error_rows m.send_err
    ++ (input_row m.input ∷ hint_row ∷ [])

-- View
unfoldable pub view : Option (List Message) → Model → List Row
unfolding main_view
view msgs m =
    if ltb m.width min_columns
    then narrow_view m
    else if m.help_open
    then status_line m ∷ help_text ∷ hint_row ∷ []
    else main_view msgs m
