-- ===== src/Tui/Tests.antt =====
-- Runs of the terminal interface.
use walkie.Prelude.{
  ◌<◌, ◌≡◌, refl, String, true, none, some, List, [], ◌∷◌, if◌then◌else◌, arith, erase,
}
use walkie.Message.Text.{Message, broadcast_conversation, conversation_key}
use walkie.Client.View.{Device}
use walkie.Control.State.{online, connecting}
use walkie.Tui.Model.{
  Model, Sources, new_model, refresh_conversations, current_key, empty_model, sort_keys, place,
  index_from, select_conversation, on_presence,
}
use walkie.Tui.Keys.{Widgets, Msg, presence_changed, pressed, update, handle_key, find_binding}
use walkie.Tui.Ready.{is_listed, refresh_conversations-current_key}
use walkie.Tui.Updates.{update_all}
use walkie.Tui.View.{view, short_name, shown_sender}
use walkie.Tui.Lines.{breaks, height}
use walkie.Tui.Layout.{view_fits}

abbrev device_of_name : String → Device
device_of_name name = record {
  device = name;
  entry = record { online = true; last_seen = 0; status = [] };
}

abbrev full_house : Sources
full_house = record {
  hub = some ("dm:zoe" ∷ []);
  roster = device_of_name "ann" ∷ device_of_name "bob" ∷ [];
  connected_as = some "bob";
}

abbrev widgets : Widgets
widgets = record { typed = λ value key. key; trim_space = λ s. s; send = some (λ key body. none) }

abbrev hello_zoe : List (Sources × Msg)
hello_zoe =
    (full_house, pressed "tab")
    ∷ (full_house, pressed "tab")
    ∷ (full_house, pressed "h")
    ∷ (full_house, presence_changed)
    ∷ (full_house, pressed "enter")
    ∷ []

abbrev on_zoe : Model
on_zoe = record (empty_model online) {
  conversations = broadcast_conversation ∷ "dm:zoe" ∷ [];
  current = 1;
  connected_as = "bob";
}

refresh_conversations-current_key_example :
    current_key (refresh_conversations full_house on_zoe)
    ≡ (if is_listed full_house "bob" "dm:zoe" then "dm:zoe" else broadcast_conversation)
unfolding conversation_key
refresh_conversations-current_key_example = refresh_conversations-current_key full_house on_zoe

-- A roster line with a label, a message and an error.
abbrev busy : Model
busy = record on_zoe {
  devices =
      record { device = "ann"; entry = record { online = true; last_seen = 0; status = 104 ∷ [] } }
      ∷ [];
  send_err = some "offline";
}

abbrev from_zoe : Message
from_zoe = record {
  id = "m1";
  sender = "zoe";
  recipient = "bob";
  body = 104 ∷ 10 ∷ 105 ∷ [];
  sent_at = some 5;
  received_at = none;
}

view_fits_example : height (view (some (from_zoe ∷ [])) busy) < 24
unfolding breaks shown_sender short_name
view_fits_example = view_fits (some (from_zoe ∷ [])) busy (omega arith) (omega arith) refl (record {
  you = refl;
  devices = ((refl, refl), tt);
  title = refl;
  senders = (refl, tt);
  error = refl;
})

-- Two tabs from the broadcast conversation lead to the third, and the message goes there.
sent_to_zoe :
    update_all widgets hello_zoe (new_model connecting full_house)
    ≡ some (record (new_model connecting full_house) { current = 2; sends = ("dm:zoe", "h") ∷ [] })
unfolding update_all update handle_key find_binding select_conversation new_model
    refresh_conversations sort_keys place index_from on_presence conversation_key erase
sent_to_zoe = refl
