-- ===== src/Tui/Keys.antt =====
-- The keys of the terminal interface (internal/tui/keymap.go and model.go).
use walkie.Prelude.{
  ℕ, ◌+◌, ◌-◌, ◌%◌, String, Bool, true, false, not, ◌&&◌, Option, none, some, List, [], ◌∷◌, ◌++◌,
  if◌then◌else◌, ◌==◌, ltb, str_eq, length, get_elem?, any,
}
use walkie.Message.Text.{Message}
use walkie.Control.State.{State}
use walkie.Tui.Model.{
  Model, Sources, select_conversation, on_resize, on_conn, on_presence, on_inbound,
}

pub data Action : Type 0 where
  none_of send next_conv prev_conv jump_conv help quit close_help : Action

pub record Binding : Type 0 where
  pub keys : List String
  pub action : Action
  pub needs_free : Bool

abbrev pub bound : String → Action → Binding
bound key action = record { keys = key ∷ []; action = action; needs_free = false }

abbrev pub digits : List String
digits = "1" ∷ "2" ∷ "3" ∷ "4" ∷ "5" ∷ "6" ∷ "7" ∷ "8" ∷ "9" ∷ []

abbrev pub keymap : List Binding
keymap =
    bound "enter" send
    ∷ bound "tab" next_conv
    ∷ bound "shift+tab" prev_conv
    ∷ record { keys = digits; action = jump_conv; needs_free = true }
    ∷ record { keys = "?" ∷ []; action = help; needs_free = true }
    ∷ bound "esc" close_help
    ∷ bound "ctrl+c" quit
    ∷ []

-- lookup
unfoldable pub find_binding : String → List Binding → Option Binding
find_binding key [] = none
find_binding key (b ∷ bs) =
    let rest = find_binding key bs in if any (λ k. str_eq k key) b.keys then some b else rest

-- key[0] - '1', of a digit from 1 to 9
unfoldable pub digit_from : ℕ → String → List String → ℕ
digit_from i key [] = 0
digit_from i key (d ∷ ds) = let rest = digit_from (i + 1) key ds in if str_eq d key then i else rest

-- The text input and strings.TrimSpace, and what Params.Send answers; a nil error is `none`.
pub record Widgets : Type 0 where
  pub typed : (value key : String) → String
  pub trim_space : String → String
  pub send : Option ((conversation body : String) → Option String)

abbrev pub noted_error : Option String → Model → Model
noted_error none m = m
noted_error (some e) m = record m { send_err = some e }

-- send, its index in bounds or not
abbrev pub sent_to :
    Widgets
    → String
    → Option ((String → String → Option String))
    → Option String
    → Model
    → Option Model
sent_to w body none key m = some m
sent_to w body (some f) none m = none
sent_to w body (some f) (some key) m =
    some (noted_error (f key body) (record m { sends = m.sends ++ (key, body) ∷ [] }))

abbrev pub on_send : Widgets → Model → Option Model
on_send w m =
    let body = w.trim_space m.input in
    let m' : Model = record m { input = "" } in
    let sent = sent_to w body w.send (get_elem? m.conversations m.current) m' in
    if str_eq body "" then some m else sent

-- The index arithmetic of Tab; a modulus of zero panics.
abbrev pub cycled : (ℕ → ℕ) → Model → Option Model
cycled to m =
    if length m.conversations == 0
    then none
    else some (select_conversation (to (length m.conversations)) m)

abbrev pub act : Widgets → String → Action → Model → Option Model
act w key send m = on_send w m
act w key next_conv m = cycled (λ n. (m.current + 1) % n) m
act w key prev_conv m = cycled (λ n. (m.current + n - 1) % n) m
act w key jump_conv m = some (
    if ltb (digit_from 0 key digits) (length m.conversations)
    then select_conversation (digit_from 0 key digits) m
    else m)
act w key help m = some (record m { help_open = not m.help_open })
act w key close_help m = some (record m { help_open = false })
act w key quit m = some (record m { quit = true })
act w key none_of m = some m

-- The actions that the open help overlay lets through.
abbrev pub in_help : Action → Bool
in_help help = true
in_help close_help = true
in_help quit = true
in_help _ = false

-- A guarded key types where something has been composed.
abbrev pub fires : Model → Option Binding → Option Binding
fires m none = none
fires m (some b) = if b.needs_free && not (str_eq m.input "") then none else some b

abbrev pub types_in : Widgets → String → Model → Model
types_in w key m =
    if m.help_open then m else record m { input = w.typed m.input key; send_err = none }

abbrev pub on_binding : Widgets → String → Option Binding → Model → Option Model
on_binding w key none m = some (types_in w key m)
on_binding w key (some b) m =
    let done = act w key b.action m in
    if m.help_open && not (in_help b.action) then some m else done

-- handleKey
unfoldable pub handle_key : Widgets → String → Model → Option Model
unfolding find_binding digit_from select_conversation
handle_key w key m = on_binding w key (fires m (find_binding key keymap)) m

pub data Msg : Type 0 where
  resized : (width height : ℕ) → Msg
  conn_changed : (to : State) → Msg
  presence_changed : Msg
  arrived : Message → Msg
  pressed : (key : String) → Msg

-- Update
unfoldable pub update : Widgets → Sources → Msg → Model → Option Model
unfolding on_resize on_conn on_presence on_inbound handle_key
update w src (resized width height) m = some (on_resize width height m)
update w src (conn_changed to) m = some (on_conn to src m)
update w src presence_changed m = some (on_presence src m)
update w src (arrived msg) m = some (on_inbound msg src m)
update w src (pressed key) m = handle_key w key m
