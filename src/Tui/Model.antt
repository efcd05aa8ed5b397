-- ===== src/Tui/Model.antt =====
-- The state of the terminal interface (internal/tui/model.go). A `none` is a panic.
use walkie.Prelude.{
  ℕ, ◌+◌, String, Bool, true, false, not, Option, none, some, List, [], ◌∷◌, if◌then◌else◌, str_eq,
  erase, lookup, insert, get_elem?, map, filter, before,
}
use walkie.Message.Text.{Message, broadcast_conversation, conversation_key, conversation_key_for}
use walkie.Client.View.{Device}
use walkie.Control.State.{State, online}

-- What the model reads through its Params at one update: the hub's conversations, where the hub
-- exists, the roster, and the name that ConnectedAs gives, where it is wired.
pub record Sources : Type 0 where
  pub hub : Option (List String)
  pub roster : List Device
  pub connected_as : Option String

-- `sends` are the calls of Params.Send, and `quit` that tea.Quit was returned.
pub record Model : Type 0 where
  pub width : ℕ
  pub height : ℕ
  pub input : String
  pub conversations : List String
  pub current : ℕ
  pub devices : List Device
  pub conn_state : State
  pub connected_as : String
  pub unread : List (String × ℕ)
  pub help_open : Bool
  pub send_err : Option String
  pub sends : List (String × String)
  pub quit : Bool

-- A set of keys, each once.
abbrev pub add_key : String → List String → List String
add_key key [] = key ∷ []
add_key key (k ∷ keys) = let rest = add_key key keys in if str_eq k key then k ∷ keys else k ∷ rest

abbrev pub add_keys : List String → List String → List String
add_keys [] keys = keys
add_keys (key ∷ more) keys = add_keys more (add_key key keys)

abbrev pub is_broadcast_key : String → Bool
is_broadcast_key key = str_eq key broadcast_conversation

-- The less of the sort: the broadcast conversation first, and then by name.
abbrev pub less : String → String → Bool
less a b =
    if is_broadcast_key a
    then not (is_broadcast_key b)
    else if is_broadcast_key b
    then false
    else before a b

unfoldable pub place : String → List String → List String
place key [] = key ∷ []
place key (k ∷ keys) = let rest = place key keys in if less k key then k ∷ rest else key ∷ k ∷ keys

-- sort.Slice
unfoldable pub sort_keys : List String → List String
sort_keys [] = []
sort_keys (key ∷ keys) = place key (sort_keys keys)

abbrev pub or_empty : Option (List String) → List String
or_empty none = []
or_empty (some keys) = keys

-- The conversations of the devices other than this one.
abbrev pub peers : String → List Device → List String
peers local devices =
    map (λ d. conversation_key d.device) (filter (λ d. not (str_eq d.device local)) devices)

abbrev pub merged : Sources → String → List String
merged src local =
    add_keys (peers local src.roster) (add_keys (or_empty src.hub) (broadcast_conversation ∷ []))

-- conversationKey
abbrev pub conversation_at : Option String → String
conversation_at none = broadcast_conversation
conversation_at (some key) = key

abbrev pub current_key : Model → String
current_key m = conversation_at (get_elem? m.conversations m.current)

-- The first place of `key`, or 0.
unfoldable pub index_from : ℕ → String → List String → ℕ
index_from i key [] = 0
index_from i key (k ∷ keys) =
    let rest = index_from (i + 1) key keys in if str_eq k key then i else rest

-- refreshConversations
unfoldable pub refresh_conversations : Sources → Model → Model
unfolding sort_keys index_from
refresh_conversations src m =
    let out = sort_keys (merged src m.connected_as) in
    record m {
      devices = src.roster;
      conversations = out;
      current = index_from 0 (current_key m) out;
    }

-- selectConversation
unfoldable pub select_conversation : ℕ → Model → Model
select_conversation i m = record m {
  current = i;
  unread = erase (current_key (record m { current = i })) m.unread;
}

abbrev pub name_or : String → Option String → String
name_or old none = old
name_or old (some name) = name

abbrev pub empty_model : State → Model
empty_model state = record {
  width = 80;
  height = 24;
  input = "";
  conversations = [];
  current = 0;
  devices = [];
  conn_state = state;
  connected_as = "";
  unread = [];
  help_open = false;
  send_err = none;
  sends = [];
  quit = false;
}

-- New
unfoldable pub new_model : State → Sources → Model
unfolding refresh_conversations
new_model state src =
    refresh_conversations src
      (record (empty_model state) { connected_as = name_or "" src.connected_as })

abbrev pub count_of : Option ℕ → ℕ
count_of none = 0
count_of (some n) = n

abbrev pub is_online : State → Bool
is_online online = true
is_online _ = false

-- The cases of Update but for the keys.
unfoldable pub on_resize : ℕ → ℕ → Model → Model
on_resize width height m = record m { width = width; height = height }

unfoldable pub on_conn : State → Sources → Model → Model
on_conn to src m = record m {
  conn_state = to;
  connected_as = if is_online to then name_or m.connected_as src.connected_as else m.connected_as;
}

unfoldable pub on_presence : Sources → Model → Model
unfolding refresh_conversations
on_presence src m =
    refresh_conversations src (record m { connected_as = name_or m.connected_as src.connected_as })

unfoldable pub on_inbound : Message → Sources → Model → Model
unfolding refresh_conversations conversation_key_for
on_inbound msg src m =
    let m' = refresh_conversations src m in
    let conv = conversation_key_for m'.connected_as msg in
    if str_eq conv (current_key m')
    then m'
    else record m' { unread = insert conv (count_of (lookup conv m'.unread) + 1) m'.unread }
