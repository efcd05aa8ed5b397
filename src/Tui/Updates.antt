-- ===== src/Tui/Updates.antt =====
-- No update of the terminal interface panics (internal/tui/model.go and keymap.go).
use walkie.Prelude.{Option, none, some, List, [], ◌∷◌}
use walkie.Control.State.{State}
use walkie.Tui.Model.{Model, Sources}
use walkie.Tui.Keys.{Widgets, Msg, update}

-- The messages of a program's loop, each with what the model can read at it.
unfoldable pub update_all : Widgets → List (Sources × Msg) → Model → Option Model
update_all w [] m = some m
update_all w ((src, msg) ∷ msgs) m = elim (update w src msg m) [
  | none ↦ none
  | some m' ↦ update_all w msgs m'
]
