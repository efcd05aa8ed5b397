-- ===== src/Tui/Overflow.antt =====
-- A status label that breaks lines (internal/tui/view.go).
use walkie.Prelude.{
  ℕ, suc, zero, ◌+◌, ◌-◌, ◌≤◌, ◌<◌, ◌≡◌, sym, subst, false, Option, List, [], ◌∷◌, ◌++◌, ltb,
  length, take, arith, if-intro, map, str_eq, lookup,
}
use walkie.Message.Text.{Message, conversation_key}
use walkie.Client.View.{Device}
use walkie.Tui.Model.{Model, current_key, count_of}
use walkie.Tui.View.{
  Row, more_devices, fixed_rows, error_rows, max_devices, shown_devices, message_lines,
  device_lines, main_view, view, min_columns, status_line, devices_header, rule, clamp, pane_header,
  input_row, hint_row, device_row, short_name,
}
use walkie.Tui.Lines.{feeds, lines_of, height}
use walkie.Tui.Layout.{view_rows}

height-append : (xs ys : List Row) → height (xs ++ ys) ≡ height xs + height ys
unfolding height
height-append [] ys = omega arith
height-append (row ∷ xs) ys = omega (arith, height-append xs ys)

height-take :
    (most : ℕ) (row : Row) (rows : List Row)
    → 1 ≤ most
    → lines_of row ≤ height (take most (row ∷ rows))
unfolding height
height-take zero row rows some_room = absurd (omega (arith, some_room))
height-take (suc n) row rows some_room = omega arith

shown_devices_first :
    (most : ℕ) (row : Row) (rows : List Row)
    → 1 ≤ most
    → lines_of row ≤ height (shown_devices most (row ∷ rows))
unfolding height
shown_devices_first most row rows some_room =
    let more = more_devices (length (row ∷ rows) - most) in
    if-intro (λ shown. lines_of row ≤ height shown) (ltb most (length (row ∷ rows)))
      (take most (row ∷ rows) ++ more ∷ []) (row ∷ rows)
      (λ _. omega (
        arith,
        height-append (take most (row ∷ rows)) (more ∷ []),
        height-take most row rows some_room,
      ))
      (λ _. omega arith)

max_devices_positive : (room : ℕ) → 1 ≤ max_devices room
max_devices_positive room = ground arith

first_row : Model → Device → Row
first_row m d =
    device_row (short_name d.device) (str_eq d.device m.connected_as)
      (count_of (lookup (conversation_key d.device) m.unread)) d.entry

shown_devices_overflows :
    (m : Model) (d : Device) (more : List Device)
    → m.devices ≡ d ∷ more
    → feeds d.entry.status
      < height (shown_devices (max_devices (m.height - fixed_rows m.send_err)) (device_lines m))
unfolding device_lines lines_of first_row
shown_devices_overflows m d more listed =
    let most = max_devices (m.height - fixed_rows m.send_err) in
    let row_of : Device → Row = first_row m in
    subst (λ devices. feeds d.entry.status < height (shown_devices most (map row_of devices)))
      (sym listed)
      (omega (
        arith,
        shown_devices_first most (first_row m d) (map row_of more)
            (max_devices_positive (m.height - fixed_rows m.send_err)),
      ))

-- On a terminal of at least 80 columns, with the help closed: if the label of the first device has as many
-- line feeds as the terminal has rows, the frame has more lines of text than the terminal has rows.
status_overflows :
    (msgs : Option (List Message)) (m : Model) (d : Device) (more : List Device)
    → min_columns ≤ m.width
    → m.help_open ≡ false
    → m.devices ≡ d ∷ more
    → m.height ≤ feeds d.entry.status
    → m.height < height (view msgs m)
unfolding main_view height
status_overflows msgs m d more wide closed listed broken =
    let room = m.height - fixed_rows m.send_err in
    let shown = shown_devices (max_devices room) (device_lines m) in
    let a = status_line m ∷ devices_header ∷ shown in
    let c = rule (clamp m.width 1 80) ∷ pane_header (current_key m) ∷ [] in
    let lines = message_lines (room - 3 - length shown) msgs m in
    let errors = error_rows m.send_err in
    let f = input_row m.input ∷ hint_row ∷ [] in
    subst (λ rows. m.height < height rows) (sym (view_rows msgs m wide closed))
      (omega (
        arith,
        height-append (a ++ c ++ lines ++ errors) f,
        height-append (a ++ c ++ lines) errors,
        height-append (a ++ c) lines,
        height-append a c,
        shown_devices_overflows m d more listed,
        broken,
      ))
