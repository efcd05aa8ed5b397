-- ===== src/Tui/Layout.antt =====
-- A frame fits its terminal (internal/tui/view.go).
use walkie.Prelude.{
  ℕ, suc, zero, ◌+◌, ◌-◌, ◌/◌, ◌≤◌, ◌<◌, ◌≡◌, refl, ap, false, Option, none, some, List, [], ◌∷◌,
  ◌++◌, if◌then◌else◌, ltb, length, length-append, length-drop, map, take, arith, String, if-intro,
}
use walkie.Message.Text.{Message}
use walkie.Tui.Model.{Model, current_key}
use walkie.Tui.View.{
  Row, more_devices, fixed_rows, error_rows, max_devices, shown_devices, last_of, message_line,
  or_no_messages, message_lines, device_lines, main_view, view, min_columns, status_line,
  devices_header, rule, clamp, pane_header, input_row, hint_row, help_text, narrow_view,
}
use walkie.Tui.Lines.{height, IsPlain}
use walkie.Tui.Plain.{height-main_view}

length-take-le : (n : ℕ) (rows : List Row) → length (take n rows) ≤ n
length-take-le zero rows = omega arith
length-take-le (suc n) [] = omega arith
length-take-le (suc n) (row ∷ rows) = omega (arith, length-take-le n rows)

length-map : (f : Message → Row) (msgs : List Message) → length (map f msgs) ≡ length msgs
length-map f [] = refl
length-map f (msg ∷ msgs) = ap suc (length-map f msgs)

shown_devices_le : (most : ℕ) (rows : List Row) → length (shown_devices most rows) ≤ most + 1
shown_devices_le most rows = ground (
  arith,
  length-take-le most rows,
  length-append (take most rows) (more_devices (length rows - most) ∷ []),
)

last_of_le : (n : ℕ) (msgs : List Message) → length (last_of n msgs) ≤ n
last_of_le n msgs = ground (arith, length-drop (length msgs - n) msgs)

or_no_messages_le :
    (n : ℕ) (rows : List Row) → 0 < n → length rows ≤ n → length (or_no_messages rows) ≤ n
or_no_messages_le n [] positive le = omega (arith, positive)
or_no_messages_le n (row ∷ rows) positive le = le

message_lines_le :
    (n : ℕ) (msgs : Option (List Message)) (m : Model) → 0 < n → length (message_lines n msgs m) ≤ n
unfolding message_lines
message_lines_le n none m positive = omega (arith, positive)
message_lines_le n (some msgs) m positive =
    let lines = map (message_line m.connected_as) (last_of n msgs) in
    ground (
      arith,
      positive,
      or_no_messages_le n lines positive (
          omega
            (arith, length-map (message_line m.connected_as) (last_of n msgs), last_of_le n msgs)),
    )

length-error_rows : (e : Option String) → length (error_rows e) + 4 ≡ fixed_rows e
length-error_rows none = refl
length-error_rows (some e) = refl

fixed_rows_le : (e : Option String) → fixed_rows e ≤ 5
fixed_rows_le none = omega arith
fixed_rows_le (some e) = omega arith

length_frame :
    (a c lines errors f : List Row)
    → length (a ++ c ++ lines ++ errors ++ f)
      ≡ length a + length c + length lines + length errors + length f
length_frame a c lines errors f = omega (
  arith,
  length-append (a ++ c ++ lines ++ errors) f,
  length-append (a ++ c ++ lines) errors,
  length-append (a ++ c) lines,
  length-append a c,
)

main_view_fits :
    (msgs : Option (List Message)) (m : Model)
    → 12 ≤ m.height
    → length (main_view msgs m) < m.height
unfolding main_view
main_view_fits msgs m tall =
    let room = m.height - fixed_rows m.send_err in
    let shown = shown_devices (max_devices room) (device_lines m) in
    let n = room - 3 - length shown in
    let fixed = fixed_rows_le m.send_err in
    let devices = shown_devices_le (max_devices room) (device_lines m) in
    let errors = length-error_rows m.send_err in
    let most : max_devices room ≡ room / 3 = ground (arith, fixed, tall) in
    let positive : 0 < n = omega (arith, fixed, tall, devices, most) in
    let lines = message_lines_le n msgs m positive in
    omega (
      arith,
      length_frame (status_line m ∷ devices_header ∷ shown)
          (rule (clamp m.width 1 80) ∷ pane_header (current_key m) ∷ []) (message_lines n msgs m)
          (error_rows m.send_err) (input_row m.input ∷ hint_row ∷ []),
      lines,
      errors,
      positive,
    )

-- Which frame a wide terminal with the help closed shows.
pub view_rows :
    (msgs : Option (List Message)) (m : Model)
    → min_columns ≤ m.width
    → m.help_open ≡ false
    → view msgs m ≡ main_view msgs m
unfolding view
view_rows msgs m wide closed =
    let helped = status_line m ∷ help_text ∷ hint_row ∷ [] in
    let P : List Row → Type 0 = λ rows. rows ≡ main_view msgs m in
    if-intro P (ltb m.width min_columns) (narrow_view m)
      (if m.help_open then helped else main_view msgs m)
      (λ narrow. absurd (ground (arith, narrow, wide)))
      (λ _.
        if-intro P m.help_open helped (main_view msgs m)
          (λ open_help. absurd (ground (arith, open_help, closed))) (λ _. refl))

-- On a terminal of at least 80 columns and 12 rows, however many devices and messages there are and with
-- an error line or without: if none of the texts that a frame prints as they stand breaks a line (the own
-- name, the names and the status labels of the devices, the title, the names of the senders, the error), a
-- frame with the help closed has fewer lines of text than the terminal has rows.
pub view_fits :
    (msgs : Option (List Message)) (m : Model)
    → min_columns ≤ m.width
    → 12 ≤ m.height
    → m.help_open ≡ false
    → IsPlain msgs m
    → height (view msgs m) < m.height
view_fits msgs m wide tall closed plain =
    rw (view_rows msgs m wide closed, height-main_view msgs m plain) (main_view_fits msgs m tall)
