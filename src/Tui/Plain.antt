-- ===== src/Tui/Plain.antt =====
-- A frame whose texts break no line has as many lines as rows (internal/tui/view.go).
use walkie.Prelude.{
  ℕ, suc, zero, ◌-◌, ◌≡◌, refl, Option, none, some, List, [], ◌∷◌, ◌++◌, ltb, length, map, take,
  drop, All, arith, String, if-intro, lookup, str_eq,
}
use walkie.Message.Text.{Message, conversation_key}
use walkie.Client.View.{Device}
use walkie.Tui.Model.{Model, current_key, count_of}
use walkie.Tui.View.{
  Row, more_devices, fixed_rows, error_rows, max_devices, shown_devices, last_of, message_line,
  or_no_messages, message_lines, device_lines, main_view, status_line, no_messages, device_row,
  devices_header, rule, clamp, pane_header, input_row, hint_row, shown_sender, short_name,
}
use walkie.Tui.Lines.{breaks, feeds, lines_of, height, IsPlain, ErrorPlain}

abbrev pub OneLine : Row → Type 0
OneLine row = lines_of row ≡ 1

pub OneLine-height : (rows : List Row) → All OneLine rows → height rows ≡ length rows
unfolding height
OneLine-height [] one = refl
OneLine-height (row ∷ rows) one = omega (arith, one.0, OneLine-height rows one.1)

pub OneLine-append : (xs ys : List Row) → All OneLine xs → All OneLine ys → All OneLine (xs ++ ys)
OneLine-append [] ys x y = y
OneLine-append (row ∷ xs) ys x y = (x.0, OneLine-append xs ys x.1 y)

OneLine-take : (n : ℕ) (rows : List Row) → All OneLine rows → All OneLine (take n rows)
OneLine-take zero rows one = tt
OneLine-take (suc n) [] one = tt
OneLine-take (suc n) (row ∷ rows) one = (one.0, OneLine-take n rows one.1)

OneLine-shown_devices :
    (most : ℕ) (rows : List Row) → All OneLine rows → All OneLine (shown_devices most rows)
unfolding lines_of
OneLine-shown_devices most rows one =
    let more = more_devices (length rows - most) in
    if-intro (All OneLine) (ltb most (length rows)) (take most rows ++ more ∷ []) rows
      (λ _. OneLine-append (take most rows) (more ∷ []) (OneLine-take most rows one) (refl, tt))
      (λ _. one)

module _ (local : String) where
  abbrev PlainSender : Message → Type 0
  PlainSender msg = breaks (shown_sender local msg) ≡ 0

  PlainSender-drop :
      (n : ℕ) (msgs : List Message) → All PlainSender msgs → All PlainSender (drop n msgs)
  PlainSender-drop zero msgs plain = plain
  PlainSender-drop (suc n) [] plain = tt
  PlainSender-drop (suc n) (msg ∷ msgs) plain = PlainSender-drop n msgs plain.1

  PlainSender-lines :
      (msgs : List Message) → All PlainSender msgs → All OneLine (map (message_line local) msgs)
  unfolding lines_of
  PlainSender-lines [] plain = tt
  PlainSender-lines (msg ∷ msgs) plain = (omega (arith, plain.0), PlainSender-lines msgs plain.1)

  PlainSender-last_of :
      (n : ℕ) (msgs : List Message) → All PlainSender msgs → All PlainSender (last_of n msgs)
  PlainSender-last_of n msgs plain =
      if-intro (All PlainSender) (ltb n (length msgs)) (drop (length msgs - n) msgs) msgs
        (λ _. PlainSender-drop (length msgs - n) msgs plain) (λ _. plain)

OneLine-or_no_messages : (rows : List Row) → All OneLine rows → All OneLine (or_no_messages rows)
unfolding lines_of
OneLine-or_no_messages [] one = (refl, tt)
OneLine-or_no_messages (row ∷ rows) one = one

OneLine-message_lines :
    (n : ℕ) (msgs : Option (List Message)) (m : Model)
    → IsPlain msgs m
    → All OneLine (message_lines n msgs m)
unfolding message_lines lines_of
OneLine-message_lines n none m plain = (refl, tt)
OneLine-message_lines n (some msgs) m plain =
    let lines = map (message_line m.connected_as) (last_of n msgs) in
    if-intro (All OneLine) (ltb 0 n) (or_no_messages lines) (no_messages ∷ [])
      (λ _. OneLine-or_no_messages lines (
        PlainSender-lines m.connected_as (last_of n msgs)
          (PlainSender-last_of m.connected_as n msgs plain.senders)))
      (λ _. (refl, tt))

module _ (connected_as : String) (unread : List (String × ℕ)) where
  -- The rows of these devices, as device_lines makes them.
  abbrev rows_of : List Device → List Row
  rows_of = map (λ d.
      device_row (short_name d.device) (str_eq d.device connected_as)
        (count_of (lookup (conversation_key d.device) unread)) d.entry)

  rows_of-OneLine :
      (devices : List Device)
      → All (λ d. (breaks (short_name d.device) ≡ 0) × (feeds d.entry.status ≡ 0)) devices
      → All OneLine (rows_of devices)
  unfolding lines_of
  rows_of-OneLine [] plain = tt
  rows_of-OneLine (d ∷ devices) plain = (omega (arith, plain.0), rows_of-OneLine devices plain.1)

OneLine-device_lines :
    (msgs : Option (List Message)) (m : Model) → IsPlain msgs m → All OneLine (device_lines m)
unfolding device_lines
OneLine-device_lines msgs m plain = rows_of-OneLine m.connected_as m.unread m.devices plain.devices

OneLine-error_rows : (e : Option String) → ErrorPlain e → All OneLine (error_rows e)
unfolding lines_of
OneLine-error_rows none plain = tt
OneLine-error_rows (some text) plain = (omega (arith, plain), tt)

OneLine-main_view :
    (msgs : Option (List Message)) (m : Model) → IsPlain msgs m → All OneLine (main_view msgs m)
unfolding main_view lines_of status_line
OneLine-main_view msgs m plain =
    let room = m.height - fixed_rows m.send_err in
    let shown = shown_devices (max_devices room) (device_lines m) in
    let a = status_line m ∷ devices_header ∷ shown in
    let c = rule (clamp m.width 1 80) ∷ pane_header (current_key m) ∷ [] in
    let lines = message_lines (room - 3 - length shown) msgs m in
    let errors = error_rows m.send_err in
    let f = input_row m.input ∷ hint_row ∷ [] in
    let of_a : All OneLine a = (
      omega (arith, plain.you),
      (
        refl,
        OneLine-shown_devices (max_devices room) (device_lines m)
            (OneLine-device_lines msgs m plain),
      ),
    ) in
    let of_c : All OneLine c = (refl, (omega (arith, plain.title), tt)) in
    let of_lines = OneLine-message_lines (room - 3 - length shown) msgs m plain in
    let of_errors = OneLine-error_rows m.send_err plain.error in
    OneLine-append (a ++ c ++ lines ++ errors) f
      (OneLine-append (a ++ c ++ lines) errors
        (OneLine-append (a ++ c) lines (OneLine-append a c of_a of_c) of_lines) of_errors)
      (refl, (refl, tt))

-- A frame whose texts break no line has as many lines as rows.
pub height-main_view :
    (msgs : Option (List Message)) (m : Model)
    → IsPlain msgs m
    → height (main_view msgs m) ≡ length (main_view msgs m)
height-main_view msgs m plain = OneLine-height (main_view msgs m) (OneLine-main_view msgs m plain)
