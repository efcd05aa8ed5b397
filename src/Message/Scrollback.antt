-- ===== src/Message/Scrollback.antt =====
-- What Append does to the conversations (internal/message/log.go).
use walkie.Prelude.{
  true, ℕ, ◌-◌, ◌≤◌, ◌<◌, ◌≡◌, refl, ◌∙◌, String, not, ◌&&◌, Option, none, some, List, [], ◌∷◌,
  ◌++◌, arith, ltb, ◌==◌, if◌then◌else◌, str_eq, eq_iff, length, drop, lookup, insert,
  lookup-insert, length-drop, Bool-cases, inl, inr,
}
use walkie.Message.Text.{Message, conversation_key_for}
use walkie.Message.Dedup.{Dedup, holds, new_dedup}
use walkie.Message.Window.{IsRing, window}
use walkie.Message.First.{Firsts, first-Firsts}
use walkie.Message.Recent.{holds-pushed}
use walkie.Message.Log.{
  or_default, default_scrollback, default_dedup_window, Log, append, conversation, new_log,
  messages, trimmed,
}

-- The last `n` messages.
abbrev pub last : ℕ → List Message → List Message
last n msgs = drop (length msgs - n) msgs

-- Append against the window and the conversations.
pub record Appends (l : Log) (msg : Message) : Type 0 where
  pub after : Log
  pub returns : append l msg ≡ some (not (holds (window l.dedup) msg.id), after)
  pub ring : IsRing after.dedup
  pub remembers : holds (window after.dedup) msg.id ≡ true
  pub same_settings : (after.local ≡ l.local) × (after.scrollback ≡ l.scrollback)
  pub shows :
      (key : String)
      → conversation after key ≡ (
          if not (holds (window l.dedup) msg.id) && str_eq (conversation_key_for l.local msg) key
          then last l.scrollback (conversation l key ++ msg ∷ [])
          else conversation l key)

trimmed-last : (n : ℕ) (msgs : List Message) → trimmed n msgs ≡ last n msgs
trimmed-last n msgs = elim (Bool-cases (ltb 0 (length msgs - n))) [
  | inl over ↦ ground arith
  | inr fits ↦ let none_over : length msgs - n ≡ 0 = ground arith in rw none_over refl
]

-- On a sound filter Append never panics: a message whose id is in the filter's window is refused
-- and no conversation changes; any other message is displayed at the end of its own conversation,
-- which keeps its last `scrollback` messages, and no other conversation changes. The filter stays sound.
pub append-Appends : (l : Log) (msg : Message) → IsRing l.dedup → Appends l msg
unfolding append conversation
append-Appends l msg ring =
    let r : Firsts l.dedup msg.id = first-Firsts l.dedup msg.id ring in
    elim (Bool-cases (holds (window l.dedup) msg.id)) [
      | inl old ↦ record {
        after = record l { dedup = r.after };
        returns = ground (arith, r.returns);
        ring = r.ring;
        remembers = ground (arith, r.moved, old);
        same_settings = (refl, refl);
        shows = λ key. ground (arith, r.moved);
      }
      | inr new ↦ record {
        after = record l {
          convs =
              insert (conversation_key_for l.local msg)
                (trimmed l.scrollback
                  (messages (lookup (conversation_key_for l.local msg) l.convs) ++ msg ∷ []))
                l.convs;
          dedup = r.after;
        };
        returns = ground (arith, r.returns);
        ring = r.ring;
        remembers =
            ground (arith, r.moved, new, holds-pushed l.dedup.capacity msg.id (window l.dedup));
        same_settings = (refl, refl);
        shows = λ key.
            let key' = conversation_key_for l.local msg in
            let all = messages (lookup key' l.convs) ++ msg ∷ [] in
            ground (
              arith,
              new,
              lookup-insert key' key (trimmed l.scrollback all) l.convs,
              trimmed-last l.scrollback all,
              eq_iff key' key,
            );
      }
    ]

-- Append on one message after another; `none` once one of them panics.
unfoldable pub append_all : Log → List Message → Option Log
append_all l [] = some l
append_all l (msg ∷ msgs) = elim (append l msg) [
  | none ↦ none
  | some (new, l') ↦ append_all l' msgs
]

abbrev pub IsBounded : Log → Type 0
IsBounded l = (key : String) → length (conversation l key) ≤ l.scrollback

Appends-IsBounded : (l : Log) (msg : Message) (a : Appends l msg) → IsBounded l → IsBounded a.after
Appends-IsBounded l msg a bounded key =
    let all = conversation l key ++ msg ∷ [] in
    ground (
      arith,
      a.shows key,
      a.same_settings,
      bounded key,
      length-drop (length all - l.scrollback) all,
    )

append_all-IsBounded :
    (l : Log) (msgs : List Message)
    → IsRing l.dedup
    → IsBounded l
    → (l' : Log) × (append_all l msgs ≡ some l')
      × IsRing l'.dedup
      × IsBounded l'
      × (l'.scrollback ≡ l.scrollback)
unfolding append_all
append_all-IsBounded l [] ring bounded = (l, refl, ring, bounded, refl)
append_all-IsBounded l (msg ∷ msgs) ring bounded =
    let a : Appends l msg = append-Appends l msg ring in
    let (l', runs, ring', bounded', same) =
      append_all-IsBounded a.after msgs a.ring (Appends-IsBounded l msg a bounded) in
    (l', rw (a.returns, append_all, runs), ring', bounded', same ∙ a.same_settings.1)

new_dedup-IsRing :
    (capacity : ℕ) → 0 < capacity → (d : Dedup) × (new_dedup capacity ≡ some d) × IsRing d
unfolding new_dedup
new_dedup-IsRing capacity positive = (
  record { capacity = capacity; seen = []; order = []; head = 0 },
  ground arith,
  record {
    positive = positive;
    short = omega arith;
    unwrapped = λ h. refl;
    inside = positive;
    single = tt;
    lockstep = λ id. refl;
  },
)

-- A log made by NewLog, with any sizes, takes any sequence of messages without a panic; and afterwards
-- no conversation holds more messages than the scrollback, which is the size asked for or the default.
pub new_log-append_all :
    (local : String) (scrollback window_size : ℕ) (msgs : List Message)
    → (l l' : Log) × (new_log local scrollback window_size ≡ some l)
      × (append_all l msgs ≡ some l')
      × ((key : String)
          → length (conversation l' key) ≤ (if scrollback == 0 then 500 else scrollback))
unfolding new_log conversation
new_log-append_all local scrollback window_size msgs =
    let (d, made, ring) =
      new_dedup-IsRing (or_default default_dedup_window window_size) (ground arith) in
    let l : Log = record {
      local = local;
      scrollback = or_default default_scrollback scrollback;
      convs = [];
      dedup = d;
    } in
    let (l', runs, ring', bounded, same) = append_all-IsBounded l msgs ring (λ key. omega arith) in
    (l, l', rw made refl, runs, λ key. ground (arith, bounded key, same))
