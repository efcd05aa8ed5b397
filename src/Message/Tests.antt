-- ===== src/Message/Tests.antt =====
-- Runs of the duplicate filter and of the display log on small inputs.
use walkie.Prelude.{◌≡◌, refl, true, false, none, some, [], ◌∷◌, arith}
use walkie.Message.Text.{
  Message, validate_body, conversation_key_for, conversation_key, not_utf8, valid_string,
}
use walkie.Message.Dedup.{Dedup, first}
use walkie.Message.Window.{IsRing}
use walkie.Message.Recent.{first_remembers, firsts}
use walkie.Message.Log.{Log, append, conversation}

abbrev full_ring : Dedup
full_ring = record { capacity = 2; seen = "c" ∷ "b" ∷ []; order = "c" ∷ "b" ∷ []; head = 1 }

full_ring-IsRing : IsRing full_ring
full_ring-IsRing = record {
  positive = omega arith;
  short = omega arith;
  unwrapped = λ h. absurd (omega arith);
  inside = omega arith;
  single = (refl, (refl, tt));
  lockstep = λ id. refl;
}

abbrev next_ring : Dedup
next_ring = record { capacity = 2; seen = "d" ∷ "c" ∷ []; order = "c" ∷ "d" ∷ []; head = 0 }

first-full_ring : first full_ring "d" ≡ some (true, next_ring)
unfolding first
first-full_ring = refl

first_remembers_example :
    (d'' : Dedup) × (firsts next_ring ("e" ∷ []) ≡ some d'') × (first d'' "d" ≡ some (false, d''))
first_remembers_example =
    first_remembers full_ring next_ring "d" ("e" ∷ []) full_ring-IsRing first-full_ring
      (omega arith)

-- One more call of First and the id is new again.
firsts_forget :
    (d : Dedup) × (firsts next_ring ("e" ∷ "f" ∷ []) ≡ some d)
    × (d' : Dedup) × (first d "d" ≡ some (true, d'))
unfolding firsts first
firsts_forget = (_, refl, _, refl)

abbrev hello : Message
hello = record {
  id = "d";
  sender = "ann";
  recipient = "bob";
  body = 104 ∷ 105 ∷ [];
  sent_at = some 1;
  received_at = none;
}

abbrev bobs_log : Log
bobs_log = record {
  local = "bob";
  scrollback = 1;
  convs = ("dm:ann", record hello { id = "b" } ∷ []) ∷ [];
  dedup = full_ring;
}

append-bobs_log :
    (l : Log) × (append bobs_log hello ≡ some (true, l)) × (conversation l "dm:ann" ≡ hello ∷ [])
unfolding append conversation first conversation_key_for conversation_key
append-bobs_log = (_, refl, refl)

validate_body-examples :
    (validate_body (0xc3 ∷ 0xa9 ∷ []) ≡ none)
    × (validate_body (0xc0 ∷ 0x80 ∷ []) ≡ some not_utf8)
    × (validate_body (0xed ∷ 0xa0 ∷ 0x80 ∷ []) ≡ some not_utf8)
    × (validate_body (0xe2 ∷ 0x82 ∷ []) ≡ some not_utf8)
unfolding validate_body valid_string
validate_body-examples = (refl, refl, refl, refl)
