-- ===== src/Tui/Ready.antt =====
-- The selection of the terminal interface is always in bounds (internal/tui/model.go).
use walkie.Prelude.{
  ℕ, ◌<◌, ◌≡◌, refl, ap, ◌∙◌, String, Bool, ◌||◌, Option, some, List, [], ◌∷◌, if◌then◌else◌,
  str_eq, any, length, get_elem?, arith, Bool-cases, if-intro, inl, inr,
}
use walkie.Message.Text.{Message, broadcast_conversation, conversation_key_for}
use walkie.Tui.Model.{
  Model, Sources, merged, peers, or_empty, is_broadcast_key, sort_keys, index_from, current_key,
  conversation_at, refresh_conversations, select_conversation, on_inbound,
}
use walkie.Tui.Order.{
  sort_keys-first, any-sort_keys, any-add_keys, index_from-listed, index_from-unlisted,
}

-- The broadcast conversation is listed first, and the selected index is one of the list.
pub record IsReady (m : Model) : Type 0 where
  pub others : List String
  pub first : m.conversations ≡ broadcast_conversation ∷ others
  pub inside : m.current < length m.conversations

-- The hub, the roster or the interface itself lists the key.
abbrev pub is_listed : Sources → String → String → Bool
is_listed src local key =
    any (λ k. str_eq k key) (peers local src.roster)
    || (any (λ k. str_eq k key) (or_empty src.hub) || str_eq broadcast_conversation key)

module _ (src : Sources) (m : Model) where
  any-merged :
      (p : String → Bool)
      → any p (merged src m.connected_as) ≡ (
          any p (peers m.connected_as src.roster)
          || (any p (or_empty src.hub) || p broadcast_conversation))
  any-merged p =
      any-add_keys p (peers m.connected_as src.roster) _
      ∙ ground (arith, any-add_keys p (or_empty src.hub) (broadcast_conversation ∷ []))

  listed-first :
      (rest : List String) × (sort_keys (merged src m.connected_as) ≡ broadcast_conversation ∷ rest)
  listed-first =
      sort_keys-first (merged src m.connected_as) (ground (arith, any-merged is_broadcast_key))

  pub refresh_conversations-IsReady : IsReady (refresh_conversations src m)
  unfolding refresh_conversations
  refresh_conversations-IsReady =
      let out = sort_keys (merged src m.connected_as) in
      let (rest, first) = listed-first in
      record {
        others = rest;
        first = first;
        inside = elim (Bool-cases (any (λ k. str_eq k (current_key m)) out)) [
          | inl has ↦
              let (j, place, at, inside) = index_from-listed 0 (current_key m) out has in
              omega (arith, place, inside)
          | inr lacks ↦
              omega (arith, index_from-unlisted 0 (current_key m) out lacks, ap length first)
        ];
      }

  -- A refresh keeps the selected conversation, whatever comes before it in the new list, as long as the
  -- hub, the roster or the interface lists it; otherwise it selects the broadcast conversation.
  pub refresh_conversations-current_key : current_key (refresh_conversations src m) ≡ (
      if is_listed src m.connected_as (current_key m)
      then current_key m
      else broadcast_conversation)
  unfolding refresh_conversations
  refresh_conversations-current_key =
      let key = current_key m in
      let out = sort_keys (merged src m.connected_as) in
      let (rest, first) = listed-first in
      let same : any (λ k. str_eq k key) out ≡ is_listed src m.connected_as key =
        any-sort_keys (λ k. str_eq k key) (merged src m.connected_as)
        ∙ any-merged (λ k. str_eq k key) in
      elim (Bool-cases (is_listed src m.connected_as key)) [
        | inl has ↦
            let (j, place, at, inside) = index_from-listed 0 key out (same ∙ has) in
            let here : index_from 0 key out ≡ j = omega (arith, place) in
            rw has (ap (λ i. conversation_at (get_elem? out i)) here ∙ ap conversation_at at)
        | inr lacks ↦ rw lacks (
            ap (λ i. conversation_at (get_elem? out i))
              (index_from-unlisted 0 key out (same ∙ lacks))
            ∙ ap (λ l. conversation_at (get_elem? l 0)) first)
      ]

-- Of the model only its list and its selection matter.
pub same-IsReady :
    (m m' : Model)
    → IsReady m
    → m'.conversations ≡ m.conversations
    → m'.current ≡ m.current
    → IsReady m'
same-IsReady m m' r conversations current = record {
  others = r.others;
  first = conversations ∙ r.first;
  inside = rw (conversations, current) r.inside;
}

pub select_conversation-IsReady :
    (i : ℕ) (m : Model) → IsReady m → i < length m.conversations → IsReady (select_conversation i m)
unfolding select_conversation
select_conversation-IsReady i m r inside = record {
  others = r.others;
  first = r.first;
  inside = inside;
}

pub on_inbound-IsReady :
    (msg : Message) (src : Sources) (m : Model) → IsReady (on_inbound msg src m)
unfolding on_inbound
on_inbound-IsReady msg src m =
    let m' = refresh_conversations src m in
    let r = refresh_conversations-IsReady src m in
    if-intro IsReady (str_eq (conversation_key_for m'.connected_as msg) (current_key m')) m' _
      (λ _. r) (λ _. same-IsReady m' _ r refl refl)

-- It does not panic, and the selection stays in bounds.
abbrev pub GoesOn : Option Model → Type 0
GoesOn o = (m : Model) × (o ≡ some m) × IsReady m
