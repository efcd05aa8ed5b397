-- ===== src/Tui/Order.antt =====
-- The listing of conversations (internal/tui/model.go).
use walkie.Prelude.{
  ℕ, suc, zero, ◌+◌, ◌<◌, ◌≡◌, refl, ap, ◌∙◌, String, Bool, true, false, ◌||◌, some, List, [], ◌∷◌,
  str_eq, eq_iff, any, length, get_elem?, arith, Bool-cases, inl, inr,
}
use walkie.Message.Text.{broadcast_conversation}
use walkie.Tui.Model.{add_key, add_keys, is_broadcast_key, place, sort_keys, index_from}

place_broadcast :
    (keys : List String) → place broadcast_conversation keys ≡ broadcast_conversation ∷ keys
unfolding place
place_broadcast [] = refl
place_broadcast (k ∷ keys) = ground arith

place_after :
    (key : String) (keys : List String)
    → is_broadcast_key key ≡ false
    → place key (broadcast_conversation ∷ keys) ≡ broadcast_conversation ∷ place key keys
unfolding place
place_after key keys other = rw other refl

-- A list with the broadcast conversation in it is sorted with that one first.
pub sort_keys-first :
    (keys : List String)
    → any is_broadcast_key keys ≡ true
    → (rest : List String) × (sort_keys keys ≡ broadcast_conversation ∷ rest)
unfolding sort_keys
sort_keys-first [] has = absurd (ground (arith, has))
sort_keys-first (key ∷ keys) has = elim (Bool-cases (is_broadcast_key key)) [
  | inl is ↦ (
    sort_keys keys,
    ap (λ k. place k (sort_keys keys)) ((eq_iff key broadcast_conversation).0 is)
        ∙ place_broadcast (sort_keys keys),
  )
  | inr other ↦
      let (rest, sorted) = sort_keys-first keys (ground (arith, has, other)) in
      (place key rest, ap (place key) sorted ∙ place_after key rest other)
]

any-place :
    (p : String → Bool) (key : String) (keys : List String)
    → any p (place key keys) ≡ (p key || any p keys)
unfolding place
any-place p key [] = ground arith
any-place p key (k ∷ keys) = ground (arith, any-place p key keys)

pub any-sort_keys : (p : String → Bool) (keys : List String) → any p (sort_keys keys) ≡ any p keys
unfolding sort_keys
any-sort_keys p [] = refl
any-sort_keys p (key ∷ keys) =
    any-place p key (sort_keys keys) ∙ ground (arith, any-sort_keys p keys)

any-add_key :
    (p : String → Bool) (key : String) (keys : List String)
    → any p (add_key key keys) ≡ (p key || any p keys)
any-add_key p key [] = ground arith
any-add_key p key (k ∷ keys) = elim (Bool-cases (str_eq k key)) [
  | inl same ↦ let is : p k ≡ p key = ap p ((eq_iff k key).0 same) in rw same (ground (arith, is))
  | inr other ↦ rw other (ground (arith, any-add_key p key keys))
]

pub any-add_keys :
    (p : String → Bool) (more keys : List String)
    → any p (add_keys more keys) ≡ (any p more || any p keys)
any-add_keys p [] keys = refl
any-add_keys p (key ∷ more) keys =
    any-add_keys p more (add_key key keys) ∙ ground (arith, any-add_key p key keys)

-- The index of a listed key is a place where it stands.
pub index_from-listed :
    (i : ℕ) (key : String) (keys : List String)
    → any (λ k. str_eq k key) keys ≡ true
    → (j : ℕ) × (index_from i key keys ≡ i + j) × (get_elem? keys j ≡ some key) × (j < length keys)
unfolding index_from
index_from-listed i key [] has = absurd (ground (arith, has))
index_from-listed i key (k ∷ keys) has = elim (Bool-cases (str_eq k key)) [
  | inl same ↦ (zero, rw same (omega arith), ap some ((eq_iff k key).0 same), omega arith)
  | inr other ↦
      let (j, place, at, inside) =
        index_from-listed (i + 1) key keys (ground (arith, has, other)) in
      (suc j, rw other (omega (arith, place)), at, omega (arith, inside))
]

pub index_from-unlisted :
    (i : ℕ) (key : String) (keys : List String)
    → any (λ k. str_eq k key) keys ≡ false
    → index_from i key keys ≡ 0
unfolding index_from
index_from-unlisted i key [] has = refl
index_from-unlisted i key (k ∷ keys) has = ground (arith, has, index_from-unlisted (i + 1) key keys)
