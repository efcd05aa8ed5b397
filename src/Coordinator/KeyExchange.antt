-- ===== src/Coordinator/KeyExchange.antt =====
-- How a device's key reaches the other devices (internal/coordinator/keys.go and
-- internal/crypto/keystore.go).
use walkie.Prelude.{
  sym, subst, ℕ, ◌≡◌, ◌≢◌, refl, ap, ◌∙◌, String, true, Option, none, some, List, [], ◌∷◌, ◌++◌,
  arith, if-intro, ◌⊎◌, inl, inr, str_eq, not, length, ◌==◌, map, any, lookup, lookup-sort_names,
  sort_names-Ordered, Ordered, ◌&&◌,
}
use walkie.Wire.{Bytes, Envelope, bad_public_key}
use walkie.Keystore.Pins.{
  Keystore, Peers, AuthorizeError, key_changed, not_persisted, no_peer, pub_key_size, authorize,
  entries, pinned_key, key_of,
}
use walkie.Keystore.Authorize.{IsAuthorized, IsUnauthorized, authorize-cases, authorize-pinned}
use walkie.Coordinator.Routing.{
  Identity, device_of, has, targets_except, route_targets_except, write_all,
}
use walkie.Coordinator.Authentic.{is_refusal, has-targets_except}
use walkie.Coordinator.Dispatch.{
  Hub, Moment, reply, refusal, directory, handle_key_announce, announce, announced,
  broadcast_directory,
}

lookup-keys :
    (asked : String) (peers : Peers)
    → lookup asked (map (λ p. (p.0, p.1.key)) peers) ≡ key_of (lookup asked peers)
unfolding lookup
lookup-keys asked [] = refl
lookup-keys asked ((peer, rec) ∷ peers) = ground (arith, lookup-keys asked peers)

-- A directory lists each pinned key under its device, in the order of the names.
pub entries-pinned_key :
    (ks : Keystore)
    → ((asked : String) → lookup asked (entries ks) ≡ pinned_key asked ks) × Ordered (entries ks)
unfolding entries pinned_key
entries-pinned_key ks =
    (λ asked. lookup-sort_names asked _ ∙ lookup-keys asked ks.peers, sort_names-Ordered _)

module _ {S : Type 0} (m : Moment) (out : ℕ) (id : Identity) (key : Bytes) (h : Hub S)
    (ks : Keystore) where
  -- The key is taken: every connection of every named device gets one and the same directory.
  abbrev pub IsPublished : Hub S → Type 0
  IsPublished h' =
      (length key ≡ pub_key_size)
      × (ks' : Keystore) × (h'.keys ≡ some ks')
      × (lookup (device_of id) (entries ks') ≡ some key)
      × (targets : List ℕ) × (h'.server.sent
          ≡ h.server.sent ++ map (λ w. (w, directory ks')) targets)
      × ((v : ℕ) → has v targets ≡ any (λ r. not (str_eq r.0 "") && has v r.1) h.server.routes)

  -- It is not: no pin changes, and at most the announcer hears of it.
  abbrev pub IsUnpublished : Hub S → Type 0
  IsUnpublished h' =
      (ks' : Keystore) × (h'.keys ≡ some ks')
      × ((asked : String) → pinned_key asked ks' ≡ pinned_key asked ks)
      × ((h'.server.sent ≡ h.server.sent)
          ⊎ ((e : Envelope) × (is_refusal e.payload ≡ true)
              × (h'.server.sent ≡ h.server.sent ++ (out, e) ∷ [])))

  published :
      (r : Option AuthorizeError × Keystore)
      → length key ≡ pub_key_size
      → IsAuthorized m.now m.saves m.confirm (device_of id) key ks r
      → IsPublished (announced out r h)
  unfolding broadcast_directory route_targets_except
  published (none, ks') sized (done, pinned, before) = (
    sized,
    ks',
    refl,
    (entries-pinned_key ks').0 (device_of id) ∙ pinned,
    targets_except "" h.server.routes,
    refl,
    λ v. has-targets_except v "" h.server.routes,
  )
  published (some e, ks') sized (done, pinned, before) = absurd (ground (arith, done))

  unpublished :
      (r : Option AuthorizeError × Keystore)
      → IsUnauthorized m.now m.saves m.confirm (device_of id) key ks r
      → IsUnpublished (announced out r h)
  unfolding pinned_key
  unpublished (none, ks') (e, failed, kept, file) = absurd (ground (arith, failed))
  unpublished (some (key_changed pinned presented), ks') (e, failed, kept, file) =
      (ks', refl, λ asked. ap key_of (kept asked), inr (_, refl, refl))
  unpublished (some no_peer, ks') (e, failed, kept, file) =
      (ks', refl, λ asked. ap key_of (kept asked), inl refl)
  unpublished (some not_persisted, ks') (e, failed, kept, file) =
      (ks', refl, λ asked. ap key_of (kept asked), inl refl)

  -- Every announcement of a key, where a keystore is wired, ends in one of two ways: the key has the
  -- right size and is pinned to the announcing device, and every connection of every device with a
  -- name gets one directory, which lists it under that device; or no pin of any device changes, and
  -- nobody but the announcer hears anything. The connection is kept.
  pub handle_key_announce-cases :
      h.keys ≡ some ks
      → ((handle_key_announce m out id key h).0 ≡ true)
        × (let h' = (handle_key_announce m out id key h).1 in IsPublished h' ⊎ IsUnpublished h')
  unfolding handle_key_announce
  handle_key_announce-cases wired =
      let r = authorize m.now m.saves m.confirm (device_of id) key ks in
      let P = λ (h' : Hub S). IsPublished h' ⊎ IsUnpublished h' in
      let cases : P (announce m out id key (some ks) h) =
        if-intro P (length key == pub_key_size) (announced out r h)
          (reply out (refusal bad_public_key ∷ []) h)
          (λ sized. elim (authorize-cases m.now m.saves m.confirm (device_of id) key ks) [
            | inl yes_pinned ↦ inl (published r (ground (arith, sized)) yes_pinned)
            | inr not_pinned ↦ inr (unpublished r not_pinned)
          ])
          (λ bad. inr (ks, wired, λ asked. refl, inr (_, refl, refl))) in
      (refl, subst (λ o. P (announce m out id key o h)) (sym wired) cases)

  -- An announcement of the key that is pinned already is not quiet: no pin changes, and yet every
  -- connection of every device with a name gets the directory again.
  pub repeated_announce :
      h.keys ≡ some ks
      → device_of id ≢ ""
      → length key ≡ pub_key_size
      → pinned_key (device_of id) ks ≡ some key
      → handle_key_announce m out id key h ≡ (
        true,
        record h {
          server = write_all (route_targets_except "" h.server) (directory ks) h.server;
          keys = some ks;
        },
      )
  unfolding handle_key_announce broadcast_directory
  repeated_announce wired named sized pinned =
      let taken = authorize-pinned m.now m.saves m.confirm (device_of id) key ks named pinned in
      ap (λ o. (true, announce m out id key o h)) wired ∙ rw (taken, sized) refl
