-- ===== src/Client/Roster.antt =====
-- What updates do to the client's view (internal/presenceview/view.go).
use walkie.Prelude.{
  ◌≡◌, refl, ap, sym, ◌∙◌, String, Bool, false, some, List, [], ◌∷◌, arith, if◌then◌else◌, str_eq,
  eq_iff, eq_refl, lookup, insert, lookup-insert, Bool-cases, inl, inr,
}
use walkie.Wire.{PresenceUpdate, PresenceState, unspecified, online, offline}
use walkie.Keystore.Authorize.{same_bytes_refl}
use walkie.Client.View.{Entry, View, or_zero, with_state, updated, differs, notify, apply}

insert_again :
    (key : String) (e : Entry) (m : List (String × Entry))
    → insert key e (insert key e m) ≡ insert key e m
unfolding insert
insert_again key e [] = ground (arith, eq_refl key)
insert_again key e ((name, old) ∷ m) =
    ground (arith, eq_refl key, insert_again key e m, eq_iff name key)

lookup_put :
    (key : String) (e : Entry) (m : List (String × Entry)) → lookup key (insert key e m) ≡ some e
lookup_put key e m = ground (arith, lookup-insert key key e m, eq_refl key)

settled :
    (pu : PresenceUpdate) (st : PresenceState) (e : Entry)
    → (let e' = with_state pu st (record e { status = pu.status }) in
        with_state pu st (record e' { status = pu.status }) ≡ e')
settled pu unspecified e = refl
settled pu online e = refl
settled pu offline e = ground arith

same_entry : (e : Entry) → differs (some e) e ≡ false
same_entry e = ground (arith, same_bytes_refl e.status)

module _ (pu : PresenceUpdate) (v : View) where
  abbrev applied : View
  applied = record {
    entries = insert pu.device (updated pu v) v.entries;
    subs =
        if differs (lookup pu.device v.entries) (updated pu v)
        then notify (record { device = pu.device; entry = updated pu v }) v.subs
        else v.subs;
  }

  named_apply :
      (w : View)
      → str_eq pu.device "" ≡ false
      → apply pu w ≡ record {
        entries = insert pu.device (updated pu w) w.entries;
        subs =
            if differs (lookup pu.device w.entries) (updated pu w)
            then notify (record { device = pu.device; entry = updated pu w }) w.subs
            else w.subs;
      }
  unfolding apply
  named_apply w named = rw named refl

  updated_again : updated pu applied ≡ updated pu v
  updated_again =
      ap (λ o. with_state pu pu.state (record (or_zero o) { status = pu.status }))
        (lookup_put pu.device (updated pu v) v.entries)
      ∙ settled pu pu.state (or_zero (lookup pu.device v.entries))

  unchanged_again : differs (lookup pu.device applied.entries) (updated pu applied) ≡ false
  unchanged_again =
      ap (λ o. differs o (updated pu applied)) (lookup_put pu.device (updated pu v) v.entries)
      ∙ ap (differs (some (updated pu v))) updated_again
      ∙ same_entry (updated pu v)

  -- An update may come twice: applied again right after, it changes no entry, and no subscriber
  -- hears of it.
  pub apply_idempotent : apply pu (apply pu v) ≡ apply pu v
  unfolding apply
  apply_idempotent = elim (Bool-cases (str_eq pu.device "")) [
    | inl nameless ↦ rw nameless refl
    | inr named ↦
        ap (apply pu) (named_apply v named)
        ∙ named_apply applied named
        ∙ settles (updated pu applied)
            (differs (lookup pu.device applied.entries) (updated pu applied)) updated_again
            unchanged_again
        ∙ sym (named_apply v named)
  ]
    where
      settles :
          (e : Entry) (b : Bool)
          → e ≡ updated pu v
          → b ≡ false
          → record {
            entries = insert pu.device e applied.entries;
            subs =
                if b
                then notify (record { device = pu.device; entry = e }) applied.subs
                else applied.subs;
          }
            ≡ applied
      settles e b same quiet =
          rw (quiet, same, insert_again pu.device (updated pu v) v.entries) refl
