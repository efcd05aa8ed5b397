-- ===== src/Keystore/Authorize.antt =====
-- What Authorize does to the pins (internal/crypto/keystore.go).
use walkie.Prelude.{
  subst, some_eq, ◌≢◌, ℕ, ◌≡◌, refl, ap, ◌∙◌, String, Bool, true, false, Option, none, some, [],
  ◌∷◌, arith, if-intro, str_eq, eq_iff, eq_refl, lookup, insert, lookup-insert, lookup-erase,
  Bool-cases, ◌⊎◌, inl, inr,
}
use walkie.Wire.{Bytes}
use walkie.Keystore.Pins.{
  Keystore, PinRecord, AuthorizeError, no_peer, not_persisted, key_changed, same_bytes, pin,
  confirms, against, authorize, key_of, pinned_key,
}

same_bytes-eq : (xs ys : Bytes) → same_bytes xs ys ≡ true → xs ≡ ys
same_bytes-eq [] [] e = refl
same_bytes-eq [] (y ∷ ys) e = absurd (ground (arith, e))
same_bytes-eq (x ∷ xs) [] e = absurd (ground (arith, e))
same_bytes-eq (x ∷ xs) (y ∷ ys) e = ground (arith, e, same_bytes-eq xs ys)

pub same_bytes_refl : (xs : Bytes) → same_bytes xs xs ≡ true
same_bytes_refl [] = refl
same_bytes_refl (x ∷ xs) = ground (arith, same_bytes_refl xs)

module _ (now : ℕ) (saves : Bool) (confirm : Option (String → Bytes → Bytes → Bool)) (peer : String)
    (presented : Bytes) (ks : Keystore) where
  -- Success: the peer is pinned to the key it presented, and it had no pin, or that key, or another that the
  -- operator confirmed giving up.
  abbrev pub IsAuthorized : Option AuthorizeError × Keystore → Type 0
  IsAuthorized r =
      (r.0 ≡ none)
      × (pinned_key peer r.1 ≡ some presented)
      × ((pinned_key peer ks ≡ none)
          ⊎ (pinned_key peer ks ≡ some presented)
          ⊎ ((pinned : Bytes) × (pinned_key peer ks ≡ some pinned)
              × (confirms confirm peer pinned presented ≡ true)))

  -- An error: no pin of any peer has changed, in memory or in the file.
  abbrev pub IsUnauthorized : Option AuthorizeError × Keystore → Type 0
  IsUnauthorized r =
      (e : AuthorizeError) × (r.0 ≡ some e)
      × ((asked : String) → lookup asked r.1.peers ≡ lookup asked ks.peers)
      × (r.1.file ≡ ks.file)

  undone :
      (asked : String)
      → lookup peer ks.peers ≡ none
      → saves ≡ false
      → lookup asked (pin now saves peer presented ks).1.peers ≡ lookup asked ks.peers
  undone asked new lost = ground (
    arith,
    lookup-erase peer asked
        (insert peer (record { key = presented; pinned_at = now; confirmed_at = none }) ks.peers),
    lookup-insert peer asked (record { key = presented; pinned_at = now; confirmed_at = none })
        ks.peers,
    eq_iff peer asked,
  )

  reverted :
      (asked : String) (existing : PinRecord)
      → lookup peer ks.peers ≡ some existing
      → lookup asked (
          insert peer existing (
            insert peer
              (record { key = presented; pinned_at = existing.pinned_at; confirmed_at = some now })
              ks.peers))
        ≡ lookup asked ks.peers
  reverted asked existing old = ground (
    arith,
    lookup-insert peer asked existing (
        insert peer
          (record { key = presented; pinned_at = existing.pinned_at; confirmed_at = some now })
          ks.peers),
    lookup-insert peer asked
        (record { key = presented; pinned_at = existing.pinned_at; confirmed_at = some now })
        ks.peers,
    eq_iff peer asked,
  )

  against-cases :
      (o : Option PinRecord)
      → lookup peer ks.peers ≡ o
      → (let r = against now saves confirm peer presented o ks in IsAuthorized r ⊎ IsUnauthorized r)
  unfolding pinned_key
  against-cases none new = elim (Bool-cases saves) [
    | inl kept ↦ inl (
      ground arith,
      ground (
        arith,
        lookup-insert peer peer (record { key = presented; pinned_at = now; confirmed_at = none })
            ks.peers,
        eq_refl peer,
      ),
      inl (ap key_of new),
    )
    | inr lost ↦ inr (not_persisted, ground arith, λ asked. undone asked new lost, ground arith)
  ]
  against-cases (some existing) old = elim (Bool-cases (same_bytes existing.key presented)) [
    | inl same ↦
        let there : pinned_key peer ks ≡ some presented =
          ap key_of old ∙ ap some (same_bytes-eq existing.key presented same) in
        inl (ground arith, ground (arith, there), inr (inl there))
    | inr other ↦ elim (Bool-cases (confirms confirm peer existing.key presented)) [
      | inr refused ↦
          inr
            (key_changed existing.key presented, ground arith, λ asked. ground arith, ground arith)
      | inl agreed ↦ elim (Bool-cases saves) [
        | inl kept ↦ inl (
          ground arith,
          ground (
            arith,
            lookup-insert peer peer
                (record {
                  key = presented;
                  pinned_at = existing.pinned_at;
                  confirmed_at = some now;
                })
                ks.peers,
            eq_refl peer,
          ),
          inr (inr (existing.key, ap key_of old, agreed)),
        )
        | inr lost ↦ inr (
          not_persisted,
          ground arith,
          λ asked. ground (arith, reverted asked existing old),
          ground arith,
        )
      ]
    ]
  ]

  -- Authorize in all its branches: with no error the peer is pinned to the presented key, and its
  -- earlier pin was none, the same, or one whose change the operator confirmed; with an error,
  -- a failed save among them, every pin in memory and the file in place are as they were.
  pub authorize-cases :
      (let r = authorize now saves confirm peer presented ks in IsAuthorized r ⊎ IsUnauthorized r)
  unfolding authorize
  authorize-cases =
      if-intro (λ r. IsAuthorized r ⊎ IsUnauthorized r) (str_eq peer "") _ _
        (λ h. inr (no_peer, refl, λ asked. refl, refl))
        (λ h. against-cases (lookup peer ks.peers) refl)

  against-pinned :
      (o : Option PinRecord)
      → key_of o ≡ some presented
      → against now saves confirm peer presented o ks ≡ (none, ks)
  against-pinned none e = absurd (ground (arith, e))
  against-pinned (some rec) e =
      let same = subst (λ k. same_bytes rec.key k ≡ true) (some_eq e) (same_bytes_refl rec.key) in
      rw same refl

  -- The key that is pinned already: no error, and nothing is written.
  pub authorize-pinned :
      peer ≢ ""
      → pinned_key peer ks ≡ some presented
      → authorize now saves confirm peer presented ks ≡ (none, ks)
  unfolding authorize pinned_key
  authorize-pinned named pinned = elim (Bool-cases (str_eq peer "")) [
    | inl empty ↦ absurd (named ((eq_iff peer "").0 empty))
    | inr other ↦ rw other (against-pinned (lookup peer ks.peers) pinned)
  ]
