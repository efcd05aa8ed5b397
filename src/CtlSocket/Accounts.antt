-- ===== src/CtlSocket/Accounts.antt =====
-- Every line that is put to a subscriber is accounted for (internal/ctlsocket/server.go).
use walkie.Prelude.{
  ℕ, ◌+◌, ◌≤◌, ◌≡◌, refl, sym, ap, ◌∙◌, subst, false, not, List, [], ◌∷◌, ◌++◌, append_assoc,
  append-nil, leb, ltb, filter, filter-append, length, length-append, All, arith, Bool-cases, inl,
  inr,
}
use walkie.CtlSocket.Subscriber.{Line, gap, Subscriber, enqueue, take}
use walkie.CtlSocket.Stream.{Phase, flushing, delivering, over, Stream, put, is_gap}

-- The lines that are not gap reports.
abbrev pub events : List Line → List Line
events lines = filter (λ line. not (is_gap line)) lines

-- What the gap reports add up to.
abbrev pub reported : List Line → ℕ
reported [] = 0
reported (gap n ∷ lines) = n + reported lines
reported (_ ∷ lines) = reported lines

-- `kept` is `lines` with `n` of them left out.
pub data Thinned : List Line → List Line → ℕ → Type 0 where
  none_yet : Thinned [] [] 0
  keep :
      {lines kept : List Line} {n : ℕ}
      → Thinned lines kept n
      → (line : Line) → Thinned (lines ++ line ∷ []) (kept ++ line ∷ []) n
  leave_out :
      {lines kept : List Line} {n : ℕ}
      → Thinned lines kept n
      → (line : Line) → Thinned (lines ++ line ∷ []) kept (n + 1)

-- The lines that the writer has taken and not written.
abbrev pub in_hand : Phase → List Line
in_hand (flushing lines) = lines
in_hand (delivering lines) = lines
in_hand (over lines) = lines
in_hand _ = []

-- All that was taken from the queue.
abbrev pub taken : Stream → List Line
taken s = s.written ++ in_hand s.phase

events-append : (xs ys : List Line) → events (xs ++ ys) ≡ events xs ++ events ys
events-append xs ys = filter-append (λ line. not (is_gap line)) xs ys

reported-append : (xs ys : List Line) → reported (xs ++ ys) ≡ reported xs + reported ys
reported-append [] ys = omega arith
reported-append (gap n ∷ xs) ys = omega (arith, reported-append xs ys)
reported-append (_ ∷ xs) ys = reported-append xs ys

-- The accounts of a stream: what it was given is what was taken and what is queued, thinned by as
-- many lines as were reported or are still to be.
pub record IsBalanced (queue_cap : ℕ) (s : Stream) : Type 0 where
  pub thinned :
      Thinned s.published (events (taken s) ++ s.sub.queue) (reported (taken s) + s.sub.dropped)
  pub plain : All (λ line. is_gap line ≡ false) s.sub.queue
  pub fits : length s.sub.queue ≤ queue_cap
  pub cap : s.sub.queue_cap ≡ queue_cap

All-append :
    (xs : List Line) (line : Line)
    → All (λ l. is_gap l ≡ false) xs
    → is_gap line ≡ false
    → All (λ l. is_gap l ≡ false) (xs ++ line ∷ [])
All-append [] line h e = (e, tt)
All-append (x ∷ xs) line h e = (h.0, All-append xs line h.1 e)

pub events_plain : (xs : List Line) → All (λ l. is_gap l ≡ false) xs → events xs ≡ xs
events_plain [] h = refl
events_plain (x ∷ xs) h = rw h.0 (ap (◌∷◌ x) (events_plain xs h.1))

reported_plain : (xs : List Line) → All (λ l. is_gap l ≡ false) xs → reported xs ≡ 0
reported_plain [] h = refl
reported_plain (gap n ∷ xs) h = absurd (ground (arith, h.0))
reported_plain (_ ∷ xs) h = reported_plain xs h.1

pub put-IsBalanced :
    (queue_cap : ℕ) (line : Line) (s : Stream)
    → IsBalanced queue_cap s
    → is_gap line ≡ false
    → IsBalanced queue_cap (put line s)
unfolding enqueue
put-IsBalanced queue_cap line s b plain =
    elim (Bool-cases (leb s.sub.queue_cap (length s.sub.queue))) [
      | inl full ↦ record {
        thinned = rw full (
            subst (λ n. Thinned (s.published ++ line ∷ []) (events (taken s) ++ s.sub.queue) n)
              (omega arith) (leave_out b.thinned line));
        plain = rw full b.plain;
        fits = rw full b.fits;
        cap = b.cap;
      }
      | inr room ↦ record {
        thinned =
            rw (room, sym (append_assoc (events (taken s)) s.sub.queue (line ∷ [])))
              (keep b.thinned line);
        plain = rw room (All-append s.sub.queue line b.plain plain);
        fits = ground (arith, room, b.cap, length-append s.sub.queue (line ∷ []));
        cap = b.cap;
      }
    ]

-- A turn that only moves lines about among what was taken, or only the phase.
pub moved-IsBalanced :
    (queue_cap : ℕ) (s s' : Stream)
    → IsBalanced queue_cap s
    → s'.published ≡ s.published
    → taken s' ≡ taken s
    → s'.sub.queue ≡ s.sub.queue
    → s'.sub.dropped ≡ s.sub.dropped
    → s'.sub.queue_cap ≡ s.sub.queue_cap
    → IsBalanced queue_cap s'
moved-IsBalanced queue_cap s s' b published same queue dropped cap = record {
  thinned = rw (published, same, queue, dropped) b.thinned;
  plain = rw queue b.plain;
  fits = rw queue b.fits;
  cap = cap ∙ b.cap;
}

pub taken_batch :
    (sub : Subscriber)
    → All (λ line. is_gap line ≡ false) sub.queue
    → (events (take sub).0 ≡ sub.queue) × (reported (take sub).0 ≡ sub.dropped)
unfolding take
taken_batch sub plain =
    let e = events_plain sub.queue plain in
    let r = reported_plain sub.queue plain in
    elim (Bool-cases (ltb 0 sub.dropped)) [
      | inl some_dropped ↦ rw some_dropped (e, omega (arith, r))
      | inr none_dropped ↦ rw none_dropped (e, ground (arith, r, none_dropped))
    ]

-- A take by a writer that holds nothing.
pub take-IsBalanced :
    (queue_cap : ℕ) (s : Stream) (phase : Phase)
    → IsBalanced queue_cap s
    → in_hand s.phase ≡ []
    → in_hand phase ≡ (take s.sub).0
    → IsBalanced queue_cap (record s { sub = (take s.sub).1; phase = phase })
unfolding take
take-IsBalanced queue_cap s phase b empty holds =
    let (same_events, same_count) = taken_batch s.sub b.plain in
    let written : taken s ≡ s.written = ap (λ x. s.written ++ x) empty ∙ append-nil s.written in
    let counts : reported (s.written ++ in_hand phase) + 0 ≡ reported (taken s) + s.sub.dropped =
      omega (
        arith,
        ap (λ x. reported (s.written ++ x)) holds,
        reported-append s.written (take s.sub).0,
        same_count,
        ap reported written,
      ) in
    let lines : events (s.written ++ in_hand phase) ++ [] ≡ events (taken s) ++ s.sub.queue =
      append-nil (events (s.written ++ in_hand phase))
      ∙ ap (λ x. events (s.written ++ x)) holds
      ∙ events-append s.written (take s.sub).0
      ∙ ap (λ x. events s.written ++ x) same_events
      ∙ ap (λ x. events x ++ s.sub.queue) (sym written) in
    record { thinned = rw (lines, counts) b.thinned; plain = tt; fits = omega arith; cap = b.cap }
