-- ===== src/CtlSocket/Gaps.antt =====
-- What a batch of a subscriber says of the lines that it leaves out (internal/ctlsocket/server.go).
use walkie.Prelude.{
  ℕ, suc, zero, ◌+◌, ◌-◌, ◌≤◌, ◌≡◌, refl, sym, ap, ◌∙◌, true, false, List, [], ◌∷◌, ◌++◌,
  append_assoc, append-nil, leb, ltb, if◌then◌else◌, length, length-append, take as first_of, arith,
  Bool-cases, inl, inr,
}
use walkie.CtlSocket.Subscriber.{Line, gap, Subscriber, enqueue, take}

-- The lines of several publishers, one after another.
unfoldable pub enqueue_all : List Line → Subscriber → Subscriber
enqueue_all [] sub = sub
enqueue_all (line ∷ lines) sub = enqueue_all lines (enqueue line sub)

first_of_room :
    (n : ℕ) (line : Line) (lines : List Line)
    → ltb 0 n ≡ true
    → first_of n (line ∷ lines) ≡ line ∷ first_of (n - 1) lines
first_of_room zero line lines room = absurd (ground (arith, room))
first_of_room (suc n) line lines room = ap (λ k. line ∷ first_of k lines) (omega arith)

enqueue_full :
    (line : Line) (sub : Subscriber)
    → leb sub.queue_cap (length sub.queue) ≡ true
    → enqueue line sub ≡ record sub { dropped = sub.dropped + 1; sig = true }
unfolding enqueue
enqueue_full line sub full = rw full refl

enqueue_room :
    (line : Line) (sub : Subscriber)
    → leb sub.queue_cap (length sub.queue) ≡ false
    → enqueue line sub ≡ record sub { queue = sub.queue ++ line ∷ []; sig = true }
unfolding enqueue
enqueue_room line sub room = rw room refl

first_of_none : (n : ℕ) → first_of {A = Line} n [] ≡ []
first_of_none zero = refl
first_of_none (suc n) = refl

enqueue_all-queue :
    (lines : List Line) (sub : Subscriber)
    → length sub.queue ≤ sub.queue_cap
    → let s = enqueue_all lines sub in
      (s.queue ≡ sub.queue ++ first_of (sub.queue_cap - length sub.queue) lines)
      × (s.dropped ≡ sub.dropped + (length lines - (sub.queue_cap - length sub.queue)))
unfolding enqueue_all
enqueue_all-queue [] sub fits = (
  sym (append-nil sub.queue)
      ∙ ap (λ x. sub.queue ++ x) (sym (first_of_none (sub.queue_cap - length sub.queue))),
  omega arith,
)
enqueue_all-queue (line ∷ lines) sub fits =
    let n = sub.queue_cap - length sub.queue in
    elim (Bool-cases (leb sub.queue_cap (length sub.queue))) [
      | inl full ↦
          let rest =
            enqueue_all-queue lines (record sub { dropped = sub.dropped + 1; sig = true }) fits in
          let none_fit : n ≡ 0 = ground (arith, full) in
          (
            (ap (λ x. (enqueue_all lines x).queue) (enqueue_full line sub full)
                ∙ rest.0
                ∙ ap (λ k. sub.queue ++ first_of k lines) none_fit
                ∙ ap (λ k. sub.queue ++ first_of k (line ∷ lines)) (sym none_fit)),
            omega (
              arith,
              ap (λ x. (enqueue_all lines x).dropped) (enqueue_full line sub full),
              rest.1,
              none_fit,
            ),
          )
      | inr room ↦
          let grown = length-append sub.queue (line ∷ []) in
          let rest =
            enqueue_all-queue lines (record sub { queue = sub.queue ++ line ∷ []; sig = true })
              (ground (arith, grown, room)) in
          let one_fewer : sub.queue_cap - length (sub.queue ++ line ∷ []) ≡ n - 1 =
            omega (arith, grown) in
          (
            (ap (λ x. (enqueue_all lines x).queue) (enqueue_room line sub room)
                ∙ rest.0
                ∙ append_assoc sub.queue (line ∷ [])
                    (first_of (sub.queue_cap - length (sub.queue ++ line ∷ [])) lines)
                ∙ ap (λ k. sub.queue ++ line ∷ first_of k lines) one_fewer
                ∙ ap (λ x. sub.queue ++ x)
                    (sym (first_of_room n line lines (ground (arith, room))))),
            ground (
              arith,
              ap (λ x. (enqueue_all lines x).dropped) (enqueue_room line sub room),
              rest.1,
              one_fewer,
              room,
            ),
          )
    ]

first_of_all : (n : ℕ) (lines : List Line) → length lines ≤ n → first_of n lines ≡ lines
first_of_all zero [] h = refl
first_of_all zero (line ∷ lines) h = absurd (omega (arith, h))
first_of_all (suc n) [] h = refl
first_of_all (suc n) (line ∷ lines) h = ap (λ x. line ∷ x) (first_of_all n lines (omega (arith, h)))

-- What a subscriber whose queue is empty, with no drop to report, is given until the next take comes
-- out of that take as follows: all of it, where it fits the queue; otherwise the first `queue_cap`
-- lines, and before them a gap report, which counts the lines after them.
pub take-enqueue_all :
    (lines : List Line) (sub : Subscriber)
    → sub.queue ≡ []
    → sub.dropped ≡ 0
    → (take (enqueue_all lines sub)).0 ≡ (
        if ltb sub.queue_cap (length lines)
        then gap (length lines - sub.queue_cap) ∷ first_of sub.queue_cap lines
        else lines)
unfolding take
take-enqueue_all lines sub empty fresh =
    let n : length sub.queue ≡ 0 = ap length empty in
    let (queue, dropped) = enqueue_all-queue lines sub (omega (arith, n)) in
    let queue' : (enqueue_all lines sub).queue ≡ first_of sub.queue_cap lines =
      queue
      ∙ ap (λ x. x ++ first_of (sub.queue_cap - length x) lines) empty
      ∙ ap (λ k. first_of k lines) (omega arith) in
    let dropped' : (enqueue_all lines sub).dropped ≡ length lines - sub.queue_cap =
      omega (arith, dropped, fresh, n) in
    elim (Bool-cases (ltb sub.queue_cap (length lines))) [
      | inl over ↦ rw (queue', dropped', over) (ground (arith, over))
      | inr fits ↦
          rw (queue', dropped', fits) (ground (arith, fits, first_of_all sub.queue_cap lines))
    ]
