-- ===== src/Audit/Flushed.antt =====
-- Which audit events are written (common/audit/audit.go).
use mathlib.Core.List
use my_go_market.Prelude.{
  ℕ, zero, suc, true, false, List, [], ◌∷◌, ◌++◌, ◌≡◌, refl, ltb, leb, length, inl, inr, ap, sym,
  subst, ◌∙◌, All, Bool-cases, ◌⊎◌,
}
use my_go_market.Audit.Writer.{
  Event, Writer, Flush, ch_size, batch_size, start, emit, shutdown, flush, take_event, receive,
  tick, Action, to_emit, to_receive, to_tick, to_shutdown, step, run,
}
use my_go_market.Audit.Known.{events_of, accepted, IsStored, known, run-known}

-- The goroutine returns only when the writer is closed and nothing is left.
abbrev IsDrained : Writer → Type 0
IsDrained w =
    (w.done ≡ false) ⊎ ((w.done ≡ true) × (w.closed ≡ true) × (w.ch ≡ []) × (w.batch ≡ []))

still-IsDrained : (w : Writer) → w.done ≡ false → IsDrained w
still-IsDrained w still = inl still

emit-IsDrained : (e : Event) (w : Writer) → IsDrained w → IsDrained (emit e w)
unfolding emit
emit-IsDrained e w (inl still) = elim (Bool-cases w.closed) [
  | inl ended ↦ simp (ended) (inl still)
  | inr running ↦ elim (Bool-cases (ltb (length w.ch) ch_size)) [
    | inl room ↦ simp (running, room) (inl still)
    | inr full ↦ simp (running, full) (inl still)
  ]
]
emit-IsDrained e w (inr (over, ended, empty, flushed)) =
    simp (ended) (inr (over, refl, empty, flushed))

take_event-IsDrained :
    (f : Flush) (ch : List Event) (w : Writer)
    → w.done ≡ false
    → w.ch ≡ ch
    → IsDrained (take_event f ch w)
unfolding take_event flush
take_event-IsDrained f [] w still here = elim (Bool-cases w.closed) [
  | inl ended ↦ simp (ended) (inr (refl, refl, here, refl))
  | inr waiting ↦ simp (waiting) (inl still)
]
take_event-IsDrained f (e ∷ es) w still here =
    elim (Bool-cases (leb batch_size (length (w.batch ++ (e ∷ []))))) [
      | inl full ↦ simp (full) (inl still)
      | inr room ↦ simp (room) (inl still)
    ]

step-IsDrained : (a : Action) (w : Writer) → IsDrained w → IsDrained (step a w)
unfolding step shutdown receive tick flush
step-IsDrained (to_emit e) w dry = emit-IsDrained e w dry
step-IsDrained (to_receive f) w (inl still) =
    simp (still) (take_event-IsDrained f w.ch w still refl)
step-IsDrained (to_receive f) w (inr (over, ended, empty, flushed)) =
    simp (over) (inr (refl, ended, empty, flushed))
step-IsDrained (to_tick f) w (inl still) = simp (still) (inl refl)
step-IsDrained (to_tick f) w (inr (over, ended, empty, flushed)) =
    simp (over) (inr (refl, ended, empty, flushed))
step-IsDrained to_shutdown w (inl still) = inl still
step-IsDrained to_shutdown w (inr (over, ended, empty, flushed)) = inr (over, refl, empty, flushed)

run-IsDrained : (acts : List Action) (w : Writer) → IsDrained w → IsDrained (run acts w)
unfolding run
run-IsDrained [] w dry = dry
run-IsDrained (a ∷ acts) w dry = run-IsDrained acts (step a w) (step-IsDrained a w dry)

-- The goroutine's next turns.
unfoldable pub receives : ℕ → Flush → List Action
receives zero f = []
receives (suc n) f = to_receive f ∷ receives n f

receives-IsStored : (n : ℕ) (f : Flush) → f.database ≡ true → All IsStored (receives n f)
unfolding receives
receives-IsStored zero f up = tt
receives-IsStored (suc n) f up = (up, receives-IsStored n f up)

receives-none : (n : ℕ) (f : Flush) (w : Writer) → accepted (receives n f) w ≡ []
unfolding receives accepted
receives-none zero f w = refl
receives-none (suc n) f w = receives-none n f (step (to_receive f) w)

receive_over : (f : Flush) (w : Writer) → w.done ≡ true → receive f w ≡ w
unfolding receive
receive_over f w over = simp (over) refl

receive_on : (f : Flush) (w : Writer) → w.done ≡ false → receive f w ≡ take_event f w.ch w
unfolding receive
receive_on f w running = simp (running) refl

IsOver : ℕ → Flush → Writer → Type 0
IsOver n f w = (run (receives n f) w).done ≡ true

stays_done : (n : ℕ) (f : Flush) (w : Writer) → w.done ≡ true → IsOver n f w
unfolding receives run step IsOver
stays_done zero f w over = over
stays_done (suc n) f w over =
    subst (IsOver n f) (sym (receive_over f w over)) (stays_done n f w over)

-- A turn of a closed writer takes an event, or ends it.
turn :
    (f : Flush) (e : Event) (es : List Event) (w : Writer)
    → w.closed ≡ true
    → let w' = take_event f (e ∷ es) w in (w'.closed ≡ true) × (w'.ch ≡ es) × (w'.done ≡ w.done)
unfolding take_event flush
turn f e es w ended = elim (Bool-cases (leb batch_size (length (w.batch ++ (e ∷ []))))) [
  | inl full ↦ simp (full) (ended, refl, refl)
  | inr room ↦ simp (room) (ended, refl, refl)
]

ends : (f : Flush) (w : Writer) → w.closed ≡ true → IsOver 0 f (take_event f [] w)
unfolding receives run take_event IsOver
ends f w ended = simp (ended) refl

drains :
    (f : Flush) (ch : List Event) (w : Writer)
    → w.closed ≡ true
    → w.done ≡ false
    → w.ch ≡ ch
    → IsOver (suc (length ch)) f w
unfolding receives run step IsOver
drains f [] w ended running here =
    subst (IsOver 0 f) (sym (receive_on f w running ∙ ap (λ es. take_event f es w) here))
      (ends f w ended)
drains f (e ∷ es) w ended running here =
    let (ended', rest, same) = turn f e es w ended in
    subst (IsOver (suc (length es)) f)
      (sym (receive_on f w running ∙ ap (λ ch. take_event f ch w) here))
      (drains f es (take_event f (e ∷ es) w) ended' (same ∙ running) rest)

run-append : (acts more : List Action) (w : Writer) → run (acts ++ more) w ≡ run more (run acts w)
unfolding run
run-append [] more w = refl
run-append (a ∷ acts) more w = run-append acts more (step a w)

-- All the actions after a shutdown, until the goroutine has returned.
abbrev pub closing : Writer → Flush → List Action
closing w f = to_shutdown ∷ receives (suc (length w.ch)) f

closing-IsOver : (f : Flush) (w : Writer) → (run (closing w f) w).done ≡ true
unfolding run step shutdown IsOver
closing-IsOver f w = elim (Bool-cases w.done) [
  | inl over ↦ stays_done (suc (length w.ch)) f (shutdown w) over
  | inr running ↦ drains f w.ch (shutdown w) refl running refl
]

written : (w : Writer) → IsDrained w → w.done ≡ true → events_of w.table ≡ known w
written w (inl still) over = cc
written w (inr (_, _, empty, flushed)) over =
    rw (empty, flushed) (sym (List.append-nil (events_of w.table)))

-- Run the writer by any actions whose flushes the database all takes: emits, turns of the goroutine and
-- ticks, also shutdowns. Shut it down then, and let the goroutine go on as many turns as its channel
-- has events, and one more, with the database up. Then the goroutine has returned, so the wait of
-- `Shutdown` ends, and the table has every event that `Emit` put into the channel, each once, in the
-- order of the emits, and no other.
pub shutdown_writes_accepted :
    (acts : List Action) (f : Flush)
    → All IsStored acts
    → f.database ≡ true
    → let w = run acts start in
      let w' = run (closing w f) w in (w'.done ≡ true) × (events_of w'.table ≡ accepted acts start)
unfolding events_of accepted step
shutdown_writes_accepted acts f stored up =
    let w = run acts start in
    let w' = run (closing w f) w in
    let over : w'.done ≡ true = closing-IsOver f w in
    let dry : IsDrained w' = run-IsDrained (closing w f) w (run-IsDrained acts start (inl refl)) in
    let rest : accepted (closing w f) w ≡ [] = receives-none (suc (length w.ch)) f (shutdown w) in
    (
      over,
      written w' dry over
          ∙ run-known (closing w f) w (tt, receives-IsStored (suc (length w.ch)) f up)
          ∙ ap (λ (zs : List Event). known w ++ zs) rest
          ∙ List.append-nil (known w)
          ∙ run-known acts start stored,
    )
