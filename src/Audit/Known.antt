-- ===== src/Audit/Known.antt =====
-- The audit events on their way to the table (common/audit/audit.go).
use mathlib.Core.List
use my_go_market.Prelude.{
  ℕ, suc, true, List, [], ◌∷◌, ◌++◌, ◌≡◌, refl, if◌then◌else◌, ltb, leb, length, inl, inr, ap, sym,
  ◌∙◌, All, Bool-cases,
}
use my_go_market.Audit.Export.{EventRow}
use my_go_market.Audit.Writer.{
  Event, Writer, Flush, ch_size, batch_size, emit, shutdown, rows_of, flush, take_event, receive,
  tick, Action, to_emit, to_receive, to_tick, to_shutdown, step, run,
}

-- The event of a row.
abbrev event_of : EventRow → Event
event_of r = record {
  event_type = r.event_type;
  trace_id = r.trace_id;
  actor_id = r.actor_id;
  resource = r.resource;
  metadata = r.metadata;
  error = r.error;
}

unfoldable pub events_of : List EventRow → List Event
events_of [] = []
events_of (r ∷ rs) = event_of r ∷ events_of rs

-- The events that `Emit` puts into the channel, of some actions.
abbrev pub taken_in : Action → Writer → List Event
taken_in (to_emit e) w = if w.closed then [] else if ltb (length w.ch) ch_size then e ∷ [] else []
taken_in (to_receive f) w = []
taken_in (to_tick f) w = []
taken_in to_shutdown w = []

unfoldable pub accepted : List Action → Writer → List Event
accepted [] w = []
accepted (a ∷ acts) w = taken_in a w ++ accepted acts (step a w)

-- The database takes what a step writes.
abbrev pub IsStored : Action → Type 0
IsStored (to_emit e) = Unit
IsStored (to_receive f) = f.database ≡ true
IsStored (to_tick f) = f.database ≡ true
IsStored to_shutdown = Unit

-- The events on their way: written, in the batch, and in the channel.
abbrev pub known : Writer → List Event
known w = events_of w.table ++ (w.batch ++ w.ch)

events_of-append : (xs ys : List EventRow) → events_of (xs ++ ys) ≡ events_of xs ++ events_of ys
unfolding events_of
events_of-append [] ys = refl
events_of-append (x ∷ xs) ys = ap (λ (zs : List Event). event_of x ∷ zs) (events_of-append xs ys)

events_of-rows_of : (n : ℕ) (f : Flush) (es : List Event) → events_of (rows_of n f es) ≡ es
unfolding events_of rows_of
events_of-rows_of n f [] = refl
events_of-rows_of n f (e ∷ es) = ap (λ (zs : List Event). e ∷ zs) (events_of-rows_of (suc n) f es)

flush-known : (f : Flush) (w : Writer) → f.database ≡ true → known (flush f w) ≡ known w
unfolding flush
flush-known f w up = rw up (simp (events_of-append, events_of-rows_of, List.append_assoc) refl)

take_event-known :
    (f : Flush) (ch : List Event) (w : Writer)
    → f.database ≡ true
    → w.ch ≡ ch
    → known (take_event f ch w) ≡ known w
unfolding take_event flush
take_event-known f [] w up here = elim (Bool-cases w.closed) [
  | inl ended ↦ rw (ended, take_event) (flush-known f w up)
  | inr waiting ↦ rw (waiting, take_event) refl
]
take_event-known f (e ∷ es) w up here =
    let next : Writer = record w { ch = es; batch = w.batch ++ (e ∷ []) } in
    let same : known next ≡ known w =
      ap (λ (zs : List Event). events_of w.table ++ zs)
        (List.append_assoc w.batch (e ∷ []) es
          ∙ ap (λ (zs : List Event). w.batch ++ zs) (sym here)) in
    elim (Bool-cases (leb batch_size (length next.batch))) [
      | inl full ↦ rw (full, take_event) (flush-known f next up ∙ same)
      | inr room ↦ rw (room, take_event) same
    ]

emit-known : (e : Event) (w : Writer) → known (emit e w) ≡ known w ++ taken_in (to_emit e) w
unfolding emit
emit-known e w = elim (Bool-cases w.closed) [
  | inl ended ↦ rw (ended, emit) (sym (List.append-nil (known w)))
  | inr running ↦ elim (Bool-cases (ltb (length w.ch) ch_size)) [
    | inr full ↦ rw (running, full, emit) (sym (List.append-nil (known w)))
    | inl room ↦ rw (running, room, emit) (simp (List.append_assoc) refl)
  ]
]

receive-known : (f : Flush) (w : Writer) → f.database ≡ true → known (receive f w) ≡ known w
unfolding receive
receive-known f w up = elim (Bool-cases w.done) [
  | inl over ↦ rw (over, receive) refl
  | inr running ↦ simp (running) (take_event-known f w.ch w up refl)
]

tick-known : (f : Flush) (w : Writer) → f.database ≡ true → known (tick f w) ≡ known w
unfolding tick flush
tick-known f w up = elim (Bool-cases w.done) [
  | inl over ↦ rw (over, tick) refl
  | inr running ↦ rw (running, tick) (flush-known f w up)
]

step-known : (a : Action) (w : Writer) → IsStored a → known (step a w) ≡ known w ++ taken_in a w
unfolding step shutdown
step-known (to_emit e) w up = emit-known e w
step-known (to_receive f) w up = receive-known f w up ∙ sym (List.append-nil (known w))
step-known (to_tick f) w up = tick-known f w up ∙ sym (List.append-nil (known w))
step-known to_shutdown w up = sym (List.append-nil (known w))

pub run-known :
    (acts : List Action) (w : Writer)
    → All IsStored acts
    → known (run acts w) ≡ known w ++ accepted acts w
unfolding run accepted
run-known [] w ups = sym (List.append-nil (known w))
run-known (a ∷ acts) w (up, ups) =
    run-known acts (step a w) ups
    ∙ ap (λ (zs : List Event). zs ++ accepted acts (step a w)) (step-known a w up)
    ∙ List.append_assoc (known w) (taken_in a w) (accepted acts (step a w))
