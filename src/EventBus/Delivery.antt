-- ===== src/EventBus/Delivery.antt =====
-- What becomes of a sequence of events: the rows that are written, and the queue.
use agent_server_platform.Base.{
  ℕ, zero, suc, ◌≤◌, ◌≡◌, refl, sym, ap, ◌∙◌, List, [], ◌∷◌, ◌++◌, arith, ltb, length,
  length-append, take, Bool-cases, inl, inr,
}
use mathlib.Core.List.{append-nil, append_assoc}
use agent_server_platform.EventBus.{
  Event, EventBus, maxsize, put, Persistence, written, disabled, raises, persist, send,
}

-- Events that are sent one after the other, with no round of the thread between them.
unfoldable pub send_all : List (Persistence × Event) → EventBus → EventBus
unfolding send
send_all [] bus = bus
send_all ((persistence, event) ∷ es) bus = send_all es (send persistence event bus)

-- The events that are written.
unfoldable pub written_events : List (Persistence × Event) → List Event
unfolding persist
written_events [] = []
written_events ((persistence, event) ∷ es) = persist persistence event [] ++ written_events es

unfoldable pub events_of : List (Persistence × Event) → List Event
events_of [] = []
events_of ((persistence, event) ∷ es) = event ∷ events_of es

persist-append :
    (p : Persistence) (e : Event) (rows : List Event) → persist p e rows ≡ rows ++ persist p e []
unfolding persist
persist-append written e rows = refl
persist-append disabled e rows = sym (append-nil rows)
persist-append raises e rows = sym (append-nil rows)

take_all : (n : ℕ) (q : List Event) → length q ≤ n → take n q ≡ q
take_all zero [] h = refl
take_all zero (e ∷ q) h = absurd (omega (arith, h))
take_all (suc n) [] h = refl
take_all (suc n) (e ∷ q) h = ap (◌∷◌ e) (take_all n q (omega (arith, h)))

take_full : (n : ℕ) (q ys : List Event) → length q ≡ n → take n (q ++ ys) ≡ q
take_full zero [] ys h = refl
take_full zero (e ∷ q) ys h = absurd (omega (arith, h))
take_full (suc n) [] ys h = absurd (omega (arith, h))
take_full (suc n) (e ∷ q) ys h = ap (◌∷◌ e) (take_full n q ys (omega (arith, h)))

-- One event and what comes after it, in the queue.
take-put :
    (e : Event) (q es : List Event)
    → length q ≤ maxsize
    → (length (put e q) ≤ maxsize) × (take maxsize (put e q ++ es) ≡ take maxsize (q ++ e ∷ es))
unfolding put
take-put e q es h = elim (Bool-cases (ltb (length q) maxsize)) [
  | inl room ↦ rw room (
    ground (arith, room, length-append q (e ∷ [])),
    ap (take maxsize) (append_assoc q (e ∷ []) es),
  )
  | inr full ↦
      let size : length q ≡ maxsize = ground (arith, full) in
      rw full (h, take_full maxsize q es size ∙ sym (take_full maxsize q (e ∷ es) size))
]

-- From a queue within its bound, the rows get every event that is written, in order, and the queue the
-- events up to its bound: an event that no longer fits is dropped there, and has its row all the same.
pub send_all-rows :
    (es : List (Persistence × Event)) (bus : EventBus)
    → length bus.event_queue ≤ maxsize
    → ((send_all es bus).rows ≡ bus.rows ++ written_events es)
      × ((send_all es bus).event_queue ≡ take maxsize (bus.event_queue ++ events_of es))
unfolding send_all written_events events_of send
send_all-rows [] bus h = (
  sym (append-nil bus.rows),
  sym (ap (take maxsize) (append-nil bus.event_queue) ∙ take_all maxsize bus.event_queue h),
)
send_all-rows ((p, e) ∷ es) bus h =
    let one = take-put e bus.event_queue (events_of es) h in
    let rest = send_all-rows es (send p e bus) one.0 in
    (
      rest.0
          ∙ ap (λ r. r ++ written_events es) (persist-append p e bus.rows)
          ∙ append_assoc bus.rows (persist p e []) (written_events es),
      rest.1 ∙ one.1,
    )
