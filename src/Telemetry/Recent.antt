-- ===== src/Telemetry/Recent.antt =====
-- The ring of events is the list of the last ones.
use pali.Common.{
  ℕ, ℤ, zero, suc, ◌-◌, ◌≤◌, ◌<◌, ◌≡◌, refl, sym, ap, ◌∙◌, List, [], ◌∷◌, if◌then◌else◌, ltb,
  length, take, get_or, replicate, length-replicate, positive_or, positive_or_pos, arith, inl, inr,
  Bool-cases,
}
use pali.Clock.{Time}
use pali.Telemetry.{
  Event, zero_event, Telemetry, new_telemetry, stamped, append_event, events_from, recent_events,
}
use pali.Telemetry.Slots.{held, IsRing, append_event-IsRing, slot, shifted}

take-events_from_short :
    (k n i : ℕ) (s : Telemetry) → k ≤ n → take k (events_from n i s) ≡ events_from k i s
unfolding events_from
take-events_from_short zero n i s h = refl
take-events_from_short (suc k) zero i s h = absurd (omega arith)
take-events_from_short (suc k) (suc n) i s h =
    ap (λ r. get_or zero_event s.events (slot s.event_head (length s.events) i) ∷ r)
      (take-events_from_short k n (suc i) s (omega arith))

take-events_from_long :
    (k n i : ℕ) (s : Telemetry) → n ≤ k → take k (events_from n i s) ≡ events_from n i s
unfolding events_from
take-events_from_long zero zero i s h = refl
take-events_from_long zero (suc n) i s h = absurd (omega arith)
take-events_from_long (suc k) zero i s h = refl
take-events_from_long (suc k) (suc n) i s h =
    ap (λ r. get_or zero_event s.events (slot s.event_head (length s.events) i) ∷ r)
      (take-events_from_long k n (suc i) s (omega arith))

event_size-append_event :
    (clock : Time) (e : Event) (s : Telemetry)
    → IsRing s
    → (append_event clock e s).event_size
      ≡ (if ltb s.event_size (length s.events) then suc s.event_size else s.event_size)
unfolding append_event
event_size-append_event clock e s r = ground (arith, r.filled)

-- One more event stands first, and what does not fit any more goes.
held-append_event :
    (clock : Time) (e : Event) (s : Telemetry) (n : ℕ)
    → IsRing s
    → length s.events ≡ suc n
    → held (append_event clock e s) ≡ stamped clock e ∷ take n (held s)
unfolding held
held-append_event clock e s n r l = elim (Bool-cases (ltb s.event_size (length s.events))) [
  | inl h ↦
      sized (event_size-append_event clock e s r ∙ rw h refl)
      ∙ shifted clock e s s.event_size r (ground arith)
      ∙ ap (λ t. stamped clock e ∷ t)
          (sym (take-events_from_long n s.event_size 0 s (ground arith)))
  | inr h ↦
      let full : s.event_size ≡ suc n = ground (arith, r.size) in
      sized (event_size-append_event clock e s r ∙ rw h full)
      ∙ shifted clock e s n r (omega arith)
      ∙ ap (λ t. stamped clock e ∷ t)
          (sym (
            ap (λ k. take n (events_from k 0 s)) full
            ∙ take-events_from_short n (suc n) 0 s (omega arith)))
]
  where
    sized :
        {k : ℕ}
        → (append_event clock e s).event_size ≡ k
        → held (append_event clock e s) ≡ events_from k 0 (append_event clock e s)
    sized q = ap (λ m. events_from m 0 (append_event clock e s)) q

-- The state after these events, the first one first, each with the clock's time.
unfoldable pub appended : List (Time × Event) → Telemetry → Telemetry
appended [] s = s
appended (e ∷ es) s = appended es (append_event e.0 e.1 s)

-- The events, the last one first, before those of a list.
unfoldable pub newest_first : List (Time × Event) → List Event → List Event
newest_first [] older = older
newest_first (e ∷ es) older = newest_first es (stamped e.0 e.1 ∷ older)

take-take-cons :
    (n : ℕ) (e : Event) (es : List Event)
    → take (suc n) (e ∷ take (suc n) es) ≡ take (suc n) (e ∷ es)
take-take-cons n e es = ap (λ t. e ∷ t) (shorter n es)
  where
    shorter : (n : ℕ) (es : List Event) → take n (take (suc n) es) ≡ take n es
    shorter zero es = refl
    shorter (suc n) [] = refl
    shorter (suc n) (x ∷ xs) = ap (λ t. x ∷ t) (shorter n xs)

held-appended :
    (es : List (Time × Event)) (older : List Event) (s : Telemetry) (n : ℕ)
    → IsRing s
    → length s.events ≡ suc n
    → held s ≡ take (suc n) older
    → held (appended es s) ≡ take (suc n) (newest_first es older)
unfolding appended newest_first
held-appended [] older s n r l h = h
held-appended (e ∷ es) older s n r l h =
    let kept = append_event-IsRing e.0 e.1 s r in
    held-appended es (stamped e.0 e.1 ∷ older) (append_event e.0 e.1 s) n kept.0 (kept.1 ∙ l) (
      held-append_event e.0 e.1 s n r l
      ∙ ap (λ t. stamped e.0 e.1 ∷ take n t) h
      ∙ take-take-cons n (stamped e.0 e.1) older)

recent_events-held :
    (limit : ℤ) (s : Telemetry) → recent_events limit s ≡ take (positive_or limit 20) (held s)
unfolding recent_events held
recent_events-held limit s = elim (Bool-cases (ltb s.event_size (positive_or limit 20))) [
  | inl e ↦
      rw e (sym (take-events_from_long (positive_or limit 20) s.event_size 0 s (ground arith)))
  | inr e ↦
      rw e (sym (take-events_from_short (positive_or limit 20) s.event_size 0 s (ground arith)))
]

new_telemetry-IsRing :
    (window buffer : ℤ)
    → IsRing (new_telemetry window buffer)
      × (length (new_telemetry window buffer).events ≡ positive_or buffer 256)
      × (held (new_telemetry window buffer) ≡ [])
unfolding new_telemetry held events_from
new_telemetry-IsRing window buffer =
    let sized : length (replicate (positive_or buffer 256) zero_event) ≡ positive_or buffer 256 =
      length-replicate (positive_or buffer 256) zero_event in
    let some_room : 0 < positive_or buffer 256 = positive_or_pos buffer 256 (omega arith) in
    (record { filled = omega arith; head = omega arith; size = omega arith }, sized, refl)

-- Whatever the sizes asked for: after any events on a new server, the snapshot's list is the
-- events that came last, the last one first, as many as the limit and the buffer allow, or all of them if
-- they are fewer.
pub recent_events-newest_first :
    (window buffer limit : ℤ) (es : List (Time × Event))
    → recent_events limit (appended es (new_telemetry window buffer))
      ≡ take (positive_or limit 20) (take (positive_or buffer 256) (newest_first es []))
recent_events-newest_first window buffer limit es =
    let new = new_telemetry window buffer in
    let ring = new_telemetry-IsRing window buffer in
    let some_room : 0 < positive_or buffer 256 = positive_or_pos buffer 256 (omega arith) in
    let cap : suc (positive_or buffer 256 - 1) ≡ positive_or buffer 256 = omega arith in
    recent_events-held limit (appended es new)
    ∙ ap (take (positive_or limit 20)) (
        held-appended es [] new (positive_or buffer 256 - 1) ring.0 (ring.1 ∙ sym cap) ring.2
        ∙ ap (λ n. take n (newest_first es [])) cap)
