-- ===== src/Telemetry/Slots.antt =====
-- The slots of the ring of events, and what an event does to them.
use pali.Common.{
  ℕ, zero, suc, ◌+◌, ◌-◌, ◌%◌, ◌≤◌, ◌<◌, false, ◌≡◌, ◌≢◌, refl, ◌∙◌, List, ◌∷◌, if◌then◌else◌, ◌==◌,
  ltb, length, get_or, length-set, get_or-set, arith, inl, inr, Bool-cases,
}
use native.Mathlib.Nat.{mod-eq_of_lt, mod-eq-sub-mod}
use pali.Clock.{Time}
use pali.Telemetry.{Event, zero_event, Telemetry, stamped, append_event, events_from}

-- The events that the ring holds, the last one first.
unfoldable pub held : Telemetry → List Event
held s = events_from s.event_size 0 s

pub record IsRing (s : Telemetry) : Type 0 where
  pub filled : 0 < length s.events
  pub head : s.event_head < length s.events
  pub size : s.event_size ≤ length s.events

pub append_event-IsRing :
    (clock : Time) (e : Event) (s : Telemetry)
    → IsRing s
    → IsRing (append_event clock e s) × (length (append_event clock e s).events ≡ length s.events)
unfolding append_event
append_event-IsRing clock e s r = grind (arith, length-set s.events s.event_head (stamped clock e))

-- The slot of the event that is `i` before the last one.
abbrev pub slot : ℕ → ℕ → ℕ → ℕ
slot head n i = (head + n - 1 - i) % n

pub mod_wrap : (x n : ℕ) → x < n + n → x % n ≡ (if ltb x n then x else x - n)
mod_wrap x n h = elim (Bool-cases (ltb x n)) [
  | inl e ↦ rw e (mod-eq_of_lt (ground arith))
  | inr e ↦ rw e (mod-eq-sub-mod (ground arith) ∙ mod-eq_of_lt (ground arith))
]

pub slot-next_head : (head n : ℕ) → head < n → slot ((head + 1) % n) n 0 ≡ head
slot-next_head head n h =
    ground (arith, mod_wrap (head + 1) n, mod_wrap ((head + 1) % n + n - 1 - 0) n)

pub slot-suc :
    (head n i : ℕ) → head < n → suc i < n → slot ((head + 1) % n) n (suc i) ≡ slot head n i
slot-suc head n i h k = ground (
  arith,
  mod_wrap (head + 1) n,
  mod_wrap ((head + 1) % n + n - 1 - suc i) n,
  mod_wrap (head + n - 1 - i) n,
)

pub slot-ne-head : (head n i : ℕ) → head < n → suc i < n → slot head n i ≢ head
slot-ne-head head n i h k e = ground (arith, mod_wrap (head + n - 1 - i) n)

-- A slot that an event does not take stays as it was.
pub get-append_event :
    (clock : Time) (e : Event) (s : Telemetry) (i : ℕ)
    → IsRing s
    → suc i < length s.events
    → get_or zero_event
        (append_event clock e s).events
        (slot (append_event clock e s).event_head (length (append_event clock e s).events) (suc i))
      ≡ get_or zero_event s.events (slot s.event_head (length s.events) i)
unfolding append_event
get-append_event clock e s i r h =
    rw
      (
        not_empty,
        length-set s.events s.event_head (stamped clock e),
        slot-suc s.event_head (length s.events) i r.head h,
        get_or-set zero_event s.events s.event_head (slot s.event_head (length s.events) i)
            (stamped clock e) r.head,
      )
      (ground (arith, slot-ne-head s.event_head (length s.events) i))
  where
    not_empty : (length s.events == 0) ≡ false
    not_empty = ground (arith, r.filled)

pub first-append_event :
    (clock : Time) (e : Event) (s : Telemetry)
    → IsRing s
    → get_or zero_event
        (append_event clock e s).events
        (slot (append_event clock e s).event_head (length (append_event clock e s).events) 0)
      ≡ stamped clock e
unfolding append_event
first-append_event clock e s r =
    rw
      (
        not_empty,
        length-set s.events s.event_head (stamped clock e),
        slot-next_head s.event_head (length s.events) r.head,
        get_or-set zero_event s.events s.event_head s.event_head (stamped clock e) r.head,
      )
      (ground arith)
  where
    not_empty : (length s.events == 0) ≡ false
    not_empty = ground (arith, r.filled)

pub events_from-append_event :
    (clock : Time) (e : Event) (s : Telemetry) (n i : ℕ)
    → IsRing s
    → n + i < length s.events
    → events_from n (suc i) (append_event clock e s) ≡ events_from n i s
unfolding events_from
events_from-append_event clock e s zero i r h = refl
events_from-append_event clock e s (suc n) i r h =
    rw
      (
        get-append_event clock e s i r (omega arith),
        events_from-append_event clock e s n (suc i) r (omega arith),
      )
      refl

pub shifted :
    (clock : Time) (e : Event) (s : Telemetry) (k : ℕ)
    → IsRing s
    → k < length s.events
    → events_from (suc k) 0 (append_event clock e s) ≡ stamped clock e ∷ events_from k 0 s
unfolding events_from
shifted clock e s k r h =
    rw (first-append_event clock e s r, events_from-append_event clock e s k 0 r (omega arith)) refl
