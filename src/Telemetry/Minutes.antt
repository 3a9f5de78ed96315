-- ===== src/Telemetry/Minutes.antt =====
-- The ring of minutes reports how many requests each minute of the window had.
use pali.Common.{
  ℕ, ◌+◌, ◌%◌, ◌≤◌, ◌<◌, ◌≡◌, refl, List, [], ◌∷◌, if◌then◌else◌, ◌==◌, length, get_or, replicate,
  length-set, get_or-set, get_or-replicate, length-replicate, arith, ◌⊎◌, inl, inr, leb, Bool-cases,
}
use pali.Telemetry.{MinuteBucket, bucket_at, counted, record_minute, minute_count}

-- The ring after requests in these minutes, the first one first.
unfoldable pub recorded : List ℕ → List MinuteBucket → List MinuteBucket
recorded [] ring = ring
recorded (m ∷ ms) ring = recorded ms (record_minute m ring)

unfoldable pub occurrences : ℕ → List ℕ → ℕ
occurrences m [] = 0
occurrences m (x ∷ xs) = (if x == m then 1 else 0) + occurrences m xs

-- Minutes that do not decrease, from `start` up to `last`.
abbrev pub IsClock : ℕ → List ℕ → ℕ → Type 0
IsClock start [] last = start ≤ last
IsClock start (m ∷ ms) last = (start ≤ m) × IsClock m ms last

-- No bucket is of a later minute.
abbrev UpTo : ℕ → List MinuteBucket → Type 0
UpTo last ring = (i : ℕ) → (get_or (record { minute = 0; count = 0 }) ring i).minute ≤ last

same_slot : (w m x : ℕ) → 0 < w → m ≤ x → x < m + w → x % w ≡ m % w → x ≡ m
same_slot w m x p a b e = grind arith

length-record_minute :
    (m : ℕ) (ring : List MinuteBucket) → length (record_minute m ring) ≡ length ring
unfolding record_minute
length-record_minute m [] = refl
length-record_minute m (b ∷ ring) =
    length-set (b ∷ ring) (m % length (b ∷ ring)) (counted m (bucket_at m (b ∷ ring)))

-- The bucket of a minute after one more request.
bucket_at-record_minute :
    (m x : ℕ) (ring : List MinuteBucket)
    → 0 < length ring
    → bucket_at m (record_minute x ring) ≡ (
        if x % length ring == m % length ring
        then counted x (bucket_at x ring)
        else bucket_at m ring)
unfolding bucket_at record_minute
bucket_at-record_minute m x [] p = absurd (omega arith)
bucket_at-record_minute m x (b ∷ ring) p =
    rw (length-set (b ∷ ring) (x % length (b ∷ ring)) (counted x (bucket_at x (b ∷ ring)))) (
      get_or-set (record { minute = 0; count = 0 }) (b ∷ ring) (x % length (b ∷ ring))
        (m % length (b ∷ ring)) (counted x (bucket_at x (b ∷ ring))) (grind arith))

-- What one more request does to the count of a minute of the window.
minute_count-record_minute :
    (m x : ℕ) (ring : List MinuteBucket)
    → 0 < length ring
    → m ≤ x
    → x < m + length ring
    → minute_count m (record_minute x ring) ≡ (if x == m then 1 else 0) + minute_count m ring
unfolding minute_count counted
minute_count-record_minute m x ring p a h =
    ground (arith, bucket_at-record_minute m x ring, same_slot (length ring) m x)

-- A request of another minute does not bring a minute back.
minute_count-other :
    (m x : ℕ) (ring : List MinuteBucket)
    → 0 < length ring
    → x < m
    → minute_count m ring ≡ 0
    → minute_count m (record_minute x ring) ≡ 0
unfolding minute_count counted
minute_count-other m x ring p a h = ground (arith, bucket_at-record_minute m x ring)

IsClock-le : (start : ℕ) (ms : List ℕ) (last : ℕ) → IsClock start ms last → start ≤ last
IsClock-le start [] last h = h
IsClock-le start (m ∷ ms) last h = omega (arith, IsClock-le m ms last h.1)

recorded-count :
    (m start last : ℕ) (ms : List ℕ) (ring : List MinuteBucket)
    → 0 < length ring
    → IsClock start ms last
    → last < m + length ring
    → (minute_count m ring ≡ 0) ⊎ (m ≤ start)
    → minute_count m (recorded ms ring) ≡ occurrences m ms + minute_count m ring
unfolding recorded occurrences
recorded-count m start last [] ring p c l h = omega arith
recorded-count m start last (x ∷ ms) ring p c l h =
    let same = length-record_minute x ring in
    let later = IsClock-le x ms last c.1 in
    elim (Bool-cases (leb m x)) [
      | inl e ↦ ground (
        arith,
        minute_count-record_minute m x ring,
        recorded-count m x last ms (record_minute x ring) (omega arith) c.1 (omega arith)
            (inr (ground arith)),
      )
      | inr e ↦
          let none' : minute_count m ring ≡ 0 = elim h [
            | inl k ↦ k
            | inr k ↦ absurd (ground (arith, c.0))
          ] in
          let still = minute_count-other m x ring p (ground arith) none' in
          ground (
            arith,
            recorded-count m x last ms (record_minute x ring) (omega arith) c.1 (omega arith)
                (inl still),
          )
    ]

fresh_count : (w m : ℕ) → minute_count m (replicate w (record { minute = 0; count = 0 })) ≡ 0
unfolding minute_count bucket_at
fresh_count w m =
    let none' : MinuteBucket = record { minute = 0; count = 0 } in
    rw (get_or-replicate none' w (m % length (replicate w none'))) (ground arith)

-- After requests in minutes that do not decrease, from the ring of a new server: the count of each
-- minute of the window that ends with the last one is how many requests it had.
pub minute_count-occurrences :
    (w m last : ℕ) (ms : List ℕ)
    → 0 < w
    → IsClock 0 ms last
    → last < m + w
    → minute_count m (recorded ms (replicate w (record { minute = 0; count = 0 })))
      ≡ occurrences m ms
minute_count-occurrences w m last ms p c l =
    let ring : List MinuteBucket = replicate w (record { minute = 0; count = 0 }) in
    let sized : length ring ≡ w = length-replicate w (record { minute = 0; count = 0 }) in
    omega (
      arith,
      recorded-count m 0 last ms ring (omega arith) c (omega arith) (inl (fresh_count w m)),
      fresh_count w m,
    )
