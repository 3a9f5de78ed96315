-- ===== src/Search/Window.antt =====
-- The bounds of the number of candidates.
use pali.Common.{
  ℕ, ℤ, ◌+◌, ◌*◌, ◌^◌, ◌≤◌, ◌<◌, Bool, ◌≡◌, refl, if◌then◌else◌, ltb, lt_int, false, positive_or,
  arith, inl, inr, Bool-cases,
}
use native.Mathlib.Nat.{mod-eq_of_lt, mul-le-mul_right}
use pali.Domain.Memories.{Float64}
use pali.Common.Words.{signed_small}
use pali.Search.{
  SearchTuning, NormalTuning, WindowQuery, normalize_tuning, at_least, plus_int, times_int, bits_of,
  profile_boost, filter_part, weak_part, max_window, first_window, boosted, limited,
  candidate_window,
}

-- What the number of candidates would be without a limit, and with it, for numbers of any size.
unfoldable pub wanted : (Float64 → Float64 → Bool) → ℕ → WindowQuery → NormalTuning → ℕ
wanted less k q t =
    at_least t.min (k * t.multiplier) + profile_boost q t + filter_part q t + weak_part less k q t

unfoldable pub window_of : (Float64 → Float64 → Bool) → ℕ → WindowQuery → NormalTuning → ℕ
window_of less k q t =
    if ltb (max_window q t) (wanted less k q t) then max_window q t else wanted less k q t

times_int-small : (a b : ℕ) → a * b < 2 ^ 63 → times_int a b ≡ ℤ.pos (a * b)
unfolding times_int
times_int-small a b h =
    let small : a * b < 2 ^ 64 = omega arith in rw (mod-eq_of_lt small) (signed_small (a * b) h)

plus_int-small : (a b : ℕ) → a + b < 2 ^ 63 → plus_int (ℤ.pos a) b ≡ ℤ.pos (a + b)
unfolding plus_int bits_of
plus_int-small a b h =
    let first : a < 2 ^ 64 = omega arith in
    let both : a + b < 2 ^ 64 = omega arith in
    rw (mod-eq_of_lt first, mod-eq_of_lt both) (signed_small (a + b) h)

first_window-small :
    (k : ℕ) (t : NormalTuning)
    → k * t.multiplier < 2 ^ 63
    → first_window k t ≡ ℤ.pos (at_least t.min (k * t.multiplier))
unfolding first_window
first_window-small k t h =
    rw (times_int-small k t.multiplier h)
      (elim (Bool-cases (ltb (k * t.multiplier) t.min)) [ inl e ↦ rw e refl | inr e ↦ rw e refl ])

boosted-small :
    (less : Float64 → Float64 → Bool) (k : ℕ) (q : WindowQuery) (t : NormalTuning) (n : ℕ)
    → n + profile_boost q t + filter_part q t + weak_part less k q t < 2 ^ 63
    → boosted less k q t (ℤ.pos n)
      ≡ ℤ.pos (n + profile_boost q t + filter_part q t + weak_part less k q t)
unfolding boosted
boosted-small less k q t n h =
    rw
      (
        plus_int-small n (profile_boost q t) (omega arith),
        plus_int-small (n + profile_boost q t) (filter_part q t) (omega arith),
      )
      (plus_int-small (n + profile_boost q t + filter_part q t) (weak_part less k q t) h)

limited_pos :
    (q : WindowQuery) (t : NormalTuning) (n : ℕ)
    → limited q t (ℤ.pos n) ≡ ℤ.pos (if ltb (max_window q t) n then max_window q t else n)
unfolding limited
limited_pos q t n = elim (Bool-cases (ltb (max_window q t) n)) [
  | inl e ↦ rw e refl
  | inr e ↦ rw e refl
]

candidate_window-eq-window_of :
    (less : Float64 → Float64 → Bool) (top_k : ℤ) (q : WindowQuery) (t : NormalTuning)
    → positive_or top_k 10 * t.multiplier < 2 ^ 63
    → wanted less (positive_or top_k 10) q t < 2 ^ 63
    → candidate_window less top_k q t ≡ ℤ.pos (window_of less (positive_or top_k 10) q t)
unfolding candidate_window window_of wanted
candidate_window-eq-window_of less top_k q t m h =
    rw
      (
        first_window-small (positive_or top_k 10) t m,
        boosted-small less (positive_or top_k 10) q t
            (at_least t.min (positive_or top_k 10 * t.multiplier)) h,
      )
      (limited_pos q t (wanted less (positive_or top_k 10) q t))

normalize_tuning-ordered :
    (less : Float64 → Float64 → Bool) (raw : SearchTuning)
    → (normalize_tuning less raw).min ≤ (normalize_tuning less raw).max
unfolding normalize_tuning
normalize_tuning-ordered less raw = ground arith

window_of_min :
    (less : Float64 → Float64 → Bool) (k : ℕ) (q : WindowQuery) (t : NormalTuning)
    → t.min ≤ t.max
    → t.min ≤ window_of less k q t
unfolding window_of wanted max_window
window_of_min less k q t o = ground arith

window_of_max :
    (less : Float64 → Float64 → Bool) (k : ℕ) (q : WindowQuery) (t : NormalTuning)
    → window_of less k q t ≤ max_window q t
unfolding window_of
window_of_max less k q t = ground arith

window_of_mono :
    (less : Float64 → Float64 → Bool) (k l : ℕ) (q : WindowQuery) (t : NormalTuning)
    → k ≤ l
    → window_of less k q t ≤ window_of less l q t
unfolding window_of wanted weak_part
window_of_mono less k l q t h =
    let more : k * t.multiplier ≤ l * t.multiplier = mul-le-mul_right t.multiplier h in
    ground (arith, more)

-- Numbers of the tuning for which the sums fit an int64.
abbrev pub IsSmall : NormalTuning → Type 0
IsSmall t =
    (t.multiplier < 2 ^ 31)
    × (t.min < 2 ^ 31)
    × (t.temporal_boost < 2 ^ 31)
    × (t.multi_hop_boost < 2 ^ 31)
    × (t.filter_boost < 2 ^ 31)

product_small : (k : ℕ) (t : NormalTuning) → k < 2 ^ 31 → IsSmall t → k * t.multiplier < 2 ^ 62
product_small k t h s =
    let rows : k * t.multiplier ≤ 2 ^ 31 * t.multiplier =
      mul-le-mul_right t.multiplier (omega arith) in
    omega (arith, rows, s.0)

wanted_small :
    (less : Float64 → Float64 → Bool) (k : ℕ) (q : WindowQuery) (t : NormalTuning)
    → k < 2 ^ 31
    → IsSmall t
    → wanted less k q t < 2 ^ 63
unfolding wanted profile_boost filter_part weak_part
wanted_small less k q t h s = ground (arith, product_small k t h s, s.1, s.2, s.3, s.4)

candidate_window-small :
    (less : Float64 → Float64 → Bool) (top_k : ℤ) (q : WindowQuery) (t : NormalTuning)
    → positive_or top_k 10 < 2 ^ 31
    → IsSmall t
    → candidate_window less top_k q t ≡ ℤ.pos (window_of less (positive_or top_k 10) q t)
candidate_window-small less top_k q t h s =
    candidate_window-eq-window_of less top_k q t
      (omega (arith, product_small (positive_or top_k 10) t h s))
      (wanted_small less (positive_or top_k 10) q t h s)

-- With any options that are less than 2 ^ 31 once they are normalized, and two numbers of results
-- that are, once the default is taken, in this order and less than 2 ^ 31: no sum or product
-- overflows, so that candidateWindow of the first number is what the formula gives for numbers of
-- any size; it is not below the minimum, nor above the maximum, or 320 if that is more and the query
-- has several hops or filters, and candidateWindow of the second number is not below it.
pub candidate_window_bounds :
    (less : Float64 → Float64 → Bool) (top_k more : ℤ) (q : WindowQuery) (raw : SearchTuning)
    → positive_or top_k 10 ≤ positive_or more 10
    → positive_or more 10 < 2 ^ 31
    → IsSmall (normalize_tuning less raw)
    → (candidate_window less top_k q (normalize_tuning less raw)
        ≡ ℤ.pos (window_of less (positive_or top_k 10) q (normalize_tuning less raw)))
      × (lt_int
            (candidate_window less top_k q (normalize_tuning less raw))
            (ℤ.pos (normalize_tuning less raw).min)
          ≡ false)
      × (lt_int
            (ℤ.pos (max_window q (normalize_tuning less raw)))
            (candidate_window less top_k q (normalize_tuning less raw))
          ≡ false)
      × (lt_int
            (candidate_window less more q (normalize_tuning less raw))
            (candidate_window less top_k q (normalize_tuning less raw))
          ≡ false)
candidate_window_bounds less top_k more q raw o h s =
    let t : NormalTuning = normalize_tuning less raw in
    let k : ℕ = positive_or top_k 10 in
    let l : ℕ = positive_or more 10 in
    rw
      (
        candidate_window-small less top_k q t (omega arith) s,
        candidate_window-small less more q t h s,
      )
      (
        refl,
        not_below _ _ (window_of_min less k q t (normalize_tuning-ordered less raw)),
        not_below _ _ (window_of_max less k q t),
        not_below _ _ (window_of_mono less k l q t o),
      )
  where
    not_below : (a b : ℕ) → a ≤ b → ltb b a ≡ false
    not_below a b e = ground arith
