-- ===== src/Worker/Retry.antt =====
-- The delay before a retry, and the normalized options.
use Prim.Native.Nat.{min}
use native.Mathlib.Nat.{pow-suc, mod-eq_of_lt}
use pali.Common.{
  ℕ, ℤ, zero, suc, ◌*◌, ◌/◌, ◌^◌, ◌≤◌, ◌<◌, ◌≡◌, arith, inl, inr, Bool-cases, false, ap, sym, ◌∙◌,
  ltb→lt, ltb, positive_or_pos,
}
use pali.Common.Words.{signed_small}
use pali.Worker.{WorkerOptions, normalize_options, twice, half, retry_loop, retry_delay}

double_pow : (d k : ℕ) → d * 2 ^ suc k ≡ d * 2 * 2 ^ k
double_pow d k = rw (pow-suc 2 k) (omega arith)

le-double_pow : (d k : ℕ) → d ≤ d * 2 ^ k
le-double_pow d zero = omega arith
le-double_pow d (suc k) = omega (arith, double_pow d k, le-double_pow (d * 2) k)

le_half : (d m : ℕ) → ltb (m / 2) d ≡ false → d * 2 ≤ m
le_half d m e = ground arith

-- The doubling does not overflow.
twice_small : (d m : ℕ) → ltb (m / 2) d ≡ false → m < 2 ^ 63 → twice (ℤ.pos d) ≡ ℤ.pos (d * 2)
unfolding twice
twice_small d m e b =
    let fits : d * 2 < 2 ^ 64 = omega (arith, le_half d m e) in
    rw (mod-eq_of_lt fits) (signed_small (d * 2) (omega (arith, le_half d m e)))

retry_loop-eq-min :
    (k delay max : ℕ)
    → 0 < delay
    → delay ≤ max
    → max < 2 ^ 63
    → retry_loop k (ℤ.pos delay) (ℤ.pos max) ≡ ℤ.pos (min (delay * 2 ^ k) max)
unfolding retry_loop half
retry_loop-eq-min zero delay max p h b = elim (Bool-cases (ltb max delay)) [
  | inl e ↦ absurd (omega (arith, ltb→lt max delay e))
  | inr e ↦ rw e (ap ℤ.pos (omega arith))
]
retry_loop-eq-min (suc k) delay max p h b = elim (Bool-cases (ltb delay max)) [
  | inl e ↦ elim (Bool-cases (ltb (max / 2) delay)) [
    | inl f ↦
        rw (e, f)
          (ap ℤ.pos (
            omega
              (arith, ltb→lt (max / 2) delay f, double_pow delay k, le-double_pow (delay * 2) k)))
    | inr f ↦
        rw (e, f)
          (rw (twice_small delay max f b) (
            retry_loop-eq-min k (delay * 2) max (omega arith) (le_half delay max f) b
            ∙ ap (λ (t : ℕ). ℤ.pos (min t max)) (sym (double_pow delay k))))
  ]
  | inr e ↦
      let above : max ≤ delay = ground arith in
      rw e (ap ℤ.pos (omega (arith, above, le-double_pow delay (suc k))))
]

-- For a base that is positive and at most the maximum, and a maximum that an int64 holds, the delay
-- after the attempt numbered k + 1, computed on int64 numbers, is 2 ^ k times the base, or the
-- maximum if that is less; so no product that the loop computes overflows to a negative delay.
pub retry_delay-eq-min :
    (k base max : ℕ)
    → 0 < base
    → base ≤ max
    → max < 2 ^ 63
    → retry_delay (suc k) (ℤ.pos base) (ℤ.pos max) ≡ ℤ.pos (min (base * 2 ^ k) max)
unfolding retry_delay
retry_delay-eq-min zero base max p h b = ap ℤ.pos (omega arith)
retry_delay-eq-min (suc k) base max p h b = ground (arith, retry_loop-eq-min (suc k) base max p h b)

-- Whatever the options were, the normalized numbers are positive and the base is at most the maximum.
pub normalize_options_bounds :
    (o : WorkerOptions)
    → let n = normalize_options o in
      (0 < n.poll_interval)
      × (0 < n.batch_size)
      × (0 < n.worker_count)
      × (0 < n.lease)
      × (0 < n.max_attempts)
      × (0 < n.retry_base)
      × (n.retry_base ≤ n.retry_max)
unfolding normalize_options
normalize_options_bounds o = (
  positive_or_pos o.poll_interval _ (omega arith),
  positive_or_pos o.batch_size _ (omega arith),
  positive_or_pos o.worker_count _ (omega arith),
  positive_or_pos o.lease _ (omega arith),
  positive_or_pos o.max_attempts _ (omega arith),
  ground
      (arith, positive_or_pos o.retry_base 500_000_000, positive_or_pos o.retry_max 60_000_000_000),
  ground arith,
)
