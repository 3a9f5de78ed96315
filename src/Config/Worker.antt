-- ===== src/Config/Worker.antt =====
-- What the check of the settings is worth to the postprocess workers, as internal/api/router.go
-- starts them.
use pali.Common.{
  ℕ, ℤ, zero, suc, ◌+◌, ◌-◌, ◌*◌, ◌%◌, ◌^◌, ◌≤◌, ◌<◌, Bool, true, false, not, ◌&&◌, ◌≡◌, refl, none,
  some, List, [], ◌∷◌, ◌++◌, if◌then◌else◌, ltb, All, positive_or, lt_int, arith, inl, inr,
  Bool-cases,
}
use native.Mathlib.Nat.{mod-eq_of_lt}
use pali.Common.Text.{is_blank}
use pali.Common.Words.{signed}
use pali.Worker.{WorkerOptions, normalize_options}
use pali.Config.Settings.{Config, PostprocessConfig}
use pali.Config.{Library, Check, first_error, positive}
use pali.Config.Checks.{backend_checks, search_checks, store_checks, worker_checks, validate}

-- `time.Duration(ms) * time.Millisecond`, whose bits wrap.
unfoldable pub milliseconds : ℤ → ℤ
unfolding signed
milliseconds (ℤ.pos n) = signed ((n * 1_000_000) % 2 ^ 64)
milliseconds (ℤ.negsuc n) = signed ((2 ^ 64 - ((n + 1) * 1_000_000) % 2 ^ 64) % 2 ^ 64)

-- The options that the router starts the workers with.
unfoldable pub worker_options : PostprocessConfig → WorkerOptions
worker_options c = record {
  enabled = c.enabled;
  poll_interval = milliseconds c.poll_interval_ms;
  batch_size = c.batch_size;
  worker_count = c.worker_count;
  lease = milliseconds c.lease_ms;
  max_attempts = c.max_attempts;
  retry_base = milliseconds c.retry_base_ms;
  retry_max = milliseconds c.retry_max_ms;
}

-- A configuration that is accepted passes every check.
pub first_error-All : (cs : List Check) → first_error cs ≡ none → All (λ c. c.0 ≡ false) cs
unfolding first_error
first_error-All [] h = tt
first_error-All (c ∷ cs) h = elim (Bool-cases c.0) [
  | inl e ↦ absurd (clash (rw e at h))
  | inr e ↦ (e, first_error-All cs (rw e at h))
]
  where
    clash : some c.1 ≡ none → ⊥
    clash k = cc

pub All-drop {ℓ κ} : {A : Type ℓ} (P : A → Type κ) (xs ys : List A) → All P (xs ++ ys) → All P ys
All-drop P [] ys h = h
All-drop P (x ∷ xs) ys h = All-drop P xs ys h.1

worker_checks-pass :
    (lib : Library) (cfg : Config)
    → validate lib cfg ≡ none
    → All (λ c. c.0 ≡ false) (worker_checks lib cfg)
unfolding validate
worker_checks-pass lib cfg h = All-drop _ (store_checks lib cfg) _ (
    All-drop _ (search_checks lib cfg) _
      (All-drop _ (backend_checks lib cfg) _ (first_error-All _ h)))

-- What the check says of the settings of the workers and of the authentication.
pub record IsAccepted (cfg : Config) : Type 0 where
  pub secret : (cfg.auth.enabled && is_blank cfg.auth.jwt_secret) ≡ false
  pub poll_interval : positive cfg.postprocess.poll_interval_ms ≡ true
  pub batch_size : positive cfg.postprocess.batch_size ≡ true
  pub worker_count : positive cfg.postprocess.worker_count ≡ true
  pub lease : positive cfg.postprocess.lease_ms ≡ true
  pub max_attempts : positive cfg.postprocess.max_attempts ≡ true
  pub retry_base : positive cfg.postprocess.retry_base_ms ≡ true
  pub retry_max : positive cfg.postprocess.retry_max_ms ≡ true
  pub ordered : lt_int cfg.postprocess.retry_max_ms cfg.postprocess.retry_base_ms ≡ false

pub negated : (b : Bool) → not b ≡ false → b ≡ true
negated true h = refl
negated false h = cc

validate-IsAccepted : (lib : Library) (cfg : Config) → validate lib cfg ≡ none → IsAccepted cfg
unfolding worker_checks
validate-IsAccepted lib cfg h =
    let c = worker_checks-pass lib cfg h in
    let r = c.1.1.1.1.1 in
    record {
      secret = r.0;
      poll_interval = negated _ r.1.0;
      batch_size = negated _ r.1.1.0;
      worker_count = negated _ r.1.1.1.0;
      lease = negated _ r.1.1.1.1.0;
      max_attempts = negated _ r.1.1.1.1.1.0;
      retry_base = negated _ r.1.1.1.1.1.1.0;
      retry_max = negated _ r.1.1.1.1.1.1.1.0;
      ordered = r.1.1.1.1.1.1.1.1.0;
    }

-- A number of milliseconds whose nanoseconds an int64 holds.
abbrev pub Fits : ℤ → Type 0
Fits (ℤ.pos n) = n ≤ 9_223_372_036_854
Fits (ℤ.negsuc n) = Unit

abbrev pub nat_of : ℤ → ℕ
nat_of (ℤ.pos n) = n
nat_of (ℤ.negsuc n) = 0

wrapped_small : (n : ℕ) → n ≤ 9_223_372_036_854 → milliseconds (ℤ.pos n) ≡ ℤ.pos (n * 1_000_000)
unfolding milliseconds
wrapped_small n h =
    let small : n * 1_000_000 < 2 ^ 64 = omega arith in
    let half : ltb (n * 1_000_000) (2 ^ 63) ≡ true = ground arith in
    rw (mod-eq_of_lt small, half) refl

pub positive_or-nat_of : (z : ℤ) (d : ℕ) → positive z ≡ true → positive_or z d ≡ nat_of z
positive_or-nat_of (ℤ.pos zero) d h = cc
positive_or-nat_of (ℤ.pos (suc n)) d h = refl
positive_or-nat_of (ℤ.negsuc n) d h = cc

milliseconds-nat_of :
    (z : ℤ) (d : ℕ)
    → positive z ≡ true
    → Fits z
    → positive_or (milliseconds z) d ≡ nat_of z * 1_000_000
milliseconds-nat_of (ℤ.pos zero) d h f = cc
milliseconds-nat_of (ℤ.pos (suc n)) d h f =
    rw (wrapped_small (suc n) f)
      (positive_or-nat_of (ℤ.pos (suc n * 1_000_000)) d (grows (suc n * 1_000_000) (omega arith)))
  where
    grows : (m : ℕ) → 0 < m → positive (ℤ.pos m) ≡ true
    grows zero p = absurd (omega arith)
    grows (suc m) p = refl
milliseconds-nat_of (ℤ.negsuc n) d h f = cc

in_order :
    (base max : ℤ)
    → lt_int max base ≡ false
    → (if ltb (nat_of max * 1_000_000) (nat_of base * 1_000_000)
        then nat_of max * 1_000_000
        else nat_of base * 1_000_000)
      ≡ nat_of base * 1_000_000
in_order (ℤ.pos b) (ℤ.pos m) h = ground arith
in_order (ℤ.pos b) (ℤ.negsuc m) h = cc
in_order (ℤ.negsuc b) (ℤ.pos m) h = ground arith
in_order (ℤ.negsuc b) (ℤ.negsuc m) h = ground arith

-- Settings that pass the check, with durations that fit an int64, are the options that the workers
-- run with: the normalization replaces nothing by a default and caps nothing.
pub validate-worker_options :
    (lib : Library) (cfg : Config)
    → validate lib cfg ≡ none
    → Fits cfg.postprocess.poll_interval_ms
    → Fits cfg.postprocess.lease_ms
    → Fits cfg.postprocess.retry_base_ms
    → Fits cfg.postprocess.retry_max_ms
    → normalize_options (worker_options cfg.postprocess) ≡ record {
      enabled = cfg.postprocess.enabled;
      poll_interval = nat_of cfg.postprocess.poll_interval_ms * 1_000_000;
      batch_size = nat_of cfg.postprocess.batch_size;
      worker_count = nat_of cfg.postprocess.worker_count;
      lease = nat_of cfg.postprocess.lease_ms * 1_000_000;
      max_attempts = nat_of cfg.postprocess.max_attempts;
      retry_base = nat_of cfg.postprocess.retry_base_ms * 1_000_000;
      retry_max = nat_of cfg.postprocess.retry_max_ms * 1_000_000;
    }
unfolding normalize_options worker_options
validate-worker_options lib cfg h f g b m =
    let a = validate-IsAccepted lib cfg h in
    let c = cfg.postprocess in
    simp (
      milliseconds-nat_of c.poll_interval_ms 250_000_000 a.poll_interval f,
      milliseconds-nat_of c.lease_ms 30_000_000_000 a.lease g,
      milliseconds-nat_of c.retry_base_ms 500_000_000 a.retry_base b,
      milliseconds-nat_of c.retry_max_ms 60_000_000_000 a.retry_max m,
      positive_or-nat_of c.batch_size 32 a.batch_size,
      positive_or-nat_of c.worker_count 2 a.worker_count,
      positive_or-nat_of c.max_attempts 5 a.max_attempts,
      in_order c.retry_base_ms c.retry_max_ms a.ordered,
    )
