-- ===== src/Common/Text.antt =====
-- What the program uses of Go's package strings: TrimSpace.
use Prim.Native.Nat.{ℕ}
use Prim.Native.Char.{Char, code}
use Prim.Native.String.{String}
use Prim.Native.String
use mathlib.Core.Bool.{Bool, true, false, ◌&&◌, ◌||◌}
use mathlib.Core.Option.{Option, none, some}
use mathlib.Core.Path.{◌≡◌, refl}
use native.Mathlib.Omega.{arith}
use text.Mathlib.TextLemmas.{nil-append, cons-append}
use pali.Common.Tests.{leb, ◌==◌, if◌then◌else◌}

-- unicode.IsSpace
unfoldable pub is_space : ℕ → Bool
is_space c =
    (leb 9 c && leb c 13)
    || c == 32
    || c == 0x85
    || c == 0xA0
    || c == 0x1680
    || (leb 0x2000 c && leb c 0x200a)
    || c == 0x2028
    || c == 0x2029
    || c == 0x202f
    || c == 0x205f
    || c == 0x3000

unfoldable pub trim_left : String → String
unfolding is_space
trim_left String.[] = String.[]
trim_left (String.◌∷◌ c s) =
    let rest = trim_left s in if is_space (code c) then rest else String.◌∷◌ c s

-- A character before a text whose right end is trimmed.
unfoldable pub before_trimmed : Char → String → String
unfolding is_space
before_trimmed c String.[] = if is_space (code c) then String.[] else String.◌∷◌ c String.[]
before_trimmed c (String.◌∷◌ d s) = String.◌∷◌ c (String.◌∷◌ d s)

unfoldable pub trim_right : String → String
unfolding before_trimmed
trim_right String.[] = String.[]
trim_right (String.◌∷◌ c s) = before_trimmed c (trim_right s)

-- strings.TrimSpace
unfoldable pub trim_space : String → String
unfolding trim_left trim_right
trim_space s = trim_right (trim_left s)

unfoldable pub is_empty : String → Bool
is_empty String.[] = true
is_empty (String.◌∷◌ c s) = false

-- strings.TrimSpace(s) == ""
unfoldable pub is_blank : String → Bool
unfolding trim_space is_empty
is_blank s = is_empty (trim_space s)

-- strings.HasPrefix and strings.TrimPrefix: what follows the prefix, where it is one.
unfoldable pub strip_prefix : String → String → Option String
strip_prefix String.[] s = some s
strip_prefix (String.◌∷◌ c p) String.[] = none
strip_prefix (String.◌∷◌ c p) (String.◌∷◌ d s) =
    let rest = strip_prefix p s in if code c == code d then rest else none

-- A text starts with what it is the continuation of.
pub strip_prefix-append : (p s : String) → strip_prefix p (String.◌++◌ p s) ≡ some s
unfolding strip_prefix
strip_prefix-append String.[] s = rw (nil-append s) refl
strip_prefix-append (String.◌∷◌ c p) s =
    rw (cons-append c p s) (simp (same (code c), strip_prefix-append p s))
  where
    same : (n : ℕ) → (n == n) ≡ true
    same n = ground arith

-- Text that strings.TrimSpace leaves as it is, and that is not empty.
abbrev pub IsTidy : String → Type 0
IsTidy s = (trim_space s ≡ s) × (is_empty s ≡ false)

pub tidy_filled : (s : String) → IsTidy s → is_blank s ≡ false
unfolding is_blank
tidy_filled s h = rw h.0 h.1
