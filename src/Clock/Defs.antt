-- ===== src/Clock/Defs.antt =====
-- The texts of instants, and the order of these texts.
use pali.Common.{
  ℕ, zero, suc, ◌+◌, ◌*◌, ◌/◌, ◌%◌, ◌^◌, Bool, true, false, List, [], ◌∷◌, ◌++◌, map, ltb, ◌==◌,
  if◌then◌else◌,
}

abbrev pub Time : Type 0
Time = ℕ

abbrev pub second : ℕ
second = 1_000_000_000

abbrev pub hour : ℕ
hour = 3_600_000_000_000

-- t.IsZero()
abbrev pub is_zero : Time → Bool
is_zero t = t == 0

-- time.Unix(0, 0)
abbrev pub unix_epoch : Time
unix_epoch = 62_135_596_800 * 1_000_000_000

-- The last `k` decimal digits of `n`, the most significant first.
unfoldable pub digits_of : ℕ → ℕ → List ℕ
digits_of zero n = []
digits_of (suc k) n = (n / 10 ^ k) % 10 ∷ digits_of k n

unfoldable pub before_digits : ℕ → List ℕ → List ℕ
before_digits d [] = if d == 0 then [] else d ∷ []
before_digits d (e ∷ r) = d ∷ e ∷ r

-- The digits with the trailing zeros dropped.
unfoldable pub drop_zeros : List ℕ → List ℕ
unfolding before_digits
drop_zeros [] = []
drop_zeros (d ∷ r) = before_digits d (drop_zeros r)

-- What follows the seconds in a text: `Z`, or a point, the digits and `Z`.
unfoldable pub suffix : ℕ → List ℕ
unfolding digits_of drop_zeros
suffix n =
    if n == 0
    then b'Z' ∷ []
    else b'.' ∷ (map (λ d. b'0' + d) (drop_zeros (digits_of 9 n)) ++ b'Z' ∷ [])

-- The order of texts, byte by byte.
unfoldable pub text_leb : List ℕ → List ℕ → Bool
text_leb [] ys = true
text_leb (x ∷ xs) [] = false
text_leb (x ∷ xs) (y ∷ ys) =
    let rest = text_leb xs ys in if ltb x y then true else if x == y then rest else false

-- `a <= b` in SQL, over the texts of two instants.
unfoldable pub stamp_leb : Time → Time → Bool
stamp_leb a b =
    if ltb (a / second) (b / second)
    then true
    else if a / second == b / second
    then text_leb (suffix (a % second)) (suffix (b % second))
    else false
