-- ===== src/Clock/Order.antt =====
-- How the order of the texts stands to the order of the instants.
use pali.Common.{ℕ, ◌+◌, ◌*◌, ◌%◌, ◌<◌, ◌≡◌, refl, true, false, List, [], ◌∷◌, arith}
use pali.Clock.Defs.{Time, second, suffix, text_leb, stamp_leb}

suffix_order : (n : ℕ) → 0 < n → text_leb (suffix 0) (suffix n) ≡ false
unfolding text_leb suffix
suffix_order n h = ground arith

-- Within a second the order is wrong at its start: the text of a whole second is after the text of
-- every later instant of that second, since `Z` is after the point of the fraction.
pub stamp_leb-whole_second :
    (s n : ℕ) → 0 < n → n < second → stamp_leb (s * second) (s * second + n) ≡ false
unfolding stamp_leb
stamp_leb-whole_second s n h k = ground (arith, suffix_order n h)

pub text_leb_refl : (xs : List ℕ) → text_leb xs xs ≡ true
unfolding text_leb
text_leb_refl [] = refl
text_leb_refl (x ∷ xs) = ground (arith, text_leb_refl xs)

pub stamp_leb_refl : (t : Time) → stamp_leb t t ≡ true
unfolding stamp_leb
stamp_leb_refl t = ground (arith, text_leb_refl (suffix (t % second)))
