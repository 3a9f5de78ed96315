-- ===== src/Common/Unique.antt =====
-- The loops that drop repeated values, with their map `seen`, and the position of a value.
use pali.Common.Text.{trim_space, is_empty}
use Prim.Native.Nat.{ℕ, suc, ◌+◌}
use Prim.Native.String.{String}
use text.Mathlib.Text.{◌==◌ as str_eq}
use mathlib.Core.Bool.{Bool, false, ◌||◌}
use mathlib.Core.List.{List, [], ◌∷◌}
use pali.Common.Tests.{if◌then◌else◌}
use pali.Common.Lists.{length}

-- `_, ok := seen[value]`
unfoldable pub has_text : String → List String → Bool
has_text s [] = false
has_text s (t ∷ ts) = str_eq s t || has_text s ts

unfoldable pub unique_from : List String → List String → List String
unfolding has_text
unique_from seen [] = []
unique_from seen (v ∷ vs) =
    let again = unique_from seen vs in
    let kept = trim_space v ∷ unique_from (trim_space v ∷ seen) vs in
    if is_empty (trim_space v) || has_text (trim_space v) seen then again else kept

-- uniqueNonEmptyStrings of internal/repository/sqlite/memory_jobs.go
unfoldable pub unique_non_empty : List String → List String
unfolding unique_from
unique_non_empty values = unique_from [] values

-- uniqueValidPostprocessStatuses and uniqueValidPostprocessTypes: what is not `valid` is dropped,
-- and a value is known by its text.
unfoldable pub unique_valid {ℓ} :
    {A : Type ℓ} → (A → String) → (A → Bool) → List String → List A → List A
unfolding has_text
unique_valid text valid seen [] = []
unique_valid text valid seen (v ∷ vs) =
    let again = unique_valid text valid seen vs in
    let kept = v ∷ unique_valid text valid (text v ∷ seen) vs in
    if valid v then (if has_text (text v) seen then again else kept) else again

-- cmpIndex of internal/repository/sqlite/memory.go: where the value is not there, it is one more
-- than the length; `n` is that number and `i` the position reached.
unfoldable pub index_from : ℕ → ℕ → List String → String → ℕ
index_from n i [] s = n
index_from n i (t ∷ ts) s = let rest = index_from n (suc i) ts s in if str_eq t s then i else rest

unfoldable pub index_of : List String → String → ℕ
unfolding index_from
index_of ts s = index_from (length ts + 1) 0 ts s
