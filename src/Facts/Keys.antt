-- ===== src/Facts/Keys.antt =====
-- The normal forms of the texts of a fact: strings.Fields, and the functions of
-- internal/repository/sqlite/entity_facts.go and internal/core/memory/entity_facts.go that use it.
use Prim.Native.Char.{Char, code}
use Prim.Native.String
use pali.Common.{String, List, [], ◌∷◌, if◌then◌else◌}
use pali.Common.Text.{trim_space, is_empty, is_space}

-- The word at the start of a text, which may be empty, and the words after it.
unfoldable pub started : String × List String → List String
started (w, ws) = if is_empty w then ws else w ∷ ws

unfoldable pub word_before : Char → String × List String → String × List String
word_before c p = if is_space (code c) then ("", started p) else (String.◌∷◌ c p.0, p.1)

unfoldable pub words_of : String → String × List String
words_of String.[] = ("", [])
words_of (String.◌∷◌ c s) = word_before c (words_of s)

-- strings.Fields
unfoldable pub fields : String → List String
fields s = started (words_of s)

-- strings.Join with a space
unfoldable pub joined : List String → String
joined [] = ""
joined (w ∷ []) = w
joined (w ∷ v ∷ ws) = String.◌++◌ w (String.◌++◌ " " (joined (v ∷ ws)))

-- normalizeEntityFactValue
unfoldable pub normalize_value : String → String
normalize_value s = joined (fields (trim_space s))

-- normalizeEntityFactKey, and normalizeEntityFactRawRelation and normalizeEntityFactEntity, which are
-- the same function; `lower` is strings.ToLower.
unfoldable pub normalize_key : (String → String) → String → String
normalize_key lower s = lower (normalize_value s)
