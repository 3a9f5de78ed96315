-- ===== src/Facts/Relations.antt =====
-- The canonical relations of facts: normalizeEntityFactRelation of
-- internal/core/memory/entity_facts.go.
use Prim.Native.Char.{code}
use Prim.Native.String
use pali.Common.{String, Bool, true, false, ◌||◌, none, some, List, [], ◌∷◌, if◌then◌else◌, ◌==◌}
use pali.Common.Text.{trim_space, is_empty, strip_prefix}
use pali.Common.Unique.{has_text}
use pali.Facts.Keys.{fields, joined}

abbrev is_prefix : String → String → Bool
is_prefix p s = elim (strip_prefix p s) [ none ↦ false | some r ↦ true ]

-- strings.Contains
unfoldable pub contains : String → String → Bool
contains String.[] needle = is_prefix needle String.[]
contains (String.◌∷◌ c s) needle = is_prefix needle (String.◌∷◌ c s) || contains s needle

-- strings.ReplaceAll of the character `_` or `-` by a space.
unfoldable pub spaced : String → String
spaced String.[] = String.[]
spaced (String.◌∷◌ c s) =
    let rest = spaced s in
    if code c == b'_' || code c == b'-' then String.◌++◌ " " rest else String.◌∷◌ c rest

-- relationHasAny
unfoldable pub relation_has_any : (String → String) → String → List String → Bool
relation_has_any lower relation [] = false
relation_has_any lower relation (needle ∷ needles) =
    let rest = relation_has_any lower relation needles in
    if is_empty relation
    then false
    else if is_empty (trim_space (lower needle))
    then rest
    else contains relation (trim_space (lower needle)) || rest

-- entityFactCanonicalRelations
unfoldable pub canonical_relations : List String
canonical_relations =
    "activity" ∷ "attribute" ∷ "belief" ∷ "book" ∷ "event" ∷ "goal" ∷ "identity" ∷ "place" ∷ "plan"
    ∷ "preference" ∷ "relationship" ∷ "relationship status" ∷ "role" ∷ "trait" ∷ "value" ∷ []

-- The cases of the switch: the words, and the relation.
unfoldable pub relation_cases : List (List String × String)
relation_cases =
    (
      "event" ∷ "attend" ∷ "attendance" ∷ "joined" ∷ "join" ∷ "participat" ∷ "met " ∷ "encounter"
          ∷ "happen" ∷ "occur" ∷ "celebrat" ∷ "conference" ∷ "meetup" ∷ "event date" ∷ "event type"
          ∷ "time" ∷ "created" ∷ "received" ∷ [],
      "event",
    )
    ∷ ("book" ∷ "read" ∷ "novel" ∷ "author" ∷ "story" ∷ [], "book")
    ∷ (
      "place" ∷ "location" ∷ "city" ∷ "country" ∷ "moved" ∷ "move" ∷ "lives" ∷ "live" ∷ "reside"
          ∷ "visited" ∷ "visit" ∷ "travel" ∷ [],
      "place",
    )
    ∷ (
      "relationship status" ∷ "marital" ∷ "single" ∷ "married" ∷ "dating" ∷ "divorc" ∷ "engaged"
          ∷ "widowed" ∷ "separated" ∷ [],
      "relationship status",
    )
    ∷ (
      "relationship" ∷ "family" ∷ "friend" ∷ "partner" ∷ "spouse" ∷ "wife" ∷ "husband" ∷ "boyfriend"
          ∷ "girlfriend" ∷ "mentor" ∷ "child" ∷ "parent" ∷ [],
      "relationship",
    )
    ∷ ("role" ∷ "job" ∷ "profession" ∷ "career" ∷ "occupation" ∷ "works as" ∷ [], "role")
    ∷ (
      "plan" ∷ "goal" ∷ "intention" ∷ "intent" ∷ "purpose" ∷ "aim" ∷ "hopes" ∷ "hope" ∷ "will "
          ∷ "going to" ∷ [],
      "plan",
    )
    ∷ ("goal" ∷ "dream" ∷ "aspiration" ∷ "milestone" ∷ [], "goal")
    ∷ (
      "preference" ∷ "favorite" ∷ "likes" ∷ "like " ∷ "prefers" ∷ "prefer" ∷ "loves" ∷ "love"
          ∷ "enjoys" ∷ "enjoy" ∷ [],
      "preference",
    )
    ∷ (
      "activity" ∷ "hobby" ∷ "interest" ∷ "prefer" ∷ "preference" ∷ "desire" ∷ "passion"
          ∷ "motivation" ∷ "coping" ∷ "practice" ∷ "play" ∷ "enjoy" ∷ "like " ∷ "likes" ∷ "love"
          ∷ "action" ∷ "appreciat" ∷ [],
      "activity",
    )
    ∷ ("belief" ∷ "believes" ∷ "thinks" ∷ "opinion" ∷ "stance" ∷ "worldview" ∷ [], "belief")
    ∷ ("value" ∷ "values" ∷ "principle" ∷ "priority" ∷ "ethic" ∷ [], "value")
    ∷ ("trait" ∷ "personality" ∷ "character" ∷ "tendency" ∷ "temperament" ∷ [], "trait")
    ∷ (
      "identity" ∷ "name" ∷ "belief" ∷ "opinion" ∷ "value" ∷ "emotion" ∷ "feeling" ∷ "feels"
          ∷ "state" ∷ "characteristic" ∷ "quality" ∷ "attribute" ∷ "description" ∷ "assessment"
          ∷ "evaluation" ∷ "sentiment" ∷ "perception" ∷ "support" ∷ "appearance" ∷ "gender"
          ∷ "orientation" ∷ [],
      "identity",
    )
    ∷ []

-- The switch: the relation of the first case that has a word of the text.
unfoldable pub first_case : (String → String) → String → List (List String × String) → String
first_case lower relation [] = "attribute"
first_case lower relation (c ∷ cs) =
    let rest = first_case lower relation cs in
    if relation_has_any lower relation c.0 then c.1 else rest

unfoldable pub spaced_words : (String → String) → String → String
spaced_words lower s = joined (fields (spaced (trim_space (lower s))))

-- What the switch and the map make of a text.
unfoldable pub canonical : (String → String) → String → String
canonical lower relation =
    if is_empty relation
    then ""
    else if has_text relation canonical_relations
    then relation
    else first_case lower relation relation_cases

-- normalizeEntityFactRelation
unfoldable pub normalize_relation : (String → String) → String → String
normalize_relation lower s = canonical lower (spaced_words lower s)

-- entityFactUsesSingletonInvalidation
unfoldable pub is_singleton : (String → String) → String → Bool
is_singleton lower s =
    has_text (normalize_relation lower s)
      ("identity" ∷ "role" ∷ "relationship status" ∷ "place" ∷ [])
