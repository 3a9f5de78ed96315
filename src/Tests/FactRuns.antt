-- ===== src/Tests/FactRuns.antt =====
-- Facts at concrete inputs.
use pali.Common.{
  ℕ, zero, suc, String, str_eq, Bool, true, false, ◌≡◌, ◌≢◌, ap, refl, none, some, List, [], ◌∷◌,
  Result, ok, err, All, IfOk, ◌&&◌, ◌||◌, not, if◌then◌else◌,
}
use pali.Common.Sql.{select}
use pali.Common.Text.{trim_space}
use pali.Facts.Keys.{normalize_key, normalize_value}
use pali.Facts.Relations.{normalize_relation, is_singleton}
use pali.Facts.{EntityFact, FactTables, prepare_fact, store_fact, invalidate_entity_relation}
use pali.Facts.Superseded.{active_in, OnlyActive, invalidate_entity_relation-OnlyActive}
use pali.Facts.Consistency.{IsConsistent}
use pali.Facts.Service.{invalidate_superseded, store_entity_facts}
use pali.Facts.Settled.{IsSettled, invalidate_superseded-values, invalidate_superseded-rivals}
use pali.Facts.Stored.{store_entity_facts-IsConsistent}
use pali.Tests.QueueRuns.{noon}

abbrev lives_in : String → String → EntityFact
lives_in id city = record {
  id = id;
  tenant_id = "anna";
  entity = "ben";
  relation = "place";
  relation_raw = "lives in";
  value = city;
  memory_id = "m1";
  created_at = noon;
  observed_at = noon;
  valid_from = noon;
  valid_to = none;
  invalidated_by_fact_id = "";
  confidence = 0;
}

-- The texts are in lower case already.
abbrev same : String → String
same s = s

abbrev fact_ids : ℕ → String
fact_ids zero = "f1"
fact_ids (suc i) = "f2"

abbrev two_cities : List EntityFact
two_cities = lives_in "f1" "rome" ∷ lives_in "f2" "oslo" ∷ []

abbrev fact_tables : FactTables
fact_tables = record { memory_ids = "m1" ∷ []; facts = two_cities }

abbrev no_facts : FactTables
no_facts = record { memory_ids = "m1" ∷ []; facts = [] }

no_facts-IsConsistent : IsConsistent no_facts
no_facts-IsConsistent = record { apart = tt; whole = tt }

store_entity_facts-IsConsistent_example :
    IsConsistent (store_entity_facts same fact_ids noon true two_cities no_facts).1
store_entity_facts-IsConsistent_example =
    store_entity_facts-IsConsistent same fact_ids noon true two_cities no_facts
      no_facts-IsConsistent

invalidate_entity_relation-OnlyActive_example :
    IfOk
      (OnlyActive
        (trim_space "anna")
        (normalize_key same "ben")
        (normalize_key same "place")
        (normalize_value "rome")
        fact_tables)
      (invalidate_entity_relation same "anna" "ben" "place" "rome" "f1" noon fact_tables)
invalidate_entity_relation-OnlyActive_example =
    invalidate_entity_relation-OnlyActive same "anna" "ben" "place" "rome" "f1" noon fact_tables

invalidate_superseded-values_example :
    All
      (λ f.
        is_singleton same f.relation ≡ true
        → IsSettled same f (invalidate_superseded same noon two_cities fact_tables).1)
      two_cities
unfolding invalidate_superseded pali.Facts.Service.and_then pali.Facts.Service.invalidate_for
    is_singleton pali.Common.Sql.update normalize_key normalize_value pali.Facts.Service.end_by
    pali.Facts.end_superseded pali.Facts.ended pali.Facts.in_relation invalidate_entity_relation
    pali.Facts.is_active pali.Facts.is_none pali.Facts.is_superseded pali.Facts.or_time
    normalize_relation pali.Facts.Relations.canonical pali.Facts.Relations.spaced_words
    pali.Facts.Relations.spaced pali.Common.Unique.has_text pali.Facts.Relations.canonical_relations
    pali.Facts.Relations.first_case pali.Facts.Relations.relation_cases
    pali.Facts.Relations.relation_has_any pali.Facts.Relations.contains
    pali.Common.Text.strip_prefix pali.Common.Text.before_trimmed pali.Common.Text.is_space
    pali.Common.Text.trim_left pali.Common.Text.trim_right trim_space pali.Facts.Keys.joined
    pali.Facts.Keys.fields pali.Facts.Keys.started pali.Facts.Keys.words_of
    pali.Facts.Keys.word_before pali.Common.Text.is_empty
invalidate_superseded-values_example =
    invalidate_superseded-values same noon two_cities fact_tables refl

cities_differ : normalize_value "rome" ≢ normalize_value "oslo"
unfolding normalize_value pali.Common.Text.before_trimmed pali.Common.Text.is_space
    pali.Common.Text.trim_left pali.Common.Text.trim_right trim_space pali.Facts.Keys.joined
    pali.Facts.Keys.fields pali.Facts.Keys.started pali.Facts.Keys.words_of
    pali.Facts.Keys.word_before pali.Common.Text.is_empty
cities_differ e = let clash : true ≡ false = ap (λ s. str_eq s "rome") e in cc

invalidate_superseded-rivals_example :
    select
      (active_in (trim_space "anna") (normalize_key same "ben") (normalize_key same "place"))
      (invalidate_superseded same noon two_cities fact_tables).1.facts
    ≡ []
unfolding invalidate_superseded pali.Facts.Service.and_then pali.Facts.Service.invalidate_for
    is_singleton pali.Common.Sql.update normalize_key normalize_value pali.Facts.Service.end_by
    pali.Facts.end_superseded pali.Facts.ended pali.Facts.in_relation invalidate_entity_relation
    pali.Facts.is_active pali.Facts.is_none pali.Facts.is_superseded pali.Facts.or_time
    normalize_relation pali.Facts.Relations.canonical pali.Facts.Relations.spaced_words
    pali.Facts.Relations.spaced pali.Common.Unique.has_text pali.Facts.Relations.canonical_relations
    pali.Facts.Relations.first_case pali.Facts.Relations.relation_cases
    pali.Facts.Relations.relation_has_any pali.Facts.Relations.contains
    pali.Common.Text.strip_prefix pali.Common.Text.before_trimmed pali.Common.Text.is_space
    pali.Common.Text.trim_left pali.Common.Text.trim_right trim_space pali.Facts.Keys.joined
    pali.Facts.Keys.fields pali.Facts.Keys.started pali.Facts.Keys.words_of
    pali.Facts.Keys.word_before pali.Common.Text.is_empty
invalidate_superseded-rivals_example =
    invalidate_superseded-rivals same noon (lives_in "f1" "rome") (lives_in "f2" "oslo") fact_tables
      refl refl refl cities_differ refl refl

-- The id that Store returns for a fact that the table has already is not the id of its row.
stored_again :
    store_fact same "f9" noon (lives_in "" "rome") fact_tables
    ≡ ok (lives_in "f9" "rome", fact_tables)
unfolding store_fact prepare_fact pali.Facts.is_partial pali.Facts.with_keys normalize_key
    normalize_value pali.Facts.insert_fact pali.Common.Sql.exists pali.Facts.is_same_fact
    pali.Facts.row_of pali.Common.Sql.update pali.Common.Unique.has_text pali.Facts.end_of
    pali.Facts.filled_in pali.Facts.merged pali.Facts.or_end pali.Facts.or_text pali.Facts.or_time
    pali.Facts.refers pali.Common.Text.before_trimmed pali.Common.Text.is_space
    pali.Common.Text.trim_left pali.Common.Text.trim_right trim_space pali.Facts.Keys.joined
    pali.Facts.Keys.fields pali.Facts.Keys.started pali.Facts.Keys.words_of
    pali.Facts.Keys.word_before pali.Common.Text.is_empty
stored_again = refl

married_in : normalize_relation same "got-married_in" ≡ "relationship status"
unfolding normalize_relation pali.Facts.Relations.canonical pali.Facts.Relations.spaced_words
    pali.Facts.Relations.spaced pali.Common.Unique.has_text pali.Facts.Relations.canonical_relations
    pali.Facts.Relations.first_case pali.Facts.Relations.relation_cases
    pali.Facts.Relations.relation_has_any pali.Facts.Relations.contains
    pali.Common.Text.strip_prefix pali.Common.Text.before_trimmed pali.Common.Text.is_space
    pali.Common.Text.trim_left pali.Common.Text.trim_right trim_space pali.Facts.Keys.joined
    pali.Facts.Keys.fields pali.Facts.Keys.started pali.Facts.Keys.words_of
    pali.Facts.Keys.word_before pali.Common.Text.is_empty
married_in = refl
