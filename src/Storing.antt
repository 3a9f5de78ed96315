-- ===== src/Storing.antt =====
-- How the memory service stores memories: store.go, ingest_async.go, tier_policy.go and
-- parser_identity.go of internal/core/memory. `lower` is strings.ToLower, and `digest` the hexadecimal digits of
-- the SHA-256 of some texts, each followed by a zero byte, of which hashIdentityParts takes 16 bytes.
pub mod Inputs
pub mod Ingest
pub mod Models
pub mod Vectors
pub mod Batch
pub mod Marked
pub mod Indexed
pub mod Places
pub mod Aligned
pub mod Plain
use pali.Common.{
  ℕ, ℤ, String, str_eq, Bool, true, false, not, ◌&&◌, ◌||◌, List, [], ◌∷◌, map, Result, ok, err,
  if◌then◌else◌, ◌==◌,
}
use pali.Common.Text.{trim_space, is_empty, is_blank}
use pali.Common.Unique.{has_text}
use pali.Domain.Memories.{
  Tier, auto, episodic, semantic, tier_text, CreatedBy, by_user, by_system, Kind, raw_turn,
  observation, summary, event, kind_text, Memory, AnswerMetadata,
}
use pali.Facts.Keys.{normalize_value}
use pali.Facts.Relations.{contains}

-- The zero value of MemoryAnswerMetadata.
abbrev pub no_metadata : AnswerMetadata
no_metadata = record {
  answer_kind = "";
  source_sentence = "";
  surface_span = "";
  temporal_anchor = "";
  relative_time_phrase = "";
  resolved_time_start = "";
  resolved_time_end = "";
  time_granularity = "";
  support_memory_ids = [];
  support_lines = [];
}

-- StoreInput
pub record StoreInput : Type 0 where
  pub tenant_id : String
  pub content : String
  pub tier : Tier
  pub kind : Kind
  pub tags : List String
  pub source : String
  pub created_by : CreatedBy
  pub answer_metadata : AnswerMetadata

-- preparedStoreInput
pub record PreparedInput : Type 0 where
  pub idx : ℕ
  pub input : StoreInput
  pub resolved_tier : Tier
  pub resolved_kind : Kind

-- semanticTagSignals
unfoldable pub tag_signals : List String
tag_signals = "preference" ∷ "preferences" ∷ "profile" ∷ "identity" ∷ "always" ∷ "user" ∷ []

-- semanticContentSignals
unfoldable pub content_signals : List String
content_signals =
    "user prefers" ∷ "i prefer" ∷ "always" ∷ "never" ∷ "remember this" ∷ "my name is" ∷ "i live in"
    ∷ "call me" ∷ []

unfoldable pub has_tag_signal : (String → String) → List String → Bool
has_tag_signal lower [] = false
has_tag_signal lower (tag ∷ tags) =
    has_text (lower (trim_space tag)) tag_signals || has_tag_signal lower tags

unfoldable pub contains_any : String → List String → Bool
contains_any content [] = false
contains_any content (signal ∷ signals) = contains content signal || contains_any content signals

unfoldable pub by_person : CreatedBy → Bool
by_person by_user = true
by_person by_system = true
by_person _ = false

-- shouldPromoteToSemantic
unfoldable pub is_semantic : (String → String) → StoreInput → Bool
is_semantic lower in_ =
    by_person in_.created_by
    || has_tag_signal lower in_.tags
    || contains_any (lower (trim_space in_.content)) content_signals

unfoldable pub is_unset : Tier → Bool
is_unset auto = true
is_unset t = is_empty (tier_text t)

-- resolveTier
unfoldable pub resolve_tier : (String → String) → StoreInput → Tier
resolve_tier lower in_ =
    if is_unset in_.tier then (if is_semantic lower in_ then semantic else episodic) else in_.tier

-- resolveKind
unfoldable pub resolve_kind : Kind → Kind
resolve_kind observation = observation
resolve_kind summary = summary
resolve_kind event = event
resolve_kind _ = raw_turn

-- hashIdentityParts
unfoldable pub hash_identity : (List String → String) → List String → String
hash_identity digest parts = digest (map trim_space parts)

-- buildSourceTurnHash
unfoldable pub turn_hash : (List String → String) → String → String
turn_hash digest content = hash_identity digest ("turn" ∷ normalize_value content ∷ [])

-- applyIdentityToMemory with buildRawTurnIdentity
unfoldable pub with_raw_identity : (List String → String) → Memory → Memory
with_raw_identity digest m = record m {
  canonical_key = hash_identity digest ("raw_turn" ∷ turn_hash digest m.content ∷ []);
  source_turn_hash = turn_hash digest m.content;
  source_fact_index = ℤ.negsuc 0;
  extractor = "raw_turn";
  extractor_version = "v1";
}

abbrev pub is_zero_int : ℤ → Bool
is_zero_int (ℤ.pos n) = n == 0
is_zero_int (ℤ.negsuc n) = false

abbrev pub is_raw : Kind → Bool
is_raw raw_turn = true
is_raw _ = false

-- applyImplicitMemoryIdentity
unfoldable pub with_identity : (List String → String) → Memory → Memory
with_identity digest m =
    if not (is_raw m.kind)
    then m
    else if is_blank m.canonical_key
    then with_raw_identity digest m
    else record m {
      source_fact_index =
          if is_zero_int m.source_fact_index then ℤ.negsuc 0 else m.source_fact_index;
    }
