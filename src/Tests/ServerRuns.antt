-- ===== src/Tests/ServerRuns.antt =====
-- The settings and the telemetry of a server at concrete inputs.
use pali.Common.{
  ℕ, ℤ, zero, suc, ◌+◌, String, str_eq, Bool, true, ◌≡◌, refl, none, List, [], ◌∷◌, if◌then◌else◌,
  ltb, leb, ◌==◌, replicate, length, Succeeds, take, positive_or, ◌*◌, arith,
}
use pali.Clock.{Time}
use pali.Worker.{normalize_options}
use pali.Telemetry.{Event, zero_event, new_telemetry, minute_count, recent_events}
use pali.Telemetry.Minutes.{recorded, occurrences, minute_count-occurrences}
use pali.Telemetry.Recent.{appended, newest_first, recent_events-newest_first}
use pali.Telemetry.Records.{Observation}
use pali.Telemetry.Written.{
  Observed, stored, stored_batch, searched, observe, observe-written, written, writes_of,
}
use pali.Config.{Library, first_error}
use pali.Config.Defaults.{defaults}
use pali.Config.Checks.{validate}
use pali.Config.Worker.{worker_options, nat_of, validate-worker_options}
use pali.Tests.QueueRuns.{noon}

-- Three requests in minute 7 and one in minute 9, and a window of three minutes.
minute_count-occurrences_example :
    minute_count 7 (recorded (7 ∷ 7 ∷ 7 ∷ 9 ∷ []) (replicate 3 (record { minute = 0; count = 0 })))
    ≡ occurrences 7 (7 ∷ 7 ∷ 7 ∷ 9 ∷ [])
minute_count-occurrences_example =
    minute_count-occurrences 3 7 9 (7 ∷ 7 ∷ 7 ∷ 9 ∷ []) (omega arith)
      (omega arith, (omega arith, (omega arith, (omega arith, omega arith)))) (omega arith)

abbrev event_of : String → Event
event_of tenant = record zero_event { at = noon; tenant_id = tenant }

abbrev three_events : List (Time × Event)
three_events = (noon, event_of "anna") ∷ (noon, event_of "ben") ∷ (noon, event_of "carl") ∷ []

-- A buffer of two events forgets the first of three.
recent_events-newest_first_example :
    recent_events (ℤ.pos 9) (appended three_events (new_telemetry (ℤ.pos 3) (ℤ.pos 2)))
    ≡ take 9 (take 2 (newest_first three_events []))
recent_events-newest_first_example =
    recent_events-newest_first (ℤ.pos 3) (ℤ.pos 2) (ℤ.pos 9) three_events

abbrev asked : ℕ → Observation
asked status = record {
  at = noon;
  method = "POST";
  path = "/v1/memory";
  tenant_id = " anna ";
  status = status;
  latency_ms = 4;
}

abbrev four_requests : List Observed
four_requests =
    stored noon (asked 201)
    ∷ stored noon (asked 500)
    ∷ stored_batch noon (("anna", ℤ.pos 5) ∷ ("ben", ℤ.pos 1) ∷ []) 201
    ∷ searched noon (asked 200)
    ∷ []

written_four : written "anna" four_requests ≡ 6
unfolding written pali.Telemetry.is_success pali.Common.Text.trim_space
    pali.Telemetry.Written.writes_among pali.Telemetry.Records.counting pali.Common.Text.is_empty
written_four = refl

observe-written_example :
    writes_of "anna"
      (observe (λ n. "") four_requests (new_telemetry (ℤ.pos 3) (ℤ.pos 2))).tenant_counts
    ≡ written "anna" four_requests
      + writes_of "anna" (new_telemetry (ℤ.pos 3) (ℤ.pos 2)).tenant_counts
unfolding pali.Common.Text.is_empty
observe-written_example =
    observe-written (λ n. "") "anna" four_requests (new_telemetry (ℤ.pos 3) (ℤ.pos 2)) refl

-- A library for the check: the texts are in lower case already, and the numbers are not negative.
abbrev pub plain : Library
plain = record {
  to_lower = λ s. s;
  is_uri = λ s. true;
  less = ltb;
  equal = ◌==◌;
  plus = λ a b. if a == 0 then b else a;
}

pub defaults-accepted : validate plain defaults ≡ none
unfolding validate first_error pali.Config.Checks.backend_checks pali.Config.is_embedding_provider
    pali.Common.Unique.has_text pali.Config.normalize_provider pali.Common.Text.trim_space
    pali.Common.Text.is_empty pali.Config.only pali.Config.Checks.search_checks
    pali.Config.is_text_provider pali.Config.normalize_or pali.Config.is_ranking_algorithm
    pali.Config.weight_checks pali.Config.is_float_zero pali.Config.match_weight_checks
    pali.Config.outside_unit pali.Config.Checks.store_checks pali.Common.Text.before_trimmed
    pali.Common.Text.is_blank pali.Common.Text.is_space pali.Common.Text.trim_left
    pali.Common.Text.trim_right pali.Config.Checks.worker_checks
    pali.Config.is_decomposition_provider pali.Config.normalize_decomposition
    pali.Config.openrouter_checks
defaults-accepted = refl

validate-worker_options_example : normalize_options (worker_options defaults.postprocess) ≡ record {
  enabled = defaults.postprocess.enabled;
  poll_interval = nat_of defaults.postprocess.poll_interval_ms * 1_000_000;
  batch_size = nat_of defaults.postprocess.batch_size;
  worker_count = nat_of defaults.postprocess.worker_count;
  lease = nat_of defaults.postprocess.lease_ms * 1_000_000;
  max_attempts = nat_of defaults.postprocess.max_attempts;
  retry_base = nat_of defaults.postprocess.retry_base_ms * 1_000_000;
  retry_max = nat_of defaults.postprocess.retry_max_ms * 1_000_000;
}
validate-worker_options_example =
    validate-worker_options plain defaults defaults-accepted (omega arith) (omega arith)
      (omega arith) (omega arith)
