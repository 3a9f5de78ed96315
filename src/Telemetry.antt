-- ===== src/Telemetry.antt =====
-- What the server records of its requests: internal/telemetry/service.go. A method takes the state
-- and returns it. A status is a natural number, and `clock` is `time.Now()`.
pub mod Minutes
pub mod Slots
pub mod Recent
pub mod Records
pub mod Written
use pali.Common.{
  ℕ, ℤ, zero, suc, ◌+◌, ◌-◌, ◌/◌, ◌%◌, String, str_eq, Bool, true, false, not, ◌&&◌, ◌||◌, Option,
  none, some, List, [], ◌∷◌, ◌++◌, if◌then◌else◌, ltb, leb, ◌==◌, length, take, positive_or, get_or,
  set, replicate,
}
use pali.Common.Sql.{order_by}
use pali.Common.Text.{trim_space, is_empty, strip_prefix}
use pali.Clock.{Time, second, is_zero, unix_epoch}

-- Event
pub record Event : Type 0 where
  pub at : Time
  pub type : String
  pub method : String
  pub path : String
  pub tenant_id : String
  pub status : ℕ
  pub latency_ms : ℕ
  pub detail : String

abbrev pub zero_event : Event
zero_event = record {
  at = 0;
  type = "";
  method = "";
  path = "";
  tenant_id = "";
  status = 0;
  latency_ms = 0;
  detail = "";
}

-- minuteBucket
pub record MinuteBucket : Type 0 where
  pub minute : ℕ
  pub count : ℕ

-- TenantStat, and the entry of the map `tenantCounts`.
pub record TenantStat : Type 0 where
  pub tenant_id : String
  pub writes : ℕ
  pub searches : ℕ

-- Service; the counter of active requests is how many started and how many finished.
pub record Telemetry : Type 0 where
  pub started : ℕ
  pub finished : ℕ
  pub store_count : ℕ
  pub batch_store_count : ℕ
  pub search_count : ℕ
  pub request_ring : List MinuteBucket
  pub events : List Event
  pub event_head : ℕ
  pub event_size : ℕ
  pub tenant_counts : List TenantStat

-- NewService, with the options for the window and for the buffer.
unfoldable pub new_telemetry : ℤ → ℤ → Telemetry
new_telemetry window buffer = record {
  started = 0;
  finished = 0;
  store_count = 0;
  batch_store_count = 0;
  search_count = 0;
  request_ring = replicate (positive_or window 30) (record { minute = 0; count = 0 });
  events = replicate (positive_or buffer 256) zero_event;
  event_head = 0;
  event_size = 0;
  tenant_counts = [];
}

-- RequestStarted and RequestFinished
unfoldable pub request_started : Telemetry → Telemetry
request_started s = record s { started = s.started + 1 }

unfoldable pub request_finished : Telemetry → Telemetry
request_finished s = record s { finished = s.finished + 1 }

-- The event as it is kept.
unfoldable pub stamped : Time → Event → Event
stamped clock e = record e { at = if is_zero e.at then clock else e.at }

-- appendEvent
unfoldable pub append_event : Time → Event → Telemetry → Telemetry
append_event clock e s = if length s.events == 0 then s else record s {
  events = set s.events s.event_head (stamped clock e);
  event_head = (s.event_head + 1) % length s.events;
  event_size = if ltb s.event_size (length s.events) then s.event_size + 1 else s.event_size;
}

-- The loop of recentEvents, from the event `i` before the last one.
unfoldable pub events_from : ℕ → ℕ → Telemetry → List Event
events_from zero i s = []
events_from (suc n) i s =
    get_or zero_event s.events ((s.event_head + length s.events - 1 - i) % length s.events)
    ∷ events_from n (suc i) s

-- recentEvents
unfoldable pub recent_events : ℤ → Telemetry → List Event
recent_events limit s =
    let wanted = positive_or limit 20 in
    events_from (if ltb s.event_size wanted then s.event_size else wanted) 0 s

-- `Unix() / 60`, for an instant since 1970.
unfoldable pub minute_of : Time → ℕ
minute_of now = (now - unix_epoch) / second / 60

-- The bucket of a minute.
unfoldable pub bucket_at : ℕ → List MinuteBucket → MinuteBucket
bucket_at minute ring = get_or (record { minute = 0; count = 0 }) ring (minute % length ring)

unfoldable pub counted : ℕ → MinuteBucket → MinuteBucket
counted minute b =
    if b.minute == minute
    then record b { count = b.count + 1 }
    else record { minute = minute; count = 1 }

-- recordRequestMinute, for the minute of the request.
unfoldable pub record_minute : ℕ → List MinuteBucket → List MinuteBucket
record_minute minute [] = []
record_minute minute (b ∷ bs) =
    set (b ∷ bs) (minute % length (b ∷ bs)) (counted minute (bucket_at minute (b ∷ bs)))

-- The count that requestsPerMinute reports for a minute.
unfoldable pub minute_count : ℕ → List MinuteBucket → ℕ
minute_count minute ring =
    if (bucket_at minute ring).minute == minute then (bucket_at minute ring).count else 0

-- The loop of requestsPerMinute, from the minute `start`.
unfoldable pub counts_from : ℕ → ℕ → List MinuteBucket → List (ℕ × ℕ)
counts_from zero start ring = []
counts_from (suc n) start ring = (start, minute_count start ring) ∷ counts_from n (suc start) ring

-- requestsPerMinute
unfoldable pub requests_per_minute : Time → Telemetry → List (ℕ × ℕ)
requests_per_minute now s =
    counts_from (length s.request_ring) (minute_of now + 1 - length s.request_ring) s.request_ring

-- isSuccessStatus
unfoldable pub is_success : ℕ → Bool
is_success status = leb 200 status && ltb status 400

-- shouldTrackRequestPath
unfoldable pub is_tracked : String → Bool
is_tracked path = elim (strip_prefix "/v1/" (trim_space path)) [ none ↦ false | some rest ↦ true ]

-- addTenantWrites and addTenantSearches
unfoldable pub add_counts : String → ℕ → ℕ → List TenantStat → List TenantStat
add_counts tenant writes searches [] =
    record { tenant_id = tenant; writes = writes; searches = searches } ∷ []
add_counts tenant writes searches (t ∷ ts) =
    let rest = add_counts tenant writes searches ts in
    if str_eq t.tenant_id tenant
    then record t { writes = t.writes + writes; searches = t.searches + searches } ∷ ts
    else t ∷ rest

unfoldable pub add_tenant_writes : String → ℕ → Telemetry → Telemetry
add_tenant_writes tenant value s =
    if value == 0 || is_empty tenant
    then s
    else record s { tenant_counts = add_counts tenant value 0 s.tenant_counts }

unfoldable pub add_tenant_searches : String → ℕ → Telemetry → Telemetry
add_tenant_searches tenant value s =
    if value == 0 || is_empty tenant
    then s
    else record s { tenant_counts = add_counts tenant 0 value s.tenant_counts }
