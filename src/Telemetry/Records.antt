-- ===== src/Telemetry/Records.antt =====
-- What a request, a store, a batch and a search record: RecordRequest, RecordStore,
-- RecordBatchStore, RecordSearch and the tenants of a snapshot.
use pali.Common.{
  ℕ, ℤ, ◌+◌, String, Bool, true, false, ◌&&◌, ◌||◌, List, [], ◌∷◌, if◌then◌else◌, ltb, ◌==◌, take,
  positive_or,
}
use Prim.Native.String
use Prim.Native.Nat.{Ordering}
use pali.Common.Sql.{order_by}
use pali.Common.Text.{trim_space, is_empty}
use pali.Clock.{Time, is_zero}
use pali.Telemetry.{
  Event, TenantStat, Telemetry, append_event, record_minute, minute_of, is_success, is_tracked,
  add_tenant_writes, add_tenant_searches,
}

-- A request, a store or a search: the time, or 0, the method and the path of a request, the
-- tenant, the status and the latency in milliseconds.
pub record Observation : Type 0 where
  pub at : Time
  pub method : String
  pub path : String
  pub tenant_id : String
  pub status : ℕ
  pub latency_ms : ℕ

unfoldable pub time_of : Time → Time → Time
time_of clock at = if is_zero at then clock else at

unfoldable pub path_or_root : String → String
path_or_root path = if is_empty (trim_space path) then "/" else trim_space path

-- RecordRequest
unfoldable pub record_request : Time → Observation → Telemetry → Telemetry
record_request clock o s =
    if is_tracked (path_or_root o.path)
    then append_event clock
        (record {
          at = time_of clock o.at;
          type = "request";
          method = trim_space o.method;
          path = path_or_root o.path;
          tenant_id = trim_space o.tenant_id;
          status = o.status;
          latency_ms = o.latency_ms;
          detail = "";
        })
        (record s { request_ring = record_minute (minute_of (time_of clock o.at)) s.request_ring })
    else s

-- The event of a store or a search.
unfoldable pub posted : Time → String → String → Observation → Event
posted clock type path o = record {
  at = time_of clock o.at;
  type = type;
  method = "POST";
  path = path;
  tenant_id = trim_space o.tenant_id;
  status = o.status;
  latency_ms = o.latency_ms;
  detail = "";
}

-- RecordStore
unfoldable pub record_store : Time → Observation → Telemetry → Telemetry
record_store clock o s = append_event clock (posted clock "store" "/v1/memory" o) (
    if is_success o.status
    then add_tenant_writes (trim_space o.tenant_id) 1 (record s { store_count = s.store_count + 1 })
    else s)

-- RecordSearch
unfoldable pub record_search : Time → Observation → Telemetry → Telemetry
record_search clock o s = append_event clock (posted clock "search" "/v1/memory/search" o) (
    if is_success o.status
    then add_tenant_searches (trim_space o.tenant_id) 1
        (record s { search_count = s.search_count + 1 })
    else s)

-- The entries of TenantWrites that count, with their ids trimmed.
unfoldable pub counting : List (String × ℤ) → List (String × ℕ)
counting [] = []
counting (w ∷ ws) =
    let rest = counting ws in
    if is_empty (trim_space w.0) || positive_or w.1 0 == 0
    then rest
    else (trim_space w.0, positive_or w.1 0) ∷ rest

unfoldable pub add_all_writes : List (String × ℕ) → Telemetry → Telemetry
add_all_writes [] s = s
add_all_writes (w ∷ ws) s = add_all_writes ws (add_tenant_writes w.0 w.1 s)

unfoldable pub total : List (String × ℕ) → ℕ
total [] = 0
total (w ∷ ws) = w.1 + total ws

unfoldable pub only_tenant : List (String × ℕ) → String
only_tenant [] = ""
only_tenant (w ∷ []) = w.0
only_tenant (w ∷ v ∷ ws) = ""

-- RecordBatchStore; the entries of the map come in any order, and `items_text` is "items=" and the
-- digits of the number.
unfoldable pub record_batch_store :
    (ℕ → String) → Time → Time → List (String × ℤ) → ℕ → ℕ → Telemetry → Telemetry
record_batch_store items_text clock at writes status latency_ms s =
    let counted : List (String × ℕ) = counting writes in
    append_event clock
      (record {
        at = time_of clock at;
        type = "batch_store";
        method = "POST";
        path = "/v1/memory/batch";
        tenant_id = only_tenant counted;
        status = status;
        latency_ms = latency_ms;
        detail =
            if is_success status && ltb 0 (total counted) then items_text (total counted) else "";
      })
      (if is_success status
        then add_all_writes counted (record s { batch_store_count = s.batch_store_count + 1 })
        else s)

unfoldable pub text_le : String → String → Bool
text_le a b = elim (String.compare a b) [ Ordering.gt ↦ false | _ ↦ true ]

unfoldable pub more_writes : TenantStat → TenantStat → Bool
more_writes a b =
    if ltb b.writes a.writes
    then true
    else if ltb a.writes b.writes
    then false
    else if ltb b.searches a.searches
    then true
    else if ltb a.searches b.searches
    then false
    else text_le a.tenant_id b.tenant_id

unfoldable pub more_searches : TenantStat → TenantStat → Bool
more_searches a b =
    if ltb b.searches a.searches
    then true
    else if ltb a.searches b.searches
    then false
    else if ltb b.writes a.writes
    then true
    else if ltb a.writes b.writes
    then false
    else text_le a.tenant_id b.tenant_id

-- topTenants, by the writes or by the searches
unfoldable pub top_tenants : ℤ → Bool → Telemetry → List TenantStat
top_tenants limit by_writes s =
    take (positive_or limit 5)
      (order_by (if by_writes then more_writes else more_searches) s.tenant_counts)
