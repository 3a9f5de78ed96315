-- ===== src/Telemetry/Written.antt =====
-- The writes that the counts of the tenants have after a run of the server.
use pali.Common.{
  ℕ, ℤ, ◌+◌, String, str_eq, eq_iff, false, ◌&&◌, ◌≡◌, refl, ap, ◌∙◌, List, [], ◌∷◌, if◌then◌else◌,
  arith, inl, inr, Bool-cases,
}
use pali.Common.Text.{trim_space, is_empty}
use pali.Clock.{Time}
use pali.Telemetry.{
  Event, TenantStat, Telemetry, append_event, is_success, add_counts, add_tenant_writes,
  add_tenant_searches,
}
use pali.Telemetry.Records.{
  Observation, posted, record_store, record_search, counting, add_all_writes, record_batch_store,
}

-- The writes of a tenant.
unfoldable pub writes_of : String → List TenantStat → ℕ
writes_of tenant [] = 0
writes_of tenant (t ∷ ts) =
    let rest = writes_of tenant ts in if str_eq t.tenant_id tenant then t.writes else rest

writes_of-add_counts :
    (tenant t : String) (w r : ℕ) (ts : List TenantStat)
    → writes_of tenant (add_counts t w r ts)
      ≡ (if str_eq t tenant then w else 0) + writes_of tenant ts
unfolding writes_of add_counts
writes_of-add_counts tenant t w r [] = ground arith
writes_of-add_counts tenant t w r (x ∷ ts) = ground (
  arith,
  writes_of-add_counts tenant t w r ts,
  eq_iff x.tenant_id t,
  eq_iff x.tenant_id tenant,
  eq_iff t tenant,
)

-- The events do not touch the counts of tenants.
counts-append_event :
    (clock : Time) (e : Event) (s : Telemetry)
    → (append_event clock e s).tenant_counts ≡ s.tenant_counts
unfolding append_event
counts-append_event clock e s = ground arith

-- What a run of the server observes of its memories.
pub data Observed : Type 0 where
  stored searched : Time → Observation → Observed
  stored_batch : Time → List (String × ℤ) → ℕ → Observed

unfoldable pub observe : (ℕ → String) → List Observed → Telemetry → Telemetry
observe items_text [] s = s
observe items_text (stored clock o ∷ os) s = observe items_text os (record_store clock o s)
observe items_text (searched clock o ∷ os) s = observe items_text os (record_search clock o s)
observe items_text (stored_batch clock writes status ∷ os) s =
    observe items_text os (record_batch_store items_text clock 0 writes status 0 s)

unfoldable pub writes_among : String → List (String × ℕ) → ℕ
writes_among tenant [] = 0
writes_among tenant (w ∷ ws) = (if str_eq w.0 tenant then w.1 else 0) + writes_among tenant ws

-- The memories that the successful stores and batches wrote for a tenant.
unfoldable pub written : String → List Observed → ℕ
written tenant [] = 0
written tenant (stored clock o ∷ os) =
    (if is_success o.status && str_eq (trim_space o.tenant_id) tenant then 1 else 0)
    + written tenant os
written tenant (searched clock o ∷ os) = written tenant os
written tenant (stored_batch clock writes status ∷ os) =
    (if is_success status then writes_among tenant (counting writes) else 0) + written tenant os

writes-add_tenant_writes :
    (tenant t : String) (n : ℕ) (s : Telemetry)
    → is_empty tenant ≡ false
    → writes_of tenant (add_tenant_writes t n s).tenant_counts
      ≡ (if str_eq t tenant then n else 0) + writes_of tenant s.tenant_counts
unfolding add_tenant_writes
writes-add_tenant_writes tenant t n s h =
    ground (arith, writes_of-add_counts tenant t n 0 s.tenant_counts, eq_iff t tenant)

writes-add_tenant_searches :
    (tenant t : String) (n : ℕ) (s : Telemetry)
    → writes_of tenant (add_tenant_searches t n s).tenant_counts ≡ writes_of tenant s.tenant_counts
unfolding add_tenant_searches
writes-add_tenant_searches tenant t n s =
    ground (arith, writes_of-add_counts tenant t 0 n s.tenant_counts)

writes-add_all_writes :
    (tenant : String) (ws : List (String × ℕ)) (s : Telemetry)
    → is_empty tenant ≡ false
    → writes_of tenant (add_all_writes ws s).tenant_counts
      ≡ writes_among tenant ws + writes_of tenant s.tenant_counts
unfolding add_all_writes writes_among
writes-add_all_writes tenant [] s h = omega arith
writes-add_all_writes tenant (w ∷ ws) s h = omega (
  arith,
  writes-add_all_writes tenant ws (add_tenant_writes w.0 w.1 s) h,
  writes-add_tenant_writes tenant w.0 w.1 s h,
)

writes-record_store :
    (tenant : String) (clock : Time) (o : Observation) (s : Telemetry)
    → is_empty tenant ≡ false
    → writes_of tenant (record_store clock o s).tenant_counts
      ≡ (if is_success o.status && str_eq (trim_space o.tenant_id) tenant then 1 else 0)
        + writes_of tenant s.tenant_counts
unfolding record_store
writes-record_store tenant clock o s h =
    ap (writes_of tenant) (counts-append_event clock (posted clock "store" "/v1/memory" o) _)
    ∙ elim (Bool-cases (is_success o.status)) [
      | inl e ↦ rw e (
          writes-add_tenant_writes tenant (trim_space o.tenant_id) 1
            (record s { store_count = s.store_count + 1 }) h)
      | inr e ↦ rw e (omega arith)
    ]

writes-record_search :
    (tenant : String) (clock : Time) (o : Observation) (s : Telemetry)
    → writes_of tenant (record_search clock o s).tenant_counts ≡ writes_of tenant s.tenant_counts
unfolding record_search
writes-record_search tenant clock o s =
    ap (writes_of tenant)
      (counts-append_event clock (posted clock "search" "/v1/memory/search" o) _)
    ∙ elim (Bool-cases (is_success o.status)) [
      | inl e ↦ rw e (
          writes-add_tenant_searches tenant (trim_space o.tenant_id) 1
            (record s { search_count = s.search_count + 1 }))
      | inr e ↦ rw e refl
    ]

writes-record_batch_store :
    (items_text : ℕ → String) (tenant : String) (clock : Time) (writes : List (String × ℤ))
    (status : ℕ) (s : Telemetry)
    → is_empty tenant ≡ false
    → writes_of tenant (record_batch_store items_text clock 0 writes status 0 s).tenant_counts
      ≡ (if is_success status then writes_among tenant (counting writes) else 0)
        + writes_of tenant s.tenant_counts
unfolding record_batch_store
writes-record_batch_store items_text tenant clock writes status s h =
    ap (writes_of tenant) (counts-append_event clock _ _) ∙ elim (Bool-cases (is_success status)) [
      | inl e ↦ rw e (
          writes-add_all_writes tenant (counting writes)
            (record s { batch_store_count = s.batch_store_count + 1 }) h)
      | inr e ↦ rw e (omega arith)
    ]

-- After any stores, batches and searches on a server, the writes counted for a tenant are those
-- before and the memories that its successful stores and batches wrote; failed ones count nothing.
pub observe-written :
    (items_text : ℕ → String) (tenant : String) (os : List Observed) (s : Telemetry)
    → is_empty tenant ≡ false
    → writes_of tenant (observe items_text os s).tenant_counts
      ≡ written tenant os + writes_of tenant s.tenant_counts
unfolding observe written
observe-written items_text tenant [] s h = omega arith
observe-written items_text tenant (stored clock o ∷ os) s h = omega (
  arith,
  observe-written items_text tenant os (record_store clock o s) h,
  writes-record_store tenant clock o s h,
)
observe-written items_text tenant (searched clock o ∷ os) s h = omega (
  arith,
  observe-written items_text tenant os (record_search clock o s) h,
  writes-record_search tenant clock o s,
)
observe-written items_text tenant (stored_batch clock writes status ∷ os) s h = omega (
  arith,
  observe-written items_text tenant os (record_batch_store items_text clock 0 writes status 0 s) h,
  writes-record_batch_store items_text tenant clock writes status s h,
)
