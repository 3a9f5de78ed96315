-- ===== src/Tenants.antt =====
-- Tenants: internal/repository/sqlite/tenant.go with its statements in queries.go, and the tenant
-- service of internal/core/tenant.
pub mod Counts
use pali.Common.{
  ℕ, ℤ, ◌+◌, String, str_eq, Bool, true, false, not, ◌||◌, List, [], ◌∷◌, ◌++◌, map, take, Result,
  ok, err, ◌>>=◌, guard, invalid_input, not_found, constraint_failed, if◌then◌else◌, positive_or,
}
use pali.Common.Sql.{select, count, exists, order_by}
use pali.Common.Text.{trim_space, is_empty, is_blank}
use pali.Common.Unique.{has_text}
use pali.Clock.{Time, is_zero, stamp_leb}
use pali.Domain.Memories.{Memory, Tenant}
use pali.Memories.{Db, tenant_is}

-- Create of the repository, with InsertTenantSQL
unfoldable pub create_row : Time → Tenant → Db → Result (Tenant × Db)
create_row now t db =
    let made = record t { created_at = if is_zero t.created_at then now else t.created_at } in
    guard (is_blank t.id || is_blank t.name) invalid_input (
      guard (exists (tenant_is t.id) db.tenants) constraint_failed
        (ok (made, record db { tenants = db.tenants ++ made ∷ [] })))

-- Create of the service
unfoldable pub create : Time → Tenant → Db → Result (Tenant × Db)
create now t db = guard (is_blank t.id || is_blank t.name) invalid_input (create_row now t db)

-- Exists
unfoldable pub has_tenant : String → Db → Result Bool
has_tenant id db = guard (is_blank id) invalid_input (ok (exists (tenant_is id) db.tenants))

unfoldable pub is_of : String → Memory → Bool
is_of id m = str_eq m.tenant_id id

-- MemoryCount
unfoldable pub memory_count : String → Db → Result ℕ
memory_count id db = guard (is_blank id) invalid_input (ok (count (is_of id) db.memories))

unfoldable pub newest_first : Tenant → Tenant → Bool
newest_first a b = stamp_leb b.created_at a.created_at

-- List, with ListTenantsSQL
unfoldable pub list_tenants : ℤ → Db → List Tenant
list_tenants limit db = take (positive_or limit 100) (order_by newest_first db.tenants)

-- Go's `map[string]int64`: its entries, `m[key] = n`, and `m[key]`, which is 0 where the key is missing.
unfoldable pub set_entry : String → ℕ → List (String × ℕ) → List (String × ℕ)
set_entry key n [] = (key, n) ∷ []
set_entry key n (e ∷ es) =
    let rest = set_entry key n es in if str_eq e.0 key then (key, n) ∷ es else e ∷ rest

unfoldable pub entry : String → List (String × ℕ) → ℕ
entry key [] = 0
entry key (e ∷ es) = let rest = entry key es in if str_eq e.0 key then e.1 else rest

-- GROUP BY tenant_id, with COUNT(1) of each group
unfoldable pub count_one : String → List (String × ℕ) → List (String × ℕ)
count_one key [] = (key, 1) ∷ []
count_one key (e ∷ es) =
    let rest = count_one key es in if str_eq e.0 key then (e.0, e.1 + 1) ∷ es else e ∷ rest

unfoldable pub group : List Memory → List (String × ℕ)
group [] = []
group (m ∷ ms) = count_one m.tenant_id (group ms)

-- The ids that ListMemoryCounts asks for, trimmed, without the empty ones.
unfoldable pub asked : List String → List String
asked [] = []
asked (id ∷ ids) =
    let rest = asked ids in if is_empty (trim_space id) then rest else trim_space id ∷ rest

unfoldable pub zeros : List String → List (String × ℕ)
zeros [] = []
zeros (id ∷ ids) = set_entry id 0 (zeros ids)

-- The rows come in no particular order: here the last one is set first.
unfoldable pub set_rows : List (String × ℕ) → List (String × ℕ) → List (String × ℕ)
set_rows [] out = out
set_rows (row ∷ rows) out = set_entry row.0 row.1 (set_rows rows out)

-- ListMemoryCounts, with ListTenantMemoryCountsSQL
unfoldable pub list_memory_counts : List String → Db → List (String × ℕ)
list_memory_counts ids db =
    set_rows (group (select (λ m. has_text m.tenant_id (asked ids)) db.memories))
      (zeros (asked ids))

-- Stats
unfoldable pub stats : String → Db → Result ℕ
stats id db = has_tenant id db >>= λ found. guard (not found) not_found (memory_count id db)

-- The loop of ListWithStats over a repository that cannot count for many tenants at once.
unfoldable pub stats_each : List Tenant → Db → Result (List (Tenant × ℕ))
stats_each [] db = ok []
stats_each (t ∷ ts) db = stats t.id db >>= λ n. stats_each ts db >>= λ rest. ok ((t, n) ∷ rest)

-- ListWithStats where the repository cannot count for many tenants at once, and where it can.
unfoldable pub list_with_stats_each : ℤ → Db → Result (List (Tenant × ℕ))
list_with_stats_each limit db = stats_each (list_tenants limit db) db

unfoldable pub list_with_stats : ℤ → Db → List (Tenant × ℕ)
list_with_stats limit db =
    let tenants = list_tenants limit db in
    let counts = list_memory_counts (map (λ t. t.id) tenants) db in
    map (λ t. (t, entry t.id counts)) tenants
