-- ===== src/Tenants/Counts.antt =====
-- Counting the memories of many tenants at once gives what counting them one by one gives.
use pali.Common.{
  ℕ, ℤ, ◌+◌, String, str_eq, eq_iff, eq_refl, Bool, true, ◌≡◌, refl, sym, ap, ◌∙◌, List, [], ◌∷◌,
  map, length, ok, arith, All, All-mono, All-take, All-zip, if◌then◌else◌,
}
use pali.Common.Sql.{select, count, exists, All-order_by}
use pali.Common.Sql.Laws.{select-select, length-select}
use pali.Common.Text.{IsTidy, tidy_filled}
use pali.Common.Unique.{has_text}
use pali.Domain.Memories.{Memory, Tenant}
use pali.Memories.{Db, tenant_is}
use pali.Tenants.{
  is_of, list_tenants, set_entry, entry, count_one, group, asked, zeros, set_rows,
  list_memory_counts, has_tenant, memory_count, stats, stats_each, list_with_stats_each,
  list_with_stats,
}

entry-set_entry :
    (key k : String) (n : ℕ) (es : List (String × ℕ))
    → entry key (set_entry k n es) ≡ (if str_eq k key then n else entry key es)
unfolding entry set_entry
entry-set_entry key k n [] = refl
entry-set_entry key k n (e ∷ es) =
    ground (arith, entry-set_entry key k n es, eq_iff e.0 k, eq_iff k key, eq_iff e.0 key)

entry-count_one :
    (key k : String) (es : List (String × ℕ))
    → entry key (count_one k es) ≡ (if str_eq k key then entry key es + 1 else entry key es)
unfolding entry count_one
entry-count_one key k [] = ground arith
entry-count_one key k (e ∷ es) =
    ground (arith, entry-count_one key k es, eq_iff e.0 k, eq_iff k key, eq_iff e.0 key)

entry-group : (key : String) (ms : List Memory) → entry key (group ms) ≡ count (is_of key) ms
unfolding group entry count is_of
entry-group key [] = refl
entry-group key (m ∷ ms) =
    entry-count_one key m.tenant_id (group ms) ∙ ground (arith, entry-group key ms)

entry-zeros : (key : String) (ids : List String) → entry key (zeros ids) ≡ 0
unfolding zeros entry
entry-zeros key [] = refl
entry-zeros key (id ∷ ids) =
    entry-set_entry key id 0 (zeros ids) ∙ ground (arith, entry-zeros key ids)

entry-set_rows :
    (key : String) (rows out : List (String × ℕ))
    → entry key out ≡ 0
    → entry key (set_rows rows out) ≡ entry key rows
unfolding set_rows entry
entry-set_rows key [] out h = h
entry-set_rows key (row ∷ rows) out h =
    entry-set_entry key row.0 row.1 (set_rows rows out)
    ∙ ground (arith, entry-set_rows key rows out h)

count-select :
    {A : Type 0} (p q : A → Bool) (xs : List A)
    → ((a : A) → p a ≡ true → q a ≡ true)
    → count p (select q xs) ≡ count p xs
count-select p q xs k =
    sym (length-select p (select q xs)) ∙ ap length (select-select p q xs k) ∙ length-select p xs

-- The count of ListMemoryCounts for an id that was asked for.
list_memory_counts-entry :
    (ids : List String) (id : String) (db : Db)
    → has_text id (asked ids) ≡ true
    → entry id (list_memory_counts ids db) ≡ count (is_of id) db.memories
unfolding list_memory_counts is_of
list_memory_counts-entry ids id db h =
    entry-set_rows id (group (select (λ m. has_text m.tenant_id (asked ids)) db.memories))
      (zeros (asked ids)) (entry-zeros id (asked ids))
    ∙ entry-group id (select (λ m. has_text m.tenant_id (asked ids)) db.memories)
    ∙ count-select (is_of id) (λ m. has_text m.tenant_id (asked ids)) db.memories
        (λ m e. ap (λ s. has_text s (asked ids)) ((eq_iff m.tenant_id id).0 e) ∙ h)

asked-has_text :
    (ts : List Tenant)
    → All (λ t. IsTidy t.id) ts
    → All (λ t. has_text t.id (asked (map (λ u. u.id) ts)) ≡ true) ts
unfolding asked has_text
asked-has_text [] h = tt
asked-has_text (t ∷ ts) h =
    rw (h.0.0, h.0.1)
      (ground (arith, eq_refl t.id), All-mono _ _ (λ u e. ground arith) ts (asked-has_text ts h.1))

-- Each row of a table is in it.
rows_exist : (ts : List Tenant) → All (λ t. exists (tenant_is t.id) ts ≡ true) ts
unfolding exists tenant_is
rows_exist [] = tt
rows_exist (t ∷ ts) =
    (ground (arith, eq_refl t.id), All-mono _ _ (λ u e. ground arith) ts (rows_exist ts))

stats-count :
    (id : String) (db : Db)
    → IsTidy id
    → exists (tenant_is id) db.tenants ≡ true
    → stats id db ≡ ok (count (is_of id) db.memories)
unfolding stats has_tenant memory_count
stats-count id db h e = rw (tidy_filled id h, e) refl

stats_each-map :
    (f : Tenant → ℕ) (ts : List Tenant) (db : Db)
    → All (λ t. stats t.id db ≡ ok (f t)) ts
    → stats_each ts db ≡ ok (map (λ t. (t, f t)) ts)
unfolding stats_each
stats_each-map f [] db h = refl
stats_each-map f (t ∷ ts) db h = rw (h.0, stats_each-map f ts db h.1) refl

-- What holds of every row holds of the rows that List returns.
listed :
    (P : Tenant → Type 0) (limit : ℤ) (db : Db) → All P db.tenants → All P (list_tenants limit db)
unfolding list_tenants
listed P limit db h = All-take P _ _ (All-order_by P _ db.tenants h)

-- Where no tenant's id has white space around it, ListWithStats answers the same tenants with the
-- same counts, and no error, whether the repository counts for many tenants at once or for each.
pub list_with_stats-each :
    (limit : ℤ) (db : Db)
    → All (λ t. IsTidy t.id) db.tenants
    → list_with_stats_each limit db ≡ ok (list_with_stats limit db)
unfolding list_with_stats_each list_with_stats
list_with_stats-each limit db h =
    let tenants = list_tenants limit db in
    let tidy = listed (λ t. IsTidy t.id) limit db h in
    let there = listed _ limit db (rows_exist db.tenants) in
    stats_each-map _ tenants db (
      All-mono _ _
        (λ t k.
          stats-count t.id db k.0 k.1.0
          ∙ ap ok (sym (list_memory_counts-entry (map (λ u. u.id) tenants) t.id db k.1.1)))
        tenants
        (All-zip _ _ tenants tidy (All-zip _ _ tenants there (asked-has_text tenants tidy))))
