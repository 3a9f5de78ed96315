-- ===== src/Memories/Asked.antt =====
-- What GetByIDs returns.
use pali.Common.{
  String, str_eq, eq_iff, Bool, true, false, not, ◌&&◌, ◌||◌, ◌≡◌, ◌∙◌, List, [], ◌∷◌, ◌≤◌,
  Succeeds, arith, inl, inr, Bool-cases, AllPairs,
}
use pali.Common.Sql.{count, exists, select}
use pali.Common.Sql.Laws.{count-select, count-order_by, order_by-sorted}
use pali.Common.Text.{trim_space, is_empty, is_blank}
use pali.Common.Unique.{has_text, unique_from, unique_non_empty, index_of}
use pali.Domain.Memories.{Memory}
use pali.Memories.{Db, memory_in, memory_order, get_by_ids}

-- One of the texts, without the white space around it, is this one, which is not empty.
unfoldable pub is_asked : List String → String → Bool
is_asked ids s = exists (λ i. str_eq s (trim_space i)) ids && not (is_empty s)

-- The loop that drops repeated and blank ids keeps every id that is asked for.
has_text-unique_from :
    (seen ids : List String) (s : String)
    → has_text s (unique_from seen ids) ≡ (is_asked ids s && not (has_text s seen))
unfolding has_text unique_from is_asked exists
has_text-unique_from seen [] s = ground arith
has_text-unique_from seen (i ∷ ids) s =
    elim (Bool-cases (is_empty (trim_space i) || has_text (trim_space i) seen)) [
      | inl e ↦ rw e (has_text-unique_from seen ids s ∙ same e)
      | inr e ↦ rw (e, has_text-unique_from (trim_space i ∷ seen) ids s) (other e)
    ]
  where
    same :
        (is_empty (trim_space i) || has_text (trim_space i) seen) ≡ true
        → ((exists (λ j. str_eq s (trim_space j)) ids && not (is_empty s)) && not (has_text s seen))
          ≡ (((str_eq s (trim_space i) || exists (λ j. str_eq s (trim_space j)) ids)
                && not (is_empty s))
              && not (has_text s seen))
    same e = ground (arith, eq_iff s (trim_space i))

    other :
        (is_empty (trim_space i) || has_text (trim_space i) seen) ≡ false
        → (str_eq s (trim_space i)
            || ((exists (λ j. str_eq s (trim_space j)) ids && not (is_empty s))
                && not (str_eq s (trim_space i) || has_text s seen)))
          ≡ (((str_eq s (trim_space i) || exists (λ j. str_eq s (trim_space j)) ids)
                && not (is_empty s))
              && not (has_text s seen))
    other e = ground (arith, eq_iff s (trim_space i))

memory_in-is_asked :
    (p : Memory → Bool) (tenant : String) (ids : List String) (m : Memory)
    → (p m && memory_in tenant (unique_non_empty ids) m)
      ≡ (p m && (str_eq m.tenant_id tenant && is_asked ids m.id))
unfolding memory_in unique_non_empty has_text
memory_in-is_asked p tenant ids m = ground (arith, has_text-unique_from [] ids m.id)

-- For a tenant that is not blank, GetByIDs returns every row of the tenant whose id is one of those
-- that were asked for, without the white space around them and not empty, as often as it is in the
-- table, and nothing else: whatever is counted, there is as much of it in both. They are in the
-- order of the first places of their ids among those that were asked for.
pub get_by_ids-exactly :
    (p : Memory → Bool) (tenant : String) (ids : List String) (db : Db)
    → is_blank tenant ≡ false
    → Succeeds
        (λ ms.
          (count p ms
            ≡ count (λ m. p m && (str_eq m.tenant_id tenant && is_asked ids m.id)) db.memories)
          × AllPairs
              (λ a b. index_of (unique_non_empty ids) a.id ≤ index_of (unique_non_empty ids) b.id)
              ms)
        (get_by_ids tenant ids db)
unfolding get_by_ids memory_order
get_by_ids-exactly p tenant ids db filled = rw filled (
  count-order_by p (memory_order (unique_non_empty ids))
        (select (memory_in tenant (unique_non_empty ids)) db.memories)
      ∙ count-select p (memory_in tenant (unique_non_empty ids)) _ db.memories
          (memory_in-is_asked p tenant ids),
  order_by-sorted (λ m. index_of (unique_non_empty ids) m.id) _,
)
