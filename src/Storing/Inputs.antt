-- ===== src/Storing/Inputs.antt =====
-- The checks of the inputs, prepareStoreInputs of internal/core/memory/store.go.
use pali.Common.{
  ℕ, suc, String, str_eq, Bool, true, false, not, ◌||◌, ◌≡◌, refl, List, [], ◌∷◌, Result, ok, ◌>>=◌,
  guard, IfOk, IfOk-guard, IfOk-bind, invalid_input, other_error, inl, inr, Bool-cases, All,
  if◌then◌else◌, ap, sym, subst, eq_iff, arith,
}
use pali.Common.Sql.{exists}
use pali.Common.Text.{trim_space, is_empty, is_blank}
use pali.Common.Unique.{has_text}
use pali.Domain.Memories.{tier_text}
use pali.Memories.{Db, tenant_is}
use pali.Service.{ensure_tenant_exists}
use pali.Storing.{StoreInput, PreparedInput, is_unset, is_semantic, resolve_tier, resolve_kind}

-- An input that passed the checks, at its place.
unfoldable pub prepared_input : (String → String) → ℕ → StoreInput → PreparedInput
prepared_input lower i in_ = record {
  idx = i;
  input = record in_ { tenant_id = trim_space in_.tenant_id };
  resolved_tier = resolve_tier lower in_;
  resolved_kind = resolve_kind in_.kind;
}

-- The tenant of an input, where it is not one of those `checked` before.
unfoldable pub check_tenant : List String → String → Db → Result {0} Unit
check_tenant checked tenant db =
    if has_text tenant checked then ok tt else ensure_tenant_exists tenant db

-- The loop of prepareStoreInputs, from the input numbered `i`.
unfoldable pub prepare_from :
    (String → String) → List String → ℕ → List StoreInput → Db → Result (List PreparedInput)
prepare_from lower checked i [] db = ok []
prepare_from lower checked i (in_ ∷ ins) db =
    guard (is_empty (trim_space in_.tenant_id) || is_blank in_.content) invalid_input (
      check_tenant checked (trim_space in_.tenant_id) db >>= λ u.
      prepare_from lower (trim_space in_.tenant_id ∷ checked) (suc i) ins db >>= λ later.
      ok (prepared_input lower i in_ ∷ later))

-- prepareStoreInputs; `ready` says whether the service has a scorer, an embedder and a vector store.
unfoldable pub prepare_inputs :
    (String → String) → Bool → List StoreInput → Db → Result (List PreparedInput)
prepare_inputs lower ready ins db = guard (not ready) other_error (prepare_from lower [] 0 ins db)

-- The inputs at their places.
unfoldable pub numbered : (String → String) → ℕ → List StoreInput → List PreparedInput
numbered lower i [] = []
numbered lower i (in_ ∷ ins) = prepared_input lower i in_ ∷ numbered lower (suc i) ins

-- What the checks are for: the tenant exists, the content is not blank, and the tier and the kind are set.
pub record IsPrepared (db : Db) (p : PreparedInput) : Type 0 where
  pub housed : exists (tenant_is p.input.tenant_id) db.tenants ≡ true
  pub filled : is_blank p.input.content ≡ false
  pub tiered : is_unset p.resolved_tier ≡ false

resolve_tier-set :
    (lower : String → String) (in_ : StoreInput) → is_unset (resolve_tier lower in_) ≡ false
unfolding resolve_tier is_unset is_empty tier_text
resolve_tier-set lower in_ = elim (Bool-cases (is_unset in_.tier)) [
  | inl e ↦ elim (Bool-cases (is_semantic lower in_)) [
    | inl k ↦ rw (e, k) refl
    | inr k ↦ rw (e, k) refl
  ]
  | inr e ↦ rw e e
]

-- The tenants that were checked exist.
abbrev Checked : List String → Db → Type 0
Checked checked db =
    (t : String) → has_text t checked ≡ true → exists (tenant_is t) db.tenants ≡ true

ensure_tenant_exists-housed :
    (tenant : String) (db : Db)
    → IfOk (λ u. exists (tenant_is tenant) db.tenants ≡ true) (ensure_tenant_exists tenant db)
unfolding ensure_tenant_exists
ensure_tenant_exists-housed tenant db = elim (Bool-cases (is_blank tenant)) [
  | inl e ↦ rw e tt
  | inr e ↦ elim (Bool-cases (exists (tenant_is tenant) db.tenants)) [
    | inl h ↦ rw (e, h) refl
    | inr h ↦ rw (e, h) tt
  ]
]

check_tenant-housed :
    (checked : List String) (tenant : String) (db : Db)
    → Checked checked db
    → IfOk (λ u. exists (tenant_is tenant) db.tenants ≡ true) (check_tenant checked tenant db)
unfolding check_tenant
check_tenant-housed checked tenant db c = elim (Bool-cases (has_text tenant checked)) [
  | inl e ↦ rw e (c tenant e)
  | inr e ↦ rw e (ensure_tenant_exists-housed tenant db)
]

Checked-cons :
    (checked : List String) (tenant : String) (db : Db)
    → Checked checked db
    → exists (tenant_is tenant) db.tenants ≡ true
    → Checked (tenant ∷ checked) db
unfolding has_text
Checked-cons checked tenant db c h t e = elim (Bool-cases (str_eq t tenant)) [
  | inl k ↦
      subst (λ s. exists (tenant_is s) db.tenants ≡ true) (sym (ground (arith, eq_iff t tenant))) h
  | inr k ↦ c t (ground arith)
]

prepare_from-IsPrepared :
    (lower : String → String) (checked : List String) (i : ℕ) (ins : List StoreInput) (db : Db)
    → Checked checked db
    → IfOk
        (λ ps. (ps ≡ numbered lower i ins) × All (IsPrepared db) ps)
        (prepare_from lower checked i ins db)
unfolding prepare_from numbered prepared_input
prepare_from-IsPrepared lower checked i [] db c = (refl, tt)
prepare_from-IsPrepared lower checked i (in_ ∷ ins) db c =
    elim (Bool-cases (is_empty (trim_space in_.tenant_id) || is_blank in_.content)) [
      | inl e ↦ rw e tt
      | inr e ↦ rw e (
          IfOk-bind _ _ (check_tenant checked (trim_space in_.tenant_id) db) _
            (check_tenant-housed checked (trim_space in_.tenant_id) db c)
            (λ u h.
              IfOk-bind _ _ (prepare_from lower (trim_space in_.tenant_id ∷ checked) (suc i) ins db)
                _
                (prepare_from-IsPrepared lower (trim_space in_.tenant_id ∷ checked) (suc i) ins db
                  (Checked-cons checked (trim_space in_.tenant_id) db c h))
                (λ later k. (
                  ap (λ ps. prepared_input lower i in_ ∷ ps) k.0,
                  (
                    record {
                      housed = h;
                      filled = ground arith;
                      tiered = resolve_tier-set lower in_;
                    },
                    k.1,
                  ),
                ))))
    ]

-- When prepareStoreInputs succeeds, its result is the inputs at their places, with their tenants trimmed, and for each
-- one the tenant exists, the content is not blank and the tier is neither empty nor auto.
pub prepare_inputs-IsPrepared :
    (lower : String → String) (ready : Bool) (ins : List StoreInput) (db : Db)
    → IfOk
        (λ ps. (ps ≡ numbered lower 0 ins) × All (IsPrepared db) ps)
        (prepare_inputs lower ready ins db)
unfolding prepare_inputs has_text
prepare_inputs-IsPrepared lower ready ins db =
    IfOk-guard (λ ps. (ps ≡ numbered lower 0 ins) × All (IsPrepared db) ps) (not ready) other_error
      (prepare_from lower [] 0 ins db)
      (prepare_from-IsPrepared lower [] 0 ins db (λ t e. nothing t e))
  where
    nothing : (t : String) → has_text t [] ≡ true → exists (tenant_is t) db.tenants ≡ true
    nothing t e = cc
