-- ===== src/PostgresClient/Queries.antt =====
-- Queries by cached statements, and the end of a client (internal/enrichment/postgres/client.go).
use ggt.Prelude.{ℕ, some, List, [], ◌∷◌, ◌++◌, ◌⊎◌, inl, inr, Text, length}
use ggt.Prelude.Dict.{Dict}
use ggt.Cache as Cache
use ggt.PostgresClient.{
  Client, Prepared, prepared, prepare_failed, prepared_stmt, Error, remove_invalid_stmt,
}

pub data Outcome {ℓ} (A : Type ℓ) : Type ℓ where
  rows : A → Outcome A
  not_prepared : Text → Outcome A
  failed : Error → Outcome A

-- `Query` and `Exec`; what running a statement comes to is an argument.
unfoldable pub query {ℓ} :
    {A : Type ℓ} → Prepared → (ℕ → Error ⊎ A) → Text → Client → Client × Outcome A
unfolding prepared_stmt remove_invalid_stmt
query answer run text c =
    let (c', got) = prepared_stmt answer text c in
    elim got [
      | prepare_failed e ↦ (c', not_prepared e)
      | prepared stmt ↦ elim (run stmt) [
        | inr a ↦ (c', rows a)
        | inl e ↦ (remove_invalid_stmt text (some e) c', failed e)
      ]
    ]

-- `QueryRow`, with the row's `Scan`; it leaves an invalid statement where it is.
unfoldable pub query_row {ℓ} :
    {A : Type ℓ} → Prepared → (ℕ → Error ⊎ A) → Text → Client → Client × Outcome A
unfolding prepared_stmt
query_row answer run text c =
    let (c', got) = prepared_stmt answer text c in
    elim got [
      | prepare_failed e ↦ (c', not_prepared e)
      | prepared stmt ↦ elim (run stmt) [ inr a ↦ (c', rows a) | inl e ↦ (c', failed e) ]
    ]

abbrev pub statements : Dict ℕ → List ℕ
statements [] = []
statements ((k, stmt) ∷ m) = stmt ∷ statements m

unfoldable pub close : Client → Client
close c = record c {
  cache = Cache.clear c.cache;
  stmt_cache = [];
  stmt_lru = [];
  stmt_elements = [];
  closed = statements c.stmt_cache ++ c.closed;
}

-- `CacheStats`: the sizes of the two caches
unfoldable pub cache_stats : Client → ℕ × ℕ
cache_stats c = (Cache.size c.cache, length c.stmt_cache)
