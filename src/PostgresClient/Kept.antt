-- ===== src/PostgresClient/Kept.antt =====
-- Queries keep the cache of statements in step (internal/enrichment/postgres/client.go).
use ggt.Prelude.{ℕ, ◌≡◌, ◌⊎◌, refl, Text, inl, inr}
use ggt.PostgresClient.{Client, Prepared, prepared, prepare_failed, prepared_stmt, Error}
use ggt.PostgresClient.Queries.{query, query_row}
use ggt.PostgresClient.Recency.{Recent}
use ggt.PostgresClient.Refinement.{Represents, fails-Represents}
use ggt.PostgresClient.Invalid.{prepared_stmt-Represents}

-- The client stands for some list of recent queries.
abbrev pub IsValid : Client → Type 0
IsValid c = (s : Recent) × Represents c s

Prepared-cases :
    (x : Prepared) → ((stmt : ℕ) × (x ≡ prepared stmt)) ⊎ ((e : Text) × (x ≡ prepare_failed e))
Prepared-cases (prepared stmt) = inl (stmt, refl)
Prepared-cases (prepare_failed e) = inr (e, refl)

Sum-cases {ℓ} : {A : Type ℓ} (x : Error ⊎ A) → ((e : Error) × (x ≡ inl e)) ⊎ ((a : A) × (x ≡ inr a))
Sum-cases (inl e) = inl (e, refl)
Sum-cases (inr a) = inr (a, refl)

module _ {ℓ} {A : Type ℓ} (answer : Prepared) (ask : ℕ → Error ⊎ A) (q : Text) (c : Client) where
  pub query-IsValid : IsValid c → IsValid (query answer ask q c).0
  unfolding query
  query-IsValid (s, h) =
      let (s', h', _) = prepared_stmt-Represents answer q c s h in
      elim (Prepared-cases (prepared_stmt answer q c).1) [
        | inr (m, x) ↦ rw (x, query) (s', h')
        | inl (stmt, x) ↦ elim (Sum-cases (ask stmt)) [
          | inr (a, y) ↦ rw (x, y, query) (s', h')
          | inl (e, y) ↦ rw (x, y, query) (_, fails-Represents _ e q s' h')
        ]
      ]

  pub query_row-IsValid : IsValid c → IsValid (query_row answer ask q c).0
  unfolding query_row
  query_row-IsValid (s, h) =
      let (s', h', _) = prepared_stmt-Represents answer q c s h in
      elim (Prepared-cases (prepared_stmt answer q c).1) [
        | inr (m, x) ↦ rw (x, query_row) (s', h')
        | inl (stmt, x) ↦ elim (Sum-cases (ask stmt)) [
          | inr (a, y) ↦ rw (x, y, query_row) (s', h')
          | inl (e, y) ↦ rw (x, y, query_row) (s', h')
        ]
      ]
