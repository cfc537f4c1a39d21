-- ===== src/PostgresClient/Invalid.antt =====
-- What becomes of a statement that the database no longer knows
-- (internal/enrichment/postgres/client.go).
use ggt.Prelude.{
  ℕ, none, some, ◌≡◌, ◌⊎◌, refl, sym, ◌∙◌, Text, text_eq_refl, if◌then◌else◌, Bool-cases,
  Option-cases, inl, inr,
}
use ggt.Prelude.Dict.{lookup, lookup-remove}
use ggt.PostgresClient.{
  Client, Prepared, prepared, prepare_failed, prepare_locked, prepared_stmt, add_prepared, Error,
  is_invalid, remove_invalid_stmt,
}
use ggt.PostgresClient.Queries.{failed, query, query_row}
use ggt.PostgresClient.Recency.{Recent, recent_add, recent_prepare}
use ggt.PostgresClient.Refinement.{
  Represents, prepare-Represents, fails-Represents, stmt-Represents,
}

prepared_inj : {a b : ℕ} → prepared a ≡ prepared b → a ≡ b
prepared_inj e = cc

-- Both looks of `PreparedStmt` come to what the second one does.
prepared_stmt-locked :
    (answer : Prepared) (q : Text) (c : Client)
    → prepared_stmt answer q c ≡ prepare_locked answer q c
unfolding prepared_stmt
prepared_stmt-locked answer q c = elim (Option-cases (lookup q c.stmt_cache)) [
  | inl p ↦ rw (p, prepared_stmt) refl
  | inr (stmt, p) ↦ rw (p, prepared_stmt) (unfold prepare_locked in rw (p, prepare_locked) refl)
]

prepared_stmt_missing :
    (answer : Prepared) (q : Text) (c : Client)
    → lookup q c.stmt_cache ≡ none
    → (prepared_stmt answer q c).1 ≡ answer
unfolding prepared_stmt prepare_locked add_prepared
prepared_stmt_missing (prepared stmt) q c p =
    rw (p, prepared_stmt, prepare_locked) (rw (p, prepare_locked) refl)
prepared_stmt_missing (prepare_failed e) q c p =
    rw (p, prepared_stmt, prepare_locked) (rw (p, prepare_locked) refl)

prepared_stmt_found :
    (answer : Prepared) (q : Text) (c : Client) (stmt : ℕ)
    → lookup q c.stmt_cache ≡ some stmt
    → (prepared_stmt answer q c).1 ≡ prepared stmt
unfolding prepared_stmt
prepared_stmt_found answer q c stmt p = rw (p, prepared_stmt) refl

recent_prepare_found :
    (answer : Prepared) (q : Text) (s : Recent) (stmt : ℕ)
    → (recent_prepare answer q s).1 ≡ prepared stmt
    → lookup q (recent_prepare answer q s).0 ≡ some stmt
unfolding recent_prepare recent_add lookup
recent_prepare_found answer q s stmt e = elim (Option-cases (lookup q s)) [
  | inr (t, p) ↦
      let same : t ≡ stmt = prepared_inj (rw (p, recent_prepare) at e) in
      rw (p, recent_prepare) (rw (text_eq_refl q, same) refl)
  | inl p ↦ rw (p, recent_prepare) (added answer (rw (p, recent_prepare) at e))
]
  where
    added :
        (answer : Prepared)
        → (recent_add answer q s).1 ≡ prepared stmt
        → lookup q (recent_add answer q s).0 ≡ some stmt
    added (prepared t) e = let same : t ≡ stmt = prepared_inj e in rw (text_eq_refl q, same) refl
    added (prepare_failed m) e = cc

-- the client that `PreparedStmt` leaves, and whether the query has its statement there
pub prepared_stmt-Represents :
    (answer : Prepared) (q : Text) (c : Client) (s : Recent)
    → Represents c s
    → (s' : Recent) × Represents (prepared_stmt answer q c).0 s'
      × ((stmt : ℕ) → (prepared_stmt answer q c).1 ≡ prepared stmt → lookup q s' ≡ some stmt)
prepared_stmt-Represents answer q c s h =
    let (h', e) = prepare-Represents c answer q s h in
    rw (prepared_stmt-locked answer q c) (
      (recent_prepare answer q s).0,
      h',
      λ stmt p. recent_prepare_found answer q s stmt (sym e ∙ p),
    )

module _ {ℓ} {A : Type ℓ} (answer : Prepared) (ask : ℕ → Error ⊎ A) (q : Text) (c : Client) where
  query_fails :
      (stmt : ℕ) (e : Error)
      → (prepared_stmt answer q c).1 ≡ prepared stmt
      → ask stmt ≡ inl e
      → query answer ask q c
        ≡ (remove_invalid_stmt q (some e) (prepared_stmt answer q c).0, failed e)
  unfolding query
  query_fails stmt e x y = rw (x, y, query) refl

  query_row_fails :
      (stmt : ℕ) (e : Error)
      → (prepared_stmt answer q c).1 ≡ prepared stmt
      → ask stmt ≡ inl e
      → query_row answer ask q c ≡ ((prepared_stmt answer q c).0, failed e)
  unfolding query_row
  query_row_fails stmt e x y = rw (x, y, query_row) refl

  -- Let a statement be found or prepared for a query, and let running it fail. `Query` and `Exec`
  -- return the error, and if it says that the statement is invalid the next call for the query asks
  -- `Prepare` again, and otherwise gets the same statement. `QueryRow` returns the error as well,
  -- but the next call gets the same statement whatever the error says.
  pub fails-Again :
      (s : Recent) (stmt : ℕ) (e : Error)
      → Represents c s
      → (prepared_stmt answer q c).1 ≡ prepared stmt
      → ask stmt ≡ inl e
      → ((query answer ask q c).1 ≡ failed e)
        × ((query_row answer ask q c).1 ≡ failed e)
        × ((next : Prepared)
            → (prepared_stmt next q (query answer ask q c).0).1
              ≡ (if is_invalid e then next else prepared stmt))
        × ((next : Prepared)
            → (prepared_stmt next q (query_row answer ask q c).0).1 ≡ prepared stmt)
  fails-Again s stmt e h x y =
      let (s', h', look) = prepared_stmt-Represents answer q c s h in
      let after = fails-Represents _ e q s' h' in
      rw (query_fails stmt e x y, query_row_fails stmt e x y)
        (
          refl,
          refl,
          λ next. elim (Bool-cases (is_invalid e)) [
            | inl bad ↦ rw bad (
                prepared_stmt_missing next q _
                  (stmt-Represents _ _ q (rw bad at after) ∙ rw (lookup-remove, text_eq_refl) refl))
            | inr good ↦ rw good (
                prepared_stmt_found next q _ stmt
                  (stmt-Represents _ _ q (rw good at after) ∙ look stmt x))
          ],
          λ next. prepared_stmt_found next q _ stmt (stmt-Represents _ s' q h' ∙ look stmt x),
        )
