-- ===== src/PostgresClient/Bounded.antt =====
-- The cache of statements after any calls (internal/enrichment/postgres/client.go).
use ggt.Prelude.{
  ℕ, suc, Option, none, some, List, [], ◌∷◌, ◌+◌, ◌≤◌, ◌≡◌, ◌↔◌, refl, sym, ap, ◌∙◌, Text, length,
  map, arith, Option-cases, inl, inr,
}
use mathlib.Core.Option
use ggt.Prelude.Dict.{lookup, remove}
use ggt.Cache.Rep.{Rep, elements, drop_last}
use ggt.PostgresClient.{Client, ClientConfig, empty_client, Prepared, prepared, prepare_failed}
use ggt.PostgresClient.Invariant.{element_of, stmt_of}
use ggt.PostgresClient.Recency.{
  Recent, recent_room, recent_touch, recent_add, recent_prepare, recent_step, recent_run,
}
use ggt.PostgresClient.Refinement.{
  Represents, view, by, run-Represents, empty-Represents, length-view, lookup-view,
}
use ggt.PostgresClient.Steps.{Action, touches, prepares, fails, closes, run}

length-remove-le : (q : Text) (s : Recent) → length (remove q s) ≤ length s
unfolding remove
length-remove-le q [] = omega arith
length-remove-le q ((j, stmt) ∷ s) = ground (arith, length-remove-le q s)

length-remove_found :
    (q : Text) (stmt : ℕ) (s : Recent) → lookup q s ≡ some stmt → length (remove q s) + 1 ≤ length s
unfolding remove lookup
length-remove_found q stmt [] p = cc
length-remove_found q stmt ((j, t) ∷ s) p =
    ground (arith, length-remove-le q s, length-remove_found q stmt s)

length-drop_last : (s : Recent) → length (drop_last s) + 1 ≤ length s + 1
length-drop_last [] = omega arith
length-drop_last (x ∷ []) = omega arith
length-drop_last (x ∷ y ∷ s) = omega (arith, length-drop_last (y ∷ s))

length-drop_last_full : (x : Text × ℕ) (s : Recent) → length (drop_last (x ∷ s)) ≡ length s
length-drop_last_full x [] = refl
length-drop_last_full x (y ∷ s) = ap suc (length-drop_last_full y s)

recent_room-lt : (s : Recent) → length s ≤ 500 → length (recent_room s) + 1 ≤ 500
recent_room-lt [] h = omega arith
recent_room-lt (x ∷ s) h = ground (arith, length-drop_last_full x s)

recent_touch-le : (q : Text) (s : Recent) → length (recent_touch q s) ≤ length s
unfolding recent_touch
recent_touch-le q s = elim (Option-cases (lookup q s)) [
  | inl p ↦ rw (p, length, recent_touch) (omega arith)
  | inr (stmt, p) ↦ rw (p, length, recent_touch) (omega (arith, length-remove_found q stmt s p))
]

recent_add-le :
    (answer : Prepared) (q : Text) (s : Recent)
    → length s ≤ 500
    → length (recent_add answer q s).0 ≤ 500
unfolding recent_add
recent_add-le (prepare_failed e) q s h = omega (arith, recent_room-lt s h)
recent_add-le (prepared stmt) q s h = omega (arith, recent_room-lt s h)

recent_prepare-le :
    (answer : Prepared) (q : Text) (s : Recent)
    → length s ≤ 500
    → length (recent_prepare answer q s).0 ≤ 500
unfolding recent_prepare
recent_prepare-le answer q s h = elim (Option-cases (lookup q s)) [
  | inr (stmt, p) ↦ rw (p, length, recent_prepare) (omega (arith, length-remove_found q stmt s p))
  | inl p ↦ rw (p, length, recent_prepare) (recent_add-le answer q s h)
]

recent_step-le : (a : Action) (s : Recent) → length s ≤ 500 → length (recent_step a s) ≤ 500
unfolding recent_step
recent_step-le (touches q) s h = omega (arith, recent_touch-le q s)
recent_step-le (prepares answer q) s h = recent_prepare-le answer q s h
recent_step-le (fails e q) s h = ground (arith, length-remove-le q s)
recent_step-le closes s h = omega arith

recent_run-le :
    (actions : List Action) (s : Recent) → length s ≤ 500 → length (recent_run actions s) ≤ 500
unfolding recent_run
recent_run-le [] s h = h
recent_run-le (a ∷ actions) s h = recent_run-le actions (recent_step a s) (recent_step-le a s h)

queries-view : (r : Rep) → map (λ e. e.1) (elements r) ≡ map (λ e. e.0) (view r)
queries-view [] = refl
queries-view ((q, e) ∷ r) = ap (λ l. q ∷ l) (queries-view r)

-- What a client and a list of recent queries have in common.
pub record Shows (c : Client) (s : Recent) : Type 0 where
  pub statements : (q : Text) → lookup q c.stmt_cache ≡ lookup q s
  pub queries : map (λ e. e.1) c.stmt_lru ≡ map (λ e. e.0) s
  pub size : length c.stmt_cache ≡ length s
  pub elements_of : (q : Text) → (lookup q c.stmt_elements ≡ none) ↔ (lookup q s ≡ none)

none_alike {ℓ κ} :
    {A : Type ℓ} {B B' : Type κ} (f : A → B) (g : A → B') (o : Option A)
    → (Option.map f o ≡ none) ↔ (Option.map g o ≡ none)
none_alike f g none = (λ p. refl, λ p. refl)
none_alike f g (some e) = (λ p. cc, λ p. cc)

Represents-Shows : (c : Client) (s : Recent) → Represents c s → Shows c s
Represents-Shows c s (by r h v) = rw (← v) (record {
  statements = λ q. h.stmt_eq q ∙ sym (lookup-view q r);
  queries = rw h.list_eq (queries-view r);
  size = h.size_eq ∙ sym (length-view r);
  elements_of =
      λ q. rw (h.element_eq q, lookup-view q r) (none_alike element_of stmt_of (lookup q r));
})

-- Whatever order the goroutines take the lock in, and whatever `Prepare` and the database answer,
-- the three structures of a new client show one list, in the end: the statements of its queries,
-- most recently used first, the least recently used one giving way to a new one. It has 500 at most.
pub run-Shows :
    (cfg : ClientConfig) (actions : List Action)
    → Shows (run actions (empty_client cfg)) (recent_run actions [])
      × (length (recent_run actions []) ≤ 500)
run-Shows cfg actions = (
  Represents-Shows _ _ (run-Represents actions (empty_client cfg) [] (empty-Represents cfg)),
  recent_run-le actions [] (omega arith),
)
