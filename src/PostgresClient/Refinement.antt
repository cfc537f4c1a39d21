-- ===== src/PostgresClient/Refinement.antt =====
-- The client of internal/enrichment/postgres/client.go implements the list of recent queries.
use ggt.Prelude.{
  suc, none, some, List, [], ◌∷◌, ◌≡◌, refl, sym, ap, ◌∙◌, Text, leb, length, arith, if◌then◌else◌,
  Bool-cases, Option-cases, inl, inr,
}
use mathlib.Core.Option
use ggt.Prelude.Dict.{lookup, remove}
use ggt.Cache.{Entry}
use ggt.Cache.Rep.{Rep, drop_last}
use ggt.Cache.Refinement.{lookup-drop_last}
use ggt.PostgresClient.{
  Client, ClientConfig, max_prepared_stmts, empty_client, Prepared, prepared, prepare_failed, touch,
  make_room, add_prepared, prepare_locked, Error, is_invalid, remove_invalid_stmt,
}
use ggt.PostgresClient.Queries.{close}
use ggt.PostgresClient.Invariant.{
  Holds, stmt_of, room, empty-Holds, stmt_found, stmt_missing, element_missing, touch-Holds,
  drop_stmt-Holds, make_room-Holds, add_stmt-Holds,
}
use ggt.PostgresClient.Steps.{Action, touches, prepares, fails, closes, step, run}
use ggt.PostgresClient.Recency.{
  Recent, recent_room, recent_touch, recent_add, recent_prepare, recent_step, recent_run,
}

abbrev pub view : Rep → Recent
view [] = []
view ((q, e) ∷ r) = (q, stmt_of e) ∷ view r

pub lookup-view : (q : Text) (r : Rep) → lookup q (view r) ≡ Option.map stmt_of (lookup q r)
unfolding lookup
lookup-view q [] = refl
lookup-view q ((j, e) ∷ r) = ground (arith, lookup-view q r)

view_found :
    (q : Text) (r : Rep) (e : Entry) → lookup q r ≡ some e → lookup q (view r) ≡ some (stmt_of e)
view_found q r e p = lookup-view q r ∙ rw p refl

view_missing : (q : Text) (r : Rep) → lookup q r ≡ none → lookup q (view r) ≡ none
view_missing q r p = lookup-view q r ∙ rw p refl

remove-view : (q : Text) (r : Rep) → remove q (view r) ≡ view (remove q r)
unfolding remove
remove-view q [] = refl
remove-view q ((j, e) ∷ r) = ground (arith, remove-view q r)

drop_last-view : (r : Rep) → drop_last (view r) ≡ view (drop_last r)
drop_last-view [] = refl
drop_last-view (x ∷ []) = refl
drop_last-view ((q, e) ∷ y ∷ r) = rw (drop_last-view (y ∷ r)) refl

pub length-view : (r : Rep) → length (view r) ≡ length r
length-view [] = refl
length-view ((q, e) ∷ r) = ap suc (length-view r)

room-view : (r : Rep) → recent_room (view r) ≡ view (room r)
room-view r = rw (length-view r, drop_last-view r) (ground arith)

-- The client stands for the list.
pub data Represents (c : Client) (s : Recent) : Type 0 where
  by : (r : Rep) → Holds c r → view r ≡ s → Represents c s

pub empty-Represents : (cfg : ClientConfig) → Represents (empty_client cfg) []
empty-Represents cfg = by [] (empty-Holds cfg) refl

lookup-room : (q : Text) (r : Rep) → lookup q r ≡ none → lookup q (room r) ≡ none
lookup-room q r p = elim (Bool-cases (leb max_prepared_stmts (length r))) [
  | inl full ↦ rw full (lookup-drop_last q r p)
  | inr free ↦ rw free p
]

pub touch-Represents :
    (c : Client) (q : Text) (s : Recent)
    → Represents c s
    → Represents (touch q c) (recent_touch q s)
unfolding touch recent_touch
touch-Represents c q s (by r h v) = rw (← v) (elim (Option-cases (lookup q r)) [
  | inl p ↦ rw (element_missing c r q h p, view_missing q r p, touch, recent_touch) (by r h refl)
  | inr (e, p) ↦
      rw (view_found q r e p, recent_touch)
        (by ((q, e) ∷ remove q r) (touch-Holds c r q e h p) (rw (← remove-view q r) refl))
])

add-Represents :
    (c : Client) (r : Rep) (answer : Prepared) (q : Text)
    → Holds c r
    → lookup q r ≡ none
    → Represents (add_prepared answer q c).0 (recent_add answer q (view r)).0
      × ((add_prepared answer q c).1 ≡ (recent_add answer q (view r)).1)
unfolding add_prepared recent_add
add-Represents c r (prepare_failed e) q h p =
    (by (room r) (make_room-Holds c r h) (sym (room-view r)), refl)
add-Represents c r (prepared stmt) q h p = (
  by _ (add_stmt-Holds (make_room c) (room r) q stmt (make_room-Holds c r h) (lookup-room q r p))
      (rw (← room-view r) refl),
  refl,
)

-- `prepare_locked` gives the statement that the list has, or what `Prepare` answers.
pub prepare-Represents :
    (c : Client) (answer : Prepared) (q : Text) (s : Recent)
    → Represents c s
    → Represents (prepare_locked answer q c).0 (recent_prepare answer q s).0
      × ((prepare_locked answer q c).1 ≡ (recent_prepare answer q s).1)
unfolding prepare_locked recent_prepare
prepare-Represents c answer q s (by r h v) = rw (← v) (elim (Option-cases (lookup q r)) [
  | inr (e, p) ↦
      rw (stmt_found c r q e h p, view_found q r e p, prepare_locked, recent_prepare)
        (by ((q, e) ∷ remove q r) (touch-Holds c r q e h p) (rw (← remove-view q r) refl), refl)
  | inl p ↦
      rw (stmt_missing c r q h p, view_missing q r p, prepare_locked, recent_prepare)
        (add-Represents c r answer q h p)
])

pub fails-Represents :
    (c : Client) (e : Error) (q : Text) (s : Recent)
    → Represents c s
    → Represents (remove_invalid_stmt q (some e) c) (if is_invalid e then remove q s else s)
unfolding remove_invalid_stmt
fails-Represents c e q s (by r h v) = rw (← v) (elim (Bool-cases (is_invalid e)) [
  | inl p ↦ rw p (by (remove q r) (drop_stmt-Holds c r q h) (sym (remove-view q r)))
  | inr p ↦ rw p (by r h refl)
])

close-Represents : (c : Client) (s : Recent) → Represents c s → Represents (close c) []
unfolding close lookup
close-Represents c s (by r h v) =
    by []
      (record {
        list_eq = refl;
        stmt_eq = λ q. refl;
        element_eq = λ q. refl;
        size_eq = refl;
        map_keys = tt;
        keys = tt;
        distinct = tt;
        allocated = tt;
        next_pos = h.next_pos;
      })
      refl

step-Represents :
    (a : Action) (c : Client) (s : Recent)
    → Represents c s
    → Represents (step a c) (recent_step a s)
unfolding step recent_step
step-Represents (touches q) c s h = touch-Represents c q s h
step-Represents (prepares answer q) c s h = (prepare-Represents c answer q s h).0
step-Represents (fails e q) c s h = fails-Represents c e q s h
step-Represents closes c s h = close-Represents c s h

pub run-Represents :
    (actions : List Action) (c : Client) (s : Recent)
    → Represents c s
    → Represents (run actions c) (recent_run actions s)
unfolding run recent_run
run-Represents [] c s h = h
run-Represents (a ∷ actions) c s h = run-Represents actions _ _ (step-Represents a c s h)

pub stmt-Represents :
    (c : Client) (s : Recent) (q : Text) → Represents c s → lookup q c.stmt_cache ≡ lookup q s
stmt-Represents c s q (by r h v) = rw (← v) (h.stmt_eq q ∙ sym (lookup-view q r))
