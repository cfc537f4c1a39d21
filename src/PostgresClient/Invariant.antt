-- ===== src/PostgresClient/Invariant.antt =====
-- The map of statements, the list of recent queries and the map of its elements agree
-- (internal/enrichment/postgres/client.go).
use ggt.Prelude.{
  ℕ, none, some, [], ◌∷◌, ◌<◌, ◌≡◌, refl, ap, ◌∙◌, Text, text_eq, text_eq_iff, text_eq_refl, leb,
  length, arith, if◌then◌else◌, Bool-cases, Option-cases, inl, inr,
}
use mathlib.Core.Option
use ggt.Prelude.Int.{pos}
use ggt.Prelude.Dict.{
  lookup, remove, lookup-insert, lookup-remove, NodupKeys, insert-NodupKeys, remove-NodupKeys,
  remove_absent, length-remove, length-insert_new,
}
use ggt.Value.{Value, int, kint64}
use ggt.Cache.{Entry, back, remove_element, move_to_front}
use ggt.Cache.Rep.{
  Rep, elements, Allocated, NodupElements, NodupElements-remove, Allocated-remove,
  Allocated-of_lookup, remove_element-elements, move_to_front-elements, Fresh-remove_self,
  Fresh-of_Allocated, Allocated-suc, drop_last, back-elements,
}
use ggt.PostgresClient.{
  Client, ClientConfig, max_prepared_stmts, empty_client, evict_lru, touch, make_room, add_stmt,
  drop_stmt,
}

abbrev handle : Value → ℕ
handle (int k (pos n)) = n
handle _ = 0

abbrev pub stmt_of : Entry → ℕ
stmt_of e = handle e.value

abbrev pub element_of : Entry → ℕ
element_of e = e.element

-- A query's statement and its element.
abbrev pub entry : ℕ → ℕ → Entry
entry stmt i = record { value = int kint64 (pos stmt); expiry = pos 0; element = i }

-- One list of queries, with statements and elements, stands for the three.
pub record Holds (c : Client) (r : Rep) : Type 0 where
  pub list_eq : c.stmt_lru ≡ elements r
  pub stmt_eq : (q : Text) → lookup q c.stmt_cache ≡ Option.map stmt_of (lookup q r)
  pub element_eq : (q : Text) → lookup q c.stmt_elements ≡ Option.map element_of (lookup q r)
  pub size_eq : length c.stmt_cache ≡ length r
  pub map_keys : NodupKeys c.stmt_cache
  pub keys : NodupKeys r
  pub distinct : NodupElements r
  pub allocated : Allocated c.next_element r
  pub next_pos : 0 < c.next_element

pub empty-Holds : (cfg : ClientConfig) → Holds (empty_client cfg) []
unfolding empty_client lookup
empty-Holds cfg = record {
  list_eq = refl;
  stmt_eq = λ q. refl;
  element_eq = λ q. refl;
  size_eq = refl;
  map_keys = tt;
  keys = tt;
  distinct = tt;
  allocated = tt;
  next_pos = omega arith;
}

lookup-cons :
    (k j : Text) (e : Entry) (r : Rep)
    → lookup j ((k, e) ∷ r) ≡ (if text_eq k j then some e else lookup j r)
unfolding lookup
lookup-cons k j e r = refl

pub stmt_found :
    (c : Client) (r : Rep) (q : Text) (e : Entry)
    → Holds c r
    → lookup q r ≡ some e
    → lookup q c.stmt_cache ≡ some (stmt_of e)
stmt_found c r q e h p = h.stmt_eq q ∙ rw p refl

pub stmt_missing :
    (c : Client) (r : Rep) (q : Text) → Holds c r → lookup q r ≡ none → lookup q c.stmt_cache ≡ none
stmt_missing c r q h p = h.stmt_eq q ∙ rw p refl

element_found :
    (c : Client) (r : Rep) (q : Text) (e : Entry)
    → Holds c r
    → lookup q r ≡ some e
    → lookup q c.stmt_elements ≡ some e.element
element_found c r q e h p = h.element_eq q ∙ rw p refl

pub element_missing :
    (c : Client) (r : Rep) (q : Text)
    → Holds c r
    → lookup q r ≡ none
    → lookup q c.stmt_elements ≡ none
element_missing c r q h p = h.element_eq q ∙ rw p refl

-- the query's element at the front, where it was
pub touch-Holds :
    (c : Client) (r : Rep) (q : Text) (e : Entry)
    → Holds c r
    → lookup q r ≡ some e
    → Holds (touch q c) ((q, e) ∷ remove q r)
unfolding touch
touch-Holds c r q e h p =
    rw (element_found c r q e h p, touch)
      (record {
        list_eq =
            ap (λ l. move_to_front e.element l) h.list_eq
            ∙ move_to_front-elements q e r h.keys h.distinct p;
        stmt_eq =
            λ j. rw (lookup-cons, lookup-remove) (ground (arith, h.stmt_eq j, text_eq_iff q j, p));
        element_eq = λ j.
            rw (lookup-cons, lookup-remove) (ground (arith, h.element_eq j, text_eq_iff q j, p));
        size_eq = omega (arith, length-remove q e r h.keys p, h.size_eq);
        map_keys = h.map_keys;
        keys = (rw (lookup-remove, text_eq_refl) refl, remove-NodupKeys q r h.keys);
        distinct =
            (Fresh-remove_self q e r h.keys h.distinct p, NodupElements-remove q r h.distinct);
        allocated = (
          (Allocated-of_lookup c.next_element q e r h.allocated p).0,
          (Allocated-of_lookup c.next_element q e r h.allocated p).1,
          Allocated-remove c.next_element q r h.allocated,
        );
        next_pos = h.next_pos;
      })

-- the client without a query, its statement closed
gone : Text → Entry → Client → Client
gone q e c = record c {
  stmt_cache = remove q c.stmt_cache;
  stmt_lru = remove_element e.element c.stmt_lru;
  stmt_elements = remove q c.stmt_elements;
  closed = stmt_of e ∷ c.closed;
}

gone-Holds :
    (c : Client) (r : Rep) (q : Text) (e : Entry)
    → Holds c r
    → lookup q r ≡ some e
    → Holds (gone q e c) (remove q r)
unfolding gone
gone-Holds c r q e h p = record {
  list_eq =
      ap (λ l. remove_element e.element l) h.list_eq
      ∙ remove_element-elements q e r h.keys h.distinct p;
  stmt_eq = λ j. rw (lookup-remove, lookup-remove) (ground (arith, h.stmt_eq j));
  element_eq = λ j. rw (lookup-remove, lookup-remove) (ground (arith, h.element_eq j));
  size_eq = omega (
    arith,
    length-remove q e r h.keys p,
    length-remove q (stmt_of e) c.stmt_cache h.map_keys (stmt_found c r q e h p),
    h.size_eq,
  );
  map_keys = remove-NodupKeys q c.stmt_cache h.map_keys;
  keys = remove-NodupKeys q r h.keys;
  distinct = NodupElements-remove q r h.distinct;
  allocated = Allocated-remove c.next_element q r h.allocated;
  next_pos = h.next_pos;
}

pub drop_stmt-Holds :
    (c : Client) (r : Rep) (q : Text) → Holds c r → Holds (drop_stmt q c) (remove q r)
unfolding drop_stmt gone
drop_stmt-Holds c r q h = elim (Option-cases (lookup q r)) [
  | inl p ↦ rw (stmt_missing c r q h p, remove_absent q r p, drop_stmt) h
  | inr (e, p) ↦
      rw (stmt_found c r q e h p, element_found c r q e h p, drop_stmt) (gone-Holds c r q e h p)
]

pub evict_lru-Holds : (c : Client) (r : Rep) → Holds c r → Holds (evict_lru c) (drop_last r)
unfolding evict_lru gone back
evict_lru-Holds c [] h = rw (ap back h.list_eq, evict_lru) h
evict_lru-Holds c ((k, x) ∷ r) h =
    let (j, e, b, l, m) = back-elements k x r h.keys in
    rw (ap back h.list_eq ∙ b, evict_lru)
      (rw (stmt_found c ((k, x) ∷ r) j e h l, ← m) (gone-Holds c ((k, x) ∷ r) j e h l))

-- the rest of a full list, or all of one that is not
abbrev pub room : Rep → Rep
room r = if leb max_prepared_stmts (length r) then drop_last r else r

pub make_room-Holds : (c : Client) (r : Rep) → Holds c r → Holds (make_room c) (room r)
unfolding make_room
make_room-Holds c r h = elim (Bool-cases (leb max_prepared_stmts (length r))) [
  | inl full ↦ rw (h.size_eq, full, make_room) (evict_lru-Holds c r h)
  | inr free ↦ rw (h.size_eq, free, make_room) h
]

pub add_stmt-Holds :
    (c : Client) (r : Rep) (q : Text) (stmt : ℕ)
    → Holds c r
    → lookup q r ≡ none
    → Holds (add_stmt q stmt c) ((q, entry stmt c.next_element) ∷ r)
unfolding add_stmt
add_stmt-Holds c r q stmt h p = record {
  list_eq = rw h.list_eq refl;
  stmt_eq = λ j. rw (lookup-insert, lookup-cons) (ground (arith, h.stmt_eq j));
  element_eq = λ j. rw (lookup-insert, lookup-cons) (ground (arith, h.element_eq j));
  size_eq =
      omega (arith, length-insert_new q stmt c.stmt_cache (stmt_missing c r q h p), h.size_eq);
  map_keys = insert-NodupKeys q stmt c.stmt_cache h.map_keys;
  keys = (p, h.keys);
  distinct = (Fresh-of_Allocated c.next_element r h.allocated, h.distinct);
  allocated = (h.next_pos, omega arith, Allocated-suc c.next_element r h.allocated);
  next_pos = omega arith;
}
