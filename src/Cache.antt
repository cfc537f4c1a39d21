-- ===== src/Cache.antt =====
-- internal/enrichment/cache.go: the LRU cache with expiry. The map and the linked list are kept
-- apart, as in the source: an element of the list is a pointer (0 is nil) with the key that it
-- holds, and an entry of the map has its element. A reading of the clock is an argument.
pub mod Rep
pub mod Spec
pub mod Ops
pub mod Refinement
pub mod Calls
use ggt.Prelude.{
  ℕ, zero, suc, Bool, true, false, not, Option, none, some, List, [], ◌∷◌, ◌+◌, Text, ◌==◌, length,
  if◌then◌else◌,
}
use ggt.Prelude.Int.{ℤ, pos, pos_part, neg_part, sub_ℕ, ltb_ℤ, leb_ℤ}
use ggt.Prelude.Dict.{Dict, lookup, insert, remove}
use ggt.Value.{Value, null}

pub record Entry : Type 0 where
  pub value : Value
  pub expiry : ℤ
  pub element : ℕ

pub record Cache : Type 0 where
  pub max_size : ℤ
  pub entries : Dict Entry
  pub lru_list : List (ℕ × Text)
  pub ttl : ℤ
  pub next_element : ℕ

unfoldable pub new_lru_cache : ℤ → ℤ → Cache
new_lru_cache max_size ttl = record {
  max_size = if leb_ℤ max_size (pos 0) then pos 1000 else max_size;
  entries = [];
  lru_list = [];
  ttl = if leb_ℤ ttl (pos 0) then pos 300000000000 else ttl;
  next_element = 1;
}

-- `list.List`: `Remove`, `MoveToFront`, `Back`
unfoldable pub remove_element : ℕ → List (ℕ × Text) → List (ℕ × Text)
remove_element i [] = []
remove_element i ((j, k) ∷ l) =
    let rest = remove_element i l in if j == i then rest else (j, k) ∷ rest

unfoldable pub find_element : ℕ → List (ℕ × Text) → Option Text
find_element i [] = none
find_element i ((j, k) ∷ l) = if j == i then some k else find_element i l

unfoldable pub move_to_front : ℕ → List (ℕ × Text) → List (ℕ × Text)
move_to_front i l = elim (find_element i l) [ none ↦ l | some k ↦ (i, k) ∷ remove_element i l ]

unfoldable pub back : List (ℕ × Text) → Option (ℕ × Text)
back [] = none
back (e ∷ []) = some e
back (e ∷ f ∷ l) = back (f ∷ l)

-- `time.Now().Add(ttl)` and `time.Now().After(expiry)`
abbrev pub add_time : ℕ → ℤ → ℤ
add_time now ttl = sub_ℕ (now + pos_part ttl) (neg_part ttl)

abbrev pub is_after : ℕ → ℤ → Bool
is_after now expiry = ltb_ℤ expiry (pos now)

unfoldable pub remove_entry : Text → Entry → Cache → Cache
remove_entry key entry c = record c {
  entries = remove key c.entries;
  lru_list =
      if not (entry.element == 0) then remove_element entry.element c.lru_list else c.lru_list;
}

unfoldable pub touch_entry : Entry → List (ℕ × Text) → List (ℕ × Text)
touch_entry entry l = if not (entry.element == 0) then move_to_front entry.element l else l

unfoldable pub get : ℕ → Text → Cache → Cache × Value
unfolding touch_entry
get now key c = elim (lookup key c.entries) [
  | none ↦ (c, null)
  | some entry ↦
      if is_after now entry.expiry
      then (remove_entry key entry c, null)
      else (record c { lru_list = touch_entry entry c.lru_list }, entry.value)
]

-- Removing the key at the back of the list; a key that the map lacks would be a nil dereference,
-- which `none` stands for.
unfoldable pub evict_lru : Cache → Option Cache
evict_lru c = elim (back c.lru_list) [
  | none ↦ some c
  | some e ↦ elim (lookup e.1 c.entries) [
    | none ↦ none
    | some entry ↦ some (remove_entry e.1 entry c)
  ]
]

-- a new entry, its element pushed to the front
unfoldable pub add_entry : Text → Value → ℤ → Cache → Cache
add_entry key value expiry c = record c {
  entries =
      insert key (record { value = value; expiry = expiry; element = c.next_element }) c.entries;
  lru_list = (c.next_element, key) ∷ c.lru_list;
  next_element = c.next_element + 1;
}

unfoldable pub make_room : Cache → Option Cache
make_room c = if leb_ℤ c.max_size (pos (length c.entries)) then evict_lru c else some c

unfoldable pub set_with_ttl : ℕ → Text → Value → ℤ → Cache → Option Cache
unfolding touch_entry
set_with_ttl now key value ttl c =
    let expiry = add_time now ttl in
    elim (lookup key c.entries) [
      | some entry ↦ some (record c {
        entries = insert key (record entry { value = value; expiry = expiry }) c.entries;
        lru_list = touch_entry entry c.lru_list;
      })
      | none ↦ elim (make_room c) [ none ↦ none | some c' ↦ some (add_entry key value expiry c') ]
    ]

unfoldable pub set : ℕ → Text → Value → Cache → Option Cache
set now key value c = set_with_ttl now key value c.ttl c

unfoldable pub delete : Text → Cache → Cache
delete key c = elim (lookup key c.entries) [ none ↦ c | some entry ↦ remove_entry key entry c ]

unfoldable pub clear : Cache → Cache
clear c = record c { entries = []; lru_list = [] }

unfoldable pub size : Cache → ℕ
size c = length c.entries
