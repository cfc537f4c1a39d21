-- ===== src/Cache/Refinement.antt =====
-- The cache of internal/enrichment/cache.go implements the list of recent entries.
use ggt.Prelude.{
  ℕ, suc, none, some, [], ◌∷◌, ◌≡◌, refl, sym, ap, ◌∙◌, Text, length, arith, if◌then◌else◌,
  Bool-cases, Option-cases, inl, inr,
}
use mathlib.Core.Option
use ggt.Prelude.Int.{ℤ, pos, leb_ℤ, ◌≤ℤ◌}
use ggt.Prelude.Dict.{lookup, remove, insert, remove_absent}
use ggt.Value.{Value, null}
use ggt.Cache.{
  Entry, Cache, new_lru_cache, get, set_with_ttl, delete, clear, size, is_after, add_time,
  remove_entry, add_entry, make_room, touch_entry,
}
use ggt.Cache.Rep.{Rep, Holds, drop_last}
use ggt.Cache.Spec.{Item, Recent, recent_get, recent_set}
use ggt.Cache.Ops.{remove_entry-Holds, touch-Holds, write-Holds, add_entry-Holds, make_room-Holds}

abbrev item : Entry → Item
item e = record { value = e.value; expiry = e.expiry }

abbrev view : Rep → Recent
view [] = []
view ((k, e) ∷ r) = (k, item e) ∷ view r

lookup-view : (k : Text) (r : Rep) → lookup k (view r) ≡ Option.map item (lookup k r)
unfolding lookup
lookup-view k [] = refl
lookup-view k ((j, e) ∷ r) = ground (arith, lookup-view k r)

remove-view : (k : Text) (r : Rep) → remove k (view r) ≡ view (remove k r)
unfolding remove
remove-view k [] = refl
remove-view k ((j, e) ∷ r) = ground (arith, remove-view k r)

drop_last-view : (r : Rep) → drop_last (view r) ≡ view (drop_last r)
drop_last-view [] = refl
drop_last-view (x ∷ []) = refl
drop_last-view ((k, e) ∷ y ∷ r) = rw (drop_last-view (y ∷ r)) refl

length-view : (r : Rep) → length (view r) ≡ length r
length-view [] = refl
length-view ((k, e) ∷ r) = ap suc (length-view r)

-- The cache stands for the list: some representation holds the map and the linked list together,
-- and shows the list.
pub data Represents (c : Cache) (s : Recent) : Type 0 where
  by : (r : Rep) → Holds c r → view r ≡ s → Represents c s

get_found :
    (now : ℕ) (k : Text) (c : Cache) (e : Entry)
    → lookup k c.entries ≡ some e
    → get now k c ≡ (
        if is_after now e.expiry
        then (remove_entry k e c, null)
        else (record c { lru_list = touch_entry e c.lru_list }, e.value))
unfolding get
get_found now k c e p = rw (p, get) refl

get_missing : (now : ℕ) (k : Text) (c : Cache) → lookup k c.entries ≡ none → get now k c ≡ (c, null)
unfolding get
get_missing now k c p = rw (p, get) refl

recent_found :
    (k : Text) (r : Rep) (e : Entry) → lookup k r ≡ some e → lookup k (view r) ≡ some (item e)
recent_found k r e p = rw (lookup-view, p) refl

recent_get_found :
    (now : ℕ) (k : Text) (s : Recent) (i : Item)
    → lookup k s ≡ some i
    → recent_get now k s
      ≡ (if is_after now i.expiry then (remove k s, null) else ((k, i) ∷ remove k s, i.value))
unfolding recent_get
recent_get_found now k s i p = rw (p, recent_get) refl

recent_get_missing :
    (now : ℕ) (k : Text) (s : Recent) → lookup k s ≡ none → recent_get now k s ≡ (s, null)
unfolding recent_get
recent_get_missing now k s p = rw (p, recent_get) refl

recent_missing : (k : Text) (r : Rep) → lookup k r ≡ none → lookup k (view r) ≡ none
recent_missing k r p = rw (lookup-view, p) refl

-- `Get` shows what the list of recent entries shows, and keeps standing for it.
pub get-Represents :
    (now : ℕ) (k : Text) (c : Cache) (s : Recent)
    → Represents c s
    → Represents (get now k c).0 (recent_get now k s).0 × ((get now k c).1 ≡ (recent_get now k s).1)
get-Represents now k c s (by r h v) = rw (← v) (elim (Option-cases (lookup k r)) [
  | inl miss ↦
      rw
        (
          get_missing now k c (h.map_eq k ∙ miss),
          recent_get_missing now k _ (recent_missing k r miss),
        )
        (by r h refl, refl)
  | inr (e, hit) ↦
      rw
        (
          get_found now k c e (h.map_eq k ∙ hit),
          recent_get_found now k _ (item e) (recent_found k r e hit),
        )
        (elim (Bool-cases (is_after now e.expiry)) [
          | inl late ↦
              rw late
                (by (remove k r) (remove_entry-Holds c r k e h hit) (sym (remove-view k r)), refl)
          | inr live ↦ rw live (
            by ((k, e) ∷ remove k r) (touch-Holds c r k e h hit) (rw (← remove-view k r) refl),
            refl,
          )
        ])
])

set_found :
    (now : ℕ) (k : Text) (v : Value) (ttl : ℤ) (c : Cache) (e : Entry)
    → lookup k c.entries ≡ some e
    → set_with_ttl now k v ttl c
      ≡ some (record c {
        entries = insert k (record e { value = v; expiry = add_time now ttl }) c.entries;
        lru_list = touch_entry e c.lru_list;
      })
unfolding set_with_ttl
set_found now k v ttl c e p = rw (p, set_with_ttl) refl

set_missing :
    (now : ℕ) (k : Text) (v : Value) (ttl : ℤ) (c c' : Cache)
    → lookup k c.entries ≡ none
    → make_room c ≡ some c'
    → set_with_ttl now k v ttl c ≡ some (add_entry k v (add_time now ttl) c')
unfolding set_with_ttl
set_missing now k v ttl c c' p q = rw (p, q, set_with_ttl) refl

recent_set_found :
    (max_size : ℤ) (now : ℕ) (k : Text) (v : Value) (ttl : ℤ) (s : Recent) (i : Item)
    → lookup k s ≡ some i
    → recent_set max_size now k v ttl s
      ≡ (k, record { value = v; expiry = add_time now ttl }) ∷ remove k s
unfolding recent_set
recent_set_found max_size now k v ttl s i p = rw (p, recent_set) refl

recent_set_missing :
    (max_size : ℤ) (now : ℕ) (k : Text) (v : Value) (ttl : ℤ) (s : Recent)
    → lookup k s ≡ none
    → recent_set max_size now k v ttl s
      ≡ (k, record { value = v; expiry = add_time now ttl })
        ∷ (if leb_ℤ max_size (pos (length s)) then drop_last s else s)
unfolding recent_set
recent_set_missing max_size now k v ttl s p = rw (p, recent_set) refl

pub lookup-drop_last : (k : Text) (r : Rep) → lookup k r ≡ none → lookup k (drop_last r) ≡ none
unfolding lookup
lookup-drop_last k [] p = refl
lookup-drop_last k (x ∷ []) p = refl
lookup-drop_last k ((j, e) ∷ y ∷ r) p = ground (arith, lookup-drop_last k (y ∷ r))

roomy : ℤ → Rep → Rep
roomy max_size r = if leb_ℤ max_size (pos (length r)) then drop_last r else r

lookup-roomy :
    (max_size : ℤ) (k : Text) (r : Rep) → lookup k r ≡ none → lookup k (roomy max_size r) ≡ none
unfolding roomy
lookup-roomy max_size k r p = ground (arith, lookup-drop_last k r)

view-roomy :
    (max_size : ℤ) (r : Rep)
    → view (roomy max_size r)
      ≡ (if leb_ℤ max_size (pos (length (view r))) then drop_last (view r) else view r)
unfolding roomy
view-roomy max_size r = rw (length-view r, drop_last-view r) (ground arith)

-- `SetWithTTL` never dereferences nil, and keeps standing for the list of recent entries.
pub set-Represents :
    (now : ℕ) (k : Text) (v : Value) (ttl : ℤ) (c : Cache) (s : Recent)
    → Represents c s
    → (c' : Cache) × (set_with_ttl now k v ttl c ≡ some c')
      × Represents c' (recent_set c.max_size now k v ttl s)
      × (c'.max_size ≡ c.max_size)
      × (c'.ttl ≡ c.ttl)
set-Represents now k v ttl c s (by r h q) = rw (← q) (elim (Option-cases (lookup k r)) [
  | inl miss ↦
      let (c', e, h', m, t) = make_room-Holds c r h in
      (
        add_entry k v (add_time now ttl) c',
        set_missing now k v ttl c c' (h.map_eq k ∙ miss) e,
        rw (recent_set_missing c.max_size now k v ttl _ (recent_missing k r miss)) (
            by _
              (add_entry-Holds c' (roomy c.max_size r) k v (add_time now ttl) (unfold roomy in h')
                (lookup-roomy c.max_size k r miss))
              (rw (view-roomy c.max_size r) refl)),
        unfold add_entry in m,
        unfold add_entry in t,
      )
  | inr (e, hit) ↦ (
    _,
    set_found now k v ttl c e (h.map_eq k ∙ hit),
    rw (recent_set_found c.max_size now k v ttl _ (item e) (recent_found k r e hit)) (
        by _ (write-Holds c r k e (record e { value = v; expiry = add_time now ttl }) h hit refl)
          (rw (← remove-view k r) refl)),
    refl,
    refl,
  )
])

delete_found :
    (k : Text) (c : Cache) (e : Entry)
    → lookup k c.entries ≡ some e
    → delete k c ≡ remove_entry k e c
unfolding delete
delete_found k c e p = rw (p, delete) refl

delete_missing : (k : Text) (c : Cache) → lookup k c.entries ≡ none → delete k c ≡ c
unfolding delete
delete_missing k c p = rw (p, delete) refl

pub delete-Represents :
    (k : Text) (c : Cache) (s : Recent) → Represents c s → Represents (delete k c) (remove k s)
delete-Represents k c s (by r h v) = rw (← v) (elim (Option-cases (lookup k r)) [
  | inl miss ↦
      rw (delete_missing k c (h.map_eq k ∙ miss), remove_absent k _ (recent_missing k r miss))
        (by r h refl)
  | inr (e, hit) ↦
      rw (delete_found k c e (h.map_eq k ∙ hit))
        (by (remove k r) (remove_entry-Holds c r k e h hit) (sym (remove-view k r)))
])

pub clear-Represents : (c : Cache) (s : Recent) → Represents c s → Represents (clear c) []
unfolding clear
clear-Represents c s (by r h v) =
    by []
      (record {
        list_eq = refl;
        map_eq = λ k. refl;
        size_eq = refl;
        map_keys = tt;
        keys = tt;
        distinct = tt;
        allocated = tt;
        next_pos = h.next_pos;
      })
      refl

-- A new cache is empty, and its size limit is positive.
pub new-Represents :
    (max_size ttl : ℤ)
    → Represents (new_lru_cache max_size ttl) [] × (pos 1 ≤ℤ (new_lru_cache max_size ttl).max_size)
unfolding new_lru_cache
new-Represents max_size ttl = (
  by []
      (record {
        list_eq = refl;
        map_eq = λ k. refl;
        size_eq = refl;
        map_keys = tt;
        keys = tt;
        distinct = tt;
        allocated = tt;
        next_pos = omega arith;
      })
      refl,
  ground arith,
)

pub size-Represents : (c : Cache) (s : Recent) → Represents c s → size c ≡ length s
unfolding size
size-Represents c s (by r h v) = h.size_eq ∙ sym (length-view r) ∙ ap length v
