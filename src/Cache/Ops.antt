-- ===== src/Cache/Ops.antt =====
-- Each operation of the cache keeps the map and the list in step
-- (internal/enrichment/cache.go).
use ggt.Prelude.{
  none, some, [], ◌∷◌, ◌≡◌, refl, ap, ◌∙◌, Text, length, text_eq, text_eq_iff, text_eq_refl, arith,
  if◌then◌else◌, Bool-cases, inl, inr,
}
use ggt.Prelude.Int.{ℤ, pos, leb_ℤ}
use ggt.Prelude.Dict.{
  Dict, lookup, insert, remove, lookup-insert, lookup-remove, NodupKeys, insert-NodupKeys,
  remove-NodupKeys, length-remove, length-insert_old, length-insert_new,
}
use ggt.Value.{Value}
use ggt.Cache.{Entry, Cache, touch_entry, back, remove_entry, evict_lru, add_entry, make_room}
use ggt.Cache.Rep.{
  Rep, Holds, NodupElements-remove, Allocated-remove, Allocated-of_lookup, remove_element-elements,
  move_to_front-elements, Fresh-remove_self, Fresh-of_Allocated, Allocated-suc, drop_last,
  back-elements,
}

lookup-cons :
    (k j : Text) (e : Entry) (r : Rep)
    → lookup j ((k, e) ∷ r) ≡ (if text_eq k j then some e else lookup j r)
unfolding lookup
lookup-cons k j e r = refl

pub remove_entry-Holds :
    (c : Cache) (r : Rep) (k : Text) (e : Entry)
    → Holds c r
    → lookup k r ≡ some e
    → Holds (remove_entry k e c) (remove k r)
unfolding remove_entry
remove_entry-Holds c r k e h l = record {
  list_eq = ground (
    arith,
    h.list_eq,
    remove_element-elements k e r h.keys h.distinct l,
    Allocated-of_lookup c.next_element k e r h.allocated l,
  );
  map_eq = λ j. simp lookup-remove (rw (h.map_eq j) refl);
  size_eq = omega (
    arith,
    length-remove k e r h.keys l,
    length-remove k e c.entries h.map_keys (h.map_eq k ∙ l),
    h.size_eq,
  );
  map_keys = remove-NodupKeys k c.entries h.map_keys;
  keys = remove-NodupKeys k r h.keys;
  distinct = NodupElements-remove k r h.distinct;
  allocated = Allocated-remove c.next_element k r h.allocated;
  next_pos = h.next_pos;
}

-- An entry that is there moves to the front, in a map that may hold it with a new value.
touch_in-Holds :
    (c : Cache) (r : Rep) (k : Text) (e e' : Entry) (m : Dict Entry)
    → Holds c r
    → lookup k r ≡ some e
    → e'.element ≡ e.element
    → ((j : Text) → lookup j m ≡ (if text_eq k j then some e' else lookup j r))
    → length m ≡ length c.entries
    → NodupKeys m
    → Holds (record c { entries = m; lru_list = touch_entry e c.lru_list }) ((k, e') ∷ remove k r)
unfolding touch_entry
touch_in-Holds c r k e e' m h l p look len nodup = record {
  list_eq = ground (
    arith,
    h.list_eq,
    p,
    move_to_front-elements k e r h.keys h.distinct l,
    Allocated-of_lookup c.next_element k e r h.allocated l,
  );
  map_eq = λ j. rw (lookup-cons, lookup-remove) (ground (arith, look j));
  size_eq = omega (arith, length-remove k e r h.keys l, len, h.size_eq);
  map_keys = nodup;
  keys = (rw (lookup-remove, text_eq_refl) refl, remove-NodupKeys k r h.keys);
  distinct =
      (rw p (Fresh-remove_self k e r h.keys h.distinct l), NodupElements-remove k r h.distinct);
  allocated = (
    rw p (Allocated-of_lookup c.next_element k e r h.allocated l).0,
    rw p (Allocated-of_lookup c.next_element k e r h.allocated l).1,
    Allocated-remove c.next_element k r h.allocated,
  );
  next_pos = h.next_pos;
}

pub write-Holds :
    (c : Cache) (r : Rep) (k : Text) (e e' : Entry)
    → Holds c r
    → lookup k r ≡ some e
    → e'.element ≡ e.element
    → Holds
        (record c { entries = insert k e' c.entries; lru_list = touch_entry e c.lru_list })
        ((k, e') ∷ remove k r)
write-Holds c r k e e' h l p =
    touch_in-Holds c r k e e' (insert k e' c.entries) h l p
      (λ j. rw lookup-insert (ground (arith, h.map_eq j)))
      (length-insert_old k e e' c.entries (h.map_eq k ∙ l))
      (insert-NodupKeys k e' c.entries h.map_keys)

pub touch-Holds :
    (c : Cache) (r : Rep) (k : Text) (e : Entry)
    → Holds c r
    → lookup k r ≡ some e
    → Holds (record c { lru_list = touch_entry e c.lru_list }) ((k, e) ∷ remove k r)
touch-Holds c r k e h l =
    touch_in-Holds c r k e e c.entries h l refl
      (λ j. ground (arith, h.map_eq j, text_eq_iff k j, l)) refl h.map_keys

pub add_entry-Holds :
    (c : Cache) (r : Rep) (k : Text) (v : Value) (x : ℤ)
    → Holds c r
    → lookup k r ≡ none
    → Holds
        (add_entry k v x c)
        ((k, record { value = v; expiry = x; element = c.next_element }) ∷ r)
unfolding add_entry
add_entry-Holds c r k v x h l = record {
  list_eq = rw h.list_eq refl;
  map_eq = λ j. rw (lookup-insert, lookup-cons) (ground (arith, h.map_eq j));
  size_eq = omega (
    arith,
    length-insert_new k (record { value = v; expiry = x; element = c.next_element }) c.entries
        (h.map_eq k ∙ l),
    h.size_eq,
  );
  map_keys = insert-NodupKeys k _ c.entries h.map_keys;
  keys = (l, h.keys);
  distinct = (Fresh-of_Allocated c.next_element r h.allocated, h.distinct);
  allocated = (h.next_pos, omega arith, Allocated-suc c.next_element r h.allocated);
  next_pos = omega arith;
}

pub evict_lru-Holds :
    (c : Cache) (r : Rep)
    → Holds c r
    → (c' : Cache) × (evict_lru c ≡ some c')
      × Holds c' (drop_last r)
      × (c'.max_size ≡ c.max_size)
      × (c'.ttl ≡ c.ttl)
unfolding evict_lru remove_entry back
evict_lru-Holds c [] h = (c, rw (ap back h.list_eq, evict_lru) refl, h, refl, refl)
evict_lru-Holds c ((k, x) ∷ r) h =
    let (j, e, b, l, m) = back-elements k x r h.keys in
    (
      remove_entry j e c,
      rw (ap back h.list_eq ∙ b, evict_lru) (rw (h.map_eq j ∙ l) refl),
      rw (← m) (remove_entry-Holds c ((k, x) ∷ r) j e h l),
      refl,
      refl,
    )

pub make_room-Holds :
    (c : Cache) (r : Rep)
    → Holds c r
    → (c' : Cache) × (make_room c ≡ some c')
      × Holds c' (if leb_ℤ c.max_size (pos (length r)) then drop_last r else r)
      × (c'.max_size ≡ c.max_size)
      × (c'.ttl ≡ c.ttl)
unfolding make_room
make_room-Holds c r h =
    let same : leb_ℤ c.max_size (pos (length c.entries)) ≡ leb_ℤ c.max_size (pos (length r)) =
      ap (λ n. leb_ℤ c.max_size (pos n)) h.size_eq in
    elim (Bool-cases (leb_ℤ c.max_size (pos (length r)))) [
      | inl full ↦
          let (c', e, h', m, t) = evict_lru-Holds c r h in
          (c', rw (same ∙ full) e, rw full h', m, t)
      | inr room ↦ (c, rw (same ∙ room) refl, rw room h, refl, refl)
    ]
