-- ===== src/Event/Builder/Built.antt =====
-- What a builder builds (pkg/event/builder.go).
use ggt.Prelude.{ℕ, Option, none, some, List, [], ◌∷◌, ◌≡◌, ◌≢◌, refl, sym, ap, ◌∙◌, Text, All}
use ggt.Value.{
  Value, Object, make_map, nil_map, null, bool, int, float32, float64, float64_ptr, str, time,
  strings, slice, object,
}
use ggt.Event.{Event, path_keys, set_field, set_keys}
use ggt.Event.Copies.{clone_metadata-eq, clone_string_map-eq}
use ggt.Event.Laws.{split-cons}
use ggt.Event.Builder.{
  Builder, new_builder, split_path, drop_empty, with_keys, with_field, copied_payload, build,
}
use ggt.Event.Builder.Timeless.{IsTimeless, HasNoTime, set_keys-HasNoTime, copy_payload-AreTimeless}
use ggt.Event.Builder.Whole.{IsWhole, IsWholeValue, empty-IsWhole, with_keys-IsWhole}

-- A path without an empty segment, and not empty itself.
abbrev pub IsRegular : Text → Type 0
IsRegular path = (path ≢ []) × (drop_empty (path_keys path) ≡ path_keys path)

copied_payload-HasNoTime : (m : Object) → HasNoTime m → copied_payload m ≡ m
copied_payload-HasNoTime nil_map h = refl
copied_payload-HasNoTime (make_map fs) h = rw (copy_payload-AreTimeless fs h) refl

event_of_build : (b : Builder) → HasNoTime b.event.payload → build b ≡ b.event
unfolding build
event_of_build b h =
    rw
      (
        copied_payload-HasNoTime b.event.payload h,
        clone_metadata-eq b.event.metadata,
        clone_string_map-eq b.event.headers,
      )
      refl

-- the builder after fields are set in turn
unfoldable pub with_fields : List (Text × Value) → Builder → Option Builder
with_fields [] b = some b
with_fields ((path, v) ∷ rest) b = elim (with_field path v b) [
  | none ↦ none
  | some b' ↦ with_fields rest b'
]

unfoldable pub set_fields : List (Text × Value) → Event → Event
set_fields [] e = e
set_fields ((path, v) ∷ rest) e = set_fields rest (set_field e path v)

-- A value that is no map, so that the maps of the payload are the builder's own and none is shared.
unfoldable pub IsNoMap : Value → Type 0
IsNoMap (object m) = ⊥
IsNoMap _ = Unit

IsNoMap-IsWholeValue : (v : Value) → IsNoMap v → IsWholeValue v
unfolding IsNoMap IsWholeValue
IsNoMap-IsWholeValue (object m) h = elim h [ ]
IsNoMap-IsWholeValue null h = tt
IsNoMap-IsWholeValue (bool b) h = tt
IsNoMap-IsWholeValue (int k z) h = tt
IsNoMap-IsWholeValue (float32 x) h = tt
IsNoMap-IsWholeValue (float64 x) h = tt
IsNoMap-IsWholeValue (float64_ptr x) h = tt
IsNoMap-IsWholeValue (str t) h = tt
IsNoMap-IsWholeValue (time t) h = tt
IsNoMap-IsWholeValue (strings l) h = tt
IsNoMap-IsWholeValue (slice l) h = tt

abbrev pub IsField : Text × Value → Type 0
IsField (path, v) = IsRegular path × IsNoMap v × IsTimeless v

with_field-set_field :
    (path : Text) (v : Value) (b : Builder)
    → IsRegular path
    → IsWholeValue v
    → IsTimeless v
    → IsWhole b.event.payload
    → HasNoTime b.event.payload
    → (b' : Builder) × (with_field path v b ≡ some b')
      × IsWhole b'.event.payload
      × HasNoTime b'.event.payload
      × (b'.event ≡ set_field b.event path v)
unfolding with_field split_path set_field
with_field-set_field [] v b r w t h u = absurd (r.0 refl)
with_field-set_field (c ∷ path) v b (n, r) w t h u =
    let (k, ks, s) = split-cons b'.' (c ∷ path) in
    let (m', e, p, q) = with_keys-IsWhole k ks v b.event.payload h w in
    let found : with_keys (split_path (c ∷ path)) v b.event.payload ≡ some m' =
      ap (λ l. with_keys l v b.event.payload) (r ∙ s) ∙ e in
    let written : m' ≡ set_keys (path_keys (c ∷ path)) v b.event.payload =
      q ∙ ap (λ l. set_keys l v b.event.payload) (sym s) in
    (
      record { event = record b.event { payload = m' } },
      rw (found, with_field) refl,
      p,
      rw (q) (set_keys-HasNoTime k ks v b.event.payload t u),
      rw (written, clone_metadata-eq b.event.metadata, clone_string_map-eq b.event.headers) refl,
    )

fields-set_fields :
    (fields : List (Text × Value)) (b : Builder)
    → All IsField fields
    → IsWhole b.event.payload
    → HasNoTime b.event.payload
    → (b' : Builder) × (with_fields fields b ≡ some b')
      × HasNoTime b'.event.payload
      × (b'.event ≡ set_fields fields b.event)
unfolding with_fields set_fields
fields-set_fields [] b h p u = (b, refl, u, refl)
fields-set_fields ((path, v) ∷ rest) b ((r, w, t), hs) p u =
    let (b', e, p', u', q) = with_field-set_field path v b r (IsNoMap-IsWholeValue v w) t p u in
    let (b'', e', u'', q') = fields-set_fields rest b' hs p' u' in
    (b'', rw (e, with_fields) e', u'', q' ∙ ap (λ x. set_fields rest x) q)

-- From a new builder, any calls of `WithField` with paths without empty segments and values that are
-- neither maps nor times never panic, and `Build` gives the event that `SetField` gives for the same
-- paths and values in turn, from an event with an empty payload.
pub build-with_fields :
    (now : ℕ) (fields : List (Text × Value))
    → All IsField fields
    → (b : Builder) × (with_fields fields (new_builder now) ≡ some b)
      × (build b ≡ set_fields fields (new_builder now).event)
unfolding new_builder
build-with_fields now fields h =
    let (b, e, u, q) = fields-set_fields fields (new_builder now) h empty-IsWhole tt in
    (b, e, event_of_build b u ∙ q)
