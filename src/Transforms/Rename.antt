-- ===== src/Transforms/Rename.antt =====
-- internal/transform/field/rename.go: renaming fields.
use ggt.Prelude.{
  Bool, true, false, not, ◌&&◌, Option, none, some, List, [], ◌∷◌, ◌++◌, ◌≡◌, ◌≢◌, refl, ap, ◌∙◌,
  Text, codes, text_eq, text_eq_refl, ltb, length, arith, if◌then◌else◌, Option-cases, inl, inr,
}
use ggt.Prelude.Dict.{Dict, lookup, insert}
use ggt.Prelude.Sort.{sort_strings, insert_text}
use ggt.Value.{Value}
use ggt.Event.{Event, path_keys, get_field, set_field, remove_field}
use ggt.Event.Paths.{diverges}
use ggt.Event.Laws.{
  get-set_field_self, get-remove_field_self, get-remove_field_ne, get-set_field_ne,
}
use ggt.Pipeline.{Payload, one, Error, Result, ok, err, failure}
use ggt.Transforms.{Raw, empty_raw, undecodable, decoded, Configured, refused, configured}

pub record Config : Type 0 where
  pub mappings : Dict Text

unfoldable pub configure : Raw Config → Configured Config
configure empty_raw = configured (record { mappings = [] })
configure (undecodable e) = refused e
configure (decoded cfg) = configured cfg

abbrev sources_of : Option (List Text) → List Text
sources_of none = []
sources_of (some l) = l

-- `targetToSources`
unfoldable pub group : Dict Text → Dict (List Text) → Dict (List Text)
group [] acc = acc
group ((from, to) ∷ m) acc = group m (insert to (sources_of (lookup to acc) ++ from ∷ []) acc)

unfoldable pub exists : Event → Text → Bool
exists e path = elim (get_field e path) [ none ↦ false | some _ ↦ true ]

unfoldable pub existing_sources : Event → Text → List Text → List Text
existing_sources e target [] = []
existing_sources e target (s ∷ ss) =
    let rest = existing_sources e target ss in
    if exists e s && not (text_eq s target) then s ∷ rest else rest

-- the check of one target
unfoldable pub conflict : Event → Text → List Text → Option Error
conflict e target sources =
    let found = length (existing_sources e target sources) in
    if ltb 1 found
    then some (failure (codes "field.rename: multiple source fields map to the same target"))
    else if exists e target && ltb 0 found
    then some (failure (codes "field.rename: target field already exists"))
    else none

unfoldable pub check : Event → Dict (List Text) → Option Error
check e [] = none
check e ((target, sources) ∷ m) = elim (conflict e target sources) [
  | some x ↦ some x
  | none ↦ check e m
]

-- "" where a key is missing
abbrev target_of : Option Text → Text
target_of none = []
target_of (some t) = t

unfoldable pub rename_one : Text → Text → Event → Event
rename_one from to e = elim (get_field e from) [
  | none ↦ e
  | some v ↦ remove_field (set_field e to v) from
]

unfoldable pub rename_each : Dict Text → List Text → Event → Event
rename_each m [] e = e
rename_each m (from ∷ froms) e = rename_each m froms (rename_one from (target_of (lookup from m)) e)

unfoldable pub sources : Dict Text → List Text
sources [] = []
sources ((from, to) ∷ m) = from ∷ sources m

unfoldable pub execute : Config → Payload → Result
execute cfg (one e) = elim (check e (group cfg.mappings [])) [
  | some x ↦ err x
  | none ↦ ok (one (rename_each cfg.mappings (sort_strings (sources cfg.mappings)) e))
]
execute cfg _ = err (failure (codes "unexpected payload type"))

abbrev pub single : Text → Text → Config
single from to = record { mappings = (from, to) ∷ [] }

group_single : (from to : Text) → group ((from, to) ∷ []) [] ≡ (to, from ∷ []) ∷ []
unfolding group lookup insert
group_single from to = refl

sort-sources : (from to : Text) → sort_strings (sources ((from, to) ∷ [])) ≡ from ∷ []
unfolding sources sort_strings insert_text
sort-sources from to = refl

target_single : (from to : Text) → target_of (lookup from ((from, to) ∷ [])) ≡ to
unfolding lookup
target_single from to = rw (text_eq_refl from) refl

rename_each_single :
    (from to : Text) (e : Event)
    → rename_each ((from, to) ∷ []) (from ∷ []) e ≡ rename_one from to e
unfolding rename_each
rename_each_single from to e = rw (target_single from to) refl

check_single :
    (to : Text) (froms : List Text) (e : Event)
    → conflict e to froms ≡ none
    → check e ((to, froms) ∷ []) ≡ none
unfolding check
check_single to froms e h = rw (h, check) refl

execute_checked :
    (cfg : Config) (e : Event)
    → check e (group cfg.mappings []) ≡ none
    → execute cfg (one e)
      ≡ ok (one (rename_each cfg.mappings (sort_strings (sources cfg.mappings)) e))
unfolding execute
execute_checked cfg e h = rw (h, execute) refl

exists-none : (e : Event) (path : Text) → get_field e path ≡ none → exists e path ≡ false
unfolding exists
exists-none e path h = rw (h, exists) refl

-- What the transform does with one mapping that it accepts.
rename_single :
    (from to : Text) (e : Event)
    → conflict e to (from ∷ []) ≡ none
    → execute (single from to) (one e) ≡ ok (one (rename_one from to e))
rename_single from to e h =
    execute_checked (single from to) e
      (ap (check e) (group_single from to) ∙ check_single to (from ∷ []) e h)
    ∙ ap (λ l. ok (one (rename_each ((from, to) ∷ []) l e))) (sort-sources from to)
    ∙ ap (λ x. ok (one x)) (rename_each_single from to e)

self_free : (f : Text) (e : Event) → conflict e f (f ∷ []) ≡ none
unfolding conflict existing_sources
self_free f e = rw (text_eq_refl f) (ground arith)

free_target :
    (from to : Text) (e : Event) → get_field e to ≡ none → conflict e to (from ∷ []) ≡ none
unfolding conflict existing_sources
free_target from to e h = rw (exists-none e to h) (ground arith)

rename_found :
    (from to : Text) (e : Event) (v : Value)
    → get_field e from ≡ some v
    → rename_one from to e ≡ remove_field (set_field e to v) from
unfolding rename_one
rename_found from to e v h = rw (h, rename_one) refl

rename_missing : (from to : Text) (e : Event) → get_field e from ≡ none → rename_one from to e ≡ e
unfolding rename_one
rename_missing from to e h = rw (h, rename_one) refl

-- With one mapping, a field that is there moves to a target that is free, if their paths part: the
-- target holds its value, the source is gone, and every field that parts from both stays.
pub execute_renamed :
    (from to : Text) (e : Event) (v : Value)
    → get_field e from ≡ some v
    → get_field e to ≡ none
    → to ≢ []
    → diverges (path_keys from) (path_keys to) ≡ true
    → (e' : Event) × (execute (single from to) (one e) ≡ ok (one e'))
      × (get_field e' to ≡ some v)
      × (get_field e' from ≡ none)
      × ((other : Text)
          → diverges (path_keys from) (path_keys other) ≡ true
          → diverges (path_keys to) (path_keys other) ≡ true
          → get_field e' other ≡ get_field e other)
execute_renamed from to e v h free n d =
    let e1 = set_field e to v in
    (
      remove_field e1 from,
      rename_single from to e (free_target from to e free)
          ∙ ap (λ x. ok (one x)) (rename_found from to e v h),
      get-remove_field_ne e1 from to d ∙ get-set_field_self e to v n,
      get-remove_field_self e1 from,
      λ other p q. get-remove_field_ne e1 from other p ∙ get-set_field_ne e to other v q,
    )

-- A field that is mapped to itself is lost: the check lets the mapping pass as one that does
-- nothing, and the renaming writes the field and removes it.
pub execute_self_lost :
    (f : Text) (e : Event)
    → (e' : Event) × (execute (single f f) (one e) ≡ ok (one e')) × (get_field e' f ≡ none)
execute_self_lost f e = elim (Option-cases (get_field e f)) [
  | inl h ↦
      (e, rename_single f f e (self_free f e) ∙ ap (λ x. ok (one x)) (rename_missing f f e h), h)
  | inr (v, h) ↦ (
    remove_field (set_field e f v) f,
    rename_single f f e (self_free f e) ∙ ap (λ x. ok (one x)) (rename_found f f e v h),
    get-remove_field_self (set_field e f v) f,
  )
]
