-- ===== src/Transforms/Remove.antt =====
-- internal/transform/field/remove.go: removing fields.
use ggt.Prelude.{true, none, List, [], ◌∷◌, ◌≡◌, refl, Text, codes, ◌∙◌}
use ggt.Event.{Event, path_keys, get_field, remove_field}
use ggt.Event.Paths.{diverges}
use ggt.Event.Laws.{get-remove_field_self, get-remove_field_ne}
use ggt.Event.Absent.{get-remove_field-none}
use ggt.Pipeline.{Payload, one, Result, ok, err, failure}
use ggt.Transforms.{Raw, empty_raw, undecodable, decoded, Configured, refused, configured}

pub record Config : Type 0 where
  pub fields : List Text

-- no fields to remove where there is no configuration
unfoldable pub configure : Raw Config → Configured Config
configure empty_raw = configured (record { fields = [] })
configure (undecodable e) = refused e
configure (decoded cfg) = configured cfg

unfoldable pub remove_all : List Text → Event → Event
remove_all [] e = e
remove_all (f ∷ fs) e = remove_all fs (remove_field e f)

unfoldable pub execute : Config → Payload → Result
execute cfg (one e) = ok (one (remove_all cfg.fields e))
execute cfg _ = err (failure (codes "unexpected payload type"))

-- The paths of a list all part from a path.
abbrev pub Apart : Text → List Text → Type 0
Apart other [] = Unit
Apart other (f ∷ fs) = (diverges (path_keys f) (path_keys other) ≡ true) × Apart other fs

-- The fields of a list are all gone.
abbrev pub Gone : Event → List Text → Type 0
Gone e [] = Unit
Gone e (f ∷ fs) = (get_field e f ≡ none) × Gone e fs

remove_all-none :
    (fs : List Text) (e : Event) (other : Text)
    → get_field e other ≡ none
    → get_field (remove_all fs e) other ≡ none
unfolding remove_all
remove_all-none [] e other h = h
remove_all-none (f ∷ fs) e other h =
    remove_all-none fs (remove_field e f) other (get-remove_field-none e f other h)

remove_all-Gone : (fs : List Text) (e : Event) → Gone (remove_all fs e) fs
unfolding remove_all
remove_all-Gone [] e = tt
remove_all-Gone (f ∷ fs) e = (
  remove_all-none fs (remove_field e f) f (get-remove_field_self e f),
  remove_all-Gone fs (remove_field e f),
)

remove_all-Apart :
    (fs : List Text) (e : Event) (other : Text)
    → Apart other fs
    → get_field (remove_all fs e) other ≡ get_field e other
unfolding remove_all
remove_all-Apart [] e other h = refl
remove_all-Apart (f ∷ fs) e other (h, hs) =
    remove_all-Apart fs (remove_field e f) other hs ∙ get-remove_field_ne e f other h

-- The transform succeeds on every event, and in the event that it gives each of its fields is
-- gone, also where a later path lies above or below it, while every field whose path parts from
-- all of them is what it was.
pub execute-Gone :
    (cfg : Config) (e : Event)
    → (e' : Event) × (execute cfg (one e) ≡ ok (one e'))
      × Gone e' cfg.fields
      × ((other : Text) → Apart other cfg.fields → get_field e' other ≡ get_field e other)
unfolding execute
execute-Gone cfg e = (
  remove_all cfg.fields e,
  refl,
  remove_all-Gone cfg.fields e,
  λ other h. remove_all-Apart cfg.fields e other h,
)
