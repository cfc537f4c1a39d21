-- ===== src/Tests/Events.antt =====
-- Events and paths on a concrete event (pkg/event/event.go).
use ggt.Prelude.{Option, none, some, List, [], ◌∷◌, ◌≡◌, ◌≢◌, refl, Text, codes, true, false}
use ggt.Prelude.Int.{pos}
use ggt.Value.{Value, str, bool, object, make_map, no_fields, field}
use ggt.Event.{Event, split, path_keys, get_field, set_field}
use ggt.Event.Paths.{diverges}
use ggt.Event.Laws.{get-set_field_self, get-set_field_ne}

abbrev name : Text
name = codes "user.name"

abbrev age : Text
age = codes "user.age"

abbrev ann : Value
ann = str (codes "Ann")

abbrev bob : Value
bob = str (codes "Bob")

abbrev pub user : Event
user = record {
  payload =
      make_map
        (field (codes "user") (object (make_map (field (codes "name") ann no_fields))) no_fields);
  metadata = record { topic = codes "in"; partition = pos 0; offset = pos 7; key = none };
  timestamp = 5;
  headers = some [];
}

get-set_field_self_example : get_field (set_field user name bob) name ≡ some bob
get-set_field_self_example = get-set_field_self user name bob (λ h. cc)

apart : diverges (path_keys age) (path_keys name) ≡ true
unfolding diverges split ggt.Prelude.text_eq
apart = refl

get-set_field_ne_example : get_field (set_field user age (bool true)) name ≡ get_field user name
get-set_field_ne_example = get-set_field_ne user age name (bool true) apart
