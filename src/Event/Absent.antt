-- ===== src/Event/Absent.antt =====
-- Fields that are not there, and stay away (pkg/event/event.go).
use ggt.Prelude.{
  none, List, [], ◌∷◌, ◌++◌, Text, ◌≡◌, ◌≢◌, refl, sym, ◌∙◌, ap, Bool-cases, inl, inr,
}
use ggt.Event.{Event, get_keys, has_keys, path_keys, get_field, remove_field}
use ggt.Event.Paths.Missing.{get_keys-below, get-remove_keys-none}
use ggt.Event.Laws.{get_field-cons, split-cons, payload-remove_field}

pub get_field-below :
    (e : Event) (path other : Text) (j : Text) (js : List Text)
    → path ≢ []
    → path_keys other ≡ path_keys path ++ j ∷ js
    → get_field e path ≡ none
    → get_field e other ≡ none
get_field-below e [] other j js n h a = absurd (n refl)
get_field-below e (c ∷ path) [] j js n h a = unfold get_field in refl
get_field-below e (c ∷ path) (d ∷ other) j js n h a =
    let (k, ks, s) = split-cons b'.' (c ∷ path) in
    get_field-cons e d other
    ∙ ap (λ l. get_keys l e.payload) (h ∙ ap (λ l. l ++ j ∷ js) s)
    ∙ get_keys-below k ks j js e.payload
        (ap (λ l. get_keys l e.payload) (sym s) ∙ sym (get_field-cons e c path) ∙ a)

-- Removing a field makes no other field, whatever the two paths are.
pub get-remove_field-none :
    (e : Event) (path other : Text)
    → get_field e other ≡ none
    → get_field (remove_field e path) other ≡ none
get-remove_field-none e [] other a = unfold remove_field in a
get-remove_field-none e (c ∷ path) [] a = unfold get_field in refl
get-remove_field-none e (c ∷ path) (d ∷ other) a =
    let (k, ks, s) = split-cons b'.' (c ∷ path) in
    let (j, js, t) = split-cons b'.' (d ∷ other) in
    let a' : get_keys (j ∷ js) e.payload ≡ none =
      ap (λ l. get_keys l e.payload) (sym t) ∙ sym (get_field-cons e d other) ∙ a in
    elim (Bool-cases (has_keys (k ∷ ks) e.payload)) [
      | inl there ↦
          rw (get_field-cons, payload-remove_field, s, there, t)
            (get-remove_keys-none k ks j js e.payload there a')
      | inr absent ↦ rw (get_field-cons, payload-remove_field, s, absent, t) a'
    ]
