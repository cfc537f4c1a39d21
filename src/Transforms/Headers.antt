-- ===== src/Transforms/Headers.antt =====
-- Reading a header that a transform has set (internal/transform).
use ggt.Prelude.{false, [], ◌≡◌, refl, Text, text_eq, text_eq_refl, Option-cases, inl, inr}
use ggt.Prelude.Dict.{lookup, lookup-insert}
use ggt.Event.{Event}
use ggt.Worker.{header}
use ggt.Transforms.{set_header}

pub header-set_header : (k v : Text) (e : Event) → header k (set_header k v e).headers ≡ v
unfolding header set_header
header-set_header k v e = rw (lookup-insert, header) (rw text_eq_refl refl)

pub header-set_header_ne :
    (k j v : Text) (e : Event)
    → text_eq k j ≡ false
    → header j (set_header k v e).headers ≡ header j e.headers
unfolding header set_header
header-set_header_ne k j v e h = elim (Option-cases e.headers) [
  | inl q ↦ rw q (rw (lookup-insert k j v [], header) (rw h (unfold lookup in refl)))
  | inr (m, q) ↦ rw q (rw (lookup-insert k j v m, header) (rw h refl))
]
