-- ===== src/Cache/Spec.antt =====
-- What the cache promises: a list of keys with a value and an expiry, most recently used first.
use ggt.Prelude.{ℕ, none, some, ◌∷◌, Text, length, if◌then◌else◌}
use ggt.Prelude.Int.{ℤ, pos, leb_ℤ}
use ggt.Prelude.Dict.{Dict, lookup, remove}
use ggt.Value.{Value, null}
use ggt.Cache.{add_time, is_after}
use ggt.Cache.Rep.{drop_last}

pub record Item : Type 0 where
  pub value : Value
  pub expiry : ℤ

abbrev pub Recent : Type 0
Recent = Dict Item

-- A hit that has not expired moves to the front; an expired entry is dropped.
unfoldable pub recent_get : ℕ → Text → Recent → Recent × Value
recent_get now key s = elim (lookup key s) [
  | none ↦ (s, null)
  | some i ↦
      if is_after now i.expiry then (remove key s, null) else ((key, i) ∷ remove key s, i.value)
]

-- A known key is written and moved to the front; a new one goes to the front, and if the cache is
-- full the least recently used entry is dropped.
unfoldable pub recent_set : ℤ → ℕ → Text → Value → ℤ → Recent → Recent
recent_set max_size now key value ttl s =
    let i : Item = record { value = value; expiry = add_time now ttl } in
    elim (lookup key s) [
      | some _ ↦ (key, i) ∷ remove key s
      | none ↦ (key, i) ∷ (if leb_ℤ max_size (pos (length s)) then drop_last s else s)
    ]
