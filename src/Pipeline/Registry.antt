-- ===== src/Pipeline/Registry.antt =====
-- internal/transform/registry.go: the registry, from names to factories. The configuration that a
-- factory is handed is raw bytes.
use mathlib.Core.List.{Perm}
use ggt.Prelude.{
  Bool, true, false, Option, none, some, List, [], ◌∷◌, ◌≡◌, refl, Text, text_eq, text_eq_iff,
  arith, if◌then◌else◌, Option-cases, inl, inr,
}
use ggt.Prelude.Dict.{Dict, lookup, insert, remove, lookup-insert, lookup-remove}
use ggt.Prelude.Sort.{sort_strings, IsSorted, sort-IsSorted, sort-perm}
use ggt.Pipeline.{Transform}

pub data CreateError : Type 0 where
  unknown_transform : Text → CreateError
  from_factory : Text → CreateError

pub data Created : Type 0 where
  made : Transform → Created
  refused : CreateError → Created

abbrev pub Factory : Type 0
Factory = Text → Created

abbrev pub Registry : Type 0
Registry = Dict Factory

unfoldable pub register : Text → Factory → Registry → Registry
register name f reg = insert name f reg

unfoldable pub create : Text → Text → Registry → Created
create name cfg reg = elim (lookup name reg) [
  | none ↦ refused (unknown_transform name)
  | some f ↦ f cfg
]

unfoldable pub keys : Registry → List Text
keys [] = []
keys ((name, f) ∷ reg) = name ∷ keys reg

unfoldable pub registered : Registry → List Text
unfolding keys
registered reg = sort_strings (keys reg)

unfoldable pub unregister : Text → Registry → Registry × Bool
unregister name reg = elim (lookup name reg) [
  | none ↦ (reg, false)
  | some _ ↦ (remove name reg, true)
]

create_by : Option Factory → Text → Text → Created
create_by none name cfg = refused (unknown_transform name)
create_by (some f) name cfg = f cfg

create_lem :
    (name cfg : Text) (reg : Registry) → create name cfg reg ≡ create_by (lookup name reg) name cfg
unfolding create create_by
create_lem name cfg reg = ground arith

-- After a registration its name makes what the new factory makes, also where another factory had
-- the name, and every other name makes what it made before.
pub create-register :
    (name other cfg : Text) (f : Factory) (reg : Registry)
    → create other cfg (register name f reg)
      ≡ (if text_eq name other then f cfg else create other cfg reg)
unfolding register create_by
create-register name other cfg f reg =
    rw (create_lem, lookup-insert) (rw create_lem (ground (arith, text_eq_iff name other)))

unregister_found :
    (name : Text) (reg : Registry) (f : Factory)
    → lookup name reg ≡ some f
    → unregister name reg ≡ (remove name reg, true)
unfolding unregister
unregister_found name reg f e = rw (e, unregister) refl

unregister_missing :
    (name : Text) (reg : Registry) → lookup name reg ≡ none → unregister name reg ≡ (reg, false)
unfolding unregister
unregister_missing name reg e = rw (e, unregister) refl

-- `Unregister` tells whether the name was there; afterwards it is unknown, and every other name
-- makes what it made before.
pub create-unregister :
    (name other cfg : Text) (reg : Registry)
    → (create other cfg (unregister name reg).0
        ≡ (if text_eq name other then refused (unknown_transform other) else create other cfg reg))
      × ((unregister name reg).1 ≡ elim (lookup name reg) [ none ↦ false | some _ ↦ true ])
unfolding create_by
create-unregister name other cfg reg = elim (Option-cases (lookup name reg)) [
  | inl e ↦
      rw (unregister_missing name reg e, e)
        (
          ground (arith, text_eq_iff name other, create_lem other cfg reg, create_lem name cfg reg),
          refl,
        )
  | inr (f, e) ↦
      rw (unregister_found name reg f e, e)
        (
          rw (create_lem other cfg (remove name reg), lookup-remove, create_lem other cfg reg)
              (ground (arith, text_eq_iff name other)),
          refl,
        )
]

-- `Registered` lists the names in ascending order, each as often as the map holds it.
pub registered_lem : (reg : Registry) → IsSorted (registered reg) × Perm (registered reg) (keys reg)
unfolding registered
registered_lem reg = (sort-IsSorted (keys reg), sort-perm (keys reg))
