-- ===== src/Consumer/Offsets.antt =====
-- internal/consumer/offset_manager.go: the committed offsets, by key. A manager that is nil is
-- `none`.
use ggt.Prelude.{
  Bool, true, false, Option, none, some, List, [], ◌∷◌, ◌≡◌, refl, ap, ◌∙◌, Text, text_eq,
  text_eq_iff, arith, if◌then◌else◌,
}
use ggt.Prelude.Int.{ℤ, pos}
use ggt.Prelude.Dict.{Dict, lookup, insert, lookup-insert}

pub record OffsetManager : Type 0 where
  pub commits : Dict ℤ

unfoldable pub new_offset_manager : Option OffsetManager
new_offset_manager = some (record { commits = [] })

pub data Committed : Type 0 where
  manager_nil : Committed
  done : Committed

unfoldable pub commit : Text → ℤ → Option OffsetManager → Option OffsetManager × Committed
commit key offset none = (none, manager_nil)
commit key offset (some o) = (some (record { commits = insert key offset o.commits }), done)

unfoldable pub get : Text → Option OffsetManager → ℤ × Bool
get key none = (pos 0, false)
get key (some o) = elim (lookup key o.commits) [ none ↦ (pos 0, false) | some v ↦ (v, true) ]

-- The commits of a list, in order.
unfoldable pub commit_all : List (Text × ℤ) → Option OffsetManager → Option OffsetManager
commit_all [] o = o
commit_all ((key, offset) ∷ cs) o = commit_all cs (commit key offset o).0

-- The last offset of a key in a list of commits, or what it was before.
unfoldable pub last_commit : Text → List (Text × ℤ) → ℤ × Bool → ℤ × Bool
last_commit key [] before = before
last_commit key ((k, offset) ∷ cs) before =
    last_commit key cs (if text_eq k key then (offset, true) else before)

get-commit :
    (key other : Text) (offset : ℤ) (o : OffsetManager)
    → get other (commit key offset (some o)).0
      ≡ (if text_eq key other then (offset, true) else get other (some o))
unfolding get commit
get-commit key other offset o =
    ground (arith, text_eq_iff key other, lookup-insert key other offset o.commits)

-- `Get` returns the offset of the last commit of the key, if there was one, and what it returned
-- before all the commits if there was none.
pub get-commit_all :
    (cs : List (Text × ℤ)) (key : Text) (o : OffsetManager)
    → get key (commit_all cs (some o)) ≡ last_commit key cs (get key (some o))
unfolding commit_all last_commit commit
get-commit_all [] key o = refl
get-commit_all ((k, offset) ∷ cs) key o =
    get-commit_all cs key (record { commits = insert k offset o.commits })
    ∙ ap (last_commit key cs) (get-commit k key offset o)
