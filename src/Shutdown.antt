-- ===== src/Shutdown.antt =====
-- internal/shutdown/coordinator.go: the coordinator of a graceful shutdown. A task is a step on
-- the state of the program, with an error or none; a task that is nil is `none`.
use ggt.Prelude.{
  ℕ, Bool, true, false, Option, none, some, List, [], ◌∷◌, ◌++◌, ◌≡◌, refl, sym, ◌∙◌, ap, Text,
  reverse, if◌then◌else◌,
}
use mathlib.Core.List.{append_assoc, append-nil, reverse-cons}

pub record NamedTask {ℓ} (W : Type ℓ) : Type ℓ where
  pub name : Text
  pub task : W → Option ℕ × W

-- `done` is the flag of `sync.Once`.
pub record Coordinator {ℓ} (W : Type ℓ) : Type ℓ where
  pub tasks : List (NamedTask W)
  pub once : Bool

module _ {ℓ} {W : Type ℓ} where
  unfoldable pub register : Text → Option (W → Option ℕ × W) → Coordinator W → Coordinator W
  register name none c = c
  register name (some task) c = record c {
    tasks = c.tasks ++ record { name = name; task = task } ∷ [];
  }

  -- the loop over the tasks, here in the order in which it takes them; it goes on after an error
  unfoldable pub shutdown_each : List (NamedTask W) → W → W
  shutdown_each [] w = w
  shutdown_each (t ∷ ts) w = shutdown_each ts (t.task w).1

  unfoldable pub shutdown : Coordinator W → W → Coordinator W × W
  unfolding shutdown_each
  shutdown c w =
      if c.once then (c, w) else (record c { once = true }, shutdown_each (reverse c.tasks) w)

  -- Tasks registered one after the other.
  unfoldable pub register_all : List (NamedTask W) → Coordinator W → Coordinator W
  register_all [] c = c
  register_all (t ∷ ts) c = register_all ts (register t.name (some t.task) c)

  tasks-register_all :
      (ts : List (NamedTask W)) (c : Coordinator W)
      → register_all ts c ≡ record c { tasks = c.tasks ++ ts }
  unfolding register_all register
  tasks-register_all [] c = ap (λ l. record c { tasks = l }) (sym (append-nil c.tasks))
  tasks-register_all (t ∷ ts) c =
      tasks-register_all ts (register t.name (some t.task) c)
      ∙ ap (λ l. record c { tasks = l }) (append_assoc c.tasks (t ∷ []) ts)

  shutdown_each-append :
      (ts us : List (NamedTask W)) (w : W)
      → shutdown_each (ts ++ us) w ≡ shutdown_each us (shutdown_each ts w)
  unfolding shutdown_each
  shutdown_each-append [] us w = refl
  shutdown_each-append (t ∷ ts) us w = shutdown_each-append ts us (t.task w).1

  -- What a task does, undone last: the state after the tasks in reverse order of registration.
  unfoldable pub unwind : List (NamedTask W) → W → W
  unwind [] w = w
  unwind (t ∷ ts) w = (t.task (unwind ts w)).1

  unwind-reverse : (ts : List (NamedTask W)) (w : W) → shutdown_each (reverse ts) w ≡ unwind ts w
  unfolding shutdown_each unwind
  unwind-reverse [] w = refl
  unwind-reverse (t ∷ ts) w =
      ap (λ l. shutdown_each l w) (reverse-cons t ts)
      ∙ shutdown_each-append (reverse ts) (t ∷ []) w
      ∙ ap (λ x. (t.task x).1) (unwind-reverse ts w)

  -- The tasks registered with a new coordinator are all run once at its shutdown, the last one
  -- first, whatever errors they return; a second shutdown does nothing.
  pub shutdown-register_all :
      (ts : List (NamedTask W)) (w : W)
      → let done = shutdown (register_all ts (record { tasks = []; once = false })) w in
        (done.1 ≡ unwind ts w) × (shutdown done.0 done.1 ≡ done)
  unfolding shutdown
  shutdown-register_all ts w =
      rw (tasks-register_all ts (record { tasks = []; once = false })) (unwind-reverse ts w, refl)
