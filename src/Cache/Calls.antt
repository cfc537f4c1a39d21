-- ===== src/Cache/Calls.antt =====
-- Any calls on a cache (internal/enrichment/cache.go).
use mathlib.Core.Path.{subst}
use ggt.Prelude.{
  ℕ, zero, suc, Option, none, some, List, [], ◌∷◌, ◌+◌, ◌≤◌, ◌≡◌, refl, Text, length, arith, ◌∙◌,
  Option-cases, inl, inr,
}
use ggt.Prelude.Int.{ℤ, pos, negsuc, ◌≤ℤ◌}
use ggt.Prelude.Dict.{lookup, remove}
use ggt.Value.{Value}
use ggt.Cache.{Cache, new_lru_cache, get, set_with_ttl, delete, clear, size, remove_entry}
use ggt.Cache.Rep.{drop_last}
use ggt.Cache.Spec.{Item, Recent, recent_get, recent_set}
use ggt.Cache.Refinement.{
  Represents, get-Represents, set-Represents, delete-Represents, clear-Represents, new-Represents,
  size-Represents,
}

pub data Call : Type 0 where
  get_call : ℕ → Text → Call
  set_call : ℕ → Text → Value → ℤ → Call
  delete_call : Text → Call
  clear_call : Call

-- The cache after the calls and what each `Get` returned; `none` is a nil dereference.
unfoldable pub run : List Call → Cache → Option (Cache × List Value)
run [] c = some (c, [])
run (get_call now k ∷ calls) c = elim (run calls (get now k c).0) [
  | none ↦ none
  | some (c', vs) ↦ some (c', (get now k c).1 ∷ vs)
]
run (set_call now k v ttl ∷ calls) c = elim (set_with_ttl now k v ttl c) [
  | none ↦ none
  | some c' ↦ run calls c'
]
run (delete_call k ∷ calls) c = run calls (delete k c)
run (clear_call ∷ calls) c = run calls (clear c)

-- The same calls on the list of recent entries.
unfoldable pub recent_run : ℤ → List Call → Recent → Recent × List Value
recent_run m [] s = (s, [])
recent_run m (get_call now k ∷ calls) s =
    let (s', vs) = recent_run m calls (recent_get now k s).0 in (s', (recent_get now k s).1 ∷ vs)
recent_run m (set_call now k v ttl ∷ calls) s = recent_run m calls (recent_set m now k v ttl s)
recent_run m (delete_call k ∷ calls) s = recent_run m calls (remove k s)
recent_run m (clear_call ∷ calls) s = recent_run m calls []

get-max_size : (now : ℕ) (k : Text) (c : Cache) → (get now k c).0.max_size ≡ c.max_size
unfolding get
get-max_size now k c = unfold remove_entry in ground arith

delete-max_size : (k : Text) (c : Cache) → (delete k c).max_size ≡ c.max_size
unfolding delete remove_entry
delete-max_size k c = ground arith

run-get :
    (now : ℕ) (k : Text) (calls : List Call) (c c' : Cache) (vs : List Value) (v : Value)
    → run calls (get now k c).0 ≡ some (c', vs)
    → (get now k c).1 ≡ v
    → run (get_call now k ∷ calls) c ≡ some (c', v ∷ vs)
unfolding run
run-get now k calls c c' vs v e p = rw e (rw p refl)

run_set :
    (now : ℕ) (k : Text) (v : Value) (ttl : ℤ) (calls : List Call) (c c' : Cache)
    → set_with_ttl now k v ttl c ≡ some c'
    → run (set_call now k v ttl ∷ calls) c ≡ run calls c'
unfolding run
run_set now k v ttl calls c c' e = rw (e, run) refl

Simulates : ℤ → List Call → Cache → Recent → Type 0
Simulates m calls c s =
    (c' : Cache) × (run calls c ≡ some (c', (recent_run m calls s).1))
    × Represents c' (recent_run m calls s).0
    × (c'.max_size ≡ m)

simulates :
    (m : ℤ) (calls : List Call) (c : Cache) (s : Recent)
    → c.max_size ≡ m
    → Represents c s
    → Simulates m calls c s
unfolding Simulates run recent_run
simulates m [] c s p h = (c, refl, h, p)
simulates m (get_call now k ∷ calls) c s p h =
    let (h', out) = get-Represents now k c s h in
    let (c', e, r, q) =
      simulates m calls (get now k c).0 (recent_get now k s).0 (get-max_size now k c ∙ p) h' in
    (c', run-get now k calls c c' _ _ e out, r, q)
simulates m (set_call now k v ttl ∷ calls) c s p h =
    let (d, e, h', q, _) = set-Represents now k v ttl c s h in
    let (c', e', r, q') =
      simulates m calls d (recent_set m now k v ttl s) (q ∙ p)
        (subst (λ x. Represents d (recent_set x now k v ttl s)) p h') in
    (c', run_set now k v ttl calls c d e ∙ e', r, q')
simulates m (delete_call k ∷ calls) c s p h =
    simulates m calls (delete k c) (remove k s) (delete-max_size k c ∙ p)
      (delete-Represents k c s h)
simulates m (clear_call ∷ calls) c s p h =
    simulates m calls (clear c) [] (unfold clear in p) (clear-Represents c s h)

-- Whatever the calls are, a new cache never dereferences nil under them, every `Get` returns what
-- it returns on the list of recent entries, and the cache stands for that list in the end.
pub run-Represents :
    (max_size ttl : ℤ) (calls : List Call)
    → let c = new_lru_cache max_size ttl in
      (c' : Cache) × (run calls c ≡ some (c', (recent_run c.max_size calls []).1))
      × Represents c' (recent_run c.max_size calls []).0
      × (c'.max_size ≡ c.max_size)
run-Represents max_size ttl calls =
    unfold Simulates in
    simulates (new_lru_cache max_size ttl).max_size calls (new_lru_cache max_size ttl) [] refl
      (new-Represents max_size ttl).0

length-remove-le : (k : Text) (s : Recent) → length (remove k s) ≤ length s
unfolding remove
length-remove-le k [] = omega arith
length-remove-le k ((j, i) ∷ s) = ground (arith, length-remove-le k s)

length-remove_found :
    (k : Text) (i : Item) (s : Recent) → lookup k s ≡ some i → length (remove k s) + 1 ≤ length s
unfolding remove lookup
length-remove_found k i [] e = cc
length-remove_found k i ((j, x) ∷ s) e =
    ground (arith, length-remove-le k s, length-remove_found k i s)

length-drop_last-le : (s : Recent) (m : ℕ) → length s ≤ suc m → length (drop_last s) ≤ m
length-drop_last-le [] m h = omega arith
length-drop_last-le (x ∷ []) m h = omega arith
length-drop_last-le (x ∷ y ∷ s) zero h = absurd (omega arith)
length-drop_last-le (x ∷ y ∷ s) (suc m) h = omega (arith, length-drop_last-le (y ∷ s) m)

length-recent_get-le : (now : ℕ) (k : Text) (s : Recent) → length (recent_get now k s).0 ≤ length s
unfolding recent_get
length-recent_get-le now k s = elim (Option-cases (lookup k s)) [
  | inl e ↦ rw (e, recent_get) (omega arith)
  | inr (i, e) ↦
      rw (e, recent_get) (ground (arith, length-remove-le k s, length-remove_found k i s e))
]

length-recent_set-le :
    (m now : ℕ) (k : Text) (v : Value) (ttl : ℤ) (s : Recent)
    → length s ≤ suc m
    → length (recent_set (pos (suc m)) now k v ttl s) ≤ suc m
unfolding recent_set
length-recent_set-le m now k v ttl s h = elim (Option-cases (lookup k s)) [
  | inl e ↦ rw (e, recent_set) (ground (arith, length-drop_last-le s m h))
  | inr (i, e) ↦ rw (e, recent_set) (omega (arith, length-remove_found k i s e))
]

recent_run-bounded :
    (m : ℕ) (calls : List Call) (s : Recent)
    → length s ≤ suc m
    → length (recent_run (pos (suc m)) calls s).0 ≤ suc m
unfolding recent_run
recent_run-bounded m [] s h = h
recent_run-bounded m (get_call now k ∷ calls) s h =
    recent_run-bounded m calls (recent_get now k s).0 (omega (arith, length-recent_get-le now k s))
recent_run-bounded m (set_call now k v ttl ∷ calls) s h =
    recent_run-bounded m calls (recent_set (pos (suc m)) now k v ttl s)
      (length-recent_set-le m now k v ttl s h)
recent_run-bounded m (delete_call k ∷ calls) s h =
    recent_run-bounded m calls (remove k s) (omega (arith, length-remove-le k s))
recent_run-bounded m (clear_call ∷ calls) s h = recent_run-bounded m calls [] (omega arith)

pos_suc : (z : ℤ) → pos 1 ≤ℤ z → (m : ℕ) × (z ≡ pos (suc m))
pos_suc (pos zero) h = absurd (omega arith)
pos_suc (pos (suc m)) h = (m, refl)
pos_suc (negsuc n) h = absurd (omega arith)

-- Whatever the calls are, a new cache never holds more entries than its size limit.
pub run_bounded :
    (max_size ttl : ℤ) (calls : List Call)
    → (c : Cache) × (vs : List Value) × (run calls (new_lru_cache max_size ttl) ≡ some (c, vs))
      × (pos (size c) ≤ℤ c.max_size)
run_bounded max_size ttl calls =
    let (c', e, r, q) = run-Represents max_size ttl calls in
    let (m, p) = pos_suc _ (new-Represents max_size ttl).1 in
    (
      c',
      _,
      e,
      rw (size-Represents c' _ r, q, p)
          (omega (arith, recent_run-bounded m calls [] (omega arith))),
    )
