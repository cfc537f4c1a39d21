-- ===== src/RedisClient/Cached.antt =====
-- What holds of every cached text stays so under the operations of a client of
-- internal/enrichment/redis/client.go that touch its cache.
use ggt.Prelude.{
  ℕ, false, none, some, [], ◌∷◌, ◌≡◌, refl, sym, ◌∙◌, ◌⊎◌, Text, text_eq, length, text_eq_iff,
  arith, Bool-cases, Option-cases, inl, inr,
}
use ggt.Prelude.Int.{ℤ, pos, leb_ℤ}
use ggt.Prelude.Dict.{lookup, remove, lookup-remove}
use ggt.Value.{str, null}
use ggt.Cache as Cache
use ggt.Cache.{add_time, is_after}
use ggt.Cache.Rep.{drop_last}
use ggt.Cache.Spec.{Item, Recent, recent_get, recent_set}
use ggt.Cache.Refinement.{Represents, get-Represents, set-Represents, delete-Represents}
use ggt.RedisClient.{Client, ok, look_up, store, invalidate}

-- Every item of the list is a text that has the property at its key.
abbrev pub AllTexts : (Text → Text → Type 0) → Recent → Type 0
AllTexts P l = (k : Text) (i : Item) → lookup k l ≡ some i → (s : Text) × (i.value ≡ str s) × P k s

-- The cache stands for such a list.
abbrev pub Caches : (Text → Text → Type 0) → Client → Type 0
Caches P c = (l : Recent) × Represents c.cache l × AllTexts P l

lookup-drop_last :
    (k : Text) (i : Item) (l : Recent) → lookup k (drop_last l) ≡ some i → lookup k l ≡ some i
unfolding lookup
lookup-drop_last k i [] p = p
lookup-drop_last k i (x ∷ []) p = cc
lookup-drop_last k i ((j, e) ∷ y ∷ l) p = ground (arith, lookup-drop_last k i (y ∷ l))

none≢some {ℓ} : {A : Type ℓ} {a : A} → none ≡ some a → ⊥
none≢some e = cc

some_inj {ℓ} : {A : Type ℓ} {a b : A} → some a ≡ some b → a ≡ b
some_inj e = cc

str_inj : {s t : Text} → str s ≡ str t → s ≡ t
str_inj e = cc

remove-AllTexts :
    (P Q : Text → Text → Type 0) (k : Text) (l : Recent)
    → AllTexts P l
    → ((j s : Text) → text_eq k j ≡ false → P j s → Q j s)
    → AllTexts Q (remove k l)
remove-AllTexts P Q k l h f j i p = elim (Bool-cases (text_eq k j)) [
  | inl same ↦ absurd (none≢some (rw (lookup-remove k j l, same) at p))
  | inr other ↦
      let (s, v, q) = h j i (rw (lookup-remove k j l, other) at p) in (s, v, f j s other q)
]

cons-AllTexts :
    (P : Text → Text → Type 0) (k s : Text) (i : Item) (l : Recent)
    → i.value ≡ str s
    → P k s
    → AllTexts P l
    → AllTexts P ((k, i) ∷ l)
unfolding lookup
cons-AllTexts P k s i l v q h j i' p = elim (Bool-cases (text_eq k j)) [
  | inl same ↦
      let at_k : k ≡ j = (text_eq_iff k j).0 same in
      let is_i : i ≡ i' = some_inj (rw (lookup, same) at p) in (s, rw (← is_i) v, rw (← at_k) q)
  | inr other ↦ h j i' (rw (lookup, other) at p)
]

recent_get-AllTexts :
    (P : Text → Text → Type 0) (now : ℕ) (k : Text) (l : Recent)
    → AllTexts P l
    → AllTexts P (recent_get now k l).0
      × ((s : Text) → (recent_get now k l).1 ≡ str s → P k s)
      × (((recent_get now k l).1 ≡ null) ⊎ ((s : Text) × ((recent_get now k l).1 ≡ str s)))
unfolding recent_get lookup
recent_get-AllTexts P now k l h = elim (Option-cases (lookup k l)) [
  | inl p ↦ rw (p, recent_get) (h, λ s e. cc, inl refl)
  | inr (i, p) ↦
      let (s, v, q) = h k i p in
      let rest : AllTexts P (remove k l) = remove-AllTexts P P k l h (λ j t _ x. x) in
      elim (Bool-cases (is_after now i.expiry)) [
        | inl late ↦ rw (p, recent_get, late) (rest, λ s e. cc, inl refl)
        | inr live ↦
            rw (p, recent_get, live)
              (
                cons-AllTexts P k s i (remove k l) v q rest,
                λ t e. rw (str_inj (sym e ∙ v)) q,
                inr (s, v),
              )
      ]
]

recent_set-AllTexts :
    (P : Text → Text → Type 0) (m : ℤ) (now : ℕ) (k s : Text) (ttl : ℤ) (l : Recent)
    → AllTexts P l
    → P k s
    → AllTexts P (recent_set m now k (str s) ttl l)
unfolding recent_set lookup
recent_set-AllTexts P m now k s ttl l h q =
    let new : Item = record { value = str s; expiry = add_time now ttl } in
    elim (Option-cases (lookup k l)) [
      | inr (i, p) ↦
          rw (p, recent_set)
            (cons-AllTexts P k s new (remove k l) refl q (remove-AllTexts P P k l h (λ j t _ x. x)))
      | inl p ↦ elim (Bool-cases (leb_ℤ m (pos (length l)))) [
        | inl full ↦
            rw (p, recent_set, full)
              (cons-AllTexts P k s new (drop_last l) refl q
                (λ j i e. h j i (lookup-drop_last j i l e)))
        | inr roomy ↦ rw (p, recent_set, roomy) (cons-AllTexts P k s new l refl q h)
      ]
    ]

-- Looking up a key keeps what holds of every cached text, and what it finds has it.
pub look_up-Caches :
    (P : Text → Text → Type 0) (now : ℕ) (k : Text) (c : Client)
    → Caches P c
    → Caches P (look_up now k c).0
      × ((s : Text) → (look_up now k c).1 ≡ some s → P k s)
      × ((look_up now k c).0.cache_ttl ≡ c.cache_ttl)
unfolding look_up
look_up-Caches P now k c (l, r, h) =
    let (r', v) = get-Represents now k c.cache l r in
    let (h', q, kind) = recent_get-AllTexts P now k l h in
    elim kind [
      | inl nil ↦ rw (v ∙ nil, look_up) (rw (v ∙ nil) ((_, r', h'), λ s e. cc, refl))
      | inr (s, e) ↦ rw (v ∙ e, look_up) ((_, r', h'), λ t p. rw (← some_inj p) (q s e), refl)
    ]

-- Caching a text that has the property is never refused.
pub set-Caches :
    (P : Text → Text → Type 0) (now : ℕ) (k s : Text) (ttl : ℤ) (c : Client)
    → Caches P c
    → P k s
    → (cache : Cache.Cache) × (Cache.set_with_ttl now k (str s) ttl c.cache ≡ some cache)
      × Caches P (record c { cache = cache })
set-Caches P now k s ttl c (l, r, h) q =
    let (cache, e, r', _, _) = set-Represents now k (str s) ttl c.cache l r in
    (
      cache,
      e,
      (
        recent_set c.cache.max_size now k (str s) ttl l,
        r',
        recent_set-AllTexts P _ now k s ttl l h q,
      ),
    )

pub store-Caches :
    (P : Text → Text → Type 0) (now : ℕ) (k s : Text) (ttl : ℤ) (c : Client)
    → Caches P c
    → P k s
    → (c' : Client) × (store now k s ttl c ≡ some (c', ok s)) × Caches P c'
unfolding store
store-Caches P now k s ttl c h q =
    let (cache, e, h') = set-Caches P now k s ttl c h q in
    (record c { cache = cache }, rw (e, store) refl, h')

-- Dropping a key allows the texts of the other keys to get another property.
pub invalidate-Caches :
    (P Q : Text → Text → Type 0) (k : Text) (c : Client)
    → Caches P c
    → ((j s : Text) → text_eq k j ≡ false → P j s → Q j s)
    → Caches Q (invalidate k c)
invalidate-Caches P Q k c (l, r, h) f =
    (remove k l, delete-Represents k c.cache l r, remove-AllTexts P Q k l h f)
