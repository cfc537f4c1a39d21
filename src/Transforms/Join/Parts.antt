-- ===== src/Transforms/Join/Parts.antt =====
-- Joining the parts of a split text (internal/transform/data/split.go, internal/transform/data/join.go).
use ggt.Prelude.{
  ℕ, zero, suc, true, some, List, [], ◌∷◌, ◌++◌, ◌-◌, ◌≤◌, ◌≡◌, ◌≢◌, refl, sym, ap, ◌∙◌, Text,
  text_eq_iff, length, arith, Bool-cases, inl, inr,
}
use mathlib.Core.List.{append_assoc, append-nil}
use ggt.Value.{Value, str, strings}
use ggt.Event.{Event, get_field, set_field}
use ggt.Event.Laws.{get-set_field_self}
use ggt.Pipeline.{one, ok}
use ggt.Transforms.{decoded, configured}
use ggt.Condition.Scan.{has_prefix, drop_bytes}
use ggt.Transforms.Split as Split
use ggt.Transforms.Split.{split_from, split_text}
use ggt.Transforms.Join as Join
use ggt.Transforms.Join.{join_texts}

-- A text begins with its prefix.
has_prefix-append : (s p : Text) → has_prefix s p ≡ true → s ≡ p ++ drop_bytes (length p) s
unfolding has_prefix drop_bytes
has_prefix-append s [] h = refl
has_prefix-append [] (b ∷ p) h = cc
has_prefix-append (a ∷ s) (b ∷ p) h = ground (arith, has_prefix-append s p)

split-cons :
    (sep : Text) (skip : ℕ) (part s : Text)
    → (t : Text) × (ts : List Text) × (split_from sep skip part s ≡ t ∷ ts)
unfolding split_from
split-cons sep skip part [] = (part, [], refl)
split-cons sep (suc skip) part (c ∷ s) = split-cons sep skip part s
split-cons sep zero part (c ∷ s) = elim (Bool-cases (has_prefix (c ∷ s) sep)) [
  | inl p ↦ (part, split_from sep (length sep - 1) [] s, rw (p, split_from) refl)
  | inr p ↦ let (t, ts, q) = split-cons sep 0 (part ++ c ∷ []) s in (t, ts, rw (p, split_from) q)
]

join_cons :
    (t : Text) (ts : List Text) (u sep : Text) (us : List Text)
    → ts ≡ u ∷ us
    → join_texts (t ∷ ts) sep ≡ t ++ sep ++ join_texts ts sep
unfolding join_texts
join_cons t ts u sep us h = rw h refl

has_prefix-le : (s p : Text) → has_prefix s p ≡ true → length p ≤ length s
unfolding has_prefix
has_prefix-le s [] h = omega arith
has_prefix-le [] (b ∷ p) h = cc
has_prefix-le (a ∷ s) (b ∷ p) h = ground (arith, has_prefix-le s p)

-- What the parts of the rest come to, behind a separator that the text begins with.
join_hit :
    (b : ℕ) (p : Text) (c : ℕ) (s rest : Text)
    → has_prefix (c ∷ s) (b ∷ p) ≡ true
    → rest ≡ drop_bytes (length (b ∷ p) - 1) s
    → (b ∷ p) ++ rest ≡ c ∷ s
unfolding drop_bytes
join_hit b p c s rest h q =
    let k : length (b ∷ p) - 1 ≡ length p = omega arith in
    rw (q, k) (sym (has_prefix-append (c ∷ s) (b ∷ p) h))

join-split_from :
    (sep : Text) (skip : ℕ) (part s : Text)
    → skip ≤ length s
    → sep ≢ []
    → join_texts (split_from sep skip part s) sep ≡ part ++ drop_bytes skip s
unfolding split_from join_texts drop_bytes
join-split_from sep zero part [] h n = sym (append-nil part)
join-split_from sep (suc skip) part [] h n = sym (append-nil part)
join-split_from sep (suc skip) part (c ∷ s) h n =
    join-split_from sep skip part s (omega (arith, h)) n
join-split_from [] zero part (c ∷ s) h n = absurd (n refl)
join-split_from (b ∷ p) zero part (c ∷ s) h n = elim (Bool-cases (has_prefix (c ∷ s) (b ∷ p))) [
  | inl q ↦
      let short : length (b ∷ p) - 1 ≤ length s = omega (arith, has_prefix-le (c ∷ s) (b ∷ p) q) in
      let rest = split_from (b ∷ p) (length (b ∷ p) - 1) [] s in
      let (t, ts, r) = split-cons (b ∷ p) (length (b ∷ p) - 1) [] s in
      rw (q, split_from)
        (join_cons part rest t (b ∷ p) ts r
          ∙ append_assoc part (b ∷ p) (join_texts rest (b ∷ p))
          ∙ ap (λ u. part ++ u)
              (join_hit b p c s (join_texts rest (b ∷ p)) q
                (join-split_from (b ∷ p) (length (b ∷ p) - 1) [] s short n)))
  | inr q ↦
      rw (q, split_from)
        (join-split_from (b ∷ p) 0 (part ++ c ∷ []) s (omega arith) n
          ∙ append_assoc part (c ∷ []) s)
]

join-split_text : (s sep : Text) → sep ≢ [] → join_texts (split_text s sep) sep ≡ s
unfolding split_text drop_bytes
join-split_text s sep n = join-split_from sep 0 [] s (omega arith) n

split_named :
    (raw split : Split.Config)
    → Split.configure (decoded raw) ≡ configured split
    → (split.separator ≢ []) × (Split.target_field split ≢ [])
unfolding Split.configure
split_named raw split h = (
  λ q. ground (arith, text_eq_iff raw.separator []),
  λ q.
      ground
        (arith, text_eq_iff raw.field [], text_eq_iff split.field [], text_eq_iff split.target []),
)

join_named :
    (raw join : Join.Config)
    → Join.configure (decoded raw) ≡ configured join
    → join.target_field ≢ []
unfolding Join.configure
join_named raw join h q =
    ground (arith, text_eq_iff raw.source_field [], text_eq_iff raw.target_field [])

-- A text that data.split has split is put back by data.join with the same separator: the field to
-- which the parts are joined holds the text again.
pub get-join_split :
    (sprint : Value → Text) (raw split : Split.Config) (joined join : Join.Config) (e : Event)
    (s : Text)
    → Split.configure (decoded raw) ≡ configured split
    → Join.configure (decoded joined) ≡ configured join
    → join.source_field ≡ Split.target_field split
    → join.separator ≡ split.separator
    → get_field e split.field ≡ some (str s)
    → (e' e'' : Event) × (Split.execute split (one e) ≡ ok (one e'))
      × (Join.execute sprint join (one e') ≡ ok (one e''))
      × (get_field e'' join.target_field ≡ some (str s))
unfolding Split.execute Join.execute Join.str_slice
get-join_split sprint raw split joined join e s hs hj same sep there =
    let (sep_there, target_there) = split_named raw split hs in
    let parts = strings (split_text s split.separator) in
    let e' = set_field e (Split.target_field split) parts in
    let found : get_field e' join.source_field ≡ some parts =
      rw same (get-set_field_self e (Split.target_field split) parts target_there) in
    let text = join_texts (split_text s split.separator) join.separator in
    let whole : text ≡ s = rw sep (join-split_text s split.separator sep_there) in
    (
      e',
      set_field e' join.target_field (str text),
      rw (there, Split.execute) refl,
      rw (found, Join.execute) refl,
      rw (get-set_field_self e' join.target_field (str text) (join_named joined join hj))
          (ap (λ x. some (str x)) whole),
    )
