-- ===== src/Condition/Scan.antt =====
-- Walking through the text of an expression: quotes, parentheses, separators
-- (internal/condition/condition.go). Of the bytes before a position only the parity of the
-- backslashes in front of it is kept, and of a quote that is open its character.
pub mod Sizes
use ggt.Prelude.{
  ℕ, zero, suc, Bool, true, false, not, ◌&&◌, ◌||◌, Option, none, some, List, [], ◌∷◌, ◌++◌, ◌+◌,
  ◌-◌, ◌==◌, Text, text_eq, ltb, leb, length, reverse, if◌then◌else◌,
}
use ggt.Prelude.Trim.{trim_space}

-- `strings.HasPrefix`, `strings.HasSuffix`, `strings.Contains`
unfoldable pub has_prefix : Text → Text → Bool
has_prefix s [] = true
has_prefix [] (b ∷ p) = false
has_prefix (a ∷ s) (b ∷ p) = a == b && has_prefix s p

unfoldable pub has_suffix : Text → Text → Bool
unfolding has_prefix
has_suffix s p = has_prefix (reverse s) (reverse p)

unfoldable pub contains_text : Text → Text → Bool
unfolding has_prefix
contains_text [] p = has_prefix [] p
contains_text (a ∷ s) p = has_prefix (a ∷ s) p || contains_text s p

-- `s[n:]`
unfoldable pub drop_bytes : ℕ → Text → Text
drop_bytes zero s = s
drop_bytes (suc n) [] = []
drop_bytes (suc n) (c ∷ s) = drop_bytes n s

abbrev pub is_quote : ℕ → Bool
is_quote c = c == b'"' || c == b'\''

-- whether the byte behind `c` is escaped
abbrev pub escapes : ℕ → Bool → Bool
escapes c escaped = if c == b'\\' then not escaped else false

abbrev toggle : ℕ → Option ℕ → Option ℕ
toggle c none = some c
toggle c (some q) = if c == q then none else some q

-- `updateQuoteState`: the open quote behind the byte `c`
unfoldable pub update_quote : ℕ → Bool → Option ℕ → Option ℕ
update_quote c escaped quote = if is_quote c && not escaped then toggle c quote else quote

abbrev pub is_open : Option ℕ → Bool
is_open none = false
is_open (some q) = true

-- `parts = append(parts, part)`, unless the trimmed part is empty
abbrev pub add_part : Text → List Text → List Text
add_part part rest = elim (trim_space part) [ [] ↦ rest | c ∷ s ↦ (c ∷ s) ∷ rest ]

abbrev depth_behind : ℕ → ℕ → ℕ
depth_behind c depth = if c == b'(' then depth + 1 else if c == b')' then depth - 1 else depth

-- The loop of `splitOutsideParens`, at the rest of the expression: `skip` bytes of a separator are
-- still to be passed over, and `part` is what stands between `start` and here.
unfoldable pub split_scan : Text → ℕ → Bool → Option ℕ → ℕ → Text → Text → List Text
unfolding has_prefix update_quote
split_scan sep skip escaped quote depth part [] = add_part part []
split_scan sep (suc skip) escaped quote depth part (c ∷ s) =
    split_scan sep skip (escapes c escaped) quote depth part s
split_scan sep zero escaped quote depth part (c ∷ s) =
    let quote' = update_quote c escaped quote in
    let hit = not (is_open quote') && depth == 0 && has_prefix (c ∷ s) sep in
    let rest =
      split_scan sep (if hit then length sep - 1 else 0) (escapes c escaped) quote'
        (if is_open quote' then depth else depth_behind c depth)
        (if hit then [] else part ++ c ∷ []) s in
    if ltb (length (c ∷ s)) (length sep)
    then add_part (part ++ c ∷ s) []
    else if hit
    then add_part part rest
    else rest

unfoldable pub split_outside_parens : Text → Text → List Text
split_outside_parens expr sep = split_scan sep 0 false none 0 [] expr

-- The loop of `findOperatorOutsideQuotes`: what stands before the needle, and behind it.
unfoldable pub find_scan : Text → Bool → Option ℕ → Text → Text → Option (Text × Text)
unfolding has_prefix update_quote drop_bytes
find_scan needle escaped quote before [] = none
find_scan needle escaped quote before (c ∷ s) =
    let quote' = update_quote c escaped quote in
    let rest = find_scan needle (escapes c escaped) quote' (before ++ c ∷ []) s in
    if ltb (length (c ∷ s)) (length needle)
    then none
    else if not (is_open quote') && has_prefix (c ∷ s) needle
    then some (before, drop_bytes (length needle) (c ∷ s))
    else rest

unfoldable pub find_operator : Text → Text → Option (Text × Text)
find_operator expr op = find_scan (b' ' ∷ op ++ b' ' ∷ []) false none [] expr

-- the last byte, 0 of the empty text
unfoldable pub last_byte : Text → ℕ
last_byte [] = 0
last_byte (c ∷ []) = c
last_byte (c ∷ d ∷ s) = last_byte (d ∷ s)

-- `s[:len(s)-1]`
unfoldable pub but_last : Text → Text
but_last [] = []
but_last (c ∷ []) = []
but_last (c ∷ d ∷ s) = c ∷ but_last (d ∷ s)

-- `s[1 : len(s)-1]`
unfoldable pub inner : Text → Text
unfolding but_last
inner [] = []
inner (c ∷ s) = but_last s

unfoldable pub unquote_value : Text → Text
unfolding last_byte inner
unquote_value [] = []
unquote_value (c ∷ []) = c ∷ []
unquote_value (c ∷ d ∷ s) =
    if is_quote c && last_byte (d ∷ s) == c then inner (c ∷ d ∷ s) else c ∷ d ∷ s

-- the loop of `stripOuterParens`: the depth at the end, or `none` where it returns early
unfoldable pub outer_depth : ℕ → Text → Option ℕ
outer_depth depth [] = some depth
outer_depth depth (c ∷ s) =
    let depth' = depth_behind c depth in
    let rest = outer_depth depth' s in
    if c == b')' && depth' == 0 && not (length s == 0) then none else rest

abbrev is_zero : Option ℕ → Bool
is_zero none = false
is_zero (some n) = n == 0

unfoldable pub strip_trimmed : Text → Text
unfolding last_byte inner outer_depth
strip_trimmed [] = []
strip_trimmed (c ∷ []) = c ∷ []
strip_trimmed (c ∷ d ∷ s) =
    if c == b'(' && last_byte (d ∷ s) == b')' && is_zero (outer_depth 0 (c ∷ d ∷ s))
    then inner (c ∷ d ∷ s)
    else c ∷ d ∷ s

unfoldable pub strip_outer_parens : Text → Text
unfolding strip_trimmed
strip_outer_parens expr = strip_trimmed (trim_space expr)
