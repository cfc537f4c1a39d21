-- ===== src/Transforms/Mask/Hidden.antt =====
-- What data.mask hides (internal/transform/data/mask.go).
use ggt.Prelude.{
  ℕ, false, none, some, [], ◌++◌, ◌-◌, ◌<◌, ◌≡◌, ◌≢◌, refl, ap, ◌∙◌, Text, length, arith,
}
use ggt.Prelude.Int.{pos, leb_ℤ}
use ggt.Value.{str}
use ggt.Event.{Event, get_field, set_field}
use ggt.Event.Laws.{get-set_field_self}
use ggt.Pipeline.{one, ok}
use ggt.Transforms.Mask.{Library, Mask, take, repeat, mask_string, mask_text, execute}

abbrev masked : Library → Mask → ℕ → Text → Text
masked lib t k s =
    lib.encode (take k (lib.runes s)) ++ repeat t.mask_char (length (lib.runes s) - k)

module _ (lib : Library) (t : Mask) where
  masks :
      (k : ℕ) (e : Event) (s : Text)
      → t.pattern ≡ none
      → t.keep_prefix ≡ pos k
      → k < length (lib.runes s)
      → get_field e t.source_field ≡ some (str s)
      → execute lib t (one e)
        ≡ some (ok (one (set_field e t.target_field (str (masked lib t k s)))))
  unfolding execute mask_text mask_string
  masks k e s p q h g =
      let longer : leb_ℤ (pos (length (lib.runes s))) (pos k) ≡ false = ground arith in
      let text : mask_text lib t s ≡ some (masked lib t k s) =
        rw (p, mask_text) (rw (q, mask_string) (rw longer refl)) in
      rw (g, execute) (rw text refl)

  -- Without a pattern, two texts that have the same runes up to the length that is kept, as many
  -- runes in all, and more than are kept, become the same text in the target field, which begins
  -- with those runes: of the others nothing but their number can be told.
  pub execute-Hides :
      (k : ℕ) (e e' : Event) (s s' : Text)
      → t.pattern ≡ none
      → t.keep_prefix ≡ pos k
      → t.target_field ≢ []
      → get_field e t.source_field ≡ some (str s)
      → get_field e' t.source_field ≡ some (str s')
      → k < length (lib.runes s)
      → length (lib.runes s) ≡ length (lib.runes s')
      → take k (lib.runes s) ≡ take k (lib.runes s')
      → (out : Text) × (a : Event) × (b : Event) × (execute lib t (one e) ≡ some (ok (one a)))
        × (execute lib t (one e') ≡ some (ok (one b)))
        × (get_field a t.target_field ≡ some (str (lib.encode (take k (lib.runes s)) ++ out)))
        × (get_field b t.target_field ≡ some (str (lib.encode (take k (lib.runes s)) ++ out)))
  execute-Hides k e e' s s' p q n g g' h len same =
      let both : masked lib t k s' ≡ masked lib t k s = rw (len, same) refl in
      (
        repeat t.mask_char (length (lib.runes s) - k),
        set_field e t.target_field (str (masked lib t k s)),
        set_field e' t.target_field (str (masked lib t k s)),
        masks k e s p q h g,
        masks k e' s' p q (omega (arith, len)) g'
            ∙ ap (λ x. some (ok (one (set_field e' t.target_field (str x))))) both,
        get-set_field_self e t.target_field (str (masked lib t k s)) n,
        get-set_field_self e' t.target_field (str (masked lib t k s)) n,
      )
