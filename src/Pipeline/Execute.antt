-- ===== src/Pipeline/Execute.antt =====
-- What a pipeline makes of the results of its transforms (internal/transform/pipeline.go).
use mathlib.Core.Bool.{false≢true}
use ggt.Prelude.{
  ℕ, true, false, none, some, List, [], ◌∷◌, ◌++◌, ◌+◌, ◌≡◌, ◌≢◌, refl, sym, ◌∙◌, ap, arith,
  Bool-cases, Option-cases, inl, inr, ◌⊎◌,
}
use ggt.Event.{Event}
use ggt.Event.Copies.{clone-eq}
use ggt.Pipeline.{
  Payload, nothing, one, many, value, Error, drop, failed_in, context_done, Result, ok, err,
  is_drop, Transform, Context, Round, stop, go_on, after_ok, round, run_transforms, clone_event,
  execute,
}

-- A context that is never done.
abbrev pub background : Context
background i = none

Round-cases : (r : Round) → ((e : Error) × (r ≡ stop e)) ⊎ ((p : Payload) × (r ≡ go_on p))
Round-cases (stop e) = inl (e, refl)
Round-cases (go_on p) = inr (p, refl)

after_ok_drop : (p : Payload) (e : Error) → after_ok p ≡ stop e → e ≡ drop
unfolding after_ok
after_ok_drop nothing e h = ground arith
after_ok_drop (one x) e h = cc
after_ok_drop (many []) e h = ground arith
after_ok_drop (many (x ∷ xs)) e h = cc
after_ok_drop (value v) e h = cc

round_ok : (t : Transform) (p out : Payload) → t.execute p ≡ ok out → round t p ≡ after_ok out
unfolding round
round_ok t p out h = rw (h, round) refl

round_err :
    (t : Transform) (p : Payload) (x : Error)
    → t.execute p ≡ err x
    → is_drop x ≡ false
    → round t p ≡ stop (failed_in t.name x)
unfolding round
round_err t p x h d = rw (h, round) (rw (d, round) refl)

round_err_drop :
    (t : Transform) (p : Payload) (x : Error)
    → t.execute p ≡ err x
    → is_drop x ≡ true
    → round t p ≡ stop drop
unfolding round
round_err_drop t p x h d = rw (h, round) (rw (d, round) refl)

stop_inj : {x y : Error} → stop x ≡ stop y → x ≡ y
stop_inj h = cc

round_drop :
    (t : Transform) (p : Payload) (e : Error) → round t p ≡ stop e → is_drop e ≡ true → e ≡ drop
round_drop t p e h d = go (t.execute p) refl
  where
    go : (r : Result) → t.execute p ≡ r → e ≡ drop
    go (ok out) q = after_ok_drop out e (unfold round in rw (q, round) at h)
    go (err x) q = elim (Bool-cases (is_drop x)) [
      | inl yes_drop ↦ sym (stop_inj (sym (round_err_drop t p x q yes_drop) ∙ h))
      | inr no_drop ↦
          let y : failed_in t.name x ≡ e = stop_inj (sym (round_err t p x q no_drop) ∙ h) in
          unfold is_drop in absurd (false≢true (sym no_drop ∙ (rw (← y) at d)))
    ]

run_stop :
    (ctx : Context) (i : ℕ) (t : Transform) (ts : List Transform) (p : Payload) (e : Error)
    → ctx i ≡ none
    → round t p ≡ stop e
    → run_transforms ctx i (t ∷ ts) p ≡ err e
unfolding run_transforms
run_stop ctx i t ts p e c r = rw (c, run_transforms) (rw (r, run_transforms) refl)

run_go_on :
    (ctx : Context) (i : ℕ) (t : Transform) (ts : List Transform) (p p' : Payload)
    → ctx i ≡ none
    → round t p ≡ go_on p'
    → run_transforms ctx i (t ∷ ts) p ≡ run_transforms ctx (i + 1) ts p'
unfolding run_transforms
run_go_on ctx i t ts p p' c r = rw (c, run_transforms) (rw (r, run_transforms) refl)

run_done :
    (ctx : Context) (i : ℕ) (t : Transform) (ts : List Transform) (p : Payload) (x : ℕ)
    → ctx i ≡ some x
    → run_transforms ctx i (t ∷ ts) p ≡ err (context_done x)
unfolding run_transforms
run_done ctx i t ts p x c = rw (c, run_transforms) refl

err_inj : {x y : Error} → err x ≡ err y → x ≡ y
err_inj h = cc

-- An error of a pipeline that is or wraps `ErrDrop` is `ErrDrop` itself, so the worker's test by
-- `==` finds every drop.
pub drop_is_exact :
    (ctx : Context) (i : ℕ) (ts : List Transform) (p : Payload) (e : Error)
    → run_transforms ctx i ts p ≡ err e
    → is_drop e ≡ true
    → e ≡ drop
drop_is_exact ctx i [] p e h d = unfold run_transforms in cc
drop_is_exact ctx i (t ∷ ts) p e h d = elim (Option-cases (ctx i)) [
  | inr (x, c) ↦
      let q : context_done x ≡ e = err_inj (sym (run_done ctx i t ts p x c) ∙ h) in
      unfold is_drop in absurd (false≢true (rw (← q) at d))
  | inl c ↦ elim (Round-cases (round t p)) [
    | inl (y, r) ↦
        let q : y ≡ e = err_inj (sym (run_stop ctx i t ts p y c r) ∙ h) in
        round_drop t p e (r ∙ ap stop q) d
    | inr (p', r) ↦ drop_is_exact ctx (i + 1) ts p' e (sym (run_go_on ctx i t ts p p' c r) ∙ h) d
  ]
]

run_index :
    (i j : ℕ) (ts : List Transform) (p : Payload)
    → run_transforms background i ts p ≡ run_transforms background j ts p
run_index i j [] p = unfold run_transforms in refl
run_index i j (t ∷ ts) p = elim (Round-cases (round t p)) [
  | inl (y, r) ↦ run_stop background i t ts p y refl r ∙ sym (run_stop background j t ts p y refl r)
  | inr (p', r) ↦
      run_go_on background i t ts p p' refl r
      ∙ run_index (i + 1) (j + 1) ts p'
      ∙ sym (run_go_on background j t ts p p' refl r)
]

abbrev pub then_run : Result → List Transform → Result
then_run (err e) us = err e
then_run (ok p) us = run_transforms background 0 us p

-- Two pipelines, one behind the other, are the pipeline of all their transforms: the second one
-- gets what the first one returns, and an error of the first one is the error of both.
pub run_transforms-append :
    (i : ℕ) (ts us : List Transform) (p : Payload)
    → run_transforms background i (ts ++ us) p ≡ then_run (run_transforms background i ts p) us
run_transforms-append i [] us p = run_index i 0 us p ∙ unfold run_transforms in refl
run_transforms-append i (t ∷ ts) us p = elim (Round-cases (round t p)) [
  | inl (y, r) ↦
      rw (run_stop background i t (ts ++ us) p y refl r, run_stop background i t ts p y refl r) refl
  | inr (p', r) ↦
      rw (run_go_on background i t (ts ++ us) p p' refl r, run_go_on background i t ts p p' refl r)
        (run_transforms-append (i + 1) ts us p')
]

-- A transform that takes single events: anything else is an error that is no drop.
abbrev pub TakesEvents : Transform → Type 0
TakesEvents t =
    (p : Payload)
    → ((e : Event) → p ≢ one e)
    → (x : Error) × (t.execute p ≡ err x) × (is_drop x ≡ false)

-- A transform that gives several events can only stand last: if the transform behind it takes
-- single events, that one fails, and the pipeline with it.
pub many_then_fails :
    (t u : Transform) (us : List Transform) (e x : Event) (xs : List Event)
    → t.execute (one e) ≡ ok (many (x ∷ xs))
    → TakesEvents u
    → (m : Error) × (execute background (t ∷ u ∷ us) (one e) ≡ err (failed_in u.name m))
unfolding execute clone_event
many_then_fails t u us e x xs h takes =
    let (m, q, d) = takes (many (x ∷ xs)) (λ e' s. cc) in
    (
      m,
      rw (clone-eq e) (
          run_go_on background 0 t (u ∷ us) (one e) (many (x ∷ xs)) refl
            (round_ok t (one e) (many (x ∷ xs)) h ∙ unfold after_ok in refl)
          ∙ run_stop background 1 u us (many (x ∷ xs)) (failed_in u.name m) refl
              (round_err u (many (x ∷ xs)) m q d)),
    )
