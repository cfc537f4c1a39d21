-- ===== src/Transforms/Route/Chosen.antt =====
-- Which topic filter.route chooses, and what the worker makes of it
-- (internal/transform/filter/route.go, cmd/transform/main.go).
use ggt.Prelude.{
  true, false, Option, some, List, [], ◌∷◌, ◌≡◌, ◌≢◌, refl, sym, ◌∙◌, Text, codes, text_eq,
  text_eq_iff, arith, Option-cases, Bool-cases, inl, inr, ◌⊎◌, if◌then◌else◌,
}
use ggt.Event.{Event}
use ggt.Pipeline.{Payload, one, ok, err, Error}
use ggt.Worker.{route_target, send_topic, is_empty}
use ggt.Transforms.{decoded, Configured, refused, configured, set_header}
use ggt.Transforms.Headers.{header-set_header}
use ggt.Transforms.Route.{
  Condition, ConditionRoute, RouteConfig, CompiledRoute, Routes, compile_entry, compile, configure,
  with_headers, route, execute,
}

-- The topic of the first rule whose condition holds, where those before it do not; the default
-- where none holds and there is one.
pub data Chosen (e : Event) (default_topic : Text) : List CompiledRoute → Text → Type 0 where
  by_default : default_topic ≢ [] → Chosen e default_topic [] default_topic
  first :
      (r : CompiledRoute) (rules : List CompiledRoute)
      → r.cond e ≡ some true
      → Chosen e default_topic (r ∷ rules) r.topic
  later :
      {r : CompiledRoute} {rules : List CompiledRoute} {t : Text}
      → r.cond e ≡ some false
      → Chosen e default_topic rules t
      → Chosen e default_topic (r ∷ rules) t

-- No rule has an empty topic.
abbrev pub Topics : List CompiledRoute → Type 0
Topics [] = Unit
Topics (r ∷ rules) = (r.topic ≢ []) × Topics rules

Chosen-route :
    {e : Event} {d : Text} {rules : List CompiledRoute} {t : Text}
    → Chosen e d rules t
    → route rules d e ≡ ok (one (set_header (codes "_route_target") t e))
unfolding route
Chosen-route {d = d} (by_default n) = ground (arith, text_eq_iff d [])
Chosen-route (first r rules h) = rw (h, route) refl
Chosen-route (later h c) = rw (h, route) (Chosen-route c)

ok_inj : {p q : Payload} → ok p ≡ ok q → p ≡ q
ok_inj h = cc

err≢ok : {x : Error} {p : Payload} → err x ≡ ok p → ⊥
err≢ok h = cc

route_next :
    (r : CompiledRoute) (rules : List CompiledRoute) (d : Text) (e : Event)
    → r.cond e ≡ some false
    → route (r ∷ rules) d e ≡ route rules d e
unfolding route
route_next r rules d e h = rw (h, route) refl

route-Chosen :
    (rules : List CompiledRoute) (d : Text) (e : Event) (p : Payload)
    → route rules d e ≡ ok p
    → (t : Text) × Chosen e d rules t × (p ≡ one (set_header (codes "_route_target") t e))
route-Chosen [] d e p h = elim (Bool-cases (text_eq d [])) [
  | inl t ↦ unfold route in absurd (err≢ok (rw t at h))
  | inr t ↦ (
    d,
    by_default (λ q. ground (arith, text_eq_iff d [])),
    unfold route in ok_inj (sym (rw t at h)),
  )
]
route-Chosen (r ∷ rules) d e p h = elim (Option-cases (r.cond e)) [
  | inl q ↦ unfold route in absurd (err≢ok (rw (q, route) at h))
  | inr (true, q) ↦ (r.topic, first r rules q, unfold route in ok_inj (sym (rw (q, route) at h)))
  | inr (false, q) ↦
      let (t, c, s) = route-Chosen rules d e p (sym (route_next r rules d e q) ∙ h) in
      (t, later q c, s)
]

Chosen-Topics :
    {e : Event} {d : Text} {rules : List CompiledRoute} {t : Text}
    → Topics rules
    → Chosen e d rules t
    → t ≢ []
Chosen-Topics ts (by_default n) = n
Chosen-Topics ts (first r rules h) = ts.0
Chosen-Topics ts (later h c) = Chosen-Topics ts.1 c

compile_entry-topic :
    (parse : Text → Option Condition) (entry : ConditionRoute) (r : CompiledRoute)
    → compile_entry parse entry ≡ configured r
    → r.topic ≢ []
unfolding compile_entry
compile_entry-topic parse entry r h n = ground (arith, text_eq_iff entry.topic [])

Configured-cases {ℓ} :
    {A : Type ℓ} (x : Configured A)
    → ((e : Text) × (x ≡ refused e)) ⊎ ((a : A) × (x ≡ configured a))
Configured-cases (refused e) = inl (e, refl)
Configured-cases (configured a) = inr (a, refl)

configured_inj {ℓ} : {A : Type ℓ} {a b : A} → configured a ≡ configured b → a ≡ b
configured_inj h = cc

refused≢configured {ℓ} : {A : Type ℓ} {x : Text} {a : A} → refused x ≡ configured a → ⊥
refused≢configured h = cc

compile_cons :
    (parse : Text → Option Condition) (entry : ConditionRoute) (entries : List ConditionRoute)
    (r : CompiledRoute) (rules : List CompiledRoute)
    → compile_entry parse entry ≡ configured r
    → compile parse entries ≡ configured rules
    → compile parse (entry ∷ entries) ≡ configured (r ∷ rules)
unfolding compile
compile_cons parse entry entries r rules p q = rw (p, compile) (rw (q, compile) refl)

compile-Topics :
    (parse : Text → Option Condition) (entries : List ConditionRoute) (rules : List CompiledRoute)
    → compile parse entries ≡ configured rules
    → Topics rules
compile-Topics parse [] rules h =
    let q : [] ≡ rules = unfold compile in configured_inj h in rw (← q) tt
compile-Topics parse (entry ∷ entries) rules h =
    elim (Configured-cases (compile_entry parse entry)) [
      | inl (x, q) ↦ unfold compile in absurd (refused≢configured (rw (q, compile) at h))
      | inr (r, q) ↦ elim (Configured-cases (compile parse entries)) [
        | inl (x, q') ↦ unfold compile in absurd (refused≢configured (rw (q, q', compile) at h))
        | inr (rs, q') ↦
            let same : r ∷ rs ≡ rules =
              configured_inj (sym (compile_cons parse entry entries r rs q q') ∙ h) in
            let rest = compile-Topics parse entries rs q' in
            rw (← same) (compile_entry-topic parse entry r q, rest)
      ]
    ]

route_target-set_header :
    (t : Text) (e : Event) → route_target (set_header (codes "_route_target") t e) ≡ t
unfolding route_target
route_target-set_header t e = header-set_header (codes "_route_target") t e

send_topic-set_header :
    (output t : Text) (e : Event)
    → t ≢ []
    → send_topic output (set_header (codes "_route_target") t e) ≡ t
unfolding send_topic
send_topic-set_header output t e n = rw (route_target-set_header t e) (go t n)
  where
    go : (t : Text) → t ≢ [] → (if is_empty t then output else t) ≡ t
    go [] m = absurd (m refl)
    go (c ∷ t) m = refl

configure-compile :
    (parse : Text → Option Condition) (cfg : RouteConfig) (routes : Routes)
    → configure parse (decoded cfg) ≡ configured routes
    → compile parse cfg.conditions ≡ configured routes.rules
unfolding configure
configure-compile parse cfg routes h = ground arith

-- Under an accepted configuration the worker's topic for every event that the transform lets
-- through is that of the first rule that applies to the event, or the default topic, whatever the
-- output topic is; and an event to which a rule or the default applies is let through.
pub execute-Chosen :
    (parse : Text → Option Condition) (cfg : RouteConfig) (routes : Routes) (output : Text)
    (e : Event)
    → configure parse (decoded cfg) ≡ configured routes
    → ((p : Payload)
        → execute routes (one e) ≡ ok p
        → (t : Text) × (e' : Event) × (p ≡ one e')
          × Chosen (with_headers e) routes.default_topic routes.rules t
          × (send_topic output e' ≡ t))
      × ((t : Text)
          → Chosen (with_headers e) routes.default_topic routes.rules t
          → (e' : Event) × (execute routes (one e) ≡ ok (one e')) × (send_topic output e' ≡ t))
unfolding execute
execute-Chosen parse cfg routes output e c =
    let topics =
      compile-Topics parse cfg.conditions routes.rules (configure-compile parse cfg routes c) in
    let key = codes "_route_target" in
    (
      λ p h.
          let (t, ch, q) = route-Chosen routes.rules routes.default_topic (with_headers e) p h in
          (
            t,
            set_header key t (with_headers e),
            q,
            ch,
            send_topic-set_header output t (with_headers e) (Chosen-Topics topics ch),
          ),
      λ t ch. (
        set_header key t (with_headers e),
        Chosen-route ch,
        send_topic-set_header output t (with_headers e) (Chosen-Topics topics ch),
      ),
    )
