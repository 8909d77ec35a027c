-- ===== src/Command/Sync/Restore/Spelling.antt =====
-- A parsed command is spelled by words, and Validate accepts the line that an export writes for it.
use mesh_cdn.Base.{
  Bool-cases, some-injective, none-ne-some, Result-cases, Result, All, Text, text, same, is_empty,
  join, trim_space, ◌≡◌, refl, sym, ◌∙◌, subst, inl, inr, Option, none, some, List, [], ◌∷◌, arith,
  ok,
}
use mesh_cdn.Base.Words.{IsWord}
use mesh_cdn.Command.Types.{write, Lang, Command, Error, Effects}
use mesh_cdn.Command.Parse.{parse}
use mesh_cdn.Command.Parse.RoundTrip.{spelled, parse-eq_ok}
use mesh_cdn.Command.Executor.{Handler, parse_line}
use mesh_cdn.Command.Handlers.{Tables, Outside}
use mesh_cdn.Command.Handlers.Domain.{validate_domain}
use mesh_cdn.Command.Handlers.Objects.{validate_rule_object}
use mesh_cdn.Command.Handlers.ParamParsers.{
  parse_defense_params, parse_redirect_params, parse_header_params,
}
use mesh_cdn.Command.Handlers.ObjectTypes.{
  Json, object_handlers, object_handler, validate_cache, prepare_cache, prepare_defense,
  prepare_redirect, prepare_header, special,
}

-- The segments are words, and the parameters are words with one blank between them.
abbrev pub IsSpelled : Command → Type 0
IsSpelled c =
    IsWord c.type
    × IsWord c.scope
    × ((p : Text) × (ps : List Text) × All IsWord (p ∷ ps) × (c.params ≡ join (text " ") (p ∷ ps)))

pub parse-IsSpelled : (line : Text) (c : Command) → parse line ≡ ok c → IsSpelled c
parse-IsSpelled line c h =
    let (l, e, w) = parse-eq_ok line c h in
    let (v, t, s, p, ps, hw, ec) = w in
    subst IsSpelled (sym ec) (hw.0, hw.1.0, (p, ps, hw.1.1, refl))

pub parse_line-IsSpelled :
    (lang : Lang) (line : Text) (c : Command) → parse_line lang line ≡ ok c → IsSpelled c
unfolding parse_line
parse_line-IsSpelled lang line c h = elim (Bool-cases (is_empty (trim_space line))) [
  | inl b ↦ absurd (ground arith)
  | inr b ↦ elim (Result-cases (parse line)) [
    | inr (x, e) ↦ absurd (ground arith)
    | inl (d, e) ↦
        let q : record d { lang = lang } ≡ c = ground arith in
        subst IsSpelled q (parse-IsSpelled line d e)
  ]
]

-- The test looks at nothing but the verb, the scope and the parameters.
abbrev IsSegmented : (Command → Option Error) → Type 0
IsSegmented test =
    (c e : Command) → c.verb ≡ e.verb → c.scope ≡ e.scope → c.params ≡ e.params → test c ≡ test e

module _ (out : Outside) where
  validate_domain-IsSegmented : IsSegmented (validate_domain out)
  unfolding validate_domain
  validate_domain-IsSegmented c e v s p =
      λ i. validate_domain out (record c { verb = v i; scope = s i; params = p i })

  validate_cache-IsSegmented : IsSegmented (validate_cache out)
  unfolding validate_cache
  validate_cache-IsSegmented c e v s p =
      λ i. validate_cache out (record c { verb = v i; scope = s i; params = p i })

  validate_rule_object-IsSegmented :
      (type : Text) (special : Text → Option Error)
      → IsSegmented (validate_rule_object out type special)
  unfolding validate_rule_object
  validate_rule_object-IsSegmented type special c e v s p = λ i.
      validate_rule_object out type special (record c { verb = v i; scope = s i; params = p i })

  -- The line that an export writes for an accepted write is accepted.
  pub validate_domain-spelled :
      (c : Command)
      → c.verb ≡ write
      → validate_domain out c ≡ none
      → validate_domain out (spelled write (text "domain") c.scope c.params []) ≡ none
  unfolding join
  validate_domain-spelled c v h =
      validate_domain-IsSegmented (spelled write (text "domain") c.scope c.params []) c (sym v) refl
        refl
      ∙ h

module _ (out : Outside) (js : Json)
    (listing : Text → Tables → Command → Result Error Effects) where
  abbrev AllSegmented : Option (Handler Tables) → Type 0
  AllSegmented found = (g : Handler Tables) → found ≡ some g → IsSegmented g.validate

  object_handler-AllSegmented :
      (type : Text) (validate : Command → Option Error)
      (prepare : Command → Result Error (Text × Text))
      → IsSegmented validate
      → AllSegmented (some (object_handler out js listing type validate prepare))
  unfolding object_handler
  object_handler-AllSegmented type validate prepare h g e =
      subst (λ (x : Handler Tables). IsSegmented x.validate) (some-injective e) h

  object_handlers-AllSegmented : (type : Text) → AllSegmented (object_handlers out js listing type)
  unfolding object_handlers
  object_handlers-AllSegmented type = elim (Bool-cases (same type (text "cache"))) [
    | inl e ↦ rw e (
        object_handler-AllSegmented (text "cache") _ (prepare_cache out js listing)
          (validate_cache-IsSegmented out))
    | inr e ↦ elim (Bool-cases (same type (text "defense"))) [
      | inl f ↦
          rw (e, f)
            (object_handler-AllSegmented (text "defense") _ (prepare_defense out js listing) (
              validate_rule_object-IsSegmented out (text "defense")
                (special out js listing (parse_defense_params out))))
      | inr f ↦ elim (Bool-cases (same type (text "redirect"))) [
        | inl g ↦
            rw (e, f, g)
              (object_handler-AllSegmented (text "redirect") _ (prepare_redirect out js listing) (
                validate_rule_object-IsSegmented out (text "redirect")
                  (special out js listing (parse_redirect_params out))))
        | inr g ↦ elim (Bool-cases (same type (text "header"))) [
          | inl i ↦
              rw (e, f, g, i)
                (object_handler-AllSegmented (text "header") _ (prepare_header out js listing) (
                  validate_rule_object-IsSegmented out (text "header")
                    (special out js listing (parse_header_params out))))
          | inr i ↦ rw (e, f, g, i) (λ h z. absurd (none-ne-some z))
        ]
      ]
    ]
  ]

  pub object_handlers-spelled :
      (c : Command) (g : Handler Tables) (p : Text) (ps : List Text)
      → object_handlers out js listing c.type ≡ some g
      → c.verb ≡ write
      → c.params ≡ join (text " ") (p ∷ ps)
      → g.validate c ≡ none
      → g.validate (spelled write c.type c.scope p ps) ≡ none
  object_handlers-spelled c g p ps found v e h =
      object_handlers-AllSegmented c.type g found (spelled write c.type c.scope p ps) c (sym v) refl
        (sym e)
      ∙ h
