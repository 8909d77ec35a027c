-- ===== src/Command/Handlers/Acceptance.antt =====
-- What Validate of the rule objects accepts, Write can store.
use mesh_cdn.Base.{
  Bool-cases, some-injective, none-ne-some, Result-cases, Result, any, Text, text, same, same→eq,
  same_refl, ◌≡◌, sym, ◌∙◌, subst, inl, inr, true, Option, none, some, List, [], ◌∷◌, arith, ok,
}
use mesh_cdn.Base.Int.{suc_ℤ}
use mesh_cdn.Command.Types.{write, bad_params, Command, Error, Effects}
use mesh_cdn.Command.Executor.{Db, Handler}
use mesh_cdn.Command.Handlers.{ObjectRow, Tables, Outside, reload}
use mesh_cdn.Command.Handlers.ParamParsers.{
  parse_defense_params, parse_redirect_params, parse_header_params,
}
use mesh_cdn.Command.Handlers.Objects.{
  is_object, set_objects, upsert_object, upsert_rule_object, validate_rule_object,
}
use mesh_cdn.Command.Handlers.ObjectTypes.{
  Json, cache_params_error, validate_cache, prepare_cache, prepare_defense, prepare_redirect,
  prepare_header, special, object_handler, object_handlers,
}
use mesh_cdn.Command.Handlers.AcceptedParams.{
  error_of-ok, validate_rule_object_write, cache_params_error-parse,
}

any-upsert_self :
    (o : ObjectRow) (xs : List ObjectRow)
    → any (is_object o.type o.name) (upsert_object o xs) ≡ true
unfolding upsert_object
any-upsert_self o [] = ground (arith, same_refl o.type, same_refl o.name)
any-upsert_self o (x ∷ xs) =
    ground (arith, any-upsert_self o xs, same_refl o.type, same_refl o.name)

-- The row of an accepted write.
abbrev pub object_row : Text → Command → Text → Db Tables → ObjectRow
object_row type c json d = record {
  type = type;
  name = c.scope;
  params_text = c.params;
  parsed_json = json;
  version = suc_ℤ d.config_version;
}

module _ (out : Outside) where
  upsert_rule_object-stores :
      (type : Text) (c : Command) (json message : Text) (d : Db Tables)
      → out.write_error type ≡ none
      → upsert_rule_object out type c json message d ≡ (
        set_objects (upsert_object (object_row type c json d) d.rows.rule_objects) d,
        ok (reload message),
      )
  unfolding upsert_rule_object
  upsert_rule_object-stores type c json message d w = ground (arith, w)

  -- A write that is accepted is stored, unless the driver fails.
  abbrev pub Stores : Text → Handler Tables → Type 0
  Stores type g =
      (d : Db Tables) (c : Command)
      → c.verb ≡ write
      → g.validate c ≡ none
      → (json message : Text) × (g.write d c ≡ (
        set_objects (upsert_object (object_row type c json d) d.rows.rule_objects) d,
        ok (reload message),
      ))
        × (any (is_object type c.scope) (g.write d c).0.rows.rule_objects ≡ true)

module _ (out : Outside) (js : Json)
    (listing : Text → Tables → Command → Result Error Effects) where
  object_handler-Stores :
      (type : Text) (validate : Command → Option Error)
      (prepare : Command → Result Error (Text × Text))
      → out.write_error type ≡ none
      → ((c : Command)
          → c.verb ≡ write
          → validate c ≡ none
          → (r : Text × Text) × (prepare c ≡ ok r))
      → Stores out type (object_handler out js listing type validate prepare)
  unfolding object_handler
  object_handler-Stores type validate prepare w ready d c v h =
      let (r, e) = ready c v h in
      let q : (object_handler out js listing type validate prepare).write d c
          ≡ upsert_rule_object out type c r.0 r.1 d =
        ground arith in
      let z = q ∙ upsert_rule_object-stores out type c r.0 r.1 d w in
      (
        r.0,
        r.1,
        z,
        subst
            (λ (x : Db Tables × Result Error Effects).
              any (is_object type c.scope) x.0.rows.rule_objects ≡ true)
            (sym z) (any-upsert_self (object_row type c r.0 d) d.rows.rule_objects),
      )

  cache_ready :
      (c : Command)
      → c.verb ≡ write
      → validate_cache out c ≡ none
      → (r : Text × Text) × (prepare_cache out js listing c ≡ ok r)
  unfolding validate_cache prepare_cache
  cache_ready c w h =
      let k : cache_params_error out c.params ≡ none = ground (arith, w, h) in
      let (p, e) = cache_params_error-parse out c.params k in
      elim (Result-cases (prepare_cache out js listing c)) [
        | inl (r, q) ↦ (r, q)
        | inr (x, q) ↦ absurd (ground arith)
      ]

  defense_ready :
      (c : Command)
      → c.verb ≡ write
      → validate_rule_object out
          (text "defense")
          (special out js listing (parse_defense_params out))
          c
        ≡ none
      → (r : Text × Text) × (prepare_defense out js listing c ≡ ok r)
  unfolding prepare_defense
  defense_ready c w h =
      let (p, e) =
        error_of-ok bad_params (parse_defense_params out c.params)
          (validate_rule_object_write out (text "defense") _ c w h) in
      elim (Result-cases (prepare_defense out js listing c)) [
        | inl (r, q) ↦ (r, q)
        | inr (x, q) ↦ absurd (ground arith)
      ]

  redirect_ready :
      (c : Command)
      → c.verb ≡ write
      → validate_rule_object out
          (text "redirect")
          (special out js listing (parse_redirect_params out))
          c
        ≡ none
      → (r : Text × Text) × (prepare_redirect out js listing c ≡ ok r)
  unfolding prepare_redirect
  redirect_ready c w h =
      let (p, e) =
        error_of-ok bad_params (parse_redirect_params out c.params)
          (validate_rule_object_write out (text "redirect") _ c w h) in
      elim (Result-cases (prepare_redirect out js listing c)) [
        | inl (r, q) ↦ (r, q)
        | inr (x, q) ↦ absurd (ground arith)
      ]

  header_ready :
      (c : Command)
      → c.verb ≡ write
      → validate_rule_object out
          (text "header")
          (special out js listing (parse_header_params out))
          c
        ≡ none
      → (r : Text × Text) × (prepare_header out js listing c ≡ ok r)
  unfolding prepare_header
  header_ready c w h =
      let (p, e) =
        error_of-ok bad_params (parse_header_params out c.params)
          (validate_rule_object_write out (text "header") _ c w h) in
      elim (Result-cases (prepare_header out js listing c)) [
        | inl (r, q) ↦ (r, q)
        | inr (x, q) ↦ absurd (ground arith)
      ]

  abbrev AllStore : Text → Option (Handler Tables) → Type 0
  AllStore type found = (g : Handler Tables) → found ≡ some g → Stores out type g

  stored :
      (k type : Text) (h : Handler Tables)
      → type ≡ k
      → out.write_error type ≡ none
      → (out.write_error k ≡ none → Stores out k h)
      → AllStore type (some h)
  stored k type h e w store g q =
      subst (λ t. Stores out t g) (sym e)
        (subst (Stores out k) (some-injective q)
          (store (subst (λ t. out.write_error t ≡ none) e w)))

  handlers_store :
      (type : Text)
      → out.write_error type ≡ none
      → AllStore type (object_handlers out js listing type)
  unfolding object_handlers
  handlers_store type w = elim (Bool-cases (same type (text "cache"))) [
    | inl e ↦ rw e (
        stored (text "cache") type _ (same→eq type (text "cache") e) w
          (λ z. object_handler-Stores (text "cache") _ _ z cache_ready))
    | inr e ↦ elim (Bool-cases (same type (text "defense"))) [
      | inl f ↦
          rw (e, f)
            (stored (text "defense") type _ (same→eq type (text "defense") f) w
              (λ z. object_handler-Stores (text "defense") _ _ z defense_ready))
      | inr f ↦ elim (Bool-cases (same type (text "redirect"))) [
        | inl i ↦
            rw (e, f, i)
              (stored (text "redirect") type _ (same→eq type (text "redirect") i) w
                (λ z. object_handler-Stores (text "redirect") _ _ z redirect_ready))
        | inr i ↦ elim (Bool-cases (same type (text "header"))) [
          | inl j ↦
              rw (e, f, i, j)
                (stored (text "header") type _ (same→eq type (text "header") j) w
                  (λ z. object_handler-Stores (text "header") _ _ z header_ready))
          | inr j ↦ rw (e, f, i, j) (λ g z. absurd (none-ne-some z))
        ]
      ]
    ]
  ]

  -- A write of a rule object that its handler's Validate accepts is stored, unless the driver
  -- fails: the parameters are never refused later, all that changes is the table of the objects,
  -- where the row with the parameters is inserted or replaces the one of that type and name, the
  -- object is there afterwards, and nginx is to be reloaded. This holds for all four types.
  pub object_handlers-Stores :
      (type : Text) (g : Handler Tables)
      → object_handlers out js listing type ≡ some g
      → out.write_error type ≡ none
      → Stores out type g
  object_handlers-Stores type g h w = handlers_store type w g h
