-- ===== src/Command/Handlers/ObjectTypes.antt =====
-- The four types of rule objects: the handlers of internal/command/handlers/cache.go and objects.go.
use mesh_cdn.Base.{
  if◌then◌else◌, Result, length, Text, text, same, not, ◌||◌, Option, none, some, [], ◌∷◌, ◌++◌, ok,
  err,
}
use mesh_cdn.Base.Int.{pos, ltb_ℤ}
use mesh_cdn.Base.Decimal.{decimal, decimal_ℤ, parse_int}
use mesh_cdn.Base.Table.{get}
use mesh_cdn.Command.Types.{
  write, delete, view, Command, Error, bad_format, bad_params, Effects, parse_key_value_params,
}
use mesh_cdn.Command.Executor.{Handler}
use mesh_cdn.Command.Handlers.{Tables, Outside, is_placeholder, error}
use mesh_cdn.Command.Handlers.Params.{
  CacheParams, DefenseParams, RedirectParams, HeaderParams, reject_unknown_keys,
}
use mesh_cdn.Command.Handlers.ParamParsers.{
  parse_cache_params, parse_defense_params, parse_redirect_params, parse_header_params,
}
use mesh_cdn.Command.Handlers.Objects.{
  is_valid_object_name, recoded, error_of, upsert_rule_object, delete_object, validate_rule_object,
}

module _ (out : Outside) where
  -- The test of ttl and browser_ttl in Validate of the cache handler.
  abbrev pub ttl_error : Text → Option Text → Option Error
  ttl_error name none = none
  ttl_error name (some v) =
      let complaint =
        some (error bad_params (text "invalid " ++ (name ++ (text ": " ++ out.quote v)))) in
      elim (parse_int v) [ none ↦ complaint | some n ↦ if ltb_ℤ n (pos 0) then complaint else none ]

  abbrev pub hsts_error : Option Text → Option Error
  hsts_error none = none
  hsts_error (some v) =
      if same v (text "true") || same v (text "false")
      then none
      else some (error bad_params (text "hsts must be true or false"))

  abbrev pub patterns_error : Option Text → Option Error
  patterns_error none = some (error bad_params (text "/w cache requires patterns=..."))
  patterns_error (some []) = some (error bad_params (text "/w cache requires patterns=..."))
  patterns_error (some (c ∷ s)) = none

  abbrev pub first_error : Option Error → Option Error → Option Error
  first_error (some e) f = some e
  first_error none f = f

  -- The parameters in Validate of the cache handler.
  unfoldable pub cache_params_error : Text → Option Error
  unfolding parse_key_value_params reject_unknown_keys get same parse_int
  cache_params_error s = elim (parse_key_value_params s) [
    | err e ↦ some e
    | ok m ↦
        elim (reject_unknown_keys out.quote m (text "cache")
          (text "patterns" ∷ text "ttl" ∷ text "browser_ttl" ∷ text "hsts" ∷ [])) [
            | some e ↦ some (recoded bad_params e)
            | none ↦ first_error (patterns_error (get (text "patterns") m)) (
                first_error (ttl_error (text "ttl") (get (text "ttl") m)) (
                  first_error (ttl_error (text "browser_ttl") (get (text "browser_ttl") m))
                    (hsts_error (get (text "hsts") m))))
          ]
  ]

  -- CacheHandler.Validate
  unfoldable pub validate_cache : Command → Option Error
  unfolding is_valid_object_name same cache_params_error
  validate_cache c = elim c.verb [
    | view ↦ none
    | write ↦
        if is_placeholder c.scope
        then some (error bad_format (text "/w cache requires <name> in scope"))
        else if not (is_valid_object_name c.scope)
        then some (error bad_format (text "invalid object name " ++ out.quote c.scope))
        else cache_params_error c.params
    | delete ↦
        if is_placeholder c.scope
        then some (error bad_format (text "/w cache requires <name> in scope"))
        else if not (is_valid_object_name c.scope)
        then some (error bad_format (text "invalid object name " ++ out.quote c.scope))
        else none
  ]

-- json.Marshal on the parameters.
pub record Json : Type 0 where
  pub cache_json : CacheParams → Text
  pub defense_json : DefenseParams → Text
  pub redirect_json : RedirectParams → Text
  pub header_json : HeaderParams → Text

module _ (out : Outside) (js : Json)
    (listing : Text → Tables → Command → Result Error Effects) where
  -- A handler of rule objects: its Validate, and what Write makes of the parameters, the JSON and the
  -- message. View writes nothing; its text is a parameter.
  unfoldable pub object_handler :
      Text → (Command → Option Error) → (Command → Result Error (Text × Text)) → Handler Tables
  unfolding upsert_rule_object delete_object
  object_handler type validate prepare = record {
    validate = validate;
    write = λ d c. elim (prepare c) [
      | err e ↦ (d, err (recoded bad_params e))
      | ok (json, message) ↦ upsert_rule_object out type c json message d
    ];
    delete = λ d c. delete_object out type c.scope d;
    view = λ d c. (d, listing type d.rows c);
  }

  unfoldable pub prepare_cache : Command → Result Error (Text × Text)
  unfolding parse_cache_params decimal decimal_ℤ
  prepare_cache c = elim (parse_cache_params out c.params) [
    | err e ↦ err e
    | ok p ↦ ok (
      js.cache_json p,
      text "缓存对象 "
          ++ (c.scope
              ++ (text " 已写入 ("
                  ++ (decimal (length p.patterns)
                      ++ (text " patterns, ttl=" ++ (decimal_ℤ p.ttl ++ text "s)"))))),
    )
  ]

  unfoldable pub prepare_defense : Command → Result Error (Text × Text)
  unfolding parse_defense_params
  prepare_defense c = elim (parse_defense_params out c.params) [
    | err e ↦ err e
    | ok p ↦ ok (
      js.defense_json p,
      text "defense 对象 " ++ (c.scope ++ (text " 已写入 (action=" ++ (p.action ++ text ")"))),
    )
  ]

  unfoldable pub prepare_redirect : Command → Result Error (Text × Text)
  unfolding parse_redirect_params
  prepare_redirect c = elim (parse_redirect_params out c.params) [
    | err e ↦ err e
    | ok p ↦ ok (
      js.redirect_json p,
      text "redirect 对象 "
          ++ (c.scope ++ (text " 已写入 (" ++ (p.from ++ (text " → " ++ (p.to ++ text ")"))))),
    )
  ]

  unfoldable pub prepare_header : Command → Result Error (Text × Text)
  unfolding parse_header_params
  prepare_header c = elim (parse_header_params out c.params) [
    | err e ↦ err e
    | ok p ↦ ok (js.header_json p, text "header 对象 " ++ (c.scope ++ text " 已写入"))
  ]

  -- validateDefenseParams, validateRedirectParams and validateHeaderParams.
  abbrev pub special : {A : Type 0} → (Text → Result Error A) → Text → Option Error
  special parse s = error_of bad_params (parse s)

  -- The four handlers.
  unfoldable pub object_handlers : Text → Option (Handler Tables)
  unfolding same object_handler validate_cache validate_rule_object prepare_cache prepare_defense
      prepare_redirect prepare_header parse_defense_params parse_redirect_params parse_header_params
  object_handlers type =
      if same type (text "cache")
      then some (object_handler (text "cache") (validate_cache out) prepare_cache)
      else if same type (text "defense")
      then some (
          object_handler (text "defense")
            (validate_rule_object out (text "defense") (special (parse_defense_params out)))
            prepare_defense)
      else if same type (text "redirect")
      then some (
          object_handler (text "redirect")
            (validate_rule_object out (text "redirect") (special (parse_redirect_params out)))
            prepare_redirect)
      else if same type (text "header")
      then some (
          object_handler (text "header")
            (validate_rule_object out (text "header") (special (parse_header_params out)))
            prepare_header)
      else none
