-- ===== src/Command/Handlers/Bind.antt =====
-- internal/command/handlers/bind.go: BindHandler.
use mesh_cdn.Base.{
  if◌then◌else◌, Result, length, filter, any, Text, text, same, is_empty, cut, ℕ, zero, suc, ◌-◌,
  Bool, true, false, not, ◌&&◌, ◌||◌, Option, none, some, List, [], ◌∷◌, ◌++◌, ok, err,
}
use mesh_cdn.Base.Int.{suc_ℤ}
use mesh_cdn.Base.Decimal.{decimal}
use mesh_cdn.Command.Types.{
  write, delete, view, Command, Error, plain, driver, bad_format, bad_params, not_found, Effects,
}
use mesh_cdn.Command.Executor.{Db, Handler}
use mesh_cdn.Command.Handlers.{
  DomainRow, BindingRow, Tables, Outside, is_placeholder, error, reply, reload,
}
use mesh_cdn.Command.Handlers.Scope.{parse_domain_scope}
use mesh_cdn.Command.Handlers.Objects.{is_valid_object_name, is_object}

abbrev pub set_bindings : List BindingRow → Db Tables → Db Tables
set_bindings bs d = record d { rows = record d.rows { bindings = bs } }

-- isKnownObjectType
abbrev pub is_known_object_type : Text → Bool
is_known_object_type t =
    same t (text "cache")
    || (same t (text "defense") || (same t (text "redirect") || same t (text "header")))

abbrev pub is_binding : Text → Text → Text → BindingRow → Bool
is_binding scope type name b =
    same b.scope scope && (same b.object_type type && same b.object_name name)

-- INSERT … ON CONFLICT(scope, object_type, object_name) DO UPDATE.
unfoldable pub upsert_binding : BindingRow → List BindingRow → List BindingRow
unfolding same
upsert_binding b [] = b ∷ []
upsert_binding b (x ∷ xs) =
    let rest = upsert_binding b xs in
    if is_binding b.scope b.object_type b.object_name x then b ∷ xs else x ∷ rest

abbrev pub displays : Text → Text × DomainRow → Bool
displays scope (k, row) = same row.display_scope scope

module _ (out : Outside) where
  -- parseObjectRef. A reference that is "-" has neither a type nor a name.
  unfoldable pub parse_object_ref : Text → Result Text (Text × Text)
  unfolding cut same
  parse_object_ref s =
      let complaint = err (text "expected <type>:<name>, got " ++ out.quote s) in
      if is_placeholder s then ok ([], []) else elim (cut 0x3A s) [
        | none ↦ complaint
        | some ([], name) ↦ complaint
        | some (c ∷ type, []) ↦ complaint
        | some (c ∷ type, n ∷ name) ↦ ok (c ∷ type, n ∷ name)
      ]

  abbrev ref_error : Bool → Text → Option Error
  ref_error writes s = elim (parse_object_ref s) [
    | err e ↦ some (error bad_params e)
    | ok (type, name) ↦
        if is_empty type && writes
        then some (error bad_params (text "params must be <type>:<name> (e.g. cache:img-7d)"))
        else if not (is_empty type) && not (is_known_object_type type)
        then some (
            error bad_params (
              text "unknown object type "
              ++ (out.quote type ++ text " (expected: cache/defense/redirect/header)")))
        else if not (is_empty name) && not (is_valid_object_name name)
        then some (error bad_params (text "invalid object name " ++ out.quote name))
        else none
  ]

  abbrev bind_error : Bool → Command → Option Error
  bind_error writes c =
      if is_placeholder c.scope
      then some (
          error bad_format (
            text
              "/w bind requires <proto>://<host>:<port-list> in scope (use /v bind - - to list all)"))
      else elim (parse_domain_scope out.quote out.is_ip c.scope) [
        | err e ↦ some (
            error bad_format
              (text "invalid bind scope " ++ (out.quote c.scope ++ (text ": " ++ e))))
        | ok sc ↦ ref_error writes c.params
      ]

  -- BindHandler.Validate
  unfoldable pub validate_bind : Command → Option Error
  unfolding parse_object_ref parse_domain_scope is_valid_object_name same
  validate_bind c = elim c.verb [
    | view ↦ none
    | write ↦ bind_error true c
    | delete ↦ bind_error false c
  ]

  -- The reference that Write reads, without its error.
  abbrev pub ref_of : Text → Text × Text
  ref_of s = elim (parse_object_ref s) [ err e ↦ ([], []) | ok r ↦ r ]

  abbrev no_object : Text → Text → Error
  no_object type name = error not_found (
      type
      ++ (text " 对象 "
          ++ (out.quote name
              ++ (text " 不存在；请先 /w " ++ (type ++ (text " " ++ (name ++ text " ...")))))))

  abbrev no_domain : Text → Error
  no_domain scope = error not_found (
      text "domain "
      ++ (out.quote scope
          ++ text " 不存在。bind 的 scope 必须与 /w domain 的 scope 字面相同。\n用 /v domain - - 查看现有 domain 列表。"))

  -- BindHandler.Write
  unfoldable pub write_bind : Db Tables → Command → Db Tables × Result Error Effects
  unfolding parse_object_ref upsert_binding same
  write_bind d c =
      let (type, name) = ref_of c.params in
      elim (out.select_error type) [
        | some e ↦ (d, err (plain (driver e)))
        | none ↦
            if not (any (is_object type name) d.rows.rule_objects)
            then (d, err (no_object type name))
            else elim (out.select_error c.scope) [
              | some e ↦ (d, err (plain (driver e)))
              | none ↦
                  if not (any (displays c.scope) d.rows.domains)
                  then (d, err (no_domain c.scope))
                  else elim (out.write_error c.scope) [
                    | some e ↦ (d, err (plain (driver (text "insert binding: " ++ e))))
                    | none ↦ (
                      set_bindings
                          (upsert_binding
                            (record {
                              scope = c.scope;
                              object_type = type;
                              object_name = name;
                              version = suc_ℤ d.config_version;
                            })
                            d.rows.bindings)
                          d,
                      ok (
                          reload (
                            text "已绑定: "
                            ++ (c.scope ++ (text " → " ++ (type ++ (text ":" ++ name)))))),
                    )
                  ]
            ]
      ]

  -- The rows that the statement of Delete matches.
  abbrev pub is_unbound : Command → BindingRow → Bool
  is_unbound c b =
      let (type, name) = ref_of c.params in
      if is_placeholder c.params then same b.scope c.scope else is_binding c.scope type name b

  abbrev unbound : Text → ℕ → Effects
  unbound scope zero = reply (scope ++ text " 上没有匹配的绑定")
  unbound scope (suc n) = reload (text "已解除 " ++ (decimal (suc n) ++ text " 条绑定"))

  -- BindHandler.Delete
  unfoldable pub delete_bind : Db Tables → Command → Db Tables × Result Error Effects
  unfolding parse_object_ref decimal same
  delete_bind d c = elim (parse_object_ref c.params) [
    | err e ↦ (d, err (error bad_params e))
    | ok r ↦ elim (out.delete_error c.scope) [
      | some e ↦ (d, err (plain (driver (text "delete binding: " ++ e))))
      | none ↦
          let rest = filter (λ b. not (is_unbound c b)) d.rows.bindings in
          (set_bindings rest d, ok (unbound c.scope (length d.rows.bindings - length rest)))
    ]
  ]

  -- BindHandler. View lists rows and writes none; its text is a parameter.
  unfoldable pub bind_handler : (Tables → Command → Result Error Effects) → Handler Tables
  unfolding validate_bind write_bind delete_bind
  bind_handler listing = record {
    validate = validate_bind;
    write = write_bind;
    delete = delete_bind;
    view = λ d c. (d, listing d.rows c);
  }
