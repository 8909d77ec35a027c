-- ===== src/Command/Handlers/Domain.antt =====
-- internal/command/handlers/domain.go: DomainHandler.
use mesh_cdn.Base.{
  if◌then◌else◌, Result, length, filter, Text, text, same, is_empty, ℕ, zero, suc, ◌+◌, ◌-◌, String,
  Bool, not, ◌&&◌, Option, none, some, List, [], ◌∷◌, ◌++◌, map, ok, err,
}
use mesh_cdn.Base.Int.{suc_ℤ}
use mesh_cdn.Base.Decimal.{decimal}
use mesh_cdn.Base.Table.{get, put}
use mesh_cdn.Command.Types.{
  write, delete, view, Command, Error, plain, driver, bad_format, bad_params, port_conflict,
  cascade_blocked, Binding, Effects,
}
use mesh_cdn.Command.Executor.{Db, Handler}
use mesh_cdn.Command.Handlers.{
  DomainRow, BindingRow, Tables, Outside, is_placeholder, error, reply, reload,
}
use mesh_cdn.Command.Handlers.Scope.{
  DomainScope, parse_domain_scope, origin_error, canonical_scope, canonicals,
}

abbrev pub Domains : Type 0
Domains = List (Text × DomainRow)

abbrev pub set_domains : Domains → Db Tables → Db Tables
set_domains m d = record d { rows = record d.rows { domains = m } }

-- The port that belongs to another scope, and what to do.
abbrev owned : ℕ → String → Text → String → Text
owned p says owner advice =
    text "端口 " ++ (decimal p ++ (text says ++ (owner ++ (text advice ++ (owner ++ text " -")))))

-- The ports with their canonical scopes.
abbrev pub numbered : DomainScope → List (ℕ × Text)
numbered sc = map (λ p. (p, canonical_scope sc.proto sc.host p)) sc.ports

abbrev binding_of : Text → ℕ → Binding
binding_of proto p = record { port = p; protocol = proto }

-- What a write reports.
abbrev pub written : DomainScope → Text → Effects
written sc origin =
    record (reload (
      text "写入域名规则: "
      ++ ((if same sc.host (text "-") then text "any-host" else sc.host)
          ++ (text " on " ++ (decimal (length sc.ports) ++ (text " port(s) → " ++ origin)))))) {
            port_protocol_bindings = map (binding_of sc.proto) sc.ports;
          }

abbrev pub is_row : Text → Text → Text × DomainRow → Bool
is_row k display (j, row) = same j k && same row.display_scope display

abbrev pub on_scope : Text → BindingRow → Bool
on_scope display b = same b.scope display

abbrev pub deleted : Text → ℕ → Effects
deleted display zero = reply (text "未找到匹配的域名规则: " ++ display)
deleted display (suc n) =
    reload (text "删除域名规则: " ++ (display ++ (text " (" ++ (decimal (suc n) ++ text " 端口)"))))

-- The refusal of a scope with `suc n` bindings.
abbrev pub referred : Command → ℕ → Error
referred c n = error cascade_blocked (
    text "domain "
    ++ (c.scope
        ++ (text " 仍被 "
            ++ (decimal (suc n)
                ++ (text " 条 binding 引用，请先 /d bind " ++ (c.scope ++ text " ... 解除绑定"))))))

module _ (out : Outside) where
  abbrev pub scope_of : Text → Result Text DomainScope
  scope_of = parse_domain_scope out.quote out.is_ip

  abbrev scope_error : Text → Option Error
  scope_error s = elim (scope_of s) [
    | err e ↦ some (error bad_format (text "invalid scope: " ++ e))
    | ok sc ↦ none
  ]

  -- DomainHandler.Validate
  unfoldable pub validate_domain : Command → Option Error
  unfolding parse_domain_scope origin_error same
  validate_domain c = elim c.verb [
    | view ↦
        let bad_view =
          if is_placeholder c.params
          then none
          else some (error bad_params (text "/v domain currently expects params = -")) in
        if is_placeholder c.scope
        then bad_view
        else elim (scope_error c.scope) [ some e ↦ some e | none ↦ bad_view ]
    | delete ↦
        if is_placeholder c.scope
        then some (
            error bad_format
              (text "/w/d domain requires a scope (use https://-:port for port fallback)"))
        else scope_error c.scope
    | write ↦
        if is_placeholder c.scope
        then some (
            error bad_format
              (text "/w/d domain requires a scope (use https://-:port for port fallback)"))
        else elim (scope_error c.scope) [
          | some e ↦ some e
          | none ↦
              if is_empty c.params
              then some
                  (error bad_params (text "/w domain requires origin (use - for welcome page)"))
              else if is_placeholder c.params
              then none
              else elim (origin_error out.quote out.is_ip c.params) [
                | some e ↦ some (error bad_params (text "invalid origin: " ++ e))
                | none ↦ none
              ]
        ]
  ]

  -- The loop that looks for a row of another scope.
  unfoldable pub find_conflict : Text → List (ℕ × Text) → Domains → Option Error
  unfolding get same decimal
  find_conflict display [] m = none
  find_conflict display ((p, k) ∷ ks) m = elim (out.select_error k) [
    | some e ↦ some (plain (driver (text "check port conflict: " ++ e)))
    | none ↦ elim (get k m) [
      | none ↦ find_conflict display ks m
      | some row ↦
          let rest = find_conflict display ks m in
          if same row.display_scope display
          then rest
          else some
              (error port_conflict (owned p " 已被另一个 scope 占用: " row.display_scope "。请先 /d domain "))
    ]
  ]

  -- The loop that inserts or updates the rows.
  unfoldable pub insert_rows : DomainRow → List Text → Domains → Domains × Option Error
  unfolding put
  insert_rows row [] m = (m, none)
  insert_rows row (k ∷ ks) m = elim (out.write_error k) [
    | some e ↦ (m, some (plain (driver (text "insert domain row: " ++ e))))
    | none ↦ insert_rows row ks (put k row m)
  ]

  -- DomainHandler.Write
  unfoldable pub write_domain : Db Tables → Command → Db Tables × Result Error Effects
  unfolding find_conflict insert_rows parse_domain_scope canonical_scope decimal same
  write_domain d c = elim (scope_of c.scope) [
    | err e ↦ (d, err (error bad_format e))
    | ok sc ↦ elim (find_conflict c.scope (numbered sc) d.rows.domains) [
      | some e ↦ (d, err e)
      | none ↦
          let row : DomainRow = record {
            display_scope = c.scope;
            origin = c.params;
            version = suc_ℤ d.config_version;
          } in
          let (m, failed) = insert_rows row (canonicals sc) d.rows.domains in
          (set_domains m d, elim failed [ some e ↦ err e | none ↦ ok (written sc c.params) ])
    ]
  ]

  -- The loop that checks that the rows are those of the scope as it is written.
  unfoldable pub find_foreign : Text → List (ℕ × Text) → Domains → Option Error
  unfolding get same decimal
  find_foreign display [] m = none
  find_foreign display ((p, k) ∷ ks) m = elim (out.select_error k) [
    | some e ↦ some (plain (driver (text "check display_scope: " ++ e)))
    | none ↦ elim (get k m) [
      | none ↦ find_foreign display ks m
      | some row ↦
          let rest = find_foreign display ks m in
          if same row.display_scope display
          then rest
          else some (
              error bad_format
                (owned p " 属于另一个 scope: " row.display_scope "。请用完整 scope 删除: /d domain "))
    ]
  ]

  -- The loop that deletes the rows, with their number.
  unfoldable pub delete_rows : Text → List Text → ℕ → Domains → Domains × ℕ × Option Error
  unfolding same
  delete_rows display [] n m = (m, n, none)
  delete_rows display (k ∷ ks) n m = elim (out.delete_error k) [
    | some e ↦ (m, n, some (plain (driver (text "delete domain: " ++ e))))
    | none ↦
        let rest = filter (λ e. not (is_row k display e)) m in
        delete_rows display ks (n + (length m - length rest)) rest
  ]

  -- DomainHandler.Delete
  unfoldable pub delete_domain : Db Tables → Command → Db Tables × Result Error Effects
  unfolding find_foreign delete_rows parse_domain_scope canonical_scope decimal same
  delete_domain d c = elim (scope_of c.scope) [
    | err e ↦ (d, err (error bad_format e))
    | ok sc ↦ elim (find_foreign c.scope (numbered sc) d.rows.domains) [
      | some e ↦ (d, err e)
      | none ↦ elim (out.select_error c.scope) [
        | some e ↦ (d, err (plain (driver (text "check bindings: " ++ e))))
        | none ↦ elim (length (filter (on_scope c.scope) d.rows.bindings)) [
          | suc n ↦ (d, err (referred c n))
          | zero ↦
              let (m, n, failed) = delete_rows c.scope (canonicals sc) 0 d.rows.domains in
              (set_domains m d, elim failed [ some e ↦ err e | none ↦ ok (deleted c.scope n) ])
        ]
      ]
    ]
  ]

  -- DomainHandler. View lists rows and writes none; its text is a parameter.
  unfoldable pub domain_handler : (Tables → Command → Result Error Effects) → Handler Tables
  unfolding validate_domain write_domain delete_domain
  domain_handler listing = record {
    validate = validate_domain;
    write = write_domain;
    delete = delete_domain;
    view = λ d c. (d, listing d.rows c);
  }
