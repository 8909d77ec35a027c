-- ===== src/Command/Handlers/Objects.antt =====
-- The handlers of rule objects: internal/command/handlers/cache.go and objects.go.
use mesh_cdn.Base.{
  ltb, leb, ◌==◌, if◌then◌else◌, Result, length, filter, any, Text, text, same, join, byte_len, ℕ,
  Bool, not, ◌&&◌, ◌||◌, Option, none, some, List, [], ◌∷◌, ◌++◌, map, ok, err,
}
use mesh_cdn.Base.Before.{before}
use mesh_cdn.Base.Int.{suc_ℤ}
use mesh_cdn.Base.Sort.{sort_by}
use mesh_cdn.Command.Types.{
  write, delete, view, Code, Command, Error, coded, plain, driver, bad_format, cascade_blocked,
  Effects,
}
use mesh_cdn.Command.Executor.{Db}
use mesh_cdn.Command.Handlers.{
  ObjectRow, BindingRow, Tables, Outside, is_placeholder, error, reply, reload,
}

abbrev is_name_char : ℕ → Bool
is_name_char c =
    (leb 0x61 c && leb c 0x7A)
    || (leb 0x41 c && leb c 0x5A)
    || (leb 0x30 c && leb c 0x39)
    || c == 0x2D
    || c == 0x5F

-- isValidObjectName
unfoldable pub is_valid_object_name : Text → Bool
unfolding byte_len
is_valid_object_name s =
    not (ltb (byte_len s) 1 || ltb 64 (byte_len s)) && not (any (λ c. not (is_name_char c)) s)

-- NewError with the message of another error.
abbrev pub recoded : Code → Error → Error
recoded k (coded c m) = coded k m
recoded k (plain m) = coded k m

abbrev pub error_of : {A : Type 0} → Code → Result Error A → Option Error
error_of k (ok a) = none
error_of k (err e) = some (recoded k e)

abbrev pub is_object : Text → Text → ObjectRow → Bool
is_object type name o = same o.type type && same o.name name

abbrev pub is_reference : Text → Text → BindingRow → Bool
is_reference type name b = same b.object_type type && same b.object_name name

-- INSERT … ON CONFLICT(type, name) DO UPDATE.
unfoldable pub upsert_object : ObjectRow → List ObjectRow → List ObjectRow
unfolding same
upsert_object o [] = o ∷ []
upsert_object o (x ∷ xs) =
    let rest = upsert_object o xs in if is_object o.type o.name x then o ∷ xs else x ∷ rest

abbrev pub set_objects : List ObjectRow → Db Tables → Db Tables
set_objects os d = record d { rows = record d.rows { rule_objects = os } }

module _ (out : Outside) where
  -- upsertRuleObject, with the JSON of the parameters.
  unfoldable pub upsert_rule_object :
      Text → Command → Text → Text → Db Tables → Db Tables × Result Error Effects
  unfolding upsert_object
  upsert_rule_object type c json message d = elim (out.write_error type) [
    | some e ↦ (d, err (plain (driver (text "upsert " ++ (type ++ (text ": " ++ e))))))
    | none ↦ (
      set_objects
          (upsert_object
            (record {
              type = type;
              name = c.scope;
              params_text = c.params;
              parsed_json = json;
              version = suc_ℤ d.config_version;
            })
            d.rows.rule_objects)
          d,
      ok (reload message),
    )
  ]

  abbrev object_label : Text → Text → Text
  object_label type name = type ++ (text " 对象 " ++ out.quote name)

  abbrev blocked : Text → Text → List Text → Error
  blocked type name refs = error cascade_blocked (
      object_label type name
      ++ (text " 仍被以下绑定引用: "
          ++ (join (text ", ") (sort_by before refs)
              ++ (text "\n请先解除绑定: /d bind <scope> " ++ (type ++ (text ":" ++ name))))))

  -- The scopes that the object is bound to.
  abbrev pub references : Text → Text → Tables → List Text
  references type name t =
      map (λ (b : BindingRow). b.scope) (filter (is_reference type name) t.bindings)

  -- The statement behind the check of the references, and the reply.
  abbrev pub delete_row : Text → Text → Db Tables → Db Tables × Result Error Effects
  delete_row type name d = elim (out.delete_error type) [
    | some e ↦ (d, err (plain (driver e)))
    | none ↦
        let rest = filter (λ o. not (is_object type name o)) d.rows.rule_objects in
        (
          set_objects rest d,
          ok (
              if length rest == length d.rows.rule_objects
              then reply (object_label type name ++ text " 不存在")
              else reload (object_label type name ++ text " 已删除")),
        )
  ]

  -- deleteRuleObject. A row that cannot be read, and those behind a failure of the iteration, are
  -- passed over.
  unfoldable pub delete_rule_object : Text → Text → Db Tables → Db Tables × Result Error Effects
  unfolding join same
  delete_rule_object type name d = elim (out.select_error type) [
    | some e ↦ (d, err (plain (driver e)))
    | none ↦ elim (filter out.is_read (references type name d.rows)) [
      | r ∷ refs ↦ (d, err (blocked type name (r ∷ refs)))
      | [] ↦ delete_row type name d
    ]
  ]

  -- CacheHandler.Delete, which counts the references, and lists those that it reads.
  unfoldable pub delete_cache : Text → Db Tables → Db Tables × Result Error Effects
  unfolding join same
  delete_cache name d = elim (out.select_error (text "cache")) [
    | some e ↦ (d, err (plain (driver e)))
    | none ↦ elim (references (text "cache") name d.rows) [
      | r ∷ refs ↦ (d, err (blocked (text "cache") name (filter out.is_read (r ∷ refs))))
      | [] ↦ delete_row (text "cache") name d
    ]
  ]

  -- Delete of the handler of a type.
  unfoldable pub delete_object : Text → Text → Db Tables → Db Tables × Result Error Effects
  unfolding delete_cache delete_rule_object same
  delete_object type name d =
      if same type (text "cache") then delete_cache name d else delete_rule_object type name d

  -- validateRuleObject
  unfoldable pub validate_rule_object : Text → (Text → Option Error) → Command → Option Error
  unfolding is_valid_object_name same
  validate_rule_object type special c = elim c.verb [
    | view ↦ none
    | write ↦
        if is_placeholder c.scope
        then some (error bad_format (text "/w " ++ (type ++ text " requires <n> in scope")))
        else if not (is_valid_object_name c.scope)
        then some (
            error bad_format
              (text "invalid " ++ (type ++ (text " object name " ++ out.quote c.scope))))
        else special c.params
    | delete ↦
        if is_placeholder c.scope
        then some (error bad_format (text "/w " ++ (type ++ text " requires <n> in scope")))
        else if not (is_valid_object_name c.scope)
        then some (
            error bad_format
              (text "invalid " ++ (type ++ (text " object name " ++ out.quote c.scope))))
        else none
  ]
