-- ===== src/Command/Handlers/Cases.antt =====
-- The outcomes of the operations of the handlers: what each leaves of the tables, and when.
use mesh_cdn.Base.{
  Bool-cases, Option-cases, Result-cases, Result, length, filter, any, All-of_In, filter-All, Text,
  text, same, same→eq, ℕ, zero, suc, ◌≡◌, refl, sym, ◌∙◌, subst, ◌⊎◌, inl, inr, true, not, none,
  List, [], ◌∷◌, arith, ok,
}
use mesh_cdn.Base.Int.{suc_ℤ}
use mesh_cdn.Command.Types.{Command, Error, Effects}
use mesh_cdn.Command.Executor.{Db}
use mesh_cdn.Command.Handlers.{DomainRow, ObjectRow, BindingRow, Tables, Outside}
use mesh_cdn.Command.Handlers.Scope.{DomainScope, canonicals}
use mesh_cdn.Command.Handlers.Domain.{
  scope_of, numbered, find_conflict, find_foreign, insert_rows, write_domain, delete_rows, on_scope,
  delete_domain,
}
use mesh_cdn.Command.Handlers.Objects.{
  is_object, upsert_object, upsert_rule_object, references, delete_row, delete_rule_object,
  delete_cache, delete_object,
}
use mesh_cdn.Command.Handlers.Bind.{
  displays, upsert_binding, ref_of, write_bind, is_unbound, delete_bind, parse_object_ref,
}

-- The object and the scope of the binding are there.
abbrev pub IsAnchored : List (Text × DomainRow) → List ObjectRow → BindingRow → Type 0
IsAnchored domains objects b =
    (any (is_object b.object_type b.object_name) objects ≡ true)
    × (any (displays b.scope) domains ≡ true)

module _ (out : Outside) where
  -- What Write of the bind handler leaves: the tables, or a binding that is anchored.
  pub write_bind_cases :
      (d : Db Tables) (c : Command)
      → ((write_bind out d c).0.rows ≡ d.rows)
        ⊎ ((x : BindingRow) × ((write_bind out d c).0.rows
              ≡ record d.rows { bindings = upsert_binding x d.rows.bindings })
            × IsAnchored d.rows.domains d.rows.rule_objects x
            × ((x.object_type, x.object_name) ≡ ref_of out c.params))
  unfolding write_bind
  write_bind_cases d c =
      let (type, name) = ref_of out c.params in
      elim (Option-cases (out.select_error type)) [
        | inr (x, e) ↦ inl (ground arith)
        | inl e ↦ elim (Bool-cases (any (is_object type name) d.rows.rule_objects)) [
          | inr o ↦ inl (ground arith)
          | inl o ↦ elim (Option-cases (out.select_error c.scope)) [
            | inr (x, f) ↦ inl (ground arith)
            | inl f ↦ elim (Bool-cases (any (displays c.scope) d.rows.domains)) [
              | inr s ↦ inl (ground arith)
              | inl s ↦ elim (Option-cases (out.write_error c.scope)) [
                | inr (x, w) ↦ inl (ground arith)
                | inl w ↦ inr (
                  record {
                    scope = c.scope;
                    object_type = type;
                    object_name = name;
                    version = suc_ℤ d.config_version;
                  },
                  ground arith,
                  (o, s),
                  refl,
                )
              ]
            ]
          ]
        ]
      ]

  pub delete_bind_cases :
      (d : Db Tables) (c : Command)
      → ((delete_bind out d c).0.rows ≡ d.rows)
        ⊎ ((delete_bind out d c).0.rows
            ≡ record d.rows { bindings = filter (λ b. not (is_unbound out c b)) d.rows.bindings })
  unfolding delete_bind
  delete_bind_cases d c = elim (Result-cases (parse_object_ref out c.params)) [
    | inr (x, e) ↦ inl (ground arith)
    | inl (r, e) ↦ elim (Option-cases (out.delete_error c.scope)) [
      | inr (x, f) ↦ inl (ground arith)
      | inl f ↦ inr (ground arith)
    ]
  ]

  pub write_domain_cases :
      (d : Db Tables) (c : Command)
      → ((write_domain out d c).0.rows ≡ d.rows)
        ⊎ ((sc : DomainScope) × (row : DomainRow) × (row.display_scope ≡ c.scope)
            × (scope_of out c.scope ≡ ok sc)
            × (find_conflict out c.scope (numbered sc) d.rows.domains ≡ none)
            × ((write_domain out d c).0.rows ≡ record d.rows {
              domains = (insert_rows out row (canonicals sc) d.rows.domains).0;
            }))
  unfolding write_domain
  write_domain_cases d c = elim (Result-cases (scope_of out c.scope)) [
    | inr (x, e) ↦ inl (ground arith)
    | inl (sc, e) ↦ elim (Option-cases (find_conflict out c.scope (numbered sc) d.rows.domains)) [
      | inr (x, f) ↦ inl (ground arith)
      | inl f ↦ inr (
        sc,
        record { display_scope = c.scope; origin = c.params; version = suc_ℤ d.config_version },
        refl,
        e,
        f,
        ground arith,
      )
    ]
  ]

  pub delete_domain_cases :
      (d : Db Tables) (c : Command)
      → ((delete_domain out d c).0.rows ≡ d.rows)
        ⊎ ((sc : DomainScope) × (length (filter (on_scope c.scope) d.rows.bindings) ≡ 0)
            × ((delete_domain out d c).0.rows ≡ record d.rows {
              domains = (delete_rows out c.scope (canonicals sc) 0 d.rows.domains).0;
            }))
  unfolding delete_domain
  delete_domain_cases d c = elim (Result-cases (scope_of out c.scope)) [
    | inr (x, e) ↦ inl (ground arith)
    | inl (sc, e) ↦ elim (Option-cases (find_foreign out c.scope (numbered sc) d.rows.domains)) [
      | inr (x, f) ↦ inl (ground arith)
      | inl f ↦ elim (Option-cases (out.select_error c.scope)) [
        | inr (x, g) ↦ inl (ground arith)
        | inl g ↦ go sc e f g (length (filter (on_scope c.scope) d.rows.bindings)) refl
      ]
    ]
  ]
    where
      go :
          (sc : DomainScope)
          → scope_of out c.scope ≡ ok sc
          → find_foreign out c.scope (numbered sc) d.rows.domains ≡ none
          → out.select_error c.scope ≡ none
          → (n : ℕ) → length (filter (on_scope c.scope) d.rows.bindings) ≡ n
          → ((delete_domain out d c).0.rows ≡ d.rows)
            ⊎ ((sc : DomainScope) × (length (filter (on_scope c.scope) d.rows.bindings) ≡ 0)
                × ((delete_domain out d c).0.rows ≡ record d.rows {
                  domains = (delete_rows out c.scope (canonicals sc) 0 d.rows.domains).0;
                }))
      go sc e f g zero z = inr (sc, z, ground arith)
      go sc e f g (suc n) z = inl (ground arith)

  pub upsert_rule_object_cases :
      (type : Text) (c : Command) (json message : Text) (d : Db Tables)
      → ((upsert_rule_object out type c json message d).0.rows ≡ d.rows)
        ⊎ ((o : ObjectRow) × ((upsert_rule_object out type c json message d).0.rows
              ≡ record d.rows { rule_objects = upsert_object o d.rows.rule_objects }))
  unfolding upsert_rule_object
  upsert_rule_object_cases type c json message d = elim (Option-cases (out.write_error type)) [
    | inr (x, e) ↦ inl (ground arith)
    | inl e ↦ inr (
      record {
        type = type;
        name = c.scope;
        params_text = c.params;
        parsed_json = json;
        version = suc_ℤ d.config_version;
      },
      ground arith,
    )
  ]

  abbrev Deleted : Text → Text → Db Tables → Db Tables × Result Error Effects → Type 0
  Deleted type name d run =
      (run.0.rows ≡ d.rows)
      ⊎ ((references out type name d.rows ≡ [])
          × (run.0.rows ≡ record d.rows {
            rule_objects = filter (λ o. not (is_object type name o)) d.rows.rule_objects;
          }))

  delete_row_cases :
      (type name : Text) (d : Db Tables)
      → references out type name d.rows ≡ []
      → Deleted type name d (delete_row out type name d)
  delete_row_cases type name d z = elim (Option-cases (out.delete_error type)) [
    | inr (x, w) ↦ inl (ground arith)
    | inl w ↦ inr (z, ground arith)
  ]

  -- The rows of an iteration are all read.
  abbrev pub ReadsAll : Type 0
  ReadsAll = (s : Text) → out.is_read s ≡ true

  delete_cache_cases :
      (name : Text) (d : Db Tables) → Deleted (text "cache") name d (delete_cache out name d)
  unfolding delete_cache
  delete_cache_cases name d = go (references out (text "cache") name d.rows) refl
    where
      go :
          (refs : List Text)
          → references out (text "cache") name d.rows ≡ refs
          → Deleted (text "cache") name d (delete_cache out name d)
      go [] z = elim (Option-cases (out.select_error (text "cache"))) [
        | inr (x, e) ↦ inl (ground arith)
        | inl e ↦
            let q : delete_cache out name d ≡ delete_row out (text "cache") name d = ground arith in
            subst (Deleted (text "cache") name d) (sym q) (delete_row_cases (text "cache") name d z)
      ]
      go (r ∷ refs) z = inl (ground arith)

  delete_rule_object_cases :
      (type name : Text) (d : Db Tables)
      → ReadsAll
      → Deleted type name d (delete_rule_object out type name d)
  unfolding delete_rule_object
  delete_rule_object_cases type name d whole = go (references out type name d.rows) refl
    where
      read :
          (refs : List Text)
          → references out type name d.rows ≡ refs
          → filter out.is_read (references out type name d.rows) ≡ refs
      read refs z =
          filter-All out.is_read (references out type name d.rows)
            (All-of_In _ (references out type name d.rows) (λ s i. whole s))
          ∙ z

      go :
          (refs : List Text)
          → references out type name d.rows ≡ refs
          → Deleted type name d (delete_rule_object out type name d)
      go [] z = elim (Option-cases (out.select_error type)) [
        | inr (x, e) ↦ inl (ground arith)
        | inl e ↦
            let k = read [] z in
            let q : delete_rule_object out type name d ≡ delete_row out type name d =
              ground arith in
            subst (Deleted type name d) (sym q) (delete_row_cases type name d z)
      ]
      go (r ∷ refs) z = let k = read (r ∷ refs) z in inl (ground arith)

  pub delete_object_cases :
      (type name : Text) (d : Db Tables)
      → ReadsAll
      → Deleted type name d (delete_object out type name d)
  unfolding delete_object
  delete_object_cases type name d whole = elim (Bool-cases (same type (text "cache"))) [
    | inr e ↦ rw e (delete_rule_object_cases type name d whole)
    | inl e ↦ rw e (
        subst (λ k. Deleted k name d (delete_cache out name d))
          (sym (same→eq type (text "cache") e)) (delete_cache_cases name d))
  ]
