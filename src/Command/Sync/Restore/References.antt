-- ===== src/Command/Sync/Restore/References.antt =====
-- What Validate and Write of the bind handler make of a binding that an export wrote.
use mesh_cdn.Base.{
  Bool-cases, any, In, Text, text, same, same→eq, cut, is_space, ◌≡◌, refl, sym, ap, ◌∙◌, subst,
  ◌≢◌, ◌⊎◌, inl, inr, true, none, List, [], ◌∷◌, ◌++◌, arith, ok,
}
use mesh_cdn.Base.Int.{suc_ℤ}
use mesh_cdn.Base.Words.{is_space-IsWord, IsWord}
use mesh_cdn.Command.Types.{write, Command}
use mesh_cdn.Command.Executor.{Db}
use mesh_cdn.Command.Handlers.{BindingRow, Tables, Outside, reload}
use mesh_cdn.Command.Handlers.Scope.{DomainScope, match_proto, match_scope, parse_domain_scope}
use mesh_cdn.Command.Handlers.Domain.{scope_of}
use mesh_cdn.Command.Handlers.Objects.{is_valid_object_name}
use mesh_cdn.Command.Handlers.Bind.{
  displays, is_known_object_type, is_binding, set_bindings, upsert_binding, parse_object_ref,
  validate_bind, write_bind,
}
use mesh_cdn.Command.Handlers.Cases.{IsAnchored}
use mesh_cdn.Command.Sync.Restore.{binding_content}

pub In-upsert_binding_self : (b : BindingRow) (xs : List BindingRow) → In b (upsert_binding b xs)
unfolding upsert_binding
In-upsert_binding_self b [] = inl refl
In-upsert_binding_self b (y ∷ xs) =
    elim (Bool-cases (is_binding b.scope b.object_type b.object_name y)) [
      | inl e ↦ rw e (inl refl)
      | inr e ↦ rw e (inr (In-upsert_binding_self b xs))
    ]

same_content :
    (b x : BindingRow)
    → is_binding b.scope b.object_type b.object_name x ≡ true
    → binding_content b ≡ binding_content x
same_content b x h =
    let e = same→eq x.scope b.scope (ground arith) in
    let f = same→eq x.object_type b.object_type (ground arith) in
    let g = same→eq x.object_name b.object_name (ground arith) in cc

-- A row stays, or one with the same content takes its place.
pub In-upsert_binding :
    (b x : BindingRow) (xs : List BindingRow)
    → In x xs
    → (y : BindingRow) × In y (upsert_binding b xs) × (binding_content y ≡ binding_content x)
unfolding upsert_binding
In-upsert_binding b x [] i = absurd i
In-upsert_binding b x (y ∷ xs) i =
    elim (Bool-cases (is_binding b.scope b.object_type b.object_name y)) [
      | inl e ↦ elim i [
        | inl q ↦ (b, rw e (inl refl), same_content b x (ground (arith, e, q)))
        | inr j ↦ (x, rw e (inr j), refl)
      ]
      | inr e ↦ elim i [
        | inl q ↦ (x, rw e (inl q), refl)
        | inr j ↦ let (z, k, r) = In-upsert_binding b x xs j in (z, rw e (inr k), r)
      ]
    ]

known_cases :
    (t : Text)
    → is_known_object_type t ≡ true
    → (t ≡ text "cache") ⊎ (t ≡ text "defense") ⊎ (t ≡ text "redirect") ⊎ (t ≡ text "header")
known_cases t h = elim (Bool-cases (same t (text "cache"))) [
  | inl e ↦ inl (same→eq t (text "cache") e)
  | inr e ↦ elim (Bool-cases (same t (text "defense"))) [
    | inl f ↦ inr (inl (same→eq t (text "defense") f))
    | inr f ↦ elim (Bool-cases (same t (text "redirect"))) [
      | inl g ↦ inr (inr (inl (same→eq t (text "redirect") g)))
      | inr g ↦ inr (inr (inr (same→eq t (text "header") (ground arith))))
    ]
  ]
]

module _ (out : Outside) where
  -- The reference that the exporter prints is read as the type and the name.
  pub parse_object_ref-known :
      (t name : Text)
      → is_known_object_type t ≡ true
      → name ≢ []
      → (parse_object_ref out (t ++ (text ":" ++ name)) ≡ ok (t, name)) × IsWord t
  unfolding parse_object_ref cut same is_space
  parse_object_ref-known t [] h n = absurd (n refl)
  parse_object_ref-known t (c ∷ name) h n = elim (known_cases t h) [
    | inl e ↦ rw e (refl, is_space-IsWord _ _ refl)
    | inr r ↦ elim r [
      | inl e ↦ rw e (refl, is_space-IsWord _ _ refl)
      | inr r2 ↦ elim r2 [
        | inl e ↦ rw e (refl, is_space-IsWord _ _ refl)
        | inr e ↦ rw e (refl, is_space-IsWord _ _ refl)
      ]
    ]
  ]

  placeholder_no_scope : (sc : DomainScope) → scope_of out (text "-") ≢ ok sc
  unfolding parse_domain_scope match_scope match_proto
  placeholder_no_scope sc h = cc

  -- The line is accepted, if its scope is one and its type and its name are valid.
  pub validate_bind-known :
      (c : Command) (sc : DomainScope) (t name : Text)
      → c.verb ≡ write
      → scope_of out c.scope ≡ ok sc
      → parse_object_ref out c.params ≡ ok (t, name)
      → t ≢ []
      → is_known_object_type t ≡ true
      → is_valid_object_name name ≡ true
      → validate_bind out c ≡ none
  unfolding validate_bind
  validate_bind-known c sc [] name v s r n k i = absurd (n refl)
  validate_bind-known c sc (x ∷ t) name v s r n k i = elim (Bool-cases (same c.scope (text "-"))) [
    | inl e ↦
        absurd
          (placeholder_no_scope sc (ap (scope_of out) (sym (same→eq c.scope (text "-") e)) ∙ s))
    | inr e ↦ ground (arith, v, s, r, k, i, e)
  ]

  pub write_bind-anchored :
      (d : Db Tables) (c : Command) (b : BindingRow)
      → ((s : Text) → out.select_error s ≡ none)
      → ((s : Text) → out.write_error s ≡ none)
      → parse_object_ref out c.params ≡ ok (b.object_type, b.object_name)
      → c.scope ≡ b.scope
      → IsAnchored d.rows.domains d.rows.rule_objects b
      → (x : BindingRow) × (message : Text) × (binding_content x ≡ binding_content b)
        × (write_bind out d c
            ≡ (set_bindings (upsert_binding x d.rows.bindings) d, ok (reload message)))
  unfolding write_bind
  write_bind-anchored d c b selects writes r s h = (
    record {
      scope = c.scope;
      object_type = b.object_type;
      object_name = b.object_name;
      version = suc_ℤ d.config_version;
    },
    text "已绑定: " ++ (c.scope ++ (text " → " ++ (b.object_type ++ (text ":" ++ b.object_name)))),
    ap (λ z. (z, b.object_type, b.object_name)) s,
    ground (
      arith,
      r,
      selects b.object_type,
      selects c.scope,
      writes c.scope,
      h.0,
      subst (λ z. any (displays z) d.rows.domains ≡ true) (sym s) h.1,
    ),
  )
