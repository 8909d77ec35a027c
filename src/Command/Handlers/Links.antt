-- ===== src/Command/Handlers/Links.antt =====
-- Each binding names an object and a scope that are there, whatever the handlers do.
use mesh_cdn.Base.{
  Bool-cases, length, filter, All, In, In-filter, Text, ℕ, ◌≡◌, sym, subst, ◌⊎◌, inl, inr, Bool,
  false, not, List, [], ◌∷◌, map, arith,
}
use mesh_cdn.Command.Types.{Command}
use mesh_cdn.Command.Executor.{Db}
use mesh_cdn.Command.Handlers.{BindingRow, Tables, Outside}
use mesh_cdn.Command.Handlers.Scope.{DomainScope, canonicals, canonical_scope}
use mesh_cdn.Command.Handlers.Domain.{numbered, write_domain, on_scope, delete_domain}
use mesh_cdn.Command.Handlers.Objects.{is_reference, upsert_rule_object, delete_object}
use mesh_cdn.Command.Handlers.Bind.{upsert_binding, is_binding, write_bind, is_unbound, delete_bind}
use mesh_cdn.Command.Handlers.Cases.{
  IsAnchored, write_bind_cases, delete_bind_cases, write_domain_cases, delete_domain_cases,
  upsert_rule_object_cases, ReadsAll, delete_object_cases,
}
use mesh_cdn.Command.Handlers.Anchors.{
  any-upsert_object, any-deleted_object, IsOwn, find_conflict-IsOwn, insert_rows-displays,
  delete_rows-displays,
}

abbrev pub IsLinked : Tables → Type 0
IsLinked t = (b : BindingRow) → In b t.bindings → IsAnchored t.domains t.rule_objects b

pub upsert_binding-In :
    (b x : BindingRow) (bs : List BindingRow) → In b (upsert_binding x bs) → (b ≡ x) ⊎ In b bs
unfolding upsert_binding
upsert_binding-In b x [] h = elim h [ inl e ↦ inl e | inr i ↦ absurd i ]
upsert_binding-In b x (y ∷ bs) h =
    elim (Bool-cases (is_binding x.scope x.object_type x.object_name y)) [
      | inl e ↦ elim (rw e at h) [ inl q ↦ inl q | inr i ↦ inr (inr i) ]
      | inr e ↦ elim (rw e at h) [
        | inl q ↦ inr (inl q)
        | inr i ↦ elim (upsert_binding-In b x bs i) [ inl q ↦ inl q | inr j ↦ inr (inr j) ]
      ]
    ]

pub All-numbered :
    (P : Text → Type 0) (sc : DomainScope) (ps : List ℕ)
    → All (λ (e : ℕ × Text). P e.1) (map (λ p. (p, canonical_scope sc.proto sc.host p)) ps)
    → All P (map (canonical_scope sc.proto sc.host) ps)
All-numbered P sc [] h = tt
All-numbered P sc (p ∷ ps) h = (h.0, All-numbered P sc ps h.1)

pub none_pass :
    {A : Type 0} (p : A → Bool) (a : A) (xs : List A)
    → length (filter p xs) ≡ 0
    → In a xs
    → p a ≡ false
none_pass p a [] z m = absurd m
none_pass p a (x ∷ xs) z (inl e) = elim (Bool-cases (p x)) [
  | inl t ↦ absurd (ground arith)
  | inr f ↦ rw e f
]
none_pass p a (x ∷ xs) z (inr m) = none_pass p a xs (ground arith) m

none_listed :
    {A B : Type 0} (f : A → B) (p : A → Bool) (a : A) (xs : List A)
    → map f (filter p xs) ≡ []
    → In a xs
    → p a ≡ false
none_listed f p a [] z m = absurd m
none_listed f p a (x ∷ xs) z m = elim (Bool-cases (p x)) [
  | inl t ↦ absurd (ground arith)
  | inr e ↦ elim m [ inl q ↦ rw q e | inr i ↦ none_listed f p a xs (ground arith) i ]
]

module _ (out : Outside) where
  pub write_bind-IsLinked :
      (d : Db Tables) (c : Command) → IsLinked d.rows → IsLinked (write_bind out d c).0.rows
  write_bind-IsLinked d c h = elim (write_bind_cases out d c) [
    | inl q ↦ subst IsLinked (sym q) h
    | inr (x, q, a, r) ↦ subst IsLinked (sym q) (λ b m.
        elim (upsert_binding-In b x d.rows.bindings m) [
          | inl e ↦ subst (IsAnchored d.rows.domains d.rows.rule_objects) (sym e) a
          | inr i ↦ h b i
        ])
  ]

  pub delete_bind-IsLinked :
      (d : Db Tables) (c : Command) → IsLinked d.rows → IsLinked (delete_bind out d c).0.rows
  delete_bind-IsLinked d c h = elim (delete_bind_cases out d c) [
    | inl q ↦ subst IsLinked (sym q) h
    | inr q ↦
        subst IsLinked (sym q)
          (λ b m. h b (In-filter (λ x. not (is_unbound out c x)) b d.rows.bindings m).0)
  ]

  pub write_domain-IsLinked :
      (d : Db Tables) (c : Command) → IsLinked d.rows → IsLinked (write_domain out d c).0.rows
  write_domain-IsLinked d c h = elim (write_domain_cases out d c) [
    | inl q ↦ subst IsLinked (sym q) h
    | inr (sc, row, e, s, f, q) ↦
        let free = find_conflict-IsOwn out c.scope (numbered sc) d.rows.domains f in
        let own = All-numbered (IsOwn d.rows.domains c.scope) sc sc.ports free in
        subst IsLinked (sym q) (λ b m. (
          (h b m).0,
          insert_rows-displays out row b.scope (canonicals sc) d.rows.domains
              (subst (λ s. All (IsOwn d.rows.domains s) (canonicals sc)) (sym e) own) (h b m).1,
        ))
  ]

  pub delete_domain-IsLinked :
      (d : Db Tables) (c : Command) → IsLinked d.rows → IsLinked (delete_domain out d c).0.rows
  delete_domain-IsLinked d c h = elim (delete_domain_cases out d c) [
    | inl q ↦ subst IsLinked (sym q) h
    | inr (sc, z, q) ↦ subst IsLinked (sym q) (λ b m. (
      (h b m).0,
      delete_rows-displays out c.scope b.scope (canonicals sc) 0 d.rows.domains
          (none_pass (on_scope c.scope) b d.rows.bindings z m) (h b m).1,
    ))
  ]

  pub upsert_rule_object-IsLinked :
      (type : Text) (c : Command) (json message : Text) (d : Db Tables)
      → IsLinked d.rows
      → IsLinked (upsert_rule_object out type c json message d).0.rows
  upsert_rule_object-IsLinked type c json message d h =
      elim (upsert_rule_object_cases out type c json message d) [
        | inl q ↦ subst IsLinked (sym q) h
        | inr (o, q) ↦ subst IsLinked (sym q) (λ b m. (
          any-upsert_object o b.object_type b.object_name d.rows.rule_objects (h b m).0,
          (h b m).1,
        ))
      ]

  pub delete_object-IsLinked :
      (type name : Text) (d : Db Tables)
      → ReadsAll out
      → IsLinked d.rows
      → IsLinked (delete_object out type name d).0.rows
  delete_object-IsLinked type name d whole h = elim (delete_object_cases out type name d whole) [
    | inl q ↦ subst IsLinked (sym q) h
    | inr (z, q) ↦ subst IsLinked (sym q) (λ b m. (
      any-deleted_object type name b.object_type b.object_name d.rows.rule_objects
          (none_listed (λ (x : BindingRow). x.scope) (is_reference type name) b d.rows.bindings z m)
          (h b m).0,
      (h b m).1,
    ))
  ]
