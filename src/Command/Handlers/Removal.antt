-- ===== src/Command/Handlers/Removal.antt =====
-- Delete of the domain handler: which rows it deletes, and when it refuses.
use mesh_cdn.Base.{
  Option-cases, Result-cases, Result, length, filter, All, In, Text, text, eq→same, ℕ, zero, suc,
  ◌≡◌, refl, sym, subst, ◌≢◌, ◌⊎◌, inl, inr, Option, none, some, ◌++◌, arith, ok, err,
}
use mesh_cdn.Base.Table.{get, DistinctKeys}
use mesh_cdn.Command.Types.{Command, Error, plain, driver, bad_format, Effects}
use mesh_cdn.Command.Executor.{Db}
use mesh_cdn.Command.Handlers.{DomainRow, BindingRow, Tables, Outside, error}
use mesh_cdn.Command.Handlers.Scope.{DomainScope, canonicals}
use mesh_cdn.Command.Handlers.Domain.{
  Domains, set_domains, scope_of, numbered, find_foreign, delete_rows, on_scope, delete_domain,
  deleted, referred,
}
use mesh_cdn.Command.Handlers.Anchors.{IsOwn, find_conflict-IsOwn}
use mesh_cdn.Command.Handlers.Links.{All-numbered, none_pass}
use mesh_cdn.Command.Handlers.Deletions.{
  find_foreign-none, delete_rows-foreign, delete_rows-done, delete_rows-free,
}

module _ (out : Outside) where
  abbrev ended : Option Error → Text → ℕ → Result Error Effects
  ended failed scope n = elim failed [ some e ↦ err e | none ↦ ok (deleted scope n) ]

  abbrev loop : Db Tables → Command → DomainScope → Domains × ℕ × Option Error
  loop d c sc = delete_rows out c.scope (canonicals sc) 0 d.rows.domains

  -- Delete is refused before it changes anything, or it runs the statements for each port.
  delete_domain_runs :
      (d : Db Tables) (c : Command)
      → ((e : Error) × (delete_domain out d c ≡ (d, err e)))
        ⊎ ((sc : DomainScope) × (scope_of out c.scope ≡ ok sc)
            × All (IsOwn d.rows.domains c.scope) (canonicals sc)
            × (length (filter (on_scope c.scope) d.rows.bindings) ≡ 0)
            × (delete_domain out d c
                ≡ (set_domains (loop d c sc).0 d, ended (loop d c sc).2 c.scope (loop d c sc).1)))
  unfolding delete_domain
  delete_domain_runs d c = elim (Result-cases (scope_of out c.scope)) [
    | inr (x, e) ↦ inl (error bad_format x, ground arith)
    | inl (sc, e) ↦ elim (Option-cases (find_foreign out c.scope (numbered sc) d.rows.domains)) [
      | inr (x, f) ↦ inl (x, ground arith)
      | inl f ↦ elim (Option-cases (out.select_error c.scope)) [
        | inr (x, g) ↦ inl (plain (driver (text "check bindings: " ++ x)), ground arith)
        | inl g ↦ go sc e f g (length (filter (on_scope c.scope) d.rows.bindings)) refl
      ]
    ]
  ]
    where
      go :
          (sc : DomainScope)
          → scope_of out c.scope ≡ ok sc
          → find_foreign out c.scope (numbered sc) d.rows.domains ≡ none
          → out.select_error c.scope ≡ none
          → (n : ℕ) → length (filter (on_scope c.scope) d.rows.bindings) ≡ n
          → ((e : Error) × (delete_domain out d c ≡ (d, err e)))
            ⊎ ((sc : DomainScope) × (scope_of out c.scope ≡ ok sc)
                × All (IsOwn d.rows.domains c.scope) (canonicals sc)
                × (length (filter (on_scope c.scope) d.rows.bindings) ≡ 0)
                × (delete_domain out d c ≡ (
                  set_domains (loop d c sc).0 d,
                  ended (loop d c sc).2 c.scope (loop d c sc).1,
                )))
      go sc e f g zero z = inr (
        sc,
        e,
        All-numbered (IsOwn d.rows.domains c.scope) sc sc.ports (
            find_conflict-IsOwn out c.scope (numbered sc) d.rows.domains
              (find_foreign-none out c.scope (numbered sc) d.rows.domains f)),
        z,
        ground arith,
      )
      go sc e f g (suc n) z = inl (referred c n, ground arith)

  -- What Delete of the domain handler promises of its result.
  pub record Removed (d : Db Tables) (c : Command) (r : Db Tables × Result Error Effects)
      : Type 0 where
    pub only_domains : r.0 ≡ set_domains r.0.rows.domains d
    pub foreign :
        (k : Text) (old : DomainRow)
        → get k d.rows.domains ≡ some old
        → old.display_scope ≢ c.scope
        → get k r.0.rows.domains ≡ some old
    pub gone :
        (eff : Effects)
        → r.1 ≡ ok eff
        → ((b : BindingRow) → In b d.rows.bindings → b.scope ≢ c.scope)
          × ((sc : DomainScope) × (scope_of out c.scope ≡ ok sc)
              × ((k : Text) → In k (canonicals sc) → get k r.0.rows.domains ≡ none))
    pub refused : (e : Error) → ((k : Text) → out.delete_error k ≡ none) → r.1 ≡ err e → r.0 ≡ d

  -- If no key stands in two rows of `domains`, Delete of the domain handler changes no table but
  -- `domains`, and no row of another scope, even if a statement fails. If it succeeds, no binding
  -- was on the scope, and none of its ports has a row any more. If it fails and no deletion failed,
  -- nothing has changed.
  pub delete_domain-Removed :
      (d : Db Tables) (c : Command)
      → DistinctKeys d.rows.domains
      → Removed d c (delete_domain out d c)
  delete_domain-Removed d c u = elim (delete_domain_runs d c) [
    | inl (e, q) ↦ subst (Removed d c) (sym q) (record {
      only_domains = refl;
      foreign = λ k old g n. g;
      gone = λ eff z. absurd (ground arith);
      refused = λ x w z. refl;
    })
    | inr (sc, s, own, b, q) ↦ subst (Removed d c) (sym q) (record {
      only_domains = refl;
      foreign =
          λ k old g n. delete_rows-foreign out c.scope k old (canonicals sc) 0 d.rows.domains g n;
      gone = λ eff z. elim (Option-cases (loop d c sc).2) [
        | inr (x, f) ↦ absurd (ground arith)
        | inl f ↦ (
          λ x i e.
              let o = none_pass (on_scope c.scope) x d.rows.bindings b i in
              ground (arith, eq→same x.scope c.scope e),
          (sc, s, λ k i. delete_rows-free out c.scope k (canonicals sc) d.rows.domains u own f i),
        )
      ];
      refused = λ x w z.
          let f = delete_rows-done out c.scope (canonicals sc) 0 d.rows.domains w in
          absurd (ground arith);
    })
  ]
