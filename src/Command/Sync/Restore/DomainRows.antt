-- ===== src/Command/Sync/Restore/DomainRows.antt =====
-- Writes and deletes of scopes leave each scope with all its rows, if no statement fails.
use mesh_cdn.Base.{
  Bool-cases, Option-cases, some-injective, none-ne-some, ok-injective, Result-cases, length,
  filter, In, In-filter, Text, same, same→eq, eq→same, ℕ, ◌+◌, ◌-◌, ◌≡◌, refl, sym, ap, ◌∙◌, subst,
  ◌≢◌, ◌⊎◌, inl, inr, not, Option, none, some, List, [], ◌∷◌, arith, ok,
}
use mesh_cdn.Base.Table.{get, DistinctKeys, In-get, get-In}
use mesh_cdn.Command.Types.{write, Command, Error}
use mesh_cdn.Command.Executor.{Db}
use mesh_cdn.Command.Handlers.{DomainRow, Tables, Outside}
use mesh_cdn.Command.Handlers.Scope.{DomainScope, canonicals}
use mesh_cdn.Command.Handlers.Domain.{
  Domains, scope_of, is_row, delete_rows, validate_domain, write_domain, delete_domain,
}
use mesh_cdn.Command.Handlers.Cases.{delete_domain_cases}
use mesh_cdn.Command.Handlers.Ownership.{row_of, write_domain-Wrote}
use mesh_cdn.Command.Handlers.Removal.{delete_domain-Removed}
use mesh_cdn.Command.Sync.Restore.{IsWhole, IsAcceptedRow, AllWhole}
use mesh_cdn.Command.Sync.Restore.DomainLines.{In_cases}
use mesh_cdn.Command.Sync.Restore.Spelling.{IsSpelled, validate_domain-spelled}
use mesh_cdn.Command.Sync.Restore.Origins.{validate_domain-IsWord}

module _ (out : Outside) where
  -- The rows of a scope are new or gone, and those of other scopes are as before.
  AllWhole-changed :
      (m new : Domains) (scope : Text) (sc : DomainScope)
      → scope_of out scope ≡ ok sc
      → ((k : Text) (old : DomainRow)
          → get k m ≡ some old
          → old.display_scope ≢ scope
          → get k new ≡ some old)
      → ((k : Text) (row : DomainRow)
          → get k new ≡ some row
          → ((get k m ≡ some row) × (¬ In k (canonicals sc)))
            ⊎ (IsWhole out new k row × IsAcceptedRow out row))
      → AllWhole out m
      → AllWhole out new
  AllWhole-changed m new scope sc s foreign cases h k row g = elim (cases k row g) [
    | inr w ↦ w
    | inl (g2, n) ↦
        let ((sc2, s2, i, all), accepted) = h k row g2 in
        (
          (
            sc2,
            s2,
            i,
            λ j ij.
                let (r, e, l) = all j ij in
                elim (Bool-cases (same r.display_scope scope)) [
                  | inr b ↦ (
                    r,
                    foreign j r e (λ q. ground (arith, b, eq→same r.display_scope scope q)),
                    l,
                  )
                  | inl b ↦
                      let q : row.display_scope ≡ scope = l.0 ∙ same→eq r.display_scope scope b in
                      let z : sc2 ≡ sc = ok-injective (sym s2 ∙ ap (scope_of out) q ∙ s) in
                      absurd (n (subst (λ x. In k (canonicals x)) z i))
                ],
          ),
          accepted,
        )
  ]

  pub write_domain-AllWhole :
      (d : Db Tables) (c : Command)
      → ((k : Text) → out.write_error k ≡ none)
      → IsSpelled c
      → c.verb ≡ write
      → validate_domain out c ≡ none
      → AllWhole out d.rows.domains
      → AllWhole out (write_domain out d c).0.rows.domains
  write_domain-AllWhole d c writes words v valid h =
      let wrote = write_domain-Wrote out d c in
      let new = (write_domain out d c).0.rows.domains in
      elim (Result-cases (write_domain out d c).1) [
        | inr (x, e) ↦
            subst (λ (y : Db Tables). AllWhole out y.rows.domains) (sym (wrote.refused x writes e))
              h
        | inl (eff, e) ↦
            let (sc, s, q, there, apart) = wrote.stored eff e in
            let accepted : IsAcceptedRow out (row_of d c) = (
              words.1,
              validate_domain-IsWord out c v valid,
              validate_domain-spelled out c v valid,
            ) in
            AllWhole-changed d.rows.domains new c.scope sc s wrote.foreign
              (λ k row g. elim (In_cases k (canonicals sc)) [
                | inr n ↦ inl (sym (apart k n) ∙ g, n)
                | inl i ↦ inr (
                    subst (λ r. IsWhole out new k r × IsAcceptedRow out r)
                      (some-injective (sym (there k i) ∙ g))
                      ((sc, s, i, λ j ij. (row_of d c, there j ij, (refl, refl))), accepted))
              ])
              h
      ]

  delete_rows-In :
      (display : Text) (ks : List Text) (n : ℕ) (m : Domains) (e : Text × DomainRow)
      → In e (delete_rows out display ks n m).0
      → In e m
  unfolding delete_rows
  delete_rows-In display [] n m e h = h
  delete_rows-In display (k ∷ ks) n m e h = elim (Option-cases (out.delete_error k)) [
    | inr (x, w) ↦
        let q : (delete_rows out display (k ∷ ks) n m).0 ≡ m = ground arith in subst (In e) q h
    | inl w ↦
        let fewer = filter (λ e. not (is_row k display e)) m in
        let q : delete_rows out display (k ∷ ks) n m
            ≡ delete_rows out display ks (n + (length m - length fewer)) fewer =
          ground arith in
        (In-filter (λ e. not (is_row k display e)) e m
          (delete_rows-In display ks (n + (length m - length fewer)) fewer e
            (subst (λ (r : Domains × ℕ × Option Error). In e r.0) q h))).0
  ]

  delete_domain-In :
      (d : Db Tables) (c : Command) (e : Text × DomainRow)
      → In e (delete_domain out d c).0.rows.domains
      → In e d.rows.domains
  delete_domain-In d c e h = elim (delete_domain_cases out d c) [
    | inl q ↦ subst (λ (t : Tables). In e t.domains) q h
    | inr (sc, z, q) ↦
        delete_rows-In c.scope (canonicals sc) 0 d.rows.domains e
          (subst (λ (t : Tables). In e t.domains) q h)
  ]

  pub delete_domain-AllWhole :
      (d : Db Tables) (c : Command)
      → ((k : Text) → out.delete_error k ≡ none)
      → DistinctKeys d.rows.domains
      → AllWhole out d.rows.domains
      → AllWhole out (delete_domain out d c).0.rows.domains
  delete_domain-AllWhole d c deletes u h =
      let removed = delete_domain-Removed out d c u in
      let new = (delete_domain out d c).0.rows.domains in
      elim (Result-cases (delete_domain out d c).1) [
        | inr (x, e) ↦
            subst (λ (y : Db Tables). AllWhole out y.rows.domains)
              (sym (removed.refused x deletes e)) h
        | inl (eff, e) ↦
            let (unbound, gone) = removed.gone eff e in
            let (sc, s, free) = gone in
            AllWhole-changed d.rows.domains new c.scope sc s removed.foreign
              (λ k row g. inl (
                get-In k row d.rows.domains u (delete_domain-In d c (k, row) (In-get k row new g)),
                λ i. none-ne-some (sym (free k i) ∙ g),
              ))
              h
      ]
