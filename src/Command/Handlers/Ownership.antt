-- ===== src/Command/Handlers/Ownership.antt =====
-- Write of the domain handler: which ports it takes, and whose it leaves alone.
use mesh_cdn.Base.{
  Bool-cases, Option-cases, none-ne-some, Result-cases, Result, All, In, All-map, Text, text, same,
  same→eq, eq→same, ◌≡◌, refl, sym, ap, ◌∙◌, subst, ◌≢◌, ◌⊎◌, inl, inr, Option, none, some, List,
  [], ◌∷◌, ◌++◌, arith, ok, err,
}
use mesh_cdn.Base.Int.{suc_ℤ}
use mesh_cdn.Base.Table.{get, put, get-put_self, get-put_ne}
use mesh_cdn.Command.Types.{Command, Error, plain, driver, bad_format, Effects}
use mesh_cdn.Command.Executor.{Db}
use mesh_cdn.Command.Handlers.{DomainRow, Tables, Outside, error}
use mesh_cdn.Command.Handlers.Scope.{DomainScope, canonicals}
use mesh_cdn.Command.Handlers.Domain.{
  Domains, set_domains, scope_of, numbered, find_conflict, insert_rows, write_domain, written,
}
use mesh_cdn.Command.Handlers.Anchors.{IsOwn, find_conflict-IsOwn, put-IsOwn}
use mesh_cdn.Command.Handlers.Links.{All-numbered}

abbrev pub row_of : Db Tables → Command → DomainRow
row_of d c = record { display_scope = c.scope; origin = c.params; version = suc_ℤ d.config_version }

module _ (out : Outside) where
  insert_rows-put :
      (row : DomainRow) (k : Text) (ks : List Text) (m : Domains)
      → out.write_error k ≡ none
      → insert_rows out row (k ∷ ks) m ≡ insert_rows out row ks (put k row m)
  unfolding insert_rows
  insert_rows-put row k ks m e = ground arith

  insert_rows-stop :
      (row : DomainRow) (k x : Text) (ks : List Text) (m : Domains)
      → out.write_error k ≡ some x
      → (e : Error) × (insert_rows out row (k ∷ ks) m ≡ (m, some e))
  unfolding insert_rows
  insert_rows-stop row k x ks m e = (plain (driver (text "insert domain row: " ++ x)), ground arith)

  -- No other key changes.
  insert_rows-apart :
      (row : DomainRow) (j : Text) (ks : List Text) (m : Domains)
      → ¬ In j ks
      → get j (insert_rows out row ks m).0 ≡ get j m
  unfolding insert_rows
  insert_rows-apart row j [] m n = refl
  insert_rows-apart row j (k ∷ ks) m n = elim (Option-cases (out.write_error k)) [
    | inr (x, e) ↦ rw ((insert_rows-stop row k x ks m e).1) refl
    | inl e ↦ rw (insert_rows-put row k ks m e) (
        insert_rows-apart row j ks (put k row m) (λ i. n (inr i))
        ∙ get-put_ne k j row m (λ q. n (inl (sym q))))
  ]

  -- The row of another scope stays.
  insert_rows-foreign :
      (row old : DomainRow) (j : Text) (ks : List Text) (m : Domains)
      → All (IsOwn m row.display_scope) ks
      → get j m ≡ some old
      → old.display_scope ≢ row.display_scope
      → get j (insert_rows out row ks m).0 ≡ some old
  unfolding insert_rows
  insert_rows-foreign row old j [] m own g n = g
  insert_rows-foreign row old j (k ∷ ks) m own g n = elim (Option-cases (out.write_error k)) [
    | inr (x, e) ↦ rw ((insert_rows-stop row k x ks m e).1) g
    | inl e ↦ rw (insert_rows-put row k ks m e) (
        insert_rows-foreign row old j ks (put k row m)
          (All-map (IsOwn m row.display_scope) (IsOwn (put k row m) row.display_scope) ks
            (λ i o. put-IsOwn out row k i m o) own.1)
          (get-put_ne k j row m (λ q. n (own.0 old (subst (λ i. get i m ≡ some old) (sym q) g)))
            ∙ g)
          n)
  ]

  insert_rows-stays :
      (row : DomainRow) (j : Text) (ks : List Text) (m : Domains)
      → get j m ≡ some row
      → get j (insert_rows out row ks m).0 ≡ some row
  unfolding insert_rows
  insert_rows-stays row j [] m g = g
  insert_rows-stays row j (k ∷ ks) m g = elim (Option-cases (out.write_error k)) [
    | inr (x, e) ↦ rw ((insert_rows-stop row k x ks m e).1) g
    | inl e ↦ rw (insert_rows-put row k ks m e) (
        insert_rows-stays row j ks (put k row m) (elim (Bool-cases (same k j)) [
          | inl q ↦
              subst (λ i. get i (put k row m) ≡ some row) (same→eq k j q) (get-put_self k row m)
          | inr q ↦ get-put_ne k j row m (λ z. ground (arith, eq→same k j z)) ∙ g
        ]))
  ]

  -- If no statement fails, each row is there.
  insert_rows-stored :
      (row : DomainRow) (j : Text) (ks : List Text) (m : Domains)
      → (insert_rows out row ks m).1 ≡ none
      → In j ks
      → get j (insert_rows out row ks m).0 ≡ some row
  unfolding insert_rows
  insert_rows-stored row j [] m z i = absurd i
  insert_rows-stored row j (k ∷ ks) m z i = elim (Option-cases (out.write_error k)) [
    | inr (x, e) ↦ absurd (none-ne-some (sym z ∙ ap (λ r. r.1) (insert_rows-stop row k x ks m e).1))
    | inl e ↦ rw (insert_rows-put row k ks m e) (elim i [
      | inl q ↦ insert_rows-stays row j ks (put k row m) (rw q (get-put_self k row m))
      | inr r ↦
          insert_rows-stored row j ks (put k row m)
            (ap (λ x. x.1) (sym (insert_rows-put row k ks m e)) ∙ z) r
    ])
  ]

  abbrev ended : Option Error → Effects → Result Error Effects
  ended failed eff = elim failed [ some e ↦ err e | none ↦ ok eff ]

  -- Write is refused before it changes anything, or it runs the statements for each port.
  write_domain_runs :
      (d : Db Tables) (c : Command)
      → ((e : Error) × (write_domain out d c ≡ (d, err e)))
        ⊎ ((sc : DomainScope) × (scope_of out c.scope ≡ ok sc)
            × All (IsOwn d.rows.domains c.scope) (canonicals sc)
            × (write_domain out d c ≡ (
              set_domains (insert_rows out (row_of d c) (canonicals sc) d.rows.domains).0 d,
              ended
                  (insert_rows out (row_of d c) (canonicals sc) d.rows.domains).1
                  (written sc c.params),
            )))
  unfolding write_domain
  write_domain_runs d c = elim (Result-cases (scope_of out c.scope)) [
    | inr (x, e) ↦ inl (error bad_format x, ground arith)
    | inl (sc, e) ↦ elim (Option-cases (find_conflict out c.scope (numbered sc) d.rows.domains)) [
      | inr (x, f) ↦ inl (x, ground arith)
      | inl f ↦ inr (
        sc,
        e,
        All-numbered (IsOwn d.rows.domains c.scope) sc sc.ports
            (find_conflict-IsOwn out c.scope (numbered sc) d.rows.domains f),
        ground arith,
      )
    ]
  ]

  -- What Write of the domain handler promises of its result.
  pub record Wrote (d : Db Tables) (c : Command) (r : Db Tables × Result Error Effects)
      : Type 0 where
    pub only_domains : r.0 ≡ set_domains r.0.rows.domains d
    pub foreign :
        (k : Text) (old : DomainRow)
        → get k d.rows.domains ≡ some old
        → old.display_scope ≢ c.scope
        → get k r.0.rows.domains ≡ some old
    pub stored :
        (eff : Effects)
        → r.1 ≡ ok eff
        → (sc : DomainScope) × (scope_of out c.scope ≡ ok sc)
          × (eff ≡ written sc c.params)
          × ((k : Text) → In k (canonicals sc) → get k r.0.rows.domains ≡ some (row_of d c))
          × ((k : Text) → ¬ In k (canonicals sc) → get k r.0.rows.domains ≡ get k d.rows.domains)
    pub refused : (e : Error) → ((k : Text) → out.write_error k ≡ none) → r.1 ≡ err e → r.0 ≡ d

  pub insert_rows-done :
      (row : DomainRow) (ks : List Text) (m : Domains)
      → ((k : Text) → out.write_error k ≡ none)
      → (insert_rows out row ks m).1 ≡ none
  unfolding insert_rows
  insert_rows-done row [] m h = refl
  insert_rows-done row (k ∷ ks) m h =
      rw (insert_rows-put row k ks m (h k)) (insert_rows-done row ks (put k row m) h)

  -- Write of the domain handler changes no table but `domains`, and no row of another scope, even
  -- if a statement fails. If it succeeds, each port of the scope has the row with the new origin,
  -- no other key has changed, and the ports are reported for the check of protocols. If it fails
  -- and no insertion failed, nothing has changed.
  pub write_domain-Wrote : (d : Db Tables) (c : Command) → Wrote d c (write_domain out d c)
  write_domain-Wrote d c = elim (write_domain_runs d c) [
    | inl (e, q) ↦ subst (Wrote d c) (sym q) (record {
      only_domains = refl;
      foreign = λ k old g n. g;
      stored = λ eff z. absurd (ground arith);
      refused = λ x w z. refl;
    })
    | inr (sc, s, own, q) ↦
        let ins = insert_rows out (row_of d c) (canonicals sc) d.rows.domains in
        subst (Wrote d c) (sym q) (record {
          only_domains = refl;
          foreign = λ k old g n.
              insert_rows-foreign (row_of d c) old k (canonicals sc) d.rows.domains own g n;
          stored = λ eff z. elim (Option-cases ins.1) [
            | inr (x, f) ↦ absurd (ground arith)
            | inl f ↦ (
              sc,
              s,
              ground arith,
              λ k i. insert_rows-stored (row_of d c) k (canonicals sc) d.rows.domains f i,
              λ k n. insert_rows-apart (row_of d c) k (canonicals sc) d.rows.domains n,
            )
          ];
          refused = λ x w z.
              let f = insert_rows-done (row_of d c) (canonicals sc) d.rows.domains w in
              absurd (ground arith);
        })
  ]
