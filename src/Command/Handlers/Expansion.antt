-- ===== src/Command/Handlers/Expansion.antt =====
-- The rows of `domains`: one for each port, each an expansion of the scope that it displays.
use mesh_cdn.Base.{
  Bool-cases, Option-cases, length, filter, All, In, All-filter, Text, same, same→eq, ℕ, ◌+◌, ◌-◌,
  ◌≡◌, refl, sym, subst, ◌≢◌, inl, inr, Bool, not, Option, List, [], ◌∷◌, arith, ok,
}
use mesh_cdn.Base.Table.{put, DistinctKeys, put-DistinctKeys}
use mesh_cdn.Command.Types.{Command, Error}
use mesh_cdn.Command.Executor.{Db}
use mesh_cdn.Command.Handlers.{DomainRow, Tables, Outside}
use mesh_cdn.Command.Handlers.Scope.{DomainScope, canonicals}
use mesh_cdn.Command.Handlers.Domain.{
  Domains, scope_of, insert_rows, write_domain, is_row, delete_rows, delete_domain,
}
use mesh_cdn.Command.Handlers.Cases.{write_domain_cases, delete_domain_cases}

All-put_entry :
    {V : Type 0} (P : Text × V → Type 0) (k : Text) (v : V) (m : List (Text × V))
    → P (k, v)
    → All P m
    → All P (put k v m)
unfolding put
All-put_entry P k v [] p h = (p, tt)
All-put_entry P k v ((j, w) ∷ m) p h = elim (Bool-cases (same j k)) [
  | inl e ↦ rw e (subst (λ i. P (i, v)) (sym (same→eq j k e)) p, h.1)
  | inr e ↦ rw e (h.0, All-put_entry P k v m p h.1)
]

filter-DistinctKeys :
    {V : Type 0} (p : Text × V → Bool) (m : List (Text × V))
    → DistinctKeys m
    → DistinctKeys (filter p m)
filter-DistinctKeys p [] d = tt
filter-DistinctKeys p ((k, v) ∷ m) d = elim (Bool-cases (p (k, v))) [
  | inl e ↦ rw e (All-filter (λ e. k ≢ e.0) p m d.0, filter-DistinctKeys p m d.1)
  | inr e ↦ rw e (filter-DistinctKeys p m d.1)
]

module _ (out : Outside) where
  -- The key of the row is one of the canonical scopes of the scope that it displays.
  abbrev pub IsExpansion : Text × DomainRow → Type 0
  IsExpansion (k, row) =
      (sc : DomainScope) × (scope_of out row.display_scope ≡ ok sc) × In k (canonicals sc)

  abbrev pub IsExpanded : Domains → Type 0
  IsExpanded m = DistinctKeys m × All IsExpansion m

  insert_rows-IsExpanded :
      (row : DomainRow) (ks : List Text) (m : Domains)
      → ((k : Text) → In k ks → IsExpansion (k, row))
      → IsExpanded m
      → IsExpanded (insert_rows out row ks m).0
  unfolding insert_rows
  insert_rows-IsExpanded row [] m fits h = h
  insert_rows-IsExpanded row (k ∷ ks) m fits h = elim (Option-cases (out.write_error k)) [
    | inr (x, e) ↦
        let q : (insert_rows out row (k ∷ ks) m).0 ≡ m = ground arith in subst IsExpanded (sym q) h
    | inl e ↦
        let q : insert_rows out row (k ∷ ks) m ≡ insert_rows out row ks (put k row m) =
          ground arith in
        let rest =
          insert_rows-IsExpanded row ks (put k row m) (λ j i. fits j (inr i))
            (
              put-DistinctKeys k row m h.0,
              All-put_entry IsExpansion k row m (fits k (inl refl)) h.1,
            ) in
        subst (λ (r : Domains × Option Error). IsExpanded r.0) (sym q) rest
  ]

  delete_rows-IsExpanded :
      (display : Text) (ks : List Text) (n : ℕ) (m : Domains)
      → IsExpanded m
      → IsExpanded (delete_rows out display ks n m).0
  unfolding delete_rows
  delete_rows-IsExpanded display [] n m h = h
  delete_rows-IsExpanded display (k ∷ ks) n m h = elim (Option-cases (out.delete_error k)) [
    | inr (x, w) ↦
        let q : (delete_rows out display (k ∷ ks) n m).0 ≡ m = ground arith in
        subst IsExpanded (sym q) h
    | inl w ↦
        let fewer = filter (λ e. not (is_row k display e)) m in
        let n' = n + (length m - length fewer) in
        let q : delete_rows out display (k ∷ ks) n m ≡ delete_rows out display ks n' fewer =
          ground arith in
        subst (λ (r : Domains × ℕ × Option Error). IsExpanded r.0) (sym q)
          (delete_rows-IsExpanded display ks n' fewer (
            filter-DistinctKeys (λ e. not (is_row k display e)) m h.0,
            All-filter IsExpansion (λ e. not (is_row k display e)) m h.1,
          ))
  ]

  pub write_domain-IsExpanded :
      (d : Db Tables) (c : Command)
      → IsExpanded d.rows.domains
      → IsExpanded (write_domain out d c).0.rows.domains
  write_domain-IsExpanded d c h = elim (write_domain_cases out d c) [
    | inl q ↦ subst (λ t. IsExpanded t.domains) (sym q) h
    | inr (sc, row, e, s, f, q) ↦
        subst (λ t. IsExpanded t.domains) (sym q)
          (insert_rows-IsExpanded row (canonicals sc) d.rows.domains
            (λ k i. (sc, subst (λ x. scope_of out x ≡ ok sc) (sym e) s, i)) h)
  ]

  pub delete_domain-IsExpanded :
      (d : Db Tables) (c : Command)
      → IsExpanded d.rows.domains
      → IsExpanded (delete_domain out d c).0.rows.domains
  delete_domain-IsExpanded d c h = elim (delete_domain_cases out d c) [
    | inl q ↦ subst (λ t. IsExpanded t.domains) (sym q) h
    | inr (sc, z, q) ↦
        subst (λ t. IsExpanded t.domains) (sym q)
          (delete_rows-IsExpanded c.scope (canonicals sc) 0 d.rows.domains h)
  ]
