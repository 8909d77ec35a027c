-- ===== src/Command/Handlers/Anchors.antt =====
-- What the statements of the handlers leave of the objects and the scopes.
use mesh_cdn.Base.{
  Bool-cases, Option-cases, some-injective, none-ne-some, length, filter, any, All, All-map, Text,
  same, same→eq, eq→same, same_iff, ℕ, ◌+◌, ◌-◌, ◌≡◌, sym, ap, ◌∙◌, subst, inl, inr, true, false,
  not, ◌&&◌, Option, none, some, List, [], ◌∷◌, arith,
}
use mesh_cdn.Base.Table.{get, put, get-put_self, get-put_ne}
use mesh_cdn.Command.Types.{Error}
use mesh_cdn.Command.Handlers.{DomainRow, ObjectRow, Outside}
use mesh_cdn.Command.Handlers.Domain.{Domains, find_conflict, insert_rows, is_row, delete_rows}
use mesh_cdn.Command.Handlers.Objects.{is_object, upsert_object}
use mesh_cdn.Command.Handlers.Bind.{displays}

-- An object that is written: all that were there still are.
pub any-upsert_object :
    (o : ObjectRow) (type name : Text) (xs : List ObjectRow)
    → any (is_object type name) xs ≡ true
    → any (is_object type name) (upsert_object o xs) ≡ true
unfolding upsert_object
any-upsert_object o type name [] h = cc
any-upsert_object o type name (x ∷ xs) h = ground (
  arith,
  any-upsert_object o type name xs,
  same_iff x.type o.type,
  same_iff x.type type,
  same_iff o.type type,
  same_iff x.name o.name,
  same_iff x.name name,
  same_iff o.name name,
)

-- An object that is deleted: all others are still there.
pub any-deleted_object :
    (t n type name : Text) (xs : List ObjectRow)
    → (same type t && same name n) ≡ false
    → any (is_object type name) xs ≡ true
    → any (is_object type name) (filter (λ o. not (is_object t n o)) xs) ≡ true
any-deleted_object t n type name [] e h = cc
any-deleted_object t n type name (x ∷ xs) e h = ground (
  arith,
  any-deleted_object t n type name xs e,
  same_iff x.type type,
  same_iff x.type t,
  same_iff type t,
  same_iff x.name name,
  same_iff x.name n,
  same_iff name n,
)

-- The row of `k`, if there is one, is of the scope.
abbrev pub IsOwn : Domains → Text → Text → Type 0
IsOwn m display k = (row : DomainRow) → get k m ≡ some row → row.display_scope ≡ display

-- A row that is written over one of its own scope.
any-put_row :
    (k scope : Text) (row : DomainRow) (m : Domains)
    → IsOwn m row.display_scope k
    → any (displays scope) m ≡ true
    → any (displays scope) (put k row m) ≡ true
unfolding put get
any-put_row k scope row [] own h = cc
any-put_row k scope row ((j, old) ∷ m) own h = elim (Bool-cases (same j k)) [
  | inl e ↦ let q = own old (ground arith) in ground (arith, e, q, h)
  | inr e ↦ ground (arith, any-put_row k scope row m (λ r g. own r (ground arith)))
]

any-deleted_row :
    (k display scope : Text) (m : Domains)
    → same scope display ≡ false
    → any (displays scope) m ≡ true
    → any (displays scope) (filter (λ e. not (is_row k display e)) m) ≡ true
any-deleted_row k display scope [] n h = cc
any-deleted_row k display scope ((j, row) ∷ m) n h = ground (
  arith,
  any-deleted_row k display scope m n,
  same_iff row.display_scope scope,
  same_iff row.display_scope display,
  same_iff scope display,
)

module _ (out : Outside) where
  -- What it means that the loop of Write has found no row of another scope.
  pub find_conflict-IsOwn :
      (display : Text) (pk : List (ℕ × Text)) (m : Domains)
      → find_conflict out display pk m ≡ none
      → All (λ (e : ℕ × Text). IsOwn m display e.1) pk
  unfolding find_conflict
  find_conflict-IsOwn display [] m h = tt
  find_conflict-IsOwn display ((p, k) ∷ pk) m h = elim (Option-cases (out.select_error k)) [
    | inr (x, e) ↦ absurd (ground arith)
    | inl e ↦ elim (Option-cases (get k m)) [
      | inl g ↦ (
        λ row q. absurd (none-ne-some (sym g ∙ q)),
        find_conflict-IsOwn display pk m (ground arith),
      )
      | inr (old, g) ↦ elim (Bool-cases (same old.display_scope display)) [
        | inr f ↦ absurd (ground arith)
        | inl f ↦ (
          λ row q.
              let z : old ≡ row = some-injective (sym g ∙ q) in
              ap (λ (r : DomainRow). r.display_scope) (sym z) ∙ same→eq old.display_scope display f,
          find_conflict-IsOwn display pk m (ground arith),
        )
      ]
    ]
  ]

  -- What stays of it when a row of the scope is written.
  pub put-IsOwn :
      (row : DomainRow) (k j : Text) (m : Domains)
      → IsOwn m row.display_scope j
      → IsOwn (put k row m) row.display_scope j
  put-IsOwn row k j m own r g = elim (Bool-cases (same k j)) [
    | inl e ↦
        let q = same→eq k j e in
        let z : row ≡ r =
          some-injective (sym (get-put_self k row m) ∙ ap (λ i. get i (put k row m)) q ∙ g) in
        ap (λ (x : DomainRow). x.display_scope) (sym z)
    | inr e ↦ own r (sym (get-put_ne k j row m (λ q. ground (arith, eq→same k j q))) ∙ g)
  ]

  pub insert_rows-displays :
      (row : DomainRow) (scope : Text) (ks : List Text) (m : Domains)
      → All (IsOwn m row.display_scope) ks
      → any (displays scope) m ≡ true
      → any (displays scope) (insert_rows out row ks m).0 ≡ true
  unfolding insert_rows
  insert_rows-displays row scope [] m own h = h
  insert_rows-displays row scope (k ∷ ks) m own h = elim (Option-cases (out.write_error k)) [
    | inr (x, e) ↦ ground (arith, h)
    | inl e ↦
        let q : insert_rows out row (k ∷ ks) m ≡ insert_rows out row ks (put k row m) =
          ground arith in
        let rest =
          insert_rows-displays row scope ks (put k row m)
            (All-map (IsOwn m row.display_scope) (IsOwn (put k row m) row.display_scope) ks
              (λ j o. put-IsOwn row k j m o) own.1)
            (any-put_row k scope row m own.0 h) in
        subst (λ (r : Domains × Option Error). any (displays scope) r.0 ≡ true) (sym q) rest
  ]

  pub delete_rows-displays :
      (display scope : Text) (ks : List Text) (n : ℕ) (m : Domains)
      → same scope display ≡ false
      → any (displays scope) m ≡ true
      → any (displays scope) (delete_rows out display ks n m).0 ≡ true
  unfolding delete_rows
  delete_rows-displays display scope [] n m e h = h
  delete_rows-displays display scope (k ∷ ks) n m e h = elim (Option-cases (out.delete_error k)) [
    | inr (x, w) ↦ ground (arith, h)
    | inl w ↦
        let fewer = filter (λ e. not (is_row k display e)) m in
        let n' = n + (length m - length fewer) in
        let q : delete_rows out display (k ∷ ks) n m ≡ delete_rows out display ks n' fewer =
          ground arith in
        subst (λ (r : Domains × ℕ × Option Error). any (displays scope) r.0 ≡ true) (sym q)
          (delete_rows-displays display scope ks n' fewer e (any-deleted_row k display scope m e h))
  ]
