-- ===== src/Command/Sync/Restore/BindingRows.antt =====
-- What Validate accepts of a binding names a type of objects and a valid name.
use mesh_cdn.Base.{
  Bool-cases, Option-cases, Result-cases, Text, is_empty, cut, ◌≡◌, inl, inr, true, none, [], ◌∷◌,
  arith, ok,
}
use mesh_cdn.Command.Types.{write, Command}
use mesh_cdn.Command.Handlers.{BindingRow, Outside, is_placeholder}
use mesh_cdn.Command.Handlers.Domain.{scope_of}
use mesh_cdn.Command.Handlers.Objects.{is_valid_object_name}
use mesh_cdn.Command.Handlers.Bind.{is_known_object_type, parse_object_ref, ref_of, validate_bind}
use mesh_cdn.Command.Sync.Restore.{IsNamed}

module _ (out : Outside) where
  -- Both parts of a reference are empty, or neither is.
  IsWholeRef : Text × Text → Type 0
  IsWholeRef (type, name) = is_empty type ≡ is_empty name

  parse_object_ref-IsWholeRef :
      (s : Text) (r : Text × Text) → parse_object_ref out s ≡ ok r → IsWholeRef r
  unfolding parse_object_ref IsWholeRef
  parse_object_ref-IsWholeRef s (type, name) h = elim (Bool-cases (is_placeholder s)) [
    | inl p ↦ ground arith
    | inr p ↦ elim (Option-cases (cut 0x3A s)) [
      | inl n ↦ absurd (ground arith)
      | inr (([], y), k) ↦ absurd (ground arith)
      | inr ((a ∷ x, []), k) ↦ absurd (ground arith)
      | inr ((a ∷ x, b ∷ y), k) ↦ ground arith
    ]
  ]

  -- The reference of an accepted binding.
  pub validate_bind-IsNamed :
      (c : Command) (b : BindingRow)
      → c.verb ≡ write
      → validate_bind out c ≡ none
      → (b.object_type, b.object_name) ≡ ref_of out c.params
      → IsNamed b
  unfolding validate_bind IsWholeRef
  validate_bind-IsNamed c b v valid e = elim (Bool-cases (is_placeholder c.scope)) [
    | inl p ↦ absurd (ground arith)
    | inr p ↦ elim (Result-cases (scope_of out c.scope)) [
      | inr (x, s) ↦ absurd (ground arith)
      | inl (sc, s) ↦ elim (Result-cases (parse_object_ref out c.params)) [
        | inr (x, q) ↦ absurd (ground arith)
        | inl (([], name), q) ↦ absurd (ground arith)
        | inl ((a ∷ type, []), q) ↦
            absurd (let w = parse_object_ref-IsWholeRef c.params (a ∷ type, []) q in ground arith)
        | inl ((a ∷ type, m ∷ name), q) ↦
            let known : is_known_object_type (a ∷ type) ≡ true = ground arith in
            let named : is_valid_object_name (m ∷ name) ≡ true = ground arith in
            let t : b.object_type ≡ a ∷ type = ground arith in
            let n : b.object_name ≡ m ∷ name = ground arith in rw (t, n) (known, named)
      ]
    ]
  ]
