-- ===== src/Command/Handlers/Deletions.antt =====
-- The statements of Delete of the domain handler: what the loop leaves.
use mesh_cdn.Base.{
  Bool-cases, Option-cases, some-injective, none-ne-some, length, filter, All, In, All-In,
  In-filter, Text, text, same, same_refl, same_iff, ℕ, ◌+◌, ◌-◌, ◌≡◌, refl, sym, ap, ◌∙◌, subst,
  ◌≢◌, inl, inr, not, Option, none, some, List, [], ◌∷◌, ◌++◌, arith,
}
use mesh_cdn.Base.Table.{get, DistinctKeys, In-get, get-In}
use mesh_cdn.Command.Types.{Error, plain, driver}
use mesh_cdn.Command.Handlers.{DomainRow, Outside}
use mesh_cdn.Command.Handlers.Domain.{Domains, find_conflict, find_foreign, is_row, delete_rows}
use mesh_cdn.Command.Handlers.Anchors.{IsOwn}

get-filter_foreign :
    (k j display : Text) (old : DomainRow) (m : Domains)
    → get j m ≡ some old
    → old.display_scope ≢ display
    → get j (filter (λ e. not (is_row k display e)) m) ≡ some old
unfolding get
get-filter_foreign k j display old [] g n = g
get-filter_foreign k j display old ((i, row) ∷ m) g n = elim (Bool-cases (same i j)) [
  | inl e ↦
      let q : row ≡ old = some-injective (ground arith) in
      ground
        (arith, e, q, g, n, same_iff row.display_scope display, same_iff old.display_scope display)
  | inr e ↦ ground (arith, get-filter_foreign k j display old m (ground arith) n)
]

module _ (out : Outside) where
  pub find_foreign-none :
      (display : Text) (pk : List (ℕ × Text)) (m : Domains)
      → find_foreign out display pk m ≡ none
      → find_conflict out display pk m ≡ none
  unfolding find_foreign find_conflict
  find_foreign-none display [] m h = refl
  find_foreign-none display ((p, k) ∷ pk) m h = elim (Option-cases (out.select_error k)) [
    | inr (x, e) ↦ absurd (ground arith)
    | inl e ↦ elim (Option-cases (get k m)) [
      | inl g ↦ ground (arith, find_foreign-none display pk m (ground arith))
      | inr (old, g) ↦ elim (Bool-cases (same old.display_scope display)) [
        | inr f ↦ absurd (ground arith)
        | inl f ↦ ground (arith, find_foreign-none display pk m (ground arith))
      ]
    ]
  ]

  abbrev fewer : Text → Text → Domains → Domains
  fewer k display m = filter (λ e. not (is_row k display e)) m

  delete_rows-next :
      (display k : Text) (ks : List Text) (n : ℕ) (m : Domains)
      → out.delete_error k ≡ none
      → delete_rows out display (k ∷ ks) n m
        ≡ delete_rows out display ks
            (n + (length m - length (fewer k display m)))
            (fewer k display m)
  unfolding delete_rows
  delete_rows-next display k ks n m e = ground arith

  delete_rows-stop :
      (display k x : Text) (ks : List Text) (n : ℕ) (m : Domains)
      → out.delete_error k ≡ some x
      → delete_rows out display (k ∷ ks) n m
        ≡ (m, n, some (plain (driver (text "delete domain: " ++ x))))
  unfolding delete_rows
  delete_rows-stop display k x ks n m e = ground arith

  pub delete_rows-foreign :
      (display j : Text) (old : DomainRow) (ks : List Text) (n : ℕ) (m : Domains)
      → get j m ≡ some old
      → old.display_scope ≢ display
      → get j (delete_rows out display ks n m).0 ≡ some old
  unfolding delete_rows
  delete_rows-foreign display j old [] n m g z = g
  delete_rows-foreign display j old (k ∷ ks) n m g z = elim (Option-cases (out.delete_error k)) [
    | inr (x, e) ↦ rw (delete_rows-stop display k x ks n m e) g
    | inl e ↦ rw (delete_rows-next display k ks n m e) (
        delete_rows-foreign display j old ks _ (fewer k display m)
          (get-filter_foreign k j display old m g z) z)
  ]

  -- What is left was there before.
  delete_rows-In :
      (display : Text) (e : Text × DomainRow) (ks : List Text) (n : ℕ) (m : Domains)
      → In e (delete_rows out display ks n m).0
      → In e m
  unfolding delete_rows
  delete_rows-In display e [] n m i = i
  delete_rows-In display e (k ∷ ks) n m i = elim (Option-cases (out.delete_error k)) [
    | inr (x, f) ↦
        subst (λ (r : Domains × ℕ × Option Error). In e r.0) (delete_rows-stop display k x ks n m f)
          i
    | inl f ↦
        (In-filter (λ r. not (is_row k display r)) e m
          (delete_rows-In display e ks _ (fewer k display m) (
            subst (λ (r : Domains × ℕ × Option Error). In e r.0)
              (delete_rows-next display k ks n m f) i))).0
  ]

  -- If no statement fails, no row of the scope is left at any of the keys.
  delete_rows-gone :
      (display j : Text) (row : DomainRow) (ks : List Text) (n : ℕ) (m : Domains)
      → (delete_rows out display ks n m).2 ≡ none
      → In j ks
      → In (j, row) (delete_rows out display ks n m).0
      → row.display_scope ≢ display
  unfolding delete_rows
  delete_rows-gone display j row [] n m z i h = absurd i
  delete_rows-gone display j row (k ∷ ks) n m z i h = elim (Option-cases (out.delete_error k)) [
    | inr (x, e) ↦
        absurd (none-ne-some (sym z ∙ ap (λ r. r.2) (delete_rows-stop display k x ks n m e)))
    | inl e ↦
        let q = delete_rows-next display k ks n m e in
        let left = subst (λ (r : Domains × ℕ × Option Error). In (j, row) r.0) q h in
        elim i [
          | inr r ↦
              delete_rows-gone display j row ks _ (fewer k display m) (ap (λ x. x.2) (sym q) ∙ z) r
                left
          | inl p ↦
              let f =
                (In-filter (λ r. not (is_row k display r)) (j, row) m
                  (delete_rows-In display (j, row) ks _ (fewer k display m) left)).1 in
              λ d. ground (arith, f, p, d, same_refl j, same_refl display)
        ]
  ]

  pub delete_rows-done :
      (display : Text) (ks : List Text) (n : ℕ) (m : Domains)
      → ((k : Text) → out.delete_error k ≡ none)
      → (delete_rows out display ks n m).2 ≡ none
  unfolding delete_rows
  delete_rows-done display [] n m h = refl
  delete_rows-done display (k ∷ ks) n m h =
      rw (delete_rows-next display k ks n m (h k))
        (delete_rows-done display ks _ (fewer k display m) h)

  pub delete_rows-free :
      (display k : Text) (ks : List Text) (m : Domains)
      → DistinctKeys m
      → All (IsOwn m display) ks
      → (delete_rows out display ks 0 m).2 ≡ none
      → In k ks
      → get k (delete_rows out display ks 0 m).0 ≡ none
  delete_rows-free display k ks m u own z i =
      elim (Option-cases (get k (delete_rows out display ks 0 m).0)) [
        | inl g ↦ g
        | inr (row, g) ↦
            let left = In-get k row (delete_rows out display ks 0 m).0 g in
            let before = get-In k row m u (delete_rows-In display (k, row) ks 0 m left) in
            absurd (
              delete_rows-gone display k row ks 0 m z i left
                (All-In (IsOwn m display) k ks own i row before))
      ]
