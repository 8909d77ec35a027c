-- ===== src/Nginx/Generator/Quoting.antt =====
-- luaQuote against a reader of Lua's string literals.
use mesh_cdn.Base.{
  ◌==◌, if◌then◌else◌, Bool-cases, Text, ℕ, ◌≡◌, refl, ap, ◌∙◌, ◌⊎◌, inl, inr, false, ◌||◌, Option,
  none, some, [], ◌∷◌, ◌++◌, append_assoc, arith,
}
use mesh_cdn.Nginx.Generator.{escaped, lua_quote}

-- What a character behind a backslash stands for, of those that luaQuote writes.
abbrev escape_of : ℕ → Option ℕ
escape_of c =
    if c == 0x5C
    then some 0x5C
    else if c == 0x22
    then some 0x22
    else if c == 0x6E
    then some 0x0A
    else if c == 0x72
    then some 0x0D
    else none

abbrev before_rest : ℕ → Option (Text × Text) → Option (Text × Text)
before_rest c none = none
before_rest c (some (s, rest)) = some (c ∷ s, rest)

-- The body of a literal up to the quote that ends it, and what stands behind it. A line break ends
-- no literal.
unfoldable pub read_body : Text → Option (Text × Text)
read_body [] = none
read_body (c ∷ []) = if c == 0x22 then some ([], []) else none
read_body (c ∷ d ∷ s) =
    let after_two = read_body s in
    let after_one = read_body (d ∷ s) in
    if c == 0x22
    then some ([], d ∷ s)
    else if c == 0x5C
    then elim (escape_of d) [ none ↦ none | some e ↦ before_rest e after_two ]
    else if c == 0x0A || c == 0x0D
    then none
    else before_rest c after_one

unfoldable pub read_literal : Text → Option (Text × Text)
unfolding read_body
read_literal [] = none
read_literal (c ∷ s) = if c == 0x22 then read_body s else none

read_body-plain :
    (c : ℕ) (s : Text)
    → (c == 0x22) ≡ false
    → (c == 0x5C) ≡ false
    → (c == 0x0A || c == 0x0D) ≡ false
    → (r : Text × Text) → read_body s ≡ some r
    → read_body (c ∷ s) ≡ some (c ∷ r.0, r.1)
unfolding read_body
read_body-plain c [] a b d r h = absurd (ground arith)
read_body-plain c (x ∷ s) a b d r h = ground (arith, a, b, d, h)

read_body-pair :
    (d e : ℕ) (s : Text) (r : Text × Text)
    → escape_of d ≡ some e
    → read_body s ≡ some r
    → read_body (0x5C ∷ d ∷ s) ≡ some (e ∷ r.0, r.1)
unfolding read_body
read_body-pair d e s r q h = rw (q, h) refl

-- A character is written behind a backslash, or it is one that stands for itself.
escaped_cases :
    (r : ℕ) (s : Text)
    → ((d : ℕ) × (escape_of d ≡ some r) × (escaped (r ∷ s) ≡ 0x5C ∷ d ∷ escaped s))
      ⊎ (((r == 0x22) ≡ false)
          × ((r == 0x5C) ≡ false)
          × ((r == 0x0A || r == 0x0D) ≡ false)
          × (escaped (r ∷ s) ≡ r ∷ escaped s))
unfolding escaped
escaped_cases r s = elim (Bool-cases (r == 0x5C)) [
  | inl e ↦ inl (0x5C, ground (arith, e), rw e refl)
  | inr e ↦ elim (Bool-cases (r == 0x22)) [
    | inl f ↦ inl (0x22, ground (arith, f), rw (e, f) refl)
    | inr f ↦ elim (Bool-cases (r == 0x0A)) [
      | inl g ↦ inl (0x6E, ground (arith, g), rw (e, f, g) refl)
      | inr g ↦ elim (Bool-cases (r == 0x0D)) [
        | inl i ↦ inl (0x72, ground (arith, i), rw (e, f, g, i) refl)
        | inr i ↦ inr (f, e, rw (g, i) refl, rw (e, f, g, i) refl)
      ]
    ]
  ]
]

read_body-escaped : (s rest : Text) → read_body (escaped s ++ 0x22 ∷ rest) ≡ some (s, rest)
unfolding read_body escaped
read_body-escaped [] [] = refl
read_body-escaped [] (c ∷ rest) = refl
read_body-escaped (r ∷ s) rest =
    let more = read_body-escaped s rest in
    elim (escaped_cases r s) [
      | inl (d, e, q) ↦
          ap (λ t. read_body (t ++ 0x22 ∷ rest)) q
          ∙ read_body-pair d r (escaped s ++ 0x22 ∷ rest) (s, rest) e more
      | inr (a, b, c, q) ↦
          ap (λ t. read_body (t ++ 0x22 ∷ rest)) q
          ∙ read_body-plain r (escaped s ++ 0x22 ∷ rest) a b c (s, rest) more
    ]

-- Whatever the text, and whatever stands behind it, the literal that luaQuote makes of it is read
-- as that text, and ends where luaQuote ended it.
pub read_literal-lua_quote : (s rest : Text) → read_literal (lua_quote s ++ rest) ≡ some (s, rest)
unfolding read_literal lua_quote
read_literal-lua_quote s rest =
    ap read_body (append_assoc (escaped s) (0x22 ∷ []) rest) ∙ read_body-escaped s rest
