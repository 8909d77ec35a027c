-- ===== src/I18n/Padding.antt =====
-- Width and PadRight.
use mesh_cdn.Base.{
  ltb, ltb→lt, Bool-cases, replicate, Text, ℕ, zero, suc, ◌+◌, ◌-◌, ◌≤◌, max, ◌≡◌, refl, sym, inl,
  inr, [], ◌∷◌, ◌++◌, append-nil, arith,
}
use mesh_cdn.I18n.{rune_width, width, pad_right}

width-append : (s t : Text) → width (s ++ t) ≡ width s + width t
unfolding width
width-append [] t = omega arith
width-append (r ∷ s) t = omega (arith, width-append s t)

width-blanks : (n : ℕ) → width (replicate n 0x20) ≡ n
unfolding width rune_width
width-blanks zero = refl
width-blanks (suc n) = omega (arith, width-blanks n)

-- A padded text takes the columns that were asked for, or those of the text if it is wider; it
-- starts with the text, and only blanks follow.
pub width-pad_right :
    (s : Text) (columns : ℕ)
    → (width (pad_right s columns) ≡ max (width s) columns)
      × ((n : ℕ) × (pad_right s columns ≡ s ++ replicate n 0x20))
unfolding pad_right
width-pad_right s columns = elim (Bool-cases (ltb (width s) columns)) [
  | inl e ↦ rw e (
    omega (
      arith,
      width-append s (replicate (columns - width s) 0x20),
      width-blanks (columns - width s),
      ltb→lt (width s) columns e,
    ),
    (columns - width s, refl),
  )
  | inr e ↦ rw e (ground (arith, e), (0, sym (append-nil s)))
]

-- A combining mark takes one column: the case that gives it none is behind one that it meets.
pub rune_width_mark : (r : ℕ) → 0x0300 ≤ r → r ≤ 0x036F → rune_width r ≡ 1
unfolding rune_width
rune_width_mark r h k = ground arith
