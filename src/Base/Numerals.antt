-- ===== src/Base/Numerals.antt =====
-- Numerals as words.
use mesh_cdn.Base.{
  ◌==◌, Bool-cases, All, Text, is_space, trim_left, trim_right, trim_space, ℕ, zero, suc, ◌+◌, ◌/◌,
  ◌%◌, ◌<◌, ◌≡◌, refl, ap, ◌∙◌, ◌≢◌, inl, inr, true, false, [], ◌∷◌, arith,
}
use mesh_cdn.Base.Decimal.{digits_from, decimal, decimal_ℤ, is_digit}
use mesh_cdn.Base.Int.{ℤ, pos, negsuc}
use mesh_cdn.Base.Words.{IsWord}
use mesh_cdn.Base.Trim.{trim_right-append_word}

abbrev NoSpace : Text → Type 0
NoSpace w = All (λ c. is_space c ≡ false) w

digit-NoSpace : (d : ℕ) → d < 10 → is_space (0x30 + d) ≡ false
unfolding is_space
digit-NoSpace d h = ground arith

digit-is_digit : (d : ℕ) → d < 10 → is_digit (0x30 + d) ≡ true
digit-is_digit d h = ground arith

module _ (P : ℕ → Type 0) (digit : (d : ℕ) → d < 10 → P (0x30 + d)) where
  digits_from-All : (fuel n : ℕ) (acc : Text) → All P acc → All P (digits_from fuel n acc)
  unfolding digits_from
  digits_from-All zero n acc h = h
  digits_from-All (suc fuel) n acc h =
      let more : All P ((0x30 + n % 10) ∷ acc) = (digit (n % 10) (omega arith), h) in
      elim (Bool-cases (n / 10 == 0)) [
        | inl e ↦ rw e more
        | inr e ↦ rw e (digits_from-All fuel (n / 10) ((0x30 + n % 10) ∷ acc) more)
      ]

  decimal-All : (n : ℕ) → All P (decimal n)
  unfolding decimal
  decimal-All n = digits_from-All (suc n) n [] tt

-- A numeral has digits only.
pub decimal-is_digit : (n : ℕ) → All (λ c. is_digit c ≡ true) (decimal n)
decimal-is_digit = decimal-All (λ c. is_digit c ≡ true) digit-is_digit

digits_from-ne : (fuel n c : ℕ) (acc : Text) → digits_from fuel n (c ∷ acc) ≢ []
unfolding digits_from
digits_from-ne zero n c acc h = cc
digits_from-ne (suc fuel) n c acc h = elim (Bool-cases (n / 10 == 0)) [
  | inl e ↦ absurd (ground arith)
  | inr e ↦ digits_from-ne fuel (n / 10) (0x30 + n % 10) (c ∷ acc) (rw e at h)
]

pub decimal-ne : (n : ℕ) → decimal n ≢ []
unfolding decimal digits_from
decimal-ne n h = elim (Bool-cases (n / 10 == 0)) [
  | inl e ↦ absurd (ground arith)
  | inr e ↦ digits_from-ne n (n / 10) (0x30 + n % 10) [] (rw e at h)
]

pub decimal-IsWord : (n : ℕ) → IsWord (decimal n)
decimal-IsWord n = (decimal-ne n, decimal-All (λ c. is_space c ≡ false) digit-NoSpace n)

pub decimal_ℤ-IsWord : (a : ℤ) → IsWord (decimal_ℤ a)
unfolding decimal_ℤ is_space
decimal_ℤ-IsWord (pos n) = decimal-IsWord n
decimal_ℤ-IsWord (negsuc n) = (λ e. cc, (refl, (decimal-IsWord (suc n)).1))

trim_left-word : (w : Text) → IsWord w → trim_left w ≡ w
unfolding trim_left
trim_left-word [] h = absurd (h.0 refl)
trim_left-word (c ∷ w) h = rw h.1.0

-- A word has no space to trim.
pub trim_space-word : (w : Text) → IsWord w → trim_space w ≡ w
unfolding trim_space
trim_space-word w h = ap trim_right (trim_left-word w h) ∙ trim_right-append_word [] w h
