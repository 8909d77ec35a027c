-- ===== src/Base/Decimal.antt =====
-- Decimal numerals: the verb %d, and strconv.ParseInt in base 10.
use mesh_cdn.Base.{
  leb, ◌==◌, if◌then◌else◌, Bool-cases, Text, text, ℕ, zero, suc, ◌+◌, ◌-◌, ◌*◌, ◌/◌, ◌%◌, ◌≤◌, ◌<◌,
  ◌≡◌, sym, ap, ◌∙◌, inl, inr, Bool, true, ◌&&◌, Option, none, some, [], ◌∷◌, ◌++◌, arith,
}
use mesh_cdn.Base.Int.{ℤ, pos, negsuc}

-- The digits of a number in front of a text. The fuel is a bound for the number.
unfoldable pub digits_from : ℕ → ℕ → Text → Text
digits_from zero n acc = acc
digits_from (suc fuel) n acc =
    let rest = digits_from fuel (n / 10) ((0x30 + n % 10) ∷ acc) in
    if n / 10 == 0 then (0x30 + n % 10) ∷ acc else rest

unfoldable pub decimal : ℕ → Text
unfolding digits_from
decimal n = digits_from (suc n) n []

unfoldable pub decimal_ℤ : ℤ → Text
unfolding decimal
decimal_ℤ (pos n) = decimal n
decimal_ℤ (negsuc n) = text "-" ++ decimal (suc n)

abbrev pub is_digit : ℕ → Bool
is_digit c = leb 0x30 c && leb c 0x39

-- The value of a row of digits, behind the value of those before it.
unfoldable pub value_from : ℕ → Text → Option ℕ
value_from acc [] = some acc
value_from acc (c ∷ s) =
    let rest = value_from (acc * 10 + (c - 0x30)) s in if is_digit c then rest else none

unfoldable pub parse_nat : Text → Option ℕ
unfolding value_from
parse_nat [] = none
parse_nat (c ∷ s) = value_from 0 (c ∷ s)

abbrev pub int_max : ℕ
int_max = 0x7FFF_FFFF_FFFF_FFFF

abbrev negated : ℕ → ℤ
negated zero = pos 0
negated (suc n) = negsuc n

-- strconv.ParseInt(s, 10, 64), and strconv.Atoi on a 64-bit machine: a sign, digits, and a range.
unfoldable pub parse_int : Text → Option ℤ
unfolding parse_nat
parse_int [] = none
parse_int (c ∷ s) =
    if c == 0x2D
    then elim (parse_nat s) [
      | none ↦ none
      | some n ↦ if leb n (suc int_max) then some (negated n) else none
    ]
    else elim (parse_nat (if c == 0x2B then s else c ∷ s)) [
      | none ↦ none
      | some n ↦ if leb n int_max then some (pos n) else none
    ]

value_from-digit :
    (a d : ℕ) (acc : Text) → d < 10 → value_from a ((0x30 + d) ∷ acc) ≡ value_from (a * 10 + d) acc
unfolding value_from
value_from-digit a d acc h =
    let e : 0x30 + d - 0x30 ≡ d = omega arith in
    let t : is_digit (0x30 + d) ≡ true = ground arith in rw (t, e)

value_from-digits_from :
    (fuel n : ℕ) (acc : Text) → n < fuel → value_from 0 (digits_from fuel n acc) ≡ value_from n acc
unfolding digits_from
value_from-digits_from zero n acc h = absurd (omega arith)
value_from-digits_from (suc fuel) n acc h =
    let whole : n / 10 * 10 + n % 10 ≡ n = omega arith in
    elim (Bool-cases (n / 10 == 0)) [
      | inl e ↦
          let small : 0 * 10 + n % 10 ≡ n = ground arith in
          rw e (value_from-digit 0 (n % 10) acc (omega arith) ∙ ap (λ k. value_from k acc) small)
      | inr e ↦ rw e (
          value_from-digits_from fuel (n / 10) ((0x30 + n % 10) ∷ acc) (ground arith)
          ∙ value_from-digit (n / 10) (n % 10) acc (omega arith)
          ∙ ap (λ k. value_from k acc) whole)
    ]

-- The digits are a row that starts with one.
digits_from-cons :
    (fuel n : ℕ) (acc : Text)
    → 0 < fuel
    → (d : ℕ) × (s : Text) × (digits_from fuel n acc ≡ (0x30 + d) ∷ s) × (d < 10)
unfolding digits_from
digits_from-cons zero n acc h = absurd (omega arith)
digits_from-cons (suc zero) n acc h = (n % 10, acc, ground arith, omega arith)
digits_from-cons (suc (suc fuel)) n acc h = elim (Bool-cases (n / 10 == 0)) [
  | inl e ↦ (n % 10, acc, rw e, omega arith)
  | inr e ↦
      let (d, s, q, lt) =
        digits_from-cons (suc fuel) (n / 10) ((0x30 + n % 10) ∷ acc) (omega arith) in
      (d, s, rw e q, lt)
]

parse_int_digits :
    (n d : ℕ) (s : Text)
    → d < 10
    → value_from 0 ((0x30 + d) ∷ s) ≡ some n
    → n ≤ int_max
    → parse_int ((0x30 + d) ∷ s) ≡ some (pos n)
unfolding parse_int
parse_int_digits n d s lt w h = ground arith

-- A numeral that fits in 64 bits reads back as the number.
pub parse_int-decimal : (n : ℕ) → n ≤ int_max → parse_int (decimal n) ≡ some (pos n)
unfolding decimal value_from
parse_int-decimal n h =
    let (d, s, e, lt) = digits_from-cons (suc n) n [] (omega arith) in
    let v = value_from-digits_from (suc n) n [] (omega arith) in
    let w : value_from 0 ((0x30 + d) ∷ s) ≡ some n = sym (ap (value_from 0) e) ∙ v in
    rw e (parse_int_digits n d s lt w h)
