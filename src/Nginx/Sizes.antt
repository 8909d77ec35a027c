-- ===== src/Nginx/Sizes.antt =====
-- parseSizeToBytes of internal/nginx/precedence.go.
use mesh_cdn.Base.{
  leb, ◌==◌, if◌then◌else◌, length, take, length-append, All-append, take-append_length, Text,
  is_space, trim_space, ℕ, ◌-◌, ◌*◌, ◌%◌, ◌^◌, ◌≤◌, ◌≡◌, refl, ap, ◌∙◌, false, ◌||◌, Option, none,
  some, [], ◌∷◌, ◌++◌, arith,
}
use mesh_cdn.Base.Int.{ℤ, pos, negsuc}
use mesh_cdn.Base.Decimal.{decimal, parse_int, int_max, parse_int-decimal}
use mesh_cdn.Base.Numerals.{decimal-IsWord, trim_space-word}
use mesh_cdn.Base.Words.{IsWord}

-- The value that 64 bits hold of a number that is not negative.
abbrev pub wrapped : ℕ → ℤ
wrapped n = let m = n % 2 ^ 64 in if leb m int_max then pos m else negsuc (2 ^ 64 - 1 - m)

-- The multiplier that a last character stands for, if it does.
abbrev pub multiplier : ℕ → Option ℕ
multiplier c =
    if c == 0x6B || c == 0x4B
    then some 1024
    else if c == 0x6D || c == 0x4D
    then some (1024 * 1024)
    else if c == 0x67 || c == 0x47
    then some (1024 * 1024 * 1024)
    else none

-- The last character.
abbrev pub last_char : Text → Option ℕ
last_char [] = none
last_char (c ∷ []) = some c
last_char (c ∷ d ∷ s) = last_char (d ∷ s)

-- strconv.ParseInt, the sign, and the product.
unfoldable pub scaled : ℕ → Text → Option ℤ
unfolding parse_int
scaled mult s = elim (parse_int s) [
  | none ↦ none
  | some (negsuc n) ↦ none
  | some (pos n) ↦ some (wrapped (n * mult))
]

unfoldable pub parse_trimmed_size : Text → Option ℤ
parse_trimmed_size s = elim (last_char s) [
  | none ↦ none
  | some c ↦ elim (multiplier c) [
    | none ↦ scaled 1 s
    | some mult ↦ scaled mult (take (length s - 1) s)
  ]
]

unfoldable pub parse_size_to_bytes : Text → Option ℤ
unfolding trim_space
parse_size_to_bytes s = parse_trimmed_size (trim_space s)

last_char-snoc : (s : Text) (c : ℕ) → last_char (s ++ c ∷ []) ≡ some c
last_char-snoc [] c = refl
last_char-snoc (d ∷ []) c = refl
last_char-snoc (d ∷ e ∷ s) c = last_char-snoc (e ∷ s) c

without_last : (s : Text) (c : ℕ) → take (length (s ++ c ∷ []) - 1) (s ++ c ∷ []) ≡ s
without_last s c =
    let e : length (s ++ c ∷ []) - 1 ≡ length s = omega (arith, length-append s (c ∷ [])) in
    rw e (take-append_length s (c ∷ []))

wrapped_fits : (n : ℕ) → n ≤ int_max → wrapped n ≡ pos n
wrapped_fits n h = ground arith

scaled-decimal :
    (n mult : ℕ)
    → n ≤ int_max
    → n * mult ≤ int_max
    → scaled mult (decimal n) ≡ some (pos (n * mult))
unfolding scaled
scaled-decimal n mult h k =
    let fits : wrapped (n * mult) ≡ pos (n * mult) = wrapped_fits (n * mult) k in
    ground (arith, parse_int-decimal n h, fits)

parse_trimmed_size-unit :
    (s : Text) (c mult : ℕ)
    → last_char s ≡ some c
    → multiplier c ≡ some mult
    → parse_trimmed_size s ≡ scaled mult (take (length s - 1) s)
unfolding parse_trimmed_size
parse_trimmed_size-unit s c mult e u = ground (arith, e, u)

multiplier-not_space : (c mult : ℕ) → multiplier c ≡ some mult → is_space c ≡ false
unfolding is_space
multiplier-not_space c mult u = ground arith

snoc-IsWord : (w : Text) (c : ℕ) → IsWord w → is_space c ≡ false → IsWord (w ++ c ∷ [])
snoc-IsWord w c h e = (
  λ q. omega (arith, ap length q, length-append w (c ∷ [])),
  All-append (λ d. is_space d ≡ false) w (c ∷ []) h.1 (e, tt),
)

-- A number of kilobytes, megabytes or gigabytes that fits in 64 bits, written with the letter of the
-- unit, is read as that many bytes.
parse_size_to_bytes-decimal :
    (n c mult : ℕ)
    → multiplier c ≡ some mult
    → n ≤ int_max
    → n * mult ≤ int_max
    → parse_size_to_bytes (decimal n ++ c ∷ []) ≡ some (pos (n * mult))
unfolding parse_size_to_bytes
parse_size_to_bytes-decimal n c mult u h k =
    let size = decimal n ++ c ∷ [] in
    let word = snoc-IsWord (decimal n) c (decimal-IsWord n) (multiplier-not_space c mult u) in
    ap parse_trimmed_size (trim_space-word size word)
    ∙ parse_trimmed_size-unit size c mult (last_char-snoc (decimal n) c) u
    ∙ ap (scaled mult) (without_last (decimal n) c)
    ∙ scaled-decimal n mult h k
