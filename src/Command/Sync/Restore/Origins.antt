-- ===== src/Command/Sync/Restore/Origins.antt =====
-- The origin that Validate of the domain handler accepts is a word.
use mesh_cdn.Base.{
  ◌==◌, Bool-cases, Option-cases, Result-cases, drop, All, All-append, Text, text, same→eq,
  is_empty, has_prefix, has_prefix→append, cut, is_space, ℕ, ◌≡◌, refl, sym, subst, inl, inr, Bool,
  true, false, not, ◌&&◌, none, some, [], ◌∷◌, ◌++◌, arith,
}
use mesh_cdn.Base.Words.{IsWord, is_space-IsWord}
use mesh_cdn.Base.Decimal.{is_digit}
use mesh_cdn.Command.Types.{write, Command}
use mesh_cdn.Command.Handlers.{Outside, is_placeholder}
use mesh_cdn.Command.Handlers.Scope.{
  is_host_char, all_chars, is_valid_hostname, match_proto, origin_error,
}
use mesh_cdn.Command.Handlers.Domain.{scope_of, validate_domain}

abbrev Spaceless : Text → Type 0
Spaceless s = All (λ c. is_space c ≡ false) s

host_char-spaceless : (c : ℕ) → is_host_char c ≡ true → is_space c ≡ false
unfolding is_space
host_char-spaceless c h = ground arith

digit-spaceless : (c : ℕ) → is_digit c ≡ true → is_space c ≡ false
unfolding is_space
digit-spaceless c h = ground arith

all_chars-Spaceless :
    (q : ℕ → Bool) (s : Text)
    → ((c : ℕ) → q c ≡ true → is_space c ≡ false)
    → all_chars q s ≡ true
    → Spaceless s
all_chars-Spaceless q [] f h = tt
all_chars-Spaceless q (c ∷ s) f h = (f c (ground arith), all_chars-Spaceless q s f (ground arith))

cut-append : (c : ℕ) (s a b : Text) → cut c s ≡ some (a, b) → s ≡ a ++ c ∷ b
unfolding cut
cut-append c [] a b h = cc
cut-append c (d ∷ s) a b h = elim (Bool-cases (d == c)) [
  | inl e ↦ ground (arith, e)
  | inr e ↦ elim (Option-cases (cut c s)) [
    | inl n ↦ absurd (ground arith)
    | inr ((x, y), m) ↦ let i = cut-append c s x y m in ground (arith, e, i)
  ]
]

match_proto-Spaceless :
    (s proto rest : Text) → match_proto s ≡ some (proto, rest) → Spaceless rest → IsWord s
unfolding match_proto
match_proto-Spaceless s proto rest h f = elim (Bool-cases (has_prefix s (text "https://"))) [
  | inl e ↦
      let q = has_prefix→append s (text "https://") e in
      let r : drop 8 s ≡ rest = ground arith in
      subst IsWord (sym q) (
        λ e. cc,
        All-append (λ c. is_space c ≡ false) (text "https://") (drop 8 s)
            (is_space-IsWord 0x68 (text "ttps://") (unfold is_space in refl)).1
            (subst Spaceless (sym r) f),
      )
  | inr e ↦ elim (Bool-cases (has_prefix s (text "http://"))) [
    | inr g ↦ absurd (ground arith)
    | inl g ↦
        let q = has_prefix→append s (text "http://") g in
        let r : drop 7 s ≡ rest = ground arith in
        subst IsWord (sym q) (
          λ e. cc,
          All-append (λ c. is_space c ≡ false) (text "http://") (drop 7 s)
              (is_space-IsWord 0x68 (text "ttp://") (unfold is_space in refl)).1
              (subst Spaceless (sym r) f),
        )
  ]
]

module _ (quote : Text → Text) (is_ip : Text → Bool) where
  origin_error-IsWord : (s : Text) → origin_error quote is_ip s ≡ none → IsWord s
  unfolding origin_error
  origin_error-IsWord s h = elim (Option-cases (match_proto s)) [
    | inl m ↦ absurd (ground arith)
    | inr ((proto, rest), m) ↦ elim (Option-cases (cut 0x3A rest)) [
      | inl k ↦ absurd (ground arith)
      | inr ((host, port), k) ↦
          elim (Bool-cases
            (is_valid_hostname host && (not (is_empty port) && all_chars is_digit port))) [
              | inr v ↦ absurd (ground arith)
              | inl v ↦ match_proto-Spaceless s proto rest m (
                  subst Spaceless (sym (cut-append 0x3A rest host port k)) (
                    All-append (λ c. is_space c ≡ false) host (0x3A ∷ port)
                      (all_chars-Spaceless is_host_char host host_char-spaceless (ground arith))
                      (
                        unfold is_space in refl,
                        all_chars-Spaceless is_digit port digit-spaceless (ground arith),
                      )))
            ]
    ]
  ]

module _ (out : Outside) where
  -- The origin of an accepted write.
  pub validate_domain-IsWord :
      (c : Command) → c.verb ≡ write → validate_domain out c ≡ none → IsWord c.params
  unfolding validate_domain
  validate_domain-IsWord c v h = elim (Bool-cases (is_placeholder c.params)) [
    | inl p ↦
        subst IsWord (sym (same→eq c.params (text "-") p))
          (is_space-IsWord 0x2D [] (unfold is_space in refl))
    | inr p ↦ elim (Option-cases (origin_error out.quote out.is_ip c.params)) [
      | inl e ↦ origin_error-IsWord out.quote out.is_ip c.params e
      | inr (x, e) ↦ elim (Result-cases (scope_of out c.scope)) [
        | inr (y, s) ↦ absurd (ground arith)
        | inl (sc, s) ↦ absurd (ground arith)
      ]
    ]
  ]
