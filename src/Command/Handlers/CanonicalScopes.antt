-- ===== src/Command/Handlers/CanonicalScopes.antt =====
-- A canonical scope is a scope: parseDomainScope reads what canonicalScope prints.
use mesh_cdn.Base.{
  ◌==◌, Bool-cases, ok-injective, All, Text, text, cut, split, ℕ, ◌≡◌, refl, sym, ap, ◌∙◌, ◌≢◌, ◌⊎◌,
  inl, inr, Bool, true, false, some, [], ◌∷◌, ◌++◌, arith, ok,
}
use mesh_cdn.Base.Decimal.{decimal, is_digit, parse_int-decimal}
use mesh_cdn.Base.Numerals.{decimal-ne, decimal-is_digit}
use mesh_cdn.Command.Handlers.Scope.{
  DomainScope, is_host_char, all_chars, is_port_char, is_valid_hostname, match_proto, match_scope,
  parse_port, parse_ports, parse_domain_scope, canonical_scope,
}
use mesh_cdn.Command.Handlers.PortLists.{IsPort}

cut-free :
    (p : ℕ → Bool) (c : ℕ) (s t : Text)
    → p c ≡ false
    → all_chars p s ≡ true
    → cut c (s ++ c ∷ t) ≡ some (s, t)
unfolding cut
cut-free p c [] t n h = ground arith
cut-free p c (d ∷ s) t n h = elim (Bool-cases (d == c)) [
  | inl e ↦ absurd (ground arith)
  | inr e ↦ ground (arith, e, cut-free p c s t n (ground arith))
]

split-free :
    (p : ℕ → Bool) (c : ℕ) (s : Text) → p c ≡ false → all_chars p s ≡ true → split c s ≡ s ∷ []
unfolding split
split-free p c [] n h = refl
split-free p c (d ∷ s) n h = elim (Bool-cases (d == c)) [
  | inl e ↦ absurd (ground arith)
  | inr e ↦ ground (arith, e, split-free p c s n (ground arith))
]

all_digits :
    (q : ℕ → Bool) (s : Text)
    → All (λ c. is_digit c ≡ true) s
    → ((c : ℕ) → is_digit c ≡ true → q c ≡ true)
    → all_chars q s ≡ true
all_digits q [] h w = refl
all_digits q (c ∷ s) h w = rw (w c h.0) (all_digits q s h.1 w)

abbrev pub IsScheme : Text → Type 0
IsScheme proto = (proto ≡ text "http") ⊎ (proto ≡ text "https")

match_proto-scheme :
    (proto rest : Text)
    → IsScheme proto
    → match_proto (proto ++ (text "://" ++ rest)) ≡ some (proto, rest)
unfolding match_proto
match_proto-scheme proto rest (inl e) = rw e refl
match_proto-scheme proto rest (inr e) = rw e refl

match_scope-canonical :
    (proto host : Text) (port : ℕ)
    → IsScheme proto
    → is_valid_hostname host ≡ true
    → match_scope (canonical_scope proto host port) ≡ some (proto, host, decimal port)
unfolding match_scope canonical_scope
match_scope-canonical proto host port w v =
    let m = match_proto-scheme proto (host ++ 0x3A ∷ decimal port) w in
    let k = cut-free is_host_char 0x3A host (decimal port) refl (ground (arith, v)) in
    let g =
      all_digits is_port_char (decimal port) (decimal-is_digit port) (λ c e. ground (arith, e)) in
    go (decimal port) (decimal-ne port) m k g
  where
    go :
        (ds : Text)
        → ds ≢ []
        → match_proto (proto ++ (text "://" ++ (host ++ 0x3A ∷ ds)))
          ≡ some (proto, host ++ 0x3A ∷ ds)
        → cut 0x3A (host ++ 0x3A ∷ ds) ≡ some (host, ds)
        → all_chars is_port_char ds ≡ true
        → match_scope (proto ++ (text "://" ++ (host ++ (text ":" ++ ds)))) ≡ some (proto, host, ds)
    go [] n m k g = absurd (n refl)
    go (c ∷ ds) n m k g = ground (arith, m, k, g, v)

module _ (quote : Text → Text) (is_ip : Text → Bool) where
  parse_port-decimal : (port : ℕ) → IsPort port → parse_port quote is_ip [] (decimal port) ≡ ok port
  unfolding parse_port
  parse_port-decimal port r = let e = parse_int-decimal port (omega arith) in ground (arith, e)

  -- The canonical scope of a port from 1 to 65535, with a host name and http or https, is read as
  -- that scope with that port alone.
  pub parse_domain_scope-canonical :
      (proto host : Text) (port : ℕ)
      → IsScheme proto
      → is_valid_hostname host ≡ true
      → IsPort port
      → parse_domain_scope quote is_ip (canonical_scope proto host port)
        ≡ ok (record { proto = proto; host = host; ports = port ∷ [] })
  unfolding parse_domain_scope parse_ports
  parse_domain_scope-canonical proto host port w v r =
      go (decimal port) (decimal-ne port) (match_scope-canonical proto host port w v)
        (split-free is_digit 0x2C (decimal port) refl
          (all_digits is_digit (decimal port) (decimal-is_digit port) (λ c e. e)))
        (parse_port-decimal port r)
    where
      go :
          (ds : Text)
          → ds ≢ []
          → match_scope (canonical_scope proto host port) ≡ some (proto, host, ds)
          → split 0x2C ds ≡ ds ∷ []
          → parse_port quote is_ip [] ds ≡ ok port
          → parse_domain_scope quote is_ip (canonical_scope proto host port)
            ≡ ok (record { proto = proto; host = host; ports = port ∷ [] })
      go [] n m k g = absurd (n refl)
      go (c ∷ ds) n m k g = ground (arith, m, k, g, v)

-- Two ports of a scope have canonical scopes of their own.
pub canonical_scope-injective :
    (proto host : Text) (p q : ℕ)
    → IsScheme proto
    → is_valid_hostname host ≡ true
    → IsPort p
    → IsPort q
    → canonical_scope proto host p ≡ canonical_scope proto host q
    → p ≡ q
canonical_scope-injective proto host p q w v r t e =
    let a = parse_domain_scope-canonical (λ s. s) (λ s. false) proto host p w v r in
    let b = parse_domain_scope-canonical (λ s. s) (λ s. false) proto host q w v t in
    let z = ok-injective (sym a ∙ ap (parse_domain_scope (λ s. s) (λ s. false)) e ∙ b) in
    cons_eq (ap (λ (x : DomainScope). x.ports) z)
  where
    cons_eq : p ∷ [] ≡ q ∷ [] → p ≡ q
    cons_eq h = cc
