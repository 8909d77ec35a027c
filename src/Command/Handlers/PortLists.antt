-- ===== src/Command/Handlers/PortLists.antt =====
-- What parseDomainScope accepts.
use mesh_cdn.Base.{
  ◌==◌, Bool-cases, Option-cases, ok-injective, Result-cases, length, All, length-append,
  any-append, All-append, Text, text, same, split, ℕ, ◌+◌, ◌≤◌, ◌≡◌, refl, sym, ◌∙◌, subst, inl,
  inr, Bool, true, false, ◌||◌, some, List, [], ◌∷◌, ◌++◌, arith, ok,
}
use mesh_cdn.Base.Int.{ℤ, pos, negsuc}
use mesh_cdn.Base.Decimal.{parse_int}
use mesh_cdn.Command.Handlers.Scope.{
  DomainScope, is_valid_hostname, has_port, match_scope, parse_port, parse_ports,
  parse_domain_scope,
}

abbrev pub IsPort : ℕ → Type 0
IsPort p = (1 ≤ p) × (p ≤ 65535)

-- No port stands in the list twice.
abbrev pub Distinct : List ℕ → Type 0
Distinct [] = Unit
Distinct (p ∷ ps) = (has_port p ps ≡ false) × Distinct ps

Distinct-snoc :
    (p : ℕ) (ps : List ℕ) → Distinct ps → has_port p ps ≡ false → Distinct (ps ++ p ∷ [])
Distinct-snoc p [] d h = (refl, tt)
Distinct-snoc p (q ∷ ps) d h = (
  ground (arith, any-append (λ r. r == q) ps (p ∷ []), d.0),
  Distinct-snoc p ps d.1 (ground arith),
)

module _ (quote : Text → Text) (is_ip : Text → Bool) where
  parse_port-IsPort :
      (seen : List ℕ) (s : Text) (p : ℕ)
      → parse_port quote is_ip seen s ≡ ok p
      → IsPort p × (has_port p seen ≡ false)
  unfolding parse_port
  parse_port-IsPort seen s p h = elim (Option-cases (parse_int s)) [
    | inl e ↦ absurd (ground arith)
    | inr (z, e) ↦ go z e
  ]
    where
      go : (z : ℤ) → parse_int s ≡ some z → IsPort p × (has_port p seen ≡ false)
      go (pos n) e = elim (Bool-cases (has_port n seen)) [
        | inl d ↦ absurd (ground arith)
        | inr d ↦ ((ground arith, ground arith), ground arith)
      ]
      go (negsuc n) e = absurd (ground arith)

  parse_ports-Distinct :
      (seen : List ℕ) (ss : List Text) (ps : List ℕ)
      → parse_ports quote is_ip seen ss ≡ ok ps
      → All IsPort seen
      → Distinct seen
      → All IsPort ps × Distinct ps × (length ps ≡ length seen + length ss)
  unfolding parse_ports
  parse_ports-Distinct seen [] ps h a d =
      let e = ok-injective h in (subst (All IsPort) e a, subst Distinct e d, ground (arith, e))
  parse_ports-Distinct seen (s ∷ ss) ps h a d =
      elim (Result-cases (parse_port quote is_ip seen s)) [
        | inr (x, e) ↦ absurd (ground arith)
        | inl (p, e) ↦
            let (port, new) = parse_port-IsPort seen s p e in
            let r =
              parse_ports-Distinct (seen ++ p ∷ []) ss ps (ground arith)
                (All-append IsPort seen (p ∷ []) a (port, tt)) (Distinct-snoc p seen d new) in
            (r.0, r.1, ground (arith, r.2, length-append seen (p ∷ [])))
      ]

split-one : (c : ℕ) (s : Text) → 1 ≤ length (split c s)
unfolding split
split-one c [] = omega arith
split-one c (d ∷ s) = elim (Bool-cases (d == c)) [
  | inl e ↦ ground (arith, split-one c s)
  | inr e ↦ ground (arith, split-one c s)
]

module _ (quote : Text → Text) (is_ip : Text → Bool) where
  -- A scope that is accepted has one port at least; its ports are from 1 to 65535 and all
  -- different; its host is "-", a host name or an IP.
  pub parse_domain_scope_lem :
      (s : Text) (sc : DomainScope)
      → parse_domain_scope quote is_ip s ≡ ok sc
      → All IsPort sc.ports
        × Distinct sc.ports
        × (1 ≤ length sc.ports)
        × ((same sc.host (text "-") || (is_valid_hostname sc.host || is_ip sc.host)) ≡ true)
  unfolding parse_domain_scope
  parse_domain_scope_lem s sc h = elim (Option-cases (match_scope s)) [
    | inl e ↦ absurd (ground arith)
    | inr ((proto, host, ports), e) ↦ go proto host ports e
  ]
    where
      go :
          (proto host ports : Text)
          → match_scope s ≡ some (proto, host, ports)
          → All IsPort sc.ports
            × Distinct sc.ports
            × (1 ≤ length sc.ports)
            × ((same sc.host (text "-") || (is_valid_hostname sc.host || is_ip sc.host)) ≡ true)
      go proto host [] e = absurd (ground arith)
      go proto host (c ∷ ports) e =
          elim (Result-cases (parse_ports quote is_ip [] (split 0x2C (c ∷ ports)))) [
            | inr (x, f) ↦ absurd (ground arith)
            | inl (ps, f) ↦
                elim (Bool-cases (same host (text "-") || (is_valid_hostname host || is_ip host))) [
                  | inr g ↦ absurd (ground arith)
                  | inl g ↦
                      let found : DomainScope = record { proto = proto; host = host; ports = ps } in
                      let z : parse_domain_scope quote is_ip s ≡ ok found = ground arith in
                      let q = ok-injective (sym z ∙ h) in
                      let (a, d, l) =
                        parse_ports-Distinct quote is_ip [] (split 0x2C (c ∷ ports)) ps f tt tt in
                      subst
                        (λ (x : DomainScope).
                          All IsPort x.ports
                          × Distinct x.ports
                          × (1 ≤ length x.ports)
                          × ((same x.host (text "-") || (is_valid_hostname x.host || is_ip x.host))
                              ≡ true))
                        q (a, d, ground (arith, l, split-one 0x2C (c ∷ ports)), g)
                ]
          ]
