-- ===== src/Command/Handlers/Scope.antt =====
-- The scopes and origins of internal/command/handlers/domain.go.
use mesh_cdn.Base.{
  leb, ◌==◌, if◌then◌else◌, Result, drop, any, Text, text, same, is_empty, has_prefix, cut, split,
  ℕ, Bool, true, not, ◌&&◌, ◌||◌, Option, none, some, List, [], ◌∷◌, ◌++◌, map, ok, err,
}
use mesh_cdn.Base.Int.{pos, pos_part, ltb_ℤ}
use mesh_cdn.Base.Decimal.{decimal, decimal_ℤ, parse_int, is_digit}

-- The class [a-zA-Z0-9\-\.] of the two regular expressions, and of isValidHostname.
abbrev pub is_host_char : ℕ → Bool
is_host_char c =
    (leb 0x61 c && leb c 0x7A)
    || (leb 0x41 c && leb c 0x5A)
    || (leb 0x30 c && leb c 0x39)
    || c == 0x2D
    || c == 0x2E

abbrev pub all_chars : (ℕ → Bool) → Text → Bool
all_chars p [] = true
all_chars p (c ∷ s) = p c && all_chars p s

-- isValidHostname
abbrev pub is_valid_hostname : Text → Bool
is_valid_hostname h = not (is_empty h) && all_chars is_host_char h

abbrev pub is_port_char : ℕ → Bool
is_port_char c = is_digit c || c == 0x2C

-- The group (https?) and the text behind "://".
unfoldable pub match_proto : Text → Option (Text × Text)
match_proto s =
    if has_prefix s (text "https://")
    then some (text "https", drop 8 s)
    else if has_prefix s (text "http://")
    then some (text "http", drop 7 s)
    else none

-- The groups of scopeRE. The host has no colon in it.
unfoldable pub match_scope : Text → Option (Text × Text × Text)
unfolding match_proto cut
match_scope s = elim (match_proto s) [
  | none ↦ none
  | some (proto, rest) ↦ elim (cut 0x3A rest) [
    | none ↦ if is_valid_hostname rest then some (proto, rest, []) else none
    | some (host, ports) ↦
        if is_valid_hostname host && (not (is_empty ports) && all_chars is_port_char ports)
        then some (proto, host, ports)
        else none
  ]
]

pub record DomainScope : Type 0 where
  pub proto : Text
  pub host : Text
  pub ports : List ℕ

abbrev pub has_port : ℕ → List ℕ → Bool
has_port p ps = any (λ q. q == p) ps

module _ (quote : Text → Text) (is_ip : Text → Bool) where
  -- A port behind those that the loop has seen.
  unfoldable pub parse_port : List ℕ → Text → Result Text ℕ
  unfolding parse_int decimal_ℤ
  parse_port seen s = elim (parse_int s) [
    | none ↦ err (text "invalid port " ++ quote s)
    | some p ↦
        if ltb_ℤ p (pos 1) || ltb_ℤ (pos 65535) p
        then err (text "port out of range: " ++ decimal_ℤ p)
        else if has_port (pos_part p) seen
        then err (text "duplicate port " ++ decimal_ℤ p)
        else ok (pos_part p)
  ]

  -- The loop over the ports.
  unfoldable pub parse_ports : List ℕ → List Text → Result Text (List ℕ)
  unfolding parse_port
  parse_ports seen [] = ok seen
  parse_ports seen (s ∷ ss) = elim (parse_port seen s) [
    | err e ↦ err e
    | ok p ↦ parse_ports (seen ++ p ∷ []) ss
  ]

  abbrev is_good_host : Text → Bool
  is_good_host host = is_valid_hostname host || is_ip host

  -- parseDomainScope
  unfoldable pub parse_domain_scope : Text → Result Text DomainScope
  unfolding match_scope parse_ports same split
  parse_domain_scope s = elim (match_scope s) [
    | none ↦ err (text "scope must be <proto>://<host>:<port>, got " ++ quote s)
    | some (proto, host, []) ↦ err (text "scope must include a port")
    | some (proto, host, c ∷ ports) ↦ elim (parse_ports [] (split 0x2C (c ∷ ports))) [
      | err e ↦ err e
      | ok ps ↦
          if same host (text "-") || is_good_host host
          then ok (record { proto = proto; host = host; ports = ps })
          else err (text "invalid host: " ++ quote host)
    ]
  ]

  -- parseOriginEndpoint, as Validate uses it: the error, if any.
  unfoldable pub origin_error : Text → Option Text
  unfolding match_proto cut parse_int
  origin_error s =
      let bad = some (text "origin must be <proto>://<host>:<port>, got " ++ quote s) in
      elim (match_proto s) [
        | none ↦ bad
        | some (proto, rest) ↦ elim (cut 0x3A rest) [
          | none ↦ bad
          | some (host, port) ↦
              if not (is_valid_hostname host && (not (is_empty port) && all_chars is_digit port))
              then bad
              else elim (parse_int port) [
                | none ↦ some (text "invalid port: " ++ port)
                | some p ↦
                    if ltb_ℤ p (pos 1) || ltb_ℤ (pos 65535) p
                    then some (text "invalid port: " ++ port)
                    else if not (is_good_host host)
                    then some (text "invalid host: " ++ quote host)
                    else none
              ]
        ]
      ]

-- canonicalScope
unfoldable pub canonical_scope : Text → Text → ℕ → Text
unfolding decimal
canonical_scope proto host port = proto ++ (text "://" ++ (host ++ (text ":" ++ decimal port)))

-- The canonical scopes of a scope, in the order of its ports.
abbrev pub canonicals : DomainScope → List Text
canonicals sc = map (canonical_scope sc.proto sc.host) sc.ports
