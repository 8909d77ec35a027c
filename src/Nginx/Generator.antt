-- ===== src/Nginx/Generator.antt =====
-- internal/nginx/generator.go: the state that Generate collects, the staged files and their swap.
pub mod Swap
pub mod Renames
pub mod Publishing
pub mod Loops
pub mod Rendering
pub mod Quoting
pub mod Certificates
use mesh_cdn.Base.{
  leb, ◌==◌, if◌then◌else◌, Result, drop, any, find?, Text, text, same, is_empty, has_prefix, ℕ,
  Bool, true, false, not, ◌&&◌, ◌||◌, Option, none, some, List, [], ◌∷◌, ◌++◌, map, ok, err,
}
use mesh_cdn.Base.Before.{before}
use mesh_cdn.Base.Int.{ℤ, ltb_ℤ, beq_ℤ}
use mesh_cdn.Base.Decimal.{decimal_ℤ, parse_int}
use mesh_cdn.Base.Sort.{sort_by}
use mesh_cdn.Base.Table.{get}
use mesh_cdn.Base.Time.{Time}
use mesh_cdn.Cert.{CertMeta, Source, le, upload, self, unknown, select_for}
use mesh_cdn.Nginx.Types.{DomainPolicy}
use mesh_cdn.Nginx.Policies.{new_policy}

-- The paths of its files stand for the certificate: Paths makes them of the prefix.
pub record ServerEntry : Type 0 where
  pub scope : Text
  pub proto : Text
  pub host : Text
  pub port : ℤ
  pub origin : Text
  pub cert_fp : Text

pub record GeneratorState : Type 0 where
  pub servers : List ServerEntry
  pub port_protocols : List (ℤ × Text)
  pub all_certs : List CertMeta
  pub self_signed_fp : Text
  pub now : Time

-- strings.Index(s, "://"): the text before it and the text behind it.
unfoldable pub cut_scheme : Text → Option (Text × Text)
cut_scheme [] = none
cut_scheme (c ∷ s) =
    let rest = cut_scheme s in
    if has_prefix (c ∷ s) (text "://")
    then some ([], drop 2 s)
    else elim rest [ none ↦ none | some (a, b) ↦ some (c ∷ a, b) ]

-- strings.LastIndex(s, ":").
unfoldable pub cut_last_colon : Text → Option (Text × Text)
cut_last_colon [] = none
cut_last_colon (c ∷ s) = elim (cut_last_colon s) [
  | some (a, b) ↦ some (c ∷ a, b)
  | none ↦ if c == 0x3A then some ([], s) else none
]

-- parseServerScope; the error is not used.
unfoldable pub parse_server_scope : Text → Text → Option ServerEntry
unfolding cut_scheme cut_last_colon parse_int
parse_server_scope scope origin = elim (cut_scheme scope) [
  | none ↦ none
  | some (proto, rest) ↦ elim (cut_last_colon rest) [
    | none ↦ none
    | some (host, port) ↦ elim (parse_int port) [
      | none ↦ none
      | some p ↦ some (record {
        scope = scope;
        proto = proto;
        host = host;
        port = p;
        origin = origin;
        cert_fp = [];
      })
    ]
  ]
]

-- The rows whose scope can be read.
unfoldable pub read_servers : List (Text × Text) → List ServerEntry
unfolding parse_server_scope
read_servers [] = []
read_servers ((scope, origin) ∷ rows) = elim (parse_server_scope scope origin) [
  | none ↦ read_servers rows
  | some e ↦ e ∷ read_servers rows
]

-- m[port] = proto
unfoldable pub put_port : ℤ → Text → List (ℤ × Text) → List (ℤ × Text)
put_port p proto [] = (p, proto) ∷ []
put_port p proto ((q, old) ∷ m) =
    let rest = put_port p proto m in if beq_ℤ q p then (q, proto) ∷ m else (q, old) ∷ rest

-- The ports of the servers, if the table of the ports is empty.
unfoldable pub ports_of : List ServerEntry → List (ℤ × Text) → List (ℤ × Text)
unfolding put_port
ports_of [] m = m
ports_of (s ∷ ss) m = ports_of ss (put_port s.port s.proto m)

abbrev port_table : List ServerEntry → List (ℤ × Text) → List (ℤ × Text)
port_table ss [] = ports_of ss []
port_table ss (p ∷ ps) = p ∷ ps

abbrev is_self : Source → Bool
is_self le = false
is_self upload = false
is_self self = true
is_self (unknown s) = false

-- A certificate that the node signed for its own IP.
unfoldable pub is_own_cert : Text → CertMeta → Bool
unfolding same
is_own_cert node_ip c =
    is_self c.source && (same c.subject node_ip || any (λ san. same san node_ip) c.san)

abbrev fingerprint_of : Option CertMeta → Text
fingerprint_of none = []
fingerprint_of (some c) = c.fingerprint_prefix

abbrev server_before : ServerEntry → ServerEntry → Bool
server_before a b = if not (beq_ℤ a.port b.port) then ltb_ℤ a.port b.port else before a.host b.host

-- collectState, on the rows of its two queries and the list of the certificates.
unfoldable pub collect_state :
    Result Text (List (Text × Text))
    → Result Text (List (ℤ × Text))
    → Result Text (List CertMeta)
    → Text
    → Time
    → Result Text GeneratorState
unfolding read_servers ports_of is_own_cert
collect_state (err e) ports certs node_ip now = err (text "query domains: " ++ e)
collect_state (ok rows) (err e) certs node_ip now = err (text "query port_protocols: " ++ e)
collect_state (ok rows) (ok ports) (err e) node_ip now = err (text "load certs: " ++ e)
collect_state (ok rows) (ok ports) (ok certs) node_ip now = ok (record {
  servers = sort_by server_before (read_servers rows);
  port_protocols = port_table (read_servers rows) ports;
  all_certs = certs;
  self_signed_fp = fingerprint_of (find? (is_own_cert node_ip) certs);
  now = now;
})

-- One round of resolveCerts.
unfoldable pub resolve_cert : Text → GeneratorState → ServerEntry → ServerEntry
unfolding same select_for
resolve_cert node_ip st s =
    if not (same s.proto (text "https"))
    then s
    else elim (select_for (if same s.host (text "-") then node_ip else s.host) st.all_certs
        st.now) [
          | some c ↦ record s { cert_fp = c.fingerprint_prefix }
          | none ↦
              if is_empty st.self_signed_fp then s else record s { cert_fp = st.self_signed_fp }
        ]

-- resolveCerts
abbrev pub resolve_certs : Text → GeneratorState → GeneratorState
resolve_certs node_ip st = record st { servers = map (resolve_cert node_ip st) st.servers }

-- The loop of luaQuote.
unfoldable pub escaped : Text → Text
escaped [] = []
escaped (r ∷ s) =
    let rest = escaped s in
    if r == 0x5C
    then 0x5C ∷ 0x5C ∷ rest
    else if r == 0x22
    then 0x5C ∷ 0x22 ∷ rest
    else if r == 0x0A
    then 0x5C ∷ 0x6E ∷ rest
    else if r == 0x0D
    then 0x5C ∷ 0x72 ∷ rest
    else r ∷ rest

-- luaQuote
unfoldable pub lua_quote : Text → Text
unfolding escaped
lua_quote s = 0x22 ∷ (escaped s ++ 0x22 ∷ [])

abbrev is_file_char : ℕ → Bool
is_file_char c =
    (leb 0x61 c && leb c 0x7A)
    || (leb 0x41 c && leb c 0x5A)
    || (leb 0x30 c && leb c 0x39)
    || c == 0x2E
    || c == 0x2D

-- sanitizeFilename
unfoldable pub sanitize_filename : Text → Text
unfolding same
sanitize_filename s =
    if same s (text "-") then text "any" else map (λ r. if is_file_char r then r else 0x5F) s

-- The names of the files under servers/.
unfoldable pub server_file : ServerEntry → Text
unfolding sanitize_filename decimal_ℤ
server_file s =
    text "domain-" ++ (sanitize_filename s.host ++ (text "-" ++ (decimal_ℤ s.port ++ text ".conf")))

unfoldable pub default_file : ℤ → Text
unfolding decimal_ℤ
default_file port = text "default-" ++ (decimal_ℤ port ++ text ".conf")

abbrev pub policy_of : Text → List (Text × DomainPolicy) → DomainPolicy
policy_of scope policies = elim (get scope policies) [ some p ↦ p | none ↦ new_policy scope ]
