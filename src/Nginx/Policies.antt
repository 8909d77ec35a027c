-- ===== src/Nginx/Policies.antt =====
-- applyBindings and BuildPoliciesFromDB of internal/nginx/precedence.go.
pub mod Listings
pub mod Strictest
pub mod Defenses
use mesh_cdn.Base.{
  ltb, ◌==◌, if◌then◌else◌, Result, length, filter, Text, text, same, is_empty, byte_len, Bool,
  true, not, ◌&&◌, ◌||◌, none, some, List, [], ◌∷◌, ◌++◌, map, ok, err,
}
use mesh_cdn.Base.Before.{before}
use mesh_cdn.Base.Int.{ℤ, pos, ltb_ℤ, beq_ℤ}
use mesh_cdn.Base.Sort.{sort_by}
use mesh_cdn.Base.Table.{get, put}
use mesh_cdn.Nginx.Types.{
  CacheRule, Table, HeaderOps, RedirectEntry, DefensePolicy, DomainPolicy, CacheRaw, DefenseRaw,
  RedirectRaw, Object, cache, defense, redirect, header, skipped,
}
use mesh_cdn.Nginx.Patterns.{pattern_to_nginx_location, path_precedence}
use mesh_cdn.Nginx.Sizes.{parse_size_to_bytes}

abbrev positive : ℤ → Bool
positive n = ltb_ℤ (pos 0) n

-- The merge of a cache object into a rule with the same pattern.
unfoldable pub stricter : CacheRaw → CacheRule → CacheRule
stricter c e = record e {
  ttl = if ltb_ℤ c.ttl e.ttl then c.ttl else e.ttl;
  browser_ttl =
      if positive c.browser_ttl
        && (beq_ℤ e.browser_ttl (pos 0) || ltb_ℤ c.browser_ttl e.browser_ttl)
      then c.browser_ttl
      else e.browser_ttl;
  hsts = if c.hsts then true else e.hsts;
}

unfoldable pub new_rule : Text → CacheRaw → CacheRule
new_rule p c = record {
  pattern_text = p;
  location = pattern_to_nginx_location p;
  ttl = c.ttl;
  browser_ttl = c.browser_ttl;
  hsts = c.hsts;
}

-- One pattern of a cache object, in the table of the rules by pattern.
unfoldable pub add_pattern : CacheRaw → Text → List (Text × CacheRule) → List (Text × CacheRule)
add_pattern c p table = elim (get p table) [
  | none ↦ put p (new_rule p c) table
  | some e ↦ put p (stricter c e) table
]

unfoldable pub add_patterns :
    CacheRaw → List Text → List (Text × CacheRule) → List (Text × CacheRule)
add_patterns c [] table = table
add_patterns c (p ∷ ps) table = add_patterns c ps (add_pattern c p table)

-- Which of two sizes is kept: the one that was there, or the new one.
unfoldable pub smaller_size : Text → Text → Text
smaller_size kept given =
    if is_empty given
    then kept
    else if is_empty kept
    then given
    else elim (parse_size_to_bytes given) [
      | none ↦ kept
      | some n ↦ elim (parse_size_to_bytes kept) [
        | none ↦ given
        | some m ↦ if ltb_ℤ n m then given else kept
      ]
    ]

unfoldable pub smaller_rate : ℤ → ℤ → ℤ
smaller_rate kept given =
    if positive given && (beq_ℤ kept (pos 0) || ltb_ℤ given kept) then given else kept

abbrev blocks : DefenseRaw → Bool
blocks d = is_empty d.action || same d.action (text "block")

unfoldable pub add_defense : DefenseRaw → DefensePolicy → DefensePolicy
unfolding same
add_defense d p = record {
  block_ips = if blocks d then p.block_ips ++ d.ip else p.block_ips;
  allow_ips = if blocks d then p.allow_ips else p.allow_ips ++ d.ip;
  block_ua = if is_empty d.ua then p.block_ua else p.block_ua ++ d.ua ∷ [];
  ref_allowed = p.ref_allowed ++ d.ref;
  rate_limit = smaller_rate p.rate_limit d.rate;
  body_size = smaller_size p.body_size d.size;
}

unfoldable pub redirect_entry : RedirectRaw → RedirectEntry
redirect_entry r = record {
  from = r.from;
  to = r.to;
  status = if beq_ℤ r.status (pos 0) then pos 301 else r.status;
  regex = r.regex;
  precedence = path_precedence r.from r.regex;
}

unfoldable pub put_all : Table → Table → Table
put_all [] m = m
put_all ((k, v) ∷ kvs) m = put_all kvs (put k v m)

unfoldable pub add_header : HeaderOps → HeaderOps → HeaderOps
add_header h ops = record {
  request_add = put_all h.request_add ops.request_add;
  request_del = ops.request_del ++ h.request_del;
  response_add = put_all h.response_add ops.response_add;
  response_del = ops.response_del ++ h.response_del;
}

-- The loop's state: the policy, and the cache rules by pattern.
abbrev pub Building : Type 0
Building = DomainPolicy × List (Text × CacheRule)

-- One round of the loop.
unfoldable pub apply_object : Object → Building → Building
apply_object (cache c) (p, table) = (p, add_patterns c c.patterns table)
apply_object (defense d) (p, table) = (record p { defenses = add_defense d p.defenses }, table)
apply_object (redirect r) (p, table) =
    (record p { redirects = p.redirects ++ redirect_entry r ∷ [] }, table)
apply_object (header h) (p, table) = (record p { header_ops = add_header h p.header_ops }, table)
apply_object skipped b = b

unfoldable pub apply_objects : List Object → Building → Building
apply_objects [] b = b
apply_objects (o ∷ os) b = apply_objects os (apply_object o b)

abbrev pub rule_before : CacheRule → CacheRule → Bool
rule_before a b =
    if not (a.location.precedence == b.location.precedence)
    then ltb a.location.precedence b.location.precedence
    else before a.pattern_text b.pattern_text

-- The length is that of the bytes.
abbrev pub redirect_before : RedirectEntry → RedirectEntry → Bool
redirect_before a b =
    if not (a.precedence == b.precedence)
    then ltb a.precedence b.precedence
    else ltb (byte_len b.from) (byte_len a.from)

-- applyBindings, on the objects of the bindings.
unfoldable pub apply_bindings : List Object → DomainPolicy → DomainPolicy
apply_bindings objects p =
    let (q, table) = apply_objects objects (p, []) in
    record q {
      cache_rules =
          sort_by rule_before (q.cache_rules ++ map (λ (e : Text × CacheRule). e.1) table);
      redirects = sort_by redirect_before q.redirects;
    }

abbrev pub new_policy : Text → DomainPolicy
new_policy scope = record {
  scope = scope;
  cache_rules = [];
  header_ops = record { request_add = []; request_del = []; response_add = []; response_del = [] };
  redirects = [];
  defenses = record {
    block_ips = [];
    allow_ips = [];
    block_ua = [];
    ref_allowed = [];
    rate_limit = pos 0;
    body_size = [];
  };
}

-- The objects that are bound to a display scope, in the order of the query.
unfoldable pub bound_to : Text → List (Text × Object) → List Object
unfolding same
bound_to display rows =
    map (λ (r : Text × Object). r.1) (filter (λ (r : Text × Object). same r.0 display) rows)

-- BuildPoliciesFromDB, on the rows of its two queries: the table scope → policy.
unfoldable pub build_policies :
    Result Text (List (Text × Text))
    → Result Text (List (Text × Object))
    → Result Text (List (Text × DomainPolicy))
build_policies (err e) bindings = err e
build_policies (ok domains) (err e) = err e
build_policies (ok domains) (ok bindings) = ok (
    map
      (λ (row : Text × Text). (row.0, apply_bindings (bound_to row.1 bindings) (new_policy row.0)))
      domains)
