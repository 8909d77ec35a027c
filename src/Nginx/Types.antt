-- ===== src/Nginx/Types.antt =====
-- The types of internal/nginx/precedence.go.
use mesh_cdn.Base.{Text, ℕ, Bool, List}
use mesh_cdn.Base.Int.{ℤ}
use mesh_cdn.Nginx.Patterns.{Location}

-- CacheRuleEntry
pub record CacheRule : Type 0 where
  pub pattern_text : Text
  pub location : Location
  pub ttl : ℤ
  pub browser_ttl : ℤ
  pub hsts : Bool

-- A Go map from names to values.
abbrev pub Table : Type 0
Table = List (Text × Text)

pub record HeaderOps : Type 0 where
  pub request_add : Table
  pub request_del : List Text
  pub response_add : Table
  pub response_del : List Text

pub record RedirectEntry : Type 0 where
  pub from : Text
  pub to : Text
  pub status : ℤ
  pub regex : Bool
  pub precedence : ℕ

-- DefensePolicy, without BlockGeo, which nothing fills.
pub record DefensePolicy : Type 0 where
  pub block_ips : List Text
  pub allow_ips : List Text
  pub block_ua : List Text
  pub ref_allowed : List Text
  pub rate_limit : ℤ
  pub body_size : Text

pub record DomainPolicy : Type 0 where
  pub scope : Text
  pub cache_rules : List CacheRule
  pub header_ops : HeaderOps
  pub redirects : List RedirectEntry
  pub defenses : DefensePolicy

-- The objects, as they are decoded from JSON.
pub record CacheRaw : Type 0 where
  pub patterns : List Text
  pub ttl : ℤ
  pub browser_ttl : ℤ
  pub hsts : Bool

pub record DefenseRaw : Type 0 where
  pub ip : List Text
  pub ua : Text
  pub ref : List Text
  pub action : Text
  pub rate : ℤ
  pub size : Text

pub record RedirectRaw : Type 0 where
  pub from : Text
  pub to : Text
  pub status : ℤ
  pub regex : Bool

-- rawBinding, by its type. `skipped` is a binding whose JSON cannot be decoded, or of another type.
pub data Object : Type 0 where
  cache : CacheRaw → Object
  defense : DefenseRaw → Object
  redirect : RedirectRaw → Object
  header : HeaderOps → Object
  skipped : Object
