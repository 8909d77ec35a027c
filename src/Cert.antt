-- ===== src/Cert.antt =====
-- internal/cert/selector.go, and the types of internal/cert/store.go that it reads.
pub mod Covering
pub mod Selection
pub mod Store
pub mod Renew
use mesh_cdn.Base.{
  ltb, ◌==◌, if◌then◌else◌, length, take, drop, filter, any, Text, text, same, is_empty, has_prefix,
  has_suffix, contains, ℕ, ◌-◌, Bool, false, not, ◌&&◌, ◌||◌, Option, none, some, List, [], ◌∷◌,
}
use mesh_cdn.Base.Int.{ltb_ℤ, pos}
use mesh_cdn.Base.Sort.{sort_by}
use mesh_cdn.Base.Time.{Time, is_zero, is_after, time_sub}

-- Source is a string type; `unknown` is any other value.
pub data Source : Type 0 where
  le upload self : Source
  unknown : Text → Source

unfoldable pub source_priority : Source → ℕ
source_priority le = 3
source_priority upload = 2
source_priority self = 1
source_priority (unknown s) = 0

pub record CertMeta : Type 0 where
  pub fingerprint_prefix : Text
  pub fingerprint_full : Text
  pub subject : Text
  pub san : List Text
  pub source : Source
  pub issuer : Text
  pub not_before : Time
  pub not_after : Time
  pub selected_for : List Text

-- The text in front of a suffix of a given length.
abbrev pub in_front : ℕ → Text → Text
in_front n target = take (length target - n) target

-- One label in front of the suffix ".example.com" of the entry "*.example.com".
unfoldable pub wildcard_covers : Text → Text → Bool
unfolding same
wildcard_covers suffix target =
    let prefix = in_front (length suffix) target in
    has_suffix target suffix && (not (is_empty prefix) && not (contains prefix 0x2E))

unfoldable pub san_covers : Text → Text → Bool
unfolding same wildcard_covers
san_covers target san =
    same san target || (has_prefix san (text "*.") && wildcard_covers (drop 1 san) target)

-- Covers
unfoldable pub covers : CertMeta → Text → Bool
unfolding same san_covers
covers c target = same c.subject target || any (san_covers target) c.san

abbrev pub is_expired : Time → CertMeta → Bool
is_expired now c = not (is_zero c.not_after) && is_after now c.not_after

-- FilterCovering
unfoldable pub filter_covering : Text → List CertMeta → Time → List CertMeta
unfolding covers
filter_covering endpoint candidates now =
    filter (λ c. not (is_expired now c) && covers c endpoint) candidates

-- betterCert
unfoldable pub better_cert : CertMeta → CertMeta → Bool
unfolding source_priority
better_cert a b =
    let pa = source_priority a.source in
    let pb = source_priority b.source in
    if not (pa == pb) then ltb pb pa else is_after a.not_after b.not_after

-- The first element, if there is one.
abbrev pub first : List CertMeta → Option CertMeta
first [] = none
first (c ∷ cs) = some c

-- SelectFor
unfoldable pub select_for : Text → List CertMeta → Time → Option CertMeta
select_for endpoint candidates now =
    first (sort_by better_cert (filter_covering endpoint candidates now))

-- IsExpiring, for a threshold that is not negative.
unfoldable pub is_expiring : CertMeta → Time → ℕ → Bool
unfolding time_sub
is_expiring c now threshold =
    if is_zero c.not_after then false else ltb_ℤ (time_sub c.not_after now) (pos threshold)
