-- ===== src/Nginx/Policies/Listings.antt =====
-- The cache rules of a list of objects, as the patterns that are listed in order.
use mesh_cdn.Base.{
  if◌then◌else◌, Text, same, same_refl, same-false, ◌≡◌, refl, sym, ap, ◌∙◌, ◌≢◌, List, [], ◌∷◌,
  ◌++◌, map, arith,
}
use mesh_cdn.Base.Table.{DistinctKeys, put-DistinctKeys}
use mesh_cdn.Nginx.Types.{
  CacheRule, CacheRaw, DomainPolicy, Object, cache, defense, redirect, header, skipped,
}
use mesh_cdn.Nginx.Policies.{add_pattern, add_patterns, apply_object, apply_objects}

-- Each pattern that a cache object lists, with the object.
abbrev pub Listing : Type 0
Listing = List (Text × CacheRaw)

abbrev pub patterns_of : CacheRaw → Listing
patterns_of c = map (λ p. (p, c)) c.patterns

unfoldable pub listings : List Object → Listing
listings [] = []
listings (cache c ∷ os) = patterns_of c ++ listings os
listings (defense d ∷ os) = listings os
listings (redirect r ∷ os) = listings os
listings (header h ∷ os) = listings os
listings (skipped ∷ os) = listings os

unfoldable pub add_all : Listing → List (Text × CacheRule) → List (Text × CacheRule)
add_all [] table = table
add_all ((p, c) ∷ l) table = add_all l (add_pattern c p table)

add_patterns-add_all :
    (c : CacheRaw) (ps : List Text) (table : List (Text × CacheRule))
    → add_patterns c ps table ≡ add_all (map (λ p. (p, c)) ps) table
unfolding add_patterns add_all
add_patterns-add_all c [] table = refl
add_patterns-add_all c (p ∷ ps) table = add_patterns-add_all c ps (add_pattern c p table)

add_all-append :
    (l m : Listing) (table : List (Text × CacheRule))
    → add_all (l ++ m) table ≡ add_all m (add_all l table)
unfolding add_all
add_all-append [] m table = refl
add_all-append ((p, c) ∷ l) m table = add_all-append l m (add_pattern c p table)

-- The table that the loop leaves, and the rules of the policy, which it leaves alone.
pub apply_objects-table :
    (os : List Object) (p : DomainPolicy) (table : List (Text × CacheRule))
    → ((apply_objects os (p, table)).1 ≡ add_all (listings os) table)
      × ((apply_objects os (p, table)).0.cache_rules ≡ p.cache_rules)
unfolding apply_objects apply_object listings add_all
apply_objects-table [] p table = (refl, refl)
apply_objects-table (cache c ∷ os) p table =
    let (e, r) = apply_objects-table os p (add_patterns c c.patterns table) in
    (
      e
          ∙ ap (add_all (listings os)) (add_patterns-add_all c c.patterns table)
          ∙ sym (add_all-append (patterns_of c) (listings os) table),
      r,
    )
apply_objects-table (defense d ∷ os) p table =
    apply_objects-table os (apply_object (defense d) (p, table)).0 table
apply_objects-table (redirect r ∷ os) p table =
    apply_objects-table os (apply_object (redirect r) (p, table)).0 table
apply_objects-table (header h ∷ os) p table =
    apply_objects-table os (apply_object (header h) (p, table)).0 table
apply_objects-table (skipped ∷ os) p table = apply_objects-table os p table

add_pattern-DistinctKeys :
    (c : CacheRaw) (p : Text) (table : List (Text × CacheRule))
    → DistinctKeys table
    → DistinctKeys (add_pattern c p table)
unfolding add_pattern
add_pattern-DistinctKeys c p table d = grind (arith, put-DistinctKeys)

pub add_all-DistinctKeys :
    (l : Listing) (table : List (Text × CacheRule))
    → DistinctKeys table
    → DistinctKeys (add_all l table)
unfolding add_all
add_all-DistinctKeys [] table d = d
add_all-DistinctKeys ((p, c) ∷ l) table d =
    add_all-DistinctKeys l (add_pattern c p table) (add_pattern-DistinctKeys c p table d)

-- The objects that list a pattern, in order.
unfoldable pub listing_of : Text → Listing → List CacheRaw
unfolding same
listing_of k [] = []
listing_of k ((p, c) ∷ l) = let rest = listing_of k l in if same p k then c ∷ rest else rest

pub listing_of-snoc_self :
    (k : Text) (c : CacheRaw) (l : Listing)
    → listing_of k (l ++ (k, c) ∷ []) ≡ listing_of k l ++ c ∷ []
unfolding listing_of
listing_of-snoc_self k c [] = rw (same_refl k)
listing_of-snoc_self k c ((p, d) ∷ l) = ground (arith, listing_of-snoc_self k c l)

pub listing_of-snoc_ne :
    (k p : Text) (c : CacheRaw) (l : Listing)
    → p ≢ k
    → listing_of k (l ++ (p, c) ∷ []) ≡ listing_of k l
unfolding listing_of
listing_of-snoc_ne k p c [] n = rw (same-false p k n)
listing_of-snoc_ne k p c ((q, d) ∷ l) n = ground (arith, listing_of-snoc_ne k p c l n)
