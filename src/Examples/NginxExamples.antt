-- ===== src/Examples/NginxExamples.antt =====
-- Bindings with overlapping patterns, rates and sizes.
use mesh_cdn.Base.{In, Text, text, ◌≡◌, refl, ◌≢◌, true, false, some, List, [], ◌∷◌}
use mesh_cdn.Base.Int.{pos}
use mesh_cdn.Base.Sort.{IsSorted}
use mesh_cdn.Nginx.Types.{CacheRule, Object, cache, defense, skipped}
use mesh_cdn.Nginx.Patterns.{pattern_to_nginx_location}
use mesh_cdn.Nginx.Sizes.{parse_size_to_bytes, parse_trimmed_size, scaled}
use mesh_cdn.Nginx.Policies.{rule_before, apply_bindings, new_policy}
use mesh_cdn.Nginx.Policies.Listings.{listings, listing_of}
use mesh_cdn.Nginx.Policies.Strictest.{IsStrictest, apply_bindings-IsStrictest}

abbrev objects : List Object
objects =
    cache (record {
      patterns = text "*.jpg" ∷ text "/static/" ∷ [];
      ttl = pos 600;
      browser_ttl = pos 0;
      hsts = false;
    })
    ∷ defense (record {
      ip = text "10.0.0.0/8" ∷ [];
      ua = [];
      ref = [];
      action = [];
      rate = pos 20;
      size = text "1g";
    })
    ∷ skipped
    ∷ cache
        (record { patterns = text "*.jpg" ∷ []; ttl = pos 60; browser_ttl = pos 5; hsts = true })
    ∷ defense (record {
      ip = text "9.9.9.9" ∷ [];
      ua = [];
      ref = [];
      action = text "allow";
      rate = pos 5;
      size = text "10m";
    })
    ∷ []

apply_bindings-IsStrictest_example :
    IsSorted rule_before (apply_bindings objects (new_policy (text "https://a:443"))).cache_rules
    × ((k : Text)
        → listing_of k (listings objects) ≢ []
        → (e : CacheRule) × In e
            (apply_bindings objects (new_policy (text "https://a:443"))).cache_rules
          × (e.pattern_text ≡ k))
    × ((e : CacheRule)
        → In e (apply_bindings objects (new_policy (text "https://a:443"))).cache_rules
        → (e.location ≡ pattern_to_nginx_location e.pattern_text)
          × IsStrictest e (listing_of e.pattern_text (listings objects)))
apply_bindings-IsStrictest_example = apply_bindings-IsStrictest objects (text "https://a:443")

-- A size that does not fit wraps to no bytes at all.
wrapped_size : parse_size_to_bytes (text "17179869184g") ≡ some (pos 0)
unfolding parse_size_to_bytes parse_trimmed_size scaled
wrapped_size = refl
