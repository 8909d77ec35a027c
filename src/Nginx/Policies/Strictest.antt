-- ===== src/Nginx/Policies/Strictest.antt =====
-- The cache rules that the bindings of an endpoint merge into.
use mathlib.Core.Path.{ap₂}
use mesh_cdn.Base.{
  Bool-cases, Option-cases, any, All, In, In-append_left, In-append_right, any-append, All-append,
  In-map, map-In, Text, same, same→eq, eq→same, ◌≡◌, refl, sym, ap, ◌∙◌, subst, ◌≢◌, inl, inr, true,
  false, Option, none, some, List, [], ◌∷◌, ◌++◌, map, append-nil, append_assoc, arith,
}
use mesh_cdn.Base.Before.{before-asym, before_trans}
use mesh_cdn.Base.Int.{ltb_ℤ, ◌≤ℤ◌}
use mesh_cdn.Base.Sort.{sort_by, IsOrder, IsSorted, sort_by-IsSorted, In-sort_by}
use mesh_cdn.Base.Table.{get, get-put_self, get-put_ne, In-get, get-In}
use mesh_cdn.Nginx.Patterns.{pattern_to_nginx_location}
use mesh_cdn.Nginx.Types.{CacheRule, CacheRaw, Object}
use mesh_cdn.Nginx.Policies.{
  stricter, new_rule, add_pattern, rule_before, apply_bindings, new_policy,
}
use mesh_cdn.Nginx.Policies.Listings.{
  Listing, listings, add_all, apply_objects-table, add_all-DistinctKeys, listing_of,
  listing_of-snoc_self, listing_of-snoc_ne,
}

-- The rule has the least ttl of the objects, and hsts if one of them has.
pub record IsStrictest (e : CacheRule) (cs : List CacheRaw) : Type 0 where
  pub ttl_given : (c : CacheRaw) × In c cs × (e.ttl ≡ c.ttl)
  pub ttl_least : All (λ (c : CacheRaw). e.ttl ≤ℤ c.ttl) cs
  pub hsts_any : e.hsts ≡ any (λ (c : CacheRaw). c.hsts) cs

-- What the table should have for a pattern.
abbrev Merged : Text → List CacheRaw → Option CacheRule → Type 0
Merged k cs none = cs ≡ []
Merged k cs (some e) =
    (e.pattern_text ≡ k) × (e.location ≡ pattern_to_nginx_location k) × IsStrictest e cs

new_rule-IsStrictest : (k : Text) (c : CacheRaw) → IsStrictest (new_rule k c) (c ∷ [])
unfolding new_rule
new_rule-IsStrictest k c = record {
  ttl_given = (c, inl refl, refl);
  ttl_least = (ground arith, tt);
  hsts_any = ground arith;
}

ttl_least-stricter :
    (c : CacheRaw) (e : CacheRule) (cs : List CacheRaw)
    → All (λ (d : CacheRaw). e.ttl ≤ℤ d.ttl) cs
    → All (λ (d : CacheRaw). (stricter c e).ttl ≤ℤ d.ttl) cs
unfolding stricter
ttl_least-stricter c e [] h = tt
ttl_least-stricter c e (d ∷ cs) h = (ground (arith, h.0), ttl_least-stricter c e cs h.1)

stricter-IsStrictest :
    (c : CacheRaw) (e : CacheRule) (cs : List CacheRaw)
    → IsStrictest e cs
    → IsStrictest (stricter c e) (cs ++ c ∷ [])
unfolding stricter
stricter-IsStrictest c e cs s = record {
  ttl_given = elim (Bool-cases (ltb_ℤ c.ttl e.ttl)) [
    | inl t ↦ (c, In-append_right c cs (c ∷ []) (inl refl), rw t refl)
    | inr t ↦ let (d, m, q) = s.ttl_given in (d, In-append_left d cs (c ∷ []) m, rw t q)
  ];
  ttl_least =
      All-append (λ (d : CacheRaw). (stricter c e).ttl ≤ℤ d.ttl) cs (c ∷ [])
        (ttl_least-stricter c e cs s.ttl_least) (ground arith, tt);
  hsts_any = ground (arith, s.hsts_any, any-append (λ (d : CacheRaw). d.hsts) cs (c ∷ []));
}

add_pattern-get-none :
    (c : CacheRaw) (k : Text) (table : List (Text × CacheRule))
    → get k table ≡ none
    → get k (add_pattern c k table) ≡ some (new_rule k c)
unfolding add_pattern
add_pattern-get-none c k table e = ground (arith, get-put_self k (new_rule k c) table)

add_pattern-get-some :
    (c : CacheRaw) (k : Text) (table : List (Text × CacheRule)) (r : CacheRule)
    → get k table ≡ some r
    → get k (add_pattern c k table) ≡ some (stricter c r)
unfolding add_pattern
add_pattern-get-some c k table r e = ground (arith, get-put_self k (stricter c r) table)

add_pattern-Merged_self :
    (c : CacheRaw) (k : Text) (cs : List CacheRaw) (table : List (Text × CacheRule))
    → Merged k cs (get k table)
    → Merged k (cs ++ c ∷ []) (get k (add_pattern c k table))
add_pattern-Merged_self c k cs table m = elim (Option-cases (get k table)) [
  | inl e ↦
      let fresh : cs ≡ [] = subst (Merged k cs) e m in
      subst (Merged k (cs ++ c ∷ [])) (sym (add_pattern-get-none c k table e)) (
        unfold new_rule in
        (
          refl,
          refl,
          subst (λ l. IsStrictest (new_rule k c) (l ++ c ∷ [])) (sym fresh)
              (new_rule-IsStrictest k c),
        ))
  | inr (r, e) ↦
      let (name, place, s) = subst (Merged k cs) e m in
      subst (Merged k (cs ++ c ∷ [])) (sym (add_pattern-get-some c k table r e))
        (unfold stricter in (name, place, stricter-IsStrictest c r cs s))
]

add_pattern-get_ne :
    (c : CacheRaw) (p k : Text) (table : List (Text × CacheRule))
    → p ≢ k
    → get k (add_pattern c p table) ≡ get k table
unfolding add_pattern
add_pattern-get_ne c p k table n = grind (arith, get-put_ne)

true-ne-false : true ≡ false → ⊥
true-ne-false h = cc

add_all-Merged :
    (done todo : Listing) (table : List (Text × CacheRule))
    → ((k : Text) → Merged k (listing_of k done) (get k table))
    → (k : Text) → Merged k (listing_of k (done ++ todo)) (get k (add_all todo table))
unfolding add_all
add_all-Merged done [] table h k = rw append-nil (h k)
add_all-Merged done ((p, c) ∷ todo) table h k =
    let whole = add_all-Merged (done ++ (p, c) ∷ []) todo (add_pattern c p table) next k in
    subst (λ l. Merged k (listing_of k l) (get k (add_all todo (add_pattern c p table))))
      (append_assoc done ((p, c) ∷ []) todo) whole
  where
    next :
        (j : Text) → Merged j (listing_of j (done ++ (p, c) ∷ [])) (get j (add_pattern c p table))
    next j = elim (Bool-cases (same p j)) [
      | inl e ↦
          let q = same→eq p j e in
          let own =
            subst (λ l. Merged p l (get p (add_pattern c p table)))
              (sym (listing_of-snoc_self p c done))
              (add_pattern-Merged_self c p (listing_of p done) table (h p)) in
          subst (λ i. Merged i (listing_of i (done ++ (p, c) ∷ [])) (get i (add_pattern c p table)))
            q own
      | inr e ↦
          let n : p ≢ j = λ q. true-ne-false (sym (eq→same p j q) ∙ e) in
          subst (λ l. Merged j l (get j (add_pattern c p table)))
            (sym (listing_of-snoc_ne j p c done n))
            (subst (Merged j (listing_of j done)) (sym (add_pattern-get_ne c p j table n)) (h j))
    ]

rule_before-IsOrder : IsOrder rule_before
rule_before-IsOrder = record {
  asym = λ a b h. ground (arith, before-asym a.pattern_text b.pattern_text);
  trans = λ a b c h k. ground (arith, before_trans a.pattern_text b.pattern_text c.pattern_text);
}

module _ (objects : List Object) (scope : Text) where
  abbrev merged_table : List (Text × CacheRule)
  merged_table = add_all (listings objects) []

  abbrev merged_rules : List CacheRule
  merged_rules = map (λ (e : Text × CacheRule). e.1) merged_table

  merged_table-Merged : (k : Text) → Merged k (listing_of k (listings objects)) (get k merged_table)
  merged_table-Merged = add_all-Merged [] (listings objects) [] (λ k. unfold listing_of get in refl)

  cache_rules-eq :
      (apply_bindings objects (new_policy scope)).cache_rules ≡ sort_by rule_before merged_rules
  unfolding apply_bindings
  cache_rules-eq =
      let (t, r) = apply_objects-table objects (new_policy scope) [] in
      ap₂ (λ rs table. sort_by rule_before (rs ++ map (λ (e : Text × CacheRule). e.1) table)) r t

  rule_of_pattern :
      (k : Text)
      → listing_of k (listings objects) ≢ []
      → (e : CacheRule) × In e merged_rules × (e.pattern_text ≡ k)
  rule_of_pattern k n = elim (Option-cases (get k merged_table)) [
    | inl e ↦
        absurd (n (subst (Merged k (listing_of k (listings objects))) e (merged_table-Merged k)))
    | inr (r, e) ↦ (
      r,
      In-map (λ (x : Text × CacheRule). x.1) (k, r) merged_table (In-get k r merged_table e),
      (subst (Merged k (listing_of k (listings objects))) e (merged_table-Merged k)).0,
    )
  ]

  rule-IsStrictest :
      (e : CacheRule)
      → In e merged_rules
      → (e.location ≡ pattern_to_nginx_location e.pattern_text)
        × IsStrictest e (listing_of e.pattern_text (listings objects))
  rule-IsStrictest e m =
      let ((k, r), i, q) = map-In (λ (x : Text × CacheRule). x.1) e merged_table m in
      let own = get-In k r merged_table (add_all-DistinctKeys (listings objects) [] tt) i in
      let (name, place, s) =
        subst (Merged k (listing_of k (listings objects))) own (merged_table-Merged k) in
      subst
        (λ (x : CacheRule).
          (x.location ≡ pattern_to_nginx_location x.pattern_text)
          × IsStrictest x (listing_of x.pattern_text (listings objects)))
        (sym q)
        (
          place ∙ ap pattern_to_nginx_location (sym name),
          subst (λ j. IsStrictest r (listing_of j (listings objects))) (sym name) s,
        )

-- For an endpoint with no rules yet, the cache rules that its bindings make are sorted by rank and
-- then by pattern. Every pattern that a cache object lists has a rule; and every rule is for such a
-- pattern, has the least ttl of the objects that list it, and has hsts exactly if one of them has.
pub apply_bindings-IsStrictest :
    (objects : List Object) (scope : Text)
    → IsSorted rule_before (apply_bindings objects (new_policy scope)).cache_rules
      × ((k : Text)
          → listing_of k (listings objects) ≢ []
          → (e : CacheRule) × In e (apply_bindings objects (new_policy scope)).cache_rules
            × (e.pattern_text ≡ k))
      × ((e : CacheRule)
          → In e (apply_bindings objects (new_policy scope)).cache_rules
          → (e.location ≡ pattern_to_nginx_location e.pattern_text)
            × IsStrictest e (listing_of e.pattern_text (listings objects)))
apply_bindings-IsStrictest objects scope =
    let e = cache_rules-eq objects scope in
    let rules = merged_rules objects scope in
    (
      subst (IsSorted rule_before) (sym e) (sort_by-IsSorted rule_before rule_before-IsOrder rules),
      λ k n.
          let (r, m, q) = rule_of_pattern objects scope k n in
          (r, subst (In r) (sym e) ((In-sort_by rule_before r rules).1 m), q),
      λ r m.
          rule-IsStrictest objects scope r ((In-sort_by rule_before r rules).0 (subst (In r) e m)),
    )
