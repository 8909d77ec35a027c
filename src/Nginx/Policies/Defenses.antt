-- ===== src/Nginx/Policies/Defenses.antt =====
-- The defense rules that the bindings of an endpoint merge into.
use mathlib.Core.List.{append-nil, append_assoc}
use mesh_cdn.Base.{
  if◌then◌else◌, All, In, Text, ◌≡◌, refl, sym, ◌∙◌, subst, ◌⊎◌, inl, inr, Bool, true, false, List,
  [], ◌∷◌, ◌++◌, arith,
}
use mesh_cdn.Base.Int.{ℤ, pos, ◌≤ℤ◌}
use mesh_cdn.Nginx.Types.{
  CacheRule, DefenseRaw, DomainPolicy, Object, cache, defense, redirect, header, skipped,
}
use mesh_cdn.Nginx.Policies.{
  blocks, smaller_rate, add_defense, apply_object, apply_objects, apply_bindings, new_policy,
}

-- The defense objects, in order.
unfoldable pub defenses_of : List Object → List DefenseRaw
defenses_of [] = []
defenses_of (cache c ∷ os) = defenses_of os
defenses_of (defense d ∷ os) = d ∷ defenses_of os
defenses_of (redirect r ∷ os) = defenses_of os
defenses_of (header h ∷ os) = defenses_of os
defenses_of (skipped ∷ os) = defenses_of os

-- The addresses of the objects that block, or of those that do not.
unfoldable pub addresses : Bool → List DefenseRaw → List Text
addresses blocking [] = []
addresses blocking (d ∷ ds) =
    let rest = addresses blocking ds in
    if blocks d
    then (if blocking then d.ip ++ rest else rest)
    else if blocking
    then rest
    else d.ip ++ rest

-- `r` is the least rate above 0 of `kept` and the objects' rates, or 0 if there is none.
abbrev pub IsLeastRate : ℤ → List DefenseRaw → ℤ → Type 0
IsLeastRate kept ds r =
    ((r ≡ kept) ⊎ ((d : DefenseRaw) × In d ds × (r ≡ d.rate)))
    × ((kept ≡ pos 0) ⊎ ((r ≤ℤ kept) × (pos 1 ≤ℤ r)))
    × All (λ (d : DefenseRaw). (d.rate ≤ℤ pos 0) ⊎ ((r ≤ℤ d.rate) × (pos 1 ≤ℤ r))) ds

rate_after : ℤ → List DefenseRaw → ℤ
rate_after kept [] = kept
rate_after kept (d ∷ ds) = rate_after (smaller_rate kept d.rate) ds

smaller_rate_cases :
    (kept rate : ℤ)
    → pos 0 ≤ℤ kept
    → (pos 0 ≤ℤ smaller_rate kept rate)
      × ((smaller_rate kept rate ≡ kept) ⊎ (smaller_rate kept rate ≡ rate))
unfolding smaller_rate
smaller_rate_cases kept rate h = ground arith

smaller_rate_below :
    (kept rate r : ℤ)
    → pos 0 ≤ℤ kept
    → (smaller_rate kept rate ≡ pos 0) ⊎ ((r ≤ℤ smaller_rate kept rate) × (pos 1 ≤ℤ r))
    → ((kept ≡ pos 0) ⊎ ((r ≤ℤ kept) × (pos 1 ≤ℤ r)))
      × ((rate ≤ℤ pos 0) ⊎ ((r ≤ℤ rate) × (pos 1 ≤ℤ r)))
unfolding smaller_rate
smaller_rate_below kept rate r h k = ground arith

kept_rate : (kept : ℤ) → pos 0 ≤ℤ kept → (kept ≡ pos 0) ⊎ ((kept ≤ℤ kept) × (pos 1 ≤ℤ kept))
kept_rate kept h = ground arith

rate_after-IsLeastRate :
    (kept : ℤ) (ds : List DefenseRaw) → pos 0 ≤ℤ kept → IsLeastRate kept ds (rate_after kept ds)
unfolding rate_after
rate_after-IsLeastRate kept [] h = (inl refl, kept_rate kept h, tt)
rate_after-IsLeastRate kept (d ∷ ds) h =
    let (n, which) = smaller_rate_cases kept d.rate h in
    let (given, old, least) = rate_after-IsLeastRate (smaller_rate kept d.rate) ds n in
    let (below, own) =
      smaller_rate_below kept d.rate (rate_after (smaller_rate kept d.rate) ds) h old in
    (
      elim given [
        | inr (e, m, q) ↦ inr (e, inr m, q)
        | inl q ↦ elim which [ inl k ↦ inl (q ∙ k) | inr k ↦ inr (d, inl refl, q ∙ k) ]
      ],
      below,
      (own, least),
    )

append_if :
    (test : Bool) (kept given rest : List Text)
    → (if test then kept ++ given else kept) ++ rest
      ≡ kept ++ (if test then given ++ rest else rest)
append_if true kept given rest = append_assoc kept given rest
append_if false kept given rest = refl

append_unless :
    (test : Bool) (kept given rest : List Text)
    → (if test then kept else kept ++ given) ++ rest
      ≡ kept ++ (if test then rest else given ++ rest)
append_unless true kept given rest = refl
append_unless false kept given rest = append_assoc kept given rest

apply_objects-defenses :
    (os : List Object) (p : DomainPolicy) (table : List (Text × CacheRule))
    → ((apply_objects os (p, table)).0.defenses.rate_limit
        ≡ rate_after p.defenses.rate_limit (defenses_of os))
      × ((apply_objects os (p, table)).0.defenses.block_ips
          ≡ p.defenses.block_ips ++ addresses true (defenses_of os))
      × ((apply_objects os (p, table)).0.defenses.allow_ips
          ≡ p.defenses.allow_ips ++ addresses false (defenses_of os))
unfolding apply_objects apply_object add_defense defenses_of addresses rate_after
apply_objects-defenses [] p table = (refl, sym (append-nil _), sym (append-nil _))
apply_objects-defenses (cache c ∷ os) p table =
    apply_objects-defenses os p (apply_object (cache c) (p, table)).1
apply_objects-defenses (defense d ∷ os) p table =
    let q = (apply_object (defense d) (p, table)).0 in
    let (rate, blocked, allowed) = apply_objects-defenses os q table in
    (
      rate,
      blocked ∙ append_if (blocks d) p.defenses.block_ips d.ip (addresses true (defenses_of os)),
      allowed
          ∙ append_unless (blocks d) p.defenses.allow_ips d.ip (addresses false (defenses_of os)),
    )
apply_objects-defenses (redirect r ∷ os) p table =
    apply_objects-defenses os (apply_object (redirect r) (p, table)).0 table
apply_objects-defenses (header h ∷ os) p table =
    apply_objects-defenses os (apply_object (header h) (p, table)).0 table
apply_objects-defenses (skipped ∷ os) p table = apply_objects-defenses os p table

-- For an endpoint with no rules yet: its rate limit is the least rate above 0 of the defense objects
-- that are bound to it, and 0 if there is none; the addresses that are blocked are those of the
-- objects that block, in order, and the addresses that are allowed those of the others.
pub apply_bindings-IsLeastRate :
    (objects : List Object) (scope : Text)
    → IsLeastRate
        (pos 0)
        (defenses_of objects)
        (apply_bindings objects (new_policy scope)).defenses.rate_limit
      × ((apply_bindings objects (new_policy scope)).defenses.block_ips
          ≡ addresses true (defenses_of objects))
      × ((apply_bindings objects (new_policy scope)).defenses.allow_ips
          ≡ addresses false (defenses_of objects))
unfolding apply_bindings
apply_bindings-IsLeastRate objects scope =
    let (rate, blocked, allowed) = apply_objects-defenses objects (new_policy scope) [] in
    (
      subst (IsLeastRate (pos 0) (defenses_of objects)) (sym rate)
          (rate_after-IsLeastRate (pos 0) (defenses_of objects) (omega arith)),
      blocked,
      allowed,
    )
