-- ===== src/Cert/Selection.antt =====
-- SelectFor and IsExpiring.
use mesh_cdn.Base.{
  In, All-In, In-filter, filter-In, Text, ℕ, ◌+◌, ◌≤◌, ◌<◌, ◌≡◌, refl, sym, ap, ◌∙◌, subst, ◌≢◌,
  ◌↔◌, ◌⊎◌, true, false, not, ◌&&◌, Option, none, some, List, [], ◌∷◌, arith,
}
use mesh_cdn.Base.Sort.{sort_by, IsOrder, sort_by-head}
use mesh_cdn.Base.Time.{Time, time_sub_lt}
use mesh_cdn.Base.Decimal.{int_max}
use mesh_cdn.Cert.{
  CertMeta, source_priority, covers, is_expired, first, filter_covering, better_cert, select_for,
  is_expiring,
}

-- A certificate that a selection may take.
abbrev pub IsUsable : Text → Time → CertMeta → Type 0
IsUsable endpoint now c = (is_expired now c ≡ false) × (covers c endpoint ≡ true)

-- The second is not a better choice: it has a lower priority, or the same and ends no later.
abbrev pub IsNoBetter : CertMeta → CertMeta → Type 0
IsNoBetter c d =
    (source_priority d.source < source_priority c.source)
    ⊎ ((source_priority d.source ≡ source_priority c.source) × (d.not_after ≤ c.not_after))

better_cert_iff : (c d : CertMeta) → (better_cert d c ≡ false) ↔ IsNoBetter c d
unfolding better_cert
better_cert_iff c d = ground arith

better_cert-asym : (a b : CertMeta) → better_cert a b ≡ true → better_cert b a ≡ false
unfolding better_cert
better_cert-asym a b h = ground arith

better_cert_trans :
    (a b c : CertMeta) → better_cert b a ≡ false → better_cert c b ≡ false → better_cert c a ≡ false
better_cert_trans a b c h k =
    (better_cert_iff a c).1
      (no_better_trans ((better_cert_iff a b).0 h) ((better_cert_iff b c).0 k))
  where
    no_better_trans : IsNoBetter a b → IsNoBetter b c → IsNoBetter a c
    no_better_trans h k = ground arith

better_cert-IsOrder : IsOrder better_cert
better_cert-IsOrder = record { asym = better_cert-asym; trans = better_cert_trans }

In-filter_covering :
    (endpoint : Text) (cs : List CertMeta) (now : Time) (c : CertMeta)
    → In c (filter_covering endpoint cs now) ↔ (In c cs × IsUsable endpoint now c)
unfolding filter_covering
In-filter_covering endpoint cs now c = (
  λ m.
      let (i, t) = In-filter (λ d. not (is_expired now d) && covers d endpoint) c cs m in
      (i, ground arith),
  λ (i, u).
      filter-In (λ d. not (is_expired now d) && covers d endpoint) c cs i (rw (u.0, u.1) refl),
)

-- What a selection of `r` among `cs` should be.
abbrev pub IsBest : Text → Time → List CertMeta → Option CertMeta → Type 0
IsBest endpoint now cs none = (c : CertMeta) → In c cs → IsUsable endpoint now c → ⊥
IsBest endpoint now cs (some c) =
    In c cs
    × IsUsable endpoint now c
    × ((d : CertMeta) → In d cs → IsUsable endpoint now d → IsNoBetter c d)

select_for-none :
    (endpoint : Text) (cs : List CertMeta) (now : Time)
    → filter_covering endpoint cs now ≡ []
    → select_for endpoint cs now ≡ none
unfolding select_for sort_by
select_for-none endpoint cs now e = ap (λ l. first (sort_by better_cert l)) e

select_for-some :
    (endpoint : Text) (cs : List CertMeta) (now : Time) (b : CertMeta) (rest : List CertMeta)
    → sort_by better_cert (filter_covering endpoint cs now) ≡ b ∷ rest
    → select_for endpoint cs now ≡ some b
unfolding select_for
select_for-some endpoint cs now b rest e = ap first e

-- SelectFor returns nothing only when no candidate is unexpired and covers the name. Otherwise it
-- returns a candidate that is, and no other such candidate has a higher source priority, or the
-- same priority and a later end.
pub select_for-IsBest :
    (endpoint : Text) (cs : List CertMeta) (now : Time)
    → IsBest endpoint now cs (select_for endpoint cs now)
unfolding select_for
select_for-IsBest endpoint cs now = go (filter_covering endpoint cs now) refl
  where
    go :
        (l : List CertMeta)
        → filter_covering endpoint cs now ≡ l
        → IsBest endpoint now cs (select_for endpoint cs now)
    go [] e = rw e (
        unfold sort_by in
        λ c m u. subst (λ l. In c l) e ((In-filter_covering endpoint cs now c).1 (m, u)))
    go (x ∷ xs) e =
        let (b, rest, s, m, best) = sort_by-head better_cert better_cert-IsOrder x xs in
        let (i, u) = (In-filter_covering endpoint cs now b).0 (subst (λ l. In b l) (sym e) m) in
        subst (IsBest endpoint now cs)
          (sym (select_for-some endpoint cs now b rest (ap (sort_by better_cert) e ∙ s)))
          (
            i,
            u,
            λ d j v. (better_cert_iff b d).0 (
                All-In (λ y. better_cert y b ≡ false) d (x ∷ xs) best
                  (subst (λ l. In d l) e ((In-filter_covering endpoint cs now d).1 (j, v)))),
          )

-- For a certificate that has an end, and a threshold in the range of a duration: it is expiring
-- exactly when it ends before `now` plus the threshold. One with no end never is.
pub is_expiring_iff :
    (c : CertMeta) (now : Time) (threshold : ℕ)
    → threshold ≤ int_max
    → (is_expiring c now threshold ≡ true) ↔ ((c.not_after ≢ 0) × (c.not_after < now + threshold))
unfolding is_expiring
is_expiring_iff c now threshold h = ground (arith, time_sub_lt c.not_after now threshold h)
