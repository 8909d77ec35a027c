-- ===== src/Cert/Renew/System/Spacing.antt =====
-- The time between two alerts for one fingerprint.
use mesh_cdn.Base.{
  Bool-cases, some-injective, none-ne-some, All, Text, same, same→eq, eq→same, ◌+◌, ◌≤◌, ◌≡◌, sym,
  ap, ◌∙◌, inl, inr, false, Option, none, some, List, [], ◌∷◌, arith,
}
use mesh_cdn.Base.Table.{get, put, get-put_self, get-put_ne}
use mesh_cdn.Base.Time.{Time, day, time_sub_lt}
use mesh_cdn.Cert.Renew.Worker.{Alert, alerted_lately}

-- Each alert is no later than the time that is kept for its fingerprint.
abbrev pub IsKept : List (Text × Time) → Alert → Type 0
IsKept alerted a = (t : Time) × (get a.fingerprint alerted ≡ some t) × (a.time ≤ t)

-- Two alerts for one fingerprint are a day apart at least.
abbrev pub IsApart : Alert → Alert → Type 0
IsApart a b = a.fingerprint ≡ b.fingerprint → b.time + day ≤ a.time

abbrev pub IsSpaced : List Alert → Type 0
IsSpaced [] = Unit
IsSpaced (a ∷ as') = All (IsApart a) as' × IsSpaced as'

pub lately-false :
    (now t : Time) (o : Option Time) → alerted_lately now o ≡ false → o ≡ some t → t + day ≤ now
lately-false now t none h e = absurd (none-ne-some e)
lately-false now t (some u) h e =
    let z : u ≡ t = some-injective e in ground (arith, time_sub_lt now u day (omega arith))

module _ (a : Alert) (alerted : List (Text × Time))
    (due : alerted_lately a.time (get a.fingerprint alerted) ≡ false) where
  pub apart : (b : Alert) → IsKept alerted b → IsApart a b
  apart b (t, e, le) q =
      let r =
        lately-false a.time t (get a.fingerprint alerted) due (ap (λ f. get f alerted) q ∙ e) in
      omega arith

  pub all-IsApart : (bs : List Alert) → All (IsKept alerted) bs → All (IsApart a) bs
  all-IsApart [] h = tt
  all-IsApart (b ∷ bs) h = (apart b h.0, all-IsApart bs h.1)

  still-IsKept : (b : Alert) → IsKept alerted b → IsKept (put a.fingerprint a.time alerted) b
  still-IsKept b (t, e, le) = elim (Bool-cases (same a.fingerprint b.fingerprint)) [
    | inl y ↦
        let q = same→eq a.fingerprint b.fingerprint y in
        (
          a.time,
          ap (λ f. get f (put a.fingerprint a.time alerted)) (sym q)
              ∙ get-put_self a.fingerprint a.time alerted,
          let r = apart b (t, e, le) q in omega arith,
        )
    | inr y ↦ (
      t,
      get-put_ne a.fingerprint b.fingerprint a.time alerted
            (λ q. ground (arith, eq→same a.fingerprint b.fingerprint q))
          ∙ e,
      le,
    )
  ]

  pub all-IsKept :
      (bs : List Alert)
      → All (IsKept alerted) bs
      → All (IsKept (put a.fingerprint a.time alerted)) bs
  all-IsKept [] h = tt
  all-IsKept (b ∷ bs) h = (still-IsKept b h.0, all-IsKept bs h.1)
