-- ===== src/Cert/Renew/Scanner/Identifiers.antt =====
-- The names with which a certificate is renewed.
use mesh_cdn.Base.{
  Bool-cases, any, All, In, In-append, In-append_left, In-append_right, All-of_In, All-append, Text,
  same, same→eq, eq→same, is_empty, ◌≡◌, refl, sym, ◌∙◌, subst, ◌≢◌, ◌↔◌, ◌⊎◌, inl, inr, true, List,
  [], ◌∷◌, ◌++◌, arith,
}
use mesh_cdn.Cert.{CertMeta}
use mesh_cdn.Cert.Renew.Worker.{renew, Task}
use mesh_cdn.Cert.Renew.Scanner.{
  is_seen, add_identifier, add_identifiers, renewal_identifiers, renewal_task,
}

pub any-same-In : (s : Text) (xs : List Text) → (any (same s) xs ≡ true) ↔ In s xs
any-same-In s [] = (λ h. cc, λ h. absurd h)
any-same-In s (x ∷ xs) = (
  λ h. elim (Bool-cases (same s x)) [
    | inl e ↦ inl (same→eq s x e)
    | inr e ↦ inr ((any-same-In s xs).0 (ground arith))
  ],
  λ h. elim h [
    | inl e ↦ ground (arith, eq→same s x e)
    | inr m ↦ ground (arith, (any-same-In s xs).1 m)
  ],
)

-- No text stands in the list twice.
abbrev pub IsDistinct : List Text → Type 0
IsDistinct [] = Unit
IsDistinct (x ∷ xs) = All (λ y. x ≢ y) xs × IsDistinct xs

IsDistinct-snoc :
    (xs : List Text) (s : Text) → IsDistinct xs → All (λ x. x ≢ s) xs → IsDistinct (xs ++ s ∷ [])
IsDistinct-snoc [] s d h = (tt, tt)
IsDistinct-snoc (x ∷ xs) s d h =
    (All-append (λ y. x ≢ y) xs (s ∷ []) d.0 (h.0, tt), IsDistinct-snoc xs s d.1 h.1)

is_empty_iff : (s : Text) → (is_empty s ≡ true) ↔ (s ≡ [])
is_empty_iff [] = (λ h. refl, λ h. refl)
is_empty_iff (c ∷ s) = (λ h. cc, λ h. cc)

-- A text that is empty or there already, or one that is added at the end.
add_identifier_cases :
    (out : List Text) (s : Text)
    → ((add_identifier out s ≡ out) × ((s ≡ []) ⊎ In s out))
      ⊎ ((add_identifier out s ≡ out ++ s ∷ []) × (s ≢ []) × (In s out → ⊥))
unfolding add_identifier
add_identifier_cases out s = elim (Bool-cases (is_empty s)) [
  | inl e ↦ inl (ground arith, inl ((is_empty_iff s).0 e))
  | inr e ↦ elim (Bool-cases (is_seen s out)) [
    | inl m ↦ inl (ground arith, inr ((any-same-In s out).0 m))
    | inr m ↦ inr (
      ground arith,
      λ q. ground (arith, (is_empty_iff s).1 q),
      λ i. ground (arith, (any-same-In s out).1 i),
    )
  ]
]

add_identifier-In :
    (out : List Text) (s x : Text) → In x (add_identifier out s) ↔ (In x out ⊎ ((x ≢ []) × (x ≡ s)))
add_identifier-In out s x = elim (add_identifier_cases out s) [
  | inl (e, old) ↦ rw e (
    λ m. inl m,
    λ h. elim h [
      | inl m ↦ m
      | inr (n, q) ↦ elim old [
        | inl z ↦ absurd (n (q ∙ z))
        | inr m ↦ subst (λ y. In y out) (sym q) m
      ]
    ],
  )
  | inr (e, n, new) ↦ rw e (
    λ m. elim (In-append x out (s ∷ []) m) [
      | inl i ↦ inl i
      | inr (inl q) ↦ inr (λ z. n (sym q ∙ z), q)
      | inr (inr i) ↦ absurd i
    ],
    λ h. elim h [
      | inl i ↦ In-append_left x out (s ∷ []) i
      | inr (z, q) ↦ In-append_right x out (s ∷ []) (inl q)
    ],
  )
]

add_identifier-IsDistinct :
    (out : List Text) (s : Text) → IsDistinct out → IsDistinct (add_identifier out s)
add_identifier-IsDistinct out s d = elim (add_identifier_cases out s) [
  | inl (e, old) ↦ rw e d
  | inr (e, n, new) ↦ rw e (
      IsDistinct-snoc out s d
        (All-of_In (λ x. x ≢ s) out (λ x m q. new (subst (λ y. In y out) q m))))
]

add_identifiers-In :
    (out ss : List Text) (x : Text)
    → In x (add_identifiers out ss) ↔ (In x out ⊎ ((x ≢ []) × In x ss))
unfolding add_identifiers
add_identifiers-In out [] x = (λ m. inl m, λ h. elim h [ inl m ↦ m | inr (n, m) ↦ absurd m ])
add_identifiers-In out (s ∷ ss) x =
    let one = add_identifier-In out s x in
    let all = add_identifiers-In (add_identifier out s) ss x in
    (
      λ m. elim (all.0 m) [
        | inl i ↦ elim (one.0 i) [ inl j ↦ inl j | inr (n, q) ↦ inr (n, inl q) ]
        | inr (n, i) ↦ inr (n, inr i)
      ],
      λ h. elim h [
        | inl i ↦ all.1 (inl (one.1 (inl i)))
        | inr (n, inl q) ↦ all.1 (inl (one.1 (inr (n, q))))
        | inr (n, inr i) ↦ all.1 (inr (n, i))
      ],
    )

add_identifiers-IsDistinct :
    (out ss : List Text) → IsDistinct out → IsDistinct (add_identifiers out ss)
unfolding add_identifiers
add_identifiers-IsDistinct out [] d = d
add_identifiers-IsDistinct out (s ∷ ss) d =
    add_identifiers-IsDistinct (add_identifier out s) ss (add_identifier-IsDistinct out s d)

-- The task renews the certificate with all its names: its subject and its SAN entries, but for empty
-- ones, each once.
pub record Renews (c : CertMeta) (t : Task) : Type 0 where
  pub a_renewal : t.type ≡ renew
  pub for_it : t.fingerprint ≡ c.fingerprint_prefix
  pub from_it : t.source ≡ c.source
  pub distinct : IsDistinct t.identifiers
  pub names : (x : Text) → In x t.identifiers ↔ ((x ≢ []) × ((x ≡ c.subject) ⊎ In x c.san))

pub renewal_task-Renews : (c : CertMeta) → Renews c (renewal_task c)
unfolding renewal_identifiers
renewal_task-Renews c =
    let first = add_identifier [] c.subject in
    record {
      a_renewal = refl;
      for_it = refl;
      from_it = refl;
      distinct = add_identifiers-IsDistinct first c.san (add_identifier-IsDistinct [] c.subject tt);
      names = λ x.
          let one = add_identifier-In [] c.subject x in
          let all = add_identifiers-In first c.san x in
          (
            λ m. elim (all.0 m) [
              | inl i ↦ elim (one.0 i) [ inl j ↦ absurd j | inr (n, q) ↦ (n, inl q) ]
              | inr (n, i) ↦ (n, inr i)
            ],
            λ (n, h). elim h [
              | inl q ↦ all.1 (inl (one.1 (inr (n, q))))
              | inr i ↦ all.1 (inr (n, i))
            ],
          );
    }
