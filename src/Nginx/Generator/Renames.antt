-- ===== src/Nginx/Generator/Renames.antt =====
-- The loops of swapInStaged: what they leave of each file.
use mesh_cdn.Base.{
  Bool-cases, Option-cases, In, In-map, map-In, Text, same, same→eq, eq→same, ◌≡◌, refl, sym, ap,
  ◌∙◌, subst, ◌⊎◌, inl, inr, Bool, false, Option, none, some, List, [], ◌∷◌, arith,
}
use mesh_cdn.Base.Before.{before}
use mesh_cdn.Base.Sort.{In-sort_by}
use mesh_cdn.Base.Table.{
  get, put, delete, get-put_self, get-put_ne, get-delete_self, get-delete_ne, In-get,
}
use mesh_cdn.Nginx.Generator.Swap.{FileFaults, names, content_of, publish, remove_stale}

abbrev pub Files : Type 0
Files = List (Text × Text)

get-some_In : (j v : Text) (m : Files) → In (j, v) m → (w : Text) × (get j m ≡ some w)
unfolding get
get-some_In j v [] i = absurd i
get-some_In j v ((k, w) ∷ m) i = elim (Bool-cases (same k j)) [
  | inl e ↦ (w, ground arith)
  | inr e ↦ elim i [
    | inl q ↦ absurd (ground (arith, eq→same k j (ap (λ (x : Text × Text). x.0) (sym q))))
    | inr r ↦ let (u, g) = get-some_In j v m r in (u, ground arith)
  ]
]

pub In-names : (j : Text) (m : Files) → In j (names m) → get j m ≡ some (content_of j m)
In-names j m i =
    let (e, r, q) = map-In (λ (x : Text × Text). x.0) j m ((In-sort_by before j _).0 i) in
    let (w, g) = get-some_In j e.1 m (subst (λ k. In (k, e.1) m) (sym q) r) in ground (arith, g)

pub names-In : (j v : Text) (m : Files) → get j m ≡ some v → In j (names m)
names-In j v m g =
    (In-sort_by before j _).1 (In-map (λ (x : Text × Text). x.0) (j, v) m (In-get j v m g))

module _ (faults : FileFaults) where
  pub publish-each :
      (staged : Files) (j : Text) (ks : List Text) (live : Files)
      → (get j (publish faults staged ks live).0 ≡ get j live)
        ⊎ ((get j (publish faults staged ks live).0 ≡ some (content_of j staged)) × In j ks)
  unfolding publish
  publish-each staged j [] live = inl refl
  publish-each staged j (k ∷ ks) live = elim (Option-cases (faults.rename k)) [
    | inr (x, e) ↦ inl (ground arith)
    | inl e ↦
        let q : publish faults staged (k ∷ ks) live
            ≡ publish faults staged ks (put k (content_of k staged) live) =
          ground arith in
        elim (publish-each staged j ks (put k (content_of k staged) live)) [
          | inr (g, i) ↦ inr (ap (λ (r : Files × Option Text). get j r.0) q ∙ g, inr i)
          | inl g ↦ elim (Bool-cases (same k j)) [
            | inl s ↦
                let z = same→eq k j s in
                inr (
                  ap (λ (r : Files × Option Text). get j r.0) q
                      ∙ g
                      ∙ subst
                          (λ i.
                            get i (put k (content_of k staged) live) ≡ some (content_of i staged))
                          z (get-put_self k (content_of k staged) live),
                  inl (sym z),
                )
            | inr s ↦ inl (
                ap (λ (r : Files × Option Text). get j r.0) q
                ∙ g
                ∙ get-put_ne k j (content_of k staged) live (λ z. ground (arith, eq→same k j z)))
          ]
        ]
  ]

  pub publish-done :
      (staged : Files) (j : Text) (ks : List Text) (live : Files)
      → (publish faults staged ks live).1 ≡ none
      → (In j ks ⊎ (get j live ≡ some (content_of j staged)))
      → get j (publish faults staged ks live).0 ≡ some (content_of j staged)
  unfolding publish
  publish-done staged j [] live z (inl i) = absurd i
  publish-done staged j [] live z (inr g) = g
  publish-done staged j (k ∷ ks) live z h = elim (Option-cases (faults.rename k)) [
    | inr (x, e) ↦ absurd (ground arith)
    | inl e ↦
        let next = put k (content_of k staged) live in
        let q : publish faults staged (k ∷ ks) live ≡ publish faults staged ks next =
          ground arith in
        let z' = ap (λ (r : Files × Option Text). r.1) (sym q) ∙ z in
        let step : In j ks ⊎ (get j next ≡ some (content_of j staged)) =
          elim (Bool-cases (same k j)) [
            | inl s ↦ inr (
                subst (λ i. get i next ≡ some (content_of i staged)) (same→eq k j s)
                  (get-put_self k (content_of k staged) live))
            | inr s ↦ elim h [
              | inl i ↦ elim i [
                | inl p ↦ absurd (ground (arith, eq→same k j (sym p)))
                | inr r ↦ inl r
              ]
              | inr g ↦ inr (
                  get-put_ne k j (content_of k staged) live (λ y. ground (arith, eq→same k j y))
                  ∙ g)
            ]
          ] in
        ap (λ (r : Files × Option Text). get j r.0) q ∙ publish-done staged j ks next z' step
  ]

  pub remove_stale-each :
      (published : Text → Bool) (j : Text) (ks : List Text) (live : Files)
      → (get j (remove_stale faults published ks live).0 ≡ get j live)
        ⊎ ((get j (remove_stale faults published ks live).0 ≡ none) × (published j ≡ false))
  unfolding remove_stale
  remove_stale-each published j [] live = inl refl
  remove_stale-each published j (k ∷ ks) live = elim (Bool-cases (published k)) [
    | inl p ↦ ground (arith, p, remove_stale-each published j ks live)
    | inr p ↦ elim (Option-cases (faults.remove k)) [
      | inr (x, e) ↦ inl (ground arith)
      | inl e ↦
          let q : remove_stale faults published (k ∷ ks) live
              ≡ remove_stale faults published ks (delete k live) =
            ground arith in
          let up = ap (λ (r : Files × Option Text). get j r.0) q in
          elim (remove_stale-each published j ks (delete k live)) [
            | inr (g, i) ↦ inr (up ∙ g, i)
            | inl g ↦ elim (Bool-cases (same k j)) [
              | inl s ↦
                  let z = same→eq k j s in
                  inr (
                    up ∙ g ∙ subst (λ i. get i (delete k live) ≡ none) z (get-delete_self k live),
                    subst (λ i. published i ≡ false) z p,
                  )
              | inr s ↦ inl (up ∙ g ∙ get-delete_ne k j live (λ z. ground (arith, eq→same k j z)))
            ]
          ]
    ]
  ]

  pub remove_stale-done :
      (published : Text → Bool) (j : Text) (ks : List Text) (live : Files)
      → (remove_stale faults published ks live).1 ≡ none
      → published j ≡ false
      → (In j ks ⊎ (get j live ≡ none))
      → get j (remove_stale faults published ks live).0 ≡ none
  unfolding remove_stale
  remove_stale-done published j [] live z f (inl i) = absurd i
  remove_stale-done published j [] live z f (inr g) = g
  remove_stale-done published j (k ∷ ks) live z f h = elim (Bool-cases (published k)) [
    | inl p ↦
        let step : In j ks ⊎ (get j live ≡ none) = elim h [
          | inl i ↦ elim i [ inl y ↦ absurd (ground (arith, ap published y)) | inr r ↦ inl r ]
          | inr g ↦ inr g
        ] in
        ground (arith, p, z, remove_stale-done published j ks live (ground arith) f step)
    | inr p ↦ elim (Option-cases (faults.remove k)) [
      | inr (x, e) ↦ absurd (ground arith)
      | inl e ↦
          let q : remove_stale faults published (k ∷ ks) live
              ≡ remove_stale faults published ks (delete k live) =
            ground arith in
          let step : In j ks ⊎ (get j (delete k live) ≡ none) = elim (Bool-cases (same k j)) [
            | inl s ↦
                inr (
                  subst (λ i. get i (delete k live) ≡ none) (same→eq k j s)
                    (get-delete_self k live))
            | inr s ↦ elim h [
              | inl i ↦ elim i [
                | inl y ↦ absurd (ground (arith, eq→same k j (sym y)))
                | inr r ↦ inl r
              ]
              | inr g ↦ inr (get-delete_ne k j live (λ y. ground (arith, eq→same k j y)) ∙ g)
            ]
          ] in
          ap (λ (r : Files × Option Text). get j r.0) q
          ∙ remove_stale-done published j ks (delete k live)
              (ap (λ (r : Files × Option Text). r.1) (sym q) ∙ z) f step
    ]
  ]
