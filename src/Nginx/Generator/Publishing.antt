-- ===== src/Nginx/Generator/Publishing.antt =====
-- What Generate leaves in the output directory, wherever it fails.
use mesh_cdn.Base.{
  Bool-cases, Option-cases, none-ne-some, Result-cases, Result, any, In, Text, text, same, same→eq,
  eq→same, ◌≡◌, refl, sym, ◌∙◌, subst, ◌⊎◌, inl, inr, true, false, Option, none, some, List, [],
  ◌∷◌, ◌++◌, arith, ok, err,
}
use mesh_cdn.Base.Table.{get}
use mesh_cdn.Nginx.Types.{DomainPolicy}
use mesh_cdn.Nginx.Generator.{GeneratorState, resolve_certs}
use mesh_cdn.Nginx.Generator.Swap.{
  Tree, FileFaults, Templates, names, content_of, publish, remove_stale, is_published,
  swap_in_staged, render, generate,
}
use mesh_cdn.Nginx.Generator.Renames.{
  Files, In-names, names-In, publish-each, publish-done, remove_stale-each, remove_stale-done,
}

-- What swapInStaged promises of the output directory.
pub record Swapped (staged live : Tree) (r : Tree × Option Text) : Type 0 where
  pub each :
      (j : Text)
      → (get j r.0.servers ≡ get j live.servers) ⊎ (get j r.0.servers ≡ get j staged.servers)
  pub order :
      ((r.0.conf ≡ live.conf)
        × ((j v : Text) → get j live.servers ≡ some v → (w : Text) × (get j r.0.servers ≡ some w)))
      ⊎ ((r.0.conf ≡ staged.conf)
          × ((j v : Text) → get j staged.servers ≡ some v → get j r.0.servers ≡ some v))
  pub done :
      r.1 ≡ none
      → (r.0.conf ≡ staged.conf) × ((j : Text) → get j r.0.servers ≡ get j staged.servers)

any-In : (j : Text) (ks : List Text) → In j ks → any (λ i. same i j) ks ≡ true
any-In j [] i = absurd i
any-In j (k ∷ ks) (inl e) = ground (arith, eq→same k j (sym e))
any-In j (k ∷ ks) (inr i) = ground (arith, any-In j ks i)

In-any : (j : Text) (ks : List Text) → any (λ i. same i j) ks ≡ true → In j ks
In-any j [] h = absurd (ground arith)
In-any j (k ∷ ks) h = elim (Bool-cases (same k j)) [
  | inl e ↦ inl (sym (same→eq k j e))
  | inr e ↦ inr (In-any j ks (ground arith))
]

module _ (faults : FileFaults) (staged live : Tree) where
  abbrev published : Files × Option Text
  published = publish faults staged.servers (names staged.servers) live.servers

  abbrev cleaned : Files × Option Text
  cleaned = remove_stale faults (is_published staged.servers) (names published.0) published.0

  published-each :
      (j : Text)
      → (get j published.0 ≡ get j live.servers)
        ⊎ ((get j published.0 ≡ get j staged.servers) × In j (names staged.servers))
  published-each j =
      elim (publish-each faults staged.servers j (names staged.servers) live.servers) [
        | inl g ↦ inl g
        | inr (g, i) ↦ inr (g ∙ sym (In-names j staged.servers i), i)
      ]

  published-kept :
      (j v : Text) → get j live.servers ≡ some v → (w : Text) × (get j published.0 ≡ some w)
  published-kept j v g = elim (published-each j) [
    | inl q ↦ (v, q ∙ g)
    | inr (q, i) ↦ (content_of j staged.servers, q ∙ In-names j staged.servers i)
  ]

  published-new :
      published.1 ≡ none → (j v : Text) → get j staged.servers ≡ some v → get j published.0 ≡ some v
  published-new z j v g =
      let q =
        publish-done faults staged.servers j (names staged.servers) live.servers z
          (inl (names-In j v staged.servers g)) in
      ground (arith, q, g)

  is_published-In : (j : Text) → is_published staged.servers j ≡ false → get j staged.servers ≡ none
  is_published-In j f = elim (Option-cases (get j staged.servers)) [
    | inl e ↦ e
    | inr (v, e) ↦
        absurd (ground (arith, f, any-In j (names staged.servers) (names-In j v staged.servers e)))
  ]

  is_published-new :
      (j v : Text) → get j staged.servers ≡ some v → is_published staged.servers j ≡ true
  is_published-new j v g = any-In j (names staged.servers) (names-In j v staged.servers g)

  is_published-none :
      (j : Text) → get j staged.servers ≡ none → is_published staged.servers j ≡ false
  is_published-none j g = elim (Bool-cases (is_published staged.servers j)) [
    | inr e ↦ e
    | inl e ↦
        absurd
          (none-ne-some (sym g ∙ In-names j staged.servers (In-any j (names staged.servers) e)))
  ]

  cleaned-new :
      published.1 ≡ none → (j v : Text) → get j staged.servers ≡ some v → get j cleaned.0 ≡ some v
  cleaned-new z j v g =
      elim (remove_stale-each faults (is_published staged.servers) j (names published.0)
        published.0) [
          | inl q ↦ q ∙ published-new z j v g
          | inr (q, f) ↦ absurd (ground (arith, f, is_published-new j v g))
        ]

  cleaned-each :
      (j : Text) → (get j cleaned.0 ≡ get j live.servers) ⊎ (get j cleaned.0 ≡ get j staged.servers)
  cleaned-each j =
      elim (remove_stale-each faults (is_published staged.servers) j (names published.0)
        published.0) [
          | inl q ↦ elim (published-each j) [ inl p ↦ inl (q ∙ p) | inr (p, i) ↦ inr (q ∙ p) ]
          | inr (q, f) ↦ inr (q ∙ sym (is_published-In j f))
        ]

  cleaned-done :
      published.1 ≡ none → cleaned.1 ≡ none → (j : Text) → get j cleaned.0 ≡ get j staged.servers
  cleaned-done z y j = elim (Option-cases (get j staged.servers)) [
    | inr (v, g) ↦ cleaned-new z j v g ∙ sym g
    | inl g ↦
        remove_stale-done faults (is_published staged.servers) j (names published.0) published.0 y
          (is_published-none j g)
          (elim (Option-cases (get j published.0)) [
            | inl e ↦ inr e
            | inr (v, e) ↦ inl (names-In j v published.0 e)
          ])
        ∙ sym g
  ]

  unchanged : (x : Text) → Swapped staged live (live, some x)
  unchanged x = record {
    each = λ j. inl refl;
    order = inl (refl, λ j v g. (v, g));
    done = λ z. absurd (none-ne-some (sym z));
  }

  half_way : (x : Text) → Swapped staged live (record live { servers = published.0 }, some x)
  half_way x = record {
    each = λ j. elim (published-each j) [ inl q ↦ inl q | inr (q, i) ↦ inr q ];
    order = inl (refl, published-kept);
    done = λ z. absurd (none-ne-some (sym z));
  }

  pub swap_in_staged-Swapped : Swapped staged live (swap_in_staged faults staged live)
  unfolding swap_in_staged
  swap_in_staged-Swapped = elim (Option-cases faults.mkdir_live) [
    | inr (x, e) ↦
        let q : swap_in_staged faults staged live ≡ (live, some (text "ensure output dir: " ++ x)) =
          ground arith in
        subst (Swapped staged live) (sym q) (unchanged _)
    | inl e ↦ elim (Option-cases faults.read_staged) [
      | inr (x, f) ↦
          let q : swap_in_staged faults staged live
              ≡ (live, some (text "read staged servers: " ++ x)) =
            ground arith in
          subst (Swapped staged live) (sym q) (unchanged _)
      | inl f ↦ elim (Option-cases published.1) [
        | inr (x, g) ↦
            let q : swap_in_staged faults staged live
                ≡ (record live { servers = published.0 }, some x) =
              ground arith in
            subst (Swapped staged live) (sym q) (half_way x)
        | inl g ↦ elim (Option-cases faults.rename_conf) [
          | inr (x, r) ↦
              let q : swap_in_staged faults staged live ≡ (
                record live { servers = published.0 },
                some (text "publish nginx.conf: " ++ x),
              ) =
                ground arith in
              subst (Swapped staged live) (sym q) (half_way _)
          | inl r ↦ elim (Option-cases faults.read_live) [
            | inr (x, l) ↦
                let q : swap_in_staged faults staged live ≡ (
                  record { conf = staged.conf; servers = published.0 },
                  some (text "read live servers: " ++ x),
                ) =
                  ground arith in
                subst (Swapped staged live) (sym q) (record {
                  each = λ j. elim (published-each j) [ inl p ↦ inl p | inr (p, i) ↦ inr p ];
                  order = inr (refl, published-new g);
                  done = λ z. absurd (none-ne-some (sym z));
                })
            | inl l ↦
                let q : swap_in_staged faults staged live
                    ≡ (record { conf = staged.conf; servers = cleaned.0 }, cleaned.1) =
                  ground arith in
                subst (Swapped staged live) (sym q) (record {
                  each = cleaned-each;
                  order = inr (refl, cleaned-new g);
                  done = λ z. (refl, cleaned-done g z);
                })
          ]
        ]
      ]
    ]
  ]

-- Generate ends with an error before it touches the output directory, or it has rendered all files
-- of the state and swaps them in. Wherever the swap stops, each file under servers/ is the one from
-- before or the staged one. Either nginx.conf is the old one and no old file is gone, or it is the
-- new one and all new files are there. If no error is reported, the directory holds exactly the
-- staged files.
pub generate-Published :
    (faults : FileFaults) (templates : Templates) (node_ip : Text)
    (state : Result Text GeneratorState) (policies : Result Text (List (Text × DomainPolicy)))
    (live : Tree)
    → (((e : Text) × (generate faults templates node_ip state policies live ≡ (live, some e)))
        ⊎ ((st : GeneratorState) × (ps : List (Text × DomainPolicy)) × (staged : Tree) × (state
              ≡ ok st)
            × (policies ≡ ok ps)
            × (render templates (resolve_certs node_ip st) ps ≡ ok staged)
            × Swapped staged live (generate faults templates node_ip state policies live)))
unfolding generate
generate-Published faults templates node_ip (err x) policies live = inl (_, refl)
generate-Published faults templates node_ip (ok st) (err x) live = inl (_, refl)
generate-Published faults templates node_ip (ok st) (ok ps) live =
    elim (Option-cases faults.clear_staging) [
      | inr (x, e) ↦ inl (text "clear staging dir: " ++ x, ground arith)
      | inl e ↦ elim (Option-cases faults.mkdir_staging) [
        | inr (x, f) ↦ inl (text "mkdir staging: " ++ x, ground arith)
        | inl f ↦ elim (Option-cases faults.mkdir_challenge) [
          | inr (x, g) ↦ inl (text "mkdir challenge: " ++ x, ground arith)
          | inl g ↦ elim (Result-cases (render templates (resolve_certs node_ip st) ps)) [
            | inr (x, r) ↦ inl (x, ground arith)
            | inl (staged, r) ↦
                let q : generate faults templates node_ip (ok st) (ok ps) live
                    ≡ swap_in_staged faults staged live =
                  ground arith in
                inr (
                  st,
                  ps,
                  staged,
                  refl,
                  refl,
                  r,
                  subst (Swapped staged live) (sym q) (swap_in_staged-Swapped faults staged live),
                )
          ]
        ]
      ]
    ]
