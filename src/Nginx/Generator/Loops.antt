-- ===== src/Nginx/Generator/Loops.antt =====
-- The loops of Generate over the servers and over the ports.
use mesh_cdn.Base.{
  Bool-cases, ok-injective, Result-cases, any, In, Text, same, same→eq, eq→same, ℕ, ◌≡◌, refl, sym,
  ap, ◌∙◌, subst, ◌≢◌, ◌⊎◌, inl, inr, true, some, List, [], ◌∷◌, arith, ok,
}
use mesh_cdn.Base.Int.{ℤ}
use mesh_cdn.Base.Table.{get, put, get-put_self, get-put_ne}
use mesh_cdn.Nginx.Types.{DomainPolicy}
use mesh_cdn.Nginx.Generator.{ServerEntry, GeneratorState, server_file, default_file, policy_of}
use mesh_cdn.Nginx.Generator.Swap.{Templates, render_servers, render_defaults, is_catch_all}
use mesh_cdn.Nginx.Generator.Renames.{Files}

abbrev second : Text → ℕ
second [] = 0
second (a ∷ []) = 0
second (a ∷ b ∷ s) = b

pub server_file-default_file : (s : ServerEntry) (p : ℤ) → server_file s ≢ default_file p
unfolding server_file default_file
server_file-default_file s p h = let q : 0x6F ≡ 0x65 = ap second h in absurd (omega (arith, q))

module _ (templates : Templates) (st : GeneratorState) (ps : List (Text × DomainPolicy)) where
  -- The file holds the rendering of a server of the list with that name.
  abbrev pub HasServer : List ServerEntry → Text → Files → Type 0
  HasServer ss name m =
      (t : ServerEntry) × (c : Text) × In t ss
      × (server_file t ≡ name)
      × (templates.server t st (policy_of t.scope ps) ≡ ok c)
      × (get name m ≡ some c)

  abbrev pub HasDefault : List (ℤ × Text) → Text → Files → Type 0
  HasDefault ports name m =
      (e : ℤ × Text) × (c : Text) × In e ports
      × (default_file e.0 ≡ name)
      × (templates.default e.0 e.1 st ≡ ok c)
      × (get name m ≡ some c)

  HasServer-later :
      (s : ServerEntry) (ss : List ServerEntry) (name : Text) (m : Files)
      → HasServer ss name m
      → HasServer (s ∷ ss) name m
  HasServer-later s ss name m (t, c, i, q, r, g) = (t, c, inr i, q, r, g)

  -- The names that the loop does not write keep their files.
  pub render_servers-each :
      (name : Text) (ss : List ServerEntry) (m files : Files)
      → render_servers templates st ps ss m ≡ ok files
      → (get name files ≡ get name m) ⊎ HasServer ss name files
  unfolding render_servers
  render_servers-each name [] m files h = inl (ap (get name) (sym (ok-injective h)))
  render_servers-each name (s ∷ ss) m files h =
      elim (Result-cases (templates.server s st (policy_of s.scope ps))) [
        | inr (x, e) ↦ absurd (ground arith)
        | inl (c, e) ↦
            elim (render_servers-each name ss (put (server_file s) c m) files (ground arith)) [
              | inr found ↦ inr (HasServer-later s ss name files found)
              | inl q ↦ elim (Bool-cases (same (server_file s) name)) [
                | inl f ↦
                    let z = same→eq (server_file s) name f in
                    inr (
                      s,
                      c,
                      inl refl,
                      z,
                      e,
                      q
                          ∙ subst (λ k. get k (put (server_file s) c m) ≡ some c) z
                              (get-put_self (server_file s) c m),
                    )
                | inr f ↦ inl (
                    q
                    ∙ get-put_ne (server_file s) name c m
                        (λ z. ground (arith, eq→same (server_file s) name z)))
              ]
            ]
      ]

  pub render_servers-all :
      (s : ServerEntry) (ss : List ServerEntry) (m files : Files)
      → render_servers templates st ps ss m ≡ ok files
      → In s ss
      → HasServer ss (server_file s) files
  unfolding render_servers
  render_servers-all s [] m files h i = absurd i
  render_servers-all s (t ∷ ss) m files h i =
      elim (Result-cases (templates.server t st (policy_of t.scope ps))) [
        | inr (x, e) ↦ absurd (ground arith)
        | inl (c, e) ↦
            let rest : render_servers templates st ps ss (put (server_file t) c m) ≡ ok files =
              ground arith in
            elim i [
              | inr r ↦
                  HasServer-later t ss (server_file s) files
                    (render_servers-all s ss (put (server_file t) c m) files rest r)
              | inl q ↦
                  elim (render_servers-each (server_file s) ss (put (server_file t) c m) files
                    rest) [
                      | inr found ↦ HasServer-later t ss (server_file s) files found
                      | inl g ↦ (
                        t,
                        c,
                        inl refl,
                        ap server_file (sym q),
                        e,
                        g
                            ∙ subst (λ k. get k (put (server_file t) c m) ≡ some c)
                                (ap server_file (sym q)) (get-put_self (server_file t) c m),
                      )
                    ]
            ]
      ]

  HasDefault-later :
      (p : ℤ × Text) (ports : List (ℤ × Text)) (name : Text) (m : Files)
      → HasDefault ports name m
      → HasDefault (p ∷ ports) name m
  HasDefault-later p ports name m (e, c, i, q, r, g) = (e, c, inr i, q, r, g)

  pub render_defaults-each :
      (name : Text) (ports : List (ℤ × Text)) (m files : Files)
      → render_defaults templates st ports m ≡ ok files
      → (get name files ≡ get name m) ⊎ HasDefault ports name files
  unfolding render_defaults
  render_defaults-each name [] m files h = inl (ap (get name) (sym (ok-injective h)))
  render_defaults-each name ((p, proto) ∷ ports) m files h =
      elim (Bool-cases (any (is_catch_all templates st p) st.servers)) [
        | inl k ↦ elim (render_defaults-each name ports m files (ground arith)) [
          | inl q ↦ inl q
          | inr found ↦ inr (HasDefault-later (p, proto) ports name files found)
        ]
        | inr k ↦ elim (Result-cases (templates.default p proto st)) [
          | inr (x, e) ↦ absurd (ground arith)
          | inl (c, e) ↦
              elim (render_defaults-each name ports (put (default_file p) c m) files
                (ground arith)) [
                  | inr found ↦ inr (HasDefault-later (p, proto) ports name files found)
                  | inl q ↦ elim (Bool-cases (same (default_file p) name)) [
                    | inl f ↦
                        let z = same→eq (default_file p) name f in
                        inr (
                          (p, proto),
                          c,
                          inl refl,
                          z,
                          e,
                          q
                              ∙ subst (λ k. get k (put (default_file p) c m) ≡ some c) z
                                  (get-put_self (default_file p) c m),
                        )
                    | inr f ↦ inl (
                        q
                        ∙ get-put_ne (default_file p) name c m
                            (λ z. ground (arith, eq→same (default_file p) name z)))
                  ]
                ]
        ]
      ]

  pub render_defaults-all :
      (p : ℤ) (proto : Text) (ports : List (ℤ × Text)) (m files : Files)
      → render_defaults templates st ports m ≡ ok files
      → In (p, proto) ports
      → (any (is_catch_all templates st p) st.servers ≡ true)
        ⊎ HasDefault ports (default_file p) files
  unfolding render_defaults
  render_defaults-all p proto [] m files h i = absurd i
  render_defaults-all p proto ((q, old) ∷ ports) m files h i =
      elim (Bool-cases (any (is_catch_all templates st q) st.servers)) [
        | inl k ↦ elim i [
          | inl e ↦
              inl (ap (λ (x : ℤ × Text). any (is_catch_all templates st x.0) st.servers) e ∙ k)
          | inr r ↦ elim (render_defaults-all p proto ports m files (ground arith) r) [
            | inl c ↦ inl c
            | inr found ↦ inr (HasDefault-later (q, old) ports (default_file p) files found)
          ]
        ]
        | inr k ↦ elim (Result-cases (templates.default q old st)) [
          | inr (x, e) ↦ absurd (ground arith)
          | inl (c, e) ↦
              let next = put (default_file q) c m in
              let rest : render_defaults templates st ports next ≡ ok files = ground arith in
              elim i [
                | inr r ↦ elim (render_defaults-all p proto ports next files rest r) [
                  | inl c ↦ inl c
                  | inr found ↦ inr (HasDefault-later (q, old) ports (default_file p) files found)
                ]
                | inl z ↦ elim (render_defaults-each (default_file p) ports next files rest) [
                  | inr found ↦ inr (HasDefault-later (q, old) ports (default_file p) files found)
                  | inl g ↦
                      let y = ap (λ (x : ℤ × Text). default_file x.0) (sym z) in
                      inr (
                        (q, old),
                        c,
                        inl refl,
                        y,
                        e,
                        g ∙ subst (λ k. get k next ≡ some c) y (get-put_self (default_file q) c m),
                      )
                ]
              ]
        ]
      ]
