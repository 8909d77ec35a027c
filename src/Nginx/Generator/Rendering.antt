-- ===== src/Nginx/Generator/Rendering.antt =====
-- Which files Generate stages: one for each server, and one for each port without a server for all hosts.
use mesh_cdn.Base.{
  ok-injective, Result-cases, any, In, Text, ◌≡◌, sym, ap, ◌∙◌, ◌≢◌, ◌⊎◌, inl, inr, true, none,
  some, List, [], arith, ok,
}
use mesh_cdn.Base.Int.{ℤ}
use mesh_cdn.Base.Table.{get}
use mesh_cdn.Nginx.Types.{DomainPolicy}
use mesh_cdn.Nginx.Generator.{ServerEntry, GeneratorState, server_file, default_file}
use mesh_cdn.Nginx.Generator.Swap.{
  Tree, Templates, render_servers, render_defaults, is_catch_all, render,
}
use mesh_cdn.Nginx.Generator.Renames.{Files}
use mesh_cdn.Nginx.Generator.Loops.{
  HasServer, HasDefault, server_file-default_file, render_servers-each, render_servers-all,
  render_defaults-each, render_defaults-all,
}

module _ (templates : Templates) (st : GeneratorState) (ps : List (Text × DomainPolicy)) where
  -- What the staged files are for.
  pub record Rendered (staged : Tree) : Type 0 where
    pub servers :
        (s : ServerEntry)
        → In s st.servers
        → HasServer templates st ps st.servers (server_file s) staged.servers
    pub defaults :
        (p : ℤ) (proto : Text)
        → In (p, proto) st.port_protocols
        → (any (is_catch_all templates st p) st.servers ≡ true)
          ⊎ HasDefault templates st ps st.port_protocols (default_file p) staged.servers
    pub nothing_else :
        (name : Text)
        → (get name staged.servers ≡ none)
          ⊎ HasServer templates st ps st.servers name staged.servers
          ⊎ HasDefault templates st ps st.port_protocols name staged.servers

  staged_files :
      (staged : Tree)
      → render templates st ps ≡ ok staged
      → (files : Files) × (render_servers templates st ps st.servers [] ≡ ok files)
        × (render_defaults templates st st.port_protocols files ≡ ok staged.servers)
  unfolding render
  staged_files staged h = elim (Result-cases templates.main) [
    | inr (x, e) ↦ absurd (ground arith)
    | inl (conf, e) ↦ elim (Result-cases (render_servers templates st ps st.servers [])) [
      | inr (x, f) ↦ absurd (ground arith)
      | inl (files, f) ↦
          elim (Result-cases (render_defaults templates st st.port_protocols files)) [
            | inr (x, g) ↦ absurd (ground arith)
            | inl (all, g) ↦
                let q : render templates st ps ≡ ok (record { conf = some conf; servers = all }) =
                  ground arith in
                (files, f, g ∙ ap (λ (t : Tree). ok t.servers) (ok-injective (sym q ∙ h)))
          ]
    ]
  ]

  -- The name of a server is not written by the loop over the ports.
  server_stays :
      (name : Text) (files all : Files)
      → ((e : ℤ × Text) → default_file e.0 ≢ name)
      → render_defaults templates st st.port_protocols files ≡ ok all
      → get name all ≡ get name files
  server_stays name files all n h =
      elim (render_defaults-each templates st ps name st.port_protocols files all h) [
        | inl q ↦ q
        | inr (e, c, i, q, r, g) ↦ absurd (n e q)
      ]

  -- If the rendering succeeds, the file that is named after a server holds the rendering of a
  -- server of the state with that file name; each port of the table has a server for all hosts, or
  -- the file named after it holds a default of the table with that name; and no other file is
  -- staged.
  pub render-Rendered : (staged : Tree) → render templates st ps ≡ ok staged → Rendered staged
  unfolding get
  render-Rendered staged h =
      let (files, f, g) = staged_files staged h in
      record {
        servers = λ s i.
            let (t, c, j, q, r, z) = render_servers-all templates st ps s st.servers [] files f i in
            (
              t,
              c,
              j,
              q,
              r,
              server_stays (server_file s) files staged.servers
                    (λ e y. server_file-default_file s e.0 (sym y)) g
                  ∙ z,
            );
        defaults = λ p proto i.
            render_defaults-all templates st ps p proto st.port_protocols files staged.servers g i;
        nothing_else = λ name.
            elim (render_defaults-each templates st ps name st.port_protocols files staged.servers
              g) [
                | inr found ↦ inr (inr found)
                | inl q ↦ elim (render_servers-each templates st ps name st.servers [] files f) [
                  | inl z ↦ inl (q ∙ z)
                  | inr (t, c, j, y, r, z) ↦ inr (inl (t, c, j, y, r, q ∙ z))
                ]
              ];
      }
