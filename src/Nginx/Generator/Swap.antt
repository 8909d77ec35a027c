-- ===== src/Nginx/Generator/Swap.antt =====
-- Generate and swapInStaged of internal/nginx/generator.go.
use mesh_cdn.Base.{
  Result, any, Text, text, same, Bool, true, false, ◌&&◌, Option, none, some, List, [], ◌∷◌, ◌++◌,
  map, ok, err,
}
use mesh_cdn.Base.Before.{before}
use mesh_cdn.Base.Int.{ℤ, beq_ℤ}
use mesh_cdn.Base.Decimal.{decimal_ℤ}
use mesh_cdn.Base.Sort.{sort_by}
use mesh_cdn.Base.Table.{get, put, delete}
use mesh_cdn.Nginx.Types.{DomainPolicy}
use mesh_cdn.Nginx.Generator.{
  ServerEntry, GeneratorState, resolve_certs, server_file, default_file, policy_of,
}

-- A directory with nginx.conf, if it is there, and the files of its folder servers/.
pub record Tree : Type 0 where
  pub conf : Option Text
  pub servers : List (Text × Text)

-- How the calls of the file system end, those on files by their name.
pub record FileFaults : Type 0 where
  pub clear_staging : Option Text
  pub mkdir_staging : Option Text
  pub mkdir_challenge : Option Text
  pub mkdir_live : Option Text
  pub read_staged : Option Text
  pub rename : Text → Option Text
  pub rename_conf : Option Text
  pub read_live : Option Text
  pub remove : Text → Option Text

-- The templates: what a file gets, or why it cannot be written.
pub record Templates : Type 0 where
  pub main : Result Text Text
  pub server : ServerEntry → GeneratorState → DomainPolicy → Result Text Text
  pub default : ℤ → Text → GeneratorState → Result Text Text

-- The names that os.ReadDir gives.
abbrev pub names : List (Text × Text) → List Text
names m = sort_by before (map (λ (e : Text × Text). e.0) m)

abbrev pub content_of : Text → List (Text × Text) → Text
content_of k m = elim (get k m) [ none ↦ [] | some v ↦ v ]

abbrev pub is_published : List (Text × Text) → Text → Bool
is_published staged k = any (λ j. same j k) (names staged)

module _ (faults : FileFaults) where
  -- The loop that renames the staged files.
  unfoldable pub publish :
      List (Text × Text) → List Text → List (Text × Text) → List (Text × Text) × Option Text
  unfolding get put
  publish staged [] live = (live, none)
  publish staged (k ∷ ks) live = elim (faults.rename k) [
    | some e ↦ (live, some (text "publish " ++ (k ++ (text ": " ++ e))))
    | none ↦ publish staged ks (put k (content_of k staged) live)
  ]

  -- The loop that removes what was not published.
  unfoldable pub remove_stale :
      (Text → Bool) → List Text → List (Text × Text) → List (Text × Text) × Option Text
  unfolding delete
  remove_stale published [] live = (live, none)
  remove_stale published (k ∷ ks) live = elim (published k) [
    | true ↦ remove_stale published ks live
    | false ↦ elim (faults.remove k) [
      | some e ↦ (live, some (text "remove stale " ++ (k ++ (text ": " ++ e))))
      | none ↦ remove_stale published ks (delete k live)
    ]
  ]

  -- swapInStaged
  unfoldable pub swap_in_staged : Tree → Tree → Tree × Option Text
  unfolding publish remove_stale same
  swap_in_staged staged live = elim faults.mkdir_live [
    | some e ↦ (live, some (text "ensure output dir: " ++ e))
    | none ↦ elim faults.read_staged [
      | some e ↦ (live, some (text "read staged servers: " ++ e))
      | none ↦
          let (servers, failed) = publish staged.servers (names staged.servers) live.servers in
          elim failed [
            | some e ↦ (record live { servers = servers }, some e)
            | none ↦ elim faults.rename_conf [
              | some e ↦
                  (record live { servers = servers }, some (text "publish nginx.conf: " ++ e))
              | none ↦ elim faults.read_live [
                | some e ↦ (
                  record { conf = staged.conf; servers = servers },
                  some (text "read live servers: " ++ e),
                )
                | none ↦
                    let (rest, stale) =
                      remove_stale (is_published staged.servers) (names servers) servers in
                    (record { conf = staged.conf; servers = rest }, stale)
              ]
            ]
          ]
    ]
  ]

module _ (templates : Templates) (st : GeneratorState) where
  -- The loop over the servers.
  unfoldable pub render_servers :
      List (Text × DomainPolicy)
      → List ServerEntry
      → List (Text × Text)
      → Result Text (List (Text × Text))
  unfolding put get server_file
  render_servers policies [] m = ok m
  render_servers policies (s ∷ ss) m = elim (templates.server s st (policy_of s.scope policies)) [
    | err e ↦ err (text "render server " ++ (s.scope ++ (text ": " ++ e)))
    | ok content ↦ render_servers policies ss (put (server_file s) content m)
  ]

  abbrev pub is_catch_all : ℤ → ServerEntry → Bool
  is_catch_all port s = same s.host (text "-") && beq_ℤ s.port port

  -- The loop over the ports that have no server for all hosts.
  unfoldable pub render_defaults :
      List (ℤ × Text) → List (Text × Text) → Result Text (List (Text × Text))
  unfolding put same default_file decimal_ℤ
  render_defaults [] m = ok m
  render_defaults ((port, proto) ∷ ports) m = elim (any (is_catch_all port) st.servers) [
    | true ↦ render_defaults ports m
    | false ↦ elim (templates.default port proto st) [
      | err e ↦ err (text "render default :" ++ (decimal_ℤ port ++ (text ": " ++ e)))
      | ok content ↦ render_defaults ports (put (default_file port) content m)
    ]
  ]

  -- The staged files.
  unfoldable pub render : List (Text × DomainPolicy) → Result Text Tree
  unfolding render_servers render_defaults
  render policies = elim templates.main [
    | err e ↦ err (text "render main: " ++ e)
    | ok conf ↦ elim (render_servers policies st.servers []) [
      | err e ↦ err e
      | ok servers ↦ elim (render_defaults st.port_protocols servers) [
        | err e ↦ err e
        | ok files ↦ ok (record { conf = some conf; servers = files })
      ]
    ]
  ]

-- Generate, on what collectState and BuildPoliciesFromDB return: the output directory afterwards,
-- and the error.
unfoldable pub generate :
    FileFaults
    → Templates
    → Text
    → Result Text GeneratorState
    → Result Text (List (Text × DomainPolicy))
    → Tree
    → Tree × Option Text
unfolding render swap_in_staged
generate faults templates node_ip (err e) policies live = (live, some (text "collect state: " ++ e))
generate faults templates node_ip (ok st) (err e) live = (live, some (text "build policies: " ++ e))
generate faults templates node_ip (ok st) (ok policies) live = elim faults.clear_staging [
  | some e ↦ (live, some (text "clear staging dir: " ++ e))
  | none ↦ elim faults.mkdir_staging [
    | some e ↦ (live, some (text "mkdir staging: " ++ e))
    | none ↦ elim faults.mkdir_challenge [
      | some e ↦ (live, some (text "mkdir challenge: " ++ e))
      | none ↦ elim (render templates (resolve_certs node_ip st) policies) [
        | err e ↦ (live, some e)
        | ok staged ↦ swap_in_staged faults staged live
      ]
    ]
  ]
]
