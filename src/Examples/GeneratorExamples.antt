-- ===== src/Examples/GeneratorExamples.antt =====
-- The generator on two domains and two files of an earlier run.
use mesh_cdn.Base.{
  Result, In, Text, text, same, ◌≡◌, refl, ◌≢◌, ◌⊎◌, inl, Option, none, some, List, [], ◌∷◌, ◌++◌,
  ok,
}
use mesh_cdn.Base.Before.{before}
use mesh_cdn.Base.Sort.{sort_by}
use mesh_cdn.Base.Int.{pos}
use mesh_cdn.Nginx.Types.{DomainPolicy}
use mesh_cdn.Nginx.Generator.{
  ServerEntry, GeneratorState, collect_state, resolve_certs, server_file, lua_quote,
}
use mesh_cdn.Nginx.Generator.Swap.{Tree, FileFaults, Templates, render, generate, swap_in_staged}
use mesh_cdn.Nginx.Generator.Publishing.{Swapped, generate-Published}
use mesh_cdn.Nginx.Generator.Rendering.{Rendered, render-Rendered}
use mesh_cdn.Cert.{select_for, filter_covering}
use mesh_cdn.Nginx.Generator.{resolve_cert}
use mesh_cdn.Nginx.Generator.Certificates.{Chosen, resolve_certs_lem}
use mesh_cdn.Nginx.Generator.Quoting.{read_literal, read_literal-lua_quote}

abbrev faults : FileFaults
faults = record {
  clear_staging = none;
  mkdir_staging = none;
  mkdir_challenge = none;
  mkdir_live = none;
  read_staged = none;
  rename = λ k. none;
  rename_conf = none;
  read_live = none;
  remove = λ k. none;
}

abbrev templates : Templates
templates = record {
  main = ok (text "http");
  server = λ s st p. ok (s.scope ++ s.origin);
  default = λ p proto st. ok proto;
}

abbrev rows : List (Text × Text)
rows =
    (text "http://b.com:80", text "-")
    ∷ (text "broken", text "-")
    ∷ (text "http://a.com:80", text "-")
    ∷ []

abbrev server : Text → ServerEntry
server host = record {
  scope = text "http://" ++ (host ++ text ":80");
  proto = text "http";
  host = host;
  port = pos 80;
  origin = text "-";
  cert_fp = [];
}

abbrev state : GeneratorState
state = record {
  servers = server (text "a.com") ∷ server (text "b.com") ∷ [];
  port_protocols = (pos 80, text "http") ∷ [];
  all_certs = [];
  self_signed_fp = [];
  now = 0;
}

collected : collect_state (ok rows) (ok []) (ok []) (text "10.0.0.1") 0 ≡ ok state
unfolding collect_state sort_by before
collected = refl

abbrev live : Tree
live = record {
  conf = some (text "old");
  servers =
      (text "domain-a.com-80.conf", text "old a")
      ∷ (text "domain-c.com-80.conf", text "old c")
      ∷ [];
}

abbrev staged : Tree
staged = record {
  conf = some (text "http");
  servers =
      (text "domain-a.com-80.conf", text "http://a.com:80-")
      ∷ (text "domain-b.com-80.conf", text "http://b.com:80-")
      ∷ (text "default-80.conf", text "http")
      ∷ [];
}

abbrev policies : List (Text × DomainPolicy)
policies = []

rendered : render templates state policies ≡ ok staged
unfolding render
rendered = refl

-- The names of two hosts that are different may be one: "-" is written as the host name "any".
shared_name : server_file (server (text "-")) ≡ server_file (server (text "any"))
unfolding server_file
shared_name = refl

-- All is published, and the file of c.com is removed.
swapped : swap_in_staged faults staged live ≡ (
  record {
    conf = some (text "http");
    servers =
        (text "domain-a.com-80.conf", text "http://a.com:80-")
        ∷ (text "default-80.conf", text "http")
        ∷ (text "domain-b.com-80.conf", text "http://b.com:80-")
        ∷ [];
  },
  none,
)
unfolding swap_in_staged sort_by before
swapped = refl

abbrev run : Tree × Option Text
run = generate faults templates (text "10.0.0.1") (ok state) (ok policies) live

generate-Published_example :
    ((e : Text) × (run ≡ (live, some e)))
    ⊎ ((st : GeneratorState) × (ps : List (Text × DomainPolicy)) × (tree : Tree) × (◌≡◌
          {A = Result Text GeneratorState}
          (ok state)
          (ok st))
        × (◌≡◌ {A = Result Text (List (Text × DomainPolicy))} (ok policies) (ok ps))
        × (render templates (resolve_certs (text "10.0.0.1") st) ps ≡ ok tree)
        × Swapped tree live run)
generate-Published_example =
    generate-Published faults templates (text "10.0.0.1") (ok state) (ok policies) live

render-Rendered_example : Rendered templates state policies staged
render-Rendered_example = render-Rendered templates state policies staged rendered

read_literal-lua_quote_example :
    read_literal (lua_quote (text "a\"b\\") ++ text " or true")
    ≡ some (text "a\"b\\", text " or true")
read_literal-lua_quote_example = read_literal-lua_quote (text "a\"b\\") (text " or true")

abbrev secure : ServerEntry
secure = record (server (text "a.com")) { proto = text "https"; port = pos 443 }

abbrev guarded : GeneratorState
guarded = record state { servers = secure ∷ []; self_signed_fp = text "f0" }

resolve_certs_example :
    (s : ServerEntry) × In s guarded.servers
    × ((s.proto ≢ text "https") → record secure { cert_fp = text "f0" } ≡ s)
    × ((s.proto ≡ text "https")
        → Chosen (text "10.0.0.1") guarded s (record secure { cert_fp = text "f0" }))
resolve_certs_example =
    resolve_certs_lem (text "10.0.0.1") guarded (record secure { cert_fp = text "f0" })
      (inl (unfold resolve_cert select_for filter_covering sort_by same in refl))
