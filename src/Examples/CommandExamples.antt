-- ===== src/Examples/CommandExamples.antt =====
-- Parsing, port bindings and effects.
use mesh_cdn.Base.Int.{pos}
use mesh_cdn.Base.{
  All, In, Text, text, trim_space, ◌≡◌, refl, ◌↔◌, inl, inr, true, false, none, some, List, [], ◌∷◌,
  ok,
}
use mesh_cdn.Base.Words.{fields}
use mesh_cdn.Command.Types.{
  write, zh, Command, Error, port_conflict, code_of, Binding, Effects, no_effects,
}
use mesh_cdn.Command.Parse.{parse}
use mesh_cdn.Command.Parse.RoundTrip.{render, parse-render}
use mesh_cdn.Command.Ports.{Ports, enforce}
use mesh_cdn.Command.Ports.Enforce.{Extends, Holds, no_faults, enforce_iff}
use mesh_cdn.Command.Aftermath.{
  apply_nginx, announce, Services, notify_peers, stages, apply_effects,
}

abbrev ports : Ports
ports = (443, text "https") ∷ []

abbrev bindings : List Binding
bindings =
    record { port = 443; protocol = text "http" }
    ∷ record { port = 80; protocol = text "http" }
    ∷ []

enforce_example :
    (((enforce no_faults false bindings ports).1 ≡ none)
      ↔ ((u : Ports) × Extends ports u × All (Holds u) bindings))
    × ((enforce no_faults false bindings ports).1 ≡ none
        → Extends ports (enforce no_faults false bindings ports).0
          × All (Holds (enforce no_faults false bindings ports).0) bindings)
    × ((x : Error)
        → (enforce no_faults false bindings ports).1 ≡ some x
        → code_of x ≡ port_conflict)
enforce_example = enforce_iff bindings ports

abbrev asking : Effects
asking = record no_effects { needs_nginx_reload = true; user_message = text "done" }

abbrev line : Text
line = text "  /w  domain https://a.com:443 target=http://b:80 "

abbrev line_command : Command
line_command = record {
  verb = write;
  type = text "domain";
  scope = text "https://a.com:443";
  params = text "target=http://b:80";
  raw = text "/w  domain https://a.com:443 target=http://b:80";
  lang = zh;
}

line-parse : parse line ≡ ok line_command
unfolding parse trim_space fields
line-parse = refl

parse_example :
    (parse line_command.raw ≡ ok line_command)
    × (parse (render line_command.verb line_command.type line_command.scope line_command.params)
        ≡ ok (record line_command {
          raw = render line_command.verb line_command.type line_command.scope line_command.params;
        }))
parse_example = parse-render line line_command line-parse

-- A node whose calls all succeed, with peers to tell.
abbrev services : Services
services = record {
  has_cert_store = true;
  nginx_config_dir = text "/etc/nginx";
  default_output_dir = text "/out";
  cache_dir = [];
  snapshot_path = text "/snap";
  notifies_peers = true;
  broadcast_exec = none;
  generate = none;
  validate_and_reload = λ path. none;
  read_dir = λ path. ok [];
  remove_all = λ path. none;
  export = none;
  save = none;
}

told_last : In (notify_peers (pos 7)) (apply_effects services asking true (pos 7)).1
unfolding apply_effects stages apply_nginx announce
told_last = inr (inr (inr (inl refl)))
