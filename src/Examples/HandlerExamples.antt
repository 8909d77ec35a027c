-- ===== src/Examples/HandlerExamples.antt =====
-- The handlers of rules on small tables.
use mesh_cdn.Base.{
  none-ne-some, Result, any, All, Text, text, same, cut, ◌≤◌, ◌≡◌, refl, inl, inr, true, false,
  Option, none, [], ◌∷◌, arith, ok,
}
use mesh_cdn.Base.Int.{pos}
use mesh_cdn.Command.Types.{is_mutating, write, zh, Command, Error, Effects, no_effects}
use mesh_cdn.Command.Parse.{parse}
use mesh_cdn.Command.Executor.{Db, Handler, enforced, finish, run_lines, execute_batch}
use mesh_cdn.Command.Handlers.{DomainRow, ObjectRow, BindingRow, Tables, Outside}
use mesh_cdn.Command.Handlers.Scope.{DomainScope, parse_domain_scope, canonical_scope}
use mesh_cdn.Command.Handlers.Domain.{scope_of, write_domain, delete_domain}
use mesh_cdn.Command.Handlers.ObjectTypes.{Json}
use mesh_cdn.Command.Handlers.Acceptance.{object_row, object_handlers-Stores}
use mesh_cdn.Command.Handlers.Objects.{
  upsert_object, set_objects, is_object, validate_rule_object, delete_rule_object, delete_cache,
}
use mesh_cdn.Command.Handlers.ObjectTypes.{
  object_handlers, object_handler, prepare_redirect, special,
}
use mesh_cdn.Command.Handlers.ParamParsers.{parse_redirect_params}
use mesh_cdn.Command.Handlers.{reload}
use mesh_cdn.Command.Handlers.Ownership.{Wrote, write_domain-Wrote}
use mesh_cdn.Command.Handlers.Removal.{Removed, delete_domain-Removed}
use mesh_cdn.Command.Handlers.PortLists.{IsPort, Distinct, parse_domain_scope_lem}
use mesh_cdn.Command.Handlers.CanonicalScopes.{parse_domain_scope-canonical}
use mesh_cdn.Command.Handlers.Registry.{new_registry}
use mesh_cdn.Snapshot.{Snapshot}
use mesh_cdn.Command.Sync.{
  ImportFaults, replay_lines, replay_command, replay_one_in_tx_force, import_snapshot,
}
use mesh_cdn.Command.Handlers.Integrity.{
  IsSound, execute_batch-IsSound, wipe, import_snapshot-IsSound,
}
use mesh_cdn.Examples.BatchExamples.{quiet, bare}

abbrev pub out : Outside
out = record {
  select_error = λ s. none;
  write_error = λ s. none;
  delete_error = λ s. none;
  is_read = λ s. true;
  is_ip = λ s. false;
  compile_error = λ s. none;
  quote = λ s. s;
  rune_text = λ r. [];
  atoi_error = λ s. s;
}

abbrev pub js : Json
js = record {
  cache_json = λ p. text "{}";
  defense_json = λ p. text "{}";
  redirect_json = λ p. text "{}";
  header_json = λ p. text "{}";
}

abbrev pub listing : Text → Tables → Command → Result Error Effects
listing t d c = ok no_effects

abbrev pub others : Text → Option (Handler Tables)
others t = none

abbrev pub site : Text
site = text "https://a.com:443,8443"

abbrev pub site_row : DomainRow
site_row = record { display_scope = site; origin = text "http://o.com:80"; version = pos 1 }

abbrev pub images : ObjectRow
images = record {
  type = text "cache";
  name = text "img";
  params_text = text "patterns=*.png";
  parsed_json = text "{}";
  version = pos 2;
}

abbrev styles : ObjectRow
styles = record {
  type = text "cache";
  name = text "css";
  params_text = text "patterns=*.css ttl=60";
  parsed_json = text "{}";
  version = pos 4;
}

abbrev pub binding : BindingRow
binding = record {
  scope = site;
  object_type = text "cache";
  object_name = text "img";
  version = pos 3;
}

abbrev pub db : Db Tables
db = record {
  rows = record {
    domains = (text "https://a.com:443", site_row) ∷ (text "https://a.com:8443", site_row) ∷ [];
    rule_objects = images ∷ [];
    bindings = binding ∷ [];
  };
  ports = [];
  config_version = pos 3;
  peers = [];
}

abbrev pub site_scope : DomainScope
site_scope = record { proto = text "https"; host = text "a.com"; ports = 443 ∷ 8443 ∷ [] }

pub site_parsed : scope_of out site ≡ ok site_scope
unfolding parse_domain_scope
site_parsed = refl

pub db-IsSound : IsSound out db.rows
unfolding canonical_scope same
db-IsSound = (
  λ b m. elim m [ inl e ↦ rw e (refl, refl) | inr i ↦ absurd i ],
  (
    ((λ q. cc, tt), (tt, tt)),
    ((site_scope, site_parsed, inl refl), ((site_scope, site_parsed, inr (inl refl)), tt)),
  ),
)

-- The site and the object stay, since the binding refers to both; then all three go.
abbrev batch : Text
batch =
    text
      "/d cache img -\n/d domain https://a.com:443,8443 -\n/w cache css patterns=*.css ttl=60\n/d bind https://a.com:443,8443 cache:img\n/d domain https://a.com:443,8443 -"

after_batch :
    (execute_batch (new_registry out js listing others) quiet false bare zh batch db).0.rows
    ≡ record { domains = []; rule_objects = images ∷ styles ∷ []; bindings = [] }
unfolding execute_batch new_registry finish run_lines is_mutating
after_batch = refl

execute_batch-IsSound_example :
    IsSound out
      (execute_batch (new_registry out js listing others) quiet false bare zh batch db).0.rows
execute_batch-IsSound_example =
    execute_batch-IsSound out js listing others quiet false bare zh batch db (λ k. refl)
      (λ t h e. absurd (none-ne-some e)) db-IsSound

-- An iteration that fails at once: the object goes, although it is bound.
unread :
    (delete_rule_object
      (record out { is_read = λ s. false })
      (text "cache")
      (text "img")
      db).0.rows.rule_objects
    ≡ []
unfolding delete_rule_object
unread = refl

-- The handler of the caches counts the references, and refuses.
counted :
    (delete_cache (record out { is_read = λ s. false }) (text "img") db).0.rows.rule_objects
    ≡ images ∷ []
unfolding delete_cache
counted = refl

abbrev write_command : Text → Command
write_command s = record {
  verb = write;
  type = text "domain";
  scope = s;
  params = text "http://p.com:80";
  raw = s;
  lang = zh;
}

-- A port of the site alone is another scope: it is refused.
write_refused : (write_domain out db (write_command (text "https://a.com:443"))).0 ≡ db
unfolding write_domain
write_refused = refl

write_domain-Wrote_example :
    Wrote out db (write_command site) (write_domain out db (write_command site))
write_domain-Wrote_example = write_domain-Wrote out db (write_command site)

delete_domain-Removed_example :
    Removed out db (write_command site) (delete_domain out db (write_command site))
delete_domain-Removed_example = delete_domain-Removed out db (write_command site) (db-IsSound.1.0)

parse_domain_scope-canonical_example :
    parse_domain_scope (λ s. s) (λ s. false) (canonical_scope (text "https") (text "a.com") 65535)
    ≡ ok (record { proto = text "https"; host = text "a.com"; ports = 65535 ∷ [] })
parse_domain_scope-canonical_example =
    parse_domain_scope-canonical (λ s. s) (λ s. false) (text "https") (text "a.com") 65535
      (inr refl) refl (omega arith, omega arith)

parse_domain_scope_example :
    All IsPort (443 ∷ 8443 ∷ []) × Distinct (443 ∷ 8443 ∷ []) × (1 ≤ 2) × (true ≡ true)
unfolding same
parse_domain_scope_example =
    parse_domain_scope_lem (λ s. s) (λ s. false) site site_scope site_parsed

-- The last line has no object to bind to.
abbrev sent : Snapshot
sent = record {
  header = record { version = pos 9; exported_at = 0; program = text "v1" };
  commands =
      text "/w domain http://b.com:80 -"
      ∷ text "/w cache css patterns=*.css"
      ∷ text "/w bind http://b.com:80 cache:css"
      ∷ text "/w bind http://b.com:80 cache:js"
      ∷ [];
}

abbrev pub import_sound : ImportFaults
import_sound = record { begin = false; wipe = false; set_version = false; commit = false }

abbrev imported : Tables
imported =
    (import_snapshot (replay_one_in_tx_force (new_registry out js listing others) quiet)
      import_sound wipe sent db).0.rows

bound_after_import :
    imported.bindings
    ≡ record {
      scope = text "http://b.com:80";
      object_type = text "cache";
      object_name = text "css";
      version = pos 4;
    }
      ∷ []
unfolding import_snapshot new_registry replay_lines replay_one_in_tx_force replay_command parse
    enforced
bound_after_import = refl

import_snapshot-IsSound_example : IsSound out imported
import_snapshot-IsSound_example =
    import_snapshot-IsSound out js listing others quiet import_sound sent db (λ k. refl)
      (λ t h e. absurd (none-ne-some e)) db-IsSound

abbrev moved : Command
moved = record {
  verb = write;
  type = text "redirect";
  scope = text "old";
  params = text "from=/old to=/new status=302";
  raw = text "/w redirect old from=/old to=/new status=302";
  lang = zh;
}

abbrev redirects : Handler Tables
redirects =
    object_handler out js listing (text "redirect")
      (validate_rule_object out (text "redirect")
        (special out js listing (parse_redirect_params out)))
      (prepare_redirect out js listing)

moved_accepted : redirects.validate moved ≡ none
unfolding object_handler validate_rule_object parse_redirect_params cut
moved_accepted = refl

object_handlers-Stores_example :
    (json message : Text) × (redirects.write db moved ≡ (
      set_objects
          (upsert_object (object_row (text "redirect") moved json db) db.rows.rule_objects)
          db,
      ok (reload message),
    ))
    × (any (is_object (text "redirect") (text "old")) (redirects.write db moved).0.rows.rule_objects
        ≡ true)
object_handlers-Stores_example =
    object_handlers-Stores out js listing (text "redirect") redirects
      (unfold object_handlers in refl) refl db moved refl moved_accepted
