-- ===== src/Examples/ConvergeExamples.antt =====
-- A node that applies the text of the snapshot another node exports.
use mesh_cdn.Base.{
  if◌then◌else◌, In, Text, text, same, split, join, is_space, trim_left, trim_right, trim_space,
  ◌≡◌, refl, ap, ◌↔◌, inr, true, false, Option, none, some, List, [], ◌∷◌, ◌++◌, map, arith, ok,
}
use mesh_cdn.Base.Int.{pos}
use mesh_cdn.Base.Decimal.{decimal_ℤ}
use mesh_cdn.Base.Sort.{sort_by}
use mesh_cdn.Base.Time.{Time}
use mesh_cdn.Base.Words.{is_space-IsWord, IsWord, fields}
use mesh_cdn.Peers.{Peer, Disk, joined_before}
use mesh_cdn.Snapshot.{Snapshot, declared_peers, parse_text, parse_lines, parse_line_into, to_text}
use mesh_cdn.Snapshot.RoundTrip.{IsPrintable, parse_text-to_text}
use mesh_cdn.Snapshot.Exporter.{no_rows, rows, Tables, export_snapshot, export_lines}
use mesh_cdn.Snapshot.Exporter.Lines.{pair}
use mesh_cdn.Command.Ports.Enforce.{no_faults}
use mesh_cdn.Command.Aftermath.{Services}
use mesh_cdn.Command.Executor.{Db, Handler, Faults, parse_line, enforced}
use mesh_cdn.Command.Parse.{parse, parse_trimmed, from_fields, verb_of}
use mesh_cdn.Command.Handlers.Settings.{Settings, SettingFaults}
use mesh_cdn.Command.Handlers.Internal.{internal_handler}
use mesh_cdn.Command.Sync.{
  ImportFaults, ReplayResult, import_snapshot, replay_lines, replay_one_in_tx_force, replay_command,
}
use mesh_cdn.Command.Sync.Membership.{Stays}
use mesh_cdn.Command.Sync.Apply.{
  Node, Applied, snapshot, left_file, reconciled, apply_snapshot_version, replayed_file,
  apply_snapshot, after_import,
}
use mesh_cdn.Command.Sync.Converge.{apply_snapshot-export}

-- Here a time is a letter.
abbrev format_time : Time → Text
format_time t = text "t"

abbrev parse_time : Text → Option Time
parse_time s = if same s (text "t") then some 0 else none

abbrev node : Peer
node = record { ip = text "a"; join_order = pos 1 }

abbrev tables : Tables
tables = record {
  config_version = ok (pos 12);
  peers = rows (node ∷ []) none;
  bot_node = none;
  language = none;
  domains = rows [] none;
  rule_objects = rows [] none;
  bindings = no_rows (text "no table");
}

abbrev exported : Snapshot
exported = record {
  header = record { version = pos 12; exported_at = 0; program = text "v4" };
  commands = text "/w internal peer-add a 1" ∷ [];
}

abbrev setting_faults : SettingFaults
setting_faults = record {
  get_language = none;
  set_language = none;
  get_bot_node_ip = none;
  set_bot_node_ip = none;
}

abbrev registry : Text → Option (Handler (Settings × Disk))
registry t =
    if same t (text "internal")
    then some (
        internal_handler (λ s. true) (λ s. s) setting_faults
          (record { insert_peer = none; delete_peer = none }))
    else none

abbrev sound : Faults
sound = record {
  begin = false;
  read_version = false;
  bump = false;
  commit = false;
  ports = no_faults;
}

abbrev import_sound : ImportFaults
import_sound = record { begin = false; wipe = false; set_version = false; commit = false }

abbrev db : Db Settings
db = record {
  rows = record { language = []; bot_node_ip = [] };
  ports = [];
  config_version = pos 4;
  peers = [];
}

abbrev old : List Peer
old = record { ip = text "b"; join_order = pos 3 } ∷ []

-- The replayed line has added the peer, behind the node.
abbrev before : List Peer
before = old ++ record { ip = text "a"; join_order = pos 4 } ∷ []

abbrev disk : Disk
disk = record { content = ok old; write_error = none }

abbrev services : Services
services = record {
  has_cert_store = false;
  nginx_config_dir = [];
  default_output_dir = text "/out";
  cache_dir = [];
  snapshot_path = [];
  notifies_peers = false;
  broadcast_exec = none;
  generate = none;
  validate_and_reload = λ path. none;
  read_dir = λ path. ok [];
  remove_all = λ path. none;
  export = none;
  save = none;
}

abbrev outcome : Node Settings × Applied
outcome =
    apply_snapshot registry sound import_sound (λ t. t) parse_time none (λ ip. none) (text "b")
      services (to_text format_time exported) (db, disk)

abbrev result : ReplayResult
result = record {
  commands_applied = 1;
  commands_failed = 0;
  new_version = pos 12;
  per_line_errors = [];
}

exported-eq : export_snapshot tables 0 (text "v4") ≡ ok exported
unfolding export_snapshot export_lines join decimal_ℤ
exported-eq = refl

exported-IsPrintable : IsPrintable format_time parse_time exported
unfolding same trim_space is_space
exported-IsPrintable = record {
  number = 12;
  version = refl;
  version_fits = omega arith;
  time_word = is_space-IsWord _ _ refl;
  time_back = refl;
  program = inr (is_space-IsWord _ _ refl);
  commands = (record { one_line = refl; not_blank = refl; not_header = refl }, tt);
}

a-IsWord : IsWord (text "a")
unfolding is_space
a-IsWord = is_space-IsWord _ _ refl

outcome-eq : outcome.1.0 ≡ some result
unfolding apply_snapshot after_import import_snapshot replay_lines replay_one_in_tx_force
    replay_command parse_line parse parse_trimmed from_fields verb_of fields trim_space trim_left
    trim_right same is_space enforced internal_handler
outcome-eq = rw (parse_text-to_text format_time parse_time exported exported-IsPrintable) refl

left_by_lines :
    replayed_file registry sound import_sound
      (λ t. t)
      parse_time
      none
      (λ ip. none)
      (text "b")
      services
      exported
      (db, disk)
    ≡ record { content = ok before; write_error = none }
unfolding replayed_file replay_lines replay_one_in_tx_force trim_space parse replay_command
    internal_handler enforced
left_by_lines = refl

apply_snapshot-export_example :
    (outcome.0.0.config_version ≡ pos 12)
    × ((qs : List Peer) × (outcome.0.1.content ≡ ok qs)
        × ((q : Peer)
            → In q qs ↔ Stays (map pair (node ∷ [])) (text "b") (sort_by joined_before before) q))
apply_snapshot-export_example =
    apply_snapshot-export registry sound import_sound (λ t. t) format_time parse_time none
      (λ ip. none) (text "b") services db disk before tables node [] 0 (text "v4") exported result
      refl (record { ip_word = a-IsWord; number = 1; order = refl; fits = omega arith }, tt)
      (tt, tt) tt exported-eq exported-IsPrintable (ap (λ (x : Disk). x.content) left_by_lines)
      (ap (λ (x : Disk). x.write_error) left_by_lines) outcome-eq

-- A snapshot that declares no peers, but adds one, and an import that cannot commit.
abbrev given : Text
given = text "# version: 12\n/w internal peer-add c -\n"

abbrev refused : ImportFaults
refused = record import_sound { commit = true }

abbrev unfinished : Node Settings × Applied
unfinished =
    apply_snapshot registry sound refused (λ t. t) parse_time none (λ ip. none) (text "b") services
      given (db, disk)

abbrev sent : Snapshot
sent =
    snapshot registry sound refused (λ t. t) parse_time none (λ ip. none) (text "b") services given
      db disk

abbrev added_by_lines : Disk
added_by_lines =
    left_file registry sound refused (λ t. t) parse_time none (λ ip. none) (text "b") services given
      db disk

added_by_lines-eq :
    added_by_lines.content ≡ ok (old ++ record { ip = text "c"; join_order = pos 4 } ∷ [])
unfolding replayed_file replay_lines replay_one_in_tx_force trim_space parse replay_command
    internal_handler enforced parse_text parse_lines split parse_line_into
added_by_lines-eq = refl

apply_snapshot_version_example :
    (unfinished.1.0 ≡ none → (unfinished.0 ≡ (db, added_by_lines)) × (unfinished.1.2 ≡ []))
    × ((res : ReplayResult)
        → unfinished.1.0 ≡ some res
        → (unfinished.0.0.config_version ≡ sent.header.version)
          × (res.new_version ≡ sent.header.version)
          × (unfinished.0.1
              ≡ (reconciled registry sound refused
                  (λ t. t)
                  parse_time
                  none
                  (λ ip. none)
                  (text "b")
                  services
                  given
                  db
                  disk).0.1)
          × (declared_peers sent ≡ none → unfinished.0.1 ≡ added_by_lines))
apply_snapshot_version_example =
    apply_snapshot_version registry sound refused (λ t. t) parse_time none (λ ip. none) (text "b")
      services given db disk
