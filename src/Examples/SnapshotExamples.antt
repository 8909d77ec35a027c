-- ===== src/Examples/SnapshotExamples.antt =====
-- The export of a cluster of two nodes.
use mesh_cdn.Base.{text, none, some, [], ◌∷◌, ok}
use mesh_cdn.Base.Int.{pos}
use mesh_cdn.Peers.{Peer}
use mesh_cdn.Snapshot.{Snapshot}
use mesh_cdn.Snapshot.Exporter.{no_rows, rows, Tables}

abbrev node : Peer
node = record { ip = text "a"; join_order = pos 1 }

abbrev peer : Peer
peer = record { ip = text "b"; join_order = pos 2 }

abbrev tables : Tables
tables = record {
  config_version = ok (pos 12);
  peers = rows (node ∷ peer ∷ []) none;
  bot_node = some (text "b");
  language = none;
  domains = rows ((text "https://x:443", text "http://o") ∷ []) none;
  rule_objects = rows ((text "cache", text "img", text "patterns=*.jpg ttl=5") ∷ []) none;
  bindings = no_rows (text "no table");
}

abbrev exported : Snapshot
exported = record {
  header = record { version = pos 12; exported_at = 7; program = text "v4" };
  commands =
      text "/w internal peer-add a 1"
      ∷ text "/w internal peer-add b 2"
      ∷ text "/w internal set-bot b"
      ∷ text "/w domain https://x:443 http://o"
      ∷ text "/w cache img patterns=*.jpg ttl=5"
      ∷ [];
}
