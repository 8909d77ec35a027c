-- ===== src/Examples/SettingExamples.antt =====
-- The language and the bot node of a cluster of two nodes.
use mesh_cdn.Base.{
  Result, Text, text, same, ◌≡◌, refl, true, Option, none, some, List, [], ◌∷◌, ok, err,
}
use mesh_cdn.Base.Int.{pos}
use mesh_cdn.Peers.{Disk}
use mesh_cdn.Command.Types.{write, zh, Command, Error, Effects}
use mesh_cdn.Command.Executor.{Db}
use mesh_cdn.Command.Handlers.Settings.{Settings, SettingFaults}
use mesh_cdn.Base.Words.{IsWord, fields}
use mesh_cdn.Base.Decimal.{decimal_ℤ, parse_int}
use mesh_cdn.Peers.{add}
use mesh_cdn.Command.Handlers.Internal.{
  PeerRowFaults, InternalOp, operation, join_order_of, upsert_peer, validate_internal,
  write_internal,
}
use mesh_cdn.Command.Handlers.Internal.Changes.{Changed}
use mesh_cdn.Command.Handlers.Internal.Operations.{write_internal-Changed}

abbrev faults : SettingFaults
faults = record {
  get_language = none;
  set_language = none;
  get_bot_node_ip = none;
  set_bot_node_ip = none;
}

abbrev db : Db Settings
db = record {
  rows = record { language = []; bot_node_ip = [] };
  ports = [];
  config_version = pos 1;
  peers = [];
}

abbrev disk : Disk
disk = record {
  content = ok (
      record { ip = text "10.0.0.1"; join_order = pos 1 }
      ∷ record { ip = text "10.0.0.2"; join_order = pos 2 }
      ∷ []);
  write_error = none;
}

abbrev no_row_faults : PeerRowFaults
no_row_faults = record { insert_peer = none; delete_peer = none }

-- The node was there with another order.
abbrev mirrored : Db Settings
mirrored = record db { peers = record { ip = text "10.0.0.3"; join_order = pos 9 } ∷ [] }

abbrev joining : Command
joining = record {
  verb = write;
  type = text "internal";
  scope = text "peer-add";
  params = text "10.0.0.3 3";
  raw = [];
  lang = zh;
}

abbrev joined : Option Disk × Db Settings × Result Error Effects
joined = write_internal (λ s. true) (λ s. s) faults no_row_faults (some disk) mirrored joining

joined_peers : joined.1.peers ≡ record { ip = text "10.0.0.3"; join_order = pos 3 } ∷ []
unfolding write_internal operation fields join_order_of upsert_peer add parse_int decimal_ℤ
joined_peers = refl

write_internal-Changed_example :
    ((x : Error) → joined.2 ≡ err x → joined.1 ≡ mirrored)
    × ((eff : Effects)
        → joined.2 ≡ ok eff
        → faults.get_bot_node_ip ≡ none
        → faults.get_language ≡ none
        → (op : InternalOp) × (w : Text) × (ws : List Text) × (operation joining.scope ≡ some op)
          × (fields joining.params ≡ w ∷ ws)
          × IsWord w
          × Changed faults op w (join_order_of (w ∷ ws)) (some disk, mirrored) (joined.0, joined.1))
write_internal-Changed_example =
    write_internal-Changed (λ s. true) (λ s. s) faults no_row_faults (some disk) mirrored joining
      (unfold validate_internal operation fields parse_int same in refl)
