-- ===== src/Examples/SyncExamples.antt =====
-- A node that receives a snapshot from a peer.
use mesh_cdn.Base.{
  if◌then◌else◌, In, Text, text, same, eq→same, is_space, trim_space, ◌≡◌, refl, ◌↔◌, inr, Bool,
  true, false, ◌||◌, Option, none, some, List, [], ◌∷◌, ◌++◌, arith, ok, err,
}
use mesh_cdn.Base.Words.{is_space-IsWord}
use mesh_cdn.Base.Int.{ℤ, pos}
use mesh_cdn.Base.Sort.{sort_by}
use mesh_cdn.Base.Table.{DistinctKeys}
use mesh_cdn.Base.Time.{Time}
use mesh_cdn.Peers.{Peer, Disk, joined_before}
use mesh_cdn.Snapshot.{Snapshot, parse_text, to_text}
use mesh_cdn.Snapshot.RoundTrip.{IsPrintable, parse_text-to_text}
use mesh_cdn.Command.Types.{write, zh, Command, Error, no_effects}
use mesh_cdn.Command.Ports.Enforce.{no_faults}
use mesh_cdn.Command.Executor.{Db, Handler, Faults}
use mesh_cdn.Command.Sync.{
  ImportFaults, ReplayResult, replay_one_in_tx_force, replay_lines, wiped, no_result,
  import_snapshot, reconcile_peers_file,
}
use mesh_cdn.Command.Sync.Replay.{Counts, import_snapshot-Counts}
use mesh_cdn.Command.Sync.Membership.{Stays, reconcile_peers_file-Stays}

-- A time is printed as its seconds; here only the zero time is.
abbrev format_time : Time → Text
format_time t = text "0001-01-01T00:00:00Z"

abbrev parse_time : Text → Option Time
parse_time s = if same s (text "0001-01-01T00:00:00Z") then some 0 else none

abbrev received : Snapshot
received = record {
  header = record { version = pos 12; exported_at = 0; program = text "v4.0.19" };
  commands = text "/w internal peer-add 10.0.0.1 1" ∷ text "/w domain b http" ∷ [];
}

received-IsPrintable : IsPrintable format_time parse_time received
unfolding same trim_space is_space
received-IsPrintable = record {
  number = 12;
  version = refl;
  version_fits = omega arith;
  time_word = (
    λ e. cc,
    (
      refl,
      (
        refl,
        (
          refl,
          (
            refl,
            (
              refl,
              (
                refl,
                (
                  refl,
                  (
                    refl,
                    (
                      refl,
                      (
                        refl,
                        (
                          refl,
                          (
                            refl,
                            (refl, (refl, (refl, (refl, (refl, (refl, (refl, (refl, tt)))))))),
                          ),
                        ),
                      ),
                    ),
                  ),
                ),
              ),
            ),
          ),
        ),
      ),
    ),
  );
  time_back = refl;
  program = inr (is_space-IsWord _ _ refl);
  commands = (
    record { one_line = refl; not_blank = refl; not_header = refl },
    (record { one_line = refl; not_blank = refl; not_header = refl }, tt),
  );
}

parse_text-to_text_example : parse_text parse_time (to_text format_time received) ≡ received
parse_text-to_text_example = parse_text-to_text format_time parse_time received received-IsPrintable

abbrev scopes : Handler (List Text)
scopes = record {
  validate = λ c. none;
  write = λ d c. (
    record d { rows = d.rows ++ c.scope ∷ [] },
    ok (record no_effects {
      port_protocol_bindings = record { port = 443; protocol = c.params } ∷ [];
    }),
  );
  delete = λ d c. (record d { rows = [] }, ok no_effects);
  view = λ d c. (d, ok no_effects);
}

abbrev registry : Text → Option (Handler (List Text))
registry t = if same t (text "domain") then some scopes else none

abbrev sound : Faults
sound = record {
  begin = false;
  read_version = false;
  bump = false;
  commit = false;
  ports = no_faults;
}

abbrev import_sound : ImportFaults
import_sound = record { begin = false; wipe = false; set_version = false; commit = false }

abbrev db : Db (List Text)
db = record {
  rows = text "a" ∷ [];
  ports = (443, text "https") ∷ [];
  config_version = pos 4;
  peers = [];
}

abbrev disk : Disk
disk = record {
  content = ok (
      record { ip = text "10.0.0.9"; join_order = pos 3 }
      ∷ record { ip = text "10.0.0.7"; join_order = pos 2 }
      ∷ []);
  write_error = none;
}

abbrev replay : Db (List Text) → Text → Db (List Text) × Option Error
replay = replay_one_in_tx_force registry sound

import_snapshot-Counts_example :
    (((e : Text) × ((import_snapshot replay import_sound (λ t. []) received db).1 ≡ err e))
      ↔ ((false || false || false || false) ≡ true))
    × ((e : Text)
        → (import_snapshot replay import_sound (λ t. []) received db).1 ≡ err e
        → (import_snapshot replay import_sound (λ t. []) received db).0 ≡ db)
    × ((res : ReplayResult)
        → (import_snapshot replay import_sound (λ t. []) received db).1 ≡ ok res
        → ((import_snapshot replay import_sound (λ t. []) received db).0
            ≡ record (replay_lines replay 0 received.commands (wiped (λ t. []) db, no_result)).0 {
              config_version = pos 12;
            })
          × (res.new_version ≡ pos 12)
          × Counts 2 res)
import_snapshot-Counts_example = import_snapshot-Counts replay import_sound (λ t. []) received db

abbrev conflicting : Command
conflicting = record {
  verb = write;
  type = text "domain";
  scope = text "b";
  params = text "http";
  raw = text "/w domain b http";
  lang = zh;
}

abbrev declared : List (Text × ℤ)
declared = (text "10.0.0.1", pos 1) ∷ (text "10.0.0.7", pos 2) ∷ []

declared-DistinctKeys : DistinctKeys declared
unfolding same
declared-DistinctKeys = ((λ e. apart (eq→same (text "10.0.0.1") (text "10.0.0.7") e), tt), (tt, tt))
  where
    apart : false ≡ true → ⊥
    apart h = cc

abbrev members : List Peer
members =
    record { ip = text "10.0.0.9"; join_order = pos 3 }
    ∷ record { ip = text "10.0.0.7"; join_order = pos 2 }
    ∷ []

reconcile_peers_file-Stays_example :
    ((reconcile_peers_file declared (text "10.0.0.9") disk).1 ≡ none)
    × ((qs : List Peer) × ((reconcile_peers_file declared (text "10.0.0.9") disk).0.content ≡ ok qs)
        × ((p : Peer)
            → In p qs ↔ Stays declared (text "10.0.0.9") (sort_by joined_before members) p))
reconcile_peers_file-Stays_example =
    reconcile_peers_file-Stays declared (text "10.0.0.9") disk members declared-DistinctKeys refl
      refl

abbrev keep : Text → Bool
keep ip = same ip (text "10.0.0.7")

abbrev lost : Peer
lost = record { ip = text "10.0.0.9"; join_order = pos 3 }
