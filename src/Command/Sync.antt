-- ===== src/Command/Sync.antt =====
-- ApplySnapshot of internal/command/executor.go, and Import of internal/snapshot/import.go.
pub mod Replay
pub mod Membership
pub mod Mirror
pub mod Apply
pub mod Converge
pub mod Keeping
pub mod Restore
use mesh_cdn.Base.{
  if◌then◌else◌, Result, filter, find?, Text, text, same, is_empty, trim_space, ℕ, suc, ◌+◌, Bool,
  true, false, not, ◌&&◌, ◌||◌, Option, none, some, List, [], ◌∷◌, ◌++◌, map, ok, err,
}
use mesh_cdn.Base.Before.{before}
use mesh_cdn.Base.Int.{ℤ, pos, negsuc, ltb_ℤ, beq_ℤ}
use mesh_cdn.Base.Sort.{sort_by}
use mesh_cdn.Base.Table.{get}
use mesh_cdn.Peers.{Peer, Disk, all_peers, has_ip, replace_all}
use mesh_cdn.Snapshot.{Snapshot, parse_text, declared_peers}
use mesh_cdn.Command.Types.{Verb, write, delete, view, Command, Error, plain, no_such_type, Effects}
use mesh_cdn.Command.Parse.{parse}
use mesh_cdn.Command.Ports.{PortFaults}
use mesh_cdn.Command.Executor.{Db, Handler, Faults, dispatch, enforced}

-- Which of the driver's calls fail in an import.
pub record ImportFaults : Type 0 where
  pub begin : Bool
  pub wipe : Bool
  pub set_version : Bool
  pub commit : Bool

pub record ReplayResult : Type 0 where
  pub commands_applied : ℕ
  pub commands_failed : ℕ
  pub new_version : ℤ
  pub per_line_errors : List (ℕ × Error)

module _ {T : Type 0} (registry : Text → Option (Handler T)) (faults : Faults) where
  -- The command of a line, from the lookup of its handler on.
  unfoldable pub replay_command : Db T → Command → Db T × Option Error
  replay_command d c = elim (registry c.type) [
    | none ↦ (d, some (plain (no_such_type c.type)))
    | some h ↦ elim (h.validate c) [
      | some e ↦ (d, some e)
      | none ↦
          let (d', r) = dispatch c.verb h d c in
          elim r [
            | err e ↦ (d', some e)
            | ok eff ↦
                let (d'', q) = enforced faults true d' eff in
                (d'', elim q [ err x ↦ some x | ok done ↦ none ])
          ]
    ]
  ]

  abbrev pub is_view : Verb → Bool
  is_view write = false
  is_view delete = false
  is_view view = true

  -- replayOneInTxForce
  unfoldable pub replay_one_in_tx_force : Db T → Text → Db T × Option Error
  replay_one_in_tx_force d line =
      let trimmed = trim_space line in
      if is_empty trimmed then (d, none) else elim (parse trimmed) [
        | err e ↦ (d, some e)
        | ok c ↦ if is_view c.verb then (d, none) else replay_command d c
      ]

abbrev pub wiped : {T : Type 0} → (T → T) → Db T → Db T
wiped wipe_rows d = record d { rows = wipe_rows d.rows; ports = [] }

abbrev pub no_result : ReplayResult
no_result = record {
  commands_applied = 0;
  commands_failed = 0;
  new_version = pos 0;
  per_line_errors = [];
}

-- What a line adds to the counts.
abbrev pub counted : ℕ → Option Error → ReplayResult → ReplayResult
counted i none res = record res { commands_applied = res.commands_applied + 1 }
counted i (some x) res = record res {
  commands_failed = res.commands_failed + 1;
  per_line_errors = res.per_line_errors ++ (i, x) ∷ [];
}

-- Import, with the callback that replays a line. `wipe_rows` empties the tables of the rows.
module _ {T : Type 0} (replay_line : Db T → Text → Db T × Option Error) where
  -- The second step of Import: the transaction, and the counts so far.
  unfoldable pub replay_lines : ℕ → List Text → Db T × ReplayResult → Db T × ReplayResult
  replay_lines i [] s = s
  replay_lines i (line ∷ lines) (d, res) =
      let (d', e) = replay_line d line in replay_lines (suc i) lines (d', counted i e res)

  unfoldable pub import_snapshot :
      ImportFaults → (T → T) → Snapshot → Db T → Db T × Result Text ReplayResult
  import_snapshot faults wipe_rows snap d =
      let (last, res) = replay_lines 0 snap.commands (wiped wipe_rows d, no_result) in
      if faults.begin
      then (d, err (text "begin tx"))
      else if faults.wipe
      then (d, err (text "wipe"))
      else if faults.set_version
      then (d, err (text "set config_version"))
      else if faults.commit
      then (d, err (text "commit"))
      else (
        record last { config_version = snap.header.version },
        ok (record res { new_version = snap.header.version }),
      )

-- Whether an IP is in the set `keep` of reconcilePeers.
abbrev pub is_some : Option ℤ → Bool
is_some none = false
is_some (some n) = true

abbrev pub is_declared : List (Text × ℤ) → Text → Bool
is_declared declared ip = is_some (get ip declared)

abbrev pub is_kept : List (Text × ℤ) → Text → Text → Bool
is_kept declared node_ip ip = is_declared declared ip || (not (is_empty node_ip) && same node_ip ip)

-- The rows that pruneDBPeers deletes, one by one. `delete_error` is how a DELETE ends.
unfoldable pub delete_peers : (Text → Option Text) → List Text → List Peer → List Peer × Option Text
delete_peers delete_error [] peers = (peers, none)
delete_peers delete_error (ip ∷ ips) peers =
    let rest = delete_peers delete_error ips (filter (λ p. not (has_ip ip p)) peers) in
    elim (delete_error ip) [ none ↦ rest | some e ↦ (peers, some e) ]

-- pruneDBPeers. `query_error` is how the SELECT ends.
unfoldable pub prune_db_peers :
    Option Text → (Text → Option Text) → (Text → Bool) → List Peer → List Peer × Option Text
prune_db_peers query_error delete_error keep peers = elim query_error [
  | some e ↦ (peers, some e)
  | none ↦
      delete_peers delete_error
        (map (λ (p : Peer). p.ip) (filter (λ (p : Peer). not (keep p.ip)) peers)) peers
]

abbrev pub declared_peer : Text × ℤ → Peer
declared_peer (ip, order) = record { ip = ip; join_order = order }

-- The order of the node itself in the list, or -1.
abbrev pub order_of : Option Peer → ℤ
order_of none = negsuc 0
order_of (some p) = p.join_order

abbrev pub self_order : Text → List Peer → ℤ
self_order node_ip existing = order_of (find? (has_ip node_ip) existing)

-- The node itself, if the snapshot leaves it out and it has an order.
abbrev pub self_peers : List (Text × ℤ) → Text → List Peer → List Peer
self_peers declared node_ip existing =
    if not (is_declared declared node_ip)
      && (not (is_empty node_ip) && not (ltb_ℤ (self_order node_ip existing) (pos 0)))
    then record { ip = node_ip; join_order = self_order node_ip existing } ∷ []
    else []

abbrev pub peer_before : Peer → Peer → Bool
peer_before p q =
    if not (beq_ℤ p.join_order q.join_order)
    then ltb_ℤ p.join_order q.join_order
    else before p.ip q.ip

unfoldable pub next_peers : List (Text × ℤ) → Text → List Peer → List Peer
next_peers declared node_ip existing =
    sort_by peer_before (map declared_peer declared ++ self_peers declared node_ip existing)

unfoldable pub same_peers : List Peer → List Peer → Bool
unfolding same
same_peers [] [] = true
same_peers [] (q ∷ qs) = false
same_peers (p ∷ ps) [] = false
same_peers (p ∷ ps) (q ∷ qs) =
    (same p.ip q.ip && beq_ℤ p.join_order q.join_order) && same_peers ps qs

-- reconcilePeersFile, on a node that has a peer manager.
unfoldable pub reconcile_peers_file : List (Text × ℤ) → Text → Disk → Disk × Option Text
reconcile_peers_file declared node_ip disk = elim (all_peers disk) [
  | err e ↦ (disk, some e)
  | ok existing ↦
      let next = next_peers declared node_ip existing in
      if same_peers next existing then (disk, none) else replace_all next disk
]

-- reconcilePeers, on a node that has a peer manager: the mirror table, the file, and the error.
unfoldable pub reconcile_peers :
    Option Text
    → (Text → Option Text)
    → Text
    → Option (List (Text × ℤ))
    → List Peer × Disk
    → (List Peer × Disk) × Option Text
reconcile_peers query_error delete_error node_ip none (peers, disk) = ((peers, disk), none)
reconcile_peers query_error delete_error node_ip (some declared) (peers, disk) =
    let (left, db_error) =
      prune_db_peers query_error delete_error (is_kept declared node_ip) peers in
    let (disk', e) = reconcile_peers_file declared node_ip disk in
    ((left, disk'), elim e [ some x ↦ some x | none ↦ db_error ])
