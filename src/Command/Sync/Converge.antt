-- ===== src/Command/Sync/Converge.antt =====
-- Two nodes: one exports its snapshot, and the other applies its text.
use mesh_cdn.Base.{
  All, In, Text, ◌≡◌, refl, ap, ◌∙◌, ◌≢◌, ◌↔◌, Option, none, some, List, [], ◌∷◌, map, ok,
}
use mesh_cdn.Base.Int.{ℤ}
use mesh_cdn.Base.Sort.{sort_by}
use mesh_cdn.Base.Table.{DistinctKeys}
use mesh_cdn.Base.Time.{Time}
use mesh_cdn.Peers.{Peer, Disk, joined_before}
use mesh_cdn.Snapshot.{Snapshot, to_text, declared_peers, parse_text}
use mesh_cdn.Snapshot.RoundTrip.{IsPrintable, parse_text-to_text}
use mesh_cdn.Snapshot.Exporter.{rows, Tables, export_snapshot}
use mesh_cdn.Snapshot.Exporter.Lines.{IsObjectRow, IsPeerRow, pair}
use mesh_cdn.Snapshot.Exporter.Membership.{DistinctRows, Rows, export_snapshot-declared_peers}
use mesh_cdn.Command.Aftermath.{Services}
use mesh_cdn.Command.Executor.{Db, Handler, Faults}
use mesh_cdn.Command.Sync.{ImportFaults, ReplayResult, reconcile_peers_file, reconcile_peers}
use mesh_cdn.Command.Sync.Membership.{Stays, reconcile_peers_file-Stays}
use mesh_cdn.Command.Sync.Apply.{replayed_file, apply_snapshot, apply_snapshot_version}

pair-apart :
    (p : Peer) (ps : List Peer)
    → All (λ (q : Peer). p.ip ≢ q.ip) ps
    → All (λ (e : Text × ℤ). p.ip ≢ e.0) (map pair ps)
pair-apart p [] h = tt
pair-apart p (q ∷ ps) h = (h.0, pair-apart p ps h.1)

pair-DistinctKeys : (ps : List Peer) → DistinctRows ps → DistinctKeys (map pair ps)
pair-DistinctKeys [] d = tt
pair-DistinctKeys (p ∷ ps) d = (pair-apart p ps d.0, pair-DistinctKeys ps d.1)

-- The file that reconciling leaves, for a snapshot that declares peers.
reconcile_peers-file :
    (query_error : Option Text) (delete_error : Text → Option Text) (node_ip : Text)
    (known : Option (List (Text × ℤ))) (declared : List (Text × ℤ)) (peers : List Peer)
    (disk : Disk)
    → known ≡ some declared
    → (reconcile_peers query_error delete_error node_ip known (peers, disk)).0.1
      ≡ (reconcile_peers_file declared node_ip disk).0
unfolding reconcile_peers
reconcile_peers-file query_error delete_error node_ip known declared peers disk e = rw e refl

module _ {T : Type 0} (registry : Text → Option (Handler (T × Disk))) (faults : Faults)
    (import_faults : ImportFaults) (wipe_rows : T → T) (format_time : Time → Text)
    (parse_time : Text → Option Time) (query_error : Option Text)
    (delete_error : Text → Option Text) (node_ip : Text) (services : Services) (d : Db T)
    (disk : Disk) (before : List Peer) where
  -- The file of the peers behind the replay of the snapshot.
  abbrev pub replayed : Snapshot → Disk
  replayed snap =
      replayed_file registry faults import_faults wipe_rows parse_time query_error delete_error
        node_ip services snap (d, disk)

  -- One node exports a snapshot: its peers can be read and are at least one, with IPs that are
  -- words, none twice, and join orders that are not negative and fit an int; the type of each rule
  -- object is a word other than `internal`; and the snapshot reads back from its text. Another node
  -- applies that text and gets a result, and its file of peers can be read and written behind the
  -- replay of the lines, which write it at once. Then it is at the version of the snapshot, and its
  -- file holds exactly the peers of the first node, with their join orders, and the node itself,
  -- with the join order that the replay has left it, if it is not one of them and this order is not
  -- negative.
  pub apply_snapshot-export :
      (t : Tables) (p : Peer) (ps : List Peer) (now : Time) (program : Text) (snap : Snapshot)
      (res : ReplayResult)
      → t.peers ≡ rows (p ∷ ps) none
      → All IsPeerRow (p ∷ ps)
      → DistinctRows (p ∷ ps)
      → Rows IsObjectRow t.rule_objects
      → export_snapshot t now program ≡ ok snap
      → IsPrintable format_time parse_time snap
      → (replayed snap).content ≡ ok before
      → (replayed snap).write_error ≡ none
      → (apply_snapshot registry faults import_faults wipe_rows parse_time query_error delete_error
          node_ip services
          (to_text format_time snap)
          (d, disk)).1.0
        ≡ some res
      → ((apply_snapshot registry faults import_faults wipe_rows parse_time query_error delete_error
            node_ip services
            (to_text format_time snap)
            (d, disk)).0.0.config_version
          ≡ snap.header.version)
        × ((qs : List Peer) × ((apply_snapshot registry faults import_faults wipe_rows parse_time
                query_error delete_error node_ip services
                (to_text format_time snap)
                (d, disk)).0.1.content
              ≡ ok qs)
            × ((q : Peer)
                → In q qs ↔ Stays (map pair (p ∷ ps)) node_ip (sort_by joined_before before) q))
  apply_snapshot-export t p ps now program snap res table words distinct objects exported printable
        readable writable h =
      let back = parse_text-to_text format_time parse_time snap printable in
      let (none_case, some_case) =
        apply_snapshot_version registry faults import_faults wipe_rows parse_time query_error
          delete_error node_ip services (to_text format_time snap) d disk in
      let (version, reported, file, silent) = some_case res h in
      let declared : declared_peers (parse_text parse_time (to_text format_time snap))
          ≡ some (map pair (p ∷ ps)) =
        ap declared_peers back
        ∙ export_snapshot-declared_peers t (p ∷ ps) now program snap table words distinct objects
            exported in
      let left =
        reconcile_peers-file query_error delete_error node_ip
          (declared_peers (parse_text parse_time (to_text format_time snap))) (map pair (p ∷ ps)) _
          (replayed (parse_text parse_time (to_text format_time snap))) declared
        ∙ ap (λ x. (reconcile_peers_file (map pair (p ∷ ps)) node_ip (replayed x)).0) back in
      let (fine, (qs, content, members)) =
        reconcile_peers_file-Stays (map pair (p ∷ ps)) node_ip (replayed snap) before
          (pair-DistinctKeys (p ∷ ps) distinct) readable writable in
      (
        version ∙ ap (λ (s : Snapshot). s.header.version) back,
        (qs, ap (λ (x : Disk). x.content) (file ∙ left) ∙ content, members),
      )
