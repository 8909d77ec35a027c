-- ===== src/Command/Sync/Apply.antt =====
-- ApplySnapshot of internal/command/executor.go, on a node that has a peer manager.
use mesh_cdn.Base.{
  if◌then◌else◌, Result-cases, Result, Text, text, same, is_empty, ◌≡◌, refl, sym, ap, ◌∙◌, subst,
  inl, inr, ◌||◌, Option, none, some, List, [], ◌∷◌, ◌++◌, arith, ok, err,
}
use mesh_cdn.Base.Int.{ℤ}
use mesh_cdn.Base.Time.{Time}
use mesh_cdn.Peers.{Peer, Disk}
use mesh_cdn.Snapshot.{Snapshot, parse_text, declared_peers}
use mesh_cdn.Command.Aftermath.{
  Services, Action, generate_config, reload_nginx, save_snapshot, main_conf, output_dir,
}
use mesh_cdn.Command.Executor.{Db, Handler, Faults}
use mesh_cdn.Command.Sync.{
  ImportFaults, ReplayResult, wiped, no_result, replay_one_in_tx_force, replay_lines,
  import_snapshot, reconcile_peers,
}
use mesh_cdn.Command.Sync.Replay.{import_snapshot-Counts}

-- The database and the file of the peers.
abbrev pub Node : Type 0 → Type 0
Node T = Db T × Disk

-- The two results of ApplySnapshot, and what it did.
abbrev pub Applied : Type 0
Applied = Option ReplayResult × Option Text × List Action

-- The snapshot is stored as it came.
abbrev pub store_imported : Services → ReplayResult → List Action → Applied
store_imported s res done =
    if is_empty s.snapshot_path then (some res, none, done) else elim s.save [
      | some e ↦ (
        some res,
        some (text "save imported snapshot: " ++ e),
        done ++ save_snapshot s.snapshot_path ∷ [],
      )
      | none ↦ (some res, none, done ++ save_snapshot s.snapshot_path ∷ [])
    ]

-- From the regeneration of the nginx configuration on.
unfoldable pub after_import : Services → ReplayResult → Applied
after_import s res =
    let conf = main_conf (output_dir s) in
    if s.has_cert_store
    then elim s.generate [
      | some e ↦ (
        some res,
        some (text "post-snapshot nginx regen: " ++ e),
        generate_config (output_dir s) ∷ [],
      )
      | none ↦ elim (s.validate_and_reload conf) [
        | some e ↦ (
          some res,
          some (text "post-snapshot nginx reload: " ++ e),
          generate_config (output_dir s) ∷ reload_nginx conf ∷ [],
        )
        | none ↦ store_imported s res (generate_config (output_dir s) ∷ reload_nginx conf ∷ [])
      ]
    ]
    else store_imported s res []

none-ne-some : {res : ReplayResult} → none ≡ some res → ⊥
none-ne-some h = cc

some-eq : {a b : ReplayResult} → some a ≡ some b → a ≡ b
some-eq h = cc

reconcile_peers-silent :
    (query_error : Option Text) (delete_error : Text → Option Text) (node_ip : Text)
    (peers : List Peer) (disk : Disk) (declared : Option (List (Text × ℤ)))
    → declared ≡ none
    → (reconcile_peers query_error delete_error node_ip declared (peers, disk)).0.1 ≡ disk
unfolding reconcile_peers
reconcile_peers-silent query_error delete_error node_ip peers disk declared e = rw e refl

-- What the handlers of an import work on: the rows, and the file, which they write at once.
abbrev pub with_file : {T : Type 0} → Node T → Db (T × Disk)
with_file (d, disk) = record {
  rows = (d.rows, disk);
  ports = d.ports;
  config_version = d.config_version;
  peers = d.peers;
}

abbrev pub without_file : {T : Type 0} → Db (T × Disk) → Db T
without_file d = record {
  rows = d.rows.0;
  ports = d.ports;
  config_version = d.config_version;
  peers = d.peers;
}

abbrev pub wipe_beside : {T : Type 0} → (T → T) → T × Disk → T × Disk
wipe_beside wipe_rows (t, disk) = (wipe_rows t, disk)

module _ {T : Type 0} (registry : Text → Option (Handler (T × Disk))) (faults : Faults)
    (import_faults : ImportFaults) (wipe_rows : T → T) (parse_time : Text → Option Time)
    (query_error : Option Text) (delete_error : Text → Option Text) (node_ip : Text)
    (services : Services) where
  -- The file behind the import: the lines write it, and no rollback takes that back.
  unfoldable pub replayed_file : Snapshot → Node T → Disk
  replayed_file snap (d, disk) =
      let (last, res) =
        replay_lines (replay_one_in_tx_force registry faults) 0 snap.commands
          (wiped (wipe_beside wipe_rows) (with_file (d, disk)), no_result) in
      if import_faults.begin || import_faults.wipe then disk else last.rows.1

  -- ApplySnapshot
  unfoldable pub apply_snapshot : Text → Node T → Node T × Applied
  unfolding replayed_file
  apply_snapshot given (d, disk) =
      let snap = parse_text parse_time given in
      let left = replayed_file snap (d, disk) in
      let (d', r) =
        import_snapshot (replay_one_in_tx_force registry faults) import_faults
          (wipe_beside wipe_rows) snap (with_file (d, disk)) in
      elim r [
        | err e ↦ ((without_file d', left), (none, some e, []))
        | ok res ↦
            let ((peers', disk'), reconciled) =
              reconcile_peers query_error delete_error node_ip (declared_peers snap)
                (d'.peers, left) in
            ((record (without_file d') { peers = peers' }, disk'), after_import services res)
      ]

  after_import-result : (res : ReplayResult) → (after_import services res).0 ≡ some res
  unfolding after_import
  after_import-result res = ground arith

  module _ (given : Text) (d : Db T) (disk : Disk) where
    abbrev pub snapshot : Snapshot
    snapshot = parse_text parse_time given

    abbrev pub imported : Db (T × Disk) × Result Text ReplayResult
    imported =
        import_snapshot (replay_one_in_tx_force registry faults) import_faults
          (wipe_beside wipe_rows) snapshot (with_file (d, disk))

    -- The file before the peers are reconciled.
    abbrev pub left_file : Disk
    left_file = replayed_file snapshot (d, disk)

    abbrev pub reconciled : (List Peer × Disk) × Option Text
    reconciled =
        reconcile_peers query_error delete_error node_ip (declared_peers snapshot)
          (imported.0.peers, left_file)

    apply_snapshot-err :
        (e : Text)
        → imported.1 ≡ err e
        → apply_snapshot given (d, disk)
          ≡ ((without_file imported.0, left_file), (none, some e, []))
    unfolding apply_snapshot
    apply_snapshot-err e q = ground arith

    apply_snapshot-ok :
        (res : ReplayResult)
        → imported.1 ≡ ok res
        → apply_snapshot given (d, disk) ≡ (
          (record (without_file imported.0) { peers = reconciled.0.0 }, reconciled.0.1),
          after_import services res,
        )
    unfolding apply_snapshot
    apply_snapshot-ok res q = ground arith

    -- ApplySnapshot without a result has left the database as it was and has done nothing but
    -- replay lines, so the file of the peers is what these have left of it: they write it at once,
    -- and no rollback takes that back. With a result, whatever fails after the import, the node is
    -- at the version of the snapshot's header, which the result reports; its file is what
    -- reconciling makes of the one that the lines have left, with the peers that the snapshot
    -- declares; and if it declares none, the file is left as the lines have left it.
    pub apply_snapshot_version :
        ((apply_snapshot given (d, disk)).1.0 ≡ none
          → ((apply_snapshot given (d, disk)).0 ≡ (d, left_file))
            × ((apply_snapshot given (d, disk)).1.2 ≡ []))
        × ((res : ReplayResult)
            → (apply_snapshot given (d, disk)).1.0 ≡ some res
            → ((apply_snapshot given (d, disk)).0.0.config_version ≡ snapshot.header.version)
              × (res.new_version ≡ snapshot.header.version)
              × ((apply_snapshot given (d, disk)).0.1 ≡ reconciled.0.1)
              × (declared_peers snapshot ≡ none → (apply_snapshot given (d, disk)).0.1 ≡ left_file))
    apply_snapshot_version =
        let (fails, same, applied) =
          import_snapshot-Counts (replay_one_in_tx_force registry faults) import_faults
            (wipe_beside wipe_rows) snapshot (with_file (d, disk)) in
        elim (Result-cases imported.1) [
          | inr (x, q) ↦
              let e = apply_snapshot-err x q in
              (
                λ n. (
                  ap (λ (r : Node T × Applied). r.0) e
                      ∙ ap (λ k. (without_file k, left_file)) (same x q),
                  ap (λ (r : Node T × Applied). r.1.2) e,
                ),
                λ res h. absurd (none-ne-some (sym (ap (λ (r : Node T × Applied). r.1.0) e) ∙ h)),
              )
          | inl (r, q) ↦
              let e = apply_snapshot-ok r q in
              let back = ap (λ (x : Node T × Applied). x.1.0) e ∙ after_import-result r in
              let (content, number, total) = applied r q in
              let file = ap (λ (x : Node T × Applied). x.0.1) e in
              (
                λ n. absurd (none-ne-some (sym n ∙ back)),
                λ res h. (
                  ap (λ (x : Node T × Applied). x.0.0.config_version) e
                      ∙ ap (λ (x : Db (T × Disk)). x.config_version) content,
                  subst (λ (x : ReplayResult). x.new_version ≡ snapshot.header.version)
                      (some-eq (sym back ∙ h)) number,
                  file,
                  λ silent.
                      file
                      ∙ reconcile_peers-silent query_error delete_error node_ip (imported.0.peers)
                          left_file (declared_peers snapshot) silent,
                ),
              )
        ]
