-- ===== src/Command/Sync/Replay.antt =====
-- What an import leaves, and what forced replay does about conflicts.
use mesh_cdn.Base.{
  Result-cases, length, length-append, Text, ℕ, suc, ◌+◌, ◌≡◌, refl, sym, ap, subst, ◌↔◌, inl, inr,
  true, ◌||◌, Option, none, some, List, [], ◌∷◌, arith, ok, err,
}
use mesh_cdn.Snapshot.{Snapshot}
use mesh_cdn.Command.Types.{Command, Error, Effects, Binding}
use mesh_cdn.Command.Ports.{enforce}
use mesh_cdn.Command.Ports.Enforce.{no_faults, enforce_forced}
use mesh_cdn.Command.Executor.{Db, Handler, Faults, dispatch, enforced}
use mesh_cdn.Command.Sync.{
  ImportFaults, ReplayResult, replay_command, replay_lines, wiped, no_result, counted,
  import_snapshot,
}

-- The counts add up to the lines, and there is one error for each failure.
abbrev pub Counts : ℕ → ReplayResult → Type 0
Counts n res =
    (res.commands_applied + res.commands_failed ≡ n)
    × (length res.per_line_errors ≡ res.commands_failed)

counted-Counts :
    (i n : ℕ) (e : Option Error) (res : ReplayResult)
    → Counts n res
    → Counts (suc n) (counted i e res)
counted-Counts i n none res h = (omega (arith, h.0), h.1)
counted-Counts i n (some x) res h =
    (omega (arith, h.0), omega (arith, length-append res.per_line_errors ((i, x) ∷ []), h.1))

module _ {T : Type 0} (replay_line : Db T → Text → Db T × Option Error) where
  replay_lines-Counts :
      (i n : ℕ) (lines : List Text) (d : Db T) (res : ReplayResult)
      → Counts n res
      → Counts (n + length lines) (replay_lines replay_line i lines (d, res)).1
  unfolding replay_lines
  replay_lines-Counts i n [] d res h = (omega (arith, h.0), h.1)
  replay_lines-Counts i n (line ∷ lines) d res h =
      let (d', e) = replay_line d line in
      let (total, errors) =
        replay_lines-Counts (suc i) (suc n) lines d' (counted i e res)
          (counted-Counts i n e res h) in
      (omega (arith, total), errors)

  module _ (faults : ImportFaults) (wipe_rows : T → T) (snap : Snapshot) (d : Db T) where
    import_snapshot-err :
        (e : Text)
        → (import_snapshot replay_line faults wipe_rows snap d).1 ≡ err e
        → (import_snapshot replay_line faults wipe_rows snap d).0 ≡ d
    unfolding import_snapshot
    import_snapshot-err e h = ground arith

    import_snapshot-ok :
        (res : ReplayResult)
        → (import_snapshot replay_line faults wipe_rows snap d).1 ≡ ok res
        → ((import_snapshot replay_line faults wipe_rows snap d).0
            ≡ record (replay_lines replay_line 0 snap.commands (wiped wipe_rows d, no_result)).0 {
              config_version = snap.header.version;
            })
          × (record (replay_lines replay_line 0 snap.commands (wiped wipe_rows d, no_result)).1 {
            new_version = snap.header.version;
          }
              ≡ res)
    unfolding import_snapshot
    import_snapshot-ok res h = ground arith

    import_snapshot-fails :
        ((e : Text) × ((import_snapshot replay_line faults wipe_rows snap d).1 ≡ err e))
        ↔ ((faults.begin || faults.wipe || faults.set_version || faults.commit) ≡ true)
    unfolding import_snapshot
    import_snapshot-fails =
        elim (Result-cases (import_snapshot replay_line faults wipe_rows snap d).1) [
          | inl (r, q) ↦ (λ (e, h). ground arith, λ h. absurd (ground arith))
          | inr (x, q) ↦ (λ (e, h). ground arith, λ h. (x, q))
        ]

    -- Import fails exactly if one of the driver's four calls does, and then the database is as
    -- before. If not, it is what the replay of the lines leaves of the wiped tables, at the version
    -- of the snapshot's header; and the result has that version, counts every line as applied or
    -- failed, and has one error for each failure.
    pub import_snapshot-Counts :
        (((e : Text) × ((import_snapshot replay_line faults wipe_rows snap d).1 ≡ err e))
          ↔ ((faults.begin || faults.wipe || faults.set_version || faults.commit) ≡ true))
        × ((e : Text)
            → (import_snapshot replay_line faults wipe_rows snap d).1 ≡ err e
            → (import_snapshot replay_line faults wipe_rows snap d).0 ≡ d)
        × ((res : ReplayResult)
            → (import_snapshot replay_line faults wipe_rows snap d).1 ≡ ok res
            → ((import_snapshot replay_line faults wipe_rows snap d).0
                ≡ record (replay_lines replay_line 0 snap.commands
                    (wiped wipe_rows d, no_result)).0 { config_version = snap.header.version })
              × (res.new_version ≡ snap.header.version)
              × Counts (length snap.commands) res)
    import_snapshot-Counts = (
      import_snapshot-fails,
      import_snapshot-err,
      λ res h.
          let (after, e) = import_snapshot-ok res h in
          let (total, errors) =
            replay_lines-Counts 0 0 snap.commands (wiped wipe_rows d) no_result (refl, refl) in
          (
            after,
            ap (λ (r : ReplayResult). r.new_version) (sym e),
            subst (Counts (length snap.commands)) e (omega (arith, total), errors),
          ),
    )

-- The driver does not fail.
module _ {T : Type 0} (registry : Text → Option (Handler T)) (faults : Faults)
    (sound : faults.ports ≡ no_faults) where
  enforced_forced : (d : Db T) (eff : Effects) → (enforced faults true d eff).1 ≡ ok eff
  unfolding enforced
  enforced_forced d eff = go eff.port_protocol_bindings refl
    where
      go :
          (bs : List Binding)
          → eff.port_protocol_bindings ≡ bs
          → (enforced faults true d eff).1 ≡ ok eff
      go [] e = ground arith
      go (b ∷ bs) e =
          let fine : (enforce faults.ports true (b ∷ bs) d.ports).1 ≡ none =
            subst (λ f. (enforce f true (b ∷ bs) d.ports).1 ≡ none) (sym sound)
              (enforce_forced (b ∷ bs) d.ports 0).0 in
          ground (arith, fine)

  -- A replayed command that its handler accepts never fails: no port conflict stops it.
  pub replay_command_forced :
      (d : Db T) (c : Command) (h : Handler T) (d' : Db T) (eff : Effects)
      → registry c.type ≡ some h
      → h.validate c ≡ none
      → dispatch c.verb h d c ≡ (d', ok eff)
      → (replay_command registry faults d c).1 ≡ none
  unfolding replay_command
  replay_command_forced d c h d' eff found valid wrote =
      ground (arith, found, valid, wrote, enforced_forced d' eff)
