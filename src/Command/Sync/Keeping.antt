-- ===== src/Command/Sync/Keeping.antt =====
-- A property of the tables that every handler keeps, through an import.
use mesh_cdn.Base.{
  Bool-cases, Option-cases, Result-cases, Text, is_empty, trim_space, ℕ, suc, ◌≡◌, sym, subst, ◌⊎◌,
  inl, inr, true, Option, none, some, List, [], ◌∷◌, arith, ok,
}
use mesh_cdn.Snapshot.{Snapshot}
use mesh_cdn.Command.Types.{Command}
use mesh_cdn.Command.Parse.{parse}
use mesh_cdn.Command.Executor.{Db, Handler, Faults, dispatch, enforced}
use mesh_cdn.Command.Executor.Keeping.{enforced-rows}
use mesh_cdn.Command.Sync.{
  ImportFaults, ReplayResult, replay_command, is_view, replay_one_in_tx_force, replay_lines, wiped,
  no_result, counted, import_snapshot,
}

-- The commands have a property.
module _ {T : Type 0} (Q : Command → Type 0) (P : T → Type 0) (registry : Text → Option (Handler T))
    (faults : Faults)
    (keeps : (h : Handler T) (d : Db T) (c : Command)
      → Q c
      → registry c.type ≡ some h
      → h.validate c ≡ none
      → P d.rows
      → P (dispatch c.verb h d c).0.rows) where
  pub replay_command-Keeps :
      (d : Db T) (c : Command) → Q c → P d.rows → P (replay_command registry faults d c).0.rows
  unfolding replay_command
  replay_command-Keeps d c u h = elim (Option-cases (registry c.type)) [
    | inl e ↦ let q : (replay_command registry faults d c).0 ≡ d = ground arith in rw q h
    | inr (g, e) ↦ elim (Option-cases (g.validate c)) [
      | inr (x, v) ↦ let q : (replay_command registry faults d c).0 ≡ d = ground arith in rw q h
      | inl v ↦
          let kept = keeps g d c u e v h in
          let d' = (dispatch c.verb g d c).0 in
          elim (Result-cases (dispatch c.verb g d c).1) [
            | inr (x, r) ↦
                let q : (replay_command registry faults d c).0 ≡ d' = ground arith in rw q kept
            | inl (eff, r) ↦
                let q : (replay_command registry faults d c).0 ≡ (enforced faults true d' eff).0 =
                  ground arith in
                rw (q, enforced-rows faults true d' eff) kept
          ]
    ]
  ]

  module _ (parsed : (line : Text) (c : Command) → parse line ≡ ok c → Q c) where
    replay_one-Keeps :
        (d : Db T) (line : Text)
        → P d.rows
        → P (replay_one_in_tx_force registry faults d line).0.rows
    unfolding replay_one_in_tx_force
    replay_one-Keeps d line h = elim (Bool-cases (is_empty (trim_space line))) [
      | inl b ↦ rw b h
      | inr b ↦ elim (Result-cases (parse (trim_space line))) [
        | inr (x, e) ↦ rw (b, e) h
        | inl (c, e) ↦ elim (Bool-cases (is_view registry faults c.verb)) [
          | inl v ↦ rw (b, e, v) h
          | inr v ↦ rw (b, e, v) (replay_command-Keeps d c (parsed (trim_space line) c e) h)
        ]
      ]
    ]

    replay_lines-Keeps :
        (i : ℕ) (lines : List Text) (d : Db T) (res : ReplayResult)
        → P d.rows
        → P (replay_lines (replay_one_in_tx_force registry faults) i lines (d, res)).0.rows
    unfolding replay_lines
    replay_lines-Keeps i [] d res h = h
    replay_lines-Keeps i (line ∷ lines) d res h =
        let (d', e) = replay_one_in_tx_force registry faults d line in
        replay_lines-Keeps (suc i) lines d' (counted i e res) (replay_one-Keeps d line h)

    pub import_snapshot-Keeps :
        (import_faults : ImportFaults) (wipe_rows : T → T) (snap : Snapshot) (d : Db T)
        → P (wipe_rows d.rows)
        → P d.rows
        → P
            (import_snapshot
              (replay_one_in_tx_force registry faults)
              import_faults
              wipe_rows
              snap
              d).0.rows
    unfolding import_snapshot
    import_snapshot-Keeps import_faults wipe_rows snap d w h =
        let last =
          replay_lines (replay_one_in_tx_force registry faults) 0 snap.commands
            (wiped wipe_rows d, no_result) in
        let kept = replay_lines-Keeps 0 snap.commands (wiped wipe_rows d) no_result w in
        let run =
          import_snapshot (replay_one_in_tx_force registry faults) import_faults wipe_rows snap d in
        let q : (run.0.rows ≡ d.rows) ⊎ (run.0.rows ≡ last.0.rows) = ground arith in
        elim q [ inl e ↦ subst P (sym e) h | inr e ↦ subst P (sym e) kept ]
