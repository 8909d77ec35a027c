-- ===== src/Command/Sync/Restore/InternalLines.antt =====
-- The lines `/w internal` of an export, replayed: the rules are not touched.
use mesh_cdn.Base.{
  Result, length, All, Text, text, same, join, ◌≤◌, ◌≡◌, refl, ap, ◌∙◌, Option, none, some, List,
  [], ◌∷◌, map, arith,
}
use mesh_cdn.Base.Decimal.{decimal_ℤ}
use mesh_cdn.Base.Numerals.{decimal_ℤ-IsWord}
use mesh_cdn.Base.Words.{IsWord}
use mesh_cdn.Peers.{Peer}
use mesh_cdn.Command.Types.{write, Command, Error, Effects}
use mesh_cdn.Command.Parse.RoundTrip.{spelled}
use mesh_cdn.Command.Executor.{Db, Handler, Faults}
use mesh_cdn.Command.Handlers.{Tables, Outside}
use mesh_cdn.Command.Handlers.ObjectTypes.{Json, object_handlers}
use mesh_cdn.Command.Handlers.Registry.{IsApart, new_registry}
use mesh_cdn.Command.Sync.{replay_one_in_tx_force, replay_command}
use mesh_cdn.Command.Sync.Keeping.{replay_command-Keeps}
use mesh_cdn.Command.Sync.Restore.{IsSetting}
use mesh_cdn.Command.Sync.Restore.Lines.{replay_one-words}
use mesh_cdn.Snapshot.Exporter.{peer_line, setting_lines}
use mesh_cdn.Snapshot.Exporter.Lines.{internal-IsWord, peer_add-IsWord}

replay_command_same :
    {T : Type 0} (r s : Text → Option (Handler T)) (faults : Faults) (d : Db T) (c : Command)
    → r c.type ≡ s c.type
    → replay_command r faults d c ≡ replay_command s faults d c
unfolding replay_command
replay_command_same r s faults d c e = rw (e, replay_command) refl

module _ (out : Outside) (js : Json) (listing : Text → Tables → Command → Result Error Effects)
    (others : Text → Option (Handler Tables)) (apart : IsApart others) (faults : Faults) where
  internal_registered :
      new_registry out js listing others (text "internal") ≡ others (text "internal")
  unfolding new_registry same object_handlers
  internal_registered = refl

  -- The line leaves the rows as they are, whether it fails or not.
  abbrev pub LeavesRows : Text → Type 0
  LeavesRows line =
      (d : Db Tables)
      → (replay_one_in_tx_force (new_registry out js listing others) faults d line).0.rows ≡ d.rows

  internal-LeavesRows :
      (s p : Text) (ps : List Text)
      → All IsWord (s ∷ p ∷ ps)
      → LeavesRows (join (text " ") (text "/w" ∷ text "internal" ∷ s ∷ p ∷ ps))
  unfolding join
  internal-LeavesRows s p ps h d =
      let registry = new_registry out js listing others in
      let c = spelled write (text "internal") s p ps in
      ap (λ (r : Db Tables × Option Error). r.0.rows)
        (replay_one-words registry faults d (text "internal") s p ps (internal-IsWord, h)
          ∙ replay_command_same registry others faults d c internal_registered)
      ∙ replay_command-Keeps (λ x. Unit) (λ r. r ≡ d.rows) others faults
          (λ h d2 x u e v k. apart x.type h e x.verb d2 x ∙ k) d c tt refl

  pub peer_lines-LeavesRows :
      (ps : List Peer) → All (λ (p : Peer). IsWord p.ip) ps → All LeavesRows (map peer_line ps)
  peer_lines-LeavesRows [] h = tt
  peer_lines-LeavesRows (p ∷ ps) h = (
    internal-LeavesRows (text "peer-add") p.ip (decimal_ℤ p.join_order ∷ [])
        (peer_add-IsWord, (h.0, (decimal_ℤ-IsWord p.join_order, tt))),
    peer_lines-LeavesRows ps h.1,
  )

  pub setting_lines-LeavesRows :
      (verb : Text) (v : Option Text)
      → IsWord verb
      → IsSetting v
      → All LeavesRows (setting_lines verb v)
  setting_lines-LeavesRows verb none w h = tt
  setting_lines-LeavesRows verb (some []) w h = tt
  setting_lines-LeavesRows verb (some (c ∷ v)) w h =
      (internal-LeavesRows verb (c ∷ v) [] (w, (h (c ∷ v) refl (λ e. cc), tt)), tt)

pub length-setting_lines : (verb : Text) (v : Option Text) → length (setting_lines verb v) ≤ 1
length-setting_lines verb none = omega arith
length-setting_lines verb (some []) = omega arith
length-setting_lines verb (some (c ∷ v)) = omega arith
