-- ===== src/Command/Ports.antt =====
-- internal/command/portproto.go: each port has one protocol in the whole cluster.
pub mod Enforce
use mesh_cdn.Base.{if◌then◌else◌, Text, text, same, ℕ, Bool, not, Option, none, some, List, [], ◌∷◌}
use mesh_cdn.Base.Assoc.{lookup, insert, update}
use mesh_cdn.Command.Types.{Binding, Error, coded, plain, port_conflict, port_taken, driver}

-- The table port_protocols: port → protocol.
abbrev pub Ports : Type 0
Ports = List (ℕ × Text)

-- Which statements the database driver fails on, by the port of the statement.
pub record PortFaults : Type 0 where
  pub select : ℕ → Bool
  pub insert : ℕ → Bool
  pub update : ℕ → Bool

module _ (faults : PortFaults) (force : Bool) where
  -- One round of the loop: the table, and the error that ends the loop.
  unfoldable pub enforce_one : Binding → Ports → Ports × Option Error
  unfolding lookup insert update same
  enforce_one b t =
      if faults.select b.port
      then (t, some (plain (driver (text "check port_protocols"))))
      else elim (lookup b.port t) [
        | none ↦
            if faults.insert b.port
            then (t, some (plain (driver (text "insert port_protocols"))))
            else (insert b.port b.protocol t, none)
        | some existing ↦
            if same existing b.protocol
            then (t, none)
            else if not force
            then (t, some (coded port_conflict (port_taken b.port existing b.protocol)))
            else if faults.update b.port
            then (t, some (plain (driver (text "update port_protocols"))))
            else (update b.port b.protocol t, none)
      ]

  -- EnforcePortBindings. What was written before an error stays written in the transaction.
  unfoldable pub enforce : List Binding → Ports → Ports × Option Error
  unfolding enforce_one
  enforce [] t = (t, none)
  enforce (b ∷ bs) t =
      let (t', e) = enforce_one b t in
      let rest = enforce bs t' in elim e [ none ↦ rest | some x ↦ (t', some x) ]
