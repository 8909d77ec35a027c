-- ===== src/Command/Sync/Restore/Reached.antt =====
-- The databases that batches and imports make of one without rules.
use mesh_cdn.Base.{Result, Text, ◌≡◌, sym, subst, Bool, true, Option, none}
use mesh_cdn.Snapshot.{Snapshot}
use mesh_cdn.Command.Types.{Lang, Command, Error, Effects}
use mesh_cdn.Command.Aftermath.{Services}
use mesh_cdn.Command.Executor.{Db, Handler, Faults, execute_batch}
use mesh_cdn.Command.Handlers.{Tables, Outside}
use mesh_cdn.Command.Handlers.ObjectTypes.{Json}
use mesh_cdn.Command.Handlers.Integrity.{wipe}
use mesh_cdn.Command.Handlers.Registry.{IsApart, new_registry}
use mesh_cdn.Command.Sync.{ImportFaults, replay_one_in_tx_force, import_snapshot}
use mesh_cdn.Command.Sync.Restore.{IsRestorable}
use mesh_cdn.Command.Sync.Restore.Invariant.{
  wipe-Restorable, execute_batch-Restorable, import_snapshot-Restorable,
}

-- The rows of such a database, after its last batch or import.
pub data Reached (out : Outside) (js : Json)
    (listing : Text → Tables → Command → Result Error Effects)
    (others : Text → Option (Handler Tables)) : Db Tables → Type 0 where
  fresh : (d : Db Tables) → d.rows ≡ wipe d.rows → Reached out js listing others d
  by_batch :
      (faults : Faults) (forced : Bool) (services : Services) (lang : Lang) (batch : Text)
      (d : Db Tables)
      → Reached out js listing others d
      → Reached out js listing others
          (execute_batch (new_registry out js listing others) faults forced services lang batch d).0
  by_import :
      (faults : Faults) (import_faults : ImportFaults) (snap : Snapshot) (d : Db Tables)
      → Reached out js listing others d
      → Reached out js listing others
          (import_snapshot
            (replay_one_in_tx_force (new_registry out js listing others) faults)
            import_faults
            wipe
            snap
            d).0

-- Whatever batches and imports have made, in any order, of a database without rules, and whatever
-- of them failed in the transactions: its tables are such that an import of their export gives the
-- rules back. Each scope has all rows that its line makes, with one origin, no two objects have the
-- type and the name in common, each binding has its object and its scope, and the handlers accept
-- the line that Export writes for each row. The statements of the handlers on the three tables are
-- taken to succeed, and their rows to be read, and the handlers of the other types to write none of
-- these tables.
pub Reached-IsRestorable :
    (out : Outside) (js : Json) (listing : Text → Tables → Command → Result Error Effects)
    (others : Text → Option (Handler Tables)) (d : Db Tables)
    → ((k : Text) → out.write_error k ≡ none)
    → ((k : Text) → out.delete_error k ≡ none)
    → ((k : Text) → out.is_read k ≡ true)
    → IsApart others
    → Reached out js listing others d
    → IsRestorable out js listing d.rows
Reached-IsRestorable out js listing others _ writes deletes whole apart (fresh d e) =
    subst (IsRestorable out js listing) (sym e) (wipe-Restorable out js listing d.rows)
Reached-IsRestorable out js listing others _ writes deletes whole apart
      (by_batch faults forced services lang batch d r) =
    execute_batch-Restorable out js listing writes deletes whole others apart faults forced services
      lang batch d (Reached-IsRestorable out js listing others d writes deletes whole apart r)
Reached-IsRestorable out js listing others _ writes deletes whole apart
      (by_import faults import_faults snap d r) =
    import_snapshot-Restorable out js listing writes deletes whole others apart faults import_faults
      snap d (Reached-IsRestorable out js listing others d writes deletes whole apart r)
