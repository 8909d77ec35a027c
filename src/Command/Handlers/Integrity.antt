-- ===== src/Command/Handlers/Integrity.antt =====
-- What every batch keeps of the tables of the handlers in internal/command/handlers.
use mesh_cdn.Base.{Result, Text, ◌≡◌, sym, subst, inl, inr, Bool, true, Option, []}
use mesh_cdn.Command.Types.{Lang, Command, Error, Effects}
use mesh_cdn.Command.Aftermath.{Services}
use mesh_cdn.Command.Executor.{Db, Handler, Faults, execute_batch}
use mesh_cdn.Command.Executor.Keeping.{execute_batch-Keeps}
use mesh_cdn.Snapshot.{Snapshot}
use mesh_cdn.Command.Sync.{ImportFaults, replay_one_in_tx_force, import_snapshot}
use mesh_cdn.Command.Sync.Keeping.{import_snapshot-Keeps}
use mesh_cdn.Command.Handlers.{Tables, Outside}
use mesh_cdn.Command.Handlers.ObjectTypes.{Json}
use mesh_cdn.Command.Handlers.Cases.{
  write_bind_cases, delete_bind_cases, upsert_rule_object_cases, ReadsAll, delete_object_cases,
}
use mesh_cdn.Command.Handlers.Links.{
  IsLinked, write_bind-IsLinked, delete_bind-IsLinked, write_domain-IsLinked,
  delete_domain-IsLinked, upsert_rule_object-IsLinked, delete_object-IsLinked,
}
use mesh_cdn.Command.Handlers.Expansion.{
  IsExpanded, write_domain-IsExpanded, delete_domain-IsExpanded,
}
use mesh_cdn.Command.Handlers.Registry.{Kept, IsApart, new_registry, new_registry-Keeps}

module _ (out : Outside) where
  abbrev pub IsSound : Tables → Type 0
  IsSound t = IsLinked t × IsExpanded out t.domains

  operations : ReadsAll out → Kept out IsSound
  operations whole = record {
    domain_written =
        λ d c h. (write_domain-IsLinked out d c h.0, write_domain-IsExpanded out d c h.1);
    domain_deleted =
        λ d c h. (delete_domain-IsLinked out d c h.0, delete_domain-IsExpanded out d c h.1);
    bound = λ d c h. (
      write_bind-IsLinked out d c h.0,
      elim (write_bind_cases out d c) [
        | inl q ↦ subst (λ t. IsExpanded out t.domains) (sym q) h.1
        | inr (x, q, a, r) ↦ subst (λ t. IsExpanded out t.domains) (sym q) h.1
      ],
    );
    unbound = λ d c h. (
      delete_bind-IsLinked out d c h.0,
      elim (delete_bind_cases out d c) [
        | inl q ↦ subst (λ t. IsExpanded out t.domains) (sym q) h.1
        | inr q ↦ subst (λ t. IsExpanded out t.domains) (sym q) h.1
      ],
    );
    object_written = λ type c json message d h. (
      upsert_rule_object-IsLinked out type c json message d h.0,
      elim (upsert_rule_object_cases out type c json message d) [
        | inl q ↦ subst (λ t. IsExpanded out t.domains) (sym q) h.1
        | inr (o, q) ↦ subst (λ t. IsExpanded out t.domains) (sym q) h.1
      ],
    );
    object_deleted = λ type name d h. (
      delete_object-IsLinked out type name d whole h.0,
      elim (delete_object_cases out type name d whole) [
        | inl q ↦ subst (λ t. IsExpanded out t.domains) (sym q) h.1
        | inr (z, q) ↦ subst (λ t. IsExpanded out t.domains) (sym q) h.1
      ],
    );
  }

-- Whatever a batch contains and whatever of it fails, in the statements of the handlers or in the
-- transaction: it leaves the tables of the rules sound, if they were. Sound means that each binding
-- names an object and a domain scope that are stored, that no key stands in two rows of `domains`,
-- and that the key of a row is a canonical scope of the scope that the row displays. Two things are
-- taken for granted: no iteration over the references of an object ends early or passes over a row,
-- an error that deleteRuleObject does not look at; and the handlers of the other types write none
-- of the three tables.
pub execute_batch-IsSound :
    (out : Outside) (js : Json) (listing : Text → Tables → Command → Result Error Effects)
    (others : Text → Option (Handler Tables)) (faults : Faults) (forced : Bool)
    (services : Services) (lang : Lang) (batch : Text) (d : Db Tables)
    → ((s : Text) → out.is_read s ≡ true)
    → IsApart others
    → IsSound out d.rows
    → IsSound out
        (execute_batch
          (new_registry out js listing others)
          faults
          forced
          services
          lang
          batch
          d).0.rows
execute_batch-IsSound out js listing others faults forced services lang batch d whole apart h =
    execute_batch-Keeps (λ c. Unit) (IsSound out) (new_registry out js listing others) faults forced
      (λ g x c u e.
        new_registry-Keeps out js listing others (IsSound out) (operations out whole) apart c.type g
          e x c)
      (λ l line c e. tt) services lang batch d h

-- What Import leaves of the tables before it replays the lines.
abbrev pub wipe : Tables → Tables
wipe t = record { domains = []; rule_objects = []; bindings = [] }

-- An import keeps the tables of the rules sound, whatever lines of the snapshot fail and whichever
-- statement or call of the transaction does: the lines are replayed on tables that are empty, and
-- the forced check of the ports does not touch them. No iteration over the references of an object
-- is taken to end early or to pass over a row, an error that deleteRuleObject does not look at, and
-- the handlers of the other types to write none of the three tables.
pub import_snapshot-IsSound :
    (out : Outside) (js : Json) (listing : Text → Tables → Command → Result Error Effects)
    (others : Text → Option (Handler Tables)) (faults : Faults) (import_faults : ImportFaults)
    (snap : Snapshot) (d : Db Tables)
    → ((s : Text) → out.is_read s ≡ true)
    → IsApart others
    → IsSound out d.rows
    → IsSound out
        (import_snapshot
          (replay_one_in_tx_force (new_registry out js listing others) faults)
          import_faults
          wipe
          snap
          d).0.rows
import_snapshot-IsSound out js listing others faults import_faults snap d whole apart h =
    import_snapshot-Keeps (λ c. Unit) (IsSound out) (new_registry out js listing others) faults
      (λ g x c u e.
        new_registry-Keeps out js listing others (IsSound out) (operations out whole) apart c.type g
          e x c)
      (λ line c e. tt) import_faults wipe snap d ((λ b m. absurd m), (tt, tt)) h
