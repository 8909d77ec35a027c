-- ===== src/Command/Sync/Restore.antt =====
-- snapshot.Export, and Import on what it wrote: when tables hold the same rules, and which rows the
-- queries of an export yield.
pub mod Lines
pub mod DomainLines
pub mod ObjectLines
pub mod References
pub mod BindingLines
pub mod InternalLines
pub mod Steps
pub mod Rules
pub mod Whole
pub mod Origins
pub mod Spelling
pub mod ObjectRows
pub mod BindingRows
pub mod DomainRows
pub mod Statements
pub mod Invariant
pub mod Reached
use mesh_cdn.Base.{
  Result, any, All, In, Text, text, same, join, ◌≡◌, ◌≢◌, true, false, not, Option, none, some,
  List, [], ◌∷◌, ok,
}
use mesh_cdn.Base.Table.{get, DistinctKeys}
use mesh_cdn.Peers.{Peer}
use mesh_cdn.Snapshot.Exporter
use mesh_cdn.Snapshot.Exporter.{rows}
use mesh_cdn.Command.Handlers.Links.{IsLinked}
use mesh_cdn.Command.Handlers.Objects.{is_valid_object_name, is_object}
use mesh_cdn.Command.Handlers.Bind.{is_known_object_type}
use mesh_cdn.Base.Words.{IsWord}
use mesh_cdn.Command.Types.{write, Command, Error, Effects}
use mesh_cdn.Command.Ports.Enforce.{no_faults}
use mesh_cdn.Command.Parse.RoundTrip.{spelled}
use mesh_cdn.Command.Executor.{Handler, Faults}
use mesh_cdn.Command.Handlers.{DomainRow, ObjectRow, BindingRow, Tables, Outside}
use mesh_cdn.Command.Handlers.Scope.{DomainScope, canonicals}
use mesh_cdn.Command.Handlers.Domain.{Domains, scope_of, validate_domain}
use mesh_cdn.Command.Handlers.ObjectTypes.{Json, object_handlers}

-- Rows with the same content: the version may differ, and the JSON of the parameters.
abbrev pub SameRow : DomainRow → DomainRow → Type 0
SameRow r s = (r.display_scope ≡ s.display_scope) × (r.origin ≡ s.origin)

abbrev pub object_content : ObjectRow → Text × Text × Text
object_content o = (o.type, o.name, o.params_text)

abbrev pub binding_content : BindingRow → Text × Text × Text
binding_content b = (b.scope, b.object_type, b.object_name)

-- Each row of the second table has its like in the first one.
abbrev pub DomainsWithin : Domains → Domains → Type 0
DomainsWithin m n =
    (k : Text) (row : DomainRow)
    → get k n ≡ some row
    → (old : DomainRow) × (get k m ≡ some old) × SameRow row old

abbrev pub Within : {A B : Type 0} → (A → B) → List A → List A → Type 0
Within {A} f xs ys = (y : A) → In y ys → (x : A) × In x xs × (f y ≡ f x)

module _ (out : Outside) where
  -- The row is one of those that a write of its scope with its origin makes, and all others of them
  -- are there.
  abbrev pub IsWhole : Domains → Text → DomainRow → Type 0
  IsWhole m k row =
      (sc : DomainScope) × (scope_of out row.display_scope ≡ ok sc)
      × In k (canonicals sc)
      × ((j : Text) → In j (canonicals sc) → (r : DomainRow) × (get j m ≡ some r) × SameRow row r)

  -- The line of the row is accepted.
  abbrev pub IsAcceptedRow : DomainRow → Type 0
  IsAcceptedRow row =
      IsWord row.display_scope
      × IsWord row.origin
      × (validate_domain out (spelled write (text "domain") row.display_scope row.origin []) ≡ none)

  abbrev pub AllWhole : Domains → Type 0
  AllWhole m =
      (k : Text) (row : DomainRow) → get k m ≡ some row → IsWhole m k row × IsAcceptedRow row

-- The type has a handler, which accepts the line that an export writes for the row.
abbrev pub IsAcceptedObject :
    Outside → Json → (Text → Tables → Command → Result Error Effects) → ObjectRow → Type 0
IsAcceptedObject out js listing o =
    (g : Handler Tables) × (p : Text) × (ps : List Text) × (object_handlers out js listing o.type
      ≡ some g)
    × All IsWord (o.type ∷ o.name ∷ p ∷ ps)
    × (o.params_text ≡ join (text " ") (p ∷ ps))
    × (g.validate (spelled write o.type o.name p ps) ≡ none)

-- One row for each type and name.
abbrev pub IsKeyed : List ObjectRow → Type 0
IsKeyed [] = Unit
IsKeyed (o ∷ os) = All (λ x. is_object o.type o.name x ≡ false) os × IsKeyed os

-- The type and the name are valid.
abbrev pub IsNamed : BindingRow → Type 0
IsNamed b =
    (is_known_object_type b.object_type ≡ true) × (is_valid_object_name b.object_name ≡ true)

-- The tables hold the same rules.
pub record SameRules (t u : Tables) : Type 0 where
  pub domains : DomainsWithin t.domains u.domains × DomainsWithin u.domains t.domains
  pub objects :
      Within object_content t.rule_objects u.rule_objects
      × Within object_content u.rule_objects t.rule_objects
  pub bindings :
      Within binding_content t.bindings u.bindings × Within binding_content u.bindings t.bindings

module _ (out : Outside) (js : Json)
    (listing : Text → Tables → Command → Result Error Effects) where
  -- Tables as the handlers leave them: each scope has all rows that its line makes, with one
  -- origin, and the handlers accept the lines of the rows.
  pub record IsRestorable (t : Tables) : Type 0 where
    pub distinct : DistinctKeys t.domains
    pub domains : AllWhole out t.domains
    pub keyed : IsKeyed t.rule_objects
    pub objects : (o : ObjectRow) → In o t.rule_objects → IsAcceptedObject out js listing o
    pub linked : IsLinked t
    pub bindings : (b : BindingRow) → In b t.bindings → IsNamed b

-- NULL and the empty text are not exported.
abbrev pub IsSetting : Option Text → Type 0
IsSetting v = (w : Text) → v ≡ some w → w ≢ [] → IsWord w

-- What the queries of an export yield of the tables, in any order: the peers, whose IPs are words,
-- the settings, which are words, not set, or empty, each scope with the origin of one of its rows, and all objects and bindings.
pub record Selects (t : Tables) (q : Exporter.Tables) : Type 0 where
  pub peer_rows : List Peer
  pub peers : q.peers ≡ rows peer_rows none
  pub peer_words : All (λ (p : Peer). IsWord p.ip) peer_rows
  pub bot_node : IsSetting q.bot_node
  pub language : IsSetting q.language
  pub scopes : List (Text × Text)
  pub domains : q.domains ≡ rows scopes none
  pub scope_stored :
      (e : Text × Text)
      → In e scopes
      → (k : Text) × (row : DomainRow) × (get k t.domains ≡ some row)
        × (e ≡ (row.display_scope, row.origin))
  pub scope_listed :
      (k : Text) (row : DomainRow)
      → get k t.domains ≡ some row
      → (origin : Text) × In (row.display_scope, origin) scopes
  pub object_rows : List (Text × Text × Text)
  pub rule_objects : q.rule_objects ≡ rows object_rows none
  pub object_stored :
      (e : Text × Text × Text)
      → In e object_rows
      → (o : ObjectRow) × In o t.rule_objects × (e ≡ object_content o)
  pub object_listed : (o : ObjectRow) → In o t.rule_objects → In (object_content o) object_rows
  pub binding_rows : List (Text × Text × Text)
  pub bindings : q.bindings ≡ rows binding_rows none
  pub binding_stored :
      (e : Text × Text × Text)
      → In e binding_rows
      → (b : BindingRow) × In b t.bindings × (e ≡ binding_content b)
  pub binding_listed : (b : BindingRow) → In b t.bindings → In (binding_content b) binding_rows
