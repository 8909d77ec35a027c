-- ===== src/Command/Sync/Restore/Steps.antt =====
-- The step of each line of the rules that an export writes.
use mesh_cdn.Base.{
  Result, any, In, any_found, any-In, Text, same, same→eq, eq→same, ◌≡◌, refl, sym, ap, ◌∙◌, subst,
  Bool, true, ◌&&◌, Option, none, some, arith, ok,
}
use mesh_cdn.Base.Table.{get, In-get, get-In}
use mesh_cdn.Base.Words.{IsWord}
use mesh_cdn.Snapshot.Exporter
use mesh_cdn.Snapshot.Exporter.{
  rows, peer_line, domain_line, object_line, binding_line, setting_lines, export_lines,
  export_snapshot,
}
use mesh_cdn.Command.Types.{Command, Error, Effects}
use mesh_cdn.Command.Ports.Enforce.{no_faults}
use mesh_cdn.Command.Executor.{Db, Handler, Faults}
use mesh_cdn.Command.Handlers.{DomainRow, ObjectRow, BindingRow, Tables, Outside}
use mesh_cdn.Command.Handlers.Domain.{Domains, scope_of}
use mesh_cdn.Command.Handlers.Objects.{is_object}
use mesh_cdn.Command.Handlers.Bind.{displays}
use mesh_cdn.Command.Handlers.Cases.{IsAnchored}
use mesh_cdn.Command.Handlers.ObjectTypes.{Json}
use mesh_cdn.Command.Handlers.Registry.{new_registry}
use mesh_cdn.Command.Sync.{replay_one_in_tx_force}
use mesh_cdn.Command.Sync.Restore.{object_content, IsRestorable, Selects}
use mesh_cdn.Command.Sync.Restore.Lines.{Step}
use mesh_cdn.Command.Sync.Restore.DomainLines.{DomainsOnly, DomainStored, domain_line-Step}
use mesh_cdn.Command.Sync.Restore.ObjectLines.{ObjectsOnly, ObjectStored, object_line-Step}
use mesh_cdn.Command.Sync.Restore.BindingLines.{IsAcceptedBinding}

both : (a b : Bool) → a ≡ true → b ≡ true → (a && b) ≡ true
both a b h k = ground arith

module _ (out : Outside) (js : Json) (listing : Text → Tables → Command → Result Error Effects)
    (others : Text → Option (Handler Tables)) (faults : Faults) (t : Tables) (q : Exporter.Tables)
    (sound : faults.ports ≡ no_faults) (selects : (s : Text) → out.select_error s ≡ none)
    (writes : (s : Text) → out.write_error s ≡ none) (r : IsRestorable out js listing t)
    (s : Selects t q) where
  abbrev replay : Db Tables → Text → Db Tables × Option Error
  replay = replay_one_in_tx_force (new_registry out js listing others) faults

  pub scope-Step :
      (e : Text × Text)
      → In e s.scopes
      → Step replay domain_line (DomainsOnly t.domains) (DomainStored t.domains) e
  scope-Step e i =
      let (k, row, g, z) = s.scope_stored e i in
      let (whole, accepted) = r.domains k row g in
      let (w, v, valid) = accepted in
      subst (Step replay domain_line (DomainsOnly t.domains) (DomainStored t.domains)) (sym z) (
        domain_line-Step out js listing others faults t.domains k row sound selects writes
          (λ j x h. (r.domains j x h).0) g w v valid)

  pub object-Step :
      (m : Domains) (e : Text × Text × Text)
      → In e s.object_rows
      → Step replay object_line (ObjectsOnly t.rule_objects m) (ObjectStored t.rule_objects) e
  object-Step m e i =
      let (o, member, z) = s.object_stored e i in
      subst (Step replay object_line (ObjectsOnly t.rule_objects m) (ObjectStored t.rule_objects))
        (sym z)
        (object_line-Step out js listing others faults t.rule_objects m o sound writes r.keyed
          member (r.objects o member))

  -- The scope of a binding is displayed by a row.
  bound_row :
      (b : BindingRow)
      → any (displays b.scope) t.domains ≡ true
      → (k : Text) × (row : DomainRow) × (get k t.domains ≡ some row)
        × (row.display_scope ≡ b.scope)
  bound_row b h =
      let ((k, row), i, e) = any_found (displays b.scope) t.domains h in
      (k, row, get-In k row t.domains r.distinct i, same→eq row.display_scope b.scope e)

  bound_object :
      (b : BindingRow)
      → any (is_object b.object_type b.object_name) t.rule_objects ≡ true
      → (o : ObjectRow) × In o t.rule_objects × (o.type ≡ b.object_type) × (o.name ≡ b.object_name)
  bound_object b h =
      let (o, i, e) = any_found (is_object b.object_type b.object_name) t.rule_objects h in
      (
        o,
        i,
        same→eq o.type b.object_type (ground arith),
        same→eq o.name b.object_name (ground arith),
      )

  -- The scope and the object that a binding needs are there again.
  pub accepted_binding : (b : BindingRow) → In b t.bindings → IsAcceptedBinding out b
  accepted_binding b i =
      let anchored = r.linked b i in
      let (known, valid) = r.bindings b i in
      let (k, row, g, e) = bound_row b anchored.1 in
      let (whole, row_accepted) = r.domains k row g in
      let (o, member, type, name) = bound_object b anchored.0 in
      let (h, p, ps, found, words, params, accepted) = r.objects o member in
      (
        subst IsWord e row_accepted.0,
        subst IsWord name words.1.0,
        known,
        valid,
        (whole.0, subst (λ x. scope_of out x ≡ ok whole.0) e whole.1),
      )

  pub again-IsAnchored :
      (u : Tables) (b : BindingRow)
      → ((e : Text × Text) → In e s.scopes → DomainStored t.domains e u)
      → ((e : Text × Text × Text) → In e s.object_rows → ObjectStored t.rule_objects e u)
      → In b t.bindings
      → IsAnchored u.domains u.rule_objects b
  again-IsAnchored u b scopes objects i =
      let anchored = r.linked b i in
      let (k, row, g, e) = bound_row b anchored.1 in
      let (o, member, type, name) = bound_object b anchored.0 in
      let (origin, listed) = s.scope_listed k row g in
      let (x, h, like) = scopes (row.display_scope, origin) listed k row g refl in
      let (y, j, same_object) = objects (object_content o) (s.object_listed o member) in
      (
        any-In (is_object b.object_type b.object_name) y u.rule_objects j (
            both (same y.type b.object_type) (same y.name b.object_name)
              (eq→same y.type b.object_type
                (ap (λ (z : Text × Text × Text). z.0) same_object ∙ type))
              (eq→same y.name b.object_name
                (ap (λ (z : Text × Text × Text). z.1) same_object ∙ name))),
        any-In (displays b.scope) (k, x) u.domains (In-get k x u.domains h)
            (eq→same x.display_scope b.scope (sym like.0 ∙ e)),
      )
