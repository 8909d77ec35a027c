-- ===== src/Command/Sync/Restore/Rules.antt =====
-- The lines of the rules that an export writes, replayed on empty tables.
use mesh_cdn.Base.{
  Result, In, Text, ℕ, ◌≡◌, refl, sym, ◌∙◌, subst, Option, none, some, List, [], ◌++◌, map,
}
use mesh_cdn.Base.Table.{get}
use mesh_cdn.Snapshot.Exporter
use mesh_cdn.Snapshot.Exporter.{
  rows, peer_line, domain_line, object_line, binding_line, setting_lines, export_lines,
  export_snapshot,
}
use mesh_cdn.Command.Types.{Command, Error, Effects}
use mesh_cdn.Command.Ports.Enforce.{no_faults}
use mesh_cdn.Command.Executor.{Db, Handler, Faults}
use mesh_cdn.Command.Handlers.{DomainRow, ObjectRow, Tables, Outside}
use mesh_cdn.Command.Handlers.ObjectTypes.{Json}
use mesh_cdn.Command.Handlers.Registry.{new_registry}
use mesh_cdn.Command.Sync.{ReplayResult, replay_one_in_tx_force, replay_lines}
use mesh_cdn.Command.Sync.Restore.{
  SameRow, object_content, binding_content, DomainsWithin, Within, SameRules, IsRestorable, Selects,
}
use mesh_cdn.Command.Sync.Restore.Lines.{Step, replay_lines-table}
use mesh_cdn.Command.Sync.Restore.DomainLines.{DomainsOnly, DomainStored}
use mesh_cdn.Command.Sync.Restore.ObjectLines.{ObjectsOnly, ObjectStored}
use mesh_cdn.Command.Sync.Restore.BindingLines.{BindingsOnly, BindingStored, binding_line-Step}
use mesh_cdn.Command.Sync.Restore.Steps.{
  scope-Step, object-Step, accepted_binding, again-IsAnchored,
}

module _ (out : Outside) (js : Json) (listing : Text → Tables → Command → Result Error Effects)
    (others : Text → Option (Handler Tables)) (faults : Faults) (t : Tables) (q : Exporter.Tables)
    (sound : faults.ports ≡ no_faults) (selects : (s : Text) → out.select_error s ≡ none)
    (writes : (s : Text) → out.write_error s ≡ none) (r : IsRestorable out js listing t)
    (s : Selects t q) where
  abbrev replay : Db Tables → Text → Db Tables × Option Error
  replay = replay_one_in_tx_force (new_registry out js listing others) faults

  -- The lines replayed from there on give the rules back, without an error of their own.
  abbrev Restores : List Text → ℕ → Db Tables → ReplayResult → Type 0
  Restores lines i d res =
      SameRules t (replay_lines replay i lines (d, res)).0.rows
      × ((replay_lines replay i lines (d, res)).1.per_line_errors ≡ res.per_line_errors)

  abbrev AfterReplay : ReplayResult → Db Tables × ReplayResult → Type 0
  AfterReplay res x = SameRules t x.0.rows × (x.1.per_line_errors ≡ res.per_line_errors)

  abbrev AllScopes : Tables → Type 0
  AllScopes u = (e : Text × Text) → In e s.scopes → DomainStored t.domains e u

  abbrev AllObjects : Tables → Type 0
  AllObjects u = (e : Text × Text × Text) → In e s.object_rows → ObjectStored t.rule_objects e u

  SameRules-stored :
      (u : Tables)
      → DomainsWithin t.domains u.domains
      → AllScopes u
      → Within object_content t.rule_objects u.rule_objects
      → AllObjects u
      → Within binding_content t.bindings u.bindings
      → ((e : Text × Text × Text) → In e s.binding_rows → BindingStored t.bindings e u)
      → SameRules t u
  SameRules-stored u domains scopes within objects bindings bound = record {
    domains = (
      domains,
      λ k row g.
          let (origin, i) = s.scope_listed k row g in
          scopes (row.display_scope, origin) i k row g refl,
    );
    objects = (
      within,
      λ o i. let (x, j, e) = objects (object_content o) (s.object_listed o i) in (x, j, sym e),
    );
    bindings = (
      bindings,
      λ b i. let (x, j, e) = bound (binding_content b) (s.binding_listed b i) in (x, j, sym e),
    );
  }

  binding-Step :
      (u : Tables) (e : Text × Text × Text)
      → AllScopes u
      → AllObjects u
      → In e s.binding_rows
      → Step replay binding_line
          (BindingsOnly t.bindings u.domains u.rule_objects)
          (BindingStored t.bindings)
          e
  binding-Step u e scopes objects i =
      let (b, member, z) = s.binding_stored e i in
      subst
        (Step replay binding_line (BindingsOnly t.bindings u.domains u.rule_objects)
          (BindingStored t.bindings))
        (sym z)
        (binding_line-Step out js listing others faults t.bindings u.domains u.rule_objects b sound
          selects writes member
          (accepted_binding out js listing others faults t q sound selects writes r s b member)
          (again-IsAnchored out js listing others faults t q sound selects writes r s u b scopes
            objects member))

  replay_bindings :
      (i : ℕ) (d : Db Tables) (res : ReplayResult)
      → DomainsWithin t.domains d.rows.domains
      → AllScopes d.rows
      → Within object_content t.rule_objects d.rows.rule_objects
      → AllObjects d.rows
      → d.rows.bindings ≡ []
      → Restores (map binding_line s.binding_rows ++ []) i d res
  unfolding replay_lines
  replay_bindings i d res domains scopes within objects none_yet =
      let (j, d', res', q, errors, inv, all, keep) =
        replay_lines-table replay binding_line
          (BindingsOnly t.bindings d.rows.domains d.rows.rule_objects) (BindingStored t.bindings) i
          s.binding_rows [] d res (λ e m. binding-Step d.rows e scopes objects m)
          (
            subst (Within binding_content t.bindings) (sym none_yet) (λ y z. absurd z),
            refl,
            refl,
          ) in
      subst (AfterReplay res) (sym q) (
        SameRules-stored d'.rows (subst (DomainsWithin t.domains) (sym inv.1) domains)
            (λ e m k row g v.
              subst (λ ds. (x : DomainRow) × (get k ds ≡ some x) × SameRow row x) (sym inv.1)
                (scopes e m k row g v))
            (subst (Within object_content t.rule_objects) (sym inv.2) within)
            (λ e m.
              subst (λ os. (x : ObjectRow) × In x os × (object_content x ≡ e)) (sym inv.2)
                (objects e m))
            inv.0 all,
        errors,
      )

  replay_objects :
      (i : ℕ) (d : Db Tables) (res : ReplayResult)
      → DomainsOnly t.domains d.rows
      → AllScopes d.rows
      → Restores (map object_line s.object_rows ++ (map binding_line s.binding_rows ++ [])) i d res
  replay_objects i d res domains scopes =
      let (j, d', res', q, errors, inv, all, keep) =
        replay_lines-table replay object_line (ObjectsOnly t.rule_objects d.rows.domains)
          (ObjectStored t.rule_objects) i s.object_rows (map binding_line s.binding_rows ++ []) d
          res (object-Step out js listing others faults t q sound selects writes r s d.rows.domains)
          (
            subst (Within object_content t.rule_objects) (sym domains.1) (λ y z. absurd z),
            refl,
            domains.2,
          ) in
      let (same_rules, e) =
        replay_bindings j d' res' (subst (DomainsWithin t.domains) (sym inv.1) domains.0)
          (λ e m k row g v.
            subst (λ ds. (x : DomainRow) × (get k ds ≡ some x) × SameRow row x) (sym inv.1)
              (scopes e m k row g v))
          inv.0 all inv.2 in
      subst (AfterReplay res) (sym q) (same_rules, e ∙ errors)

  -- The lines of the rules, replayed on empty tables.
  pub replay_rules :
      (i : ℕ) (d : Db Tables) (res : ReplayResult)
      → DomainsOnly t.domains d.rows
      → Restores
          (map domain_line s.scopes
            ++ (map object_line s.object_rows ++ (map binding_line s.binding_rows ++ [])))
          i
          d
          res
  replay_rules i d res empty =
      let (j, d', res', q, errors, inv, all, keep) =
        replay_lines-table replay domain_line (DomainsOnly t.domains) (DomainStored t.domains) i
          s.scopes (map object_line s.object_rows ++ (map binding_line s.binding_rows ++ [])) d res
          (scope-Step out js listing others faults t q sound selects writes r s) empty in
      let (same_rules, e) = replay_objects j d' res' inv all in
      subst (AfterReplay res) (sym q) (same_rules, e ∙ errors)
