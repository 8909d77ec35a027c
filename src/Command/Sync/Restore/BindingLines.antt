-- ===== src/Command/Sync/Restore/BindingLines.antt =====
-- The lines `/w bind` of an export, replayed.
use mesh_cdn.Base.{
  Result, any, In, All-append, Text, text, same, join, is_space, ◌≡◌, refl, sym, ap, ◌∙◌, subst,
  inl, inr, true, false, Option, none, some, List, [], ◌∷◌, ◌++◌, ok,
}
use mesh_cdn.Base.Words.{is_space-IsWord, IsWord}
use mesh_cdn.Command.Types.{write, Command, Error, Effects}
use mesh_cdn.Command.Parse.RoundTrip.{spelled}
use mesh_cdn.Command.Ports.Enforce.{no_faults}
use mesh_cdn.Command.Executor.{Db, Handler, Faults}
use mesh_cdn.Command.Handlers.{BindingRow, ObjectRow, Tables, Outside}
use mesh_cdn.Command.Handlers.Scope.{DomainScope}
use mesh_cdn.Command.Handlers.Domain.{Domains, scope_of}
use mesh_cdn.Command.Handlers.Objects.{is_object, is_valid_object_name}
use mesh_cdn.Command.Handlers.Bind.{
  displays, is_known_object_type, set_bindings, upsert_binding, bind_handler,
}
use mesh_cdn.Command.Handlers.Cases.{IsAnchored}
use mesh_cdn.Command.Handlers.Links.{upsert_binding-In}
use mesh_cdn.Command.Handlers.ObjectTypes.{Json}
use mesh_cdn.Command.Handlers.Registry.{new_registry}
use mesh_cdn.Command.Sync.{replay_one_in_tx_force}
use mesh_cdn.Command.Sync.Restore.{binding_content, Within}
use mesh_cdn.Command.Sync.Restore.Lines.{replay_one-words, replay_command-rows, Step}
use mesh_cdn.Snapshot.Exporter.{binding_line}
use mesh_cdn.Command.Sync.Restore.References.{
  In-upsert_binding_self, In-upsert_binding, parse_object_ref-known, validate_bind-known,
  write_bind-anchored,
}

module _ (ts : List BindingRow) where
  abbrev pub BindingStored : Text × Text × Text → Tables → Type 0
  BindingStored e u = (x : BindingRow) × In x u.bindings × (binding_content x ≡ e)

  -- The bindings are of `ts`, and the other tables are given.
  abbrev pub BindingsOnly : Domains → List ObjectRow → Tables → Type 0
  BindingsOnly m os u =
      Within binding_content ts u.bindings × (u.domains ≡ m) × (u.rule_objects ≡ os)

ref_IsWord : (t name : Text) → IsWord t → IsWord name → IsWord (t ++ (text ":" ++ name))
unfolding is_space
ref_IsWord [] name h w = absurd (h.0 refl)
ref_IsWord (c ∷ t) name h w =
    (λ e. cc, All-append (λ c. is_space c ≡ false) (c ∷ t) (text ":" ++ name) h.1 (refl, w.1))

-- What the row of a binding is to be like: a type and a name that Validate accepts, and words.
abbrev pub IsAcceptedBinding : Outside → BindingRow → Type 0
IsAcceptedBinding out b =
    IsWord b.scope
    × IsWord b.object_name
    × (is_known_object_type b.object_type ≡ true)
    × (is_valid_object_name b.object_name ≡ true)
    × ((sc : DomainScope) × (scope_of out b.scope ≡ ok sc))

module _ (out : Outside) (js : Json) (listing : Text → Tables → Command → Result Error Effects)
    (others : Text → Option (Handler Tables)) where
  bind_registered :
      new_registry out js listing others (text "bind")
      ≡ some (bind_handler out (listing (text "bind")))
  unfolding new_registry same
  bind_registered = refl

  -- The line of a binding of `ts`, replayed on tables that have its object and its scope.
  pub binding_line-Step :
      (faults : Faults) (ts : List BindingRow) (m : Domains) (os : List ObjectRow) (b : BindingRow)
      → faults.ports ≡ no_faults
      → ((s : Text) → out.select_error s ≡ none)
      → ((s : Text) → out.write_error s ≡ none)
      → In b ts
      → IsAcceptedBinding out b
      → IsAnchored m os b
      → Step
          (replay_one_in_tx_force (new_registry out js listing others) faults)
          binding_line
          (BindingsOnly ts m os)
          (BindingStored ts)
          (binding_content b)
  unfolding join is_space bind_handler
  binding_line-Step faults ts m os b sound selects writes member accepted anchored d inv =
      let (w, v, known, valid, scope) = accepted in
      let (sc, s) = scope in
      let ref = b.object_type ++ (text ":" ++ b.object_name) in
      let c = spelled write (text "bind") b.scope ref [] in
      let registry = new_registry out js listing others in
      let (r, u) = parse_object_ref-known out b.object_type b.object_name known v.0 in
      let there : IsAnchored d.rows.domains d.rows.rule_objects b = (
        subst (λ x. any (is_object b.object_type b.object_name) x ≡ true) (sym inv.2) anchored.0,
        subst (λ x. any (displays b.scope) x ≡ true) (sym inv.1) anchored.1,
      ) in
      let (x, message, like, wrote) = write_bind-anchored out d c b selects writes r refl there in
      let line =
        replay_one-words registry faults d (text "bind") b.scope ref []
          (is_space-IsWord _ _ refl, (w, (ref_IsWord b.object_type b.object_name u v, tt))) in
      let (q, fine) =
        replay_command-rows registry faults d c (bind_handler out (listing (text "bind")))
          (set_bindings (upsert_binding x d.rows.bindings) d) _ sound bind_registered
          (validate_bind-known out c sc b.object_type b.object_name refl s r u.0 known valid)
          wrote in
      let rows = ap (λ (r : Db Tables × Option Error). r.0.rows) line ∙ q in
      (
        ap (λ (r : Db Tables × Option Error). r.1) line ∙ fine,
        subst (BindingsOnly ts m os) (sym rows) (
          λ y i. elim (upsert_binding-In y x d.rows.bindings i) [
            | inl e ↦ (b, member, ap binding_content e ∙ like)
            | inr j ↦ inv.0 y j
          ],
          inv.1,
          inv.2,
        ),
        subst (BindingStored ts (binding_content b)) (sym rows)
            (x, In-upsert_binding_self x d.rows.bindings, like),
        λ e (z, i, k).
            subst (BindingStored ts e) (sym rows)
              (let (y, j, l) = In-upsert_binding x z d.rows.bindings i in (y, j, l ∙ k)),
      )
