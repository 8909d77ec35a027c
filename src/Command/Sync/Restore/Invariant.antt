-- ===== src/Command/Sync/Restore/Invariant.antt =====
-- Every batch and every import leaves tables that can be restored, if the statements of the handlers succeed.
use mesh_cdn.Base.{
  Bool-cases, Option-cases, some-injective, none-ne-some, Result, Text, text, same, ◌≡◌, refl, sym,
  subst, inl, inr, Bool, true, Option, none, some,
}
use mesh_cdn.Command.Types.{Verb, write, delete, view, Lang, Command, Error, Effects}
use mesh_cdn.Command.Aftermath.{Services}
use mesh_cdn.Command.Executor.{Db, Handler, Faults, dispatch, execute_batch}
use mesh_cdn.Command.Executor.Keeping.{execute_batch-Keeps}
use mesh_cdn.Command.Handlers.{Tables, Outside}
use mesh_cdn.Command.Handlers.Domain.{domain_handler}
use mesh_cdn.Command.Handlers.ObjectTypes.{Json, object_handler, object_handlers}
use mesh_cdn.Command.Handlers.Bind.{bind_handler}
use mesh_cdn.Command.Handlers.Registry.{IsApart, new_registry}
use mesh_cdn.Command.Handlers.Integrity.{wipe}
use mesh_cdn.Base.Table.{get}
use mesh_cdn.Snapshot.{Snapshot}
use mesh_cdn.Command.Sync.{ImportFaults, replay_one_in_tx_force, import_snapshot}
use mesh_cdn.Command.Sync.Keeping.{import_snapshot-Keeps}
use mesh_cdn.Command.Sync.Restore.Statements.{
  Restorable, write_domain-Restorable, delete_domain-Restorable, delete_object-Restorable,
  delete_bind-Restorable, write_bind-Restorable, object_write-Restorable,
}
use mesh_cdn.Command.Sync.Restore.Spelling.{IsSpelled, parse-IsSpelled, parse_line-IsSpelled}

module _ (out : Outside) (js : Json)
    (listing : Text → Tables → Command → Result Error Effects) where
  -- The handler is one of those of the rule objects.
  abbrev IsMade : Handler Tables → Type 0
  IsMade h =
      (type : Text) × (validate : Command → Option Error) × (prepare : Command
        → Result Error (Text × Text))
      × (object_handler out js listing type validate prepare ≡ h)

  abbrev AllMade : Option (Handler Tables) → Type 0
  AllMade found = (h : Handler Tables) → found ≡ some h → IsMade h

  some-AllMade :
      (type : Text) (validate : Command → Option Error)
      (prepare : Command → Result Error (Text × Text))
      → AllMade (some (object_handler out js listing type validate prepare))
  some-AllMade type validate prepare h e = (type, validate, prepare, some-injective e)

  object_handlers-AllMade : (type : Text) → AllMade (object_handlers out js listing type)
  unfolding object_handlers
  object_handlers-AllMade type = elim (Bool-cases (same type (text "cache"))) [
    | inl e ↦ rw e (some-AllMade _ _ _)
    | inr e ↦ elim (Bool-cases (same type (text "defense"))) [
      | inl f ↦ rw (e, f) (some-AllMade _ _ _)
      | inr f ↦ elim (Bool-cases (same type (text "redirect"))) [
        | inl g ↦ rw (e, f, g) (some-AllMade _ _ _)
        | inr g ↦ elim (Bool-cases (same type (text "header"))) [
          | inl i ↦ rw (e, f, g, i) (some-AllMade _ _ _)
          | inr i ↦ rw (e, f, g, i) (λ h z. absurd (none-ne-some z))
        ]
      ]
    ]
  ]

  pub wipe-Restorable : (t : Tables) → Restorable out js listing (wipe t)
  unfolding get
  wipe-Restorable t = record {
    distinct = tt;
    domains = λ k row g. absurd (none-ne-some g);
    keyed = tt;
    objects = λ o m. absurd m;
    linked = λ b m. absurd m;
    bindings = λ b m. absurd m;
  }

  -- What the handler of a type accepts keeps tables that can be restored.
  abbrev Restores : Option (Handler Tables) → Command → Type 0
  Restores found c =
      (h : Handler Tables)
      → found ≡ some h
      → (d : Db Tables) → h.validate c ≡ none
      → Restorable out js listing d.rows
      → Restorable out js listing (dispatch c.verb h d c).0.rows

  module _ (writes : (k : Text) → out.write_error k ≡ none)
      (deletes : (k : Text) → out.delete_error k ≡ none)
      (whole : (k : Text) → out.is_read k ≡ true) where
    domain_handler-Restorable :
        (c : Command)
        → IsSpelled c
        → Restores (some (domain_handler out (listing (text "domain")))) c
    unfolding domain_handler
    domain_handler-Restorable c words h e d valid r =
        subst (λ (x : Handler Tables). Restorable out js listing (dispatch c.verb x d c).0.rows)
          (some-injective e) (go c.verb refl)
      where
        go :
            (v : Verb)
            → c.verb ≡ v
            → Restorable out js listing
                (dispatch v (domain_handler out (listing (text "domain"))) d c).0.rows
        go write v =
            write_domain-Restorable out js listing d c writes words v
              (subst (λ (x : Handler Tables). x.validate c ≡ none) (sym (some-injective e)) valid) r
        go delete v = delete_domain-Restorable out js listing d c deletes r
        go view v = r

    bind_handler-Restorable :
        (c : Command) → Restores (some (bind_handler out (listing (text "bind")))) c
    unfolding bind_handler
    bind_handler-Restorable c h e d valid r =
        subst (λ (x : Handler Tables). Restorable out js listing (dispatch c.verb x d c).0.rows)
          (some-injective e) (go c.verb refl)
      where
        go :
            (v : Verb)
            → c.verb ≡ v
            → Restorable out js listing
                (dispatch v (bind_handler out (listing (text "bind"))) d c).0.rows
        go write v =
            write_bind-Restorable out js listing d c v
              (subst (λ (x : Handler Tables). x.validate c ≡ none) (sym (some-injective e)) valid) r
        go delete v = delete_bind-Restorable out js listing d c r
        go view v = r

    object_delete-Restorable :
        (h : Handler Tables) (d : Db Tables) (c : Command)
        → IsMade h
        → Restorable out js listing d.rows
        → Restorable out js listing (h.delete d c).0.rows
    unfolding object_handler
    object_delete-Restorable h d c (type, validate, prepare, e) r =
        subst (λ (x : Handler Tables). Restorable out js listing (x.delete d c).0.rows) e
          (delete_object-Restorable out js listing type c.scope d whole r)

    object_view-Restorable :
        (h : Handler Tables) (d : Db Tables) (c : Command)
        → IsMade h
        → Restorable out js listing d.rows
        → Restorable out js listing (h.view d c).0.rows
    unfolding object_handler
    object_view-Restorable h d c (type, validate, prepare, e) r =
        subst (λ (x : Handler Tables). Restorable out js listing (x.view d c).0.rows) e r

    object_handlers-Restorable :
        (c : Command) → IsSpelled c → Restores (object_handlers out js listing c.type) c
    object_handlers-Restorable c words h found d valid r = go c.verb refl
      where
        go : (v : Verb) → c.verb ≡ v → Restorable out js listing (dispatch v h d c).0.rows
        go write v =
            object_write-Restorable out js listing d c h (writes c.type) words v found valid r
        go delete v = object_delete-Restorable h d c (object_handlers-AllMade c.type h found) r
        go view v = object_view-Restorable h d c (object_handlers-AllMade c.type h found) r

    module _ (others : Text → Option (Handler Tables)) (apart : IsApart others) where
      new_registry-Restorable :
          (c : Command) → IsSpelled c → Restores (new_registry out js listing others c.type) c
      unfolding new_registry
      new_registry-Restorable c words = elim (Bool-cases (same c.type (text "domain"))) [
        | inl e ↦ rw e (domain_handler-Restorable c words)
        | inr e ↦ elim (Bool-cases (same c.type (text "bind"))) [
          | inl f ↦ rw (e, f) (bind_handler-Restorable c)
          | inr f ↦ elim (Option-cases (object_handlers out js listing c.type)) [
            | inr (h, g) ↦
                rw (e, f, g)
                  (subst (λ found. Restores found c) g (object_handlers-Restorable c words))
            | inl g ↦
                rw (e, f, g)
                  (λ h z d v k.
                    subst (Restorable out js listing) (sym (apart c.type h z c.verb d c)) k)
          ]
        ]
      ]

      pub execute_batch-Restorable :
          (faults : Faults) (forced : Bool) (services : Services) (lang : Lang) (batch : Text)
          (d : Db Tables)
          → Restorable out js listing d.rows
          → Restorable out js listing
              (execute_batch
                (new_registry out js listing others)
                faults
                forced
                services
                lang
                batch
                d).0.rows
      execute_batch-Restorable faults forced =
          execute_batch-Keeps IsSpelled (Restorable out js listing)
            (new_registry out js listing others) faults forced
            (λ h d c words found valid r. new_registry-Restorable c words h found d valid r)
            parse_line-IsSpelled

      pub import_snapshot-Restorable :
          (faults : Faults) (import_faults : ImportFaults) (snap : Snapshot) (d : Db Tables)
          → Restorable out js listing d.rows
          → Restorable out js listing
              (import_snapshot
                (replay_one_in_tx_force (new_registry out js listing others) faults)
                import_faults
                wipe
                snap
                d).0.rows
      import_snapshot-Restorable faults import_faults snap d =
          import_snapshot-Keeps IsSpelled (Restorable out js listing)
            (new_registry out js listing others) faults
            (λ h d c words found valid r. new_registry-Restorable c words h found d valid r)
            parse-IsSpelled import_faults wipe snap d (wipe-Restorable d.rows)
