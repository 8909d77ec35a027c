-- ===== src/Command/Handlers/Registry.antt =====
-- internal/command/handlers/registry.go: NewRegistry, and what its handlers keep of the tables.
use mesh_cdn.Base.{
  if◌then◌else◌, Bool-cases, Option-cases, some-injective, none-ne-some, Result-cases, Result, Text,
  text, same, ◌≡◌, sym, subst, inl, inr, Option, none, some, arith,
}
use mesh_cdn.Command.Types.{Verb, write, delete, view, Command, Error, Effects}
use mesh_cdn.Command.Executor.{Db, Handler, dispatch}
use mesh_cdn.Command.Executor.Keeping.{Keeps}
use mesh_cdn.Command.Handlers.{Tables, Outside}
use mesh_cdn.Command.Handlers.Domain.{write_domain, delete_domain, domain_handler}
use mesh_cdn.Command.Handlers.Objects.{upsert_rule_object, delete_object}
use mesh_cdn.Command.Handlers.ObjectTypes.{Json, object_handler, object_handlers}
use mesh_cdn.Command.Handlers.Bind.{write_bind, delete_bind, bind_handler}

-- A property of the tables that each statement of the handlers keeps.
pub record Kept (out : Outside) (P : Tables → Type 0) : Type 0 where
  pub domain_written : (d : Db Tables) (c : Command) → P d.rows → P (write_domain out d c).0.rows
  pub domain_deleted : (d : Db Tables) (c : Command) → P d.rows → P (delete_domain out d c).0.rows
  pub bound : (d : Db Tables) (c : Command) → P d.rows → P (write_bind out d c).0.rows
  pub unbound : (d : Db Tables) (c : Command) → P d.rows → P (delete_bind out d c).0.rows
  pub object_written :
      (type : Text) (c : Command) (json message : Text) (d : Db Tables)
      → P d.rows
      → P (upsert_rule_object out type c json message d).0.rows
  pub object_deleted :
      (type name : Text) (d : Db Tables) → P d.rows → P (delete_object out type name d).0.rows

-- A type of handlers that writes none of the three tables.
abbrev pub IsApart : (Text → Option (Handler Tables)) → Type 0
IsApart others =
    (t : Text) (h : Handler Tables)
    → others t ≡ some h
    → (v : Verb) (d : Db Tables) (c : Command) → (dispatch v h d c).0.rows ≡ d.rows

module _ (out : Outside) (js : Json) (listing : Text → Tables → Command → Result Error Effects)
    (others : Text → Option (Handler Tables)) where
  -- NewRegistry: the six types of rules, and the other types.
  unfoldable pub new_registry : Text → Option (Handler Tables)
  unfolding same domain_handler bind_handler object_handlers
  new_registry type =
      if same type (text "domain")
      then some (domain_handler out (listing (text "domain")))
      else if same type (text "bind")
      then some (bind_handler out (listing (text "bind")))
      else elim (object_handlers out js listing type) [ some h ↦ some h | none ↦ others type ]

module _ (out : Outside) (js : Json) (listing : Text → Tables → Command → Result Error Effects)
    (others : Text → Option (Handler Tables)) (P : Tables → Type 0) (kept : Kept out P) where
  domain_handler-Keeps : Keeps P (domain_handler out (listing (text "domain")))
  unfolding domain_handler
  domain_handler-Keeps d c v h = go c.verb
    where
      go : (v : Verb) → P (dispatch v (domain_handler out (listing (text "domain"))) d c).0.rows
      go write = kept.domain_written d c h
      go delete = kept.domain_deleted d c h
      go view = h

  bind_handler-Keeps : Keeps P (bind_handler out (listing (text "bind")))
  unfolding bind_handler
  bind_handler-Keeps d c v h = go c.verb
    where
      go : (v : Verb) → P (dispatch v (bind_handler out (listing (text "bind"))) d c).0.rows
      go write = kept.bound d c h
      go delete = kept.unbound d c h
      go view = h

  object_handler-Keeps :
      (type : Text) (validate : Command → Option Error)
      (prepare : Command → Result Error (Text × Text))
      → Keeps P (object_handler out js listing type validate prepare)
  unfolding object_handler
  object_handler-Keeps type validate prepare d c v h = go c.verb
    where
      go :
          (v : Verb)
          → P (dispatch v (object_handler out js listing type validate prepare) d c).0.rows
      go write = elim (Result-cases (prepare c)) [
        | inr (x, e) ↦
            let q : (dispatch write (object_handler out js listing type validate prepare) d
                  c).0.rows
                ≡ d.rows =
              ground arith in
            subst P (sym q) h
        | inl (r, e) ↦
            let q : (dispatch write (object_handler out js listing type validate prepare) d c).0
                ≡ (upsert_rule_object out type c r.0 r.1 d).0 =
              ground arith in
            subst (λ (x : Db Tables). P x.rows) (sym q) (kept.object_written type c r.0 r.1 d h)
      ]
      go delete = kept.object_deleted type c.scope d h
      go view = h

  abbrev pub Found : Option (Handler Tables) → Type 0
  Found found = (h : Handler Tables) → found ≡ some h → Keeps P h

  Found-some : (h : Handler Tables) → Keeps P h → Found (some h)
  Found-some h k g e = subst (Keeps P) (some-injective e) k

  object_handlers-Keeps : (type : Text) → Found (object_handlers out js listing type)
  unfolding object_handlers
  object_handlers-Keeps type = elim (Bool-cases (same type (text "cache"))) [
    | inl e ↦ rw e (Found-some _ (object_handler-Keeps _ _ _))
    | inr e ↦ elim (Bool-cases (same type (text "defense"))) [
      | inl f ↦ rw (e, f) (Found-some _ (object_handler-Keeps _ _ _))
      | inr f ↦ elim (Bool-cases (same type (text "redirect"))) [
        | inl g ↦ rw (e, f, g) (Found-some _ (object_handler-Keeps _ _ _))
        | inr g ↦ elim (Bool-cases (same type (text "header"))) [
          | inl i ↦ rw (e, f, g, i) (Found-some _ (object_handler-Keeps _ _ _))
          | inr i ↦ rw (e, f, g, i) (λ h z. absurd (none-ne-some z))
        ]
      ]
    ]
  ]

  pub new_registry-Keeps :
      IsApart others → (type : Text) → Found (new_registry out js listing others type)
  unfolding new_registry
  new_registry-Keeps apart type = elim (Bool-cases (same type (text "domain"))) [
    | inl e ↦ rw e (Found-some _ domain_handler-Keeps)
    | inr e ↦ elim (Bool-cases (same type (text "bind"))) [
      | inl f ↦ rw (e, f) (Found-some _ bind_handler-Keeps)
      | inr f ↦ elim (Option-cases (object_handlers out js listing type)) [
        | inr (h, g) ↦ rw (e, f, g) (Found-some h (object_handlers-Keeps type h g))
        | inl g ↦ rw (e, f, g) (λ h z d c v k. subst P (sym (apart type h z c.verb d c)) k)
      ]
    ]
  ]
