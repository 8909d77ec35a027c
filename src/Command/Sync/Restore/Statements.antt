-- ===== src/Command/Sync/Restore/Statements.antt =====
-- What each statement of the handlers does to tables that can be restored.
use mesh_cdn.Base.{
  Result, filter, In, All-of_In, In-filter, Text, ◌≡◌, sym, ap, subst, inl, inr, not, none, some,
  List,
}
use mesh_cdn.Base.Table.{DistinctKeys, get-In}
use mesh_cdn.Command.Types.{write, Command, Error, Effects}
use mesh_cdn.Command.Executor.{Db, Handler}
use mesh_cdn.Command.Handlers.{ObjectRow, BindingRow, Tables, Outside}
use mesh_cdn.Command.Handlers.Domain.{validate_domain, write_domain, delete_domain}
use mesh_cdn.Command.Handlers.Objects.{is_object, upsert_object, delete_object}
use mesh_cdn.Command.Handlers.ObjectTypes.{Json, object_handlers}
use mesh_cdn.Command.Handlers.Bind.{
  upsert_binding, validate_bind, write_bind, delete_bind, is_unbound,
}
use mesh_cdn.Command.Handlers.Cases.{
  write_bind_cases, delete_bind_cases, ReadsAll, delete_object_cases,
}
use mesh_cdn.Command.Handlers.Links.{
  IsLinked, upsert_binding-In, write_bind-IsLinked, delete_bind-IsLinked, write_domain-IsLinked,
  delete_domain-IsLinked, delete_object-IsLinked,
}
use mesh_cdn.Command.Handlers.Anchors.{any-upsert_object}
use mesh_cdn.Command.Handlers.Expansion.{
  IsExpanded, write_domain-IsExpanded, delete_domain-IsExpanded,
}
use mesh_cdn.Command.Handlers.Ownership.{write_domain-Wrote}
use mesh_cdn.Command.Handlers.Removal.{delete_domain-Removed}
use mesh_cdn.Command.Handlers.Acceptance.{object_row, object_handlers-Stores}
use mesh_cdn.Command.Sync.Restore.{IsKeyed, IsNamed, IsAcceptedObject, AllWhole, IsRestorable}
use mesh_cdn.Command.Sync.Restore.ObjectLines.{upsert_object-In}
use mesh_cdn.Command.Sync.Restore.ObjectRows.{upsert_object-IsKeyed, filter-IsKeyed}
use mesh_cdn.Command.Sync.Restore.BindingRows.{validate_bind-IsNamed}
use mesh_cdn.Command.Sync.Restore.DomainRows.{write_domain-AllWhole, delete_domain-AllWhole}
use mesh_cdn.Command.Sync.Restore.Spelling.{IsSpelled, object_handlers-spelled}

module _ (out : Outside) (js : Json)
    (listing : Text → Tables → Command → Result Error Effects) where
  abbrev pub Restorable : Tables → Type 0
  Restorable = IsRestorable out js listing

  expanded : (t : Tables) → Restorable t → IsExpanded out t.domains
  expanded t r = (
    r.distinct,
    All-of_In _ t.domains (λ e i.
        let ((sc, s, j, all), accepted) =
          r.domains e.0 e.1 (get-In e.0 e.1 t.domains r.distinct i) in
        (sc, s, j)),
  )

  with_domains :
      (t u : Tables)
      → u ≡ record t { domains = u.domains }
      → DistinctKeys u.domains
      → AllWhole out u.domains
      → IsLinked u
      → Restorable t
      → Restorable u
  with_domains t u q distinct whole linked r = record {
    distinct = distinct;
    domains = whole;
    keyed = subst IsKeyed (sym (ap (λ (x : Tables). x.rule_objects) q)) r.keyed;
    objects = λ o i. r.objects o (subst (In o) (ap (λ (x : Tables). x.rule_objects) q) i);
    linked = linked;
    bindings = λ b i. r.bindings b (subst (In b) (ap (λ (x : Tables). x.bindings) q) i);
  }

  pub write_domain-Restorable :
      (d : Db Tables) (c : Command)
      → ((k : Text) → out.write_error k ≡ none)
      → IsSpelled c
      → c.verb ≡ write
      → validate_domain out c ≡ none
      → Restorable d.rows
      → Restorable (write_domain out d c).0.rows
  write_domain-Restorable d c writes words v valid r =
      with_domains d.rows (write_domain out d c).0.rows
        (ap (λ (x : Db Tables). x.rows) (write_domain-Wrote out d c).only_domains)
        (write_domain-IsExpanded out d c (expanded d.rows r)).0
        (write_domain-AllWhole out d c writes words v valid r.domains)
        (write_domain-IsLinked out d c r.linked) r

  pub delete_domain-Restorable :
      (d : Db Tables) (c : Command)
      → ((k : Text) → out.delete_error k ≡ none)
      → Restorable d.rows
      → Restorable (delete_domain out d c).0.rows
  delete_domain-Restorable d c deletes r =
      with_domains d.rows (delete_domain out d c).0.rows
        (ap (λ (x : Db Tables). x.rows) (delete_domain-Removed out d c r.distinct).only_domains)
        (delete_domain-IsExpanded out d c (expanded d.rows r)).0
        (delete_domain-AllWhole out d c deletes r.distinct r.domains)
        (delete_domain-IsLinked out d c r.linked) r

  -- The tables with other objects.
  with_objects :
      (t : Tables) (os : List ObjectRow)
      → IsKeyed os
      → ((o : ObjectRow) → In o os → IsAcceptedObject out js listing o)
      → IsLinked (record t { rule_objects = os })
      → Restorable t
      → Restorable (record t { rule_objects = os })
  with_objects t os keyed accepted linked r = record {
    distinct = r.distinct;
    domains = r.domains;
    keyed = keyed;
    objects = accepted;
    linked = linked;
    bindings = r.bindings;
  }

  with_bindings :
      (t : Tables) (bs : List BindingRow)
      → IsLinked (record t { bindings = bs })
      → ((b : BindingRow) → In b bs → IsNamed b)
      → Restorable t
      → Restorable (record t { bindings = bs })
  with_bindings t bs linked named r = record {
    distinct = r.distinct;
    domains = r.domains;
    keyed = r.keyed;
    objects = r.objects;
    linked = linked;
    bindings = named;
  }

  pub delete_object-Restorable :
      (type name : Text) (d : Db Tables)
      → ReadsAll out
      → Restorable d.rows
      → Restorable (delete_object out type name d).0.rows
  delete_object-Restorable type name d whole r = elim (delete_object_cases out type name d whole) [
    | inl q ↦ subst Restorable (sym q) r
    | inr (z, q) ↦
        let keep = λ (o : ObjectRow). not (is_object type name o) in
        subst Restorable (sym q) (
          with_objects d.rows (filter keep d.rows.rule_objects)
            (filter-IsKeyed keep d.rows.rule_objects r.keyed)
            (λ o i. r.objects o (In-filter keep o d.rows.rule_objects i).0)
            (subst IsLinked q (delete_object-IsLinked out type name d whole r.linked)) r)
  ]

  pub delete_bind-Restorable :
      (d : Db Tables) (c : Command) → Restorable d.rows → Restorable (delete_bind out d c).0.rows
  delete_bind-Restorable d c r = elim (delete_bind_cases out d c) [
    | inl q ↦ subst Restorable (sym q) r
    | inr q ↦
        let keep = λ (b : BindingRow). not (is_unbound out c b) in
        subst Restorable (sym q) (
          with_bindings d.rows (filter keep d.rows.bindings)
            (subst IsLinked q (delete_bind-IsLinked out d c r.linked))
            (λ b i. r.bindings b (In-filter keep b d.rows.bindings i).0) r)
  ]

  pub write_bind-Restorable :
      (d : Db Tables) (c : Command)
      → c.verb ≡ write
      → validate_bind out c ≡ none
      → Restorable d.rows
      → Restorable (write_bind out d c).0.rows
  write_bind-Restorable d c v valid r = elim (write_bind_cases out d c) [
    | inl q ↦ subst Restorable (sym q) r
    | inr (x, q, a, e) ↦ subst Restorable (sym q) (
        with_bindings d.rows (upsert_binding x d.rows.bindings)
          (subst IsLinked q (write_bind-IsLinked out d c r.linked))
          (λ b i. elim (upsert_binding-In b x d.rows.bindings i) [
            | inl z ↦ subst IsNamed (sym z) (validate_bind-IsNamed out c x v valid e)
            | inr j ↦ r.bindings b j
          ])
          r)
  ]

  pub object_write-Restorable :
      (d : Db Tables) (c : Command) (g : Handler Tables)
      → out.write_error c.type ≡ none
      → IsSpelled c
      → c.verb ≡ write
      → object_handlers out js listing c.type ≡ some g
      → g.validate c ≡ none
      → Restorable d.rows
      → Restorable (g.write d c).0.rows
  object_write-Restorable d c g writes words v found valid r =
      let (json, message, q, there) =
        object_handlers-Stores out js listing c.type g found writes d c v valid in
      let row = object_row c.type c json d in
      let (p, ps, w, e) = words.2 in
      subst (λ (x : Db Tables × Result Error Effects). Restorable x.0.rows) (sym q)
        (with_objects d.rows (upsert_object row d.rows.rule_objects)
          (upsert_object-IsKeyed row d.rows.rule_objects r.keyed)
          (λ o i. elim (upsert_object-In row o d.rows.rule_objects i) [
            | inr j ↦ r.objects o j
            | inl z ↦ subst (IsAcceptedObject out js listing) (sym z) (
              g,
              p,
              ps,
              found,
              (words.0, (words.1, w)),
              e,
              object_handlers-spelled out js listing c g p ps found v e valid,
            )
          ])
          (λ b m. (
            any-upsert_object row b.object_type b.object_name d.rows.rule_objects (r.linked b m).0,
            (r.linked b m).1,
          ))
          r)
