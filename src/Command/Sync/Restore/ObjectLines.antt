-- ===== src/Command/Sync/Restore/ObjectLines.antt =====
-- The lines of the rule objects of an export, replayed.
use mesh_cdn.Base.{
  Bool-cases, none-ne-some, Result, All, In, All-In, Text, text, same, same→eq, eq→same, join, ◌≡◌,
  refl, sym, ap, ◌∙◌, subst, ◌≢◌, ◌⊎◌, inl, inr, false, Option, none, some, List, [], ◌∷◌, arith,
}
use mesh_cdn.Command.Types.{write, Command, Error, Effects}
use mesh_cdn.Command.Parse.RoundTrip.{spelled}
use mesh_cdn.Command.Ports.Enforce.{no_faults}
use mesh_cdn.Command.Executor.{Db, Handler, Faults}
use mesh_cdn.Command.Handlers.{ObjectRow, Tables, Outside}
use mesh_cdn.Command.Handlers.Domain.{Domains}
use mesh_cdn.Command.Handlers.Objects.{is_object, set_objects, upsert_object}
use mesh_cdn.Command.Handlers.ObjectTypes.{Json, object_handlers}
use mesh_cdn.Command.Handlers.Acceptance.{object_row, object_handlers-Stores}
use mesh_cdn.Command.Handlers.Registry.{new_registry}
use mesh_cdn.Command.Sync.{replay_one_in_tx_force}
use mesh_cdn.Command.Sync.Restore.{object_content, Within, IsKeyed, IsAcceptedObject}
use mesh_cdn.Command.Sync.Restore.Lines.{replay_one-words, replay_command-rows, Step}
use mesh_cdn.Snapshot.Exporter.{object_line}

pub upsert_object-In :
    (o x : ObjectRow) (xs : List ObjectRow) → In x (upsert_object o xs) → (x ≡ o) ⊎ In x xs
unfolding upsert_object
upsert_object-In o x [] h = elim h [ inl e ↦ inl e | inr i ↦ absurd i ]
upsert_object-In o x (y ∷ xs) h = elim (Bool-cases (is_object o.type o.name y)) [
  | inl e ↦ elim (rw e at h) [ inl q ↦ inl q | inr i ↦ inr (inr i) ]
  | inr e ↦ elim (rw e at h) [
    | inl q ↦ inr (inl q)
    | inr i ↦ elim (upsert_object-In o x xs i) [ inl q ↦ inl q | inr j ↦ inr (inr j) ]
  ]
]

pub In-upsert_self : (o : ObjectRow) (xs : List ObjectRow) → In o (upsert_object o xs)
unfolding upsert_object
In-upsert_self o [] = inl refl
In-upsert_self o (y ∷ xs) = elim (Bool-cases (is_object o.type o.name y)) [
  | inl e ↦ rw e (inl refl)
  | inr e ↦ rw e (inr (In-upsert_self o xs))
]

-- A row stays, unless it has the key of the one that is written.
In-upsert_object :
    (o x : ObjectRow) (xs : List ObjectRow)
    → In x xs
    → In x (upsert_object o xs) ⊎ ((x.type ≡ o.type) × (x.name ≡ o.name))
unfolding upsert_object
In-upsert_object o x [] i = absurd i
In-upsert_object o x (y ∷ xs) i = elim (Bool-cases (is_object o.type o.name y)) [
  | inl e ↦ elim i [
    | inl q ↦
        inr (
          same→eq x.type o.type (ground (arith, e, q)),
          same→eq x.name o.name (ground (arith, e, q)),
        )
    | inr j ↦ inl (rw e (inr j))
  ]
  | inr e ↦ elim i [
    | inl q ↦ inl (rw e (inl q))
    | inr j ↦ elim (In-upsert_object o x xs j) [ inl z ↦ inl (rw e (inr z)) | inr z ↦ inr z ]
  ]
]

IsKeyed-differs :
    (o x : ObjectRow) (os : List ObjectRow)
    → All (λ y. is_object o.type o.name y ≡ false) os
    → In x os
    → x.type ≡ o.type
    → x.name ≢ o.name
IsKeyed-differs o x os h i e f =
    let n = All-In (λ y. is_object o.type o.name y ≡ false) x os h i in
    ground (arith, n, eq→same x.type o.type e, eq→same x.name o.name f)

-- A type and a name have one row.
keyed_row :
    (ts : List ObjectRow) (a b : ObjectRow)
    → IsKeyed ts
    → In a ts
    → In b ts
    → a.type ≡ b.type
    → a.name ≡ b.name
    → a ≡ b
keyed_row (o ∷ os) a b h (inl e) (inl f) t n = e ∙ sym f
keyed_row (o ∷ os) a b h (inl e) (inr j) t n = absurd (
    IsKeyed-differs o b os h.0 j (sym t ∙ ap (λ (x : ObjectRow). x.type) e)
      (sym n ∙ ap (λ (x : ObjectRow). x.name) e))
keyed_row (o ∷ os) a b h (inr i) (inl f) t n = absurd (
    IsKeyed-differs o a os h.0 i (t ∙ ap (λ (x : ObjectRow). x.type) f)
      (n ∙ ap (λ (x : ObjectRow). x.name) f))
keyed_row (o ∷ os) a b h (inr i) (inr j) t n = keyed_row os a b h.1 i j t n
keyed_row [] a b h i j t n = absurd i

module _ (ts : List ObjectRow) where
  abbrev pub ObjectStored : Text × Text × Text → Tables → Type 0
  ObjectStored e u = (x : ObjectRow) × In x u.rule_objects × (object_content x ≡ e)

  -- The objects are of `ts`, the domains are given, and no binding is there.
  abbrev pub ObjectsOnly : Domains → Tables → Type 0
  ObjectsOnly m u = Within object_content ts u.rule_objects × (u.domains ≡ m) × (u.bindings ≡ [])

  -- A table whose objects are of `ts`, which has one row for a key, after a row like one of `ts`.
  upsert_object-Stored :
      (o row : ObjectRow) (xs : List ObjectRow)
      → IsKeyed ts
      → In o ts
      → object_content row ≡ object_content o
      → Within object_content ts xs
      → Within object_content ts (upsert_object row xs)
        × ((e : Text × Text × Text)
            → (x : ObjectRow) × In x xs × (object_content x ≡ e)
            → (x : ObjectRow) × In x (upsert_object row xs) × (object_content x ≡ e))
  upsert_object-Stored o row xs unique m like h = (
    λ y i. elim (upsert_object-In row y xs i) [
      | inl q ↦ (o, m, ap object_content q ∙ like)
      | inr j ↦ h y j
    ],
    λ e (x, i, q). elim (In-upsert_object row x xs i) [
      | inl j ↦ (x, j, q)
      | inr (a, b) ↦
          let (old, k, z) = h x i in
          (
            row,
            In-upsert_self row xs,
            like
                ∙ ap object_content (
                    keyed_row ts o old unique m k
                      (ap (λ (t : Text × Text × Text). t.0) (sym like)
                        ∙ sym a
                        ∙ ap (λ (t : Text × Text × Text). t.0) z)
                      (ap (λ (t : Text × Text × Text). t.1) (sym like)
                        ∙ sym b
                        ∙ ap (λ (t : Text × Text × Text). t.1) z))
                ∙ sym z
                ∙ q,
          )
    ],
  )

module _ (out : Outside) (js : Json) (listing : Text → Tables → Command → Result Error Effects)
    (others : Text → Option (Handler Tables)) where
  pub no_object_handler :
      (type k : Text) (g : Handler Tables)
      → object_handlers out js listing type ≡ some g
      → object_handlers out js listing k ≡ none
      → same type k ≡ false
  no_object_handler type k g h n = elim (Bool-cases (same type k)) [
    | inr e ↦ e
    | inl e ↦
        absurd
          (none-ne-some (sym n ∙ ap (object_handlers out js listing) (sym (same→eq type k e)) ∙ h))
  ]

  pub object_registered :
      (type : Text) (g : Handler Tables)
      → object_handlers out js listing type ≡ some g
      → new_registry out js listing others type ≡ some g
  unfolding new_registry
  object_registered type g h =
      let a = no_object_handler type (text "domain") g h (unfold object_handlers same in refl) in
      let b = no_object_handler type (text "bind") g h (unfold object_handlers same in refl) in
      ground (arith, a, b, h)

  -- The line of an object of `ts`, replayed on tables whose objects are of `ts`.
  pub object_line-Step :
      (faults : Faults) (ts : List ObjectRow) (m : Domains) (o : ObjectRow)
      → faults.ports ≡ no_faults
      → ((s : Text) → out.write_error s ≡ none)
      → IsKeyed ts
      → In o ts
      → IsAcceptedObject out js listing o
      → Step
          (replay_one_in_tx_force (new_registry out js listing others) faults)
          object_line
          (ObjectsOnly ts m)
          (ObjectStored ts)
          (object_content o)
  unfolding join
  object_line-Step faults ts m o sound writes unique member accepted d inv =
      let (g, p, ps, found, words, params, valid) = accepted in
      let c = spelled write o.type o.name p ps in
      let registry = new_registry out js listing others in
      let (json, message, wrote, there) =
        object_handlers-Stores out js listing o.type g found (writes o.type) d c refl valid in
      let row = object_row o.type c json d in
      let like : object_content row ≡ object_content o =
        ap (λ (t : Text). (o.type, o.name, t)) (sym params) in
      let (within, stays) =
        upsert_object-Stored ts o row d.rows.rule_objects unique member like inv.0 in
      let line =
        ap
          (λ (t : Text). replay_one_in_tx_force registry faults d (object_line (o.type, o.name, t)))
          params
        ∙ replay_one-words registry faults d o.type o.name p ps words in
      let (q, fine) =
        replay_command-rows registry faults d c g
          (set_objects (upsert_object row d.rows.rule_objects) d) _ sound
          (object_registered o.type g found) valid wrote in
      let rows = ap (λ (r : Db Tables × Option Error). r.0.rows) line ∙ q in
      (
        ap (λ (r : Db Tables × Option Error). r.1) line ∙ fine,
        subst (ObjectsOnly ts m) (sym rows) (within, inv.1, inv.2),
        subst (ObjectStored ts (object_content o)) (sym rows)
            (row, In-upsert_self row d.rows.rule_objects, like),
        λ b s. subst (ObjectStored ts b) (sym rows) (stays b s),
      )
