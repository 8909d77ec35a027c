-- ===== src/Command/Sync/Restore/DomainLines.antt =====
-- The lines `/w domain` of an export, replayed.
use mesh_cdn.Base.{
  Bool-cases, Option-cases, some-injective, ok-injective, Result, All, In, All-of_In, Text, text,
  same, same→eq, eq→same, join, is_space, ℕ, ◌≡◌, refl, sym, ap, ◌∙◌, subst, ◌⊎◌, inl, inr, Option,
  none, some, List, [], ◌∷◌, map, arith, ok,
}
use mesh_cdn.Base.Table.{get}
use mesh_cdn.Base.Words.{is_space-IsWord, IsWord}
use mesh_cdn.Command.Types.{write, Command, Error, Effects}
use mesh_cdn.Command.Parse.RoundTrip.{spelled}
use mesh_cdn.Command.Ports.Enforce.{no_faults}
use mesh_cdn.Command.Executor.{Db, Handler, Faults}
use mesh_cdn.Command.Handlers.{DomainRow, Tables, Outside}
use mesh_cdn.Command.Handlers.Scope.{DomainScope, canonicals, canonical_scope}
use mesh_cdn.Command.Handlers.Domain.{
  Domains, scope_of, find_conflict, validate_domain, write_domain, written, domain_handler,
}
use mesh_cdn.Command.Handlers.Anchors.{IsOwn}
use mesh_cdn.Command.Handlers.Ownership.{row_of, insert_rows-done, write_domain-Wrote}
use mesh_cdn.Command.Handlers.ObjectTypes.{Json}
use mesh_cdn.Command.Handlers.Registry.{new_registry}
use mesh_cdn.Command.Sync.{replay_one_in_tx_force}
use mesh_cdn.Command.Sync.Restore.{SameRow, DomainsWithin, IsWhole}
use mesh_cdn.Command.Sync.Restore.Lines.{replay_one-words, replay_command-rows, Step}
use mesh_cdn.Snapshot.Exporter.{domain_line}

pub In_cases : (k : Text) (ks : List Text) → In k ks ⊎ ¬ In k ks
In_cases k [] = inr (λ m. m)
In_cases k (j ∷ ks) = elim (Bool-cases (same k j)) [
  | inl e ↦ inl (inl (same→eq k j e))
  | inr e ↦ elim (In_cases k ks) [
    | inl m ↦ inl (inr m)
    | inr n ↦ inr (λ m. elim m [ inl q ↦ ground (arith, eq→same k j q) | inr i ↦ n i ])
  ]
]

-- `new` is `m` with the row at the keys, which have their like in `t`.
module _ (t m new : Domains) (ks : List Text) (row : DomainRow)
    (put_there : (k : Text) → In k ks → get k new ≡ some row)
    (apart : (k : Text) → ¬ In k ks → get k new ≡ get k m)
    (like : (k : Text) → In k ks → (r : DomainRow) × (get k t ≡ some r) × SameRow row r) where
  DomainsWithin-put : DomainsWithin t m → DomainsWithin t new
  DomainsWithin-put h k r g = elim (In_cases k ks) [
    | inl i ↦
        let (old, e, l) = like k i in
        (old, e, subst (λ x. SameRow x old) (some-injective (sym (put_there k i) ∙ g)) l)
    | inr n ↦ h k r (sym (apart k n) ∙ g)
  ]

  -- What is in the new table at a key of `t`, if the old one had it or the key is one of the keys.
  put-like :
      (k : Text) (r : DomainRow)
      → get k t ≡ some r
      → (¬ In k ks → (x : DomainRow) × (get k m ≡ some x) × SameRow r x)
      → (x : DomainRow) × (get k new ≡ some x) × SameRow r x
  put-like k r g h = elim (In_cases k ks) [
    | inl i ↦
        let (old, e, l) = like k i in
        let q : old ≡ r = some-injective (sym e ∙ g) in
        (row, put_there k i, subst (λ x. SameRow x row) q (sym l.0, sym l.1))
    | inr n ↦ let (x, e, l) = h n in (x, apart k n ∙ e, l)
  ]

module _ (out : Outside) (selects : (s : Text) → out.select_error s ≡ none)
    (writes : (s : Text) → out.write_error s ≡ none) where
  find_conflict_own :
      (display proto host : Text) (ps : List ℕ) (m : Domains)
      → All (IsOwn m display) (map (canonical_scope proto host) ps)
      → find_conflict out display (map (λ p. (p, canonical_scope proto host p)) ps) m ≡ none
  unfolding find_conflict
  find_conflict_own display proto host [] m h = refl
  find_conflict_own display proto host (p ∷ ps) m h =
      let k = canonical_scope proto host p in
      let rest = find_conflict_own display proto host ps m h.1 in
      elim (Option-cases (get k m)) [
        | inl e ↦ ground (arith, selects k, e, rest)
        | inr (row, e) ↦
            let z = eq→same row.display_scope display (h.0 row e) in
            ground (arith, selects k, e, rest, z)
      ]

  write_domain_own :
      (d : Db Tables) (c : Command) (sc : DomainScope)
      → scope_of out c.scope ≡ ok sc
      → All (IsOwn d.rows.domains c.scope) (canonicals sc)
      → (write_domain out d c).1 ≡ ok (written sc c.params)
  unfolding write_domain
  write_domain_own d c sc s h =
      let free = find_conflict_own c.scope sc.proto sc.host sc.ports d.rows.domains h in
      let fine = insert_rows-done out (row_of d c) (canonicals sc) d.rows.domains writes in
      ground (arith, s, free, fine)

module _ (t : Domains) where
  -- The rows of the scope are there.
  abbrev pub DomainStored : Text × Text → Tables → Type 0
  DomainStored (s, o) u =
      (k : Text) (row : DomainRow)
      → get k t ≡ some row
      → row.display_scope ≡ s
      → (x : DomainRow) × (get k u.domains ≡ some x) × SameRow row x

  abbrev pub DomainsOnly : Tables → Type 0
  DomainsOnly u = DomainsWithin t u.domains × (u.rule_objects ≡ []) × (u.bindings ≡ [])

-- Writing a scope of `t` on tables whose domains are of `t`.
module _ (out : Outside) (selects : (s : Text) → out.select_error s ≡ none)
    (writes : (s : Text) → out.write_error s ≡ none) (t : Domains)
    (whole : (k : Text) (row : DomainRow) → get k t ≡ some row → IsWhole out t k row) where
  module _ (key : Text) (row : DomainRow) (found : get key t ≡ some row) (d : Db Tables)
      (c : Command) (inv : DomainsOnly t d.rows) (scope : c.scope ≡ row.display_scope)
      (origin : c.params ≡ row.origin) where
    own : (j : Text) → In j (canonicals (whole key row found).0) → IsOwn d.rows.domains c.scope j
    own j i r g =
        let (old, e, l) = inv.0 j r g in
        let (r2, e2, l2) = (whole key row found).3 j i in
        let q : old ≡ r2 = some-injective (sym e ∙ e2) in
        l.0 ∙ ap (λ (x : DomainRow). x.display_scope) q ∙ sym l2.0 ∙ sym scope

    write_domain-Stored :
        ((write_domain out d c).1 ≡ ok (written (whole key row found).0 c.params))
        × DomainsOnly t (write_domain out d c).0.rows
        × DomainStored t (c.scope, c.params) (write_domain out d c).0.rows
        × ((b : Text × Text)
            → DomainStored t b d.rows
            → DomainStored t b (write_domain out d c).0.rows)
    write_domain-Stored =
        let (sc, s, i, all) = whole key row found in
        let s2 : scope_of out c.scope ≡ ok sc = ap (scope_of out) scope ∙ s in
        let done =
          write_domain_own out selects writes d c sc s2
            (All-of_In (IsOwn d.rows.domains c.scope) (canonicals sc) own) in
        let wrote = write_domain-Wrote out d c in
        let (sc2, s3, q, there, apart) = wrote.stored (written sc c.params) done in
        let same_scope : sc2 ≡ sc = ok-injective (sym s3 ∙ s2) in
        let m = d.rows.domains in
        let new = (write_domain out d c).0.rows.domains in
        let there2 : (k : Text) → In k (canonicals sc) → get k new ≡ some (row_of d c) =
          λ k z. there k (subst (λ x. In k (canonicals x)) (sym same_scope) z) in
        let apart2 : (k : Text) → ¬ In k (canonicals sc) → get k new ≡ get k m =
          λ k n. apart k (λ z. n (subst (λ x. In k (canonicals x)) same_scope z)) in
        let like : (k : Text)
            → In k (canonicals sc)
            → (r : DomainRow) × (get k t ≡ some r) × SameRow (row_of d c) r =
          λ k z. let (r, e, l) = all k z in (r, e, (scope ∙ l.0, origin ∙ l.1)) in
        let only = wrote.only_domains in
        (
          done,
          (
            DomainsWithin-put t m new (canonicals sc) (row_of d c) there2 apart2 like inv.0,
            ap (λ (x : Db Tables). x.rows.rule_objects) only ∙ inv.1,
            ap (λ (x : Db Tables). x.rows.bindings) only ∙ inv.2,
          ),
          λ k r g v.
              let (sc4, s4, i4, all4) = whole k r g in
              let z : sc4 ≡ sc = ok-injective (sym s4 ∙ ap (scope_of out) v ∙ s2) in
              put-like t m new (canonicals sc) (row_of d c) there2 apart2 like k r g
                (λ n. absurd (n (subst (λ x. In k (canonicals x)) z i4))),
          λ b stored k r g v.
              put-like t m new (canonicals sc) (row_of d c) there2 apart2 like k r g
                (λ n. stored k r g v),
        )

module _ (out : Outside) (js : Json) (listing : Text → Tables → Command → Result Error Effects)
    (others : Text → Option (Handler Tables)) where
  domain_registered :
      new_registry out js listing others (text "domain")
      ≡ some (domain_handler out (listing (text "domain")))
  unfolding new_registry same
  domain_registered = refl

  -- The line of a scope, replayed on tables whose domains are of `t`.
  pub domain_line-Step :
      (faults : Faults) (t : Domains) (key : Text) (row : DomainRow)
      → faults.ports ≡ no_faults
      → ((s : Text) → out.select_error s ≡ none)
      → ((s : Text) → out.write_error s ≡ none)
      → ((k : Text) (r : DomainRow) → get k t ≡ some r → IsWhole out t k r)
      → get key t ≡ some row
      → IsWord row.display_scope
      → IsWord row.origin
      → validate_domain out (spelled write (text "domain") row.display_scope row.origin []) ≡ none
      → Step
          (replay_one_in_tx_force (new_registry out js listing others) faults)
          domain_line
          (DomainsOnly t)
          (DomainStored t)
          (row.display_scope, row.origin)
  unfolding join is_space domain_handler
  domain_line-Step faults t key row sound selects writes whole found w v valid d inv =
      let c = spelled write (text "domain") row.display_scope row.origin [] in
      let registry = new_registry out js listing others in
      let (done, only, stored, stays) =
        write_domain-Stored out selects writes t whole key row found d c inv refl refl in
      let line =
        replay_one-words registry faults d (text "domain") row.display_scope row.origin []
          (is_space-IsWord _ _ refl, (w, (v, tt))) in
      let (q, fine) =
        replay_command-rows registry faults d c (domain_handler out (listing (text "domain")))
          (write_domain out d c).0 _ sound domain_registered valid
          (ap (λ r. ((write_domain out d c).0, r)) done) in
      let rows = ap (λ (r : Db Tables × Option Error). r.0.rows) line ∙ q in
      (
        ap (λ (r : Db Tables × Option Error). r.1) line ∙ fine,
        subst (DomainsOnly t) (sym rows) only,
        subst (DomainStored t (row.display_scope, row.origin)) (sym rows) stored,
        λ b s. subst (DomainStored t b) (sym rows) (stays b s),
      )
