-- ===== src/Command/Ports/Enforce.antt =====
-- What EnforcePortBindings does to the table, with and without the force flag.
use mesh_cdn.Base.{
  ◌==◌, if◌then◌else◌, Option-cases, All, Text, same_iff, ℕ, ◌≡◌, refl, sym, ap, ◌∙◌, subst, ◌↔◌,
  inl, inr, Bool, true, false, Option, none, some, List, [], ◌∷◌, arith,
}
use mesh_cdn.Base.Assoc.{lookup, lookup-update_self, lookup-update_ne}
use mesh_cdn.Command.Types.{Binding, Error, port_conflict, code_of}
use mesh_cdn.Command.Ports.{Ports, PortFaults, enforce_one, enforce}

-- A port that is declared in the table is declared the same in the other.
abbrev pub Extends : Ports → Ports → Type 0
Extends t u = (p : ℕ) (v : Text) → lookup p t ≡ some v → lookup p u ≡ some v

-- The table declares the binding's protocol for its port.
abbrev pub Holds : Ports → Binding → Type 0
Holds t b = lookup b.port t ≡ some b.protocol

module _ (faults : PortFaults) where
  enforce_one-Extends : (b : Binding) (t : Ports) → Extends t (enforce_one faults false b t).0
  unfolding enforce_one
  enforce_one-Extends b t p v h = ground arith

  enforce_one-Holds :
      (force : Bool) (b : Binding) (t : Ports)
      → (enforce_one faults force b t).1 ≡ none
      → Holds (enforce_one faults force b t).0 b
  unfolding enforce_one
  enforce_one-Holds force b t h = elim (Option-cases (lookup b.port t)) [
    | inl e ↦ ground arith
    | inr (v, e) ↦ ground (arith, same_iff v b.protocol, lookup-update_self b.port b.protocol v t)
  ]

  -- The steps of a run that ends with no error.
  enforce-cons :
      (force : Bool) (b : Binding) (bs : List Binding) (t : Ports)
      → (enforce faults force (b ∷ bs) t).1 ≡ none
      → ((enforce_one faults force b t).1 ≡ none)
        × ((enforce faults force bs (enforce_one faults force b t).0).1 ≡ none)
        × (enforce faults force (b ∷ bs) t
            ≡ enforce faults force bs (enforce_one faults force b t).0)
  unfolding enforce
  enforce-cons force b bs t h = ground arith

  -- Without the force flag no port that is declared changes its protocol, whatever happens.
  enforce-Extends : (bs : List Binding) (t : Ports) → Extends t (enforce faults false bs t).0
  unfolding enforce
  enforce-Extends [] t p v h = h
  enforce-Extends (b ∷ bs) t p v h =
      let mid = enforce_one-Extends b t p v h in
      ground (arith, enforce-Extends bs (enforce_one faults false b t).0 p v mid)

  enforce-Holds :
      (bs : List Binding) (t : Ports)
      → (enforce faults false bs t).1 ≡ none
      → All (Holds (enforce faults false bs t).0) bs
  enforce-Holds [] t h = tt
  enforce-Holds (b ∷ bs) t h =
      let (one, rest, e) = enforce-cons false b bs t h in
      let t' = (enforce_one faults false b t).0 in
      let held = enforce_one-Holds false b t one in
      subst (λ (r : Ports × Option Error). All (Holds r.0) (b ∷ bs)) (sym e)
        (enforce-Extends bs t' b.port b.protocol held, enforce-Holds bs t' rest)

-- The driver fails on no statement.
abbrev pub no_faults : PortFaults
no_faults = record { select = λ p. false; insert = λ p. false; update = λ p. false }

enforce_one_consistent :
    (b : Binding) (t u : Ports)
    → Extends t u
    → Holds u b
    → ((enforce_one no_faults false b t).1 ≡ none) × Extends (enforce_one no_faults false b t).0 u
unfolding enforce_one
enforce_one_consistent b t u ext held = elim (Option-cases (lookup b.port t)) [
  | inl e ↦ (ground arith, λ p v h. ground (arith, ext p v))
  | inr (v, e) ↦ (
    ground (arith, same_iff v b.protocol, ext b.port v),
    λ p w h. ground (arith, ext p w, ext b.port v, same_iff v b.protocol),
  )
]

enforce_consistent :
    (bs : List Binding) (t u : Ports)
    → Extends t u
    → All (Holds u) bs
    → (enforce no_faults false bs t).1 ≡ none
unfolding enforce
enforce_consistent [] t u ext hs = refl
enforce_consistent (b ∷ bs) t u ext hs =
    let (one, ext') = enforce_one_consistent b t u ext hs.0 in
    ground (arith, enforce_consistent bs (enforce_one no_faults false b t).0 u ext' hs.1)

enforce-error :
    (bs : List Binding) (t : Ports) (x : Error)
    → (enforce no_faults false bs t).1 ≡ some x
    → code_of x ≡ port_conflict
unfolding enforce enforce_one code_of
enforce-error [] t x h = cc
enforce-error (b ∷ bs) t x h =
    ground (arith, enforce-error bs (enforce_one no_faults false b t).0 x)

-- Without the force flag, and if no statement fails, the check passes exactly when some table
-- keeps all that is declared and holds every given binding, that is, when no two of them give one
-- port two protocols. If it passes, the table that it leaves is such a one; if not, the error is a
-- port conflict.
pub enforce_iff :
    (bs : List Binding) (t : Ports)
    → (((enforce no_faults false bs t).1 ≡ none) ↔ ((u : Ports) × Extends t u × All (Holds u) bs))
      × ((enforce no_faults false bs t).1 ≡ none
          → Extends t (enforce no_faults false bs t).0
            × All (Holds (enforce no_faults false bs t).0) bs)
      × ((x : Error) → (enforce no_faults false bs t).1 ≡ some x → code_of x ≡ port_conflict)
enforce_iff bs t =
    let ext = enforce-Extends no_faults bs t in
    let held = enforce-Holds no_faults bs t in
    (
      (
        λ h. ((enforce no_faults false bs t).0, ext, held h),
        λ (u, e, hs). enforce_consistent bs t u e hs,
      ),
      λ h. (ext, held h),
      enforce-error bs t,
    )

-- The protocol that the last binding of a port gives it.
abbrev pub last_given : ℕ → List Binding → Option Text → Option Text
last_given p [] v = v
last_given p (b ∷ bs) v = last_given p bs (if b.port == p then some b.protocol else v)

enforce_one_forced :
    (b : Binding) (t : Ports) (p : ℕ)
    → ((enforce_one no_faults true b t).1 ≡ none)
      × (lookup p (enforce_one no_faults true b t).0
          ≡ (if b.port == p then some b.protocol else lookup p t))
unfolding enforce_one
enforce_one_forced b t p = elim (Option-cases (lookup b.port t)) [
  | inl e ↦ ground arith
  | inr (v, e) ↦ ground (
    arith,
    same_iff v b.protocol,
    lookup-update_self b.port b.protocol v t,
    lookup-update_ne b.port p b.protocol t,
  )
]

-- With the force flag, and if no statement fails, there is no conflict: the last binding of each
-- port wins, and a port that no binding names keeps what it had.
pub enforce_forced :
    (bs : List Binding) (t : Ports) (p : ℕ)
    → ((enforce no_faults true bs t).1 ≡ none)
      × (lookup p (enforce no_faults true bs t).0 ≡ last_given p bs (lookup p t))
unfolding enforce
enforce_forced [] t p = (refl, refl)
enforce_forced (b ∷ bs) t p =
    let (none_yet, e) = enforce_one_forced b t p in
    let (fine, rest) = enforce_forced bs (enforce_one no_faults true b t).0 p in
    let whole : (enforce no_faults true (b ∷ bs) t).1 ≡ none = ground arith in
    let step = (enforce-cons no_faults true b bs t whole).2 in
    (whole, ap (λ (r : Ports × Option Error). lookup p r.0) step ∙ rest ∙ ap (last_given p bs) e)
