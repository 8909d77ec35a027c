-- ===== src/Mesh/Coordinator/Notice.antt =====
-- A peer's notice of its version.
use mesh_cdn.Base.{
  if◌then◌else◌, Result-cases, Result, In, Text, ◌≡◌, refl, sym, ap, subst, ◌↔◌, inl, inr, Bool,
  true, false, ◌&&◌, Option, none, some, List, [], ◌∷◌, arith, ok, err,
}
use mesh_cdn.Base.Int.{ℤ, ltb_ℤ}
use mesh_cdn.Mesh.Coordinator.{Ahead, handle_notify_version}

handle_notify_version-ok :
    (local_version : ℤ → Result Text ℤ) (listens : Bool) (from_ip : Text) (version v : ℤ)
    → local_version version ≡ ok v
    → handle_notify_version (some local_version) listens from_ip version
      ≡ (none, if listens && ltb_ℤ v version then (from_ip, version) ∷ [] else [])
unfolding handle_notify_version
handle_notify_version-ok local_version listens from_ip version v e = ground arith

handle_notify_version-err :
    (local_version : ℤ → Result Text ℤ) (listens : Bool) (from_ip : Text) (version : ℤ) (x : Text)
    → local_version version ≡ err x
    → handle_notify_version (some local_version) listens from_ip version ≡ (some x, [])
unfolding handle_notify_version
handle_notify_version-err local_version listens from_ip version x e = ground arith

In-call :
    (test : Bool) (call expected : Ahead)
    → In call (if test then expected ∷ [] else []) ↔ ((test ≡ true) × (call ≡ expected))
In-call true call expected = (λ m. elim m [ inl q ↦ (refl, q) | inr z ↦ absurd z ], λ (t, q). inl q)
In-call false call expected = (λ m. absurd m, λ (t, q). cc)

-- A notice, with OnReceiveAhead set, is answered without an error exactly when the local version can
-- be read. OnRemoteAhead is then called if it is set and the local version is behind: once, with the
-- sender and its version. In all other cases it is not called.
pub handle_notify_version_iff :
    (local_version : ℤ → Result Text ℤ) (listens : Bool) (from_ip : Text) (version : ℤ)
    → (((handle_notify_version (some local_version) listens from_ip version).0 ≡ none)
        ↔ ((v : ℤ) × (local_version version ≡ ok v)))
      × ((call : Ahead)
          → In call (handle_notify_version (some local_version) listens from_ip version).1 ↔ (
              (listens ≡ true)
              × (call ≡ (from_ip, version))
              × ((v : ℤ) × (local_version version ≡ ok v) × (ltb_ℤ v version ≡ true))))
handle_notify_version_iff local_version listens from_ip version =
    elim (Result-cases (local_version version)) [
      | inl (v, e) ↦
          let q = handle_notify_version-ok local_version listens from_ip version v e in
          let told = In-call (listens && ltb_ℤ v version) in
          (
            (λ h. (v, e), λ h. ap (λ (r : Option Text × List Ahead). r.0) q),
            λ call. (
              λ m.
                  let (t, c) =
                    (told call (from_ip, version)).0
                      (subst (λ (r : Option Text × List Ahead). In call r.1) q m) in
                  (ground arith, c, (v, e, ground arith)),
              λ (l, c, (w, f, u)).
                  subst (λ (r : Option Text × List Ahead). In call r.1) (sym q)
                    ((told call (from_ip, version)).1 (ground arith, c)),
            ),
          )
      | inr (x, e) ↦
          let q = handle_notify_version-err local_version listens from_ip version x e in
          (
            (λ h. absurd (ground arith), λ (v, f). absurd (ground arith)),
            λ call. (
              λ m. absurd (subst (λ (r : Option Text × List Ahead). In call r.1) q m),
              λ (l, c, (w, f, u)). absurd (ground arith),
            ),
          )
    ]
