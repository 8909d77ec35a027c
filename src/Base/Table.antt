-- ===== src/Base/Table.antt =====
-- A Go map with text keys, as an association list with one entry for each key.
use mesh_cdn.Base.{
  if◌then◌else◌, Bool-cases, All, In, All-In, Text, same, same→eq, same_refl, eq→same, same_iff,
  same-false, ◌≡◌, refl, ◌≢◌, inl, inr, Option, none, some, List, [], ◌∷◌, arith,
}

module _ {V : Type 0} where
  unfoldable pub get : Text → List (Text × V) → Option V
  unfolding same
  get k [] = none
  get k ((j, v) ∷ m) = if same j k then some v else get k m

  -- m[k] = v
  unfoldable pub put : Text → V → List (Text × V) → List (Text × V)
  unfolding same
  put k v [] = (k, v) ∷ []
  put k v ((j, w) ∷ m) = let rest = put k v m in if same j k then (j, v) ∷ m else (j, w) ∷ rest

  pub get-put_self : (k : Text) (v : V) (m : List (Text × V)) → get k (put k v m) ≡ some v
  unfolding get put
  get-put_self k v [] = ground (arith, same_refl k)
  get-put_self k v ((j, w) ∷ m) = ground (arith, get-put_self k v m)

  pub get-put_ne : (k j : Text) (v : V) (m : List (Text × V)) → k ≢ j → get j (put k v m) ≡ get j m
  unfolding get put
  get-put_ne k j v [] h = ground (arith, same_iff k j)
  get-put_ne k j v ((i, w) ∷ m) h =
      ground (arith, get-put_ne k j v m h, same_iff k j, same_iff i k, same_iff i j)

  -- No key stands in the table twice.
  abbrev pub DistinctKeys : List (Text × V) → Type 0
  DistinctKeys [] = Unit
  DistinctKeys ((k, v) ∷ m) = All (λ (e : Text × V). k ≢ e.0) m × DistinctKeys m

  All-put :
      (P : Text → Type 0) (k : Text) (v : V) (m : List (Text × V))
      → P k
      → All (λ (e : Text × V). P e.0) m
      → All (λ (e : Text × V). P e.0) (put k v m)
  unfolding put
  All-put P k v [] p h = (p, tt)
  All-put P k v ((j, w) ∷ m) p h = elim (Bool-cases (same j k)) [
    | inl e ↦ rw e h
    | inr e ↦ rw e (h.0, All-put P k v m p h.1)
  ]

  pub put-DistinctKeys :
      (k : Text) (v : V) (m : List (Text × V)) → DistinctKeys m → DistinctKeys (put k v m)
  unfolding put
  put-DistinctKeys k v [] d = (tt, tt)
  put-DistinctKeys k v ((j, w) ∷ m) d = elim (Bool-cases (same j k)) [
    | inl e ↦ rw e d
    | inr e ↦ rw e (
      All-put (λ i. j ≢ i) k v m (λ q. ground (arith, eq→same j k q)) d.0,
      put-DistinctKeys k v m d.1,
    )
  ]

  pub In-get : (k : Text) (v : V) (m : List (Text × V)) → get k m ≡ some v → In (k, v) m
  unfolding get
  In-get k v [] h = cc
  In-get k v ((j, w) ∷ m) h = elim (Bool-cases (same j k)) [
    | inl e ↦ inl (ground (arith, same→eq j k e))
    | inr e ↦ inr (In-get k v m (ground arith))
  ]

  pub get-In :
      (k : Text) (v : V) (m : List (Text × V)) → DistinctKeys m → In (k, v) m → get k m ≡ some v
  unfolding get
  get-In k v [] d h = absurd h
  get-In k v ((j, w) ∷ m) d (inl e) = ground (arith, same_refl j)
  get-In k v ((j, w) ∷ m) d (inr i) =
      let n = All-In (λ (e : Text × V). j ≢ e.0) (k, v) m d.0 i in
      rw (same-false j k n) (get-In k v m d.1 i)

  -- delete(m, k)
  unfoldable pub delete : Text → List (Text × V) → List (Text × V)
  unfolding same
  delete k [] = []
  delete k ((j, v) ∷ m) = let rest = delete k m in if same j k then rest else (j, v) ∷ rest

  pub get-delete_self : (k : Text) (m : List (Text × V)) → get k (delete k m) ≡ none
  unfolding get delete
  get-delete_self k [] = refl
  get-delete_self k ((j, v) ∷ m) = ground (arith, get-delete_self k m)

  pub get-delete_ne : (k j : Text) (m : List (Text × V)) → k ≢ j → get j (delete k m) ≡ get j m
  unfolding get delete
  get-delete_ne k j [] h = refl
  get-delete_ne k j ((i, v) ∷ m) h =
      ground (arith, get-delete_ne k j m h, same_iff k j, same_iff i k, same_iff i j)

  All-delete :
      (P : Text × V → Type 0) (k : Text) (m : List (Text × V)) → All P m → All P (delete k m)
  unfolding delete
  All-delete P k [] h = tt
  All-delete P k ((j, v) ∷ m) h = elim (Bool-cases (same j k)) [
    | inl e ↦ rw e (All-delete P k m h.1)
    | inr e ↦ rw e (h.0, All-delete P k m h.1)
  ]

  pub delete-DistinctKeys :
      (k : Text) (m : List (Text × V)) → DistinctKeys m → DistinctKeys (delete k m)
  unfolding delete
  delete-DistinctKeys k [] d = tt
  delete-DistinctKeys k ((j, v) ∷ m) d = elim (Bool-cases (same j k)) [
    | inl e ↦ rw e (delete-DistinctKeys k m d.1)
    | inr e ↦ rw e (All-delete (λ (e : Text × V). j ≢ e.0) k m d.0, delete-DistinctKeys k m d.1)
  ]
