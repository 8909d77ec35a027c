-- ===== src/Base/Assoc.antt =====
-- A table with a numeric primary key, as an association list: SELECT, INSERT of a key that is not
-- there, and UPDATE of one that is.
use mesh_cdn.Base.{◌==◌, if◌then◌else◌, ℕ, ◌≡◌, refl, ◌≢◌, Option, none, some, List, [], ◌∷◌, arith}

module _ {V : Type 0} where
  unfoldable pub lookup : ℕ → List (ℕ × V) → Option V
  lookup k [] = none
  lookup k ((j, v) ∷ m) = if j == k then some v else lookup k m

  unfoldable pub insert : ℕ → V → List (ℕ × V) → List (ℕ × V)
  insert k v m = (k, v) ∷ m

  unfoldable pub update : ℕ → V → List (ℕ × V) → List (ℕ × V)
  update k v [] = []
  update k v ((j, w) ∷ m) = (j, if j == k then v else w) ∷ update k v m

  pub lookup-insert :
      (k j : ℕ) (v : V) (m : List (ℕ × V))
      → lookup j (insert k v m) ≡ (if k == j then some v else lookup j m)
  unfolding lookup insert
  lookup-insert k j v m = refl

  pub lookup-update_self :
      (k : ℕ) (v w : V) (m : List (ℕ × V)) → lookup k m ≡ some w → lookup k (update k v m) ≡ some v
  unfolding lookup update
  lookup-update_self k v w [] h = cc
  lookup-update_self k v w ((j, u) ∷ m) h = ground (arith, lookup-update_self k v w m)

  pub lookup-update_ne :
      (k j : ℕ) (v : V) (m : List (ℕ × V)) → k ≢ j → lookup j (update k v m) ≡ lookup j m
  unfolding lookup update
  lookup-update_ne k j v [] h = refl
  lookup-update_ne k j v ((i, u) ∷ m) h = ground (arith, lookup-update_ne k j v m)
