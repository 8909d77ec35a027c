-- ===== src/Base/Before.antt =====
-- `a < b` on strings: the order of the bytes, which for valid UTF-8 is that of the code points.
use mesh_cdn.Base.{ltb, ◌==◌, if◌then◌else◌, Text, ◌≡◌, refl, Bool, true, false, [], ◌∷◌, arith}

unfoldable pub before : Text → Text → Bool
before s [] = false
before [] (b ∷ t) = true
before (a ∷ s) (b ∷ t) = let rest = before s t in if a == b then rest else ltb a b

pub before-asym : (s t : Text) → before s t ≡ true → before t s ≡ false
unfolding before
before-asym s [] h = cc
before-asym [] (b ∷ t) h = refl
before-asym (a ∷ s) (b ∷ t) h = ground (arith, before-asym s t)

pub before_trans : (s t u : Text) → before t s ≡ false → before u t ≡ false → before u s ≡ false
unfolding before
before_trans [] t u h k = refl
before_trans (a ∷ s) [] u h k = cc
before_trans (a ∷ s) (b ∷ t) [] h k = cc
before_trans (a ∷ s) (b ∷ t) (c ∷ u) h k = ground (arith, before_trans s t u)
