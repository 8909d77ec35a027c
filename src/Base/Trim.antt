-- ===== src/Base/Trim.antt =====
-- What strings.TrimSpace leaves alone, and the fields of a text.

use mesh_cdn.Base.{
  All, Text, is_empty, is_space, trim_left, trim_right, trim_space, ◌≡◌, refl, ◌≢◌, false, [], ◌∷◌,
  ◌++◌, arith,
}
use mesh_cdn.Base.Words.{IsWord}

abbrev NoSpace : Text → Type 0
NoSpace w = All (λ c. is_space c ≡ false) w

pub trim_left_word : (w s : Text) → IsWord w → trim_left (w ++ s) ≡ w ++ s
unfolding trim_left
trim_left_word [] s h = absurd (h.0 refl)
trim_left_word (c ∷ w) s h = rw h.1.0

trim_right_word : (w : Text) → NoSpace w → trim_right w ≡ w
unfolding trim_right
trim_right_word [] h = refl
trim_right_word (c ∷ w) h = rw (h.0, trim_right_word w h.1)

not_empty : (s w : Text) → w ≢ [] → is_empty (s ++ w) ≡ false
not_empty [] [] h = absurd (h refl)
not_empty [] (c ∷ w) h = refl
not_empty (c ∷ s) w h = refl

pub trim_right-append_word : (s w : Text) → IsWord w → trim_right (s ++ w) ≡ s ++ w
unfolding trim_right
trim_right-append_word [] w h = trim_right_word w h.1
trim_right-append_word (c ∷ s) w h = ground (arith, trim_right-append_word s w h, not_empty s w h.0)

trim_left_idem : (s : Text) → trim_left (trim_left s) ≡ trim_left s
unfolding trim_left
trim_left_idem [] = refl
trim_left_idem (c ∷ s) = ground (arith, trim_left_idem s)

trim_right_idem : (s : Text) → trim_right (trim_right s) ≡ trim_right s
unfolding trim_right
trim_right_idem [] = refl
trim_right_idem (c ∷ s) = ground (arith, trim_right_idem s)

-- What trim_left leaves starts with no space, and trim_right does not take that character away.
trim_left-trim_right : (s : Text) → trim_left (trim_right (trim_left s)) ≡ trim_right (trim_left s)
unfolding trim_left trim_right
trim_left-trim_right [] = refl
trim_left-trim_right (c ∷ s) = ground (arith, trim_left-trim_right s)

pub trim_space_idem : (s : Text) → trim_space (trim_space s) ≡ trim_space s
unfolding trim_space
trim_space_idem s = rw trim_left-trim_right (trim_right_idem (trim_left s))
