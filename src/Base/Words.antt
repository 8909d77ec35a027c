-- ===== src/Base/Words.antt =====
-- strings.Fields, and what it makes of a text that is joined from words.
use mathlib.Core.List.{append_assoc, append-nil}
use mesh_cdn.Base.{
  Bool-cases, any, All, Text, text, join, is_space, ℕ, ◌≡◌, refl, sym, ap, ◌∙◌, ◌≢◌, inl, inr, true,
  false, List, [], ◌∷◌, ◌++◌, arith,
}

-- A finished word is put in front of the fields that follow; an empty one is none.
flush : Text → List Text → List Text
flush [] rest = rest
flush (c ∷ w) rest = (c ∷ w) ∷ rest

fields_from : Text → Text → List Text
unfolding flush
fields_from w [] = flush w []
fields_from w (c ∷ s) = elim (is_space c) [
  | true ↦ flush w (fields_from [] s)
  | false ↦ fields_from (w ++ c ∷ []) s
]

unfoldable pub fields : Text → List Text
unfolding fields_from is_space
fields s = fields_from [] s

-- A word is a text with no space in it, and is not empty.
abbrev pub IsWord : Text → Type 0
IsWord w = (w ≢ []) × All (λ c. is_space c ≡ false) w

All-spaceless : (w : Text) → any is_space w ≡ false → All (λ c. is_space c ≡ false) w
All-spaceless [] h = tt
All-spaceless (c ∷ w) h = (ground arith, All-spaceless w (ground arith))

-- The test that a text is a word, for texts that are written out.
pub is_space-IsWord : (c : ℕ) (w : Text) → any is_space (c ∷ w) ≡ false → IsWord (c ∷ w)
is_space-IsWord c w h = (λ e. cc, All-spaceless (c ∷ w) h)

flush_word : (w : Text) (rest : List Text) → w ≢ [] → flush w rest ≡ w ∷ rest
unfolding flush
flush_word [] rest h = absurd (h refl)
flush_word (c ∷ w) rest h = refl

fields_from-append :
    (w u s : Text)
    → All (λ c. is_space c ≡ false) u
    → fields_from w (u ++ s) ≡ fields_from (w ++ u) s
unfolding fields_from
fields_from-append w [] s h = rw append-nil
fields_from-append w (c ∷ u) s h =
    rw (h.0, fields_from) (fields_from-append (w ++ c ∷ []) u s h.1 ∙ rw append_assoc)

fields_from_word : (w : Text) → IsWord w → fields_from [] w ≡ w ∷ []
unfolding fields_from
fields_from_word w h =
    ap (fields_from []) (sym (append-nil w)) ∙ fields_from-append [] w [] h.1 ∙ flush_word w [] h.0

-- A word, a blank and a rest.
pub fields-blank : (w s : Text) → IsWord w → fields (w ++ (text " " ++ s)) ≡ w ∷ fields s
unfolding fields
fields-blank w s h =
    fields_from-append [] w (text " " ++ s) h.1 ∙ flush_word w (fields_from [] s) h.0

-- Words joined by blanks come apart into the same words.
pub fields-join :
    (w : Text) (ws : List Text)
    → IsWord w
    → All IsWord ws
    → fields (join (text " ") (w ∷ ws)) ≡ w ∷ ws
unfolding join
fields-join w [] h hs = unfold fields in fields_from_word w h
fields-join w (v ∷ ws) h hs = fields-blank w _ h ∙ ap (λ l. w ∷ l) (fields-join v ws hs.0 hs.1)

NoSpace-snoc :
    (w : Text) (c : ℕ)
    → All (λ d. is_space d ≡ false) w
    → is_space c ≡ false
    → All (λ d. is_space d ≡ false) (w ++ c ∷ [])
NoSpace-snoc [] c h e = (e, tt)
NoSpace-snoc (d ∷ w) c h e = (h.0, NoSpace-snoc w c h.1 e)

flush-IsWord :
    (w : Text) (rest : List Text)
    → All (λ d. is_space d ≡ false) w
    → All IsWord rest
    → All IsWord (flush w rest)
unfolding flush
flush-IsWord [] rest h r = r
flush-IsWord (c ∷ w) rest h r = ((λ e. cc, h), r)

fields_from-IsWord : (w s : Text) → All (λ d. is_space d ≡ false) w → All IsWord (fields_from w s)
unfolding fields_from
fields_from-IsWord w [] h = flush-IsWord w [] h tt
fields_from-IsWord w (c ∷ s) h = elim (Bool-cases (is_space c)) [
  | inl e ↦ rw (e, fields_from) (flush-IsWord w (fields_from [] s) h (fields_from-IsWord [] s tt))
  | inr e ↦ rw (e, fields_from) (fields_from-IsWord (w ++ c ∷ []) s (NoSpace-snoc w c h e))
]

-- Every field is a word.
pub fields-IsWord : (s : Text) → All IsWord (fields s)
unfolding fields
fields-IsWord s = fields_from-IsWord [] s tt
