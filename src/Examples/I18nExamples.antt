-- ===== src/Examples/I18nExamples.antt =====
-- A label of two wide characters, and a combining mark.
use mesh_cdn.Base.{text, ◌≡◌, refl}
use mesh_cdn.I18n.{rune_width, width, pad_right}

padded : pad_right (text "状态") 6 ≡ text "状态  "
unfolding pad_right width rune_width
padded = refl
