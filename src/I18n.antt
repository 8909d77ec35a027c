-- ===== src/I18n.antt =====
-- internal/i18n/width.go: padding to a number of terminal columns.
pub mod Padding
pub mod Languages
use mesh_cdn.Base.{
  ltb, leb, if◌then◌else◌, replicate, Text, ℕ, ◌+◌, ◌-◌, Bool, not, ◌&&◌, ◌||◌, [], ◌∷◌, ◌++◌,
}

abbrev within : ℕ → ℕ → ℕ → Bool
within low high r = leb low r && leb r high

-- The ranges of the last case, in the order of the code.
abbrev pub is_wide : ℕ → Bool
is_wide r =
    within 0x1100 0x115F r
    || within 0x2E80 0x303E r
    || within 0x3041 0x33FF r
    || within 0x3400 0x4DBF r
    || within 0x4E00 0x9FFF r
    || within 0xA000 0xA4CF r
    || within 0xAC00 0xD7A3 r
    || within 0xF900 0xFAFF r
    || within 0xFE30 0xFE6F r
    || within 0xFF00 0xFF60 r
    || within 0xFFE0 0xFFE6 r
    || within 0x20000 0x3FFFD r

-- RuneWidth
unfoldable pub rune_width : ℕ → ℕ
rune_width r =
    if ltb r 0x20
    then 0
    else if ltb r 0x1100
    then 1
    else if within 0x0300 0x036F r
    then 0
    else if is_wide r
    then 2
    else 1

-- Width
unfoldable pub width : Text → ℕ
width [] = 0
width (r ∷ s) = rune_width r + width s

-- PadRight, for a width that is not negative.
unfoldable pub pad_right : Text → ℕ → Text
pad_right s columns = if ltb (width s) columns then s ++ replicate (columns - width s) 0x20 else s
