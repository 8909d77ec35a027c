-- ===== src/I18n/Languages.antt =====
-- The languages of internal/i18n/i18n.go: Lang, Parse, DisplayName.
use mesh_cdn.Base.{
  leb, ◌==◌, if◌then◌else◌, any, Text, text, same, trim_space, ℕ, ◌+◌, ◌≡◌, refl, ◌↔◌, Bool, true,
  false, ◌&&◌, Option, none, some, List, [], ◌∷◌, map,
}
use mesh_cdn.Command.Types.{Lang, zh, en}

-- The runes that strings.ToLower turns into an ASCII letter.
abbrev lower : ℕ → ℕ
lower r =
    if leb 0x41 r && leb r 0x5A
    then r + 32
    else if r == 0x130
    then 0x69
    else if r == 0x212A
    then 0x6B
    else r

abbrev one_of : List Text → Text → Bool
one_of ks s = any (λ k. same k s) ks

-- Parse
unfoldable pub parse_lang : Text → Option Lang
unfolding trim_space same
parse_lang s =
    let t = map lower (trim_space s) in
    if one_of
      (text "cn" ∷ text "zh" ∷ text "zh-cn" ∷ text "zh_cn" ∷ text "chinese" ∷ text "中文" ∷ []) t
    then some zh
    else if one_of (text "en" ∷ text "en-us" ∷ text "en_us" ∷ text "eng" ∷ text "english" ∷ []) t
    then some en
    else none

-- Lang.String
abbrev pub lang_text : Lang → Text
lang_text zh = text "cn"
lang_text en = text "en"

-- Lang.DisplayName
abbrev pub display_name : Lang → Text
display_name zh = text "中文"
display_name en = text "English"

abbrev pub same_lang : Lang → Lang → Bool
same_lang zh zh = true
same_lang zh en = false
same_lang en zh = false
same_lang en en = true

-- The code that is stored for a language is read as that language.
pub parse_lang-lang_text : (l : Lang) → parse_lang (lang_text l) ≡ some l
unfolding parse_lang
parse_lang-lang_text zh = refl
parse_lang-lang_text en = refl

pub same_lang_iff : (a b : Lang) → (same_lang a b ≡ true) ↔ (a ≡ b)
same_lang_iff zh zh = (λ h. refl, λ h. refl)
same_lang_iff zh en = (λ h. cc, λ h. cc)
same_lang_iff en zh = (λ h. cc, λ h. cc)
same_lang_iff en en = (λ h. refl, λ h. refl)
