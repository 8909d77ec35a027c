-- ===== src/Command/Parse/RoundTrip.antt =====
-- Printing a command and parsing it again.
use mathlib.Core.List.{append_assoc}
use mesh_cdn.Base.{
  Option-cases, All, Text, text, join, is_space, trim_right, trim_space, ◌≡◌, refl, sym, ap, ◌∙◌,
  inl, inr, some, List, [], ◌∷◌, ◌++◌, arith, ok,
}
use mesh_cdn.Base.Words.{is_space-IsWord, IsWord, fields, fields-join, fields-IsWord}
use mesh_cdn.Base.Trim.{trim_right-append_word, trim_space_idem}
use mesh_cdn.Command.Types.{Verb, write, delete, view, zh, Command}
use mesh_cdn.Command.Parse.{verb_text, verb_of, from_fields, parse_trimmed, parse}

-- The text of a command, as the snapshot exporter prints it.
abbrev pub render : Verb → Text → Text → Text → Text
render verb type scope params =
    text "/" ++ join (text " ") (verb_text verb ∷ type ∷ scope ∷ params ∷ [])

verb_text-IsWord : (v : Verb) → IsWord (verb_text v)
unfolding is_space
verb_text-IsWord write = is_space-IsWord _ _ refl
verb_text-IsWord delete = is_space-IsWord _ _ refl
verb_text-IsWord view = is_space-IsWord _ _ refl

verb_of-verb_text : (v : Verb) → verb_of (verb_text v) ≡ some v
unfolding verb_of
verb_of-verb_text write = refl
verb_of-verb_text delete = refl
verb_of-verb_text view = refl

-- The words that end in the last one of a list are not touched by trim_right.
join-ends :
    (w : Text) (ws : List Text)
    → IsWord w
    → All IsWord ws
    → (s u : Text) × (join (text " ") (w ∷ ws) ≡ s ++ u) × IsWord u
unfolding join
join-ends w [] h hs = ([], w, refl, h)
join-ends w (v ∷ ws) h hs =
    let (s, u, e, hu) = join-ends v ws hs.0 hs.1 in
    (w ++ (text " " ++ s), u, rw e (sym (append_assoc w (text " " ++ s) u)), hu)

trim_right-join :
    (w : Text) (ws : List Text)
    → IsWord w
    → All IsWord ws
    → trim_right (join (text " ") (w ∷ ws)) ≡ join (text " ") (w ∷ ws)
trim_right-join w ws h hs =
    let (s, u, e, hu) = join-ends w ws h hs in rw e (trim_right-append_word s u hu)

parse_slash :
    (line : Text)
    → trim_right line ≡ line
    → parse (text "/" ++ line) ≡ from_fields line (fields line)
unfolding parse
parse_slash line e = ap (λ l. from_fields l (fields l)) e

-- The command that four or more words spell.
abbrev pub spelled : Verb → Text → Text → Text → List Text → Command
spelled v t s p ps = record {
  verb = v;
  type = t;
  scope = s;
  params = join (text " ") (p ∷ ps);
  raw = text "/" ++ join (text " ") (verb_text v ∷ t ∷ s ∷ p ∷ ps);
  lang = zh;
}

from_fields_words :
    (line : Text) (v : Verb) (t s p : Text) (ps : List Text)
    → from_fields line (verb_text v ∷ t ∷ s ∷ p ∷ ps)
      ≡ ok (record (spelled v t s p ps) { raw = text "/" ++ line })
unfolding from_fields
from_fields_words line write t s p ps = refl
from_fields_words line delete t s p ps = refl
from_fields_words line view t s p ps = refl

pub parse_words :
    (v : Verb) (t s p : Text) (ps : List Text)
    → IsWord t
    → IsWord s
    → IsWord p
    → All IsWord ps
    → parse (text "/" ++ join (text " ") (verb_text v ∷ t ∷ s ∷ p ∷ ps)) ≡ ok (spelled v t s p ps)
parse_words v t s p ps ht hs hp hps =
    let line = join (text " ") (verb_text v ∷ t ∷ s ∷ p ∷ ps) in
    let words : All IsWord (t ∷ s ∷ p ∷ ps) = (ht, (hs, (hp, hps))) in
    let hv = verb_text-IsWord v in
    parse_slash line (trim_right-join (verb_text v) (t ∷ s ∷ p ∷ ps) hv words)
    ∙ ap (from_fields line) (fields-join (verb_text v) (t ∷ s ∷ p ∷ ps) hv words)
    ∙ from_fields_words line v t s p ps

-- `c` is spelled by words, and was parsed from `line`.
abbrev SpelledFrom : Text → Command → Type 0
SpelledFrom line c =
    (v : Verb) × (t s p : Text) × (ps : List Text) × All IsWord (t ∷ s ∷ p ∷ ps)
    × (c ≡ record (spelled v t s p ps) { raw = text "/" ++ line })

from_fields-eq_ok :
    (line : Text) (ws : List Text) (c : Command)
    → All IsWord ws
    → from_fields line ws ≡ ok c
    → SpelledFrom line c
unfolding from_fields
from_fields-eq_ok line [] c hw h = cc
from_fields-eq_ok line (a ∷ []) c hw h = cc
from_fields-eq_ok line (a ∷ b ∷ []) c hw h = cc
from_fields-eq_ok line (a ∷ b ∷ d ∷ []) c hw h = cc
from_fields-eq_ok line (a ∷ b ∷ d ∷ p ∷ ps) c hw h = elim (Option-cases (verb_of a)) [
  | inl e ↦ ground arith
  | inr (v, e) ↦ (v, b, d, p, ps, hw.1, ground arith)
]

parse_trimmed-eq_ok :
    (l : Text) (c : Command)
    → parse_trimmed l ≡ ok c
    → (line : Text) × (l ≡ text "/" ++ line) × (from_fields line (fields line) ≡ ok c)
unfolding parse_trimmed
parse_trimmed-eq_ok [] c h = cc
parse_trimmed-eq_ok (d ∷ l) c h = (l, ground arith, ground arith)

-- An accepted line: its trimmed text, and the words that it spells.
pub parse-eq_ok :
    (given : Text) (c : Command)
    → parse given ≡ ok c
    → (line : Text) × (trim_space given ≡ text "/" ++ line) × SpelledFrom line c
parse-eq_ok given c h =
    let (line, e, f) = parse_trimmed-eq_ok (trim_space given) c (unfold parse in h) in
    (line, e, from_fields-eq_ok line (fields line) c (fields-IsWord line) f)

pub parse-trim_space : (line : Text) → parse (trim_space line) ≡ parse line
unfolding parse
parse-trim_space line = ap parse_trimmed (trim_space_idem line)

-- A parsed command's text, as it is kept in `Raw`, parses to the same command; and the text that
-- the four segments are printed as parses to the same command with that text as its `Raw`.
pub parse-render :
    (line : Text) (c : Command)
    → parse line ≡ ok c
    → (parse c.raw ≡ ok c)
      × (parse (render c.verb c.type c.scope c.params)
          ≡ ok (record c { raw = render c.verb c.type c.scope c.params }))
unfolding join
parse-render line c h =
    let (l, e, w) = parse-eq_ok line c h in
    let (v, t, s, p, ps, hw, ec) = w in
    (
      ap parse (ap (λ (x : Command). x.raw) ec ∙ sym e) ∙ parse-trim_space line ∙ h,
      rw ec (parse_words v t s p ps hw.0 hw.1.0 hw.1.1.0 hw.1.1.1),
    )
