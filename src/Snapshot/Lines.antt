-- ===== src/Snapshot/Lines.antt =====
-- How the lines of a snapshot are read.
use mathlib.Core.Path.{ap₂}
use mesh_cdn.Base.{
  All, Text, text, is_empty, has_prefix, contains, cut, split, is_space, trim_left, trim_right,
  trim_space, ◌≡◌, refl, sym, ap, ◌∙◌, false, Option, some, List, [], ◌∷◌, ◌++◌, append-nil,
  append_assoc, arith,
}
use mesh_cdn.Base.Numerals.{trim_space-word}
use mesh_cdn.Base.Time.{Time}
use mesh_cdn.Base.Trim.{trim_left_word, trim_right-append_word}
use mesh_cdn.Base.Words.{is_space-IsWord, IsWord}
use mesh_cdn.Snapshot.{
  Header, Snapshot, set_field, read_field, parse_header_line, parse_line_into, parse_lines,
  with_ends,
}

split-line : (s t : Text) → contains s 10 ≡ false → split 10 (s ++ 10 ∷ t) ≡ s ∷ split 10 t
unfolding split
split-line [] t h = refl
split-line (c ∷ s) t h = ground (arith, split-line s t)

cut-append : (s t : Text) → contains s 0x3A ≡ false → cut 0x3A (s ++ 0x3A ∷ t) ≡ some (s, t)
unfolding cut
cut-append [] t h = refl
cut-append (c ∷ s) t h = ground (arith, cut-append s t)

pub split-with_ends :
    (lines : List Text)
    → All (λ l. contains l 10 ≡ false) lines
    → split 10 (with_ends lines) ≡ lines ++ [] ∷ []
unfolding with_ends
split-with_ends [] h = unfold split in refl
split-with_ends (l ∷ lines) h =
    split-line l (with_ends lines) h.0 ∙ ap (λ ls. l ∷ ls) (split-with_ends lines h.1)

no_space-one_line : (w : Text) → All (λ c. is_space c ≡ false) w → contains w 10 ≡ false
unfolding is_space
no_space-one_line [] a = refl
no_space-one_line (c ∷ w) a = ground (arith, a.0, no_space-one_line w a.1)

pub IsWord-one_line : (w : Text) → IsWord w → contains w 10 ≡ false
IsWord-one_line w h = no_space-one_line w h.1

pub word-not_empty : (w : Text) → IsWord w → is_empty w ≡ false
word-not_empty [] h = absurd (h.0 refl)
word-not_empty (c ∷ w) h = refl

-- A line that is kept as a command.
pub record IsCommandLine (line : Text) : Type 0 where
  pub one_line : contains line 10 ≡ false
  pub not_blank : is_empty (trim_space line) ≡ false
  pub not_header : has_prefix (trim_space line) (text "#") ≡ false

trim_right-value :
    (s k v : Text)
    → IsWord v
    → trim_right (s ++ (k ++ (text ": " ++ v))) ≡ s ++ (k ++ (text ": " ++ v))
trim_right-value s k v h =
    let e : s ++ (k ++ (text ": " ++ v)) ≡ (s ++ (k ++ text ": ")) ++ v =
      rw (append_assoc, append_assoc) in
    ap trim_right e ∙ trim_right-append_word (s ++ (k ++ text ": ")) v h ∙ sym e

trim_space-blank :
    (w rest : Text) → IsWord w → trim_space (text " " ++ (w ++ rest)) ≡ trim_right (w ++ rest)
unfolding trim_space trim_left is_space
trim_space-blank w rest h = ap trim_right (trim_left_word w rest h)

trim_space-header :
    (k v : Text)
    → IsWord v
    → trim_space (text "# " ++ (k ++ (text ": " ++ v))) ≡ text "# " ++ (k ++ (text ": " ++ v))
unfolding trim_space trim_left is_space
trim_space-header k v h = trim_right-value (text "# ") k v h

trim_space-value : (v : Text) → IsWord v → trim_space (text " " ++ v) ≡ v
trim_space-value v h =
    ap (λ l. trim_space (text " " ++ l)) (sym (append-nil v))
    ∙ trim_space-blank v [] h
    ∙ ap trim_right (append-nil v)
    ∙ trim_right-append_word [] v h

pub version-IsWord : IsWord (text "version")
unfolding is_space
version-IsWord = is_space-IsWord _ _ refl

pub exported-IsWord : IsWord (text "exported")
unfolding is_space
exported-IsWord = is_space-IsWord _ _ refl

pub program-IsWord : IsWord (text "program")
unfolding is_space
program-IsWord = is_space-IsWord _ _ refl

module _ (parse_time : Text → Option Time) where
  parse_line_into-command :
      (line : Text) (snap : Snapshot)
      → IsCommandLine line
      → parse_line_into parse_time line snap ≡ record snap { commands = snap.commands ++ line ∷ [] }
  unfolding parse_line_into
  parse_line_into-command line snap h = ground (arith, h.not_blank, h.not_header)

  parse_line_into-comment :
      (line rest : Text) (snap : Snapshot)
      → trim_space line ≡ text "#" ++ rest
      → parse_line_into parse_time line snap
        ≡ record snap { header = parse_header_line parse_time (text "#" ++ rest) snap.header }
  unfolding parse_line_into
  parse_line_into-comment line rest snap e = rw e refl

  parse_header_line-body :
      (body rest : Text) (h : Header)
      → trim_space rest ≡ body
      → parse_header_line parse_time (text "#" ++ rest) h ≡ read_field parse_time (cut 0x3A body) h
  unfolding parse_header_line
  parse_header_line-body body rest h e = ap (λ t. read_field parse_time (cut 0x3A t) h) e

  -- A header line of a key and a value that are words.
  pub parse_line_into-header :
      (k v : Text) (snap : Snapshot)
      → IsWord k
      → contains k 0x3A ≡ false
      → IsWord v
      → parse_line_into parse_time (text "# " ++ (k ++ (text ": " ++ v))) snap
        ≡ record snap { header = set_field parse_time k v snap.header }
  parse_line_into-header k v snap hk colon hv =
      let value = text ": " ++ v in
      let body : trim_space (text " " ++ (k ++ value)) ≡ k ++ value =
        trim_space-blank k value hk ∙ trim_right-value [] k v hv in
      parse_line_into-comment (text "# " ++ (k ++ value)) (text " " ++ (k ++ value)) snap
        (trim_space-header k v hv)
      ∙ ap (λ h. record snap { header = h })
          (parse_header_line-body (k ++ value) (text " " ++ (k ++ value)) snap.header body
            ∙ ap (λ o. read_field parse_time o snap.header) (cut-append k (text " " ++ v) colon)
            ∙ ap₂ (λ a b. set_field parse_time a b snap.header) (trim_space-word k hk)
                (trim_space-value v hv))

  pub parse_lines-commands :
      (cs : List Text) (snap : Snapshot)
      → All IsCommandLine cs
      → parse_lines parse_time cs snap ≡ record snap { commands = snap.commands ++ cs }
  unfolding parse_lines
  parse_lines-commands [] snap h = simp append-nil
  parse_lines-commands (c ∷ cs) snap h =
      ap (parse_lines parse_time cs) (parse_line_into-command c snap h.0)
      ∙ parse_lines-commands cs (record snap { commands = snap.commands ++ c ∷ [] }) h.1
      ∙ ap (λ l. record snap { commands = l }) (append_assoc snap.commands (c ∷ []) cs)

  pub parse_lines-end :
      (ls : List Text) (snap : Snapshot)
      → parse_lines parse_time (ls ++ [] ∷ []) snap ≡ parse_lines parse_time ls snap
  unfolding parse_lines parse_line_into
  parse_lines-end [] snap = unfold trim_space in refl
  parse_lines-end (l ∷ ls) snap = parse_lines-end ls (parse_line_into parse_time l snap)
