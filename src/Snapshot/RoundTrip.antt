-- ===== src/Snapshot/RoundTrip.antt =====
-- A snapshot's text reads back as the snapshot.

use mesh_cdn.Base.{
  if◌then◌else◌, All, All-map, Text, text, same, is_empty, contains, ℕ, ◌≤◌, ◌≡◌, refl, sym, ap,
  ◌∙◌, subst, ◌⊎◌, inl, inr, false, Option, some, List, [], ◌∷◌, ◌++◌,
}
use mesh_cdn.Base.Decimal.{decimal, decimal_ℤ, int_max, parse_int-decimal}
use mesh_cdn.Base.Int.{ℤ, pos}
use mesh_cdn.Base.Numerals.{decimal-IsWord}
use mesh_cdn.Base.Time.{Time}
use mesh_cdn.Base.Words.{IsWord}
use mesh_cdn.Snapshot.{
  Snapshot, parse_line_into, parse_lines, empty_snapshot, parse_text, text_lines, to_text,
}
use mesh_cdn.Snapshot.Lines.{
  split-with_ends, IsWord-one_line, word-not_empty, IsCommandLine, parse_line_into-header,
  parse_lines-commands, parse_lines-end, version-IsWord, exported-IsWord, program-IsWord,
}

-- The snapshot has the form that Export gives it.
pub record IsPrintable (format_time : Time → Text) (parse_time : Text → Option Time) (s : Snapshot)
    : Type 0 where
  pub number : ℕ
  pub version : s.header.version ≡ pos number
  pub version_fits : number ≤ int_max
  pub time_word : IsWord (format_time s.header.exported_at)
  pub time_back : parse_time (format_time s.header.exported_at) ≡ some s.header.exported_at
  pub program : (s.header.program ≡ []) ⊎ IsWord s.header.program
  pub commands : All IsCommandLine s.commands

module _ (format_time : Time → Text) (parse_time : Text → Option Time) where
  text_lines-one_line :
      (s : Snapshot)
      → IsPrintable format_time parse_time s
      → All (λ l. contains l 10 ≡ false) (text_lines format_time s)
  text_lines-one_line s h = (
    version_line s.header.version h.number h.version,
    (
      IsWord-one_line (format_time s.header.exported_at) h.time_word,
      elim h.program [ inl e ↦ rw e commands-one_line | inr w ↦ with_program w ],
    ),
  )
    where
      version_line : (v : ℤ) (n : ℕ) → v ≡ pos n → contains (decimal_ℤ v) 10 ≡ false
      version_line v n e = rw e (unfold decimal_ℤ in IsWord-one_line (decimal n) (decimal-IsWord n))

      commands-one_line : All (λ l. contains l 10 ≡ false) s.commands
      commands-one_line =
          All-map IsCommandLine (λ l. contains l 10 ≡ false) s.commands (λ l c. c.one_line)
            h.commands

      with_program :
          IsWord s.header.program
          → All
              (λ l. contains l 10 ≡ false)
              (if is_empty s.header.program
                then s.commands
                else (text "# program: " ++ s.header.program) ∷ s.commands)
      with_program w =
          rw (word-not_empty s.header.program w)
            (IsWord-one_line s.header.program w, commands-one_line)

  read_version :
      (n : ℕ) (snap : Snapshot)
      → n ≤ int_max
      → parse_line_into parse_time (text "# version: " ++ decimal n) snap
        ≡ record snap { header = record snap.header { version = pos n } }
  unfolding same
  read_version n snap h =
      parse_line_into-header parse_time (text "version") (decimal n) snap version-IsWord refl
        (decimal-IsWord n)
      ∙ rw (parse_int-decimal n h) refl

  read_time :
      (t : Time) (snap : Snapshot)
      → IsWord (format_time t)
      → parse_time (format_time t) ≡ some t
      → parse_line_into parse_time (text "# exported: " ++ format_time t) snap
        ≡ record snap { header = record snap.header { exported_at = t } }
  unfolding same
  read_time t snap w b =
      parse_line_into-header parse_time (text "exported") (format_time t) snap exported-IsWord refl
        w
      ∙ rw b refl

  read_program :
      (p : Text) (snap : Snapshot)
      → IsWord p
      → parse_line_into parse_time (text "# program: " ++ p) snap
        ≡ record snap { header = record snap.header { program = p } }
  unfolding same
  read_program p snap w =
      parse_line_into-header parse_time (text "program") p snap program-IsWord refl w

  parse_lines-rest :
      (p : Text) (cs : List Text) (snap : Snapshot)
      → snap.header.program ≡ []
      → (p ≡ []) ⊎ IsWord p
      → All IsCommandLine cs
      → parse_lines parse_time (if is_empty p then cs else (text "# program: " ++ p) ∷ cs) snap
        ≡ record { header = record snap.header { program = p }; commands = snap.commands ++ cs }
  unfolding parse_lines
  parse_lines-rest p cs snap q (inl e) h = rw e (
      parse_lines-commands parse_time cs snap h
      ∙ ap
          (λ x. record {
            header = record snap.header { program = x };
            commands = snap.commands ++ cs;
          })
          q)
  parse_lines-rest p cs snap q (inr w) h = rw (word-not_empty p w) (
      ap (parse_lines parse_time cs) (read_program p snap w)
      ∙ parse_lines-commands parse_time cs
          (record snap { header = record snap.header { program = p } }) h)

  abbrev rest_lines : Snapshot → List Text
  rest_lines s =
      if is_empty s.header.program
      then s.commands
      else (text "# program: " ++ s.header.program) ∷ s.commands

  version_read :
      (s : Snapshot)
      → IsPrintable format_time parse_time s
      → parse_line_into parse_time (text "# version: " ++ decimal_ℤ s.header.version) empty_snapshot
        ≡ record empty_snapshot {
          header = record empty_snapshot.header { version = s.header.version };
        }
  version_read s h =
      subst
        (λ v.
          parse_line_into parse_time (text "# version: " ++ decimal_ℤ v) empty_snapshot
          ≡ record empty_snapshot { header = record empty_snapshot.header { version = v } })
        (sym h.version) (unfold decimal_ℤ in read_version h.number empty_snapshot h.version_fits)

  -- A snapshot with a version that is not negative, a program name that is empty or has no space,
  -- and commands that are lines, not blank and no comments, reads back from its text unchanged; its
  -- time must be one that Format prints as one word and Parse reads back.
  pub parse_text-to_text :
      (s : Snapshot)
      → IsPrintable format_time parse_time s
      → parse_text parse_time (to_text format_time s) ≡ s
  unfolding parse_text to_text parse_lines
  parse_text-to_text s h =
      let lines = text_lines format_time s in
      let dated = record empty_snapshot.header { version = s.header.version } in
      ap (λ l. parse_lines parse_time l empty_snapshot)
        (split-with_ends lines (text_lines-one_line s h))
      ∙ parse_lines-end parse_time lines empty_snapshot
      ∙ ap
          (λ x. parse_lines parse_time (rest_lines s) (
            parse_line_into parse_time (text "# exported: " ++ format_time s.header.exported_at) x))
          (version_read s h)
      ∙ ap (parse_lines parse_time (rest_lines s)) (
          read_time s.header.exported_at (record empty_snapshot { header = dated }) h.time_word
            h.time_back)
      ∙ parse_lines-rest s.header.program s.commands
          (record empty_snapshot { header = record dated { exported_at = s.header.exported_at } })
          refl h.program h.commands
