-- ===== src/Logs/Lines.antt =====
-- The lines that a reader finds in a growing file.
use mesh_cdn.Base.{
  ◌==◌, if◌then◌else◌, Bool-cases, length, All, length-append, All-append, Text, ℕ, ◌+◌, ◌≡◌, refl,
  sym, ap, ◌∙◌, inl, inr, true, false, List, [], ◌∷◌, ◌++◌, append-nil, append_assoc,
}
use mesh_cdn.Logs.Collector.{newline, read_lines, size_of}

-- What has been read of a line when the file ends; `line` is what was read of it before.
unfoldable pub unfinished : Text → Text → Text
unfinished line [] = line
unfinished line (c ∷ s) =
    let next = unfinished [] s in
    let more = unfinished (line ++ c ∷ []) s in if c == newline then next else more

abbrev pub join_lines : List Text → Text
join_lines [] = []
join_lines (line ∷ lines) = line ++ join_lines lines

pub length-join_lines : (lines : List Text) → length (join_lines lines) ≡ size_of lines
length-join_lines [] = refl
length-join_lines (line ∷ lines) =
    length-append line (join_lines lines) ∙ ap (λ n. length line + n) (length-join_lines lines)

pub read_lines-append :
    (line s t : Text)
    → read_lines line (s ++ t) ≡ read_lines line s ++ read_lines (unfinished line s) t
unfolding read_lines unfinished
read_lines-append line [] t = refl
read_lines-append line (c ∷ s) t = elim (Bool-cases (c == newline)) [
  | inl e ↦ rw e (ap (λ ls. (line ++ c ∷ []) ∷ ls) (read_lines-append [] s t))
  | inr e ↦ rw e (read_lines-append (line ++ c ∷ []) s t)
]

pub unfinished-append :
    (line s t : Text) → unfinished line (s ++ t) ≡ unfinished (unfinished line s) t
unfolding unfinished
unfinished-append line [] t = refl
unfinished-append line (c ∷ s) t = elim (Bool-cases (c == newline)) [
  | inl e ↦ rw e (unfinished-append [] s t)
  | inr e ↦ rw e (unfinished-append (line ++ c ∷ []) s t)
]

-- The lines and the unfinished one are the text.
pub join_lines-read_lines :
    (line s : Text) → line ++ s ≡ join_lines (read_lines line s) ++ unfinished line s
unfolding read_lines unfinished
join_lines-read_lines line [] = append-nil line
join_lines-read_lines line (c ∷ s) = elim (Bool-cases (c == newline)) [
  | inl e ↦ rw e (
      sym (append_assoc line (c ∷ []) s)
      ∙ ap (λ u. (line ++ c ∷ []) ++ u) (join_lines-read_lines [] s)
      ∙ sym (append_assoc (line ++ c ∷ []) (join_lines (read_lines [] s)) (unfinished [] s)))
  | inr e ↦ rw e (sym (append_assoc line (c ∷ []) s) ∙ join_lines-read_lines (line ++ c ∷ []) s)
]

abbrev IsOpen : Text → Type 0
IsOpen line = All (λ c. (c == newline) ≡ false) line

-- A line that goes on.
read_lines-IsOpen :
    (m line t : Text) → IsOpen line → read_lines m (line ++ t) ≡ read_lines (m ++ line) t
unfolding read_lines
read_lines-IsOpen m [] t o = sym (ap (λ l. read_lines l t) (append-nil m))
read_lines-IsOpen m (c ∷ line) t o = rw o.0 (
    read_lines-IsOpen (m ++ c ∷ []) line t o.1
    ∙ ap (λ l. read_lines l t) (append_assoc m (c ∷ []) line))

unfinished-IsOpen :
    (m line t : Text) → IsOpen line → unfinished m (line ++ t) ≡ unfinished (m ++ line) t
unfolding unfinished
unfinished-IsOpen m [] t o = sym (ap (λ l. unfinished l t) (append-nil m))
unfinished-IsOpen m (c ∷ line) t o = rw o.0 (
    unfinished-IsOpen (m ++ c ∷ []) line t o.1
    ∙ ap (λ l. unfinished l t) (append_assoc m (c ∷ []) line))

-- A line with its end.
whole_line :
    (line t : Text) (c : ℕ)
    → IsOpen line
    → (c == newline) ≡ true
    → (read_lines [] ((line ++ c ∷ []) ++ t) ≡ (line ++ c ∷ []) ∷ read_lines [] t)
      × (unfinished [] ((line ++ c ∷ []) ++ t) ≡ unfinished [] t)
unfolding read_lines unfinished
whole_line line t c o e = (
  ap (read_lines []) (append_assoc line (c ∷ []) t)
      ∙ read_lines-IsOpen [] line (c ∷ t) o
      ∙ rw e refl,
  ap (unfinished []) (append_assoc line (c ∷ []) t)
      ∙ unfinished-IsOpen [] line (c ∷ t) o
      ∙ rw e refl,
)

-- The whole lines alone are read as the same lines.
pub read_lines-join_lines :
    (line s : Text)
    → IsOpen line
    → (read_lines [] (join_lines (read_lines line s)) ≡ read_lines line s)
      × (unfinished [] (join_lines (read_lines line s)) ≡ [])
unfolding read_lines unfinished
read_lines-join_lines line [] o = (refl, refl)
read_lines-join_lines line (c ∷ s) o = elim (Bool-cases (c == newline)) [
  | inl e ↦
      let w = whole_line line (join_lines (read_lines [] s)) c o e in
      let i = read_lines-join_lines [] s tt in
      rw e (w.0 ∙ ap (λ ls. (line ++ c ∷ []) ∷ ls) i.0, w.1 ∙ i.1)
  | inr e ↦ rw e (read_lines-join_lines (line ++ c ∷ []) s (All-append _ line (c ∷ []) o (e, tt)))
]

-- An unfinished line has no end.
pub unfinished-none : (line s : Text) → IsOpen line → read_lines [] (unfinished line s) ≡ []
unfolding read_lines unfinished
unfinished-none line [] o =
    sym (ap (read_lines []) (append-nil line)) ∙ read_lines-IsOpen [] line [] o
unfinished-none line (c ∷ s) o = elim (Bool-cases (c == newline)) [
  | inl e ↦ rw e (unfinished-none [] s tt)
  | inr e ↦ rw e (unfinished-none (line ++ c ∷ []) s (All-append _ line (c ∷ []) o (e, tt)))
]
