-- ===== src/Snapshot.antt =====
-- internal/snapshot/snapshot.go: the text of a snapshot, and the membership that it declares.
pub mod Lines
pub mod RoundTrip
pub mod Exporter
use mesh_cdn.Base.{
  if◌then◌else◌, Text, text, same, is_empty, has_prefix, trim_prefix, cut, split, trim_space,
  String, ◌&&◌, Option, none, some, List, [], ◌∷◌, ◌++◌, map,
}
use mesh_cdn.Base.Decimal.{decimal_ℤ, parse_int}
use mesh_cdn.Base.Int.{ℤ, pos}
use mesh_cdn.Base.Table.{put}
use mesh_cdn.Base.Time.{Time}
use mesh_cdn.Base.Words.{fields}

pub record Header : Type 0 where
  pub version : ℤ
  pub exported_at : Time
  pub program : Text

pub record Snapshot : Type 0 where
  pub header : Header
  pub commands : List Text

abbrev pub empty_snapshot : Snapshot
empty_snapshot = record {
  header = record { version = pos 0; exported_at = 0; program = [] };
  commands = [];
}

-- `parse_time` is time.Parse with the layout RFC3339.
module _ (parse_time : Text → Option Time) where
  abbrev pub set_field : Text → Text → Header → Header
  set_field key val h =
      if same key (text "version")
      then elim (parse_int val) [ none ↦ h | some v ↦ record h { version = v } ]
      else if same key (text "exported")
      then elim (parse_time val) [ none ↦ h | some t ↦ record h { exported_at = t } ]
      else if same key (text "program")
      then record h { program = val }
      else h

  -- What a header line says, once it is cut at its first colon.
  abbrev pub read_field : Option (Text × Text) → Header → Header
  read_field none h = h
  read_field (some (key, val)) h = set_field (trim_space key) (trim_space val) h

  -- parseHeaderLine
  unfoldable pub parse_header_line : Text → Header → Header
  parse_header_line line h = read_field (cut 0x3A (trim_space (trim_prefix line (text "#")))) h

  -- One line of ParseText.
  unfoldable pub parse_line_into : Text → Snapshot → Snapshot
  parse_line_into line snap =
      let trimmed = trim_space line in
      if is_empty trimmed
      then snap
      else if has_prefix trimmed (text "#")
      then record snap { header = parse_header_line trimmed snap.header }
      else record snap { commands = snap.commands ++ line ∷ [] }

  unfoldable pub parse_lines : List Text → Snapshot → Snapshot
  parse_lines [] snap = snap
  parse_lines (line ∷ lines) snap = parse_lines lines (parse_line_into line snap)

  -- ParseText
  unfoldable pub parse_text : Text → Snapshot
  parse_text t = parse_lines (split 10 t) empty_snapshot

-- Each line and its end.
unfoldable pub with_ends : List Text → Text
with_ends [] = []
with_ends (line ∷ lines) = line ++ (text "\n" ++ with_ends lines)

-- `format_time` is Format with the layout RFC3339, of a time in UTC.
module _ (format_time : Time → Text) where
  -- The lines of a snapshot's text.
  abbrev pub text_lines : Snapshot → List Text
  text_lines s =
      (text "# version: " ++ decimal_ℤ s.header.version)
      ∷ (text "# exported: " ++ format_time s.header.exported_at)
      ∷ (if is_empty s.header.program
          then s.commands
          else (text "# program: " ++ s.header.program) ∷ s.commands)

  -- Snapshot.String, which is also what SaveTo writes.
  unfoldable pub to_text : Snapshot → Text
  to_text s = with_ends (text_lines s)

-- The peer that a line declares.
abbrev pub peer_of_fields : List Text → Option (Text × ℤ)
peer_of_fields (w ∷ internal ∷ verb ∷ ip ∷ order ∷ rest) =
    if same w (text "/w") && (same internal (text "internal") && same verb (text "peer-add"))
    then elim (parse_int order) [ none ↦ none | some n ↦ some (ip, n) ]
    else none
peer_of_fields _ = none

unfoldable pub collect_peers : List (Text × ℤ) → List Text → List (Text × ℤ)
collect_peers out [] = out
collect_peers out (line ∷ lines) = elim (peer_of_fields (fields line)) [
  | none ↦ collect_peers out lines
  | some (ip, n) ↦ collect_peers (put ip n out) lines
]

-- The map, or nil if it is empty.
abbrev pub or_nil : List (Text × ℤ) → Option (List (Text × ℤ))
or_nil [] = none
or_nil (e ∷ es) = some (e ∷ es)

-- DeclaredPeers. `none` is the nil map: the snapshot says nothing of the membership.
unfoldable pub declared_peers : Snapshot → Option (List (Text × ℤ))
declared_peers s = or_nil (collect_peers [] s.commands)
