-- ===== src/Snapshot/Exporter.antt =====
-- Exporter.Export of internal/snapshot/snapshot.go, and the membership that its snapshot declares.
pub mod Lines
pub mod Membership
use mesh_cdn.Base.{
  if◌then◌else◌, Result, Text, text, join, Bool, true, false, Option, none, some, List, [], ◌∷◌,
  ◌++◌, map, ok, err,
}
use mesh_cdn.Base.Decimal.{decimal_ℤ}
use mesh_cdn.Base.Int.{ℤ}
use mesh_cdn.Base.Time.{Time}
use mesh_cdn.Peers.{Peer}
use mesh_cdn.Snapshot.{Snapshot}

-- A query: it fails at once, or yields rows and ends, with or without an error.
pub data Query (A : Type 0) : Type 0 where
  no_rows : Text → Query A
  rows : List A → Option Text → Query A

-- The queries of an export. `bot_node` and `language` are `none` for NULL and for a failed query.
pub record Tables : Type 0 where
  pub config_version : Result Text ℤ
  pub peers : Query Peer
  pub bot_node : Option Text
  pub language : Option Text
  pub domains : Query (Text × Text)
  pub rule_objects : Query (Text × Text × Text)
  pub bindings : Query (Text × Text × Text)

abbrev pub spaced : List Text → Text
spaced words = join (text " ") words

abbrev pub peer_line : Peer → Text
peer_line p =
    spaced (text "/w" ∷ text "internal" ∷ text "peer-add" ∷ p.ip ∷ decimal_ℤ p.join_order ∷ [])

abbrev pub domain_line : Text × Text → Text
domain_line (scope, origin) = spaced (text "/w" ∷ text "domain" ∷ scope ∷ origin ∷ [])

abbrev pub object_line : Text × Text × Text → Text
object_line (type, name, params) = spaced (text "/w" ∷ type ∷ name ∷ params ∷ [])

abbrev pub binding_line : Text × Text × Text → Text
binding_line (scope, type, name) =
    spaced (text "/w" ∷ text "bind" ∷ scope ∷ (type ++ (text ":" ++ name)) ∷ [])

-- exportBotNode and exportLanguage.
abbrev pub setting_lines : Text → Option Text → List Text
setting_lines verb none = []
setting_lines verb (some []) = []
setting_lines verb (some (c ∷ v)) = spaced (text "/w" ∷ text "internal" ∷ verb ∷ (c ∷ v) ∷ []) ∷ []

-- The lines of a table, after those that are there. `optional` tables may be missing.
abbrev pub export_rows :
    {A : Type 0} → Bool → (A → Text) → Query A → List Text → Result Text (List Text)
export_rows optional line (no_rows e) lines = if optional then ok lines else err e
export_rows optional line (rows l (some e)) lines = err e
export_rows optional line (rows l none) lines = ok (lines ++ map line l)

abbrev pub and_then :
    Result Text (List Text) → (List Text → Result Text (List Text)) → Result Text (List Text)
and_then (err e) next = err e
and_then (ok lines) next = next lines

unfoldable pub export_lines : Tables → Result Text (List Text)
export_lines t =
    and_then
      (and_then
        (and_then (export_rows true peer_line t.peers []) (λ lines.
          export_rows false domain_line t.domains (
            (lines ++ setting_lines (text "set-bot") t.bot_node)
            ++ setting_lines (text "set-lang") t.language)))
        (export_rows true object_line t.rule_objects))
      (export_rows true binding_line t.bindings)

-- Export
unfoldable pub export_snapshot : Tables → Time → Text → Result Text Snapshot
export_snapshot t now program = elim t.config_version [
  | err e ↦ err e
  | ok v ↦ elim (export_lines t) [
    | err e ↦ err e
    | ok lines ↦ ok (record {
      header = record { version = v; exported_at = now; program = program };
      commands = lines;
    })
  ]
]
