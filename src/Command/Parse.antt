-- ===== src/Command/Parse.antt =====
-- Parse of internal/command/types.go.
pub mod RoundTrip
use mesh_cdn.Base.{
  if◌then◌else◌, Result, length, Text, text, same, is_empty, has_prefix, trim_prefix, join,
  trim_space, zero, Option, none, some, List, ◌∷◌, ◌++◌, ok, err,
}
use mesh_cdn.Base.Words.{fields}
use mesh_cdn.Command.Types.{
  Verb, write, delete, view, Lang, zh, Command, Message, Error, plain, empty_command, no_slash,
  segments, bad_verb,
}

-- The spelling of the three constants.
abbrev pub verb_text : Verb → Text
verb_text write = text "w"
verb_text delete = text "d"
verb_text view = text "v"

unfoldable pub verb_of : Text → Option Verb
unfolding same
verb_of s =
    if same s (text "w")
    then some write
    else if same s (text "d")
    then some delete
    else if same s (text "v")
    then some view
    else none

-- The four segments; the last one joins all fields from the fourth on.
unfoldable pub from_fields : Text → List Text → Result Error Command
unfolding verb_of join
from_fields line (v ∷ t ∷ s ∷ p ∷ ps) = elim (verb_of v) [
  | none ↦ err (plain (bad_verb v))
  | some verb ↦ ok (record {
    verb = verb;
    type = t;
    scope = s;
    params = join (text " ") (p ∷ ps);
    raw = text "/" ++ line;
    lang = zh;
  })
]
from_fields line short = err (plain (segments (length short)))

unfoldable pub parse_trimmed : Text → Result Error Command
unfolding from_fields fields
parse_trimmed line =
    if is_empty line
    then err (plain empty_command)
    else if has_prefix line (text "/")
    then (let rest = trim_prefix line (text "/") in from_fields rest (fields rest))
    else err (plain no_slash)

-- Parse. The field `Lang` is left at its zero value, which every reader takes for the default.
unfoldable pub parse : Text → Result Error Command
unfolding parse_trimmed trim_space
parse line = parse_trimmed (trim_space line)
