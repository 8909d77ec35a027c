-- ===== src/Nginx/Patterns.antt =====
-- patternToNginxLocation and pathPrecedence of internal/nginx/precedence.go.
use mesh_cdn.Base.{
  if◌then◌else◌, drop, Text, text, has_prefix, contains_any, trim_space, ℕ, Bool, not, [], ◌++◌,
}

-- A location: its modifier, its matcher, and its rank.
pub record Location : Type 0 where
  pub modifier : Text
  pub matcher : Text
  pub precedence : ℕ

abbrev at : Text → Text → ℕ → Location
at modifier matcher precedence = record {
  modifier = modifier;
  matcher = matcher;
  precedence = precedence;
}

unfoldable pub pattern_to_nginx_location : Text → Location
unfolding trim_space
pattern_to_nginx_location given =
    let pattern' = trim_space given in
    if has_prefix pattern' (text "= ")
    then at (text "=") (trim_space (drop 2 pattern')) 0
    else if has_prefix pattern' (text "^~ ")
    then at (text "^~") (trim_space (drop 3 pattern')) 1
    else if has_prefix pattern' (text "~ ")
    then at (text "~") (trim_space (drop 2 pattern')) 2
    else if has_prefix pattern' (text "~* ")
    then at (text "~*") (trim_space (drop 3 pattern')) 2
    else if has_prefix pattern' (text "*.")
    then at (text "~*") (text "\\." ++ (drop 2 pattern' ++ text "$")) 3
    else if has_prefix pattern' (text "/")
    then at [] pattern' 1
    else at (text "~*") (text "(^|/)" ++ (pattern' ++ text "$")) 3

unfoldable pub path_precedence : Text → Bool → ℕ
path_precedence from is_regex =
    if is_regex then 2 else if not (contains_any from (text "*?[]")) then 1 else 3
