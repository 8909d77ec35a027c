-- ===== src/Command/Types.antt =====
-- internal/command/types.go: verbs, commands, errors, effects and outcomes.
pub mod Merge
use mesh_cdn.Base.{
  if◌then◌else◌, Result, any, Text, text, same, is_empty, cut, ℕ, zero, Bool, true, false, ◌||◌,
  Option, none, some, List, [], ◌∷◌, ◌++◌, ok, err,
}
use mesh_cdn.Base.Int.{ℤ}
use mesh_cdn.Base.Words.{fields}

-- `Verb` is a string type of Go with these three constants; Parse lets no other through.
pub data Verb : Type 0 where
  write delete view : Verb

unfoldable pub is_mutating : Verb → Bool
is_mutating write = true
is_mutating delete = true
is_mutating view = false

-- i18n.Lang.
pub data Lang : Type 0 where
  zh en : Lang

pub record Command : Type 0 where
  pub verb : Verb
  pub type : Text
  pub scope : Text
  pub params : Text
  pub raw : Text
  pub lang : Lang

-- The error codes that the command system uses, from `ErrBadFormat` to `ErrInternal`.
pub data Code : Type 0 where
  bad_format unknown_type bad_params not_found confirm_required confirm_expired : Code
  confirm_unknown_id port_conflict cascade_blocked internal : Code

-- The message of an error, before it is formatted.
pub data Message : Type 0 where
  empty_line empty_command no_slash unknown_verb : Message
  segments : ℕ → Message
  bad_verb : Text → Message
  no_such_type : Text → Message
  port_taken : ℕ → Text → Text → Message
  key_value_expected duplicate_key : Text → Message
  driver : Text → Message
  other : Text → Message

-- `coded` is a `cmdErr` made by NewError; `plain` is any other error.
pub data Error : Type 0 where
  coded : Code → Message → Error
  plain : Message → Error

-- codeOf of executor.go.
unfoldable pub code_of : Error → Code
code_of (coded c m) = c
code_of (plain m) = internal

pub record Binding : Type 0 where
  pub port : ℕ
  pub protocol : Text

pub record FileAttachment : Type 0 where
  pub filename : Text
  pub content : List ℕ
  pub mime_hint : Text

-- An event of the event stream; its payload is opaque to this package.
pub record Event : Type 0 where
  pub type : Text
  pub payload : List (Text × Text)

pub record Effects : Type 0 where
  pub needs_nginx_reload : Bool
  pub needs_cert_reselect : List Text
  pub event_notifications : List Event
  pub port_protocol_bindings : List Binding
  pub force_version_bump : Bool
  pub purge_cache : Bool
  pub purge_cache_broadcast : Bool
  pub user_message : Text
  pub file_attachment : Option FileAttachment

-- The zero value `Effects{}`.
abbrev pub no_effects : Effects
no_effects = record {
  needs_nginx_reload = false;
  needs_cert_reselect = [];
  event_notifications = [];
  port_protocol_bindings = [];
  force_version_bump = false;
  purge_cache = false;
  purge_cache_broadcast = false;
  user_message = [];
  file_attachment = none;
}

abbrev raise : Bool → Bool → Bool
raise flag given = if given then true else flag

-- The message of the receiver, a line break between the two if both are there, and the other's.
abbrev pub join_messages : Text → Text → Text
join_messages mine [] = mine
join_messages [] theirs = theirs
join_messages mine theirs = mine ++ (text "\n" ++ theirs)

abbrev latest : Option FileAttachment → Option FileAttachment → Option FileAttachment
latest mine none = mine
latest mine (some file) = some file

-- Effects.Merge.
unfoldable pub merge : Effects → Effects → Effects
merge e o = record {
  needs_nginx_reload = raise e.needs_nginx_reload o.needs_nginx_reload;
  needs_cert_reselect = e.needs_cert_reselect ++ o.needs_cert_reselect;
  event_notifications = e.event_notifications ++ o.event_notifications;
  port_protocol_bindings = e.port_protocol_bindings ++ o.port_protocol_bindings;
  force_version_bump = raise e.force_version_bump o.force_version_bump;
  purge_cache = raise e.purge_cache o.purge_cache;
  purge_cache_broadcast = raise e.purge_cache_broadcast o.purge_cache_broadcast;
  user_message = join_messages e.user_message o.user_message;
  file_attachment = latest e.file_attachment o.file_attachment;
}

pub record Outcome : Type 0 where
  pub index : ℕ
  pub command : Option Command
  pub effects : Effects
  pub error : Option Error

-- BatchResult, without the field PendingConfirmations, which nothing fills.
pub record BatchResult : Type 0 where
  pub lang : Lang
  pub new_version : ℤ
  pub old_version : ℤ
  pub outcomes : List Outcome
  pub aggregated_effects : Effects

-- The three outcomes that the executor records: a line that is no command, a command that failed,
-- and one that succeeded.
abbrev pub rejected_line : ℕ → Error → Outcome
rejected_line i e = record { index = i; command = none; effects = no_effects; error = some e }

abbrev pub failed_command : ℕ → Command → Error → Outcome
failed_command i c e = record { index = i; command = some c; effects = no_effects; error = some e }

abbrev pub done_command : ℕ → Command → Effects → Outcome
done_command i c eff = record { index = i; command = some c; effects = eff; error = none }

abbrev pub failed : Outcome → Bool
failed o = elim o.error [ none ↦ false | some e ↦ true ]

-- BatchResult.AnyFailed.
unfoldable pub any_failed : BatchResult → Bool
any_failed r = any failed r.outcomes

-- ParseKeyValueParams. A key that is given twice is an error.
unfoldable pub has_key : Text → List (Text × Text) → Bool
has_key k [] = false
has_key k ((j, v) ∷ m) = same j k || has_key k m

unfoldable pub parse_tokens : List (Text × Text) → List Text → Result Error (List (Text × Text))
unfolding has_key
parse_tokens out [] = ok out
parse_tokens out (tok ∷ toks) = elim (cut 0x3D tok) [
  | none ↦ err (coded bad_params (key_value_expected tok))
  | some ([], val) ↦ err (coded bad_params (key_value_expected tok))
  | some (c ∷ key, val) ↦
      let rest = parse_tokens (out ++ (c ∷ key, val) ∷ []) toks in
      if has_key (c ∷ key) out then err (coded bad_params (duplicate_key (c ∷ key))) else rest
]

unfoldable pub parse_key_value_params : Text → Result Error (List (Text × Text))
unfolding parse_tokens fields
parse_key_value_params s =
    if same s (text "-") || is_empty s then ok [] else parse_tokens [] (fields s)
