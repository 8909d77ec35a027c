-- ===== src/Command/Handlers.antt =====
-- The tables that the handlers of internal/command/handlers share, and what they take from outside.
pub mod Scope
pub mod Params
pub mod ParamParsers
pub mod Domain
pub mod Objects
pub mod ObjectTypes
pub mod Bind
pub mod Anchors
pub mod Links
pub mod Cases
pub mod Deletions
pub mod Removal
pub mod PortLists
pub mod CanonicalScopes
pub mod Ownership
pub mod Expansion
pub mod Integrity
pub mod AcceptedParams
pub mod Acceptance
pub mod Registry
pub mod Settings
pub mod Internal
use mesh_cdn.Base.{take, Text, text, same, ℕ, Bool, true, Option, List}
use mesh_cdn.Base.Int.{ℤ}
use mesh_cdn.Command.Types.{Message, other, Code, Command, Error, coded, Effects, no_effects}
use mesh_cdn.Command.Executor.{Db}

-- A row of `domains`, as all rows without its id and updated_at. Its key is the canonical scope of
-- one port.
pub record DomainRow : Type 0 where
  pub display_scope : Text
  pub origin : Text
  pub version : ℤ

-- A row of `rule_objects`.
pub record ObjectRow : Type 0 where
  pub type : Text
  pub name : Text
  pub params_text : Text
  pub parsed_json : Text
  pub version : ℤ

-- A row of `bindings`.
pub record BindingRow : Type 0 where
  pub scope : Text
  pub object_type : Text
  pub object_name : Text
  pub version : ℤ

pub record Tables : Type 0 where
  pub domains : List (Text × DomainRow)
  pub rule_objects : List ObjectRow
  pub bindings : List BindingRow

-- The errors of the driver, by the statement and by the canonical scope where it stands in a loop;
-- which rows an iteration over the references of an object reads, by their scope; net.ParseIP, the
-- errors of regexp.Compile and of strconv.Atoi, and the verbs %q and %U.
pub record Outside : Type 0 where
  pub select_error : Text → Option Text
  pub write_error : Text → Option Text
  pub delete_error : Text → Option Text
  pub is_read : Text → Bool
  pub is_ip : Text → Bool
  pub compile_error : Text → Option Text
  pub quote : Text → Text
  pub rune_text : ℕ → Text
  pub atoi_error : Text → Text

-- IsPlaceholder
abbrev pub is_placeholder : Text → Bool
is_placeholder s = same s (text "-")

-- NewError with a message.
abbrev pub error : Code → Text → Error
error c m = coded c (other m)

abbrev pub reply : Text → Effects
reply m = record no_effects { user_message = m }

abbrev pub reload : Text → Effects
reload m = record no_effects { needs_nginx_reload = true; user_message = m }
