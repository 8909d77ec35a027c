-- ===== src/Command/Executor.antt =====
-- ExecuteBatch of internal/command/executor.go: one transaction for a batch of lines.

pub mod Outcomes
pub mod Transaction
pub mod Commit
pub mod Versions
pub mod Conflicts
pub mod Notices
pub mod Keeping
use mesh_cdn.Base.{
  ◌==◌, if◌then◌else◌, Result, Text, text, same, is_empty, has_prefix, split, trim_space, ℕ, suc,
  Bool, true, false, not, ◌&&◌, ◌||◌, Option, none, some, List, [], ◌∷◌, ◌++◌, map, ok, err,
}
use mesh_cdn.Base.Int.{ℤ, suc_ℤ}
use mesh_cdn.Peers.{Peer}
use mesh_cdn.Command.Types.{
  Verb, write, delete, view, is_mutating, Lang, Command, Error, coded, plain, bad_format,
  empty_line, no_such_type, Binding, Effects, no_effects, merge, Outcome, rejected_line,
  failed_command, done_command, BatchResult,
}
use mesh_cdn.Command.Parse.{parse}
use mesh_cdn.Command.Ports.{Ports, PortFaults, enforce}
use mesh_cdn.Command.Aftermath.{Services, Action, apply_effects}

-- The database. `rows` are the tables that only the handlers read and write (domains, rule_objects,
-- bindings); the language and the bot override of cluster_meta belong to `rows` as well.
pub record Db (T : Type 0) : Type 0 where
  pub rows : T
  pub ports : Ports
  pub config_version : ℤ
  pub peers : List Peer

-- The interface Handler, without Type and PrimaryKey, which the executor does not call. A method
-- may write to the transaction before it fails.
pub record Handler (T : Type 0) : Type 0 where
  pub validate : Command → Option Error
  pub write : Db T → Command → Db T × Result Error Effects
  pub delete : Db T → Command → Db T × Result Error Effects
  pub view : Db T → Command → Db T × Result Error Effects

-- Which of the driver's calls fail in this batch.
pub record Faults : Type 0 where
  pub begin : Bool
  pub read_version : Bool
  pub bump : Bool
  pub commit : Bool
  pub ports : PortFaults

-- strings.ReplaceAll(s, "\r\n", "\n").
unfoldable pub replace_crlf : Text → Text
replace_crlf [] = []
replace_crlf (c ∷ s) =
    let rest = replace_crlf s in if c == 13 && has_prefix s (text "\n") then rest else c ∷ rest

unfoldable pub split_lines : Text → List Text
unfolding replace_crlf split
split_lines s = split 10 (replace_crlf s)

-- One line of the first loop: the command, stamped with the language of the request.
unfoldable pub parse_line : Lang → Text → Result Error Command
unfolding trim_space parse
parse_line lang line =
    if is_empty (trim_space line)
    then err (coded bad_format empty_line)
    else elim (parse line) [ err e ↦ err e | ok c ↦ ok (record c { lang = lang }) ]

-- What the second loop carries from line to line.
pub record Batch (T : Type 0) : Type 0 where
  pub tx : Db T
  pub outcomes : List Outcome
  pub aggregated : Effects
  pub any_succeeded : Bool
  pub any_mutation_succeeded : Bool
  pub all_port_bindings : List Binding

abbrev pub start : {T : Type 0} → Db T → Batch T
start d = record {
  tx = d;
  outcomes = [];
  aggregated = no_effects;
  any_succeeded = false;
  any_mutation_succeeded = false;
  all_port_bindings = [];
}

-- The end of a round for a command: its outcome, and what a success adds.
unfoldable pub record_outcome :
    {T : Type 0} → ℕ → Command → Db T × Result Error Effects → Batch T → Batch T
record_outcome i c (d, err e) s = record s {
  tx = d;
  outcomes = s.outcomes ++ failed_command i c e ∷ [];
}
record_outcome i c (d, ok eff) s = record {
  tx = d;
  outcomes = s.outcomes ++ done_command i c eff ∷ [];
  aggregated = merge s.aggregated eff;
  any_succeeded = true;
  any_mutation_succeeded = if is_mutating c.verb then true else s.any_mutation_succeeded;
  all_port_bindings = s.all_port_bindings ++ eff.port_protocol_bindings;
}

abbrev pub is_bumped : {T : Type 0} → Batch T → Bool
is_bumped s = s.any_mutation_succeeded || s.aggregated.force_version_bump

-- The transaction after the version bump, if there is one.
abbrev pub bumped_tx : {T : Type 0} → Batch T → Db T
bumped_tx s =
    if is_bumped s then record s.tx { config_version = suc_ℤ s.tx.config_version } else s.tx

abbrev pub dispatch : {T : Type 0} → Verb → Handler T → Db T → Command → Db T × Result Error Effects
dispatch write h d c = h.write d c
dispatch delete h d c = h.delete d c
dispatch view h d c = h.view d c

module _ (faults : Faults) (forced : Bool) where
  -- The bindings that a command reports are enforced in the same transaction.
  unfoldable pub enforced : {T : Type 0} → Db T → Effects → Db T × Result Error Effects
  unfolding enforce
  enforced d eff = elim eff.port_protocol_bindings [
    | [] ↦ (d, ok eff)
    | b ∷ bs ↦
        let (t, e) = enforce faults.ports forced (b ∷ bs) d.ports in
        (record d { ports = t }, elim e [ none ↦ ok eff | some x ↦ err x ])
  ]

module _ {T : Type 0} (registry : Text → Option (Handler T)) (faults : Faults) (forced : Bool) where
  -- From the lookup of the handler to the point where the outcome is a success.
  unfoldable pub perform : Db T → Command → Db T × Result Error Effects
  unfolding enforced
  perform d c = elim (registry c.type) [
    | none ↦ (d, err (plain (no_such_type c.type)))
    | some h ↦ elim (h.validate c) [
      | some e ↦ (d, err e)
      | none ↦
          let (d', r) = dispatch c.verb h d c in
          elim r [ err e ↦ (d', err e) | ok eff ↦ enforced faults forced d' eff ]
    ]
  ]

  -- One round of the second loop.
  unfoldable pub step : ℕ → Result Error Command → Batch T → Batch T
  unfolding perform record_outcome
  step i (err e) s = record s { outcomes = s.outcomes ++ rejected_line i e ∷ [] }
  step i (ok c) s = record_outcome i c (perform s.tx c) s

  unfoldable pub rounds : ℕ → List (Result Error Command) → Batch T → Batch T
  unfolding step
  rounds i [] s = s
  rounds i (r ∷ rs) s = rounds (suc i) rs (step i r s)

  unfoldable pub run_lines : Lang → Text → Db T → Batch T
  unfolding rounds parse_line split_lines
  run_lines lang batch d = rounds 0 (map (parse_line lang) (split_lines batch)) (start d)

  -- The end of ExecuteBatch, from the version bump on.
  unfoldable pub finish :
      Services → Lang → Db T → Batch T → Db T × Result Text BatchResult × List Action
  finish services lang d s =
      if is_bumped s && faults.bump
      then (d, err (text "bump version"), [])
      else if s.any_succeeded && faults.commit
      then (d, err (text "commit"), [])
      else let version = if is_bumped s then (bumped_tx s).config_version else d.config_version in
        let (effects, actions) = apply_effects services s.aggregated (is_bumped s) version in
        (
          if s.any_succeeded then bumped_tx s else d,
          ok (record {
            lang = lang;
            new_version = version;
            old_version = d.config_version;
            outcomes = s.outcomes;
            aggregated_effects = effects;
          }),
          actions,
        )

  -- ExecuteBatch: the database afterwards, the result or the error, and what the effects did.
  unfoldable pub execute_batch :
      Services → Lang → Text → Db T → Db T × Result Text BatchResult × List Action
  execute_batch services lang batch d =
      if faults.begin
      then (d, err (text "begin tx"), [])
      else if faults.read_version
      then (d, err (text "read config_version"), [])
      else finish services lang d (run_lines lang batch d)
