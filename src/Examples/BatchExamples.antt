-- ===== src/Examples/BatchExamples.antt =====
-- Batches on a small registry: one handler that lists the scopes it was given.
use mesh_cdn.Base.Int.{ℤ, pos, suc_ℤ}
use mesh_cdn.Base.{
  if◌then◌else◌, Bool-cases, any, In, Text, text, same, ◌≡◌, refl, subst, inl, inr, true, false,
  Option, none, some, List, [], ◌∷◌, ◌++◌, map, arith, ok,
}
use mesh_cdn.Command.Types.{
  is_mutating, write, view, zh, Command, Error, Effects, no_effects, merge, BatchResult,
  failed_command, done_command, coded, port_conflict, port_taken,
}
use mesh_cdn.Command.Ports.{enforce}
use mesh_cdn.Command.Ports.Enforce.{no_faults}
use mesh_cdn.Command.Aftermath.{
  notify_peers, Services, apply_effects, stages, apply_nginx, announce,
}
use mesh_cdn.Command.Executor.{
  Db, Handler, Faults, split_lines, parse_line, perform, enforced, record_outcome, run_lines,
  finish, execute_batch,
}
use mesh_cdn.Command.Executor.Outcomes.{succeeded}
use mesh_cdn.Command.Executor.Transaction.{tx_after, outcomes_from}
use mesh_cdn.Command.Executor.Commit.{after, actions, lines, execute_batch_commits}
use mesh_cdn.Command.Executor.Versions.{KeepsVersion, calls_for_bump, execute_batch_version}
use mesh_cdn.Command.Executor.Notices.{execute_batch_tells}
use mesh_cdn.Command.Executor.Conflicts.{Refused, Refused-rows_stay}

-- The rows are the scopes. A write of params "http" or "https" declares that for port 443.
abbrev Rows : Type 0
Rows = List Text

abbrev declared : Command → Effects
declared c = record no_effects {
  port_protocol_bindings = record { port = 443; protocol = c.params } ∷ [];
}

abbrev scopes : Handler Rows
scopes = record {
  validate = λ c. none;
  write = λ d c. (record d { rows = d.rows ++ c.scope ∷ [] }, ok (declared c));
  delete = λ d c. (record d { rows = [] }, ok no_effects);
  view = λ d c. (d, ok no_effects);
}

abbrev registry : Text → Option (Handler Rows)
registry t = if same t (text "domain") then some scopes else none

abbrev pub quiet : Faults
quiet = record {
  begin = false;
  read_version = false;
  bump = false;
  commit = false;
  ports = no_faults;
}

abbrev pub bare : Services
bare = record {
  has_cert_store = false;
  nginx_config_dir = [];
  default_output_dir = [];
  cache_dir = [];
  snapshot_path = [];
  notifies_peers = true;
  broadcast_exec = none;
  generate = none;
  validate_and_reload = λ path. none;
  read_dir = λ path. ok [];
  remove_all = λ path. none;
  export = none;
  save = none;
}

abbrev db : Db Rows
db = record {
  rows = text "a" ∷ [];
  ports = (443, text "https") ∷ [];
  config_version = pos 4;
  peers = [];
}

abbrev batch : Text
batch = text "/w domain b http\n/v domain b -"

abbrev refused_command : Command
refused_command = record {
  verb = write;
  type = text "domain";
  scope = text "b";
  params = text "http";
  raw = text "/w domain b http";
  lang = zh;
}

abbrev view_command : Command
view_command = record {
  verb = view;
  type = text "domain";
  scope = text "b";
  params = text "-";
  raw = text "/v domain b -";
  lang = zh;
}

parsed : map (parse_line zh) (split_lines batch) ≡ ok refused_command ∷ ok view_command ∷ []
unfolding parse_line split_lines
parsed = refl

abbrev conflict : Error
conflict = coded port_conflict (port_taken 443 (text "https") (text "http"))

abbrev report : BatchResult
report = record {
  lang = zh;
  new_version = pos 4;
  old_version = pos 4;
  outcomes =
      failed_command 0 refused_command conflict ∷ done_command 1 view_command no_effects ∷ [];
  aggregated_effects = no_effects;
}

reported : (execute_batch registry quiet false bare zh batch db).1 ≡ ok report
unfolding execute_batch run_lines finish apply_effects stages apply_nginx announce record_outcome
    merge enforce is_mutating
reported = refl

commits_example :
    (report.outcomes
      ≡ outcomes_from registry quiet false db 0
          (lines registry quiet false bare zh batch db report))
    × (report.old_version ≡ db.config_version)
    × (any succeeded report.outcomes ≡ true
        → after registry quiet false bare zh batch db report
          ≡ record (tx_after registry quiet false db
              (lines registry quiet false bare zh batch db report)) {
                config_version =
                    (after registry quiet false bare zh batch db report).config_version;
              })
    × (any succeeded report.outcomes ≡ false
        → (after registry quiet false bare zh batch db report ≡ db)
          × (actions registry quiet false bare zh batch db report ≡ [])
          × (report.new_version ≡ db.config_version))
commits_example = execute_batch_commits registry quiet false bare zh batch db report reported

scopes-KeepsVersion : KeepsVersion scopes
scopes-KeepsVersion = record { write = λ d c. refl; delete = λ d c. refl; view = λ d c. refl }

keeps : (t : Text) (h : Handler Rows) → registry t ≡ some h → KeepsVersion h
keeps t h e = elim (Bool-cases (same t (text "domain"))) [
  | inl q ↦ subst KeepsVersion (ground arith) scopes-KeepsVersion
  | inr q ↦ absurd (ground arith)
]

version_example :
    (report.new_version
      ≡ (if calls_for_bump report.outcomes then suc_ℤ db.config_version else db.config_version))
    × ((execute_batch registry quiet false bare zh batch db).0.config_version ≡ report.new_version)
version_example = execute_batch_version registry quiet false keeps bare zh batch db report reported

refusal :
    Refused registry quiet false db refused_command (scopes.write db refused_command).0 conflict
unfolding enforce
refusal = record {
  handler = scopes;
  found = refl;
  valid = refl;
  eff = declared refused_command;
  wrote = refl;
  first = record { port = 443; protocol = text "http" };
  others = [];
  reported = refl;
  refused = refl;
}

conflicts_example :
    (report.outcomes
      ≡ failed_command 0 refused_command conflict ∷ done_command 1 view_command no_effects ∷ [])
    × ((execute_batch registry quiet false bare zh batch db).0.rows ≡ text "a" ∷ text "b" ∷ [])
unfolding perform enforced enforce
conflicts_example =
    Refused-rows_stay registry quiet false bare zh batch db report reported refused_command
      view_command (scopes.write db refused_command).0 conflict (scopes.write db refused_command).0
      no_effects parsed refusal refl refl

abbrev writing : Text
writing = text "/w domain b https"

writing-told : In (notify_peers (pos 5)) (execute_batch registry quiet false bare zh writing db).2
unfolding execute_batch run_lines finish apply_effects stages apply_nginx announce record_outcome
    merge enforce is_mutating
writing-told = inl refl

tells_example :
    (r : BatchResult) × ((execute_batch registry quiet false bare zh writing db).1 ≡ ok r)
    × (r.new_version ≡ pos 5)
    × ((execute_batch registry quiet false bare zh writing db).0.config_version ≡ pos 5)
    × (◌≡◌ {A = ℤ} (pos 5) (suc_ℤ db.config_version))
tells_example =
    execute_batch_tells registry quiet false keeps bare zh writing db (pos 5) writing-told
