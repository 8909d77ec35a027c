-- ===== src/Command/Executor/Commit.antt =====
-- The database after ExecuteBatch, against the run of its lines one by one.
use mathlib.Core.Path.{ap₂}
use mesh_cdn.Base.Int.{ℤ}
use mesh_cdn.Base.{
  if◌then◌else◌, Bool-cases, Result, any, Text, ◌≡◌, sym, ap, ◌∙◌, subst, inl, inr, Bool, true,
  false, Option, List, [], map, ok,
}
use mesh_cdn.Command.Types.{Lang, Command, Error, BatchResult}
use mesh_cdn.Command.Aftermath.{Services, Action}
use mesh_cdn.Command.Executor.{
  Db, Handler, Faults, Batch, split_lines, parse_line, is_bumped, bumped_tx, run_lines, finish,
  execute_batch,
}
use mesh_cdn.Command.Executor.Outcomes.{succeeded, IsSummary, run_lines-IsSummary}
use mesh_cdn.Command.Executor.Transaction.{
  tx_after, outcomes_from, run_lines_trace, quiet, finish_quiet, finish_ok, execute_batch-eq_finish,
}

bumped_tx_lem :
    {T : Type 0} (s : Batch T)
    → bumped_tx s ≡ record s.tx { config_version = (bumped_tx s).config_version }
bumped_tx_lem s = elim (Bool-cases (is_bumped s)) [ inl e ↦ rw e | inr e ↦ rw e ]

module _ {T : Type 0} (registry : Text → Option (Handler T)) (faults : Faults) (forced : Bool)
    (services : Services) (lang : Lang) (batch : Text) (d : Db T) (r : BatchResult) where
  abbrev pub lines : List (Result Error Command)
  lines = map (parse_line lang) (split_lines batch)

  abbrev pub after : Db T
  after = (execute_batch registry faults forced services lang batch d).0

  abbrev pub actions : List Action
  actions = (execute_batch registry faults forced services lang batch d).2

  module _ (q : (execute_batch registry faults forced services lang batch d).1 ≡ ok r) where
    abbrev pub last : Batch T
    last = run_lines registry faults forced lang batch d

    last-eq :
        execute_batch registry faults forced services lang batch d
        ≡ finish registry faults forced services lang d last
    last-eq = execute_batch-eq_finish registry faults forced services lang batch d r q

    pub last_ok :
        ((finish registry faults forced services lang d last).0
          ≡ (if last.any_succeeded then bumped_tx last else d))
        × (r.outcomes ≡ last.outcomes)
        × (r.old_version ≡ d.config_version)
        × (r.new_version
            ≡ (if is_bumped last then (bumped_tx last).config_version else d.config_version))
    last_ok =
        finish_ok registry faults forced services lang d last r
          (subst (λ (x : Db T × Result Text BatchResult × List Action). x.1 ≡ ok r) last-eq q)

    pub last-IsSummary : IsSummary last
    last-IsSummary = run_lines-IsSummary registry faults forced lang batch d

    pub last_success : last.any_succeeded ≡ any succeeded r.outcomes
    last_success = last-IsSummary.success ∙ ap (any succeeded) (sym last_ok.1)

    pub after-eq : after ≡ (if last.any_succeeded then bumped_tx last else d)
    after-eq = ap (λ (x : Db T × Result Text BatchResult × List Action). x.0) last-eq ∙ last_ok.0

    after_success :
        any succeeded r.outcomes ≡ true
        → after ≡ record (tx_after registry faults forced d lines) {
          config_version = after.config_version;
        }
    after_success t =
        let a : after ≡ bumped_tx last = after-eq ∙ rw (last_success ∙ t) in
        let trace = (run_lines_trace registry faults forced lang batch d).0 in
        a
        ∙ bumped_tx_lem last
        ∙ ap₂ (λ (x : Db T) (n : ℤ). record x { config_version = n }) trace
            (ap (λ (x : Db T). x.config_version) (sym a))

    after_no_success :
        any succeeded r.outcomes ≡ false
        → (after ≡ d) × (actions ≡ []) × (r.new_version ≡ d.config_version)
    after_no_success t =
        let e = last_success ∙ t in
        let whole =
          last-eq ∙ finish_quiet registry faults forced services lang d last last-IsSummary e in
        (
          ap (λ (x : Db T × Result Text BatchResult × List Action). x.0) whole,
          ap (λ (x : Db T × Result Text BatchResult × List Action). x.2) whole,
          last_ok.3 ∙ rw (quiet last last-IsSummary e).1,
        )

    -- A batch that ExecuteBatch reports on has one outcome for each line, in order, as if its
    -- commands ran one by one on one transaction. If one succeeded, the tables (but for the version)
    -- are those that all the commands left, the failed ones included. If none did, the database is
    -- as before, no effect took place, and the reported version is the old one.
    pub execute_batch_commits :
        (r.outcomes ≡ outcomes_from registry faults forced d 0 lines)
        × (r.old_version ≡ d.config_version)
        × (any succeeded r.outcomes ≡ true
            → after ≡ record (tx_after registry faults forced d lines) {
              config_version = after.config_version;
            })
        × (any succeeded r.outcomes ≡ false
            → (after ≡ d) × (actions ≡ []) × (r.new_version ≡ d.config_version))
    execute_batch_commits = (
      last_ok.1 ∙ (run_lines_trace registry faults forced lang batch d).1,
      last_ok.2,
      after_success,
      after_no_success,
    )
