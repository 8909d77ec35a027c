-- ===== src/Command/Executor/Transaction.antt =====
-- What the transaction of a batch holds, and when it is committed.
use mathlib.Core.Path.{ap₂}
use mathlib.Core.List.{append-nil, append_assoc}
use mesh_cdn.Base.Int.{ℤ}
use mesh_cdn.Base.{
  if◌then◌else◌, Result, any, Text, ℕ, suc, ◌≡◌, refl, sym, ap, ◌∙◌, Bool, false, Option, List, [],
  ◌∷◌, ◌++◌, map, arith, ok, err,
}
use mesh_cdn.Command.Types.{
  Lang, Command, Error, Effects, no_effects, Outcome, rejected_line, failed_command, done_command,
  BatchResult,
}
use mesh_cdn.Command.Aftermath.{Services, apply_effects, stages, apply_nginx, announce}
use mesh_cdn.Command.Executor.{
  Db, Handler, Faults, Batch, start, split_lines, parse_line, perform, record_outcome, is_bumped,
  bumped_tx, step, rounds, run_lines, finish, execute_batch,
}
use mesh_cdn.Command.Executor.Outcomes.{succeeded, IsSummary, summary_none, mutation_none}

abbrev pub outcome_of : ℕ → Command → Result Error Effects → Outcome
outcome_of i c (err e) = failed_command i c e
outcome_of i c (ok eff) = done_command i c eff

record_outcome_trace :
    {T : Type 0} (i : ℕ) (c : Command) (r : Db T × Result Error Effects) (s : Batch T)
    → ((record_outcome i c r s).tx ≡ r.0)
      × ((record_outcome i c r s).outcomes ≡ s.outcomes ++ outcome_of i c r.1 ∷ [])
unfolding record_outcome
record_outcome_trace i c (d, err e) s = (refl, refl)
record_outcome_trace i c (d, ok eff) s = (refl, refl)

module _ {T : Type 0} (registry : Text → Option (Handler T)) (faults : Faults) (forced : Bool) where
  -- The state of the tables after the commands of some lines. A command that fails is not undone.
  unfoldable pub tx_after : Db T → List (Result Error Command) → Db T
  tx_after d [] = d
  tx_after d (err e ∷ rs) = tx_after d rs
  tx_after d (ok c ∷ rs) = tx_after (perform registry faults forced d c).0 rs

  -- The outcome of each line, in order.
  unfoldable pub outcomes_from : Db T → ℕ → List (Result Error Command) → List Outcome
  outcomes_from d i [] = []
  outcomes_from d i (err e ∷ rs) = rejected_line i e ∷ outcomes_from d (suc i) rs
  outcomes_from d i (ok c ∷ rs) =
      let (d', r) = perform registry faults forced d c in
      outcome_of i c r ∷ outcomes_from d' (suc i) rs

  rounds_trace :
      (i : ℕ) (rs : List (Result Error Command)) (s : Batch T)
      → ((rounds registry faults forced i rs s).tx ≡ tx_after s.tx rs)
        × ((rounds registry faults forced i rs s).outcomes ≡ s.outcomes ++ outcomes_from s.tx i rs)
  unfolding rounds tx_after outcomes_from
  rounds_trace i [] s = (refl, sym (append-nil s.outcomes))
  rounds_trace i (err e ∷ rs) s =
      let (t, o) = rounds_trace (suc i) rs (step registry faults forced i (err e) s) in
      unfold step in (t, o ∙ append_assoc s.outcomes (rejected_line i e ∷ []) _)
  rounds_trace i (ok c ∷ rs) s =
      let (t, o) = rounds_trace (suc i) rs (step registry faults forced i (ok c) s) in
      let (tx, out) = record_outcome_trace i c (perform registry faults forced s.tx c) s in
      unfold step in
      (
        t ∙ ap (λ x. tx_after x rs) tx,
        o
            ∙ ap₂ (λ os x. os ++ outcomes_from x (suc i) rs) out tx
            ∙ append_assoc s.outcomes
                (outcome_of i c (perform registry faults forced s.tx c).1 ∷ []) _,
      )

  pub run_lines_trace :
      (lang : Lang) (batch : Text) (d : Db T)
      → let rs = map (parse_line lang) (split_lines batch) in
        ((run_lines registry faults forced lang batch d).tx ≡ tx_after d rs)
        × ((run_lines registry faults forced lang batch d).outcomes ≡ outcomes_from d 0 rs)
  unfolding run_lines
  run_lines_trace lang batch d =
      rounds_trace 0 (map (parse_line lang) (split_lines batch)) (start d)

-- A batch in which nothing succeeded has no effects, and bumps no version.
pub quiet :
    {T : Type 0} (s : Batch T)
    → IsSummary s
    → s.any_succeeded ≡ false
    → (s.aggregated ≡ no_effects) × (is_bumped s ≡ false)
quiet s h e =
    let n : any succeeded s.outcomes ≡ false = sym h.success ∙ e in
    let m = h.merged ∙ summary_none no_effects s.outcomes n in
    (m, rw (h.mutation, mutation_none s.outcomes n, m))

apply_effects-no_effects :
    (services : Services) (v : ℤ) → apply_effects services no_effects false v ≡ (no_effects, [])
unfolding apply_effects stages apply_nginx announce
apply_effects-no_effects services v = refl

module _ {T : Type 0} (registry : Text → Option (Handler T)) (faults : Faults) (forced : Bool)
    (services : Services) (lang : Lang) where
  pub finish_quiet :
      (d : Db T) (s : Batch T)
      → IsSummary s
      → s.any_succeeded ≡ false
      → finish registry faults forced services lang d s ≡ (
        d,
        ok (record {
          lang = lang;
          new_version = d.config_version;
          old_version = d.config_version;
          outcomes = s.outcomes;
          aggregated_effects = no_effects;
        }),
        [],
      )
  unfolding finish
  finish_quiet d s h e =
      let (m, b) = quiet s h e in rw (b, e, m, apply_effects-no_effects services d.config_version)

  pub finish_ok :
      (d : Db T) (s : Batch T) (r : BatchResult)
      → (finish registry faults forced services lang d s).1 ≡ ok r
      → ((finish registry faults forced services lang d s).0
          ≡ (if s.any_succeeded then bumped_tx s else d))
        × (r.outcomes ≡ s.outcomes)
        × (r.old_version ≡ d.config_version)
        × (r.new_version ≡ (if is_bumped s then (bumped_tx s).config_version else d.config_version))
  unfolding finish
  finish_ok d s r q = ground arith

  pub finish_err :
      (d : Db T) (s : Batch T) (e : Text)
      → (finish registry faults forced services lang d s).1 ≡ err e
      → ((finish registry faults forced services lang d s).0 ≡ d)
        × ((finish registry faults forced services lang d s).2 ≡ [])
  unfolding finish
  finish_err d s e q = ground arith

  pub execute_batch-eq_finish :
      (batch : Text) (d : Db T) (r : BatchResult)
      → (execute_batch registry faults forced services lang batch d).1 ≡ ok r
      → execute_batch registry faults forced services lang batch d
        ≡ finish registry faults forced services lang d
            (run_lines registry faults forced lang batch d)
  unfolding execute_batch
  execute_batch-eq_finish batch d r q = ground arith

  -- If ExecuteBatch returns an error, the database is as before, and no effect took place.
  pub execute_batch_err :
      (batch : Text) (d : Db T) (e : Text)
      → (execute_batch registry faults forced services lang batch d).1 ≡ err e
      → ((execute_batch registry faults forced services lang batch d).0 ≡ d)
        × ((execute_batch registry faults forced services lang batch d).2 ≡ [])
  unfolding execute_batch
  execute_batch_err batch d e q =
      ground (arith, finish_err d (run_lines registry faults forced lang batch d) e)
