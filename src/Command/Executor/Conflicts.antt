-- ===== src/Command/Executor/Conflicts.antt =====
-- What becomes of the rows of a command that is refused for a port conflict.
use mathlib.Core.Path.{ap₂}
use mesh_cdn.Base.{
  Result, any, Text, ◌≡◌, ap, ◌∙◌, Bool, Option, none, some, List, [], ◌∷◌, map, arith, ok, err,
}
use mesh_cdn.Command.Types.{
  Lang, Command, Error, Binding, Effects, failed_command, done_command, BatchResult,
}
use mesh_cdn.Command.Ports.{enforce}
use mesh_cdn.Command.Aftermath.{Services}
use mesh_cdn.Command.Executor.{
  Db, Handler, Faults, split_lines, parse_line, dispatch, enforced, perform, execute_batch,
}
use mesh_cdn.Command.Executor.Outcomes.{succeeded}
use mesh_cdn.Command.Executor.Transaction.{outcome_of, tx_after, outcomes_from}
use mesh_cdn.Command.Executor.Commit.{execute_batch_commits}

module _ {T : Type 0} (registry : Text → Option (Handler T)) (faults : Faults) (forced : Bool) where
  -- The handler of a valid command wrote `written`, and its port bindings were refused with `x`.
  pub record Refused (d : Db T) (c : Command) (written : Db T) (x : Error) : Type 0 where
    pub handler : Handler T
    pub found : registry c.type ≡ some handler
    pub valid : handler.validate c ≡ none
    pub eff : Effects
    pub wrote : dispatch c.verb handler d c ≡ (written, ok eff)
    pub first : Binding
    pub others : List Binding
    pub reported : eff.port_protocol_bindings ≡ first ∷ others
    pub refused : (enforce faults.ports forced (first ∷ others) written.ports).1 ≡ some x

  perform-Refused :
      (d : Db T) (c : Command) (written : Db T) (x : Error)
      → Refused d c written x
      → ((perform registry faults forced d c).1 ≡ err x)
        × ((perform registry faults forced d c).0.rows ≡ written.rows)
  unfolding perform enforced
  perform-Refused d c written x h = ground (arith, h.found, h.valid, h.wrote, h.reported, h.refused)

  module _ (services : Services) (lang : Lang) (batch : Text) (d : Db T) (r : BatchResult)
      (q : (execute_batch registry faults forced services lang batch d).1 ≡ ok r) where
    -- A command whose bindings are refused is reported as failed, and yet what its handler wrote is
    -- committed, if the batch goes on with a command that succeeds and leaves the rows alone.
    pub Refused-rows_stay :
        (c v : Command) (written : Db T) (x : Error) (d' : Db T) (eff : Effects)
        → map (parse_line lang) (split_lines batch) ≡ ok c ∷ ok v ∷ []
        → Refused d c written x
        → perform registry faults forced (perform registry faults forced d c).0 v ≡ (d', ok eff)
        → d'.rows ≡ (perform registry faults forced d c).0.rows
        → (r.outcomes ≡ failed_command 0 c x ∷ done_command 1 v eff ∷ [])
          × ((execute_batch registry faults forced services lang batch d).0.rows ≡ written.rows)
    unfolding tx_after outcomes_from
    Refused-rows_stay c v written x d' eff l h p k =
        let (os, old, success, none_done) =
          execute_batch_commits registry faults forced services lang batch d r q in
        let (e, rows) = perform-Refused d c written x h in
        let outs : r.outcomes ≡ failed_command 0 c x ∷ done_command 1 v eff ∷ [] =
          os
          ∙ ap (outcomes_from registry faults forced d 0) l
          ∙ ap₂ (λ a b. outcome_of 0 c a ∷ outcome_of 1 v b ∷ []) e
              (ap (λ (y : Db T × Result Error Effects). y.1) p) in
        let committed : (tx_after registry faults forced d
              (map (parse_line lang) (split_lines batch))).rows
            ≡ written.rows =
          ap (λ rs. (tx_after registry faults forced d rs).rows) l
          ∙ (ap (λ (y : Db T × Result Error Effects). y.0.rows) p)
          ∙ k
          ∙ rows in
        (outs, ap (λ (y : Db T). y.rows) (success (ap (any succeeded) outs)) ∙ committed)
