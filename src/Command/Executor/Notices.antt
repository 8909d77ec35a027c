-- ===== src/Command/Executor/Notices.antt =====
-- Which version the peers are told of, from the lines of a batch to the callback of its effects.
use mesh_cdn.Base.Int.{ℤ, suc_ℤ}
use mesh_cdn.Base.{
  Result-cases, Result, In, Text, ◌≡◌, sym, ap, ◌∙◌, subst, inl, inr, Bool, Option, some, List,
  arith, ok,
}
use mesh_cdn.Command.Types.{Lang, BatchResult}
use mesh_cdn.Command.Aftermath.{Services, Action, notify_peers, apply_effects}
use mesh_cdn.Command.Aftermath.Announce.{apply_effects_announces}
use mesh_cdn.Command.Executor.{
  Db, Handler, Faults, Batch, is_bumped, run_lines, finish, execute_batch,
}
use mesh_cdn.Command.Executor.Transaction.{execute_batch-eq_finish, execute_batch_err}
use mesh_cdn.Command.Executor.Commit.{last_ok}
use mesh_cdn.Command.Executor.Versions.{KeepsVersion, last_version, execute_batch_version}

finish_actions :
    {T : Type 0} (registry : Text → Option (Handler T)) (faults : Faults) (forced : Bool)
    (services : Services) (lang : Lang) (d : Db T) (s : Batch T) (r : BatchResult)
    → (finish registry faults forced services lang d s).1 ≡ ok r
    → (finish registry faults forced services lang d s).2
      ≡ (apply_effects services s.aggregated (is_bumped s) r.new_version).1
unfolding finish
finish_actions registry faults forced services lang d s r q = ground arith

module _ {T : Type 0} (registry : Text → Option (Handler T)) (faults : Faults) (forced : Bool)
    (keeps : (t : Text) (h : Handler T) → registry t ≡ some h → KeepsVersion h)
    (services : Services) (lang : Lang) (batch : Text) (d : Db T) where
  -- If no handler writes config_version, a batch tells the peers only of a version that it has
  -- committed, that it reports, and that is one more than before.
  pub execute_batch_tells :
      (v : ℤ)
      → In (notify_peers v) (execute_batch registry faults forced services lang batch d).2
      → (r : BatchResult) × ((execute_batch registry faults forced services lang batch d).1 ≡ ok r)
        × (r.new_version ≡ v)
        × ((execute_batch registry faults forced services lang batch d).0.config_version ≡ v)
        × (v ≡ suc_ℤ d.config_version)
  execute_batch_tells v m =
      elim (Result-cases (execute_batch registry faults forced services lang batch d).1) [
        | inr (e, q) ↦ absurd (
            subst (In (notify_peers v))
              (execute_batch_err registry faults forced services lang batch d e q).1 m)
        | inl (r, q) ↦
            let s = run_lines registry faults forced lang batch d in
            let e = execute_batch-eq_finish registry faults forced services lang batch d r q in
            let q' = subst (λ (x : Db T × Result Text BatchResult × List Action). x.1 ≡ ok r) e q in
            let l = finish_actions registry faults forced services lang d s r q' in
            let m' =
              subst (λ (x : Db T × Result Text BatchResult × List Action). In (notify_peers v) x.2)
                e m in
            let (a, mutated, n, ends) =
              apply_effects_announces services s.aggregated (is_bumped s) r.new_version v
                (subst (In (notify_peers v)) l m') in
            let kept = last_version registry faults forced keeps services lang batch d r q in
            let new = (last_ok registry faults forced services lang batch d r q).3 in
            let one = new ∙ rw mutated (ap suc_ℤ kept) in
            let stored =
              (execute_batch_version registry faults forced keeps services lang batch d r q).1 in
            (r, q, sym a, stored ∙ sym a, a ∙ one)
      ]
