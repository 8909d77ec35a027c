-- ===== src/Command/Executor/Versions.antt =====
-- config_version goes up by one for a batch that changed something, and else stays.
use mesh_cdn.Base.Int.{ℤ, suc_ℤ}
use mesh_cdn.Base.{
  if◌then◌else◌, Bool-cases, Option-cases, Result, any, Text, ◌≡◌, refl, ap, ◌∙◌, inl, inr, Bool,
  ◌||◌, Option, some, List, [], ◌∷◌, map, arith, ok, err,
}
use mesh_cdn.Command.Types.{
  Verb, write, delete, view, Lang, Command, Error, Effects, no_effects, Outcome, BatchResult,
}
use mesh_cdn.Command.Aftermath.{Services}
use mesh_cdn.Command.Executor.{
  Db, Handler, Faults, Batch, split_lines, parse_line, dispatch, enforced, perform, is_bumped,
  bumped_tx, run_lines, execute_batch,
}
use mesh_cdn.Command.Executor.Outcomes.{is_mutation, summary, IsSummary}
use mesh_cdn.Command.Executor.Transaction.{tx_after, run_lines_trace, quiet}
use mesh_cdn.Command.Executor.Commit.{after, last_ok, after-eq, last-IsSummary}

-- No method of the handler writes config_version.
pub record KeepsVersion {T : Type 0} (h : Handler T) : Type 0 where
  pub write : (d : Db T) (c : Command) → (h.write d c).0.config_version ≡ d.config_version
  pub delete : (d : Db T) (c : Command) → (h.delete d c).0.config_version ≡ d.config_version
  pub view : (d : Db T) (c : Command) → (h.view d c).0.config_version ≡ d.config_version

-- The outcomes call for a new version: a write or delete succeeded, or the merged effects ask.
abbrev pub calls_for_bump : List Outcome → Bool
calls_for_bump os = any is_mutation os || (summary no_effects os).force_version_bump

dispatch_version :
    {T : Type 0} (v : Verb) (h : Handler T) (d : Db T) (c : Command)
    → KeepsVersion h
    → (dispatch v h d c).0.config_version ≡ d.config_version
dispatch_version write h d c k = k.write d c
dispatch_version delete h d c k = k.delete d c
dispatch_version view h d c k = k.view d c

enforced_version :
    {T : Type 0} (faults : Faults) (forced : Bool) (d : Db T) (eff : Effects)
    → (enforced faults forced d eff).0.config_version ≡ d.config_version
unfolding enforced
enforced_version faults forced d eff = ground arith

-- What a batch's last state says of the two versions.
versions_of :
    {T : Type 0} (d after : Db T) (s : Batch T) (n : ℤ)
    → IsSummary s
    → s.tx.config_version ≡ d.config_version
    → after ≡ (if s.any_succeeded then bumped_tx s else d)
    → n ≡ (if is_bumped s then (bumped_tx s).config_version else d.config_version)
    → (n ≡ (if is_bumped s then suc_ℤ d.config_version else d.config_version))
      × (after.config_version ≡ n)
versions_of d after s n h v a e = elim (Bool-cases s.any_succeeded) [
  | inl t ↦ elim (Bool-cases (is_bumped s)) [
    | inl b ↦ ground (arith, ap (λ (x : Db _). x.config_version) a)
    | inr b ↦ ground (arith, ap (λ (x : Db _). x.config_version) a)
  ]
  | inr t ↦ let (m, b) = quiet s h t in ground (arith, ap (λ (x : Db _). x.config_version) a)
]

module _ {T : Type 0} (registry : Text → Option (Handler T)) (faults : Faults) (forced : Bool)
    (keeps : (t : Text) (h : Handler T) → registry t ≡ some h → KeepsVersion h) where
  perform_version :
      (d : Db T) (c : Command)
      → (perform registry faults forced d c).0.config_version ≡ d.config_version
  unfolding perform
  perform_version d c = elim (Option-cases (registry c.type)) [
    | inl e ↦ ground arith
    | inr (h, e) ↦
        ground
          (arith, dispatch_version c.verb h d c (keeps c.type h e), enforced_version faults forced)
  ]

  tx_after_version :
      (d : Db T) (rs : List (Result Error Command))
      → (tx_after registry faults forced d rs).config_version ≡ d.config_version
  unfolding tx_after
  tx_after_version d [] = refl
  tx_after_version d (err e ∷ rs) = tx_after_version d rs
  tx_after_version d (ok c ∷ rs) =
      tx_after_version (perform registry faults forced d c).0 rs ∙ perform_version d c

  module _ (services : Services) (lang : Lang) (batch : Text) (d : Db T) (r : BatchResult)
      (q : (execute_batch registry faults forced services lang batch d).1 ≡ ok r) where
    pub last_version :
        (run_lines registry faults forced lang batch d).tx.config_version ≡ d.config_version
    last_version =
        ap (λ (x : Db T). x.config_version) (run_lines_trace registry faults forced lang batch d).0
        ∙ tx_after_version d (map (parse_line lang) (split_lines batch))

    -- If no handler writes config_version, a reported batch goes to the next version exactly when a
    -- write or delete succeeded or the merged effects of the successes force a bump, and else stays
    -- at the old one; and the version that is reported is the one that the database then has.
    pub execute_batch_version :
        (r.new_version
          ≡ (if calls_for_bump r.outcomes then suc_ℤ d.config_version else d.config_version))
        × ((execute_batch registry faults forced services lang batch d).0.config_version
            ≡ r.new_version)
    execute_batch_version =
        let s = run_lines registry faults forced lang batch d in
        let o = (last_ok registry faults forced services lang batch d r q).1 in
        let sum = last-IsSummary registry faults forced services lang batch d r q in
        let a = after-eq registry faults forced services lang batch d r q in
        let n = (last_ok registry faults forced services lang batch d r q).3 in
        let (x, y) =
          versions_of d (after registry faults forced services lang batch d r) s r.new_version sum
            last_version a n in
        let b : is_bumped s ≡ calls_for_bump r.outcomes = rw (sum.mutation, sum.merged, o) in
        (x ∙ ap (λ t. if t then suc_ℤ d.config_version else d.config_version) b, y)
