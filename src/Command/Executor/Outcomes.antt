-- ===== src/Command/Executor/Outcomes.antt =====
-- The outcomes of a batch, and what the loop accumulates of them.

use mesh_cdn.Base.{
  if◌then◌else◌, Bool-cases, Result, any, any-append, Text, ℕ, suc, ◌≡◌, refl, sym, ap, ◌∙◌, inl,
  inr, Bool, false, not, ◌&&◌, Option, none, some, List, [], ◌∷◌, ◌++◌, map, arith, ok, err,
}
use mesh_cdn.Command.Types.{
  is_mutating, Lang, Command, Error, Effects, no_effects, merge, Outcome, rejected_line,
  failed_command, done_command, failed,
}
use mesh_cdn.Command.Executor.{
  Db, Handler, Faults, Batch, start, split_lines, parse_line, perform, record_outcome, step, rounds,
  run_lines,
}

abbrev pub succeeded : Outcome → Bool
succeeded o = not (failed o)

-- The outcome is the success of a command that writes or deletes.
abbrev pub is_mutation : Outcome → Bool
is_mutation o = succeeded o && elim o.command [ none ↦ false | some c ↦ is_mutating c.verb ]

-- The effects of the successful outcomes, merged in order.
abbrev pub summary : Effects → List Outcome → Effects
summary eff [] = eff
summary eff (o ∷ os) = summary (if failed o then eff else merge eff o.effects) os

summary-append :
    (eff : Effects) (os qs : List Outcome) → summary eff (os ++ qs) ≡ summary (summary eff os) qs
summary-append eff [] qs = refl
summary-append eff (o ∷ os) qs =
    summary-append (if failed o then eff else merge eff o.effects) os qs

pub summary_none :
    (eff : Effects) (os : List Outcome) → any succeeded os ≡ false → summary eff os ≡ eff
summary_none eff [] h = refl
summary_none eff (o ∷ os) h = elim (Bool-cases (failed o)) [
  | inl e ↦ rw e (summary_none eff os (ground arith))
  | inr e ↦ ground arith
]

pub mutation_none : (os : List Outcome) → any succeeded os ≡ false → any is_mutation os ≡ false
mutation_none [] h = refl
mutation_none (o ∷ os) h = ground (arith, mutation_none os)

-- What the loop carries is what the outcomes say.
pub record IsSummary {T : Type 0} (s : Batch T) : Type 0 where
  pub merged : s.aggregated ≡ summary no_effects s.outcomes
  pub success : s.any_succeeded ≡ any succeeded s.outcomes
  pub mutation : s.any_mutation_succeeded ≡ any is_mutation s.outcomes

record_outcome-IsSummary :
    {T : Type 0} (i : ℕ) (c : Command) (r : Db T × Result Error Effects) (s : Batch T)
    → IsSummary s
    → IsSummary (record_outcome i c r s)
unfolding record_outcome
record_outcome-IsSummary i c (d, err e) s h = record {
  merged = h.merged ∙ sym (summary-append no_effects s.outcomes _);
  success = ground (arith, h.success, any-append succeeded s.outcomes (failed_command i c e ∷ []));
  mutation =
      ground (arith, h.mutation, any-append is_mutation s.outcomes (failed_command i c e ∷ []));
}
record_outcome-IsSummary i c (d, ok eff) s h = record {
  merged = ap (λ m. merge m eff) h.merged ∙ sym (summary-append no_effects s.outcomes _);
  success = ground (arith, h.success, any-append succeeded s.outcomes (done_command i c eff ∷ []));
  mutation =
      ground (arith, h.mutation, any-append is_mutation s.outcomes (done_command i c eff ∷ []));
}

module _ {T : Type 0} (registry : Text → Option (Handler T)) (faults : Faults) (forced : Bool) where
  step-IsSummary :
      (i : ℕ) (r : Result Error Command) (s : Batch T)
      → IsSummary s
      → IsSummary (step registry faults forced i r s)
  unfolding step
  step-IsSummary i (err e) s h = record {
    merged = h.merged ∙ sym (summary-append no_effects s.outcomes _);
    success = ground (arith, h.success, any-append succeeded s.outcomes (rejected_line i e ∷ []));
    mutation =
        ground (arith, h.mutation, any-append is_mutation s.outcomes (rejected_line i e ∷ []));
  }
  step-IsSummary i (ok c) s h =
      record_outcome-IsSummary i c (perform registry faults forced s.tx c) s h

  rounds-IsSummary :
      (i : ℕ) (rs : List (Result Error Command)) (s : Batch T)
      → IsSummary s
      → IsSummary (rounds registry faults forced i rs s)
  unfolding rounds
  rounds-IsSummary i [] s h = h
  rounds-IsSummary i (r ∷ rs) s h =
      rounds-IsSummary (suc i) rs (step registry faults forced i r s) (step-IsSummary i r s h)

  pub run_lines-IsSummary :
      (lang : Lang) (batch : Text) (d : Db T)
      → IsSummary (run_lines registry faults forced lang batch d)
  unfolding run_lines
  run_lines-IsSummary lang batch d =
      rounds-IsSummary 0 (map (parse_line lang) (split_lines batch)) (start d)
        (record { merged = refl; success = refl; mutation = refl })
