-- ===== src/Command/Executor/Keeping.antt =====
-- A property of the tables that every handler keeps, through a whole batch.
use mesh_cdn.Base.{
  Bool-cases, Option-cases, Result-cases, Result, In, map-In, Text, ℕ, suc, ◌≡◌, refl, sym, ◌∙◌,
  subst, ◌⊎◌, inl, inr, Bool, ◌&&◌, Option, none, some, List, [], ◌∷◌, map, arith, ok, err,
}
use mesh_cdn.Command.Types.{Lang, Command, Error, Effects}
use mesh_cdn.Command.Aftermath.{Services}
use mesh_cdn.Command.Executor.{
  Db, Handler, Faults, Batch, start, dispatch, enforced, perform, step, rounds, run_lines, finish,
  execute_batch, is_bumped, record_outcome, parse_line, split_lines,
}

-- A command that the handler accepts keeps the property, also when it fails on its way.
abbrev pub Keeps : {T : Type 0} → (T → Type 0) → Handler T → Type 0
Keeps {T} P h =
    (d : Db T) (c : Command) → h.validate c ≡ none → P d.rows → P (dispatch c.verb h d c).0.rows

record_outcome-tx :
    {T : Type 0} (i : ℕ) (c : Command) (r : Db T × Result Error Effects) (s : Batch T)
    → (record_outcome i c r s).tx ≡ r.0
unfolding record_outcome
record_outcome-tx i c (d, err e) s = refl
record_outcome-tx i c (d, ok eff) s = refl

module _ (faults : Faults) (forced : Bool) {T : Type 0} where
  pub enforced-rows : (d : Db T) (eff : Effects) → (enforced faults forced d eff).0.rows ≡ d.rows
  unfolding enforced
  enforced-rows d eff = go eff.port_protocol_bindings refl
    where
      go :
          (l : List _)
          → eff.port_protocol_bindings ≡ l
          → (enforced faults forced d eff).0.rows ≡ d.rows
      go [] e = ground arith
      go (b ∷ bs) e = ground arith

-- The commands have a property.
module _ {T : Type 0} (Q : Command → Type 0) (P : T → Type 0) (registry : Text → Option (Handler T))
    (faults : Faults) (forced : Bool)
    (keeps : (h : Handler T) (d : Db T) (c : Command)
      → Q c
      → registry c.type ≡ some h
      → h.validate c ≡ none
      → P d.rows
      → P (dispatch c.verb h d c).0.rows)
    (parsed : (lang : Lang) (line : Text) (c : Command) → parse_line lang line ≡ ok c → Q c) where
  perform-Keeps :
      (d : Db T) (c : Command) → Q c → P d.rows → P (perform registry faults forced d c).0.rows
  unfolding perform
  perform-Keeps d c u h = elim (Option-cases (registry c.type)) [
    | inl e ↦ let q : (perform registry faults forced d c).0 ≡ d = ground arith in rw q h
    | inr (g, e) ↦ elim (Option-cases (g.validate c)) [
      | inr (x, v) ↦ let q : (perform registry faults forced d c).0 ≡ d = ground arith in rw q h
      | inl v ↦
          let kept = keeps g d c u e v h in
          let d' = (dispatch c.verb g d c).0 in
          elim (Result-cases (dispatch c.verb g d c).1) [
            | inr (x, r) ↦
                let q : (perform registry faults forced d c).0 ≡ d' = ground arith in rw q kept
            | inl (eff, r) ↦
                let q : (perform registry faults forced d c).0 ≡ (enforced faults forced d' eff).0 =
                  ground arith in
                rw (q, enforced-rows faults forced d' eff) kept
          ]
    ]
  ]

  step-Keeps :
      (i : ℕ) (r : Result Error Command) (s : Batch T)
      → ((c : Command) → r ≡ ok c → Q c)
      → P s.tx.rows
      → P (step registry faults forced i r s).tx.rows
  unfolding step
  step-Keeps i (err e) s u h = h
  step-Keeps i (ok c) s u h =
      rw (record_outcome-tx i c (perform registry faults forced s.tx c) s)
        (perform-Keeps s.tx c (u c refl) h)

  rounds-Keeps :
      (i : ℕ) (rs : List (Result Error Command)) (s : Batch T)
      → ((c : Command) → In (ok c) rs → Q c)
      → P s.tx.rows
      → P (rounds registry faults forced i rs s).tx.rows
  unfolding rounds
  rounds-Keeps i [] s u h = h
  rounds-Keeps i (r ∷ rs) s u h =
      rounds-Keeps (suc i) rs (step registry faults forced i r s) (λ c m. u c (inr m))
        (step-Keeps i r s (λ c e. u c (inl (sym e))) h)

  run_lines-Keeps :
      (lang : Lang) (batch : Text) (d : Db T)
      → P d.rows
      → P (run_lines registry faults forced lang batch d).tx.rows
  unfolding run_lines
  run_lines-Keeps lang batch d h =
      rounds-Keeps 0 (map (parse_line lang) (split_lines batch)) (start d)
        (λ c m.
          let (line, i, e) = map-In (parse_line lang) (ok c) (split_lines batch) m in
          parsed lang line c (sym e))
        h

  -- The tables are those from before the batch, or those of its transaction.
  finish-rows :
      (services : Services) (lang : Lang) (d : Db T) (s : Batch T)
      → ((finish registry faults forced services lang d s).0.rows ≡ d.rows)
        ⊎ ((finish registry faults forced services lang d s).0.rows ≡ s.tx.rows)
  unfolding finish
  finish-rows services lang d s = elim (Bool-cases (is_bumped s && faults.bump)) [
    | inl b ↦ inl (ground arith)
    | inr b ↦ elim (Bool-cases (s.any_succeeded && faults.commit)) [
      | inl k ↦ inl (ground arith)
      | inr k ↦ elim (Bool-cases s.any_succeeded) [
        | inr a ↦ inl (ground arith)
        | inl a ↦ inr (ground arith)
      ]
    ]
  ]

  -- A batch leaves the tables with the property that they had, whatever of it fails.
  pub execute_batch-Keeps :
      (services : Services) (lang : Lang) (batch : Text) (d : Db T)
      → P d.rows
      → P (execute_batch registry faults forced services lang batch d).0.rows
  unfolding execute_batch
  execute_batch-Keeps services lang batch d h = elim (Bool-cases faults.begin) [
    | inl b ↦ rw b h
    | inr b ↦ elim (Bool-cases faults.read_version) [
      | inl v ↦ rw (b, v) h
      | inr v ↦
          let s = run_lines registry faults forced lang batch d in
          let q : (execute_batch registry faults forced services lang batch d).0.rows
              ≡ (finish registry faults forced services lang d s).0.rows =
            ground arith in
          elim (finish-rows services lang d s) [
            | inl e ↦ subst P (sym (q ∙ e)) h
            | inr e ↦ subst P (sym (q ∙ e)) (run_lines-Keeps lang batch d h)
          ]
    ]
  ]
