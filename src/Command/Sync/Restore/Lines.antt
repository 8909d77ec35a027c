-- ===== src/Command/Sync/Restore/Lines.antt =====
-- The replay of the lines that an export writes: one line, and all lines of a table.
use mesh_cdn.Base.{
  length, All, In, All-append, All-map, Text, text, join, trim_space, ℕ, suc, ◌+◌, ◌<◌, ◌≡◌, refl,
  sym, ap, ◌∙◌, subst, ◌≢◌, inl, inr, true, Option, none, some, List, [], ◌∷◌, ◌++◌, map, arith, ok,
}
use mesh_cdn.Base.Words.{IsWord}
use mesh_cdn.Command.Types.{write, Command, Error, Effects}
use mesh_cdn.Command.Parse.{parse, parse_trimmed}
use mesh_cdn.Command.Parse.RoundTrip.{spelled, parse_words, parse-trim_space}
use mesh_cdn.Command.Ports.Enforce.{no_faults}
use mesh_cdn.Command.Executor.{Db, Handler, Faults, dispatch}
use mesh_cdn.Command.Executor.Keeping.{enforced-rows}
use mesh_cdn.Command.Sync.Replay.{replay_command_forced}
use mesh_cdn.Command.Sync.{
  ReplayResult, replay_command, replay_one_in_tx_force, replay_lines, counted,
}

parse_empty : (c : Command) → parse [] ≢ ok c
unfolding parse parse_trimmed trim_space
parse_empty c h = cc

module _ {T : Type 0} (registry : Text → Option (Handler T)) (faults : Faults) where
  -- A line that is read as a write.
  replay_one-parsed :
      (d : Db T) (line : Text) (c : Command)
      → parse line ≡ ok c
      → c.verb ≡ write
      → replay_one_in_tx_force registry faults d line ≡ replay_command registry faults d c
  unfolding replay_one_in_tx_force
  replay_one-parsed d line c h v = go (trim_space line) refl (parse-trim_space line ∙ h)
    where
      go :
          (l : Text)
          → trim_space line ≡ l
          → parse (trim_space line) ≡ ok c
          → replay_one_in_tx_force registry faults d line ≡ replay_command registry faults d c
      go [] e q = absurd (parse_empty c (ap parse (sym e) ∙ q))
      go (x ∷ l) e q = ground (arith, e, q, v)

  -- A line of at least four words is the command that they spell.
  pub replay_one-words :
      (d : Db T) (t s p : Text) (ps : List Text)
      → All IsWord (t ∷ s ∷ p ∷ ps)
      → replay_one_in_tx_force registry faults d (join (text " ") (text "/w" ∷ t ∷ s ∷ p ∷ ps))
        ≡ replay_command registry faults d (spelled write t s p ps)
  unfolding join
  replay_one-words d t s p ps h =
      replay_one-parsed d (join (text " ") (text "/w" ∷ t ∷ s ∷ p ∷ ps)) (spelled write t s p ps)
        (parse_words write t s p ps h.0 h.1.0 h.1.1.0 h.1.1.1) refl

  -- A command that its handler accepts and writes does not fail, and the rows are those that the
  -- handler leaves.
  pub replay_command-rows :
      (d : Db T) (c : Command) (h : Handler T) (d' : Db T) (eff : Effects)
      → faults.ports ≡ no_faults
      → registry c.type ≡ some h
      → h.validate c ≡ none
      → dispatch c.verb h d c ≡ (d', ok eff)
      → ((replay_command registry faults d c).0.rows ≡ d'.rows)
        × ((replay_command registry faults d c).1 ≡ none)
  unfolding replay_command
  replay_command-rows d c h d' eff sound found valid wrote =
      let kept = enforced-rows faults true d' eff in
      (
        ground (arith, found, valid, wrote, kept),
        replay_command_forced registry faults sound d c h d' eff found valid wrote,
      )

-- A table whose lines each succeed, store their row, keep an invariant, and lose no row stored before.
module _ {T A : Type 0} (replay_line : Db T → Text → Db T × Option Error) (line : A → Text)
    (Inv : T → Type 0) (Stored : A → T → Type 0) where
  abbrev pub Step : A → Type 0
  Step a =
      (d : Db T)
      → Inv d.rows
      → ((replay_line d (line a)).1 ≡ none)
        × Inv (replay_line d (line a)).0.rows
        × Stored a (replay_line d (line a)).0.rows
        × ((b : A) → Stored b d.rows → Stored b (replay_line d (line a)).0.rows)

  -- All are stored once the lines are replayed, and the lines behind them follow.
  pub replay_lines-table :
      (i : ℕ) (l : List A) (rest : List Text) (d : Db T) (res : ReplayResult)
      → ((a : A) → In a l → Step a)
      → Inv d.rows
      → (j : ℕ) × (d' : Db T) × (res' : ReplayResult) × (replay_lines replay_line i
            (map line l ++ rest)
            (d, res)
          ≡ replay_lines replay_line j rest (d', res'))
        × (res'.per_line_errors ≡ res.per_line_errors)
        × Inv d'.rows
        × ((a : A) → In a l → Stored a d'.rows)
        × ((b : A) → Stored b d.rows → Stored b d'.rows)
  unfolding replay_lines
  replay_lines-table i [] rest d res step h = (i, d, res, refl, refl, h, λ a m. absurd m, λ b s. s)
  replay_lines-table i (a ∷ l) rest d res step h =
      let (d', e) = replay_line d (line a) in
      let (fine, kept, stored, stays) = step a (inl refl) d h in
      let (j, d2, res2, q, errors, inv, all, keep) =
        replay_lines-table (suc i) l rest d' (counted i e res) (λ b m. step b (inr m)) kept in
      (
        j,
        d2,
        res2,
        q,
        errors ∙ ap (λ x. (counted i x res).per_line_errors) fine,
        inv,
        λ b m. elim m [
          | inl z ↦ keep b (subst (λ x. Stored x d'.rows) (sym z) stored)
          | inr n ↦ all b n
        ],
        λ b s. keep b (stays b s),
      )

-- The lines before those of the rules, which leave the rows: the errors are of these lines.
module _ {T : Type 0} (replay_line : Db T → Text → Db T × Option Error) where
  abbrev pub Below : ℕ → ReplayResult → Type 0
  Below n res = All (λ (e : ℕ × Error). e.0 < n) res.per_line_errors

  counted-Below :
      (i : ℕ) (e : Option Error) (res : ReplayResult)
      → Below i res
      → Below (suc i) (counted i e res)
  counted-Below i none res h =
      All-map _ _ res.per_line_errors (λ (x : ℕ × Error) k. omega (arith, k)) h
  counted-Below i (some x) res h =
      All-append _ res.per_line_errors ((i, x) ∷ [])
        (All-map _ _ res.per_line_errors (λ (x : ℕ × Error) k. omega (arith, k)) h)
        (omega arith, tt)

  pub replay_lines-apart :
      (i : ℕ) (lines rest : List Text) (d : Db T) (res : ReplayResult)
      → All (λ l. (d : Db T) → (replay_line d l).0.rows ≡ d.rows) lines
      → Below i res
      → (d' : Db T) × (res' : ReplayResult) × (replay_lines replay_line i (lines ++ rest) (d, res)
          ≡ replay_lines replay_line (i + length lines) rest (d', res'))
        × Below (i + length lines) res'
        × (d'.rows ≡ d.rows)
  unfolding replay_lines
  replay_lines-apart i [] rest d res h b = (
    d,
    res,
    ap (λ n. replay_lines replay_line n rest (d, res)) (omega arith),
    subst (λ n. Below n res) (omega arith) b,
    refl,
  )
  replay_lines-apart i (line ∷ lines) rest d res h b =
      let (d', e) = replay_line d line in
      let (d2, res2, q, b2, kept) =
        replay_lines-apart (suc i) lines rest d' (counted i e res) h.1 (counted-Below i e res b) in
      let n : suc i + length lines ≡ i + length (line ∷ lines) = omega arith in
      (
        d2,
        res2,
        q ∙ ap (λ n. replay_lines replay_line n rest (d2, res2)) n,
        subst (λ n. Below n res2) n b2,
        kept ∙ h.0 d,
      )
