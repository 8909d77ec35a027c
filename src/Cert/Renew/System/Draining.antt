-- ===== src/Cert/Renew/System/Draining.antt =====
-- The goroutines work the queue off: no run of them goes on for ever, and none gets stuck.
use mesh_cdn.Base.{
  length, Text, ℕ, zero, suc, ◌+◌, ◌-◌, ◌*◌, ◌≤◌, ◌<◌, ◌≡◌, refl, ap, subst, ◌⊎◌, inl, inr, false,
  List, [], ◌∷◌, ◌++◌, arith,
}
use mesh_cdn.Base.Time.{Time}
use mesh_cdn.Cert.Renew.Worker.{Task, Worker, is_pending, queue_size, enqueue, World, clear_pending}
use mesh_cdn.Cert.Renew.Worker.Steps.{rank, act_cases}
use mesh_cdn.Cert.Renew.System.{System, after_act, Work, receive, carry_out, clear}
use mesh_cdn.Cert.Renew.System.Tracking.{IsTracked, length-middle, empty-IsTracked}
use mesh_cdn.Cert.Renew.System.Soundness.{IsSound, Work-IsSound}

-- A run of the worker alone, with the number of its steps.
pub data Works (concurrency : ℕ) (s : System) : ℕ → System → Type 0 where
  start : Works concurrency s zero s
  then_work :
      {n : ℕ} {t u : System}
      → Works concurrency s n t
      → Work concurrency t u
      → Works concurrency s (suc n) u

-- Three steps at most for each task from here on: being taken, its own, and the clearing of its key.
abbrev waiting : List Task → ℕ
waiting [] = 0
waiting (t ∷ ts) = 3 * rank t.type + waiting ts

abbrev stepping : List Task → ℕ
stepping [] = 0
stepping (t ∷ ts) = 3 * rank t.type - 1 + stepping ts

abbrev weight : System → ℕ
weight s = waiting s.worker.queue + stepping s.running + length s.ending

rank_bounds : (t : Task) → (1 ≤ rank t.type) × (rank t.type ≤ 3)
rank_bounds t = ground arith

waiting-le : (ts : List Task) → waiting ts ≤ 9 * length ts
waiting-le [] = omega arith
waiting-le (t ∷ ts) = omega (arith, rank_bounds t, waiting-le ts)

stepping-le : (ts : List Task) → stepping ts ≤ 8 * length ts
stepping-le [] = omega arith
stepping-le (t ∷ ts) = omega (arith, rank_bounds t, stepping-le ts)

waiting-append : (xs : List Task) (t : Task) → waiting (xs ++ t ∷ []) ≡ waiting xs + 3 * rank t.type
waiting-append [] t = omega arith
waiting-append (x ∷ xs) t = omega (arith, waiting-append xs t)

waiting-enqueue :
    (t : Task) (w : Worker) → waiting (enqueue t w).0.queue ≤ waiting w.queue + 3 * rank t.type
unfolding enqueue
waiting-enqueue t w = ground (arith, waiting-append w.queue t)

stepping-middle :
    (front : List Task) (t : Task) (back : List Task)
    → stepping (front ++ (t ∷ back)) ≡ stepping (front ++ back) + (3 * rank t.type - 1)
stepping-middle [] t back = omega arith
stepping-middle (x ∷ xs) t back = omega (arith, stepping-middle xs t back)

carry_out-weight :
    (s : System) (env : World) (now : Time) (front : List Task) (t : Task) (back : List Task)
    → s.running ≡ front ++ (t ∷ back)
    → suc (weight (after_act env now t (front ++ back) s)) ≤ weight s
carry_out-weight s env now front t back e =
    let q = ap stepping e in
    let i = stepping-middle front t back in
    let r = rank_bounds t in
    elim (act_cases env now t s.worker s.store) [
      | inl (inl g, silent) ↦ rw g (omega arith)
      | inl (inr (t', less, g), silent) ↦ rw g (omega (arith, waiting-enqueue t' s.worker))
      | inr (a, told, due, g) ↦ rw g (omega arith)
    ]

module _ (concurrency : ℕ) where
  Work-weight : {s u : System} → Work concurrency s u → suc (weight u) ≤ weight s
  unfolding clear_pending
  Work-weight {s} (receive t rest e room) =
      let q = ap waiting e in let r = rank_bounds t in omega arith
  Work-weight {s} (carry_out env now front t back e) = carry_out-weight s env now front t back e
  Work-weight {s} (clear front t back e) =
      let q = ap length e in let i = length-middle front t back in omega arith

  Works-weight : {s u : System} {n : ℕ} → Works concurrency s n u → n + weight u ≤ weight s
  Works-weight start = omega arith
  Works-weight (then_work ws w) = omega (arith, Works-weight ws, Work-weight w)

  Works-IsSound :
      {s u : System} {n : ℕ}
      → IsSound concurrency s
      → Works concurrency s n u
      → IsSound concurrency u
  Works-IsSound h start = h
  Works-IsSound h (then_work ws w) = Work-IsSound concurrency w (Works-IsSound h ws)

  weight-le : (s : System) → IsSound concurrency s → weight s ≤ 9 * queue_size + 8 * concurrency
  weight-le s h =
      let b = h.bounded in
      let c = h.busy in omega (arith, waiting-le s.worker.queue, stepping-le s.running)

  -- Nothing waits, runs or ends, and no key is pending.
  pub record IsIdle (s : System) : Type 0 where
    pub none_wait : s.worker.queue ≡ []
    pub none_run : s.running ≡ []
    pub none_end : s.ending ≡ []
    pub none_pending : (k : Text) → is_pending k s.worker ≡ false

  idle :
      (s : System)
      → IsSound concurrency s
      → s.worker.queue ≡ []
      → s.running ≡ []
      → s.ending ≡ []
      → IsIdle s
  idle s h q r e = record {
    none_wait = q;
    none_run = r;
    none_end = e;
    none_pending = λ k. empty-IsTracked s.worker k q (
        subst (λ l. IsTracked s.worker l []) r
          (subst (λ l. IsTracked s.worker s.running l) e h.tracked));
  }

  abbrev pub CanWork : System → Type 0
  CanWork s = (u : System) × Work concurrency s u

  progress :
      (env : World) (now : Time) (s : System)
      → 0 < concurrency
      → IsSound concurrency s
      → CanWork s ⊎ IsIdle s
  progress env now s some_one h = go s.worker.queue s.running s.ending refl refl refl
    where
      go :
          (q r e : List Task)
          → s.worker.queue ≡ q
          → s.running ≡ r
          → s.ending ≡ e
          → CanWork s ⊎ IsIdle s
      go q r (t ∷ e) iq ir ie = inl (_, clear [] t e ie)
      go q (t ∷ r) [] iq ir ie = inl (_, carry_out env now [] t r ir)
      go (t ∷ q) [] [] iq ir ie = inl (_, receive t q iq (rw (ir, ie) some_one))
      go [] [] [] iq ir ie = inr (idle s h iq ir ie)

  -- From a sound state, with one goroutine at least: when no more tasks arrive, a run of the
  -- goroutines, in whatever order, has at most 576 steps and 8 more for each goroutine; and as long
  -- as it has not come to a state where no task waits, runs or ends and no key is pending, it can
  -- go on.
  pub drains :
      (env : World) (now : Time) {s u : System} {n : ℕ}
      → 0 < concurrency
      → IsSound concurrency s
      → Works concurrency s n u
      → (n ≤ 576 + 8 * concurrency) × (CanWork u ⊎ IsIdle u)
  drains env now {s} {u} some_one h ws =
      let w = Works-weight ws in
      let b = weight-le s h in (omega arith, progress env now u some_one (Works-IsSound h ws))
