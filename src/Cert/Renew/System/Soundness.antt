-- ===== src/Cert/Renew/System/Soundness.antt =====
-- The queue never holds a task twice, and the admin is not alerted too often.
use mesh_cdn.Base.{
  length, All, ℕ, suc, ◌+◌, ◌≤◌, ◌<◌, ◌≡◌, sym, ap, subst, inl, inr, List, ◌∷◌, ◌++◌, arith,
}
use mesh_cdn.Base.Table.{put, get-put_self}
use mesh_cdn.Base.Time.{Time}
use mesh_cdn.Cert.Renew.Worker.{Task, queue_size, World, act, clear_pending}
use mesh_cdn.Cert.Renew.Worker.Steps.{act_cases}
use mesh_cdn.Cert.Renew.System.{
  System, logged, after_act, Work, receive, carry_out, clear, Step, work, arrive, store_change,
  Reach, here, next,
}
use mesh_cdn.Cert.Renew.System.Tracking.{
  IsTracked, enqueue-IsTracked, enqueue-bounded, enqueue-alerted, clear-IsTracked, length-middle,
  carry_out-IsTracked, receive-IsTracked,
}
use mesh_cdn.Cert.Renew.System.Spacing.{IsKept, IsSpaced, all-IsKept, all-IsApart}

-- The invariant.
pub record IsSound (concurrency : ℕ) (s : System) : Type 0 where
  pub tracked : IsTracked s.worker s.running s.ending
  pub bounded : length s.worker.queue ≤ queue_size
  pub busy : length s.running + length s.ending ≤ concurrency
  pub kept : All (IsKept s.worker.alerted) s.alerts
  pub spaced : IsSpaced s.alerts

module _ (concurrency : ℕ) where
  receive-IsSound :
      (s : System) (t : Task) (rest : List Task)
      → s.worker.queue ≡ t ∷ rest
      → length s.running + length s.ending < concurrency
      → IsSound concurrency s
      → IsSound concurrency
          (record s { worker = record s.worker { queue = rest }; running = t ∷ s.running })
  receive-IsSound s t rest e room h = record {
    tracked = receive-IsTracked s.worker t rest s.running s.ending e h.tracked;
    bounded = let q = ap length e in let i = h.bounded in omega arith;
    busy = omega arith;
    kept = h.kept;
    spaced = h.spaced;
  }

  clear-IsSound :
      (s : System) (front : List Task) (t : Task) (back : List Task)
      → s.ending ≡ front ++ (t ∷ back)
      → IsSound concurrency s
      → IsSound concurrency (record s { worker = clear_pending t s.worker; ending = front ++ back })
  clear-IsSound s front t back e h = record {
    tracked =
        clear-IsTracked front t back s.worker s.running
          (subst (IsTracked s.worker s.running) e h.tracked);
    bounded = unfold clear_pending in h.bounded;
    busy =
        let q = ap length e in let i = length-middle front t back in let j = h.busy in omega arith;
    kept = unfold clear_pending in h.kept;
    spaced = h.spaced;
  }

  carry_out-IsSound :
      (s : System) (env : World) (now : Time) (front : List Task) (t : Task) (back : List Task)
      → s.running ≡ front ++ (t ∷ back)
      → IsSound concurrency s
      → IsSound concurrency (after_act env now t (front ++ back) s)
  carry_out-IsSound s env now front t back e h =
      let moved =
        carry_out-IsTracked s.worker front t back s.ending
          (subst (λ r. IsTracked s.worker r s.ending) e h.tracked) in
      let less : length (front ++ back) + suc (length s.ending) ≤ concurrency =
        let q = ap length e in
        let i = length-middle front t back in let j = h.busy in omega arith in
      elim (act_cases env now t s.worker s.store) [
        | inl (inl q, silent) ↦ record {
          tracked = subst (λ w. IsTracked w (front ++ back) (t ∷ s.ending)) (sym q) moved;
          bounded = rw q h.bounded;
          busy = less;
          kept = rw (q, silent) h.kept;
          spaced = rw silent h.spaced;
        }
        | inl (inr (t', r, q), silent) ↦ record {
          tracked =
              subst (λ w. IsTracked w (front ++ back) (t ∷ s.ending)) (sym q)
                (enqueue-IsTracked t' s.worker (front ++ back) (t ∷ s.ending) moved);
          bounded = rw q (enqueue-bounded t' s.worker h.bounded);
          busy = less;
          kept = rw (q, silent, enqueue-alerted t' s.worker) h.kept;
          spaced = rw silent h.spaced;
        }
        | inr (a, told, due, q) ↦ record {
          tracked = subst (λ w. IsTracked w (front ++ back) (t ∷ s.ending)) (sym q) moved;
          bounded = rw q h.bounded;
          busy = less;
          kept =
              subst
                (λ w.
                  All (IsKept w.alerted) (logged (act env now t (s.worker, s.store)).2 s.alerts))
                (sym q)
                (subst
                  (λ o.
                    All (IsKept (put a.fingerprint a.time s.worker.alerted)) (logged o s.alerts))
                  (sym told)
                  (
                    (a.time, get-put_self a.fingerprint a.time s.worker.alerted, omega arith),
                    all-IsKept a s.worker.alerted due s.alerts h.kept,
                  ));
          spaced =
              subst (λ o. IsSpaced (logged o s.alerts)) (sym told)
                (all-IsApart a s.worker.alerted due s.alerts h.kept, h.spaced);
        }
      ]

  pub Work-IsSound :
      {s u : System} → Work concurrency s u → IsSound concurrency s → IsSound concurrency u
  Work-IsSound {s} (receive t rest e room) h = receive-IsSound s t rest e room h
  Work-IsSound {s} (carry_out env now front t back e) h =
      carry_out-IsSound s env now front t back e h
  Work-IsSound {s} (clear front t back e) h = clear-IsSound s front t back e h

  Step-IsSound :
      {s u : System} → Step concurrency s u → IsSound concurrency s → IsSound concurrency u
  Step-IsSound (work w) h = Work-IsSound w h
  Step-IsSound {s} (arrive t) h = record {
    tracked = enqueue-IsTracked t s.worker s.running s.ending h.tracked;
    bounded = enqueue-bounded t s.worker h.bounded;
    busy = h.busy;
    kept = rw (enqueue-alerted t s.worker) h.kept;
    spaced = h.spaced;
  }
  Step-IsSound (store_change st) h = record {
    tracked = h.tracked;
    bounded = h.bounded;
    busy = h.busy;
    kept = h.kept;
    spaced = h.spaced;
  }

  -- In every order of the steps of the goroutines, of callers of Enqueue and of changes of the
  -- store, these stay true: the tasks that wait, run or end are exactly those whose keys are
  -- pending, each once; the queue holds 64 tasks at most; no more tasks are being worked on than
  -- there are goroutines; and two alerts for one fingerprint are 24 hours apart at least.
  pub Reach-IsSound :
      {s u : System} → IsSound concurrency s → Reach concurrency s u → IsSound concurrency u
  Reach-IsSound h here = h
  Reach-IsSound h (next r st) = Step-IsSound st (Reach-IsSound h r)
