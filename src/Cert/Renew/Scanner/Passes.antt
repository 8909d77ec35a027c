-- ===== src/Cert/Renew/Scanner/Passes.antt =====
-- What a pass of the scanner enqueues.
use mesh_cdn.Base.{
  ltb, Bool-cases, none-ne-some, Result-cases, length, any, All, length-append, In, All-append,
  All-map, Text, same, same_refl, ◌≤◌, ◌≡◌, refl, sym, ap, ◌∙◌, subst, ◌⊎◌, inl, inr, Bool, true,
  false, ◌||◌, none, some, List, [], ◌∷◌, ◌++◌, append-nil, append_assoc, arith, ok,
}
use mesh_cdn.Base.Time.{Time}
use mesh_cdn.Cert.{CertMeta}
use mesh_cdn.Cert.Store.{StoreError, Store, all_metas}
use mesh_cdn.Cert.Renew.Worker.{Task, Worker, key, is_pending, queue_size, enqueue}
use mesh_cdn.Cert.Renew.Scanner.{
  renewal_task, Selection, selected_fingerprints, is_due, scan, run_once,
}
use mesh_cdn.Cert.Renew.Scanner.Identifiers.{Renews, renewal_task-Renews}
use mesh_cdn.Cert.Renew.Scanner.Due.{IsDue, is_due_iff}

-- The three ways in which Enqueue ends.
enqueue_cases :
    (t : Task) (w : Worker)
    → (((enqueue t w).0 ≡ w) × ((is_pending (key t) w ≡ true) ⊎ (queue_size ≤ length w.queue)))
      ⊎ (((enqueue t w).0.queue ≡ w.queue ++ t ∷ [])
          × ((enqueue t w).0.pending ≡ key t ∷ w.pending))
unfolding enqueue
enqueue_cases t w = elim (Bool-cases (is_pending (key t) w)) [
  | inl e ↦ inl (ground arith, inl e)
  | inr e ↦ elim (Bool-cases (ltb (length w.queue) queue_size)) [
    | inl l ↦ inr (ground arith, ground arith)
    | inr l ↦ inl (ground arith, inr (ground arith))
  ]
]

-- What a pass over `cs` makes of the worker.
pub record Passed (now : Time) (selected : List Text) (cs : List CertMeta) (w w' : Worker)
    : Type 0 where
  pub added : List Task
  pub grown : w'.queue ≡ w.queue ++ added
  pub due : All (λ t. (c : CertMeta) × In c cs × IsDue now selected c × Renews c t) added
  pub met :
      (c : CertMeta)
      → In c cs
      → IsDue now selected c
      → (is_pending (key (renewal_task c)) w' ≡ true) ⊎ (queue_size ≤ length w'.queue)
  pub older : (k : Text) → is_pending k w ≡ true → is_pending k w' ≡ true

module _ (now : Time) (selected : List Text) (c : CertMeta) (cs : List CertMeta)
    (w w1 w' : Worker) where
  -- One certificate, and then the others.
  Passed-cons :
      (front : List Task)
      → w1.queue ≡ w.queue ++ front
      → All (λ t. IsDue now selected c × Renews c t) front
      → (IsDue now selected c
          → (is_pending (key (renewal_task c)) w1 ≡ true) ⊎ (queue_size ≤ length w1.queue))
      → ((k : Text) → is_pending k w ≡ true → is_pending k w1 ≡ true)
      → Passed now selected cs w1 w'
      → Passed now selected (c ∷ cs) w w'
  Passed-cons front e d m o p = record {
    added = front ++ p.added;
    grown = p.grown ∙ ap (λ l. l ++ p.added) e ∙ append_assoc w.queue front p.added;
    due =
        All-append _ front p.added (All-map _ _ front (λ t (i, r). (c, inl refl, i, r)) d)
          (All-map _ _ p.added (λ t (x, i, r, q). (x, inr i, r, q)) p.due);
    met = λ x i y. elim i [
      | inr j ↦ p.met x j y
      | inl q ↦
          subst
            (λ z. (is_pending (key (renewal_task z)) w' ≡ true) ⊎ (queue_size ≤ length w'.queue))
            (sym q)
            (elim (m (subst (IsDue now selected) q y)) [
              | inl h ↦ inl (p.older (key (renewal_task c)) h)
              | inr h ↦
                  inr (let l = ap length p.grown in omega (arith, length-append w1.queue p.added))
            ])
    ];
    older = λ k h. p.older k (o k h);
  }

not_both : (b : Bool) → b ≡ true → b ≡ false → ⊥
not_both b h k = cc

or_true_left : (a b : Bool) → a ≡ true → (a || b) ≡ true
or_true_left a b h = rw h

or_true_right : (a b : Bool) → b ≡ true → (a || b) ≡ true
or_true_right a b h = ground arith

scan-Passed :
    (now : Time) (selected : List Text) (cs : List CertMeta) (w : Worker)
    → Passed now selected cs w (scan now selected cs w)
unfolding scan
scan-Passed now selected [] w = record {
  added = [];
  grown = sym (append-nil w.queue);
  due = tt;
  met = λ c i d. absurd i;
  older = λ k h. h;
}
scan-Passed now selected (c ∷ cs) w = elim (Bool-cases (is_due now selected c)) [
  | inr e ↦ rw e (
      Passed-cons now selected c cs w w _ [] (sym (append-nil w.queue)) tt
        (λ d. absurd (not_both _ ((is_due_iff now selected c).1 d) e)) (λ k h. h)
        (scan-Passed now selected cs w))
  | inl e ↦
      let d = (is_due_iff now selected c).0 e in
      let rest = scan-Passed now selected cs (enqueue (renewal_task c) w).0 in
      rw e (elim (enqueue_cases (renewal_task c) w) [
        | inl (q, r) ↦
            Passed-cons now selected c cs w (enqueue (renewal_task c) w).0 _ []
              (ap (λ (x : Worker). x.queue) q ∙ sym (append-nil w.queue)) tt
              (λ _.
                subst
                  (λ x.
                    (is_pending (key (renewal_task c)) x ≡ true) ⊎ (queue_size ≤ length x.queue))
                  (sym q) r)
              (λ k h. rw q h) rest
        | inr (q, r) ↦
            let t = key (renewal_task c) in
            Passed-cons now selected c cs w (enqueue (renewal_task c) w).0 _ (renewal_task c ∷ []) q
              ((d, renewal_task-Renews c), tt)
              (λ _. inl (ap (any (same t)) r ∙ or_true_left _ _ (same_refl t)))
              (λ k h. ap (any (same k)) r ∙ or_true_right _ _ h) rest
      ])
]

-- A pass that reports an error enqueues nothing. Any other has read the list of the certificates and
-- the prefixes that are in use, and appends to the queue only tasks that renew a certificate of the
-- list which is due, with all of its names; afterwards the task of every such certificate is
-- pending, or the queue is full; and no key that was pending is lost.
pub run_once-Passed :
    (now : Time) (selection : Selection) (s : Store) (w : Worker)
    → ((e : StoreError)
        → (run_once now selection s w).1 ≡ some e
        → (run_once now selection s w).0 ≡ w)
      × ((run_once now selection s w).1 ≡ none
          → (cs : List CertMeta) × (selected : List Text) × (all_metas s ≡ ok cs)
            × (selected_fingerprints selection s ≡ ok selected)
            × Passed now selected cs w (run_once now selection s w).0)
unfolding run_once
run_once-Passed now selection s w = elim (Result-cases (all_metas s)) [
  | inr (x, q) ↦ (λ e h. ground arith, λ h. absurd (ground arith))
  | inl (cs, q) ↦ elim (Result-cases (selected_fingerprints selection s)) [
    | inr (x, r) ↦ (λ e h. ground arith, λ h. absurd (ground arith))
    | inl (selected, r) ↦
        let all : run_once now selection s w ≡ (scan now selected cs w, none) = ground arith in
        (
          λ e h. absurd (none-ne-some (sym (ap (λ x. x.1) all) ∙ h)),
          λ h. (
            cs,
            selected,
            q,
            r,
            subst (λ x. Passed now selected cs w x.0) (sym all) (scan-Passed now selected cs w),
          ),
        )
  ]
]
