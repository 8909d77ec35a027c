-- ===== src/Cert/Renew/Worker/Steps.antt =====
-- What a step of the worker does to the queue: it leaves it, or enqueues one task of a later step.
use mesh_cdn.Base.{
  Bool-cases, Option-cases, Result-cases, Result, Text, text, ℕ, ◌<◌, ◌≡◌, refl, sym, ap, ◌∙◌,
  subst, ◌⊎◌, inl, inr, false, Option, none, some, arith, ok, err,
}
use mesh_cdn.Base.Table.{get, put}
use mesh_cdn.Base.Time.{Time}
use mesh_cdn.Cert.{Source, le, upload, self, unknown}
use mesh_cdn.Cert.Store.{Store, find_meta, all_metas}
use mesh_cdn.Cert.Renew.Worker.{
  TaskType, renew, find_replacement, alert_admin, Task, renew_ids, Worker, enqueue, follow, World,
  step_renew, best_replacement, step_find_replacement, Alert, alerted_lately, step_alert_admin, act,
  store_issued, alert_of,
}

-- How many steps there are from a task on.
abbrev pub rank : TaskType → ℕ
rank renew = 3
rank find_replacement = 2
rank alert_admin = 1

-- The queue is left, or a task of a later step is enqueued.
abbrev pub Follows : Task → Worker → Worker → Type 0
Follows t w w' = (w' ≡ w) ⊎ ((t' : Task) × (rank t'.type < rank t.type) × (w' ≡ (enqueue t' w).0))

issued_Follows :
    (env : World) (r : Result Text (Text × Text)) (t : Task) (w : Worker) (s : Store)
    → t.type ≡ renew
    → Follows t w (store_issued env r t (w, s)).0
issued_Follows env (ok (c, k)) t w s e = inl refl
issued_Follows env (err x) t w s e =
    inr (follow find_replacement (some x) t, rw e (omega arith), refl)

step_renew-Follows :
    (env : World) (t : Task) (w : Worker) (s : Store)
    → t.type ≡ renew
    → Follows t w (step_renew env t (w, s)).0
unfolding step_renew
step_renew-Follows env t w s e = go t.source refl
  where
    go : (x : Source) → t.source ≡ x → Follows t w (step_renew env t (w, s)).0
    go le q = elim (Option-cases env.acme) [
      | inl n ↦ inr (
        follow find_replacement (some (text "ACME client not configured")) t,
        rw e (omega arith),
        ground arith,
      )
      | inr (issue, i) ↦
          let r : step_renew env t (w, s) ≡ store_issued env (issue (renew_ids t)) t (w, s) =
            ground arith in
          subst (λ x. Follows t w x.0) (sym r) (issued_Follows env (issue (renew_ids t)) t w s e)
    ]
    go self q =
        let r : step_renew env t (w, s) ≡ store_issued env (env.self_sign (renew_ids t)) t (w, s) =
          ground arith in
        subst (λ x. Follows t w x.0) (sym r)
          (issued_Follows env (env.self_sign (renew_ids t)) t w s e)
    go upload q = inr (
      follow find_replacement (some (text "upload-source certs are not auto-renewable")) t,
      rw e (omega arith),
      ground arith,
    )
    go (unknown x) q = inl (ground arith)

step_find_replacement-Follows :
    (env : World) (t : Task) (w : Worker) (s : Store)
    → t.type ≡ find_replacement
    → Follows t w (step_find_replacement env t w s)
unfolding step_find_replacement
step_find_replacement-Follows env t w s e = elim (Result-cases (all_metas s)) [
  | inr (x, q) ↦ inr (follow alert_admin (some (env.message x)) t, rw e (omega arith), ground arith)
  | inl (all, q) ↦ elim (Result-cases (find_meta t.fingerprint s)) [
    | inr (x, g) ↦ inl (ground arith)
    | inl (o, g) ↦ elim (Option-cases o) [
      | inl n ↦ inl (ground arith)
      | inr (current, n) ↦ elim (Option-cases (best_replacement current t.identifier none all)) [
        | inr (b, r) ↦ inl (ground arith)
        | inl r ↦ inr (follow alert_admin t.last_error t, rw e (omega arith), ground arith)
      ]
    ]
  ]
]

-- An alert, once the last one for its fingerprint is old enough.
abbrev pub Alerts : Worker → Worker → Option Alert → Type 0
Alerts w w' a =
    (x : Alert) × (a ≡ some x)
    × (alerted_lately x.time (get x.fingerprint w.alerted) ≡ false)
    × (w' ≡ record w { alerted = put x.fingerprint x.time w.alerted })

step_alert_admin_cases :
    (now : Time) (t : Task) (w : Worker) (s : Store)
    → (((step_alert_admin now t w s).0 ≡ w) × ((step_alert_admin now t w s).1 ≡ none))
      ⊎ Alerts w (step_alert_admin now t w s).0 (step_alert_admin now t w s).1
unfolding step_alert_admin
step_alert_admin_cases now t w s =
    elim (Bool-cases (alerted_lately now (get t.fingerprint w.alerted))) [
      | inl e ↦ inl (ground arith, ground arith)
      | inr e ↦ inr (alert_of now t s, ground arith, e, ground arith)
    ]

-- A step follows up, and gives no alert; or it is one for the admin.
pub act_cases :
    (env : World) (now : Time) (t : Task) (w : Worker) (s : Store)
    → (Follows t w (act env now t (w, s)).0 × ((act env now t (w, s)).2 ≡ none))
      ⊎ Alerts w (act env now t (w, s)).0 (act env now t (w, s)).2
unfolding act
act_cases env now t w s = go t.type refl
  where
    go :
        (x : TaskType)
        → t.type ≡ x
        → (Follows t w (act env now t (w, s)).0 × ((act env now t (w, s)).2 ≡ none))
          ⊎ Alerts w (act env now t (w, s)).0 (act env now t (w, s)).2
    go renew q =
        let r : act env now t (w, s)
            ≡ ((step_renew env t (w, s)).0, (step_renew env t (w, s)).1, none) =
          ground arith in
        inl (subst (λ x. Follows t w x.0) (sym r) (step_renew-Follows env t w s q), ap (λ x. x.2) r)
    go find_replacement q =
        let r : act env now t (w, s) ≡ (step_find_replacement env t w s, s, none) = ground arith in
        inl (
          subst (λ x. Follows t w x.0) (sym r) (step_find_replacement-Follows env t w s q),
          ap (λ x. x.2) r,
        )
    go alert_admin q =
        let r : act env now t (w, s)
            ≡ ((step_alert_admin now t w s).0, s, (step_alert_admin now t w s).1) =
          ground arith in
        elim (step_alert_admin_cases now t w s) [
          | inl (same_worker, silent) ↦
              inl (inl (ap (λ x. x.0) r ∙ same_worker), ap (λ x. x.2) r ∙ silent)
          | inr h ↦ inr (subst (λ x. Alerts w x.0 x.2) (sym r) h)
        ]
