-- ===== src/Cert/Renew/Worker.antt =====
-- internal/cert/renew/worker.go: the tasks, the queue and the three steps.
pub mod Steps
use mesh_cdn.Base.{
  ltb, if◌then◌else◌, Result, length, filter, any, Text, text, same, ℕ, Bool, true, false, not,
  ◌&&◌, Option, none, some, List, [], ◌∷◌, ◌++◌, ok, err,
}
use mesh_cdn.Base.Int.{pos, ltb_ℤ}
use mesh_cdn.Base.Table.{get, put}
use mesh_cdn.Base.Time.{Time, is_after, time_sub, day}
use mesh_cdn.Cert.{Source, le, upload, self, unknown, CertMeta, covers}
use mesh_cdn.Cert.Store.{StoreError, Store, Crypto, DiskFaults, add, find_meta, all_metas}

pub data TaskType : Type 0 where
  renew find_replacement alert_admin : TaskType

-- The string that the type is.
abbrev pub type_name : TaskType → Text
type_name renew = text "renew"
type_name find_replacement = text "find-replacement"
type_name alert_admin = text "alert-admin"

pub record Task : Type 0 where
  pub type : TaskType
  pub fingerprint : Text
  pub identifier : Text
  pub identifiers : List Text
  pub source : Source
  pub last_error : Option Text

-- renewIDs
abbrev pub renew_ids : Task → List Text
renew_ids t = elim t.identifiers [ [] ↦ t.identifier ∷ [] | x ∷ xs ↦ x ∷ xs ]

-- The fields of Worker that change: the queue, the keys of the tasks that are not done, and the
-- time of the last alert by fingerprint.
pub record Worker : Type 0 where
  pub queue : List Task
  pub pending : List Text
  pub alerted : List (Text × Time)

-- The key by which tasks are told apart.
unfoldable pub key : Task → Text
key t = type_name t.type ++ (text ":" ++ t.fingerprint)

abbrev pub is_pending : Text → Worker → Bool
is_pending k w = any (same k) w.pending

abbrev pub queue_size : ℕ
queue_size = 64

-- Enqueue. On a full queue the key that was stored is deleted again.
unfoldable pub enqueue : Task → Worker → Worker × Bool
enqueue t w =
    if is_pending (key t) w
    then (w, false)
    else if ltb (length w.queue) queue_size
    then (record w { queue = w.queue ++ t ∷ []; pending = key t ∷ w.pending }, true)
    else (w, false)

-- A task that a step enqueues for the next one. It has no list of identifiers.
abbrev pub follow : TaskType → Option Text → Task → Task
follow type error t = record {
  type = type;
  fingerprint = t.fingerprint;
  identifier = t.identifier;
  identifiers = [];
  source = t.source;
  last_error = error;
}

-- The calls of the ACME client, if there is one, and of GenerateSelfSignedMulti: the certificate
-- and its key, or an error. The text of an error of the store, and the calls that it makes.
pub record World : Type 0 where
  pub acme : Option (List Text → Result Text (Text × Text))
  pub self_sign : List Text → Result Text (Text × Text)
  pub message : StoreError → Text
  pub crypto : Crypto
  pub faults : DiskFaults

-- What a call gave is stored, or the next step is enqueued.
abbrev pub store_issued : World → Result Text (Text × Text) → Task → Worker × Store → Worker × Store
store_issued env (err e) t (w, s) = ((enqueue (follow find_replacement (some e) t) w).0, s)
store_issued env (ok (cert_pem, key_pem)) t (w, s) =
    (w, (add env.crypto env.faults cert_pem key_pem t.source s).0)

-- stepRenew
unfoldable pub step_renew : World → Task → Worker × Store → Worker × Store
step_renew env t (w, s) = elim t.source [
  | le ↦ elim env.acme [
    | none ↦
        ((enqueue (follow find_replacement (some (text "ACME client not configured")) t) w).0, s)
    | some issue ↦ store_issued env (issue (renew_ids t)) t (w, s)
  ]
  | self ↦ store_issued env (env.self_sign (renew_ids t)) t (w, s)
  | upload ↦ (
    (enqueue (follow find_replacement (some (text "upload-source certs are not auto-renewable")) t)
        w).0,
    s,
  )
  | unknown x ↦ (w, s)
]

abbrev is_self : Source → Bool
is_self self = true
is_self _ = false

-- The four guards of the loop for a replacement.
unfoldable pub is_replacement : CertMeta → Text → CertMeta → Bool
is_replacement current identifier c =
    not (is_self c.source)
    && (not (same c.fingerprint_prefix current.fingerprint_prefix)
        && (covers c identifier && is_after c.not_after current.not_after))

abbrev pub later_one : Option CertMeta → CertMeta → Option CertMeta
later_one none c = some c
later_one (some b) c = if is_after c.not_after b.not_after then some c else some b

-- The loop for the replacement that ends last.
unfoldable pub best_replacement :
    CertMeta → Text → Option CertMeta → List CertMeta → Option CertMeta
unfolding is_replacement
best_replacement current identifier best [] = best
best_replacement current identifier best (c ∷ cs) =
    best_replacement current identifier
      (if is_replacement current identifier c then later_one best c else best) cs

-- stepFindReplacement
unfoldable pub step_find_replacement : World → Task → Worker → Store → Worker
unfolding best_replacement
step_find_replacement env t w s = elim (all_metas s) [
  | err e ↦ (enqueue (follow alert_admin (some (env.message e)) t) w).0
  | ok all ↦ elim (find_meta t.fingerprint s) [
    | err e ↦ w
    | ok none ↦ w
    | ok (some current) ↦ elim (best_replacement current t.identifier none all) [
      | some b ↦ w
      | none ↦ (enqueue (follow alert_admin t.last_error t) w).0
    ]
  ]
]

-- A call of AlertSink.Alert, with the fingerprint and the time.
pub record Alert : Type 0 where
  pub fingerprint : Text
  pub time : Time
  pub identifier : Text
  pub source : Source
  pub not_after : Time
  pub message : Text

-- Less than 24 hours since the last alert for the fingerprint.
abbrev pub alerted_lately : Time → Option Time → Bool
alerted_lately now none = false
alerted_lately now (some last) = ltb_ℤ (time_sub now last) (pos day)

abbrev pub end_of : Result StoreError (Option CertMeta) → Time
end_of (ok (some c)) = c.not_after
end_of (ok none) = 0
end_of (err e) = 0

abbrev pub error_text : Option Text → Text
error_text none = []
error_text (some e) = e

abbrev pub alert_of : Time → Task → Store → Alert
alert_of now t s = record {
  fingerprint = t.fingerprint;
  time = now;
  identifier = t.identifier;
  source = t.source;
  not_after = end_of (find_meta t.fingerprint s);
  message = error_text t.last_error;
}

-- stepAlertAdmin
unfoldable pub step_alert_admin : Time → Task → Worker → Store → Worker × Option Alert
step_alert_admin now t w s =
    if alerted_lately now (get t.fingerprint w.alerted)
    then (w, none)
    else (record w { alerted = put t.fingerprint now w.alerted }, some (alert_of now t s))

-- The switch of dispatch.
unfoldable pub act : World → Time → Task → Worker × Store → Worker × Store × Option Alert
act env now t (w, s) = elim t.type [
  | renew ↦ let (w', s') = step_renew env t (w, s) in (w', s', none)
  | find_replacement ↦ (step_find_replacement env t w s, s, none)
  | alert_admin ↦ let (w', a) = step_alert_admin now t w s in (w', s, a)
]

-- What dispatch defers.
unfoldable pub clear_pending : Task → Worker → Worker
clear_pending t w = record w { pending = filter (λ k. not (same k (key t))) w.pending }
