-- ===== src/Cert/Renew/Scanner.antt =====
-- internal/cert/renew/scanner.go: one pass over the certificates.
pub mod Identifiers
pub mod Due
pub mod Passes
use mesh_cdn.Base.{
  if◌then◌else◌, Result, any, Text, same, is_empty, ℕ, ◌*◌, Bool, not, ◌&&◌, ◌||◌, Option, none,
  some, List, [], ◌∷◌, ◌++◌, map, ok, err,
}
use mesh_cdn.Base.Int.{pos, ltb_ℤ}
use mesh_cdn.Base.Time.{Time, is_zero, time_sub, day}
use mesh_cdn.Cert.{CertMeta, is_expiring}
use mesh_cdn.Cert.Store.{StoreError, Store, all_metas}
use mesh_cdn.Cert.Renew.Worker.{renew, Task, Worker, enqueue}

abbrev pub expiry_threshold : ℕ
expiry_threshold = 3 * day

abbrev pub is_seen : Text → List Text → Bool
is_seen s out = any (same s) out

-- The closure `add` of renewalIdentifiers. The map `seen` has the texts that `out` has.
unfoldable pub add_identifier : List Text → Text → List Text
add_identifier out s = if is_empty s || is_seen s out then out else out ++ s ∷ []

unfoldable pub add_identifiers : List Text → List Text → List Text
add_identifiers out [] = out
add_identifiers out (s ∷ ss) = add_identifiers (add_identifier out s) ss

-- renewalIdentifiers
unfoldable pub renewal_identifiers : CertMeta → List Text
renewal_identifiers c = add_identifiers (add_identifier [] c.subject) c.san

-- The subject, or else the first of the identifiers.
abbrev pub primary : Text → List Text → Text
primary [] [] = []
primary [] (x ∷ xs) = x
primary (a ∷ s) ids = a ∷ s

abbrev pub renewal_task : CertMeta → Task
renewal_task c = record {
  type = renew;
  fingerprint = c.fingerprint_prefix;
  identifier = primary c.subject (renewal_identifiers c);
  identifiers = renewal_identifiers c;
  source = c.source;
  last_error = none;
}

-- What SelectedEndpoints gives, if it is set: the prefix for each endpoint, or an error.
abbrev pub Selection : Type 0
Selection = Option (Result StoreError (List (Text × Text)))

-- selectedFingerprints
unfoldable pub selected_fingerprints : Selection → Store → Result StoreError (List Text)
selected_fingerprints (some (err e)) s = err e
selected_fingerprints (some (ok mapping)) s = ok (map (λ (e : Text × Text). e.1) mapping)
selected_fingerprints none s = elim (all_metas s) [
  | err e ↦ err e
  | ok all ↦ ok (map (λ (c : CertMeta). c.fingerprint_prefix) all)
]

-- The three guards of the loop: the certificate is in use, it ends soon, and it did not end more
-- than 30 days ago.
unfoldable pub is_due : Time → List Text → CertMeta → Bool
is_due now selected c =
    any (same c.fingerprint_prefix) selected
    && (is_expiring c now expiry_threshold
        && not (not (is_zero c.not_after) && ltb_ℤ (pos (30 * day)) (time_sub now c.not_after)))

-- The loop.
unfoldable pub scan : Time → List Text → List CertMeta → Worker → Worker
scan now selected [] w = w
scan now selected (c ∷ cs) w =
    scan now selected cs (if is_due now selected c then (enqueue (renewal_task c) w).0 else w)

-- RunOnce
unfoldable pub run_once : Time → Selection → Store → Worker → Worker × Option StoreError
unfolding scan selected_fingerprints
run_once now selection s w = elim (all_metas s) [
  | err e ↦ (w, some e)
  | ok all ↦ elim (selected_fingerprints selection s) [
    | err e ↦ (w, some e)
    | ok selected ↦ (scan now selected all w, none)
  ]
]
