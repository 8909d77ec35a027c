-- ===== src/Examples/RenewExamples.antt =====
-- The scanner and two goroutines.
use mesh_cdn.Base.{
  Text, text, same, ◌+◌, ◌*◌, ◌≤◌, ◌≡◌, refl, ◌⊎◌, false, none, some, List, [], ◌∷◌, map, arith, ok,
  err,
}
use mesh_cdn.Base.Table.{get}
use mesh_cdn.Base.Time.{day}
use mesh_cdn.Cert.{le, CertMeta}
use mesh_cdn.Cert.Store.{StoreError, Store, all_metas, find_meta}
use mesh_cdn.Cert.Renew.Worker.{
  alert_admin, Task, Worker, key, enqueue, World, act, step_alert_admin, Alert,
}
use mesh_cdn.Cert.Renew.System.{
  System, after_act, Work, receive, carry_out, work, arrive, here, next,
}
use mesh_cdn.Cert.Renew.System.Tracking.{count}
use mesh_cdn.Cert.Renew.System.Soundness.{IsSound, Reach-IsSound}
use mesh_cdn.Cert.Renew.System.Draining.{start, then_work, CanWork, IsIdle, drains}
use mesh_cdn.Cert.Renew.Scanner.{
  selected_fingerprints, run_once, renewal_identifiers, add_identifiers, add_identifier,
}
use mesh_cdn.Cert.Renew.Scanner.Passes.{Passed, run_once-Passed}

abbrev env : World
env = record {
  acme = none;
  self_sign = λ ids. err (text "no entropy");
  message = λ e. text "no store";
  crypto = record {
    key_pair = λ c k. none;
    pem_decode = λ pem. none;
    parse_certificate = λ bytes. err [];
    quote = λ s. s;
    sha256_hex = λ s. s;
  };
  faults = record {
    mkdir = none;
    write_crt = none;
    write_key = none;
    write_manifest = none;
    crt_stays = false;
    key_stays = false;
  };
}

abbrev cert : CertMeta
cert = record {
  fingerprint_prefix = text "f1";
  fingerprint_full = text "f1f2";
  subject = text "a.com";
  san = text "a.com" ∷ text "b.com" ∷ [];
  source = le;
  issuer = text "CA";
  not_before = 1;
  not_after = 90 * day;
  selected_for = [];
}

abbrev store : Store
store = record { manifest = ok ((text "f1", cert) ∷ []); crts = []; keys = [] }

abbrev idle_worker : Worker
idle_worker = record { queue = []; pending = []; alerted = [] }

abbrev quiet : System
quiet = record { worker = idle_worker; store = store; running = []; ending = []; alerts = [] }

abbrev alert_task : Task
alert_task = record {
  type = alert_admin;
  fingerprint = text "f1";
  identifier = text "a.com";
  identifiers = [];
  source = le;
  last_error = some (text "no replacement");
}

quiet-IsSound : IsSound 2 quiet
unfolding count
quiet-IsSound = record {
  tracked = λ k. omega arith;
  bounded = omega arith;
  busy = omega arith;
  kept = tt;
  spaced = tt;
}

abbrev arrived : System
arrived = record quiet { worker = (enqueue alert_task idle_worker).0 }

abbrev received : System
received = record arrived {
  worker = record arrived.worker { queue = [] };
  running = alert_task ∷ [];
}

abbrev performed : System
performed = after_act env (10 * day) alert_task [] received

arrived_queue : arrived.worker.queue ≡ alert_task ∷ []
unfolding enqueue key same
arrived_queue = refl

receiving : Work 2 arrived received
receiving = receive alert_task [] arrived_queue (omega arith)

performing : Work 2 received performed
performing = carry_out env (10 * day) [] alert_task [] refl

Reach-IsSound_example : IsSound 2 performed
Reach-IsSound_example =
    Reach-IsSound 2 quiet-IsSound
      (next (next (next here (arrive alert_task)) (work receiving)) (work performing))

arrived-IsSound : IsSound 2 arrived
arrived-IsSound = Reach-IsSound 2 quiet-IsSound (next here (arrive alert_task))

drains_example : (2 ≤ 576 + 8 * 2) × (CanWork 2 performed ⊎ IsIdle 2 performed)
drains_example =
    drains 2 env 0 (omega arith) arrived-IsSound (then_work (then_work start receiving) performing)

alerted : map (λ (a : Alert). a.message) performed.alerts ≡ text "no replacement" ∷ []
unfolding act step_alert_admin get find_meta enqueue key same
alerted = refl

run_once-Passed_example :
    ((e : StoreError)
      → (run_once (88 * day) none store idle_worker).1 ≡ some e
      → (run_once (88 * day) none store idle_worker).0 ≡ idle_worker)
    × ((run_once (88 * day) none store idle_worker).1 ≡ none
        → (cs : List CertMeta) × (selected : List Text) × (all_metas store ≡ ok cs)
          × (selected_fingerprints none store ≡ ok selected)
          × Passed
              (88 * day)
              selected
              cs
              idle_worker
              (run_once (88 * day) none store idle_worker).0)
run_once-Passed_example = run_once-Passed (88 * day) none store idle_worker

identifiers : renewal_identifiers cert ≡ text "a.com" ∷ text "b.com" ∷ []
unfolding renewal_identifiers add_identifiers add_identifier same
identifiers = refl
