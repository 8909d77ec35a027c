-- ===== src/Examples/StoreExamples.antt =====
-- A directory of certificates, with a toy hash.
use mesh_cdn.Base.{
  if◌then◌else◌, none-ne-some, ok-injective, text, same, ◌≡◌, refl, ap, ◌∙◌, subst, false, none,
  some, List, [], ◌∷◌, ◌++◌, ok, err,
}
use mesh_cdn.Base.Table.{get, put, delete, DistinctKeys}
use mesh_cdn.Cert.{le, upload}
use mesh_cdn.Cert.Store.{StoreError, X509, Store, Crypto, DiskFaults, add, remove}
use mesh_cdn.Cert.Store.Consistency.{IsConsistent}
use mesh_cdn.Cert.Store.Operations.{Operation, to_add, to_remove, run, run-IsConsistent}
use mesh_cdn.Cert.Store.Lookup.{Answered, apply-Answered}

abbrev parsed : X509
parsed = record {
  common_name = text "a.com";
  dns_names = text "a.com" ∷ text "www.a.com" ∷ [];
  ip_addresses = text "10.0.0.1" ∷ [];
  issuer_name = text "CA";
  valid_from = 1;
  valid_until = 9;
}

abbrev crypto : Crypto
crypto = record {
  key_pair = λ c k. if same c k then none else some (text "mismatch");
  pem_decode = λ pem. some (text "CERTIFICATE", pem);
  parse_certificate = λ bytes. ok parsed;
  quote = λ s. s;
  sha256_hex = λ pem. pem ++ text "0123456789abcdef";
}

abbrev no_faults : DiskFaults
no_faults = record {
  mkdir = none;
  write_crt = none;
  write_key = none;
  write_manifest = none;
  crt_stays = false;
  key_stays = false;
}

abbrev full_disk : DiskFaults
full_disk = record no_faults { write_manifest = some (text "no space") }

abbrev empty : Store
empty = record { manifest = ok []; crts = []; keys = [] }

empty-IsConsistent : IsConsistent crypto empty
unfolding get
empty-IsConsistent m q =
    let z : [] ≡ m = ok-injective q in
    (subst DistinctKeys z tt, λ k c g. absurd (none-ne-some (ap (get k) z ∙ g)))

abbrev calls : List Operation
calls =
    to_add no_faults (text "A") (text "A") le
    ∷ to_add full_disk (text "B") (text "B") upload
    ∷ to_add no_faults (text "C") (text "C") upload
    ∷ to_remove no_faults (text "A0123456789abcde")
    ∷ []

run-IsConsistent_example : IsConsistent crypto (run crypto calls empty)
run-IsConsistent_example = run-IsConsistent crypto calls empty empty-IsConsistent

apply-Answered_example : Answered crypto (to_add no_faults (text "A") (text "A") le) empty []
apply-Answered_example =
    apply-Answered crypto (to_add no_faults (text "A") (text "A") le) empty [] refl

-- The certificate of the second call has its files and is not listed.
left :
    (run crypto calls empty).manifest
    ≡ ok (
        (
          text "C0123456789abcde",
          record {
            fingerprint_prefix = text "C0123456789abcde";
            fingerprint_full = text "C0123456789abcdef";
            subject = text "a.com";
            san = text "a.com" ∷ text "www.a.com" ∷ text "10.0.0.1" ∷ [];
            source = upload;
            issuer = text "CA";
            not_before = 1;
            not_after = 9;
            selected_for = [];
          },
        )
        ∷ [])
unfolding add remove same get put delete
left = refl

mismatch :
    (add crypto no_faults (text "A") (text "B") le empty).1
    ≡ err (StoreError.other (text "cert and key do not match: mismatch"))
unfolding add same
mismatch = refl
