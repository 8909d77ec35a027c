-- ===== src/Cert/Store.antt =====
-- internal/cert/store.go: Store, a directory of certificates with their manifest.
pub mod Consistency
pub mod Operations
pub mod Lookup
use mesh_cdn.Base.{
  if◌then◌else◌, Result, take, All, Text, text, same, Bool, not, Option, none, some, List, [], ◌++◌,
  map, ok, err,
}
use mesh_cdn.Base.Before.{before}
use mesh_cdn.Base.Sort.{sort_by}
use mesh_cdn.Base.Table.{get, put, delete}
use mesh_cdn.Base.Time.{Time}
use mesh_cdn.Cert.{Source, CertMeta}

-- An error of a read or a write; os.ErrNotExist is told apart.
pub data StoreError : Type 0 where
  not_exist : StoreError
  other : Text → StoreError

-- What x509.ParseCertificate reads.
pub record X509 : Type 0 where
  pub common_name : Text
  pub dns_names : List Text
  pub ip_addresses : List Text
  pub issuer_name : Text
  pub valid_from : Time
  pub valid_until : Time

-- Manifest: the certificates by their fingerprint prefix.
abbrev pub Manifest : Type 0
Manifest = List (Text × CertMeta)

-- The directory: manifest.json, or the error of a read of it; and the files <prefix>.crt and
-- <prefix>.key, by the prefix.
pub record Store : Type 0 where
  pub manifest : Result StoreError Manifest
  pub crts : List (Text × Text)
  pub keys : List (Text × Text)

-- How the calls of the file system end: the errors of creating the directory and of writing the
-- three files, and whether os.Remove leaves a file behind.
pub record DiskFaults : Type 0 where
  pub mkdir : Option Text
  pub write_crt : Option Text
  pub write_key : Option Text
  pub write_manifest : Option Text
  pub crt_stays : Bool
  pub key_stays : Bool

-- saveManifest. The new file is renamed over the old one, so a failure changes nothing.
abbrev pub save_manifest : DiskFaults → Manifest → Store → Store × Option StoreError
save_manifest f m s = elim f.write_manifest [
  | some e ↦ (s, some (other e))
  | none ↦ (record s { manifest = ok m }, none)
]

-- os.Remove
abbrev pub remove_file : Bool → Text → List (Text × Text) → List (Text × Text)
remove_file stays k files = if stays then files else delete k files

-- NewStore
unfoldable pub new_store : DiskFaults → Store → Store × Option StoreError
new_store f s = elim f.mkdir [
  | some e ↦ (s, some (other (text "create cert dir: " ++ e)))
  | none ↦ elim s.manifest [
    | ok m ↦ (s, none)
    | err not_exist ↦ save_manifest f [] s
    | err (other e) ↦ (s, some (other e))
  ]
]

-- collectSANs
abbrev pub collect_sans : X509 → List Text
collect_sans c = c.dns_names ++ c.ip_addresses

-- The metadata that Add computes.
abbrev pub meta_of : Text → X509 → Source → CertMeta
meta_of fp c source = record {
  fingerprint_prefix = take 16 fp;
  fingerprint_full = fp;
  subject = c.common_name;
  san = collect_sans c;
  source = source;
  issuer = c.issuer_name;
  not_before = c.valid_from;
  not_after = c.valid_until;
  selected_for = [];
}

-- The second half of Add: the two files, and then the manifest.
unfoldable pub store_new :
    DiskFaults → Text → Text → CertMeta → Manifest → Store → Store × Result StoreError CertMeta
store_new f cert_pem key_pem c m s =
    let k = c.fingerprint_prefix in
    elim f.write_crt [
      | some e ↦ (s, err (other e))
      | none ↦ elim f.write_key [
        | some e ↦
            (record s { crts = remove_file f.crt_stays k (put k cert_pem s.crts) }, err (other e))
        | none ↦ elim f.write_manifest [
          | some e ↦ (
            record s { crts = put k cert_pem s.crts; keys = put k key_pem s.keys },
            err (other e),
          )
          | none ↦ (
            record {
              manifest = ok (put k c m);
              crts = put k cert_pem s.crts;
              keys = put k key_pem s.keys;
            },
            ok c,
          )
        ]
      ]
    ]

-- The calls of crypto/tls, encoding/pem, crypto/x509 and crypto/sha256, and the verb %q of fmt.
pub record Crypto : Type 0 where
  pub key_pair : Text → Text → Option Text
  pub pem_decode : Text → Option (Text × Text)
  pub parse_certificate : Text → Result Text X509
  pub quote : Text → Text
  pub sha256_hex : Text → Text

-- ParsePEM
unfoldable pub parse_pem : Crypto → Text → Result Text X509
unfolding same
parse_pem cr pem = elim (cr.pem_decode pem) [
  | none ↦ err (text "no PEM block found")
  | some (kind, bytes) ↦
      if same kind (text "CERTIFICATE")
      then cr.parse_certificate bytes
      else err (text "expected CERTIFICATE block, got " ++ cr.quote kind)
]

-- Store.Add
unfoldable pub add :
    Crypto → DiskFaults → Text → Text → Source → Store → Store × Result StoreError CertMeta
unfolding parse_pem store_new
add cr f cert_pem key_pem source s = elim (cr.key_pair cert_pem key_pem) [
  | some e ↦ (s, err (other (text "cert and key do not match: " ++ e)))
  | none ↦ elim (parse_pem cr cert_pem) [
    | err e ↦ (s, err (other (text "parse cert: " ++ e)))
    | ok parsed ↦ elim s.manifest [
      | err e ↦ (s, err e)
      | ok m ↦ elim (get (take 16 (cr.sha256_hex cert_pem)) m) [
        | some existing ↦ (s, ok existing)
        | none ↦ store_new f cert_pem key_pem (meta_of (cr.sha256_hex cert_pem) parsed source) m s
      ]
    ]
  ]
]

-- Store.Remove
unfoldable pub remove : (Text → Text) → DiskFaults → Text → Store → Store × Option StoreError
remove quote f k s = elim s.manifest [
  | err e ↦ (s, some e)
  | ok m ↦ elim (get k m) [
    | none ↦ (s, some (other (text "no certificate with prefix " ++ quote k)))
    | some c ↦ elim f.write_manifest [
      | some e ↦ (s, some (other e))
      | none ↦ (
        record {
          manifest = ok (delete k m);
          crts = remove_file f.crt_stays k s.crts;
          keys = remove_file f.key_stays k s.keys;
        },
        none,
      )
    ]
  ]
]

-- Store.Get
unfoldable pub find_meta : Text → Store → Result StoreError (Option CertMeta)
find_meta k s = elim s.manifest [ err e ↦ err e | ok m ↦ ok (get k m) ]

abbrev pub prefix_before : CertMeta → CertMeta → Bool
prefix_before a b = before a.fingerprint_prefix b.fingerprint_prefix

-- Store.All
unfoldable pub all_metas : Store → Result StoreError (List CertMeta)
all_metas s = elim s.manifest [
  | err e ↦ err e
  | ok m ↦ ok (sort_by prefix_before (map (λ (e : Text × CertMeta). e.1) m))
]
