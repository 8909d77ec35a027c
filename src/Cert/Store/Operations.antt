-- ===== src/Cert/Store/Operations.antt =====
-- Add and Remove on the directory of certificates, one after the other.
use mesh_cdn.Base.{
  Option-cases, Result-cases, take, Text, text, ◌≡◌, refl, ◌⊎◌, inl, inr, none, some, List, [], ◌∷◌,
  ◌++◌, arith, ok, err,
}
use mesh_cdn.Base.Table.{get, delete}
use mesh_cdn.Cert.{Source, CertMeta}
use mesh_cdn.Cert.Store.{
  StoreError, other, X509, Manifest, Store, Crypto, DiskFaults, remove_file, meta_of, store_new,
  parse_pem, add, remove,
}
use mesh_cdn.Cert.Store.Consistency.{
  IsConsistent, IsConsistent-delete, store_new-IsConsistent, get-remove_file_ne,
}

-- A call, with the way in which the calls of the file system end.
pub data Operation : Type 0 where
  to_add : DiskFaults → Text → Text → Source → Operation
  to_remove : DiskFaults → Text → Operation

module _ (cr : Crypto) where
  abbrev pub apply : Operation → Store → Store
  apply (to_add f cert_pem key_pem source) s = (add cr f cert_pem key_pem source s).0
  apply (to_remove f k) s = (remove cr.quote f k s).0

  abbrev pub run : List Operation → Store → Store
  run [] s = s
  run (o ∷ os) s = run os (apply o s)

  module _ (f : DiskFaults) (cert_pem key_pem : Text) (source : Source) (s : Store) where
    -- Add stops with an error and changes nothing, or finds the prefix, or stores the files.
    pub add_cases :
        ((e : StoreError) × (add cr f cert_pem key_pem source s ≡ (s, err e)))
        ⊎ ((m : Manifest) × (c : CertMeta) × (s.manifest ≡ ok m)
            × (get (take 16 (cr.sha256_hex cert_pem)) m ≡ some c)
            × (add cr f cert_pem key_pem source s ≡ (s, ok c)))
        ⊎ ((m : Manifest) × (parsed : X509) × (s.manifest ≡ ok m)
            × (get (take 16 (cr.sha256_hex cert_pem)) m ≡ none)
            × (cr.key_pair cert_pem key_pem ≡ none)
            × (add cr f cert_pem key_pem source s
                ≡ store_new f cert_pem key_pem
                    (meta_of (cr.sha256_hex cert_pem) parsed source)
                    m
                    s))
    unfolding add
    add_cases = elim (Option-cases (cr.key_pair cert_pem key_pem)) [
      | inr (x, e) ↦ inl (other (text "cert and key do not match: " ++ x), ground arith)
      | inl fits ↦ elim (Result-cases (parse_pem cr cert_pem)) [
        | inr (x, e) ↦ inl (other (text "parse cert: " ++ x), ground arith)
        | inl (parsed, e) ↦ elim (Result-cases s.manifest) [
          | inr (x, e') ↦ inl (x, ground arith)
          | inl (m, e') ↦ elim (Option-cases (get (take 16 (cr.sha256_hex cert_pem)) m)) [
            | inr (c, g) ↦ inr (inl (m, c, e', g, ground arith))
            | inl g ↦ inr (inr (m, parsed, e', g, fits, ground arith))
          ]
        ]
      ]
    ]

    add-IsConsistent : IsConsistent cr s → IsConsistent cr (add cr f cert_pem key_pem source s).0
    add-IsConsistent h = elim add_cases [
      | inl (e, q) ↦ rw q h
      | inr (inl (m, c, e, g, q)) ↦ rw q h
      | inr (inr (m, parsed, e, g, fits, q)) ↦
          rw q (store_new-IsConsistent cr f cert_pem key_pem _ m s e g fits refl refl h)
    ]

  module _ (f : DiskFaults) (k : Text) (s : Store) where
    -- Remove stops with an error and changes nothing, or takes the certificate off the list.
    pub remove_cases :
        ((e : StoreError) × (remove cr.quote f k s ≡ (s, some e)))
        ⊎ ((m : Manifest) × (c : CertMeta) × (s.manifest ≡ ok m)
            × (get k m ≡ some c)
            × (f.write_manifest ≡ none)
            × (remove cr.quote f k s ≡ (
              record {
                manifest = ok (delete k m);
                crts = remove_file f.crt_stays k s.crts;
                keys = remove_file f.key_stays k s.keys;
              },
              none,
            )))
    unfolding remove
    remove_cases = elim (Result-cases s.manifest) [
      | inr (x, e) ↦ inl (x, ground arith)
      | inl (m, e) ↦ elim (Option-cases (get k m)) [
        | inl g ↦ inl (other (text "no certificate with prefix " ++ cr.quote k), ground arith)
        | inr (c, g) ↦ elim (Option-cases f.write_manifest) [
          | inr (x, w) ↦ inl (other x, ground arith)
          | inl w ↦ inr (m, c, e, g, w, ground arith)
        ]
      ]
    ]

    remove-IsConsistent : IsConsistent cr s → IsConsistent cr (remove cr.quote f k s).0
    remove-IsConsistent h = elim remove_cases [
      | inl (e, q) ↦ rw q h
      | inr (m, c, e, g, w, q) ↦ rw q (
          IsConsistent-delete cr k s _ m e refl
            (λ j n. (
              get-remove_file_ne f.crt_stays k j s.crts n,
              get-remove_file_ne f.key_stays k j s.keys n,
            ))
            h)
    ]

  apply-IsConsistent : (o : Operation) (s : Store) → IsConsistent cr s → IsConsistent cr (apply o s)
  apply-IsConsistent (to_add f cert_pem key_pem source) s h =
      add-IsConsistent f cert_pem key_pem source s h
  apply-IsConsistent (to_remove f k) s h = remove-IsConsistent f k s h

  -- Whatever calls of the file system fail, each run of Add and Remove keeps the directory
  -- consistent: the manifest, if it can be read, lists no prefix twice, and for every certificate
  -- that it lists there are the two files; the key is one that fits the certificate, and the
  -- prefix is the start of the certificate's hash.
  pub run-IsConsistent :
      (os : List Operation) (s : Store) → IsConsistent cr s → IsConsistent cr (run os s)
  run-IsConsistent [] s h = h
  run-IsConsistent (o ∷ os) s h = run-IsConsistent os (apply o s) (apply-IsConsistent o s h)
