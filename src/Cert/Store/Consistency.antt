-- ===== src/Cert/Store/Consistency.antt =====
-- What the directory of certificates promises, whatever calls of the file system fail.
use mesh_cdn.Base.{
  Bool-cases, Option-cases, some-injective, ok-injective, take, Text, same, same→eq, eq→same, ◌≡◌,
  refl, sym, ap, ◌∙◌, subst, ◌≢◌, inl, inr, Bool, true, false, none, some, List, arith, ok,
}
use mesh_cdn.Base.Table.{
  get, put, delete, get-put_self, get-put_ne, get-delete_self, get-delete_ne, DistinctKeys,
  put-DistinctKeys, delete-DistinctKeys,
}
use mesh_cdn.Cert.{CertMeta}
use mesh_cdn.Cert.Store.{Manifest, Store, Crypto, DiskFaults, remove_file, store_new}

pub get-remove_file_ne :
    (stays : Bool) (k j : Text) (files : List (Text × Text))
    → k ≢ j
    → get j (remove_file stays k files) ≡ get j files
get-remove_file_ne true k j files h = refl
get-remove_file_ne false k j files h = get-delete_ne k j files h

module _ (cr : Crypto) where
  -- The files of the prefix `k` are those of the certificate with the metadata `c`: the key fits
  -- the certificate, and `k` is the start of the hash of the certificate.
  pub record Backs (s : Store) (k : Text) (c : CertMeta) (cert_pem key_pem : Text) : Type 0 where
    pub has_crt : get k s.crts ≡ some cert_pem
    pub has_key : get k s.keys ≡ some key_pem
    pub fits : cr.key_pair cert_pem key_pem ≡ none
    pub full : c.fingerprint_full ≡ cr.sha256_hex cert_pem
    pub prefix : c.fingerprint_prefix ≡ k
    pub named : k ≡ take 16 (cr.sha256_hex cert_pem)

  abbrev pub IsBacked : Store → Text → CertMeta → Type 0
  IsBacked s k c = (cert_pem : Text) × (key_pem : Text) × Backs s k c cert_pem key_pem

  -- If the manifest can be read, it lists no prefix twice, and every certificate of it has its files.
  abbrev pub IsConsistent : Store → Type 0
  IsConsistent s =
      (m : Manifest)
      → s.manifest ≡ ok m
      → DistinctKeys m × ((k : Text) (c : CertMeta) → get k m ≡ some c → IsBacked s k c)

  -- Other files than those of `k` are as they were.
  abbrev pub SameBut : Text → Store → Store → Type 0
  SameBut k s t = (j : Text) → k ≢ j → (get j t.crts ≡ get j s.crts) × (get j t.keys ≡ get j s.keys)

  IsBacked-SameBut :
      (k j : Text) (s t : Store) (c : CertMeta)
      → SameBut k s t
      → k ≢ j
      → IsBacked s j c
      → IsBacked t j c
  IsBacked-SameBut k j s t c same_files n (crt, key, b) = (
    crt,
    key,
    record {
      has_crt = (same_files j n).0 ∙ b.has_crt;
      has_key = (same_files j n).1 ∙ b.has_key;
      fits = b.fits;
      full = b.full;
      prefix = b.prefix;
      named = b.named;
    },
  )

  pub absent :
      (k j : Text) (c : CertMeta) (m : Manifest) → get k m ≡ none → get j m ≡ some c → k ≢ j
  absent k j c m free g e = let g' = ap (λ i. get i m) e in cc

  -- A step that leaves the manifest alone, and the files of all prefixes but one that it does not
  -- list.
  IsConsistent-SameBut :
      (k : Text) (s t : Store) (m : Manifest)
      → s.manifest ≡ ok m
      → t.manifest ≡ ok m
      → get k m ≡ none
      → SameBut k s t
      → IsConsistent s
      → IsConsistent t
  IsConsistent-SameBut k s t m e e' free same_files h m' q =
      let z : m ≡ m' = ok-injective (sym e' ∙ q) in
      let (d, backed) = h m e in
      (
        subst DistinctKeys z d,
        λ j c g.
            let g' : get j m ≡ some c = ap (get j) z ∙ g in
            IsBacked-SameBut k j s t c same_files (absent k j c m free g') (backed j c g'),
      )

  -- A step that lists a certificate with its files.
  IsConsistent-put :
      (k : Text) (c : CertMeta) (s t : Store) (m : Manifest)
      → s.manifest ≡ ok m
      → t.manifest ≡ ok (put k c m)
      → SameBut k s t
      → IsBacked t k c
      → IsConsistent s
      → IsConsistent t
  IsConsistent-put k c s t m e e' same_files new h m' q =
      let z : put k c m ≡ m' = ok-injective (sym e' ∙ q) in
      let (d, backed) = h m e in
      (
        subst DistinctKeys z (put-DistinctKeys k c m d),
        λ j c' g. elim (Bool-cases (same k j)) [
          | inl y ↦
              let x = same→eq k j y in
              let c-eq : c ≡ c' =
                some-injective
                  (sym (get-put_self k c m) ∙ ap (λ i. get i (put k c m)) x ∙ ap (get j) z ∙ g) in
              subst (λ i. IsBacked t i c') x (subst (IsBacked t k) c-eq new)
          | inr y ↦
              let n : k ≢ j = λ x. ground (arith, eq→same k j x) in
              IsBacked-SameBut k j s t c' same_files n
                (backed j c' (sym (get-put_ne k j c m n) ∙ ap (get j) z ∙ g))
        ],
      )

  -- A step that takes a certificate off the list, and may then remove its files.
  pub IsConsistent-delete :
      (k : Text) (s t : Store) (m : Manifest)
      → s.manifest ≡ ok m
      → t.manifest ≡ ok (delete k m)
      → SameBut k s t
      → IsConsistent s
      → IsConsistent t
  IsConsistent-delete k s t m e e' same_files h m' q =
      let z : delete k m ≡ m' = ok-injective (sym e' ∙ q) in
      let (d, backed) = h m e in
      (
        subst DistinctKeys z (delete-DistinctKeys k m d),
        λ j c g.
            let g' : get j (delete k m) ≡ some c = ap (get j) z ∙ g in
            let n = absent k j c (delete k m) (get-delete_self k m) g' in
            IsBacked-SameBut k j s t c same_files n (backed j c (sym (get-delete_ne k j m n) ∙ g')),
      )

  get-remove_put_ne :
      (stays : Bool) (k j : Text) (pem : Text) (files : List (Text × Text))
      → k ≢ j
      → get j (remove_file stays k (put k pem files)) ≡ get j files
  get-remove_put_ne stays k j pem files n =
      get-remove_file_ne stays k j (put k pem files) n ∙ get-put_ne k j pem files n

  pub store_new-IsConsistent :
      (f : DiskFaults) (cert_pem key_pem : Text) (c : CertMeta) (m : Manifest) (s : Store)
      → s.manifest ≡ ok m
      → get c.fingerprint_prefix m ≡ none
      → cr.key_pair cert_pem key_pem ≡ none
      → c.fingerprint_full ≡ cr.sha256_hex cert_pem
      → c.fingerprint_prefix ≡ take 16 (cr.sha256_hex cert_pem)
      → IsConsistent s
      → IsConsistent (store_new f cert_pem key_pem c m s).0
  unfolding store_new
  store_new-IsConsistent f cert_pem key_pem c m s e free fits full named h =
      let k = c.fingerprint_prefix in
      elim (Option-cases f.write_crt) [
        | inr (x, w) ↦ rw w h
        | inl w ↦ elim (Option-cases f.write_key) [
          | inr (x, w') ↦
              rw (w, w')
                (IsConsistent-SameBut k s _ m e e free
                  (λ j n. (get-remove_put_ne f.crt_stays k j cert_pem s.crts n, refl)) h)
          | inl w' ↦ elim (Option-cases f.write_manifest) [
            | inr (x, w'') ↦
                rw (w, w', w'')
                  (IsConsistent-SameBut k s _ m e e free
                    (λ j n. (get-put_ne k j cert_pem s.crts n, get-put_ne k j key_pem s.keys n)) h)
            | inl w'' ↦
                rw (w, w', w'')
                  (IsConsistent-put k c s _ m e refl
                    (λ j n. (get-put_ne k j cert_pem s.crts n, get-put_ne k j key_pem s.keys n))
                    (
                      cert_pem,
                      key_pem,
                      record {
                        has_crt = get-put_self k cert_pem s.crts;
                        has_key = get-put_self k key_pem s.keys;
                        fits = fits;
                        full = full;
                        prefix = refl;
                        named = named;
                      },
                    )
                    h)
          ]
        ]
      ]
