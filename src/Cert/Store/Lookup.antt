-- ===== src/Cert/Store/Lookup.antt =====
-- Add and Remove against the manifest as a map from prefixes to certificates.
use mesh_cdn.Base.{
  Option-cases, none-ne-some, ok-injective, ok-ne-err, Result, take, Text, ◌≡◌, refl, sym, ap, ◌∙◌,
  ◌≢◌, ◌⊎◌, inl, inr, Option, none, some, arith, ok, err,
}
use mesh_cdn.Base.Table.{get, put, delete, get-put_self, get-put_ne, get-delete_self, get-delete_ne}
use mesh_cdn.Cert.{Source, CertMeta}
use mesh_cdn.Cert.Store.{
  StoreError, other, Manifest, Store, Crypto, DiskFaults, meta_of, store_new, add, remove,
}
use mesh_cdn.Cert.Store.Operations.{Operation, to_add, to_remove, apply, add_cases, remove_cases}

module _ (cr : Crypto) where
  -- The prefix that a call is about.
  abbrev pub prefix_of : Operation → Text
  prefix_of (to_add f cert_pem key_pem source) = take 16 (cr.sha256_hex cert_pem)
  prefix_of (to_remove f k) = k

  -- What the answer of a call says of the manifest before it and behind it. Add: the certificate
  -- that it returns is listed, and was if the prefix was; an error leaves the manifest as it was.
  -- Remove: without an error the prefix was listed and is not any more; an error leaves the
  -- manifest as it was.
  abbrev pub Answers : Operation → Store → Manifest → Manifest → Type 0
  Answers (to_add f cert_pem key_pem source) s m m' =
      ((c : CertMeta)
        → (add cr f cert_pem key_pem source s).1 ≡ ok c
        → (get (take 16 (cr.sha256_hex cert_pem)) m' ≡ some c)
          × ((old : CertMeta) → get (take 16 (cr.sha256_hex cert_pem)) m ≡ some old → m' ≡ m))
      × ((e : StoreError) → (add cr f cert_pem key_pem source s).1 ≡ err e → m' ≡ m)
  Answers (to_remove f k) s m m' =
      ((remove cr.quote f k s).1 ≡ none → (get k m ≢ none) × (get k m' ≡ none))
      × ((e : StoreError) → (remove cr.quote f k s).1 ≡ some e → m' ≡ m)

  store_new_cases :
      (f : DiskFaults) (cert_pem key_pem : Text) (c : CertMeta) (m : Manifest) (s : Store)
      → ((e : StoreError) × ((store_new f cert_pem key_pem c m s).1 ≡ err e)
          × ((store_new f cert_pem key_pem c m s).0.manifest ≡ s.manifest))
        ⊎ (((store_new f cert_pem key_pem c m s).1 ≡ ok c)
            × ((store_new f cert_pem key_pem c m s).0.manifest ≡ ok (put c.fingerprint_prefix c m)))
  unfolding store_new
  store_new_cases f cert_pem key_pem c m s = elim (Option-cases f.write_crt) [
    | inr (x, w) ↦ inl (other x, ground arith, ground arith)
    | inl w ↦ elim (Option-cases f.write_key) [
      | inr (x, w') ↦ inl (other x, ground arith, ground arith)
      | inl w' ↦ elim (Option-cases f.write_manifest) [
        | inr (x, w'') ↦ inl (other x, ground arith, ground arith)
        | inl w'' ↦ inr (ground arith, ground arith)
      ]
    ]
  ]

  abbrev pub Answered : Operation → Store → Manifest → Type 0
  Answered o s m =
      (m' : Manifest) × ((apply cr o s).manifest ≡ ok m')
      × ((j : Text) → prefix_of o ≢ j → get j m' ≡ get j m)
      × Answers o s m m'

  add-Answered :
      (f : DiskFaults) (cert_pem key_pem : Text) (source : Source) (s : Store) (m : Manifest)
      → s.manifest ≡ ok m
      → Answered (to_add f cert_pem key_pem source) s m
  add-Answered f cert_pem key_pem source s m readable =
      let k = take 16 (cr.sha256_hex cert_pem) in
      let left = λ (x : Store × Result StoreError CertMeta). x.0.manifest in
      let answer = λ (x : Store × Result StoreError CertMeta). x.1 in
      elim (add_cases cr f cert_pem key_pem source s) [
        | inl (e, q) ↦ (
          m,
          ap left q ∙ readable,
          λ j n. refl,
          (λ c h. absurd (ok-ne-err (sym h ∙ ap answer q)), λ x h. refl),
        )
        | inr (inl (m', c, e, g, q)) ↦ (
          m,
          ap left q ∙ readable,
          λ j n. refl,
          (
            λ c' h. (
              ap (get k) (ok-injective (sym readable ∙ e))
                  ∙ g
                  ∙ ap some (ok-injective (sym (ap answer q) ∙ h)),
              λ old g'. refl,
            ),
            λ x h. refl,
          ),
        )
        | inr (inr (m', parsed, e, g, fits, q)) ↦
            let c = meta_of (cr.sha256_hex cert_pem) parsed source in
            let z : m ≡ m' = ok-injective (sym readable ∙ e) in
            elim (store_new_cases f cert_pem key_pem c m' s) [
              | inl (x, r, same_manifest) ↦ (
                m,
                ap left q ∙ same_manifest ∙ readable,
                λ j n. refl,
                (λ c' h. absurd (ok-ne-err (sym h ∙ ap answer q ∙ r)), λ x h. refl),
              )
              | inr (r, listed) ↦ (
                put k c m,
                ap left q ∙ listed ∙ ap (λ i. ok (put k c i)) (sym z),
                λ j n. get-put_ne k j c m n,
                (
                  λ c' h. (
                    get-put_self k c m ∙ ap some (ok-injective (sym (ap answer q ∙ r) ∙ h)),
                    λ old g'. absurd (none-ne-some (sym (ap (get k) z ∙ g) ∙ g')),
                  ),
                  λ x h. absurd (ok-ne-err (sym (ap answer q ∙ r) ∙ h)),
                ),
              )
            ]
      ]

  remove-Answered :
      (f : DiskFaults) (k : Text) (s : Store) (m : Manifest)
      → s.manifest ≡ ok m
      → Answered (to_remove f k) s m
  remove-Answered f k s m readable =
      let left = λ (x : Store × Option StoreError). x.0.manifest in
      let answer = λ (x : Store × Option StoreError). x.1 in
      elim (remove_cases cr f k s) [
        | inl (e, q) ↦ (
          m,
          ap left q ∙ readable,
          λ j n. refl,
          (λ h. absurd (none-ne-some (sym h ∙ ap answer q)), λ x h. refl),
        )
        | inr (m', c, e, g, w, q) ↦
            let z : m ≡ m' = ok-injective (sym readable ∙ e) in
            (
              delete k m,
              ap left q ∙ ap (λ i. ok (delete k i)) (sym z),
              λ j n. get-delete_ne k j m n,
              (
                λ h. (λ no. none-ne-some (sym no ∙ ap (get k) z ∙ g), get-delete_self k m),
                λ x h. absurd (none-ne-some (sym (ap answer q) ∙ h)),
              ),
            )
      ]

  -- If the manifest can be read, it still can be behind a call of Add or Remove, and lists
  -- everything else as it did. A certificate that Add returns is listed under the start of its
  -- hash, and if that prefix was listed, nothing has changed. If Remove reports no error, the prefix
  -- was listed and is not any more. An error of either leaves the manifest as it was.
  pub apply-Answered :
      (o : Operation) (s : Store) (m : Manifest) → s.manifest ≡ ok m → Answered o s m
  apply-Answered (to_add f cert_pem key_pem source) s m readable =
      add-Answered f cert_pem key_pem source s m readable
  apply-Answered (to_remove f k) s m readable = remove-Answered f k s m readable
