-- ===== src/Examples/CertExamples.antt =====
-- Certificates: a wildcard, and two that cover the same name.
use mesh_cdn.Base.{In, Text, text, ◌*◌, ◌≡◌, refl, ◌↔◌, ◌⊎◌, true, false, List, [], ◌∷◌}
use mesh_cdn.Base.Time.{Time, day}
use mesh_cdn.Cert.{Source, le, self, CertMeta, covers, select_for}
use mesh_cdn.Cert.Covering.{Names, covers_iff}
use mesh_cdn.Cert.Selection.{IsBest, select_for-IsBest}

abbrev cert : Source → Text → List Text → Time → CertMeta
cert source subject san not_after = record {
  fingerprint_prefix = text "ab12";
  fingerprint_full = text "ab12cd34";
  subject = subject;
  san = san;
  source = source;
  issuer = text "CA";
  not_before = 1;
  not_after = not_after;
  selected_for = [];
}

abbrev wild : CertMeta
wild = cert self (text "mesh") (text "*.a.com" ∷ []) (90 * day)

abbrev issued : CertMeta
issued = cert le (text "www.a.com") [] (60 * day)

covers_example : (covers wild (text "www.a.com") ≡ true) ↔ (
    (wild.subject ≡ text "www.a.com")
    ⊎ ((san : Text) × In san wild.san × Names san (text "www.a.com")))
covers_example = covers_iff wild (text "www.a.com")

select_for_example :
    IsBest
      (text "www.a.com")
      (10 * day)
      (wild ∷ issued ∷ [])
      (select_for (text "www.a.com") (wild ∷ issued ∷ []) (10 * day))
select_for_example = select_for-IsBest (text "www.a.com") (wild ∷ issued ∷ []) (10 * day)

covered : covers wild (text "www.a.com") ≡ true
unfolding covers
covered = refl

not_covered : covers wild (text "x.www.a.com") ≡ false
unfolding covers
not_covered = refl
