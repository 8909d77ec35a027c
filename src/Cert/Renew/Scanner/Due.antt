-- ===== src/Cert/Renew/Scanner/Due.antt =====
-- Which certificates are due.
use mesh_cdn.Cert.Renew.Scanner.Identifiers.{any-same-In}
use mesh_cdn.Base.{
  ==_iff, any, In, Text, same, ◌+◌, ◌*◌, ◌≤◌, ◌<◌, ◌≡◌, ◌≢◌, ◌↔◌, ◌⊎◌, inl, inr, Bool, true, false,
  not, ◌&&◌, List, arith,
}
use mesh_cdn.Base.Int.{pos, ltb_ℤ}
use mesh_cdn.Base.Time.{Time, is_zero, day, time_sub, time_sub_le}
use mesh_cdn.Cert.{CertMeta, is_expiring}
use mesh_cdn.Cert.Selection.{is_expiring_iff}
use mesh_cdn.Cert.Renew.Scanner.{is_due, expiry_threshold}

-- The certificate is in use, ends within three days, and did not end more than 30 days ago.
pub record IsDue (now : Time) (selected : List Text) (c : CertMeta) : Type 0 where
  pub used : In c.fingerprint_prefix selected
  pub ends : c.not_after ≢ 0
  pub soon : c.not_after < now + 3 * day
  pub fresh : now ≤ c.not_after + 30 * day

guards :
    (a b z g : Bool)
    → ((a && (b && not (not z && g))) ≡ true)
      ↔ ((a ≡ true) × (b ≡ true) × ((z ≡ true) ⊎ (g ≡ false)))
guards a b z g = (λ h. ground arith, λ h. ground arith)

pub is_due_iff :
    (now : Time) (selected : List Text) (c : CertMeta)
    → (is_due now selected c ≡ true) ↔ IsDue now selected c
unfolding is_due
is_due_iff now selected c =
    let late = ltb_ℤ (pos (30 * day)) (time_sub now c.not_after) in
    let e = is_expiring_iff c now expiry_threshold (omega arith) in
    let p = any-same-In c.fingerprint_prefix selected in
    let g = time_sub_le now c.not_after (30 * day) (omega arith) in
    let all =
      guards (any (same c.fingerprint_prefix) selected) (is_expiring c now expiry_threshold)
        (is_zero c.not_after) late in
    (
      λ h.
          let (a, b, w) = all.0 h in
          let (n, l) = e.0 b in
          record {
            used = p.0 a;
            ends = n;
            soon = l;
            fresh = elim w [ inl z ↦ absurd (n ((==_iff c.not_after 0).0 z)) | inr f ↦ g.0 f ];
          },
      λ d. all.1 (p.1 d.used, e.1 (d.ends, d.soon), inr (g.1 d.fresh)),
    )
