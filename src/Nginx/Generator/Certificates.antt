-- ===== src/Nginx/Generator/Certificates.antt =====
-- resolveCerts: which certificate a server gets.
use mesh_cdn.Base.{
  if◌then◌else◌, Bool-cases, Option-cases, In, map-In, Text, text, same, eq→same, same-false,
  is_empty, ◌≡◌, sym, ◌∙◌, subst, ◌≢◌, ◌⊎◌, inl, inr, true, none, some, arith,
}
use mesh_cdn.Cert.{CertMeta, select_for}
use mesh_cdn.Cert.Selection.{IsBest, select_for-IsBest}
use mesh_cdn.Nginx.Generator.{ServerEntry, GeneratorState, resolve_cert, resolve_certs}

abbrev pub endpoint_of : Text → ServerEntry → Text
endpoint_of node_ip s = if same s.host (text "-") then node_ip else s.host

-- What the server should be afterwards.
abbrev pub Chosen : Text → GeneratorState → ServerEntry → ServerEntry → Type 0
Chosen node_ip st s r =
    ((c : CertMeta) × IsBest (endpoint_of node_ip s) st.now st.all_certs (some c)
      × (r ≡ record s { cert_fp = c.fingerprint_prefix }))
    ⊎ (IsBest (endpoint_of node_ip s) st.now st.all_certs none
        × (r ≡ record s {
          cert_fp = if is_empty st.self_signed_fp then s.cert_fp else st.self_signed_fp;
        }))

resolve_cert-Chosen :
    (node_ip : Text) (st : GeneratorState) (s : ServerEntry)
    → same s.proto (text "https") ≡ true
    → Chosen node_ip st s (resolve_cert node_ip st s)
unfolding resolve_cert
resolve_cert-Chosen node_ip st s h =
    let best = select_for-IsBest (endpoint_of node_ip s) st.all_certs st.now in
    elim (Option-cases (select_for (endpoint_of node_ip s) st.all_certs st.now)) [
      | inr (c, e) ↦ inl (
        c,
        subst (IsBest (endpoint_of node_ip s) st.now st.all_certs) e best,
        ground (arith, h, e),
      )
      | inl e ↦ inr (
        subst (IsBest (endpoint_of node_ip s) st.now st.all_certs) e best,
        elim (Bool-cases (is_empty st.self_signed_fp)) [
          | inl f ↦ ground (arith, h, e, f)
          | inr f ↦ ground (arith, h, e, f)
        ],
      )
    ]

-- Each server behind resolveCerts comes from one of the state. One without https is as before. One
-- with https has the best certificate that has not expired and covers its host, or the IP of the
-- node for the host "-"; if there is none, it has the self-signed certificate of the node, or is as
-- before if the node has none.
pub resolve_certs_lem :
    (node_ip : Text) (st : GeneratorState) (r : ServerEntry)
    → In r (resolve_certs node_ip st).servers
    → (s : ServerEntry) × In s st.servers
      × ((s.proto ≢ text "https") → r ≡ s)
      × ((s.proto ≡ text "https") → Chosen node_ip st s r)
unfolding resolve_cert
resolve_certs_lem node_ip st r i =
    let (s, j, q) = map-In (resolve_cert node_ip st) r st.servers i in
    (
      s,
      j,
      λ n. let f = same-false s.proto (text "https") n in q ∙ ground (arith, f),
      λ e.
          subst (Chosen node_ip st s) (sym q)
            (resolve_cert-Chosen node_ip st s (eq→same s.proto (text "https") e)),
    )
