-- ===== src/Command/Handlers/Internal/PeerLists.antt =====
-- The table of the peers behind an upsert, and the file behind Add and Remove.
use mesh_cdn.Base.{
  ◌==◌, Bool-cases, Option-cases, Result-cases, length, filter, any, In, In-append_right, any-In,
  filter_full, Text, same_refl, eq→same, ◌≡◌, refl, sym, ap, ◌∙◌, subst, inl, inr, Bool, true,
  false, not, none, some, List, [], ◌∷◌, arith, ok,
}
use mesh_cdn.Peers.{Peer, Disk, has_ip, write_file, add, remove}
use mesh_cdn.Peers.Membership.{IsMembership, HasRoom, add-IsMembership}
use mesh_cdn.Command.Handlers.Internal.{upsert_peer, added}

pub upsert_peer-self : (p : Peer) (ps : List Peer) → In p (upsert_peer p ps)
unfolding upsert_peer
upsert_peer-self p [] = inl refl
upsert_peer-self p (q ∷ qs) = elim (Bool-cases (has_ip p.ip q)) [
  | inl e ↦ rw e (inl refl)
  | inr e ↦ rw e (inr (upsert_peer-self p qs))
]

-- The rows of other IPs stay, and no others come.
pub upsert_peer-others :
    (p q : Peer) (ps : List Peer)
    → has_ip p.ip q ≡ false
    → (In q (upsert_peer p ps) → In q ps) × (In q ps → In q (upsert_peer p ps))
unfolding upsert_peer
upsert_peer-others p q [] n =
    (λ h. elim h [ inl e ↦ ground (arith, e, same_refl p.ip) | inr i ↦ absurd i ], λ i. absurd i)
upsert_peer-others p q (x ∷ xs) n =
    let (to, back) = upsert_peer-others p q xs n in
    elim (Bool-cases (has_ip p.ip x)) [
      | inl e ↦ rw e (
        λ h. elim h [ inl z ↦ ground (arith, z, same_refl p.ip) | inr i ↦ inr i ],
        λ h. elim h [ inl z ↦ ground (arith, z, e) | inr i ↦ inr i ],
      )
      | inr e ↦ rw e (
        λ h. elim h [ inl z ↦ inl z | inr i ↦ inr (to i) ],
        λ h. elim h [ inl z ↦ inl z | inr i ↦ inr (back i) ],
      )
    ]

-- Remove ends well: the file holds all peers with another IP.
pub remove-filter :
    (ip : Text) (d : Disk) (ps : List Peer)
    → d.content ≡ ok ps
    → (remove ip d).1 ≡ none
    → (remove ip d).0.content ≡ ok (filter (λ p. not (has_ip ip p)) ps)
unfolding remove write_file
remove-filter ip d ps readable h =
    let out = filter (λ p. not (has_ip ip p)) ps in
    elim (Bool-cases (length out == length ps)) [
      | inl e ↦
          let z = filter_full (λ p. not (has_ip ip p)) ps (ground arith) in
          let q : (remove ip d).0 ≡ d = ground arith in
          ap (λ (x : Disk). x.content) q ∙ readable ∙ ap ok (sym z)
      | inr e ↦ elim (Option-cases d.write_error) [
        | inl w ↦ ground arith
        | inr (x, w) ↦ absurd (ground arith)
      ]
    ]

module _ (is_ip : Text → Bool) where
  pub added-member :
      (w : Text) (disk : Disk) (ps : List Peer)
      → disk.content ≡ ok ps
      → HasRoom ps
      → IsMembership ps
      → (added is_ip w (some disk)).1 ≡ none
      → (disk' : Disk) × (qs : List Peer) × ((added is_ip w (some disk)).0 ≡ some disk')
        × (disk'.content ≡ ok qs)
        × IsMembership qs
        × (any (has_ip w) qs ≡ true)
  added-member w disk ps readable room m h = elim (Result-cases (add is_ip w disk).1) [
    | inr (x, e) ↦ absurd (ground arith)
    | inl (p, e) ↦
        let (qs, c, members, answered, fails) = add-IsMembership is_ip w disk ps readable room m in
        let (q, there) = answered p e in
        let member : In p qs = elim there [
          | inl i ↦ subst (In p) (sym i.1) i.0
          | inr i ↦ subst (In p) (sym i.0) (In-append_right p ps (p ∷ []) (inl refl))
        ] in
        (
          (add is_ip w disk).0,
          qs,
          refl,
          c,
          members,
          any-In (has_ip w) p qs member (eq→same p.ip w q),
        )
  ]
