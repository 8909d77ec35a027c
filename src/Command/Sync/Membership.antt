-- ===== src/Command/Sync/Membership.antt =====
-- The membership that a node has once it has reconciled it with a snapshot.
use mesh_cdn.Base.{
  if◌then◌else◌, Bool-cases, Option-cases, find?, In, In-append, In-append_left, In-append_right,
  In-map, map-In, Text, same→eq, is_empty, is_empty-false, ◌≡◌, refl, sym, ap, ◌∙◌, subst, ◌≢◌, ◌↔◌,
  ◌⊎◌, inl, inr, Bool, true, false, not, ◌&&◌, Option, none, some, List, [], ◌∷◌, ◌++◌, map, arith,
  ok,
}
use mesh_cdn.Base.Int.{ℤ, pos, ltb_ℤ, beq_ℤ_iff}
use mesh_cdn.Base.Sort.{sort_by, In-sort_by}
use mesh_cdn.Base.Table.{get, In-get, get-In, DistinctKeys}
use mesh_cdn.Peers.{Peer, Disk, write_file, joined_before, has_ip, all_peers, replace_all}
use mesh_cdn.Command.Sync.{
  is_some, order_of, is_declared, declared_peer, self_order, self_peers, next_peers, peer_before,
  same_peers, reconcile_peers_file,
}

some-ne-none : {n : ℤ} → some n ≡ none → ⊥
some-ne-none h = cc

true-ne-false : true ≡ false → ⊥
true-ne-false h = cc

same_peers→eq : (ps qs : List Peer) → same_peers ps qs ≡ true → ps ≡ qs
unfolding same_peers
same_peers→eq [] [] h = refl
same_peers→eq [] (q ∷ qs) h = cc
same_peers→eq (p ∷ ps) [] h = cc
same_peers→eq (p ∷ ps) (q ∷ qs) h =
    let e : ps ≡ qs = same_peers→eq ps qs (ground arith) in
    let i = same→eq p.ip q.ip (ground arith) in
    let o = (beq_ℤ_iff p.join_order q.join_order).0 (ground arith) in ground (arith, e, i, o)

-- A peer that the snapshot declares, or the node itself, which keeps its join order if the snapshot
-- leaves it out.
abbrev pub Stays : List (Text × ℤ) → Text → List Peer → Peer → Type 0
Stays declared node_ip existing p =
    (get p.ip declared ≡ some p.join_order)
    ⊎ ((get node_ip declared ≡ none)
        × (node_ip ≢ [])
        × (p.ip ≡ node_ip)
        × (ltb_ℤ p.join_order (pos 0) ≡ false)
        × ((q : Peer) × (find? (has_ip node_ip) existing ≡ some q) × (q.join_order ≡ p.join_order)))

In-one :
    (test : Bool) (p expected : Peer)
    → In p (if test then expected ∷ [] else []) ↔ ((test ≡ true) × (p ≡ expected))
In-one true p expected = (λ m. elim m [ inl q ↦ (refl, q) | inr z ↦ absurd z ], λ (t, q). inl q)
In-one false p expected = (λ m. absurd m, λ (t, q). cc)

-- The test of `self_peers`.
abbrev keeps_self : List (Text × ℤ) → Text → List Peer → Bool
keeps_self declared node_ip existing =
    not (is_declared declared node_ip)
    && (not (is_empty node_ip) && not (ltb_ℤ (self_order node_ip existing) (pos 0)))

self_order-some :
    (node_ip : Text) (existing : List Peer) (q : Peer)
    → find? (has_ip node_ip) existing ≡ some q
    → self_order node_ip existing ≡ q.join_order
self_order-some node_ip existing q e = ap order_of e

is_declared-none :
    (declared : List (Text × ℤ)) (ip : Text)
    → (is_declared declared ip ≡ false) ↔ (get ip declared ≡ none)
is_declared-none declared ip = elim (Option-cases (get ip declared)) [
  | inl e ↦ (λ h. e, λ h. ap is_some e)
  | inr (v, e) ↦
      (λ h. absurd (true-ne-false (sym (ap is_some e) ∙ h)), λ h. absurd (some-ne-none (sym e ∙ h)))
]

nor_parts :
    (a b c : Bool) → (not a && (not b && not c)) ≡ true → (a ≡ false) × (b ≡ false) × (c ≡ false)
nor_parts a b c t = ground arith

keeps_self_iff :
    (declared : List (Text × ℤ)) (node_ip : Text) (existing : List Peer)
    → (keeps_self declared node_ip existing ≡ true) ↔ (
        (get node_ip declared ≡ none)
        × (node_ip ≢ [])
        × ((q : Peer) × (find? (has_ip node_ip) existing ≡ some q)
            × (ltb_ℤ q.join_order (pos 0) ≡ false)))
keeps_self_iff declared node_ip existing = (
  λ t.
      let (absent, empty, old) =
        nor_parts (is_declared declared node_ip) (is_empty node_ip)
          (ltb_ℤ (self_order node_ip existing) (pos 0)) t in
      (
        (is_declared-none declared node_ip).0 absent,
        λ q. true-ne-false (ap is_empty (sym q) ∙ empty),
        elim (Option-cases (find? (has_ip node_ip) existing)) [
          | inl e ↦ absurd (true-ne-false (sym (ap (λ o. ltb_ℤ (order_of o) (pos 0)) e) ∙ old))
          | inr (q, e) ↦ (q, e, sym (ap (λ o. ltb_ℤ (order_of o) (pos 0)) e) ∙ old)
        ],
      ),
  λ (absent, named, (q, e, old)). and_whole (
    (is_declared-none declared node_ip).1 absent,
    is_empty-false node_ip named,
    ap (λ o. ltb_ℤ (order_of o) (pos 0)) e ∙ old,
  ),
)
  where
    and_whole :
        (is_declared declared node_ip ≡ false)
          × (is_empty node_ip ≡ false)
          × (ltb_ℤ (self_order node_ip existing) (pos 0) ≡ false)
        → keeps_self declared node_ip existing ≡ true
    and_whole (a, b, c) = rw (a, b, c) refl

In-self_peers :
    (declared : List (Text × ℤ)) (node_ip : Text) (existing : List Peer) (p : Peer)
    → In p (self_peers declared node_ip existing) ↔ (
        (get node_ip declared ≡ none)
        × (node_ip ≢ [])
        × (p.ip ≡ node_ip)
        × (ltb_ℤ p.join_order (pos 0) ≡ false)
        × ((q : Peer) × (find? (has_ip node_ip) existing ≡ some q) × (q.join_order ≡ p.join_order)))
In-self_peers declared node_ip existing p = (
  λ m.
      let (t, e) = (In-one (keeps_self declared node_ip existing) p self).0 m in
      let (absent, named, (q, found, old)) = (keeps_self_iff declared node_ip existing).0 t in
      let o = self_order-some node_ip existing q found in
      (
        absent,
        named,
        ap (λ (x : Peer). x.ip) e,
        ground (arith, e, o, old),
        (q, found, sym o ∙ sym (ap (λ (x : Peer). x.join_order) e)),
      ),
  λ (absent, named, i, old, (q, found, o)).
      let s = self_order-some node_ip existing q found in
      (In-one (keeps_self declared node_ip existing) p self).1 (
        (keeps_self_iff declared node_ip existing).1
            (absent, named, (q, found, ground (arith, o, old))),
        ground (arith, i, s, o),
      ),
)
  where
    self : Peer
    self = record { ip = node_ip; join_order = self_order node_ip existing }

In-declared :
    (declared : List (Text × ℤ)) (p : Peer)
    → DistinctKeys declared
    → In p (map declared_peer declared) ↔ (get p.ip declared ≡ some p.join_order)
In-declared declared p d = (
  λ m.
      let ((ip, n), i, e) = map-In declared_peer p declared m in
      subst (λ (x : Peer). get x.ip declared ≡ some x.join_order) (sym e)
        (get-In ip n declared d i),
  λ h. In-map declared_peer (p.ip, p.join_order) declared (In-get p.ip p.join_order declared h),
)

In-next_peers :
    (declared : List (Text × ℤ)) (node_ip : Text) (existing : List Peer) (p : Peer)
    → DistinctKeys declared
    → In p (next_peers declared node_ip existing) ↔ Stays declared node_ip existing p
unfolding next_peers
In-next_peers declared node_ip existing p d =
    let all = map declared_peer declared ++ self_peers declared node_ip existing in
    (
      λ m.
          elim (In-append p (map declared_peer declared) (self_peers declared node_ip existing)
            ((In-sort_by peer_before p all).0 m)) [
              | inl i ↦ inl ((In-declared declared p d).0 i)
              | inr i ↦ inr ((In-self_peers declared node_ip existing p).0 i)
            ],
      λ s. (In-sort_by peer_before p all).1 (elim s [
        | inl h ↦
            In-append_left p (map declared_peer declared) (self_peers declared node_ip existing)
              ((In-declared declared p d).1 h)
        | inr h ↦
            In-append_right p (map declared_peer declared) (self_peers declared node_ip existing)
              ((In-self_peers declared node_ip existing p).1 h)
      ]),
    )

module _ (declared : List (Text × ℤ)) (node_ip : Text) (disk : Disk) (ps : List Peer)
    (readable : disk.content ≡ ok ps) where
  reconcile_peers_file-quiet :
      same_peers (next_peers declared node_ip (sort_by joined_before ps)) (sort_by joined_before ps)
        ≡ true
      → reconcile_peers_file declared node_ip disk ≡ (disk, none)
  unfolding reconcile_peers_file all_peers
  reconcile_peers_file-quiet t = ground arith

  reconcile_peers_file-written :
      disk.write_error ≡ none
      → same_peers
          (next_peers declared node_ip (sort_by joined_before ps))
          (sort_by joined_before ps)
        ≡ false
      → reconcile_peers_file declared node_ip disk ≡ (
        record disk { content = ok (next_peers declared node_ip (sort_by joined_before ps)) },
        none,
      )
  unfolding reconcile_peers_file all_peers replace_all write_file
  reconcile_peers_file-written w t = ground arith

-- On a node that has a peer manager and can read and write its file: once it has reconciled it with
-- the peers that a snapshot declares, none of them twice, the file holds exactly those, with their
-- join orders, and the node itself, with its own join order if the snapshot leaves it out and it had
-- one that is not negative.
pub reconcile_peers_file-Stays :
    (declared : List (Text × ℤ)) (node_ip : Text) (disk : Disk) (ps : List Peer)
    → DistinctKeys declared
    → disk.content ≡ ok ps
    → disk.write_error ≡ none
    → ((reconcile_peers_file declared node_ip disk).1 ≡ none)
      × ((qs : List Peer) × ((reconcile_peers_file declared node_ip disk).0.content ≡ ok qs)
          × ((p : Peer) → In p qs ↔ Stays declared node_ip (sort_by joined_before ps) p))
reconcile_peers_file-Stays declared node_ip disk ps d readable writable =
    let next = next_peers declared node_ip (sort_by joined_before ps) in
    let members = λ (p : Peer). In-next_peers declared node_ip (sort_by joined_before ps) p d in
    elim (Bool-cases (same_peers next (sort_by joined_before ps))) [
      | inl t ↦
          let e = reconcile_peers_file-quiet declared node_ip disk ps readable t in
          let q = same_peers→eq next (sort_by joined_before ps) t in
          (
            ap (λ (r : Disk × Option Text). r.1) e,
            (
              ps,
              ap (λ (r : Disk × Option Text). r.0.content) e ∙ readable,
              λ p. (
                λ m. (members p).0 (subst (In p) (sym q) ((In-sort_by joined_before p ps).1 m)),
                λ s. (In-sort_by joined_before p ps).0 (subst (In p) q ((members p).1 s)),
              ),
            ),
          )
      | inr f ↦
          let e = reconcile_peers_file-written declared node_ip disk ps readable writable f in
          (
            ap (λ (r : Disk × Option Text). r.1) e,
            (next, ap (λ (r : Disk × Option Text). r.0.content) e, members),
          )
    ]
