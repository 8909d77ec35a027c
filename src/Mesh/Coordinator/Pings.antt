-- ===== src/Mesh/Coordinator/Pings.antt =====
-- A heartbeat pass, in any order of its pings.
use mesh_cdn.Base.{
  Bool-cases, Option-cases, All, In, In-append, In-append_left, In-append_right, All-In, All-of_In,
  In-filter, filter-In, All-map, Text, same, eq→same, same-false, ◌≡◌, refl, sym, ap, ◌∙◌, subst,
  ◌≢◌, ◌↔◌, inl, inr, Bool, true, not, some, List, [], ◌∷◌, arith, ok,
}
use mesh_cdn.Base.Int.{ℤ, ltb_ℤ}
use mesh_cdn.Base.Table.{get, get-put_self, get-put_ne}
use mesh_cdn.Mesh.Coordinator.{
  PeerInfo, PingResponse, States, Reply, Ahead, updated, known, ping_one, pings, other_peers,
  run_heartbeat_pass,
}

-- No IP stands in the list twice.
abbrev pub DistinctIps : List PeerInfo → Type 0
DistinctIps [] = Unit
DistinctIps (p ∷ ps) = All (λ (q : PeerInfo). p.ip ≢ q.ip) ps × DistinctIps ps

-- The list holds each of the other_peers once, in some order.
pub record IsArrangement (order ps : List PeerInfo) : Type 0 where
  pub once : DistinctIps order
  pub same_peers : (p : PeerInfo) → In p order ↔ In p ps

-- The call that a peer's reply leads to.
abbrev pub Calls : ℤ → (PeerInfo → Reply) → PeerInfo → Ahead → Type 0
Calls version replies p call =
    (resp : PingResponse) × ((replies p).response ≡ some resp)
    × (ltb_ℤ version resp.config_version ≡ true)
    × (call ≡ (p.ip, resp.config_version))

apart_sym :
    (q : PeerInfo) (ps : List PeerInfo)
    → All (λ (x : PeerInfo). q.ip ≢ x.ip) ps
    → All (λ (x : PeerInfo). x.ip ≢ q.ip) ps
apart_sym q ps h =
    All-map (λ (x : PeerInfo). q.ip ≢ x.ip) (λ (x : PeerInfo). x.ip ≢ q.ip) ps (λ x n e. n (sym e))
      h

In-other_peers :
    (local : Text) (ps : List PeerInfo) (p : PeerInfo)
    → In p (other_peers local ps) ↔ (In p ps × (p.ip ≢ local))
unfolding other_peers
In-other_peers local ps p = (
  λ m.
      let (i, t) = In-filter (λ (q : PeerInfo). not (same q.ip local)) p ps m in
      (i, λ e. ground (arith, eq→same p.ip local e)),
  λ (i, n).
      filter-In (λ (q : PeerInfo). not (same q.ip local)) p ps i
        (rw (same-false p.ip local n) refl),
)

module _ (listens : Bool) (version : ℤ) (replies : PeerInfo → Reply) where
  pings-other :
      (ip : Text) (order : List PeerInfo) (states : States)
      → All (λ (p : PeerInfo). p.ip ≢ ip) order
      → get ip (pings listens version replies order states).0 ≡ get ip states
  unfolding pings ping_one
  pings-other ip [] states h = refl
  pings-other ip (p ∷ ps) states h =
      pings-other ip ps (ping_one listens version p (replies p) states).0 h.1
      ∙ get-put_ne p.ip ip (updated (replies p) (known p (get p.ip states))) states h.0

  pings-own :
      (p : PeerInfo) (order : List PeerInfo) (states : States)
      → DistinctIps order
      → In p order
      → get p.ip (pings listens version replies order states).0
        ≡ some (updated (replies p) (known p (get p.ip states)))
  unfolding pings ping_one
  pings-own p [] states d m = absurd m
  pings-own p (q ∷ ps) states d (inl e) =
      let first = ping_one listens version q (replies q) states in
      subst
        (λ (x : PeerInfo).
          get x.ip (pings listens version replies ps first.0).0
          ≡ some (updated (replies x) (known x (get x.ip states))))
        (sym e)
        (pings-other q.ip ps first.0 (apart_sym q ps d.0)
          ∙ get-put_self q.ip (updated (replies q) (known q (get q.ip states))) states)
  pings-own p (q ∷ ps) states d (inr m) =
      let apart = All-In (λ (x : PeerInfo). q.ip ≢ x.ip) p ps d.0 m in
      pings-own p ps (ping_one listens version q (replies q) states).0 d.1 m
      ∙ ap (λ o. some (updated (replies p) (known p o)))
          (get-put_ne q.ip p.ip (updated (replies q) (known q (get q.ip states))) states apart)

module _ (version : ℤ) (replies : PeerInfo → Reply) where
  ping-Calls :
      (call : Ahead) (p : PeerInfo) (states : States)
      → In call (ping_one true version p (replies p) states).1 ↔ Calls version replies p call
  unfolding ping_one
  ping-Calls call p states = elim (Option-cases (replies p).response) [
    | inl e ↦ (λ m. absurd (rw e at m), λ (resp, f, t, q). absurd (ground arith))
    | inr (resp, e) ↦ elim (Bool-cases (ltb_ℤ version resp.config_version)) [
      | inl t ↦ (
        λ m. (resp, e, t, elim (rw (e, t) at m) [ inl q ↦ q | inr z ↦ absurd z ]),
        λ (r, f, u, q). ground arith,
      )
      | inr t ↦ (λ m. absurd (rw (e, t) at m), λ (r, f, u, q). absurd (ground arith))
    ]
  ]

  pings-Calls :
      (call : Ahead) (order : List PeerInfo) (states : States)
      → In call (pings true version replies order states).1
        ↔ ((p : PeerInfo) × In p order × Calls version replies p call)
  unfolding pings
  pings-Calls call [] states = (λ m. absurd m, λ (p, m, h). absurd m)
  pings-Calls call (p ∷ ps) states =
      let now = ping_one true version p (replies p) states in
      let later = pings-Calls call ps now.0 in
      (
        λ m. elim (In-append call now.1 (pings true version replies ps now.0).1 m) [
          | inl a ↦ (p, inl refl, (ping-Calls call p states).0 a)
          | inr b ↦ let (q, i, h) = later.0 b in (q, inr i, h)
        ],
        λ (q, i, h). elim i [
          | inl e ↦
              In-append_left call now.1 (pings true version replies ps now.0).1
                ((ping-Calls call p states).1 (subst (λ x. Calls version replies x call) e h))
          | inr j ↦
              In-append_right call now.1 (pings true version replies ps now.0).1 (later.1 (q, j, h))
        ],
      )

-- If the list of peers can be read and has no IP twice, then in whatever order the pings return, a
-- pass gives each peer but the node itself the state that its own reply makes of its state before,
-- and leaves all other states as they are; and OnRemoteAhead is called for exactly the peers that
-- answered with a version ahead of the local one.
pub run_heartbeat_pass_updates :
    (local : Text) (ps : List PeerInfo) (version : ℤ) (replies : PeerInfo → Reply)
    (arranged : List PeerInfo → List PeerInfo) (states : States)
    → IsArrangement (arranged (other_peers local ps)) (other_peers local ps)
    → ((p : PeerInfo)
        → In p ps
        → p.ip ≢ local
        → get p.ip (run_heartbeat_pass true local (ok ps) version replies arranged states).0
          ≡ some (updated (replies p) (known p (get p.ip states))))
      × ((ip : Text)
          → ((p : PeerInfo) → In p ps → p.ip ≢ local → p.ip ≢ ip)
          → get ip (run_heartbeat_pass true local (ok ps) version replies arranged states).0
            ≡ get ip states)
      × ((call : Ahead)
          → In call (run_heartbeat_pass true local (ok ps) version replies arranged states).1
            ↔ ((p : PeerInfo) × In p ps × (p.ip ≢ local) × Calls version replies p call))
unfolding run_heartbeat_pass
run_heartbeat_pass_updates local ps version replies arranged states a =
    let order = arranged (other_peers local ps) in
    (
      λ p i n.
          pings-own true version replies p order states a.once
            ((a.same_peers p).1 ((In-other_peers local ps p).1 (i, n))),
      λ ip h. pings-other true version replies ip order states (
          All-of_In (λ (p : PeerInfo). p.ip ≢ ip) order
            (λ p m. let (i, n) = (In-other_peers local ps p).0 ((a.same_peers p).0 m) in h p i n)),
      λ call. (
        λ m.
            let (p, i, h) = (pings-Calls version replies call order states).0 m in
            let (k, n) = (In-other_peers local ps p).0 ((a.same_peers p).0 i) in (p, k, n, h),
        λ (p, i, n, h).
            (pings-Calls version replies call order states).1
              (p, (a.same_peers p).1 ((In-other_peers local ps p).1 (i, n)), h),
      ),
    )
