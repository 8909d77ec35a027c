-- ===== src/Command/Sync/Mirror.antt =====
-- The mirror table of the peers, once it has been pruned.
use mesh_cdn.Base.{
  Bool-cases, Option-cases, filter, All, In, All-In, All-of_In, In-filter, filter-In, In-map,
  map-In, Text, eq→same, same-false, ◌≡◌, refl, sym, ap, ◌∙◌, subst, ◌≢◌, inl, inr, Bool, true, not,
  Option, none, some, List, [], ◌∷◌, map, arith,
}
use mesh_cdn.Peers.{Peer, has_ip}
use mesh_cdn.Command.Sync.{delete_peers, prune_db_peers}

some-ne-none : {x : Text} → some x ≡ none → ⊥
some-ne-none h = cc

not-has_ip : (p : Peer) (ip : Text) → not (has_ip ip p) ≡ true → p.ip ≢ ip
not-has_ip p ip t q = ground (arith, eq→same p.ip ip q)

module _ (delete_error : Text → Option Text) where
  delete_peers-step :
      (ip : Text) (ips : List Text) (peers : List Peer)
      → delete_error ip ≡ none
      → delete_peers delete_error (ip ∷ ips) peers
        ≡ delete_peers delete_error ips (filter (λ (q : Peer). not (has_ip ip q)) peers)
  unfolding delete_peers
  delete_peers-step ip ips peers e = ground arith

  delete_peers-stop :
      (ip : Text) (ips : List Text) (peers : List Peer) (x : Text)
      → delete_error ip ≡ some x
      → delete_peers delete_error (ip ∷ ips) peers ≡ (peers, some x)
  unfolding delete_peers
  delete_peers-stop ip ips peers x e = ground arith

  delete_peers-keeps :
      (p : Peer) (ips : List Text) (peers : List Peer)
      → All (λ ip. p.ip ≢ ip) ips
      → In p peers
      → In p (delete_peers delete_error ips peers).0
  unfolding delete_peers
  delete_peers-keeps p [] peers h m = m
  delete_peers-keeps p (ip ∷ ips) peers h m =
      let left = filter (λ (q : Peer). not (has_ip ip q)) peers in
      let stays : In p left =
        filter-In (λ (q : Peer). not (has_ip ip q)) p peers m (rw (same-false p.ip ip h.0) refl) in
      let rest = delete_peers-keeps p ips left h.1 stays in
      elim (Option-cases (delete_error ip)) [
        | inl e ↦
            subst (λ (r : List Peer × Option Text). In p r.0)
              (sym (delete_peers-step ip ips peers e)) rest
        | inr (x, e) ↦
            subst (λ (r : List Peer × Option Text). In p r.0)
              (sym (delete_peers-stop ip ips peers x e)) m
      ]

  delete_peers-drops :
      (p : Peer) (ips : List Text) (peers : List Peer)
      → In p (delete_peers delete_error ips peers).0
      → In p peers × ((delete_peers delete_error ips peers).1 ≡ none → All (λ ip. p.ip ≢ ip) ips)
  unfolding delete_peers
  delete_peers-drops p [] peers m = (m, λ e. tt)
  delete_peers-drops p (ip ∷ ips) peers m = elim (Option-cases (delete_error ip)) [
    | inl e ↦
        let step = delete_peers-step ip ips peers e in
        let left = filter (λ (q : Peer). not (has_ip ip q)) peers in
        let (i, apart) =
          delete_peers-drops p ips left
            (subst (λ (r : List Peer × Option Text). In p r.0) step m) in
        let (j, t) = In-filter (λ (q : Peer). not (has_ip ip q)) p peers i in
        (
          j,
          λ fine. (
            λ q. not-has_ip p ip t q,
            apart (sym (ap (λ (r : List Peer × Option Text). r.1) step) ∙ fine),
          ),
        )
    | inr (x, e) ↦
        let stop = delete_peers-stop ip ips peers x e in
        (
          subst (λ (r : List Peer × Option Text). In p r.0) stop m,
          λ fine.
              absurd (some-ne-none (sym (ap (λ (r : List Peer × Option Text). r.1) stop) ∙ fine)),
        )
  ]

-- The IPs of the rows that are to go.
abbrev dropped : (Text → Bool) → List Peer → List Text
dropped keep peers = map (λ (p : Peer). p.ip) (filter (λ (p : Peer). not (keep p.ip)) peers)

dropped-apart :
    (keep : Text → Bool) (p : Peer) (peers : List Peer)
    → keep p.ip ≡ true
    → All (λ ip. p.ip ≢ ip) (dropped keep peers)
dropped-apart keep p peers k =
    All-of_In (λ ip. p.ip ≢ ip) (dropped keep peers)
      λ ip m q.
        let (r, i, e) =
          map-In (λ (x : Peer). x.ip) ip (filter (λ (x : Peer). not (keep x.ip)) peers) m in
        let (j, t) = In-filter (λ (x : Peer). not (keep x.ip)) r peers i in
        ground (arith, k, t, ap keep (q ∙ e))

apart-keep :
    (keep : Text → Bool) (p : Peer) (peers : List Peer)
    → In p peers
    → All (λ ip. p.ip ≢ ip) (dropped keep peers)
    → keep p.ip ≡ true
apart-keep keep p peers m h = elim (Bool-cases (keep p.ip)) [
  | inl k ↦ k
  | inr k ↦
      let gone : In p (filter (λ (x : Peer). not (keep x.ip)) peers) =
        filter-In (λ (x : Peer). not (keep x.ip)) p peers m (rw k refl) in
      absurd (
        All-In (λ ip. p.ip ≢ ip) p.ip (dropped keep peers) h
          (In-map (λ (x : Peer). x.ip) p (filter (λ (x : Peer). not (keep x.ip)) peers) gone) refl)
]

-- Whatever calls of the driver fail, pruning the mirror table adds no row and deletes none of a peer
-- that is kept; and if it reports no error, then only the rows of peers that are kept are left.
pub prune_db_peers-keeps :
    (query_error : Option Text) (delete_error : Text → Option Text) (keep : Text → Bool)
    (peers : List Peer) (p : Peer)
    → (In p (prune_db_peers query_error delete_error keep peers).0 → In p peers)
      × (In p peers
          → keep p.ip ≡ true
          → In p (prune_db_peers query_error delete_error keep peers).0)
      × ((prune_db_peers query_error delete_error keep peers).1 ≡ none
          → In p (prune_db_peers query_error delete_error keep peers).0
          → keep p.ip ≡ true)
unfolding prune_db_peers
prune_db_peers-keeps (some e) delete_error keep peers p =
    (λ m. m, λ m k. m, λ fine m. absurd (some-ne-none fine))
prune_db_peers-keeps none delete_error keep peers p = (
  λ m. (delete_peers-drops delete_error p (dropped keep peers) peers m).0,
  λ m k.
      delete_peers-keeps delete_error p (dropped keep peers) peers (dropped-apart keep p peers k) m,
  λ fine m.
      let (i, apart) = delete_peers-drops delete_error p (dropped keep peers) peers m in
      apart-keep keep p peers i (apart fine),
)
