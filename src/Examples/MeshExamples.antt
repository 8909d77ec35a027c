-- ===== src/Examples/MeshExamples.antt =====
-- A cluster of three nodes that exchange pings.
use mesh_cdn.Base.{
  if◌then◌else◌, In, Text, text, same, eq→same, ◌≡◌, refl, ◌≢◌, ◌↔◌, inl, inr, true, false, none,
  some, List, [], ◌∷◌, ok,
}
use mesh_cdn.Base.Int.{pos}
use mesh_cdn.Base.Table.{get}
use mesh_cdn.Mesh.Coordinator.{
  PeerInfo, States, Reply, Ahead, new_state, updated, known, other_peers, run_heartbeat_pass,
  pull_from_best,
}
use mesh_cdn.Mesh.Coordinator.Pings.{IsArrangement, Calls, run_heartbeat_pass_updates}
use mesh_cdn.Mesh.Coordinator.Pulls.{IsBestPull, pull_from_best-IsBestPull}

abbrev node : PeerInfo
node = record { ip = text "a"; join_order = pos 1 }

abbrev peer : PeerInfo
peer = record { ip = text "b"; join_order = pos 2 }

abbrev gone : PeerInfo
gone = record { ip = text "c"; join_order = pos 3 }

abbrev cluster : List PeerInfo
cluster = node ∷ peer ∷ gone ∷ []

-- The peer b is ahead, and c does not answer.
abbrev replies : PeerInfo → Reply
replies p = record {
  seen_at = 9;
  rtt = 20;
  response =
      if same p.ip (text "b")
      then some (record {
        node_ip = text "b";
        config_version = pos 8;
        program_version = text "v4";
        peer_known_count = pos 3;
      })
      else none;
}

abbrev swapped : List PeerInfo → List PeerInfo
swapped (p ∷ q ∷ []) = q ∷ p ∷ []
swapped l = l

false-ne-true : false ≡ true → ⊥
false-ne-true h = cc

swapped-IsArrangement :
    IsArrangement (swapped (other_peers (text "a") cluster)) (other_peers (text "a") cluster)
unfolding other_peers same
swapped-IsArrangement = record {
  once = ((λ q. absurd (apart q), tt), (tt, tt));
  same_peers = λ p. (
    λ m. elim m [ inl e ↦ inr (inl e) | inr n ↦ elim n [ inl e ↦ inl e | inr z ↦ absurd z ] ],
    λ m. elim m [ inl e ↦ inr (inl e) | inr n ↦ elim n [ inl e ↦ inl e | inr z ↦ absurd z ] ],
  );
}
  where
    apart : text "c" ≡ text "b" → ⊥
    apart q = false-ne-true (eq→same (text "c") (text "b") q)

abbrev before_pass : States
before_pass = (text "c", record (new_state gone) { last_rtt = 5 }) ∷ []

run_heartbeat_pass_updates_example :
    ((p : PeerInfo)
      → In p cluster
      → p.ip ≢ text "a"
      → get p.ip
          (run_heartbeat_pass true (text "a") (ok cluster) (pos 7) replies swapped before_pass).0
        ≡ some (updated (replies p) (known p (get p.ip before_pass))))
    × ((ip : Text)
        → ((p : PeerInfo) → In p cluster → p.ip ≢ text "a" → p.ip ≢ ip)
        → get ip
            (run_heartbeat_pass true (text "a") (ok cluster) (pos 7) replies swapped before_pass).0
          ≡ get ip before_pass)
    × ((call : Ahead)
        → In call
            (run_heartbeat_pass true (text "a") (ok cluster) (pos 7) replies swapped before_pass).1
          ↔ ((p : PeerInfo) × In p cluster × (p.ip ≢ text "a") × Calls (pos 7) replies p call))
run_heartbeat_pass_updates_example =
    run_heartbeat_pass_updates (text "a") cluster (pos 7) replies swapped before_pass
      swapped-IsArrangement

abbrev states : States
states =
    (text "b", record (new_state peer) { config_version = pos 8; last_rtt = 20 })
    ∷ (
      text "c",
      record (new_state gone) { config_version = pos 8; last_rtt = 5; consecutive_failures = 2 },
    )
    ∷ []

pull_from_best-IsBestPull_example :
    IsBestPull (λ ip. none) (pos 8) states (pull_from_best (some (λ ip. none)) (pos 8) states)
pull_from_best-IsBestPull_example =
    pull_from_best-IsBestPull (λ ip. none) (pos 8) states (refl, (refl, tt))
