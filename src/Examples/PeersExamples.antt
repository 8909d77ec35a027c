-- ===== src/Examples/PeersExamples.antt =====
-- A cluster of two nodes.
use mesh_cdn.Base.{
  All, In, Text, text, same, eq→same, is_empty, ◌≡◌, refl, ◌⊎◌, Bool, true, false, not, none, List,
  [], ◌∷◌, ◌++◌, arith, ok, err,
}
use mesh_cdn.Base.Int.{pos}
use mesh_cdn.Peers.{Peer, Disk, add, joined_before, bot_node_ip}
use mesh_cdn.Peers.Membership.{IsMembership, JoinedLast, after, answer, add-IsMembership}
use mesh_cdn.Peers.BotNode.{add_keeps_bot}

abbrev first_peer : Peer
first_peer = record { ip = text "10.0.0.1"; join_order = pos 1 }

abbrev second_peer : Peer
second_peer = record { ip = text "10.0.0.2"; join_order = pos 2 }

abbrev peers : List Peer
peers = first_peer ∷ second_peer ∷ []

abbrev disk : Disk
disk = record { content = ok peers; write_error = none }

abbrev accepts : Text → Bool
accepts s = not (is_empty s)

false-ne-true : false ≡ true → ⊥
false-ne-true h = cc

peers-IsMembership : IsMembership peers
unfolding same
peers-IsMembership = record {
  distinct =
      (((λ e. false-ne-true (eq→same first_peer.ip second_peer.ip e), λ e. cc), tt), (tt, tt));
  positive = (omega arith, (omega arith, tt));
}

add-IsMembership_example :
    (qs : List Peer) × ((after accepts (text "10.0.0.3") disk peers refl).content ≡ ok qs)
    × IsMembership qs
    × ((p : Peer)
        → answer accepts (text "10.0.0.3") disk peers refl ≡ ok p
        → (p.ip ≡ text "10.0.0.3")
          × ((In p peers × (qs ≡ peers)) ⊎ ((qs ≡ peers ++ p ∷ []) × JoinedLast p peers)))
    × ((e : Text)
        → answer accepts (text "10.0.0.3") disk peers refl ≡ err e
        → after accepts (text "10.0.0.3") disk peers refl ≡ disk)
add-IsMembership_example =
    add-IsMembership accepts (text "10.0.0.3") disk peers refl (refl, (refl, tt)) peers-IsMembership

add_keeps_bot_example :
    (bot_node_ip (add accepts (text "10.0.0.3") disk).0 ≡ bot_node_ip disk)
    × ((b : Peer)
        → In b peers
        → All (λ q. joined_before q b ≡ false) peers
        → bot_node_ip disk ≡ b.ip)
add_keeps_bot_example =
    add_keeps_bot accepts (text "10.0.0.3") disk first_peer (second_peer ∷ []) refl
      peers-IsMembership.distinct (refl, (refl, tt))
