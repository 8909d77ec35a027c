-- ===== src/Mesh/Coordinator.antt =====
-- internal/mesh/coordinator.go, and the messages of internal/mesh/server.go that it reads.
pub mod Pings
pub mod Pulls
pub mod Notice
use mesh_cdn.Base.{
  ltb, if◌then◌else◌, Result, take, filter, any, Text, text, same, is_empty, ℕ, ◌+◌, Bool, not,
  ◌&&◌, Option, none, some, List, [], ◌∷◌, ◌++◌, map, ok, err,
}
use mesh_cdn.Base.Int.{ℤ, pos, ltb_ℤ}
use mesh_cdn.Base.Sort.{sort_by}
use mesh_cdn.Base.Table.{get, put}
use mesh_cdn.Base.Time.{Time}

pub record PeerInfo : Type 0 where
  pub ip : Text
  pub join_order : ℤ

pub record PingResponse : Type 0 where
  pub node_ip : Text
  pub config_version : ℤ
  pub program_version : Text
  pub peer_known_count : ℤ

pub record PeerState : Type 0 where
  pub ip : Text
  pub join_order : ℤ
  pub last_seen_at : Time
  pub last_rtt : ℕ
  pub config_version : ℤ
  pub program_version : Text
  pub peer_known_count : ℤ
  pub consecutive_failures : ℕ

-- The field `states`.
abbrev pub States : Type 0
States = List (Text × PeerState)

-- How a ping ends: the clock and the time that it took, and the response, or none if it failed.
pub record Reply : Type 0 where
  pub seen_at : Time
  pub rtt : ℕ
  pub response : Option PingResponse

-- A call of OnRemoteAhead: the peer and its version.
abbrev pub Ahead : Type 0
Ahead = Text × ℤ

-- A peer that is seen for the first time.
abbrev pub new_state : PeerInfo → PeerState
new_state p = record {
  ip = p.ip;
  join_order = p.join_order;
  last_seen_at = 0;
  last_rtt = 0;
  config_version = pos 0;
  program_version = [];
  peer_known_count = pos 0;
  consecutive_failures = 0;
}

-- What a ping makes of the state of its peer.
unfoldable pub updated : Reply → PeerState → PeerState
updated reply st = elim reply.response [
  | none ↦ record st { consecutive_failures = st.consecutive_failures + 1 }
  | some resp ↦ record st {
    last_seen_at = reply.seen_at;
    last_rtt = reply.rtt;
    config_version = resp.config_version;
    program_version = resp.program_version;
    peer_known_count = resp.peer_known_count;
    consecutive_failures = 0;
  }
]

abbrev pub known : PeerInfo → Option PeerState → PeerState
known p none = new_state p
known p (some st) = st

-- pingOne: the new states, and the callbacks. `listens` is whether OnRemoteAhead is set.
unfoldable pub ping_one : Bool → ℤ → PeerInfo → Reply → States → States × List Ahead
ping_one listens config_version p reply states = (
  put p.ip (updated reply (known p (get p.ip states))) states,
  elim reply.response [
    | none ↦ []
    | some resp ↦
        if listens && ltb_ℤ config_version resp.config_version
        then (p.ip, resp.config_version) ∷ []
        else []
  ],
)

-- The pings of a pass, in the order in which they take the lock.
unfoldable pub pings : Bool → ℤ → (PeerInfo → Reply) → List PeerInfo → States → States × List Ahead
pings listens config_version replies [] states = (states, [])
pings listens config_version replies (p ∷ ps) states =
    let (states', calls) = ping_one listens config_version p (replies p) states in
    let (last, more) = pings listens config_version replies ps states' in (last, calls ++ more)

-- The peers that a pass or a notice goes to.
unfoldable pub other_peers : Text → List PeerInfo → List PeerInfo
other_peers local_node_ip peers = filter (λ p. not (same p.ip local_node_ip)) peers

-- runHeartbeatPass, for one order of the pings: `arranged` is what the goroutines make of the list.
unfoldable pub run_heartbeat_pass :
    Bool
    → Text
    → Result Text (List PeerInfo)
    → ℤ
    → (PeerInfo → Reply)
    → (List PeerInfo → List PeerInfo)
    → States
    → States × List Ahead
run_heartbeat_pass listens local_node_ip peers config_version replies arranged states = elim peers [
  | err e ↦ (states, [])
  | ok ps ↦ pings listens config_version replies (arranged (other_peers local_node_ip ps)) states
]

-- PushNotifyToAll: the peers that a new version is sent to.
unfoldable pub push_notify_to_all : Text → Result Text (List PeerInfo) → List Text
push_notify_to_all local_node_ip peers = elim peers [
  | err e ↦ []
  | ok ps ↦ map (λ (p : PeerInfo). p.ip) (other_peers local_node_ip ps)
]

-- HandleNotifyVersion: the error, if any, and the callbacks.
unfoldable pub handle_notify_version :
    Option (ℤ → Result Text ℤ) → Bool → Text → ℤ → Option Text × List Ahead
handle_notify_version none listens from_ip version = (some (text "OnReceiveAhead not wired"), [])
handle_notify_version (some on_receive_ahead) listens from_ip version =
    elim (on_receive_ahead version) [
      | err e ↦ (some e, [])
      | ok local ↦ (none, if listens && ltb_ℤ local version then (from_ip, version) ∷ [] else [])
    ]

abbrev pub is_candidate : ℤ → Text × PeerState → Bool
is_candidate target (ip, st) =
    not (ltb_ℤ st.config_version target) && not (ltb 0 st.consecutive_failures)

abbrev pub is_faster : Text × PeerState → Text × PeerState → Bool
is_faster (i, a) (j, b) = ltb a.last_rtt b.last_rtt

abbrev pub first_ip : List (Text × PeerState) → Text
first_ip [] = []
first_ip ((ip, st) ∷ l) = ip

-- BestPeerToPull
unfoldable pub best_peer_to_pull : ℤ → States → Text
best_peer_to_pull target states = first_ip (sort_by is_faster (filter (is_candidate target) states))

-- PullFromBest: the peer that is pulled from, if any, and the error.
unfoldable pub pull_from_best : Option (Text → Option Text) → ℤ → States → Option Text × Option Text
pull_from_best none target states = (none, some (text "PullAndApply not wired"))
pull_from_best (some pull_and_apply) target states =
    let ip = best_peer_to_pull target states in
    if is_empty ip
    then (none, some (text "no eligible peer to pull from"))
    else (some ip, pull_and_apply ip)
