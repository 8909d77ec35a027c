-- ===== src/Peers.antt =====
-- internal/peers/peers.go: the manager of persistent/peers.json, the cluster's membership list.
pub mod Membership
pub mod BotNode
use mesh_cdn.Base.{
  ◌==◌, if◌then◌else◌, Result, length, filter, any, find?, All, Text, text, same, join, ◌+◌, Bool,
  not, Option, none, some, List, [], ◌∷◌, ◌++◌, ok, err,
}
use mesh_cdn.Base.Decimal.{int_max}
use mesh_cdn.Base.Int.{ℤ, pos, negsuc, ltb_ℤ, suc_ℤ}
use mesh_cdn.Base.Sort.{sort_by}

pub record Peer : Type 0 where
  pub ip : Text
  pub join_order : ℤ

-- The file: its content, or the error of a read; and the error that the next write meets, if any.
pub record Disk : Type 0 where
  pub content : Result Text (List Peer)
  pub write_error : Option Text

-- `write`: the new file is renamed over the old one, so a failure changes nothing.
unfoldable pub write_file : List Peer → Disk → Disk × Option Text
write_file peers d = elim d.write_error [
  | none ↦ (record d { content = ok peers }, none)
  | some e ↦ (d, some e)
]

abbrev pub joined_before : Peer → Peer → Bool
joined_before p q = ltb_ℤ p.join_order q.join_order

abbrev pub has_ip : Text → Peer → Bool
has_ip ip p = same p.ip ip

-- Manager.All
unfoldable pub all_peers : Disk → Result Text (List Peer)
all_peers d = elim d.content [ err e ↦ err e | ok peers ↦ ok (sort_by joined_before peers) ]

-- Manager.Has
unfoldable pub has : Text → Disk → Result Text Bool
unfolding all_peers same
has ip d = elim (all_peers d) [ err e ↦ err e | ok peers ↦ ok (any (has_ip ip) peers) ]

-- The loop for the largest join order, from 0 on.
unfoldable pub max_order : ℤ → List Peer → ℤ
max_order top [] = top
max_order top (p ∷ ps) = max_order (if ltb_ℤ top p.join_order then p.join_order else top) ps

-- maxOrder + 1, which wraps around.
abbrev pub next_order : ℤ → ℤ
next_order top = if ltb_ℤ top (pos int_max) then suc_ℤ top else negsuc int_max

abbrev new_peer : Text → List Peer → Peer
new_peer ip peers = record { ip = ip; join_order = next_order (max_order (pos 0) peers) }

-- Manager.Add. Whether a text is an IP is net.ParseIP's answer.
module _ (is_ip : Text → Bool) where
  unfoldable pub add : Text → Disk → Disk × Result Text Peer
  unfolding same max_order write_file
  add ip d = if not (is_ip ip) then (d, err (text "invalid IP: " ++ ip)) else elim d.content [
    | err e ↦ (d, err e)
    | ok peers ↦ elim (find? (has_ip ip) peers) [
      | some p ↦ (d, ok p)
      | none ↦
          let p = new_peer ip peers in
          let (d', e) = write_file (peers ++ p ∷ []) d in
          elim e [ none ↦ (d', ok p) | some x ↦ (d', err x) ]
    ]
  ]

-- Manager.Remove
unfoldable pub remove : Text → Disk → Disk × Option Text
unfolding same write_file
remove ip d = elim d.content [
  | err e ↦ (d, some e)
  | ok peers ↦
      let out = filter (λ p. not (has_ip ip p)) peers in
      if length out == length peers then (d, none) else write_file out d
]

-- Manager.ReplaceAll
unfoldable pub replace_all : List Peer → Disk → Disk × Option Text
unfolding write_file
replace_all list d = write_file list d

-- Manager.BotNodeIP
unfoldable pub bot_node_ip : Disk → Text
unfolding all_peers
bot_node_ip d = elim (all_peers d) [ err e ↦ [] | ok [] ↦ [] | ok (p ∷ ps) ↦ p.ip ]
