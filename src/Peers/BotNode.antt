-- ===== src/Peers/BotNode.antt =====
-- Remove, and the bot node: the peer that joined first.
use mesh_cdn.Base.{
  Result, filter, All, In, All-In, All-of_In, In-filter, filter_full, All-filter, All-map, any_none,
  Text, ◌≡◌, sym, ap, ◌∙◌, inl, inr, Bool, true, false, not, none, List, [], ◌∷◌, ◌++◌, arith, ok,
}
use mesh_cdn.Base.Int.{beq_ℤ_iff, pos, ◌≤ℤ◌}
use mesh_cdn.Base.Sort.{sort_by, sort_by-append_last, sort_by-head, All-sort_by}
use mesh_cdn.Peers.{
  Peer, Disk, write_file, joined_before, has_ip, all_peers, has, new_peer, add, remove, bot_node_ip,
}
use mesh_cdn.Peers.Membership.{
  joined_before-IsOrder, IsMembership, Differ, Distinct, HasRoom, JoinedLast, Distinct-filter,
  new_peer-JoinedLast, add_cases,
}

abbrev others : Text → List Peer → List Peer
others ip ps = filter (λ p. not (has_ip ip p)) ps

others-not_ip : (ip : Text) (ps : List Peer) → All (λ p. has_ip ip p ≡ false) (others ip ps)
others-not_ip ip ps =
    All-of_In (λ p. has_ip ip p ≡ false) (others ip ps)
      λ p m. let r = In-filter (λ q. not (has_ip ip q)) p ps m in ground (arith, r.1)

remove_content :
    (ip : Text) (d : Disk) (ps : List Peer)
    → d.content ≡ ok ps
    → d.write_error ≡ none
    → ((remove ip d).0.content ≡ ok (others ip ps)) × ((remove ip d).1 ≡ none)
unfolding remove write_file
remove_content ip d ps readable w = ground (arith, filter_full (λ p. not (has_ip ip p)) ps)

has-not_ip :
    (ip : Text) (d : Disk) (ps : List Peer)
    → d.content ≡ ok ps
    → All (λ p. has_ip ip p ≡ false) ps
    → has ip d ≡ ok false
unfolding has all_peers
has-not_ip ip d ps readable h = rw (
  readable,
  any_none (has_ip ip) (sort_by joined_before ps)
      ((All-sort_by joined_before (λ p. has_ip ip p ≡ false) ps).0 h),
)

-- If the file can be read and written, Remove leaves exactly the peers of other IPs, in order; the
-- list stays a membership, and the IP is no longer in it.
pub remove-IsMembership :
    (ip : Text) (d : Disk) (ps : List Peer)
    → d.content ≡ ok ps
    → d.write_error ≡ none
    → IsMembership ps
    → ((remove ip d).0.content ≡ ok (filter (λ p. not (has_ip ip p)) ps))
      × ((remove ip d).1 ≡ none)
      × IsMembership (filter (λ p. not (has_ip ip p)) ps)
      × (has ip (remove ip d).0 ≡ ok false)
remove-IsMembership ip d ps readable w m =
    let (c, e) = remove_content ip d ps readable w in
    (
      c,
      e,
      record {
        distinct = Distinct-filter (λ p. not (has_ip ip p)) ps m.distinct;
        positive = All-filter (λ p. pos 1 ≤ℤ p.join_order) (λ p. not (has_ip ip p)) ps m.positive;
      },
      has-not_ip ip (remove ip d).0 (others ip ps) c (others-not_ip ip ps),
    )

bot_node_ip-eq :
    (d : Disk) (ps rest : List Peer) (b : Peer)
    → d.content ≡ ok ps
    → sort_by joined_before ps ≡ b ∷ rest
    → bot_node_ip d ≡ b.ip
unfolding bot_node_ip all_peers
bot_node_ip-eq d ps rest b readable e = ground arith

-- The bot node is a peer of the list that no other joined before; without a readable list that
-- has a peer there is none.
pub bot_node_ip_first :
    (d : Disk) (p : Peer) (ps : List Peer)
    → d.content ≡ ok (p ∷ ps)
    → (b : Peer) × In b (p ∷ ps)
      × (bot_node_ip d ≡ b.ip)
      × All (λ q. joined_before q b ≡ false) (p ∷ ps)
bot_node_ip_first d p ps readable =
    let (b, rest, e, m, h) = sort_by-head joined_before joined_before-IsOrder p ps in
    (b, m, bot_node_ip-eq d (p ∷ ps) rest b readable e, h)

JoinedLast-not_before :
    (q : Peer) (ps : List Peer) → JoinedLast q ps → All (λ p. joined_before q p ≡ false) ps
JoinedLast-not_before q ps h =
    All-map (λ p. joined_before p q ≡ true) (λ p. joined_before q p ≡ false) ps
      (λ p t. joined_before-IsOrder.asym p q t) h

Distinct-same_order :
    (ps : List Peer) (x y : Peer)
    → Distinct ps
    → In x ps
    → In y ps
    → x.join_order ≡ y.join_order
    → x ≡ y
Distinct-same_order [] x y d i j e = absurd i
Distinct-same_order (p ∷ ps) x y d i j e = elim i [
  | inl a ↦ elim j [
    | inl b ↦ a ∙ sym b
    | inr b ↦
        absurd ((All-In (Differ p) y ps d.0 b).1 (sym (ap (λ (z : Peer). z.join_order) a) ∙ e))
  ]
  | inr a ↦ elim j [
    | inl b ↦
        absurd ((All-In (Differ p) x ps d.0 a).1 (sym (ap (λ (z : Peer). z.join_order) b) ∙ sym e))
    | inr b ↦ Distinct-same_order ps x y d.1 a b e
  ]
]

-- Two peers of which neither joined before the other have one order.
not_before-eq :
    (x y : Peer)
    → joined_before x y ≡ false
    → joined_before y x ≡ false
    → x.join_order ≡ y.join_order
not_before-eq x y h k = (beq_ℤ_iff x.join_order y.join_order).0 (ground arith)

first-bot_node_ip :
    (d : Disk) (p : Peer) (ps : List Peer) (b : Peer)
    → d.content ≡ ok (p ∷ ps)
    → Distinct (p ∷ ps)
    → In b (p ∷ ps)
    → All (λ q. joined_before q b ≡ false) (p ∷ ps)
    → bot_node_ip d ≡ b.ip
first-bot_node_ip d p ps b readable distinct i first =
    let (c, j, e, h) = bot_node_ip_first d p ps readable in
    let one =
      not_before-eq c b (All-In (λ q. joined_before q b ≡ false) c (p ∷ ps) first j)
        (All-In (λ q. joined_before q c ≡ false) b (p ∷ ps) h i) in
    e ∙ ap (λ (z : Peer). z.ip) (Distinct-same_order (p ∷ ps) c b distinct j i one)

bot_stays :
    (is_ip : Text → Bool) (ip : Text) (d : Disk) (p : Peer) (ps : List Peer)
    → d.content ≡ ok (p ∷ ps)
    → HasRoom (p ∷ ps)
    → bot_node_ip (add is_ip ip d).0 ≡ bot_node_ip d
bot_stays is_ip ip d p ps readable room = elim (add_cases is_ip ip d (p ∷ ps) readable) [
  | inl (q, e, i, t) ↦ ap (λ (x : Disk × Result Text Peer). bot_node_ip x.0) e
  | inr (inl (x, e)) ↦ ap (λ (x : Disk × Result Text Peer). bot_node_ip x.0) e
  | inr (inr (e, h)) ↦
      let q = new_peer ip (p ∷ ps) in
      let (b, rest, s, m, first) = sort_by-head joined_before joined_before-IsOrder p ps in
      let last =
        sort_by-append_last joined_before q (p ∷ ps)
          (JoinedLast-not_before q (p ∷ ps) (new_peer-JoinedLast ip (p ∷ ps) room)) in
      bot_node_ip-eq (add is_ip ip d).0 ((p ∷ ps) ++ q ∷ []) (rest ++ q ∷ []) b
        (ap (λ (x : Disk × Result Text Peer). x.0.content) e) (last ∙ ap (λ l. l ++ q ∷ []) s)
      ∙ sym (bot_node_ip-eq d (p ∷ ps) rest b readable s)
]

-- In a cluster with a peer, whose join orders are distinct and below the largest int, adding others
-- never moves the bot role, whether Add succeeds or not; and the bot node is the one peer that no
-- other joined before, which does not depend on the sort.
pub add_keeps_bot :
    (is_ip : Text → Bool) (ip : Text) (d : Disk) (p : Peer) (ps : List Peer)
    → d.content ≡ ok (p ∷ ps)
    → Distinct (p ∷ ps)
    → HasRoom (p ∷ ps)
    → (bot_node_ip (add is_ip ip d).0 ≡ bot_node_ip d)
      × ((b : Peer)
          → In b (p ∷ ps)
          → All (λ q. joined_before q b ≡ false) (p ∷ ps)
          → bot_node_ip d ≡ b.ip)
add_keeps_bot is_ip ip d p ps readable distinct room = (
  bot_stays is_ip ip d p ps readable room,
  λ b i first. first-bot_node_ip d p ps b readable distinct i first,
)
