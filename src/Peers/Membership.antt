-- ===== src/Peers/Membership.antt =====
-- The membership list under Add, Remove and ReplaceAll, and the bot node that it names.
use mesh_cdn.Base.{
  if◌then◌else◌, Bool-cases, Option-cases, ok-injective, ok-ne-err, Result, filter, find?, All, In,
  All-In, All-of_In, find?-some, find?-none, All-append, All-filter, All-map, Text, text, same→eq,
  same_iff, ◌≡◌, refl, sym, ap, ◌∙◌, subst, ◌≢◌, ◌↔◌, ◌⊎◌, inl, inr, Bool, true, false, none, some,
  List, [], ◌∷◌, ◌++◌, arith, ok, err,
}
use mesh_cdn.Base.Decimal.{int_max}
use mesh_cdn.Base.Int.{ℤ, pos, ltb_ℤ, suc_ℤ, suc_ℤ-above, ◌≤ℤ◌}
use mesh_cdn.Base.Sort.{IsOrder}
use mesh_cdn.Peers.{
  Peer, Disk, write_file, joined_before, has_ip, max_order, next_order, new_peer, add,
}

pub joined_before-IsOrder : IsOrder joined_before
joined_before-IsOrder = record { asym = λ p q h. ground arith; trans = λ p q r h k. ground arith }

max_order-le : (top : ℤ) (ps : List Peer) → top ≤ℤ max_order top ps
unfolding max_order
max_order-le top [] = omega arith
max_order-le top (p ∷ ps) =
    ground (arith, max_order-le (if ltb_ℤ top p.join_order then p.join_order else top) ps)

max_order-bound : (top : ℤ) (ps : List Peer) → All (λ p. p.join_order ≤ℤ max_order top ps) ps
unfolding max_order
max_order-bound top [] = tt
max_order-bound top (p ∷ ps) =
    let top' = if ltb_ℤ top p.join_order then p.join_order else top in
    (ground (arith, max_order-le top' ps), max_order-bound top' ps)

-- The orders leave room for one more.
abbrev pub HasRoom : List Peer → Type 0
HasRoom ps = All (λ p. ltb_ℤ p.join_order (pos int_max) ≡ true) ps

max_order_room :
    (top : ℤ) (ps : List Peer)
    → ltb_ℤ top (pos int_max) ≡ true
    → HasRoom ps
    → ltb_ℤ (max_order top ps) (pos int_max) ≡ true
unfolding max_order
max_order_room top [] t r = t
max_order_room top (p ∷ ps) t r = elim (Bool-cases (ltb_ℤ top p.join_order)) [
  | inl e ↦ rw e (max_order_room p.join_order ps r.0 r.1)
  | inr e ↦ rw e (max_order_room top ps t r.1)
]

new_order :
    (ps : List Peer) → HasRoom ps → next_order (max_order (pos 0) ps) ≡ suc_ℤ (max_order (pos 0) ps)
new_order ps r = rw (max_order_room (pos 0) ps (unfold max_order in refl) r) refl

new_order-above :
    (a : ℤ) (ps : List Peer)
    → HasRoom ps
    → a ≤ℤ max_order (pos 0) ps
    → (a ≢ next_order (max_order (pos 0) ps)) × (ltb_ℤ a (next_order (max_order (pos 0) ps)) ≡ true)
new_order-above a ps r h =
    let s = suc_ℤ-above a (max_order (pos 0) ps) h in
    subst (λ n. (a ≢ n) × (ltb_ℤ a n ≡ true)) (sym (new_order ps r)) (s.0, s.2)

-- Neither the IP nor the join order of two peers is the same.
abbrev pub Differ : Peer → Peer → Type 0
Differ p q = (p.ip ≢ q.ip) × (p.join_order ≢ q.join_order)

abbrev pub Distinct : List Peer → Type 0
Distinct [] = Unit
Distinct (p ∷ ps) = All (Differ p) ps × Distinct ps

Distinct-snoc :
    (ps : List Peer) (q : Peer) → Distinct ps → All (λ p. Differ p q) ps → Distinct (ps ++ q ∷ [])
Distinct-snoc [] q d h = (tt, tt)
Distinct-snoc (p ∷ ps) q d h =
    (All-append (Differ p) ps (q ∷ []) d.0 (h.0, tt), Distinct-snoc ps q d.1 h.1)

pub Distinct-filter : (f : Peer → Bool) (ps : List Peer) → Distinct ps → Distinct (filter f ps)
Distinct-filter f [] d = tt
Distinct-filter f (p ∷ ps) d = elim (Bool-cases (f p)) [
  | inl e ↦ rw e (All-filter (Differ p) f ps d.0, Distinct-filter f ps d.1)
  | inr e ↦ rw e (Distinct-filter f ps d.1)
]

-- The peer that Add makes differs from all others, and joined after them.
new_peer-differs :
    (ip : Text) (ps : List Peer)
    → HasRoom ps
    → All (λ p. has_ip ip p ≡ false) ps
    → All (λ p. Differ p (new_peer ip ps)) ps
new_peer-differs ip ps room h =
    All-of_In (λ p. Differ p (new_peer ip ps)) ps
      λ p m.
        let other = All-In (λ q. has_ip ip q ≡ false) p ps h m in
        let bound =
          All-In (λ q. q.join_order ≤ℤ max_order (pos 0) ps) p ps (max_order-bound (pos 0) ps) m in
        (λ e. ground (arith, same_iff p.ip ip), (new_order-above p.join_order ps room bound).0)

-- No IP and no join order stands in the list twice, and join orders count from 1.
pub record IsMembership (ps : List Peer) : Type 0 where
  pub distinct : Distinct ps
  pub positive : All (λ p. pos 1 ≤ℤ p.join_order) ps

-- `p` joined after every peer of the list.
abbrev pub JoinedLast : Peer → List Peer → Type 0
JoinedLast p ps = All (λ q. joined_before q p ≡ true) ps

pub new_peer-JoinedLast : (ip : Text) (ps : List Peer) → HasRoom ps → JoinedLast (new_peer ip ps) ps
new_peer-JoinedLast ip ps room =
    All-map (λ q. q.join_order ≤ℤ max_order (pos 0) ps)
      (λ q. joined_before q (new_peer ip ps) ≡ true) ps
      (λ q b. (new_order-above q.join_order ps room b).1) (max_order-bound (pos 0) ps)

suc_ℤ_pos : (a : ℤ) → pos 0 ≤ℤ a → pos 1 ≤ℤ suc_ℤ a
suc_ℤ_pos a h = ground arith

new_peer-IsMembership :
    (ip : Text) (ps : List Peer)
    → HasRoom ps
    → All (λ p. has_ip ip p ≡ false) ps
    → IsMembership ps
    → IsMembership (ps ++ new_peer ip ps ∷ [])
new_peer-IsMembership ip ps room h m = record {
  distinct = Distinct-snoc ps (new_peer ip ps) m.distinct (new_peer-differs ip ps room h);
  positive =
      All-append (λ p. pos 1 ≤ℤ p.join_order) ps (new_peer ip ps ∷ []) m.positive
        (
          subst (λ n. pos 1 ≤ℤ n) (sym (new_order ps room))
              (suc_ℤ_pos (max_order (pos 0) ps) (max_order-le (pos 0) ps)),
          tt,
        );
}

module _ (is_ip : Text → Bool) (ip : Text) (d : Disk) (ps : List Peer)
    (readable : d.content ≡ ok ps) where
  -- The peer was there; or there was an error; or it is new, and the file is written.
  pub add_cases :
      ((p : Peer) × (add is_ip ip d ≡ (d, ok p)) × In p ps × (has_ip ip p ≡ true))
      ⊎ ((e : Text) × (add is_ip ip d ≡ (d, err e)))
      ⊎ ((add is_ip ip d
            ≡ (record d { content = ok (ps ++ new_peer ip ps ∷ []) }, ok (new_peer ip ps)))
          × All (λ p. has_ip ip p ≡ false) ps)
  unfolding add write_file
  add_cases = elim (Bool-cases (is_ip ip)) [
    | inr e ↦ inr (inl (text "invalid IP: " ++ ip, rw e))
    | inl e ↦ elim (Option-cases (find? (has_ip ip) ps)) [
      | inr (p, f) ↦ let (m, t) = find?-some (has_ip ip) p ps f in inl (p, ground arith, m, t)
      | inl f ↦ elim (Option-cases d.write_error) [
        | inl w ↦ inr (inr (ground arith, find?-none (has_ip ip) ps f))
        | inr (x, w) ↦ inr (inl (x, ground arith))
      ]
    ]
  ]

  abbrev pub after : Disk
  after = (add is_ip ip d).0

  abbrev pub answer : Result Text Peer
  answer = (add is_ip ip d).1

  -- If no join order of the list is the largest int, Add keeps its promise: the list that it leaves
  -- is a membership; a peer that it returns has the IP, is in that list, and was in the old one,
  -- which is then unchanged, or stands behind the old list and joined after all of it; an error
  -- leaves the file as it was.
  pub add-IsMembership :
      HasRoom ps
      → IsMembership ps
      → (qs : List Peer) × (after.content ≡ ok qs)
        × IsMembership qs
        × ((p : Peer)
            → answer ≡ ok p
            → (p.ip ≡ ip) × ((In p ps × (qs ≡ ps)) ⊎ ((qs ≡ ps ++ p ∷ []) × JoinedLast p ps)))
        × ((e : Text) → answer ≡ err e → after ≡ d)
  add-IsMembership room m = elim add_cases [
    | inl (q, e, i, t) ↦ (
      ps,
      ap (λ (x : Disk × Result Text Peer). x.0.content) e ∙ readable,
      m,
      λ p a.
          let z : q ≡ p = ok-injective (sym (ap (λ (x : Disk × Result Text Peer). x.1) e) ∙ a) in
          (
            ap (λ (y : Peer). y.ip) (sym z) ∙ same→eq q.ip ip t,
            inl (subst (λ y. In y ps) z i, refl),
          ),
      λ x a. ap (λ (y : Disk × Result Text Peer). y.0) e,
    )
    | inr (inl (x, e)) ↦ (
      ps,
      ap (λ (x : Disk × Result Text Peer). x.0.content) e ∙ readable,
      m,
      λ p a. absurd (ok-ne-err (sym a ∙ ap (λ (x : Disk × Result Text Peer). x.1) e)),
      λ x a. ap (λ (y : Disk × Result Text Peer). y.0) e,
    )
    | inr (inr (e, h)) ↦ (
      ps ++ new_peer ip ps ∷ [],
      ap (λ (x : Disk × Result Text Peer). x.0.content) e,
      new_peer-IsMembership ip ps room h m,
      λ p a.
          let z : new_peer ip ps ≡ p =
            ok-injective (sym (ap (λ (x : Disk × Result Text Peer). x.1) e) ∙ a) in
          (
            ap (λ (y : Peer). y.ip) (sym z),
            inr (
              ap (λ y. ps ++ y ∷ []) z,
              subst (λ y. JoinedLast y ps) z (new_peer-JoinedLast ip ps room),
            ),
          ),
      λ x a. absurd (ok-ne-err (sym (ap (λ (x : Disk × Result Text Peer). x.1) e) ∙ a)),
    )
  ]

module _ (is_ip : Text → Bool) (ip : Text) (d : Disk) (ps : List Peer)
    (readable : d.content ≡ ok ps) where
  -- If the file can be read, Add returns a peer exactly when the text is an IP, and a peer with the
  -- IP is in the list already or the file can be written.
  pub add_succeeds : ((p : Peer) × ((add is_ip ip d).1 ≡ ok p)) ↔ (
      (is_ip ip ≡ true) × (((p : Peer) × (find? (has_ip ip) ps ≡ some p)) ⊎ (d.write_error ≡ none)))
  unfolding add write_file
  add_succeeds = (to, from)
    where
      to :
          (p : Peer) × ((add is_ip ip d).1 ≡ ok p)
          → (is_ip ip ≡ true)
            × (((p : Peer) × (find? (has_ip ip) ps ≡ some p)) ⊎ (d.write_error ≡ none))
      to (p, h) = elim (Option-cases (find? (has_ip ip) ps)) [
        | inr (q, f) ↦ (ground arith, inl (q, f))
        | inl f ↦ (ground arith, inr (ground arith))
      ]

      from :
          (is_ip ip ≡ true)
            × (((p : Peer) × (find? (has_ip ip) ps ≡ some p)) ⊎ (d.write_error ≡ none))
          → (p : Peer) × ((add is_ip ip d).1 ≡ ok p)
      from (t, h) = elim (Option-cases (find? (has_ip ip) ps)) [
        | inr (q, f) ↦ (q, ground arith)
        | inl f ↦ (new_peer ip ps, ground arith)
      ]
