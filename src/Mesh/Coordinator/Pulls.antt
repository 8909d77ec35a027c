-- ===== src/Mesh/Coordinator/Pulls.antt =====
-- The peer that a snapshot is pulled from.
use mesh_cdn.Base.{
  filter, All, In, All-In, In-filter, filter-In, Text, text, is_empty, ◌≤◌, ◌≡◌, refl, sym, subst,
  ◌↔◌, ◌⊎◌, inl, inr, true, false, Option, none, some, [], ◌∷◌, arith,
}
use mesh_cdn.Base.Int.{ℤ, ◌≤ℤ◌}
use mesh_cdn.Base.Sort.{sort_by, IsOrder, sort_by-head}
use mesh_cdn.Mesh.Coordinator.{
  PeerState, States, is_candidate, is_faster, best_peer_to_pull, pull_from_best,
}

-- The peer answered the last ping, and is at the version or ahead of it.
abbrev pub IsEligible : ℤ → PeerState → Type 0
IsEligible target st = (target ≤ℤ st.config_version) × (st.consecutive_failures ≡ 0)

is_candidate_iff :
    (target : ℤ) (ip : Text) (st : PeerState)
    → (is_candidate target (ip, st) ≡ true) ↔ IsEligible target st
is_candidate_iff target ip st = ground arith

is_faster-IsOrder : IsOrder is_faster
is_faster-IsOrder = record { asym = λ a b h. ground arith; trans = λ a b c h k. ground arith }

-- How a pull should end.
abbrev pub IsBestPull : (Text → Option Text) → ℤ → States → Option Text × Option Text → Type 0
IsBestPull pull target states r =
    (((ip : Text) (st : PeerState) → In (ip, st) states → IsEligible target st → ⊥)
      × (r ≡ (none, some (text "no eligible peer to pull from"))))
    ⊎ ((ip : Text) × (st : PeerState) × In (ip, st) states
        × IsEligible target st
        × ((j : Text) (other : PeerState)
            → In (j, other) states
            → IsEligible target other
            → st.last_rtt ≤ other.last_rtt)
        × (r ≡ (some ip, pull ip)))

In-candidates :
    (target : ℤ) (states : States) (ip : Text) (st : PeerState)
    → In (ip, st) (filter (is_candidate target) states)
      ↔ (In (ip, st) states × IsEligible target st)
In-candidates target states ip st = (
  λ m.
      let (i, t) = In-filter (is_candidate target) (ip, st) states m in
      (i, (is_candidate_iff target ip st).0 t),
  λ (i, e). filter-In (is_candidate target) (ip, st) states i ((is_candidate_iff target ip st).1 e),
)

slowest : (a b : Text × PeerState) → is_faster b a ≡ false → a.1.last_rtt ≤ b.1.last_rtt
slowest a b h = ground arith

-- PullFromBest, once it is wired and if no key of the table is empty: it reports that there is no
-- peer when none is eligible, and pulls nothing. Otherwise it pulls from an eligible peer, and no
-- eligible peer answered faster.
pub pull_from_best-IsBestPull :
    (pull : Text → Option Text) (target : ℤ) (states : States)
    → All (λ (e : Text × PeerState). is_empty e.0 ≡ false) states
    → IsBestPull pull target states (pull_from_best (some pull) target states)
unfolding pull_from_best best_peer_to_pull
pull_from_best-IsBestPull pull target states h = go (filter (is_candidate target) states) refl
  where
    go :
        (l : States)
        → filter (is_candidate target) states ≡ l
        → IsBestPull pull target states (pull_from_best (some pull) target states)
    go [] e = inl (
      λ ip st i q. subst (λ l. In (ip, st) l) e ((In-candidates target states ip st).1 (i, q)),
      rw e (unfold sort_by in refl),
    )
    go (x ∷ xs) e =
        let (b, rest, s, m, best) = sort_by-head is_faster is_faster-IsOrder x xs in
        let (i, q) =
          (In-candidates target states b.0 b.1).0 (subst (λ l. In (b.0, b.1) l) (sym e) m) in
        let named = All-In (λ (e : Text × PeerState). is_empty e.0 ≡ false) (b.0, b.1) states h i in
        inr (
          b.0,
          b.1,
          i,
          q,
          λ j other k r.
              slowest b (j, other)
                (All-In (λ y. is_faster y b ≡ false) (j, other) (x ∷ xs) best
                  (subst (λ l. In (j, other) l) e
                    ((In-candidates target states j other).1 (k, r)))),
          rw (e, s, named) refl,
        )
