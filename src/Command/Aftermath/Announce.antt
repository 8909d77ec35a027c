-- ===== src/Command/Aftermath/Announce.antt =====
-- When the peers are told of a new version.
use mesh_cdn.Base.Int.{ℤ}
use mesh_cdn.Base.{
  if◌then◌else◌, any, In, In-append, any-append, Text, is_empty, ℕ, suc, ◌≡◌, refl, ap, inl, inr,
  Bool, true, false, none, some, List, [], ◌∷◌, ◌++◌, arith,
}
use mesh_cdn.Command.Types.{Effects}
use mesh_cdn.Command.Aftermath.{
  Services, Action, save_snapshot, notify_peers, Stage, purge_entries, purge_cache_dir,
  apply_cache_purge, purge_stage, apply_nginx, announce, then_stage, stages, apply_effects,
}

abbrev is_notice : Action → Bool
is_notice (notify_peers v) = true
is_notice _ = false

purge_entries_quiet :
    (s : Services) (dir : Text) (n : ℕ) (names : List Text)
    → any is_notice (purge_entries s dir n names).0 ≡ false
unfolding purge_entries
purge_entries_quiet s dir n [] = refl
purge_entries_quiet s dir n (x ∷ names) = ground (arith, purge_entries_quiet s dir (suc n) names)

purge_cache_dir_quiet :
    (s : Services) (dir : Text) → any is_notice (purge_cache_dir s dir).0 ≡ false
unfolding purge_cache_dir
purge_cache_dir_quiet s dir = grind (arith, purge_entries_quiet)

apply_cache_purge_quiet :
    (s : Services) (eff : Effects) → any is_notice (apply_cache_purge s eff).1 ≡ false
unfolding apply_cache_purge
apply_cache_purge_quiet s eff = grind (arith, purge_cache_dir_quiet, any-append)

apply_nginx_quiet : (s : Services) (eff : Effects) → any is_notice (apply_nginx s eff).1 ≡ false
unfolding apply_nginx
apply_nginx_quiet s eff = ground arith

-- The two stages before the last one: what they do, and that no peer is told by them.
abbrev pub before_announce : Services → Effects → Stage
before_announce s eff = then_stage (apply_nginx s eff) (purge_stage s)

before_announce_quiet :
    (s : Services) (eff : Effects) → any is_notice (before_announce s eff).1 ≡ false
before_announce_quiet s eff = grind (arith, apply_nginx_quiet, apply_cache_purge_quiet, any-append)

In-notice : (v : ℤ) (l : List Action) → In (notify_peers v) l → any is_notice l ≡ true
In-notice v [] m = elim m [ ]
In-notice v (x ∷ l) (inl e) = ground arith
In-notice v (x ∷ l) (inr m) = ground (arith, In-notice v l m)

-- The actions of a stage that saves the snapshot and then tells the peers.
abbrev pub told : Services → ℤ → List Action
told s v =
    if is_empty s.snapshot_path
    then notify_peers v ∷ []
    else save_snapshot s.snapshot_path ∷ notify_peers v ∷ []

announce_notice :
    (s : Services) (mutated : Bool) (version v : ℤ) (eff : Effects)
    → In (notify_peers v) (announce s mutated version eff).1
    → (v ≡ version)
      × (mutated ≡ true)
      × ((announce s mutated version eff).2 ≡ none)
      × ((announce s mutated version eff).1 ≡ told s version)
unfolding announce
announce_notice s mutated version v eff m = ground arith

-- `actions` end with a saved snapshot, if there is a path for one, and the word to the peers.
abbrev pub EndsTold : Services → ℤ → List Action → Type 0
EndsTold s version actions = (done : List Action) × (actions ≡ done ++ told s version)

then_announce :
    (s : Services) (mutated : Bool) (version v : ℤ) (st : Stage)
    → any is_notice st.1 ≡ false
    → In (notify_peers v) (then_stage st (announce s mutated version)).1
    → (v ≡ version)
      × (mutated ≡ true)
      × ((then_stage st (announce s mutated version)).2 ≡ none)
      × EndsTold s version (then_stage st (announce s mutated version)).1
then_announce s mutated version v (eff, done, some x) q m =
    absurd (ground (arith, In-notice v done m))
then_announce s mutated version v (eff, done, none) q m =
    elim (In-append _ done (announce s mutated version eff).1 m) [
      | inl early ↦ absurd (ground (arith, In-notice v done early))
      | inr late ↦
          let (a, b, c, d) = announce_notice s mutated version v eff late in
          (a, b, c, (done, ap (λ l. done ++ l) d))
    ]

-- The peers are told of a version only after a mutation, only of the new version, only if no
-- stage failed, as the last action, and right after the snapshot was saved, if it is saved at all.
pub apply_effects_announces :
    (s : Services) (eff : Effects) (mutated : Bool) (version v : ℤ)
    → In (notify_peers v) (apply_effects s eff mutated version).1
    → (v ≡ version)
      × (mutated ≡ true)
      × ((stages s eff mutated version).2 ≡ none)
      × EndsTold s version (apply_effects s eff mutated version).1
unfolding apply_effects stages
apply_effects_announces s eff mutated version v m =
    then_announce s mutated version v (before_announce s eff) (before_announce_quiet s eff) m
