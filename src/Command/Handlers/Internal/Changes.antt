-- ===== src/Command/Handlers/Internal/Changes.antt =====
-- What the operations of the internal handler leave.
use mesh_cdn.Base.{
  if◌then◌else◌, Bool-cases, Option-cases, filter, any, In, Text, trim_space, ◌≡◌, refl, sym, ap,
  ◌∙◌, subst, ◌≢◌, inl, inr, Bool, true, false, not, Option, none, some, List, [], ◌∷◌, arith, ok,
}
use mesh_cdn.Base.Int.{ℤ}
use mesh_cdn.Peers.{Peer, Disk, has_ip, remove}
use mesh_cdn.Peers.Membership.{IsMembership, HasRoom}
use mesh_cdn.I18n.Languages.{parse_lang, lang_text, parse_lang-lang_text}
use mesh_cdn.Command.Types.{Lang, zh, Effects}
use mesh_cdn.Command.Executor.{Db}
use mesh_cdn.Command.Handlers.{is_placeholder}
use mesh_cdn.Command.Handlers.Settings.{Settings, SettingFaults, effective_lang, current_bot}
use mesh_cdn.Command.Handlers.Internal.PeerLists.{
  upsert_peer-self, upsert_peer-others, remove-filter, added-member,
}
use mesh_cdn.Command.Handlers.Internal.{
  PeerRowFaults, upsert_peer, InternalOp, peer_add, peer_remove, set_bot, set_lang, added, removed,
  add_peer, remove_peer, write_bot, store_lang, write_lang, Ended,
}

parse_lang_empty : parse_lang [] ≡ none
unfolding parse_lang trim_space
parse_lang_empty = refl

module _ (faults : SettingFaults) where
  -- What an operation on the word leaves of the file and the database.
  abbrev pub Changed :
      InternalOp → Text → ℤ → Option Disk × Db Settings → Option Disk × Db Settings → Type 0
  Changed peer_add w order (file, d) (file', d') =
      In (record { ip = w; join_order = order }) d'.peers
      × ((q : Peer)
          → has_ip w q ≡ false
          → (In q d'.peers → In q d.peers) × (In q d.peers → In q d'.peers))
      × (d'.rows ≡ d.rows)
      × ((disk : Disk) (ps : List Peer)
          → file ≡ some disk
          → disk.content ≡ ok ps
          → HasRoom ps
          → IsMembership ps
          → (disk' : Disk) × (qs : List Peer) × (file' ≡ some disk')
            × (disk'.content ≡ ok qs)
            × IsMembership qs
            × (any (has_ip w) qs ≡ true))
  Changed peer_remove w order (file, d) (file', d') =
      (d'.peers ≡ filter (λ p. not (has_ip w p)) d.peers)
      × (d'.rows ≡ d.rows)
      × ((disk : Disk) (ps : List Peer)
          → file ≡ some disk
          → disk.content ≡ ok ps
          → (disk' : Disk) × (file' ≡ some disk')
            × (disk'.content ≡ ok (filter (λ p. not (has_ip w p)) ps)))
  Changed set_bot w order (file, d) (file', d') =
      (file' ≡ file)
      × (d'.peers ≡ d.peers)
      × (d'.rows.language ≡ d.rows.language)
      × (is_placeholder w ≡ true → d'.rows.bot_node_ip ≡ [])
      × (is_placeholder w ≡ false → w ≢ [] → current_bot faults file' d'.rows ≡ w)
  Changed set_lang w order (file, d) (file', d') =
      (file' ≡ file)
      × (d'.peers ≡ d.peers)
      × (d'.rows.bot_node_ip ≡ d.rows.bot_node_ip)
      × (is_placeholder w ≡ true → effective_lang faults d'.rows ≡ zh)
      × ((l : Lang)
          → is_placeholder w ≡ false
          → parse_lang w ≡ some l
          → effective_lang faults d'.rows ≡ l)

module _ (is_ip : Text → Bool) (quote : Text → Text) (faults : SettingFaults)
    (rows : PeerRowFaults) where
  abbrev pub After :
      InternalOp → Text → ℤ → Option Disk → Db Settings → Ended is_ip quote faults rows → Type 0
  After op w order file d r = Changed faults op w order (file, d) (r.0, r.1)

  pub add_peer-Changed :
      (w : Text) (order : ℤ) (file : Option Disk) (d : Db Settings) (eff : Effects)
      → (add_peer is_ip quote faults rows w order file d).2 ≡ ok eff
      → After peer_add w order file d (add_peer is_ip quote faults rows w order file d)
  add_peer-Changed w order file d eff h = elim (Option-cases (added is_ip w file).1) [
    | inr (x, e) ↦ absurd (ground arith)
    | inl e ↦ elim (Option-cases rows.insert_peer) [
      | inr (x, f) ↦ absurd (ground arith)
      | inl f ↦
          let p : Peer = record { ip = w; join_order = order } in
          let q : add_peer is_ip quote faults rows w order file d
              ≡ ((added is_ip w file).0, record d { peers = upsert_peer p d.peers }, ok eff) =
            ground arith in
          subst (After peer_add w order file d) (sym q) (
            upsert_peer-self p d.peers,
            λ x n. upsert_peer-others p x d.peers n,
            refl,
            λ disk ps g c room m.
                subst
                  (λ o.
                    (added is_ip w o).1 ≡ none
                    → (disk' : Disk) × (qs : List Peer) × ((added is_ip w o).0 ≡ some disk')
                      × (disk'.content ≡ ok qs)
                      × IsMembership qs
                      × (any (has_ip w) qs ≡ true))
                  (sym g) (added-member is_ip w disk ps c room m) e,
          )
    ]
  ]

  pub remove_peer-Changed :
      (w : Text) (order : ℤ) (file : Option Disk) (d : Db Settings) (eff : Effects)
      → (remove_peer is_ip quote faults rows w file d).2 ≡ ok eff
      → After peer_remove w order file d (remove_peer is_ip quote faults rows w file d)
  remove_peer-Changed w order file d eff h = elim (Option-cases (removed w file).1) [
    | inr (x, e) ↦ absurd (ground arith)
    | inl e ↦ elim (Option-cases rows.delete_peer) [
      | inr (x, f) ↦ absurd (ground arith)
      | inl f ↦
          let q : remove_peer is_ip quote faults rows w file d ≡ (
            (removed w file).0,
            record d { peers = filter (λ p. not (has_ip w p)) d.peers },
            ok eff,
          ) =
            ground arith in
          subst (After peer_remove w order file d) (sym q) (
            refl,
            refl,
            λ disk ps g c.
                subst
                  (λ o.
                    (removed w o).1 ≡ none
                    → (disk' : Disk) × ((removed w o).0 ≡ some disk')
                      × (disk'.content ≡ ok (filter (λ p. not (has_ip w p)) ps)))
                  (sym g) (λ n. ((remove w disk).0, refl, remove-filter w disk ps c n)) e,
          )
    ]
  ]

  pub write_bot-Changed :
      (w : Text) (order : ℤ) (file : Option Disk) (d : Db Settings) (eff : Effects)
      → faults.get_bot_node_ip ≡ none
      → (write_bot is_ip quote faults rows w file d).2 ≡ ok eff
      → After set_bot w order file d (write_bot is_ip quote faults rows w file d)
  unfolding current_bot
  write_bot-Changed w order file d eff g h = elim (Option-cases faults.set_bot_node_ip) [
    | inr (x, f) ↦ absurd (ground arith)
    | inl f ↦
        let q : write_bot is_ip quote faults rows w file d ≡ (
          file,
          record d { rows = record d.rows { bot_node_ip = if is_placeholder w then [] else w } },
          ok eff,
        ) =
          ground arith in
        subst (After set_bot w order file d) (sym q)
          (refl, refl, refl, λ p. rw p refl, λ p n. go w p n)
  ]
    where
      go :
          (w : Text)
          → is_placeholder w ≡ false
          → w ≢ []
          → current_bot faults file
              (record d.rows { bot_node_ip = if is_placeholder w then [] else w })
            ≡ w
      go [] p n = absurd (n refl)
      go (c ∷ w) p n = ground (arith, p, g)

  store_lang-Changed :
      (l : Text) (file : Option Disk) (d : Db Settings) (eff : Effects)
      → (store_lang is_ip quote faults rows l file d).2 ≡ ok eff
      → store_lang is_ip quote faults rows l file d
        ≡ (file, record d { rows = record d.rows { language = l } }, ok eff)
  store_lang-Changed l file d eff h = elim (Option-cases faults.set_language) [
    | inr (x, f) ↦ absurd (ground arith)
    | inl f ↦ ground arith
  ]

  pub write_lang-Changed :
      (w : Text) (order : ℤ) (file : Option Disk) (d : Db Settings) (eff : Effects)
      → faults.get_language ≡ none
      → (write_lang is_ip quote faults rows w file d).2 ≡ ok eff
      → After set_lang w order file d (write_lang is_ip quote faults rows w file d)
  unfolding effective_lang
  write_lang-Changed w order file d eff g h = elim (Bool-cases (is_placeholder w)) [
    | inl p ↦
        let a : write_lang is_ip quote faults rows w file d
            ≡ store_lang is_ip quote faults rows [] file d =
          ground arith in
        let q = a ∙ store_lang-Changed [] file d eff (ap (λ r. r.2) (sym a) ∙ h) in
        subst (After set_lang w order file d) (sym q)
          (refl, refl, refl, λ z. ground (arith, g, parse_lang_empty), λ l z. absurd (ground arith))
    | inr p ↦ elim (Option-cases (parse_lang w)) [
      | inl e ↦ absurd (ground arith)
      | inr (l, e) ↦
          let a : write_lang is_ip quote faults rows w file d
              ≡ store_lang is_ip quote faults rows (lang_text l) file d =
            ground arith in
          let q = a ∙ store_lang-Changed (lang_text l) file d eff (ap (λ r. r.2) (sym a) ∙ h) in
          subst (After set_lang w order file d) (sym q) (
            refl,
            refl,
            refl,
            λ z. absurd (ground arith),
            λ t z f. ground (arith, g, e, f, parse_lang-lang_text l),
          )
    ]
  ]
