-- ===== src/Command/Handlers/Settings/Switches.antt =====
-- What a switch of the language or of the bot node leaves.
use mesh_cdn.Base.{
  Bool-cases, Option-cases, Result-cases, any, Text, same, same→eq, is_empty, ◌≡◌, sym, ap, subst,
  inl, inr, true, false, not, Option, none, some, List, arith, ok,
}
use mesh_cdn.Peers.{Peer, Disk, all_peers, has_ip}
use mesh_cdn.I18n.Languages.{parse_lang, same_lang, parse_lang-lang_text, same_lang_iff}
use mesh_cdn.Command.Types.{Lang, Command, Effects}
use mesh_cdn.Command.Executor.{Db}
use mesh_cdn.Command.Handlers.{is_placeholder}
use mesh_cdn.Command.Handlers.Settings.{
  Settings, SettingFaults, Catalogue, effective_lang, view_lang, current_bot, target_error,
  view_target,
}

-- If the stored language can be read, a /v lang with a language that is reported as done has made
-- it the one that EffectiveLang gives; the version is bumped exactly if it was another one before;
-- and the bot node is as before.
view_lang_lem :
    (faults : SettingFaults) (catalogue : Catalogue) (d : Db Settings) (c : Command) (l : Lang)
    (eff : Effects)
    → faults.get_language ≡ none
    → is_placeholder c.scope ≡ false
    → parse_lang c.scope ≡ some l
    → (view_lang faults catalogue d c).1 ≡ ok eff
    → (effective_lang faults (view_lang faults catalogue d c).0.rows ≡ l)
      × (eff.force_version_bump ≡ not (same_lang l (effective_lang faults d.rows)))
      × ((view_lang faults catalogue d c).0.rows.bot_node_ip ≡ d.rows.bot_node_ip)
unfolding view_lang effective_lang
view_lang_lem faults catalogue d c l eff g p q h =
    elim (Bool-cases (same_lang l (effective_lang faults d.rows))) [
      | inl e ↦ ground (arith, same_lang_iff l (effective_lang faults d.rows))
      | inr e ↦ elim (Option-cases faults.set_language) [
        | inr (x, f) ↦ absurd (ground arith)
        | inl f ↦ ground (arith, parse_lang-lang_text l)
      ]
    ]

target_error-none :
    (faults : SettingFaults) (disk : Disk) (target : Text)
    → target_error faults (some disk) target ≡ none
    → (ps : List Peer) × (all_peers disk ≡ ok ps) × (any (has_ip target) ps ≡ true)
unfolding target_error
target_error-none faults disk target h = elim (Result-cases (all_peers disk)) [
  | inr (x, e) ↦ absurd (ground arith)
  | inl (ps, e) ↦ (ps, e, ground arith)
]

-- If the override of the bot node can be read, a /v target that is reported as done has made its IP
-- the bot node of the cluster; the version is bumped exactly if it was not before; the language is
-- as before; and if the node has a list of the peers, the IP is one of them.
view_target_lem :
    (faults : SettingFaults) (peers : Option Disk) (d : Db Settings) (c : Command) (eff : Effects)
    → faults.get_bot_node_ip ≡ none
    → is_empty c.scope ≡ false
    → (view_target faults peers d c).1 ≡ ok eff
    → (current_bot faults peers (view_target faults peers d c).0.rows ≡ c.scope)
      × (eff.force_version_bump ≡ not (same (current_bot faults peers d.rows) c.scope))
      × ((view_target faults peers d c).0.rows.language ≡ d.rows.language)
      × ((disk : Disk)
          → peers ≡ some disk
          → (ps : List Peer) × (all_peers disk ≡ ok ps) × (any (has_ip c.scope) ps ≡ true))
unfolding view_target
view_target_lem faults peers d c eff g n h =
    elim (Option-cases (target_error faults peers c.scope)) [
      | inr (x, e) ↦ absurd (ground arith)
      | inl e ↦
          let known : (disk : Disk)
              → peers ≡ some disk
              → (ps : List Peer) × (all_peers disk ≡ ok ps) × (any (has_ip c.scope) ps ≡ true) =
            λ disk q.
              target_error-none faults disk c.scope
                (subst (λ p. target_error faults p c.scope ≡ none) q e) in
          elim (Bool-cases (same (current_bot faults peers d.rows) c.scope)) [
            | inl s ↦
                let q : (view_target faults peers d c).0 ≡ d = ground arith in
                (
                  subst (λ (x : Db Settings). current_bot faults peers x.rows ≡ c.scope) (sym q)
                      (same→eq (current_bot faults peers d.rows) c.scope s),
                  ground arith,
                  ap (λ (x : Db Settings). x.rows.language) q,
                  known,
                )
            | inr s ↦ elim (Option-cases faults.set_bot_node_ip) [
              | inr (x, f) ↦ absurd (ground arith)
              | inl f ↦
                  let q : (view_target faults peers d c).0
                      ≡ record d { rows = record d.rows { bot_node_ip = c.scope } } =
                    ground arith in
                  (
                    subst (λ (x : Db Settings). current_bot faults peers x.rows ≡ c.scope) (sym q)
                        (unfold current_bot in ground (arith, g, n)),
                    ground arith,
                    ap (λ (x : Db Settings). x.rows.language) q,
                    known,
                  )
            ]
          ]
    ]
