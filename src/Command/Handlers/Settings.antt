-- ===== src/Command/Handlers/Settings.antt =====
-- The settings of the cluster: LangHandler and TargetHandler of internal/command/handlers/system.go,
-- EffectiveLang of internal/command/lang.go, and the statements of internal/db/schema.go.
pub mod Switches
use mesh_cdn.Base.{
  if◌then◌else◌, Result, any, Text, text, same, is_empty, ◌-◌, ◌/◌, Bool, true, Option, none, some,
  List, [], ◌∷◌, ◌++◌, ok, err,
}
use mesh_cdn.Peers.{Peer, Disk, all_peers, has_ip, bot_node_ip}
use mesh_cdn.I18n.Languages.{parse_lang, lang_text, display_name, same_lang}
use mesh_cdn.Command.Types.{
  Verb, write, delete, view, Lang, zh, Command, Error, plain, driver, bad_format, bad_params,
  not_found, Effects, no_effects,
}
use mesh_cdn.Command.Executor.{Db, Handler}
use mesh_cdn.Command.Handlers.{is_placeholder, error, reply}

-- The row of cluster_meta, without config_version. NULL is the empty text.
pub record Settings : Type 0 where
  pub language : Text
  pub bot_node_ip : Text

-- How the statements on the row end.
pub record SettingFaults : Type 0 where
  pub get_language : Option Text
  pub set_language : Option Text
  pub get_bot_node_ip : Option Text
  pub set_bot_node_ip : Option Text

-- A reply after which the version is bumped although the verb is /v.
abbrev pub switched : Text → Effects
switched m = record no_effects { force_version_bump = true; user_message = m }

-- The value of a text in the catalogue, behind i18n.T.
abbrev pub Catalogue : Type 0
Catalogue = Lang → Text → List Text → Text

abbrev refuse : {T : Type 0} → Text → Db T → Command → Db T × Result Error Effects
refuse m d c = (d, err (error bad_format m))

abbrev not_view : Text → Command → Option Error → Option Error
not_view m c rest = elim c.verb [
  | write ↦ some (error bad_format m)
  | delete ↦ some (error bad_format m)
  | view ↦ rest
]

abbrev lang_or_default : Option Lang → Lang
lang_or_default none = zh
lang_or_default (some l) = l

module _ (faults : SettingFaults) where
  -- EffectiveLang
  unfoldable pub effective_lang : Settings → Lang
  unfolding parse_lang
  effective_lang s = elim faults.get_language [
    | some e ↦ zh
    | none ↦ lang_or_default (parse_lang s.language)
  ]

  module _ (catalogue : Catalogue) where
    abbrev lang_error : (Text → Text) → Command → Option Error
    lang_error quote c = if is_placeholder c.scope then none else elim (parse_lang c.scope) [
      | some l ↦ none
      | none ↦ some (
          error bad_params
            (text "unsupported language " ++ (quote c.scope ++ text " (expected cn / en)")))
    ]

    -- LangHandler.View
    unfoldable pub view_lang : Db Settings → Command → Db Settings × Result Error Effects
    unfolding effective_lang parse_lang same
    view_lang d c =
        let current = effective_lang d.rows in
        if is_placeholder c.scope
        then (d, ok (reply (catalogue current (text "lang.current") (display_name current ∷ []))))
        else elim (parse_lang c.scope) [
          | none ↦
              (d, err (error bad_params (catalogue current (text "lang.unknown") (c.scope ∷ []))))
          | some target ↦
              if same_lang target current
              then (
                d,
                ok (reply (catalogue current (text "lang.unchanged") (display_name current ∷ []))),
              )
              else elim faults.set_language [
                | some e ↦ (d, err (plain (driver (text "set language: " ++ e))))
                | none ↦ (
                  record d { rows = record d.rows { language = lang_text target } },
                  ok (
                      switched (
                        catalogue target (text "lang.switched") (display_name target ∷ [])
                        ++ (text "\n" ++ catalogue target (text "lang.hint_after") []))),
                )
              ]
        ]

    -- LangHandler
    unfoldable pub lang_handler : (Text → Text) → Handler Settings
    unfolding view_lang parse_lang same
    lang_handler quote = record {
      validate = λ c. not_view (text "use /v lang <cn|en> -") c (lang_error quote c);
      write = refuse (text "use /v lang");
      delete = refuse (text "use /v lang");
      view = view_lang;
    }

  -- The bot node: the override, or the default of the peers.
  unfoldable pub current_bot : Option Disk → Settings → Text
  unfolding bot_node_ip
  current_bot peers s =
      let stored : Text = elim faults.get_bot_node_ip [ some e ↦ [] | none ↦ s.bot_node_ip ] in
      if is_empty stored then elim peers [ none ↦ [] | some disk ↦ bot_node_ip disk ] else stored

  -- Why a peer cannot be the target, if there is a list of peers.
  unfoldable pub target_error : Option Disk → Text → Option Error
  unfolding all_peers same
  target_error none target = none
  target_error (some disk) target = elim (all_peers disk) [
    | err e ↦ some (plain (driver (text "load peers: " ++ e)))
    | ok ps ↦
        if any (has_ip target) ps
        then none
        else some (
            error not_found
              (text "target " ++ (target ++ text " 不是已知集群节点 (先 /v nodes - - 查看，或让它先认亲)")))
  ]

  -- TargetHandler.View
  unfoldable pub view_target :
      Option Disk → Db Settings → Command → Db Settings × Result Error Effects
  unfolding current_bot target_error same
  view_target peers d c = elim (target_error peers c.scope) [
    | some e ↦ (d, err e)
    | none ↦
        if same (current_bot peers d.rows) c.scope
        then (d, ok (reply (c.scope ++ text " 已经是当前 bot 节点，无需转移")))
        else elim faults.set_bot_node_ip [
          | some e ↦ (d, err (plain (driver (text "set bot_node_ip: " ++ e))))
          | none ↦ (
            record d { rows = record d.rows { bot_node_ip = c.scope } },
            ok (
                switched (
                  text "✅ bot 角色已转移至 "
                  ++ (c.scope
                      ++ (text " (全集群同步)。\n⚠"
                          ++ 0xFE0F
                            ∷ text " 目标节点需在下次 agent 重启后才开始接管 Telegram 轮询；原 bot 节点重启后停止轮询。")))),
          )
        ]
  ]

  -- TargetHandler
  unfoldable pub target_handler : (Text → Bool) → (Text → Text) → Option Disk → Handler Settings
  unfolding view_target same
  target_handler is_ip quote peers = record {
    validate = λ c. not_view (text "use /v target <peer-ip> -") c (
        if is_placeholder c.scope
        then some (error bad_format (text "/v target requires <peer-ip> in scope"))
        else if is_ip c.scope
        then none
        else some (error bad_format (text "invalid peer IP: " ++ quote c.scope)));
    write = refuse (text "use /v target");
    delete = refuse (text "use /v target");
    view = view_target peers;
  }
