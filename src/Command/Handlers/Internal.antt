-- ===== src/Command/Handlers/Internal.antt =====
-- internal/command/handlers/internal.go: InternalHandler, on the file of the peers, the table of
-- the peers and the row of the settings.
pub mod PeerLists
pub mod Changes
pub mod Operations
use mesh_cdn.Base.{
  if◌then◌else◌, Result, filter, Text, text, same, is_empty, ◌-◌, ◌/◌, Bool, not, ◌||◌, Option,
  none, some, List, [], ◌∷◌, ◌++◌, ok, err,
}
use mesh_cdn.Base.Decimal.{parse_int, decimal_ℤ}
use mesh_cdn.Base.Int.{ℤ, pos}
use mesh_cdn.Base.Words.{fields}
use mesh_cdn.Peers.{Peer, Disk, has_ip, add, remove}
use mesh_cdn.I18n.Languages.{parse_lang, lang_text}
use mesh_cdn.Command.Types.{
  Verb, write, delete, view, zh, Command, Error, plain, driver, bad_format, bad_params, Effects,
}
use mesh_cdn.Command.Parse.{verb_text}
use mesh_cdn.Command.Executor.{Db, Handler}
use mesh_cdn.Command.Sync.Apply.{with_file, without_file}
use mesh_cdn.Command.Handlers.{is_placeholder, error, reply}
use mesh_cdn.Command.Handlers.Settings.{Settings, SettingFaults}

-- How the statements on the table of the peers end.
pub record PeerRowFaults : Type 0 where
  pub insert_peer : Option Text
  pub delete_peer : Option Text

-- INSERT … ON CONFLICT(ip) DO UPDATE.
unfoldable pub upsert_peer : Peer → List Peer → List Peer
unfolding same
upsert_peer p [] = p ∷ []
upsert_peer p (q ∷ qs) = let rest = upsert_peer p qs in if has_ip p.ip q then p ∷ qs else q ∷ rest

-- The operation of a command, which is its scope.
pub data InternalOp : Type 0 where
  peer_add peer_remove set_bot set_lang : InternalOp

unfoldable pub operation : Text → Option InternalOp
unfolding same
operation s =
    if same s (text "peer-add")
    then some peer_add
    else if same s (text "peer-remove")
    then some peer_remove
    else if same s (text "set-bot")
    then some set_bot
    else if same s (text "set-lang")
    then some set_lang
    else none

-- The order that a peer-add gives. Validate has refused what Atoi cannot read.
unfoldable pub join_order_of : List Text → ℤ
unfolding parse_int
join_order_of [] = pos 0
join_order_of (ip ∷ []) = pos 0
join_order_of (ip ∷ o ∷ rest) =
    if is_placeholder o then pos 0 else elim (parse_int o) [ none ↦ pos 0 | some n ↦ n ]

-- The first word; Validate has refused a command without one.
abbrev pub first_of : List Text → Text
first_of [] = []
first_of (w ∷ ws) = w

-- What PeerMgr.Add and PeerMgr.Remove leave of the file, on a node that has a manager.
abbrev pub added : (Text → Bool) → Text → Option Disk → Option Disk × Option Text
added is_ip ip none = (none, none)
added is_ip ip (some disk) =
    let (disk', r) = add is_ip ip disk in (some disk', elim r [ ok p ↦ none | err e ↦ some e ])

abbrev pub removed : Text → Option Disk → Option Disk × Option Text
removed ip none = (none, none)
removed ip (some disk) = let (disk', e) = remove ip disk in (some disk', e)

abbrev pub no_ip : (Text → Text) → Text → Error
no_ip quote s = error bad_format (text "invalid IP: " ++ quote s)

module _ (is_ip : Text → Bool) (quote : Text → Text) where
  abbrev order_error : List Text → Option Error
  order_error [] = some (error bad_params (text "/w internal peer-add requires <ip> <join_order>"))
  order_error (o ∷ rest) = if is_placeholder o then none else elim (parse_int o) [
    | some n ↦ none
    | none ↦ some (error bad_params (text "invalid join_order: " ++ quote o))
  ]

  abbrev peer_fields_error : InternalOp → Command → List Text → Option Error
  peer_fields_error op c [] = some (
      error bad_params (
        text "/"
        ++ (verb_text c.verb
            ++ (text " internal " ++ (c.scope ++ text " requires params: <ip> [join_order]")))))
  peer_fields_error peer_add c (ip ∷ rest) =
      let order : Option Error = elim c.verb [
        | write ↦ order_error rest
        | delete ↦ none
        | view ↦ none
      ] in
      if is_ip ip then order else some (no_ip quote ip)
  peer_fields_error op c (ip ∷ rest) = if is_ip ip then none else some (no_ip quote ip)

  abbrev bot_fields_error : List Text → Option Error
  bot_fields_error [] = some (error bad_params (text "/w internal set-bot requires <ip> or -"))
  bot_fields_error (ip ∷ rest) =
      if is_placeholder ip || is_ip ip then none else some (no_ip quote ip)

  abbrev lang_fields_error : List Text → Option Error
  lang_fields_error [] = some (error bad_params (text "/w internal set-lang requires <cn|en> or -"))
  lang_fields_error (l ∷ rest) = if is_placeholder l then none else elim (parse_lang l) [
    | some t ↦ none
    | none ↦
        some (
          error bad_params
            (text "unsupported language " ++ (quote l ++ text " (expected cn / en)")))
  ]

  -- InternalHandler.Validate
  unfoldable pub validate_internal : Command → Option Error
  unfolding operation fields parse_int parse_lang same
  validate_internal c = elim (operation c.scope) [
    | some peer_add ↦ peer_fields_error peer_add c (fields c.params)
    | some peer_remove ↦ peer_fields_error peer_remove c (fields c.params)
    | some set_bot ↦ bot_fields_error (fields c.params)
    | some set_lang ↦ lang_fields_error (fields c.params)
    | none ↦ some (
        error bad_format (
          text "unknown internal op "
          ++ (quote c.scope ++ text " (expected peer-add / peer-remove / set-bot / set-lang)")))
  ]

module _ (is_ip : Text → Bool) (quote : Text → Text) (faults : SettingFaults)
    (rows : PeerRowFaults) where
  -- The file of the peers is written at once, whatever becomes of the transaction.
  abbrev pub Ended : Type 0
  Ended = Option Disk × Db Settings × Result Error Effects

  abbrev pub add_peer : Text → ℤ → Option Disk → Db Settings → Ended
  add_peer ip order file d =
      let (file', e) = added is_ip ip file in
      elim e [
        | some x ↦ (file', d, err (plain (driver (text "peers.Add: " ++ x))))
        | none ↦ elim rows.insert_peer [
          | some x ↦ (file', d, err (plain (driver (text "insert peer row: " ++ x))))
          | none ↦ (
            file',
            record d { peers = upsert_peer (record { ip = ip; join_order = order }) d.peers },
            ok (
                reply (
                  text "peer 已添加: "
                  ++ (ip ++ (text " (join_order=" ++ (decimal_ℤ order ++ text ")"))))),
          )
        ]
      ]

  -- The row goes; `file` is the file afterwards.
  abbrev pub remove_row : Text → Option Disk → Db Settings → Ended
  remove_row ip file d = elim rows.delete_peer [
    | some x ↦ (file, d, err (plain (driver (text "delete peer row: " ++ x))))
    | none ↦ (
      file,
      record d { peers = filter (λ p. not (has_ip ip p)) d.peers },
      ok (reply (text "peer 已移除: " ++ ip)),
    )
  ]

  abbrev pub remove_peer : Text → Option Disk → Db Settings → Ended
  remove_peer ip file d =
      let (file', e) = removed ip file in
      elim e [
        | some x ↦ (file', d, err (plain (driver (text "peers.Remove: " ++ x))))
        | none ↦ remove_row ip file' d
      ]

  abbrev pub write_bot : Text → Option Disk → Db Settings → Ended
  write_bot w file d =
      let ip = if is_placeholder w then [] else w in
      elim faults.set_bot_node_ip [
        | some x ↦ (file, d, err (plain (driver (text "set bot_node_ip: " ++ x))))
        | none ↦ (
          file,
          record d { rows = record d.rows { bot_node_ip = ip } },
          ok (
              reply (
                if is_empty ip
                then text "bot 节点覆盖已清除 (回退到 join_order 默认)"
                else text "bot 节点已设为 " ++ ip)),
        )
      ]

  abbrev pub store_lang : Text → Option Disk → Db Settings → Ended
  store_lang l file d = elim faults.set_language [
    | some x ↦ (file, d, err (plain (driver (text "set language: " ++ x))))
    | none ↦ (
      file,
      record d { rows = record d.rows { language = l } },
      ok (reply (text "interface language = " ++ (if is_empty l then lang_text zh else l))),
    )
  ]

  abbrev pub write_lang : Text → Option Disk → Db Settings → Ended
  write_lang w file d = if is_placeholder w then store_lang [] file d else elim (parse_lang w) [
    | none ↦ (file, d, err (error bad_params (text "unsupported language " ++ quote w)))
    | some l ↦ store_lang (lang_text l) file d
  ]

  abbrev pub unknown : Command → Error
  unknown c = error bad_format (text "unknown internal op " ++ quote c.scope)

  -- InternalHandler.Write
  unfoldable pub write_internal : Option Disk → Db Settings → Command → Ended
  unfolding operation fields join_order_of upsert_peer add remove parse_lang decimal_ℤ same
  write_internal file d c =
      let ws = fields c.params in
      elim (operation c.scope) [
        | some peer_add ↦ add_peer (first_of ws) (join_order_of ws) file d
        | some peer_remove ↦ remove_peer (first_of ws) file d
        | some set_bot ↦ write_bot (first_of ws) file d
        | some set_lang ↦ write_lang (first_of ws) file d
        | none ↦ (file, d, err (unknown c))
      ]

  -- The removal by Delete: an error of the manager is dropped.
  abbrev delete_peer : List Text → Option Disk → Db Settings → Ended
  delete_peer [] file d = (file, d, err (error bad_format (text "requires <ip>")))
  delete_peer (ip ∷ rest) file d = remove_row ip (removed ip file).0 d

  -- InternalHandler.Delete
  unfoldable pub delete_internal : Option Disk → Db Settings → Command → Ended
  unfolding operation fields remove same
  delete_internal file d c = elim (operation c.scope) [
    | some peer_add ↦ delete_peer (fields c.params) file d
    | some peer_remove ↦ delete_peer (fields c.params) file d
    | some set_bot ↦ (file, d, err (unknown c))
    | some set_lang ↦ (file, d, err (unknown c))
    | none ↦ (file, d, err (unknown c))
  ]

-- InternalHandler.View
abbrev pub view_internal : Effects
view_internal = reply (text "internal commands are not viewable; use /v nodes - - to see peer list")

abbrev file_or : Disk → Option Disk → Disk
file_or disk none = disk
file_or disk (some file) = file

module _ (is_ip : Text → Bool) (quote : Text → Text) (faults : SettingFaults)
    (rows : PeerRowFaults) where
  abbrev beside : Disk → Ended is_ip quote faults rows → Db (Settings × Disk) × Result Error Effects
  beside disk (file, d, r) = (with_file (d, file_or disk file), r)

  -- InternalHandler, on a node that has a peer manager.
  unfoldable pub internal_handler : Handler (Settings × Disk)
  unfolding validate_internal write_internal delete_internal
  internal_handler = record {
    validate = validate_internal is_ip quote;
    write = λ d c.
        beside d.rows.1 (write_internal is_ip quote faults rows (some d.rows.1) (without_file d) c);
    delete = λ d c.
        beside d.rows.1
          (delete_internal is_ip quote faults rows (some d.rows.1) (without_file d) c);
    view = λ d c. (d, ok view_internal);
  }
