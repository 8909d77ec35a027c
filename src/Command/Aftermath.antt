-- ===== src/Command/Aftermath.antt =====
-- applyEffects of internal/command/executor.go: what is done once a batch has committed.
pub mod Announce
use mesh_cdn.Base.{
  if◌then◌else◌, Result, Text, text, is_empty, ℕ, suc, ◌-◌, Bool, not, ◌&&◌, Option, none, some,
  List, [], ◌∷◌, ◌++◌, ok, err,
}
use mesh_cdn.Base.Int.{ℤ}
use mesh_cdn.Base.Decimal.{decimal}
use mesh_cdn.Command.Types.{Effects}

pub data ReadDirError : Type 0 where
  not_exist : ReadDirError
  read_failed : Text → ReadDirError

-- How the executor is wired, and how the calls of nginx, of the snapshot exporter and of the file
-- system end; `some e` is the error `e`.
pub record Services : Type 0 where
  pub has_cert_store : Bool
  pub nginx_config_dir : Text
  pub default_output_dir : Text
  pub cache_dir : Text
  pub snapshot_path : Text
  pub notifies_peers : Bool
  pub broadcast_exec : Option (Text → Text)
  pub generate : Option Text
  pub validate_and_reload : Text → Option Text
  pub read_dir : Text → Result ReadDirError (List Text)
  pub remove_all : Text → Option Text
  pub export : Option Text
  pub save : Option Text

-- What is done, in order. A failed call is listed too, but for one that reads.
pub data Action : Type 0 where
  generate_config : Text → Action
  reload_nginx : Text → Action
  remove_entry : Text → Action
  broadcast : Text → Action
  save_snapshot : Text → Action
  notify_peers : ℤ → Action

-- filepath.Join, on a directory with no slash at its end.
abbrev pub in_dir : Text → Text → Text
in_dir dir name = dir ++ (text "/" ++ name)

abbrev pub main_conf : Text → Text
main_conf dir = in_dir dir (text "nginx.conf")

abbrev pub output_dir : Services → Text
output_dir s = if is_empty s.nginx_config_dir then s.default_output_dir else s.nginx_config_dir

abbrev cache_root : Services → Text
cache_root s = if is_empty s.cache_dir then text "/etc/meshcdn/runtime/cache" else s.cache_dir

-- What a stage leaves: the effects, the actions, and the error that ends applyEffects.
abbrev pub Stage : Type 0
Stage = Effects × List Action × Option Text

abbrev add_message : Effects → Text → Effects
add_message eff msg = record eff { user_message = eff.user_message ++ msg }

-- The loop of purgeCacheDir: the number of entries that are gone, and the first error.
unfoldable pub purge_entries : Services → Text → ℕ → List Text → List Action × ℕ × Option Text
purge_entries s dir removed [] = ([], removed, none)
purge_entries s dir removed (name ∷ names) =
    let path = in_dir dir name in
    let (actions, n, e) = purge_entries s dir (suc removed) names in
    elim (s.remove_all path) [
      | some e ↦
          (remove_entry path ∷ [], removed, some (text "remove " ++ (path ++ (text ": " ++ e))))
      | none ↦ (remove_entry path ∷ actions, n, e)
    ]

-- purgeCacheDir. A missing directory holds nothing.
unfoldable pub purge_cache_dir : Services → Text → List Action × ℕ × Option Text
unfolding purge_entries
purge_cache_dir s dir = elim (s.read_dir dir) [
  | err not_exist ↦ ([], 0, none)
  | err (read_failed e) ↦ ([], 0, some e)
  | ok names ↦ purge_entries s dir 0 names
]

-- The reload after a purge: its failure is a warning.
abbrev purge_reload : Services → List Action × Text
purge_reload s = if is_empty s.nginx_config_dir then ([], []) else (
  reload_nginx (main_conf s.nginx_config_dir) ∷ [],
  elim (s.validate_and_reload (main_conf s.nginx_config_dir)) [
    | some e ↦ text "\n  ⚠" ++ (0xFE0F ∷ text " 缓存已删，但 nginx reload 失败 (建议手动 reload): " ++ e)
    | none ↦ text "\n  [nginx 已 reload]"
  ],
)

-- The peers get the form that does not broadcast.
abbrev pub purge_node : Text
purge_node = text "/v cache - purge-node"

abbrev purge_broadcast : Services → Effects → List Action × Text
purge_broadcast s eff =
    if eff.purge_cache_broadcast
    then elim s.broadcast_exec [
      | some send ↦ (broadcast purge_node ∷ [], text "\n" ++ send purge_node)
      | none ↦ ([], text "\n  (单机模式，无 peer 广播)")
    ]
    else ([], [])

-- applyCachePurge
unfoldable pub apply_cache_purge : Services → Effects → Stage
apply_cache_purge s eff =
    let dir = cache_root s in
    let (removals, n, e) = purge_cache_dir s dir in
    let (reloads, reloaded) = purge_reload s in
    let (sent, report) = purge_broadcast s eff in
    let done = text "\n  🧹 本节点缓存已清空 (删除 " ++ (decimal n ++ (text " 项 @ " ++ (dir ++ text ")"))) in
    elim e [
      | some x ↦ (eff, removals, some (text "purge cache dir " ++ (dir ++ (text ": " ++ x))))
      | none ↦ (add_message eff (done ++ (reloaded ++ report)), removals ++ (reloads ++ sent), none)
    ]

-- The first stage: the nginx configuration.
unfoldable pub apply_nginx : Services → Effects → Stage
apply_nginx s eff =
    let dir = output_dir s in
    if eff.needs_nginx_reload && s.has_cert_store
    then elim s.generate [
      | some e ↦ (eff, generate_config dir ∷ [], some (text "regenerate nginx config: " ++ e))
      | none ↦ elim (s.validate_and_reload (main_conf dir)) [
        | some e ↦ (
          eff,
          generate_config dir ∷ reload_nginx (main_conf dir) ∷ [],
          some (text "nginx reload: " ++ e),
        )
        | none ↦ (
          add_message eff (text "\n  [nginx 已 reload]"),
          generate_config dir ∷ reload_nginx (main_conf dir) ∷ [],
          none,
        )
      ]
    ]
    else (eff, [], none)

abbrev purge_stage : Services → Effects → Stage
purge_stage s eff = if eff.purge_cache then apply_cache_purge s eff else (eff, [], none)

-- The last stage, after a mutation: the snapshot, and then the word to the peers.
unfoldable pub announce : Services → Bool → ℤ → Effects → Stage
announce s mutated version eff =
    let told = if s.notifies_peers then notify_peers version ∷ [] else [] in
    if not mutated
    then (eff, [], none)
    else if is_empty s.snapshot_path
    then (eff, told, none)
    else elim s.export [
      | some e ↦ (eff, [], some (text "export snapshot: " ++ e))
      | none ↦ elim s.save [
        | some e ↦ (eff, save_snapshot s.snapshot_path ∷ [], some (text "save snapshot: " ++ e))
        | none ↦ (eff, save_snapshot s.snapshot_path ∷ told, none)
      ]
    ]

-- A stage is left out once an error has been returned.
abbrev then_stage : Stage → (Effects → Stage) → Stage
then_stage (eff, done, e) next =
    let (eff', more, e') = next eff in
    elim e [ none ↦ (eff', done ++ more, e') | some x ↦ (eff, done, some x) ]

unfoldable pub stages : Services → Effects → Bool → ℤ → Stage
stages s eff mutated version =
    then_stage (then_stage (apply_nginx s eff) (purge_stage s)) (announce s mutated version)

-- applyEffects, and the message that ExecuteBatch appends if it fails.
unfoldable pub apply_effects : Services → Effects → Bool → ℤ → Effects × List Action
apply_effects s eff mutated version =
    let (eff', actions, e) = stages s eff mutated version in
    (
      elim e [
        | none ↦ eff'
        | some x ↦ add_message eff' (text "\n⚠" ++ (0xFE0F ∷ text "  effects 应用失败: " ++ x))
      ],
      actions,
    )
