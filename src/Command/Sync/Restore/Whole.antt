-- ===== src/Command/Sync/Restore/Whole.antt =====
-- Import on what Export wrote.
use mesh_cdn.Base.{
  ok-injective, Result, length, All, length-append, All-append, All-map, length-map, Text, text, ℕ,
  ◌+◌, ◌≤◌, ◌<◌, ◌≡◌, refl, sym, ap, ◌∙◌, subst, false, ◌||◌, Option, none, List, [], ◌++◌, map,
  append-nil, append_assoc, arith, ok,
}
use mesh_cdn.Base.Table.{get}
use mesh_cdn.Base.Time.{Time}
use mesh_cdn.Snapshot.{Snapshot}
use mesh_cdn.Snapshot.Exporter
use mesh_cdn.Snapshot.Exporter.{
  rows, peer_line, domain_line, object_line, binding_line, setting_lines, export_lines,
  export_snapshot,
}
use mesh_cdn.Snapshot.Exporter.Membership.{
  export_snapshot-commands, set_bot-IsWord, set_lang-IsWord,
}
use mesh_cdn.Command.Types.{Command, Error, Effects}
use mesh_cdn.Command.Ports.Enforce.{no_faults}
use mesh_cdn.Command.Executor.{Db, Handler, Faults}
use mesh_cdn.Command.Handlers.{Tables, Outside}
use mesh_cdn.Command.Handlers.ObjectTypes.{Json}
use mesh_cdn.Command.Handlers.Registry.{IsApart, new_registry}
use mesh_cdn.Command.Handlers.Integrity.{wipe}
use mesh_cdn.Command.Sync.{
  ImportFaults, ReplayResult, replay_one_in_tx_force, replay_lines, wiped, no_result,
  import_snapshot,
}
use mesh_cdn.Command.Sync.Restore.{SameRules, IsRestorable, Selects}
use mesh_cdn.Command.Sync.Restore.Lines.{replay_lines-apart}
use mesh_cdn.Command.Sync.Restore.DomainLines.{DomainsOnly}
use mesh_cdn.Command.Sync.Restore.InternalLines.{
  LeavesRows, peer_lines-LeavesRows, setting_lines-LeavesRows, length-setting_lines,
}
use mesh_cdn.Command.Sync.Restore.Rules.{replay_rules}

-- The commands of an export without errors.
export_lines-Selects :
    (t : Tables) (q : Exporter.Tables) (s : Selects t q)
    → export_lines q
      ≡ ok (
          ((map peer_line s.peer_rows ++ setting_lines (text "set-bot") q.bot_node)
            ++ setting_lines (text "set-lang") q.language)
          ++ (map domain_line s.scopes
              ++ (map object_line s.object_rows ++ (map binding_line s.binding_rows ++ []))))
unfolding export_lines
export_lines-Selects t q s =
    let first =
      (map peer_line s.peer_rows ++ setting_lines (text "set-bot") q.bot_node)
      ++ setting_lines (text "set-lang") q.language in
    let ds = map domain_line s.scopes in
    let os = map object_line s.object_rows in
    let bs = map binding_line s.binding_rows in
    ap (λ x. export_lines (record q { peers = x })) s.peers
    ∙ ap (λ x. export_lines (record q { peers = rows s.peer_rows none; domains = x })) s.domains
    ∙ ap
        (λ x. export_lines (record q {
          peers = rows s.peer_rows none;
          domains = rows s.scopes none;
          rule_objects = x;
        }))
        s.rule_objects
    ∙ ap
        (λ x. export_lines (record q {
          peers = rows s.peer_rows none;
          domains = rows s.scopes none;
          rule_objects = rows s.object_rows none;
          bindings = x;
        }))
        s.bindings
    ∙ ap ok (
        append_assoc (first ++ ds) os bs
        ∙ append_assoc first ds (os ++ bs)
        ∙ ap (λ x. first ++ (ds ++ (os ++ x))) (sym (append-nil bs)))

module _ (out : Outside) (js : Json) (listing : Text → Tables → Command → Result Error Effects)
    (others : Text → Option (Handler Tables)) (faults : Faults) (t : Tables) (q : Exporter.Tables)
    (sound : faults.ports ≡ no_faults) (selects : (s : Text) → out.select_error s ≡ none)
    (writes : (s : Text) → out.write_error s ≡ none) (apart : IsApart others)
    (r : IsRestorable out js listing t) (s : Selects t q) where
  abbrev replay : Db Tables → Text → Db Tables × Option Error
  replay = replay_one_in_tx_force (new_registry out js listing others) faults

  abbrev rule_lines : List Text
  rule_lines =
      map domain_line s.scopes
      ++ (map object_line s.object_rows ++ (map binding_line s.binding_rows ++ []))

  -- The rules are as in `t`, and only lines before the n-th one failed.
  abbrev RulesBack : ℕ → Db Tables × ReplayResult → Type 0
  RulesBack n x = SameRules t x.0.rows × All (λ (e : ℕ × Error). e.0 < n) x.1.per_line_errors

  -- The lines of the rules, behind lines that leave the rows.
  replay_behind :
      (first : List Text) (d : Db Tables)
      → All (LeavesRows out js listing others apart faults) first
      → RulesBack
          (length first)
          (replay_lines replay 0 (first ++ rule_lines) (wiped wipe d, no_result))
  unfolding get
  replay_behind first d leaves =
      let (d', res', z, below, kept) =
        replay_lines-apart replay 0 first rule_lines (wiped wipe d) no_result leaves tt in
      let (same_rules, errors) =
        replay_rules out js listing others faults t q sound selects writes r s (0 + length first) d'
          res' (subst (DomainsOnly t.domains) (sym kept) (λ k row g. cc, refl, refl)) in
      subst (RulesBack (length first)) (sym z) (
        same_rules,
        subst (All (λ (e : ℕ × Error). e.0 < length first)) (sym errors)
            (All-map _ _ res'.per_line_errors (λ (x : ℕ × Error) k. omega (arith, k)) below),
      )

  -- The lines of an export, replayed on empty tables.
  replay_export :
      (lines : List Text) (d : Db Tables)
      → export_lines q ≡ ok lines
      → RulesBack (length s.peer_rows + 2) (replay_lines replay 0 lines (wiped wipe d, no_result))
  replay_export lines d h =
      let peer_lines = map peer_line s.peer_rows in
      let bot = setting_lines (text "set-bot") q.bot_node in
      let lang = setting_lines (text "set-lang") q.language in
      let e = ok-injective (sym (export_lines-Selects t q s) ∙ h) in
      let P = LeavesRows out js listing others apart faults in
      let (same_rules, below) = replay_behind ((peer_lines ++ bot) ++ lang) d (
        All-append P (peer_lines ++ bot) lang
          (All-append P peer_lines bot
            (peer_lines-LeavesRows out js listing others apart faults s.peer_rows s.peer_words)
            (setting_lines-LeavesRows out js listing others apart faults (text "set-bot") q.bot_node
              set_bot-IsWord s.bot_node))
          (setting_lines-LeavesRows out js listing others apart faults (text "set-lang") q.language
            set_lang-IsWord s.language)) in
      let n : length ((peer_lines ++ bot) ++ lang) ≤ length s.peer_rows + 2 = omega (
        arith,
        length-append (peer_lines ++ bot) lang,
        length-append peer_lines bot,
        length-map peer_line s.peer_rows,
        length-setting_lines (text "set-bot") q.bot_node,
        length-setting_lines (text "set-lang") q.language,
      ) in
      subst
        (λ l.
          RulesBack (length s.peer_rows + 2) (replay_lines replay 0 l (wiped wipe d, no_result)))
        e (same_rules, All-map _ _ _ (λ (x : ℕ × Error) k. omega (arith, k, n)) below)

-- An import of what Export wrote gives the rules back: if the calls of the driver succeed and the
-- handlers of the other types write none of the three tables, then Import ends without an error,
-- whatever was in the tables before. The rows of `domains`, `rule_objects` and `bindings` are those
-- that were exported, up to their versions and the JSON of the parameters, and only lines of the
-- peers and of the two settings can have failed. Exported were all rows of tables that the handlers
-- can have left: each scope has all rows that its line makes, with one origin, no two objects have
-- the type and the name in common, each binding has its object and its scope, and the handlers
-- accept the line of each row. With them were exported a list of peers, whose IPs are words and
-- whose join orders are any integers, and the two settings, each of which is a word, or is empty or
-- not set.
pub import_snapshot-export_snapshot :
    (out : Outside) (js : Json) (listing : Text → Tables → Command → Result Error Effects)
    (others : Text → Option (Handler Tables)) (faults : Faults) (import_faults : ImportFaults)
    (t : Tables) (q : Exporter.Tables) (now : Time) (program : Text) (snap : Snapshot)
    (d : Db Tables) (s : Selects t q)
    → faults.ports ≡ no_faults
    → ((x : Text) → out.select_error x ≡ none)
    → ((x : Text) → out.write_error x ≡ none)
    → (import_faults.begin || import_faults.wipe || import_faults.set_version
        || import_faults.commit)
      ≡ false
    → IsApart others
    → IsRestorable out js listing t
    → export_snapshot q now program ≡ ok snap
    → let after =
        import_snapshot
          (replay_one_in_tx_force (new_registry out js listing others) faults)
          import_faults
          wipe
          snap
          d in
      SameRules t after.0.rows
      × (res : ReplayResult) × (after.1 ≡ ok res)
      × All (λ (e : ℕ × Error). e.0 < length s.peer_rows + 2) res.per_line_errors
unfolding import_snapshot
import_snapshot-export_snapshot out js listing others faults import_faults t q now program snap d s
      sound selects writes fine apart r h =
    let replay_line = replay_one_in_tx_force (new_registry out js listing others) faults in
    let (same_rules, errors) =
      replay_export out js listing others faults t q sound selects writes apart r s snap.commands d
        (export_snapshot-commands q now program snap h) in
    let last = replay_lines replay_line 0 snap.commands (wiped wipe d, no_result) in
    let e : import_snapshot replay_line import_faults wipe snap d ≡ (
      record last.0 { config_version = snap.header.version },
      ok (record last.1 { new_version = snap.header.version }),
    ) =
      ground arith in
    (
      subst (λ (x : Db Tables × Result Text ReplayResult). SameRules t x.0.rows) (sym e) same_rules,
      record last.1 { new_version = snap.header.version },
      ap (λ x. x.1) e,
      errors,
    )
