-- ===== src/Examples/RestoreExamples.antt =====
-- The export of small tables, imported.
use mesh_cdn.Base.{
  some-injective, none-ne-some, Result, length, All, In, Text, text, same, cut, join, is_space, ℕ,
  ◌+◌, ◌<◌, ◌≡◌, refl, sym, ap, subst, inl, inr, false, none, some, [], ◌∷◌, ok,
}
use mesh_cdn.Base.Int.{pos, negsuc}
use mesh_cdn.Base.Decimal.{decimal_ℤ}
use mesh_cdn.Base.Table.{get, In-get}
use mesh_cdn.Base.Words.{is_space-IsWord, IsWord}
use mesh_cdn.Peers.{Peer}
use mesh_cdn.Snapshot.{Snapshot}
use mesh_cdn.Snapshot.Exporter
use mesh_cdn.Snapshot.Exporter.{rows, export_lines, export_snapshot}
use mesh_cdn.Command.Types.{is_mutating, write, zh, Error}
use mesh_cdn.Command.Parse.RoundTrip.{spelled}
use mesh_cdn.Command.Executor.{Db, execute_batch, finish, run_lines}
use mesh_cdn.Command.Handlers.{DomainRow, Tables}
use mesh_cdn.Command.Handlers.Scope.{canonical_scope}
use mesh_cdn.Command.Handlers.Domain.{validate_domain}
use mesh_cdn.Command.Handlers.ObjectTypes.{
  object_handlers, object_handler, validate_cache, prepare_cache,
}
use mesh_cdn.Command.Handlers.Objects.{is_valid_object_name}
use mesh_cdn.Command.Handlers.Integrity.{wipe}
use mesh_cdn.Command.Handlers.Registry.{new_registry}
use mesh_cdn.Command.Sync.{ReplayResult, replay_one_in_tx_force, import_snapshot}
use mesh_cdn.Command.Sync.Restore.{
  object_content, binding_content, IsWhole, IsAcceptedRow, IsNamed, IsAcceptedObject, SameRules,
  IsRestorable, Selects,
}
use mesh_cdn.Command.Sync.Restore.Whole.{import_snapshot-export_snapshot}
use mesh_cdn.Command.Sync.Restore.Reached.{fresh, by_batch, by_import, Reached-IsRestorable}
use mesh_cdn.Examples.BatchExamples.{quiet, bare}
use mesh_cdn.Examples.HandlerExamples.{
  out, js, listing, others, site, site_row, images, binding, db, site_scope, site_parsed,
  db-IsSound, import_sound,
}

abbrev node : Peer
node = record { ip = text "10.0.0.1"; join_order = negsuc 4 }

abbrev queries : Exporter.Tables
queries = record {
  config_version = ok (pos 3);
  peers = rows (node ∷ []) none;
  bot_node = some (text "10.0.0.1");
  language = none;
  domains = rows ((site, text "http://o.com:80") ∷ []) none;
  rule_objects = rows (object_content images ∷ []) none;
  bindings = rows (binding_content binding ∷ []) none;
}

abbrev exported : Snapshot
exported = record {
  header = record { version = pos 3; exported_at = 0; program = text "v1" };
  commands =
      text "/w internal peer-add 10.0.0.1 -5"
      ∷ text "/w internal set-bot 10.0.0.1"
      ∷ text "/w domain https://a.com:443,8443 http://o.com:80"
      ∷ text "/w cache img patterns=*.png"
      ∷ text "/w bind https://a.com:443,8443 cache:img"
      ∷ [];
}

exported_lem : export_snapshot queries 0 (text "v1") ≡ ok exported
unfolding export_snapshot join export_lines decimal_ℤ
exported_lem = refl

abbrev Row : Text × DomainRow → Type 0
Row (k, row) = IsWhole out db.rows.domains k row × IsAcceptedRow out row

valid_site :
    validate_domain out (spelled write (text "domain") site_row.display_scope site_row.origin [])
    ≡ none
unfolding validate_domain join
valid_site = refl

site_Row :
    (k : Text)
    → In k (text "https://a.com:443" ∷ text "https://a.com:8443" ∷ [])
    → Row (k, site_row)
unfolding is_space validate_domain get canonical_scope
site_Row k m = (
  (
    site_scope,
    site_parsed,
    m,
    λ j i. elim i [
      | inl e ↦ (site_row, rw e refl, (refl, refl))
      | inr i2 ↦ elim i2 [ inl e ↦ (site_row, rw e refl, (refl, refl)) | inr z ↦ absurd z ]
    ],
  ),
  (is_space-IsWord 0x68 _ refl, is_space-IsWord 0x68 _ refl, valid_site),
)

valid_images :
    validate_cache out (spelled write (text "cache") (text "img") (text "patterns=*.png") []) ≡ none
unfolding validate_cache join cut
valid_images = refl

restorable : IsRestorable out js listing db.rows
unfolding is_space object_handlers same is_valid_object_name
restorable = record {
  distinct = db-IsSound.1.0;
  domains = λ k row g. elim (In-get k row db.rows.domains g) [
    | inl e ↦ subst Row (sym e) (site_Row (text "https://a.com:443") (inl refl))
    | inr i ↦ elim i [
      | inl e ↦ subst Row (sym e) (site_Row (text "https://a.com:8443") (inr (inl refl)))
      | inr z ↦ absurd z
    ]
  ];
  keyed = (tt, tt);
  objects = λ o m. elim m [
    | inl e ↦ subst (IsAcceptedObject out js listing) (sym e) (
      object_handler out js listing (text "cache") (validate_cache out)
          (prepare_cache out js listing),
      text "patterns=*.png",
      [],
      refl,
      (
        is_space-IsWord 0x63 _ refl,
        (is_space-IsWord 0x69 _ refl, (is_space-IsWord 0x70 _ refl, tt)),
      ),
      unfold join in refl,
      valid_images,
    )
    | inr z ↦ absurd z
  ];
  linked = db-IsSound.0;
  bindings = λ b m. elim m [ inl e ↦ subst IsNamed (sym e) (refl, refl) | inr z ↦ absurd z ];
}

one_row : (k : Text) (row : DomainRow) → get k db.rows.domains ≡ some row → row ≡ site_row
one_row k row g = elim (In-get k row db.rows.domains g) [
  | inl e ↦ ap (λ (x : Text × DomainRow). x.1) e
  | inr i ↦ elim i [ inl e ↦ ap (λ (x : Text × DomainRow). x.1) e | inr z ↦ absurd z ]
]

selected : Selects db.rows queries
unfolding is_space get
selected = record {
  peer_rows = node ∷ [];
  peers = refl;
  peer_words = (is_space-IsWord 0x31 _ refl, tt);
  bot_node = λ w e n. subst IsWord (some-injective e) (is_space-IsWord 0x31 _ refl);
  language = λ w e n. absurd (none-ne-some e);
  scopes = (site, text "http://o.com:80") ∷ [];
  domains = refl;
  scope_stored =
      λ e m. elim m [ inl q ↦ (text "https://a.com:443", site_row, refl, q) | inr z ↦ absurd z ];
  scope_listed = λ k row g. (
    text "http://o.com:80",
    inl (ap (λ (x : DomainRow). (x.display_scope, text "http://o.com:80")) (one_row k row g)),
  );
  object_rows = object_content images ∷ [];
  rule_objects = refl;
  object_stored = λ e m. elim m [ inl q ↦ (images, inl refl, q) | inr z ↦ absurd z ];
  object_listed = λ o m. elim m [ inl q ↦ inl (ap object_content q) | inr z ↦ absurd z ];
  binding_rows = binding_content binding ∷ [];
  bindings = refl;
  binding_stored = λ e m. elim m [ inl q ↦ (binding, inl refl, q) | inr z ↦ absurd z ];
  binding_listed = λ b m. elim m [ inl q ↦ inl (ap binding_content q) | inr z ↦ absurd z ];
}

abbrev imported : Db Tables × Result Text ReplayResult
imported =
    import_snapshot (replay_one_in_tx_force (new_registry out js listing others) quiet) import_sound
      wipe exported db

import_snapshot-export_snapshot_example :
    SameRules db.rows imported.0.rows
    × (res : ReplayResult) × (imported.1 ≡ ok res)
    × All (λ (e : ℕ × Error). e.0 < length selected.peer_rows + 2) res.per_line_errors
import_snapshot-export_snapshot_example =
    import_snapshot-export_snapshot out js listing others quiet import_sound db.rows queries 0
      (text "v1") exported db selected refl (λ x. refl) (λ x. refl) refl
      (λ t h e. absurd (none-ne-some e)) restorable exported_lem

-- The object is written twice, and the last line has no object to bind to.
abbrev growing : Text
growing =
    text
      "/w domain https://a.com:443,8443 http://o.com:80\n/w cache img patterns=*.png\n/w cache img patterns=*.gif\n/w bind https://a.com:443,8443 cache:img\n/w bind https://a.com:443,8443 cache:css"

abbrev grown : Db Tables
grown =
    (execute_batch (new_registry out js listing others) quiet false bare zh growing
      (record db { rows = wipe db.rows })).0

grown_lem :
    (length grown.rows.domains ≡ 2)
    × (length grown.rows.rule_objects ≡ 1)
    × (length grown.rows.bindings ≡ 1)
unfolding execute_batch new_registry finish run_lines is_mutating
grown_lem = (refl, refl, refl)

Reached-IsRestorable_example :
    IsRestorable out js listing
      (import_snapshot
        (replay_one_in_tx_force (new_registry out js listing others) quiet)
        import_sound
        wipe
        exported
        grown).0.rows
Reached-IsRestorable_example =
    Reached-IsRestorable out js listing others _ (λ x. refl) (λ x. refl) (λ x. refl)
      (λ t h e. absurd (none-ne-some e))
      (by_import quiet import_sound exported grown
        (by_batch quiet false bare zh growing _ (fresh _ refl)))
