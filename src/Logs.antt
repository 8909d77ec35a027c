-- ===== src/Logs.antt =====
-- internal/logs/store.go: the aggregates of the access log, and the offset up to which it is counted.
pub mod Collector
pub mod Lines
pub mod Sums
pub mod Counting
pub mod Passes
use mesh_cdn.Base.{
  if◌then◌else◌, filter, Text, same, ℕ, ◌+◌, Bool, not, ◌&&◌, Option, none, some, List, [], ◌∷◌,
  map,
}
use mesh_cdn.Base.Int.{ℤ, beq_ℤ, ltb_ℤ}

pub record StatKey : Type 0 where
  pub domain : Text
  pub minute : ℤ
  pub status : ℤ

pub record StatDelta : Type 0 where
  pub hits : ℕ
  pub bytes : ℕ

abbrev pub Buckets : Type 0
Buckets = List (StatKey × StatDelta)

-- The tables request_stats and collector_state.
pub record Stats : Type 0 where
  pub request_stats : Buckets
  pub log_offset : ℕ

-- How the calls of the driver end.
pub record StoreFaults : Type 0 where
  pub offset : Option Text
  pub reset_offset : Option Text
  pub begin : Option Text
  pub prepare : Option Text
  pub insert : StatKey → Option Text
  pub set_offset : Option Text
  pub commit : Option Text
  pub prune : Option Text

abbrev pub same_key : StatKey → StatKey → Bool
same_key j k = same j.domain k.domain && (beq_ℤ j.minute k.minute && beq_ℤ j.status k.status)

abbrev pub plus : StatDelta → StatDelta → StatDelta
plus a b = record { hits = a.hits + b.hits; bytes = a.bytes + b.bytes }

-- INSERT … ON CONFLICT(domain, minute, status) DO UPDATE, and the same on a map.
unfoldable pub add_stat : StatKey → StatDelta → Buckets → Buckets
unfolding same
add_stat k d [] = (k, d) ∷ []
add_stat k d ((j, e) ∷ rows) =
    let rest = add_stat k d rows in if same_key k j then (j, plus e d) ∷ rows else (j, e) ∷ rest

-- The statements of a transaction, up to the first that fails.
unfoldable pub insert_stats : (StatKey → Option Text) → Buckets → Buckets → Buckets × Option Text
unfolding add_stat
insert_stats insert [] rows = (rows, none)
insert_stats insert ((k, d) ∷ deltas) rows =
    let rest = insert_stats insert deltas (add_stat k d rows) in
    elim (insert k) [ some e ↦ (rows, some e) | none ↦ rest ]

-- Store.Commit, with the order in which the map of the deltas is visited.
unfoldable pub commit :
    (Buckets → Buckets) → StoreFaults → Buckets → ℕ → Stats → Stats × Option Text
unfolding insert_stats
commit order faults deltas new_offset st =
    let (rows, failed) = insert_stats faults.insert (order deltas) st.request_stats in
    elim faults.begin [
      | some e ↦ (st, some e)
      | none ↦ elim faults.prepare [
        | some e ↦ (st, some e)
        | none ↦ elim failed [
          | some e ↦ (st, some e)
          | none ↦ elim faults.set_offset [
            | some e ↦ (st, some e)
            | none ↦ elim faults.commit [
              | some e ↦ (st, some e)
              | none ↦ (record { request_stats = rows; log_offset = new_offset }, none)
            ]
          ]
        ]
      ]
    ]

-- Store.ResetOffset
abbrev pub reset_offset : StoreFaults → ℕ → Stats → Stats × Option Text
reset_offset faults n st = elim faults.reset_offset [
  | some e ↦ (st, some e)
  | none ↦ (record st { log_offset = n }, none)
]

-- Store.Prune
abbrev pub prune_before : StoreFaults → ℤ → Stats → Stats × Option Text
prune_before faults before_minute st = elim faults.prune [
  | some e ↦ (st, some e)
  | none ↦ (
    record st {
      request_stats = filter (λ r. not (ltb_ℤ r.0.minute before_minute)) st.request_stats;
    },
    none,
  )
]
