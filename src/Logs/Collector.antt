-- ===== src/Logs/Collector.antt =====
-- internal/logs/collector.go: a pass of the collector.
use mesh_cdn.Base.{
  ltb, ◌==◌, if◌then◌else◌, length, take, drop, Text, is_empty, ℕ, zero, suc, ◌+◌, ◌-◌, ◌*◌, ◌/◌,
  ◌%◌, Bool, true, false, ◌&&◌, ◌||◌, Option, none, some, List, [], ◌∷◌, ◌++◌,
}
use mesh_cdn.Base.Int.{ℤ, pos, negsuc, sub_ℕ, beq_ℤ}
use mesh_cdn.Base.Time.{Time, day}
use mesh_cdn.Logs.{
  StatKey, StatDelta, Buckets, Stats, StoreFaults, add_stat, commit, reset_offset, prune_before,
}

-- The fields that json.Unmarshal reads of a line.
pub record LogLine : Type 0 where
  pub time : Text
  pub host : Text
  pub status : ℤ
  pub bytes : ℤ

-- The log is not there, cannot be opened, or has a size, and later a content that is read to its end.
pub data LogFile : Type 0 where
  missing : LogFile
  unopened : Text → LogFile
  opened : ℕ → Text → LogFile

-- How the calls on the open file end. `read_error` is how many bytes are read before a read fails,
-- if one does; the loop takes that for the end of the file.
pub record LogFaults : Type 0 where
  pub stat : Option Text
  pub seek : Option Text
  pub read_error : Option ℕ

-- What the reader yields of the bytes behind the offset.
abbrev pub bytes_read : Option ℕ → Text → Text
bytes_read none s = s
bytes_read (some n) s = take n s

abbrev pub newline : ℕ
newline = 0x0A

-- The lines with their ends; `line` is what has been read of the first one.
unfoldable pub read_lines : Text → Text → List Text
read_lines line [] = []
read_lines line (c ∷ s) =
    let next = read_lines [] s in
    let more = read_lines (line ++ c ∷ []) s in
    if c == newline then (line ++ c ∷ []) ∷ next else more

abbrev minute : ℕ
minute = 60_000_000_000

-- t.Truncate(time.Minute).Unix()
abbrev unix_minute : Time → ℤ
unix_minute t = sub_ℕ ((t - t % minute) / 1_000_000_000) 62_135_596_800

-- DefaultRetention
abbrev default_retention : ℕ
default_retention = 7 * day

abbrev retention_of : ℤ → ℕ
retention_of (pos zero) = default_retention
retention_of (pos (suc n)) = suc n
retention_of (negsuc n) = default_retention

-- The least minute that Collector.prune keeps.
abbrev pub cutoff : ℤ → Time → ℤ
cutoff retention now = unix_minute (now - retention_of retention)

abbrev pub prune : StoreFaults → ℤ → Time → Stats → Stats × Option Text
prune faults retention now st = prune_before faults (cutoff retention now) st

-- The sum of the lengths of the lines.
abbrev pub size_of : List Text → ℕ
size_of [] = 0
size_of (line ∷ lines) = length line + size_of lines

-- len(deltas) == 0
abbrev pub is_none : Buckets → Bool
is_none [] = true
is_none (b ∷ bs) = false

module _ (decode : Text → Option LogLine) (parse_time : Text → Option Time) where
  -- parseMinute
  abbrev pub parse_minute : Text → ℤ
  parse_minute s = elim (parse_time s) [ none ↦ pos 0 | some t ↦ unix_minute t ]

  abbrev size_or_zero : ℤ → ℕ
  size_or_zero (pos n) = n
  size_or_zero (negsuc n) = 0

  -- What a line adds to which bucket, if it is counted.
  unfoldable pub bucket : Text → Option (StatKey × StatDelta)
  bucket raw = elim (decode raw) [
    | none ↦ none
    | some ll ↦
        if is_empty ll.host || beq_ℤ ll.status (pos 0)
        then none
        else if beq_ℤ (parse_minute ll.time) (pos 0)
        then none
        else some (
          record { domain = ll.host; minute = parse_minute ll.time; status = ll.status },
          record { hits = 1; bytes = size_or_zero ll.bytes },
        )
  ]

  -- Collector.accumulate
  abbrev pub accumulate : Buckets → Text → Buckets
  accumulate deltas raw = elim (bucket raw) [ none ↦ deltas | some (k, d) ↦ add_stat k d deltas ]

  unfoldable pub accumulate_all : Buckets → List Text → Buckets
  unfolding bucket add_stat
  accumulate_all deltas [] = deltas
  accumulate_all deltas (raw ∷ lines) = accumulate_all (accumulate deltas raw) lines

  module _ (order : Buckets → Buckets) (faults : StoreFaults) (log_faults : LogFaults)
      (retention : ℤ) (now : Time) where
    -- The part of CollectOnce behind the test for a rotation, with the bytes that are then read.
    unfoldable pub consume : Text → ℕ → Stats → Stats × Option Text
    unfolding read_lines accumulate_all commit
    consume bytes offset st =
        let lines = read_lines [] bytes in
        let deltas = accumulate_all [] lines in
        let consumed = offset + size_of lines in
        elim log_faults.seek [
          | some e ↦ (st, some e)
          | none ↦
              if is_none deltas && consumed == offset
              then prune faults retention now st
              else let (st', failed) = commit order faults deltas consumed st in
                elim failed [ some e ↦ (st', some e) | none ↦ prune faults retention now st' ]
        ]

    abbrev pub bytes_from : ℕ → Text → Text
    bytes_from offset content = bytes_read log_faults.read_error (drop offset content)

    -- Collector.CollectOnce
    unfoldable pub collect_once : LogFile → Stats → Stats × Option Text
    unfolding consume
    collect_once missing st = (st, none)
    collect_once (unopened e) st = (st, some e)
    collect_once (opened size content) st = elim log_faults.stat [
      | some e ↦ (st, some e)
      | none ↦ elim faults.offset [
        | some e ↦ (st, some e)
        | none ↦
            if ltb size st.log_offset
            then (let (st', failed) = reset_offset faults 0 st in
                elim failed [
                  | some e ↦ (st', some e)
                  | none ↦ consume (bytes_from 0 content) 0 st'
                ])
            else consume (bytes_from st.log_offset content) st.log_offset st
      ]
    ]
