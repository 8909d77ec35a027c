-- ===== src/Examples/LogExamples.antt =====
-- A pass over a log whose second line has become complete.
use mesh_cdn.Base.{
  ◌==◌, if◌then◌else◌, length, Text, text, ℕ, ◌*◌, ◌≡◌, refl, ◌⊎◌, Option, none, some, [], ◌∷◌,
  ◌++◌, arith,
}
use mesh_cdn.Base.Int.{pos}
use mesh_cdn.Base.Time.{Time}
use mesh_cdn.Logs.{StatKey, Stats, StoreFaults}
use mesh_cdn.Logs.Collector.{LogLine, opened, LogFaults, read_lines, consume, collect_once}
use mesh_cdn.Logs.Lines.{unfinished}
use mesh_cdn.Logs.Sums.{total, tally, same_order}
use mesh_cdn.Logs.Counting.{IsCounted, IsWholly}
use mesh_cdn.Logs.Passes.{collect_once-IsCounted}

-- A line without the braces is malformed.
abbrev decode : Text → Option LogLine
decode [] = none
decode (c ∷ s) =
    if c == 0x7B
    then some (record { time = []; host = text "a.com"; status = pos 200; bytes = pos (length s) })
    else none

abbrev parse_time : Text → Option Time
parse_time s = some (62_135_596_860 * 1_000_000_000)

abbrev bucket_key : StatKey
bucket_key = record { domain = text "a.com"; minute = pos 60; status = pos 200 }

abbrev no_faults : StoreFaults
no_faults = record {
  offset = none;
  reset_offset = none;
  begin = none;
  prepare = none;
  insert = λ k. none;
  set_offset = none;
  commit = none;
  prune = none;
}

abbrev readable : LogFaults
readable = record { stat = none; seek = none; read_error = none }

abbrev content : Text
content = text "{}\n{"

abbrev more : Text
more = text "}}\nx\n{"

abbrev earlier : Stats
earlier = record {
  request_stats = (bucket_key, record { hits = 1; bytes = 2 }) ∷ [];
  log_offset = 3;
}

abbrev run : Stats × Option Text
run =
    collect_once decode parse_time (λ ds. ds) no_faults readable (pos 0) 0
      (opened 10 (content ++ more)) earlier

-- The line that is not complete is left for the next pass.
run_lem : run ≡ (
  record { request_stats = (bucket_key, record { hits = 2; bytes = 5 }) ∷ []; log_offset = 9 },
  none,
)
unfolding collect_once consume
run_lem = refl

earlier-IsCounted : IsCounted decode parse_time (pos 0) content earlier
unfolding unfinished read_lines total tally
earlier-IsCounted = record {
  done = text "{}\n";
  rest = text "{";
  split = refl;
  at_offset = refl;
  at_end = refl;
  sums = λ k h f s fits. refl;
}

collect_once-IsCounted_example :
    IsCounted decode parse_time (pos 0) (content ++ more) run.0
    × (((e : Text) × (run.1 ≡ some e))
        ⊎ ((n : ℕ) × (readable.read_error ≡ some n))
        ⊎ IsWholly decode parse_time (content ++ more) run.0)
collect_once-IsCounted_example =
    collect_once-IsCounted decode parse_time (λ ds. ds) (λ ds. same_order ds) no_faults readable
      (pos 0) 0 (pos 0) content more 10 earlier (omega arith) earlier-IsCounted (omega arith)
