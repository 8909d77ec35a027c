-- ===== src/Logs/Counting.antt =====
-- Tables that count each line of the log once, up to the offset.
use mesh_cdn.Base.{
  Option-cases, length, drop, length-append, drop-append_length, Text, ℕ, ◌+◌, ◌≤◌, ◌≡◌, refl, sym,
  ap, ◌∙◌, inl, inr, false, Option, List, [], ◌++◌, append_assoc, arith,
}
use mesh_cdn.Base.Decimal.{int_max}
use mesh_cdn.Base.Int.{ℤ, ltb_ℤ}
use mesh_cdn.Base.Time.{Time}
use mesh_cdn.Logs.{StatKey, StatDelta, Buckets, Stats, StoreFaults, prune_before}
use mesh_cdn.Logs.Collector.{LogLine, read_lines, size_of}
use mesh_cdn.Logs.Lines.{
  unfinished, join_lines, length-join_lines, read_lines-append, unfinished-append,
  join_lines-read_lines, read_lines-join_lines, unfinished-none,
}
use mesh_cdn.Logs.Sums.{IsSum, total, total-filter, tally, tally-append}

module _ (decode : Text → Option LogLine) (parse_time : Text → Option Time) where
  -- The rows of the key are the sum over the lines, if it fits an int64.
  abbrev pub Sums : StatKey → List Text → Buckets → Type 0
  Sums k lines rows =
      (f : StatDelta → ℕ)
      → IsSum f
      → tally decode parse_time f k lines ≤ int_max
      → total f k rows ≡ tally decode parse_time f k lines

  -- The offset is at the end of a line, and for each key whose minute is kept, the rows hold what
  -- the lines before it add up to.
  pub record IsCounted (since : ℤ) (content : Text) (st : Stats) : Type 0 where
    pub done : Text
    pub rest : Text
    pub split : content ≡ done ++ rest
    pub at_offset : length done ≡ st.log_offset
    pub at_end : unfinished [] done ≡ []
    pub sums :
        (k : StatKey) → ltb_ℤ k.minute since ≡ false → Sums k (read_lines [] done) st.request_stats

  -- The file has grown.
  pub IsCounted-append :
      (since : ℤ) (content more : Text) (st : Stats)
      → IsCounted since content st
      → IsCounted since (content ++ more) st
  IsCounted-append since content more st c = record {
    done = c.done;
    rest = c.rest ++ more;
    split = ap (λ s. s ++ more) c.split ∙ append_assoc c.done c.rest more;
    at_offset = c.at_offset;
    at_end = c.at_end;
    sums = c.sums;
  }

  -- All complete lines are counted.
  abbrev pub IsWholly : Text → Stats → Type 0
  IsWholly content st = read_lines [] (drop st.log_offset content) ≡ []

  pub unread-rest :
      (since : ℤ) (content : Text) (st : Stats) (c : IsCounted since content st)
      → drop st.log_offset content ≡ c.rest
  unread-rest since content st c =
      ap (λ s. drop st.log_offset s) c.split
      ∙ ap (λ n. drop n (c.done ++ c.rest)) (sym c.at_offset)
      ∙ drop-append_length c.done c.rest

  -- The lines behind the offset are added.
  pub advance :
      (since : ℤ) (content : Text) (st : Stats) (rows : Buckets)
      → IsCounted since content st
      → ((k : StatKey) (f : StatDelta → ℕ)
          → IsSum f
          → total f k rows
            ≡ tally decode parse_time f k (read_lines [] (drop st.log_offset content))
              + total f k st.request_stats)
      → let next : Stats = record {
        request_stats = rows;
        log_offset = st.log_offset + size_of (read_lines [] (drop st.log_offset content));
      } in
        IsCounted since content next × IsWholly content next
  advance since content st rows c added =
      let q = unread-rest since content st c in
      let lines = read_lines [] c.rest in
      let whole = join_lines lines in
      let left = unfinished [] c.rest in
      let again = read_lines-join_lines [] c.rest tt in
      let split : content ≡ (c.done ++ whole) ++ left =
        c.split
        ∙ ap (λ s. c.done ++ s) (join_lines-read_lines [] c.rest)
        ∙ sym (append_assoc c.done whole left) in
      let offset : length (c.done ++ whole)
          ≡ st.log_offset + size_of (read_lines [] (drop st.log_offset content)) =
        length-append c.done whole
        ∙ ap (λ n. n + length whole) c.at_offset
        ∙ ap (λ n. st.log_offset + n) (length-join_lines lines)
        ∙ ap (λ s. st.log_offset + size_of (read_lines [] s)) (sym q) in
      let seen : read_lines [] (c.done ++ whole) ≡ read_lines [] c.done ++ lines =
        read_lines-append [] c.done whole
        ∙ ap (λ l. read_lines [] c.done ++ read_lines l whole) c.at_end
        ∙ ap (λ ls. read_lines [] c.done ++ ls) again.0 in
      (
        record {
          done = c.done ++ whole;
          rest = left;
          split = split;
          at_offset = offset;
          at_end =
              unfinished-append [] c.done whole ∙ ap (λ l. unfinished l whole) c.at_end ∙ again.1;
          sums = λ k h f s fits.
              let a = added k f s in
              let d = tally-append decode parse_time f k (read_lines [] c.done) lines in
              let e = ap (tally decode parse_time f k) seen in
              let b = c.sums k h f s (omega (arith, d, e, fits)) in
              let g = ap (λ t. tally decode parse_time f k (read_lines [] t)) q in
              omega (arith, a, b, d, e, g);
        },
        ap (λ n. read_lines [] (drop n content)) (sym offset)
            ∙ ap (λ s. read_lines [] (drop (length (c.done ++ whole)) s)) split
            ∙ ap (read_lines []) (drop-append_length (c.done ++ whole) left)
            ∙ unfinished-none [] c.rest tt,
      )

  pub prune-IsCounted :
      (faults : StoreFaults) (since before : ℤ) (content : Text) (st : Stats)
      → ((k : StatKey) → ltb_ℤ k.minute since ≡ false → ltb_ℤ k.minute before ≡ false)
      → IsCounted since content st
      → IsCounted since content (prune_before faults before st).0
        × ((prune_before faults before st).0.log_offset ≡ st.log_offset)
  prune-IsCounted faults since before content st kept c = elim (Option-cases faults.prune) [
    | inr (e, n) ↦ rw n (c, refl)
    | inl n ↦ rw n (
      record {
        done = c.done;
        rest = c.rest;
        split = c.split;
        at_offset = c.at_offset;
        at_end = c.at_end;
        sums = λ k h f s fits.
            total-filter f k before st.request_stats (kept k h) ∙ c.sums k h f s fits;
      },
      refl,
    )
  ]
