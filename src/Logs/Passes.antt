-- ===== src/Logs/Passes.antt =====
-- A pass of the collector counts each line that has become complete, once.
use mesh_cdn.Base.{
  ltb, ◌==◌, Bool-cases, Option-cases, take, drop, Text, split, ℕ, zero, suc, ◌+◌, ◌≤◌, ◌≡◌, refl,
  sym, ap, ◌∙◌, subst, ◌⊎◌, inl, inr, true, false, ◌&&◌, Option, none, some, List, [], ◌∷◌, ◌++◌,
  append-nil, append_assoc, arith,
}
use mesh_cdn.Base.Int.{ℤ, ltb_ℤ, ◌≤ℤ◌}
use mesh_cdn.Base.Time.{Time}
use mesh_cdn.Logs.{StatKey, StatDelta, Buckets, Stats, StoreFaults, insert_stats, commit}
use mesh_cdn.Logs.Collector.{
  bytes_read, LogLine, opened, LogFaults, cutoff, read_lines, size_of, is_none, prune,
  accumulate_all, consume, collect_once,
}
use mesh_cdn.Logs.Sums.{
  IsSum, total, total-insert_stats, Reordered, total-Reordered, tally, total-accumulate_all,
}
use mesh_cdn.Logs.Counting.{
  unread-rest, IsCounted, IsWholly, IsCounted-append, prune-IsCounted, advance,
}

is_none→nil : (ds : Buckets) → is_none ds ≡ true → ds ≡ []
is_none→nil [] h = refl
is_none→nil (b ∷ bs) h = absurd (ground arith)

take-drop : (n : ℕ) (s : Text) → s ≡ take n s ++ drop n s
take-drop zero s = refl
take-drop (suc n) [] = refl
take-drop (suc n) (c ∷ s) = ap (λ t. c ∷ t) (take-drop n s)

bytes_read-prefix : (r : Option ℕ) (s : Text) → (t : Text) × (s ≡ bytes_read r s ++ t)
bytes_read-prefix none s = ([], sym (append-nil s))
bytes_read-prefix (some n) s = (drop n s, take-drop n s)

module _ (decode : Text → Option LogLine) (parse_time : Text → Option Time) where
  -- Nothing has changed, or the deltas are in the rows.
  commit_cases :
      (order : Buckets → Buckets) (faults : StoreFaults) (deltas : Buckets) (n : ℕ) (st : Stats)
      → let (rows, failed) = insert_stats faults.insert (order deltas) st.request_stats in
        ((e : Text) × (commit order faults deltas n st ≡ (st, some e)))
        ⊎ ((failed ≡ none)
            × (commit order faults deltas n st
                ≡ (record { request_stats = rows; log_offset = n }, none)))
  unfolding commit
  commit_cases order faults deltas n st = elim (Option-cases faults.begin) [
    | inr (e, a) ↦ inl (e, rw a refl)
    | inl a ↦ elim (Option-cases faults.prepare) [
      | inr (e, b) ↦ inl (e, rw (a, b) refl)
      | inl b ↦ elim (Option-cases (insert_stats faults.insert (order deltas) st.request_stats).1) [
        | inr (e, c) ↦ inl (e, rw (a, b, c) refl)
        | inl c ↦ elim (Option-cases faults.set_offset) [
          | inr (e, d) ↦ inl (e, rw (a, b, c, d) refl)
          | inl d ↦ elim (Option-cases faults.commit) [
            | inr (e, f) ↦ inl (e, rw (a, b, c, d, f) refl)
            | inl f ↦ inr (c, rw (a, b, c, d, f) refl)
          ]
        ]
      ]
    ]
  ]

  module _ (order : Buckets → Buckets) (visits : (ds : Buckets) → Reordered (order ds) ds)
      (faults : StoreFaults) where
    -- The sum over the deltas of the lines, in whichever order they are inserted.
    added :
        (lines : List Text) (rows : Buckets) (k : StatKey) (f : StatDelta → ℕ)
        → IsSum f
        → let deltas = accumulate_all decode parse_time [] lines in
          (insert_stats faults.insert (order deltas) rows).1 ≡ none
          → total f k (insert_stats faults.insert (order deltas) rows).0
            ≡ tally decode parse_time f k lines + total f k rows
    unfolding total
    added lines rows k f s n =
        let deltas = accumulate_all decode parse_time [] lines in
        let a = total-insert_stats f s k faults.insert (order deltas) rows n in
        let b = total-Reordered f k (visits deltas) in
        let c = total-accumulate_all decode parse_time f k s [] lines in omega (arith, a, b, c)

    module _ (log_faults : LogFaults) (retention : ℤ) (now : Time) where
      abbrev Counts : ℤ → Text → Stats × Option Text → Type 0
      Counts since content run =
          IsCounted decode parse_time since content run.0
          × (((e : Text) × (run.1 ≡ some e)) ⊎ IsWholly decode parse_time content run.0)

      abbrev IsKept : ℤ → Type 0
      IsKept since =
          (k : StatKey)
          → ltb_ℤ k.minute since ≡ false
          → ltb_ℤ k.minute (cutoff retention now) ≡ false

      pruned :
          (since : ℤ) (content : Text) (st : Stats)
          → IsKept since
          → IsCounted decode parse_time since content st
          → IsWholly decode parse_time content st
          → Counts since content (prune faults retention now st)
      pruned since content st kept c w =
          let (d, e) =
            prune-IsCounted decode parse_time faults since (cutoff retention now) content st kept
              c in
          (
            d,
            elim (Option-cases faults.prune) [
              | inr (x, n) ↦ inl (x, rw n refl)
              | inl n ↦ inr (ap (λ n. read_lines [] (drop n content)) e ∙ w)
            ],
          )

      -- No line has added anything, and the offset is the same.
      idle :
          (since : ℤ) (content : Text) (st : Stats)
          → IsCounted decode parse_time since content st
          → let lines = read_lines [] (drop st.log_offset content) in
            accumulate_all decode parse_time [] lines ≡ []
            → st.log_offset + size_of lines ≡ st.log_offset
            → IsCounted decode parse_time since content st × IsWholly decode parse_time content st
      unfolding total
      idle since content st c none_new same_offset =
          let lines = read_lines [] (drop st.log_offset content) in
          subst
            (λ (x : Stats).
              IsCounted decode parse_time since content x × IsWholly decode parse_time content x)
            (let at : ℕ → Stats =
                λ n. record { request_stats = st.request_stats; log_offset = n } in
              ap at same_offset)
            (advance decode parse_time since content st st.request_stats c (λ k f s.
              let a = total-accumulate_all decode parse_time f k s [] lines in
              let b = ap (total f k) none_new in omega (arith, a, b)))

      consume-IsCounted :
          (since : ℤ) (content : Text) (st : Stats)
          → IsKept since
          → IsCounted decode parse_time since content st
          → Counts since content (
              consume decode parse_time order faults log_faults retention now
                (drop st.log_offset content)
                st.log_offset
                st)
      unfolding consume
      consume-IsCounted since content st kept c =
          let lines = read_lines [] (drop st.log_offset content) in
          let deltas = accumulate_all decode parse_time [] lines in
          let consumed = st.log_offset + size_of lines in
          elim (Option-cases log_faults.seek) [
            | inr (e, n) ↦ rw n (c, inl (e, refl))
            | inl n ↦ elim (Bool-cases (is_none deltas && consumed == st.log_offset)) [
              | inl b ↦
                  let empty = is_none→nil deltas (ground arith) in
                  let (d, w) = idle since content st c empty (ground arith) in
                  rw (n, b) (pruned since content st kept d w)
              | inr b ↦ elim (commit_cases order faults deltas consumed st) [
                | inl (e, q) ↦
                    let st_same = ap (λ (r : Stats × Option Text). r.0) q in
                    let failed = ap (λ (r : Stats × Option Text). r.1) q in
                    rw (n, b, failed, st_same) (c, inl (e, refl))
                | inr (m, q) ↦
                    let next = insert_stats faults.insert (order deltas) st.request_stats in
                    let (d, w) =
                      advance decode parse_time since content st next.0 c
                        (λ k f s. added lines st.request_stats k f s m) in
                    let moved = ap (λ (r : Stats × Option Text). r.0) q in
                    let done = ap (λ (r : Stats × Option Text). r.1) q in
                    rw (n, b, done, moved) (pruned since content _ kept d w)
              ]
            ]
          ]

      -- What Counts says, or a read has failed.
      abbrev Passed : ℤ → Text → Stats × Option Text → Type 0
      Passed since content run =
          IsCounted decode parse_time since content run.0
          × (((e : Text) × (run.1 ≡ some e))
              ⊎ ((n : ℕ) × (log_faults.read_error ≡ some n))
              ⊎ IsWholly decode parse_time content run.0)

      -- A pass over a file of which a part is read is one over the file that ends there.
      read-IsCounted :
          (since : ℤ) (content : Text) (st : Stats)
          → IsKept since
          → IsCounted decode parse_time since content st
          → Passed since content (
              consume decode parse_time order faults log_faults retention now
                (bytes_read log_faults.read_error (drop st.log_offset content))
                st.log_offset
                st)
      read-IsCounted since content st kept c =
          let part = bytes_read log_faults.read_error c.rest in
          let seen = c.done ++ part in
          let (unseen, split) = bytes_read-prefix log_faults.read_error c.rest in
          let all : content ≡ seen ++ unseen =
            c.split ∙ ap (λ s. c.done ++ s) split ∙ sym (append_assoc c.done part unseen) in
          let d : IsCounted decode parse_time since seen st = record {
            done = c.done;
            rest = part;
            split = refl;
            at_offset = c.at_offset;
            at_end = c.at_end;
            sums = c.sums;
          } in
          let bytes : drop st.log_offset seen
              ≡ bytes_read log_faults.read_error (drop st.log_offset content) =
            unread-rest decode parse_time since seen st d
            ∙ ap (bytes_read log_faults.read_error)
                (sym (unread-rest decode parse_time since content st c)) in
          let after : Text → Stats × Option Text = λ b.
            consume decode parse_time order faults log_faults retention now b st.log_offset st in
          let (counted, ended) =
            subst (λ b. Counts since seen (after b)) bytes
              (consume-IsCounted since seen st kept d) in
          let run = after (bytes_read log_faults.read_error (drop st.log_offset content)) in
          (
            subst (λ s. IsCounted decode parse_time since s run.0) (sym all)
                (IsCounted-append decode parse_time since seen unseen run.0 counted),
            elim (Option-cases log_faults.read_error) [
              | inr (n, e) ↦ inr (inl (n, e))
              | inl e ↦ elim ended [
                | inl failed ↦ inl failed
                | inr whole ↦
                    let same_text : seen ≡ content =
                      ap (λ r. c.done ++ bytes_read r c.rest) e ∙ sym c.split in
                    inr (inr (subst (λ s. IsWholly decode parse_time s run.0) same_text whole))
              ]
            ],
          )

      -- As long as the log grows, a pass of CollectOnce counts each line once. Before it, the
      -- stored offset is at the end of a line, and the rows of each bucket sum up to what the lines
      -- before the offset add to it, in hits and in bytes, if the minute of the bucket is one that
      -- this pass keeps and the sum fits an int64. The same holds after it for the log as it is
      -- then, whichever calls of the file and of the driver fail, reads included, and in whatever
      -- order the deltas are inserted; and the pass has ended with an error, or a read has failed,
      -- which the pass does not report, or no complete line is behind the offset.
      pub collect_once-IsCounted :
          (since : ℤ) (content more : Text) (size : ℕ) (st : Stats)
          → cutoff retention now ≤ℤ since
          → IsCounted decode parse_time since content st
          → st.log_offset ≤ size
          → Passed since (content ++ more) (
              collect_once decode parse_time order faults log_faults retention now
                (opened size (content ++ more))
                st)
      unfolding collect_once
      collect_once-IsCounted since content more size st old c le =
          let kept : IsKept since = λ k h. ground arith in
          let d = IsCounted-append decode parse_time since content more st c in
          let small : ltb size st.log_offset ≡ false = ground arith in
          elim (Option-cases log_faults.stat) [
            | inr (e, n) ↦ rw n (d, inl (e, refl))
            | inl n ↦ elim (Option-cases faults.offset) [
              | inr (e, m) ↦ rw (n, m) (d, inl (e, refl))
              | inl m ↦ rw (n, m, small) (read-IsCounted since (content ++ more) st kept d)
            ]
          ]
