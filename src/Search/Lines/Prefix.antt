-- ===== src/Search/Lines/Prefix.antt =====
-- `parse_line` only appends to `log_lines`, and leaves what was found alone.
use drlog_search.Base.{
  ℕ, List, [], ◌∷◌, ◌++◌, append-nil, append_assoc, Bytes, ◌≡◌, sym, ap, ◌∙◌, arith,
}
use drlog_search.Search.Context.{LogLine, Progress}
use drlog_search.Search.Lines.{parse_line, parse_lines, flushed}

module _ (timestamp_of : Bytes → ℕ) (start_time end_time : ℕ) where
  abbrev pub put_before : List LogLine → List LogLine → Progress → Progress
  put_before xs found p = record p { log_lines = xs ++ p.log_lines; matched_lines = found }

  parse_line-put_before :
      (xs found : List LogLine) (p : Progress) (line : Bytes)
      → parse_line timestamp_of start_time end_time (put_before xs found p) line
        ≡ put_before xs found (parse_line timestamp_of start_time end_time p line)
  unfolding parse_line
  parse_line-put_before xs found p line =
      ground (arith, append_assoc xs p.log_lines (p.tmp_line ∷ []))

  flushed-put_before :
      (xs found : List LogLine) (p : Progress)
      → flushed timestamp_of start_time end_time (put_before xs found p)
        ≡ xs ++ flushed timestamp_of start_time end_time p
  unfolding flushed
  flushed-put_before xs found p = ground (arith, append_assoc xs p.log_lines (p.tmp_line ∷ []))

  -- The lines that wait when the text is read on from `p`, batch or not.
  pub flushed-parse_lines :
      (lines : List Bytes) (xs found : List LogLine) (p : Progress)
      → flushed timestamp_of start_time end_time
          (parse_lines timestamp_of start_time end_time (put_before xs found p) lines)
        ≡ xs
          ++ flushed timestamp_of start_time end_time
              (parse_lines timestamp_of start_time end_time p lines)
  unfolding parse_lines
  flushed-parse_lines [] xs found p = flushed-put_before xs found p
  flushed-parse_lines (line ∷ lines) xs found p =
      rw (parse_line-put_before xs found p line)
        (flushed-parse_lines lines xs found (parse_line timestamp_of start_time end_time p line))

  -- A batch that is dropped from the waiting lines was in front of the rest.
  pub flushed-batch :
      (lines : List Bytes) (found : List LogLine) (p : Progress)
      → flushed timestamp_of start_time end_time
          (parse_lines timestamp_of start_time end_time p lines)
        ≡ p.log_lines
          ++ flushed timestamp_of start_time end_time (
              parse_lines timestamp_of start_time end_time
                (record p { matched_lines = found; log_lines = [] })
                lines)
  flushed-batch lines found p =
      ap
        (λ l.
          flushed timestamp_of start_time end_time
            (parse_lines timestamp_of start_time end_time (record p { log_lines = l }) lines))
        (sym (append-nil p.log_lines))
      ∙ flushed-parse_lines lines p.log_lines p.matched_lines
          (record p { matched_lines = found; log_lines = [] })

  -- What `parse_line` leaves alone.
  pub parse_line_keeps :
      (p : Progress) (line : Bytes)
      → ((parse_line timestamp_of start_time end_time p line).matched_lines ≡ p.matched_lines)
        × ((parse_line timestamp_of start_time end_time p line).status ≡ p.status)
  unfolding parse_line
  parse_line_keeps p line = ground arith
