-- ===== src/Search/Txt.antt =====
-- `LogSearcher::search_file_txt`. A file is the text that it holds, or `none` where it cannot be
-- opened; what is left of the text stands for the position of the stream.
pub mod Steps
pub mod Whole
pub mod Bounds
use drlog_search.Base.{
  List, false, ℕ, zero, suc, ◌+◌, ◌-◌, ◌^◌, Bool, true, Option, none, some, [], Bytes, codes, ltb,
  leb, if◌then◌else◌, drop, length, is_empty,
}
use drlog_search.Text.{getline}
use drlog_search.Search.Context.{RegexEngine, Searcher, LogLine, Progress, SearchContext, started}
use drlog_search.Search.Exec.{exec_searchers}
use drlog_search.Search.Lines.{parse_line, flushed}

-- MAX_BATCH_MATCHES
abbrev pub max_batch : ℕ
max_batch = 500

abbrev pub fail_with : Progress → Bytes → Progress
fail_with p message = record p { status = 1; error_msg = message }

module _ (e : RegexEngine) (timestamp_of : Bytes → ℕ) (ctx : SearchContext e.Regex) where
  -- The searchers run on a full batch, which is then dropped. The flag says `break`, and `none`
  -- that an exception is thrown.
  unfoldable pub batch_ran : Progress → Option Bool × List LogLine → Option Bool × Progress
  batch_ran p (none, matched) = (none, record p { matched_lines = matched })
  batch_ran p (some ok, matched) =
      let q = record p { matched_lines = matched; log_lines = [] } in
      if ok
      then (some (leb ctx.max_results (length matched)), q)
      else (some true, fail_with q (codes "Failed to execute searchers for file"))

  unfoldable pub run_batch : Progress → Option Bool × Progress
  unfolding batch_ran
  run_batch p =
      batch_ran p (exec_searchers e ctx.max_results ctx.searchers p.log_lines p.matched_lines)

  -- What a batch leads to; the flag says that an exception is thrown, and `next` is the loop's next
  -- round.
  unfoldable pub behind_batch :
      Option Bool × Progress → (Progress → Bool × Progress) → Bool × Progress
  behind_batch (none, r) next = (true, r)
  behind_batch (some true, r) next = (false, r)
  behind_batch (some false, r) next = next r

  -- `ifs.tellg()` behind a line: at the end of the file it is -1, which the comparison with a
  -- `uint64_t` reads as 2 ^ 64 - 1.
  abbrev pub tellg : ℕ → Bytes → Bool → ℕ
  tellg pos line met = if met then pos + length line + 1 else 2 ^ 64 - 1

  unfoldable pub txt_loop : ℕ → Bytes → ℕ → Progress → Bool × Progress
  unfolding run_batch behind_batch
  txt_loop zero rest pos p = (false, p)
  txt_loop (suc fuel) rest pos p = elim (getline b'\n' rest) [
    | none ↦ (false, p)
    | some (line, rest', met) ↦
        let q = parse_line timestamp_of ctx.start_time ctx.end_time p line in
        let next = λ (r : Progress). txt_loop fuel rest' (pos + length line + 1) r in
        if ltb ctx.index_end_pos (tellg pos line met)
        then (false, q)
        else (if leb max_batch (length q.log_lines)
            then behind_batch (run_batch q) next
            else next q)
  ]

  -- The end of the last run; `message` is what the handler of exceptions says.
  unfoldable pub rest_ran : Bytes → Progress → Option Bool × List LogLine → Progress
  rest_ran message q (none, matched) = fail_with (record q { matched_lines = matched }) message
  rest_ran message q (some ok, matched) =
      let r = record q { matched_lines = matched } in
      if ok
      then record r { log_lines = [] }
      else fail_with r (codes "Failed to execute searchers for file")

  -- Behind the loop: the last record is flushed, and the searchers run on what is left.
  unfoldable pub run_rest : Bytes → Progress → Progress
  unfolding rest_ran
  run_rest message p =
      let lines = flushed timestamp_of ctx.start_time ctx.end_time p in
      let q = record p {
        tmp_line = record { timestamp = p.tmp_line.timestamp; line = [] };
        log_lines = lines;
      } in
      if is_empty lines
      then q
      else rest_ran message q (exec_searchers e ctx.max_results ctx.searchers lines p.matched_lines)

  -- Behind the loop, or behind an exception in it.
  unfoldable pub rest_or_caught : Bytes → Bool × Progress → Progress
  unfolding run_rest
  rest_or_caught message (true, p) = fail_with p message
  rest_or_caught message (false, p) = run_rest message p

  -- Each round reads a byte at least, so the fuel suffices.
  unfoldable pub search_file_txt : Option Bytes → Progress
  unfolding txt_loop rest_or_caught
  search_file_txt none = fail_with started (codes "Failed to open file for reading")
  search_file_txt (some file) =
      if leb (length file) ctx.index_start_pos
      then fail_with started (codes "Index start position is out of file range")
      else if leb (length file) ctx.index_end_pos
      then fail_with started (codes "Index end position is out of file range")
      else rest_or_caught (codes "Error reading file for reading")
          (txt_loop (length file + 1) (drop ctx.index_start_pos file) ctx.index_start_pos started)
