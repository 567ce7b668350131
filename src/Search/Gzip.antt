-- ===== src/Search/Gzip.antt =====
-- `LogSearcher::search_file_igzip`. The stream is its state with `read`, which is `igzread` on a
-- buffer of 8192 bytes.
pub mod Reads
pub mod Position
pub mod Whole
use drlog_search.Base.{
  ℕ, zero, suc, ◌+◌, ◌-◌, ◌*◌, ◌%◌, ◌^◌, Bool, true, false, ◌&&◌, Option, none, some, List, [], ◌∷◌,
  ◌++◌, Bytes, codes, ◌==◌, ltb, leb, if◌then◌else◌, drop, length, is_empty,
}
use drlog_search.Util.Igzip.{ReadResult, read_error, read}
use drlog_search.Search.Context.{RegexEngine, Searcher, LogLine, Progress, SearchContext, started}
use drlog_search.Search.Exec.{exec_searchers}
use drlog_search.Search.Lines.{parse_line}
use drlog_search.Search.Carry.{get_lines_gzip}
use drlog_search.Search.Txt.{max_batch, fail_with, run_rest}

-- BUF_SIZE and MAX_LINE_SIZE
abbrev pub buf_size : ℕ
buf_size = 8192

abbrev pub max_line_size : ℕ
max_line_size = 4 * 1024 * 1024

-- `n < read_size`, where `read_size` is the smaller of BUF_SIZE and `remaining` as a 32-bit `int`.
unfoldable pub is_short : ℕ → ℕ → Bool
is_short n remaining =
    let r = remaining % 2 ^ 32 in ltb r (2 ^ 31) && ltb n (if ltb r buf_size then r else buf_size)

module _ (e : RegexEngine) (timestamp_of : Bytes → ℕ) (ctx : SearchContext e.Regex) where
  -- The searchers run on a full batch, which is then dropped. The flag says `return`, or that the
  -- exception of a searcher is caught.
  unfoldable pub full_ran : Progress → Option Bool × List LogLine → Bool × Progress
  full_ran p (none, matched) =
      (true, fail_with (record p { matched_lines = matched }) (codes "Error processing gzip file"))
  full_ran p (some ok, matched) =
      let q = record p { matched_lines = matched; log_lines = [] } in
      if ok then (false, q) else (true, fail_with q (codes "Failed to execute searchers for file"))

  unfoldable pub full_batch : Progress → Bool × Progress
  unfolding full_ran
  full_batch p =
      if leb max_batch (length p.log_lines)
      then full_ran p (exec_searchers e ctx.max_results ctx.searchers p.log_lines p.matched_lines)
      else (false, p)

  -- The loop over the lines of a chunk.
  unfoldable pub lines_loop : List Bytes → Progress → Bool × Progress
  unfolding full_batch
  lines_loop [] p = (false, p)
  lines_loop (line ∷ lines) p =
      let r = full_batch (parse_line timestamp_of ctx.start_time ctx.end_time p line) in
      let rest = lines_loop lines r.1 in
      if r.0
      then r
      else if leb ctx.max_results (length r.1.matched_lines)
      then (false, r.1)
      else rest

  unfoldable pub read_rest : Bool × Progress → Progress
  read_rest (true, p) = p
  read_rest (false, p) = run_rest e timestamp_of ctx (codes "Error processing gzip file") p

module _ {Stream : Type 0} (igzread : Stream → ReadResult × Stream) where
  -- The end of the positioning: a message, or the bytes read so far, `carry`, and the stream.
  pub data Positioned : Type 0 where
    misplaced : Bytes → Positioned
    positioned : ℕ → Bytes → Stream → Positioned

  -- What a read of `chunk` leads to; `next` is the loop's next round.
  unfoldable pub skip_chunk : ℕ → ℕ → (ℕ → Stream → Positioned) → ReadResult × Stream → Positioned
  skip_chunk start total next (read_error code, s) = misplaced (codes "Error reading gzip file")
  skip_chunk start total next (read chunk, s) =
      let n = length chunk in
      let extra_bytes = total + n - start in
      if n == 0
      then misplaced (codes "Index start position is out of file range")
      else if is_short n (start - total)
      then misplaced (codes "Index start position is out of file range")
      else if ltb start (total + n)
      then (if ltb n extra_bytes
          then misplaced (codes "Failed to position to start offset")
          else positioned (total + n) (drop (n - extra_bytes) chunk) s)
      else next (total + n) s

  -- Each round reads a byte at least, so `start` rounds suffice.
  unfoldable pub skip_loop : ℕ → ℕ → ℕ → Stream → Positioned
  unfolding skip_chunk
  skip_loop zero start total s = positioned total [] s
  skip_loop (suc fuel) start total s =
      if leb start total
      then positioned total [] s
      else skip_chunk start total (skip_loop fuel start) (igzread s)

  module _ (e : RegexEngine) (timestamp_of : Bytes → ℕ) (ctx : SearchContext e.Regex) where
    -- What a read leads to: the flag says `return`.
    unfoldable pub read_chunk :
        ℕ
        → Bytes
        → Progress
        → (ℕ → Bytes → Stream → Progress → Bool × Progress)
        → ReadResult × Stream
        → Bool × Progress
    unfolding lines_loop
    read_chunk total carry p next (read_error code, s) =
        (true, fail_with p (codes "Error reading gzip file"))
    read_chunk total carry p next (read chunk, s) =
        let cut = get_lines_gzip (carry ++ chunk) [] in
        let r = lines_loop e timestamp_of ctx cut.1 p in
        if is_empty chunk
        then (false, p)
        else if ltb max_line_size (length (carry ++ chunk))
        then (false, p)
        else if r.0
        then r
        else next (total + length chunk) cut.0 s r.1

    -- Each round reads a byte at least, so `index_end_pos` rounds suffice.
    unfoldable pub read_loop : ℕ → ℕ → Bytes → Stream → Progress → Bool × Progress
    unfolding read_chunk
    read_loop zero total carry s p = (false, p)
    read_loop (suc fuel) total carry s p =
        if leb ctx.index_end_pos total
        then (false, p)
        else read_chunk total carry p (read_loop fuel) (igzread s)

    unfoldable pub read_from : Positioned → Progress
    unfolding read_loop read_rest
    read_from (misplaced message) = fail_with started message
    read_from (positioned total carry s) =
        read_rest e timestamp_of ctx (read_loop ctx.index_end_pos total carry s started)

    -- `none` is a file that `igzopen` does not open.
    unfoldable pub search_file_igzip : Option Stream → Progress
    unfolding read_from skip_loop
    search_file_igzip none = fail_with started (codes "Failed to open igzip file for reading")
    search_file_igzip (some s) = read_from (skip_loop ctx.index_start_pos ctx.index_start_pos 0 s)
