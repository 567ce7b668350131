-- ===== src/Indexer/Gzip.antt =====
-- `FileIndexer::update_file_index_igzip` of src/agent/indexer.cpp: the index of a gzip file. The
-- stream is its state with `igzread` on a buffer of 16 KiB.
pub mod Sound
use drlog_search.Base.{
  ℕ, zero, suc, ◌+◌, ◌-◌, ◌*◌, ◌%◌, ◌^◌, Bool, false, ◌&&◌, ◌||◌, Option, none, some, List, [], ◌∷◌,
  ◌++◌, Bytes, ◌==◌, ltb, leb, if◌then◌else◌, length, is_empty,
}
use drlog_search.Text.{cut_at}
use drlog_search.Util.Igzip.{ReadResult, read_error, read}
use drlog_search.Indexer.Info.{TimeIndex}
use drlog_search.Indexer.Txt.{Indexing, bucket_of, at_least}

-- MAX_LINE_SIZE
abbrev pub max_carry_size : ℕ
max_carry_size = 4 * 1024 * 1024

module _ (timestamp_of : Bytes → ℕ) (interval count_threshold : ℕ) where
  -- A line with a timestamp.
  unfoldable pub record_gzip_line : Indexing → ℕ → ℕ → Indexing
  record_gzip_line st offset ts =
      let bucket = bucket_of interval ts in
      let added = record st {
        outputs = st.outputs ++ record { timestamp = bucket; offset = offset } ∷ [];
        last_recorded_bucket = bucket;
        lines_since_last = 0;
      } in
      if st.last_recorded_bucket == 0
        || at_least bucket ((st.last_recorded_bucket + interval) % 2 ^ 64)
        || leb count_threshold (st.lines_since_last + 1)
      then added
      else record st { lines_since_last = st.lines_since_last + 1 }

  -- One line; the flag says `break`.
  unfoldable pub index_gzip_line : Indexing → ℕ → Bytes → Bool × Indexing
  unfolding record_gzip_line
  index_gzip_line st offset line =
      let seen = record st { last_line = line; last_offset = offset } in
      if timestamp_of line == 0
      then (
        ltb 5000 (st.skipped_lines + 1) && is_empty st.outputs,
        record st { skipped_lines = st.skipped_lines + 1 },
      )
      else (false, record_gzip_line seen offset (timestamp_of line))

  unfoldable pub scan_cut :
      (ℕ → Bytes → Indexing → Bytes × Indexing)
      → ℕ
      → Bytes
      → Indexing
      → Option (Bytes × Bytes)
      → Bytes × Indexing
  unfolding index_gzip_line
  scan_cut next offset carry st none = (carry, st)
  scan_cut next offset carry st (some (line, rest)) =
      let r = index_gzip_line st offset line in
      if r.0 then (carry, r.1) else next (offset + length line + 1) rest r.1

  -- The loop over the lines in `carry`, from its offset in the file: the carry that is left.
  unfoldable pub scan_loop : ℕ → ℕ → Bytes → Indexing → Bytes × Indexing
  unfolding scan_cut
  scan_loop zero offset carry st = (carry, st)
  scan_loop (suc fuel) offset carry st =
      scan_cut (scan_loop fuel) offset carry st (cut_at b'\n' carry)

  -- The last entry, for the last line with a timestamp.
  unfoldable pub close_gzip_index : Indexing → List TimeIndex
  close_gzip_index st =
      if is_empty st.outputs
      then []
      else st.outputs
        ++ record { timestamp = timestamp_of st.last_line; offset = st.last_offset } ∷ []

  module _ {Stream : Type 0} (igzread : Stream → ReadResult × Stream) where
    -- What a read leads to; `next` is the loop's next round.
    unfoldable pub index_chunk :
        (ℕ → Bytes → Stream → Indexing → Option (List TimeIndex))
        → ℕ
        → Bytes
        → Indexing
        → ReadResult × Stream
        → Option (List TimeIndex)
    unfolding scan_loop close_gzip_index
    index_chunk next total carry st (read_error code, s) = some st.outputs
    index_chunk next total carry st (read [], s) = some (close_gzip_index st)
    index_chunk next total carry st (read (c ∷ cs), s) =
        let whole = carry ++ c ∷ cs in
        let base_offset = total - length carry in
        let r = scan_loop (length whole) base_offset whole st in
        if ltb max_carry_size (length whole)
        then some st.outputs
        else next (total + length (c ∷ cs)) r.0 s r.1

    -- The loop over the chunks, with fuel for the reads; `none` is out of fuel, of the model alone.
    unfoldable pub chunk_loop : ℕ → ℕ → Bytes → Stream → Indexing → Option (List TimeIndex)
    unfolding index_chunk
    chunk_loop zero total carry s st = none
    chunk_loop (suc fuel) total carry s st =
        index_chunk (chunk_loop fuel) total carry st (igzread s)

    -- The entries in `outputs`: the first `none` is a file that `igzopen` does not open.
    unfoldable pub update_file_index_igzip : ℕ → Option Stream → Option (List TimeIndex)
    unfolding chunk_loop
    update_file_index_igzip fuel none = some []
    update_file_index_igzip fuel (some s) = chunk_loop fuel 0 [] s (record {
      outputs = [];
      last_recorded_bucket = 0;
      lines_since_last = 0;
      skipped_lines = 0;
      last_line = [];
      last_offset = 0;
    })
