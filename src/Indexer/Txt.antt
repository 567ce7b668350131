-- ===== src/Indexer/Txt.antt =====
-- `FileIndexer::update_file_index_txt_mmap` of src/agent/indexer.cpp: the index of a text file. A
-- `time_t` is its 64-bit pattern; the interval is positive.
pub mod Entries
pub mod Sound
pub mod Resume
use drlog_search.Base.{
  ℕ, zero, suc, ◌+◌, ◌-◌, ◌*◌, ◌%◌, ◌^◌, Bool, false, ◌&&◌, ◌||◌, Option, none, some, List, [], ◌∷◌,
  ◌++◌, Bytes, ◌==◌, ltb, leb, if◌then◌else◌, drop, length, is_empty,
}
use drlog_search.Text.{cut_at}
use drlog_search.Indexer.Info.{TimeIndex, FileIndex}

-- MAX_LINE_SIZE
abbrev pub max_line_size : ℕ
max_line_size = 16 * 1024

-- `a >= b` of two `time_t`.
abbrev pub at_least : ℕ → ℕ → Bool
at_least a b = leb ((b + 2 ^ 63) % 2 ^ 64) ((a + 2 ^ 63) % 2 ^ 64)

-- `ts - (ts % interval)`: the remainder of a negative time is negative.
unfoldable pub bucket_of : ℕ → ℕ → ℕ
bucket_of interval ts =
    if ltb ts (2 ^ 63)
    then ts - ts % interval
    else (2 ^ 64 - (2 ^ 64 - ts - (2 ^ 64 - ts) % interval)) % 2 ^ 64

-- The variables of the loop.
pub record Indexing : Type 0 where
  pub outputs : List TimeIndex
  pub last_recorded_bucket : ℕ
  pub lines_since_last : ℕ
  pub skipped_lines : ℕ
  pub last_line : Bytes
  pub last_offset : ℕ

-- The entries before the last, and the last.
abbrev pub push_front :
    TimeIndex → Option (List TimeIndex × TimeIndex) → Option (List TimeIndex × TimeIndex)
push_front x none = some ([], x)
push_front x (some (ys, y)) = some (x ∷ ys, y)

abbrev pub split_last : List TimeIndex → Option (List TimeIndex × TimeIndex)
split_last [] = none
split_last (x ∷ xs) = push_front x (split_last xs)

unfoldable pub time_indexes_of : Option FileIndex → List TimeIndex
time_indexes_of none = []
time_indexes_of (some index) = index.time_indexes

module _ (timestamp_of : Bytes → ℕ) (interval count_threshold : ℕ) where
  -- The condition for a new entry.
  unfoldable pub is_due : Indexing → ℕ → Bool
  is_due st bucket =
      st.last_recorded_bucket == 0
      || at_least bucket ((st.last_recorded_bucket + interval) % 2 ^ 64)
      || leb count_threshold st.lines_since_last

  -- A line with a timestamp.
  unfoldable pub record_line : Indexing → ℕ → ℕ → Indexing
  record_line st offset ts =
      let bucket = bucket_of interval ts in
      if is_due st bucket
      then record st {
        outputs = st.outputs ++ record { timestamp = bucket; offset = offset } ∷ [];
        lines_since_last = 1;
        last_recorded_bucket = bucket;
      }
      else record st { lines_since_last = st.lines_since_last + 1 }

  -- One line; the flag says `break`.
  unfoldable pub index_line : Indexing → ℕ → Bytes → Bool × Indexing
  unfolding record_line
  index_line st offset line =
      let skipping = record st { skipped_lines = st.skipped_lines + 1 } in
      let seen = record st { last_line = line; last_offset = offset } in
      if ltb max_line_size (length line)
      then (false, skipping)
      else if timestamp_of line == 0
      then (
        ltb 5000 (st.skipped_lines + 1) && is_empty st.outputs,
        record seen { skipped_lines = st.skipped_lines + 1 },
      )
      else (false, record_line seen offset (timestamp_of line))

  unfoldable pub index_cut :
      (Bytes → ℕ → Indexing → ℕ × Indexing) → ℕ → Indexing → Option (Bytes × Bytes) → ℕ × Indexing
  unfolding index_line
  index_cut next offset st none = (offset, st)
  index_cut next offset st (some (line, rest)) =
      let r = index_line st offset line in
      if r.0 then (offset, r.1) else next rest (offset + length line + 1) r.1

  -- The loop: the position where it ends, and the variables. A line with no newline is left.
  unfoldable pub index_loop : ℕ → Bytes → ℕ → Indexing → ℕ × Indexing
  unfolding index_cut
  index_loop zero rest offset st = (offset, st)
  index_loop (suc fuel) rest offset st = index_cut (index_loop fuel) offset st (cut_at b'\n' rest)

  -- The last entry, for the last line.
  unfoldable pub close_index : ℕ × Indexing → List TimeIndex
  close_index (position, st) =
      let offset = if position == 0 then 0 else st.last_offset in
      let bucket = timestamp_of st.last_line in
      if is_empty st.outputs || is_empty st.last_line || bucket == 0
      then st.outputs
      else st.outputs ++ record { timestamp = bucket; offset = offset } ∷ []

  unfoldable pub index_from : Bytes → ℕ → List TimeIndex → ℕ → List TimeIndex
  unfolding index_loop close_index
  index_from file start outputs bucket = close_index (
      index_loop (length file) (drop start file) start (record {
        outputs = outputs;
        last_recorded_bucket = bucket;
        lines_since_last = 0;
        skipped_lines = 0;
        last_line = [];
        last_offset = 0;
      }))

  unfoldable pub resume_from :
      Bytes → List TimeIndex → TimeIndex → Option (List TimeIndex × TimeIndex) → List TimeIndex
  unfolding index_from
  resume_from file init last none = index_from file 0 [] 0
  resume_from file init last (some (_, previous)) =
      if ltb last.offset (length file)
      then index_from file last.offset init previous.timestamp
      else index_from file 0 [] 0

  -- The index that is there is gone on with from its last entry, which is replaced.
  unfoldable pub resume : Bytes → Option (List TimeIndex × TimeIndex) → List TimeIndex
  unfolding resume_from
  resume file none = index_from file 0 [] 0
  resume file (some (init, last)) = resume_from file init last (split_last init)

  -- The entries in `outputs`: `none` is a file that cannot be opened or mapped.
  unfoldable pub update_file_index_txt_mmap : Option FileIndex → Option Bytes → List TimeIndex
  unfolding resume time_indexes_of
  update_file_index_txt_mmap index none = []
  update_file_index_txt_mmap index (some file) = resume file (split_last (time_indexes_of index))
