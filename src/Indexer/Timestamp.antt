-- ===== src/Indexer/Timestamp.antt =====
-- `get_timestamp_from_log_line` of src/agent/indexer.cpp. Boost.Regex and the date library are
-- parameters: the first match of a pattern in a text, and the seconds that a format reads from a
-- text.
use drlog_search.Base.{ℕ, ◌+◌, ◌-◌, ◌%◌, ◌^◌, Option, none, some, List, [], ◌∷◌, Bytes, codes, take}

pub record TimeFormat : Type 0 where
  pub format : Bytes
  pub regex_pattern : Bytes

-- `time_formats_`, as the constructor sets it.
abbrev pub time_formats : List TimeFormat
time_formats =
    record {
      format = codes "%Y-%m-%d %H:%M:%S";
      regex_pattern = codes "\\d{4}-\\d{2}-\\d{2} \\d{2}:\\d{2}:\\d{2}";
    }
    ∷ record {
      format = codes "%Y/%m/%d %H:%M:%S";
      regex_pattern = codes "\\d{4}/\\d{2}/\\d{2} \\d{2}:\\d{2}:\\d{2}";
    }
    ∷ record {
      format = codes "%Y-%m-%dT%H:%M:%S";
      regex_pattern = codes "\\d{4}-\\d{2}-\\d{2}T\\d{2}:\\d{2}:\\d{2}";
    }
    ∷ record {
      format = codes "%d/%b/%Y:%H:%M:%S";
      regex_pattern = codes "\\d{2}/[A-Za-z]{3}/\\d{4}:\\d{2}:\\d{2}:\\d{2}";
    }
    ∷ record {
      format = codes "%b %d %H:%M:%S";
      regex_pattern = codes "[A-Za-z]{3} \\d{2} \\d{2}:\\d{2}:\\d{2}";
    }
    ∷ []

module _ (regex_search : Bytes → Bytes → Option Bytes) (parse : Bytes → Bytes → Option ℕ) where
  -- The count of seconds of a format, where its pattern matches and the match is read.
  unfoldable pub read_time : Bytes → Option Bytes → Option ℕ
  read_time format none = none
  read_time format (some matched_time) = parse format matched_time

  -- The pattern of the difference's 64 bits.
  unfoldable pub less_offset : ℕ → ℕ → Option ℕ → ℕ
  less_offset tz_offset later none = later
  less_offset tz_offset later (some t) = (t + 2 ^ 64 - tz_offset) % 2 ^ 64

  unfoldable pub time_loop : ℕ → Bytes → List TimeFormat → ℕ
  unfolding less_offset read_time
  time_loop tz_offset prefix [] = 0
  time_loop tz_offset prefix (tf ∷ formats) =
      less_offset tz_offset (time_loop tz_offset prefix formats)
        (read_time tf.format (regex_search tf.regex_pattern prefix))

  unfoldable pub get_timestamp_from_log_line : ℕ → Bytes → ℕ
  unfolding time_loop
  get_timestamp_from_log_line tz_offset line = time_loop tz_offset (take 50 line) time_formats
