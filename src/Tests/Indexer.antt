-- ===== src/Tests/Indexer.antt =====
-- src/agent/indexer.cpp on small files.
use drlog_search.Base.{
  ℕ, ◌-◌, ◌&&◌, none, some, [], ◌∷◌, Bytes, codes, leb, if◌then◌else◌, ◌≡◌, refl, All,
}
use drlog_search.Base.{ℕ, List}
use drlog_search.Util.Igzip.{ReadResult, read}
use drlog_search.Indexer.Gzip.{update_file_index_igzip}
use drlog_search.Indexer.Gzip.Sound.{over, chunk, update_file_index_igzip-Marks}
use drlog_search.Indexer.Info.{TimeIndex, FileInfo, RootPath}
use drlog_search.Indexer.Txt.{update_file_index_txt_mmap, time_indexes_of, bucket_of, is_due}
use drlog_search.Indexer.Txt.Entries.{Marks, Rising}
use drlog_search.Indexer.Txt.Resume.{update_file_index_txt_mmap-Marks}
use drlog_search.Text.{cut_at}

abbrev first_digit : Bytes → ℕ
first_digit [] = 0
first_digit (c ∷ s) = if leb b'1' c && leb c b'9' then c - b'0' else 0

abbrev file : Bytes
file = codes "1 a\nb\n2 c\n7 d\n"

update_file_index_txt_mmap-Marks_example :
    All
      (Marks first_digit 5 100 file)
      (update_file_index_txt_mmap first_digit 5 100 none (some file))
    × Rising first_digit 5 100 (update_file_index_txt_mmap first_digit 5 100 none (some file))
unfolding time_indexes_of
update_file_index_txt_mmap-Marks_example =
    update_file_index_txt_mmap-Marks first_digit 5 100 none file tt tt

-- A first bucket at zero, the bucket of the last line, and its own time.
indexes_buckets :
    update_file_index_txt_mmap first_digit 5 100 none (some (codes "6 a\nb\n7 c\n"))
    ≡ record { timestamp = 5; offset = 0 } ∷ record { timestamp = 7; offset = 6 } ∷ []
unfolding update_file_index_txt_mmap bucket_of is_due cut_at
indexes_buckets = refl

abbrev root : RootPath
root = record {
  path = codes "/l";
  prefix_pattern = [];
  path_pattern = [];
  filename_pattern = [];
  time_format_pattern = [];
  max_days = 30;
}

abbrev info : FileInfo
info = record {
  name = codes "a";
  dir = codes "/l";
  fullpath = codes "/l/a";
  size = 5;
  mtime = 9;
  file_type = codes "text";
  etag = codes "e";
  inode = 3;
  file_index = none;
  root_path = root;
}

-- A stream is the chunks that it has yet to give.
abbrev igzread : List Bytes → ReadResult × List Bytes
igzread [] = (read [], [])
igzread (c ∷ cs) = (read c, cs)

update_file_index_igzip-Marks_example :
    (xs : List TimeIndex) × (update_file_index_igzip first_digit 5 100 igzread 3
        (some (codes "6 a\n7" ∷ codes " c\n" ∷ []))
      ≡ some xs)
    × All (Marks first_digit 5 100 (codes "6 a\n7 c\n")) xs
    × Rising first_digit 5 100 xs
update_file_index_igzip-Marks_example =
    update_file_index_igzip-Marks first_digit 5 100 igzread 3 (codes "6 a\n7 c\n")
      (codes "6 a\n7" ∷ codes " c\n" ∷ [])
      (chunk 2 b'6' (codes " a\n7") (codes " c\n") _ _ refl
        (chunk 1 32 (codes "c\n") [] _ _ refl (over _ _ refl)))
