-- ===== src/Search/Gzip/Reads.antt =====
-- What a stream delivers, and the lines that `search_file_igzip` reads from it.
use drlog_search.Base.{
  ℕ, ◌+◌, ◌≤◌, ◌<◌, All, All-append, List, [], ◌++◌, append-nil, append_assoc, Bytes, ◌≡◌, refl,
  sym, ap, ◌∙◌, ◌≢◌, length,
}
use drlog_search.Util.Igzip.{ReadResult, read}
use drlog_search.Util.Split.{terminated, terminated-append}
use drlog_search.Search.Carry.{get_lines_gzip}
use drlog_search.Search.Carry.Chunks.{LacksNewline, get_lines_gzip_sound}
use drlog_search.Search.Gzip.{max_line_size}

module _ {Stream : Type 0} (igzread : Stream → ReadResult × Stream) where
  -- The reads of the search up to `end`: the lines that are cut off, the bytes that are read, and
  -- the bytes behind the last newline. They end at `end`, at the end of the stream, or where the
  -- bytes with no newline among them are more than MAX_LINE_SIZE.
  pub data Reads (end : ℕ) : ℕ → Bytes → Stream → List Bytes → Bytes → Bytes → Type 0 where
    at_end :
        {total : ℕ} {carry : Bytes} {s : Stream} → end ≤ total → Reads end total carry s [] [] carry
    exhausted :
        {total : ℕ} {carry : Bytes} {s t : Stream}
        → total < end
        → igzread s ≡ (read [], t)
        → Reads end total carry s [] [] carry
    too_long :
        {total : ℕ} {carry bytes : Bytes} {s t : Stream}
        → total < end
        → igzread s ≡ (read bytes, t)
        → bytes ≢ []
        → max_line_size < length (carry ++ bytes)
        → Reads end total carry s [] bytes (carry ++ bytes)
    next_chunk :
        {total : ℕ} {carry bytes later rest : Bytes} {s t : Stream} {lines : List Bytes}
        → total < end
        → igzread s ≡ (read bytes, t)
        → bytes ≢ []
        → length (carry ++ bytes) ≤ max_line_size
        → Reads end (total + length bytes) (get_lines_gzip (carry ++ bytes) []).0 t lines later rest
        → Reads end total carry s
            ((get_lines_gzip (carry ++ bytes) []).1 ++ lines)
            (bytes ++ later)
            rest

  -- Where reads end with some lines, bytes and a rest: the lines, each with its newline, and the
  -- rest spell what was carried over and the bytes that were read.
  pub Reads-spell :
      (end total : ℕ) (carry : Bytes) (s : Stream) (lines : List Bytes) (bytes rest : Bytes)
      → Reads end total carry s lines bytes rest
      → terminated b'\n' lines ++ rest ≡ carry ++ bytes
  Reads-spell end total carry s _ _ _ (at_end h) = sym (append-nil carry)
  Reads-spell end total carry s _ _ _ (exhausted h e) = sym (append-nil carry)
  Reads-spell end total carry s _ _ _ (too_long h e ne l) = refl
  Reads-spell end total carry s _ _ _
        (next_chunk {bytes = bytes} {later = later} {rest = rest} {lines = lines} h e ne l r) =
      let cut = get_lines_gzip (carry ++ bytes) [] in
      let (spells, _, _) = get_lines_gzip_sound (carry ++ bytes) in
      rw (terminated-append b'\n' cut.1 lines, append_assoc)
        (ap (◌++◌ (terminated b'\n' cut.1)) (Reads-spell end _ cut.0 _ lines later rest r)
          ∙ sym (append_assoc (terminated b'\n' cut.1) cut.0 later)
          ∙ ap (λ t. t ++ later) spells
          ∙ append_assoc carry bytes later)

  -- The lines that reads cut off hold no newline.
  pub Reads-lack :
      (end total : ℕ) (carry : Bytes) (s : Stream) (lines : List Bytes) (bytes rest : Bytes)
      → Reads end total carry s lines bytes rest
      → All LacksNewline lines
  Reads-lack end total carry s _ _ _ (at_end h) = tt
  Reads-lack end total carry s _ _ _ (exhausted h e) = tt
  Reads-lack end total carry s _ _ _ (too_long h e ne l) = tt
  Reads-lack end total carry s _ _ _
        (next_chunk {bytes = bytes} {later = later} {rest = rest} {lines = lines} h e ne l r) =
      let cut = get_lines_gzip (carry ++ bytes) [] in
      let (_, _, lack) = get_lines_gzip_sound (carry ++ bytes) in
      All-append LacksNewline cut.1 lines lack (Reads-lack end _ cut.0 _ lines later rest r)
