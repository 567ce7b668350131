-- ===== src/Indexer/Gzip/Sound.antt =====
-- Every entry of a gzip file's index is the place and the time of a line of what the stream gives.
use drlog_search.Base.{
  ℕ, zero, suc, ◌+◌, ◌-◌, ◌%◌, ◌^◌, ◌||◌, Option, some, List, [], ◌∷◌, ◌++◌, append_assoc, Bytes,
  ◌==◌, ltb, leb, ◌≡◌, refl, sym, ap, ◌∙◌, inl, inr, ◌≢◌, arith, length, length-append, is_empty,
  Bool-cases, Option-cases, All,
}
use drlog_search.Text.{cut_at}
use drlog_search.Text.Find.{cut_at_sound}
use drlog_search.Util.Igzip.{ReadResult, read_error, read}
use drlog_search.Indexer.Info.{TimeIndex}
use drlog_search.Indexer.Txt.{Indexing, bucket_of, at_least}
use drlog_search.Indexer.Txt.Entries.{
  LineAt, BeginsLine, Marks, Rising, Entries, Entries-concat, Entries-weaken,
}
use drlog_search.Indexer.Gzip.{
  max_carry_size, record_gzip_line, index_gzip_line, scan_cut, scan_loop, close_gzip_index,
  index_chunk, chunk_loop, update_file_index_igzip,
}

module _ (timestamp_of : Bytes → ℕ) (interval count_threshold : ℕ) where
  -- Where there are entries, the last line with a timestamp stands where it is said, behind all
  -- entries.
  abbrev Kept : Bytes → Indexing → Type 0
  Kept file st =
      st.outputs ≢ []
      → LineAt file st.last_offset st.last_line
        × (timestamp_of st.last_line ≢ 0)
        × Entries timestamp_of interval count_threshold file st.last_offset st.outputs

  record Sure (file : Bytes) (offset : ℕ) (st : Indexing) : Type 0 where
    entries : Entries timestamp_of interval count_threshold file offset st.outputs
    kept : Kept file st

  record_gzip_line-Entries :
      (file : Bytes) (st : Indexing) (offset : ℕ) (line : Bytes)
      → LineAt file offset line
      → timestamp_of line ≢ 0
      → Entries timestamp_of interval count_threshold file offset st.outputs
      → Entries timestamp_of interval count_threshold file offset
          (record_gzip_line timestamp_of interval count_threshold st offset
            (timestamp_of line)).outputs
  unfolding record_gzip_line
  record_gzip_line-Entries file st offset line at ne e =
      elim (Bool-cases (
        st.last_recorded_bucket == 0
        || at_least (bucket_of interval (timestamp_of line))
            ((st.last_recorded_bucket + interval) % 2 ^ 64)
        || leb count_threshold (st.lines_since_last + 1))) [
          | inl y ↦ rw y (
              Entries-concat timestamp_of interval count_threshold file offset st.outputs _ refl
                (record { line = line; at = at; timed = ne; time = inl refl }) e)
          | inr n ↦ rw n e
        ]

  record_gzip_line-keeps :
      (st : Indexing) (offset ts : ℕ)
      → ((record_gzip_line timestamp_of interval count_threshold st offset ts).last_line
          ≡ st.last_line)
        × ((record_gzip_line timestamp_of interval count_threshold st offset ts).last_offset
            ≡ st.last_offset)
  unfolding record_gzip_line
  record_gzip_line-keeps st offset ts = ground arith

  index_gzip_line-Sure :
      (file : Bytes) (st : Indexing) (offset : ℕ) (line : Bytes)
      → LineAt file offset line
      → Sure file offset st
      → Sure file offset (index_gzip_line timestamp_of interval count_threshold st offset line).1
  unfolding index_gzip_line
  index_gzip_line-Sure file st offset line at g = elim (Bool-cases (timestamp_of line == 0)) [
    | inl z ↦ rw z (record { entries = g.entries; kept = g.kept })
    | inr ne ↦ rw ne (
        let seen = record st { last_line = line; last_offset = offset } in
        let timed : timestamp_of line ≢ 0 = λ z. absurd (ground (arith, z, ne)) in
        let e = record_gzip_line-Entries file seen offset line at timed g.entries in
        let (k, l) = record_gzip_line-keeps seen offset (timestamp_of line) in
        record { entries = e; kept = λ _. rw (k, l) (at, timed, e) })
  ]

  -- The state between two lines: what is before the carry, the carry, and what is not yet read make
  -- the file.
  record Between (file carry unread : Bytes) (total : ℕ) (st : Indexing) : Type 0 where
    before : Bytes
    splits : file ≡ before ++ (carry ++ unread)
    begins : BeginsLine before
    counted : total ≡ length before + length carry
    sure : Sure file (length before) st

  scan_loop-Between :
      (fuel : ℕ) (file carry unread : Bytes) (total offset : ℕ) (st : Indexing)
      (b : Between file carry unread total st)
      → length b.before ≡ offset
      → Between file
          (scan_loop timestamp_of interval count_threshold fuel offset carry st).0
          unread
          total
          (scan_loop timestamp_of interval count_threshold fuel offset carry st).1
  unfolding scan_loop scan_cut
  scan_loop-Between zero file carry unread total offset st b l = b
  scan_loop-Between (suc fuel) file carry unread total offset st b l =
      elim (Option-cases (cut_at b'\n' carry)) [
        | inl e ↦ rw e b
        | inr ((line, rest), e) ↦
            let (cuts, lacks) = cut_at_sound b'\n' carry line rest e in
            let at : LineAt file offset line = record {
              before = b.before;
              after = rest ++ unread;
              splits = b.splits ∙ rw (cuts, append_assoc);
              placed = l;
              begins = b.begins;
              whole = lacks;
            } in
            let sure : Sure file offset st = rw (← l) b.sure in
            let sure' = index_gzip_line-Sure file st offset line at sure in
            let size : length carry ≡ length line + suc (length rest) =
              ap length cuts ∙ length-append line (b'\n' ∷ rest) in
            elim (Bool-cases
              (index_gzip_line timestamp_of interval count_threshold st offset line).0) [
                | inl f ↦
                    rw (e, f)
                      (record {
                        before = b.before;
                        splits = b.splits;
                        begins = b.begins;
                        counted = b.counted;
                        sure = rw l sure';
                      })
                | inr f ↦
                    let before' = b.before ++ (line ++ b'\n' ∷ []) in
                    let length' : length before' ≡ offset + length line + 1 = omega (
                      arith,
                      l,
                      length-append b.before (line ++ b'\n' ∷ []),
                      length-append line (b'\n' ∷ []),
                    ) in
                    rw (e, f)
                      (scan_loop-Between fuel file rest unread total (offset + length line + 1) _
                        (record {
                          before = before';
                          splits = b.splits ∙ rw (cuts, append_assoc, append_assoc, append_assoc);
                          begins = inr (b.before ++ line, rw append_assoc);
                          counted = omega (arith, b.counted, size, length', l);
                          sure = rw length' (record {
                            entries =
                                Entries-weaken timestamp_of interval count_threshold file offset
                                  (offset + length line + 1) _ (omega arith) sure'.entries;
                            kept = sure'.kept;
                          });
                        })
                        length')
              ]
      ]

  abbrev Marked : Bytes → List TimeIndex → Type 0
  Marked file xs =
      All (Marks timestamp_of interval count_threshold file) xs
      × Rising timestamp_of interval count_threshold xs

  close_gzip_index-Marked :
      (file : Bytes) (offset : ℕ) (st : Indexing)
      → Sure file offset st
      → Marked file (close_gzip_index timestamp_of interval count_threshold st)
  unfolding close_gzip_index
  close_gzip_index-Marked file offset st g = elim (Bool-cases (is_empty st.outputs)) [
    | inl y ↦ rw y (tt, tt)
    | inr n ↦
        let some_output : st.outputs ≢ [] = λ h. absurd (ground (arith, n, h)) in
        let (at, timed, e) = g.kept some_output in
        let last =
          Entries-concat timestamp_of interval count_threshold file st.last_offset st.outputs
            (record { timestamp = timestamp_of st.last_line; offset = st.last_offset }) refl
            (record { line = st.last_line; at = at; timed = timed; time = inr refl }) e in
        rw n (last.marks, last.rising)
  ]

  module _ {Stream : Type 0} (igzread : Stream → ReadResult × Stream) where
    -- So many reads give the bytes, and the last of them gives none or an error.
    pub data Gives : ℕ → Stream → Bytes → Type 0 where
      over : (s t : Stream) → igzread s ≡ (read [], t) → Gives 1 s []
      broken : (code : ℕ) (s t : Stream) → igzread s ≡ (read_error code, t) → Gives 1 s []
      chunk :
          (reads c : ℕ) (cs later : Bytes) (s t : Stream)
          → igzread s ≡ (read (c ∷ cs), t)
          → Gives reads t later
          → Gives (suc reads) s ((c ∷ cs) ++ later)

    record Indexed (file : Bytes) (r : Option (List TimeIndex)) : Type 0 where
      index : List TimeIndex
      ends : r ≡ some index
      marked : Marked file index

    chunk_loop-Indexed :
        (reads total : ℕ) (file carry unread : Bytes) (s : Stream) (st : Indexing)
        → Gives reads s unread
        → Between file carry unread total st
        → Indexed file
            (chunk_loop timestamp_of interval count_threshold igzread reads total carry s st)
    unfolding chunk_loop index_chunk
    chunk_loop-Indexed _ total file carry _ s st (over _ t e) b = rw e (record {
      index = close_gzip_index timestamp_of interval count_threshold st;
      ends = refl;
      marked = close_gzip_index-Marked file (length b.before) st b.sure;
    })
    chunk_loop-Indexed _ total file carry _ s st (broken code _ t e) b = rw e (record {
      index = st.outputs;
      ends = refl;
      marked = (b.sure.entries.marks, b.sure.entries.rising);
    })
    chunk_loop-Indexed _ total file carry _ s st (chunk reads c cs later _ t e g) b =
        let whole = carry ++ c ∷ cs in
        let joined : Between file whole later (total + length (c ∷ cs)) st = record {
          before = b.before;
          splits = b.splits ∙ ap (◌++◌ b.before) (sym (append_assoc carry (c ∷ cs) later));
          begins = b.begins;
          counted = omega (arith, b.counted, length-append carry (c ∷ cs));
          sure = b.sure;
        } in
        let base : length b.before ≡ total - length carry = omega (arith, b.counted) in
        let scanned =
          scan_loop-Between (length whole) file whole later (total + length (c ∷ cs))
            (total - length carry) st joined base in
        elim (Bool-cases (ltb max_carry_size (length whole))) [
          | inl y ↦
              rw (e, y)
                (record {
                  index = st.outputs;
                  ends = refl;
                  marked = (b.sure.entries.marks, b.sure.entries.rising);
                })
          | inr n ↦
              rw (e, n)
                (chunk_loop-Indexed reads (total + length (c ∷ cs)) file _ later t _ g scanned)
        ]

    -- If a number of reads give the bytes of a file and then none or an error, that much fuel
    -- suffices for the index, each of its entries marks a line of those bytes, and their offsets do
    -- not fall. An entry marks a line if the line begins at its offset, ends with a newline, has a
    -- timestamp, and the entry has that time or that of its bucket.
    pub update_file_index_igzip-Marks :
        (reads : ℕ) (file : Bytes) (s : Stream)
        → Gives reads s file
        → (xs : List TimeIndex) × (update_file_index_igzip timestamp_of interval count_threshold
              igzread reads
              (some s)
            ≡ some xs)
          × All (Marks timestamp_of interval count_threshold file) xs
          × Rising timestamp_of interval count_threshold xs
    unfolding update_file_index_igzip
    update_file_index_igzip-Marks reads file s g =
        let i = chunk_loop-Indexed reads 0 file [] file s _ g (record {
          before = [];
          splits = refl;
          begins = inl refl;
          counted = omega arith;
          sure = record {
            entries = record { marks = tt; rising = tt; up_to = tt };
            kept = λ h. absurd (h refl);
          };
        }) in
        (i.index, i.ends, i.marked.0, i.marked.1)
