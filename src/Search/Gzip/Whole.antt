-- ===== src/Search/Gzip/Whole.antt =====
-- A gzip file is searched like a text.
use drlog_search.Base.{
  All, codes, ◌-◌, drop, drop-append_inside, ℕ, zero, suc, ◌+◌, ◌≤◌, ◌<◌, Bool, true, false, none,
  some, List, [], ◌∷◌, ◌++◌, Bytes, ltb, leb, if◌then◌else◌, ◌≡◌, refl, subst, lt→leb, lt→ltb, sym,
  ◌∙◌, ◌⊎◌, inl, inr, ◌≢◌, arith, length, length-append, is_empty, Bool-cases,
}
use drlog_search.Util.Igzip.{ReadResult, read}
use drlog_search.Search.Context.{RegexEngine, Progress, SearchContext, started}
use drlog_search.Search.Exec.{Calm, exec_searchers_room, hits}
use drlog_search.Search.Lines.{
  parse_lines, parse_line, records, records_in_range, Ordered, parse_lines-records,
}
use drlog_search.Search.Lines.Prefix.{parse_line_keeps}
use drlog_search.Search.Carry.{get_lines_gzip}
use drlog_search.Search.Txt.{max_batch}
use drlog_search.Search.Txt.Whole.{
  Quiet, Quiet-line, Quiet-batch, found, Finds, batched, run_rest-Finds, found-line, found-batch,
  found-fits,
}
use drlog_search.Search.Gzip.{
  max_line_size, positioned, skip_loop, full_ran, full_batch, lines_loop, read_chunk, read_loop,
  read_rest, read_from, search_file_igzip,
}
use drlog_search.Search.Gzip.Position.{Passes, Passes-reach, skip_loop-Passes}
use drlog_search.Util.Split.{terminated}
use drlog_search.Search.Carry.Chunks.{LacksNewline}
use drlog_search.Search.Gzip.Reads.{
  Reads-spell, Reads-lack, Reads, at_end, exhausted, too_long, next_chunk,
}

is_empty-ne : (s : Bytes) → s ≢ [] → is_empty s ≡ false
is_empty-ne [] h = absurd (h refl)
is_empty-ne (c ∷ s) h = refl

length_pos : (s : Bytes) → s ≢ [] → 0 < length s
length_pos [] h = absurd (h refl)
length_pos (c ∷ s) h = omega arith

module _ (e : RegexEngine) (timestamp_of : Bytes → ℕ) (ctx : SearchContext e.Regex) where
  full_batch_room :
      (p : Progress)
      → ctx.searchers ≢ []
      → All (Calm e ctx.searchers) p.log_lines
      → length (p.matched_lines ++ hits e ctx.searchers p.log_lines) < ctx.max_results
      → full_batch e timestamp_of ctx p
        ≡ (false, if leb max_batch (length p.log_lines) then batched e timestamp_of ctx p else p)
  unfolding full_batch full_ran
  full_batch_room p ne c h = elim (Bool-cases (leb max_batch (length p.log_lines))) [
    | inl y ↦
        rw (
          y,
          exec_searchers_room e ctx.max_results ctx.searchers p.log_lines p.matched_lines ne c h,
        )
    | inr n ↦ rw n
  ]

  -- Behind the lines of a chunk, there is as much to find as before them.
  record Keeps (lines more : List Bytes) (p : Progress) (r : Bool × Progress) : Type 0 where
    goes_on : r.0 ≡ false
    no_error : r.1.status ≡ 0
    quiet : Quiet e timestamp_of ctx r.1 more
    same : found e timestamp_of ctx r.1 more ≡ found e timestamp_of ctx p (lines ++ more)

  lines_loop-next :
      (line : Bytes) (lines : List Bytes) (p r : Progress)
      → full_batch e timestamp_of ctx (parse_line timestamp_of ctx.start_time ctx.end_time p line)
        ≡ (false, r)
      → length r.matched_lines < ctx.max_results
      → lines_loop e timestamp_of ctx (line ∷ lines) p ≡ lines_loop e timestamp_of ctx lines r
  unfolding lines_loop
  lines_loop-next line lines p r b h = rw (b, lt→leb _ _ h)

  lines_loop-Keeps :
      (lines more : List Bytes) (p : Progress)
      → ctx.searchers ≢ []
      → p.status ≡ 0
      → Quiet e timestamp_of ctx p (lines ++ more)
      → length (found e timestamp_of ctx p (lines ++ more)) < ctx.max_results
      → Keeps lines more p (lines_loop e timestamp_of ctx lines p)
  lines_loop-Keeps [] more p ne s c h =
      unfold lines_loop in record { goes_on = refl; no_error = s; quiet = c; same = refl }
  lines_loop-Keeps (line ∷ lines) more p ne s c h =
      let q = parse_line timestamp_of ctx.start_time ctx.end_time p line in
      let on = found-line e timestamp_of ctx p line (lines ++ more) in
      let h' = subst (λ l. length l < ctx.max_results) on h in
      let fits = found-fits e timestamp_of ctx q (lines ++ more) h' in
      let ok : q.status ≡ 0 =
        (parse_line_keeps timestamp_of ctx.start_time ctx.end_time p line).1 ∙ s in
      let c' = Quiet-line e timestamp_of ctx p line (lines ++ more) c in
      let (now, behind) = Quiet-batch e timestamp_of ctx q (lines ++ more) c' in
      let room = full_batch_room q ne now fits in
      let appended = length-append q.matched_lines (hits e ctx.searchers q.log_lines) in
      elim (Bool-cases (leb max_batch (length q.log_lines))) [
        | inl y ↦
            let step =
              lines_loop-next line lines p (batched e timestamp_of ctx q) (room ∙ rw y) fits in
            let drop = found-batch e timestamp_of ctx q (lines ++ more) in
            let k =
              lines_loop-Keeps lines more (batched e timestamp_of ctx q) ne ok behind
                (subst (λ l. length l < ctx.max_results) drop h') in
            rw step (record {
              goes_on = k.goes_on;
              no_error = k.no_error;
              quiet = k.quiet;
              same = k.same ∙ sym drop ∙ sym on;
            })
        | inr n ↦
            let step = lines_loop-next line lines p q (room ∙ rw n) (omega arith) in
            let k = lines_loop-Keeps lines more q ne ok c' h' in
            rw step (record {
              goes_on = k.goes_on;
              no_error = k.no_error;
              quiet = k.quiet;
              same = k.same ∙ sym on;
            })
      ]

  module _ {Stream : Type 0} (igzread : Stream → ReadResult × Stream) where
    read_loop-end :
        (fuel total : ℕ) (carry : Bytes) (s : Stream) (p : Progress)
        → ctx.index_end_pos ≤ total
        → read_loop igzread e timestamp_of ctx fuel total carry s p ≡ (false, p)
    unfolding read_loop
    read_loop-end zero total carry s p h = refl
    read_loop-end (suc fuel) total carry s p h =
        let y : leb ctx.index_end_pos total ≡ true = ground arith in rw y

    read_loop-stop :
        (fuel total : ℕ) (carry bytes : Bytes) (s t : Stream) (p : Progress)
        → total < ctx.index_end_pos
        → igzread s ≡ (read bytes, t)
        → (bytes ≡ []) ⊎ (max_line_size < length (carry ++ bytes))
        → read_loop igzread e timestamp_of ctx (suc fuel) total carry s p ≡ (false, p)
    unfolding read_loop read_chunk
    read_loop-stop fuel total carry bytes s t p h r (inl z) = rw (lt→leb _ _ h, r, z)
    read_loop-stop fuel total carry bytes s t p h r (inr l) =
        rw (lt→leb _ _ h, r, lt→ltb _ _ l) (ground arith)

    read_loop-next :
        (fuel total : ℕ) (carry bytes : Bytes) (s t : Stream) (p : Progress)
        → total < ctx.index_end_pos
        → igzread s ≡ (read bytes, t)
        → bytes ≢ []
        → length (carry ++ bytes) ≤ max_line_size
        → (lines_loop e timestamp_of ctx (get_lines_gzip (carry ++ bytes) []).1 p).0 ≡ false
        → read_loop igzread e timestamp_of ctx (suc fuel) total carry s p
          ≡ read_loop igzread e timestamp_of ctx fuel
              (total + length bytes)
              (get_lines_gzip (carry ++ bytes) []).0
              t
              (lines_loop e timestamp_of ctx (get_lines_gzip (carry ++ bytes) []).1 p).1
    unfolding read_loop read_chunk
    read_loop-next fuel total carry bytes s t p h r ne l g =
        let small : ltb max_line_size (length (carry ++ bytes)) ≡ false = ground arith in
        rw (lt→leb _ _ h, r, is_empty-ne bytes ne, small, g)

    read_loop-Finds :
        (fuel total : ℕ) (carry bytes rest : Bytes) (s : Stream) (lines : List Bytes) (p : Progress)
        → Reads igzread ctx.index_end_pos total carry s lines bytes rest
        → ctx.index_end_pos ≤ total + fuel
        → ctx.searchers ≢ []
        → p.status ≡ 0
        → Quiet e timestamp_of ctx p lines
        → length (found e timestamp_of ctx p lines) < ctx.max_results
        → Finds e timestamp_of ctx (found e timestamp_of ctx p lines) (
            read_rest e timestamp_of ctx
              (read_loop igzread e timestamp_of ctx fuel total carry s p))
    unfolding read_rest
    read_loop-Finds fuel total carry _ _ s _ p (at_end h) f ne st calm room =
        rw (read_loop-end fuel total carry s p h) (
          run_rest-Finds e timestamp_of ctx (codes "Error processing gzip file") p ne st
            (unfold parse_lines in calm) room)
    read_loop-Finds zero total carry _ _ s _ p (exhausted {t = t} h r) f ne st calm room =
        absurd (omega arith)
    read_loop-Finds (suc fuel) total carry _ _ s _ p (exhausted {t = t} h r) f ne st calm room =
        rw (read_loop-stop fuel total carry [] s t p h r (inl refl)) (
          run_rest-Finds e timestamp_of ctx (codes "Error processing gzip file") p ne st
            (unfold parse_lines in calm) room)
    read_loop-Finds zero total carry _ _ s _ p (too_long {bytes = bytes} {t = t} h r nb l) f ne st
          calm room =
        absurd (omega arith)
    read_loop-Finds (suc fuel) total carry _ _ s _ p (too_long {bytes = bytes} {t = t} h r nb l) f
          ne st calm room =
        rw (read_loop-stop fuel total carry bytes s t p h r (inr l)) (
          run_rest-Finds e timestamp_of ctx (codes "Error processing gzip file") p ne st
            (unfold parse_lines in calm) room)
    read_loop-Finds zero total carry _ _ s _ p
          (next_chunk {bytes = bytes} {t = t} {lines = lines} h r nb l rs) f ne st calm room =
        absurd (omega arith)
    read_loop-Finds (suc fuel) total carry _ _ s _ p
          (next_chunk {bytes = bytes} {later = later} {rest = rest} {t = t} {lines = lines} h r nb l
            rs)
          f ne st calm room =
        let cut = get_lines_gzip (carry ++ bytes) [] in
        let k = lines_loop-Keeps cut.1 lines p ne st calm room in
        let pos : 0 < length bytes = length_pos bytes nb in
        rw (read_loop-next fuel total carry bytes s t p h r nb l k.goes_on) (
          subst
            (λ ls. Finds e timestamp_of ctx ls (
              read_rest e timestamp_of ctx (
                read_loop igzread e timestamp_of ctx fuel (total + length bytes) cut.0 t
                  (lines_loop e timestamp_of ctx cut.1 p).1)))
            k.same
            (read_loop-Finds fuel (total + length bytes) cut.0 later rest t lines
              (lines_loop e timestamp_of ctx cut.1 p).1 rs (omega arith) ne k.no_error k.quiet
              (subst (λ ls. length ls < ctx.max_results) (sym k.same) room)))

-- A gzip file whose stream passes the start position with reads that fill the buffer or reach it,
-- and is then read up to the end position: the lines that the reads cut off hold no newline, and
-- with the rest they spell the bytes of the stream from the start position on. With a searcher at
-- least, with those lines in the order of time and an empty line without a timestamp, where no
-- search for a regular expression ends with an uncaught exception on a record in the time range,
-- and with fewer hits than `max_results`, the search finds the records of those lines that lie in
-- the time range and that every searcher finds, and reports no error.
pub search_file_igzip-records :
    {Stream : Type 0} (igzread : Stream → ReadResult × Stream) (e : RegexEngine)
    (timestamp_of : Bytes → ℕ) (ctx : SearchContext e.Regex) (s t : Stream)
    (passed bytes rest : Bytes) (lines : List Bytes)
    → Passes igzread ctx.index_start_pos 0 s passed t
    → Reads igzread ctx.index_end_pos
        (length passed)
        (drop ctx.index_start_pos passed)
        t
        lines
        bytes
        rest
    → ctx.searchers ≢ []
    → timestamp_of [] ≡ 0
    → Ordered timestamp_of ctx.start_time ctx.end_time 0 lines
    → All (Calm e ctx.searchers) (
        records_in_range timestamp_of ctx.start_time ctx.end_time
          (records timestamp_of ctx.start_time ctx.end_time none lines))
    → length (
        hits e ctx.searchers (
          records_in_range timestamp_of ctx.start_time ctx.end_time
            (records timestamp_of ctx.start_time ctx.end_time none lines)))
      < ctx.max_results
    → (terminated b'\n' lines ++ rest ≡ drop ctx.index_start_pos (passed ++ bytes))
      × All LacksNewline lines
      × ((search_file_igzip igzread e timestamp_of ctx (some s)).matched_lines
          ≡ hits e ctx.searchers (
              records_in_range timestamp_of ctx.start_time ctx.end_time
                (records timestamp_of ctx.start_time ctx.end_time none lines)))
      × ((search_file_igzip igzread e timestamp_of ctx (some s)).status ≡ 0)
unfolding search_file_igzip read_from
search_file_igzip-records igzread e timestamp_of ctx s t passed bytes rest lines p r ne z o c h =
    let start = ctx.index_start_pos in
    let carry = drop start passed in
    let all = parse_lines-records timestamp_of ctx.start_time ctx.end_time lines z o in
    let spelled =
      Reads-spell igzread ctx.index_end_pos (length passed) carry t lines bytes rest r in
    let reach = Passes-reach igzread start 0 s passed t p in
    let from_start : 0 + length passed ≡ length passed = omega arith in
    let same : start - 0 ≡ start = omega arith in
    let placed : skip_loop igzread start start 0 s ≡ positioned (length passed) carry t =
      skip_loop-Passes igzread start start 0 s passed t (omega arith) p
      ∙ rw (from_start, same) refl in
    let finds : Finds e timestamp_of ctx
        (hits e ctx.searchers (
          records_in_range timestamp_of ctx.start_time ctx.end_time
            (records timestamp_of ctx.start_time ctx.end_time none lines)))
        (search_file_igzip igzread e timestamp_of ctx (some s)) =
      rw (placed, sym all)
        (read_loop-Finds e timestamp_of ctx igzread ctx.index_end_pos (length passed) carry bytes
          rest t lines started r (omega arith) ne refl (rw all c) (rw all h)) in
    (
      spelled ∙ sym (drop-append_inside start passed bytes (omega arith)),
      Reads-lack igzread ctx.index_end_pos (length passed) carry t lines bytes rest r,
      finds.0,
      finds.1,
    )
