-- ===== src/Search/Txt/Whole.antt =====
-- Where the limit on results is not met, searching in batches finds what one search over all the
-- lines finds.
use drlog_search.Base.{
  Bool, codes, All, All-split, ℕ, zero, suc, ◌+◌, ◌<◌, false, none, some, List, [], ◌∷◌, ◌++◌,
  append-nil, append_assoc, Bytes, ltb, leb, ◌≡◌, refl, sym, ap, subst, ◌∙◌, inl, inr, ◌≢◌, arith,
  drop, length, length-append, lt→leb, Bool-cases, Option-cases,
}
use drlog_search.Text.{getline}
use drlog_search.Search.Context.{RegexEngine, LogLine, Progress, SearchContext, started}
use drlog_search.Search.Exec.{Calm, exec_searchers_room, hits, hits-append}
use drlog_search.Search.Lines.{
  parse_line, parse_lines, flushed, records, records_in_range, Ordered, parse_lines-records,
}
use drlog_search.Search.Lines.Prefix.{flushed-batch, parse_line_keeps}
use drlog_search.Search.Txt.{
  batch_ran, rest_ran, rest_or_caught, run_batch, run_rest, txt_loop, tellg, max_batch,
  search_file_txt,
}
use drlog_search.Search.Txt.Steps.{
  lines_read, txt_loop_stop, txt_loop_next, txt_loop_small, txt_loop_batch, txt_loop_end,
  txt_loop-zero,
}

module _ (e : RegexEngine) (timestamp_of : Bytes → ℕ) (ctx : SearchContext e.Regex) where
  abbrev pub waiting : Progress → List LogLine
  waiting = flushed timestamp_of ctx.start_time ctx.end_time

  abbrev pub reads : Progress → List Bytes → Progress
  reads = parse_lines timestamp_of ctx.start_time ctx.end_time

  -- What has been found, and what there is to find in the lines to come.
  abbrev pub found : Progress → List Bytes → List LogLine
  found p lines = p.matched_lines ++ hits e ctx.searchers (waiting (reads p lines))

  -- The file is searched to its end, with no error.
  abbrev pub Finds : List LogLine → Progress → Type 0
  Finds ls p = (p.matched_lines ≡ ls) × (p.status ≡ 0)

  pub run_rest-Finds :
      (message : Bytes) (p : Progress)
      → ctx.searchers ≢ []
      → p.status ≡ 0
      → All (Calm e ctx.searchers) (waiting p)
      → length (found p []) < ctx.max_results
      → Finds (found p []) (run_rest e timestamp_of ctx message p)
  unfolding run_rest rest_ran parse_lines hits
  run_rest-Finds message p ne s c h = ground (
    arith,
    s,
    exec_searchers_room e ctx.max_results ctx.searchers (waiting p) p.matched_lines ne c h,
    append-nil p.matched_lines,
  )

  pub run_batch_room :
      (p : Progress)
      → ctx.searchers ≢ []
      → All (Calm e ctx.searchers) p.log_lines
      → length (p.matched_lines ++ hits e ctx.searchers p.log_lines) < ctx.max_results
      → run_batch e timestamp_of ctx p ≡ (
        some false,
        record p {
          matched_lines = p.matched_lines ++ hits e ctx.searchers p.log_lines;
          log_lines = [];
        },
      )
  unfolding run_batch batch_ran
  run_batch_room p ne c h =
      rw (exec_searchers_room e ctx.max_results ctx.searchers p.log_lines p.matched_lines ne c h)
        (rw (lt→leb _ _ h))

  -- Reading on does not change what there is to find.
  pub found-line :
      (p : Progress) (line : Bytes) (lines : List Bytes)
      → found p (line ∷ lines)
        ≡ found (parse_line timestamp_of ctx.start_time ctx.end_time p line) lines
  unfolding parse_lines
  found-line p line lines =
      rw ((parse_line_keeps timestamp_of ctx.start_time ctx.end_time p line).0)

  abbrev pub batched : Progress → Progress
  batched p = record p {
    matched_lines = p.matched_lines ++ hits e ctx.searchers p.log_lines;
    log_lines = [];
  }

  pub found-batch : (p : Progress) (lines : List Bytes) → found p lines ≡ found (batched p) lines
  found-batch p lines = rw (
    flushed-batch timestamp_of ctx.start_time ctx.end_time lines (batched p).matched_lines p,
    hits-append e ctx.searchers,
    append_assoc,
  )

  pub found-fits :
      (p : Progress) (lines : List Bytes)
      → length (found p lines) < ctx.max_results
      → length (p.matched_lines ++ hits e ctx.searchers p.log_lines) < ctx.max_results
  found-fits p lines h =
      let g : length (found p lines) ≡ length (found (batched p) lines) =
        ap length (found-batch p lines) in
      let l =
        length-append (p.matched_lines ++ hits e ctx.searchers p.log_lines)
          (hits e ctx.searchers (waiting (reads (batched p) lines))) in
      omega (arith, g, l, h)

  -- No searcher throws on what waits to be searched, now or behind the lines to come.
  abbrev pub Quiet : Progress → List Bytes → Type 0
  Quiet p lines = All (Calm e ctx.searchers) (waiting (reads p lines))

  pub Quiet-line :
      (p : Progress) (line : Bytes) (lines : List Bytes)
      → Quiet p (line ∷ lines)
      → Quiet (parse_line timestamp_of ctx.start_time ctx.end_time p line) lines
  unfolding parse_lines
  Quiet-line p line lines c = c

  pub Quiet-batch :
      (p : Progress) (lines : List Bytes)
      → Quiet p lines
      → All (Calm e ctx.searchers) p.log_lines × Quiet (batched p) lines
  Quiet-batch p lines c =
      All-split (Calm e ctx.searchers) p.log_lines (waiting (reads (batched p) lines)) (
        subst (All (Calm e ctx.searchers))
          (flushed-batch timestamp_of ctx.start_time ctx.end_time lines (batched p).matched_lines p)
          c)

  abbrev caught_message : Bytes
  caught_message = codes "Error reading file for reading"

  -- The two sides of `txt_loop-Finds`, with the lines and the state that the loop leaves.
  abbrev pub Reaches : Progress → List Bytes → Bool × Progress → Type 0
  Reaches p lines q =
      Quiet p lines
      → length (found p lines) < ctx.max_results
      → Finds (found p lines) (rest_or_caught e timestamp_of ctx caught_message q)

  reach_end : (p : Progress) → ctx.searchers ≢ [] → p.status ≡ 0 → Reaches p [] (false, p)
  unfolding rest_or_caught
  reach_end p ne s c h = run_rest-Finds caught_message p ne s (unfold parse_lines in c) h

  reach_line :
      (p : Progress) (line : Bytes) (lines : List Bytes) (q : Bool × Progress)
      → Reaches (parse_line timestamp_of ctx.start_time ctx.end_time p line) lines q
      → Reaches p (line ∷ lines) q
  reach_line p line lines q later c =
      subst
        (λ l.
          length l < ctx.max_results → Finds l (rest_or_caught e timestamp_of ctx caught_message q))
        (sym (found-line p line lines)) (later (Quiet-line p line lines c))

  reach_batch :
      (p : Progress) (lines : List Bytes) (q : Bool × Progress)
      → Reaches (batched p) lines q
      → Reaches p lines q
  reach_batch p lines q later c =
      subst
        (λ l.
          length l < ctx.max_results → Finds l (rest_or_caught e timestamp_of ctx caught_message q))
        (sym (found-batch p lines)) (later (Quiet-batch p lines c).1)

  txt_loop-Finds :
      (fuel : ℕ) (rest : Bytes) (pos : ℕ) (p : Progress)
      → ctx.searchers ≢ []
      → p.status ≡ 0
      → Reaches p
          (lines_read e timestamp_of ctx fuel rest pos)
          (txt_loop e timestamp_of ctx fuel rest pos p)
  txt_loop-Finds zero rest pos p ne s =
      rw
        (
          (txt_loop-zero e timestamp_of ctx rest pos p).0,
          (txt_loop-zero e timestamp_of ctx rest pos p).1,
        )
        (reach_end p ne s)
  txt_loop-Finds (suc fuel) rest pos p ne s = elim (Option-cases (getline b'\n' rest)) [
    | inl g ↦
        rw
          (
            (txt_loop_end e timestamp_of ctx fuel rest pos p g).0,
            (txt_loop_end e timestamp_of ctx fuel rest pos p g).1,
          )
          (reach_end p ne s)
    | inr ((line, rest', met), g) ↦
        let q = parse_line timestamp_of ctx.start_time ctx.end_time p line in
        let ok : q.status ≡ 0 =
          (parse_line_keeps timestamp_of ctx.start_time ctx.end_time p line).1 ∙ s in
        let pos' = pos + length line + 1 in
        elim (Bool-cases (ltb ctx.index_end_pos (tellg e timestamp_of ctx pos line met))) [
          | inl t ↦
              let (l, r) = txt_loop_stop e timestamp_of ctx fuel rest pos p line rest' met g t in
              rw (l, r) (reach_line p line [] (false, q) (reach_end q ne ok))
          | inr f ↦
              rw (txt_loop_next e timestamp_of ctx fuel rest pos p line rest' met g f)
                (elim (Bool-cases (leb max_batch (length q.log_lines))) [
                  | inl full ↦ λ c h.
                      let ls = lines_read e timestamp_of ctx fuel rest' pos' in
                      let h' = subst (λ l. length l < ctx.max_results) (found-line p line ls) h in
                      let room =
                        run_batch_room q ne (Quiet-batch q ls (Quiet-line p line ls c)).0
                          (found-fits q ls h') in
                      let step =
                        txt_loop_batch e timestamp_of ctx fuel rest pos p (batched q) line rest' met
                          g f full room in
                      rw step (
                        reach_line p line ls _
                          (reach_batch q ls _ (txt_loop-Finds fuel rest' pos' (batched q) ne ok)) c
                          h)
                  | inr small ↦
                      rw
                        (txt_loop_small e timestamp_of ctx fuel rest pos p line rest' met g f small)
                        (reach_line p line _ _ (txt_loop-Finds fuel rest' pos' q ne ok))
                ])
        ]
  ]

-- A text file that can be opened, with its index bounds inside it, with a searcher at least, whose
-- lines from the start position up to the first that ends behind the end position are in the order
-- of time, where an empty line has no timestamp, where no search for a regular expression ends with
-- an uncaught exception on a record in the time range, and with fewer hits than `max_results`: the
-- search finds the records of those lines that lie in the time range and that every searcher finds,
-- each once and in their order, and reports no error.
pub search_file_txt-records :
    (e : RegexEngine) (timestamp_of : Bytes → ℕ) (ctx : SearchContext e.Regex) (file : Bytes)
    → ctx.searchers ≢ []
    → ctx.index_start_pos < length file
    → ctx.index_end_pos < length file
    → timestamp_of [] ≡ 0
    → Ordered timestamp_of ctx.start_time ctx.end_time 0 (
        lines_read e timestamp_of ctx
          (length file + 1)
          (drop ctx.index_start_pos file)
          ctx.index_start_pos)
    → All (Calm e ctx.searchers) (
        records_in_range timestamp_of ctx.start_time ctx.end_time (
          records timestamp_of ctx.start_time ctx.end_time none (
            lines_read e timestamp_of ctx
              (length file + 1)
              (drop ctx.index_start_pos file)
              ctx.index_start_pos)))
    → length (
        hits e ctx.searchers (
          records_in_range timestamp_of ctx.start_time ctx.end_time (
            records timestamp_of ctx.start_time ctx.end_time none (
              lines_read e timestamp_of ctx
                (length file + 1)
                (drop ctx.index_start_pos file)
                ctx.index_start_pos))))
      < ctx.max_results
    → ((search_file_txt e timestamp_of ctx (some file)).matched_lines
        ≡ hits e ctx.searchers (
            records_in_range timestamp_of ctx.start_time ctx.end_time (
              records timestamp_of ctx.start_time ctx.end_time none (
                lines_read e timestamp_of ctx
                  (length file + 1)
                  (drop ctx.index_start_pos file)
                  ctx.index_start_pos))))
      × ((search_file_txt e timestamp_of ctx (some file)).status ≡ 0)
unfolding search_file_txt
search_file_txt-records e timestamp_of ctx file ne inside end z o c h =
    let lines =
      lines_read e timestamp_of ctx (length file + 1) (drop ctx.index_start_pos file)
        ctx.index_start_pos in
    let all = parse_lines-records timestamp_of ctx.start_time ctx.end_time lines z o in
    rw (lt→leb _ _ inside, lt→leb _ _ end, sym all)
      (txt_loop-Finds e timestamp_of ctx (length file + 1) (drop ctx.index_start_pos file)
        ctx.index_start_pos started ne refl (rw all c) (rw all h))
