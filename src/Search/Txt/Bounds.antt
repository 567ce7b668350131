-- ===== src/Search/Txt/Bounds.antt =====
-- How many lines a file gives, and that the fuel of the loop over its lines suffices.
use drlog_search.Base.{
  Bool, true, is_empty, codes, ◌⊎◌, ℕ, zero, suc, ◌+◌, ◌-◌, ◌≤◌, ◌<◌, false, Option, none, some,
  List, [], ◌∷◌, Bytes, ltb, leb, ◌≡◌, refl, sym, ap, ◌∙◌, inl, inr, arith, take, drop, length,
  length-append, leb→le, leb→lt, take-nil, length-take-le, Bool-cases, Option-cases,
}
use drlog_search.Text.{getline}
use drlog_search.Search.Context.{RegexEngine, Searcher, LogLine, Progress, SearchContext, started}
use drlog_search.Search.Exec.{exec_loop, answered, exec_searchers, hits, calm_lines}
use drlog_search.Search.Lines.{parse_line, flushed}
use drlog_search.Search.Lines.Prefix.{parse_line_keeps}
use drlog_search.Search.Txt.{
  batch_ran, rest_ran, rest_or_caught, run_batch, run_rest, txt_loop, tellg, max_batch,
  search_file_txt,
}
use drlog_search.Search.Exec.{exec_loop-calm, match_loop_room, match_loop_full}
use drlog_search.Text.Find.{getline_sound}
use drlog_search.Search.Txt.Steps.{
  lines_read, txt_loop_stop, txt_loop_next, txt_loop_small, txt_loop_batch, txt_loop_end,
  txt_loop-zero, txt_loop_break, txt_loop_throw,
}

module _ (e : RegexEngine) where
  length-hits-take1 :
      (qs : List (Searcher e.Regex)) (ls : List LogLine) → length (hits e qs (take 1 ls)) ≤ 1
  unfolding hits
  length-hits-take1 qs [] = omega arith
  length-hits-take1 qs (l ∷ ls) = ground (arith, take-nil {A = LogLine} 0)

  answered-lines : (r : Bool × List LogLine) → (answered r).1 ≡ r.1
  unfolding answered
  answered-lines (true, m) = refl
  answered-lines (false, m) = refl

  exec_searchers_below :
      (max : ℕ) (qs : List (Searcher e.Regex)) (ls m : List LogLine)
      → length m < max
      → length (exec_searchers e max qs ls m).1 ≤ max
  unfolding exec_searchers
  exec_searchers_below max [] ls m h = omega arith
  exec_searchers_below max (q ∷ qs) ls m h =
      let calm = calm_lines e (q ∷ qs) ls in
      rw
        (
          answered-lines (exec_loop e max (q ∷ qs) ls m),
          exec_loop-calm e max (q ∷ qs) ls m,
          match_loop_room e max (q ∷ qs) calm m h,
        )
        (omega (
          arith,
          length-append m (take (max - length m) (hits e (q ∷ qs) calm)),
          length-take-le (max - length m) (hits e (q ∷ qs) calm),
        ))

  exec_searchers_above :
      (max : ℕ) (qs : List (Searcher e.Regex)) (ls m : List LogLine)
      → length m ≤ max
      → length (exec_searchers e max qs ls m).1 ≤ max + 1
  unfolding exec_searchers
  exec_searchers_above max [] ls m h = omega arith
  exec_searchers_above max (q ∷ qs) ls m h = elim (Bool-cases (leb max (length m))) [
    | inl full ↦
        let calm = calm_lines e (q ∷ qs) ls in
        rw
          (
            answered-lines (exec_loop e max (q ∷ qs) ls m),
            exec_loop-calm e max (q ∷ qs) ls m,
            match_loop_full e max (q ∷ qs) calm m (leb→le _ _ full),
          )
          (omega (
            arith,
            length-append m (hits e (q ∷ qs) (take 1 calm)),
            length-hits-take1 (q ∷ qs) calm,
          ))
    | inr room ↦ let b = exec_searchers_below max (q ∷ qs) ls m (leb→lt _ _ room) in omega arith
  ]

  batch_ran_below :
      (timestamp_of : Bytes → ℕ) (ctx : SearchContext e.Regex) (p : Progress) (o : Option Bool)
      (m : List LogLine)
      → length m ≤ ctx.max_results
      → (length (batch_ran e timestamp_of ctx p (o, m)).1.matched_lines ≤ ctx.max_results)
        × ((batch_ran e timestamp_of ctx p (o, m)).0 ≡ some false
            → length (batch_ran e timestamp_of ctx p (o, m)).1.matched_lines < ctx.max_results)
  unfolding batch_ran
  batch_ran_below timestamp_of ctx p none m h = (h, λ e. absurd cc)
  batch_ran_below timestamp_of ctx p (some false) m h =
      (h, λ z. absurd (let y : ◌≡◌ {A = Option Bool} (some true) (some false) = z in cc))
  batch_ran_below timestamp_of ctx p (some true) m h = (
    h,
    λ z.
        (let y : ◌≡◌ {A = Option Bool} (some (leb ctx.max_results (length m))) (some false) = z in
          let n : leb ctx.max_results (length m) ≡ false = cc in leb→lt _ _ n),
  )

  run_batch_below :
      (timestamp_of : Bytes → ℕ) (ctx : SearchContext e.Regex) (p : Progress)
      → length p.matched_lines < ctx.max_results
      → (length (run_batch e timestamp_of ctx p).1.matched_lines ≤ ctx.max_results)
        × ((run_batch e timestamp_of ctx p).0 ≡ some false
            → length (run_batch e timestamp_of ctx p).1.matched_lines < ctx.max_results)
  unfolding run_batch
  run_batch_below timestamp_of ctx p h =
      let r = exec_searchers e ctx.max_results ctx.searchers p.log_lines p.matched_lines in
      batch_ran_below timestamp_of ctx p r.0 r.1
        (exec_searchers_below ctx.max_results ctx.searchers p.log_lines p.matched_lines h)

  rest_ran_length :
      (timestamp_of : Bytes → ℕ) (ctx : SearchContext e.Regex) (message : Bytes) (q : Progress)
      (r : Option Bool × List LogLine)
      → (rest_ran e timestamp_of ctx message q r).matched_lines ≡ r.1
  unfolding rest_ran
  rest_ran_length timestamp_of ctx message q (none, m) = refl
  rest_ran_length timestamp_of ctx message q (some true, m) = refl
  rest_ran_length timestamp_of ctx message q (some false, m) = refl

  run_rest_above :
      (timestamp_of : Bytes → ℕ) (ctx : SearchContext e.Regex) (message : Bytes) (p : Progress)
      → length p.matched_lines ≤ ctx.max_results
      → length (run_rest e timestamp_of ctx message p).matched_lines ≤ ctx.max_results + 1
  unfolding run_rest
  run_rest_above timestamp_of ctx message p h =
      let lines = flushed timestamp_of ctx.start_time ctx.end_time p in
      elim (Bool-cases (is_empty lines)) [
        | inl y ↦ rw y (omega arith)
        | inr n ↦
            rw
              (
                n,
                rest_ran_length timestamp_of ctx message _
                    (exec_searchers e ctx.max_results ctx.searchers lines p.matched_lines),
              )
              (exec_searchers_above ctx.max_results ctx.searchers lines p.matched_lines h)
      ]

  rest_or_caught_above :
      (timestamp_of : Bytes → ℕ) (ctx : SearchContext e.Regex) (message : Bytes)
      (r : Bool × Progress)
      → length r.1.matched_lines ≤ ctx.max_results
      → length (rest_or_caught e timestamp_of ctx message r).matched_lines ≤ ctx.max_results + 1
  unfolding rest_or_caught
  rest_or_caught_above timestamp_of ctx message (true, p) h = omega arith
  rest_or_caught_above timestamp_of ctx message (false, p) h =
      run_rest_above timestamp_of ctx message p h

  ran_cases : (o : Option Bool) → (o ≡ none) ⊎ ((o ≡ some true) ⊎ (o ≡ some false))
  ran_cases none = inl refl
  ran_cases (some true) = inr (inl refl)
  ran_cases (some false) = inr (inr refl)

  txt_loop_below :
      (timestamp_of : Bytes → ℕ) (ctx : SearchContext e.Regex) (fuel : ℕ) (rest : Bytes) (pos : ℕ)
      (p : Progress)
      → length p.matched_lines < ctx.max_results
      → length (txt_loop e timestamp_of ctx fuel rest pos p).1.matched_lines ≤ ctx.max_results
  txt_loop_below timestamp_of ctx zero rest pos p h =
      rw ((txt_loop-zero e timestamp_of ctx rest pos p).0) (omega arith)
  txt_loop_below timestamp_of ctx (suc fuel) rest pos p h =
      elim (Option-cases (getline b'\n' rest)) [
        | inl g ↦ rw ((txt_loop_end e timestamp_of ctx fuel rest pos p g).0) (omega arith)
        | inr ((line, rest', met), g) ↦
            let q = parse_line timestamp_of ctx.start_time ctx.end_time p line in
            let same : length q.matched_lines ≡ length p.matched_lines =
              ap length (parse_line_keeps timestamp_of ctx.start_time ctx.end_time p line).0 in
            let (below, still) = run_batch_below timestamp_of ctx q (omega arith) in
            let r = (run_batch e timestamp_of ctx q).1 in
            elim (Bool-cases (ltb ctx.index_end_pos (tellg e timestamp_of ctx pos line met))) [
              | inl t ↦
                  rw ((txt_loop_stop e timestamp_of ctx fuel rest pos p line rest' met g t).0)
                    (omega arith)
              | inr f ↦ elim (Bool-cases (leb max_batch (length q.log_lines))) [
                | inl full ↦ elim (ran_cases (run_batch e timestamp_of ctx q).0) [
                  | inl thrown ↦
                      rw
                        (txt_loop_throw e timestamp_of ctx fuel rest pos p r line rest' met g f full
                          (ap (λ b. (b, r)) thrown))
                        below
                  | inr (inl stop) ↦
                      rw
                        (txt_loop_break e timestamp_of ctx fuel rest pos p r line rest' met g f full
                          (ap (λ b. (b, r)) stop))
                        below
                  | inr (inr on) ↦
                      rw
                        (txt_loop_batch e timestamp_of ctx fuel rest pos p r line rest' met g f full
                          (ap (λ b. (b, r)) on))
                        (txt_loop_below timestamp_of ctx fuel rest' (pos + length line + 1) r
                          (still on))
                ]
                | inr small ↦
                    rw (txt_loop_small e timestamp_of ctx fuel rest pos p line rest' met g f small)
                      (txt_loop_below timestamp_of ctx fuel rest' (pos + length line + 1) q
                        (omega arith))
              ]
            ]
      ]

  -- Any two amounts of fuel above the length of the text that is left give the loop the same end,
  -- and the same lines to read.
  pub txt_loop_fuel :
      (timestamp_of : Bytes → ℕ) (ctx : SearchContext e.Regex) (f g : ℕ) (rest : Bytes) (pos : ℕ)
      (p : Progress)
      → length rest < f
      → length rest < g
      → (txt_loop e timestamp_of ctx f rest pos p ≡ txt_loop e timestamp_of ctx g rest pos p)
        × (lines_read e timestamp_of ctx f rest pos ≡ lines_read e timestamp_of ctx g rest pos)
  txt_loop_fuel timestamp_of ctx zero g rest pos p hf hg = absurd (omega arith)
  txt_loop_fuel timestamp_of ctx (suc f) zero rest pos p hf hg = absurd (omega arith)
  txt_loop_fuel timestamp_of ctx (suc f) (suc g) rest pos p hf hg =
      elim (Option-cases (getline b'\n' rest)) [
        | inl n ↦
            rw
              (
                (txt_loop_end e timestamp_of ctx f rest pos p n).0,
                (txt_loop_end e timestamp_of ctx g rest pos p n).0,
                (txt_loop_end e timestamp_of ctx f rest pos p n).1,
                (txt_loop_end e timestamp_of ctx g rest pos p n).1,
              )
              (refl, refl)
        | inr ((line, rest', met), n) ↦
            let q = parse_line timestamp_of ctx.start_time ctx.end_time p line in
            let (_, _, shorter, _) = getline_sound b'\n' rest line rest' met n in
            let later = λ (r : Progress).
              txt_loop_fuel timestamp_of ctx f g rest' (pos + length line + 1) r (omega arith)
                (omega arith) in
            let r = (run_batch e timestamp_of ctx q).1 in
            elim (Bool-cases (ltb ctx.index_end_pos (tellg e timestamp_of ctx pos line met))) [
              | inl t ↦
                  let (a, b) = txt_loop_stop e timestamp_of ctx f rest pos p line rest' met n t in
                  let (c, d) = txt_loop_stop e timestamp_of ctx g rest pos p line rest' met n t in
                  rw (a, b, c, d) (refl, refl)
              | inr u ↦ (
                elim (Bool-cases (leb max_batch (length q.log_lines))) [
                  | inl full ↦ elim (ran_cases (run_batch e timestamp_of ctx q).0) [
                    | inl thrown ↦
                        txt_loop_throw e timestamp_of ctx f rest pos p r line rest' met n u full
                          (ap (λ b. (b, r)) thrown)
                        ∙ sym (
                            txt_loop_throw e timestamp_of ctx g rest pos p r line rest' met n u full
                              (ap (λ b. (b, r)) thrown))
                    | inr (inl stop) ↦
                        txt_loop_break e timestamp_of ctx f rest pos p r line rest' met n u full
                          (ap (λ b. (b, r)) stop)
                        ∙ sym (
                            txt_loop_break e timestamp_of ctx g rest pos p r line rest' met n u full
                              (ap (λ b. (b, r)) stop))
                    | inr (inr on) ↦
                        rw
                          (
                            txt_loop_batch e timestamp_of ctx f rest pos p r line rest' met n u full
                                (ap (λ b. (b, r)) on),
                            txt_loop_batch e timestamp_of ctx g rest pos p r line rest' met n u full
                                (ap (λ b. (b, r)) on),
                          )
                          ((later r).0)
                  ]
                  | inr small ↦
                      rw
                        (
                          txt_loop_small e timestamp_of ctx f rest pos p line rest' met n u small,
                          txt_loop_small e timestamp_of ctx g rest pos p line rest' met n u small,
                        )
                        ((later q).0)
                ],
                txt_loop_next e timestamp_of ctx f rest pos p line rest' met n u
                    ∙ ap (◌∷◌ line) (later p).1
                    ∙ sym (txt_loop_next e timestamp_of ctx g rest pos p line rest' met n u),
              )
            ]
      ]

-- Where `max_results` is not zero, a text file gives one line more than `max_results` at most,
-- whether it can be opened or not.
pub search_file_txt-length :
    (e : RegexEngine) (timestamp_of : Bytes → ℕ) (ctx : SearchContext e.Regex) (file : Option Bytes)
    → 0 < ctx.max_results
    → length (search_file_txt e timestamp_of ctx file).matched_lines ≤ ctx.max_results + 1
unfolding search_file_txt
search_file_txt-length e timestamp_of ctx none h = omega arith
search_file_txt-length e timestamp_of ctx (some file) h =
    elim (Bool-cases (leb (length file) ctx.index_start_pos)) [
      | inl t ↦ rw t (omega arith)
      | inr f ↦ rw f (elim (Bool-cases (leb (length file) ctx.index_end_pos)) [
        | inl t ↦ rw t (omega arith)
        | inr g ↦ rw g (
            rest_or_caught_above e timestamp_of ctx (codes "Error reading file for reading") _ (
              txt_loop_below e timestamp_of ctx (length file + 1) (drop ctx.index_start_pos file)
                ctx.index_start_pos started h))
      ])
    ]
