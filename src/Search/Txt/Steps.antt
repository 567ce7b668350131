-- ===== src/Search/Txt/Steps.antt =====
-- The rounds of the loop over the lines of a file.
use drlog_search.Base.{
  ℕ, zero, suc, ◌+◌, Bool, true, false, none, some, List, [], ◌∷◌, Bytes, ltb, leb, if◌then◌else◌,
  ◌≡◌, refl, arith, length,
}
use drlog_search.Text.{getline}
use drlog_search.Search.Context.{RegexEngine, Progress, SearchContext}
use drlog_search.Search.Lines.{parse_line}
use drlog_search.Search.Txt.{run_batch, txt_loop, tellg, max_batch}

module _ (e : RegexEngine) (timestamp_of : Bytes → ℕ) (ctx : SearchContext e.Regex) where
  -- The lines of the window: from the position on, up to the first that ends behind
  -- `index_end_pos`.
  unfoldable pub lines_read : ℕ → Bytes → ℕ → List Bytes
  lines_read zero rest pos = []
  lines_read (suc fuel) rest pos = elim (getline b'\n' rest) [
    | none ↦ []
    | some (line, rest', met) ↦
        let later = lines_read fuel rest' (pos + length line + 1) in
        line ∷ (if ltb ctx.index_end_pos (tellg e timestamp_of ctx pos line met) then [] else later)
  ]

  -- One round of the loop.
  pub txt_loop_stop :
      (fuel : ℕ) (rest : Bytes) (pos : ℕ) (p : Progress) (line rest' : Bytes) (met : Bool)
      → getline b'\n' rest ≡ some (line, rest', met)
      → ltb ctx.index_end_pos (tellg e timestamp_of ctx pos line met) ≡ true
      → (txt_loop e timestamp_of ctx (suc fuel) rest pos p
          ≡ (false, parse_line timestamp_of ctx.start_time ctx.end_time p line))
        × (lines_read (suc fuel) rest pos ≡ line ∷ [])
  unfolding txt_loop lines_read
  txt_loop_stop fuel rest pos p line rest' met g t = (ground (arith, g, t), ground (arith, g, t))

  pub txt_loop_next :
      (fuel : ℕ) (rest : Bytes) (pos : ℕ) (p : Progress) (line rest' : Bytes) (met : Bool)
      → getline b'\n' rest ≡ some (line, rest', met)
      → ltb ctx.index_end_pos (tellg e timestamp_of ctx pos line met) ≡ false
      → (lines_read (suc fuel) rest pos ≡ line ∷ lines_read fuel rest' (pos + length line + 1))
  unfolding lines_read
  txt_loop_next fuel rest pos p line rest' met g t = ground (arith, g, t)

  pub txt_loop_small :
      (fuel : ℕ) (rest : Bytes) (pos : ℕ) (p : Progress) (line rest' : Bytes) (met : Bool)
      → getline b'\n' rest ≡ some (line, rest', met)
      → ltb ctx.index_end_pos (tellg e timestamp_of ctx pos line met) ≡ false
      → leb max_batch
          (length (parse_line timestamp_of ctx.start_time ctx.end_time p line).log_lines)
        ≡ false
      → txt_loop e timestamp_of ctx (suc fuel) rest pos p
        ≡ txt_loop e timestamp_of ctx fuel rest'
            (pos + length line + 1)
            (parse_line timestamp_of ctx.start_time ctx.end_time p line)
  unfolding txt_loop
  txt_loop_small fuel rest pos p line rest' met g t b = ground (arith, g, t, b)

  pub txt_loop_batch :
      (fuel : ℕ) (rest : Bytes) (pos : ℕ) (p r : Progress) (line rest' : Bytes) (met : Bool)
      → getline b'\n' rest ≡ some (line, rest', met)
      → ltb ctx.index_end_pos (tellg e timestamp_of ctx pos line met) ≡ false
      → leb max_batch
          (length (parse_line timestamp_of ctx.start_time ctx.end_time p line).log_lines)
        ≡ true
      → run_batch e timestamp_of ctx (parse_line timestamp_of ctx.start_time ctx.end_time p line)
        ≡ (some false, r)
      → txt_loop e timestamp_of ctx (suc fuel) rest pos p
        ≡ txt_loop e timestamp_of ctx fuel rest' (pos + length line + 1) r
  unfolding txt_loop
  txt_loop_batch fuel rest pos p r line rest' met g t b s = ground (arith, g, t, b, s)

  pub txt_loop_end :
      (fuel : ℕ) (rest : Bytes) (pos : ℕ) (p : Progress)
      → getline b'\n' rest ≡ none
      → (txt_loop e timestamp_of ctx (suc fuel) rest pos p ≡ (false, p))
        × (lines_read (suc fuel) rest pos ≡ [])
  unfolding txt_loop lines_read
  txt_loop_end fuel rest pos p g = (ground (arith, g), ground (arith, g))

  pub txt_loop-zero :
      (rest : Bytes) (pos : ℕ) (p : Progress)
      → (txt_loop e timestamp_of ctx zero rest pos p ≡ (false, p)) × (lines_read zero rest pos ≡ [])
  unfolding txt_loop lines_read
  txt_loop-zero rest pos p = (refl, refl)

  pub txt_loop_break :
      (fuel : ℕ) (rest : Bytes) (pos : ℕ) (p r : Progress) (line rest' : Bytes) (met : Bool)
      → getline b'\n' rest ≡ some (line, rest', met)
      → ltb ctx.index_end_pos (tellg e timestamp_of ctx pos line met) ≡ false
      → leb max_batch
          (length (parse_line timestamp_of ctx.start_time ctx.end_time p line).log_lines)
        ≡ true
      → run_batch e timestamp_of ctx (parse_line timestamp_of ctx.start_time ctx.end_time p line)
        ≡ (some true, r)
      → txt_loop e timestamp_of ctx (suc fuel) rest pos p ≡ (false, r)
  unfolding txt_loop
  txt_loop_break fuel rest pos p r line rest' met g t b s = ground (arith, g, t, b, s)

  pub txt_loop_throw :
      (fuel : ℕ) (rest : Bytes) (pos : ℕ) (p r : Progress) (line rest' : Bytes) (met : Bool)
      → getline b'\n' rest ≡ some (line, rest', met)
      → ltb ctx.index_end_pos (tellg e timestamp_of ctx pos line met) ≡ false
      → leb max_batch
          (length (parse_line timestamp_of ctx.start_time ctx.end_time p line).log_lines)
        ≡ true
      → run_batch e timestamp_of ctx (parse_line timestamp_of ctx.start_time ctx.end_time p line)
        ≡ (none, r)
      → txt_loop e timestamp_of ctx (suc fuel) rest pos p ≡ (true, r)
  unfolding txt_loop
  txt_loop_throw fuel rest pos p r line rest' met g t b s = ground (arith, g, t, b, s)
