-- ===== src/Search/Lines.antt =====
-- `LogSearcher::parse_line`: physical lines become log records. A line with no timestamp goes on
-- with the record before it.
pub mod Prefix
use drlog_search.Base.{
  ℕ, ◌+◌, ◌-◌, ◌≤◌, Bool, true, false, ◌&&◌, Option, none, some, List, [], ◌∷◌, ◌++◌, append-nil,
  append_assoc, Bytes, ◌==◌, ltb, leb, if◌then◌else◌, ◌≡◌, refl, ◌∙◌, inl, inr, ◌≢◌, arith, ==_iff,
  is_empty, Bool-cases,
}
use drlog_search.Search.Context.{LogLine, Progress, started}

module _ (timestamp_of : Bytes → ℕ) (start_time end_time : ℕ) where
  -- The indexer is there, so that the answer is always true and is left out. `timestamp_of` is
  -- `get_timestamp_from_log_line`; a `time_t` is its 64-bit pattern, as the
  -- comparisons with `uint64_t` read it.
  unfoldable pub parse_line : Progress → Bytes → Progress
  parse_line p line =
      let ts = timestamp_of line in
      if ts == 0
      then (if is_empty p.tmp_line.line then p else record p {
        tmp_line = record {
          timestamp = p.tmp_line.timestamp;
          line = p.tmp_line.line ++ (b'\n' ∷ line);
        };
      })
      else if ltb ts start_time
      then p
      else (let q =
            (if is_empty p.tmp_line.line then p else record p {
              log_lines = p.log_lines ++ p.tmp_line ∷ [];
              tmp_line = record { timestamp = p.tmp_line.timestamp; line = [] };
            }) in
          if ltb end_time ts
          then q
          else record q { tmp_line = record { timestamp = ts; line = line } })

  unfoldable pub parse_lines : Progress → List Bytes → Progress
  parse_lines p [] = p
  parse_lines p (line ∷ lines) = parse_lines (parse_line p line) lines

  -- The records of a text: a line with a timestamp begins one, and the lines behind it that have
  -- none belong to it. Lines before the first timestamp belong to no record.
  abbrev pub continue_record : Option LogLine → Bytes → Option LogLine
  continue_record none line = none
  continue_record (some r) line =
      some (record { timestamp = r.timestamp; line = r.line ++ (b'\n' ∷ line) })

  abbrev pub close_record : Option LogLine → List LogLine
  close_record none = []
  close_record (some r) = r ∷ []

  unfoldable pub records : Option LogLine → List Bytes → List LogLine
  records current [] = close_record current
  records current (line ∷ lines) = elim (timestamp_of line == 0) [
    | true ↦ records (continue_record current line) lines
    | false ↦
        close_record current
        ++ records (some (record { timestamp = timestamp_of line; line = line })) lines
  ]

  abbrev pub in_range : LogLine → Bool
  in_range r = leb start_time r.timestamp && leb r.timestamp end_time

  unfoldable pub records_in_range : List LogLine → List LogLine
  records_in_range [] = []
  records_in_range (r ∷ rs) = if in_range r then r ∷ records_in_range rs else records_in_range rs

  -- The timestamps do not fall, and none is below `low`.
  abbrev pub Ordered : ℕ → List Bytes → Type 0
  Ordered low [] = Unit
  Ordered low (line ∷ lines) =
      ((timestamp_of line ≢ 0) → low ≤ timestamp_of line)
      × Ordered (if timestamp_of line == 0 then low else timestamp_of line) lines

  -- What `tmp_line` knows of the record that is being read.
  abbrev Tracks : ℕ → Option LogLine → Progress → Type 0
  Tracks low none p = p.tmp_line.line ≡ []
  Tracks low (some r) p =
      (in_range r ≡ true → (p.tmp_line ≡ r) × (r.line ≢ []) × (start_time ≤ low))
      × (in_range r ≡ false → p.tmp_line.line ≡ [])

  append_ne : (s t : Bytes) → s ≢ [] → s ++ t ≢ []
  append_ne [] t h e = h refl
  append_ne (c ∷ s) t h e = cc

  is_empty-ne : (s : Bytes) → s ≢ [] → is_empty s ≡ false
  is_empty-ne [] h = absurd (h refl)
  is_empty-ne (c ∷ s) h = refl

  -- The lines that are handed to the searchers: `tmp_line` is flushed at the end.
  unfoldable pub flushed : Progress → List LogLine
  flushed p = if is_empty p.tmp_line.line then p.log_lines else p.log_lines ++ p.tmp_line ∷ []

  flushed-Tracks :
      (low : ℕ) (current : Option LogLine) (p : Progress)
      → Tracks low current p
      → flushed p ≡ p.log_lines ++ records_in_range (close_record current)
  unfolding flushed records_in_range
  flushed-Tracks low none p t = ground (arith, append-nil p.log_lines)
  flushed-Tracks low (some r) p t = elim (Bool-cases (in_range r)) [
    | inl y ↦ ground (arith, t.0 y, is_empty-ne r.line (t.0 y).1)
    | inr n ↦ ground (arith, t.1 n, append-nil p.log_lines)
  ]

  parse_line_appends :
      (line : Bytes) (p : Progress)
      → timestamp_of line ≡ 0
      → is_empty p.tmp_line.line ≡ false
      → parse_line p line ≡ record p {
        tmp_line = record {
          timestamp = p.tmp_line.timestamp;
          line = p.tmp_line.line ++ (b'\n' ∷ line);
        };
      }
  unfolding parse_line
  parse_line_appends line p z h = rw (z, h)

  parse_line_skips :
      (line : Bytes) (p : Progress)
      → timestamp_of line ≡ 0
      → is_empty p.tmp_line.line ≡ true
      → parse_line p line ≡ p
  unfolding parse_line
  parse_line_skips line p z h = rw (z, h)

  -- A line with no timestamp.
  parse_line_more :
      (line : Bytes) (low : ℕ) (current : Option LogLine) (p : Progress)
      → timestamp_of line ≡ 0
      → Tracks low current p
      → Tracks low (continue_record current line) (parse_line p line)
        × ((parse_line p line).log_lines ≡ p.log_lines)
  parse_line_more line low none p z t = rw (parse_line_skips line p z (rw t)) (t, refl)
  parse_line_more line low (some r) p z t = elim (Bool-cases (in_range r)) [
    | inl y ↦
        let (same, ne, l) = t.0 y in
        rw (parse_line_appends line p z (rw same (is_empty-ne r.line ne))) (
          (
            λ _. (rw same, append_ne r.line (b'\n' ∷ line) ne, l),
            λ f. absurd (ground (arith, y, f)),
          ),
          refl,
        )
    | inr n ↦
        rw (parse_line_skips line p z (rw (t.1 n)))
          ((λ f. absurd (ground (arith, n, f)), λ _. t.1 n), refl)
  ]

  -- A line with a timestamp.
  parse_line_head :
      (line : Bytes) (low : ℕ) (current : Option LogLine) (p : Progress)
      → timestamp_of line ≢ 0
      → line ≢ []
      → low ≤ timestamp_of line
      → Tracks low current p
      → Tracks
          (timestamp_of line)
          (some (record { timestamp = timestamp_of line; line = line }))
          (parse_line p line)
        × ((parse_line p line).log_lines ≡ p.log_lines ++ records_in_range (close_record current))
  unfolding parse_line records_in_range
  parse_line_head line low none p z ne l t = ground (arith, t, append-nil p.log_lines)
  parse_line_head line low (some r) p z ne l t = elim (Bool-cases (in_range r)) [
    | inl y ↦ ground (arith, t.0 y, is_empty-ne r.line (t.0 y).1)
    | inr n ↦ ground (arith, t.1 n, append-nil p.log_lines)
  ]

  records_end : (current : Option LogLine) → records current [] ≡ close_record current
  unfolding records
  records_end current = refl

  records_more :
      (line : Bytes) (lines : List Bytes) (current : Option LogLine)
      → (timestamp_of line == 0) ≡ true
      → records current (line ∷ lines) ≡ records (continue_record current line) lines
  unfolding records
  records_more line lines current y = ground (arith, y)

  records_head :
      (line : Bytes) (lines : List Bytes) (current : Option LogLine)
      → (timestamp_of line == 0) ≡ false
      → records current (line ∷ lines)
        ≡ close_record current
          ++ records (some (record { timestamp = timestamp_of line; line = line })) lines
  unfolding records
  records_head line lines current n = ground (arith, n)

  records_in_range-append :
      (xs ys : List LogLine)
      → records_in_range (xs ++ ys) ≡ records_in_range xs ++ records_in_range ys
  unfolding records_in_range
  records_in_range-append [] ys = refl
  records_in_range-append (x ∷ xs) ys = ground (arith, records_in_range-append xs ys)

  if_true :
      (a b : ℕ) (lines : List Bytes)
      → (b == 0) ≡ true
      → Ordered (if b == 0 then a else b) lines
      → Ordered a lines
  if_true a b lines y o = rw y at o

  if_false :
      (a b : ℕ) (lines : List Bytes)
      → (b == 0) ≡ false
      → Ordered (if b == 0 then a else b) lines
      → Ordered b lines
  if_false a b lines y o = rw y at o

  parse_lines-Tracks :
      (lines : List Bytes) (low : ℕ) (current : Option LogLine) (p : Progress)
      → timestamp_of [] ≡ 0
      → Ordered low lines
      → Tracks low current p
      → flushed (parse_lines p lines) ≡ p.log_lines ++ records_in_range (records current lines)
  unfolding parse_lines
  parse_lines-Tracks [] low current p z o t =
      rw (records_end current) (flushed-Tracks low current p t)
  parse_lines-Tracks (line ∷ lines) low current p z o t =
      elim (Bool-cases (timestamp_of line == 0)) [
        | inl y ↦
            let e : timestamp_of line ≡ 0 = (==_iff _ _).0 y in
            let (tracks, same) = parse_line_more line low current p e t in
            rw (records_more line lines current y) (
              parse_lines-Tracks lines low (continue_record current line) (parse_line p line) z
                (if_true low (timestamp_of line) lines y o.1) tracks
              ∙ rw same)
        | inr n ↦
            let ne : timestamp_of line ≢ 0 = λ e. absurd (ground (arith, n, e)) in
            let (tracks, grown) =
              parse_line_head line low current p ne (λ e. ne (rw e z)) (o.0 ne) t in
            rw (records_head line lines current n) (
              parse_lines-Tracks lines (timestamp_of line)
                (some (record { timestamp = timestamp_of line; line = line })) (parse_line p line) z
                (if_false low (timestamp_of line) lines n o.1) tracks
              ∙ rw (grown, records_in_range-append, append_assoc))
      ]

  -- If an empty line has no timestamp and the lines are in the order of time, the lines that are
  -- handed to the searchers are the records of the text whose timestamp lies in the range, each of
  -- them whole, and no others.
  pub parse_lines-records :
      (lines : List Bytes)
      → timestamp_of [] ≡ 0
      → Ordered 0 lines
      → flushed (parse_lines started lines) ≡ records_in_range (records none lines)
  parse_lines-records lines z o = parse_lines-Tracks lines 0 none started z o refl
