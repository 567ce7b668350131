-- ===== src/Search/Exec.antt =====
-- `LogSearcher::exec_searchers`.
use drlog_search.Base.{
  All, Option, none, some, Option-cases, ℕ, ◌-◌, ◌≤◌, ◌<◌, Bool, true, false, List, [], ◌∷◌, ◌++◌,
  append-nil, append_assoc, Bytes, leb, if◌then◌else◌, ◌≡◌, refl, sym, ◌∙◌, inl, inr, ◌≢◌, arith,
  take, length, length-append, Bool-cases, take-nil, take-cons, take_all, leb→le, leb→lt,
}
use drlog_search.Searchers.Word.{MatchedWord, search_simple}
use drlog_search.Search.Context.{RegexEngine, Searcher, simple, LogLine, search_line}

abbrev is_true : Option Bool → Bool
is_true none = false
is_true (some b) = b

is_true-some : (b : Bool) → is_true (some b) ≡ b
is_true-some b = refl

-- What the answer of a searcher means for the searchers behind it; `none` is an exception.
unfoldable pub found_by : Option (Bool × List MatchedWord) → Option Bool → Option Bool
found_by none later = none
found_by (some (true, matched)) later = later
found_by (some (false, matched)) later = some false

-- A line that every searcher finds, or not, is added, and the loop goes on where there is room. The
-- flag says that an exception is thrown.
unfoldable pub add_line :
    ℕ
    → List LogLine
    → LogLine
    → Option Bool
    → (List LogLine → Bool × List LogLine)
    → Bool × List LogLine
add_line max_results matched_lines l none next = (true, matched_lines)
add_line max_results matched_lines l (some be_matched) next =
    let matched' = if be_matched then matched_lines ++ l ∷ [] else matched_lines in
    if leb max_results (length matched') then (false, matched') else next matched'

-- The answer of a run, `none` if the loop throws.
unfoldable pub answered : Bool × List LogLine → Option Bool × List LogLine
answered (true, matched_lines) = (none, matched_lines)
answered (false, matched_lines) = (some true, matched_lines)

answers-calm : (r : Bool × List MatchedWord) → found_by (some r) (some true) ≢ none
unfolding found_by
answers-calm (true, m) e = cc
answers-calm (false, m) e = cc

module _ (e : RegexEngine) where
  open e use {Regex}

  -- The inner loop: every searcher finds the line.
  unfoldable pub line_matches : List (Searcher Regex) → Bytes → Option Bool
  unfolding found_by
  line_matches [] line = some true
  line_matches (qs ∷ rest) line =
      let later = line_matches rest line in found_by (search_line e qs line [] false) later

  -- The outer loop over `log_lines`; `matched_lines` grows.
  unfoldable pub exec_loop :
      ℕ → List (Searcher Regex) → List LogLine → List LogLine → Bool × List LogLine
  unfolding add_line
  exec_loop max_results searchers [] matched_lines = (false, matched_lines)
  exec_loop max_results searchers (l ∷ ls) matched_lines =
      add_line max_results matched_lines l (line_matches searchers l.line)
        (exec_loop max_results searchers ls)

  -- The answer, and `matched_lines` as they are left.
  unfoldable pub exec_searchers :
      ℕ → List (Searcher Regex) → List LogLine → List LogLine → Option Bool × List LogLine
  unfolding exec_loop answered
  exec_searchers max_results [] log_lines matched_lines = (some false, matched_lines)
  exec_searchers max_results (q ∷ qs) log_lines matched_lines =
      answered (exec_loop max_results (q ∷ qs) log_lines matched_lines)

  -- The line is found by every searcher, with no exception.
  unfoldable pub finds : List (Searcher Regex) → Bytes → Bool
  finds searchers line = is_true (line_matches searchers line)

  -- The lines that every searcher finds.
  unfoldable pub hits : List (Searcher Regex) → List LogLine → List LogLine
  hits searchers [] = []
  hits searchers (l ∷ ls) =
      if finds searchers l.line then l ∷ hits searchers ls else hits searchers ls

  pub hits-append :
      (searchers : List (Searcher Regex)) (xs ys : List LogLine)
      → hits searchers (xs ++ ys) ≡ hits searchers xs ++ hits searchers ys
  unfolding hits
  hits-append searchers [] ys = refl
  hits-append searchers (x ∷ xs) ys = ground (arith, hits-append searchers xs ys)

  -- No searcher throws on the line.
  abbrev pub Calm : List (Searcher Regex) → LogLine → Type 0
  Calm searchers l = line_matches searchers l.line ≢ none

  abbrev unless_thrown : LogLine → Option Bool → List LogLine → List LogLine
  unless_thrown l none later = []
  unless_thrown l (some b) later = l ∷ later

  -- The lines before the first on which a searcher throws.
  unfoldable pub calm_lines : List (Searcher Regex) → List LogLine → List LogLine
  calm_lines searchers [] = []
  calm_lines searchers (l ∷ ls) =
      unless_thrown l (line_matches searchers l.line) (calm_lines searchers ls)

  -- The loop where no searcher throws.
  unfoldable pub match_loop : ℕ → List (Searcher Regex) → List LogLine → List LogLine → List LogLine
  match_loop max_results searchers [] matched_lines = matched_lines
  match_loop max_results searchers (l ∷ ls) matched_lines =
      let matched' = if finds searchers l.line then matched_lines ++ l ∷ [] else matched_lines in
      let rest = match_loop max_results searchers ls matched' in
      if leb max_results (length matched') then matched' else rest

  match_loop_step :
      (max : ℕ) (qs : List (Searcher Regex)) (l : LogLine) (ls m : List LogLine) (b : Bool)
      → line_matches qs l.line ≡ some b
      → match_loop max qs (l ∷ ls) m ≡ (
          if leb max (length (if b then m ++ l ∷ [] else m))
          then (if b then m ++ l ∷ [] else m)
          else match_loop max qs ls (if b then m ++ l ∷ [] else m))
  unfolding match_loop finds
  match_loop_step max qs l ls m b y = rw y refl

  pub exec_loop-calm :
      (max : ℕ) (qs : List (Searcher Regex)) (ls m : List LogLine)
      → (exec_loop max qs ls m).1 ≡ match_loop max qs (calm_lines qs ls) m
  unfolding exec_loop calm_lines
  exec_loop-calm max qs [] m = unfold match_loop in refl
  exec_loop-calm max qs (l ∷ ls) m = elim (Option-cases (line_matches qs l.line)) [
    | inl n ↦ unfold match_loop in rw n refl
    | inr (b, y) ↦
        let m' = if b then m ++ l ∷ [] else m in
        rw (y, match_loop_step max qs l (calm_lines qs ls) m b y)
          (elim (Bool-cases (leb max (length m'))) [
            | inl full ↦ rw full refl
            | inr room ↦ rw room (exec_loop-calm max qs ls m')
          ])
  ]

  pub exec_loop_quiet :
      (max : ℕ) (qs : List (Searcher Regex)) (ls m : List LogLine)
      → All (Calm qs) ls
      → exec_loop max qs ls m ≡ (false, match_loop max qs ls m)
  unfolding exec_loop
  exec_loop_quiet max qs [] m h = unfold match_loop in refl
  exec_loop_quiet max qs (l ∷ ls) m h = elim (Option-cases (line_matches qs l.line)) [
    | inl n ↦ absurd (h.0 n)
    | inr (b, y) ↦
        let m' = if b then m ++ l ∷ [] else m in
        rw (y, match_loop_step max qs l ls m b y)
          (elim (Bool-cases (leb max (length m'))) [
            | inl full ↦ rw full refl
            | inr room ↦ rw room (exec_loop_quiet max qs ls m' h.1)
          ])
  ]

  match_loop_hit :
      (max : ℕ) (qs : List (Searcher Regex)) (l : LogLine) (ls m : List LogLine)
      → finds qs l.line ≡ true
      → match_loop max qs (l ∷ ls) m ≡ (
          if leb max (length (m ++ l ∷ []))
          then m ++ l ∷ []
          else match_loop max qs ls (m ++ l ∷ []))
  unfolding match_loop
  match_loop_hit max qs l ls m t = rw t

  match_loop_miss :
      (max : ℕ) (qs : List (Searcher Regex)) (l : LogLine) (ls m : List LogLine)
      → finds qs l.line ≡ false
      → match_loop max qs (l ∷ ls) m ≡ (if leb max (length m) then m else match_loop max qs ls m)
  unfolding match_loop
  match_loop_miss max qs l ls m f = rw f

  -- With fewer matched lines than `max_results`, the loop appends the lines that every searcher
  -- finds, in their order, as many as there is room for.
  pub match_loop_room :
      (max_results : ℕ) (searchers : List (Searcher Regex)) (lines matched : List LogLine)
      → length matched < max_results
      → match_loop max_results searchers lines matched
        ≡ matched ++ take (max_results - length matched) (hits searchers lines)
  unfolding hits
  match_loop_room max searchers [] matched h =
      rw take-nil (unfold match_loop in sym (append-nil matched))
  match_loop_room max searchers (l ∷ ls) matched h = elim (Bool-cases (finds searchers l.line)) [
    | inl t ↦
        rw
          (
            match_loop_hit max searchers l ls matched t,
            t,
            take-cons (max - length matched) l (hits searchers ls) (omega arith),
          )
          (elim (Bool-cases (leb max (length (matched ++ l ∷ [])))) [
            | inl full ↦ rw full (
                let z : max - length matched - 1 ≡ 0 =
                  omega (arith, leb→le _ _ full, length-append matched (l ∷ [])) in
                rw z)
            | inr room ↦ rw room (
                let z : max - length (matched ++ l ∷ []) ≡ max - length matched - 1 =
                  omega (arith, length-append matched (l ∷ [])) in
                match_loop_room max searchers ls (matched ++ l ∷ []) (leb→lt _ _ room)
                ∙ rw (z, append_assoc))
          ])
    | inr f ↦
        rw (match_loop_miss max searchers l ls matched f, f)
          (elim (Bool-cases (leb max (length matched))) [
            | inl full ↦ absurd (omega (arith, leb→le _ _ full))
            | inr room ↦ rw room (match_loop_room max searchers ls matched h)
          ])
  ]

  -- With `max_results` matched lines or more, the loop still looks at the first line, and appends
  -- it if every searcher finds it; it looks at no other.
  pub match_loop_full :
      (max_results : ℕ) (searchers : List (Searcher Regex)) (lines matched : List LogLine)
      → max_results ≤ length matched
      → match_loop max_results searchers lines matched ≡ matched ++ hits searchers (take 1 lines)
  unfolding match_loop hits
  match_loop_full max searchers [] matched h = sym (append-nil matched)
  match_loop_full max searchers (l ∷ ls) matched h =
      ground (arith, append-nil matched, length-append matched (l ∷ []))

  -- With room for every hit, the hits are appended, and no more.
  pub exec_searchers_room :
      (max_results : ℕ) (searchers : List (Searcher Regex)) (lines matched : List LogLine)
      → searchers ≢ []
      → All (Calm searchers) lines
      → length (matched ++ hits searchers lines) < max_results
      → exec_searchers max_results searchers lines matched
        ≡ (some true, matched ++ hits searchers lines)
  unfolding exec_searchers
  exec_searchers_room max [] lines matched ne c h = absurd (ne refl)
  exec_searchers_room max (q ∷ qs) lines matched ne c h =
      let l = length-append matched (hits (q ∷ qs) lines) in
      rw (
        exec_loop_quiet max (q ∷ qs) lines matched c,
        match_loop_room max (q ∷ qs) lines matched (omega arith),
        take_all (max - length matched) (hits (q ∷ qs) lines) (omega arith),
      )

  -- A searcher for a word throws on no line.
  pub simple-Calm : (text : Bytes) (l : LogLine) → Calm (simple text ∷ []) l
  unfolding line_matches search_line
  simple-Calm text l = answers-calm (search_simple text l.line [] false)
