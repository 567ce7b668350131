-- ===== src/Search/Run/Queries.antt =====
-- A line is found by the searchers of a request exactly when every query of it is true of the line.
use drlog_search.Base.{
  Bool, true, false, Option, none, some, List, [], ◌∷◌, Bytes, codes, ◌≡◌, refl, subst, sym, ◌∙◌,
  ◌⊎◌, inl, inr, ◌↔◌, arith, is_empty, Bool-cases, Option-cases, eqb, eqb_iff,
}
use drlog_search.Searchers.Boolean.{Node}
use drlog_search.Searchers.Boolean.Failure.{Result, ok, throw}
use drlog_search.Searchers.Boolean.Build.{build_pattern}
use drlog_search.Searchers.Boolean.Meaning.{Holds, Contains, find-Contains, find-none}
use drlog_search.Searchers.Boolean.Matching.{search_boolean_lem}
use drlog_search.Search.Context.{
  RegexEngine, RegexOutcome, Searcher, simple, boolean, regex, groups, no_match, regex_error,
  failure, QueryString, search_line, search_regex, with_groups,
}
use drlog_search.Searchers.Word.{MatchedWord, search_simple}
use drlog_search.Text.{find}
use drlog_search.Search.Exec.{found_by, line_matches}
use drlog_search.Search.Run.{
  Built, built, refused, thrown, build_boolean, build_regex, build_searcher, add_searcher,
  build_searchers,
}

module _ (e : RegexEngine) where
  -- A match is reported.
  abbrev pub IsMatch : RegexOutcome → Type 0
  IsMatch regex_error = ⊥
  IsMatch failure = ⊥
  IsMatch no_match = ⊥
  IsMatch (groups results) = Unit

  -- What a query says of a line: it contains the text, it satisfies the expression that the text is
  -- parsed to, or the compiled text has a match in it. No other type of query says anything.
  abbrev pub IsTrueOf : Bytes → QueryString → Type 0
  IsTrueOf line q =
      ((q.type ≡ codes "simple") × Contains line q.query)
      ⊎ (((q.type ≡ codes "boolean")
            × (root : Node) × (build_pattern q.query ≡ ok root)
            × Holds line root)
          ⊎ ((q.type ≡ codes "regex")
              × (p : e.Regex) × (e.compile q.query ≡ some p)
              × IsMatch (e.regex_search p line)))

  abbrev pub AreTrueOf : Bytes → List QueryString → Type 0
  AreTrueOf line [] = Unit
  AreTrueOf line (q ∷ queries) = IsTrueOf line q × AreTrueOf line queries

  -- What a built searcher says of a line.
  abbrev FindsIn : Bytes → Searcher e.Regex → Type 0
  FindsIn line (simple text) = Contains line text
  FindsIn line (boolean root) = Holds line root
  FindsIn line (regex p) = IsMatch (e.regex_search p line)

  search_simple-FindsIn :
      (line text : Bytes) → ((search_simple text line [] false).0 ≡ true) ↔ Contains line text
  unfolding search_simple
  search_simple-FindsIn line text = elim (Option-cases (find line text)) [
    | inl n ↦ (λ h. absurd (ground (arith, n, h)), λ c. absurd (find-none line text n c))
    | inr (i, y) ↦ (λ h. find-Contains line text i y, λ c. ground (arith, y))
  ]

  -- The answer is that the line is found.
  abbrev IsFound : Option (Bool × List MatchedWord) → Type 0
  IsFound none = ⊥
  IsFound (some (b, matched)) = b ≡ true

  with_groups-IsMatch : (o : RegexOutcome) → IsFound (with_groups [] false o) ↔ IsMatch o
  unfolding with_groups
  with_groups-IsMatch regex_error = (λ h. absurd (ground arith), λ m. absurd m)
  with_groups-IsMatch failure = (λ h. h, λ m. m)
  with_groups-IsMatch no_match = (λ h. absurd (ground arith), λ m. absurd m)
  with_groups-IsMatch (groups r) = (λ h. tt, λ m. refl)

  search_line_iff :
      (line : Bytes) (s : Searcher e.Regex)
      → IsFound (search_line e s line [] false) ↔ FindsIn line s
  unfolding search_line search_regex
  search_line_iff line (simple text) = search_simple-FindsIn line text
  search_line_iff line (boolean root) = (search_boolean_lem root line [] false).0
  search_line_iff line (regex p) = with_groups-IsMatch (e.regex_search p line)

  -- The type of a query decides.
  simple_only :
      (line : Bytes) (q : QueryString)
      → q.type ≡ codes "simple"
      → IsTrueOf line q
      → Contains line q.query
  simple_only line q t (inl (_, c)) = c
  simple_only line q t (inr (inl (u, _, _, _))) = absurd (let z = sym t ∙ u in ground (arith, z))
  simple_only line q t (inr (inr (u, _, _, _))) = absurd (let z = sym t ∙ u in ground (arith, z))

  boolean_only :
      (line : Bytes) (q : QueryString) (root : Node)
      → q.type ≡ codes "boolean"
      → build_pattern q.query ≡ ok root
      → IsTrueOf line q
      → Holds line root
  boolean_only line q root t b (inl (u, _)) = absurd (let z = sym t ∙ u in ground (arith, z))
  boolean_only line q root t b (inr (inl (u, other, c, h))) =
      let same : ok other ≡ ok root = sym c ∙ b in
      let is : other ≡ root = cc in subst (λ r. Holds line r) is h
  boolean_only line q root t b (inr (inr (u, _, _, _))) =
      absurd (let z = sym t ∙ u in ground (arith, z))

  regex_only :
      (line : Bytes) (q : QueryString) (p : e.Regex)
      → q.type ≡ codes "regex"
      → e.compile q.query ≡ some p
      → IsTrueOf line q
      → IsMatch (e.regex_search p line)
  regex_only line q p t b (inl (u, _)) = absurd (let z = sym t ∙ u in ground (arith, z))
  regex_only line q p t b (inr (inl (u, _, _, _))) = absurd (let z = sym t ∙ u in ground (arith, z))
  regex_only line q p t b (inr (inr (u, other, c, h))) =
      let same : some other ≡ some p = sym c ∙ b in
      let is : other ≡ p = cc in subst (λ r. IsMatch (e.regex_search r line)) is h

  build_boolean-ok :
      (line : Bytes) (q : QueryString) (s : Searcher e.Regex) (r : Result Node)
      → q.type ≡ codes "boolean"
      → build_pattern q.query ≡ r
      → build_boolean e r ≡ built s
      → FindsIn line s ↔ IsTrueOf line q
  unfolding build_boolean
  build_boolean-ok line q s (ok root) t b h =
      let is : boolean root ≡ s = cc in
      rw (← is) (λ f. inr (inl (t, root, b, f)), λ u. boolean_only line q root t b u)
  build_boolean-ok line q s (throw why) t b h = absurd (ground (arith, h))

  build_regex-ok :
      (line : Bytes) (q : QueryString) (s : Searcher e.Regex) (r : Option e.Regex)
      → q.type ≡ codes "regex"
      → e.compile q.query ≡ r
      → build_regex e r ≡ built s
      → FindsIn line s ↔ IsTrueOf line q
  unfolding build_regex
  build_regex-ok line q s (some p) t b h =
      let is : regex p ≡ s = cc in
      rw (← is) (λ f. inr (inr (t, p, b, f)), λ u. regex_only line q p t b u)
  build_regex-ok line q s none t b h = absurd (ground (arith, h))

  build_searcher-ok :
      (line : Bytes) (q : QueryString) (s : Searcher e.Regex)
      → build_searcher e q ≡ built s
      → FindsIn line s ↔ IsTrueOf line q
  unfolding build_searcher
  build_searcher-ok line q s h = elim (Bool-cases (is_empty q.query)) [
    | inl y ↦ absurd (let z : refused ≡ built s = rw y at h in ground (arith, z))
    | inr f ↦ elim (Bool-cases (eqb q.type (codes "simple"))) [
      | inl y ↦
          let z : built (simple q.query) ≡ built s = rw (f, y) at h in
          let is : simple q.query ≡ s = cc in
          let t = (eqb_iff _ _).0 y in rw (← is) (λ c. inl (t, c), λ u. simple_only line q t u)
      | inr g ↦ elim (Bool-cases (eqb q.type (codes "boolean"))) [
        | inl y ↦
            build_boolean-ok line q s (build_pattern q.query) ((eqb_iff _ _).0 y) refl
              (rw (f, g, y) at h)
        | inr k ↦ elim (Bool-cases (eqb q.type (codes "regex"))) [
          | inl y ↦
              build_regex-ok line q s (e.compile q.query) ((eqb_iff _ _).0 y) refl
                (rw (f, g, k, y) at h)
          | inr n ↦ absurd (let z : refused ≡ built s = rw (f, g, k, n) at h in ground (arith, z))
        ]
      ]
    ]
  ]

  found_by_iff :
      (r : Option (Bool × List MatchedWord)) (later : Option Bool)
      → (found_by r later ≡ some true) ↔ (IsFound r × (later ≡ some true))
  unfolding found_by
  found_by_iff none later =
      (λ h. absurd (let z : ◌≡◌ {A = Option Bool} none (some true) = h in cc), λ h. absurd h.0)
  found_by_iff (some (true, m)) later = (λ h. (refl, h), λ h. h.1)
  found_by_iff (some (false, m)) later = (
    λ h. absurd (let z : ◌≡◌ {A = Option Bool} (some false) (some true) = h in cc),
    λ h. absurd (let z : false ≡ true = h.0 in cc),
  )

  line_matches-cons :
      (s : Searcher e.Regex) (ss : List (Searcher e.Regex)) (line : Bytes)
      → (line_matches e (s ∷ ss) line ≡ some true)
        ↔ (IsFound (search_line e s line [] false) × (line_matches e ss line ≡ some true))
  unfolding line_matches
  line_matches-cons s ss line =
      found_by_iff (search_line e s line [] false) (line_matches e ss line)

  add_searcher-ok :
      (a : Built (Searcher e.Regex)) (b : Built (List (Searcher e.Regex)))
      (ss : List (Searcher e.Regex))
      → add_searcher e a b ≡ built ss
      → (s : Searcher e.Regex) × (rest : List (Searcher e.Regex)) × (a ≡ built s)
        × (b ≡ built rest)
        × (s ∷ rest ≡ ss)
  unfolding add_searcher
  add_searcher-ok refused b ss h = absurd (ground (arith, h))
  add_searcher-ok (thrown why) b ss h = absurd (ground (arith, h))
  add_searcher-ok (built s) refused ss h = absurd (ground (arith, h))
  add_searcher-ok (built s) (thrown why) ss h = absurd (ground (arith, h))
  add_searcher-ok (built s) (built rest) ss h = (s, rest, refl, refl, cc)

  -- If the searchers of the queries are built, the lines that all of them find, with no exception,
  -- are those that every query is true of, whatever the engine of regular expressions.
  pub build_searchers_lem :
      (queries : List QueryString) (searchers : List (Searcher e.Regex)) (line : Bytes)
      → build_searchers e queries ≡ built searchers
      → (line_matches e searchers line ≡ some true) ↔ AreTrueOf line queries
  unfolding build_searchers
  build_searchers_lem [] ss line h =
      let is : [] ≡ ss = cc in rw (← is) (λ _. tt, λ _. unfold line_matches in refl)
  build_searchers_lem (q ∷ qs) ss line h =
      let (s, rest, first, later, is) =
        add_searcher-ok (build_searcher e q) (build_searchers e qs) ss h in
      let ih = build_searchers_lem qs rest line later in
      let finds = search_line_iff line s in
      let means = build_searcher-ok line q s first in
      let both = line_matches-cons s rest line in
      rw (← is) (
        λ m. (means.0 (finds.0 (both.0 m).0), ih.0 (both.0 m).1),
        λ a. both.1 (finds.1 (means.1 a.0), ih.1 a.1),
      )
