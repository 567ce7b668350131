-- ===== src/Searchers/Boolean/Token.antt =====
-- `trim` and `tokenize` of `boolean_searcher::build_pattern`. A position in `src` is what is left
-- of the text from there.
pub mod Total
pub mod Render
use drlog_search.Base.{
  ℕ, zero, suc, ◌+◌, Bool, true, false, not, ◌&&◌, ◌||◌, List, [], ◌∷◌, ◌++◌, Bytes, codes, ◌==◌,
  if◌then◌else◌, ◌≡◌, refl, drop, length, is_empty,
}
use drlog_search.Text.{starts_with}
use drlog_search.Util.Url.{is_space}
use drlog_search.Searchers.Boolean.Failure.{
  Failure, Result, ok, throw, ◌>>=◌, unmatched_right_quote, adjacent_quoted_words,
  adjacent_unquoted_words, out_of_fuel,
}

pub data Token : Type 0 where
  word : Bytes → Token
  and or negate lparen rparen : Token

-- One of " \t\r\n".
abbrev pub is_blank : ℕ → Bool
is_blank c = c == 32 || c == b'\t' || c == b'\r' || c == b'\n'

unfoldable pub trim_start : Bytes → Bytes
trim_start [] = []
trim_start (c ∷ s) = let rest = trim_start s in if is_blank c then rest else c ∷ s

unfoldable pub trim_end : Bytes → Bytes
trim_end [] = []
trim_end (c ∷ s) = if is_empty (trim_end s) && is_blank c then [] else c ∷ trim_end s

unfoldable pub trim : Bytes → Bytes
unfolding trim_start trim_end
trim s = trim_end (trim_start s)

abbrev pub is_word : Token → Bool
is_word (word w) = true
is_word _ = false

-- `!tokens.empty() && tokens.back().type == Token::WORD`
unfoldable pub ends_with_word : List Token → Bool
ends_with_word [] = false
ends_with_word (t ∷ []) = is_word t
ends_with_word (t ∷ u ∷ ts) = ends_with_word (u ∷ ts)

-- The loop over a quoted word: the word, the text behind it, and the byte before that text.
unfoldable pub scan_quoted : ℕ → ℕ → Bytes → Bytes → Bytes × Bytes × ℕ
scan_quoted quote prev w [] = (w, [], prev)
scan_quoted quote prev w (c ∷ []) = if c == quote then (w, [], c) else (w ++ c ∷ [], [], c)
scan_quoted quote prev w (c ∷ d ∷ s) =
    let escaped = scan_quoted quote d (w ++ d ∷ []) s in
    let plain = scan_quoted quote c (w ++ c ∷ []) (d ∷ s) in
    if c == b'\\' then escaped else if c == quote then (w, d ∷ s, c) else plain

abbrev pub is_quote : ℕ → Bool
is_quote c = c == b'\'' || c == b'"'

abbrev pub ends_word : ℕ → Bool
ends_word c = is_space c || c == b'(' || c == b')' || is_quote c

-- The loop over an unquoted word.
unfoldable pub scan_word : Bytes → Bytes → Bytes × Bytes
scan_word w [] = (w, [])
scan_word w (c ∷ []) = if ends_word c then (w, c ∷ []) else (w ++ c ∷ [], [])
scan_word w (c ∷ d ∷ s) =
    let escaped = scan_word (w ++ d ∷ []) s in
    let plain = scan_word (w ++ c ∷ []) (d ∷ s) in
    if ends_word c then (w, c ∷ d ∷ s) else if c == b'\\' then escaped else plain

-- The end of the text, a blank or a parenthesis.
abbrev pub at_boundary : Bytes → Bool
at_boundary [] = true
at_boundary (c ∷ s) = is_space c || c == b'(' || c == b')'

-- The text begins with the operator, and the operator is a word of its own.
abbrev pub at_operator : Bytes → Bytes → Bool
at_operator name s = starts_with s name && at_boundary (drop (length name) s)

-- A word that is not empty is pushed, unless the last token is a word too.
unfoldable pub push_word : Failure → Bytes → List Token → Result (List Token)
unfolding ends_with_word
push_word why [] tokens = ok tokens
push_word why (c ∷ w) tokens =
    if ends_with_word tokens then throw why else ok (tokens ++ word (c ∷ w) ∷ [])

-- Behind a quoted word: the text has run out, and its last byte is no quote.
abbrev pub is_unmatched : ℕ → Bytes → ℕ → Bool
is_unmatched quote rest prev = is_empty rest && not (prev == quote)

unfoldable pub quoted_step : ℕ → Bytes → List Token → Result (Bytes × List Token)
unfolding scan_quoted push_word
quoted_step quote s tokens =
    let (w, rest, prev) = scan_quoted quote quote [] s in
    if is_unmatched quote rest prev
    then throw unmatched_right_quote
    else (do tokens' ← push_word adjacent_quoted_words w tokens; ok (rest, tokens'))

unfoldable pub unquoted_step : Bytes → List Token → Result (Bytes × List Token)
unfolding scan_word push_word
unquoted_step s tokens =
    let (w, rest) = scan_word [] s in
    (do tokens' ← push_word adjacent_unquoted_words w tokens; ok (rest, tokens'))

-- One round of the loop, at a text that is not empty.
unfoldable pub token_step : ℕ → Bytes → List Token → Result (Bytes × List Token)
unfolding quoted_step unquoted_step
token_step c s tokens =
    if is_space c
    then ok (s, tokens)
    else if c == b'('
    then ok (s, tokens ++ lparen ∷ [])
    else if c == b')'
    then ok (s, tokens ++ rparen ∷ [])
    else if is_quote c
    then quoted_step c s tokens
    else if at_operator (codes "AND") (c ∷ s)
    then ok (drop 2 s, tokens ++ and ∷ [])
    else if at_operator (codes "OR") (c ∷ s)
    then ok (drop 1 s, tokens ++ or ∷ [])
    else if at_operator (codes "NOT") (c ∷ s)
    then ok (drop 2 s, tokens ++ negate ∷ [])
    else unquoted_step (c ∷ s) tokens

unfoldable pub tokenize_loop : ℕ → Bytes → List Token → Result (List Token)
unfolding token_step
tokenize_loop zero s tokens = throw out_of_fuel
tokenize_loop (suc fuel) [] tokens = ok tokens
tokenize_loop (suc fuel) (c ∷ s) tokens = do
  (rest, tokens') ← token_step c s tokens
  tokenize_loop fuel rest tokens'

-- Each round reads a byte at least, so the fuel suffices.
unfoldable pub tokenize : Bytes → Result (List Token)
unfolding tokenize_loop
tokenize src = tokenize_loop (length src + 1) src []
