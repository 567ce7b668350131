-- ===== src/Searchers/Boolean/Token/Render.antt =====
-- Writing tokens as text, and reading them back.
use drlog_search.Base.{
  ℕ, zero, suc, ◌<◌, true, false, ◌||◌, List, [], ◌∷◌, ◌++◌, append-nil, append_assoc, Bytes, codes,
  ◌==◌, if◌then◌else◌, ◌≡◌, refl, sym, ap, ◌∙◌, inl, inr, ◌≢◌, arith, length, length-append,
  is_empty, Bool-cases,
}
use native.Mathlib.Numerals.{add-one}
use drlog_search.Text.{starts_with}
use drlog_search.Searchers.Boolean.Failure.{ok}
use drlog_search.Searchers.Boolean.Token.{
  Token, word, and, or, negate, lparen, rparen, is_word, ends_with_word, scan_quoted, quoted_step,
  token_step, tokenize_loop, tokenize, is_blank, trim, trim_start, trim_end,
}
use drlog_search.Searchers.Boolean.Token.Total.{Alternates, ends_with_word-concat}

-- The bytes of a word inside double quotes: a quote and a backslash stand behind a backslash.
abbrev pub escape : Bytes → Bytes
escape [] = []
escape (c ∷ w) = if c == b'"' || c == b'\\' then b'\\' ∷ c ∷ escape w else c ∷ escape w

abbrev pub show : Token → Bytes
show (word w) = b'"' ∷ (escape w ++ b'"' ∷ [])
show and = codes "AND"
show or = codes "OR"
show negate = codes "NOT"
show lparen = codes "("
show rparen = codes ")"

-- Each token behind a space.
abbrev pub gap : List Token → Bytes
gap [] = []
gap (t ∷ ts) = 32 ∷ (show t ++ gap ts)

abbrev pub render : List Token → Bytes
render [] = []
render (t ∷ ts) = show t ++ gap ts

scan_quoted_plain :
    (prev c : ℕ) (acc s : Bytes)
    → (c == b'"' || c == b'\\') ≡ false
    → scan_quoted b'"' prev acc (c ∷ s) ≡ scan_quoted b'"' c (acc ++ c ∷ []) s
unfolding scan_quoted
scan_quoted_plain prev c acc [] h = ground arith
scan_quoted_plain prev c acc (d ∷ s) h = ground arith

scan_quoted_end : (prev : ℕ) (acc s : Bytes) → scan_quoted b'"' prev acc (b'"' ∷ s) ≡ (acc, s, b'"')
unfolding scan_quoted
scan_quoted_end prev acc [] = refl
scan_quoted_end prev acc (d ∷ s) = refl

scan_quoted_escaped :
    (prev c : ℕ) (acc s : Bytes)
    → scan_quoted b'"' prev acc (b'\\' ∷ c ∷ s) ≡ scan_quoted b'"' c (acc ++ c ∷ []) s
unfolding scan_quoted
scan_quoted_escaped prev c acc s = refl

scan_quoted-escape :
    (w acc rest : Bytes) (prev : ℕ)
    → scan_quoted b'"' prev acc (escape w ++ b'"' ∷ rest) ≡ (acc ++ w, rest, b'"')
scan_quoted-escape [] acc rest prev = rw append-nil (scan_quoted_end prev acc rest)
scan_quoted-escape (c ∷ w) acc rest prev = elim (Bool-cases (c == b'"' || c == b'\\')) [
  | inl t ↦ rw t (
      scan_quoted_escaped prev c acc _
      ∙ scan_quoted-escape w (acc ++ c ∷ []) rest c
      ∙ rw append_assoc)
  | inr f ↦ rw f (
      scan_quoted_plain prev c acc _ f
      ∙ scan_quoted-escape w (acc ++ c ∷ []) rest c
      ∙ rw append_assoc)
]

quoted_step-escape :
    (w rest : Bytes) (tokens : List Token)
    → w ≢ []
    → ends_with_word tokens ≡ false
    → quoted_step b'"' (escape w ++ b'"' ∷ rest) tokens ≡ ok (rest, tokens ++ word w ∷ [])
unfolding quoted_step
quoted_step-escape [] rest tokens h e = absurd (h refl)
quoted_step-escape (c ∷ w) rest tokens h e =
    rw (scan_quoted-escape (c ∷ w) [] rest b'"') (ground arith)

-- One round reads one token, if a space or the end stands behind it.
show_round :
    (t : Token) (ts : List Token) (f : ℕ) (tokens : List Token)
    → t ≢ word []
    → (ends_with_word tokens ≡ true → is_word t ≡ false)
    → tokenize_loop (suc f) (show t ++ gap ts) tokens ≡ tokenize_loop f (gap ts) (tokens ++ t ∷ [])
unfolding tokenize_loop token_step starts_with
show_round (word w) ts f tokens ne h =
    let e : ends_with_word tokens ≡ false = ground arith in
    rw (append_assoc, quoted_step-escape w (gap ts) tokens (λ z. ne (ap word z)) e)
show_round and [] f tokens ne h = refl
show_round and (u ∷ ts) f tokens ne h = refl
show_round or [] f tokens ne h = refl
show_round or (u ∷ ts) f tokens ne h = refl
show_round negate [] f tokens ne h = refl
show_round negate (u ∷ ts) f tokens ne h = refl
show_round lparen ts f tokens ne h = refl
show_round rparen ts f tokens ne h = refl

skip_space :
    (f : ℕ) (s : Bytes) (tokens : List Token)
    → tokenize_loop (suc f) (32 ∷ s) tokens ≡ tokenize_loop f s tokens
unfolding tokenize_loop
skip_space f s tokens = refl

show_pos : (t : Token) → 0 < length (show t)
show_pos (word w) = omega arith
show_pos _ = omega arith

tokenize_loop-gap :
    (ts : List Token) (f : ℕ) (tokens : List Token)
    → length (gap ts) < f
    → Alternates (ends_with_word tokens) ts
    → tokenize_loop f (gap ts) tokens ≡ ok (tokens ++ ts)
tokenize_loop-gap ts zero tokens h a = absurd (omega arith)
tokenize_loop-gap [] (suc f) tokens h a = rw append-nil (unfold tokenize_loop in refl)
tokenize_loop-gap (t ∷ ts) (suc zero) tokens h a = absurd (omega arith)
tokenize_loop-gap (t ∷ ts) (suc (suc f)) tokens h a =
    skip_space (suc f) (show t ++ gap ts) tokens
    ∙ show_round t ts f tokens a.1 a.0
    ∙ tokenize_loop-gap ts f (tokens ++ t ∷ [])
        (omega (arith, length-append (show t) (gap ts), show_pos t)) (rw ends_with_word-concat a.2)
    ∙ rw append_assoc

-- Tokens with no empty word and no two words side by side are read back from the text that writes
-- each of them behind a blank, with the words in double quotes.
pub tokenize-render : (ts : List Token) → Alternates false ts → tokenize (render ts) ≡ ok ts
unfolding tokenize ends_with_word
tokenize-render [] a = unfold tokenize_loop in refl
tokenize-render (t ∷ ts) a = rw add-one (
    show_round t ts (length (render (t ∷ ts))) [] a.1 (λ e. ground arith)
    ∙ tokenize_loop-gap ts _ (t ∷ []) (omega (arith, length-append (show t) (gap ts), show_pos t))
        a.2)

is_empty-concat : (s : Bytes) (c : ℕ) → is_empty (s ++ c ∷ []) ≡ false
is_empty-concat [] c = refl
is_empty-concat (d ∷ s) c = refl

-- A text that ends in a byte which is no blank.
record EndsSolid (s : Bytes) : Type 0 where
  init : Bytes
  last : ℕ
  splits : s ≡ init ++ last ∷ []
  solid : is_blank last ≡ false

show-EndsSolid : (t : Token) → EndsSolid (show t)
show-EndsSolid (word w) = record {
  init = b'"' ∷ escape w;
  last = b'"';
  splits = refl;
  solid = refl;
}
show-EndsSolid and = record { init = codes "AN"; last = b'D'; splits = refl; solid = refl }
show-EndsSolid or = record { init = codes "O"; last = b'R'; splits = refl; solid = refl }
show-EndsSolid negate = record { init = codes "NO"; last = b'T'; splits = refl; solid = refl }
show-EndsSolid lparen = record { init = []; last = b'('; splits = refl; solid = refl }
show-EndsSolid rparen = record { init = []; last = b')'; splits = refl; solid = refl }

EndsSolid-append : (s t : Bytes) → EndsSolid t → EndsSolid (s ++ t)
EndsSolid-append s t e = record {
  init = s ++ e.init;
  last = e.last;
  splits = rw e.splits (sym (append_assoc s e.init (e.last ∷ [])));
  solid = e.solid;
}

gap-EndsSolid : (t : Token) (ts : List Token) → EndsSolid (show t ++ gap ts)
gap-EndsSolid t [] = rw append-nil (show-EndsSolid t)
gap-EndsSolid t (u ∷ ts) =
    EndsSolid-append (show t) _ (EndsSolid-append (32 ∷ []) _ (gap-EndsSolid u ts))

trim_end-concat : (s : Bytes) (c : ℕ) → is_blank c ≡ false → trim_end (s ++ c ∷ []) ≡ s ++ c ∷ []
unfolding trim_end
trim_end-concat [] c h = rw h
trim_end-concat (d ∷ s) c h = rw (trim_end-concat s c h) (ground (arith, is_empty-concat s c))

trim_start-show : (t : Token) (s : Bytes) → trim_start (show t ++ s) ≡ show t ++ s
unfolding trim_start
trim_start-show (word w) s = refl
trim_start-show and s = refl
trim_start-show or s = refl
trim_start-show negate s = refl
trim_start-show lparen s = refl
trim_start-show rparen s = refl

-- A rendered text has no blank at its ends.
pub trim-render : (ts : List Token) → trim (render ts) ≡ render ts
unfolding trim
trim-render [] = refl
trim-render (t ∷ ts) =
    let e = gap-EndsSolid t ts in
    rw (trim_start-show t (gap ts))
      (ap trim_end e.splits ∙ trim_end-concat e.init e.last e.solid ∙ sym e.splits)
