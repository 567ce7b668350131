-- ===== src/Searchers/Boolean/Token/Total.antt =====
-- The tokenizer ends by itself, and no two words of its output stand side by side.
use drlog_search.Base.{
  ℕ, zero, suc, ◌+◌, ◌≤◌, ◌<◌, Bool, true, false, List, [], ◌∷◌, ◌++◌, Bytes, ◌≡◌, refl, inl, inr,
  ◌≢◌, arith, length, length-drop-le, is_empty, Bool-cases,
}
use drlog_search.Searchers.Boolean.Failure.{
  Failure, Result, ok, throw, ◌>>=◌, out_of_fuel, adjacent_unquoted_words, adjacent_quoted_words,
}
use drlog_search.Searchers.Boolean.Token.{
  Token, word, and, or, negate, lparen, rparen, is_word, ends_with_word, scan_quoted, scan_word,
  push_word, quoted_step, unquoted_step, token_step, tokenize_loop, tokenize, ends_word,
  is_unmatched,
}

-- A word has a byte at least, and none stands behind another: `prev` says whether one stands
-- before.
abbrev pub Alternates : Bool → List Token → Type 0
Alternates prev [] = Unit
Alternates prev (t ∷ ts) =
    (prev ≡ true → is_word t ≡ false) × (t ≢ word []) × Alternates (is_word t) ts

pub ends_with_word-concat :
    (ts : List Token) (t : Token) → ends_with_word (ts ++ t ∷ []) ≡ is_word t
unfolding ends_with_word
ends_with_word-concat [] t = refl
ends_with_word-concat (u ∷ []) t = refl
ends_with_word-concat (u ∷ v ∷ ts) t = ends_with_word-concat (v ∷ ts) t

Alternates-concat :
    (prev : Bool) (ts : List Token) (t : Token)
    → Alternates prev ts
    → (ends_with_word ts ≡ true → is_word t ≡ false)
    → (is_empty ts ≡ true → prev ≡ true → is_word t ≡ false)
    → t ≢ word []
    → Alternates prev (ts ++ t ∷ [])
unfolding ends_with_word
Alternates-concat prev [] t a h k ne = (k refl, ne, tt)
Alternates-concat prev (u ∷ []) t a h k ne = (a.0, a.1, (h, ne, tt))
Alternates-concat prev (u ∷ v ∷ ts) t a h k ne =
    (a.0, a.1, Alternates-concat (is_word u) (v ∷ ts) t a.2 h (λ e. absurd (ground arith)) ne)

scan_quoted-shorter :
    (quote prev : ℕ) (w s : Bytes) → length (scan_quoted quote prev w s).1 ≤ length s
unfolding scan_quoted
scan_quoted-shorter quote prev w [] = omega arith
scan_quoted-shorter quote prev w (c ∷ []) = ground arith
scan_quoted-shorter quote prev w (c ∷ d ∷ s) = ground (
  arith,
  scan_quoted-shorter quote d (w ++ d ∷ []) s,
  scan_quoted-shorter quote c (w ++ c ∷ []) (d ∷ s),
)

scan_word-shorter : (w s : Bytes) → length (scan_word w s).1 ≤ length s
unfolding scan_word
scan_word-shorter w [] = omega arith
scan_word-shorter w (c ∷ []) = ground arith
scan_word-shorter w (c ∷ d ∷ s) =
    ground (arith, scan_word-shorter (w ++ d ∷ []) s, scan_word-shorter (w ++ c ∷ []) (d ∷ s))

-- A word is read where the text begins with none of the bytes that end one.
scan_word-cons :
    (c : ℕ) (s : Bytes) → ends_word c ≡ false → length (scan_word [] (c ∷ s)).1 ≤ length s
unfolding scan_word
scan_word-cons c [] h = ground arith
scan_word-cons c (d ∷ s) h =
    ground (arith, scan_word-shorter (d ∷ []) s, scan_word-shorter (c ∷ []) (d ∷ s))

-- What one round does: it reads at least the byte before `s`, keeps the words apart, and throws
-- nothing of the model's own.
abbrev pub Progress : Bytes → Result (Bytes × List Token) → Type 0
Progress s (ok (rest, ts)) = (length rest ≤ length s) × Alternates false ts
Progress s (throw e) = e ≢ out_of_fuel

push_word-Progress :
    (why : Failure) (w rest s : Bytes) (tokens : List Token)
    → why ≢ out_of_fuel
    → length rest ≤ length s
    → Alternates false tokens
    → Progress s (do tokens' ← push_word why w tokens; ok (rest, tokens'))
unfolding push_word
push_word-Progress why [] rest s tokens ne h a = (h, a)
push_word-Progress why (c ∷ w) rest s tokens ne h a = elim (Bool-cases (ends_with_word tokens)) [
  | inl y ↦ rw y ne
  | inr n ↦ rw n (
    h,
    Alternates-concat false tokens (word (c ∷ w)) a (λ e. ground arith) (λ _ e. ground arith)
        (λ e. cc),
  )
]

quoted_step-Progress :
    (quote : ℕ) (s : Bytes) (tokens : List Token)
    → Alternates false tokens
    → Progress s (quoted_step quote s tokens)
unfolding quoted_step
quoted_step-Progress quote s tokens a =
    let (w, rest, prev) = scan_quoted quote quote [] s in
    elim (Bool-cases (is_unmatched quote rest prev)) [
      | inl y ↦ rw y (λ e. cc)
      | inr n ↦ rw n (
          push_word-Progress adjacent_quoted_words w rest s tokens (λ e. cc)
            (scan_quoted-shorter quote quote [] s) a)
    ]

unquoted_step-Progress :
    (c : ℕ) (s : Bytes) (tokens : List Token)
    → ends_word c ≡ false
    → Alternates false tokens
    → Progress s (unquoted_step (c ∷ s) tokens)
unfolding unquoted_step
unquoted_step-Progress c s tokens h a =
    push_word-Progress adjacent_unquoted_words _ _ s tokens (λ e. cc) (scan_word-cons c s h) a

concat-Alternates :
    (tokens : List Token) (t : Token)
    → is_word t ≡ false
    → Alternates false tokens
    → Alternates false (tokens ++ t ∷ [])
concat-Alternates tokens t h a =
    Alternates-concat false tokens t a (λ _. h) (λ _ _. h) (λ e. ground (arith, h, e))

token_step-Progress :
    (c : ℕ) (s : Bytes) (tokens : List Token)
    → Alternates false tokens
    → Progress s (token_step c s tokens)
unfolding token_step
token_step-Progress c s tokens a = ground (
  arith,
  quoted_step-Progress c s tokens a,
  unquoted_step-Progress c s tokens,
  length-drop-le 2 s,
  length-drop-le 1 s,
  concat-Alternates tokens lparen refl a,
  concat-Alternates tokens rparen refl a,
  concat-Alternates tokens and refl a,
  concat-Alternates tokens or refl a,
  concat-Alternates tokens negate refl a,
)

-- The result of the tokenizer: words that stand apart, or an exception of the program's.
abbrev pub Tokenized : Result (List Token) → Type 0
Tokenized (ok ts) = Alternates false ts
Tokenized (throw e) = e ≢ out_of_fuel

tokenize_loop-Tokenized :
    (fuel : ℕ) (s : Bytes) (tokens : List Token)
    → length s < fuel
    → Alternates false tokens
    → Tokenized (tokenize_loop fuel s tokens)
unfolding tokenize_loop
tokenize_loop-Tokenized zero s tokens h a = absurd (omega arith)
tokenize_loop-Tokenized (suc fuel) [] tokens h a = a
tokenize_loop-Tokenized (suc fuel) (c ∷ s) tokens h a =
    go (token_step c s tokens) (token_step-Progress c s tokens a)
      (λ rest ts. tokenize_loop-Tokenized fuel rest ts)
  where
    go :
        (r : Result (Bytes × List Token))
        → Progress s r
        → ((rest : Bytes) (ts : List Token)
            → length rest < fuel
            → Alternates false ts
            → Tokenized (tokenize_loop fuel rest ts))
        → Tokenized (do (rest, ts) ← r; tokenize_loop fuel rest ts)
    go (ok (rest, ts)) p ih = ih rest ts (omega arith) p.1
    go (throw e) p ih = p

-- The tokenizer ends on every text. What it returns has no empty word and no two words side by
-- side.
pub tokenize-Tokenized : (src : Bytes) → Tokenized (tokenize src)
unfolding tokenize
tokenize-Tokenized src = tokenize_loop-Tokenized (length src + 1) src [] (omega arith) tt
