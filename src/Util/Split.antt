-- ===== src/Util/Split.antt =====
-- `util::split` of src/util/util.cpp.
use drlog_search.Base.{
  ℕ, zero, suc, ◌+◌, ◌<◌, Bool, true, false, none, some, List, [], ◌∷◌, ◌++◌, append-nil,
  append_assoc, Bytes, codes, ◌≡◌, refl, sym, ap, ◌∙◌, ◌⊎◌, inl, inr, ◌≢◌, arith, length,
  Option-cases, All, All-append,
}
use drlog_search.Text.{getline}
use drlog_search.Text.Find.{getline_sound, getline-ne-none}

-- `while (std::getline(ss, token, delimiter)) tokens.push_back(token)`, with fuel.
split_loop : ℕ → Bytes → ℕ → List Bytes → List Bytes
split_loop zero s delimiter tokens = tokens
split_loop (suc fuel) s delimiter tokens = elim (getline delimiter s) [
  | none ↦ tokens
  | some (token, rest, met) ↦ split_loop fuel rest delimiter (tokens ++ token ∷ [])
]

-- Each round reads a byte at least, so the fuel suffices.
unfoldable pub split : Bytes → ℕ → List Bytes
unfolding split_loop getline
split str delimiter = split_loop (length str + 1) str delimiter []

-- Every token with the delimiter behind it.
abbrev pub terminated : ℕ → List Bytes → Bytes
terminated d [] = []
terminated d (t ∷ ts) = t ++ d ∷ terminated d ts

pub terminated-append :
    (d : ℕ) (ts us : List Bytes) → terminated d (ts ++ us) ≡ terminated d ts ++ terminated d us
terminated-append d [] us = refl
terminated-append d (t ∷ ts) us = simp (terminated-append d ts us, append_assoc)

-- Two texts are the same but for one delimiter that the first may have at its end.
abbrev pub SameUpToEnd : ℕ → Bytes → Bytes → Type 0
SameUpToEnd d t s = (t ≡ s) ⊎ (t ≡ s ++ d ∷ [])

split_loop-nil : (fuel : ℕ) (d : ℕ) (tokens : List Bytes) → split_loop fuel [] d tokens ≡ tokens
unfolding split_loop getline
split_loop-nil zero d tokens = refl
split_loop-nil (suc fuel) d tokens = refl

split_loop_step :
    (fuel : ℕ) (d : ℕ) (s l r : Bytes) (met : Bool) (tokens : List Bytes)
    → getline d s ≡ some (l, r, met)
    → split_loop (suc fuel) s d tokens ≡ split_loop fuel r d (tokens ++ l ∷ [])
unfolding split_loop
split_loop_step fuel d s l r met tokens e = ground arith

pub terminated-concat :
    (d : ℕ) (tokens : List Bytes) (l r : Bytes)
    → terminated d (tokens ++ l ∷ []) ++ r ≡ terminated d tokens ++ (l ++ d ∷ r)
terminated-concat d tokens l r = simp (terminated-append, append_assoc)

-- Only the text past the last delimiter may lack one.
split_loop_sound :
    (fuel : ℕ) (d : ℕ) (s : Bytes) (tokens : List Bytes)
    → length s < fuel
    → All (All (λ c. c ≢ d)) tokens
    → SameUpToEnd d (terminated d (split_loop fuel s d tokens)) (terminated d tokens ++ s)
      × All (All (λ c. c ≢ d)) (split_loop fuel s d tokens)
split_loop_sound zero d s tokens h a = absurd (omega arith)
split_loop_sound (suc fuel) d [] tokens h a =
    rw (split_loop-nil (suc fuel) d tokens) (inl (sym (append-nil _)), a)
split_loop_sound (suc fuel) d (c ∷ s') tokens h a =
    let s = c ∷ s' in
    elim (Option-cases (getline d s)) [
      | inl eq ↦ absurd (getline-ne-none d c s' eq)
      | inr ((l, r, true), eq) ↦
          let (splits, lacks, shorter, _) = getline_sound d s l r true eq in
          rw (split_loop_step fuel d s l r true tokens eq) (
            rw (terminated-concat d tokens l r ∙ ap (◌++◌ (terminated d tokens)) (sym splits)) at (
              split_loop_sound fuel d r (tokens ++ l ∷ []) (omega arith)
                (All-append _ tokens (l ∷ []) a (lacks, tt))))
      | inr ((l, r, false), eq) ↦
          let (splits, lacks, shorter, at_end) = getline_sound d s l r false eq in
          rw (split_loop_step fuel d s l r false tokens eq) (
            rw (at_end refl) (
              rw (split_loop-nil fuel d (tokens ++ l ∷ [])) (
                inr (rw splits (simp (terminated-append, append_assoc))),
                All-append _ tokens (l ∷ []) a (lacks, tt),
              )))
    ]

-- The tokens of a split hold no delimiter, and with a delimiter behind each of them they spell the
-- text, up to one delimiter at its end.
pub split_sound :
    (str : Bytes) (delimiter : ℕ)
    → SameUpToEnd delimiter (terminated delimiter (split str delimiter)) str
      × All (All (λ c. c ≢ delimiter)) (split str delimiter)
split_sound str d = unfold split in split_loop_sound (length str + 1) d str [] (omega arith) tt

splits_paths : split (codes "a,,b,") b',' ≡ codes "a" ∷ [] ∷ codes "b" ∷ []
unfolding split
splits_paths = refl
