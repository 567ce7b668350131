-- ===== src/Text/Find.antt =====
-- What `find` and `cut_at` return.
use drlog_search.Base.{
  ℕ, suc, ◌≤◌, true, none, some, [], ◌∷◌, ◌++◌, Bytes, ◌≡◌, refl, ap, inl, inr, ◌≢◌, arith, drop,
  length, Bool-cases, Option-cases, All, append_assoc, Bool, false, if◌then◌else◌, length-append,
  ◌<◌,
}
use drlog_search.Text.{starts_with, find, cut_at, getline}

pub starts_with-append : (pat after : Bytes) → starts_with (pat ++ after) pat ≡ true
unfolding starts_with
starts_with-append [] after = ground arith
starts_with-append (p ∷ pat) after = ground (arith, starts_with-append pat after)

pub starts_with-eq : (s pat : Bytes) → starts_with s pat ≡ true → s ≡ pat ++ drop (length pat) s
unfolding starts_with
starts_with-eq s [] h = refl
starts_with-eq [] (p ∷ pat) h = cc
starts_with-eq (c ∷ s) (p ∷ pat) h = ground (arith, starts_with-eq s pat)

-- A hit is a place where the pattern stands.
pub find_sound :
    (s pat : Bytes) (i : ℕ)
    → find s pat ≡ some i
    → (before : Bytes) × (after : Bytes) × (s ≡ before ++ (pat ++ after)) × (length before ≡ i)
unfolding find
find_sound [] pat i h = elim (Bool-cases (starts_with [] pat)) [
  | inl t ↦ ([], drop (length pat) [], starts_with-eq [] pat t, ground arith)
  | inr f ↦ absurd (ground arith)
]
find_sound (c ∷ s) pat i h = elim (Bool-cases (starts_with (c ∷ s) pat)) [
  | inl t ↦ ([], drop (length pat) (c ∷ s), starts_with-eq (c ∷ s) pat t, ground arith)
  | inr f ↦ elim (Option-cases (find s pat)) [
    | inl e ↦ absurd (ground arith)
    | inr (j, e) ↦
        let (before, after, sp, le) = find_sound s pat j e in
        (c ∷ before, after, ap (◌∷◌ c) sp, ground arith)
  ]
]

-- A pattern that stands in the text is found, at its first place or before.
pub find_complete :
    (before pat after : Bytes)
    → (i : ℕ) × (find (before ++ (pat ++ after)) pat ≡ some i) × (i ≤ length before)
unfolding find
find_complete [] [] [] = (0, refl, omega arith)
find_complete [] [] (c ∷ s) = (0, refl, omega arith)
find_complete [] (p ∷ pat) after =
    (0, ground (arith, starts_with-append (p ∷ pat) after), omega arith)
find_complete (c ∷ before) pat after =
    let (i, e, l) = find_complete before pat after in
    elim (Bool-cases (starts_with (c ∷ (before ++ (pat ++ after))) pat)) [
      | inl t ↦ (0, ground arith, omega arith)
      | inr f ↦ (suc i, ground arith, omega arith)
    ]

pub cut_at_sound :
    (b : ℕ) (s : Bytes) (l r : Bytes)
    → cut_at b s ≡ some (l, r)
    → (s ≡ l ++ b ∷ r) × All (λ c. c ≢ b) l
unfolding cut_at
cut_at_sound b [] l r h = cc
cut_at_sound b (c ∷ s) [] r h = ground arith
cut_at_sound b (c ∷ s) (x ∷ l) r h = ground (arith, cut_at_sound b s l r)

pub cut_at-none : (b : ℕ) (s : Bytes) → cut_at b s ≡ none → All (λ c. c ≢ b) s
unfolding cut_at
cut_at-none b [] h = tt
cut_at-none b (c ∷ s) h = ground (arith, cut_at-none b s)

pub cut_at-append : (b : ℕ) (l r : Bytes) → All (λ c. c ≢ b) l → cut_at b (l ++ b ∷ r) ≡ some (l, r)
unfolding cut_at
cut_at-append b [] r h = ground arith
cut_at-append b (c ∷ l) r h = ground (arith, cut_at-append b l r h.1)

pub cut_at-Lacks : (b : ℕ) (s : Bytes) → All (λ c. c ≢ b) s → cut_at b s ≡ none
unfolding cut_at
cut_at-Lacks b [] h = refl
cut_at-Lacks b (c ∷ s) h = ground (arith, cut_at-Lacks b s h.1)

-- A line and what is left spell the stream; the line holds no delimiter, and something was read.
pub getline_sound :
    (b : ℕ) (s l r : Bytes) (met : Bool)
    → getline b s ≡ some (l, r, met)
    → (s ≡ (if met then l ++ b ∷ r else l))
      × All (λ c. c ≢ b) l
      × (length r < length s)
      × (met ≡ false → r ≡ [])
unfolding getline
getline_sound b [] l r met h = cc
getline_sound b (c ∷ s) l r met h = elim (Option-cases (cut_at b (c ∷ s))) [
  | inl e ↦ ground (arith, cut_at-none b (c ∷ s) e)
  | inr ((l', r'), e) ↦ ground (arith, cut_at_sound b (c ∷ s) l' r' e, length-append l' (b ∷ r'))
]

pub getline-ne-none : (b c : ℕ) (s : Bytes) → getline b (c ∷ s) ≢ none
unfolding getline
getline-ne-none b c s h = elim (Option-cases (cut_at b (c ∷ s))) [
  | inl e ↦ ground (arith, e)
  | inr ((l, r), e) ↦ ground (arith, e)
]

-- Text behind the first `b` does not change where it is cut.
pub cut_at_append_left :
    (b : ℕ) (s t l r : Bytes) → cut_at b s ≡ some (l, r) → cut_at b (s ++ t) ≡ some (l, r ++ t)
cut_at_append_left b s t l r e =
    let (splits, lacks) = cut_at_sound b s l r e in
    rw (splits, append_assoc) (cut_at-append b l (r ++ t) lacks)
