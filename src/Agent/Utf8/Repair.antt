-- ===== src/Agent/Utf8/Repair.antt =====
-- What `ensure_utf8` returns is made of whole sequences, and a text of whole sequences is left as
-- it is.
use drlog_search.Base.{
  ℕ, zero, suc, ◌≤◌, true, Option, some, [], ◌∷◌, ◌++◌, Bytes, ◌≡◌, refl, ap, inl, inr, arith,
  length, length-append, Bool-cases, Option-cases, All,
}
use drlog_search.Agent.Utf8.{
  is_continuation, sequence, continuation, copy_sequence, sequence_step, utf8_step, utf8_loop,
  ensure_utf8,
}

-- A text of whole sequences: a byte of each of the five kinds that can begin one, with as many
-- continuation bytes behind it as it announces. (Overlong forms and surrogates are let through.)
pub data IsUtf8 : Bytes → Type 0 where
  done : IsUtf8 []
  next :
      (c count : ℕ) (copied rest : Bytes)
      → sequence c ≡ some count
      → All (λ d. is_continuation d ≡ true) copied
      → length copied ≡ count
      → IsUtf8 rest
      → IsUtf8 (c ∷ (copied ++ rest))

continuation_sound :
    (count : ℕ) (s copied rest : Bytes)
    → continuation count s ≡ some (copied, rest)
    → (s ≡ copied ++ rest) × All (λ d. is_continuation d ≡ true) copied × (length copied ≡ count)
unfolding continuation
continuation_sound zero s [] rest h = ground (arith, h)
continuation_sound zero s (c ∷ copied) rest h = ground (arith, h)
continuation_sound (suc count) [] copied rest h = cc
continuation_sound (suc count) (c ∷ s) copied rest h = elim (Bool-cases (is_continuation c)) [
  | inl y ↦ elim (Option-cases (continuation count s)) [
    | inl e ↦ ground (arith, h, y, e)
    | inr ((cs, r), e) ↦
        let same : ◌≡◌ {A = Option (Bytes × Bytes)} (some (c ∷ cs, r)) (some (copied, rest)) =
          rw (y, e) at h in
        let (first, second) : (c ∷ cs ≡ copied) × (r ≡ rest) = (cc, cc) in
        let (splits, a, l) = continuation_sound count s cs r e in
        rw (← first, ← second) (ap (◌∷◌ c) splits, (y, a), omega (arith, l))
  ]
  | inr n ↦ ground (arith, h, n)
]

continuation-append :
    (copied rest : Bytes)
    → All (λ d. is_continuation d ≡ true) copied
    → continuation (length copied) (copied ++ rest) ≡ some (copied, rest)
unfolding continuation
continuation-append [] rest a = refl
continuation-append (c ∷ copied) rest a = rw (a.0, continuation-append copied rest a.1)

utf8_step-IsUtf8 : (c : ℕ) (s t : Bytes) → IsUtf8 t → IsUtf8 ((utf8_step c s).0 ++ t)
unfolding utf8_step sequence_step copy_sequence
utf8_step-IsUtf8 c s t u = elim (Option-cases (sequence c)) [
  | inl e ↦ rw e (next b'?' 0 [] t refl tt refl u)
  | inr (count, e) ↦ rw e (elim (Option-cases (continuation count s)) [
    | inl n ↦ rw n (next b'?' 0 [] t refl tt refl u)
    | inr ((copied, rest), k) ↦
        rw k (
          let (_, a, l) = continuation_sound count s copied rest k in next c count copied t e a l u)
  ])
]

utf8_step-shorter : (c : ℕ) (s : Bytes) → length (utf8_step c s).1 ≤ length s
unfolding utf8_step sequence_step copy_sequence
utf8_step-shorter c s = elim (Option-cases (sequence c)) [
  | inl e ↦ rw e (omega arith)
  | inr (count, e) ↦ rw e (elim (Option-cases (continuation count s)) [
    | inl n ↦ rw n (omega arith)
    | inr ((copied, rest), k) ↦ rw k (
        let (splits, _, _) = continuation_sound count s copied rest k in
        let l : length s ≡ length (copied ++ rest) = ap length splits in
        omega (arith, l, length-append copied rest))
  ])
]

utf8_loop-IsUtf8 : (fuel : ℕ) (s : Bytes) → IsUtf8 (utf8_loop fuel s)
unfolding utf8_loop
utf8_loop-IsUtf8 zero s = done
utf8_loop-IsUtf8 (suc fuel) [] = done
utf8_loop-IsUtf8 (suc fuel) (c ∷ s) =
    utf8_step-IsUtf8 c s _ (utf8_loop-IsUtf8 fuel (utf8_step c s).1)

utf8_step-next :
    (c count : ℕ) (copied rest : Bytes)
    → sequence c ≡ some count
    → All (λ d. is_continuation d ≡ true) copied
    → length copied ≡ count
    → utf8_step c (copied ++ rest) ≡ (c ∷ copied, rest)
unfolding utf8_step sequence_step copy_sequence
utf8_step-next c count copied rest e a l = rw (e, ← l, continuation-append copied rest a)

utf8_loop-keeps : (fuel : ℕ) (s : Bytes) → IsUtf8 s → length s ≤ fuel → utf8_loop fuel s ≡ s
unfolding utf8_loop
utf8_loop-keeps zero _ done h = refl
utf8_loop-keeps (suc fuel) _ done h = refl
utf8_loop-keeps zero _ (next c count copied rest e a l u) h = absurd (omega arith)
utf8_loop-keeps (suc fuel) _ (next c count copied rest e a l u) h =
    rw (utf8_step-next c count copied rest e a l)
      (rw (utf8_loop-keeps fuel rest u (omega (arith, length-append copied rest))))

-- The result of `ensure_utf8` is text of whole sequences for whatever bytes, and a text of whole
-- sequences comes out as it went in.
pub ensure_utf8_lem : (s : Bytes) → IsUtf8 (ensure_utf8 s) × (IsUtf8 s → ensure_utf8 s ≡ s)
unfolding ensure_utf8
ensure_utf8_lem s =
    (utf8_loop-IsUtf8 (length s) s, λ u. utf8_loop-keeps (length s) s u (omega arith))
