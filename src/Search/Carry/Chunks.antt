-- ===== src/Search/Carry/Chunks.antt =====
-- Cutting lines chunk by chunk gives the lines of the whole text.
use drlog_search.Base.{
  ℕ, zero, suc, ◌+◌, ◌≤◌, ◌<◌, none, some, List, [], ◌∷◌, ◌++◌, Bytes, ◌≡◌, refl, sym, ap, ◌∙◌, inl,
  inr, ◌≢◌, arith, length, length-append, Option-cases, All, All-append,
}
use drlog_search.Text.{cut_at}
use drlog_search.Text.Find.{cut_at_sound, cut_at-none, cut_at_append_left}
use drlog_search.Util.Split.{terminated, terminated-concat}
use drlog_search.Search.Carry.{get_lines_loop, get_lines_gzip}

abbrev pub LacksNewline : Bytes → Type 0
LacksNewline = All (λ c. c ≢ b'\n')

get_lines_step :
    (fuel : ℕ) (carry line rest : Bytes) (lines : List Bytes)
    → cut_at b'\n' carry ≡ some (line, rest)
    → get_lines_loop (suc fuel) carry lines ≡ get_lines_loop fuel rest (lines ++ line ∷ [])
unfolding get_lines_loop
get_lines_step fuel carry line rest lines e = ground arith

get_lines_stop :
    (fuel : ℕ) (carry : Bytes) (lines : List Bytes)
    → cut_at b'\n' carry ≡ none
    → get_lines_loop fuel carry lines ≡ (carry, lines)
unfolding get_lines_loop
get_lines_stop zero carry lines e = refl
get_lines_stop (suc fuel) carry lines e = ground arith

cut_shorter :
    (carry line rest : Bytes) → cut_at b'\n' carry ≡ some (line, rest) → length rest < length carry
cut_shorter carry line rest e =
    omega
      (arith, ap length (cut_at_sound b'\n' carry line rest e).0, length-append line (b'\n' ∷ rest))

-- The lines and the rest spell the text, and no newline is left in them.
record Cut (carry : Bytes) (lines : List Bytes) (r : Bytes × List Bytes) : Type 0 where
  spells : terminated b'\n' r.1 ++ r.0 ≡ terminated b'\n' lines ++ carry
  rest_lacks : LacksNewline r.0
  lines_lack : All LacksNewline r.1

get_lines_loop-Cut :
    (fuel : ℕ) (carry : Bytes) (lines : List Bytes)
    → length carry ≤ fuel
    → All LacksNewline lines
    → Cut carry lines (get_lines_loop fuel carry lines)
get_lines_loop-Cut zero [] lines h a =
    unfold get_lines_loop in record { spells = refl; rest_lacks = tt; lines_lack = a }
get_lines_loop-Cut zero (c ∷ s) lines h a = absurd (omega arith)
get_lines_loop-Cut (suc fuel) carry lines h a = elim (Option-cases (cut_at b'\n' carry)) [
  | inl e ↦
      rw (get_lines_stop (suc fuel) carry lines e)
        (record { spells = refl; rest_lacks = cut_at-none b'\n' carry e; lines_lack = a })
  | inr ((line, rest), e) ↦
      let (splits, lacks) = cut_at_sound b'\n' carry line rest e in
      let ih =
        get_lines_loop-Cut fuel rest (lines ++ line ∷ [])
          (omega (arith, cut_shorter carry line rest e))
          (All-append _ lines (line ∷ []) a (lacks, tt)) in
      rw (get_lines_step fuel carry line rest lines e) (record {
        spells =
            ih.spells
            ∙ terminated-concat b'\n' lines line rest
            ∙ ap (◌++◌ (terminated b'\n' lines)) (sym splits);
        rest_lacks = ih.rest_lacks;
        lines_lack = ih.lines_lack;
      })
]

-- The lines that `get_lines_gzip` cuts off, each with its newline, and the rest that it leaves
-- spell the text that it was given; neither the rest nor a line holds a newline.
pub get_lines_gzip_sound :
    (carry : Bytes)
    → (terminated b'\n' (get_lines_gzip carry []).1 ++ (get_lines_gzip carry []).0 ≡ carry)
      × LacksNewline (get_lines_gzip carry []).0
      × All LacksNewline (get_lines_gzip carry []).1
unfolding get_lines_gzip
get_lines_gzip_sound carry =
    let c = get_lines_loop-Cut (length carry) carry [] (omega arith) tt in
    (c.spells, c.rest_lacks, c.lines_lack)

-- Enough fuel is as good as more.
get_lines_fuel :
    (f g : ℕ) (carry : Bytes) (lines : List Bytes)
    → length carry ≤ f
    → length carry ≤ g
    → get_lines_loop f carry lines ≡ get_lines_loop g carry lines
get_lines_fuel zero zero carry lines h k = refl
get_lines_fuel (suc f) zero carry lines h k = elim (Option-cases (cut_at b'\n' carry)) [
  | inl e ↦ get_lines_stop (suc f) carry lines e ∙ sym (get_lines_stop zero carry lines e)
  | inr ((line, rest), e) ↦ absurd (omega (arith, cut_shorter carry line rest e))
]
get_lines_fuel zero (suc g) carry lines h k = elim (Option-cases (cut_at b'\n' carry)) [
  | inl e ↦ get_lines_stop zero carry lines e ∙ sym (get_lines_stop (suc g) carry lines e)
  | inr ((line, rest), e) ↦ absurd (omega (arith, cut_shorter carry line rest e))
]
get_lines_fuel (suc f) (suc g) carry lines h k = elim (Option-cases (cut_at b'\n' carry)) [
  | inl e ↦ get_lines_stop (suc f) carry lines e ∙ sym (get_lines_stop (suc g) carry lines e)
  | inr ((line, rest), e) ↦
      get_lines_step f carry line rest lines e
      ∙ get_lines_fuel f g rest (lines ++ line ∷ []) (omega (arith, cut_shorter carry line rest e))
          (omega (arith, cut_shorter carry line rest e))
      ∙ sym (get_lines_step g carry line rest lines e)
]

get_lines_shorter :
    (f : ℕ) (carry : Bytes) (lines : List Bytes)
    → length (get_lines_loop f carry lines).0 ≤ length carry
get_lines_shorter zero carry lines = unfold get_lines_loop in omega arith
get_lines_shorter (suc f) carry lines = elim (Option-cases (cut_at b'\n' carry)) [
  | inl e ↦ rw (get_lines_stop (suc f) carry lines e) (omega arith)
  | inr ((line, rest), e) ↦
      rw (get_lines_step f carry line rest lines e) (
        omega (arith, cut_shorter carry line rest e, get_lines_shorter f rest (lines ++ line ∷ [])))
]

chunk_loop :
    (f g : ℕ) (a b : Bytes) (lines : List Bytes)
    → length a ≤ f
    → length a + length b ≤ g
    → get_lines_loop g (a ++ b) lines
      ≡ get_lines_loop g ((get_lines_loop f a lines).0 ++ b) (get_lines_loop f a lines).1
chunk_loop zero g a b lines h k = unfold get_lines_loop in refl
chunk_loop (suc f) zero a b lines h k = elim (Option-cases (cut_at b'\n' a)) [
  | inl e ↦ rw (get_lines_stop (suc f) a lines e)
  | inr ((line, rest), e) ↦ absurd (omega (arith, cut_shorter a line rest e))
]
chunk_loop (suc f) (suc g) a b lines h k = elim (Option-cases (cut_at b'\n' a)) [
  | inl e ↦ rw (get_lines_stop (suc f) a lines e)
  | inr ((line, rest), e) ↦
      let here = lines ++ line ∷ [] in
      let shorter = cut_shorter a line rest e in
      let left = get_lines_shorter f rest here in
      rw (get_lines_step f a line rest lines e) (
        get_lines_step g (a ++ b) line (rest ++ b) lines (cut_at_append_left b'\n' a b line rest e)
        ∙ chunk_loop f g rest b here (omega arith) (omega arith)
        ∙ get_lines_fuel g (suc g) ((get_lines_loop f rest here).0 ++ b)
            (get_lines_loop f rest here).1
            (omega (arith, length-append (get_lines_loop f rest here).0 b))
            (omega (arith, length-append (get_lines_loop f rest here).0 b)))
]

-- A text that comes in two chunks, the second behind what the first call left, gives the same lines
-- and the same rest as the text at once.
pub get_lines_gzip_chunks :
    (a b : Bytes) (lines : List Bytes)
    → get_lines_gzip (a ++ b) lines
      ≡ get_lines_gzip ((get_lines_gzip a lines).0 ++ b) (get_lines_gzip a lines).1
unfolding get_lines_gzip
get_lines_gzip_chunks a b lines =
    let r = get_lines_loop (length a) a lines in
    chunk_loop (length a) (length (a ++ b)) a b lines (omega arith)
      (omega (arith, length-append a b))
    ∙ get_lines_fuel (length (a ++ b)) (length (r.0 ++ b)) (r.0 ++ b) r.1
        (omega
          (arith, length-append a b, length-append r.0 b, get_lines_shorter (length a) a lines))
        (omega arith)
