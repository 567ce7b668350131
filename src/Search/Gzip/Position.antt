-- ===== src/Search/Gzip/Position.antt =====
-- The start position in a stream.
use drlog_search.Base.{
  ℕ, zero, suc, ◌+◌, ◌-◌, ◌%◌, ◌^◌, ◌≤◌, ◌<◌, true, false, [], ◌∷◌, ◌++◌, append-nil, Bytes, ◌==◌,
  ltb, leb, ◌≡◌, refl, ap, drop-append-past, sym, ◌∙◌, ◌⊎◌, inl, inr, ◌≢◌, arith, drop, length,
  length-append, lt→leb, lt→ltb, Bool-cases,
}
use drlog_search.Util.Igzip.{ReadResult, read}
use drlog_search.Search.Gzip.{buf_size, is_short, positioned, skip_chunk, skip_loop}

-- A read that fills the buffer is not short, nor one that gives the bytes that are asked for.
is_short-full : (n remaining : ℕ) → (buf_size ≤ n) ⊎ (remaining ≤ n) → is_short n remaining ≡ false
unfolding is_short
is_short-full n remaining (inl full) = ground arith
is_short-full n remaining (inr enough) =
    let l : remaining % 2 ^ 32 ≤ remaining = omega arith in ground arith

module _ {Stream : Type 0} (igzread : Stream → ReadResult × Stream) where
  -- The reads up to a start position, from a number of bytes on: each gives a byte at least, and
  -- fills the buffer or reaches the position.
  pub data Passes (start : ℕ) : ℕ → Stream → Bytes → Stream → Type 0 where
    arrived : {total : ℕ} {s : Stream} → start ≤ total → Passes start total s [] s
    chunk :
        {total : ℕ} {s t u : Stream} (bytes later : Bytes)
        → total < start
        → igzread s ≡ (read bytes, t)
        → bytes ≢ []
        → (buf_size ≤ length bytes) ⊎ (start - total ≤ length bytes)
        → Passes start (total + length bytes) t later u
        → Passes start total s (bytes ++ later) u

  pub Passes-reach :
      (start total : ℕ) (s : Stream) (passed : Bytes) (t : Stream)
      → Passes start total s passed t
      → start ≤ total + length passed
  Passes-reach start total s _ _ (arrived h) = omega arith
  Passes-reach start total s _ u (chunk {t = t} bytes later h r ne f p) =
      let l = Passes-reach start (total + length bytes) t later u p in
      omega (arith, length-append bytes later)

  skip_loop-arrived :
      (fuel start total : ℕ) (s : Stream)
      → start ≤ total
      → skip_loop igzread fuel start total s ≡ positioned total [] s
  unfolding skip_loop
  skip_loop-arrived zero start total s h = refl
  skip_loop-arrived (suc fuel) start total s h =
      let y : leb start total ≡ true = ground arith in rw y refl

  skip_loop-inside :
      (fuel start total : ℕ) (s t : Stream) (c : ℕ) (cs : Bytes)
      → total < start
      → igzread s ≡ (read (c ∷ cs), t)
      → is_short (length (c ∷ cs)) (start - total) ≡ false
      → start < total + length (c ∷ cs)
      → skip_loop igzread (suc fuel) start total s
        ≡ positioned (total + length (c ∷ cs)) (drop (start - total) (c ∷ cs)) t
  unfolding skip_loop skip_chunk
  skip_loop-inside fuel start total s t c cs h r n inside =
      let size = length (c ∷ cs) in
      let counted : (size == 0) ≡ false = ground arith in
      let fits : ltb size (total + size - start) ≡ false = ground arith in
      let same : size - (total + size - start) ≡ start - total = omega arith in
      rw (lt→leb _ _ h, r, counted, n, lt→ltb _ _ inside, fits, same) refl

  skip_loop-next :
      (fuel start total : ℕ) (s t : Stream) (c : ℕ) (cs : Bytes)
      → total < start
      → igzread s ≡ (read (c ∷ cs), t)
      → is_short (length (c ∷ cs)) (start - total) ≡ false
      → total + length (c ∷ cs) ≤ start
      → skip_loop igzread (suc fuel) start total s
        ≡ skip_loop igzread fuel start (total + length (c ∷ cs)) t
  unfolding skip_loop skip_chunk
  skip_loop-next fuel start total s t c cs h r n before =
      let size = length (c ∷ cs) in
      let counted : (size == 0) ≡ false = ground arith in
      let on : ltb start (total + size) ≡ false = ground arith in
      rw (lt→leb _ _ h, r, counted, n, on) refl

  Passes-nil :
      (start total : ℕ) (s : Stream) (passed : Bytes) (t : Stream)
      → Passes start total s passed t
      → start ≤ total
      → (passed ≡ []) × (s ≡ t)
  Passes-nil start total s _ _ (arrived h) l = (refl, refl)
  Passes-nil start total s _ u (chunk bytes later h r ne f p) l = absurd (omega arith)

  -- With fuel for the bytes up to the start position, where the reads pass it: the positioning ends
  -- behind the bytes that are passed, and carries over those of them behind the start position.
  pub skip_loop-Passes :
      (start fuel total : ℕ) (s : Stream) (passed : Bytes) (t : Stream)
      → start ≤ total + fuel
      → Passes start total s passed t
      → skip_loop igzread fuel start total s
        ≡ positioned (total + length passed) (drop (start - total) passed) t
  skip_loop-Passes start fuel total s _ _ l (arrived h) =
      let z : start - total ≡ 0 = omega arith in
      let k : total + length {A = ℕ} [] ≡ total = omega arith in
      rw (z, k) (skip_loop-arrived fuel start total s h)
  skip_loop-Passes start zero total s _ u l (chunk bytes later h r ne f p) = absurd (omega arith)
  skip_loop-Passes start (suc fuel) total s _ u l (chunk [] later h r ne f p) = absurd (ne refl)
  skip_loop-Passes start (suc fuel) total s _ u l (chunk {t = t} (c ∷ cs) later h r ne f p) =
      let bytes = c ∷ cs in
      let n = is_short-full (length bytes) (start - total) f in
      let added : total + length (bytes ++ later) ≡ total + length bytes + length later =
        omega (arith, length-append bytes later) in
      elim (Bool-cases (ltb start (total + length bytes))) [
        | inl y ↦
            let inside : start < total + length bytes = ground arith in
            let (z, w) = Passes-nil start (total + length bytes) t later u p (omega arith) in
            let whole : bytes ++ later ≡ bytes = rw z (append-nil bytes) in
            skip_loop-inside fuel start total s t c cs h r n inside
            ∙ ap (λ v. positioned (total + length bytes) (drop (start - total) bytes) v) w
            ∙ ap (λ b. positioned (total + length b) (drop (start - total) b) u) (sym whole)
        | inr k ↦
            let before : total + length bytes ≤ start = ground arith in
            let past : start - (total + length bytes) ≡ start - total - length bytes =
              omega arith in
            skip_loop-next fuel start total s t c cs h r n before
            ∙ skip_loop-Passes start fuel (total + length bytes) t later u (omega arith) p
            ∙ rw (added, past, drop-append-past (start - total) bytes later (omega arith)) refl
      ]
