-- ===== src/Indexer/Txt/Sound.antt =====
-- Every entry of a text file's index is the place and the time of a line.
use drlog_search.Base.{
  ℕ, zero, suc, ◌+◌, ◌≤◌, true, false, ◌&&◌, ◌||◌, none, some, List, [], ◌∷◌, ◌++◌, append_assoc,
  Bytes, ◌==◌, ltb, ◌≡◌, refl, ap, ◌∙◌, ◌⊎◌, inl, inr, ◌≢◌, arith, drop, length, length-append,
  ==_iff, is_empty, Bool-cases, Option-cases, All,
}
use drlog_search.Text.{cut_at}
use drlog_search.Text.Find.{cut_at_sound}
use drlog_search.Indexer.Info.{TimeIndex}
use drlog_search.Indexer.Txt.{
  max_line_size, bucket_of, Indexing, is_due, record_line, index_line, index_cut, index_loop,
  close_index, index_from,
}
use drlog_search.Indexer.Txt.Entries.{
  LineAt, BeginsLine, Marks, Rising, Entries, Entries-weaken, Entries-concat,
}

is_empty_nil {ℓ} : {A : Type ℓ} (xs : List A) → is_empty xs ≡ true → xs ≡ []
is_empty_nil [] h = refl
is_empty_nil (x ∷ xs) h = absurd (ground (arith, h))

module _ (timestamp_of : Bytes → ℕ) (interval count_threshold : ℕ) where
  -- The last line that was seen, if it is not empty, stands where it is said, behind all entries.
  abbrev pub Seen : Bytes → Indexing → Type 0
  Seen file st =
      st.last_line ≢ []
      → LineAt file st.last_offset st.last_line
        × Entries timestamp_of interval count_threshold file st.last_offset st.outputs

  pub record Good (file : Bytes) (offset : ℕ) (st : Indexing) : Type 0 where
    pub entries : Entries timestamp_of interval count_threshold file offset st.outputs
    pub seen : Seen file st

  record_line-Entries :
      (file : Bytes) (st : Indexing) (offset : ℕ) (line : Bytes)
      → LineAt file offset line
      → timestamp_of line ≢ 0
      → Entries timestamp_of interval count_threshold file offset st.outputs
      → Entries timestamp_of interval count_threshold file offset
          (record_line timestamp_of interval count_threshold st offset (timestamp_of line)).outputs
  unfolding record_line
  record_line-Entries file st offset line at ne e =
      elim (Bool-cases (
        is_due timestamp_of interval count_threshold st (bucket_of interval (timestamp_of line)))) [
          | inl y ↦ rw y (
              Entries-concat timestamp_of interval count_threshold file offset st.outputs _ refl
                (record { line = line; at = at; timed = ne; time = inl refl }) e)
          | inr n ↦ rw n e
        ]

  record_line-keeps :
      (st : Indexing) (offset ts : ℕ)
      → ((record_line timestamp_of interval count_threshold st offset ts).last_line ≡ st.last_line)
        × ((record_line timestamp_of interval count_threshold st offset ts).last_offset
            ≡ st.last_offset)
  unfolding record_line
  record_line-keeps st offset ts = ground arith

  -- A line that is read keeps what is known.
  index_line-Good :
      (file : Bytes) (st : Indexing) (offset : ℕ) (line : Bytes)
      → LineAt file offset line
      → Good file offset st
      → Good file offset (index_line timestamp_of interval count_threshold st offset line).1
  unfolding index_line
  index_line-Good file st offset line at g = elim (Bool-cases (ltb max_line_size (length line))) [
    | inl y ↦ rw y (record { entries = g.entries; seen = g.seen })
    | inr n ↦ rw n (elim (Bool-cases (timestamp_of line == 0)) [
      | inl z ↦ rw z (record { entries = g.entries; seen = λ _. (at, g.entries) })
      | inr ne ↦ rw ne (
          let seen = record st { last_line = line; last_offset = offset } in
          let timed : timestamp_of line ≢ 0 = λ z. absurd (ground (arith, z, ne)) in
          let e = record_line-Entries file seen offset line at timed g.entries in
          let (k, l) = record_line-keeps seen offset (timestamp_of line) in
          record { entries = e; seen = λ _. rw (k, l) (at, e) })
    ])
  ]

  pub Good-weaken :
      (file : Bytes) (a b : ℕ) (st : Indexing) → a ≤ b → Good file a st → Good file b st
  Good-weaken file a b st h g = record {
    entries = Entries-weaken timestamp_of interval count_threshold file a b st.outputs h g.entries;
    seen = g.seen;
  }

  not_start :
      (position : ℕ) (st : Indexing)
      → st.last_line ≢ []
      → st.outputs ≢ []
      → (position ≡ 0 → (st.last_line ≡ []) ⊎ (st.outputs ≡ []))
      → (position == 0) ≡ false
  not_start position st l o z = elim (Bool-cases (position == 0)) [
    | inl y ↦ elim (z ((==_iff _ _).0 y)) [ inl h ↦ absurd (l h) | inr h ↦ absurd (o h) ]
    | inr n ↦ n
  ]

  close_index-Marks :
      (file : Bytes) (position offset : ℕ) (st : Indexing)
      → Good file offset st
      → (position ≡ 0 → (st.last_line ≡ []) ⊎ (st.outputs ≡ []))
      → All
          (Marks timestamp_of interval count_threshold file)
          (close_index timestamp_of interval count_threshold (position, st))
        × Rising timestamp_of interval count_threshold
            (close_index timestamp_of interval count_threshold (position, st))
  unfolding close_index
  close_index-Marks file position offset st g z =
      elim (Bool-cases
        (is_empty st.outputs || is_empty st.last_line || timestamp_of st.last_line == 0)) [
          | inl y ↦ rw y (g.entries.marks, g.entries.rising)
          | inr n ↦
              let some_line : st.last_line ≢ [] = λ h. absurd (ground (arith, n, h)) in
              let some_output : st.outputs ≢ [] = λ h. absurd (ground (arith, n, h)) in
              let timed : timestamp_of st.last_line ≢ 0 = λ h. absurd (ground (arith, n, h)) in
              let far : (position == 0) ≡ false = not_start position st some_line some_output z in
              let (at, e) = g.seen some_line in
              let last =
                Entries-concat timestamp_of interval count_threshold file st.last_offset st.outputs
                  (record { timestamp = timestamp_of st.last_line; offset = st.last_offset }) refl
                  (record { line = st.last_line; at = at; timed = timed; time = inr refl }) e in
              rw (n, far) (last.marks, last.rising)
        ]

  index_line-stops :
      (st : Indexing) (offset : ℕ) (line : Bytes)
      → (index_line timestamp_of interval count_threshold st offset line).0 ≡ true
      → (index_line timestamp_of interval count_threshold st offset line).1.outputs ≡ []
  unfolding index_line
  index_line-stops st offset line h = elim (Bool-cases (ltb max_line_size (length line))) [
    | inl y ↦ absurd (let z : false ≡ true = rw y at h in ground (arith, z))
    | inr n ↦ elim (Bool-cases (timestamp_of line == 0)) [
      | inl z ↦
          let k : (ltb 5000 (st.skipped_lines + 1) && is_empty st.outputs) ≡ true =
            rw (n, z) at h in
          rw (n, z) (is_empty_nil st.outputs (ground (arith, k)))
      | inr t ↦ absurd (let z : false ≡ true = rw (n, t) at h in ground (arith, z))
    ]
  ]

  index_loop-end :
      (fuel : ℕ) (rest : Bytes) (offset : ℕ) (st : Indexing)
      → cut_at b'\n' rest ≡ none
      → index_loop timestamp_of interval count_threshold (suc fuel) rest offset st ≡ (offset, st)
  unfolding index_loop index_cut
  index_loop-end fuel rest offset st h = ground (arith, h)

  index_loop-stop :
      (fuel : ℕ) (rest line rest' : Bytes) (offset : ℕ) (st : Indexing)
      → cut_at b'\n' rest ≡ some (line, rest')
      → (index_line timestamp_of interval count_threshold st offset line).0 ≡ true
      → index_loop timestamp_of interval count_threshold (suc fuel) rest offset st
        ≡ (offset, (index_line timestamp_of interval count_threshold st offset line).1)
  unfolding index_loop index_cut
  index_loop-stop fuel rest line rest' offset st h f = rw (h, f)

  index_loop-next :
      (fuel : ℕ) (rest line rest' : Bytes) (offset : ℕ) (st : Indexing)
      → cut_at b'\n' rest ≡ some (line, rest')
      → (index_line timestamp_of interval count_threshold st offset line).0 ≡ false
      → index_loop timestamp_of interval count_threshold (suc fuel) rest offset st
        ≡ index_loop timestamp_of interval count_threshold fuel rest'
            (offset + length line + 1)
            (index_line timestamp_of interval count_threshold st offset line).1
  unfolding index_loop index_cut
  index_loop-next fuel rest line rest' offset st h f = rw (h, f)

  -- What the loop leaves, to be closed.
  record Closable (file : Bytes) (r : ℕ × Indexing) : Type 0 where
    good : Good file r.0 r.1
    start : r.0 ≡ 0 → (r.1.last_line ≡ []) ⊎ (r.1.outputs ≡ [])

  index_loop-Closable :
      (fuel : ℕ) (file before rest : Bytes) (offset : ℕ) (st : Indexing)
      → file ≡ before ++ rest
      → length before ≡ offset
      → BeginsLine before
      → Good file offset st
      → (offset ≡ 0 → (st.last_line ≡ []) ⊎ (st.outputs ≡ []))
      → Closable file (index_loop timestamp_of interval count_threshold fuel rest offset st)
  index_loop-Closable zero file before rest offset st sp l b g z =
      unfold index_loop in record { good = g; start = z }
  index_loop-Closable (suc fuel) file before rest offset st sp l b g z =
      elim (Option-cases (cut_at b'\n' rest)) [
        | inl e ↦ rw (index_loop-end fuel rest offset st e) (record { good = g; start = z })
        | inr ((line, rest'), e) ↦
            let (cuts, lacks) = cut_at_sound b'\n' rest line rest' e in
            let at : LineAt file offset line = record {
              before = before;
              after = rest';
              splits = sp ∙ ap (◌++◌ before) cuts;
              placed = l;
              begins = b;
              whole = lacks;
            } in
            let g' = index_line-Good file st offset line at g in
            let before' = before ++ (line ++ b'\n' ∷ []) in
            elim (Bool-cases (index_line timestamp_of interval count_threshold st offset line).0) [
              | inl f ↦
                  rw (index_loop-stop fuel rest line rest' offset st e f)
                    (record { good = g'; start = λ _. inr (index_line-stops st offset line f) })
              | inr f ↦ rw (index_loop-next fuel rest line rest' offset st e f) (
                  index_loop-Closable fuel file before' rest' (offset + length line + 1) _
                    (sp ∙ rw (cuts, append_assoc, append_assoc))
                    (omega (
                      arith,
                      length-append before (line ++ b'\n' ∷ []),
                      length-append line (b'\n' ∷ []),
                    ))
                    (inr (before ++ line, rw append_assoc))
                    (Good-weaken file offset (offset + length line + 1) _ (omega arith) g')
                    (λ h. absurd (omega arith)))
            ]
      ]

  pub index_from-Marks :
      (file before rest : Bytes) (outputs : List TimeIndex) (bucket : ℕ)
      → file ≡ before ++ rest
      → drop (length before) file ≡ rest
      → BeginsLine before
      → Entries timestamp_of interval count_threshold file (length before) outputs
      → All
          (Marks timestamp_of interval count_threshold file)
          (index_from timestamp_of interval count_threshold file (length before) outputs bucket)
        × Rising timestamp_of interval count_threshold
            (index_from timestamp_of interval count_threshold file (length before) outputs bucket)
  unfolding index_from
  index_from-Marks file before rest outputs bucket sp dr b e =
      let c =
        index_loop-Closable (length file) file before rest (length before)
          (record {
            outputs = outputs;
            last_recorded_bucket = bucket;
            lines_since_last = 0;
            skipped_lines = 0;
            last_line = [];
            last_offset = 0;
          })
          sp refl b (record { entries = e; seen = λ h. absurd (h refl) }) (λ _. inl refl) in
      rw dr (close_index-Marks file _ _ _ c.good c.start)
