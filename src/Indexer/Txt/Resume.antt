-- ===== src/Indexer/Txt/Resume.antt =====
-- Going on with an index, or beginning one.
use drlog_search.Base.{
  ℕ, ◌≤◌, Option, none, some, List, [], ◌∷◌, ◌++◌, Bytes, ltb, ◌≡◌, refl, drop-append, ap, inl, inr,
  arith, length, Bool-cases, Option-cases, All,
}
use drlog_search.Indexer.Info.{TimeIndex, FileIndex}
use drlog_search.Indexer.Txt.{
  index_from, split_last, resume_from, resume, time_indexes_of, update_file_index_txt_mmap,
}
use drlog_search.Indexer.Txt.Entries.{Marks, UpTo, Rising}
use drlog_search.Indexer.Txt.Sound.{index_from-Marks}

All-split {ℓ} :
    {A : Type ℓ} (P : A → Type 0) (xs ys : List A) → All P (xs ++ ys) → All P xs × All P ys
All-split P [] ys h = (tt, h)
All-split P (x ∷ xs) ys h = let (a, b) = All-split P xs ys h.1 in ((h.0, a), b)

split_last-none : (xs : List TimeIndex) → split_last xs ≡ none → xs ≡ []
split_last-none [] h = refl
split_last-none (x ∷ xs) h = elim (Option-cases (split_last xs)) [
  | inl e ↦ absurd (
      let z : ◌≡◌ {A = Option (List TimeIndex × TimeIndex)} (some ([], x)) none = rw e at h in
      ground (arith, z))
  | inr ((ys, y), e) ↦ absurd (
      let z : ◌≡◌ {A = Option (List TimeIndex × TimeIndex)} (some (x ∷ ys, y)) none = rw e at h in
      ground (arith, z))
]

split_last_sound :
    (xs init : List TimeIndex) (last : TimeIndex)
    → split_last xs ≡ some (init, last)
    → xs ≡ init ++ last ∷ []
split_last_sound [] init last h = absurd (ground (arith, h))
split_last_sound (x ∷ xs) init last h = elim (Option-cases (split_last xs)) [
  | inl e ↦
      let here : ◌≡◌ {A = Option (List TimeIndex × TimeIndex)} (some ([], x)) (some (init, last)) =
        rw e at h in
      let (a, b) : ([] ≡ init) × (x ≡ last) = (cc, cc) in
      rw (← a, ← b) (ap (◌∷◌ x) (split_last-none xs e))
  | inr ((ys, y), e) ↦
      let here : ◌≡◌ {A = Option (List TimeIndex × TimeIndex)} (some (x ∷ ys, y))
          (some (init, last)) =
        rw e at h in
      let (a, b) : (x ∷ ys ≡ init) × (y ≡ last) = (cc, cc) in
      rw (← a, ← b) (ap (◌∷◌ x) (split_last_sound xs ys y e))
]

module _ (timestamp_of : Bytes → ℕ) (interval count_threshold : ℕ) where
  Rising-init :
      (xs : List TimeIndex) (t : TimeIndex)
      → Rising timestamp_of interval count_threshold (xs ++ t ∷ [])
      → Rising timestamp_of interval count_threshold xs
        × All (UpTo timestamp_of interval count_threshold t.offset) xs
  Rising-init [] t r = (tt, tt)
  Rising-init (x ∷ xs) t r =
      let (a, b) = All-split (λ y. x.offset ≤ y.offset) xs (t ∷ []) r.0 in
      let (c, d) = Rising-init xs t r.1 in ((a, c), (b.0, d))

  fresh-Marks :
      (file : Bytes)
      → All
          (Marks timestamp_of interval count_threshold file)
          (index_from timestamp_of interval count_threshold file 0 [] 0)
        × Rising timestamp_of interval count_threshold
            (index_from timestamp_of interval count_threshold file 0 [] 0)
  fresh-Marks file =
      index_from-Marks timestamp_of interval count_threshold file [] file [] 0 refl refl (inl refl)
        (record { marks = tt; rising = tt; up_to = tt })

  resume_from-Marks :
      (file : Bytes) (init : List TimeIndex) (last : TimeIndex)
      (o : Option (List TimeIndex × TimeIndex))
      → All (Marks timestamp_of interval count_threshold file) (init ++ last ∷ [])
      → Rising timestamp_of interval count_threshold (init ++ last ∷ [])
      → All
          (Marks timestamp_of interval count_threshold file)
          (resume_from timestamp_of interval count_threshold file init last o)
        × Rising timestamp_of interval count_threshold
            (resume_from timestamp_of interval count_threshold file init last o)
  unfolding resume_from
  resume_from-Marks file init last none m r = fresh-Marks file
  resume_from-Marks file init last (some (_, previous)) m r =
      elim (Bool-cases (ltb last.offset (length file))) [
        | inl y ↦
            let (ms, (l, _)) =
              All-split (Marks timestamp_of interval count_threshold file) init (last ∷ []) m in
            let (rising, up_to) = Rising-init init last r in
            let placed = l.at.placed in
            rw (y, ← placed)
              (index_from-Marks timestamp_of interval count_threshold file l.at.before
                (l.line ++ b'\n' ∷ l.at.after) init previous.timestamp l.at.splits
                (rw l.at.splits (drop-append l.at.before _)) l.at.begins
                (record { marks = ms; rising = rising; up_to = rw placed up_to }))
        | inr n ↦ rw n (fresh-Marks file)
      ]

  resume-Marks :
      (file : Bytes) (xs : List TimeIndex) (o : Option (List TimeIndex × TimeIndex))
      → split_last xs ≡ o
      → All (Marks timestamp_of interval count_threshold file) xs
      → Rising timestamp_of interval count_threshold xs
      → All
          (Marks timestamp_of interval count_threshold file)
          (resume timestamp_of interval count_threshold file o)
        × Rising timestamp_of interval count_threshold
            (resume timestamp_of interval count_threshold file o)
  unfolding resume
  resume-Marks file xs none e m r = fresh-Marks file
  resume-Marks file xs (some (init, last)) e m r =
      let s = split_last_sound xs init last e in
      resume_from-Marks file init last (split_last init) (rw s at m) (rw s at r)

  -- An index that is built anew, or gone on with from an index whose entries mark lines of the file
  -- and do not fall, has entries that mark lines of the file, and their offsets do not fall. An
  -- entry marks a line if the line begins at its offset, ends with a newline, has a timestamp, and
  -- the entry has that time or that of its bucket.
  pub update_file_index_txt_mmap-Marks :
      (index : Option FileIndex) (file : Bytes)
      → All (Marks timestamp_of interval count_threshold file) (time_indexes_of index)
      → Rising timestamp_of interval count_threshold (time_indexes_of index)
      → All
          (Marks timestamp_of interval count_threshold file)
          (update_file_index_txt_mmap timestamp_of interval count_threshold index (some file))
        × Rising timestamp_of interval count_threshold
            (update_file_index_txt_mmap timestamp_of interval count_threshold index (some file))
  unfolding update_file_index_txt_mmap
  update_file_index_txt_mmap-Marks index file m r =
      resume-Marks file (time_indexes_of index) (split_last (time_indexes_of index)) refl m r
