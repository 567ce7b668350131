-- ===== src/Indexer/Txt/Entries.antt =====
-- Entries of an index that mark lines of a file.
use drlog_search.Base.{
  ℕ, ◌≤◌, List, [], ◌∷◌, ◌++◌, Bytes, ◌≡◌, ◌⊎◌, ◌≢◌, arith, length, All, All-append,
}
use drlog_search.Indexer.Info.{TimeIndex}
use drlog_search.Indexer.Txt.{bucket_of}

-- The text begins here, or a newline stands before.
abbrev pub BeginsLine : Bytes → Type 0
BeginsLine before = (before ≡ []) ⊎ ((b : Bytes) × (before ≡ b ++ b'\n' ∷ []))

-- A whole line of the file: it begins at the offset, and a newline ends it.
pub record LineAt (file : Bytes) (offset : ℕ) (line : Bytes) : Type 0 where
  pub before : Bytes
  pub after : Bytes
  pub splits : file ≡ before ++ (line ++ b'\n' ∷ after)
  pub placed : length before ≡ offset
  pub begins : BeginsLine before
  pub whole : All (λ c. c ≢ b'\n') line

module _ (timestamp_of : Bytes → ℕ) (interval count_threshold : ℕ) where
  -- The entry stands for a line of the file that has a timestamp, and its time is that timestamp or
  -- the bucket that the timestamp falls in.
  pub record Marks (file : Bytes) (entry : TimeIndex) : Type 0 where
    pub line : Bytes
    pub at : LineAt file entry.offset line
    pub timed : timestamp_of line ≢ 0
    pub time :
        (entry.timestamp ≡ bucket_of interval (timestamp_of line))
        ⊎ (entry.timestamp ≡ timestamp_of line)

  abbrev pub UpTo : ℕ → TimeIndex → Type 0
  UpTo offset entry = entry.offset ≤ offset

  -- The offsets do not fall.
  abbrev pub Rising : List TimeIndex → Type 0
  Rising [] = Unit
  Rising (x ∷ xs) = All (λ y. x.offset ≤ y.offset) xs × Rising xs

  UpTo-weaken : (a b : ℕ) (xs : List TimeIndex) → a ≤ b → All (UpTo a) xs → All (UpTo b) xs
  UpTo-weaken a b [] h u = tt
  UpTo-weaken a b (x ∷ xs) h u = (omega (arith, u.0), UpTo-weaken a b xs h u.1)

  Rising-concat :
      (xs : List TimeIndex) (t : TimeIndex)
      → Rising xs
      → All (UpTo t.offset) xs
      → Rising (xs ++ t ∷ [])
  Rising-concat [] t r u = (tt, tt)
  Rising-concat (x ∷ xs) t r u =
      (All-append (λ y. x.offset ≤ y.offset) xs (t ∷ []) r.0 (u.0, tt), Rising-concat xs t r.1 u.1)

  -- What is known of the entries: they mark lines, rise, and lie up to `offset`.
  pub record Entries (file : Bytes) (offset : ℕ) (xs : List TimeIndex) : Type 0 where
    pub marks : All (Marks file) xs
    pub rising : Rising xs
    pub up_to : All (UpTo offset) xs

  pub Entries-weaken :
      (file : Bytes) (a b : ℕ) (xs : List TimeIndex) → a ≤ b → Entries file a xs → Entries file b xs
  Entries-weaken file a b xs h e = record {
    marks = e.marks;
    rising = e.rising;
    up_to = UpTo-weaken a b xs h e.up_to;
  }

  pub Entries-concat :
      (file : Bytes) (offset : ℕ) (xs : List TimeIndex) (t : TimeIndex)
      → t.offset ≡ offset
      → Marks file t
      → Entries file offset xs
      → Entries file offset (xs ++ t ∷ [])
  Entries-concat file offset xs t h m e = record {
    marks = All-append (Marks file) xs (t ∷ []) e.marks (m, tt);
    rising = Rising-concat xs t e.rising (UpTo-weaken offset t.offset xs (omega arith) e.up_to);
    up_to = All-append (UpTo offset) xs (t ∷ []) e.up_to (omega arith, tt);
  }
