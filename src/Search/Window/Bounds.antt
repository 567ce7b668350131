-- ===== src/Search/Window/Bounds.antt =====
-- The loop of `find_index_pos` keeps the bounds of the intervals that meet the time range.
use drlog_search.Base.{
  ℕ, zero, suc, ◌+◌, ◌≤◌, Bool, true, false, none, some, List, [], ◌∷◌, ltb, if◌then◌else◌, ◌≡◌,
  refl, inl, inr, arith, Bool-cases,
}
use drlog_search.Base.{get_elem?}
use drlog_search.Indexer.Info.{TimeIndex}
use drlog_search.Search.Window.{timestamp_covers, Found, widen, window_loop}

module _ (start_time end_time : ℕ) where
  -- The interval behind the entry `k` meets the time range.
  pub record Covers (xs : List TimeIndex) (k : ℕ) : Type 0 where
    pub first : TimeIndex
    pub second : TimeIndex
    pub first_at : get_elem? xs k ≡ some first
    pub second_at : get_elem? xs (suc k) ≡ some second
    pub meets : timestamp_covers first.timestamp second.timestamp start_time end_time ≡ true

  Covers-suc : (x : TimeIndex) (xs : List TimeIndex) (k : ℕ) → Covers xs k → Covers (x ∷ xs) (suc k)
  Covers-suc x xs k c = record {
    first = c.first;
    second = c.second;
    first_at = c.first_at;
    second_at = c.second_at;
    meets = c.meets;
  }

  Covers-pred :
      (x : TimeIndex) (xs : List TimeIndex) (k : ℕ) → Covers (x ∷ xs) (suc k) → Covers xs k
  Covers-pred x xs k c = record {
    first = c.first;
    second = c.second;
    first_at = c.first_at;
    second_at = c.second_at;
    meets = c.meets;
  }

  -- The bounds enclose `lo` to `hi`.
  abbrev pub Encloses : ℕ → ℕ → Found → Type 0
  Encloses lo hi none = ⊥
  Encloses lo hi (some (s, e)) = (s ≤ lo) × (hi ≤ e)

  Encloses-widen : (lo hi i : ℕ) (f : Found) → Encloses lo hi f → Encloses lo hi (widen f i)
  Encloses-widen lo hi i none h = absurd h
  Encloses-widen lo hi i (some (s, e)) h = ground arith

  Encloses-here : (i : ℕ) (f : Found) → Encloses i (i + 1) (widen f i)
  Encloses-here i none = omega arith
  Encloses-here i (some (s, e)) = ground arith

  window_loop-keeps :
      (xs : List TimeIndex) (lo hi i : ℕ) (f : Found)
      → Encloses lo hi f
      → Encloses lo hi (window_loop start_time end_time i xs f)
  unfolding window_loop
  window_loop-keeps [] lo hi i f h = h
  window_loop-keeps (a ∷ []) lo hi i f h = h
  window_loop-keeps (a ∷ b ∷ xs) lo hi i f h =
      elim (Bool-cases (timestamp_covers a.timestamp b.timestamp start_time end_time)) [
        | inl y ↦ window_loop-keeps (b ∷ xs) lo hi (i + 1) _ (rw y (Encloses-widen lo hi i f h))
        | inr n ↦ window_loop-keeps (b ∷ xs) lo hi (i + 1) _ (rw n h)
      ]

  -- Every interval that meets the range lies within the bounds.
  pub window_loop-Encloses :
      (xs : List TimeIndex) (i k j : ℕ) (f : Found)
      → i + k ≡ j
      → Covers xs k
      → Encloses j (j + 1) (window_loop start_time end_time i xs f)
  unfolding window_loop
  window_loop-Encloses [] i k j f e c = absurd (ground (arith, c.first_at))
  window_loop-Encloses (a ∷ []) i k j f e c = absurd (ground (arith, c.second_at))
  window_loop-Encloses (a ∷ b ∷ xs) i zero j f e c =
      let m : timestamp_covers a.timestamp b.timestamp start_time end_time ≡ true =
        ground (arith, c.meets, c.first_at, c.second_at) in
      let same : i ≡ j = omega arith in
      rw (m, ← same) (window_loop-keeps (b ∷ xs) i (i + 1) (i + 1) (widen f i) (Encloses-here i f))
  window_loop-Encloses (a ∷ b ∷ xs) i (suc k) j f e c =
      window_loop-Encloses (b ∷ xs) (i + 1) k j _ (omega arith) (Covers-pred a (b ∷ xs) k c)

  -- The bounds are the ends of intervals of which `P` holds.
  abbrev pub Valid : (ℕ → Type 0) → Found → Type 0
  Valid P none = Unit
  Valid P (some (s, e)) = P s × ((k : ℕ) × (e ≡ k + 1) × P k)

  Valid-widen : (P : ℕ → Type 0) (f : Found) (i : ℕ) → P i → Valid P f → Valid P (widen f i)
  Valid-widen P none i p v = (p, (i, refl, p))
  Valid-widen P (some (s, e)) i p v = (low (ltb i s), high (ltb e (i + 1)))
    where
      low : (b : Bool) → P (if b then i else s)
      low true = p
      low false = v.0

      high : (b : Bool) → (k : ℕ) × ((if b then i + 1 else e) ≡ k + 1) × P k
      high true = (i, refl, p)
      high false = v.1

  pub window_loop-Valid :
      (P : ℕ → Type 0) (xs : List TimeIndex) (i : ℕ) (f : Found)
      → ((k j : ℕ) → i + k ≡ j → Covers xs k → P j)
      → Valid P f
      → Valid P (window_loop start_time end_time i xs f)
  unfolding window_loop
  window_loop-Valid P [] i f h v = v
  window_loop-Valid P (a ∷ []) i f h v = v
  window_loop-Valid P (a ∷ b ∷ xs) i f h v =
      let later : (k j : ℕ) → i + 1 + k ≡ j → Covers (b ∷ xs) k → P j =
        λ k j e c. h (suc k) j (omega arith) (Covers-suc a (b ∷ xs) k c) in
      elim (Bool-cases (timestamp_covers a.timestamp b.timestamp start_time end_time)) [
        | inl y ↦ window_loop-Valid P (b ∷ xs) (i + 1) _ later (
            rw y (
              Valid-widen P f i
                (h 0 i (omega arith)
                  (record { first = a; second = b; first_at = refl; second_at = refl; meets = y }))
                v))
        | inr n ↦ window_loop-Valid P (b ∷ xs) (i + 1) _ later (rw n v)
      ]
