-- ===== src/Search/Window/Spans.antt =====
-- The window of `find_index_pos` spans the intervals that meet the time range.
use drlog_search.Base.{ℕ, ◌+◌, ◌≤◌, none, some, List, ◌≡◌, refl, ◌⊎◌, inl, inr, arith}
use native.Mathlib.Numerals.{add-one}
use drlog_search.Base.{get_elem?}
use drlog_search.Indexer.Info.{TimeIndex}
use drlog_search.Search.Window.{Found, Window, window_loop, window_at, find_index_pos}
use drlog_search.Search.Window.Bounds.{
  Covers, Encloses, Valid, window_loop-Encloses, window_loop-Valid,
}

-- What a window says: it begins where one interval that meets the range begins, it ends where one
-- ends, and no interval that meets the range lies outside.
pub record Spans (start_time end_time : ℕ) (xs : List TimeIndex) (w : Window) : Type 0 where
  pub lowest : ℕ
  pub highest : ℕ
  pub lowest_covers : Covers start_time end_time xs lowest
  pub highest_covers : Covers start_time end_time xs highest
  pub begins : lowest_covers.first.offset ≡ w.index_start_pos
  pub ends : highest_covers.second.offset ≡ w.index_end_pos
  pub bounds : (k : ℕ) → Covers start_time end_time xs k → (lowest ≤ k) × (k ≤ highest)

module _ (start_time end_time : ℕ) where
  window_at-Spans :
      (xs : List TimeIndex) (f : Found)
      → Valid start_time end_time (Covers start_time end_time xs) f
      → ((k : ℕ) → Covers start_time end_time xs k → Encloses start_time end_time k (k + 1) f)
      → ((window_at start_time end_time xs f ≡ none)
          × ((k : ℕ) → ¬ Covers start_time end_time xs k))
        ⊎ ((w : Window) × (window_at start_time end_time xs f ≡ some w)
            × Spans start_time end_time xs w)
  unfolding window_at
  window_at-Spans xs none v h = inl (refl, h)
  window_at-Spans xs (some (s, e)) (c, (k, ek, d)) h = inr (
    record {
      index_start_time = c.first.timestamp;
      index_start_pos = c.first.offset;
      index_end_time = d.second.timestamp;
      index_end_pos = d.second.offset;
    },
    (let g : get_elem? xs e ≡ some d.second = rw (ek, add-one) d.second_at in
        ground (arith, c.first_at, g)),
    record {
      lowest = s;
      highest = k;
      lowest_covers = c;
      highest_covers = d;
      begins = refl;
      ends = refl;
      bounds = λ j cj. (omega (arith, (h j cj).0), omega (arith, (h j cj).1));
    },
  )

  -- For every index and time range, either `find_index_pos` answers false and no interval between
  -- neighbours of the index meets the range, or it answers a window that spans all that do: it
  -- begins at the offset where the first of them begins, and ends at the offset where the last one
  -- ends.
  pub find_index_pos-Spans :
      (xs : List TimeIndex)
      → ((find_index_pos start_time end_time xs ≡ none)
          × ((k : ℕ) → ¬ Covers start_time end_time xs k))
        ⊎ ((w : Window) × (find_index_pos start_time end_time xs ≡ some w)
            × Spans start_time end_time xs w)
  unfolding find_index_pos
  find_index_pos-Spans xs =
      window_at-Spans xs (window_loop start_time end_time 0 xs none)
        (window_loop-Valid start_time end_time (Covers start_time end_time xs) xs 0 none
          (λ k j e c. let same : k ≡ j = omega arith in rw (← same) c) tt)
        (λ k c. window_loop-Encloses start_time end_time xs 0 k k none (omega arith) c)
