-- ===== src/Search/Window.antt =====
-- `LogSearcher::timestamp_covers` and `find_index_pos`.
pub mod Bounds
pub mod Spans
use drlog_search.Base.{
  ℕ, ◌+◌, ◌-◌, Bool, ◌&&◌, Option, none, some, List, [], ◌∷◌, ltb, leb, if◌then◌else◌,
}
use drlog_search.Base.{get_elem?}
use native.Mathlib.Numerals.{add-one}
use drlog_search.Indexer.Info.{TimeIndex}

unfoldable pub timestamp_covers : ℕ → ℕ → ℕ → ℕ → Bool
timestamp_covers idx_start idx_end start_time end_time =
    leb idx_start end_time && leb start_time idx_end

-- `start_idx` and `end_idx` once an interval is found; `none` is the pair 0x7FFFFFFF and -1 that
-- they have before, with `be_fount` false.
abbrev pub Found : Type 0
Found = Option (ℕ × ℕ)

abbrev pub widen : Found → ℕ → Found
widen none i = some (i, i + 1)
widen (some (s, e)) i = some ((if ltb i s then i else s), (if ltb e (i + 1) then i + 1 else e))

-- The positions that `find_index_pos` leaves in the context.
pub record Window : Type 0 where
  pub index_start_time : ℕ
  pub index_start_pos : ℕ
  pub index_end_time : ℕ
  pub index_end_pos : ℕ

module _ (start_time end_time : ℕ) where
  -- The loop over the intervals between neighbours, from the interval `i` on.
  unfoldable pub window_loop : ℕ → List TimeIndex → Found → Found
  unfolding timestamp_covers
  window_loop i [] found = found
  window_loop i (a ∷ []) found = found
  window_loop i (a ∷ b ∷ xs) found = window_loop (i + 1) (b ∷ xs) (
      if timestamp_covers a.timestamp b.timestamp start_time end_time then widen found i else found)

  unfoldable pub window_at : List TimeIndex → Found → Option Window
  window_at time_indexes none = none
  window_at time_indexes (some (s, e)) = elim (get_elem? time_indexes s) [
    | none ↦ none
    | some a ↦ elim (get_elem? time_indexes e) [
      | none ↦ none
      | some b ↦ some (record {
        index_start_time = a.timestamp;
        index_start_pos = a.offset;
        index_end_time = b.timestamp;
        index_end_pos = b.offset;
      })
    ]
  ]

  -- `none` is the answer false.
  unfoldable pub find_index_pos : List TimeIndex → Option Window
  unfolding window_loop window_at
  find_index_pos time_indexes = window_at time_indexes (window_loop 0 time_indexes none)
