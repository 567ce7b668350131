-- ===== src/Search/Carry.antt =====
-- `LogSearcher::get_lines_gzip`: the whole lines of `carry` are cut off, and the rest stays. A
-- position in `carry` is what is left of it from there; each of the ways to return leaves `carry`
-- at that.
pub mod Chunks
use drlog_search.Base.{
  ℕ, zero, suc, ◌+◌, none, some, List, [], ◌∷◌, ◌++◌, Bytes, codes, ◌≡◌, refl, length,
}
use drlog_search.Text.{cut_at}

unfoldable pub get_lines_loop : ℕ → Bytes → List Bytes → Bytes × List Bytes
get_lines_loop zero carry lines = (carry, lines)
get_lines_loop (suc fuel) carry lines = elim (cut_at b'\n' carry) [
  | none ↦ (carry, lines)
  | some (line, rest) ↦ get_lines_loop fuel rest (lines ++ line ∷ [])
]

-- Each round cuts off a byte at least, so the fuel suffices.
unfoldable pub get_lines_gzip : Bytes → List Bytes → Bytes × List Bytes
unfolding get_lines_loop cut_at
get_lines_gzip carry lines = get_lines_loop (length carry) carry lines
