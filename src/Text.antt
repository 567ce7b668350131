-- ===== src/Text.antt =====
-- `std::string` operations that the program calls: `find`, `substr`, `getline`'s cut at a byte.
-- `none` stands for `std::string::npos`.
pub mod Find
use drlog_search.Base.{
  ℕ, suc, Bool, true, false, ◌&&◌, Option, none, some, List, [], ◌∷◌, Bytes, ◌==◌,
}
use mathlib.Core.Option

-- `s.compare(0, pat.size(), pat) == 0`
unfoldable pub starts_with : Bytes → Bytes → Bool
starts_with s [] = true
starts_with [] (p ∷ pat) = false
starts_with (c ∷ s) (p ∷ pat) = c == p && starts_with s pat

-- `s.find(pat)`: the first place where `pat` stands.
unfoldable pub find : Bytes → Bytes → Option ℕ
unfolding starts_with
find [] pat = elim (starts_with [] pat) [ true ↦ some 0 | false ↦ none ]
find (c ∷ s) pat = elim (starts_with (c ∷ s) pat) [
  | true ↦ some 0
  | false ↦ Option.map suc (find s pat)
]

-- The bytes before the first `b` and those behind it.
unfoldable pub cut_at : ℕ → Bytes → Option (Bytes × Bytes)
cut_at b [] = none
cut_at b (c ∷ s) = elim (c == b) [
  | true ↦ some ([], s)
  | false ↦ Option.map (λ (r : Bytes × Bytes). (c ∷ r.0, r.1)) (cut_at b s)
]

-- `std::getline` with a delimiter: the line, what is left, and whether the delimiter was met.
-- `none` is the failure at the end of the stream.
unfoldable pub getline : ℕ → Bytes → Option (Bytes × Bytes × Bool)
unfolding cut_at
getline b [] = none
getline b (c ∷ s) = elim (cut_at b (c ∷ s)) [
  | none ↦ some (c ∷ s, [], false)
  | some (l, r) ↦ some (l, r, true)
]
