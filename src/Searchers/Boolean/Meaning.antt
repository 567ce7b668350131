-- ===== src/Searchers/Boolean/Meaning.antt =====
-- What an expression says of a line.
use drlog_search.Base.{ℕ, none, some, ◌++◌, Bytes, ◌≡◌, ap, ◌⊎◌, arith}
use drlog_search.Text.{find}
use drlog_search.Text.Find.{find_sound, find_complete}
use drlog_search.Searchers.Boolean.{
  Node, Nodes, null, word, negation, conjunction, disjunction, nil, cons,
}

-- Some part of the line is the word.
abbrev pub Contains : Bytes → Bytes → Type 0
Contains line w = (before : Bytes) × (after : Bytes) × (line ≡ before ++ (w ++ after))

-- The truth of an expression about a line: a word is true if the line contains it. A null pointer
-- and a negation with no child are false.
abbrev mutual
  pub Holds : Bytes → Node → Type 0
  Holds line null = ⊥
  Holds line (word w) = Contains line w
  Holds line (negation cs) = FailsFirst line cs
  Holds line (conjunction cs) = HoldsAll line cs
  Holds line (disjunction cs) = HoldsAny line cs

  pub FailsFirst : Bytes → Nodes → Type 0
  FailsFirst line nil = ⊥
  FailsFirst line (cons c cs) = ¬ Holds line c

  pub HoldsAll : Bytes → Nodes → Type 0
  HoldsAll line nil = Unit
  HoldsAll line (cons c cs) = Holds line c × HoldsAll line cs

  pub HoldsAny : Bytes → Nodes → Type 0
  HoldsAny line nil = ⊥
  HoldsAny line (cons c cs) = Holds line c ⊎ HoldsAny line cs

pub find-Contains : (line w : Bytes) (i : ℕ) → find line w ≡ some i → Contains line w
find-Contains line w i e =
    let (before, after, splits, _) = find_sound line w i e in (before, after, splits)

pub find-none : (line w : Bytes) → find line w ≡ none → ¬ Contains line w
find-none line w e (before, after, splits) =
    let (i, found, _) = find_complete before w after in
    ground (arith, e, ap (λ l. find l w) splits, found)
