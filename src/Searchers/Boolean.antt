-- ===== src/Searchers/Boolean.antt =====
-- src/agent/searchers/boolean_searcher: the tree, and `search_line`.
pub mod Meaning
pub mod Matching
pub mod Failure
pub mod Token
pub mod Parse
pub mod Build
use drlog_search.Base.{
  ℕ, ◌+◌, Bool, true, false, not, Option, none, some, List, [], ◌∷◌, ◌++◌, Bytes, if◌then◌else◌,
}
use drlog_search.Text.{find}
use drlog_search.Searchers.Word.{MatchedWord}

-- `boolean_node` behind its pointer: `null` is the null pointer, and NOT, AND and OR have
-- `children`.
mutual
  pub data Node : Type 0 where
    null : Node
    word : Bytes → Node
    negation : Nodes → Node
    conjunction : Nodes → Node
    disjunction : Nodes → Node

  pub data Nodes : Type 0 where
    nil : Nodes
    cons : Node → Nodes → Nodes

-- `case WORD`, on the result of `line.find(node->word)`.
unfoldable pub match_word : Bool → Bytes → List MatchedWord → Option ℕ → Bool × List MatchedWord
match_word with_res w out none = (false, out)
match_word with_res w out (some pos) =
    (true, if with_res then out ++ (record { word = w; pos = pos } ∷ []) else out)

-- The lambda `match_node`: the answer, and `out` as it is left. `match_all` and `match_any` are the
-- loops over the children, and `match_first` is the call on `children[0]`.
unfoldable mutual
  pub match_node : Bytes → Bool → Node → List MatchedWord → Bool × List MatchedWord
  match_node line with_res null out = (false, out)
  match_node line with_res (word w) out = match_word with_res w out (find line w)
  match_node line with_res (negation cs) out = (match_first line with_res cs, out)
  match_node line with_res (conjunction cs) out =
      let (ok, tmp) = match_all line with_res cs [] in (ok, if ok then out ++ tmp else out)
  match_node line with_res (disjunction cs) out = match_any line with_res cs out

  pub match_first : Bytes → Bool → Nodes → Bool
  match_first line with_res nil = false
  match_first line with_res (cons c cs) = not (match_node line with_res c []).0

  pub match_all : Bytes → Bool → Nodes → List MatchedWord → Bool × List MatchedWord
  match_all line with_res nil tmp = (true, tmp)
  match_all line with_res (cons c cs) tmp =
      let (ok, child_matched) = match_node line with_res c [] in
      let rest = match_all line with_res cs (tmp ++ child_matched) in
      if ok then rest else (false, tmp)

  pub match_any : Bytes → Bool → Nodes → List MatchedWord → Bool × List MatchedWord
  match_any line with_res nil out = (false, out)
  match_any line with_res (cons c cs) out =
      let (ok, out') = match_node line with_res c out in
      let rest = match_any line with_res cs out' in if ok then (true, out') else rest

-- `boolean_searcher::search_line`.
unfoldable pub search_boolean : Node → Bytes → List MatchedWord → Bool → Bool × List MatchedWord
search_boolean pattern line matched with_res =
    match_node line with_res pattern (if with_res then [] else matched)
