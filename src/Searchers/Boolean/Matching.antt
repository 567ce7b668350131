-- ===== src/Searchers/Boolean/Matching.antt =====
-- What `search_line` answers: the truth of the expression over the words of the line.
use drlog_search.Base.{
  ℕ, Bool, true, false, not, some, List, [], ◌∷◌, ◌++◌, append-nil, append_assoc, Bytes,
  if◌then◌else◌, ◌≡◌, refl, sym, ◌∙◌, ◌⊎◌, inl, inr, ◌↔◌, arith, Option-cases, All, All-append,
}
use drlog_search.Text.{find}
use drlog_search.Text.Find.{find_sound}
use drlog_search.Searchers.Word.{MatchedWord, StandsIn}
use drlog_search.Searchers.Boolean.{
  Node, Nodes, null, word, negation, conjunction, disjunction, nil, cons, match_node, match_word,
  match_first, match_all, match_any, search_boolean,
}
use drlog_search.Searchers.Boolean.Meaning.{
  Contains, Holds, FailsFirst, HoldsAll, HoldsAny, find-Contains, find-none,
}

-- The words that a run has added to `out` stand in the line where it says, and there are none where
-- no result is asked for.
pub record Added (line : Bytes) (with_res : Bool) (out res : List MatchedWord) : Type 0 where
  pub new : List MatchedWord
  pub appended : res ≡ out ++ new
  pub standing : All (StandsIn line) new
  pub none_unasked : with_res ≡ false → new ≡ []

-- The answer decides `P`.
pub record Answers (P : Type 0) (b : Bool) : Type 0 where
  pub sound : b ≡ true → P
  pub complete : b ≡ false → ¬ P

module _ (line : Bytes) (with_res : Bool) where
  Added-refl : (out : List MatchedWord) → Added line with_res out out
  Added-refl out = record {
    new = [];
    appended = sym (append-nil out);
    standing = tt;
    none_unasked = λ _. refl;
  }

  Added-trans :
      {a b c : List MatchedWord}
      → Added line with_res a b
      → Added line with_res b c
      → Added line with_res a c
  Added-trans {a} x y = record {
    new = x.new ++ y.new;
    appended = y.appended ∙ rw x.appended (append_assoc a x.new y.new);
    standing = All-append _ x.new y.new x.standing y.standing;
    none_unasked = λ e. rw (x.none_unasked e, y.none_unasked e);
  }

  Added-append :
      {a b : List MatchedWord} → Added line with_res [] a → Added line with_res b (b ++ a)
  Added-append {a} {b} x = record {
    new = a;
    appended = refl;
    standing = rw x.appended x.standing;
    none_unasked = λ e. x.appended ∙ x.none_unasked e;
  }

Added-word :
    (line : Bytes) (with_res : Bool) (w : Bytes) (pos : ℕ) (out : List MatchedWord)
    → find line w ≡ some pos
    → Added line with_res out
        (if with_res then out ++ (record { word = w; pos = pos } ∷ []) else out)
Added-word line false w pos out e = Added-refl line false out
Added-word line true w pos out e =
    let (before, after, splits, at) = find_sound line w pos e in
    record {
      new = record { word = w; pos = pos } ∷ [];
      appended = refl;
      standing = (record { before = before; after = after; splits = splits; at_pos = at }, tt);
      none_unasked = λ h. ground arith;
    }

-- A run of `match_node`: its answer decides `P`, it only adds to `out`, and nothing on failure.
pub record Decides (line : Bytes) (with_res : Bool) (out : List MatchedWord) (P : Type 0)
    (r : Bool × List MatchedWord) : Type 0 where
  pub answers : Answers P r.0
  pub added : Added line with_res out r.1
  pub unchanged : r.0 ≡ false → r.1 ≡ out

-- The loop over the children of AND collects in a vector of its own.
record Collects (line : Bytes) (with_res : Bool) (tmp : List MatchedWord) (P : Type 0)
    (r : Bool × List MatchedWord) : Type 0 where
  answers : Answers P r.0
  added : Added line with_res tmp r.1

word-Decides :
    (line : Bytes) (with_res : Bool) (w : Bytes) (out : List MatchedWord)
    → Decides line with_res out (Contains line w) (match_node line with_res (word w) out)
unfolding match_node match_word
word-Decides line with_res w out = elim (Option-cases (find line w)) [
  | inl e ↦ rw (e) (record {
    answers = record { sound = λ h. cc; complete = λ _. find-none line w e };
    added = Added-refl line with_res out;
    unchanged = λ _. refl;
  })
  | inr (pos, e) ↦ rw (e) (record {
    answers = record { sound = λ _. find-Contains line w pos e; complete = λ h. cc };
    added = Added-word line with_res w pos out e;
    unchanged = λ h. cc;
  })
]

conjunction-Decides :
    (line : Bytes) (with_res : Bool) (P : Type 0) (out : List MatchedWord)
    (r : Bool × List MatchedWord)
    → Collects line with_res [] P r
    → Decides line with_res out P (r.0, if r.0 then out ++ r.1 else out)
conjunction-Decides line with_res P out (true, tmp) c = record {
  answers = c.answers;
  added = Added-append line with_res c.added;
  unchanged = λ h. cc;
}
conjunction-Decides line with_res P out (false, tmp) c = record {
  answers = c.answers;
  added = Added-refl line with_res out;
  unchanged = λ _. refl;
}

cons-Collects :
    (line : Bytes) (with_res : Bool) (P Q : Type 0) (tmp : List MatchedWord)
    (r : Bool × List MatchedWord) (rest : Bool × List MatchedWord)
    → Decides line with_res [] P r
    → Collects line with_res (tmp ++ r.1) Q rest
    → Collects line with_res tmp (P × Q) (if r.0 then rest else (false, tmp))
cons-Collects line with_res P Q tmp (true, m) rest d c = record {
  answers = record {
    sound = λ h. (d.answers.sound refl, c.answers.sound h);
    complete = λ h pq. c.answers.complete h pq.1;
  };
  added = Added-trans line with_res (Added-append line with_res d.added) c.added;
}
cons-Collects line with_res P Q tmp (false, m) rest d c = record {
  answers = record { sound = λ h. cc; complete = λ h pq. d.answers.complete refl pq.0 };
  added = Added-refl line with_res tmp;
}

cons_any-Decides :
    (line : Bytes) (with_res : Bool) (P Q : Type 0) (out : List MatchedWord)
    (r : Bool × List MatchedWord) (rest : Bool × List MatchedWord)
    → Decides line with_res out P r
    → Decides line with_res r.1 Q rest
    → Decides line with_res out (P ⊎ Q) (if r.0 then (true, r.1) else rest)
cons_any-Decides line with_res P Q out (true, m) rest d e = record {
  answers = record { sound = λ _. inl (d.answers.sound refl); complete = λ h. cc };
  added = d.added;
  unchanged = λ h. cc;
}
cons_any-Decides line with_res P Q out (false, m) rest d e = record {
  answers = record {
    sound = λ h. inr (e.answers.sound h);
    complete = λ h. elim [ inl p ↦ d.answers.complete refl p | inr q ↦ e.answers.complete h q ];
  };
  added = Added-trans line with_res d.added e.added;
  unchanged = λ h. e.unchanged h ∙ d.unchanged refl;
}

negate-Answers : (P : Type 0) (b : Bool) → Answers P b → Answers (¬ P) (not b)
negate-Answers P true a = record { sound = λ h. cc; complete = λ _ np. np (a.sound refl) }
negate-Answers P false a = record { sound = λ _. a.complete refl; complete = λ h. cc }

Answers-iff : (P : Type 0) (b : Bool) → Answers P b → (b ≡ true) ↔ P
Answers-iff P true a = (λ _. a.sound refl, λ _. refl)
Answers-iff P false a = (λ h. cc, λ p. absurd (a.complete refl p))

mutual
  unfolding match_node match_first match_all match_any

  node-Decides :
      (line : Bytes) (with_res : Bool) (n : Node) (out : List MatchedWord)
      → Decides line with_res out (Holds line n) (match_node line with_res n out)
  node-Decides line with_res null out = record {
    answers = record { sound = λ h. cc; complete = λ _ p. p };
    added = Added-refl line with_res out;
    unchanged = λ _. refl;
  }
  node-Decides line with_res (word w) out = word-Decides line with_res w out
  node-Decides line with_res (negation cs) out = record {
    answers = first-Answers line with_res cs;
    added = Added-refl line with_res out;
    unchanged = λ _. refl;
  }
  node-Decides line with_res (conjunction cs) out =
      conjunction-Decides line with_res (HoldsAll line cs) out _ (all-Collects line with_res cs [])
  node-Decides line with_res (disjunction cs) out = any-Decides line with_res cs out

  first-Answers :
      (line : Bytes) (with_res : Bool) (cs : Nodes)
      → Answers (FailsFirst line cs) (match_first line with_res cs)
  first-Answers line with_res nil = record { sound = λ h. cc; complete = λ _ p. p }
  first-Answers line with_res (cons c cs) =
      negate-Answers (Holds line c) _ (node-Decides line with_res c []).answers

  all-Collects :
      (line : Bytes) (with_res : Bool) (cs : Nodes) (tmp : List MatchedWord)
      → Collects line with_res tmp (HoldsAll line cs) (match_all line with_res cs tmp)
  all-Collects line with_res nil tmp = record {
    answers = record { sound = λ _. tt; complete = λ h. cc };
    added = Added-refl line with_res tmp;
  }
  all-Collects line with_res (cons c cs) tmp =
      cons-Collects line with_res (Holds line c) (HoldsAll line cs) tmp _ _
        (node-Decides line with_res c []) (all-Collects line with_res cs _)

  any-Decides :
      (line : Bytes) (with_res : Bool) (cs : Nodes) (out : List MatchedWord)
      → Decides line with_res out (HoldsAny line cs) (match_any line with_res cs out)
  any-Decides line with_res nil out = record {
    answers = record { sound = λ h. cc; complete = λ _ p. p };
    added = Added-refl line with_res out;
    unchanged = λ _. refl;
  }
  any-Decides line with_res (cons c cs) out =
      cons_any-Decides line with_res (Holds line c) (HoldsAny line cs) out _ _
        (node-Decides line with_res c out) (any-Decides line with_res cs _)

-- For every tree and line, `search_line` answers true exactly when the expression holds of the
-- line. With results, `matched` is then a list of words, each of which stands in the line at the
-- position told, and it is empty when the answer is false; with no results, `matched` is left as it
-- was.
pub search_boolean_lem :
    (pattern : Node) (line : Bytes) (matched : List MatchedWord) (with_res : Bool)
    → (((search_boolean pattern line matched with_res).0 ≡ true) ↔ Holds line pattern)
      × (with_res ≡ true → All (StandsIn line) (search_boolean pattern line matched with_res).1)
      × (with_res ≡ true
          → (search_boolean pattern line matched with_res).0 ≡ false
          → (search_boolean pattern line matched with_res).1 ≡ [])
      × (with_res ≡ false → (search_boolean pattern line matched with_res).1 ≡ matched)
unfolding search_boolean
search_boolean_lem pattern line matched true =
    let d = node-Decides line true pattern [] in
    (
      Answers-iff _ _ d.answers,
      λ _. rw d.added.appended d.added.standing,
      λ _ h. d.unchanged h,
      λ h. absurd (ground arith),
    )
search_boolean_lem pattern line matched false =
    let d = node-Decides line false pattern matched in
    (
      Answers-iff _ _ d.answers,
      λ h. absurd (ground arith),
      λ h _. absurd (ground arith),
      λ _. d.added.appended ∙ rw (d.added.none_unasked refl) (append-nil matched),
    )
