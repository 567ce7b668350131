-- ===== src/Searchers/Boolean/Parse/Total.antt =====
-- `parse_expr` ends within its fuel, and the fuel does not matter.
use drlog_search.Base.{
  ℕ, zero, suc, ◌+◌, ◌≤◌, ◌<◌, List, [], ◌∷◌, ◌++◌, Bytes, ◌≡◌, refl, sym, ◌∙◌, ◌≢◌, arith, length,
}
use drlog_search.Searchers.Boolean.Failure.{
  Failure, ok, throw, ◌>>=◌, out_of_fuel, mismatch_after_not, mismatch,
}
use drlog_search.Searchers.Boolean.Token.{Token}
use drlog_search.Searchers.Boolean.{Node, negation, nil, cons}
use drlog_search.Searchers.Boolean.Parse.{
  Operator, and, or, combine, skip_rparen, Parsed, parse_expr, parse_tokens,
}

-- A parse leaves no more tokens than it was given, and throws nothing of the model's own.
abbrev pub Ends : List Token → Parsed → Type 0
Ends ts (ok (n, rest)) = length rest ≤ length ts
Ends ts (throw e) = e ≢ out_of_fuel

combine-Ends :
    (nodes : List Node) (ops : List Operator) (ts : List Token)
    → Ends ts (do n ← combine nodes ops; ok (n, ts))
unfolding combine
combine-Ends [] ops ts = omega arith
combine-Ends (n ∷ []) ops ts = omega arith
combine-Ends (n ∷ m ∷ ns) [] ts = omega arith
combine-Ends (n ∷ m ∷ ns) (op ∷ ops) ts = ground arith

Ends-mono : (ts us : List Token) (r : Parsed) → length ts ≤ length us → Ends ts r → Ends us r
Ends-mono ts us (ok (n, rest)) h e = omega arith
Ends-mono ts us (throw x) h e = e

-- What follows a parenthesised expression: the parenthesis, and the rest of the level.
nested-Ends :
    (why : Failure) (ts : List Token) (r : Parsed) (next : Node → List Token → Parsed)
    → why ≢ out_of_fuel
    → Ends ts r
    → ((n : Node) (rest : List Token) → length rest < length ts → Ends rest (next n rest))
    → Ends ts (do (n, rest) ← r; rest' ← skip_rparen why rest; next n rest')
unfolding skip_rparen
nested-Ends why ts (throw e) next ne h ih = h
nested-Ends why ts (ok (n, [])) next ne h ih = ne
nested-Ends why ts (ok (n, Token.rparen ∷ rest)) next ne h ih =
    Ends-mono rest ts _ (omega arith) (ih n rest (omega arith))
nested-Ends why ts (ok (n, _ ∷ rest)) next ne h ih = ne

pub parse_expr-Ends :
    (f : ℕ) (ts : List Token) (nodes : List Node) (ops : List Operator)
    → length ts < f
    → Ends ts (parse_expr f ts nodes ops)
unfolding parse_expr
parse_expr-Ends zero ts nodes ops h = absurd (omega arith)
parse_expr-Ends (suc f) [] nodes ops h = combine-Ends nodes ops []
parse_expr-Ends (suc f) (Token.word w ∷ ts) nodes ops h =
    Ends-mono ts (Token.word w ∷ ts) _ (omega arith) (parse_expr-Ends f ts _ ops (omega arith))
parse_expr-Ends (suc f) (Token.negate ∷ Token.word w ∷ ts) nodes ops h =
    Ends-mono ts (Token.negate ∷ Token.word w ∷ ts) _ (omega arith)
      (parse_expr-Ends f ts _ ops (omega arith))
parse_expr-Ends (suc f) (Token.negate ∷ Token.lparen ∷ ts) nodes ops h =
    Ends-mono ts (Token.negate ∷ Token.lparen ∷ ts) _ (omega arith) (
      nested-Ends mismatch_after_not ts (parse_expr f ts [] [])
        (λ n rest. parse_expr f rest (nodes ++ negation (cons n nil) ∷ []) ops) (λ e. cc)
        (parse_expr-Ends f ts [] [] (omega arith))
        (λ n rest l. parse_expr-Ends f rest _ ops (omega arith)))
parse_expr-Ends (suc f) (Token.and ∷ ts) nodes ops h =
    Ends-mono ts (Token.and ∷ ts) _ (omega arith) (parse_expr-Ends f ts nodes _ (omega arith))
parse_expr-Ends (suc f) (Token.or ∷ ts) nodes ops h =
    Ends-mono ts (Token.or ∷ ts) _ (omega arith) (parse_expr-Ends f ts nodes _ (omega arith))
parse_expr-Ends (suc f) (Token.lparen ∷ ts) nodes ops h =
    Ends-mono ts (Token.lparen ∷ ts) _ (omega arith) (
      nested-Ends mismatch ts (parse_expr f ts [] [])
        (λ n rest. parse_expr f rest (nodes ++ n ∷ []) ops) (λ e. cc)
        (parse_expr-Ends f ts [] [] (omega arith))
        (λ n rest l. parse_expr-Ends f rest _ ops (omega arith)))
parse_expr-Ends (suc f) (Token.rparen ∷ ts) nodes ops h = combine-Ends nodes ops (Token.rparen ∷ ts)
parse_expr-Ends (suc f) (Token.negate ∷ _) nodes ops h = λ e. cc

nested-eq :
    (why : Failure) (ts : List Token) (r r' : Parsed) (next next' : Node → List Token → Parsed)
    → r ≡ r'
    → Ends ts r
    → ((n : Node) (rest : List Token) → length rest < length ts → next n rest ≡ next' n rest)
    → ◌≡◌ {A = Parsed}
        (do (n, rest) ← r; rest' ← skip_rparen why rest; next n rest')
        (do (n, rest) ← r'; rest' ← skip_rparen why rest; next' n rest')
unfolding skip_rparen
nested-eq why ts (throw e) r' next next' eq h ih = rw (← eq)
nested-eq why ts (ok (n, [])) r' next next' eq h ih = rw (← eq)
nested-eq why ts (ok (n, Token.rparen ∷ rest)) r' next next' eq h ih =
    rw (← eq) (ih n rest (omega arith))
nested-eq why ts (ok (n, _ ∷ rest)) r' next next' eq h ih = rw (← eq)

-- Any two fuels that suffice give the same result.
pub parse_expr_fuel :
    (f g : ℕ) (ts : List Token) (nodes : List Node) (ops : List Operator)
    → length ts < f
    → length ts < g
    → parse_expr f ts nodes ops ≡ parse_expr g ts nodes ops
unfolding parse_expr
parse_expr_fuel zero g ts nodes ops h k = absurd (omega arith)
parse_expr_fuel (suc f) zero ts nodes ops h k = absurd (omega arith)
parse_expr_fuel (suc f) (suc g) [] nodes ops h k = refl
parse_expr_fuel (suc f) (suc g) (Token.word w ∷ ts) nodes ops h k =
    parse_expr_fuel f g ts _ ops (omega arith) (omega arith)
parse_expr_fuel (suc f) (suc g) (Token.negate ∷ Token.word w ∷ ts) nodes ops h k =
    parse_expr_fuel f g ts _ ops (omega arith) (omega arith)
parse_expr_fuel (suc f) (suc g) (Token.negate ∷ Token.lparen ∷ ts) nodes ops h k =
    nested-eq mismatch_after_not ts _ _ _ _
      (parse_expr_fuel f g ts [] [] (omega arith) (omega arith))
      (parse_expr-Ends f ts [] [] (omega arith))
      (λ n rest l. parse_expr_fuel f g rest _ ops (omega arith) (omega arith))
parse_expr_fuel (suc f) (suc g) (Token.and ∷ ts) nodes ops h k =
    parse_expr_fuel f g ts nodes _ (omega arith) (omega arith)
parse_expr_fuel (suc f) (suc g) (Token.or ∷ ts) nodes ops h k =
    parse_expr_fuel f g ts nodes _ (omega arith) (omega arith)
parse_expr_fuel (suc f) (suc g) (Token.lparen ∷ ts) nodes ops h k =
    nested-eq mismatch ts _ _ _ _ (parse_expr_fuel f g ts [] [] (omega arith) (omega arith))
      (parse_expr-Ends f ts [] [] (omega arith))
      (λ n rest l. parse_expr_fuel f g rest _ ops (omega arith) (omega arith))
parse_expr_fuel (suc f) (suc g) (Token.rparen ∷ ts) nodes ops h k = refl
parse_expr_fuel (suc f) (suc g) (Token.negate ∷ _) nodes ops h k = refl

-- `parse_tokens` with any fuel that suffices.
parse_tokens_at :
    (f : ℕ) (ts : List Token) (nodes : List Node) (ops : List Operator)
    → length ts < f
    → parse_expr f ts nodes ops ≡ parse_tokens ts nodes ops
unfolding parse_tokens
parse_tokens_at f ts nodes ops h = parse_expr_fuel f (length ts + 1) ts nodes ops h (omega arith)

-- The rounds of the loop, with no fuel in sight.
pub parse_tokens-word :
    (w : Bytes) (ts : List Token) (nodes : List Node) (ops : List Operator)
    → parse_tokens (Token.word w ∷ ts) nodes ops ≡ parse_tokens ts (nodes ++ Node.word w ∷ []) ops
unfolding parse_expr
parse_tokens-word w ts nodes ops =
    sym (parse_tokens_at (suc (length ts + 1)) _ nodes ops (omega arith))
    ∙ parse_tokens_at (length ts + 1) ts _ ops (omega arith)

pub parse_tokens-not_word :
    (w : Bytes) (ts : List Token) (nodes : List Node) (ops : List Operator)
    → parse_tokens (Token.negate ∷ Token.word w ∷ ts) nodes ops
      ≡ parse_tokens ts (nodes ++ negation (cons (Node.word w) nil) ∷ []) ops
unfolding parse_expr
parse_tokens-not_word w ts nodes ops =
    sym (parse_tokens_at (suc (length ts + 2)) _ nodes ops (omega arith))
    ∙ parse_tokens_at (length ts + 2) ts _ ops (omega arith)

pub parse_tokens-and :
    (ts : List Token) (nodes : List Node) (ops : List Operator)
    → parse_tokens (Token.and ∷ ts) nodes ops ≡ parse_tokens ts nodes (ops ++ and ∷ [])
unfolding parse_expr
parse_tokens-and ts nodes ops =
    sym (parse_tokens_at (suc (length ts + 1)) _ nodes ops (omega arith))
    ∙ parse_tokens_at (length ts + 1) ts nodes _ (omega arith)

pub parse_tokens-or :
    (ts : List Token) (nodes : List Node) (ops : List Operator)
    → parse_tokens (Token.or ∷ ts) nodes ops ≡ parse_tokens ts nodes (ops ++ or ∷ [])
unfolding parse_expr
parse_tokens-or ts nodes ops =
    sym (parse_tokens_at (suc (length ts + 1)) _ nodes ops (omega arith))
    ∙ parse_tokens_at (length ts + 1) ts nodes _ (omega arith)

pub parse_tokens-rparen :
    (ts : List Token) (nodes : List Node) (ops : List Operator)
    → parse_tokens (Token.rparen ∷ ts) nodes ops
      ≡ (do n ← combine nodes ops; ok (n, Token.rparen ∷ ts))
unfolding parse_expr
parse_tokens-rparen ts nodes ops =
    sym (parse_tokens_at (suc (length ts + 1)) _ nodes ops (omega arith))

pub parse_tokens-nil :
    (nodes : List Node) (ops : List Operator)
    → parse_tokens [] nodes ops ≡ (do n ← combine nodes ops; ok (n, []))
unfolding parse_tokens
parse_tokens-nil nodes ops = refl

nested_result :
    (f : ℕ) (ts rest : List Token) (n : Node)
    → length ts < f
    → parse_tokens ts [] [] ≡ ok (n, Token.rparen ∷ rest)
    → (parse_expr f ts [] [] ≡ ok (n, Token.rparen ∷ rest)) × (length rest < length ts)
nested_result f ts rest n h e =
    let p = parse_tokens_at f ts [] [] h ∙ e in
    let short : length (Token.rparen ∷ rest) ≤ length ts = rw p at (parse_expr-Ends f ts [] [] h) in
    (p, short)

-- A parenthesised expression that is parsed up to its parenthesis is one operand.
pub parse_tokens-lparen :
    (ts rest : List Token) (n : Node) (nodes : List Node) (ops : List Operator)
    → parse_tokens ts [] [] ≡ ok (n, Token.rparen ∷ rest)
    → parse_tokens (Token.lparen ∷ ts) nodes ops ≡ parse_tokens rest (nodes ++ n ∷ []) ops
unfolding parse_expr
parse_tokens-lparen ts rest n nodes ops e =
    sym (parse_tokens_at (suc (length ts + 1)) _ nodes ops (omega arith))
    ∙ (let (p, short) = nested_result (length ts + 1) ts rest n (omega arith) e in
        rw p (parse_tokens_at (length ts + 1) rest _ ops (omega arith)))

pub parse_tokens-not_lparen :
    (ts rest : List Token) (n : Node) (nodes : List Node) (ops : List Operator)
    → parse_tokens ts [] [] ≡ ok (n, Token.rparen ∷ rest)
    → parse_tokens (Token.negate ∷ Token.lparen ∷ ts) nodes ops
      ≡ parse_tokens rest (nodes ++ negation (cons n nil) ∷ []) ops
unfolding parse_expr
parse_tokens-not_lparen ts rest n nodes ops e =
    sym (parse_tokens_at (suc (length ts + 2)) _ nodes ops (omega arith))
    ∙ (let (p, short) = nested_result (length ts + 2) ts rest n (omega arith) e in
        rw p (parse_tokens_at (length ts + 2) rest _ ops (omega arith)))

pub parse_tokens-Ends :
    (ts : List Token) (nodes : List Node) (ops : List Operator)
    → Ends ts (parse_tokens ts nodes ops)
unfolding parse_tokens
parse_tokens-Ends ts nodes ops = parse_expr-Ends (length ts + 1) ts nodes ops (omega arith)
